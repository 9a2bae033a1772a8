-- ===== src/Service/Refused.antt =====
-- What a pull does whose spend the asset service does not accept.
use gacha_engine_service.Prelude.{◌≤◌, ◌<◌, ◌≡◌, String, ◌⊎◌}
use gacha_engine_service.Prelude.Result.{Outcome, raise}
use gacha_engine_service.Schemas.{PullResponse}
use gacha_engine_service.Operations.Context.{PullRecoveryContext}
use gacha_engine_service.Service.Errors.{AssetServiceError, Failure}
use gacha_engine_service.Service.World.{Env, World}
use gacha_engine_service.Service.Claimed.{unavailable}
use gacha_engine_service.Service.Charged.{failing}

module _ (env : Env) (user_id key request_hash token : String) (context : PullRecoveryContext) where
  abbrev asset_unavailable : Failure
  asset_unavailable = unavailable "asset_unavailable" "asset spend outcome is being reconciled"

  -- What is left of a spend that was asked for and not accepted, by the asset service's status.
  abbrev pub Refusal : World → AssetServiceError → Outcome Failure PullResponse × World → Type 0
  Refusal after exc done =
      ((500 ≤ exc.status_code) × (done ≡ (raise asset_unavailable, after)))
      ⊎ ((exc.status_code < 500)
          × (e : Failure) × (done
              ≡ (raise e, (failing env user_id key request_hash token context exc after).1)))
