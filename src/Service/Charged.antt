-- ===== src/Service/Charged.antt =====
-- What a pull that this worker has claimed asks of the asset service, and when it hands out a response.
use gacha_engine_service.Prelude.{ℕ, ◌+◌, ◌≤◌, ◌≡◌, String, none, some, ◌∷◌, ◌⊎◌}
use gacha_engine_service.Prelude.Result.{ok, raise}
use gacha_engine_service.Schemas.{PullResponse, PullCompletedEvent}
use gacha_engine_service.Operations.{PullOperation}
use gacha_engine_service.Operations.Context.{PullRecoveryContext}
use gacha_engine_service.Store.Methods.{transition_pull_operation_from_processing, store_error}
use gacha_engine_service.Store.Queries.{get_pull_operation_by_key}
use gacha_engine_service.Service.Errors.{
  AssetServiceError, asset_error_code, asset_error_message, store,
}
use gacha_engine_service.Service.World.{Env, World, Action, AssetRequest, spend, store_call}
use gacha_engine_service.Service.Names.{spend_idempotency_key}
use gacha_engine_service.Service.Commit.{failed_operation, generate_and_commit_pull_with_retry}
use gacha_engine_service.Service.Outcomes.{published}
use gacha_engine_service.Service.Performed.{LastAttempt}
use gacha_engine_service.Service.Delivered.{Delivery, Reconciled}

module _ (env : Env) (user_id key request_hash token : String) (context : PullRecoveryContext) where
  -- What was done after the spend, from the world that it left: this worker committed the pull and
  -- delivered it, or its commit's outcome is not known and it read a result that is on record.
  pub data Settled (w w' : World) (response : PullResponse) : Type 0 where
    fresh :
        (committed : World) (event : PullCompletedEvent)
        → LastAttempt env user_id key request_hash token context 5 w committed (response, event)
        → Delivery env key request_hash committed w' response event
        → Settled w w' response
    on_record :
        (unknown read : World) (operation : PullOperation)
        → (generate_and_commit_pull_with_retry env user_id key request_hash token context w
            ≡ (raise (store store_error), unknown))
        → (store_call env (λ _. get_pull_operation_by_key env.runtime key) unknown
            ≡ (ok (some operation), read))
        → Reconciled env key request_hash read w' operation response
        → Settled w w' response

  -- Nothing but offers of one event, at most three.
  abbrev Offers : World → World → Type 0
  Offers w w' =
      (w'.effects ≡ w.effects)
      ⊎ ((event : PullCompletedEvent) × (n : ℕ) × (n ≤ 3)
          × (w'.effects ≡ published n event w.effects))

  -- The world after a request to the asset service.
  abbrev pub paid : World → AssetRequest → World
  paid w request = record w { calls = w.calls + 1; effects = spend request ∷ w.effects }

  -- The transition of a refused spend to `failed`.
  abbrev pub failing : AssetServiceError → Action (Unit {0})
  failing exc = store_call env (
      transition_pull_operation_from_processing env.runtime key user_id request_hash token
        (failed_operation request_hash (asset_error_code exc) (asset_error_message exc)))

  -- A response was handed out for one spend that the asset service accepted, of the context's amount
  -- under the context's key.
  pub record IsCharged (w w' : World) (response : PullResponse) : Type 0 where
    pub request : AssetRequest
    pub user : request.user_id ≡ user_id
    pub amount : request.amount_minor ≡ context.amount_minor
    pub idempotency : request.idempotency_key ≡ spend_idempotency_key context.event_id
    pub accepted : env.asset_reply w.calls ≡ none
    pub settled : Settled (paid w request) w' response
    pub effects :
        (w'.effects ≡ spend request ∷ w.effects)
        ⊎ ((event : PullCompletedEvent) × (n : ℕ) × (n ≤ 3)
            × (w'.effects ≡ published n event (spend request ∷ w.effects)))
