-- ===== src/Service/World.antt =====
-- The state that the workflow runs in: the tables, how many calls have left the process, and the
-- requests to the asset service and to Kafka so far, the latest first. What a call meets is given by
-- its number: the moment of a store call, the replies of the services, fresh uuids.
use gacha_engine_service.Prelude.{
  ℕ, ◌+◌, String, Bool, Option, none, some, List, ◌∷◌, if◌then◌else◌,
}
use gacha_engine_service.Prelude.Result.{Outcome, ok, raise, Result}
use gacha_engine_service.Runtime.{Runtime}
use gacha_engine_service.Schemas.{PullCompletedEvent}
use gacha_engine_service.Store.Rows.{Db}
use gacha_engine_service.Store.Methods.{Call, StoreError}
use gacha_engine_service.Store.Begin.{Moment, at_moment}
use gacha_engine_service.Service.Errors.{
  AssetServiceError, Failure, store, asset, publish_error, receipt_error, python,
}

-- A value of the JSON metadata of an asset request.
pub data MetadataValue : Type 0 where
  text : String → MetadataValue
  number : ℕ → MetadataValue
  null : MetadataValue

-- A request to the asset service.
pub record AssetRequest : Type 0 where
  pub user_id : String
  pub amount_minor : ℕ
  pub idempotency_key : String
  pub reason : String
  pub metadata : List (String × MetadataValue)
  pub request_id : String

pub data Effect : Type 0 where
  spend credit : AssetRequest → Effect
  publish : PullCompletedEvent → Effect

pub record World : Type 0 where
  pub db : Db
  pub calls : ℕ
  pub effects : List Effect

pub record Env : Type 1 where
  pub runtime : Runtime
  pub moments : ℕ → Moment
  -- `none` where the asset service accepts the entry
  pub asset_reply : ℕ → Option AssetServiceError
  -- whether Kafka takes the event
  pub takes_event : ℕ → Bool
  -- the reply to `has_pull_event`; `none` is a `BackpackReceiptError`
  pub receipt : ℕ → Option Bool
  pub fresh_uuid : ℕ → String

abbrev pub Action : Type 0 → Type 0
Action A = World → Outcome Failure A × World

module _ {A : Type 0} where
  unfoldable pub return : A → Action A
  return a w = (ok a, w)

  unfoldable pub fail : Failure → Action A
  fail f w = (raise f, w)

  -- The outcome as a value, for `except` clauses.
  unfoldable pub attempt : Action A → Action (Outcome Failure A)
  attempt act w = let (r, w') = act w in (ok r, w')

  unfoldable pub from_result : Result A → Action A
  unfolding return fail
  from_result (ok a) = return a
  from_result (raise e) = fail (python e)

infixl 5 ◌>>=◌ ◌>>◌
unfoldable pub ◌>>=◌ : {A B : Type 0} → Action A → (A → Action B) → Action B
◌>>=◌ act f w = let (r, w') = act w in elim r [ ok a ↦ f a w' | raise e ↦ (raise e, w') ]

unfoldable pub ◌>>◌ : {A B : Type 0} → Action A → Action B → Action B
unfolding ◌>>=◌
act >> next = act >>= λ _. next

module _ (env : Env) where
  abbrev pub store_outcome : {A : Type 0} → Outcome StoreError A → Outcome Failure A
  store_outcome (ok a) = ok a
  store_outcome (raise e) = raise (store e)

  -- A call of the store, at its moment.
  unfoldable pub store_call : {A : Type 0} → (ℕ → Call A) → Action A
  unfolding at_moment
  store_call call w =
      let (r, db) = at_moment (env.moments w.calls) call w.db in
      (store_outcome r, record w { db = db; calls = w.calls + 1 })

  abbrev requested : World → Effect → World
  requested w effect = record w { calls = w.calls + 1; effects = effect ∷ w.effects }

  abbrev asset_outcome : Option AssetServiceError → Outcome Failure (Unit {0})
  asset_outcome none = ok tt
  asset_outcome (some exc) = raise (asset exc)

  unfoldable pub asset_spend : AssetRequest → Action (Unit {0})
  asset_spend request w = (asset_outcome (env.asset_reply w.calls), requested w (spend request))

  unfoldable pub asset_credit : AssetRequest → Action (Unit {0})
  asset_credit request w = (asset_outcome (env.asset_reply w.calls), requested w (credit request))

  unfoldable pub publish_pull_completed : PullCompletedEvent → Action (Unit {0})
  publish_pull_completed event w =
      (if env.takes_event w.calls then ok tt else raise publish_error, requested w (publish event))

  abbrev receipt_outcome : Option Bool → Outcome Failure Bool
  receipt_outcome none = raise receipt_error
  receipt_outcome (some b) = ok b

  unfoldable pub has_pull_event : Action Bool
  has_pull_event w = (receipt_outcome (env.receipt w.calls), record w { calls = w.calls + 1 })

  unfoldable pub new_uuid : Action String
  new_uuid w = (ok (env.fresh_uuid w.calls), record w { calls = w.calls + 1 })
