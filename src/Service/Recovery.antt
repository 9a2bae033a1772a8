-- ===== src/Service/Recovery.antt =====
-- The passes of the recovery worker over expired, undelivered and refundable operations.
use gacha_engine_service.Prelude.{
  ℕ, ◌+◌, String, Bool, true, false, not, ◌||◌, Option, none, some, List, [], ◌∷◌, if◌then◌else◌,
}
use gacha_engine_service.Prelude.Result.{Outcome, ok, raise}
use gacha_engine_service.Schemas.{PullResponse, PullCompletedEvent}
use gacha_engine_service.Operations.{
  PullOperationStatus, PullOperationRecord, PullOperationRecoveryClaim, processing, event_pending,
  event_published, succeeded, refund_pending, status_eq,
}
use gacha_engine_service.Operations.Context.{PullRecoveryContext}
use gacha_engine_service.Store.Methods.{
  claim_expired_processing_pull_operation, claim_pull_operation_recovery,
  release_pull_operation_recovery, save_pull_operation_by_key,
}
use gacha_engine_service.Store.Queries.{
  iter_expired_processing_pull_operations, iter_event_pending_pull_operations,
  iter_refund_pending_pull_operations,
}
use gacha_engine_service.Service.Errors.{Failure}
use gacha_engine_service.Service.World.{
  Env, Action, return, attempt, ◌>>=◌, ◌>>◌, store_call, has_pull_event, new_uuid,
}
use gacha_engine_service.Service.Names.{pull_processing_lease_seconds}
use gacha_engine_service.Service.Commit.{completed_operation, publish_pull_completed_with_retry}
use gacha_engine_service.Service.Claimed.{
  optional_or, context_metadata, except_store_error, execute_claimed_pull, refund_claimed_spend,
}

-- `for record in records`: the sum of what the rounds count.
unfoldable pub for_each : (PullOperationRecord → Action ℕ) → List PullOperationRecord → Action ℕ
for_each round [] = return 0
for_each round (r ∷ rest) = do n ← round r; m ← for_each round rest; return (n + m)

-- A round whose failures are only logged.
abbrev pub counted : {A : Type 0} → Outcome Failure A → Action ℕ
counted (ok _) = return 1
counted (raise _) = return 0

module _ (env : Env) where
  -- `except GachaStateStoreError: continue`
  abbrev pub unless_claimed :
      (PullOperationRecoveryClaim → Action ℕ) → Option PullOperationRecoveryClaim → Action ℕ
  unless_claimed f none = return 0
  unless_claimed f (some claim) = f claim

  abbrev pub run_claim : PullOperationRecoveryClaim → Action ℕ
  run_claim claim = elim claim.operation.recovery_context [
    | none ↦ return 0
    | some context ↦
        attempt (
          execute_claimed_pull env claim.user_id claim.operation_key claim.operation.request_hash
            claim.processing_token context)
        >>= counted
  ]

  abbrev pub has_context : Option PullRecoveryContext → Bool
  has_context none = false
  has_context (some _) = true

  unfoldable pub recover_expired : ℕ → PullOperationRecord → Action ℕ
  unfolding new_uuid store_call claim_expired_processing_pull_operation execute_claimed_pull
  recover_expired lease_seconds r =
      if not (status_eq r.operation.status processing)
        || not (has_context r.operation.recovery_context)
      then return 0
      else new_uuid env >>= λ token.
          attempt (
            store_call env (
              claim_expired_processing_pull_operation env.runtime r.operation_key lease_seconds
                token))
          >>= λ claimed. except_store_error (return none) claimed >>= unless_claimed run_claim

  unfoldable pub recover_expired_processing_pulls_once : ℕ → ℕ → Action ℕ
  unfolding store_call iter_expired_processing_pull_operations for_each recover_expired
  recover_expired_processing_pulls_once limit lease_seconds = do
    scanned ← attempt (store_call env (iter_expired_processing_pull_operations env.runtime limit))
    records ← except_store_error (return []) scanned
    for_each (recover_expired lease_seconds) records

  -- `finally`: the lock is released, and what the release raises is only logged.
  unfoldable pub release_lock : String → ℕ → Action ℕ
  unfolding store_call release_pull_operation_recovery
  release_lock operation_key n =
      attempt (store_call env (release_pull_operation_recovery env.runtime operation_key))
      >>= λ released. except_store_error (return tt) released >> return n

  -- The work of a round under the recovery lock of the operation.
  unfoldable pub under_lock :
      {A : Type 0} → PullOperationRecord → PullOperationStatus → ℕ → Action A → Action ℕ
  unfolding store_call claim_pull_operation_recovery release_lock
  under_lock r expected lock_ttl_seconds work =
      attempt (
        store_call env
          (claim_pull_operation_recovery env.runtime r.operation_key expected lock_ttl_seconds))
      >>= λ claimed. except_store_error (return false) claimed >>= λ owned.
          if not owned
          then return 0
          else attempt work >>= λ done. counted done >>= λ n. release_lock r.operation_key n

  abbrev pub advance_delivery :
      PullOperationRecord
      → PullOperationStatus
      → PullResponse
      → PullCompletedEvent
      → Action (Unit {0})
  advance_delivery r status response event = store_call env (
      save_pull_operation_by_key env.runtime r.operation_key
        (completed_operation status r.operation.request_hash response event))

  -- Where the reward is not applied, the event is published again.
  unfoldable pub deliver_event :
      PullOperationRecord → PullResponse → PullCompletedEvent → Action (Unit {0})
  unfolding store_call save_pull_operation_by_key publish_pull_completed_with_retry has_pull_event
  deliver_event r response event =
      if status_eq r.operation.status event_pending
      then publish_pull_completed_with_retry env event
        >> advance_delivery r event_published response event
      else has_pull_event env >>= λ reward_applied.
          if reward_applied
          then advance_delivery r succeeded response event
          else publish_pull_completed_with_retry env event

  abbrev pub recover_result :
      ℕ → PullOperationRecord → Option PullResponse → Option PullCompletedEvent → Action ℕ
  recover_result ttl r (some response) (some event) =
      under_lock r r.operation.status ttl (deliver_event r response event)
  recover_result ttl r _ _ = return 0

  unfoldable pub recover_event : ℕ → PullOperationRecord → Action ℕ
  unfolding under_lock deliver_event
  recover_event lock_ttl_seconds r =
      if not
        (status_eq r.operation.status event_pending || status_eq r.operation.status event_published)
      then return 0
      else recover_result lock_ttl_seconds r r.operation.response r.operation.event

  unfoldable pub recover_pending_pull_events_once : ℕ → ℕ → Action ℕ
  unfolding store_call iter_event_pending_pull_operations for_each recover_event
  recover_pending_pull_events_once limit lock_ttl_seconds = do
    scanned ← attempt (store_call env (λ _. iter_event_pending_pull_operations env.runtime limit))
    records ← except_store_error (return []) scanned
    for_each (recover_event lock_ttl_seconds) records

  unfoldable pub recover_refund : ℕ → PullOperationRecord → Action ℕ
  unfolding under_lock refund_claimed_spend
  recover_refund lock_ttl_seconds r = elim r.operation.recovery_context [
    | none ↦ return 0
    | some context ↦
        if not (status_eq r.operation.status refund_pending)
        then return 0
        else under_lock r refund_pending lock_ttl_seconds (
            refund_claimed_spend env r.user_id r.operation_key r.operation.request_hash context
              (context_metadata context) (optional_or r.operation.error_code "pull_refunded")
              (optional_or r.operation.error_message "pull was refunded"))
  ]

  unfoldable pub recover_pending_pull_refunds_once : ℕ → ℕ → Action ℕ
  unfolding store_call iter_refund_pending_pull_operations for_each recover_refund
  recover_pending_pull_refunds_once limit lock_ttl_seconds = do
    scanned ← attempt (store_call env (λ _. iter_refund_pending_pull_operations env.runtime limit))
    records ← except_store_error (return []) scanned
    for_each (recover_refund lock_ttl_seconds) records

  -- One round of `run_pull_recovery_worker`: the three passes; a failure skips the passes after it.
  unfoldable pub recovery_round : ℕ → ℕ → Action (Outcome Failure (ℕ × ℕ × ℕ))
  unfolding recover_expired_processing_pulls_once recover_pending_pull_events_once
      recover_pending_pull_refunds_once
  recovery_round batch_size lock_ttl_seconds = attempt (do
    processed ← recover_expired_processing_pulls_once batch_size pull_processing_lease_seconds
    events ← recover_pending_pull_events_once batch_size lock_ttl_seconds
    refunds ← recover_pending_pull_refunds_once batch_size lock_ttl_seconds
    return (processed, events, refunds))
