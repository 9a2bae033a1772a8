-- ===== src/Service/Existing.antt =====
-- `claim_or_resume_pull` and what it calls for an operation that another request began.
use gacha_engine_service.Prelude.{
  ℕ, ◌+◌, ◌*◌, String, not, Option, none, some, List, [], ◌∷◌, ◌++◌, str_eq, if◌then◌else◌,
}
use gacha_engine_service.Schemas.{PullResponse, PullCompletedEvent}
use gacha_engine_service.Operations.{PullOperation, PullOperationClaim, event_published}
use gacha_engine_service.Operations.Context.{PullRecoveryContext}
use gacha_engine_service.Store.Methods.{save_pull_operation}
use gacha_engine_service.Store.Begin.{begin_pull_operation}
use gacha_engine_service.Service.World.{
  Env, Action, MetadataValue, text, return, fail, attempt, ◌>>=◌, ◌>>◌, store_call, store_outcome,
  asset_credit, new_uuid,
}
use gacha_engine_service.Service.Names.{
  refund_idempotency_key, deterministic_pull_event_id, pull_asset_metadata, astrite_per_pull,
  pull_processing_lease_seconds,
}
use gacha_engine_service.Service.Commit.{
  completed_operation, failed_operation, publish_pull_completed_with_retry,
}
use gacha_engine_service.Service.Claimed.{
  conflict, unavailable, optional_or, context_metadata, standing, Standing, delivered, undelivered,
  owes_refund, has_failed, in_progress, except_store_error, except_publish_error,
  except_asset_error, execute_claimed_pull,
}

-- The fields of `PullRequest` that the handlers read.
pub record PullRequest : Type 0 where
  pub banner_id : String
  pub count : ℕ

-- What the handlers of an existing operation get beside the operation.
pub record ExistingPull : Type 0 where
  pub user_id : String
  pub idempotency_key : String
  pub request_hash : String
  pub event_id : String
  pub amount_minor : ℕ
  pub request_id : String
  pub metadata : List (String × MetadataValue)

module _ (env : Env) where
  unfoldable pub save_pull_operation_best_effort :
      String → String → PullOperation → Action (Unit {0})
  unfolding store_call save_pull_operation
  save_pull_operation_best_effort user_id idempotency_key operation =
      attempt (store_call env (save_pull_operation env.runtime user_id idempotency_key operation))
      >>= except_store_error (return tt)

  unfoldable pub mark_pull_operation_failed :
      String → String → String → String → String → Action (Unit {0})
  unfolding save_pull_operation_best_effort
  mark_pull_operation_failed user_id idempotency_key request_hash code message =
      save_pull_operation_best_effort user_id idempotency_key
        (failed_operation request_hash code message)

  unfoldable pub refund_spend : ExistingPull → String → String → Action (Unit {0})
  unfolding asset_credit mark_pull_operation_failed refund_idempotency_key
  refund_spend pull code message = do
    credited ← attempt (
        asset_credit env (record {
          user_id = pull.user_id;
          amount_minor = pull.amount_minor;
          idempotency_key = refund_idempotency_key pull.event_id;
          reason = "gacha_pull_refund";
          metadata = pull.metadata ++ ("refund_reason", text code) ∷ [];
          request_id = pull.request_id;
        }))
    except_asset_error
        (fail (unavailable "asset_refund_unavailable" "asset refund could not be completed"))
        credited
    mark_pull_operation_failed pull.user_id pull.idempotency_key pull.request_hash code message

  unfoldable pub publish_existing :
      ExistingPull → PullResponse → PullCompletedEvent → Action PullResponse
  unfolding publish_pull_completed_with_retry save_pull_operation_best_effort
  publish_existing pull response event = do
    published ← attempt (publish_pull_completed_with_retry env event)
    except_publish_error
        (fail (unavailable "kafka_unavailable" "pull event could not be published")) published
    save_pull_operation_best_effort pull.user_id pull.idempotency_key
        (completed_operation event_published pull.request_hash response event)
    return response

  -- The replies of `handle_existing_pull_operation` to what the operation's status means.
  unfoldable pub existing_reply : PullOperation → ExistingPull → Standing → Action PullResponse
  unfolding publish_existing refund_spend
  existing_reply operation pull (delivered response) = return response
  existing_reply operation pull (undelivered response event) = publish_existing pull response event
  existing_reply operation pull owes_refund =
      refund_spend pull (optional_or operation.error_code "pull_refunded")
        (optional_or operation.error_message "pull was refunded")
      >> fail (
          conflict "pull_refunded"
            "previous pull attempt was refunded; retry with a new Idempotency-Key")
  existing_reply operation pull has_failed = fail (
      conflict (optional_or operation.error_code "pull_failed") (
        optional_or operation.error_message
          "previous pull attempt failed; retry with a new Idempotency-Key"))
  existing_reply operation pull in_progress =
      fail (conflict "pull_in_progress" "pull is already in progress")

  unfoldable pub handle_existing_pull_operation : PullOperation → ExistingPull → Action PullResponse
  unfolding existing_reply standing
  handle_existing_pull_operation operation pull =
      if not (str_eq operation.request_hash pull.request_hash)
      then fail (
          conflict "idempotency_conflict"
            "Idempotency-Key was already used with a different request")
      else existing_reply operation pull (standing operation)

  abbrev picked :
      {A : Type 0}
      → (PullRecoveryContext → A)
      → (PullResponse → A)
      → (PullCompletedEvent → A)
      → A
      → PullOperation
      → A
  picked c r e missing operation = elim operation.recovery_context [
    | some context ↦ c context
    | none ↦ elim operation.response [
      | some response ↦ r response
      | none ↦ elim operation.event [ some event ↦ e event | none ↦ missing ]
    ]
  ]

  abbrev from_event :
      {A : Type 0} → (PullRecoveryContext → A) → (PullCompletedEvent → A) → A → PullOperation → A
  from_event c e missing operation = elim operation.recovery_context [
    | some context ↦ c context
    | none ↦ elim operation.event [ some event ↦ e event | none ↦ missing ]
  ]

  -- The arguments that `handle_existing_pull_request` gathers from the context, the response, the event
  -- and the request.
  unfoldable pub existing_pull :
      PullOperation → String → String → String → PullRequest → String → ExistingPull
  unfolding deterministic_pull_event_id pull_asset_metadata
  existing_pull operation user_id idempotency_key request_hash request request_id =
      let event_id =
        from_event (λ c. c.event_id) (λ e. e.event_id)
          (deterministic_pull_event_id env.runtime user_id idempotency_key) operation in
      let count : ℕ = elim operation.recovery_context [ some c ↦ c.count | none ↦ request.count ] in
      record {
        user_id = user_id;
        idempotency_key = idempotency_key;
        request_hash = request_hash;
        event_id = event_id;
        amount_minor = elim operation.recovery_context [
          | some c ↦ c.amount_minor
          | none ↦ count * astrite_per_pull
        ];
        request_id = request_id;
        metadata =
            pull_asset_metadata event_id
              (from_event (λ c. c.banner.id) (λ e. e.banner_id) request.banner_id operation)
              (picked (λ c. some c.pity_group_id) (λ r. r.pity_group_id) (λ e. e.pity_group_id) none
                operation)
              (picked (λ c. c.banner_version_id) (λ r. r.banner_version_id)
                (λ e. e.banner_version_id) none operation)
              count (picked (λ c. c.audit) (λ r. r.audit) (λ e. e.audit) none operation);
      }

  unfoldable pub handle_existing_pull_request :
      PullOperation → String → String → String → PullRequest → String → Action PullResponse
  unfolding handle_existing_pull_operation existing_pull
  handle_existing_pull_request operation user_id idempotency_key request_hash request request_id =
      handle_existing_pull_operation operation
        (existing_pull operation user_id idempotency_key request_hash request request_id)

  -- `begin_pull_operation` with two fresh uuids; its statements meet a moment each.
  unfoldable pub begin_call :
      String → String → String → PullRecoveryContext → Action PullOperationClaim
  unfolding begin_pull_operation new_uuid
  begin_call user_id idempotency_key request_hash context = do
    token ← new_uuid env
    id ← new_uuid env
    λ w.
        let (r, db) =
          begin_pull_operation env.runtime user_id idempotency_key request_hash
            pull_processing_lease_seconds context id token (env.moments w.calls)
            (env.moments (w.calls + 1)) (env.moments (w.calls + 2)) w.db in
        (store_outcome env r, record w { db = db; calls = w.calls + 3 })

  module _ (user_id idempotency_key request_hash : String) (context : PullRecoveryContext)
      (request_id : String) where
    -- The claim of another request, as `handle_existing_pull_operation` gets it.
    abbrev resumed_pull : PullRecoveryContext → ExistingPull
    resumed_pull claimed = record {
      user_id = user_id;
      idempotency_key = idempotency_key;
      request_hash = request_hash;
      event_id = claimed.event_id;
      amount_minor = claimed.amount_minor;
      request_id = request_id;
      metadata = context_metadata claimed;
    }

    -- `operation_claim.operation.recovery_context or recovery_context`
    abbrev pub claimed_context : Option PullRecoveryContext → PullRecoveryContext
    claimed_context none = context
    claimed_context (some claimed) = claimed

    abbrev pub with_claim : PullOperationClaim → Action PullResponse
    with_claim claim =
        let claimed = claimed_context claim.operation.recovery_context in
        elim claim.processing_token [
          | none ↦ handle_existing_pull_operation claim.operation (resumed_pull claimed)
          | some token ↦
              execute_claimed_pull env user_id claim.operation_key request_hash token claimed
        ]

    unfoldable pub claim_or_resume_pull : Action PullResponse
    unfolding begin_call handle_existing_pull_operation execute_claimed_pull
    claim_or_resume_pull = do
      begun ← attempt (begin_call user_id idempotency_key request_hash context)
      claim ←
          except_store_error
            (fail (unavailable "state_store_unavailable" "pull idempotency is unavailable")) begun
      with_claim claim
