-- ===== src/Service/Claimed.antt =====
-- `execute_claimed_pull` and what it calls: the spend, the commit, the publication, the refund of a
-- pull that this worker has claimed.
use gacha_engine_service.Prelude.{
  leb, String, not, Option, none, some, List, [], ◌∷◌, ◌++◌, str_eq, if◌then◌else◌,
}
use gacha_engine_service.Prelude.Result.{Outcome, ok, raise}
use gacha_engine_service.Schemas.{PullResponse, PullCompletedEvent}
use gacha_engine_service.Operations.{
  PullOperation, processing, event_pending, event_published, succeeded, refund_pending, failed,
  status_eq,
}
use gacha_engine_service.Operations.Context.{PullRecoveryContext}
use gacha_engine_service.Store.Methods.{
  transition_pull_operation_from_processing, save_pull_operation_by_key, store_error,
  ownership_lost,
}
use gacha_engine_service.Store.Queries.{get_pull_operation_by_key}
use gacha_engine_service.Service.Errors.{
  AssetServiceError, Failure, http, store, asset, publish_error, text_or, asset_error_code,
  asset_error_message, asset_http_exception, state_store_http_exception,
  pull_in_progress_http_exception,
}
use gacha_engine_service.Service.World.{
  Env, Action, AssetRequest, MetadataValue, text, return, fail, attempt, ◌>>=◌, ◌>>◌, store_call,
  asset_spend, asset_credit,
}
use gacha_engine_service.Service.Names.{
  spend_idempotency_key, refund_idempotency_key, pull_asset_metadata,
}
use gacha_engine_service.Service.Commit.{
  completed_operation, failed_operation, publish_pull_completed_with_retry,
  generate_and_commit_pull_with_retry,
}

abbrev pub conflict : String → String → Failure
conflict code message = http (record { status_code = 409; code = code; message = message })

abbrev pub unavailable : String → String → Failure
unavailable code message = http (record { status_code = 503; code = code; message = message })

-- `operation.error_code or fallback`
abbrev pub optional_or : Option String → String → String
optional_or none fallback = fallback
optional_or (some value) fallback = text_or value fallback

-- The metadata of the asset entries of a context.
abbrev pub context_metadata : PullRecoveryContext → List (String × MetadataValue)
context_metadata context =
    pull_asset_metadata context.event_id context.banner.id (some context.pity_group_id)
      context.banner_version_id context.count context.audit

unfoldable pub spend_request : String → PullRecoveryContext → AssetRequest
unfolding spend_idempotency_key pull_asset_metadata
spend_request user_id context = record {
  user_id = user_id;
  amount_minor = context.amount_minor;
  idempotency_key = spend_idempotency_key context.event_id;
  reason = "gacha_pull";
  metadata = context_metadata context;
  request_id = context.request_id;
}

-- What the statuses of an operation mean to the handlers.
pub data Standing : Type 0 where
  delivered : PullResponse → Standing
  undelivered : PullResponse → PullCompletedEvent → Standing
  owes_refund has_failed in_progress : Standing

abbrev published_standing : Option PullResponse → Standing
published_standing none = in_progress
published_standing (some response) = delivered response

abbrev pending_standing : Option PullResponse → Option PullCompletedEvent → Standing
pending_standing (some response) (some event) = undelivered response event
pending_standing _ _ = in_progress

-- The tests of `handle_claimed_pull_operation` and `handle_existing_pull_operation`, in their order.
unfoldable pub standing : PullOperation → Standing
standing operation = elim operation.status [
  | event_published ↦ published_standing operation.response
  | succeeded ↦ published_standing operation.response
  | event_pending ↦ pending_standing operation.response operation.event
  | refund_pending ↦ owes_refund
  | failed ↦ has_failed
  | processing ↦ in_progress
]

-- `except GachaStateStoreError`
abbrev pub except_store_error : {A : Type 0} → Action A → Outcome Failure A → Action A
except_store_error handler (raise (store store_error)) = handler
except_store_error handler (raise failure) = fail failure
except_store_error handler (ok a) = return a

abbrev pub except_publish_error : {A : Type 0} → Action A → Outcome Failure A → Action A
except_publish_error handler (raise publish_error) = handler
except_publish_error handler (raise failure) = fail failure
except_publish_error handler (ok a) = return a

abbrev pub except_asset_error : {A : Type 0} → Action A → Outcome Failure A → Action A
except_asset_error handler (raise (asset _)) = handler
except_asset_error handler (raise failure) = fail failure
except_asset_error handler (ok a) = return a

module _ (env : Env) where
  unfoldable pub publish_and_complete_claimed_pull :
      String → String → PullResponse → PullCompletedEvent → Action PullResponse
  unfolding publish_pull_completed_with_retry store_call save_pull_operation_by_key
  publish_and_complete_claimed_pull operation_key request_hash response event = do
    published ← attempt (publish_pull_completed_with_retry env event)
    except_publish_error
        (fail (unavailable "kafka_unavailable" "pull event could not be published")) published
    saved ← attempt (
        store_call env (
          save_pull_operation_by_key env.runtime operation_key
            (completed_operation event_published request_hash response event)))
    except_store_error (return tt) saved
    return response

  unfoldable pub refund_claimed_spend :
      String
      → String
      → String
      → PullRecoveryContext
      → List (String × MetadataValue)
      → String
      → String
      → Action (Unit {0})
  unfolding asset_credit store_call save_pull_operation_by_key refund_idempotency_key
  refund_claimed_spend user_id operation_key request_hash context metadata code message = do
    credited ← attempt (
        asset_credit env (record {
          user_id = user_id;
          amount_minor = context.amount_minor;
          idempotency_key = refund_idempotency_key context.event_id;
          reason = "gacha_pull_refund";
          metadata = metadata ++ ("refund_reason", text code) ∷ [];
          request_id = context.request_id;
        }))
    except_asset_error
        (fail (unavailable "asset_refund_unavailable" "asset refund could not be completed"))
        credited
    store_call env (
        save_pull_operation_by_key env.runtime operation_key
          (failed_operation request_hash code message))

  -- The replies of `handle_claimed_pull_operation` to what the operation's status means.
  unfoldable pub claimed_reply :
      PullOperation
      → String
      → String
      → String
      → PullRecoveryContext
      → List (String × MetadataValue)
      → Standing
      → Action PullResponse
  unfolding publish_and_complete_claimed_pull refund_claimed_spend state_store_http_exception
  claimed_reply operation user_id operation_key request_hash context metadata (delivered response) =
      return response
  claimed_reply operation user_id operation_key request_hash context metadata
        (undelivered response event) =
      publish_and_complete_claimed_pull operation_key request_hash response event
  claimed_reply operation user_id operation_key request_hash context metadata owes_refund =
      refund_claimed_spend user_id operation_key request_hash context metadata
        (optional_or operation.error_code "pull_refunded")
        (optional_or operation.error_message "pull was refunded")
      >> fail (conflict "pull_refunded" "previous pull attempt was refunded")
  claimed_reply operation user_id operation_key request_hash context metadata has_failed = fail (
      conflict (optional_or operation.error_code "pull_failed")
        (optional_or operation.error_message "previous pull attempt failed"))
  claimed_reply operation user_id operation_key request_hash context metadata in_progress =
      fail (http (state_store_http_exception "pull outcome is being reconciled"))

  unfoldable pub handle_claimed_pull_operation :
      PullOperation
      → String
      → String
      → String
      → PullRecoveryContext
      → List (String × MetadataValue)
      → Action PullResponse
  unfolding claimed_reply standing state_store_http_exception
  handle_claimed_pull_operation operation user_id operation_key request_hash context metadata =
      if not (str_eq operation.request_hash request_hash)
      then fail (http (state_store_http_exception "pull operation request changed"))
      else claimed_reply operation user_id operation_key request_hash context metadata
          (standing operation)

  module _ (user_id operation_key request_hash processing_token : String)
      (context : PullRecoveryContext) where
    -- The operation as the failed spend left it, persisted or not.
    abbrev pub after_transition :
        AssetServiceError → Outcome Failure (Unit {0}) → Action PullResponse
    after_transition exc (raise (store ownership_lost)) =
        fail (http pull_in_progress_http_exception)
    after_transition exc (raise (store store_error)) =
        fail (http (state_store_http_exception "pull failure could not be persisted"))
    after_transition exc (raise failure) = fail failure
    after_transition exc (ok _) = fail (http (asset_http_exception exc))

    -- `except AssetServiceError` after the spend.
    unfoldable pub spend_failed : AssetServiceError → Action PullResponse
    unfolding store_call transition_pull_operation_from_processing asset_error_code
        asset_error_message asset_http_exception state_store_http_exception
        pull_in_progress_http_exception
    spend_failed exc =
        if leb 500 exc.status_code
        then fail (unavailable "asset_unavailable" "asset spend outcome is being reconciled")
        else attempt (
            store_call env (
              transition_pull_operation_from_processing env.runtime operation_key user_id
                request_hash processing_token
                (failed_operation request_hash (asset_error_code exc) (asset_error_message exc))))
          >>= after_transition exc

    -- The operation as the store has it after a commit whose outcome is not known.
    abbrev pub reconcile : Outcome Failure (Option PullOperation) → Action PullResponse
    reconcile (ok (some operation)) =
        if not (status_eq operation.status processing)
        then handle_claimed_pull_operation operation user_id operation_key request_hash context
            (context_metadata context)
        else fail (http (state_store_http_exception "pull outcome is being reconciled"))
    reconcile (ok none) =
        fail (http (state_store_http_exception "pull outcome is being reconciled"))
    reconcile (raise (store store_error)) =
        fail (http (state_store_http_exception "pull outcome is being reconciled"))
    reconcile (raise failure) = fail failure

    unfoldable pub after_commit_pull :
        Outcome Failure (PullResponse × PullCompletedEvent) → Action PullResponse
    unfolding store_call get_pull_operation_by_key handle_claimed_pull_operation
        publish_and_complete_claimed_pull state_store_http_exception pull_in_progress_http_exception
    after_commit_pull (ok (response, event)) =
        publish_and_complete_claimed_pull operation_key request_hash response event
    after_commit_pull (raise (store ownership_lost)) = fail (http pull_in_progress_http_exception)
    after_commit_pull (raise (store store_error)) =
        attempt (store_call env (λ _. get_pull_operation_by_key env.runtime operation_key))
        >>= reconcile
    after_commit_pull (raise failure) = fail failure

    abbrev pub after_spend : Outcome Failure (Unit {0}) → Action PullResponse
    after_spend (ok _) =
        attempt (
          generate_and_commit_pull_with_retry env user_id operation_key request_hash
            processing_token context)
        >>= after_commit_pull
    after_spend (raise (asset exc)) = spend_failed exc
    after_spend (raise failure) = fail failure

    unfoldable pub execute_claimed_pull : Action PullResponse
    unfolding asset_spend spend_request spend_failed after_commit_pull
        generate_and_commit_pull_with_retry
    execute_claimed_pull = attempt (asset_spend env (spend_request user_id context)) >>= after_spend
