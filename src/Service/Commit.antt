-- ===== src/Service/Commit.antt =====
-- `publish_pull_completed_with_retry` and `generate_and_commit_pull_with_retry`. The pauses between the
-- attempts are left out.
use gacha_engine_service.Prelude.{ℕ, zero, suc, ◌+◌, String, none, some, List}
use gacha_engine_service.Prelude.Result.{Outcome, ok, raise}
use gacha_engine_service.Schemas.{
  PityState, PitySnapshot, without_version, PullRecord, PullResponse, PullCompletedEvent,
}
use gacha_engine_service.Engine.Pulls.{perform_pulls}
use gacha_engine_service.Operations.{PullOperation, PullOperationStatus, event_pending, failed}
use gacha_engine_service.Operations.Context.{PullRecoveryContext, to_banner_config}
use gacha_engine_service.Store.Methods.{
  get_snapshot, compare_and_set_with_pull_operation, version_conflict,
}
use gacha_engine_service.Service.Errors.{Failure, http, store, publish_error, runtime_error}
use gacha_engine_service.Service.World.{
  Env, Action, return, fail, attempt, from_result, ◌>>=◌, store_call, publish_pull_completed,
}
use gacha_engine_service.Service.Names.{pity_commit_max_attempts}

abbrev pull_recovery_pending : Failure
pull_recovery_pending = http (record {
  status_code = 503;
  code = "pull_recovery_pending";
  message = "pull is queued behind another pull and will continue automatically";
})

-- The pulls of a context over a pity snapshot, as the response and the event that record them.
unfoldable pub pull_response :
    PullRecoveryContext → List PullRecord → PitySnapshot → PitySnapshot → PullResponse
pull_response context records previous_pity next_pity = record {
  event_id = context.event_id;
  accepted_at = context.accepted_at;
  pity_group_id = some context.pity_group_id;
  banner_version_id = context.banner_version_id;
  seed = context.seed;
  records = records;
  previous_pity = previous_pity;
  next_pity = next_pity;
  state_version = next_pity.version;
  audit = context.audit;
}

unfoldable pub pull_event :
    PullRecoveryContext
    → String
    → List PullRecord
    → PitySnapshot
    → PitySnapshot
    → PullCompletedEvent
pull_event context user_id records previous_pity next_pity = record {
  event_id = context.event_id;
  accepted_at = context.accepted_at;
  user_id = user_id;
  banner_id = context.banner.id;
  pity_group_id = some context.pity_group_id;
  banner_version_id = context.banner_version_id;
  seed = context.seed;
  records = records;
  previous_pity = previous_pity;
  next_pity = next_pity;
  state_version = next_pity.version;
  audit = context.audit;
}

-- `PullOperation` with a result, and with an error.
abbrev pub completed_operation :
    PullOperationStatus → String → PullResponse → PullCompletedEvent → PullOperation
completed_operation status request_hash response event = record {
  status = status;
  request_hash = request_hash;
  response = some response;
  event = some event;
  error_code = none;
  error_message = none;
  recovery_context = none;
}

abbrev pub failed_operation : String → String → String → PullOperation
failed_operation request_hash code message = record {
  status = failed;
  request_hash = request_hash;
  response = none;
  event = none;
  error_code = some code;
  error_message = some message;
  recovery_context = none;
}

module _ (env : Env) where
  -- The attempts that are left; after the last failure its error is raised.
  unfoldable pub publish_attempts : ℕ → PullCompletedEvent → Action (Unit {0})
  unfolding publish_pull_completed
  publish_attempts zero event = fail publish_error
  publish_attempts (suc left) event = do
    r ← attempt (publish_pull_completed env event)
    elim r [ ok _ ↦ return tt | raise _ ↦ publish_attempts left event ]

  unfoldable pub publish_pull_completed_with_retry : PullCompletedEvent → Action (Unit {0})
  unfolding publish_attempts
  publish_pull_completed_with_retry = publish_attempts 3

  -- The `except` clauses of an attempt, by the attempts that are left after it.
  abbrev pub after_commit :
      {A : Type 0} → ℕ → Action A → A → Outcome Failure PitySnapshot → Action A
  after_commit left again result (ok _) = return result
  after_commit zero again result (raise (store (version_conflict _))) = fail pull_recovery_pending
  after_commit (suc left) again result (raise (store (version_conflict _))) = again
  after_commit left again result (raise failure) = fail failure

  module _ (user_id operation_key request_hash processing_token : String)
      (context : PullRecoveryContext) where
    -- The commit of the pulls over the pity snapshot that was read.
    unfoldable pub commit_pulls :
        ℕ
        → Action (PullResponse × PullCompletedEvent)
        → PitySnapshot
        → List PullRecord × PityState
        → Action (PullResponse × PullCompletedEvent)
    unfolding pull_response pull_event store_call compare_and_set_with_pull_operation
    commit_pulls left again previous_pity (records, next_pity_state) =
        let next_pity : PitySnapshot = record {
          state = next_pity_state;
          version = previous_pity.version + 1;
        } in
        let response = pull_response context records previous_pity next_pity in
        let event = pull_event context user_id records previous_pity next_pity in
        let operation = completed_operation event_pending request_hash response event in
        do
          r ← attempt (
              store_call env (
                compare_and_set_with_pull_operation env.runtime operation_key user_id
                  context.pity_group_id request_hash previous_pity.version next_pity_state operation
                  processing_token))
          after_commit left again (response, event) r

    unfoldable pub commit_attempts : ℕ → Action (PullResponse × PullCompletedEvent)
    unfolding commit_pulls get_snapshot
    commit_attempts zero = fail runtime_error
    commit_attempts (suc left) = do
      previous_pity ← store_call env (λ _. get_snapshot user_id context.pity_group_id)
      pulls ← from_result (
          perform_pulls env.runtime (to_banner_config context) context.count
            (without_version previous_pity) context.seed)
      commit_pulls left (commit_attempts left) previous_pity pulls

    unfoldable pub generate_and_commit_pull_with_retry : Action (PullResponse × PullCompletedEvent)
    unfolding commit_attempts
    generate_and_commit_pull_with_retry = commit_attempts pity_commit_max_attempts
