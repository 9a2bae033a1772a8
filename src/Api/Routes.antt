-- ===== src/Api/Routes.antt =====
-- The handlers of the routes, after their dependencies have passed. The catalog provider's answers are
-- arguments.
use gacha_engine_service.Prelude.{
  ℕ, ◌*◌, String, Bool, ◌||◌, Option, none, some, List, [], ◌∷◌, str_eq, if◌then◌else◌,
}
use gacha_engine_service.Prelude.Result.{Outcome, ok, raise, Result}
use gacha_engine_service.Schemas.{PitySnapshot, PullAuditMetadata, PullResponse}
use gacha_engine_service.CatalogConfig.{BannerConfig, CatalogSnapshot, banner_config_at}
use gacha_engine_service.Operations.{
  PullOperation, PullOperationStatus, PullOperationRecord, event_pending, event_published,
  succeeded, status_eq,
}
use gacha_engine_service.Operations.Context.{PullInputs, from_banner_config}
use gacha_engine_service.Audit.{
  BannerConfigEvidence, Verification, build_pull_audit_metadata, verify_pull_response,
}
use gacha_engine_service.Repository.Values.{Load, catalog_load_error}
use gacha_engine_service.Repository.Values.{python as load_python}
use gacha_engine_service.Store.Methods.{get_snapshot}
use gacha_engine_service.Store.Queries.{
  get_pull_operation as find_operation, get_pull_operation_by_event_id, get_pull_operation_record,
  list_pull_operations as find_operations,
}
use gacha_engine_service.Service.Errors.{Failure, http, python, store, state_store_http_exception}
use gacha_engine_service.Service.World.{
  Env, Action, return, fail, attempt, from_result, ◌>>=◌, store_call,
}
use gacha_engine_service.Service.Names.{
  astrite_per_pull, deterministic_pull_event_id, deterministic_pull_seed,
}
use gacha_engine_service.Service.Existing.{
  PullRequest, handle_existing_pull_request, claim_or_resume_pull,
}
use gacha_engine_service.Service.Summary.{
  ApiError, PullOperationSummary, PullOperationReplay, pull_operation_summary,
  pull_operation_replay, operation_error,
}

abbrev http_error : {A : Type 0} → ℕ → String → String → Action A
http_error status_code code message =
    fail (http (record { status_code = status_code; code = code; message = message }))

unfoldable pub current_catalog_snapshot : Load CatalogSnapshot → Action CatalogSnapshot
current_catalog_snapshot (ok snapshot) = return snapshot
current_catalog_snapshot (raise (catalog_load_error message)) =
    http_error 503 "gacha_config_unavailable" "gacha config is unavailable"
current_catalog_snapshot (raise (load_python e)) = fail (python e)

-- `except GachaStateStoreError`: the answer of the store, or a 503 with the route's message.
unfoldable pub or_unavailable : {A : Type 0} → String → Outcome Failure A → Action A
or_unavailable message (ok a) = return a
or_unavailable message (raise (store e)) = fail (http (state_store_http_exception message))
or_unavailable message (raise failure) = fail failure

-- `PullOperationStateResponse`
pub record PullOperationState : Type 0 where
  pub status : PullOperationStatus
  pub response : Option PullResponse
  pub error : Option ApiError

-- Whether the status is one that has a result to show.
abbrev is_finished : PullOperationStatus → Bool
is_finished status =
    status_eq status event_pending || status_eq status event_published || status_eq status succeeded

unfoldable pub operation_state : PullOperation → PullOperationState
unfolding operation_error
operation_state operation = record {
  status = operation.status;
  response = if is_finished operation.status then operation.response else none;
  error = operation_error operation;
}

unfoldable pub summaries : List PullOperationRecord → Outcome Failure (List PullOperationSummary)
summaries [] = ok []
summaries (record_0 ∷ records) =
    let rest = summaries records in
    elim (pull_operation_summary record_0) [
      | raise failure ↦ raise failure
      | ok summary ↦ elim rest [ raise failure ↦ raise failure | ok items ↦ ok (summary ∷ items) ]
    ]

-- `PullRequest`; an empty seed is refused by its schema.
pub record CreatePull : Type 0 where
  pub banner_id : String
  pub count : ℕ
  pub seed : Option String

module _ (env : Env) where
  -- `/v1/me/pity`
  unfoldable pub get_pity : Load CatalogSnapshot → ℕ → String → String → Action PitySnapshot
  unfolding current_catalog_snapshot or_unavailable store_call get_snapshot
  get_pity loaded now user_id banner_id = do
    snapshot ← current_catalog_snapshot loaded
    found ← from_result (banner_config_at snapshot banner_id now)
    elim found [
      | none ↦ http_error 404 "banner_not_found" "banner was not found"
      | some config ↦ do
        pity ← attempt (store_call env (λ _. get_snapshot user_id config.pity_group_id))
        or_unavailable "pity state is unavailable" pity
    ]

  -- `/v1/me/pulls/operation`
  unfoldable pub get_pull_operation : String → String → Action PullOperationState
  unfolding or_unavailable store_call find_operation operation_state
  get_pull_operation user_id idempotency_key = do
    read ← attempt (store_call env (λ _. find_operation env.runtime user_id idempotency_key))
    found ← or_unavailable "pull operation state is unavailable" read
    elim found [
      | none ↦ http_error 404 "pull_operation_not_found" "pull operation was not found"
      | some operation ↦ return (operation_state operation)
    ]

  -- `/v1/me/pulls/operations`
  unfoldable pub list_pull_operations : String → ℕ → Action (List PullOperationSummary)
  unfolding or_unavailable store_call find_operations summaries
  list_pull_operations user_id limit = do
    read ← attempt (store_call env (λ _. find_operations env.runtime user_id limit))
    records ← or_unavailable "pull operation history is unavailable" read
    or_unavailable "pull operation history is unavailable" (summaries records)

  -- `/v1/me/pulls/operations/{operation_id}/replay`
  unfoldable pub replay_pull_operation : String → String → Action PullOperationReplay
  unfolding or_unavailable store_call get_pull_operation_record pull_operation_replay
  replay_pull_operation user_id operation_id = do
    read ←
        attempt (store_call env (λ _. get_pull_operation_record env.runtime user_id operation_id))
    found ← or_unavailable "pull operation replay is unavailable" read
    elim found [
      | none ↦ http_error 404 "pull_operation_not_found" "pull operation was not found"
      | some r ↦ or_unavailable "pull operation replay is unavailable" (pull_operation_replay r)
    ]

  -- `except CatalogLoadError` of the audit
  abbrev audit_snapshot : Load CatalogSnapshot → Action CatalogSnapshot
  audit_snapshot (ok snapshot) = return snapshot
  audit_snapshot (raise (catalog_load_error message)) =
      http_error 503 "pull_audit_release_unavailable" "recorded gacha release is unavailable"
  audit_snapshot (raise (load_python e)) = fail (python e)

  -- The release that the audit metadata name, or the current one.
  abbrev recorded_release :
      (String → Load CatalogSnapshot)
      → Load CatalogSnapshot
      → Option PullAuditMetadata
      → Load CatalogSnapshot
  recorded_release release current none = current
  recorded_release release current (some audit) = elim audit.release_id [
    | none ↦ current
    | some release_id ↦ release release_id
  ]

  module _ (json : BannerConfigEvidence → String) where
    -- `/v1/me/pulls/{event_id}/audit`; `release` and `current` are the provider's answers.
    unfoldable pub audit_pull :
        (String → Load CatalogSnapshot)
        → Load CatalogSnapshot
        → String
        → String
        → Action Verification
    unfolding or_unavailable store_call get_pull_operation_by_event_id
    audit_pull release current user_id event_id = do
      read ←
          attempt
            (store_call env (λ _. get_pull_operation_by_event_id env.runtime user_id event_id))
      found ← or_unavailable "pull audit evidence is unavailable" read
      let not_found : Action Verification =
          http_error 404 "pull_audit_not_found" "pull audit evidence was not found"
      elim found [
        | none ↦ not_found
        | some operation ↦ elim operation.response [
          | none ↦ not_found
          | some response ↦ do
            snapshot ← audit_snapshot (recorded_release release current response.audit)
            from_result (verify_pull_response env.runtime json response snapshot)
        ]
      ]

    -- `json.dumps` of the request's three fields
    module _ (request_json : String → ℕ → String → String)
        (engine_version engine_build_sha : String) where
      unfoldable pub pull_request_hash : String → ℕ → String → String
      pull_request_hash banner_id count seed =
          env.runtime.sha256 (request_json banner_id count seed)

      -- `pull_request.seed or deterministic_pull_seed(...)`
      abbrev pub seed_of : CreatePull → String → String → String
      seed_of request user_id idempotency_key = elim request.seed [
        | none ↦ deterministic_pull_seed env.runtime user_id idempotency_key
        | some seed ↦
            if str_eq seed ""
            then deterministic_pull_seed env.runtime user_id idempotency_key
            else seed
      ]

      abbrev pub handler_request : CreatePull → PullRequest
      handler_request request = record { banner_id = request.banner_id; count = request.count }

      unfoldable pub pull_existing :
          CreatePull
          → String
          → String
          → String
          → String
          → Option PullOperation
          → Action PullResponse
      unfolding handle_existing_pull_request claim_or_resume_pull
      pull_existing request user_id idempotency_key request_hash request_id none =
          http_error 404 "banner_not_found" "banner was not found"
      pull_existing request user_id idempotency_key request_hash request_id (some existing) =
          elim existing.recovery_context [
            | none ↦
                handle_existing_pull_request env existing user_id idempotency_key request_hash
                  (handler_request request) request_id
            | some context ↦
                claim_or_resume_pull env user_id idempotency_key request_hash context request_id
          ]

      -- The branch of a banner that the catalog no longer has.
      unfoldable pub pull_without_banner :
          CreatePull → String → String → String → String → Action PullResponse
      unfolding or_unavailable store_call find_operation pull_existing
      pull_without_banner request user_id idempotency_key request_hash request_id = do
        read ← attempt (store_call env (λ _. find_operation env.runtime user_id idempotency_key))
        found ← or_unavailable "pull idempotency is unavailable" read
        pull_existing request user_id idempotency_key request_hash request_id found

      abbrev pub pull_inputs :
          CreatePull → String → String → String → ℕ → PullAuditMetadata → PullInputs
      pull_inputs request user_id idempotency_key request_id accepted_at audit = record {
        count = request.count;
        seed = seed_of request user_id idempotency_key;
        event_id = deterministic_pull_event_id env.runtime user_id idempotency_key;
        amount_minor = request.count * astrite_per_pull;
        request_id = request_id;
        accepted_at = some accepted_at;
        audit = some audit;
      }

      -- The recovery context and the claim, once the audit metadata are built; a `ValueError` there
      -- is a 503.
      unfoldable pub pull_audited :
          BannerConfig
          → CreatePull
          → String
          → String
          → String
          → String
          → ℕ
          → Result PullAuditMetadata
          → Action PullResponse
      unfolding claim_or_resume_pull from_banner_config
      pull_audited config request user_id idempotency_key request_hash request_id accepted_at
            (raise e) =
          http_error 503 "gacha_config_evidence_missing"
            "gacha configuration audit evidence is incomplete"
      pull_audited config request user_id idempotency_key request_hash request_id accepted_at
            (ok audit) =
          do
            context ← from_result (
                from_banner_config config
                  (pull_inputs request user_id idempotency_key request_id accepted_at audit))
            claim_or_resume_pull env user_id idempotency_key request_hash context request_id

      -- What follows the choice of the configuration.
      unfoldable pub pull_found :
          CatalogSnapshot
          → CreatePull
          → String
          → String
          → String
          → String
          → ℕ
          → Option BannerConfig
          → Action PullResponse
      unfolding pull_without_banner pull_audited build_pull_audit_metadata
      pull_found snapshot request user_id idempotency_key request_hash request_id accepted_at none =
          pull_without_banner request user_id idempotency_key request_hash request_id
      pull_found snapshot request user_id idempotency_key request_hash request_id accepted_at
            (some config) =
          pull_audited config request user_id idempotency_key request_hash request_id accepted_at (
            build_pull_audit_metadata env.runtime json snapshot config engine_version
              engine_build_sha)

      -- `POST /v1/me/pulls`
      unfoldable pub create_pull :
          Load CatalogSnapshot → CreatePull → String → String → String → ℕ → Action PullResponse
      unfolding current_catalog_snapshot pull_request_hash pull_found
      create_pull loaded request user_id idempotency_key request_id accepted_at = do
        let seed = seed_of request user_id idempotency_key
        let request_hash = pull_request_hash request.banner_id request.count seed
        snapshot ← current_catalog_snapshot loaded
        found ← from_result (banner_config_at snapshot request.banner_id accepted_at)
        pull_found snapshot request user_id idempotency_key request_hash request_id accepted_at
            found
