-- ===== src/Service/Summary.antt =====
-- `pull_operation_summary` and `pull_operation_replay`: what the API tells of an operation.
use gacha_engine_service.Prelude.{
  ℕ, ◌*◌, String, Bool, true, false, ◌||◌, not, Option, none, some, List, [], ◌∷◌, length, str_eq,
  is_some, if◌then◌else◌, ltb, ◌&&◌,
}
use gacha_engine_service.Prelude.Result.{Outcome, ok, raise}
use gacha_engine_service.Schemas.{PitySnapshot, PullRecord, PullResponse, PullCompletedEvent}
use gacha_engine_service.Operations.{PullOperation, PullOperationRecord, PullOperationStatus}
use gacha_engine_service.Operations.Context.{PullRecoveryContext}
use gacha_engine_service.Store.Methods.{store_error}
use gacha_engine_service.Service.Errors.{Failure, store, python}
use gacha_engine_service.Prelude.Result.{value_error}
use gacha_engine_service.Service.Names.{astrite_per_pull}
use gacha_engine_service.Service.Claimed.{optional_or}

pub record ApiError : Type 0 where
  pub code : String
  pub message : String

pub record PullOperationSummary : Type 0 where
  pub operation_id : String
  pub event_id : Option String
  pub request_id : Option String
  pub banner_id : Option String
  pub banner_version_id : Option String
  pub pity_group_id : Option String
  pub count : Option ℕ
  pub status : PullOperationStatus
  pub error : Option ApiError
  pub next_pity : Option PitySnapshot
  pub created_at : ℕ
  pub updated_at : ℕ

pub data ReplaySource : Type 0 where
  recovery_context persisted_result operation_only : ReplaySource

pub record PullOperationReplayRequest : Type 0 where
  pub source : ReplaySource
  pub banner_id : Option String
  pub banner_version_id : Option String
  pub pity_group_id : Option String
  pub count : Option ℕ
  pub seed : Option String
  pub event_id : Option String
  pub amount_minor : Option ℕ
  pub accepted_at : Option ℕ

pub record PullOperationReplay : Type 0 where
  pub operation_id : String
  pub request_id : Option String
  pub status : PullOperationStatus
  pub request : PullOperationReplayRequest
  pub response : Option PullResponse
  pub event : Option PullCompletedEvent
  pub error : Option ApiError
  pub created_at : ℕ
  pub updated_at : ℕ

-- `x if response is not None else y if event is not None else z if context is not None else None`
abbrev result_first :
    {A : Type 0}
    → (PullResponse → Option A)
    → (PullCompletedEvent → Option A)
    → (PullRecoveryContext → Option A)
    → PullOperation
    → Option A
result_first r e c operation = elim operation.response [
  | some response ↦ r response
  | none ↦ elim operation.event [
    | some event ↦ e event
    | none ↦ elim operation.recovery_context [ some context ↦ c context | none ↦ none ]
  ]
]

abbrev banner_of_records : List PullRecord → Option String → Option String
banner_of_records [] fallback = fallback
banner_of_records (r ∷ _) fallback = some r.banner_id

abbrev response_records : Option PullResponse → List PullRecord
response_records none = []
response_records (some response) = response.records

-- The banner of the response's first record, else of the event, else of the context.
unfoldable pub operation_banner_id : PullOperation → Option String
operation_banner_id operation =
    banner_of_records (response_records operation.response) (elim operation.event [
      | some event ↦ some event.banner_id
      | none ↦ elim operation.recovery_context [
        | some context ↦ some context.banner.id
        | none ↦ none
      ]
    ])

abbrev has_text : Option String → Bool
has_text none = false
has_text (some value) = not (str_eq value "")

unfoldable pub operation_error : PullOperation → Option ApiError
operation_error operation =
    if has_text operation.error_code || has_text operation.error_message
    then some (record {
      code = optional_or operation.error_code "pull_failed";
      message = optional_or operation.error_message "pull operation failed";
    })
    else none

-- `text or None`
abbrev text_or_none : String → Option String
text_or_none value = if str_eq value "" then none else some value

unfoldable pub operation_request_id : PullOperationRecord → Option String
operation_request_id r = elim r.request_id [
  | some request_id ↦ some request_id
  | none ↦ elim r.operation.recovery_context [
    | some context ↦ text_or_none context.request_id
    | none ↦ none
  ]
]

unfoldable pub summary_at : PullOperationRecord → ℕ → ℕ → PullOperationSummary
unfolding operation_banner_id operation_error operation_request_id
summary_at r created_at updated_at = record {
  operation_id = r.operation_key;
  event_id =
      result_first (λ x. some x.event_id) (λ e. some e.event_id) (λ c. some c.event_id) r.operation;
  request_id = operation_request_id r;
  banner_id = operation_banner_id r.operation;
  banner_version_id =
      result_first (λ x. x.banner_version_id) (λ e. e.banner_version_id) (λ c. c.banner_version_id)
        r.operation;
  pity_group_id =
      result_first (λ x. x.pity_group_id) (λ e. e.pity_group_id) (λ c. some c.pity_group_id)
        r.operation;
  count =
      result_first (λ x. some (length x.records)) (λ e. some (length e.records)) (λ c. some c.count)
        r.operation;
  status = r.operation.status;
  error = operation_error r.operation;
  next_pity = result_first (λ x. some x.next_pity) (λ e. some e.next_pity) (λ _. none) r.operation;
  created_at = created_at;
  updated_at = updated_at;
}

abbrev timed : {A : Type 0} → (ℕ → ℕ → A) → Option ℕ → Option ℕ → Outcome Failure A
timed f (some created_at) (some updated_at) = ok (f created_at updated_at)
timed f _ _ = raise (store store_error)

unfoldable pub pull_operation_summary : PullOperationRecord → Outcome Failure PullOperationSummary
unfolding summary_at
pull_operation_summary r = timed (summary_at r) r.created_at r.updated_at

-- The request as the frozen context has it.
abbrev context_request : PullRecoveryContext → PullOperationReplayRequest
context_request context = record {
  source = recovery_context;
  banner_id = some context.banner.id;
  banner_version_id = context.banner_version_id;
  pity_group_id = some context.pity_group_id;
  count = some context.count;
  seed = some context.seed;
  event_id = some context.event_id;
  amount_minor = some context.amount_minor;
  accepted_at = context.accepted_at;
}

abbrev cost_of : Option ℕ → Option ℕ
cost_of none = none
cost_of (some count) = some (count * astrite_per_pull)

abbrev either_result : PullOperation → Bool
either_result operation = is_some operation.response || is_some operation.event

-- The request as the persisted result lets it be told, without a context.
unfoldable pub result_request : PullOperation → Option ℕ → PullOperationReplayRequest
unfolding operation_banner_id
result_request operation created_at =
    let count =
      result_first (λ r. some (length r.records)) (λ e. some (length e.records)) (λ _. none)
        operation in
    record {
      source = if either_result operation then persisted_result else operation_only;
      banner_id = operation_banner_id operation;
      banner_version_id =
          result_first (λ r. r.banner_version_id) (λ e. e.banner_version_id) (λ _. none) operation;
      pity_group_id =
          result_first (λ r. r.pity_group_id) (λ e. e.pity_group_id) (λ _. none) operation;
      count = count;
      seed = result_first (λ r. some r.seed) (λ e. some e.seed) (λ _. none) operation;
      event_id = result_first (λ r. some r.event_id) (λ e. some e.event_id) (λ _. none) operation;
      amount_minor = cost_of count;
      accepted_at = elim operation.response [
        | some r ↦ r.accepted_at
        | none ↦ elim operation.event [ some e ↦ e.accepted_at | none ↦ created_at ]
      ];
    }

abbrev at_least_one : Option ℕ → Bool
at_least_one none = true
at_least_one (some n) = ltb 0 n

unfoldable pub replay_request : PullOperationRecord → PullOperationReplayRequest
unfolding result_request
replay_request r = elim r.operation.recovery_context [
  | some context ↦ context_request context
  | none ↦ result_request r.operation r.created_at
]

unfoldable pub replay_at : PullOperationRecord → ℕ → ℕ → PullOperationReplay
unfolding replay_request operation_request_id operation_error
replay_at r created_at updated_at = record {
  operation_id = r.operation_key;
  request_id = operation_request_id r;
  status = r.operation.status;
  request = replay_request r;
  response = r.operation.response;
  event = r.operation.event;
  error = operation_error r.operation;
  created_at = created_at;
  updated_at = updated_at;
}

-- The schema refuses a count or an amount below one.
unfoldable pub pull_operation_replay : PullOperationRecord → Outcome Failure PullOperationReplay
unfolding replay_at replay_request
pull_operation_replay r =
    let request = replay_request r in
    if is_some r.created_at
      && is_some r.updated_at
      && not (at_least_one request.count && at_least_one request.amount_minor)
    then raise (python value_error)
    else timed (replay_at r) r.created_at r.updated_at
