-- ===== src/Store/Rows.antt =====
-- The two tables of the schema gacha_runtime, with the trigger, the checks and the unique index of
-- migrations/000001 to 000008. A uuid is its text, a time a number of microseconds.
use Prim.Native.String.{count as characters}
use gacha_engine_service.Prelude.{
  ℕ, String, Bool, true, false, ◌&&◌, ◌||◌, not, Option, none, some, List, [], ◌∷◌, leb, str_eq,
  contains, if◌then◌else◌,
}
use gacha_engine_service.Schemas.{PitySnapshot, PullResponse, PullCompletedEvent}
use gacha_engine_service.Schemas.Equality.{decided, responses-discrete, events-discrete}
use gacha_engine_service.Operations.{
  PullOperationStatus, PullOperation, PullOperationRecord, event_pending, event_published,
  succeeded, status_eq,
}
use gacha_engine_service.Operations.Context.{PullRecoveryContext}

-- gacha_runtime.pull_operations
pub record OperationRow : Type 0 where
  pub id : String
  pub user_id : String
  pub idempotency_key_hash : String
  pub request_hash : String
  pub status : PullOperationStatus
  pub response : Option PullResponse
  pub event : Option PullCompletedEvent
  pub error_code : Option String
  pub error_message : Option String
  pub recovery_locked_until : Option ℕ
  pub processing_token : Option String
  pub processing_lease_until : Option ℕ
  pub recovery_context : Option PullRecoveryContext
  pub request_id : Option String
  pub created_at : ℕ
  pub updated_at : ℕ

-- gacha_runtime.pity_snapshots. The banner_id of a row is its group, which the code inserts for both, so
-- that the primary key and the unique index on the group say the same.
pub record PityRow : Type 0 where
  pub user_id : String
  pub pity_group_id : String
  pub snapshot : PitySnapshot
  pub updated_at : ℕ

pub record Db : Type 0 where
  pub operations : List OperationRow
  pub pity : List PityRow

abbrev pub second : ℕ
second = 1_000_000

-- Bytewise equality of the columns that the trigger compares.
unfoldable pub same_evidence : OperationRow → OperationRow → Bool
same_evidence old new =
    str_eq new.request_hash old.request_hash
    && decided (responses-discrete new.response old.response)
    && decided (events-discrete new.event old.event)

unfoldable pub is_delivering : PullOperationStatus → Bool
is_delivering status = status_eq status event_pending || status_eq status event_published

-- `protect_pull_audit_evidence`: whether the trigger lets an update through.
unfoldable pub trigger_allows : OperationRow → OperationRow → Bool
unfolding is_delivering
trigger_allows old new =
    if status_eq old.status succeeded
    then false
    else if is_delivering old.status
    then (status_eq new.status old.status
        || status_eq new.status event_published
        || status_eq new.status succeeded)
      && same_evidence old new
    else true

abbrev at_most : ℕ → Option String → Bool
at_most n none = true
at_most n (some text) = leb (characters text) n

-- The length checks of the table.
unfoldable pub checks_pass : OperationRow → Bool
checks_pass row = at_most 100 row.error_code && at_most 1000 row.error_message

unfoldable pub event_ids : List OperationRow → List String
event_ids [] = []
event_ids (row ∷ rows) =
    let rest = event_ids rows in
    elim row.response [ none ↦ rest | some response ↦ response.event_id ∷ rest ]

unfoldable pub all_distinct : List String → Bool
all_distinct [] = true
all_distinct (x ∷ xs) = not (contains xs x) && all_distinct xs

-- `_operation_from_row`
unfoldable pub operation_from_row : OperationRow → PullOperation
operation_from_row row = record {
  status = row.status;
  request_hash = row.request_hash;
  response = row.response;
  event = row.event;
  error_code = row.error_code;
  error_message = row.error_message;
  recovery_context = row.recovery_context;
}

-- `_operation_record_from_row`
unfoldable pub operation_record_from_row : OperationRow → PullOperationRecord
unfolding operation_from_row
operation_record_from_row row = record {
  operation_key = row.id;
  user_id = row.user_id;
  operation = operation_from_row row;
  request_id = row.request_id;
  created_at = some row.created_at;
  updated_at = some row.updated_at;
}
