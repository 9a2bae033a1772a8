-- ===== src/Store/Sql.antt =====
-- The SQL statements of gacha_engine_service/postgres_state.py, as functions of the tables. `none` is
-- a statement that the database refuses.
use Prim.Native.String.{count as characters}
use gacha_engine_service.Prelude.{
  not, leb, ℕ, ◌+◌, ◌*◌, String, Bool, true, false, ◌&&◌, ◌||◌, Option, none, some, List, [], ◌∷◌,
  ◌==◌, ltb, str_eq, is_some, if◌then◌else◌,
}
use gacha_engine_service.Prelude.Dict.{or_else}
use gacha_engine_service.Schemas.{PityState, PitySnapshot}
use gacha_engine_service.Operations.{
  PullOperationStatus, PullOperation, processing, event_pending, event_published, refund_pending,
  status_eq,
}
use gacha_engine_service.Operations.Context.{PullRecoveryContext}
use gacha_engine_service.Store.Rows.{
  OperationRow, PityRow, Db, second, trigger_allows, checks_pass, event_ids, all_distinct,
}

-- `update … set f where p`, row by row under the trigger and the checks: the new table and the rows
-- written.
unfoldable pub update_rows :
    (OperationRow → Bool)
    → (OperationRow → OperationRow)
    → List OperationRow
    → Option (List OperationRow × List OperationRow)
update_rows p f [] = some ([], [])
update_rows p f (row ∷ rows) = elim (update_rows p f rows) [
  | none ↦ none
  | some (table, written) ↦
      if p row
      then if trigger_allows row (f row) && checks_pass (f row)
        then some (f row ∷ table, f row ∷ written)
        else none
      else some (row ∷ table, written)
]

-- The statement also fails where it breaks the unique index on the event id of the response.
unfoldable pub update_operations :
    (OperationRow → Bool) → (OperationRow → OperationRow) → Db → Option (Db × List OperationRow)
unfolding update_rows event_ids all_distinct
update_operations p f db = elim (update_rows p f db.operations) [
  | none ↦ none
  | some (table, written) ↦
      if all_distinct (event_ids table)
      then some (record db { operations = table }, written)
      else none
]

-- `lease is null or lease < now()`
abbrev pub is_expired : Option ℕ → ℕ → Bool
is_expired none now = true
is_expired (some until) now = ltb until now

abbrev pub has_key : String → String → OperationRow → Bool
has_key user_id key_hash row =
    str_eq row.user_id user_id && str_eq row.idempotency_key_hash key_hash

abbrev pub has_id : String → OperationRow → Bool
has_id id row = str_eq row.id id

-- The columns that every status change writes.
unfoldable pub with_operation : PullOperation → ℕ → OperationRow → OperationRow
with_operation operation now row = record row {
  status = operation.status;
  response = operation.response;
  event = operation.event;
  error_code = operation.error_code;
  error_message = operation.error_message;
  recovery_context = operation.recovery_context;
  processing_token = none;
  processing_lease_until = none;
  updated_at = now;
}

-- UPDATE_PULL_OPERATION_SQL
unfoldable pub update_pull_operation :
    String → PullOperation → ℕ → Db → Option (Db × List OperationRow)
unfolding with_operation
update_pull_operation id operation now =
    update_operations (has_id id)
      (λ row. record (with_operation operation now row) { recovery_locked_until = none })

-- TRANSITION_PROCESSING_OPERATION_SQL
unfoldable pub transition_processing_operation :
    String → String → String → String → PullOperation → ℕ → Db → Option (Db × List OperationRow)
unfolding with_operation
transition_processing_operation id user_id request_hash token operation now =
    update_operations
      (λ row.
        has_id id row
        && str_eq row.user_id user_id
        && str_eq row.request_hash request_hash
        && status_eq row.status processing
        && elim row.processing_token [ none ↦ false | some t ↦ str_eq t token ])
      (with_operation operation now)

-- SAVE_PULL_OPERATION_SQL
unfoldable pub save_operation :
    String → String → PullOperation → ℕ → Db → Option (Db × List OperationRow)
unfolding with_operation
save_operation user_id key_hash operation now =
    update_operations
      (λ row. has_key user_id key_hash row && str_eq row.request_hash operation.request_hash)
      (λ row. record (with_operation operation now row) { recovery_locked_until = none })

abbrev pub lease : String → ℕ → ℕ → OperationRow → OperationRow
lease token seconds now row = record row {
  processing_token = some token;
  processing_lease_until = some (now + seconds * second);
  updated_at = now;
}

-- CLAIM_PROCESSING_OPERATION_SQL
unfoldable pub claim_processing_operation :
    String
    → String
    → String
    → String
    → ℕ
    → PullRecoveryContext
    → ℕ
    → Db
    → Option (Db × List OperationRow)
claim_processing_operation user_id key_hash request_hash token seconds context now =
    update_operations
      (λ row.
        has_key user_id key_hash row
        && str_eq row.request_hash request_hash
        && status_eq row.status processing
        && is_expired row.processing_lease_until now)
      (λ row. record (lease token seconds now row) {
        recovery_context = or_else row.recovery_context (some context);
      })

-- CLAIM_EXPIRED_PROCESSING_OPERATION_SQL
unfoldable pub claim_expired_processing_operation :
    String → String → ℕ → ℕ → Db → Option (Db × List OperationRow)
claim_expired_processing_operation id token seconds now =
    update_operations
      (λ row.
        has_id id row
        && status_eq row.status processing
        && is_some row.recovery_context
        && is_expired row.processing_lease_until now)
      (lease token seconds now)

unfoldable pub is_pending : PullOperationStatus → Bool
is_pending status =
    status_eq status event_pending
    || status_eq status event_published
    || status_eq status refund_pending

-- CLAIM_PENDING_OPERATION_SQL
unfoldable pub claim_pending_operation :
    String → PullOperationStatus → ℕ → ℕ → Db → Option (Db × List OperationRow)
unfolding is_pending
claim_pending_operation id expected seconds now =
    update_operations
      (λ row.
        has_id id row
        && status_eq row.status expected
        && is_pending row.status
        && is_expired row.recovery_locked_until now)
      (λ row. record row {
        recovery_locked_until = some (now + seconds * second);
        updated_at = now;
      })

-- RELEASE_PENDING_OPERATION_SQL
unfoldable pub release_pending_operation : String → ℕ → Db → Option (Db × List OperationRow)
unfolding is_pending
release_pending_operation id now =
    update_operations (λ row. has_id id row && is_pending row.status)
      (λ row. record row { recovery_locked_until = none; updated_at = now })

unfoldable pub find_row : (OperationRow → Bool) → List OperationRow → Option OperationRow
find_row p [] = none
find_row p (row ∷ rows) = if p row then some row else find_row p rows

-- INSERT_PULL_OPERATION_SQL: no row is returned where the user's key is taken; a taken id is refused.
-- The format checks of the two hashes are left out: the callers pass hex digests of SHA-256.
unfoldable pub insert_pull_operation : OperationRow → Db → Option (Db × Option OperationRow)
unfolding find_row
insert_pull_operation row db =
    if is_some (find_row (has_key row.user_id row.idempotency_key_hash) db.operations)
    then some (db, none)
    else if is_some (find_row (has_id row.id) db.operations)
    then none
    else some (record db { operations = row ∷ db.operations }, some row)

abbrev pub has_group : String → String → PityRow → Bool
has_group user_id group row = str_eq row.user_id user_id && str_eq row.pity_group_id group

unfoldable pub find_pity : String → String → List PityRow → Option PitySnapshot
find_pity user_id group [] = none
find_pity user_id group (row ∷ rows) =
    if has_group user_id group row then some row.snapshot else find_pity user_id group rows

-- The length check of the group, which is the banner_id as well.
abbrev pub group_fits : String → Bool
group_fits group = ltb 0 (characters group) && leb (characters group) 100

-- The greatest `integer` and the greatest `bigint`.
abbrev pub fits_integer : ℕ → Bool
fits_integer n = leb n 2_147_483_647

abbrev pub fits_bigint : ℕ → Bool
fits_bigint n = leb n 9_223_372_036_854_775_807

-- INSERT_INITIAL_PITY_SQL: the check comes before the conflict.
unfoldable pub insert_initial_pity : String → String → ℕ → Db → Option Db
unfolding find_pity
insert_initial_pity user_id group now db =
    if not (group_fits group)
    then none
    else if is_some (find_pity user_id group db.pity)
    then some db
    else some (record db {
      pity =
          record {
            user_id = user_id;
            pity_group_id = group;
            snapshot = record {
              state = record { since_five = 0; since_four = 0; guaranteed_featured_five = false };
              version = 0;
            };
            updated_at = now;
          }
          ∷ db.pity;
    })

-- UPDATE_PITY_SQL, row by row: the new table, and the snapshot where a row has the version.
unfoldable pub write_pity_row :
    PityRow → PityState → ℕ → List PityRow → List PityRow × Option PitySnapshot
write_pity_row row next now rest =
    let snapshot : PitySnapshot = record { state = next; version = row.snapshot.version + 1 } in
    (record row { snapshot = snapshot; updated_at = now } ∷ rest, some snapshot)

unfoldable pub update_pity_rows :
    String → String → ℕ → PityState → ℕ → List PityRow → List PityRow × Option PitySnapshot
unfolding write_pity_row
update_pity_rows user_id group expected_version next now [] = ([], none)
update_pity_rows user_id group expected_version next now (row ∷ rows) =
    let (rest, written) = update_pity_rows user_id group expected_version next now rows in
    if has_group user_id group row && row.snapshot.version == expected_version
    then write_pity_row row next now rest
    else (row ∷ rest, written)

-- What the columns of the counters and the driver's version can hold.
unfoldable pub arguments_fit : ℕ → PityState → Bool
arguments_fit version next =
    fits_integer next.since_five && fits_integer next.since_four && fits_bigint version

abbrev pub version_fits : Option PitySnapshot → Bool
version_fits none = true
version_fits (some snapshot) = fits_bigint snapshot.version

-- A number that its column cannot hold is refused.
unfoldable pub update_pity :
    String → String → ℕ → PityState → ℕ → Db → Option (Db × Option PitySnapshot)
unfolding update_pity_rows arguments_fit
update_pity user_id group expected_version next now db =
    let (table, written) = update_pity_rows user_id group expected_version next now db.pity in
    if arguments_fit expected_version next && version_fits written
    then some (record db { pity = table }, written)
    else none
