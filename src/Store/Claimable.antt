-- ===== src/Store/Claimable.antt =====
-- That a lock which is over keeps no worker away: the claims of an operation that are granted.
use gacha_engine_service.Prelude.{
  ℕ, ◌+◌, ◌*◌, ◌≡◌, ◌⊎◌, refl, inl, inr, String, Bool, true, false, ◌&&◌, Option, some, List, [],
  ◌∷◌, arith, eq_iff, Bool-cases, str_eq,
}
use Prim.Native.Nat.{max}
use gacha_engine_service.Prelude.Result.{ok}
use gacha_engine_service.Runtime.{Runtime}
use gacha_engine_service.Schemas.Equality.{decided_iff, responses-discrete, events-discrete}
use gacha_engine_service.Operations.{
  PullOperationStatus, status_eq, processing, event_pending, event_published, succeeded,
  refund_pending, failed,
}
use gacha_engine_service.Store.Rows.{
  OperationRow, Db, second, event_ids, all_distinct, trigger_allows, checks_pass, same_evidence,
}
use gacha_engine_service.Store.Sql.{
  update_rows, update_operations, claim_pending_operation, is_expired, is_pending, has_id, find_row,
}
use gacha_engine_service.Store.Methods.{claim_pull_operation_recovery}
use gacha_engine_service.Store.Identity.{UniqueIds, AsksFor, nobody_asked, asked_for, row_of_id}

-- A statement for one id that the row of this id passes, and what the database lets through.
record Passes (id : String) (p : OperationRow → Bool) (f : OperationRow → OperationRow)
    (row : OperationRow) : Type 0 where
  asks : AsksFor id p
  wanted : p row ≡ true
  allowed : trigger_allows row (f row) ≡ true
  checked : checks_pass (f row) ≡ true
  response : (f row).response ≡ row.response

-- The one row is written, and the event ids stay.
record Writes (p : OperationRow → Bool) (f : OperationRow → OperationRow) (rows : List OperationRow)
    (row : OperationRow) : Type 0 where
  table : List OperationRow
  writes : update_rows p f rows ≡ some (table, f row ∷ [])
  events : event_ids table ≡ event_ids rows

event_ids-cons :
    (r r' : OperationRow) (rows rows' : List OperationRow)
    → r'.response ≡ r.response
    → event_ids rows' ≡ event_ids rows
    → event_ids (r' ∷ rows') ≡ event_ids (r ∷ rows)
unfolding event_ids
event_ids-cons r r' rows rows' e h = ground arith

writes_here :
    (p : OperationRow → Bool) (f : OperationRow → OperationRow) (row : OperationRow)
    (rows : List OperationRow)
    → p row ≡ true
    → trigger_allows row (f row) ≡ true
    → checks_pass (f row) ≡ true
    → update_rows p f rows ≡ some (rows, [])
    → update_rows p f (row ∷ rows) ≡ some (f row ∷ rows, f row ∷ [])
unfolding update_rows
writes_here p f row rows wanted allowed checked h = rw (h, wanted, allowed, checked) refl

writes_later :
    (p : OperationRow → Bool) (f : OperationRow → OperationRow) (r : OperationRow)
    (rows : List OperationRow) {table written : List OperationRow}
    → p r ≡ false
    → update_rows p f rows ≡ some (table, written)
    → update_rows p f (r ∷ rows) ≡ some (r ∷ table, written)
unfolding update_rows
writes_later p f r rows other h = rw (h, other) refl

found_head :
    (id : String) (r row : OperationRow) (rows : List OperationRow)
    → find_row (has_id id) (r ∷ rows) ≡ some row
    → ((str_eq r.id id ≡ true) × (r ≡ row))
      ⊎ ((str_eq r.id id ≡ false) × (find_row (has_id id) rows ≡ some row))
unfolding find_row
found_head id r row rows h = elim (Bool-cases (str_eq r.id id)) [
  | inl here ↦ inl (here, ground arith)
  | inr away ↦ inr (away, ground arith)
]

Passes-Writes :
    {id : String} {p : OperationRow → Bool} {f : OperationRow → OperationRow} {row : OperationRow}
    (rows : List OperationRow)
    → Passes id p f row
    → UniqueIds rows
    → find_row (has_id id) rows ≡ some row
    → Writes p f rows row
unfolding UniqueIds
Passes-Writes [] t unique found = absurd (unfold find_row in ground arith)
Passes-Writes {id} {p} {f} {row} (r ∷ rows) t (absent, unique) found =
    elim (found_head id r row rows found) [
      | inl (here, same) ↦ rw same record {
        table = f row ∷ rows;
        writes =
            writes_here p f row rows t.wanted t.allowed t.checked
              (nobody_asked f rows t.asks (row_of_id id r rows here absent));
        events = event_ids-cons row (f row) rows rows t.response refl;
      }
      | inr (away, later) ↦
          let w = Passes-Writes rows t unique later in
          record {
            table = r ∷ w.table;
            writes = writes_later p f r rows (asked_for r t.asks away) w.writes;
            events = event_ids-cons r r rows w.table refl w.events;
          }
    ]

update_operations-Writes :
    {p : OperationRow → Bool} {f : OperationRow → OperationRow} {row : OperationRow} (db : Db)
    → Writes p f db.operations row
    → all_distinct (event_ids db.operations) ≡ true
    → (db' : Db) × (update_operations p f db ≡ some (db', f row ∷ []))
unfolding update_operations
update_operations-Writes db w distinct =
    let d : all_distinct (event_ids w.table) ≡ true = rw w.events distinct in
    (record db { operations = w.table }, let h = w.writes in ground arith)

status_eq_refl : (status : PullOperationStatus) → status_eq status status ≡ true
status_eq_refl processing = refl
status_eq_refl event_pending = refl
status_eq_refl event_published = refl
status_eq_refl succeeded = refl
status_eq_refl refund_pending = refl
status_eq_refl failed = refl

-- A pending status is not the last.
pending_goes_on :
    (status : PullOperationStatus) → is_pending status ≡ true → status_eq status succeeded ≡ false
unfolding is_pending
pending_goes_on processing h = refl
pending_goes_on event_pending h = refl
pending_goes_on event_published h = refl
pending_goes_on succeeded h = absurd (ground arith)
pending_goes_on refund_pending h = refl
pending_goes_on failed h = refl

-- The trigger lets a change of the lock through.
lock-allowed :
    (row : OperationRow) (until : Option ℕ) (now : ℕ)
    → is_pending row.status ≡ true
    → trigger_allows row (record row { recovery_locked_until = until; updated_at = now }) ≡ true
unfolding trigger_allows same_evidence
lock-allowed row until now pending =
    let goes_on = pending_goes_on row.status pending in
    let same = status_eq_refl row.status in
    let hash = (eq_iff row.request_hash row.request_hash).1 refl in
    let response = (decided_iff (responses-discrete row.response row.response)).1 refl in
    let event = (decided_iff (events-discrete row.event row.event)).1 refl in ground arith

unlocked-Passes :
    (id : String) (until now : ℕ) (row : OperationRow)
    → str_eq row.id id ≡ true
    → is_pending row.status ≡ true
    → is_expired row.recovery_locked_until now ≡ true
    → checks_pass row ≡ true
    → Passes id
        (λ r.
          has_id id r
          && status_eq r.status row.status
          && is_pending r.status
          && is_expired r.recovery_locked_until now)
        (λ r. record r { recovery_locked_until = some until; updated_at = now })
        row
unfolding checks_pass
unlocked-Passes id until now row here pending free checked = record {
  asks = record { only = λ r asks. ground arith };
  wanted = let same = status_eq_refl row.status in ground arith;
  allowed = lock-allowed row (some until) now pending;
  checked = checked;
  response = refl;
}

found-id :
    (id : String) (rows : List OperationRow) (row : OperationRow)
    → find_row (has_id id) rows ≡ some row
    → str_eq row.id id ≡ true
found-id id [] row found = absurd (unfold find_row in ground arith)
found-id id (r ∷ rows) row found = elim (found_head id r row rows found) [
  | inl (here, same) ↦ rw (← same) here
  | inr (away, later) ↦ found-id id rows row later
]

-- On a table in which no two operations share an id and no two responses an event id, an operation
-- that waits for its event, its confirmation or its refund, and whose lock of recovery is over (or was
-- never taken), is granted to the next worker that claims it under its status, for whatever ttl.
pub pending_operation_is_claimable :
    (R : Runtime) (key id : String) (ttl now : ℕ) (db : Db) (row : OperationRow)
    → UniqueIds db.operations
    → all_distinct (event_ids db.operations) ≡ true
    → R.parse_uuid key ≡ some id
    → find_row (has_id id) db.operations ≡ some row
    → is_pending row.status ≡ true
    → is_expired row.recovery_locked_until now ≡ true
    → checks_pass row ≡ true
    → (claim_pull_operation_recovery R key row.status ttl now db).0 ≡ ok true
unfolding claim_pull_operation_recovery claim_pending_operation
pending_operation_is_claimable R key id ttl now db row unique distinct parsed found pending free
      checked =
    let passes =
      unlocked-Passes id (now + max 1 ttl * second) now row (found-id id db.operations row found)
        pending free checked in
    let (db', written) =
      update_operations-Writes db (Passes-Writes db.operations passes unique found) distinct in
    let granted : claim_pending_operation id row.status (max 1 ttl) now db
        ≡ some (
          db',
          record row { recovery_locked_until = some (now + max 1 ttl * second); updated_at = now }
              ∷ [],
        ) =
      written in
    ground arith
