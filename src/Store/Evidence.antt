-- ===== src/Store/Evidence.antt =====
-- What no statement can change: a row keeps its identity, and once its result is on record the
-- result stays and the status only goes on.
use gacha_engine_service.Prelude.{
  ℕ, ◌≤◌, ◌≡◌, refl, ◌⊎◌, inl, inr, String, Bool, true, Option, some, List, [], ◌∷◌, arith, eq_iff,
  Bool-cases, Option-cases, str_eq,
}
use gacha_engine_service.Schemas.Equality.{decided_iff, responses-discrete, events-discrete}
use gacha_engine_service.Operations.{PullOperationStatus, event_pending, event_published, succeeded}
use gacha_engine_service.Store.Rows.{OperationRow, Db, trigger_allows, same_evidence}
use gacha_engine_service.Store.Sql.{
  update_rows, update_operations, has_id, find_row, insert_pull_operation,
}

-- How far the delivery of a recorded result has got; 0 is no recorded result.
abbrev pub delivery : PullOperationStatus → ℕ
delivery event_pending = 1
delivery event_published = 2
delivery succeeded = 3
delivery _ = 0

pub record SameEvidence (old new : OperationRow) : Type 0 where
  pub request_hash : new.request_hash ≡ old.request_hash
  pub response : new.response ≡ old.response
  pub event : new.event ≡ old.event

-- What may become of a row: its identity stays, a recorded result stays, delivery never goes back,
-- and a row that has succeeded stays as it is.
pub record Evolves (old new : OperationRow) : Type 0 where
  pub id : new.id ≡ old.id
  pub user_id : new.user_id ≡ old.user_id
  pub key : new.idempotency_key_hash ≡ old.idempotency_key_hash
  pub evidence : 1 ≤ delivery old.status → SameEvidence old new
  pub onward : delivery old.status ≤ delivery new.status
  pub final : old.status ≡ succeeded → new ≡ old

pub Evolves-refl : (row : OperationRow) → Evolves row row
Evolves-refl row = record {
  id = refl;
  user_id = refl;
  key = refl;
  evidence = λ _. record { request_hash = refl; response = refl; event = refl };
  onward = omega arith;
  final = λ _. refl;
}

pub Evolves-trans : {a b c : OperationRow} → Evolves a b → Evolves b c → Evolves a c
Evolves-trans {a} {b} {c} p q = record {
  id = cc;
  user_id = cc;
  key = cc;
  evidence = λ h.
      let s = p.evidence h in
      let t = q.evidence (omega arith) in record { request_hash = cc; response = cc; event = cc };
  onward = omega arith;
  final = λ h. let e = p.final h in let f = q.final (rw e h) in cc;
}

-- An update that keeps the identity of every row.
pub record KeepsIdentity (f : OperationRow → OperationRow) : Type 0 where
  pub id : (row : OperationRow) → (f row).id ≡ row.id
  pub user_id : (row : OperationRow) → (f row).user_id ≡ row.user_id
  pub key : (row : OperationRow) → (f row).idempotency_key_hash ≡ row.idempotency_key_hash

same_evidence-SameEvidence :
    (old new : OperationRow) → same_evidence old new ≡ true → SameEvidence old new
unfolding same_evidence
same_evidence-SameEvidence old new h = record {
  request_hash = ground (arith, eq_iff new.request_hash old.request_hash);
  response = ground (arith, decided_iff (responses-discrete new.response old.response));
  event = ground (arith, decided_iff (events-discrete new.event old.event));
}

-- What the trigger lets through.
allowed-Evolves :
    (f : OperationRow → OperationRow) (row : OperationRow)
    → KeepsIdentity f
    → trigger_allows row (f row) ≡ true
    → Evolves row (f row)
unfolding trigger_allows
allowed-Evolves f row k h = record {
  id = k.id row;
  user_id = k.user_id row;
  key = k.key row;
  evidence = λ d. same_evidence-SameEvidence row (f row) (ground arith);
  onward = ground arith;
  final = λ e. ground arith;
}

-- Every row is still there, and has evolved.
pub record Grows (db db' : Db) : Type 0 where
  pub at_id :
      (id : String) (row : OperationRow)
      → find_row (has_id id) db.operations ≡ some row
      → (row' : OperationRow) × (find_row (has_id id) db'.operations ≡ some row') × Evolves row row'

pub Grows-refl : (db : Db) → Grows db db
Grows-refl db = record { at_id = λ id row h. (row, h, Evolves-refl row) }

pub Grows-trans : {a b c : Db} → Grows a b → Grows b c → Grows a c
Grows-trans p q = record {
  at_id = λ id row h.
      let (row', h', e) = p.at_id id row h in
      let (row'', h'', e') = q.at_id id row' h' in (row'', h'', Evolves-trans e e');
}

module _ (p : OperationRow → Bool) (f : OperationRow → OperationRow) (k : KeepsIdentity f) where
  pub update_rows-cons :
      (r : OperationRow) (rows : List OperationRow) {table written : List OperationRow}
      → update_rows p f (r ∷ rows) ≡ some (table, written)
      → (rest : List OperationRow) × (more : List OperationRow) × (update_rows p f rows
          ≡ some (rest, more))
        × (((trigger_allows r (f r) ≡ true) × (table ≡ f r ∷ rest)) ⊎ (table ≡ r ∷ rest))
  unfolding update_rows
  update_rows-cons r rows h = elim (Option-cases (update_rows p f rows)) [
    | inl e ↦ absurd (ground arith)
    | inr ((rest, more), e) ↦ (rest, more, e, ground arith)
  ]

  head_grows :
      (r r' : OperationRow) (rows rest : List OperationRow) (id : String) (row : OperationRow)
      → Evolves r r'
      → (find_row (has_id id) rows ≡ some row
          → (row' : OperationRow) × (find_row (has_id id) rest ≡ some row') × Evolves row row')
      → find_row (has_id id) (r ∷ rows) ≡ some row
      → (row' : OperationRow) × (find_row (has_id id) (r' ∷ rest) ≡ some row') × Evolves row row'
  unfolding find_row
  head_grows r r' rows rest id row e ih found = elim (Bool-cases (str_eq r.id id)) [
    | inl same ↦ let here : r ≡ row = ground arith in (r', rw (e.id, same), rw (← here) e)
    | inr other ↦ let (row', found', e') = ih (ground arith) in (row', rw (e.id, other) found', e')
  ]

  update_rows_grow :
      (rows : List OperationRow) {table written : List OperationRow} (id : String)
      (row : OperationRow)
      → update_rows p f rows ≡ some (table, written)
      → find_row (has_id id) rows ≡ some row
      → (row' : OperationRow) × (find_row (has_id id) table ≡ some row') × Evolves row row'
  update_rows_grow [] id row h found = unfold find_row in cc
  update_rows_grow (r ∷ rows) id row h found =
      let (rest, more, e, how) = update_rows-cons r rows h in
      let ih =
        λ (found' : find_row (has_id id) rows ≡ some row). update_rows_grow rows id row e found' in
      elim how [
        | inl (allowed, t) ↦
            rw t (head_grows r (f r) rows rest id row (allowed-Evolves f r k allowed) ih found)
        | inr t ↦ rw t (head_grows r r rows rest id row (Evolves-refl r) ih found)
      ]

  pub update_operations-ok :
      (db : Db) {db' : Db} {written : List OperationRow}
      → update_operations p f db ≡ some (db', written)
      → (update_rows p f db.operations ≡ some (db'.operations, written)) × (db'.pity ≡ db.pity)
  unfolding update_operations
  update_operations-ok db h = elim (Option-cases (update_rows p f db.operations)) [
    | inl e ↦ absurd (ground arith)
    | inr ((table, more), e) ↦ ground arith
  ]

  pub update_operations-Grows :
      (db : Db) {db' : Db} {written : List OperationRow}
      → update_operations p f db ≡ some (db', written)
      → Grows db db'
  update_operations-Grows db h = record {
    at_id =
        λ id row found. update_rows_grow db.operations id row (update_operations-ok db h).0 found;
  }

-- An inserted row hides no other.
pub insert_pull_operation-Grows :
    (new : OperationRow) (db : Db) {db' : Db} {written : Option OperationRow}
    → insert_pull_operation new db ≡ some (db', written)
    → Grows db db'
unfolding insert_pull_operation
insert_pull_operation-Grows new db h = record {
  at_id = λ id row found. (row, ground (arith, eq_iff new.id id), Evolves-refl row);
}
