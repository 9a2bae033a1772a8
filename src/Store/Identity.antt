-- ===== src/Store/Identity.antt =====
-- The primary key of gacha_pull_operations: which statements can write the row of one id.
use gacha_engine_service.Prelude.{
  ◌≡◌, ◌⊎◌, refl, inl, inr, String, Bool, true, false, none, some, List, [], ◌∷◌, arith, eq_iff,
  Bool-cases, Option-cases, str_eq,
}
use gacha_engine_service.Store.Rows.{OperationRow, Db, event_ids, all_distinct}
use gacha_engine_service.Store.Sql.{update_rows, update_operations, has_id, find_row}

-- No two rows have the same id.
unfoldable pub UniqueIds : List OperationRow → Type 0
UniqueIds [] = Unit
UniqueIds (row ∷ rows) = (find_row (has_id row.id) rows ≡ none) × UniqueIds rows

absent_uncons :
    (r : OperationRow) (rows : List OperationRow) (id : String)
    → find_row (has_id id) (r ∷ rows) ≡ none
    → (str_eq r.id id ≡ false) × (find_row (has_id id) rows ≡ none)
unfolding find_row
absent_uncons r rows id absent = elim (Bool-cases (str_eq r.id id)) [
  | inl here ↦ absurd (ground arith)
  | inr other ↦ (other, ground arith)
]

-- A statement that asks for one id.
pub record AsksFor (id : String) (p : OperationRow → Bool) : Type 0 where
  pub only : (row : OperationRow) → p row ≡ true → str_eq row.id id ≡ true

pub asked_for :
    {id : String} {p : OperationRow → Bool} (row : OperationRow)
    → AsksFor id p
    → str_eq row.id id ≡ false
    → p row ≡ false
asked_for {id} {p} row a other = elim (Bool-cases (p row)) [
  | inl asks ↦ absurd (let h = a.only row asks in ground arith)
  | inr does_not ↦ does_not
]

-- It writes nothing where the id is absent.
pub nobody_asked :
    {id : String} {p : OperationRow → Bool} (f : OperationRow → OperationRow)
    (rows : List OperationRow)
    → AsksFor id p
    → find_row (has_id id) rows ≡ none
    → update_rows p f rows ≡ some (rows, [])
unfolding update_rows
nobody_asked f [] a absent = refl
nobody_asked {id} f (r ∷ rows) a absent =
    let (other, rest) = absent_uncons r rows id absent in
    rw (nobody_asked f rows a rest, asked_for r a other) refl

-- A first statement that writes the one row of the id so that the second asks for it no more.
pub record Takes (id : String) (p p' : OperationRow → Bool) (f : OperationRow → OperationRow)
    : Type 0 where
  pub first : AsksFor id p
  pub second : AsksFor id p'
  pub taken : (row : OperationRow) → p row ≡ true → p' (f row) ≡ false

-- What the first statement does to the head of the table.
taken_head :
    (p : OperationRow → Bool) (f : OperationRow → OperationRow) (r w : OperationRow)
    (rows : List OperationRow) {table ws : List OperationRow}
    → update_rows p f (r ∷ rows) ≡ some (table, w ∷ ws)
    → ((p r ≡ true)
        × (rest : List OperationRow) × (more : List OperationRow) × (update_rows p f rows
            ≡ some (rest, more))
        × (table ≡ f r ∷ rest))
      ⊎ ((p r ≡ false)
          × (rest : List OperationRow) × (update_rows p f rows ≡ some (rest, w ∷ ws))
          × (table ≡ r ∷ rest))
unfolding update_rows
taken_head p f r w rows {ws = ws} h = elim (Option-cases (update_rows p f rows)) [
  | inl e ↦ absurd (ground arith)
  | inr ((rest, more), e) ↦ elim (Bool-cases (p r)) [
    | inl asks ↦ inl (asks, rest, more, e, ground arith)
    | inr other ↦
        inr (other, rest, (let m : more ≡ w ∷ ws = ground arith in rw (← m) e), ground arith)
  ]
]

skip_head :
    (p : OperationRow → Bool) (f : OperationRow → OperationRow) (r : OperationRow)
    (rows : List OperationRow)
    → p r ≡ false
    → update_rows p f rows ≡ some (rows, [])
    → update_rows p f (r ∷ rows) ≡ some (r ∷ rows, [])
unfolding update_rows
skip_head p f r rows other h = rw (h, other) refl

pub row_of_id :
    (id : String) (r : OperationRow) (rows : List OperationRow)
    → str_eq r.id id ≡ true
    → find_row (has_id r.id) rows ≡ none
    → find_row (has_id id) rows ≡ none
row_of_id id r rows same absent =
    let e : r.id ≡ id = ground (arith, eq_iff r.id id) in rw (← e) absent

pub taken_once :
    {id : String} {p p' : OperationRow → Bool} {f : OperationRow → OperationRow}
    (g : OperationRow → OperationRow) (rows : List OperationRow) {table ws : List OperationRow}
    {w : OperationRow}
    → Takes id p p' f
    → UniqueIds rows
    → update_rows p f rows ≡ some (table, w ∷ ws)
    → update_rows p' g table ≡ some (table, [])
unfolding UniqueIds
taken_once g [] t unique h = absurd (unfold update_rows in ground arith)
taken_once {id} {p} {p'} {f} g (r ∷ rows) {w = w} t (absent, unique) h =
    elim (taken_head p f r w rows h) [
      | inl (asks, rest, more, e, put) ↦
          let quiet =
            nobody_asked f rows t.first (row_of_id id r rows (t.first.only r asks) absent) in
          let still : rest ≡ rows = ground arith in
          let after =
            nobody_asked g rows t.second (row_of_id id r rows (t.first.only r asks) absent) in
          rw (put, still) (skip_head p' g (f r) rows (t.taken r asks) after)
      | inr (other, rest, e, put) ↦
          let ih = taken_once g rows t unique e in
          elim (Bool-cases (str_eq r.id id)) [
            | inl here ↦
                let quiet = nobody_asked f rows t.first (row_of_id id r rows here absent) in
                absurd (ground arith)
            | inr away ↦ rw put (skip_head p' g r rest (asked_for r t.second away) ih)
          ]
    ]

-- The same for the whole table.
pub update_operations-once :
    {id : String} {p p' : OperationRow → Bool} {f : OperationRow → OperationRow}
    (g : OperationRow → OperationRow) (db : Db) {db' : Db} {w : OperationRow}
    {ws : List OperationRow}
    → Takes id p p' f
    → UniqueIds db.operations
    → update_operations p f db ≡ some (db', w ∷ ws)
    → update_operations p' g db' ≡ some (db', [])
unfolding update_operations
update_operations-once {id} {p} {p'} {f} g db {db'} {w} {ws} t unique h =
    elim (Option-cases (update_rows p f db.operations)) [
      | inl e ↦ absurd (ground arith)
      | inr ((table, more), e) ↦
          let (distinct, put, wrote) : (all_distinct (event_ids table) ≡ true)
              × (db'.operations ≡ table)
              × (more ≡ w ∷ ws) =
            ground arith in
          let first : update_rows p f db.operations ≡ some (db'.operations, w ∷ ws) =
            rw (put, ← wrote) e in
          let after = taken_once g db.operations t unique first in
          let still : all_distinct (event_ids db'.operations) ≡ true = rw put distinct in
          ground arith
    ]
