-- ===== src/Store/Atomic.antt =====
-- The transaction of `compare_and_set_with_pull_operation`: it commits only for the worker that owns
-- the operation.
use gacha_engine_service.Prelude.{
  ℕ, ◌+◌, ◌≡◌, ◌∙◌, ap, refl, String, Option, none, some, List, [], ◌∷◌, arith, eq_iff, inl, inr,
  Bool-cases, Option-cases, str_eq, ◌&&◌,
}
use mathlib.Core.Path.{subst}
use gacha_engine_service.Prelude.Result.{Outcome, ok, raise}
use gacha_engine_service.Runtime.{Runtime}
use gacha_engine_service.Schemas.{PityState, PitySnapshot}
use gacha_engine_service.Operations.{PullOperation, processing}
use gacha_engine_service.Store.Rows.{OperationRow, PityRow, Db}
use gacha_engine_service.Store.Sql.{
  has_id, find_row, update_rows, update_operations, update_pull_operation, with_operation,
  update_pity, update_pity_rows, write_pity_row, insert_initial_pity,
}
use gacha_engine_service.Store.Methods.{
  Call, StoreError, store_error, execute, one_row, update_versioned, commit_guard, commit_operation,
  compare_and_set_with_pull_operation,
}
use gacha_engine_service.Store.Evidence.{KeepsIdentity, update_operations-ok}

-- What is returned satisfies `Q` with the tables that are left.
abbrev OnOk : {A : Type 0} → (A → Db → Type 0) → Outcome StoreError A × Db → Type 0
OnOk Q (ok a, db) = Q a db
OnOk Q (raise e, db) = Unit

found_option :
    {A : Type 0} (Q : A → Db → Type 0) (before : Db) (e : StoreError) (so_far : Db × Option A)
    → ((a : A) → so_far.1 ≡ some a → Q a so_far.0)
    → OnOk Q (elim so_far.1 as (λ _. Outcome StoreError A × Db) [
      | none ↦ (raise e, before)
      | some a ↦ (ok a, so_far.0)
    ])
found_option Q before e (db, none) h = tt
found_option Q before e (db, some a) h = h a refl

executed :
    (Q : Db → Type 0) (before : Db) (statement : Option (Db × List OperationRow))
    → ((db : Db) (w : OperationRow) (ws : List OperationRow) → statement ≡ some (db, w ∷ ws) → Q db)
    → OnOk
        (λ _ db. Q db)
        (elim statement as (λ _. Outcome StoreError (Unit {0}) × Db) [
          | none ↦ (raise store_error, before)
          | some (db', rows) ↦ (one_row rows, db')
        ])
executed Q before none h = tt
executed Q before (some (db, [])) h = tt
executed Q before (some (db, w ∷ [])) h = h db w [] refl
executed Q before (some (db, w ∷ w' ∷ ws)) h = tt

weaken :
    {A : Type 0} (P P' : A → Db → Type 0) (r : Outcome StoreError A × Db)
    → OnOk P r
    → ((a : A) (db : Db) → P a db → P' a db)
    → OnOk P' r
weaken P P' (ok a, db) p h = h a db p
weaken P P' (raise e, db) p h = tt

keyed :
    {B : Type 0} (P : B → Db → Type 0) (parsed : Option String)
    (rest : String → Outcome StoreError B × Db) (db : Db)
    → ((id : String) → parsed ≡ some id → OnOk P (rest id))
    → OnOk P
        (elim (elim parsed as (λ _. Outcome StoreError String) [
          | none ↦ raise store_error
          | some id ↦ ok id
        ])
          as (λ _. Outcome StoreError B × Db) [ raise e ↦ (raise e, db) | ok id ↦ rest id ])
keyed P none rest db h = tt
keyed P (some id) rest db h = h id refl

settled :
    {A B : Type 0} (Q : A → Db → Type 0) (P : B → Db → Type 0) (before : Db) (rest : A → Call B)
    (so_far : Outcome StoreError A × Db)
    → OnOk Q so_far
    → ((a : A) (db : Db) → Q a db → OnOk P (rest a db))
    → OnOk P (elim so_far.0 as (λ _. Outcome StoreError B × Db) [
      | raise e ↦ (raise e, before)
      | ok a ↦ rest a so_far.1
    ])
settled Q P before rest (ok a, db) q h = h a db q
settled Q P before rest (raise e, db) q h = tt

module _ (id : String) (f : OperationRow → OperationRow) (k : KeepsIdentity f) where
  -- Where an update by id writes a row, a read by id then shows a written one.
  found_written :
      (rows : List OperationRow) {table : List OperationRow} {w : OperationRow}
      {ws : List OperationRow}
      → update_rows (has_id id) f rows ≡ some (table, w ∷ ws)
      → (row : OperationRow) × (find_row (has_id id) table ≡ some (f row))
  unfolding update_rows find_row
  found_written [] h = absurd (ground arith)
  found_written (r ∷ rows) {table} {w} {ws} h =
      elim (Option-cases (update_rows (has_id id) f rows)) [
        | inl e ↦ absurd (ground arith)
        | inr ((rest, more), e) ↦ elim (Bool-cases (str_eq r.id id)) [
          | inl same ↦ let t : table ≡ f r ∷ rest = ground arith in (r, rw (t, k.id r, same) refl)
          | inr other ↦
              let t : table ≡ r ∷ rest = ground arith in
              let m : more ≡ w ∷ ws = ground arith in
              let (row, found) = found_written rows (e ∙ ap (λ ws'. some (rest, ws')) m) in
              (row, rw (t, other) found)
        ]
      ]

written_version :
    (user_id group : String) (version : ℕ) (next : PityState) (now : ℕ) (rows : List PityRow)
    (s : PitySnapshot)
    → (update_pity_rows user_id group version next now rows).1 ≡ some s
    → s ≡ record { state = next; version = version + 1 }
unfolding update_pity_rows write_pity_row
written_version user_id group version next now [] s h = absurd (ground arith)
written_version user_id group version next now (row ∷ rows) s h =
    ground (arith, written_version user_id group version next now rows s)

module _ (R : Runtime) (key user_id group request_hash : String) (version : ℕ) (next : PityState)
    (operation : PullOperation) (token : String) (now : ℕ) where
  -- What a commit found and what it left.
  pub record IsCommitted (before : Db) (s : PitySnapshot) (after : Db) : Type 0 where
    pub id : String
    pub parsed : R.parse_uuid key ≡ some id
    pub row : OperationRow
    pub found :
        find_row (λ row. has_id id row && str_eq row.user_id user_id) before.operations ≡ some row
    pub hash : row.request_hash ≡ request_hash
    pub unfinished : row.status ≡ processing
    pub owned : row.processing_token ≡ some token
    pub snapshot : s ≡ record { state = next; version = version + 1 }
    pub row' : OperationRow
    pub found' : find_row (has_id id) after.operations ≡ some row'
    pub status : row'.status ≡ operation.status
    pub response : row'.response ≡ operation.response
    pub event : row'.event ≡ operation.event

  updated :
      (initial : Db) {after : Db × Option PitySnapshot}
      → update_pity user_id group version next now initial ≡ some after
      → (update_pity_rows user_id group version next now initial.pity).1 ≡ after.1
  unfolding update_pity
  updated initial d = ground arith

  versioned :
      (db : Db)
      → OnOk
          (λ s _. s ≡ record { state = next; version = version + 1 })
          (update_versioned user_id group version next now db)
  unfolding update_versioned
  versioned db = elim (Option-cases (insert_initial_pity user_id group now db)) [
    | inl e ↦ rw (update_versioned, e) tt
    | inr (initial, e) ↦ elim (Option-cases (update_pity user_id group version next now initial)) [
      | inl d ↦ rw (update_versioned, e, d) tt
      | inr ((db', written), d) ↦
          rw (update_versioned, e, d)
            (found_option _ db _ (db', written)
              λ s w.
                written_version user_id group version next now initial.pity s
                  (updated initial d ∙ w))
    ]
  ]

  -- The row as the last statement writes it.
  abbrev final_row : OperationRow → OperationRow
  final_row row = record (with_operation operation now row) { recovery_locked_until = none }

  keeps : KeepsIdentity final_row
  unfolding with_operation
  keeps = record { id = λ _. refl; user_id = λ _. refl; key = λ _. refl }

  finished :
      (id : String) (db : Db)
      → OnOk
          (λ _ after.
            (row : OperationRow) × (find_row (has_id id) after.operations ≡ some (final_row row)))
          (execute (update_pull_operation id operation now) one_row db)
  unfolding update_pull_operation
  finished id db = executed _ db (update_operations (has_id id) final_row db) λ after w ws e.
      found_written id final_row keeps db.operations
        (update_operations-ok (has_id id) final_row keeps db e).0

  -- The guards that a commit passed.
  guard_passed :
      (found : Option OperationRow)
      → commit_guard found request_hash token ≡ none
      → (row : OperationRow) × (found ≡ some row)
        × (row.request_hash ≡ request_hash)
        × (row.status ≡ processing)
        × (row.processing_token ≡ some token)
  unfolding commit_guard
  guard_passed none h = absurd (ground arith)
  guard_passed (some row) h = (
    row,
    refl,
    ground (arith, eq_iff row.request_hash request_hash),
    ground arith,
    elim (Option-cases row.processing_token) [
      | inl e ↦ absurd (ground arith)
      | inr (t, e) ↦ e ∙ ap some ((eq_iff t token).0 (ground arith))
    ],
  )

  guarded :
      {B : Type 0} (P : B → Db → Type 0) (g : Option StoreError) (rest : Outcome StoreError B × Db)
      (db : Db)
      → (g ≡ none → OnOk P rest)
      → OnOk P (elim g as (λ _. Outcome StoreError B × Db) [ some e ↦ (raise e, db) | none ↦ rest ])
  guarded P none rest db h = h refl
  guarded P (some e) rest db h = tt

  last_statement :
      (id : String) (before : Db) (s : PitySnapshot) (db : Db)
      → OnOk
          (λ s' after.
            (s' ≡ s)
            × (row : OperationRow) × (find_row (has_id id) after.operations ≡ some (final_row row)))
          (commit_operation id operation now before s db)
  unfolding commit_operation
  last_statement id before s db =
      settled _ _ before (λ _ db'. (ok s, db'))
        (execute (update_pull_operation id operation now) one_row db) (finished id db)
        λ _ db' (row, found). (refl, row, found)

  -- A commit of an operation that has this id.
  committed :
      (id : String) (db : Db) (row : OperationRow)
      → R.parse_uuid key ≡ some id
      → find_row (λ row. has_id id row && str_eq row.user_id user_id) db.operations ≡ some row
      → (row.request_hash ≡ request_hash)
        × (row.status ≡ processing)
        × (row.processing_token ≡ some token)
      → OnOk
          (IsCommitted db)
          (elim (update_versioned user_id group version next now db).0
            as (λ _. Outcome StoreError PitySnapshot × Db) [
              | raise e ↦ (raise e, db)
              | ok s ↦
                  commit_operation id operation now db s
                    (update_versioned user_id group version next now db).1
            ])
  committed id db row parsed found (hash, unfinished, owned) =
      settled _ _ db (λ s db'. commit_operation id operation now db s db')
        (update_versioned user_id group version next now db) (versioned db)
        λ s db' is_next.
          weaken _ (IsCommitted db) _ (last_statement id db s db') λ s' after (same, row', found').
            record {
              id = id;
              parsed = parsed;
              row = row;
              found = found;
              hash = hash;
              unfinished = unfinished;
              owned = owned;
              snapshot = same ∙ is_next;
              row' = final_row row';
              found' = found';
              status = unfold with_operation in refl;
              response = unfold with_operation in refl;
              event = unfold with_operation in refl;
            }

  commits_are_owned :
      (db : Db)
      → OnOk (IsCommitted db) (
          compare_and_set_with_pull_operation R key user_id group request_hash version next
            operation token now db)
  unfolding compare_and_set_with_pull_operation
  commits_are_owned db = keyed (IsCommitted db) (R.parse_uuid key) _ db λ id parsed.
      guarded (IsCommitted db)
        (commit_guard (find_row (λ row. has_id id row && str_eq row.user_id user_id) db.operations)
          request_hash token)
        _ db
        λ passed.
          let (row, found, hash, unfinished, owned) = guard_passed _ passed in
          committed id db row parsed found (hash, unfinished, owned)

  -- Where `compare_and_set_with_pull_operation` returns: the user's operation of the key was found with
  -- the request hash, still `processing` and under the caller's token; what is returned is the next
  -- pity state under the version after the expected one; and the operation's row then has the status,
  -- the response and the event of the commit.
  pub commit_needs_ownership :
      (db : Db) {s : PitySnapshot} {after : Db}
      → compare_and_set_with_pull_operation R key user_id group request_hash version next operation
          token now db
        ≡ (ok s, after)
      → IsCommitted db s after
  commit_needs_ownership db e = subst (OnOk (IsCommitted db)) e (commits_are_owned db)
