-- ===== src/Store/Steps.antt =====
-- Every method of the store, with any arguments and at any time, as a step on the tables; and what
-- every sequence of such steps, by any number of workers, keeps.
use gacha_engine_service.Prelude.{
  ℕ, ◌≡◌, refl, inl, inr, String, Bool, Option, none, some, arith, Option-cases,
}
use gacha_engine_service.Prelude.Result.{Outcome, ok, raise}
use gacha_engine_service.Runtime.{Runtime}
use gacha_engine_service.Schemas.{PityState, PitySnapshot}
use gacha_engine_service.Operations.{PullOperation, PullOperationStatus}
use gacha_engine_service.Operations.Context.{PullRecoveryContext}
use gacha_engine_service.Store.Rows.{OperationRow, Db}
use gacha_engine_service.Store.Sql.{
  update_operations, update_pull_operation, insert_pull_operation, insert_initial_pity, update_pity,
}
use gacha_engine_service.Store.Methods.{
  Call, StoreError, execute, operation_id, update_versioned, commit_operation,
  compare_and_set_with_pull_operation, transition_pull_operation_from_processing,
  save_pull_operation, save_pull_operation_by_key, claim_expired_processing_pull_operation,
  claim_pull_operation_recovery, release_pull_operation_recovery,
}
use gacha_engine_service.Store.Begin.{insert_statement, claim_statement}
use gacha_engine_service.Store.Versions.{
  PityGrows, PityGrows-of_eq, PityGrows-trans, insert_initial_pity-PityGrows, update_pity-PityGrows,
}
use gacha_engine_service.Store.Evidence.{
  Grows, Grows-refl, Grows-trans, Evolves-refl, KeepsIdentity, update_operations-Grows,
  update_operations-ok, insert_pull_operation-Grows,
}

-- The tables after, against the tables before.
pub record Onward (db db' : Db) : Type 0 where
  pub rows : Grows db db'
  pub pity : PityGrows db db'

pub Onward-refl : (db : Db) → Onward db db
Onward-refl db = record { rows = Grows-refl db; pity = PityGrows-of_eq refl }

pub Onward-trans : {a b c : Db} → Onward a b → Onward b c → Onward a c
Onward-trans p q = record { rows = Grows-trans p.rows q.rows; pity = PityGrows-trans p.pity q.pity }

-- A call that only goes onward, whatever it returns.
pub record GoesOn {A : Type 0} (call : Call A) : Type 0 where
  pub at : (db : Db) → Onward db (call db).1

abbrev Statement : {A : Type 0} → (Db → Option (Db × A)) → Type 0
Statement {A} statement = (db db' : Db) (a : A) → statement db ≡ some (db', a) → Onward db db'

execute-GoesOn :
    {A B : Type 0} (statement : Db → Option (Db × A)) (f : A → Outcome StoreError B)
    → Statement statement
    → GoesOn (execute statement f)
execute-GoesOn statement f h = record {
  at = λ db. elim (Option-cases (statement db)) [
    | inl e ↦ rw (e, execute) (Onward-refl db)
    | inr ((db', a), e) ↦ rw (e, execute) (h db db' a e)
  ];
}

update_operations-Statement :
    (p : OperationRow → Bool) (f : OperationRow → OperationRow)
    → KeepsIdentity f
    → Statement (update_operations p f)
update_operations-Statement p f k db db' rows e = record {
  rows = update_operations-Grows p f k db e;
  pity = PityGrows-of_eq (update_operations-ok p f k db e).1;
}

-- An insert leaves the pity table alone.
insert-Statement : (new : OperationRow) → Statement (insert_pull_operation new)
insert-Statement new db db' row e = record {
  rows = insert_pull_operation-Grows new db e;
  pity = PityGrows-of_eq (unfold insert_pull_operation in ground arith);
}

-- A change of the pity table leaves the operations alone.
pity-Onward : {db db' : Db} → db'.operations ≡ db.operations → PityGrows db db' → Onward db db'
pity-Onward {db} e p = record {
  rows = record { at_id = λ id row h. (row, rw e h, Evolves-refl row) };
  pity = p;
}

-- The rest of a transaction, which a failure undoes.
settled :
    {A B : Type 0} (before : Db) (rest : A → Call B) (so_far : Outcome StoreError A × Db)
    → Onward before so_far.1
    → ((a : A) (db : Db) → Onward before db → Onward before (rest a db).1)
    → Onward before
        (elim so_far.0 as (λ _. Outcome StoreError B × Db) [
          | raise e ↦ (raise e, before)
          | ok a ↦ rest a so_far.1
        ]).1
settled before rest (ok a, db) o h = h a db o
settled before rest (raise e, db) o h = Onward-refl before

settled_option :
    {A B : Type 0} (before : Db) (e : StoreError) (f : A → B) (so_far : Db × Option A)
    → Onward before so_far.0
    → Onward before
        (elim so_far.1 as (λ _. Outcome StoreError B × Db) [
          | none ↦ (raise e, before)
          | some a ↦ (ok (f a), so_far.0)
        ]).1
settled_option before e f (db, none) o = Onward-refl before
settled_option before e f (db, some a) o = o

-- A method that first parses its key.
keyed-GoesOn :
    {A : Type 0} (R : Runtime) (key : String) (call : String → Call A)
    → ((id : String) → GoesOn (call id))
    → GoesOn {A = A}
        (λ db. elim (operation_id R key) [ raise e ↦ (raise e, db) | ok id ↦ call id db ])
keyed-GoesOn R key call h = record {
  at = λ db. elim (Option-cases (R.parse_uuid key)) [
    | inl e ↦ rw e (Onward-refl db)
    | inr (id, e) ↦ rw e ((h id).at db)
  ];
}

module _ (R : Runtime) (now : ℕ) where
  pub transition-GoesOn :
      (key user_id request_hash token : String) (operation : PullOperation)
      → GoesOn
          (transition_pull_operation_from_processing R key user_id request_hash token operation now)
  unfolding transition_pull_operation_from_processing
  transition-GoesOn key user_id request_hash token operation = keyed-GoesOn R key _ λ id.
      execute-GoesOn _ _ (
        update_operations-Statement _ _
          (record { id = λ _. refl; user_id = λ _. refl; key = λ _. refl }))

  pub save-GoesOn :
      (user_id idempotency_key : String) (operation : PullOperation)
      → GoesOn (save_pull_operation R user_id idempotency_key operation now)
  unfolding save_pull_operation
  save-GoesOn user_id idempotency_key operation = execute-GoesOn _ _ (
      update_operations-Statement _ _
        (record { id = λ _. refl; user_id = λ _. refl; key = λ _. refl }))

  pub save_by_key-GoesOn :
      (key : String) (operation : PullOperation)
      → GoesOn (save_pull_operation_by_key R key operation now)
  unfolding save_pull_operation_by_key
  save_by_key-GoesOn key operation = keyed-GoesOn R key _ λ id. execute-GoesOn _ _ (
      update_operations-Statement _ _
        (record { id = λ _. refl; user_id = λ _. refl; key = λ _. refl }))

  pub claim_expired-GoesOn :
      (key : String) (lease_seconds : ℕ) (token : String)
      → GoesOn (claim_expired_processing_pull_operation R key lease_seconds token now)
  unfolding claim_expired_processing_pull_operation
  claim_expired-GoesOn key lease_seconds token = keyed-GoesOn R key _ λ id. execute-GoesOn _ _ (
      update_operations-Statement _ _
        (record { id = λ _. refl; user_id = λ _. refl; key = λ _. refl }))

  pub claim_recovery-GoesOn :
      (key : String) (expected : PullOperationStatus) (ttl : ℕ)
      → GoesOn (claim_pull_operation_recovery R key expected ttl now)
  unfolding claim_pull_operation_recovery
  claim_recovery-GoesOn key expected ttl = keyed-GoesOn R key _ λ id. execute-GoesOn _ _ (
      update_operations-Statement _ _
        (record { id = λ _. refl; user_id = λ _. refl; key = λ _. refl }))

  pub release-GoesOn : (key : String) → GoesOn (release_pull_operation_recovery R key now)
  unfolding release_pull_operation_recovery
  release-GoesOn key = keyed-GoesOn R key _ λ id. execute-GoesOn _ _ (
      update_operations-Statement _ _
        (record { id = λ _. refl; user_id = λ _. refl; key = λ _. refl }))

  pub insert-GoesOn :
      (id user_id idempotency_key request_hash token : String) (lease_seconds : ℕ)
      (context : PullRecoveryContext)
      → GoesOn (
          insert_statement R id user_id idempotency_key request_hash token lease_seconds context
            now)
  unfolding insert_statement
  insert-GoesOn id user_id idempotency_key request_hash token lease_seconds context =
      execute-GoesOn _ _ (insert-Statement _)

  pub claim-GoesOn :
      (user_id idempotency_key request_hash token : String) (lease_seconds : ℕ)
      (context : PullRecoveryContext)
      → GoesOn
          (claim_statement R user_id idempotency_key request_hash token lease_seconds context now)
  unfolding claim_statement
  claim-GoesOn user_id idempotency_key request_hash token lease_seconds context =
      execute-GoesOn _ _ (
        update_operations-Statement _ _
          (record { id = λ _. refl; user_id = λ _. refl; key = λ _. refl }))

  pity_written :
      (user_id group : String) (version : ℕ) (next : PityState) (db initial : Db)
      (written : Db × Option PitySnapshot)
      → insert_initial_pity user_id group now db ≡ some initial
      → update_pity user_id group version next now initial ≡ some written
      → Onward db written.0
  pity_written user_id group version next db initial written e d =
      pity-Onward (unfold insert_initial_pity update_pity in ground arith) (
        PityGrows-trans (insert_initial_pity-PityGrows user_id group now db e)
          (update_pity-PityGrows user_id group version next now initial d))

  pub compare_and_set-GoesOn :
      (user_id group : String) (version : ℕ) (next : PityState)
      → GoesOn (update_versioned user_id group version next now)
  unfolding update_versioned
  compare_and_set-GoesOn user_id group version next = record {
    at = λ db. elim (Option-cases (insert_initial_pity user_id group now db)) [
      | inl e ↦ rw (e, update_versioned) (Onward-refl db)
      | inr (initial, e) ↦
          elim (Option-cases (update_pity user_id group version next now initial)) [
            | inl d ↦ rw (update_versioned, e, d) (Onward-refl db)
            | inr ((db', written), d) ↦
                rw (update_versioned, e, d)
                  (settled_option db _ (λ s. s) (db', written)
                    (pity_written user_id group version next db initial (db', written) e d))
          ]
    ];
  }

  commit_operation-Onward :
      (id : String) (operation : PullOperation) (before : Db) (snapshot : PitySnapshot) (db : Db)
      → Onward before db
      → Onward before (commit_operation id operation now before snapshot db).1
  unfolding commit_operation
  commit_operation-Onward id operation before snapshot db h =
      settled before (λ _ db'. (ok snapshot, db'))
        (execute (update_pull_operation id operation now) _ db)
        (Onward-trans h (
          (execute-GoesOn _ _ (
              update_operations-Statement _ _
                (record { id = λ _. refl; user_id = λ _. refl; key = λ _. refl }))).at
            db))
        (λ _ db' o. o)

  guarded :
      {B : Type 0} (g : Option StoreError) (call : Call B) (db : Db)
      → Onward db (call db).1
      → Onward db
          (elim g as (λ _. Outcome StoreError B × Db) [ some e ↦ (raise e, db) | none ↦ call db ]).1
  guarded none call db h = h
  guarded (some e) call db h = Onward-refl db

  pub commit-GoesOn :
      (key user_id group request_hash : String) (version : ℕ) (next : PityState)
      (operation : PullOperation) (token : String)
      → GoesOn (
          compare_and_set_with_pull_operation R key user_id group request_hash version next
            operation token now)
  unfolding compare_and_set_with_pull_operation
  commit-GoesOn key user_id group request_hash version next operation token =
      keyed-GoesOn R key _ λ id. record {
        at = λ db.
            guarded {B = PitySnapshot} _
              (λ db. elim (update_versioned user_id group version next now db).0 [
                | raise e ↦ (raise e, db)
                | ok snapshot ↦
                    commit_operation id operation now db snapshot
                      (update_versioned user_id group version next now db).1
              ])
              db
              (settled db (λ s db'. commit_operation id operation now db s db')
                (update_versioned user_id group version next now db)
                ((compare_and_set-GoesOn user_id group version next).at db)
                (λ s db' o. commit_operation-Onward id operation db s db' o));
      }
