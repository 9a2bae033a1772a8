-- ===== src/Store/Methods.antt =====
-- The methods of `PostgresGachaStateStore` that write, each as a function of the statement's time and the
-- tables. A transaction that raises leaves the tables as they were.
use Prim.Native.Nat.{max}
use gacha_engine_service.Prelude.{
  ℕ, String, Bool, true, ◌&&◌, not, Option, none, some, List, [], ◌∷◌, str_eq, is_empty,
  if◌then◌else◌,
}
use gacha_engine_service.Prelude.Result.{Outcome, ok, raise}
use gacha_engine_service.Runtime.{Runtime}
use gacha_engine_service.Schemas.{PityState, PitySnapshot}
use gacha_engine_service.Operations.{
  PullOperationStatus, PullOperation, PullOperationRecoveryClaim, processing, status_eq,
}
use gacha_engine_service.Engine.Rolls.{create_initial_pity}
use gacha_engine_service.Store.Rows.{OperationRow, Db, operation_from_row}
use gacha_engine_service.Store.Sql.{
  has_id, find_row, find_pity, update_pull_operation, transition_processing_operation,
  save_operation, claim_expired_processing_operation, claim_pending_operation,
  release_pending_operation, insert_initial_pity, update_pity,
}

-- state_store.py: `GachaStateStoreError`, `PityVersionConflict` with the version that was found, and
-- `PullOperationOwnershipLost`.
pub data StoreError : Type 0 where
  store_error : StoreError
  version_conflict : Option ℕ → StoreError
  ownership_lost : StoreError

-- What a method returns or raises, and the tables that it leaves.
abbrev pub Call : Type 0 → Type 0
Call A = Db → Outcome StoreError A × Db

-- A statement that the database refuses is a `GachaStateStoreError`; else `f` reads the rows written.
abbrev pub execute : {A B : Type 0} → (Db → Option (Db × A)) → (A → Outcome StoreError B) → Call B
execute statement f db = elim (statement db) [
  | none ↦ (raise store_error, db)
  | some (db', written) ↦ (f written, db')
]

unfoldable pub get_snapshot : String → String → Call PitySnapshot
unfolding create_initial_pity
get_snapshot user_id group db = elim (find_pity user_id group db.pity) [
  | none ↦ (ok (record { state = create_initial_pity; version = 0 }), db)
  | some snapshot ↦ (ok snapshot, db)
]

abbrev current_pity_version : String → String → Db → Option ℕ
current_pity_version user_id group db = elim (find_pity user_id group db.pity) [
  | none ↦ none
  | some snapshot ↦ some snapshot.version
]

-- The two statements of the transaction, and what it does where no row has the version.
unfoldable pub update_versioned : String → String → ℕ → PityState → ℕ → Call PitySnapshot
unfolding update_pity
update_versioned user_id group expected_version next now db =
    elim (insert_initial_pity user_id group now db) [
      | none ↦ (raise store_error, db)
      | some initial ↦ elim (update_pity user_id group expected_version next now initial) [
        | none ↦ (raise store_error, db)
        | some (db', written) ↦ elim written [
          | none ↦ (raise (version_conflict (current_pity_version user_id group db')), db)
          | some snapshot ↦ (ok snapshot, db')
        ]
      ]
    ]

unfoldable pub compare_and_set : String → String → ℕ → PityState → ℕ → Call PitySnapshot
compare_and_set = update_versioned

-- The guards of the transaction, in their order.
unfoldable pub commit_guard : Option OperationRow → String → String → Option StoreError
commit_guard none request_hash token = some store_error
commit_guard (some row) request_hash token =
    if not (str_eq row.request_hash request_hash)
    then some store_error
    else if not (status_eq row.status processing)
    then some ownership_lost
    else if elim row.processing_token [ none ↦ true | some t ↦ not (str_eq t token) ]
    then some ownership_lost
    else none

-- `_operation_id`
abbrev pub operation_id : Runtime → String → Outcome StoreError String
operation_id R key = elim (R.parse_uuid key) [ none ↦ raise store_error | some id ↦ ok id ]

abbrev pub one_row : List OperationRow → Outcome StoreError (Unit {0})
one_row [] = raise store_error
one_row (row ∷ []) = ok tt
one_row (row ∷ more ∷ rows) = raise store_error

-- The last statement of the transaction; where it raises, everything is undone.
unfoldable pub commit_operation : String → PullOperation → ℕ → Db → PitySnapshot → Call PitySnapshot
unfolding update_pull_operation
commit_operation id operation now before snapshot db =
    let (r, db') = execute (update_pull_operation id operation now) one_row db in
    elim r [ ok _ ↦ (ok snapshot, db') | raise e ↦ (raise e, before) ]

module _ (R : Runtime) where
  unfoldable pub compare_and_set_with_pull_operation :
      String
      → String
      → String
      → String
      → ℕ
      → PityState
      → PullOperation
      → String
      → ℕ
      → Call PitySnapshot
  unfolding update_versioned commit_guard commit_operation
  compare_and_set_with_pull_operation key user_id group request_hash expected_version next operation
        token now db =
      elim (operation_id R key) [
        | raise e ↦ (raise e, db)
        | ok id ↦
            elim (commit_guard
              (find_row (λ row. has_id id row && str_eq row.user_id user_id) db.operations)
              request_hash token) [
                | some e ↦ (raise e, db)
                | none ↦
                    let (r, db') = update_versioned user_id group expected_version next now db in
                    elim r [
                      | raise e ↦ (raise e, db)
                      | ok snapshot ↦ commit_operation id operation now db snapshot db'
                    ]
              ]
      ]

  abbrev owned : List OperationRow → Outcome StoreError (Unit {0})
  owned [] = raise ownership_lost
  owned (row ∷ rows) = ok tt

  unfoldable pub transition_pull_operation_from_processing :
      String → String → String → String → PullOperation → ℕ → Call (Unit {0})
  unfolding transition_processing_operation
  transition_pull_operation_from_processing key user_id request_hash token operation now db =
      elim (operation_id R key) [
        | raise e ↦ (raise e, db)
        | ok id ↦
            execute (transition_processing_operation id user_id request_hash token operation now)
              owned db
      ]

  unfoldable pub save_pull_operation : String → String → PullOperation → ℕ → Call (Unit {0})
  unfolding save_operation
  save_pull_operation user_id idempotency_key operation now =
      execute (save_operation user_id (R.sha256 idempotency_key) operation now) one_row

  unfoldable pub save_pull_operation_by_key : String → PullOperation → ℕ → Call (Unit {0})
  unfolding update_pull_operation
  save_pull_operation_by_key key operation now db = elim (operation_id R key) [
    | raise e ↦ (raise e, db)
    | ok id ↦ execute (update_pull_operation id operation now) one_row db
  ]

  abbrev pub recovery_claim :
      String → List OperationRow → Outcome StoreError (Option PullOperationRecoveryClaim)
  recovery_claim token [] = ok none
  recovery_claim token (row ∷ rows) = ok (
      some (record {
        operation_key = row.id;
        user_id = row.user_id;
        operation = operation_from_row row;
        processing_token = token;
      }))

  -- `token` is the fresh `uuid4`.
  unfoldable pub claim_expired_processing_pull_operation :
      String → ℕ → String → ℕ → Call (Option PullOperationRecoveryClaim)
  unfolding claim_expired_processing_operation operation_from_row
  claim_expired_processing_pull_operation key lease_seconds token now db =
      elim (operation_id R key) [
        | raise e ↦ (raise e, db)
        | ok id ↦
            execute (claim_expired_processing_operation id token (max 1 lease_seconds) now)
              (recovery_claim token) db
      ]

  abbrev pub some_row : List OperationRow → Outcome StoreError Bool
  some_row rows = ok (not (is_empty rows))

  unfoldable pub claim_pull_operation_recovery : String → PullOperationStatus → ℕ → ℕ → Call Bool
  unfolding claim_pending_operation
  claim_pull_operation_recovery key expected lock_ttl_seconds now db = elim (operation_id R key) [
    | raise e ↦ (raise e, db)
    | ok id ↦ execute (claim_pending_operation id expected (max 1 lock_ttl_seconds) now) some_row db
  ]

  unfoldable pub release_pull_operation_recovery : String → ℕ → Call (Unit {0})
  unfolding release_pending_operation
  release_pull_operation_recovery key now db = elim (operation_id R key) [
    | raise e ↦ (raise e, db)
    | ok id ↦ execute (release_pending_operation id now) (λ _. ok tt) db
  ]
