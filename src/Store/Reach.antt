-- ===== src/Store/Reach.antt =====
-- Runs of the store: any calls of its writing methods, by any number of workers, in any order and at
-- any times.
use gacha_engine_service.Prelude.{ℕ, ◌≡◌, String, some}
use gacha_engine_service.Runtime.{Runtime}
use gacha_engine_service.Schemas.{PityState, PitySnapshot}
use gacha_engine_service.Operations.{PullOperation, PullOperationStatus}
use gacha_engine_service.Operations.Context.{PullRecoveryContext}
use gacha_engine_service.Store.Rows.{OperationRow, Db}
use gacha_engine_service.Store.Sql.{has_id, find_row, find_pity}
use gacha_engine_service.Store.Methods.{
  compare_and_set, compare_and_set_with_pull_operation, transition_pull_operation_from_processing,
  save_pull_operation, save_pull_operation_by_key, claim_expired_processing_pull_operation,
  claim_pull_operation_recovery, release_pull_operation_recovery,
}
use gacha_engine_service.Store.Begin.{insert_statement, claim_statement}
use gacha_engine_service.Store.Evidence.{Evolves}
use gacha_engine_service.Store.Versions.{Advances}
use gacha_engine_service.Store.Steps.{
  Onward, Onward-refl, Onward-trans, transition-GoesOn, save-GoesOn, save_by_key-GoesOn,
  claim_expired-GoesOn, claim_recovery-GoesOn, release-GoesOn, insert-GoesOn, claim-GoesOn,
  compare_and_set-GoesOn, commit-GoesOn,
}

module _ (R : Runtime) where
  -- One call of the store; `begin_pull_operation` is its statements, which others may come between.
  pub data Step : Db → Db → Type 0 where
    begin_insert :
        (id user_id idempotency_key request_hash token : String) (lease_seconds : ℕ)
        (context : PullRecoveryContext) (now : ℕ) (db : Db)
        → Step db
            (insert_statement R id user_id idempotency_key request_hash token lease_seconds context
              now db).1
    begin_claim :
        (user_id idempotency_key request_hash token : String) (lease_seconds : ℕ)
        (context : PullRecoveryContext) (now : ℕ) (db : Db)
        → Step db
            (claim_statement R user_id idempotency_key request_hash token lease_seconds context now
              db).1
    set_pity :
        (user_id group : String) (version : ℕ) (next : PityState) (now : ℕ) (db : Db)
        → Step db (compare_and_set user_id group version next now db).1
    commit :
        (key user_id group request_hash : String) (version : ℕ) (next : PityState)
        (operation : PullOperation) (token : String) (now : ℕ) (db : Db)
        → Step db
            (compare_and_set_with_pull_operation R key user_id group request_hash version next
              operation token now db).1
    transition :
        (key user_id request_hash token : String) (operation : PullOperation) (now : ℕ) (db : Db)
        → Step db
            (transition_pull_operation_from_processing R key user_id request_hash token operation
              now db).1
    save :
        (user_id idempotency_key : String) (operation : PullOperation) (now : ℕ) (db : Db)
        → Step db (save_pull_operation R user_id idempotency_key operation now db).1
    save_by_key :
        (key : String) (operation : PullOperation) (now : ℕ) (db : Db)
        → Step db (save_pull_operation_by_key R key operation now db).1
    claim_expired :
        (key : String) (lease_seconds : ℕ) (token : String) (now : ℕ) (db : Db)
        → Step db (claim_expired_processing_pull_operation R key lease_seconds token now db).1
    claim_recovery :
        (key : String) (expected : PullOperationStatus) (ttl now : ℕ) (db : Db)
        → Step db (claim_pull_operation_recovery R key expected ttl now db).1
    release :
        (key : String) (now : ℕ) (db : Db)
        → Step db (release_pull_operation_recovery R key now db).1

  pub data Run : Db → Db → Type 0 where
    idle : (db : Db) → Run db db
    step : {a b c : Db} → Step a b → Run b c → Run a c

  Step-Onward : {db db' : Db} → Step db db' → Onward db db'
  unfolding compare_and_set
  Step-Onward (begin_insert id u k h t l c now db) = (insert-GoesOn R now id u k h t l c).at db
  Step-Onward (begin_claim u k h t l c now db) = (claim-GoesOn R now u k h t l c).at db
  Step-Onward (set_pity u g v next now db) = (compare_and_set-GoesOn R now u g v next).at db
  Step-Onward (commit k u g h v next o t now db) = (commit-GoesOn R now k u g h v next o t).at db
  Step-Onward (transition k u h t o now db) = (transition-GoesOn R now k u h t o).at db
  Step-Onward (save u k o now db) = (save-GoesOn R now u k o).at db
  Step-Onward (save_by_key k o now db) = (save_by_key-GoesOn R now k o).at db
  Step-Onward (claim_expired k l t now db) = (claim_expired-GoesOn R now k l t).at db
  Step-Onward (claim_recovery k s ttl now db) = (claim_recovery-GoesOn R now k s ttl).at db
  Step-Onward (release k now db) = (release-GoesOn R now k).at db

  pub Run-Onward : {db db' : Db} → Run db db' → Onward db db'
  Run-Onward (idle db) = Onward-refl db
  Run-Onward (step s r) = Onward-trans (Step-Onward s) (Run-Onward r)

  -- Whatever calls of the store's writing methods follow, with whatever arguments, in whatever order:
  -- an operation that is in the table stays there under its id, with its user and key; once its result
  -- is on record (`event_pending` or later) the request hash, the response and the event stay as they
  -- are and the delivery status never goes back; and once it has `succeeded` its row never changes.
  pub recorded_results_are_kept :
      {db db' : Db} (id : String) (row : OperationRow)
      → Run db db'
      → find_row (has_id id) db.operations ≡ some row
      → (row' : OperationRow) × (find_row (has_id id) db'.operations ≡ some row') × Evolves row row'
  recorded_results_are_kept id row run found = (Run-Onward run).rows.at_id id row found

  -- Whatever calls of the store's writing methods follow, with whatever arguments, in whatever order:
  -- the pity row of a user and a group stays, its version never goes down, and as long as the version
  -- is the same the pity state is the same.
  pub pity_versions_only_go_up :
      {db db' : Db} (user_id group : String) (s : PitySnapshot)
      → Run db db'
      → find_pity user_id group db.pity ≡ some s
      → (s' : PitySnapshot) × (find_pity user_id group db'.pity ≡ some s') × Advances s s'
  pity_versions_only_go_up user_id group s run found =
      (Run-Onward run).pity.at_group user_id group s found
