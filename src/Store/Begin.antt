-- ===== src/Store/Begin.antt =====
-- `begin_pull_operation`: three statements with no transaction round them, so that other workers may
-- act between them, and what a statement meets at the database.
use Prim.Native.Nat.{max}
use gacha_engine_service.Prelude.{
  ℕ, ◌+◌, ◌*◌, String, Option, none, some, List, [], ◌∷◌, str_eq, if◌then◌else◌,
}
use gacha_engine_service.Prelude.Result.{Outcome, ok, raise}
use gacha_engine_service.Runtime.{Runtime}
use gacha_engine_service.Operations.{PullOperationClaim, processing}
use gacha_engine_service.Operations.Context.{PullRecoveryContext}
use gacha_engine_service.Store.Rows.{OperationRow, Db, second, operation_from_row}
use gacha_engine_service.Store.Sql.{insert_pull_operation, claim_processing_operation}
use gacha_engine_service.Store.Methods.{StoreError, store_error, Call, execute}
use gacha_engine_service.Store.Queries.{found_claim}

-- The connection may fail before a statement takes effect, or after, when only its reply is lost.
pub data Fault : Type 0 where
  no_fault lost_before lost_after : Fault

-- What a call to the store meets: the time, what other workers did to the tables before it, a fault.
pub record Moment : Type 0 where
  pub now : ℕ
  pub others : Db → Db
  pub fault : Fault

abbrev pub under_fault : {A : Type 0} → Fault → Call A → Call A
under_fault no_fault call db = call db
under_fault lost_before call db = (raise store_error, db)
under_fault lost_after call db = (raise store_error, (call db).1)

unfoldable pub at_moment : {A : Type 0} → Moment → (ℕ → Call A) → Call A
at_moment m call db = under_fault m.fault (call m.now) (m.others db)

module _ (R : Runtime) where
  -- The row of INSERT_PULL_OPERATION_SQL.
  unfoldable pub new_row :
      String → String → String → String → String → ℕ → PullRecoveryContext → ℕ → OperationRow
  new_row id user_id idempotency_key request_hash token lease_seconds context now = record {
    id = id;
    user_id = user_id;
    idempotency_key_hash = R.sha256 idempotency_key;
    request_hash = request_hash;
    status = processing;
    response = none;
    event = none;
    error_code = none;
    error_message = none;
    recovery_locked_until = none;
    processing_token = some token;
    processing_lease_until = some (now + max 1 lease_seconds * second);
    recovery_context = some context;
    request_id = if str_eq context.request_id "" then none else some context.request_id;
    created_at = now;
    updated_at = now;
  }

  abbrev claim_of : String → OperationRow → PullOperationClaim
  claim_of token row = record {
    operation_key = row.id;
    operation = operation_from_row row;
    processing_token = some token;
  }

  abbrev first_row : List OperationRow → Outcome StoreError (Option OperationRow)
  first_row [] = ok none
  first_row (row ∷ rows) = ok (some row)

  unfoldable pub insert_statement :
      String
      → String
      → String
      → String
      → String
      → ℕ
      → PullRecoveryContext
      → ℕ
      → Call (Option OperationRow)
  unfolding new_row insert_pull_operation
  insert_statement id user_id idempotency_key request_hash token lease_seconds context now =
      execute
        (insert_pull_operation
          (new_row id user_id idempotency_key request_hash token lease_seconds context now))
        (λ row. ok row)

  unfoldable pub claim_statement :
      String → String → String → String → ℕ → PullRecoveryContext → ℕ → Call (Option OperationRow)
  unfolding claim_processing_operation
  claim_statement user_id idempotency_key request_hash token lease_seconds context now =
      execute
        (claim_processing_operation user_id (R.sha256 idempotency_key) request_hash token
          (max 1 lease_seconds) context now)
        first_row

  -- The last statement: the operation of the key, which this call does not own.
  abbrev pub required_claim :
      Outcome StoreError (Option PullOperationClaim) → Call PullOperationClaim
  required_claim (raise e) db = (raise e, db)
  required_claim (ok none) db = (raise store_error, db)
  required_claim (ok (some claim)) db = (ok claim, db)

  unfoldable pub existing_claim : String → String → Call PullOperationClaim
  unfolding found_claim
  existing_claim user_id idempotency_key db =
      required_claim (found_claim R user_id idempotency_key db).0
        (found_claim R user_id idempotency_key db).1

  -- The row that a statement wrote is owned; where it wrote none, the next statement is tried.
  abbrev pub owned_or :
      String
      → Call PullOperationClaim
      → Outcome StoreError (Option OperationRow) × Db
      → Outcome StoreError PullOperationClaim × Db
  owned_or token rest (raise e, db) = (raise e, db)
  owned_or token rest (ok (some row), db) = (ok (claim_of token row), db)
  owned_or token rest (ok none, db) = rest db

  -- `id` and `token` are the fresh uuids.
  unfoldable pub begin_pull_operation :
      String
      → String
      → String
      → ℕ
      → PullRecoveryContext
      → String
      → String
      → Moment
      → Moment
      → Moment
      → Call PullOperationClaim
  unfolding at_moment insert_statement claim_statement existing_claim
  begin_pull_operation user_id idempotency_key request_hash lease_seconds context id token m m' m''
        db =
      owned_or token
        (λ inserted. owned_or token (at_moment m'' (λ _. existing_claim user_id idempotency_key)) (
          at_moment m'
            (claim_statement user_id idempotency_key request_hash token lease_seconds context)
            inserted))
        (at_moment m
          (insert_statement id user_id idempotency_key request_hash token lease_seconds context) db)
