-- ===== src/Store/Exclusive.antt =====
-- The locks that a worker takes on an operation: the lock of recovery and the processing lease.
use gacha_engine_service.Prelude.{
  ℕ, ◌+◌, ◌*◌, ◌≤◌, ◌≡◌, inl, inr, String, true, false, Option, none, some, List, [], ◌∷◌, ◌&&◌,
  is_some, arith, Option-cases,
}
use Prim.Native.Nat.{max}
use gacha_engine_service.Prelude.Result.{Outcome, ok}
use gacha_engine_service.Runtime.{Runtime}
use gacha_engine_service.Operations.{
  PullOperationStatus, PullOperationRecoveryClaim, processing, status_eq,
}
use gacha_engine_service.Store.Rows.{OperationRow, Db, second}
use gacha_engine_service.Store.Sql.{
  claim_pending_operation, claim_expired_processing_operation, is_expired, has_id, is_pending,
  lease,
}
use gacha_engine_service.Store.Methods.{
  claim_pull_operation_recovery, claim_expired_processing_pull_operation, execute, some_row,
  recovery_claim, StoreError,
}
use gacha_engine_service.Store.Identity.{UniqueIds, Takes, update_operations-once}

-- A granted claim has written a row.
granted :
    {B : Type 0} (statement : Db → Option (Db × List OperationRow))
    (f : List OperationRow → Outcome StoreError B) (b : B) (db : Db) {db' : Db}
    → (f [] ≡ ok b → ⊥)
    → execute statement f db ≡ (ok b, db')
    → (w : OperationRow) × (ws : List OperationRow) × (statement db ≡ some (db', w ∷ ws))
granted statement f b db wrote h = elim (Option-cases (statement db)) [
  | inl e ↦ absurd (ground arith)
  | inr ((after, []), e) ↦ absurd (wrote (ground arith))
  | inr ((after, w ∷ ws), e) ↦ (w, ws, ground arith)
]

module _ (R : Runtime) where
  recovery-Takes :
      (id : String) (expected : PullOperationStatus) (until now now' : ℕ)
      → now' ≤ until
      → Takes id
          (λ row.
            has_id id row
            && status_eq row.status expected
            && is_pending row.status
            && is_expired row.recovery_locked_until now)
          (λ row.
            has_id id row
            && status_eq row.status expected
            && is_pending row.status
            && is_expired row.recovery_locked_until now')
          (λ row. record row { recovery_locked_until = some until; updated_at = now })
  recovery-Takes id expected until now now' h = record {
    first = record { only = λ row asks. ground arith };
    second = record { only = λ row asks. ground arith };
    taken = λ row asks. ground arith;
  }

  -- Where a claim of an operation for recovery is granted, on a table in which no two operations share
  -- an id, a second claim of it under the same status, whoever makes it, is refused and writes nothing
  -- as long as the time of the first, its lock ttl (at least one second) added, has not passed.
  pub recovery_claim_is_exclusive :
      (key : String) (expected : PullOperationStatus) (ttl ttl' now now' : ℕ) (db : Db) {db' : Db}
      → UniqueIds db.operations
      → claim_pull_operation_recovery R key expected ttl now db ≡ (ok true, db')
      → now' ≤ now + max 1 ttl * second
      → claim_pull_operation_recovery R key expected ttl' now' db' ≡ (ok false, db')
  unfolding claim_pull_operation_recovery claim_pending_operation
  recovery_claim_is_exclusive key expected ttl ttl' now now' db {db'} unique h later =
      elim (Option-cases (R.parse_uuid key)) [
        | inl e ↦ absurd (ground arith)
        | inr (id, e) ↦
            let (w, ws, first) =
              granted (claim_pending_operation id expected (max 1 ttl) now) (some_row R) true db
                {db' = db'} (λ no. ground arith) (ground arith) in
            let taken = recovery-Takes id expected (now + max 1 ttl * second) now now' later in
            let again : claim_pending_operation id expected (max 1 ttl') now' db' ≡ some (db', []) =
              update_operations-once _ db taken unique first in
            ground arith
      ]

  lease-Takes :
      (id token : String) (seconds now now' : ℕ)
      → now' ≤ now + seconds * second
      → Takes id
          (λ row.
            has_id id row
            && status_eq row.status processing
            && is_some row.recovery_context
            && is_expired row.processing_lease_until now)
          (λ row.
            has_id id row
            && status_eq row.status processing
            && is_some row.recovery_context
            && is_expired row.processing_lease_until now')
          (lease token seconds now)
  lease-Takes id token seconds now now' h = record {
    first = record { only = λ row asks. ground arith };
    second = record { only = λ row asks. ground arith };
    taken = λ row asks. ground arith;
  }

  -- Where a claim of an unfinished operation, its lease being over, is granted, on a table in which no
  -- two operations share an id, a second claim, whoever makes it and under whatever token, finds
  -- nothing and writes nothing as long as the time of the first, its lease seconds (at least one)
  -- added, has not passed.
  pub processing_lease_is_exclusive :
      (key token token' : String) (seconds seconds' now now' : ℕ) (db : Db) {db' : Db}
      {claim : PullOperationRecoveryClaim}
      → UniqueIds db.operations
      → claim_expired_processing_pull_operation R key seconds token now db ≡ (ok (some claim), db')
      → now' ≤ now + max 1 seconds * second
      → claim_expired_processing_pull_operation R key seconds' token' now' db' ≡ (ok none, db')
  unfolding claim_expired_processing_pull_operation claim_expired_processing_operation
  processing_lease_is_exclusive key token token' seconds seconds' now now' db {db'} {claim} unique h
        later =
      elim (Option-cases (R.parse_uuid key)) [
        | inl e ↦ absurd (ground arith)
        | inr (id, e) ↦
            let (w, ws, first) =
              granted (claim_expired_processing_operation id token (max 1 seconds) now)
                (recovery_claim R token) (some claim) db {db' = db'} (λ no. ground arith)
                (ground arith) in
            let taken = lease-Takes id token (max 1 seconds) now now' later in
            let again : claim_expired_processing_operation id token' (max 1 seconds') now' db'
                ≡ some (db', []) =
              update_operations-once _ db taken unique first in
            ground arith
      ]
