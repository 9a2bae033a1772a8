-- ===== src/Service/LockTests.antt =====
-- The theorems on the locks of the store, at the sample operation.
use gacha_engine_service.Prelude.{true, ◌≡◌, refl, false, Option, none, some, [], ◌∷◌, arith}
use gacha_engine_service.Prelude.Result.{Outcome, ok}
use gacha_engine_service.Runtime.Sample.{sample}
use gacha_engine_service.Operations.{PullOperationRecoveryClaim, event_pending}
use gacha_engine_service.Schemas.Equality.{responses-discrete, events-discrete}
use gacha_engine_service.Store.Rows.{
  Db, trigger_allows, checks_pass, event_ids, all_distinct, operation_from_row, same_evidence,
}
use gacha_engine_service.Store.Sql.{
  claim_pending_operation, claim_expired_processing_operation, update_operations, update_rows,
  is_pending, find_row,
}
use gacha_engine_service.Store.Methods.{
  StoreError, claim_pull_operation_recovery, claim_expired_processing_pull_operation,
}
use gacha_engine_service.Store.Identity.{UniqueIds}
use gacha_engine_service.Store.Exclusive.{
  recovery_claim_is_exclusive, processing_lease_is_exclusive,
}
use gacha_engine_service.Store.Claimable.{pending_operation_is_claimable}
use gacha_engine_service.Store.Samples.{sample_db, sample_row}
use gacha_engine_service.Service.Tests.{context, claimed_row}

abbrev locked : Db
locked = (claim_pull_operation_recovery sample "operation" event_pending 30 5 sample_db).1

recovery_claim_is_exclusive_example :
    claim_pull_operation_recovery sample "operation" event_pending 60 30_000_005 locked
    ≡ (ok false, locked)
unfolding UniqueIds find_row claim_pull_operation_recovery claim_pending_operation update_operations
    update_rows trigger_allows checks_pass event_ids all_distinct is_pending same_evidence
    responses-discrete events-discrete
recovery_claim_is_exclusive_example =
    recovery_claim_is_exclusive sample "operation" event_pending 30 60 5 30_000_005 sample_db
      {db' = locked} (refl, tt) refl (omega arith)

-- The first worker never came back; its lock is over.
pending_operation_is_claimable_example :
    (claim_pull_operation_recovery sample "operation" event_pending 60 40_000_000 locked).0
    ≡ ok true
unfolding UniqueIds find_row claim_pull_operation_recovery claim_pending_operation update_operations
    update_rows trigger_allows checks_pass event_ids all_distinct is_pending same_evidence
    responses-discrete events-discrete
pending_operation_is_claimable_example =
    pending_operation_is_claimable sample "operation" "operation" 60 40_000_000 locked
      (record sample_row { recovery_locked_until = some 30_000_005; updated_at = 5 }) (refl, tt)
      refl refl refl refl refl refl

abbrev stalled : Db
stalled = record {
  operations = record claimed_row { recovery_context = some context } ∷ [];
  pity = [];
}

abbrev leased : Outcome StoreError (Option PullOperationRecoveryClaim) × Db
leased = claim_expired_processing_pull_operation sample "operation" 30 "worker" 40_000_000 stalled

abbrev taken : PullOperationRecoveryClaim
unfolding operation_from_row
taken = record {
  operation_key = "operation";
  user_id = "user";
  operation = operation_from_row (record claimed_row { recovery_context = some context });
  processing_token = "worker";
}

processing_lease_is_exclusive_example :
    claim_expired_processing_pull_operation sample "operation" 30 "other" 70_000_000 leased.1
    ≡ (ok none, leased.1)
unfolding UniqueIds find_row claim_expired_processing_pull_operation
    claim_expired_processing_operation update_operations update_rows trigger_allows checks_pass
    event_ids all_distinct operation_from_row
processing_lease_is_exclusive_example =
    processing_lease_is_exclusive sample "operation" "worker" "other" 30 30 40_000_000 70_000_000
      stalled {db' = leased.1} {claim = taken} (refl, tt) refl (omega arith)
