-- ===== src/Store/Tests.antt =====
-- The theorems of the store at sample tables.
use gacha_engine_service.Prelude.{◌≡◌, refl, some}
use gacha_engine_service.Prelude.Result.{ok, raise}
use gacha_engine_service.Runtime.Sample.{sample}
use gacha_engine_service.Schemas.{PitySnapshot}
use gacha_engine_service.Store.Rows.{OperationRow, Db}
use gacha_engine_service.Store.Sql.{has_id, find_row, find_pity}
use gacha_engine_service.Store.Methods.{
  get_snapshot, compare_and_set, save_pull_operation_by_key, version_conflict,
}
use gacha_engine_service.Store.Evidence.{Evolves}
use gacha_engine_service.Store.Versions.{Advances, compare_and_set_lem}
use gacha_engine_service.Store.Reach.{
  Run, idle, step, save_by_key, set_pity, recorded_results_are_kept, pity_versions_only_go_up,
}
use gacha_engine_service.Prelude.{String, some, none, [], ◌∷◌}
use gacha_engine_service.Prelude.Result.{Outcome}
use gacha_engine_service.Operations.{processing}
use gacha_engine_service.Store.Methods.{
  StoreError, compare_and_set_with_pull_operation, update_versioned, commit_guard, commit_operation,
}
use gacha_engine_service.Store.Rows.{
  trigger_allows, checks_pass, event_ids, all_distinct, is_delivering,
}
use gacha_engine_service.Store.Sql.{
  arguments_fit, update_pull_operation, update_operations, update_rows, with_operation,
  insert_initial_pity, update_pity, update_pity_rows, write_pity_row,
}
use gacha_engine_service.Store.Atomic.{IsCommitted, commit_needs_ownership}
use gacha_engine_service.Store.Samples.{
  pending_operation, sample_state, sample_row, sample_db, published_operation,
}

saved : Db
saved = (save_pull_operation_by_key sample "operation" published_operation 5 sample_db).1

moved : Db
moved = (compare_and_set "user" "limited" 1 sample_state 6 saved).1

run : Run sample sample_db moved
unfolding saved moved
run =
    step (save_by_key "operation" published_operation 5 sample_db)
      (step (set_pity "user" "limited" 1 sample_state 6 saved) (idle moved))

recorded_results_are_kept_example :
    (row' : OperationRow) × (find_row (has_id "operation") moved.operations ≡ some row')
    × Evolves sample_row row'
unfolding find_row
recorded_results_are_kept_example = recorded_results_are_kept sample "operation" sample_row run refl

pity_versions_only_go_up_example :
    (s' : PitySnapshot) × (find_pity "user" "limited" moved.pity ≡ some s')
    × Advances (record { state = sample_state; version = 1 }) s'
unfolding find_pity
pity_versions_only_go_up_example =
    pity_versions_only_go_up sample "user" "limited" (record { state = sample_state; version = 1 })
      run refl

compare_and_set_lem_example :
    ((compare_and_set "user" "limited" 0 sample_state 9 sample_db).0
      ≡ raise (version_conflict (some 1)))
    × ((get_snapshot "user" "limited"
          (compare_and_set "user" "limited" 0 sample_state 9 sample_db).1).0
        ≡ ok (record { state = sample_state; version = 1 }))
unfolding get_snapshot find_pity arguments_fit
compare_and_set_lem_example =
    compare_and_set_lem "user" "limited" 0 sample_state 9 sample_db
      {s = record { state = sample_state; version = 1 }} (refl, tt) refl

abbrev claimed_db : Db
claimed_db = record {
  operations =
      record sample_row {
        status = processing;
        response = none;
        event = none;
        processing_token = some "token";
        processing_lease_until = some 30_000_000;
      }
      ∷ [];
  pity = sample_db.pity;
}

abbrev commit : String → Outcome StoreError PitySnapshot × Db
commit token =
    compare_and_set_with_pull_operation sample "operation" "user" "limited" "request" 1 sample_state
      pending_operation token 7 claimed_db

commit_needs_ownership_example :
    IsCommitted sample "operation" "user" "limited" "request" 1 sample_state pending_operation
      "token" 7 claimed_db
      (record { state = sample_state; version = 2 })
      (commit "token").1
unfolding compare_and_set_with_pull_operation update_versioned commit_guard commit_operation
    update_pull_operation update_operations update_rows trigger_allows checks_pass event_ids
    all_distinct with_operation insert_initial_pity arguments_fit update_pity update_pity_rows
    write_pity_row find_row find_pity is_delivering
commit_needs_ownership_example =
    commit_needs_ownership sample "operation" "user" "limited" "request" 1 sample_state
      pending_operation "token" 7 claimed_db {s = record { state = sample_state; version = 2 }}
      {after = (commit "token").1} refl
