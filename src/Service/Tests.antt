-- ===== src/Service/Tests.antt =====
-- The theorems of the workflow at runs on sample tables.
use gacha_engine_service.Prelude.{refl, true, false, none, some, [], ◌∷◌}
use gacha_engine_service.Prelude.Result.{Outcome, ok, raise}
use gacha_engine_service.Runtime.Sample.{sample}
use gacha_engine_service.Schemas.{PullResponse, PullCompletedEvent}
use gacha_engine_service.Catalog.{gacha_items, limited_character_001}
use gacha_engine_service.CatalogConfig.Static.{static_banner_config}
use gacha_engine_service.Operations.{processing}
use gacha_engine_service.Operations.Context.{PullRecoveryContext, frozen_context}
use gacha_engine_service.Store.Rows.{OperationRow}
use gacha_engine_service.Store.Sql.{find_row}
use gacha_engine_service.Store.Begin.{no_fault}
use gacha_engine_service.Store.Samples.{sample_response, sample_row, sample_db}
use gacha_engine_service.Service.Errors.{Failure}
use gacha_engine_service.Service.World.{Env, World}
use gacha_engine_service.Service.Commit.{
  publish_pull_completed_with_retry, generate_and_commit_pull_with_retry, pull_event,
}
use gacha_engine_service.Schemas.{without_version}
use gacha_engine_service.CatalogConfig.{pool_for_rarity}
use gacha_engine_service.Engine.Rolls.{
  create_initial_pity, has_featured_guarantee, roll_rarity, roll_item, featured_items, pick_random,
  featured_draw, roll_by_rule, record_id,
}
use gacha_engine_service.Engine.Pulls.{
  perform_pulls, pull_rounds, pull_once, pull_record, advance_pity,
}
use gacha_engine_service.Operations.Context.{to_banner_config}
use gacha_engine_service.Store.Rows.{
  trigger_allows, checks_pass, event_ids, all_distinct, is_delivering, same_evidence,
}
use gacha_engine_service.Store.Sql.{
  arguments_fit, find_pity, update_pull_operation, update_operations, update_rows, with_operation,
  insert_initial_pity, update_pity, update_pity_rows, write_pity_row,
}
use gacha_engine_service.Store.Methods.{
  get_snapshot, compare_and_set_with_pull_operation, update_versioned, commit_guard,
  commit_operation,
}
use gacha_engine_service.Store.Begin.{at_moment}
use gacha_engine_service.Service.World.{store_call, return, attempt, from_result, ◌>>=◌}
use gacha_engine_service.Service.Commit.{commit_attempts, commit_pulls, pull_response}
use gacha_engine_service.Service.Outcomes.{Publication, publish_with_retry_lem}
use gacha_engine_service.Service.Errors.{AssetServiceError}
use gacha_engine_service.Service.Claimed.{
  execute_claimed_pull, spend_request, after_commit_pull, publish_and_complete_claimed_pull,
}
use gacha_engine_service.Service.Names.{spend_idempotency_key, pull_asset_metadata}
use gacha_engine_service.Service.World.{asset_spend, publish_pull_completed, ◌>>◌}
use gacha_engine_service.Service.Commit.{publish_attempts}
use gacha_engine_service.Store.Methods.{save_pull_operation_by_key}
use gacha_engine_service.Service.Performed.{LastAttempt, committed_result_is_performed}

abbrev pub calm : Env
calm = record {
  runtime = sample;
  moments = λ n. record { now = n; others = λ db. db; fault = no_fault };
  asset_reply = λ _. none;
  takes_event = λ _. true;
  receipt = λ _. some true;
  fresh_uuid = λ _. "token";
}

abbrev pub start : World
start = record { db = sample_db; calls = 0; effects = [] }

abbrev pub context : PullRecoveryContext
unfolding frozen_context static_banner_config
context = frozen_context (static_banner_config gacha_items limited_character_001) (record {
  count = 1;
  seed = "seed";
  event_id = "event";
  amount_minor = 160;
  request_id = "";
  accepted_at = some 1;
  audit = none;
})

abbrev pub claimed_row : OperationRow
claimed_row = record sample_row {
  status = processing;
  response = none;
  event = none;
  processing_token = some "token";
  processing_lease_until = some 30_000_000;
}

abbrev pub claimed : World
claimed = record {
  db = record { operations = claimed_row ∷ []; pity = [] };
  calls = 0;
  effects = [];
}

abbrev completed : PullCompletedEvent
unfolding pull_event
completed =
    pull_event context "user" []
      (record {
        state = record { since_five = 0; since_four = 0; guaranteed_featured_five = false };
        version = 0;
      })
      (record {
        state = record { since_five = 0; since_four = 0; guaranteed_featured_five = false };
        version = 1;
      })

publish_with_retry_lem_example :
    Publication calm 3 completed start
      (publish_pull_completed_with_retry calm completed start).1
      (publish_pull_completed_with_retry calm completed start).0
publish_with_retry_lem_example = publish_with_retry_lem calm completed start

outcome : Outcome Failure (PullResponse × PullCompletedEvent) × World
unfolding generate_and_commit_pull_with_retry commit_attempts commit_pulls store_call at_moment
    get_snapshot find_pity compare_and_set_with_pull_operation update_versioned commit_guard
    commit_operation update_pull_operation update_operations update_rows trigger_allows checks_pass
    event_ids all_distinct with_operation insert_initial_pity arguments_fit update_pity
    update_pity_rows write_pity_row return attempt from_result ◌>>=◌ to_banner_config pull_response
    pull_event find_row create_initial_pity is_delivering same_evidence pool_for_rarity
    has_featured_guarantee perform_pulls pull_rounds pull_once pull_record advance_pity roll_rarity
    roll_item featured_items pick_random featured_draw roll_by_rule record_id static_banner_config
    without_version frozen_context
outcome =
    generate_and_commit_pull_with_retry calm "user" "operation" "request" "token" context claimed

abbrev returned :
    Outcome Failure (PullResponse × PullCompletedEvent) → PullResponse × PullCompletedEvent
returned (ok result) = result
returned (raise _) = (sample_response, completed)

committed_result_is_performed_example :
    LastAttempt calm "user" "operation" "request" "token" context 5 claimed outcome.1
      (returned outcome.0)
unfolding outcome
committed_result_is_performed_example =
    committed_result_is_performed calm "user" "operation" "request" "token" context claimed
      {result = returned outcome.0} {w' = outcome.1} refl

charged : Outcome Failure PullResponse × World
unfolding execute_claimed_pull asset_spend spend_request spend_idempotency_key pull_asset_metadata
    after_commit_pull publish_and_complete_claimed_pull publish_pull_completed_with_retry
    publish_attempts publish_pull_completed save_pull_operation_by_key ◌>>◌
    generate_and_commit_pull_with_retry commit_attempts commit_pulls store_call at_moment
    get_snapshot find_pity compare_and_set_with_pull_operation update_versioned commit_guard
    commit_operation update_pull_operation update_operations update_rows trigger_allows checks_pass
    event_ids all_distinct with_operation insert_initial_pity arguments_fit update_pity
    update_pity_rows write_pity_row return attempt from_result ◌>>=◌ to_banner_config pull_response
    pull_event find_row create_initial_pity is_delivering same_evidence pool_for_rarity
    has_featured_guarantee perform_pulls pull_rounds pull_once pull_record advance_pity roll_rarity
    roll_item featured_items pick_random featured_draw roll_by_rule record_id static_banner_config
    without_version frozen_context
charged = execute_claimed_pull calm "user" "operation" "request" "token" context claimed

abbrev replied : Outcome Failure PullResponse → PullResponse
replied (ok response) = response
replied (raise _) = sample_response

-- The player cannot pay.
abbrev poor : AssetServiceError
poor = record { status_code = 409; code = "insufficient_funds"; message = "not enough" }

abbrev unpaid : Env
unpaid = record calm { asset_reply = λ _. some poor }
