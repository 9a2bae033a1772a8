-- ===== src/Service/VerifiedTests.antt =====
-- From the release to the audit, at a pull of a small release.
use gacha_engine_service.Prelude.{false, ◌≡◌, refl, arith, String, Option, some, []}
use gacha_engine_service.Prelude.Result.{Outcome, Result, ok, raise}
use gacha_engine_service.Runtime.Sample.{sample}
use gacha_engine_service.Schemas.{
  PitySnapshot, PullResponse, PullCompletedEvent, PullAuditMetadata, without_version,
}
use gacha_engine_service.Catalog.{gacha_items, limited_character_001}
use gacha_engine_service.CatalogConfig.{
  BannerConfig, CatalogSnapshot, banner_config_at, scheduled_config_at, single_config,
  is_effective_at, pool_for_rarity,
}
use gacha_engine_service.CatalogConfig.Static.{static_banner_config}
use gacha_engine_service.Engine.Rolls.{
  create_initial_pity, has_featured_guarantee, roll_rarity, roll_item, featured_items, pick_random,
  featured_draw, roll_by_rule, record_id,
}
use gacha_engine_service.Engine.Pulls.{
  perform_pulls, pull_rounds, pull_once, pull_record, advance_pity,
}
use gacha_engine_service.Operations.Context.{PullInputs, frozen_context, to_banner_config}
use gacha_engine_service.Audit.{
  BannerConfigEvidence, Verification, verified, build_pull_audit_metadata, verify_pull_response,
}
use gacha_engine_service.Repository.Sample.{json_values, release_row}
use gacha_engine_service.Repository.Tests.{loaded, snapshot_in}
use gacha_engine_service.Store.Rows.{
  trigger_allows, checks_pass, event_ids, all_distinct, is_delivering, same_evidence,
}
use gacha_engine_service.Store.Sql.{
  arguments_fit, find_row, find_pity, update_pull_operation, update_operations, update_rows,
  with_operation, insert_initial_pity, update_pity, update_pity_rows, write_pity_row,
}
use gacha_engine_service.Store.Methods.{
  get_snapshot, compare_and_set_with_pull_operation, update_versioned, commit_guard,
  commit_operation,
}
use gacha_engine_service.Store.Begin.{at_moment}
use gacha_engine_service.Service.Errors.{Failure}
use gacha_engine_service.Service.World.{store_call, return, attempt, from_result, ◌>>=◌}
use gacha_engine_service.Service.Commit.{
  commit_attempts, commit_pulls, pull_response, pull_event, generate_and_commit_pull_with_retry,
}
use gacha_engine_service.Service.Verified.{released_pull_is_verified}
use gacha_engine_service.Service.Tests.{calm, claimed}

abbrev json : BannerConfigEvidence → String
json evidence = evidence.pity_group_id

abbrev snapshot : CatalogSnapshot
unfolding loaded
snapshot = snapshot_in (loaded 20)

abbrev config_in : Result (Option BannerConfig) → BannerConfig
unfolding static_banner_config
config_in (ok (some config)) = config
config_in _ = static_banner_config gacha_items limited_character_001

abbrev config : BannerConfig
unfolding loaded banner_config_at scheduled_config_at single_config is_effective_at
config = config_in (banner_config_at snapshot "banner" 15)

abbrev audit : PullAuditMetadata
audit = record {
  schema_version = 1;
  release_id = some "release";
  release_number = some 3;
  release_snapshot_sha256 = some "digest";
  banner_version_id = some "v1";
  banner_config_sha256 = "banner";
  rng_algorithm_version = "wuwa-gacha-rng-v1";
  engine_version = "1.0";
  engine_build_sha = "sha";
}

abbrev inputs : PullInputs
inputs = record {
  count = 1;
  seed = "seed";
  event_id = "event";
  amount_minor = 160;
  request_id = "";
  accepted_at = some 15;
  audit = some audit;
}

abbrev no_pity : PitySnapshot
no_pity = record {
  state = record { since_five = 0; since_four = 0; guaranteed_featured_five = false };
  version = 0;
}

abbrev blank : PullResponse × PullCompletedEvent
unfolding pull_response pull_event frozen_context config
blank =
    let context = frozen_context config inputs in
    (pull_response context [] no_pity no_pity, pull_event context "user" [] no_pity no_pity)

outcome : Outcome Failure (PullResponse × PullCompletedEvent)
unfolding generate_and_commit_pull_with_retry commit_attempts commit_pulls store_call at_moment
    get_snapshot find_pity compare_and_set_with_pull_operation update_versioned commit_guard
    commit_operation update_pull_operation update_operations update_rows trigger_allows checks_pass
    event_ids all_distinct with_operation insert_initial_pity arguments_fit update_pity
    update_pity_rows write_pity_row return attempt from_result ◌>>=◌ to_banner_config pull_response
    pull_event find_row create_initial_pity is_delivering same_evidence pool_for_rarity
    has_featured_guarantee perform_pulls pull_rounds pull_once pull_record advance_pity roll_rarity
    roll_item featured_items pick_random featured_draw roll_by_rule record_id without_version
    frozen_context config
outcome =
    (generate_and_commit_pull_with_retry calm "user" "operation" "request" "token"
      (frozen_context config inputs) claimed).0

abbrev returned :
    Outcome Failure (PullResponse × PullCompletedEvent) → PullResponse × PullCompletedEvent
returned (ok result) = result
returned (raise _) = blank

released_pull_is_verified_example :
    (v : Verification) × (verify_pull_response sample json
        (returned outcome).0
        (snapshot_in (loaded 30))
      ≡ ok v)
    × (v.status ≡ verified)
    × (v.mismatches ≡ [])
unfolding outcome config loaded build_pull_audit_metadata config_in
released_pull_is_verified_example =
    released_pull_is_verified calm json config "1.0" "sha" json_values release_row "project"
      "environment" 20 30 {snapshot = snapshot} {reloaded = snapshot_in (loaded 30)} refl refl
      "banner" 15 audit inputs refl refl refl refl (omega arith) "user" "operation" "request"
      "token" claimed {result = returned outcome} refl
