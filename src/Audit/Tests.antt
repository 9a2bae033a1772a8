-- ===== src/Audit/Tests.antt =====
-- The verification theorems at a pull on the limited banner of the static catalog.
use gacha_engine_service.Prelude.{◌≡◌, refl, String, true, false, some, List, [], ◌∷◌}
use gacha_engine_service.Prelude.Result.{Result, ok}
use gacha_engine_service.Runtime.Sample.{sample}
use gacha_engine_service.Schemas.{
  PityState, PitySnapshot, without_version, PullRecord, PullAuditMetadata, PullResponse, weapon,
}
use gacha_engine_service.Catalog.{gacha_items, limited_character_001, banners}
use gacha_engine_service.CatalogConfig.{
  BannerConfig, CatalogSnapshot, banner_config_at, pool_for_rarity,
}
use gacha_engine_service.CatalogConfig.Static.{static_banner_config}
use gacha_engine_service.Engine.Rolls.{
  has_featured_guarantee, roll_rarity, roll_item, featured_items, pick_random, featured_draw,
  roll_by_rule, record_id,
}
use gacha_engine_service.Engine.Pulls.{
  perform_pulls, pull_rounds, pull_once, pull_record, advance_pity,
}
use gacha_engine_service.Audit.{
  BannerConfigEvidence, Verification, verified, verify_pull_response, build_pull_audit_metadata,
  has_release_identity, banner_config_sha256,
}
use gacha_engine_service.Audit.Replay.{
  IsReplayOf, IsConfigured, verified_is_replayed, replayed_is_verified,
}

abbrev json : BannerConfigEvidence → String
json evidence = evidence.pity_group_id

abbrev config : BannerConfig
unfolding static_banner_config
config = static_banner_config gacha_items limited_character_001

abbrev snapshot : CatalogSnapshot
snapshot = record {
  source = "postgres";
  loaded_at = 0;
  items = gacha_items;
  banners = banners;
  banner_configs_by_id = (config.banner.id, config) ∷ [];
  banner_schedules_by_id = [];
  release_id = some "release";
  release_number = some 1;
  snapshot_sha256 = some "digest";
}

abbrev before : PitySnapshot
before = record {
  state = record { since_five = 78; since_four = 3; guaranteed_featured_five = true };
  version = 4;
}

batch : Result (List PullRecord × PityState)
unfolding pool_for_rarity has_featured_guarantee perform_pulls pull_rounds pull_once pull_record
    advance_pity roll_rarity roll_item featured_items pick_random featured_draw roll_by_rule
    record_id static_banner_config without_version
batch = perform_pulls sample config 1 (without_version before) "seed"

abbrev blank : PullRecord
blank = record {
  id = "";
  index = 0;
  item_id = "";
  item_name = "";
  item_type = weapon;
  rarity = 3;
  banner_id = "";
  banner_name = "";
  pity_at_five = 0;
  pity_at_four = 0;
  is_featured = false;
}

abbrev first : Result (List PullRecord × PityState) → PullRecord × PityState
first (ok (r ∷ _, state)) = (r, state)
first _ = (blank, before.state)

abbrev pulled : PullRecord × PityState
unfolding batch
pulled = first batch

abbrev audit : PullAuditMetadata
audit = record {
  schema_version = 1;
  release_id = some "release";
  release_number = some 1;
  release_snapshot_sha256 = some "digest";
  banner_version_id = config.banner_version_id;
  banner_config_sha256 = config.pity_group_id;
  rng_algorithm_version = "wuwa-gacha-rng-v1";
  engine_version = "1.0";
  engine_build_sha = "sha";
}

abbrev response : PullResponse
unfolding batch
response = record {
  event_id = "event";
  accepted_at = some 1;
  pity_group_id = some config.pity_group_id;
  banner_version_id = config.banner_version_id;
  seed = "seed";
  records = pulled.0 ∷ [];
  previous_pity = before;
  next_pity = record { state = pulled.1; version = 5 };
  state_version = 5;
  audit = some audit;
}

replay : IsReplayOf sample json response audit snapshot config pulled.1
unfolding batch banner_config_sha256
replay = record {
  audited = refl;
  release = refl;
  configuration = refl;
  replayed = refl;
  next = refl;
  version = refl;
}

run :
    (v : Verification) × (verify_pull_response sample json response snapshot ≡ ok v)
    × (v.status ≡ verified)
    × (v.mismatches ≡ [])
unfolding batch build_pull_audit_metadata has_release_identity banner_config_at
run =
    replayed_is_verified sample json response snapshot config "1.0" "sha" audit pulled.0 [] 1
      pulled.1 refl refl refl refl refl replay

replayed_is_verified_example :
    (v : Verification) × (verify_pull_response sample json response snapshot ≡ ok v)
    × (v.status ≡ verified)
    × (v.mismatches ≡ [])
unfolding batch build_pull_audit_metadata has_release_identity banner_config_at
replayed_is_verified_example =
    replayed_is_verified sample json response snapshot config "1.0" "sha" audit pulled.0 [] 1
      pulled.1 refl refl refl refl refl replay

verified_is_replayed_example :
    (audit' : PullAuditMetadata) × (config' : BannerConfig) × (state : PityState) × IsConfigured
      sample json response snapshot config'
    × IsReplayOf sample json response audit' snapshot config' state
verified_is_replayed_example =
    verified_is_replayed sample json response snapshot {v = run.0} run.1 run.2
