-- ===== src/Repository/Tests.antt =====
-- The theorems of the catalog repository at a small release.
use gacha_engine_service.Prelude.{
  List, Option, false, ℕ, ◌+◌, ◌*◌, ◌≤◌, ◌<◌, ◌≡◌, refl, arith, some, [],
}
use gacha_engine_service.Prelude.Result.{Result, ok, raise, value_error}
use gacha_engine_service.Runtime.Sample.{sample, sample-RuntimeLaws}
use gacha_engine_service.Schemas.{PityState, PullRecord}
use gacha_engine_service.Catalog.{gacha_items, limited_character_001}
use gacha_engine_service.CatalogConfig.{
  BannerConfig, CatalogSnapshot, is_effective_at, banner_config_at, scheduled_config_at,
  single_config, pool_for_rarity,
}
use gacha_engine_service.Engine.Rolls.{roll_rarity, roll_item, pick_random}
use gacha_engine_service.Engine.Pulls.{perform_pulls, pull_rounds, pull_once}
use gacha_engine_service.Engine.Total.{by_rarity}
use gacha_engine_service.Repository.Playable.{HasPools, loaded_banner-Returns}
use gacha_engine_service.CatalogConfig.Static.{
  static_banner_config, items_by_id, static_catalog_snapshot,
}
use gacha_engine_service.Repository.Values.{Load, Row, column, optional_row_value}
use gacha_engine_service.Repository.Rows.{
  text, number, flag, item_from_row, items_from_rows, item_type_of, gacha_rarity, rate_from_row,
  featured_rule_from_row, pity_rule_from_row, rarity_rates_by_owner, featured_rules_by_owner,
  pity_rules_by_owner, json_object, theme_text, theme_from, with_timezone, release_timestamp,
  optional_release_timestamp, checked_pity_group_id, banner_type_of,
}
use gacha_engine_service.Repository.Build.{
  validate_runtime_banner_config, group_banner_items, pool_of_rows, pool_of_version,
  banner_from_row, config_from_row, add_schedule, add_banner_rows, gather, snapshot_of,
  build_snapshot,
}
use gacha_engine_service.Repository.Release.{
  as_objects, release_array, rows_by_id, banner_row, version_banner_rows, rows_of_versions,
  version_rows, release_rows, release_number_of, checked_payload, release_parts,
  build_snapshot_from_release, load_snapshot, fetched,
}
use gacha_engine_service.Repository.Loads.{IsSnapshot, load_snapshot-IsSnapshot}
use gacha_engine_service.Repository.Reload.{AnswersAlike, reloaded_release-AnswersAlike}
use gacha_engine_service.Repository.Cache.{cached_snapshot, empty_provider, store_snapshot}
use gacha_engine_service.Repository.Freshness.{
  Run, tick, asked, answered, start, step, started, Server, cached_snapshot-fresh,
}
use gacha_engine_service.Repository.Sample.{json_values, release_row, short_row}

unfoldable pub loaded_row : Row json_values → ℕ → Load CatalogSnapshot
unfolding items_by_id is_effective_at column optional_row_value text number flag item_from_row
    items_from_rows item_type_of gacha_rarity rate_from_row featured_rule_from_row
    pity_rule_from_row rarity_rates_by_owner featured_rules_by_owner pity_rules_by_owner json_object
    theme_text theme_from with_timezone release_timestamp optional_release_timestamp
    checked_pity_group_id banner_type_of validate_runtime_banner_config group_banner_items
    pool_of_rows pool_of_version banner_from_row config_from_row add_schedule add_banner_rows gather
    snapshot_of build_snapshot as_objects release_array rows_by_id banner_row version_banner_rows
    rows_of_versions version_rows release_rows release_number_of checked_payload release_parts
    build_snapshot_from_release
loaded_row row now = build_snapshot_from_release json_values (some row) "project" "environment" now

unfoldable pub loaded : ℕ → Load CatalogSnapshot
unfolding loaded_row
loaded now = loaded_row release_row now

abbrev pub snapshot_in : Load CatalogSnapshot → CatalogSnapshot
snapshot_in (ok s) = s
snapshot_in (raise e) = static_catalog_snapshot 0

reloaded_release-AnswersAlike_example :
    AnswersAlike (snapshot_in (loaded 20)) (snapshot_in (loaded 30))
unfolding loaded
reloaded_release-AnswersAlike_example =
    reloaded_release-AnswersAlike json_values release_row "project" "environment" 20 30
      {snapshot = snapshot_in (loaded 20)} {reloaded = snapshot_in (loaded 30)} refl refl

load_snapshot-IsSnapshot_example : IsSnapshot (snapshot_in (loaded 20))
unfolding loaded load_snapshot
load_snapshot-IsSnapshot_example =
    load_snapshot-IsSnapshot json_values "project" "environment" 20 (fetched (some release_row))
      {snapshot = snapshot_in (loaded 20)} refl

abbrev Gives : ℕ → CatalogSnapshot → Type 0
Gives t snapshot = snapshot.loaded_at ≡ t

abbrev served : CatalogSnapshot
served = static_catalog_snapshot 100

abbrev after_load : Server
after_load = record {
  provider = record { ttl_seconds = 60; snapshot = some served; expires_at = 60_000_100 };
  clock = 1000;
  waiting = [];
}

load_run : Run Gives (started Gives 60 100) after_load
unfolding empty_provider cached_snapshot store_snapshot static_catalog_snapshot
load_run =
    step (step (step start (asked refl)) (answered [] [] 100 served refl refl))
      (tick 1000 (omega arith))

cached_snapshot-fresh_example : (t : ℕ) × Gives t served × (t ≤ 1000) × (1000 < t + 60 * 1_000_000)
unfolding cached_snapshot
cached_snapshot-fresh_example =
    cached_snapshot-fresh Gives 60 100 {s = after_load} {snapshot = served} load_run refl

abbrev config_in : Result (Option BannerConfig) → BannerConfig
unfolding static_banner_config
config_in (ok (some config)) = config
config_in _ = static_banner_config gacha_items limited_character_001

abbrev config_of : Load CatalogSnapshot → BannerConfig
unfolding banner_config_at scheduled_config_at single_config is_effective_at
config_of snapshot = config_in (banner_config_at (snapshot_in snapshot) "banner" 15)

abbrev fresh : PityState
fresh = record { since_five = 0; since_four = 0; guaranteed_featured_five = false }

-- A release that passes every check may have a banner on which a pull raises a `ValueError`: this one
-- has no three-star item to draw.
short_release_raises :
    perform_pulls sample (config_of (loaded_row short_row 20)) 1 fresh "seed" ≡ raise value_error
unfolding loaded_row config_of config_in perform_pulls pull_rounds pull_once roll_rarity roll_item
    pick_random pool_for_rarity
short_release_raises = refl

release-HasPools : HasPools (config_of (loaded 20))
unfolding loaded config_of config_in pool_for_rarity
release-HasPools = record {
  pools = by_rarity _ refl refl refl;
  off_rate_pools = λ rarity rule k e. absurd (ground arith);
}

loaded_banner-Returns_example :
    (batch : List PullRecord × PityState) × (perform_pulls sample
        (config_of (loaded 20))
        10
        fresh
        "seed"
      ≡ ok batch)
unfolding loaded load_snapshot config_of config_in
loaded_banner-Returns_example =
    loaded_banner-Returns sample sample-RuntimeLaws json_values "project" "environment" 20
      (fetched (some release_row)) {snapshot = snapshot_in (loaded 20)} refl "banner" 15
      {config = config_of (loaded 20)} refl release-HasPools 10 fresh "seed"
