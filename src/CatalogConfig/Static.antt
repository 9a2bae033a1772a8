-- ===== src/CatalogConfig/Static.antt =====
-- `static_catalog_snapshot` of gacha_engine_service/catalog_config.py.
use gacha_engine_service.Prelude.{
  ℕ, ◌-◌, String, true, false, Option, none, some, List, [], ◌∷◌, ◌++◌, is_empty, if◌then◌else◌,
  str_eq,
}
use gacha_engine_service.Prelude.Dict.{Dict, string_eq, insert}
use gacha_engine_service.Schemas.{GachaItem, Banner}
use gacha_engine_service.Catalog.{gacha_items, banners}
use gacha_engine_service.CatalogConfig.{FeaturedRule, BannerConfig, CatalogSnapshot}

abbrev pub default_five_star_base_rate_ppm : ℕ
default_five_star_base_rate_ppm = 6000

abbrev pub default_four_star_base_rate_ppm : ℕ
default_four_star_base_rate_ppm = 51000

abbrev pub default_five_star_hard_pity : ℕ
default_five_star_hard_pity = 80

abbrev pub default_four_star_hard_pity : ℕ
default_four_star_hard_pity = 10

abbrev pub default_soft_pity_start : ℕ
default_soft_pity_start = 66

abbrev pub default_soft_pity_increment_ppm : ℕ
default_soft_pity_increment_ppm = 60000

-- `{item.id: item for item in items}`: a later item replaces an earlier one of the same id.
unfoldable pub items_by_id : List GachaItem → Dict String GachaItem → Dict String GachaItem
items_by_id [] found = found
items_by_id (item ∷ items) found = items_by_id items (insert item.id item found)

-- The truth value of `featured_five_id`.
unfoldable pub five_ids : Option String → List String
five_ids none = []
five_ids (some item_id) = if str_eq item_id "" then [] else item_id ∷ []

unfoldable pub static_featured_ids : List String → List String → Dict ℕ (List String)
static_featured_ids fives fours =
    (if is_empty fives then [] else (5, fives) ∷ [])
    ++ (if is_empty fours then [] else (4, fours) ∷ [])

abbrev five_up : FeaturedRule
five_up = record {
  rarity = 5;
  featured_group = "five_up";
  featured_rate_ppm = 500000;
  guarantee_after_miss = true;
  miss_sets_guarantee = true;
  guarantee_state_key = some "guaranteed_featured_five";
}

abbrev four_up : FeaturedRule
four_up = record {
  rarity = 4;
  featured_group = "four_up";
  featured_rate_ppm = 600000;
  guarantee_after_miss = false;
  miss_sets_guarantee = false;
  guarantee_state_key = none;
}

unfoldable pub static_featured_rules : List String → List String → Dict ℕ FeaturedRule
static_featured_rules fives fours =
    (if is_empty fives then [] else (5, five_up) ∷ [])
    ++ (if is_empty fours then [] else (4, four_up) ∷ [])

unfoldable pub static_banner_config : List GachaItem → Banner → BannerConfig
unfolding items_by_id five_ids static_featured_ids static_featured_rules
static_banner_config items banner = record {
  banner = banner;
  pity_group_id = banner.id;
  banner_version_id = none;
  version = 1;
  all_items = items;
  item_by_id = items_by_id items [];
  rarity_rates =
      (5, record { rarity = 5; base_rate_ppm = default_five_star_base_rate_ppm; roll_order = 1 })
      ∷ (4, record { rarity = 4; base_rate_ppm = default_four_star_base_rate_ppm; roll_order = 2 })
      ∷ (
        3,
        record {
          rarity = 3;
          base_rate_ppm =
              1_000_000 - default_five_star_base_rate_ppm - default_four_star_base_rate_ppm;
          roll_order = 3;
        },
      )
      ∷ [];
  featured_rules =
      static_featured_rules (five_ids banner.featured_five_id) banner.featured_four_ids;
  pity_rules =
      (
        5,
        record {
          rarity = 5;
          counter_key = "five_star";
          hard_pity = default_five_star_hard_pity;
          soft_pity_start = some default_soft_pity_start;
          soft_pity_increment_ppm = default_soft_pity_increment_ppm;
          resets_lower_rarity = true;
        },
      )
      ∷ (
        4,
        record {
          rarity = 4;
          counter_key = "four_star";
          hard_pity = default_four_star_hard_pity;
          soft_pity_start = none;
          soft_pity_increment_ppm = 0;
          resets_lower_rarity = false;
        },
      )
      ∷ [];
  featured_item_ids_by_rarity =
      static_featured_ids (five_ids banner.featured_five_id) banner.featured_four_ids;
}

unfoldable pub static_configs :
    List GachaItem → List Banner → Dict String BannerConfig → Dict String BannerConfig
static_configs items [] configs = configs
static_configs items (banner ∷ rest) configs =
    static_configs items rest (insert banner.id (static_banner_config items banner) configs)

-- `now` is the clock's reading.
unfoldable pub static_catalog_snapshot : ℕ → CatalogSnapshot
unfolding static_configs
static_catalog_snapshot now = record {
  source = "static";
  loaded_at = now;
  items = gacha_items;
  banners = banners;
  banner_configs_by_id = static_configs gacha_items banners [];
  banner_schedules_by_id = [];
  release_id = none;
  release_number = none;
  snapshot_sha256 = none;
}
