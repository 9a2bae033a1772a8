-- ===== src/Operations/Context.antt =====
-- `PullRecoveryContext` of gacha_engine_service/pull_operations.py: the frozen inputs of a pull, from
-- a banner configuration and back.
use Prim.Native.String.{count as characters}
use gacha_engine_service.Prelude.{
  ℕ, String, Bool, ◌&&◌, ◌||◌, Option, List, [], map, leb, ltb, ◌==◌, if◌then◌else◌,
}
use gacha_engine_service.Prelude.Dict.{Dict, nat_eq, string_eq, of_entries, sorted}
use gacha_engine_service.Prelude.Result.{Result, ok, raise, value_error}
use gacha_engine_service.Schemas.{Banner, GachaItem, PullAuditMetadata}
use gacha_engine_service.CatalogConfig.{BannerConfig, RarityRate, FeaturedRule, PityRule}

pub record RecoveryRarityRate : Type 0 where
  pub rarity : ℕ
  pub base_rate_ppm : ℕ
  pub roll_order : ℕ

pub record RecoveryFeaturedRule : Type 0 where
  pub rarity : ℕ
  pub featured_group : String
  pub featured_rate_ppm : ℕ
  pub guarantee_after_miss : Bool
  pub miss_sets_guarantee : Bool
  pub guarantee_state_key : Option String

pub record RecoveryPityRule : Type 0 where
  pub rarity : ℕ
  pub counter_key : String
  pub hard_pity : ℕ
  pub soft_pity_start : Option ℕ
  pub soft_pity_increment_ppm : ℕ
  pub resets_lower_rarity : Bool

pub record PullRecoveryContext : Type 0 where
  pub banner : Banner
  pub pity_group_id : String
  pub banner_version_id : Option String
  pub banner_version : ℕ
  pub items : List GachaItem
  pub rarity_rates : List RecoveryRarityRate
  pub featured_rules : List RecoveryFeaturedRule
  pub pity_rules : List RecoveryPityRule
  pub featured_item_ids_by_rarity : Dict ℕ (List String)
  pub count : ℕ
  pub seed : String
  pub event_id : String
  pub amount_minor : ℕ
  pub request_id : String
  pub accepted_at : Option ℕ
  pub audit : Option PullAuditMetadata

unfoldable pub freeze_rate : ℕ × RarityRate → RecoveryRarityRate
freeze_rate (_, rate) = record {
  rarity = rate.rarity;
  base_rate_ppm = rate.base_rate_ppm;
  roll_order = rate.roll_order;
}

unfoldable pub freeze_featured_rule : ℕ × FeaturedRule → RecoveryFeaturedRule
freeze_featured_rule (_, rule) = record {
  rarity = rule.rarity;
  featured_group = rule.featured_group;
  featured_rate_ppm = rule.featured_rate_ppm;
  guarantee_after_miss = rule.guarantee_after_miss;
  miss_sets_guarantee = rule.miss_sets_guarantee;
  guarantee_state_key = rule.guarantee_state_key;
}

unfoldable pub freeze_pity_rule : ℕ × PityRule → RecoveryPityRule
freeze_pity_rule (_, rule) = record {
  rarity = rule.rarity;
  counter_key = rule.counter_key;
  hard_pity = rule.hard_pity;
  soft_pity_start = rule.soft_pity_start;
  soft_pity_increment_ppm = rule.soft_pity_increment_ppm;
  resets_lower_rarity = rule.resets_lower_rarity;
}

-- The constraints of the model's fields; pydantic raises a `ValueError` where one fails.
unfoldable pub is_valid_context : PullRecoveryContext → Bool
is_valid_context c =
    (leb 1 (characters c.pity_group_id) && leb (characters c.pity_group_id) 100)
    && (c.count == 1 || c.count == 10)
    && (leb 1 (characters c.seed) && leb (characters c.seed) 200)
    && ltb 0 c.amount_minor

-- The arguments of `from_banner_config` beside the configuration.
pub record PullInputs : Type 0 where
  pub count : ℕ
  pub seed : String
  pub event_id : String
  pub amount_minor : ℕ
  pub request_id : String
  pub accepted_at : Option ℕ
  pub audit : Option PullAuditMetadata

unfoldable pub frozen_context : BannerConfig → PullInputs → PullRecoveryContext
unfolding freeze_rate freeze_featured_rule freeze_pity_rule
frozen_context config inputs = record {
  banner = config.banner;
  pity_group_id = config.pity_group_id;
  banner_version_id = config.banner_version_id;
  banner_version = config.version;
  items = config.all_items;
  rarity_rates = map freeze_rate (sorted config.rarity_rates);
  featured_rules = map freeze_featured_rule (sorted config.featured_rules);
  pity_rules = map freeze_pity_rule (sorted config.pity_rules);
  featured_item_ids_by_rarity = of_entries config.featured_item_ids_by_rarity [];
  count = inputs.count;
  seed = inputs.seed;
  event_id = inputs.event_id;
  amount_minor = inputs.amount_minor;
  request_id = inputs.request_id;
  accepted_at = inputs.accepted_at;
  audit = inputs.audit;
}

unfoldable pub from_banner_config : BannerConfig → PullInputs → Result PullRecoveryContext
unfolding frozen_context is_valid_context
from_banner_config config inputs =
    let context = frozen_context config inputs in
    if is_valid_context context then ok context else raise value_error

unfoldable pub thaw_rate : RecoveryRarityRate → ℕ × RarityRate
thaw_rate rate = (
  rate.rarity,
  record { rarity = rate.rarity; base_rate_ppm = rate.base_rate_ppm; roll_order = rate.roll_order },
)

unfoldable pub thaw_featured_rule : RecoveryFeaturedRule → ℕ × FeaturedRule
thaw_featured_rule rule = (
  rule.rarity,
  record {
    rarity = rule.rarity;
    featured_group = rule.featured_group;
    featured_rate_ppm = rule.featured_rate_ppm;
    guarantee_after_miss = rule.guarantee_after_miss;
    miss_sets_guarantee = rule.miss_sets_guarantee;
    guarantee_state_key = rule.guarantee_state_key;
  },
)

unfoldable pub thaw_pity_rule : RecoveryPityRule → ℕ × PityRule
thaw_pity_rule rule = (
  rule.rarity,
  record {
    rarity = rule.rarity;
    counter_key = rule.counter_key;
    hard_pity = rule.hard_pity;
    soft_pity_start = rule.soft_pity_start;
    soft_pity_increment_ppm = rule.soft_pity_increment_ppm;
    resets_lower_rarity = rule.resets_lower_rarity;
  },
)

unfoldable pub to_banner_config : PullRecoveryContext → BannerConfig
unfolding thaw_rate thaw_featured_rule thaw_pity_rule
to_banner_config context = record {
  banner = context.banner;
  pity_group_id = context.pity_group_id;
  banner_version_id = context.banner_version_id;
  version = context.banner_version;
  all_items = context.items;
  item_by_id = of_entries (map (λ (item : GachaItem). (item.id, item)) context.items) [];
  rarity_rates = of_entries (map thaw_rate context.rarity_rates) [];
  featured_rules = of_entries (map thaw_featured_rule context.featured_rules) [];
  pity_rules = of_entries (map thaw_pity_rule context.pity_rules) [];
  featured_item_ids_by_rarity = of_entries context.featured_item_ids_by_rarity [];
}
