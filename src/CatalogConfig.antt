-- ===== src/CatalogConfig.antt =====
-- gacha_engine_service/catalog_config.py: the rules of a banner, its item pools, and the choice of
-- the banner configuration that is effective at a time.
pub mod Static
use gacha_engine_service.Prelude.{
  ℕ, ◌≡◌, String, Bool, true, false, not, ◌&&◌, Option, none, some, List, [], ◌∷◌, ◌==◌, ltb, leb,
  if◌then◌else◌, keep, is_empty, contains, map,
}
use gacha_engine_service.Prelude.Dict.{Dict, Eq, nat_eq, string_eq, lookup}
use gacha_engine_service.Prelude.Result.{Result, ok, raise, value_error}
use gacha_engine_service.Schemas.{GachaItem, Banner}

pub record RarityRate : Type 0 where
  pub rarity : ℕ
  pub base_rate_ppm : ℕ
  pub roll_order : ℕ

pub record FeaturedRule : Type 0 where
  pub rarity : ℕ
  pub featured_group : String
  pub featured_rate_ppm : ℕ
  pub guarantee_after_miss : Bool
  pub miss_sets_guarantee : Bool
  pub guarantee_state_key : Option String

pub record PityRule : Type 0 where
  pub rarity : ℕ
  pub counter_key : String
  pub hard_pity : ℕ
  pub soft_pity_start : Option ℕ
  pub soft_pity_increment_ppm : ℕ
  pub resets_lower_rarity : Bool

pub record BannerConfig : Type 0 where
  pub banner : Banner
  pub pity_group_id : String
  pub banner_version_id : Option String
  pub version : ℕ
  pub all_items : List GachaItem
  pub item_by_id : Dict String GachaItem
  pub rarity_rates : Dict ℕ RarityRate
  pub featured_rules : Dict ℕ FeaturedRule
  pub pity_rules : Dict ℕ PityRule
  pub featured_item_ids_by_rarity : Dict ℕ (List String)

-- The first comprehension of `pool_for_rarity`, over the banner's own item ids.
unfoldable pub banner_pool : BannerConfig → ℕ → List String → List String → List GachaItem
banner_pool config rarity exclude_ids [] = []
banner_pool config rarity exclude_ids (item_id ∷ item_ids) =
    let rest = banner_pool config rarity exclude_ids item_ids in
    elim (lookup item_id config.item_by_id) [
      | none ↦ rest
      | some item ↦
          if item.rarity == rarity && not (contains exclude_ids item_id) then item ∷ rest else rest
    ]

-- Without `exclude_ids` the excluded set is empty.
unfoldable pub pool_for_rarity : BannerConfig → ℕ → List String → List GachaItem
unfolding banner_pool
pool_for_rarity config rarity exclude_ids =
    let pool = banner_pool config rarity exclude_ids config.banner.item_pool in
    if is_empty pool
    then keep (λ item. item.rarity == rarity && not (contains exclude_ids item.id)) config.all_items
    else pool

pub record ScheduledBannerConfig : Type 0 where
  pub config : BannerConfig
  pub effective_from : Option ℕ
  pub effective_to : Option ℕ

-- Every timestamp of the model carries its zone, so the check of `tzinfo` always passes.
unfoldable pub is_effective_at : ScheduledBannerConfig → ℕ → Bool
is_effective_at s effective_at =
    elim s.effective_from [ none ↦ true | some start ↦ leb start effective_at ]
    && elim s.effective_to [ none ↦ true | some end ↦ ltb effective_at end ]

pub record CatalogSnapshot : Type 0 where
  pub source : String
  pub loaded_at : ℕ
  pub items : List GachaItem
  pub banners : List Banner
  pub banner_configs_by_id : Dict String BannerConfig
  pub banner_schedules_by_id : Dict String (List ScheduledBannerConfig)
  pub release_id : Option String
  pub release_number : Option ℕ
  pub snapshot_sha256 : Option String

-- More than one effective schedule is a `ValueError`.
unfoldable pub single_config : List ScheduledBannerConfig → Result (Option BannerConfig)
single_config [] = ok none
single_config (s ∷ []) = ok (some s.config)
single_config (s ∷ t ∷ rest) = raise value_error

unfoldable pub scheduled_config_at :
    CatalogSnapshot
    → String
    → ℕ
    → Option (List ScheduledBannerConfig)
    → Result (Option BannerConfig)
unfolding single_config
scheduled_config_at snapshot banner_id effective_at none =
    ok (lookup banner_id snapshot.banner_configs_by_id)
scheduled_config_at snapshot banner_id effective_at (some []) =
    ok (lookup banner_id snapshot.banner_configs_by_id)
scheduled_config_at snapshot banner_id effective_at (some (s ∷ schedules)) =
    single_config (keep (λ t. is_effective_at t effective_at) (s ∷ schedules))

unfoldable pub banner_config_at : CatalogSnapshot → String → ℕ → Result (Option BannerConfig)
unfolding scheduled_config_at is_effective_at
banner_config_at snapshot banner_id effective_at =
    scheduled_config_at snapshot banner_id effective_at
      (lookup banner_id snapshot.banner_schedules_by_id)
