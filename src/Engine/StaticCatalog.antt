-- ===== src/Engine/StaticCatalog.antt =====
-- The static catalog can always be pulled.
use gacha_engine_service.Prelude.{
  ℕ, ◌≡◌, refl, ◌⊎◌, inl, inr, String, some, List, arith, is_empty, false, true,
}
use gacha_engine_service.Prelude.Dict.{nat_eq, string_eq, lookup}
use gacha_engine_service.Prelude.Result.{ok}
use gacha_engine_service.Runtime.{Runtime, RuntimeLaws}
use gacha_engine_service.Schemas.{PityState, PullRecord}
use gacha_engine_service.Catalog.{gacha_items, limited_character_001, standard_001}
use gacha_engine_service.CatalogConfig.{BannerConfig, FeaturedRule, pool_for_rarity}
use gacha_engine_service.CatalogConfig.Static.{static_banner_config, static_catalog_snapshot}
use gacha_engine_service.Engine.Rolls.{featured_ids}
use gacha_engine_service.Engine.Pulls.{perform_pulls}
use gacha_engine_service.Engine.Total.{IsPlayable, by_rarity, perform_pulls-Returns}

abbrev OffRate : BannerConfig → FeaturedRule → ℕ → Type 0
OffRate config rule rarity =
    lookup rarity config.featured_rules ≡ some rule
    → rule.miss_sets_guarantee ≡ true
    → is_empty (pool_for_rarity config rarity (featured_ids config rarity)) ≡ false

limited-IsPlayable : IsPlayable (static_banner_config gacha_items limited_character_001)
unfolding static_banner_config pool_for_rarity
limited-IsPlayable = record {
  rates = (ground arith, ground arith);
  rules = (ground arith, ground arith);
  pools = by_rarity _ refl refl refl;
  off_rate_pools = λ rarity rule k.
      by_rarity (OffRate (static_banner_config gacha_items limited_character_001) rule)
        (λ _ _. refl) (λ e m. ground arith) (λ e m. ground arith) rarity k;
  featured = by_rarity _ (ground arith) (ground arith) tt;
}

standard-IsPlayable : IsPlayable (static_banner_config gacha_items standard_001)
unfolding static_banner_config pool_for_rarity
standard-IsPlayable = record {
  rates = (ground arith, ground arith);
  rules = (ground arith, ground arith);
  pools = by_rarity _ refl refl refl;
  off_rate_pools = λ rarity rule k.
      by_rarity (OffRate (static_banner_config gacha_items standard_001) rule) (λ e m. ground arith)
        (λ e m. ground arith) (λ e m. ground arith) rarity k;
  featured = by_rarity _ (ground arith) (ground arith) tt;
}

static_configs-cases :
    (now : ℕ) (banner_id : String) {config : BannerConfig}
    → lookup banner_id (static_catalog_snapshot now).banner_configs_by_id ≡ some config
    → (config ≡ static_banner_config gacha_items limited_character_001)
      ⊎ (config ≡ static_banner_config gacha_items standard_001)
unfolding static_catalog_snapshot
static_configs-cases now banner_id found = ground arith

static-IsPlayable :
    (now : ℕ) (banner_id : String) {config : BannerConfig}
    → lookup banner_id (static_catalog_snapshot now).banner_configs_by_id ≡ some config
    → IsPlayable config
static-IsPlayable now banner_id found = elim (static_configs-cases now banner_id found) [
  | inl e ↦ rw e limited-IsPlayable
  | inr e ↦ rw e standard-IsPlayable
]

-- Whatever the state, the count and the seed: a batch on a banner of the static catalog returns, so
-- no missing rule, missing item or empty pool can stop it.
pub static_catalog-Returns :
    (R : Runtime) (L : RuntimeLaws R) (now : ℕ) (banner_id : String) {config : BannerConfig}
    (count : ℕ) (pity : PityState) (seed : String)
    → lookup banner_id (static_catalog_snapshot now).banner_configs_by_id ≡ some config
    → (batch : List PullRecord × PityState) × (perform_pulls R config count pity seed ≡ ok batch)
static_catalog-Returns R L now banner_id {config} count pity seed found =
    perform_pulls-Returns R L config (static-IsPlayable now banner_id found) count pity seed
