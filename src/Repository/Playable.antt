-- ===== src/Repository/Playable.antt =====
-- Which banners of a loaded release can always be pulled.
use gacha_engine_service.Prelude.{
  ℕ, ◌≡◌, ◌≢◌, String, true, false, none, some, List, [], ◌∷◌, arith, inl, inr, All, Option-cases,
  is_empty,
}
use gacha_engine_service.Prelude.Dict.{nat_eq, string_eq, lookup}
use gacha_engine_service.Prelude.Entries.{Entries-lookup}
use gacha_engine_service.Prelude.Result.{ok}
use gacha_engine_service.Runtime.{Runtime, RuntimeLaws}
use gacha_engine_service.Schemas.{PityState, PullRecord}
use gacha_engine_service.CatalogConfig.{
  BannerConfig, FeaturedRule, CatalogSnapshot, banner_config_at, pool_for_rarity,
}
use gacha_engine_service.Engine.Rolls.{featured_ids}
use gacha_engine_service.Engine.Pulls.{perform_pulls}
use gacha_engine_service.Engine.Total.{IsRarity, perform_pulls-Returns}
use gacha_engine_service.Repository.Values.{Values}
use gacha_engine_service.Repository.Release.{Fetched, load_snapshot}
use gacha_engine_service.Repository.Loaded.{IsLoaded, Named}
use gacha_engine_service.Repository.Loads.{load_snapshot-IsSnapshot}

-- Every rarity has an item to draw, also where the featured ones are left out.
pub record HasPools (config : BannerConfig) : Type 0 where
  pub pools : (rarity : ℕ) → IsRarity rarity → is_empty (pool_for_rarity config rarity []) ≡ false
  pub off_rate_pools :
      (rarity : ℕ) (rule : FeaturedRule)
      → IsRarity rarity
      → lookup rarity config.featured_rules ≡ some rule
      → rule.miss_sets_guarantee ≡ true
      → is_empty (pool_for_rarity config rarity (featured_ids config rarity)) ≡ false

all_found :
    (config : BannerConfig) (rarity : ℕ) (ids : List String)
    → Named config.item_by_id rarity ids
    → All (λ item_id. lookup item_id config.item_by_id ≢ none) ids
all_found config rarity [] h = tt
all_found config rarity (item_id ∷ ids) ((item, found, _), h) =
    (ground (arith, found), all_found config rarity ids h)

featured-found :
    (config : BannerConfig)
    → IsLoaded config
    → (rarity : ℕ)
    → All (λ item_id. lookup item_id config.item_by_id ≢ none) (featured_ids config rarity)
featured-found config h rarity =
    elim (Option-cases (lookup rarity config.featured_item_ids_by_rarity)) [
      | inl e ↦ rw (e, All) tt
      | inr (ids, e) ↦
          rw (e, All)
            (all_found config rarity ids (
              Entries-lookup (Named config.item_by_id) rarity config.featured_item_ids_by_rarity
                h.featured e))
    ]

module _ (R : Runtime) (L : RuntimeLaws R) (V : Values) where
  -- On a banner that `banner_config_at` finds in a snapshot loaded from the database, and that has an
  -- item to draw for each rarity, also where the featured ones are left out: a batch returns for every
  -- count, state and seed.
  pub loaded_banner-Returns :
      (project_id environment_id : String) (now : ℕ) (reply : Fetched V)
      {snapshot : CatalogSnapshot}
      → load_snapshot V project_id environment_id now reply ≡ ok snapshot
      → (banner_id : String) (at : ℕ) {config : BannerConfig}
      → banner_config_at snapshot banner_id at ≡ ok (some config)
      → HasPools config
      → (count : ℕ) (pity : PityState) (seed : String)
      → (batch : List PullRecord × PityState) × (perform_pulls R config count pity seed ≡ ok batch)
  loaded_banner-Returns project_id environment_id now reply loaded banner_id at {config} found pools
        count pity seed =
      let (_, h) =
        (load_snapshot-IsSnapshot V project_id environment_id now reply loaded).configs banner_id at
          found in
      perform_pulls-Returns R L config
        (record {
          rates = h.rates;
          rules = h.rules;
          pools = pools.pools;
          off_rate_pools = pools.off_rate_pools;
          featured = λ rarity _. featured-found config h rarity;
        })
        count pity seed
