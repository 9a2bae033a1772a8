-- ===== src/Engine/Tests.antt =====
-- Runs of the engine on the static catalog, and its theorems at them.
use gacha_engine_service.Prelude.{
  ℕ, ◌+◌, ◌<◌, ◌≤◌, ◌≡◌, refl, false, true, some, List, [], ◌∷◌, arith, length, All, get_elem?, map,
  eq_iff,
}
use gacha_engine_service.Prelude.Dict.{nat_eq, string_eq}
use gacha_engine_service.Prelude.Result.{Result, ok, raise}
use gacha_engine_service.Runtime.Sample.{sample, sample-RuntimeLaws}
use gacha_engine_service.Schemas.{PityState, PullRecord}
use gacha_engine_service.Catalog.{gacha_items, limited_character_001}
use gacha_engine_service.CatalogConfig.{BannerConfig, pool_for_rarity}
use gacha_engine_service.CatalogConfig.Static.{
  static_banner_config, static_catalog_snapshot, static_configs,
}
use gacha_engine_service.Engine.Rolls.{
  has_featured_guarantee, roll_rarity, roll_item, featured_items, pick_random, featured_draw,
  roll_by_rule, record_id,
}
use gacha_engine_service.Engine.StaticCatalog.{static_catalog-Returns}
use gacha_engine_service.Engine.Trace.{FeaturesFive}
use gacha_engine_service.Engine.Pity.{
  pulls_since, Honoured, owed_after, perform_pulls_numbered, hard_pity_bound, five_star_window,
  four_star_window, featured_guarantee,
}
use gacha_engine_service.Engine.Pulls.{
  perform_pulls, pull_rounds, pull_once, pull_record, advance_pity,
}

abbrev limited : BannerConfig
unfolding static_banner_config
limited = static_banner_config gacha_items limited_character_001

abbrev near : PityState
near = record { since_five = 78; since_four = 3; guaranteed_featured_five = true }

abbrev fresh : PityState
fresh = record { since_five = 0; since_four = 0; guaranteed_featured_five = false }

batch : ℕ → PityState → Result (List PullRecord × PityState)
unfolding pool_for_rarity has_featured_guarantee perform_pulls pull_rounds pull_once pull_record
    advance_pity roll_rarity roll_item featured_items pick_random featured_draw roll_by_rule
    record_id static_banner_config
batch n pity = perform_pulls sample limited n pity "seed"

abbrev returned : Result (List PullRecord × PityState) → List PullRecord × PityState
returned (ok b) = b
returned (raise e) = ([], fresh)

abbrev three : List PullRecord × PityState
unfolding batch
three = returned (batch 3 near)

abbrev single : List PullRecord × PityState
unfolding batch
single = returned (batch 1 fresh)

limited-FeaturesFive : FeaturesFive limited
unfolding static_banner_config
limited-FeaturesFive = record {
  rule = _;
  found = refl;
  misses_set = refl;
  key = refl;
  listed = refl;
  items = λ item_id item listed found. ground (arith, eq_iff item_id "char-luoxian");
}

-- Three pulls from 78 without a five-star: a three-star, then the due five-star, then a three-star.
rarities : map (λ (r : PullRecord). r.rarity) three.0 ≡ 3 ∷ 5 ∷ 3 ∷ []
unfolding batch
rarities = refl

perform_pulls_numbered_example :
    (length three.0 ≡ 3)
    × ((i : ℕ) (r : PullRecord) → get_elem? three.0 i ≡ some r → r.index ≡ i)
    × (three.1.since_five ≡ pulls_since 5 78 three.0)
unfolding batch
perform_pulls_numbered_example =
    perform_pulls_numbered sample limited 3 near "seed" {records = three.0} {last = three.1} refl

hard_pity_bound_example :
    (three.1.since_five < 80)
    × All (λ r. (r.pity_at_five ≤ 80) × (r.pity_at_five ≡ 80 → r.rarity ≡ 5)) three.0
unfolding batch
hard_pity_bound_example =
    hard_pity_bound sample limited 3 near "seed" {records = three.0} {last = three.1} refl
      (omega arith) (omega arith) refl

five_star_window_example : 0 + 1 < 80
unfolding batch
five_star_window_example =
    five_star_window sample limited 1 fresh "seed" {records = single.0} {last = single.1} refl
      (omega arith) (omega arith) refl (omega arith)

four_star_window_example : 0 + 1 < 10
unfolding batch
four_star_window_example =
    four_star_window sample limited 1 fresh "seed" {records = single.0} {last = single.1} refl
      (omega arith) refl (refl, tt)

featured_guarantee_example :
    Honoured true three.0 × (three.1.guaranteed_featured_five ≡ owed_after true three.0)
unfolding batch
featured_guarantee_example =
    featured_guarantee sample limited 3 near "seed" {records = three.0} {last = three.1}
      limited-FeaturesFive refl

static_catalog-Returns_example :
    (played : List PullRecord × PityState) × (perform_pulls sample limited 3 near "seed"
      ≡ ok played)
unfolding static_catalog_snapshot static_configs limited static_banner_config
static_catalog-Returns_example =
    static_catalog-Returns sample sample-RuntimeLaws 0 "limited-character-001" {config = limited} 3
      near "seed" refl
