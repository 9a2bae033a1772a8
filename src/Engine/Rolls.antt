-- ===== src/Engine/Rolls.antt =====
-- gacha_engine_service/engine.py: the draws of one pull: its rarity, its item, its record id.
use gacha_engine_service.Prelude.{
  ℕ, ◌+◌, ◌-◌, String, Bool, true, false, not, ◌&&◌, none, some, List, [], ◌∷◌, ◌==◌, ltb, leb,
  if◌then◌else◌, is_empty, contains, length, get_elem?, str_eq,
}
use Prim.Native.String.{◌++◌ as ◌<>◌}
use gacha_engine_service.Prelude.Dict.{Dict, Eq, nat_eq, string_eq, lookup}
use gacha_engine_service.Prelude.Result.{Result, ok, raise, value_error, key_error, ◌>>=◌}
use gacha_engine_service.Runtime.{Runtime}
use gacha_engine_service.Schemas.{GachaItem, PityState}
use gacha_engine_service.CatalogConfig.{BannerConfig, FeaturedRule, PityRule, pool_for_rarity}

abbrev pub pull_record_namespace : String
pull_record_namespace = "526b8ca6-8e43-4c6e-a1a6-1373927f45f4"

abbrev pub rng_algorithm_version : String
rng_algorithm_version = "wuwa-gacha-rng-v1"

unfoldable pub create_initial_pity : PityState
create_initial_pity = record { since_five = 0; since_four = 0; guaranteed_featured_five = false }

-- `d[k]` raises a `KeyError` where `k` is missing.
abbrev pub get_item {ℓ κ} : {K : Type ℓ} {V : Type κ} ⦃e : Eq K⦄ → Dict K V → K → Result V
get_item d k = elim (lookup k d) [ none ↦ raise key_error | some v ↦ ok v ]

-- `featured_item_ids_by_rarity.get(rarity, ())`
abbrev pub featured_ids : BannerConfig → ℕ → List String
featured_ids config rarity = elim (lookup rarity config.featured_item_ids_by_rarity) [
  | none ↦ []
  | some ids ↦ ids
]

unfoldable pub is_featured_item : BannerConfig → GachaItem → Bool
is_featured_item config item = contains (featured_ids config item.rarity) item.id

-- `getattr(pity, state_key, False)`: the one Boolean attribute of `PityState`. A counter's name
-- reads that counter's truth value. The attributes that every pydantic model has are left out.
unfoldable pub pity_attribute : PityState → String → Bool
pity_attribute pity key =
    if str_eq key "guaranteed_featured_five"
    then pity.guaranteed_featured_five
    else if str_eq key "since_five"
    then not (pity.since_five == 0)
    else if str_eq key "since_four"
    then not (pity.since_four == 0)
    else false

unfoldable pub has_featured_guarantee : PityState → FeaturedRule → Bool
unfolding pity_attribute
has_featured_guarantee pity rule = elim rule.guarantee_state_key [
  | none ↦ false
  | some key ↦ not (str_eq key "") && pity_attribute pity key
]

unfoldable pub next_featured_guarantee : BannerConfig → ℕ → Bool → Bool
next_featured_guarantee config rarity is_featured = elim (lookup rarity config.featured_rules) [
  | none ↦ false
  | some rule ↦ rule.miss_sets_guarantee && not is_featured
]

module _ (R : Runtime) where
  open R use {Float, Gen}

  -- `min(1.0, base_rate + soft_step * soft_pity_increment)`; `min` keeps its first argument unless
  -- the second is less.
  unfoldable pub get_rarity_rate : BannerConfig → ℕ → ℕ → Result Float
  get_rarity_rate config rarity pity_count = do
    rate ← get_item config.rarity_rates rarity
    let base_rate = R.per_million rate.base_rate_ppm
    elim (lookup rarity config.pity_rules) [
      | none ↦ ok base_rate
      | some rule ↦ elim rule.soft_pity_start [
        | none ↦ ok base_rate
        | some start ↦
            if ltb pity_count start
            then ok base_rate
            else let raised =
                R.plus base_rate
                  (R.times (pity_count - start + 1) (R.per_million rule.soft_pity_increment_ppm)) in
              ok (if R.lt raised R.one then raised else R.one)
      ]
    ]

  -- The draw against a rate: `rng.random() < get_rarity_rate(...)`. Python draws first.
  unfoldable pub roll_below_rate : BannerConfig → ℕ → ℕ → Gen → Result (Bool × Gen)
  unfolding get_rarity_rate
  roll_below_rate config rarity pity_count rng =
      let (draw, rng') = R.random rng in
      do rate ← get_rarity_rate config rarity pity_count; ok (R.lt draw rate, rng')

  -- The second half of `roll_rarity`, after the five-star draw.
  unfoldable pub roll_lower_rarity : BannerConfig → PityRule → ℕ → Bool × Gen → Result (ℕ × Gen)
  unfolding roll_below_rate
  roll_lower_rarity config four_rule pity_at_four (true, rng) = ok (5, rng)
  roll_lower_rarity config four_rule pity_at_four (false, rng) =
      if leb four_rule.hard_pity pity_at_four then ok (4, rng) else do
        (hit, rng') ← roll_below_rate config 4 pity_at_four rng
        ok (if hit then 4 else 3, rng')

  unfoldable pub roll_rarity : BannerConfig → PityState → Gen → Result (ℕ × Gen)
  unfolding roll_lower_rarity
  roll_rarity config pity rng = do
    let pity_at_five = pity.since_five + 1
    let pity_at_four = pity.since_four + 1
    five_rule ← get_item config.pity_rules 5
    four_rule ← get_item config.pity_rules 4
    if leb five_rule.hard_pity pity_at_five then ok (5, rng) else do
      drawn ← roll_below_rate config 5 pity_at_five rng
      roll_lower_rarity config four_rule pity_at_four drawn

  -- An index out of range would be an `IndexError`, which `randrange` rules out.
  unfoldable pub pick_random : List GachaItem → Gen → Result (GachaItem × Gen)
  pick_random items rng =
      if is_empty items
      then raise value_error
      else let (i, rng') = R.randrange (length items) rng in
        elim (get_elem? items i) [ none ↦ raise value_error | some item ↦ ok (item, rng') ]

  -- `[banner_config.item_by_id[item_id] for item_id in featured_item_ids]`
  unfoldable pub featured_items : BannerConfig → List String → Result (List GachaItem)
  featured_items config [] = ok []
  featured_items config (item_id ∷ ids) = do
    item ← get_item config.item_by_id item_id
    rest ← featured_items config ids
    ok (item ∷ rest)

  -- Whether the featured branch is taken; a guarantee makes no draw (`or` is lazy).
  unfoldable pub featured_draw : PityState → FeaturedRule → Gen → Bool × Gen
  featured_draw pity rule rng =
      if has_featured_guarantee pity rule
      then (true, rng)
      else let (draw, rng') = R.random rng in
        (R.lt draw (R.per_million rule.featured_rate_ppm), rng')

  unfoldable pub roll_by_rule :
      BannerConfig → ℕ → List String → FeaturedRule → Bool × Gen → Result (GachaItem × Gen)
  roll_by_rule config rarity ids rule (true, rng) = do
    items ← featured_items config ids
    pick_random items rng
  roll_by_rule config rarity ids rule (false, rng) =
      if rule.miss_sets_guarantee
      then pick_random (pool_for_rarity config rarity ids) rng
      else pick_random (pool_for_rarity config rarity []) rng

  unfoldable pub roll_item : BannerConfig → ℕ → PityState → Gen → Result (GachaItem × Gen)
  roll_item config rarity pity rng =
      let ids = featured_ids config rarity in
      elim (lookup rarity config.featured_rules) [
        | none ↦ pick_random (pool_for_rarity config rarity []) rng
        | some rule ↦
            if is_empty ids
            then pick_random (pool_for_rarity config rarity []) rng
            else roll_by_rule config rarity ids rule (featured_draw pity rule rng)
      ]

  unfoldable pub record_id : String → ℕ → String → String → ℕ → ℕ → String
  record_id seed index banner_id item_id pity_at_five pity_at_four = R.uuid5 pull_record_namespace (
      seed
      <> ":"
      <> R.decimal index
      <> ":"
      <> banner_id
      <> ":"
      <> item_id
      <> ":"
      <> R.decimal pity_at_five
      <> ":"
      <> R.decimal pity_at_four)
