-- ===== src/Engine/Total.antt =====
-- Which banners can always be pulled: no exception leaves `perform_pulls`.
use gacha_engine_service.Prelude.{
  ℕ, zero, suc, ◌+◌, ◌≡◌, ◌≢◌, refl, ◌⊎◌, inl, inr, String, Bool, true, false, none, some, List, [],
  ◌∷◌, arith, length, is_empty, All, get_elem?-some_of_lt, Bool-cases, Option-cases,
}
use gacha_engine_service.Prelude.Dict.{nat_eq, string_eq, lookup}
use gacha_engine_service.Prelude.Result.{Result, ok, ok_of_ne}
use gacha_engine_service.Runtime.{Runtime, RuntimeLaws}
use gacha_engine_service.Schemas.{GachaItem, PityState}
use gacha_engine_service.CatalogConfig.{BannerConfig, FeaturedRule, pool_for_rarity}
use gacha_engine_service.Engine.Rolls.{
  featured_ids, is_featured_item, roll_rarity, roll_item, roll_by_rule, featured_draw,
  featured_items, pick_random,
}
use gacha_engine_service.Engine.Pulls.{
  advance_pity, pull_record, pull_once, pull_rounds, perform_pulls,
}
use gacha_engine_service.Engine.Trace.{roll_rarity-IsRolled}

-- Some value is returned.
abbrev pub Returns {ℓ} : {A : Type ℓ} → Result A → Type ℓ
Returns {A} m = (a : A) × (m ≡ ok a)

abbrev pub IsRarity : ℕ → Type 0
IsRarity rarity = (rarity ≡ 5) ⊎ (rarity ≡ 4) ⊎ (rarity ≡ 3)

pub by_rarity : (P : ℕ → Type 0) → P 5 → P 4 → P 3 → (rarity : ℕ) → IsRarity rarity → P rarity
by_rarity P five four three rarity (inl e) = rw e five
by_rarity P five four three rarity (inr (inl e)) = rw e four
by_rarity P five four three rarity (inr (inr e)) = rw e three

-- The rates and rules that the engine reads exist, every featured id names an item, and every pool
-- that it may draw from has an item.
pub record IsPlayable (config : BannerConfig) : Type 0 where
  pub rates : (lookup 5 config.rarity_rates ≢ none) × (lookup 4 config.rarity_rates ≢ none)
  pub rules : (lookup 5 config.pity_rules ≢ none) × (lookup 4 config.pity_rules ≢ none)
  pub pools : (rarity : ℕ) → IsRarity rarity → is_empty (pool_for_rarity config rarity []) ≡ false
  pub off_rate_pools :
      (rarity : ℕ) (rule : FeaturedRule)
      → IsRarity rarity
      → lookup rarity config.featured_rules ≡ some rule
      → rule.miss_sets_guarantee ≡ true
      → is_empty (pool_for_rarity config rarity (featured_ids config rarity)) ≡ false
  pub featured :
      (rarity : ℕ)
      → IsRarity rarity
      → All (λ item_id. lookup item_id config.item_by_id ≢ none) (featured_ids config rarity)

module _ (R : Runtime) (L : RuntimeLaws R) (config : BannerConfig) (p : IsPlayable config) where
  open R use {Gen}

  roll_rarity-Returns : (pity : PityState) (rng : Gen) → Returns (roll_rarity R config pity rng)
  unfolding roll_rarity
  roll_rarity-Returns pity rng =
      ok_of_ne _ λ e h. let (five, four) = p.rates in let (rule5, rule4) = p.rules in ground arith

  pick_random-Returns :
      (items : List GachaItem) (rng : Gen)
      → is_empty items ≡ false
      → Returns (pick_random R items rng)
  unfolding pick_random
  pick_random-Returns (item ∷ items) rng h =
      let (got, e) =
        get_elem?-some_of_lt (item ∷ items) (R.randrange (length (item ∷ items)) rng).0
          (L.randrange_lt (length (item ∷ items)) rng (omega arith)) in
      ((got, (R.randrange (length (item ∷ items)) rng).1), rw e)
  pick_random-Returns [] rng h = cc

  featured_items-Returns :
      (ids : List String)
      → All (λ item_id. lookup item_id config.item_by_id ≢ none) ids
      → (items : List GachaItem) × (featured_items R config ids ≡ ok items)
        × (is_empty items ≡ is_empty ids)
  unfolding featured_items
  featured_items-Returns [] h = ([], refl, refl)
  featured_items-Returns (item_id ∷ ids) h =
      elim (Option-cases (lookup item_id config.item_by_id)) [
        | inl e ↦ absurd (h.0 e)
        | inr (item, e) ↦
            let (items, got, _) = featured_items-Returns ids h.1 in
            (item ∷ items, ground arith, refl)
      ]

  roll_by_rule-Returns :
      (rarity : ℕ) (rule : FeaturedRule) (featured : Bool) (rng : Gen)
      → IsRarity rarity
      → lookup rarity config.featured_rules ≡ some rule
      → is_empty (featured_ids config rarity) ≡ false
      → Returns (roll_by_rule R config rarity (featured_ids config rarity) rule (featured, rng))
  unfolding roll_by_rule
  roll_by_rule-Returns rarity rule true rng k found listed =
      let (items, got, e) =
        featured_items-Returns (featured_ids config rarity) (p.featured rarity k) in
      let (a, drawn) = pick_random-Returns items rng (rw e listed) in (a, rw got drawn)
  roll_by_rule-Returns rarity rule false rng k found listed =
      elim (Bool-cases rule.miss_sets_guarantee) [
        | inl e ↦ rw e (pick_random-Returns _ rng (p.off_rate_pools rarity rule k found e))
        | inr e ↦ rw e (pick_random-Returns _ rng (p.pools rarity k))
      ]

  roll_item-Returns :
      (rarity : ℕ) (pity : PityState) (rng : Gen)
      → IsRarity rarity
      → Returns (roll_item R config rarity pity rng)
  unfolding roll_item
  roll_item-Returns rarity pity rng k = elim (Option-cases (lookup rarity config.featured_rules)) [
    | inl e ↦ rw (e, roll_item) (pick_random-Returns _ rng (p.pools rarity k))
    | inr (rule, e) ↦
        rw (e, roll_item)
          (elim (Bool-cases (is_empty (featured_ids config rarity))) [
            | inl n ↦ rw (n, roll_item) (pick_random-Returns _ rng (p.pools rarity k))
            | inr n ↦
                rw (n, roll_item)
                  (roll_by_rule-Returns rarity rule (featured_draw R pity rule rng).0
                    (featured_draw R pity rule rng).1 k e n)
          ])
  ]

  advance_pity-Returns :
      (rarity : ℕ) (b : Bool) (pity : PityState) → Returns (advance_pity config rarity b pity)
  unfolding advance_pity
  advance_pity-Returns rarity b pity = ok_of_ne _ λ e h. let (rule5, _) = p.rules in ground arith

  pull_once-Returns :
      (seed : String) (index : ℕ) (pity : PityState) (rng : Gen)
      → Returns (pull_once R config seed index pity rng)
  unfolding pull_once
  pull_once-Returns seed index pity rng =
      let ((rarity, rng'), rolled) = roll_rarity-Returns pity rng in
      let ((item, rng''), picked) =
        roll_item-Returns rarity pity rng' (roll_rarity-IsRolled R config pity rng rolled).known in
      let (next, moved) = advance_pity-Returns rarity (is_featured_item config item) pity in
      ((pull_record R config seed index pity rarity item, next, rng''), rw (rolled, picked, moved))

  pull_rounds-Returns :
      (seed : String) (n index : ℕ) (pity : PityState) (rng : Gen)
      → Returns (pull_rounds R config seed n index pity rng)
  unfolding pull_rounds
  pull_rounds-Returns seed zero index pity rng = (([], pity), refl)
  pull_rounds-Returns seed (suc n) index pity rng =
      let ((r, next, rng'), once) = pull_once-Returns seed index pity rng in
      let ((records, last), more) = pull_rounds-Returns seed n (index + 1) next rng' in
      ((r ∷ records, last), rw (once, more))

  -- Every batch on a playable banner returns: no missing key, no empty pool.
  pub perform_pulls-Returns :
      (count : ℕ) (pity : PityState) (seed : String)
      → Returns (perform_pulls R config count pity seed)
  unfolding perform_pulls
  perform_pulls-Returns count pity seed = pull_rounds-Returns seed count 0 pity (R.seeded seed)
