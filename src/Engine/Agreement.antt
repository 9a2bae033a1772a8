-- ===== src/Engine/Agreement.antt =====
-- What the pull engine reads of a banner configuration: configurations that agree on it give the same
-- batches.
use gacha_engine_service.Prelude.{
  ℕ, zero, suc, ◌+◌, ◌≡◌, refl, String, Bool, true, false, List, [], ◌∷◌, arith, Option-cases, inl,
  inr,
}
use gacha_engine_service.Prelude.Dict.{nat_eq, string_eq, lookup}
use gacha_engine_service.Prelude.Result.{Outcome, ◌>>=◌}
use gacha_engine_service.Runtime.{Runtime}
use gacha_engine_service.Schemas.{GachaItem, PityState}
use gacha_engine_service.CatalogConfig.{
  BannerConfig, FeaturedRule, PityRule, banner_pool, pool_for_rarity,
}
use gacha_engine_service.Engine.Rolls.{
  get_rarity_rate, roll_below_rate, roll_lower_rarity, roll_rarity, featured_items, roll_by_rule,
  roll_item, is_featured_item, featured_ids, featured_draw,
}
use gacha_engine_service.Engine.Pulls.{
  advance_pity, pull_record, pull_once, pull_rounds, perform_pulls,
}

-- Equal banners and items, and equal entries under every key.
pub record Agrees (c d : BannerConfig) : Type 0 where
  pub banner : c.banner ≡ d.banner
  pub all_items : c.all_items ≡ d.all_items
  pub items : (k : String) → lookup k c.item_by_id ≡ lookup k d.item_by_id
  pub rates : (k : ℕ) → lookup k c.rarity_rates ≡ lookup k d.rarity_rates
  pub featured_rules : (k : ℕ) → lookup k c.featured_rules ≡ lookup k d.featured_rules
  pub pity_rules : (k : ℕ) → lookup k c.pity_rules ≡ lookup k d.pity_rules
  pub featured_ids :
      (k : ℕ) → lookup k c.featured_item_ids_by_rarity ≡ lookup k d.featured_item_ids_by_rarity

bind_ext {ℓ κ} :
    {E : Type 0} {A : Type ℓ} {B : Type κ} {m n : Outcome E A} {f g : A → Outcome E B}
    → m ≡ n
    → ((a : A) → f a ≡ g a)
    → (m >>= f) ≡ (n >>= g)
bind_ext e h = λ i. e i >>= λ a. h a i

module _ (c d : BannerConfig) (a : Agrees c d) where
  banner_pool_agrees :
      (rarity : ℕ) (exclude_ids item_ids : List String)
      → banner_pool c rarity exclude_ids item_ids ≡ banner_pool d rarity exclude_ids item_ids
  unfolding banner_pool
  banner_pool_agrees rarity exclude_ids [] = refl
  banner_pool_agrees rarity exclude_ids (item_id ∷ item_ids) =
      ground (arith, a.items item_id, banner_pool_agrees rarity exclude_ids item_ids)

  pool_for_rarity_agrees :
      (rarity : ℕ) (exclude_ids : List String)
      → pool_for_rarity c rarity exclude_ids ≡ pool_for_rarity d rarity exclude_ids
  unfolding pool_for_rarity
  pool_for_rarity_agrees rarity exclude_ids =
      rw (a.banner, a.all_items, banner_pool_agrees rarity exclude_ids d.banner.item_pool) refl

  module _ (R : Runtime) where
    open R use {Gen}

    get_rarity_rate_agrees :
        (rarity pity_count : ℕ)
        → get_rarity_rate R c rarity pity_count ≡ get_rarity_rate R d rarity pity_count
    unfolding get_rarity_rate
    get_rarity_rate_agrees rarity pity_count = ground (arith, a.rates rarity, a.pity_rules rarity)

    roll_below_rate_agrees :
        (rarity pity_count : ℕ) (rng : Gen)
        → roll_below_rate R c rarity pity_count rng ≡ roll_below_rate R d rarity pity_count rng
    unfolding roll_below_rate
    roll_below_rate_agrees rarity pity_count rng =
        rw (get_rarity_rate_agrees rarity pity_count) refl

    roll_lower_rarity_agrees :
        (rule : PityRule) (pity_at_four : ℕ) (drawn : Bool × Gen)
        → roll_lower_rarity R c rule pity_at_four drawn
          ≡ roll_lower_rarity R d rule pity_at_four drawn
    unfolding roll_lower_rarity
    roll_lower_rarity_agrees rule pity_at_four (true, rng) = refl
    roll_lower_rarity_agrees rule pity_at_four (false, rng) =
        rw (roll_below_rate_agrees 4 pity_at_four rng) refl

    roll_rarity_agrees :
        (pity : PityState) (rng : Gen) → roll_rarity R c pity rng ≡ roll_rarity R d pity rng
    unfolding roll_rarity
    roll_rarity_agrees pity rng =
        ground (arith, a.pity_rules 5, a.pity_rules 4, a.rates 5, a.rates 4)

    featured_items_agrees : (ids : List String) → featured_items R c ids ≡ featured_items R d ids
    unfolding featured_items
    featured_items_agrees [] = refl
    featured_items_agrees (item_id ∷ ids) =
        ground (arith, a.items item_id, featured_items_agrees ids)

    roll_by_rule_agrees :
        (rarity : ℕ) (ids : List String) (rule : FeaturedRule) (drawn : Bool × Gen)
        → roll_by_rule R c rarity ids rule drawn ≡ roll_by_rule R d rarity ids rule drawn
    unfolding roll_by_rule
    roll_by_rule_agrees rarity ids rule (true, rng) = rw (featured_items_agrees ids) refl
    roll_by_rule_agrees rarity ids rule (false, rng) =
        rw (pool_for_rarity_agrees rarity ids, pool_for_rarity_agrees rarity []) refl

    roll_item_agrees :
        (rarity : ℕ) (pity : PityState) (rng : Gen)
        → roll_item R c rarity pity rng ≡ roll_item R d rarity pity rng
    unfolding roll_item
    roll_item_agrees rarity pity rng = elim (Option-cases (lookup rarity c.featured_rules)) [
      | inl e ↦ ground (arith, a.featured_rules rarity, pool_for_rarity_agrees rarity [])
      | inr (rule, e) ↦ ground (
        arith,
        a.featured_rules rarity,
        a.featured_ids rarity,
        pool_for_rarity_agrees rarity [],
        roll_by_rule_agrees rarity (featured_ids c rarity) rule (featured_draw R pity rule rng),
      )
    ]

    advance_pity_agrees :
        (rarity : ℕ) (b : Bool) (pity : PityState)
        → advance_pity c rarity b pity ≡ advance_pity d rarity b pity
    unfolding advance_pity
    advance_pity_agrees rarity b pity = ground (arith, a.pity_rules 5, a.featured_rules 5)

    is_featured_item_agrees : (item : GachaItem) → is_featured_item c item ≡ is_featured_item d item
    unfolding is_featured_item
    is_featured_item_agrees item = ground (arith, a.featured_ids item.rarity)

    pull_record_agrees :
        (seed : String) (index : ℕ) (pity : PityState) (rarity : ℕ) (item : GachaItem)
        → pull_record R c seed index pity rarity item ≡ pull_record R d seed index pity rarity item
    unfolding pull_record
    pull_record_agrees seed index pity rarity item =
        rw (a.banner, is_featured_item_agrees item) refl

    pull_once_agrees :
        (seed : String) (index : ℕ) (pity : PityState) (rng : Gen)
        → pull_once R c seed index pity rng ≡ pull_once R d seed index pity rng
    unfolding pull_once
    pull_once_agrees seed index pity rng = bind_ext (roll_rarity_agrees pity rng) λ (rarity, rng').
        bind_ext (roll_item_agrees rarity pity rng') λ (item, rng'').
          rw
            (
              is_featured_item_agrees item,
              pull_record_agrees seed index pity rarity item,
              advance_pity_agrees rarity (is_featured_item d item) pity,
            )
            refl

    pull_rounds_agrees :
        (seed : String) (n index : ℕ) (pity : PityState) (rng : Gen)
        → pull_rounds R c seed n index pity rng ≡ pull_rounds R d seed n index pity rng
    unfolding pull_rounds
    pull_rounds_agrees seed zero index pity rng = refl
    pull_rounds_agrees seed (suc n) index pity rng =
        bind_ext (pull_once_agrees seed index pity rng)
          λ (r, next, rng'). rw (pull_rounds_agrees seed n (index + 1) next rng') refl

    -- Two configurations with equal banners and items, and with equal entries under every key of
    -- their dicts, give equal batches.
    pub perform_pulls_agrees :
        (count : ℕ) (pity : PityState) (seed : String)
        → perform_pulls R c count pity seed ≡ perform_pulls R d count pity seed
    unfolding perform_pulls
    perform_pulls_agrees count pity seed = pull_rounds_agrees seed count 0 pity (R.seeded seed)
