-- ===== src/Engine/Trace.antt =====
-- What one pull may do, as a relation that says nothing of draws, items or seeds; `perform_pulls`
-- refines its chains.
use gacha_engine_service.Prelude.{
  ℕ, zero, suc, ◌+◌, ◌≤◌, ◌≡◌, ◌≢◌, refl, ap, ◌⊎◌, inl, inr, String, true, false, some, List, [],
  ◌∷◌, arith, contains, Bool-cases, Option-cases, length, is_empty, All, get_elem?, All-get_elem?,
  All-of_contains,
}
use gacha_engine_service.Prelude.Dict.{nat_eq, string_eq, lookup}
use gacha_engine_service.Prelude.Result.{ok, Ensures, Ensures-of_ok, Ensures-ok, Ensures-bind}
use gacha_engine_service.Runtime.{Runtime}
use gacha_engine_service.Schemas.{GachaItem, PityState, PullRecord}
use gacha_engine_service.CatalogConfig.{BannerConfig, PityRule, FeaturedRule}
use gacha_engine_service.Engine.Rolls.{
  get_item, is_featured_item, featured_ids, roll_rarity, roll_item, featured_items, pick_random,
  featured_draw, roll_by_rule, has_featured_guarantee,
}
use gacha_engine_service.Engine.Pulls.{
  advance_pity, pull_record, pull_once, pull_rounds, perform_pulls,
}

-- One of the three rarities, and never below what the hard pity of the banner forces.
pub record IsRolled (config : BannerConfig) (pity : PityState) (rarity : ℕ) : Type 0 where
  pub known : (rarity ≡ 5) ⊎ (rarity ≡ 4) ⊎ (rarity ≡ 3)
  pub five_hard :
      (rule : PityRule)
      → lookup 5 config.pity_rules ≡ some rule
      → rule.hard_pity ≤ pity.since_five + 1
      → rarity ≡ 5
  pub four_hard :
      (rule : PityRule)
      → lookup 4 config.pity_rules ≡ some rule
      → rule.hard_pity ≤ pity.since_four + 1
      → rarity ≢ 3

-- A limited five-star: a miss sets the guarantee, the guarantee is read from the pity state's flag,
-- and the featured ids name five-star items of the banner.
pub record FeaturesFive (config : BannerConfig) : Type 0 where
  pub rule : FeaturedRule
  pub found : lookup 5 config.featured_rules ≡ some rule
  pub misses_set : rule.miss_sets_guarantee ≡ true
  pub key : rule.guarantee_state_key ≡ some "guaranteed_featured_five"
  pub listed : is_empty (featured_ids config 5) ≡ false
  pub items :
      (item_id : String) (item : GachaItem)
      → contains (featured_ids config 5) item_id ≡ true
      → lookup item_id config.item_by_id ≡ some item
      → (item.id ≡ item_id) × (item.rarity ≡ 5)

-- A record between two pity states.
pub record PullStep (config : BannerConfig) (pity : PityState) (r : PullRecord) (next : PityState)
    : Type 0 where
  pub rolled : IsRolled config pity r.rarity
  pub at_five : r.pity_at_five ≡ pity.since_five + 1
  pub at_four : r.pity_at_four ≡ pity.since_four + 1
  pub guaranteed :
      FeaturesFive config
      → r.rarity ≡ 5
      → pity.guaranteed_featured_five ≡ true
      → r.is_featured ≡ true
  pub advanced : advance_pity config r.rarity r.is_featured pity ≡ ok next

pub data Trace (config : BannerConfig) : ℕ → PityState → List PullRecord → PityState → Type 0 where
  done : {index : ℕ} {pity : PityState} → Trace config index pity [] pity
  pulled :
      {index : ℕ} {pity next last : PityState} {r : PullRecord} {records : List PullRecord}
      → r.index ≡ index
      → PullStep config pity r next
      → Trace config (index + 1) next records last
      → Trace config index pity (r ∷ records) last

module _ (R : Runtime) (config : BannerConfig) where
  open R use {Gen}

  pub roll_rarity-IsRolled :
      (pity : PityState) (rng : Gen) {rarity : ℕ} {rng' : Gen}
      → roll_rarity R config pity rng ≡ ok (rarity, rng')
      → IsRolled config pity rarity
  unfolding roll_rarity
  roll_rarity-IsRolled pity rng h = record {
    known = ground arith;
    five_hard = λ rule found due. ground arith;
    four_hard = λ rule found due. ground arith;
  }

  abbrev Featured : GachaItem → Type 0
  Featured item = is_featured_item config item ≡ true

  Featured-of_listed :
      (item : GachaItem)
      → item.rarity ≡ 5
      → contains (featured_ids config 5) item.id ≡ true
      → Featured item
  unfolding is_featured_item
  Featured-of_listed item five listed = rw five listed

  -- Every item of a list of featured ids is featured.
  featured_items-Featured :
      (f : FeaturesFive config) (ids : List String)
      → All (λ item_id. contains (featured_ids config 5) item_id ≡ true) ids
      → Ensures (All Featured) (featured_items R config ids)
  unfolding featured_items
  featured_items-Featured f [] h = tt
  featured_items-Featured f (item_id ∷ ids) h =
      Ensures-bind Featured (All Featured) (get_item config.item_by_id item_id) _
        (Ensures-of_ok Featured (get_item config.item_by_id item_id) λ item got.
          let (same, five) = f.items item_id item h.0 (ground arith) in
          Featured-of_listed item five (rw same h.0))
        λ item this.
          Ensures-bind (All Featured) (All Featured) (featured_items R config ids) _
            (featured_items-Featured f ids h.1) λ rest those. (this, those)

  pick_random-All :
      (P : GachaItem → Type 0) (items : List GachaItem) (rng : Gen)
      → All P items
      → Ensures (λ (item, _). P item) (pick_random R items rng)
  unfolding pick_random
  pick_random-All P items rng h = elim (Bool-cases (is_empty items)) [
    | inl e ↦ rw e tt
    | inr e ↦ rw e (elim (Option-cases (get_elem? items (R.randrange (length items) rng).0)) [
      | inl n ↦ rw n tt
      | inr (a, s) ↦ rw s (All-get_elem? P items _ h s)
    ])
  ]

  guarantee_read :
      (f : FeaturesFive config) (pity : PityState)
      → pity.guaranteed_featured_five ≡ true
      → has_featured_guarantee pity f.rule ≡ true
  unfolding has_featured_guarantee
  guarantee_read f pity h = rw (f.key, h)

  roll_item_guaranteed :
      (f : FeaturesFive config) (pity : PityState) (rng : Gen)
      → pity.guaranteed_featured_five ≡ true
      → roll_item R config 5 pity rng
        ≡ roll_by_rule R config 5 (featured_ids config 5) f.rule (true, rng)
  unfolding roll_item featured_draw
  roll_item_guaranteed f pity rng h = ground (arith, guarantee_read f pity h, f.found, f.listed)

  roll_item-Featured :
      (f : FeaturesFive config) (pity : PityState) (rng : Gen)
      → pity.guaranteed_featured_five ≡ true
      → Ensures (λ (item, _). Featured item) (roll_item R config 5 pity rng)
  unfolding roll_by_rule
  roll_item-Featured f pity rng h = rw (roll_item_guaranteed f pity rng h) (
      Ensures-bind (All Featured) (λ (item, _). Featured item)
        (featured_items R config (featured_ids config 5)) _
        (featured_items-Featured f _ (All-of_contains (featured_ids config 5) λ _ e. e))
        λ items all. pick_random-All Featured items rng all)

  abbrev Steps : ℕ → PityState → PullRecord × PityState × Gen → Type 0
  Steps index pity (r, next, _) = (r.index ≡ index) × PullStep config pity r next

  picks :
      (pity : PityState) (rarity : ℕ) (rng : Gen)
      → Ensures
          (λ (item, _).
            FeaturesFive config → rarity ≡ 5 → pity.guaranteed_featured_five ≡ true → Featured item)
          (roll_item R config rarity pity rng)
  picks pity rarity rng =
      Ensures-of_ok _ (roll_item R config rarity pity rng) λ (item, rng') got f five flag.
        Ensures-ok (λ (item, _). Featured item) (rw five (roll_item-Featured f pity rng flag)) got

  pull_once-PullStep :
      (seed : String) (index : ℕ) (pity : PityState) (rng : Gen)
      → Ensures (Steps index pity) (pull_once R config seed index pity rng)
  unfolding pull_once pull_record
  pull_once-PullStep seed index pity rng =
      Ensures-bind (λ (rarity, _). IsRolled config pity rarity) (Steps index pity)
        (roll_rarity R config pity rng) _
        (Ensures-of_ok _ (roll_rarity R config pity rng)
          λ (rarity, rng') rolled. roll_rarity-IsRolled pity rng rolled)
        λ (rarity, rng') fits.
          Ensures-bind _ (Steps index pity) (roll_item R config rarity pity rng') _
            (picks pity rarity rng')
            λ (item, rng'') picked.
              Ensures-bind
                (λ next. advance_pity config rarity (is_featured_item config item) pity ≡ ok next)
                (Steps index pity) (advance_pity config rarity (is_featured_item config item) pity)
                _
                (Ensures-of_ok _ (advance_pity config rarity (is_featured_item config item) pity)
                  λ next e. e)
                λ next moved. (
                  refl,
                  record {
                    rolled = fits;
                    at_five = refl;
                    at_four = refl;
                    guaranteed = picked;
                    advanced = moved;
                  },
                )

  abbrev Traces : ℕ → ℕ → PityState → List PullRecord × PityState → Type 0
  Traces n index pity (records, last) = (length records ≡ n) × Trace config index pity records last

  pull_rounds-Trace :
      (seed : String) (n index : ℕ) (pity : PityState) (rng : Gen)
      → Ensures (Traces n index pity) (pull_rounds R config seed n index pity rng)
  unfolding pull_rounds
  pull_rounds-Trace seed zero index pity rng = (refl, done)
  pull_rounds-Trace seed (suc n) index pity rng =
      Ensures-bind (Steps index pity) (Traces (suc n) index pity)
        (pull_once R config seed index pity rng) _ (pull_once-PullStep seed index pity rng)
        λ (r, next, rng') step.
          Ensures-bind (Traces n (index + 1) next) (Traces (suc n) index pity)
            (pull_rounds R config seed n (index + 1) next rng') _
            (pull_rounds-Trace seed n (index + 1) next rng')
            λ (records, last) rest. (ap suc rest.0, pulled step.0 step.1 rest.1)

  -- A batch that returns has `count` records and is a chain of such steps, numbered from 0.
  pub perform_pulls-Trace :
      (count : ℕ) (pity : PityState) (seed : String) {records : List PullRecord} {last : PityState}
      → perform_pulls R config count pity seed ≡ ok (records, last)
      → (length records ≡ count) × Trace config 0 pity records last
  unfolding perform_pulls
  perform_pulls-Trace count pity seed h =
      Ensures-ok (Traces count 0 pity) (pull_rounds-Trace seed count 0 pity (R.seeded seed)) h
