-- ===== src/Engine/Pity.antt =====
-- What a batch of `perform_pulls` promises: counters, hard pity and the featured guarantee, read
-- off its records alone.
use gacha_engine_service.Prelude.{
  ℕ, suc, ◌+◌, ◌≤◌, ◌<◌, ◌≡◌, ◌≢◌, refl, String, Bool, true, not, some, List, [], ◌∷◌, arith, ◌==◌,
  if◌then◌else◌, length, All, get_elem?, zero,
}
use gacha_engine_service.Prelude.Dict.{nat_eq, lookup}
use gacha_engine_service.Prelude.Result.{ok}
use gacha_engine_service.Runtime.{Runtime}
use gacha_engine_service.Schemas.{PityState, PullRecord}
use gacha_engine_service.CatalogConfig.{BannerConfig, PityRule}
use gacha_engine_service.Engine.Pulls.{advance_pity, perform_pulls}
use gacha_engine_service.Engine.Trace.{
  PullStep, Trace, done, pulled, FeaturesFive, perform_pulls-Trace,
}

-- The pulls since the last record of rarity `k`, where `start` pulls went before.
abbrev pub pulls_since : ℕ → ℕ → List PullRecord → ℕ
pulls_since k start [] = start
pulls_since k start (r ∷ records) = pulls_since k (if r.rarity == k then 0 else start + 1) records

-- Each five-star that follows a five-star miss is featured; `owed` says that one went before.
abbrev pub Honoured : Bool → List PullRecord → Type 0
Honoured owed [] = Unit
Honoured owed (r ∷ records) =
    (r.rarity ≡ 5 → owed ≡ true → r.is_featured ≡ true)
    × Honoured (if r.rarity == 5 then not r.is_featured else owed) records

-- Whether the last five-star, or `owed` where there is none, leaves a guarantee.
abbrev pub owed_after : Bool → List PullRecord → Bool
owed_after owed [] = owed
owed_after owed (r ∷ records) =
    owed_after (if r.rarity == 5 then not r.is_featured else owed) records

module _ {config : BannerConfig} where
  index_lem :
      {index : ℕ} {pity last : PityState} {records : List PullRecord}
      → Trace config index pity records last
      → (i : ℕ) (r : PullRecord) → get_elem? records i ≡ some r
      → r.index ≡ index + i
  index_lem done i r h = ground arith
  index_lem (pulled e step rest) zero r h = ground arith
  index_lem (pulled e step rest) (suc i) r h = omega (arith, index_lem rest i r h)

  since_five_step :
      {pity next : PityState} {r : PullRecord}
      → PullStep config pity r next
      → next.since_five ≡ (if r.rarity == 5 then 0 else pity.since_five + 1)
  unfolding advance_pity
  since_five_step step = let e = step.advanced in ground arith

  since_five_lem :
      {index : ℕ} {pity last : PityState} {records : List PullRecord}
      → Trace config index pity records last
      → last.since_five ≡ pulls_since 5 pity.since_five records
  since_five_lem done = refl
  since_five_lem (pulled e step rest) = rw (← since_five_step step) (since_five_lem rest)

  module _ {rule : PityRule} (found : lookup 5 config.pity_rules ≡ some rule)
      (pos : 0 < rule.hard_pity) where
    five_bound_step :
        {pity next : PityState} {r : PullRecord}
        → PullStep config pity r next
        → pity.since_five < rule.hard_pity
        → (next.since_five < rule.hard_pity)
          × (r.pity_at_five ≤ rule.hard_pity)
          × (r.pity_at_five ≡ rule.hard_pity → r.rarity ≡ 5)
    five_bound_step step h =
        let moved = since_five_step step in
        let due = step.rolled.five_hard rule found in
        let at = step.at_five in (ground arith, ground arith, λ e. due (omega arith))

    five_bound :
        {index : ℕ} {pity last : PityState} {records : List PullRecord}
        → Trace config index pity records last
        → pity.since_five < rule.hard_pity
        → (last.since_five < rule.hard_pity)
          × All
              (λ r.
                (r.pity_at_five ≤ rule.hard_pity)
                × (r.pity_at_five ≡ rule.hard_pity → r.rarity ≡ 5))
              records
    five_bound done h = (h, tt)
    five_bound (pulled e step rest) h =
        let (below, at, due) = five_bound_step step h in
        let (end, all) = five_bound rest below in (end, ((at, due), all))

    five_window :
        {index : ℕ} {pity last : PityState} {records : List PullRecord}
        → Trace config index pity records last
        → pity.since_five < rule.hard_pity
        → All (λ r. r.rarity ≢ 5) records
        → pity.since_five + length records < rule.hard_pity
    five_window done h missed = omega arith
    five_window (pulled e step rest) h missed =
        let moved = since_five_step step in
        let (below, _, _) = five_bound_step step h in
        let miss = missed.0 in let ih = five_window rest below missed.1 in ground arith

  since_four_step :
      {pity next : PityState} {r : PullRecord}
      → PullStep config pity r next
      → r.rarity ≡ 3
      → next.since_four ≡ pity.since_four + 1
  unfolding advance_pity
  since_four_step step three = let e = step.advanced in ground arith

  four_window :
      {rule : PityRule} (found : lookup 4 config.pity_rules ≡ some rule) {index : ℕ}
      {pity last : PityState} {records : List PullRecord}
      → Trace config index pity records last
      → pity.since_four < rule.hard_pity
      → All (λ r. r.rarity ≡ 3) records
      → pity.since_four + length records < rule.hard_pity
  four_window found done h missed = omega arith
  four_window {rule = rule} found (pulled e step rest) h missed =
      let moved = since_four_step step missed.0 in
      let due = step.rolled.four_hard rule found in
      let three = missed.0 in omega (arith, four_window found rest (ground arith) missed.1)

  flag_step :
      {pity next : PityState} {r : PullRecord}
      → FeaturesFive config
      → PullStep config pity r next
      → next.guaranteed_featured_five
        ≡ (if r.rarity == 5 then not r.is_featured else pity.guaranteed_featured_five)
  unfolding advance_pity
  flag_step f step =
      let e = step.advanced in let g = f.found in let m = f.misses_set in ground arith

  Honoured_lem :
      {index : ℕ} {pity last : PityState} {records : List PullRecord}
      → FeaturesFive config
      → Trace config index pity records last
      → Honoured pity.guaranteed_featured_five records
        × (last.guaranteed_featured_five ≡ owed_after pity.guaranteed_featured_five records)
  Honoured_lem f done = (tt, refl)
  Honoured_lem f (pulled e step rest) =
      let (all, end) = Honoured_lem f rest in
      ((step.guaranteed f, rw (← flag_step f step) all), rw (← flag_step f step) end)

module _ (R : Runtime) (config : BannerConfig) (count : ℕ) (pity : PityState) (seed : String) where
  -- A batch that returns has exactly `count` records, the record at position i has index i, and the
  -- five-star counter that it leaves is the number of pulls since its last five-star record (counted
  -- on from the given state where it has none).
  pub perform_pulls_numbered :
      {records : List PullRecord} {last : PityState}
      → perform_pulls R config count pity seed ≡ ok (records, last)
      → (length records ≡ count)
        × ((i : ℕ) (r : PullRecord) → get_elem? records i ≡ some r → r.index ≡ i)
        × (last.since_five ≡ pulls_since 5 pity.since_five records)
  perform_pulls_numbered h =
      let (size, trace) = perform_pulls-Trace R config count pity seed h in
      (size, λ i r e. omega (arith, index_lem trace i r e), since_five_lem trace)

  -- Under a five-star rule with a positive hard pity, from a counter below it: the counter stays
  -- below it, no record is taken beyond it, and a record at it is a five-star.
  pub hard_pity_bound :
      {rule : PityRule} {records : List PullRecord} {last : PityState}
      → lookup 5 config.pity_rules ≡ some rule
      → 0 < rule.hard_pity
      → pity.since_five < rule.hard_pity
      → perform_pulls R config count pity seed ≡ ok (records, last)
      → (last.since_five < rule.hard_pity)
        × All
            (λ r.
              (r.pity_at_five ≤ rule.hard_pity) × (r.pity_at_five ≡ rule.hard_pity → r.rarity ≡ 5))
            records
  hard_pity_bound found pos below h =
      five_bound found pos (perform_pulls-Trace R config count pity seed h).1 below

  -- Under a five-star rule with a positive hard pity, from a counter below it: a batch without a
  -- five-star is too short to reach the hard pity, together with the pulls since the last five-star.
  pub five_star_window :
      {rule : PityRule} {records : List PullRecord} {last : PityState}
      → lookup 5 config.pity_rules ≡ some rule
      → 0 < rule.hard_pity
      → pity.since_five < rule.hard_pity
      → perform_pulls R config count pity seed ≡ ok (records, last)
      → All (λ r. r.rarity ≢ 5) records
      → pity.since_five + count < rule.hard_pity
  five_star_window found pos below h missed =
      let (size, trace) = perform_pulls-Trace R config count pity seed h in
      rw size at (five_window found pos trace below missed)

  -- From a four-star counter below the four-star hard pity: a batch of three-stars alone is too
  -- short to reach it, together with the pulls counted before.
  pub four_star_window :
      {rule : PityRule} {records : List PullRecord} {last : PityState}
      → lookup 4 config.pity_rules ≡ some rule
      → pity.since_four < rule.hard_pity
      → perform_pulls R config count pity seed ≡ ok (records, last)
      → All (λ r. r.rarity ≡ 3) records
      → pity.since_four + count < rule.hard_pity
  four_star_window found below h missed =
      let (size, trace) = perform_pulls-Trace R config count pity seed h in
      rw size at (four_window found trace below missed)

  -- On a limited banner, a five-star that follows a five-star miss, in the batch or in the state
  -- before it, is featured; and the flag that the batch leaves says whether its last five-star (or,
  -- with none, the given state) owes a featured one.
  pub featured_guarantee :
      {records : List PullRecord} {last : PityState}
      → FeaturesFive config
      → perform_pulls R config count pity seed ≡ ok (records, last)
      → Honoured pity.guaranteed_featured_five records
        × (last.guaranteed_featured_five ≡ owed_after pity.guaranteed_featured_five records)
  featured_guarantee f h = Honoured_lem f (perform_pulls-Trace R config count pity seed h).1
