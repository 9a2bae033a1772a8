-- ===== src/Repository/Freshness.antt =====
-- `CachedCatalogProvider` under interleaved calls: how old a cached snapshot can be.
use gacha_engine_service.Prelude.{
  ℕ, ◌+◌, ◌*◌, ◌≤◌, ◌<◌, ◌≡◌, refl, none, some, List, [], ◌∷◌, ◌++◌, arith, All,
}
use mathlib.Core.Option.{some_inj}
use gacha_engine_service.CatalogConfig.{CatalogSnapshot}
use gacha_engine_service.Repository.Cache.{
  CachedCatalogProvider, empty_provider, cached_snapshot, store_snapshot,
}

-- The provider, the clock, and the readings of the calls that wait for the repository.
pub record Server : Type 0 where
  pub provider : CachedCatalogProvider
  pub clock : ℕ
  pub waiting : List ℕ

-- `Gives t s`: the repository, asked at `t`, gave `s`.
module _ (Gives : ℕ → CatalogSnapshot → Type 0) where
  pub data Step : Server → Server → Type 0 where
    -- Time passes.
    tick : {s : Server} (later : ℕ) → s.clock ≤ later → Step s (record s { clock = later })
    -- A call that finds no valid snapshot reads the clock and asks the repository.
    asked :
        {s : Server}
        → cached_snapshot s.provider s.clock ≡ none
        → Step s (record s { waiting = s.clock ∷ s.waiting })
    -- The repository answers a waiting call, which stores the answer under its own reading.
    answered :
        {s : Server} (before after : List ℕ) (t : ℕ) (snapshot : CatalogSnapshot)
        → s.waiting ≡ before ++ t ∷ after
        → Gives t snapshot
        → Step s (record s {
          provider = store_snapshot s.provider t snapshot;
          waiting = before ++ after;
        })
    -- The load fails, and the call raises.
    failed :
        {s : Server} (before after : List ℕ) (t : ℕ)
        → s.waiting ≡ before ++ t ∷ after
        → Step s (record s { waiting = before ++ after })

  pub data Run : Server → Server → Type 0 where
    start : {s : Server} → Run s s
    step : {s t u : Server} → Run s t → Step t u → Run s u

  -- What holds of the provider at every moment.
  record IsFresh (ttl : ℕ) (s : Server) : Type 0 where
    ttl_is : s.provider.ttl_seconds ≡ ttl
    past : All (λ t. t ≤ s.clock) s.waiting
    origin :
        (snapshot : CatalogSnapshot)
        → s.provider.snapshot ≡ some snapshot
        → (t : ℕ) × Gives t snapshot × (t ≤ s.clock) × (s.provider.expires_at ≡ t + ttl * 1_000_000)

  past_split :
      (now : ℕ) (before after : List ℕ) {t : ℕ}
      → All (λ x. x ≤ now) (before ++ t ∷ after)
      → (t ≤ now) × All (λ x. x ≤ now) (before ++ after)
  past_split now [] after h = h
  past_split now (b ∷ before) after h =
      let (this, those) = past_split now before after h.1 in (this, (h.0, those))

  All-later :
      (ts : List ℕ) {now later : ℕ} → now ≤ later → All (λ t. t ≤ now) ts → All (λ t. t ≤ later) ts
  All-later [] le h = tt
  All-later (t ∷ ts) le h = (omega (arith, h.0), All-later ts le h.1)

  Step-IsFresh : {ttl : ℕ} {s s' : Server} → Step s s' → IsFresh ttl s → IsFresh ttl s'
  unfolding store_snapshot
  Step-IsFresh {s} (tick later le) h = record {
    ttl_is = h.ttl_is;
    past = All-later s.waiting le h.past;
    origin = λ snapshot e.
        let (t, gave, past, expires) = h.origin snapshot e in (t, gave, omega arith, expires);
  }
  Step-IsFresh (asked e) h = record {
    ttl_is = h.ttl_is;
    past = (omega arith, h.past);
    origin = h.origin;
  }
  Step-IsFresh {s} (answered before after t snapshot e gave) h =
      let (asked_before, past) = past_split s.clock before after {t = t} (rw (← e) h.past) in
      record {
        ttl_is = h.ttl_is;
        past = past;
        origin = λ found same. (t, rw (← some_inj.0 same) gave, asked_before, rw h.ttl_is refl);
      }
  Step-IsFresh {s} (failed before after t e) h =
      let (_, past) = past_split s.clock before after {t = t} (rw (← e) h.past) in
      record { ttl_is = h.ttl_is; past = past; origin = h.origin }

  Run-IsFresh : {ttl : ℕ} {s s' : Server} → Run s s' → IsFresh ttl s → IsFresh ttl s'
  Run-IsFresh start h = h
  Run-IsFresh (step run this) h = Step-IsFresh this (Run-IsFresh run h)

  abbrev pub started : ℕ → ℕ → Server
  started ttl clock = record { provider = empty_provider ttl; clock = clock; waiting = [] }

  started-IsFresh : (ttl clock : ℕ) → IsFresh ttl (started ttl clock)
  unfolding empty_provider
  started-IsFresh ttl clock = record {
    ttl_is = refl;
    past = tt;
    origin = λ snapshot e. absurd (ground arith);
  }

  -- However the calls of an initially empty provider interleave, and whichever loads fail: a snapshot
  -- that `get_snapshot` returns from the cache was given by the repository to a call that asked less
  -- than `ttl_seconds` ago.
  pub cached_snapshot-fresh :
      (ttl clock : ℕ) {s : Server} {snapshot : CatalogSnapshot}
      → Run (started ttl clock) s
      → cached_snapshot s.provider s.clock ≡ some snapshot
      → (t : ℕ) × Gives t snapshot × (t ≤ s.clock) × (s.clock < t + ttl * 1_000_000)
  unfolding cached_snapshot
  cached_snapshot-fresh ttl clock {s} {snapshot} run found =
      let h = Run-IsFresh run (started-IsFresh ttl clock) in
      let (t, gave, asked_before, expires) = h.origin snapshot (ground arith) in
      (t, gave, asked_before, ground (arith, expires))
