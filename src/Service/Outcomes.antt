-- ===== src/Service/Outcomes.antt =====
-- What the workflow returns and what it asks of the services on the way.
use gacha_engine_service.Prelude.{
  ℕ, zero, suc, ◌+◌, ◌≤◌, ◌<◌, ◌≡◌, refl, ap, Bool, true, false, List, ◌∷◌, arith, ◌∙◌, inl, inr,
  ◌⊎◌, Bool-cases, if◌then◌else◌,
}
use mathlib.Core.Path.{subst}
use gacha_engine_service.Prelude.Result.{Outcome, ok, raise}
use gacha_engine_service.Schemas.{PullCompletedEvent}
use gacha_engine_service.Service.Errors.{Failure, publish_error}
use gacha_engine_service.Service.World.{
  Env, World, Action, Effect, publish, return, fail, attempt, ◌>>=◌, publish_pull_completed,
}
use gacha_engine_service.Service.Commit.{publish_attempts, publish_pull_completed_with_retry}

-- `n` publications of an event before the effects so far.
abbrev pub published : ℕ → PullCompletedEvent → List Effect → List Effect
published zero event effects = effects
published (suc n) event effects = publish event ∷ published n event effects

published_later :
    (n : ℕ) (event : PullCompletedEvent) (effects : List Effect)
    → published n event (publish event ∷ effects) ≡ published (suc n) event effects
published_later zero event effects = refl
published_later (suc n) event effects = rw (published_later n event effects) refl

-- What a publication with at most `most` attempts did: it asked until Kafka took the event, and gave
-- up only after the last attempt.
pub record Publication (env : Env) (most : ℕ) (event : PullCompletedEvent) (w w' : World)
    (r : Outcome Failure (Unit {0})) : Type 0 where
  pub asked : ℕ
  pub bound : asked ≤ most
  pub effects : w'.effects ≡ published asked event w.effects
  pub db : w'.db ≡ w.db
  pub outcome :
      ((r ≡ ok tt)
        × (n : ℕ) × (asked ≡ suc n)
        × (env.takes_event (w.calls + n) ≡ true)
        × ((i : ℕ) → i < n → env.takes_event (w.calls + i) ≡ false))
      ⊎ ((r ≡ raise publish_error)
          × (asked ≡ most)
          × ((i : ℕ) → i < most → env.takes_event (w.calls + i) ≡ false))

module _ (env : Env) where
  -- The world after an event was offered to Kafka.
  abbrev offered : PullCompletedEvent → World → World
  offered event w = record w { calls = w.calls + 1; effects = publish event ∷ w.effects }

  abbrev offer_outcome : Bool → Outcome Failure (Unit {0})
  offer_outcome b = if b then ok tt else raise publish_error

  abbrev after_offer : ℕ → PullCompletedEvent → World → Bool → Outcome Failure (Unit {0}) × World
  after_offer n event w b =
      (elim (offer_outcome b) as (λ _. Action (Unit {0})) [
        | ok _ ↦ return tt
        | raise _ ↦ publish_attempts env n event
      ])
        w

  taken_lem :
      (n : ℕ) (event : PullCompletedEvent) (w : World)
      → env.takes_event w.calls ≡ true
      → publish_attempts env (suc n) event w ≡ (ok tt, offered event w)
  unfolding publish_attempts publish_pull_completed attempt return ◌>>=◌
  taken_lem n event w e = ap (λ b. after_offer n event (offered event w) b) e

  refused_lem :
      (n : ℕ) (event : PullCompletedEvent) (w : World)
      → env.takes_event w.calls ≡ false
      → publish_attempts env (suc n) event w ≡ publish_attempts env n event (offered event w)
  unfolding publish_attempts publish_pull_completed attempt ◌>>=◌
  refused_lem n event w e = ap (λ b. after_offer n event (offered event w) b) e

  at : (a b : ℕ) {c : Bool} → a ≡ b → env.takes_event a ≡ c → env.takes_event b ≡ c
  at a b {c} p e = subst (λ k. env.takes_event k ≡ c) p e

  before_later :
      (n : ℕ) (w : World)
      → env.takes_event w.calls ≡ false
      → ((i : ℕ) → i < n → env.takes_event (w.calls + 1 + i) ≡ false)
      → (i : ℕ) → i < suc n
      → env.takes_event (w.calls + i) ≡ false
  before_later n w e before zero h = at w.calls (w.calls + 0) (omega arith) e
  before_later n w e before (suc i) h =
      at (w.calls + 1 + i) (w.calls + suc i) (omega arith) (before i (omega arith))

  one_more :
      (n : ℕ) (event : PullCompletedEvent) (w : World) {r : Outcome Failure (Unit {0})} {w' : World}
      → env.takes_event w.calls ≡ false
      → Publication env n event (offered event w) w' r
      → Publication env (suc n) event w w' r
  one_more n event w e p = record {
    asked = suc p.asked;
    bound = let b = p.bound in omega arith;
    effects = p.effects ∙ published_later p.asked event w.effects;
    db = p.db;
    outcome = elim p.outcome [
      | inl (o, m, asked, taken, before) ↦ inl (
        o,
        suc m,
        ap suc asked,
        at (w.calls + 1 + m) (w.calls + suc m) (omega arith) taken,
        before_later m w e before,
      )
      | inr (o, asked, before) ↦ inr (o, ap suc asked, before_later n w e before)
    ];
  }

  publish_attempts-Publication :
      (n : ℕ) (event : PullCompletedEvent) (w : World)
      → Publication env n event w
          (publish_attempts env n event w).1
          (publish_attempts env n event w).0
  publish_attempts-Publication zero event w =
      unfold publish_attempts fail in
      record {
        asked = 0;
        bound = omega arith;
        effects = refl;
        db = refl;
        outcome = inr (refl, refl, λ i h. absurd (omega arith));
      }
  publish_attempts-Publication (suc n) event w = elim (Bool-cases (env.takes_event w.calls)) [
    | inl e ↦ rw (taken_lem n event w e) (record {
      asked = 1;
      bound = omega arith;
      effects = refl;
      db = refl;
      outcome =
          inl
            (refl, 0, refl, at w.calls (w.calls + 0) (omega arith) e, λ i h. absurd (omega arith));
    })
    | inr e ↦
        rw (refused_lem n event w e)
          (one_more n event w e (publish_attempts-Publication n event (offered event w)))
  ]

  -- `publish_pull_completed_with_retry` offers the event to Kafka at most three times, one offer after
  -- the other; it returns at the first offer that Kafka takes, and raises `EventPublishError` only
  -- where Kafka took none of the three. The tables stay as they are.
  pub publish_with_retry_lem :
      (event : PullCompletedEvent) (w : World)
      → Publication env 3 event w
          (publish_pull_completed_with_retry env event w).1
          (publish_pull_completed_with_retry env event w).0
  unfolding publish_pull_completed_with_retry
  publish_with_retry_lem event w = publish_attempts-Publication 3 event w
