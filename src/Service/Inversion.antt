-- ===== src/Service/Inversion.antt =====
-- What is known of the parts of an action that returned: the chains, the `except` clauses, the store
-- calls.
use gacha_engine_service.Prelude.{ℕ, zero, suc, ◌+◌, ◌≡◌, refl, ap, arith, sym, inl, inr, ◌⊎◌}
use gacha_engine_service.Prelude.Result.{Outcome, ok, raise, Result}
use gacha_engine_service.Schemas.{PitySnapshot}
use gacha_engine_service.Store.Methods.{Call, version_conflict}
use gacha_engine_service.Service.Errors.{Failure, store}
use gacha_engine_service.Service.World.{
  Env, World, Action, return, fail, attempt, from_result, ◌>>=◌, store_call,
}
use gacha_engine_service.Service.Commit.{after_commit}

module _ {A B : Type 0} where
  bound_returns :
      (so_far : Outcome Failure A × World) (f : A → Action B) {b : B} {w' : World}
      → Path
          (Outcome Failure B × World)
          (elim so_far.0 as (λ _. Outcome Failure B × World) [
            | ok a ↦ f a so_far.1
            | raise e ↦ (raise e, so_far.1)
          ])
          (ok b, w')
      → (a : A) × (w1 : World) × (so_far ≡ (ok a, w1)) × (f a w1 ≡ (ok b, w'))
  bound_returns (ok a, w1) f h = (a, w1, refl, h)
  bound_returns (raise e, w1) f h = absurd (ground arith)

  pub bind_returns :
      (act : Action A) (f : A → Action B) (w : World) {b : B} {w' : World}
      → (act >>= f) w ≡ (ok b, w')
      → (a : A) × (w1 : World) × (act w ≡ (ok a, w1)) × (f a w1 ≡ (ok b, w'))
  unfolding ◌>>=◌
  bind_returns act f w h = bound_returns (act w) f h

module _ {A : Type 0} where
  attempted :
      (so_far : Outcome Failure A × World) {r : Outcome Failure A} {w' : World}
      → Path (Outcome Failure (Outcome Failure A) × World) (ok so_far.0, so_far.1) (ok r, w')
      → so_far ≡ (r, w')
  attempted (r, w) h = ground arith

  pub attempt_returns :
      (act : Action A) (w : World) {r : Outcome Failure A} {w' : World}
      → attempt act w ≡ (ok r, w')
      → act w ≡ (r, w')
  unfolding attempt
  attempt_returns act w h = attempted (act w) h

  pub from_result_returns :
      (r : Result A) (w : World) {a : A} {w' : World}
      → from_result r w ≡ (ok a, w')
      → (r ≡ ok a) × (w' ≡ w)
  unfolding from_result return fail
  from_result_returns (ok a) w h = ground arith
  from_result_returns (raise e) w h = absurd (ground arith)

  -- What is returned after a commit: its result where it succeeded, else the next attempt's.
  pub after_commit_returns :
      (env : Env) (left : ℕ) (again : Action A) (result : A) (r : Outcome Failure PitySnapshot)
      (w : World) {a : A} {w' : World}
      → after_commit env left again result r w ≡ (ok a, w')
      → ((s : PitySnapshot) × (r ≡ ok s) × (a ≡ result) × (w' ≡ w))
        ⊎ ((n : ℕ) × (left ≡ suc n) × (again w ≡ (ok a, w')))
  unfolding return fail
  after_commit_returns env left again result (ok s) w h = inl (s, refl, ground arith, ground arith)
  after_commit_returns env zero again result (raise (store (version_conflict v))) w h =
      absurd (ground arith)
  after_commit_returns env (suc n) again result (raise (store (version_conflict v))) w h =
      inr (n, refl, h)
  after_commit_returns env zero again result (raise f) w h = absurd (ground arith)
  after_commit_returns env (suc n) again result (raise f) w h = absurd (ground arith)

  -- A store call counts as one, and asks nothing of the services.
  pub store_call_goes :
      (env : Env) (call : ℕ → Call A) (w : World) {r : Outcome Failure A} {w' : World}
      → store_call env call w ≡ (r, w')
      → (w'.calls ≡ w.calls + 1) × (w'.effects ≡ w.effects)
  unfolding store_call
  store_call_goes env call w h = (ap (λ p. p.1.calls) (sym h), ap (λ p. p.1.effects) (sym h))
