-- ===== src/Service/Quiet.antt =====
-- That the commit of a pull, whatever it meets, asks nothing of the asset service and of Kafka.
use gacha_engine_service.Prelude.{ℕ, zero, suc, ◌+◌, ◌≡◌, refl, ◌∙◌, String, List}
use gacha_engine_service.Prelude.Result.{Outcome, ok, raise, Result}
use gacha_engine_service.Schemas.{
  PitySnapshot, without_version, PityState, PullRecord, PullResponse, PullCompletedEvent,
}
use gacha_engine_service.Engine.Pulls.{perform_pulls}
use gacha_engine_service.Operations.{event_pending}
use gacha_engine_service.Operations.Context.{PullRecoveryContext, to_banner_config}
use gacha_engine_service.Store.Methods.{
  Call, get_snapshot, compare_and_set_with_pull_operation, version_conflict,
}
use gacha_engine_service.Service.Errors.{Failure, store}
use gacha_engine_service.Service.World.{
  Env, World, Action, return, fail, attempt, from_result, ◌>>=◌, store_call,
}
use gacha_engine_service.Service.Commit.{
  completed_operation, pull_response, pull_event, after_commit, commit_pulls, commit_attempts,
  generate_and_commit_pull_with_retry,
}

pub record Quiet {A : Type 0} (act : Action A) : Type 0 where
  pub at : (w : World) → (act w).1.effects ≡ w.effects

module _ {A : Type 0} where
  return-Quiet : (a : A) → Quiet (return a)
  unfolding return
  return-Quiet a = record { at = λ w. refl }

  fail-Quiet : (f : Failure) → Quiet (fail {A = A} f)
  unfolding fail
  fail-Quiet f = record { at = λ w. refl }

  from_result-Quiet : (r : Result A) → Quiet (from_result r)
  unfolding from_result
  from_result-Quiet (ok a) = return-Quiet a
  from_result-Quiet (raise e) = fail-Quiet _

  attempt-Quiet : {act : Action A} → Quiet act → Quiet (attempt act)
  unfolding attempt
  attempt-Quiet q = record { at = λ w. q.at w }

  store_call-Quiet : (env : Env) (call : ℕ → Call A) → Quiet (store_call env call)
  unfolding store_call
  store_call-Quiet env call = record { at = λ w. refl }

  after_commit-Quiet :
      (env : Env) (left : ℕ) {again : Action A} (result : A) (r : Outcome Failure PitySnapshot)
      → Quiet again
      → Quiet (after_commit env left again result r)
  after_commit-Quiet env left result (ok s) q = return-Quiet result
  after_commit-Quiet env zero result (raise (store (version_conflict v))) q = fail-Quiet _
  after_commit-Quiet env (suc n) result (raise (store (version_conflict v))) q = q
  after_commit-Quiet env zero result (raise f) q = fail-Quiet _
  after_commit-Quiet env (suc n) result (raise f) q = fail-Quiet _

module _ {A B : Type 0} where
  bound-Quiet :
      (so_far : Outcome Failure A × World) (f : A → Action B)
      → ((a : A) → Quiet (f a))
      → (elim so_far.0 as (λ _. Outcome Failure B × World) [
        | ok a ↦ f a so_far.1
        | raise e ↦ (raise e, so_far.1)
      ]).1.effects
        ≡ so_far.1.effects
  bound-Quiet (ok a, w) f h = (h a).at w
  bound-Quiet (raise e, w) f h = refl

  bind-Quiet :
      {act : Action A} (f : A → Action B) → Quiet act → ((a : A) → Quiet (f a)) → Quiet (act >>= f)
  unfolding ◌>>=◌
  bind-Quiet {act} f q h = record { at = λ w. bound-Quiet (act w) f h ∙ q.at w }

module _ (env : Env) (user_id key request_hash token : String) (context : PullRecoveryContext) where
  commit_pulls-Quiet :
      (left : ℕ) {again : Action (PullResponse × PullCompletedEvent)} (previous : PitySnapshot)
      (pulls : List PullRecord × PityState)
      → Quiet again
      → Quiet (commit_pulls env user_id key request_hash token context left again previous pulls)
  unfolding commit_pulls
  commit_pulls-Quiet left previous (records, next) q =
      let now_next : PitySnapshot = record { state = next; version = previous.version + 1 } in
      bind-Quiet _
        (attempt-Quiet (
          store_call-Quiet env (
            compare_and_set_with_pull_operation env.runtime key user_id context.pity_group_id
              request_hash previous.version next
              (completed_operation event_pending request_hash
                (pull_response context records previous now_next)
                (pull_event context user_id records previous now_next))
              token)))
        λ r. after_commit-Quiet env left _ r q

  commit_attempts-Quiet :
      (n : ℕ) → Quiet (commit_attempts env user_id key request_hash token context n)
  unfolding commit_attempts
  commit_attempts-Quiet zero = fail-Quiet _
  commit_attempts-Quiet (suc n) =
      bind-Quiet _ (store_call-Quiet env (λ _. get_snapshot user_id context.pity_group_id))
        λ previous.
          bind-Quiet _
            (from_result-Quiet (
              perform_pulls env.runtime (to_banner_config context) context.count
                (without_version previous) context.seed))
            λ pulls. commit_pulls-Quiet n previous pulls (commit_attempts-Quiet n)

  pub generate_and_commit-Quiet :
      Quiet (generate_and_commit_pull_with_retry env user_id key request_hash token context)
  unfolding generate_and_commit_pull_with_retry
  generate_and_commit-Quiet = commit_attempts-Quiet 5
