-- ===== src/Service/Performed.antt =====
-- What a pull that was committed returns: which snapshot it read, what it drew over it and which commit
-- it made.
use gacha_engine_service.Prelude.{
  ℕ, zero, suc, ◌+◌, ◌*◌, ◌<◌, ◌≡◌, refl, ◌∙◌, String, List, arith, sym, ap, inl, inr,
}
use mathlib.Core.Path.{subst}
use gacha_engine_service.Prelude.Result.{Outcome, ok}
use gacha_engine_service.Schemas.{
  PitySnapshot, without_version, PullRecord, PityState, PullResponse, PullCompletedEvent,
}
use gacha_engine_service.Engine.Pulls.{perform_pulls}
use gacha_engine_service.Operations.{event_pending}
use gacha_engine_service.Operations.Context.{PullRecoveryContext, to_banner_config}
use gacha_engine_service.Store.Methods.{get_snapshot, compare_and_set_with_pull_operation}
use gacha_engine_service.Service.Errors.{Failure}
use gacha_engine_service.Service.World.{Env, World, Action, fail, from_result, ◌>>=◌, store_call}
use gacha_engine_service.Service.Commit.{
  completed_operation, after_commit, commit_pulls, commit_attempts,
  generate_and_commit_pull_with_retry, pull_response, pull_event,
}
use gacha_engine_service.Service.Inversion.{
  bind_returns, attempt_returns, from_result_returns, after_commit_returns, store_call_goes,
}

module _ (env : Env) (user_id key request_hash token : String) (context : PullRecoveryContext) where
  -- A response and an event that record what `perform_pulls` gives over a pity snapshot.
  pub record Records (previous : PitySnapshot) (result : PullResponse × PullCompletedEvent)
      : Type 0 where
    pub records : List PullRecord
    pub next : PityState
    pub performed :
        perform_pulls env.runtime
          (to_banner_config context)
          context.count
          (without_version previous)
          context.seed
        ≡ ok (records, next)
    pub is_response :
        result.0
        ≡ pull_response context records previous
            (record { state = next; version = previous.version + 1 })
    pub is_event :
        result.1
        ≡ pull_event context user_id records previous
            (record { state = next; version = previous.version + 1 })

  -- The commit of a result over a snapshot.
  abbrev pub commit_call :
      PitySnapshot → PityState → PullResponse × PullCompletedEvent → Action PitySnapshot
  commit_call previous next (response, event) = store_call env (
      compare_and_set_with_pull_operation env.runtime key user_id context.pity_group_id request_hash
        previous.version next (completed_operation event_pending request_hash response event) token)

  -- The last of at most `most` attempts, each a read and a commit: it read a snapshot, drew over it and
  -- committed what it drew, and the tables are those that this commit left.
  pub record LastAttempt (most : ℕ) (w w' : World) (result : PullResponse × PullCompletedEvent)
      : Type 0 where
    pub retries : ℕ
    pub bound : retries < most
    pub at_read : World
    pub read_calls : at_read.calls ≡ w.calls + 2 * retries
    pub read_effects : at_read.effects ≡ w.effects
    pub previous : PitySnapshot
    pub after_read : World
    pub read :
        store_call env (λ _. get_snapshot user_id context.pity_group_id) at_read
        ≡ (ok previous, after_read)
    pub recorded : Records previous result
    pub stored : PitySnapshot
    pub committed : commit_call previous recorded.next result after_read ≡ (ok stored, w')

  -- One more attempt before.
  one_more :
      (n : ℕ) (w w2 w' : World) {result : PullResponse × PullCompletedEvent}
      → w2.calls ≡ w.calls + 2
      → w2.effects ≡ w.effects
      → LastAttempt n w2 w' result
      → LastAttempt (suc n) w w' result
  one_more n w w2 w' calls effects c = record {
    retries = suc c.retries;
    bound = let b = c.bound in omega arith;
    at_read = c.at_read;
    read_calls = let h = c.read_calls in omega arith;
    read_effects = c.read_effects ∙ effects;
    previous = c.previous;
    after_read = c.after_read;
    read = c.read;
    recorded = c.recorded;
    stored = c.stored;
    committed = c.committed;
  }

  -- What an attempt that read `previous` and drew `records` returns.
  abbrev drawn : PitySnapshot → List PullRecord × PityState → PullResponse × PullCompletedEvent
  drawn previous (records, next) = (
    pull_response context records previous
        (record { state = next; version = previous.version + 1 }),
    pull_event context user_id records previous
        (record { state = next; version = previous.version + 1 }),
  )

  module _ (n : ℕ) (w w1 w' : World) (previous : PitySnapshot) (records : List PullRecord)
      (next : PityState) (result : PullResponse × PullCompletedEvent)
      (read : store_call env (λ _. get_snapshot user_id context.pity_group_id) w
        ≡ (ok previous, w1))
      (performed : perform_pulls env.runtime
          (to_banner_config context)
          context.count
          (without_version previous)
          context.seed
        ≡ ok (records, next)) where
    this_attempt :
        (stored : PitySnapshot)
        → result ≡ drawn previous (records, next)
        → commit_call previous next (drawn previous (records, next)) w1 ≡ (ok stored, w')
        → LastAttempt (suc n) w w' result
    this_attempt stored same call = record {
      retries = 0;
      bound = omega arith;
      at_read = w;
      read_calls = omega arith;
      read_effects = refl;
      previous = previous;
      after_read = w1;
      read = read;
      recorded = record {
        records = records;
        next = next;
        performed = performed;
        is_response = ap (λ r. r.0) same;
        is_event = ap (λ r. r.1) same;
      };
      stored = stored;
      committed = subst (λ r. commit_call previous next r w1 ≡ (ok stored, w')) (sym same) call;
    }

    -- The attempt is the last, or the next one starts where its commit left the world.
    settled_attempt :
        (r : Outcome Failure PitySnapshot) (w2 : World)
        → commit_call previous next (drawn previous (records, next)) w1 ≡ (r, w2)
        → w2.calls ≡ w.calls + 2
        → w2.effects ≡ w.effects
        → (commit_attempts env user_id key request_hash token context n w2 ≡ (ok result, w')
            → LastAttempt n w2 w' result)
        → after_commit env n
            (commit_attempts env user_id key request_hash token context n)
            (drawn previous (records, next))
            r
            w2
          ≡ (ok result, w')
        → LastAttempt (suc n) w w' result
    settled_attempt r w2 call calls effects later h = elim (after_commit_returns env n _ _ r w2 h) [
      | inl (s, is_ok, same, there) ↦
          this_attempt s same (call ∙ ap (λ x. (x, w2)) is_ok ∙ ap (λ x. (ok s, x)) (sym there))
      | inr (m, left, again) ↦ one_more n w w2 w' calls effects (later again)
    ]

    commit_pulls-LastAttempt :
        ((w2 : World)
          → commit_attempts env user_id key request_hash token context n w2 ≡ (ok result, w')
          → LastAttempt n w2 w' result)
        → commit_pulls env user_id key request_hash token context n
            (commit_attempts env user_id key request_hash token context n)
            previous
            (records, next)
            w1
          ≡ (ok result, w')
        → LastAttempt (suc n) w w' result
    unfolding commit_pulls
    commit_pulls-LastAttempt later h =
        let (r, w2, tried, h2) = bind_returns _ _ w1 h in
        let call = attempt_returns _ w1 tried in
        let (read_calls, read_effects) =
          store_call_goes env (λ _. get_snapshot user_id context.pity_group_id) w read in
        let (calls, effects) =
          store_call_goes env
            (compare_and_set_with_pull_operation env.runtime key user_id context.pity_group_id
              request_hash previous.version next
              (completed_operation event_pending request_hash (drawn previous (records, next)).0
                (drawn previous (records, next)).1)
              token)
            w1 call in
        settled_attempt r w2 call (omega arith) (effects ∙ read_effects) (later w2) h2

  -- The rest of an attempt, once it has read.
  drawn_attempt :
      (n : ℕ) (w w1 w' : World) (previous : PitySnapshot)
      (result : PullResponse × PullCompletedEvent)
      → store_call env (λ _. get_snapshot user_id context.pity_group_id) w ≡ (ok previous, w1)
      → (from_result (
              perform_pulls env.runtime
                (to_banner_config context)
                context.count
                (without_version previous)
                context.seed)
            >>= commit_pulls env user_id key request_hash token context n
                (commit_attempts env user_id key request_hash token context n)
                previous)
          w1
        ≡ (ok result, w')
      → ((w2 : World)
          → commit_attempts env user_id key request_hash token context n w2 ≡ (ok result, w')
          → LastAttempt n w2 w' result)
      → LastAttempt (suc n) w w' result
  drawn_attempt n w w1 w' previous result read h later =
      let ((records, next), w2, performed, h2) = bind_returns _ _ w1 h in
      let (is_ok, same) = from_result_returns _ w1 performed in
      commit_pulls-LastAttempt n w w1 w' previous records next result read is_ok later (
        subst
          (λ x.
            commit_pulls env user_id key request_hash token context n
              (commit_attempts env user_id key request_hash token context n) previous
              (records, next) x
            ≡ (ok result, w'))
          same h2)

  commit_attempts-LastAttempt :
      (n : ℕ) (w : World) {result : PullResponse × PullCompletedEvent} {w' : World}
      → commit_attempts env user_id key request_hash token context n w ≡ (ok result, w')
      → LastAttempt n w w' result
  unfolding commit_attempts
  commit_attempts-LastAttempt zero w h = absurd (unfold fail in ground arith)
  commit_attempts-LastAttempt (suc n) w {result} {w'} h =
      let (previous, w1, read, h1) = bind_returns _ _ w h in
      drawn_attempt n w w1 w' previous result read h1
        λ w2 again. commit_attempts-LastAttempt n w2 again

  -- Where `generate_and_commit_pull_with_retry` returns a response and an event: within five attempts,
  -- without a request to the services, it read a pity snapshot from the store, and both record exactly
  -- what `perform_pulls` gives for the context's configuration, count and seed over that snapshot,
  -- under the version after the snapshot's; the commit that stores them as `event_pending` on the
  -- snapshot's version succeeded right after that read, and was the last call made.
  pub committed_result_is_performed :
      (w : World) {result : PullResponse × PullCompletedEvent} {w' : World}
      → generate_and_commit_pull_with_retry env user_id key request_hash token context w
        ≡ (ok result, w')
      → LastAttempt 5 w w' result
  unfolding generate_and_commit_pull_with_retry
  committed_result_is_performed w h = commit_attempts-LastAttempt 5 w h
