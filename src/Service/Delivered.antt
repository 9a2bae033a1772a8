-- ===== src/Service/Delivered.antt =====
-- What is known where `publish_and_complete_claimed_pull` and `handle_claimed_pull_operation` return.
use gacha_engine_service.Prelude.{
  ◌≡◌, refl, String, Bool, true, false, some, List, arith, inl, inr, ◌⊎◌, ap, sym, ◌∙◌, eq_iff,
  str_eq, not, if◌then◌else◌,
}
use mathlib.Core.Path.{subst}
use gacha_engine_service.Prelude.Result.{Outcome, ok, raise}
use gacha_engine_service.Schemas.{PullResponse, PullCompletedEvent}
use gacha_engine_service.Operations.{PullOperation, event_pending, event_published, succeeded}
use gacha_engine_service.Operations.Context.{PullRecoveryContext}
use gacha_engine_service.Store.Methods.{
  save_pull_operation_by_key, store_error, ownership_lost, version_conflict,
}
use gacha_engine_service.Service.Errors.{
  Failure, http, store, asset, publish_error, receipt_error, runtime_error, python,
}
use gacha_engine_service.Service.World.{
  Env, World, Action, MetadataValue, return, fail, attempt, ◌>>=◌, ◌>>◌, store_call,
}
use gacha_engine_service.Service.Commit.{completed_operation, publish_pull_completed_with_retry}
use gacha_engine_service.Service.Claimed.{
  Standing, delivered, undelivered, owes_refund, has_failed, in_progress, standing,
  except_store_error, except_publish_error, publish_and_complete_claimed_pull, claimed_reply,
  unavailable, conflict, optional_or, handle_claimed_pull_operation, refund_claimed_spend,
}
use gacha_engine_service.Service.Outcomes.{Publication, publish_with_retry_lem}
use gacha_engine_service.Service.Inversion.{bind_returns, attempt_returns}

pub fail_returns :
    {A : Type 0} (f : Failure) (w : World) {a : A} {w' : World} → fail f w ≡ (ok a, w') → ⊥
unfolding fail
fail_returns f w h = ground arith

return_returns :
    {A : Type 0} (a : A) (w : World) {b : A} {w' : World}
    → return a w ≡ (ok b, w')
    → (b ≡ a) × (w' ≡ w)
unfolding return
return_returns a w h = ground arith

pub unless_returns :
    {A : Type 0} (b : Bool) (f : Failure) (act : Action A) (w : World) {a : A} {w' : World}
    → (if not b then fail f else act) w ≡ (ok a, w')
    → (b ≡ true) × (act w ≡ (ok a, w'))
unless_returns true f act w h = (refl, h)
unless_returns false f act w h = absurd (fail_returns f w h)

pub when_returns :
    {A : Type 0} (b : Bool) (f : Failure) (act : Action A) (w : World) {a : A} {w' : World}
    → (if b then act else fail f) w ≡ (ok a, w')
    → (b ≡ true) × (act w ≡ (ok a, w'))
when_returns true f act w h = (refl, h)
when_returns false f act w h = absurd (fail_returns f w h)

pub otherwise_returns :
    {A : Type 0} (b : Bool) (f : Failure) (act : Action A) (w : World) {a : A} {w' : World}
    → (if b then fail f else act) w ≡ (ok a, w')
    → act w ≡ (ok a, w')
otherwise_returns false f act w h = h
otherwise_returns true f act w h = absurd (fail_returns f w h)

-- A handler that raises lets only what was returned pass.
except_publish_error_returns :
    {A : Type 0} (f : Failure) (r : Outcome Failure A) (w : World) {a : A} {w' : World}
    → except_publish_error (fail f) r w ≡ (ok a, w')
    → (r ≡ ok a) × (w' ≡ w)
unfolding fail return
except_publish_error_returns f (ok a) w h = ground arith
except_publish_error_returns f (raise (http e)) w h = absurd (ground arith)
except_publish_error_returns f (raise (store e)) w h = absurd (ground arith)
except_publish_error_returns f (raise (asset e)) w h = absurd (ground arith)
except_publish_error_returns f (raise publish_error) w h = absurd (ground arith)
except_publish_error_returns f (raise receipt_error) w h = absurd (ground arith)
except_publish_error_returns f (raise runtime_error) w h = absurd (ground arith)
except_publish_error_returns f (raise (python e)) w h = absurd (ground arith)

except_store_error_returns :
    (r : Outcome Failure (Unit {0})) (w : World) {a : Unit {0}} {w' : World}
    → except_store_error (return tt) r w ≡ (ok a, w')
    → w' ≡ w
unfolding fail return
except_store_error_returns (ok a) w h = ground arith
except_store_error_returns (raise (http e)) w h = absurd (ground arith)
except_store_error_returns (raise (store store_error)) w h = ground arith
except_store_error_returns (raise (store (version_conflict v))) w h = absurd (ground arith)
except_store_error_returns (raise (store ownership_lost)) w h = absurd (ground arith)
except_store_error_returns (raise (asset e)) w h = absurd (ground arith)
except_store_error_returns (raise publish_error) w h = absurd (ground arith)
except_store_error_returns (raise receipt_error) w h = absurd (ground arith)
except_store_error_returns (raise runtime_error) w h = absurd (ground arith)
except_store_error_returns (raise (python e)) w h = absurd (ground arith)

module _ (env : Env) (key request_hash : String) where
  -- Kafka took the event, and then one save asked for `event_published`; what the save met is not
  -- told.
  pub record Delivery (w w' : World) (response : PullResponse) (event : PullCompletedEvent)
      : Type 0 where
    pub after_offers : World
    pub published : Publication env 3 event w after_offers (ok tt)
    pub saved : Outcome Failure (Unit {0})
    pub save :
        store_call env
          (save_pull_operation_by_key env.runtime key
            (completed_operation event_published request_hash response event))
          after_offers
        ≡ (saved, w')

  abbrev save_action : PullResponse → PullCompletedEvent → Action (Unit {0})
  save_action response event = store_call env (
      save_pull_operation_by_key env.runtime key
        (completed_operation event_published request_hash response event))

  -- After the offers, the save and the reply.
  saved-Delivery :
      (response : PullResponse) (event : PullCompletedEvent) (w w1 : World)
      (offered : Outcome Failure (Unit {0})) {given : PullResponse} {w' : World}
      → Publication env 3 event w w1 offered
      → offered ≡ ok tt
      → (attempt (save_action response event) >>= λ saved.
            except_store_error (return tt) saved >>= λ _. return response)
          w1
        ≡ (ok given, w')
      → (given ≡ response) × Delivery w w' response event
  saved-Delivery response event w w1 offered {given} {w'} publication took h =
      let (saved, w2, e, h2) = bind_returns _ _ w1 h in
      let (u, w3, e3, h3) = bind_returns _ _ w2 h2 in
      let same = except_store_error_returns saved w2 e3 in
      let (is_response, still) = return_returns response w3 h3 in
      (
        is_response,
        record {
          after_offers = w1;
          published = subst (λ r. Publication env 3 event w w1 r) took publication;
          saved = saved;
          save =
              attempt_returns (save_action response event) w1 e
              ∙ ap (λ x. (saved, x)) (sym (still ∙ same));
        },
      )

  offered-Publication :
      (event : PullCompletedEvent) (w : World) {r : Outcome Failure (Unit {0})} {w1 : World}
      → publish_pull_completed_with_retry env event w ≡ (r, w1)
      → Publication env 3 event w w1 r
  offered-Publication event w e =
      subst (λ x. Publication env 3 event w x.1 x.0) e (publish_with_retry_lem env event w)

  after_offers-Delivery :
      (response : PullResponse) (event : PullCompletedEvent) (w w1 : World)
      (offered : Outcome Failure (Unit {0})) (f : Failure) {given : PullResponse} {w' : World}
      → Publication env 3 event w w1 offered
      → (except_publish_error (fail f) offered >>= λ _.
            attempt (save_action response event) >>= λ saved.
            except_store_error (return tt) saved >>= λ _. return response)
          w1
        ≡ (ok given, w')
      → (given ≡ response) × Delivery w w' response event
  after_offers-Delivery response event w w1 offered f {given} {w'} publication h =
      let (u, w2, e, h2) = bind_returns _ _ w1 h in
      let (is_ok, same) = except_publish_error_returns f offered w1 e in
      saved-Delivery response event w w1 offered publication is_ok (
        subst
          (λ x.
            (attempt (save_action response event) >>= λ saved.
            except_store_error (return tt) saved >>= λ _. return response)
              x
            ≡ (ok given, w'))
          same h2)

  abbrev no_kafka : Failure
  no_kafka = unavailable "kafka_unavailable" "pull event could not be published"

  pub publish_and_complete-Delivery :
      (response : PullResponse) (event : PullCompletedEvent) (w : World) {given : PullResponse}
      {w' : World}
      → publish_and_complete_claimed_pull env key request_hash response event w ≡ (ok given, w')
      → (given ≡ response) × Delivery w w' response event
  unfolding publish_and_complete_claimed_pull ◌>>◌
  publish_and_complete-Delivery response event w h =
      let (offered, w1, e, h1) =
        bind_returns (attempt (publish_pull_completed_with_retry env event))
          (λ offered. except_publish_error (fail no_kafka) offered >>= λ _.
            attempt (save_action response event) >>= λ saved.
            except_store_error (return tt) saved >>= λ _. return response)
          w h in
      after_offers-Delivery response event w w1 offered no_kafka
        (offered-Publication event w
          (attempt_returns (publish_pull_completed_with_retry env event) w e))
        h1

  -- The operation that a worker found instead of its own commit's outcome.
  pub record Reconciled (w w' : World) (operation : PullOperation) (given : PullResponse)
      : Type 0 where
    pub same_request : operation.request_hash ≡ request_hash
    pub response : operation.response ≡ some given
    pub standing :
        (((operation.status ≡ event_published) ⊎ (operation.status ≡ succeeded)) × (w' ≡ w))
        ⊎ ((operation.status ≡ event_pending)
            × (event : PullCompletedEvent) × (operation.event ≡ some event)
            × Delivery w w' given event)

  delivered_operation :
      (operation : PullOperation) {response : PullResponse}
      → standing operation ≡ delivered response
      → ((operation.status ≡ event_published) ⊎ (operation.status ≡ succeeded))
        × (operation.response ≡ some response)
  unfolding standing
  delivered_operation operation h = ground arith

  undelivered_operation :
      (operation : PullOperation) {response : PullResponse} {event : PullCompletedEvent}
      → standing operation ≡ undelivered response event
      → (operation.status ≡ event_pending)
        × (operation.response ≡ some response)
        × (operation.event ≡ some event)
  unfolding standing
  undelivered_operation operation h = ground arith

  module _ (operation : PullOperation) (user_id : String) (context : PullRecoveryContext)
      (metadata : List (String × MetadataValue)) where
    reply-Reconciled :
        (found : Standing) (w : World) {given : PullResponse} {w' : World}
        → standing operation ≡ found
        → operation.request_hash ≡ request_hash
        → claimed_reply env operation user_id key request_hash context metadata found w
          ≡ (ok given, w')
        → Reconciled w w' operation given
    unfolding claimed_reply ◌>>◌
    reply-Reconciled (delivered response) w s r h =
        let (same, still) = return_returns response w h in
        let (status, recorded) = delivered_operation operation s in
        record { same_request = r; response = rw same recorded; standing = inl (status, still) }
    reply-Reconciled (undelivered response event) w {given} {w'} s r h =
        let (same, delivery) = publish_and_complete-Delivery response event w h in
        let (status, recorded, announced) = undelivered_operation operation s in
        record {
          same_request = r;
          response = rw same recorded;
          standing =
              inr
                (status, event, announced, subst (λ x. Delivery w w' x event) (sym same) delivery);
        }
    reply-Reconciled owes_refund w s r h =
        let (u, w1, refunded, h1) =
          bind_returns
            (refund_claimed_spend env user_id key request_hash context metadata
              (optional_or operation.error_code "pull_refunded")
              (optional_or operation.error_message "pull was refunded"))
            (λ _. fail (conflict "pull_refunded" "previous pull attempt was refunded")) w h in
        absurd (fail_returns _ w1 h1)
    reply-Reconciled has_failed w s r h = absurd (fail_returns _ w h)
    reply-Reconciled in_progress w s r h = absurd (fail_returns _ w h)

    pub handle_claimed-Reconciled :
        (w : World) {given : PullResponse} {w' : World}
        → handle_claimed_pull_operation env operation user_id key request_hash context metadata w
          ≡ (ok given, w')
        → Reconciled w w' operation given
    unfolding handle_claimed_pull_operation
    handle_claimed-Reconciled w h =
        let (same, replied) =
          unless_returns (str_eq operation.request_hash request_hash) _
            (claimed_reply env operation user_id key request_hash context metadata
              (standing operation))
            w h in
        reply-Reconciled (standing operation) w refl
          ((eq_iff operation.request_hash request_hash).0 same) replied
