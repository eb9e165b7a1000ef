-- ===== src/System/Entries.antt =====
-- The webhook and the administrator's retry write the orders table by progress alone.
use kori_backend.Payments.Safety.{
  handle_charge_refunded-Keeps, handle_session_expired-Keeps, handle_payment_succeeded-Keeps,
}
use kori_backend.Orders.Progress.{Progress}
use kori_backend.Payments.{
  update_order, set_events, has_id, event_is, mark_event_processed, claim_event,
}
use kori_backend.Orders.Rules.{
  Keeps-update_order, Keeps-if, Keeps-bind, Keeps-then, Keeps-catch, Keeps,
}
use kori_backend.Webhook.{
  charge_refunded, session_expired, payment_succeeded, EventBody, received, Received, act_on,
  accept, handle, dispatch, StripeEvent,
}
use kori_backend.Outbox.{requeue, is_failed_of, reencolar_fallidos}
use kori_backend.Prelude.{
  ℕ, ◌==◌, if◌then◌else◌, Bool, truthy, false, true, refl, none, inr, or_else, some, inl, any,
  Option-cases, Bool-cases, Option, String,
}
use kori_backend.Outbox.Retry.{back_to_paid, is_needs_review, retry_found, retry}
use kori_backend.Database.{WebhookEvent, pure, ◌>>◌, Result-cases, Env, Failure, Prisma}

pub retry-Keeps :
    (db : Prisma) (sha256 : String → String) (public_base_url : Option String)
    (message : Failure → String) (env : Env) (id : String)
    → Keeps (retry db sha256 public_base_url message env id)
unfolding retry reencolar_fallidos
retry-Keeps db sha256 url message env id s =
    elim (Option-cases (db.order.find_first (has_id id) s.orders)) [
      | inl p ↦ rw (p, retry_found) (Progress.same refl)
      | inr (o, p) ↦ elim (Bool-cases (is_needs_review o.status)) [
        | inr q ↦ rw (p, retry_found) (rw q (Progress.same refl))
        | inl q ↦
            elim (Bool-cases
              ((db.outbox_job.update_many (is_failed_of id) (requeue env.now) s.jobs).1 == 0)) [
                | inl w ↦ rw (p, retry_found) (rw q (rw w (Progress.same refl)))
                | inr w ↦
                    rw (p, retry_found)
                      (rw q (
                        rw w (
                          Keeps-then {B = ℕ}
                            (update_order db env id (
                              back_to_paid
                                (db.outbox_job.update_many (is_failed_of id) (requeue env.now)
                                  s.jobs).1))
                            (pure
                              (db.outbox_job.update_many (is_failed_of id) (requeue env.now)
                                s.jobs).1)
                            (Keeps-update_order db env id
                              (back_to_paid
                                (db.outbox_job.update_many (is_failed_of id) (requeue env.now)
                                  s.jobs).1)
                              (λ o q c. (λ e. cc, refl, λ h. h)))
                            (λ t. Progress.same refl)
                            (record s {
                              jobs =
                                  (db.outbox_job.update_many (is_failed_of id) (requeue env.now)
                                    s.jobs).0;
                            }))))
              ]
      ]
    ]

module _ (db : Prisma) (construct_event : String → String → Option StripeEvent)
    (message : Failure → String) (env : Env) where
  dispatch-Keeps : (b : EventBody) → Keeps (dispatch db construct_event message env b)
  unfolding dispatch
  dispatch-Keeps (payment_succeeded intent) = handle_payment_succeeded-Keeps db env intent
  dispatch-Keeps (session_expired session) = handle_session_expired-Keeps db env session
  dispatch-Keeps (charge_refunded charge) = handle_charge_refunded-Keeps db env charge
  dispatch-Keeps EventBody.unhandled = λ s. Progress.same refl

  mark_event_processed-Keeps :
      (id : String) (failure : Option String) → Keeps (mark_event_processed db env id failure)
  unfolding mark_event_processed
  mark_event_processed-Keeps id failure s =
      elim (Result-cases (
        db.webhook_event.update (event_is id)
          (λ e. record e { processed_at = some env.now; failure = or_else failure e.failure })
          s.webhook_events)) [
            | inl (t, p) ↦ rw (p, set_events) (Progress.same refl)
            | inr (e, p) ↦ rw (p, set_events) (Progress.same refl)
          ]

  act_on-Keeps : (event : StripeEvent) → Keeps (act_on db construct_event message env event)
  act_on-Keeps event =
      let mark = λ (f : Option String). mark_event_processed db env event.id f in
      Keeps-catch {A = Received}
        (dispatch db construct_event message env event.body >> (mark none >> pure (received true)))
        (λ e. mark (some (message e)) >> pure (received false))
        (Keeps-then {B = Received} (dispatch db construct_event message env event.body)
          (mark none >> pure (received true)) (dispatch-Keeps event.body)
          (Keeps-then {B = Received} (mark none) (pure (received true))
            (mark_event_processed-Keeps event.id none) (λ s. Progress.same refl)))
        (λ e.
          Keeps-then {B = Received} (mark (some (message e))) (pure (received false))
            (mark_event_processed-Keeps event.id (some (message e))) (λ s. Progress.same refl))

  claim_event-Keeps : (id : String) → Keeps (claim_event db env id)
  unfolding claim_event
  claim_event-Keeps id s =
      let row : WebhookEvent = record { event_id = id; processed_at = none; failure = none } in
      elim (Bool-cases (any (event_is id) s.webhook_events)) [
        | inl p ↦ rw (db.webhook_event.create_clash row s.webhook_events p) (Progress.same refl)
        | inr p ↦ rw (db.webhook_event.create_new row s.webhook_events p) (Progress.same refl)
      ]

  pub handle-Keeps :
      (body sig : Option String) → Keeps (handle db construct_event message env body sig)
  unfolding handle accept
  handle-Keeps body sig s = elim (Option-cases (truthy sig)) [
    | inl p ↦ rw (p, handle) (Progress.same refl)
    | inr (text, p) ↦ elim (Option-cases body) [
      | inl q ↦ rw (p, handle) (rw (q, handle) (Progress.same refl))
      | inr (raw, q) ↦ elim (Option-cases (construct_event raw text)) [
        | inl w ↦ rw (p, handle) (rw (q, handle) (rw (w, handle) (Progress.same refl)))
        | inr (event, w) ↦
            rw (p, handle)
              (rw (q, handle)
                (rw (w, handle)
                  (Keeps-bind {A = Bool} {B = Received} (claim_event db env event.id)
                    (λ is_new.
                      if is_new
                      then act_on db construct_event message env event
                      else pure (received false))
                    (claim_event-Keeps event.id)
                    (λ is_new.
                      Keeps-if {A = Received} is_new (act_on db construct_event message env event)
                        (pure (received false)) (act_on-Keeps event) (λ t. Progress.same refl))
                    s)))
      ]
    ]
  ]
