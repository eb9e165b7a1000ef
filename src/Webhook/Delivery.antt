-- ===== src/Webhook/Delivery.antt =====
-- An event is acted on once, and a verified delivery is always answered.
use kori_backend.Payments.Effects.{
  handle_charge_refunded-outcome, handle_payment_succeeded-outcome, handle_session_expired-eq,
  RefundOutcome, PaymentOutcome,
}
use kori_backend.Webhook.{
  handle, accept, charge_refunded, session_expired, payment_succeeded, received, act_on, EventBody,
  dispatch, StripeEvent,
}
use kori_backend.Payments.{
  event_is, handle_session_expired, mark_event_processed, claim_event, PaymentIntent,
  CheckoutSession, Charge,
}
use kori_backend.Prelude.{
  ◌⊎◌, Bool-cases, ap, eq_iff, refl, arith, ◌∙◌, any-append, any-update_where, [], ◌∷◌,
  update_where, ◌++◌, or_else, some, none, inr, inl, false, truthy, Option-cases, true, ◌≡◌, any,
  Bool, Option, String,
}
use kori_backend.Database.{
  http, err, WebhookEvent, M-cases, ok, Failure, Result, Store, Env, Prisma,
}

module _ (db : Prisma) (env : Env) where
  PaymentOutcome-events :
      {intent : PaymentIntent} {s : Store} {r : Store × Result (Unit {0})}
      → PaymentOutcome db env intent s r
      → r.0.webhook_events ≡ s.webhook_events
  PaymentOutcome-events (PaymentOutcome.refused e id o c p) = rw p
  PaymentOutcome-events (PaymentOutcome.ignored c p) = rw p
  PaymentOutcome-events (PaymentOutcome.confirmed id o c p) = rw p

  RefundOutcome-events :
      {charge : Charge} {s : Store} {r : Store × Result (Unit {0})}
      → RefundOutcome db env charge s r
      → r.0.webhook_events ≡ s.webhook_events
  RefundOutcome-events (RefundOutcome.refused e p) = rw p
  RefundOutcome-events (RefundOutcome.ignored a p) = rw p
  RefundOutcome-events (RefundOutcome.confirmed o a b p) = rw p

  handle_session_expired-events :
      (session : CheckoutSession) (s : Store)
      → (handle_session_expired db env session s).0.webhook_events ≡ s.webhook_events
  handle_session_expired-events session s =
      rw handle_session_expired-eq
        (elim (Option-cases (truthy session.order_id)) [ inl p ↦ rw p | inr (id, p) ↦ rw p ])

  -- The event is in the table.
  abbrev pub is_claimed : String → Store → Bool
  is_claimed id s = any (event_is id) s.webhook_events

  claim_event-new :
      (id : String) (s : Store)
      → is_claimed id s ≡ false
      → (s' : Store) × (claim_event db env id s ≡ (s', ok true)) × (is_claimed id s' ≡ true)
  unfolding claim_event
  claim_event-new id s h =
      let row : WebhookEvent = record { event_id = id; processed_at = none; failure = none } in
      (
        record s { webhook_events = s.webhook_events ++ row ∷ [] },
        rw (db.webhook_event.create_new row s.webhook_events h),
        rw any-append (ground (arith, eq_iff id id)),
      )

  claim_event-old :
      (id : String) (s : Store) → is_claimed id s ≡ true → claim_event db env id s ≡ (s, ok false)
  unfolding claim_event
  claim_event-old id s h =
      let row : WebhookEvent = record { event_id = id; processed_at = none; failure = none } in
      rw (db.webhook_event.create_clash row s.webhook_events h)

  mark_event_processed-claimed :
      (id : String) (failure : Option String) (s : Store)
      → is_claimed id s ≡ true
      → (s' : Store) × (mark_event_processed db env id failure s ≡ (s', ok tt))
        × (is_claimed id s' ≡ true)
        × ((i : String) → is_claimed i s' ≡ is_claimed i s)
  unfolding mark_event_processed
  mark_event_processed-claimed id failure s h =
      let f : WebhookEvent → WebhookEvent =
        λ e. record e { processed_at = some env.now; failure = or_else failure e.failure } in
      (
        record s { webhook_events = update_where (event_is id) f s.webhook_events },
        rw (
            db.webhook_event.update_lem (event_is id) f s.webhook_events h
              (λ r t. ((λ e. e), (λ e. e)))),
        any-update_where (event_is id) (event_is id) f s.webhook_events (λ x. refl) ∙ h,
        λ i. any-update_where (event_is i) (event_is id) f s.webhook_events (λ x. refl),
      )

module _ (db : Prisma) (construct_event : String → String → Option StripeEvent)
    (message : Failure → String) (env : Env) where
  dispatch-events :
      (b : EventBody) (s : Store)
      → (dispatch db construct_event message env b s).0.webhook_events ≡ s.webhook_events
  unfolding dispatch
  dispatch-events (payment_succeeded intent) s =
      PaymentOutcome-events db env (handle_payment_succeeded-outcome db env intent s)
  dispatch-events (session_expired session) s = handle_session_expired-events db env session s
  dispatch-events (charge_refunded charge) s =
      RefundOutcome-events db env (handle_charge_refunded-outcome db env charge s)
  dispatch-events EventBody.unhandled s = refl

  dispatch-claimed :
      (id : String) (b : EventBody) (s t : Store) (r : Result (Unit {0}))
      → dispatch db construct_event message env b s ≡ (t, r)
      → is_claimed db env id s ≡ true
      → is_claimed db env id t ≡ true
  dispatch-claimed id b s t r p h = ap (any (event_is id)) (rw p at (dispatch-events b s)) ∙ h

  act_on-ok :
      (event : StripeEvent) (s : Store)
      → is_claimed db env event.id s ≡ true
      → (s' : Store) × (b : Bool) × (act_on db construct_event message env event s
          ≡ (s', ok (received b)))
        × (is_claimed db env event.id s' ≡ true)
  act_on-ok event s h = elim (M-cases (dispatch db construct_event message env event.body s)) [
    | inl (t, a, p) ↦
        let kept = dispatch-claimed event.id event.body s t (ok a) p h in
        let (s', marked, claimed, _) = mark_event_processed-claimed db env event.id none t kept in
        (s', true, rw p (rw marked), claimed)
    | inr (t, e, p) ↦
        let kept = dispatch-claimed event.id event.body s t (err e) p h in
        let (s', marked, claimed, _) =
          mark_event_processed-claimed db env event.id (some (message e)) t kept in
        (s', false, rw p (rw marked), claimed)
  ]

  accept-old :
      (event : StripeEvent) (s : Store)
      → is_claimed db env event.id s ≡ true
      → accept db construct_event message env event s ≡ (s, ok (received false))
  unfolding accept
  accept-old event s h = rw (claim_event-old db env event.id s h)

  accept-ok :
      (event : StripeEvent) (s : Store)
      → (s' : Store) × (b : Bool) × (accept db construct_event message env event s
          ≡ (s', ok (received b)))
        × (is_claimed db env event.id s' ≡ true)
  unfolding accept
  accept-ok event s = elim (Bool-cases (is_claimed db env event.id s)) [
    | inl old ↦ (s, false, rw (claim_event-old db env event.id s old), old)
    | inr fresh ↦
        let (t, claim, claimed) = claim_event-new db env event.id s fresh in
        let (s', b, p, kept) = act_on-ok event t claimed in (s', b, rw claim p, kept)
  ]

  -- A delivery whose signature is not empty and whose body Stripe's library accepts never throws: it
  -- is answered whatever the handler of the event does, and the event is then in the table of
  -- received events.
  pub verified_delivery_answered :
      (body sig : String) (event : StripeEvent) (s : Store)
      → truthy (some sig) ≡ some sig
      → construct_event body sig ≡ some event
      → (s' : Store) × (b : Bool) × (handle db construct_event message env (some body) (some sig) s
          ≡ (s', ok (received b)))
        × (is_claimed db env event.id s' ≡ true)
  unfolding handle
  verified_delivery_answered body sig event s q p =
      let (s', b, e, kept) = accept-ok event s in (s', b, rw (q, handle) (rw (p, handle) e), kept)

-- A request is turned away with 400 at any state, or stands for one event at any state.
handle-cases :
    (db : Prisma) (construct_event : String → String → Option StripeEvent)
    (message : Failure → String) (body sig : Option String)
    → ((env : Env) (s : Store)
        → handle db construct_event message env body sig s ≡ (s, err (http 400)))
      ⊎ ((event : StripeEvent) × ((env : Env) (s : Store)
            → handle db construct_event message env body sig s
              ≡ accept db construct_event message env event s))
unfolding handle
handle-cases db construct_event message body sig = elim (Option-cases (truthy sig)) [
  | inl p ↦ inl (λ env s. rw (p, handle))
  | inr (text, p) ↦ elim (Option-cases body) [
    | inl q ↦ inl (λ env s. rw (p, handle) (rw (q, handle)))
    | inr (raw, q) ↦ elim (Option-cases (construct_event raw text)) [
      | inl w ↦ inl (λ env s. rw (p, handle) (rw (q, handle) (rw (w, handle))))
      | inr (event, w) ↦ inr (event, λ env s. rw (p, handle) (rw (q, handle) (rw (w, handle))))
    ]
  ]
]

-- Stripe delivers some events more than once. Whatever request is sent again, at whatever later
-- time, and whatever the first delivery did, the second changes no table.
pub redelivery_changes_nothing :
    (db : Prisma) (construct_event : String → String → Option StripeEvent)
    (message : Failure → String) (env later : Env) (body sig : Option String) (s : Store)
    → let first = (handle db construct_event message env body sig s).0 in
      (handle db construct_event message later body sig first).0 ≡ first
redelivery_changes_nothing db construct_event message env later body sig s =
    elim (handle-cases db construct_event message body sig) [
      | inl turned ↦ rw (turned env s) (rw (turned later s))
      | inr (event, same) ↦
          let (s', b, e, kept) = accept-ok db construct_event message env event s in
          rw (same env s) (
            rw e
              (rw (same later s') (rw (accept-old db construct_event message later event s' kept))))
    ]
