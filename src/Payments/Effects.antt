-- ===== src/Payments/Effects.antt =====
-- What each handler of payments.service.ts writes, with every way in which it ends.
use kori_backend.Prelude.{
  ◌≤◌, ◌<◌, ltb→lt, or_else, text_or, String, ◌≡◌, ◌⊎◌, inl, inr, true, ◌&&◌, Option, none, some,
  List, arith, truthy, update_where, count_where, append_new, Bool-cases, Option-cases,
  if◌then◌else◌, ◌==◌, ltb,
}
use kori_backend.Database.{
  Order, OutboxJob_clash, Store, Prisma, Env, Result, ok, err, Failure, Result-cases, cancelled,
}
use kori_backend.Payments.{
  revoke, expired_note, note_if, is_live, add_event, refund, owns, cancel, CheckoutSession,
  mark_refunded, has_intent, handle_session_expired, handle_charge_refunded, confirm_refund, awaits,
  settle, set_orders, PaymentIntent, Charge, has_id, is_pending, mark_paid, confirm_payment,
  paid_jobs, handle_payment_succeeded, opt_in,
}

module _ (db : Prisma) (env : Env) where
  -- The tables after a payment was confirmed.
  abbrev pub paid_store : PaymentIntent → String → Order → Store → Store
  paid_store intent id o s =
      let s' =
        (opt_in db env o.newsletter_opt_in
          (text_or (or_else intent.receipt_email (some o.customer_email)) "") s).0 in
      record s' {
        orders = update_where (has_id id) (mark_paid env.now intent o) s.orders;
        jobs = append_new OutboxJob_clash (paid_jobs db env id o) s.jobs;
      }

  pub confirm_payment-cases :
      (intent : PaymentIntent) (id : String) (o : Order) (s : Store)
      → ((e : Failure) × (confirm_payment db env intent id o s ≡ (s, err e)))
        ⊎ (confirm_payment db env intent id o s ≡ (paid_store intent id o s, ok tt))
  unfolding confirm_payment
  confirm_payment-cases intent id o s =
      elim (Result-cases (db.order.update (has_id id) (mark_paid env.now intent o) s.orders)) [
        | inr (e, p) ↦ inl (e, rw (p, set_orders))
        | inl (t, p) ↦
            inr (
              rw (p, set_orders) (rw (db.order.update_ok _ _ _ t p, db.outbox_job.create_many_lem)))
      ]

  -- The intent names an order that is in the table and still pending.
  abbrev pub Settleable : PaymentIntent → Store → String → Order → Type 0
  Settleable intent s id o =
      (truthy intent.order_id ≡ some id)
      × (db.order.find_first (has_id id) s.orders ≡ some o)
      × (is_pending o.status ≡ true)

  -- `handlePaymentSucceeded` throws and writes nothing, or does nothing, or confirms the payment
  -- of a pending order that is in the table under the intent's identifier.
  pub data PaymentOutcome (intent : PaymentIntent) (s : Store)
      : Store × Result (Unit {0}) → Type 0 where
    refused :
        (e : Failure) (id : String) (o : Order) {r : Store × Result (Unit {0})}
        → Settleable intent s id o
        → r ≡ (s, err e)
        → PaymentOutcome intent s r
    ignored :
        {r : Store × Result (Unit {0})}
        → ((id : String) (o : Order) → Settleable intent s id o → ⊥)
        → r ≡ (s, ok tt)
        → PaymentOutcome intent s r
    confirmed :
        (id : String) (o : Order) {r : Store × Result (Unit {0})}
        → Settleable intent s id o
        → r ≡ (paid_store intent id o s, ok tt)
        → PaymentOutcome intent s r

  pub handle_payment_succeeded-outcome :
      (intent : PaymentIntent) (s : Store)
      → PaymentOutcome intent s (handle_payment_succeeded db env intent s)
  unfolding handle_payment_succeeded
  handle_payment_succeeded-outcome intent s = elim (Option-cases (truthy intent.order_id)) [
    | inl p ↦
        PaymentOutcome.ignored (λ id o c. let e = c.0 in cc) (rw (p, handle_payment_succeeded))
    | inr (id, p) ↦ elim (Option-cases (db.order.find_first (has_id id) s.orders)) [
      | inl q ↦
          PaymentOutcome.ignored
            (λ id' o c.
              let same : id ≡ id' = let e = c.0 in cc in
              let e = c.1 in let e' = (rw (← same) at e) in cc)
            (rw (p, handle_payment_succeeded) (rw (q, settle)))
      | inr (o, q) ↦ elim (Bool-cases (is_pending o.status)) [
        | inr w ↦
            PaymentOutcome.ignored
              (λ id' o' c.
                let same : id ≡ id' = let e = c.0 in cc in
                let e = c.1 in
                let same_o : o ≡ o' = let e' = (rw (← same) at e) in cc in
                let live = c.2 in let live' = (rw (← same_o) at live) in cc)
              (rw (p, handle_payment_succeeded) (rw (q, settle) (rw (w, settle))))
        | inl w ↦ elim (confirm_payment-cases intent id o s) [
          | inl (e, c) ↦
              PaymentOutcome.refused e id o (p, q, w)
                (rw (p, handle_payment_succeeded) (rw (q, settle) (rw (w, settle) c)))
          | inr c ↦
              PaymentOutcome.confirmed id o (p, q, w)
                (rw (p, handle_payment_succeeded) (rw (q, settle) (rw (w, settle) c)))
        ]
      ]
    ]
  ]

  -- The tables after a full refund.
  abbrev pub refunded_store : Charge → Order → Store → Store
  refunded_store charge o s = record s {
    orders = update_where (has_id o.id) (mark_refunded charge) s.orders;
    grants = update_where (λ g. owns o.items g && is_live g) (revoke env.now) s.grants;
  }

  -- The order that a refund is about: by the metadata, or else by the payment's identifier.
  abbrev pub refund_target : Charge → List Order → Option Order
  refund_target charge t = elim (truthy charge.order_id) [
    | some id ↦ db.order.find_first (has_id id) t
    | none ↦ elim (truthy charge.payment_intent) [
      | none ↦ none
      | some intent ↦ db.order.find_first (has_intent db env intent) t
    ]
  ]

  handle_charge_refunded-eq :
      (charge : Charge) (s : Store)
      → handle_charge_refunded db env charge s
        ≡ refund db env charge (refund_target charge s.orders) s
  unfolding handle_charge_refunded
  handle_charge_refunded-eq charge s = elim (Option-cases (truthy charge.order_id)) [
    | inr (id, p) ↦ rw (p, handle_charge_refunded, refund_target)
    | inl p ↦ elim (Option-cases (truthy charge.payment_intent)) [
      | inl q ↦
          rw (p, handle_charge_refunded, refund_target)
            (rw (q, handle_charge_refunded, refund_target))
      | inr (intent, q) ↦
          rw (p, handle_charge_refunded, refund_target)
            (rw (q, handle_charge_refunded, refund_target))
    ]
  ]

  -- `handleChargeRefunded` throws and writes nothing, or leaves a partial refund or an unknown
  -- order alone, or refunds the order and revokes its live grants.
  pub data RefundOutcome (charge : Charge) (s : Store) : Store × Result (Unit {0}) → Type 0 where
    refused :
        (e : Failure) {r : Store × Result (Unit {0})} → r ≡ (s, err e) → RefundOutcome charge s r
    ignored :
        {r : Store × Result (Unit {0})}
        → (refund_target charge s.orders ≡ none) ⊎ (charge.amount_refunded < charge.amount)
        → r ≡ (s, ok tt)
        → RefundOutcome charge s r
    confirmed :
        (o : Order) {r : Store × Result (Unit {0})}
        → refund_target charge s.orders ≡ some o
        → charge.amount ≤ charge.amount_refunded
        → r ≡ (refunded_store charge o s, ok tt)
        → RefundOutcome charge s r

  confirm_refund-cases :
      (charge : Charge) (o : Order) (s : Store)
      → ((e : Failure) × (confirm_refund db env charge o s ≡ (s, err e)))
        ⊎ (confirm_refund db env charge o s ≡ (refunded_store charge o s, ok tt))
  unfolding confirm_refund
  confirm_refund-cases charge o s =
      elim (Result-cases (db.order.update (has_id o.id) (mark_refunded charge) s.orders)) [
        | inr (e, p) ↦ inl (e, rw (p, set_orders))
        | inl (t, p) ↦ inr (
            rw (p, set_orders)
              (rw (
                db.order.update_ok _ _ _ t p,
                db.download_grant.update_many_lem (λ g. owns o.items g && is_live g)
                    (revoke env.now) s.grants (λ r g. ((λ e. e), (λ e. e))),
              )))
      ]

  pub handle_charge_refunded-outcome :
      (charge : Charge) (s : Store)
      → RefundOutcome charge s (handle_charge_refunded db env charge s)
  handle_charge_refunded-outcome charge s =
      rw handle_charge_refunded-eq (elim (Option-cases (refund_target charge s.orders)) [
        | inl p ↦ ignored (inl p) (rw (p, refund))
        | inr (o, p) ↦ elim (Bool-cases (ltb charge.amount_refunded charge.amount)) [
          | inl w ↦ ignored (inr (ltb→lt _ _ w)) (rw (p, refund) (rw (w, refund)))
          | inr w ↦ elim (confirm_refund-cases charge o s) [
            | inl (e, c) ↦ refused e (rw (p, refund) (rw (w, refund) c))
            | inr c ↦ confirmed o p (ground arith) (rw (p, refund) (rw (w, refund) c))
          ]
        ]
      ])

  -- The orders after a session expired.
  abbrev pub expired_orders : String → List Order → List Order
  expired_orders id t =
      let t' = update_where (awaits id) cancel t in
      if count_where (awaits id) t == 0
      then t'
      else update_where (has_id id) (add_event cancelled expired_note) t'

  -- `handleSessionExpired` never throws, and writes the orders alone.
  pub handle_session_expired-eq :
      (session : CheckoutSession) (s : Store)
      → handle_session_expired db env session s ≡ (elim (truthy session.order_id) [
        | none ↦ (s, ok tt)
        | some id ↦ (record s { orders = expired_orders id s.orders }, ok tt)
      ])
  unfolding handle_session_expired
  handle_session_expired-eq session s = elim (Option-cases (truthy session.order_id)) [
    | inl p ↦ rw (p, handle_session_expired)
    | inr (id, p) ↦
        rw (p, handle_session_expired)
          (rw (db.order.update_many_lem (awaits id) cancel s.orders (λ r o. ((λ e. e), (λ e. e))))
            (elim (Bool-cases (count_where (awaits id) s.orders == 0)) [
              | inl w ↦ rw (w, note_if)
              | inr w ↦ rw (w, note_if)
            ]))
  ]
