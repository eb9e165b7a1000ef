-- ===== src/Payments/Safety.antt =====
-- The handlers of payments.service.ts write the orders by progress alone.
use kori_backend.Payments.Effects.{
  RefundOutcome, PaymentOutcome, handle_session_expired-eq, handle_payment_succeeded-outcome,
  handle_charge_refunded-outcome, expired_orders,
}
use kori_backend.Orders.Rules.{Keeps}
use kori_backend.Orders.Progress.{steps, patch, Progress, Careful}
use kori_backend.Payments.{
  expired_note, mark_refunded, handle_session_expired, handle_payment_succeeded,
  handle_charge_refunded, has_id, cancel, add_event, awaits, PaymentIntent, CheckoutSession, Charge,
  mark_paid,
}
use kori_backend.Prelude.{
  ◌==◌, inr, inl, truthy, count_where, Option-cases, Bool-cases, refl, arith, List, ℕ, Bool, String,
}
use kori_backend.Database.{cancelled, OrderStatus, Env, Prisma, Order}

pub mark_paid-Careful :
    (now : ℕ) (intent : PaymentIntent) (read : Order) (id : String)
    → Careful (has_id id) (mark_paid now intent read)
unfolding mark_paid
mark_paid-Careful now intent read id o q c = (λ e. cc, refl, λ h. refl)

cancel-Careful : (id : String) → Careful (awaits id) cancel
cancel-Careful id o q c = (λ e. c (ground arith), refl, λ h. h)

pub add_event-Careful :
    (p : Order → Bool) (status : OrderStatus) (note : String) → Careful p (add_event status note)
add_event-Careful p status note o q c = (c, refl, λ h. h)

module _ (db : Prisma) (env : Env) where
  pub handle_payment_succeeded-Keeps :
      (intent : PaymentIntent) → Keeps (handle_payment_succeeded db env intent)
  handle_payment_succeeded-Keeps intent s =
      elim (handle_payment_succeeded-outcome db env intent s)
        as (λ r o. Progress s.orders r.0.orders) [
          | PaymentOutcome.refused e id o c p ↦ rw p (Progress.same refl)
          | PaymentOutcome.ignored c p ↦ rw p (Progress.same refl)
          | PaymentOutcome.confirmed id o c p ↦ rw p (
              patch (has_id id) (mark_paid env.now intent o) (mark_paid-Careful env.now intent o id)
                refl)
        ]

  pub handle_charge_refunded-Keeps :
      (charge : Charge) → Keeps (handle_charge_refunded db env charge)
  handle_charge_refunded-Keeps charge s =
      elim (handle_charge_refunded-outcome db env charge s)
        as (λ r o. Progress s.orders r.0.orders) [
          | RefundOutcome.refused e p ↦ rw p (Progress.same refl)
          | RefundOutcome.ignored a p ↦ rw p (Progress.same refl)
          | RefundOutcome.confirmed o a b p ↦
              rw p
                (patch (has_id o.id) (mark_refunded charge) (λ o q c. (λ e. cc, refl, λ h. h)) refl)
        ]

  expired_orders-Progress : (id : String) (t : List Order) → Progress t (expired_orders db env id t)
  expired_orders-Progress id t = elim (Bool-cases (count_where (awaits id) t == 0)) [
    | inl w ↦ rw w (patch (awaits id) cancel (cancel-Careful id) refl)
    | inr w ↦ rw w (
        steps (patch (awaits id) cancel (cancel-Careful id) refl) (
          patch (has_id id) (add_event cancelled expired_note)
            (add_event-Careful (has_id id) cancelled expired_note) refl))
  ]

  pub handle_session_expired-Keeps :
      (session : CheckoutSession) → Keeps (handle_session_expired db env session)
  handle_session_expired-Keeps session s =
      rw handle_session_expired-eq (elim (Option-cases (truthy session.order_id)) [
        | inl p ↦ rw p (Progress.same refl)
        | inr (id, p) ↦ rw p (expired_orders-Progress id s.orders)
      ])
