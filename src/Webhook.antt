-- ===== src/Webhook.antt =====
-- modules/payments/stripe-webhook.controller.ts: the entry of Stripe's events.
pub mod Delivery
use kori_backend.Database.{◌>>=◌, http, err, ◌>>◌, pure, catch, M, Env, Failure, Prisma}
use kori_backend.Payments.{
  claim_event, mark_event_processed, handle_charge_refunded, handle_session_expired,
  handle_payment_succeeded, Charge, CheckoutSession, PaymentIntent,
}
use kori_backend.Prelude.{if◌then◌else◌, false, some, true, none, truthy, Option, String, Bool}

-- `event.data.object`, by the event's type.
pub data EventBody : Type 0 where
  payment_succeeded : PaymentIntent → EventBody
  session_expired : CheckoutSession → EventBody
  charge_refunded : Charge → EventBody
  unhandled : EventBody

pub record StripeEvent : Type 0 where
  pub id : String
  pub body : EventBody

-- The answer to a delivery that is accepted: whether it started a pass over the queue.
pub data Received : Type 0 where
  received : (triggered : Bool) → Received

-- `construct_event` is Stripe's check of a signature, and `message` the text of an exception.
module _ (db : Prisma) (construct_event : String → String → Option StripeEvent)
    (message : Failure → String) (env : Env) where
  unfoldable pub dispatch : EventBody → M (Unit {0})
  dispatch (payment_succeeded intent) = handle_payment_succeeded db env intent
  dispatch (session_expired session) = handle_session_expired db env session
  dispatch (charge_refunded charge) = handle_charge_refunded db env charge
  dispatch unhandled = pure tt

  -- The `try` block and its `catch`.
  abbrev pub act_on : StripeEvent → M Received
  act_on event =
      catch
        (do dispatch event.body; mark_event_processed db env event.id none; pure (received true))
        (λ e. do mark_event_processed db env event.id (some (message e)); pure (received false))

  -- `handle` once the signature was accepted.
  unfoldable pub accept : StripeEvent → M Received
  accept event = do
    is_new ← claim_event db env event.id
    if is_new then act_on event else pure (received false)

  unfoldable pub handle : Option String → Option String → M Received
  handle raw_body signature s = elim (truthy signature) [
    | none ↦ (s, err (http 400))
    | some sig ↦ elim raw_body [
      | none ↦ (s, err (http 400))
      | some body ↦ elim (construct_event body sig) [
        | none ↦ (s, err (http 400))
        | some event ↦ accept event s
      ]
    ]
  ]
