-- ===== src/Tests/Shop.antt =====
-- The theorems about the shop's orders at concrete inputs, and runs of its calls.
use kori_backend.Webhook.Delivery.{
  verified_delivery_answered, is_claimed, redelivery_changes_nothing,
}
use kori_backend.Payments.{
  mark_event_processed, claim_event, mark_paid, confirm_payment, handle_payment_succeeded,
}
use kori_backend.Reconciliation.{reconcile}
use kori_backend.Tests.Tables.{list_client}
use kori_backend.Tests.Samples.{
  shelf, cart, sample_event, sample_order, with_order, names, sample_message, sample_env, later_env,
  sample_intent, sample_construct, sample_world,
}
use kori_backend.Orders.Progress.{paid_as, Consistent}
use kori_backend.Webhook.{received, dispatch, payment_succeeded, accept, handle, StripeEvent}
use kori_backend.System.Paid.{
  reconciliation, paid_order_survives, checkout, webhook, unpaid_orders_uncharged, here, next,
  World, Reach,
}
use kori_backend.Database.{deliver_digital, send_order_confirmation, paid, ok, Store}
use kori_backend.Checkout.{
  session_params, new_order, build_line, build_lines, add_quantity, quantities,
  build_lines_from_database, create_session,
}
use kori_backend.Prelude.{map, refl, ◌≡◌, true, some, [], ◌∷◌, none, Bool, any, All}

abbrev paid_by_webhook : Store
paid_by_webhook =
    (handle list_client sample_construct sample_message sample_env (some "body") (some "good")
      (with_order sample_order)).0

webhook_pays : map (λ o. o.status) paid_by_webhook.orders ≡ paid ∷ []
unfolding handle accept dispatch handle_payment_succeeded confirm_payment mark_paid claim_event
    mark_event_processed
webhook_pays = refl

webhook_enqueues :
    map (λ j. j.type) paid_by_webhook.jobs ≡ send_order_confirmation ∷ deliver_digital ∷ []
unfolding handle accept dispatch handle_payment_succeeded confirm_payment mark_paid claim_event
    mark_event_processed
webhook_enqueues = refl

verified_delivery_answered_example :
    (s' : Store) × (b : Bool) × (handle list_client sample_construct sample_message sample_env
        (some "body")
        (some "good")
        (with_order sample_order)
      ≡ (s', ok (received b)))
    × (is_claimed list_client sample_env "evt_1" s' ≡ true)
verified_delivery_answered_example =
    verified_delivery_answered list_client sample_construct sample_message sample_env "body" "good"
      sample_event (with_order sample_order) refl refl

redelivery_changes_nothing_example :
    (handle list_client sample_construct sample_message later_env
      (some "body")
      (some "good")
      paid_by_webhook).0
    ≡ paid_by_webhook
redelivery_changes_nothing_example =
    redelivery_changes_nothing list_client sample_construct sample_message sample_env later_env
      (some "body") (some "good") (with_order sample_order)

-- A checkout from an empty orders table, and then the payment of its order.
abbrev after_checkout : Store
after_checkout =
    (create_session list_client (λ l. "es") true none
      (λ p. ok (record { id = "cs_9"; url = some "https://pay" }))
      (record sample_env { uuid = names "order-" }) 7 cart shelf).0

abbrev order_0_event : StripeEvent
order_0_event = record {
  id = "evt_9";
  body = payment_succeeded (record sample_intent { order_id = some "order-0" });
}

abbrev world : World
world = record sample_world { construct_event = λ body sig. some order_0_event }

abbrev after_payment : Store
after_payment =
    (handle list_client (λ body sig. some order_0_event) sample_message sample_env (some "body")
      (some "good") after_checkout).0

checkout_reached : Reach world shelf after_checkout
checkout_reached =
    next (here refl) (checkout (record sample_env { uuid = names "order-" }) 7 cart refl)

payment_reached : Reach world shelf after_payment
payment_reached = next checkout_reached (webhook sample_env (some "body") (some "good") refl)

after_payment_paid : any (paid_as "order-0") after_payment.orders ≡ true
unfolding handle accept dispatch handle_payment_succeeded confirm_payment mark_paid claim_event
    mark_event_processed create_session build_lines_from_database quantities add_quantity
    build_lines build_line new_order session_params
after_payment_paid = refl

unpaid_orders_uncharged_example : All Consistent after_payment.orders
unpaid_orders_uncharged_example = unpaid_orders_uncharged world refl payment_reached

abbrev after_purge : Store
after_purge = (reconcile list_client true (λ id. none) (λ k. later_env) later_env after_payment).0

paid_order_survives_example : any (paid_as "order-0") after_purge.orders ≡ true
paid_order_survives_example =
    paid_order_survives world "order-0" refl payment_reached after_payment_paid
      (next (here refl) (reconciliation (λ k. later_env) later_env refl))
