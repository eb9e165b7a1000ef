-- ===== src/Tests/Payments.antt =====
-- The theorems about payments and refunds at concrete inputs.
use kori_backend.Orders.Delivery.{new_grant}
use kori_backend.Tests.Samples.{
  drumkit, sample_order, sample_hash, sample_charge, paid_order, with_order, sample_intent,
  sample_env, later_env,
}
use kori_backend.Payments.Once.{
  full_refund_revokes, payment_marks_order, payment_enqueues_jobs, payment_once, IsPaidBy,
  job_key_is,
}
use kori_backend.Payments.{
  confirm_refund, confirm_payment, is_live, owns, delivery_job, dedupe_key, has_id,
  handle_charge_refunded, handle_payment_succeeded, PaymentIntent,
}
use kori_backend.Database.{refunded, Order, send_order_confirmation, ok, Store, DownloadGrant}
use kori_backend.Prelude.{
  arith, false, ◌&&◌, refl, discard, [], ◌∷◌, true, none, ◌≡◌, some, any, All,
}
use kori_backend.Tests.Tables.{list_client}

abbrev after_paid : Store
after_paid =
    (handle_payment_succeeded list_client sample_env sample_intent (with_order sample_order)).0

abbrev second_intent : PaymentIntent
second_intent = record sample_intent { id = "pi_2" }

payment_marks_order_example :
    All (λ r. has_id "order-1" r ≡ true → IsPaidBy 1000000 sample_intent r) after_paid.orders
    × (discard (has_id "order-1") after_paid.orders ≡ [])
unfolding handle_payment_succeeded confirm_payment
payment_marks_order_example =
    payment_marks_order list_client sample_env sample_intent "order-1" sample_order
      (with_order sample_order) after_paid (refl, refl, refl) refl

payment_enqueues_jobs_example :
    (any (job_key_is (dedupe_key send_order_confirmation "order-1")) after_paid.jobs ≡ true)
    × ((read : Order) × (list_client.order.find_first
            (has_id "order-1")
            (with_order sample_order).orders
          ≡ some read)
        × (any (job_key_is (dedupe_key (delivery_job read) "order-1")) after_paid.jobs ≡ true))
unfolding handle_payment_succeeded confirm_payment
payment_enqueues_jobs_example =
    payment_enqueues_jobs list_client sample_env sample_intent "order-1" sample_order
      (with_order sample_order) after_paid (refl, refl, refl) refl refl refl refl

payment_once_example :
    handle_payment_succeeded list_client later_env second_intent after_paid ≡ (after_paid, ok tt)
unfolding handle_payment_succeeded confirm_payment
payment_once_example =
    payment_once list_client sample_env later_env sample_intent second_intent
      (with_order sample_order) after_paid refl refl

abbrev sample_grant : DownloadGrant
sample_grant = new_grant list_client sample_hash none sample_env 2000000 0 drumkit

abbrev before_refund : Store
before_refund = record (with_order paid_order) { grants = sample_grant ∷ [] }

abbrev after_refund : Store
after_refund = (handle_charge_refunded list_client later_env sample_charge before_refund).0

full_refund_revokes_example :
    All (λ r. has_id "order-1" r ≡ true → r.status ≡ refunded) after_refund.orders
    × (any (λ g. owns paid_order.items g && is_live g) after_refund.grants ≡ false)
unfolding handle_charge_refunded confirm_refund
full_refund_revokes_example =
    full_refund_revokes list_client later_env sample_charge paid_order before_refund after_refund
      refl (omega arith) refl
