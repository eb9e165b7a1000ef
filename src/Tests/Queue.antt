-- ===== src/Tests/Queue.antt =====
-- The theorems about the queue at concrete inputs.
use kori_backend.Outbox.Claims.{lost_claim_strands, second_claim_empty}
use kori_backend.Outbox.Review.{failed_job_needs_review}
use kori_backend.Orders.Delivery.{issue, emitir_enlaces}
use kori_backend.Outbox.Backoff.{backoff_bounds}
use kori_backend.Outbox.Summary.{run_pending_accounts}
use kori_backend.Payments.{has_id, new_job}
use kori_backend.Tests.Samples.{
  refunded_order, broken_mail, sample_env, sample_message, sample_hash, paid_order, with_order,
}
use kori_backend.Prelude.{
  if◌then◌else◌, map, any, List, true, none, All, refl, false, [], ◌∷◌, arith, some, ◌*◌, ◌≤◌, ◌+◌,
  ◌≡◌,
}
use kori_backend.Database.{
  needs_review, OutboxJob, deliver_digital, send_order_confirmation, ok, Result, Store,
}
use kori_backend.Outbox.{
  start_processing, job_is, is_claimable, escalate, record_failure, execute_for, execute, process,
  run_jobs, take_batch, claim_batch, backoff_ms, run_pending, techo, OutboxRunSummary,
}
use kori_backend.Tests.Tables.{list_client}

backoff_bounds_example :
    (techo 3 ≤ 4 * backoff_ms 1000 3)
    × (backoff_ms 1000 3 ≤ techo 3)
    × (15000 ≤ backoff_ms 1000 3)
    × (backoff_ms 1000 3 ≤ 3600000)
backoff_bounds_example = backoff_bounds 1000 3 (omega arith)

abbrev queue : Store
queue = record (with_order paid_order) {
  jobs =
      new_job "job-1" 0 send_order_confirmation "order-1"
      ∷ new_job "job-2" 0 deliver_digital "order-1"
      ∷ [];
}

abbrev pass : Store × Result OutboxRunSummary
pass =
    run_pending list_client sample_hash (some "https://api.example.com/") sample_message
      (λ k. sample_env) false queue

abbrev pass_summary : OutboxRunSummary
pass_summary = record { taken = 2; done = 2; failed = 0; retrying = 0 }

run_pending_accounts_example :
    (pass_summary.taken ≡ pass_summary.done + pass_summary.failed + pass_summary.retrying)
    × (pass_summary.taken ≤ 10)
unfolding run_pending claim_batch take_batch run_jobs process execute execute_for emitir_enlaces
    issue
run_pending_accounts_example =
    run_pending_accounts list_client sample_hash (some "https://api.example.com/") sample_message
      (λ k. sample_env) false pass_summary queue pass.0 refl

abbrev last_try : OutboxJob
last_try = record (new_job "job-9" 0 send_order_confirmation "order-1") {
  attempts = 5;
  max_attempts = 6;
}

abbrev last_queue : Store
last_queue = record (with_order paid_order) { jobs = last_try ∷ [] }

abbrev after_last_try : Store
after_last_try =
    (process list_client sample_hash none sample_message broken_mail last_try last_queue).0

failed_job_needs_review_example :
    All (λ o. has_id "order-1" o ≡ true → o.status ≡ needs_review) after_last_try.orders
unfolding process execute execute_for record_failure escalate
failed_job_needs_review_example =
    failed_job_needs_review list_client sample_hash none sample_message broken_mail last_try
      "order-1" last_queue after_last_try refl refl

abbrev both : List OutboxJob
both =
    new_job "job-1" 0 send_order_confirmation "order-1"
    ∷ new_job "job-2" 0 deliver_digital "order-1"
    ∷ []

abbrev after_claim : Store
after_claim = (take_batch list_client sample_hash none sample_message both queue).0

second_claim_empty_example :
    take_batch list_client sample_hash none sample_message both after_claim ≡ (after_claim, ok [])
second_claim_empty_example =
    second_claim_empty list_client sample_hash none sample_message both queue

abbrev one_taken : Store
one_taken = record queue {
  jobs = map (λ j. if job_is "job-1" j then start_processing j else j) both;
}

lost_claim_strands_example :
    (s' : Store) × (take_batch list_client sample_hash none sample_message both one_taken
      ≡ (s', ok []))
    × (any (is_claimable both) s'.jobs ≡ false)
lost_claim_strands_example =
    lost_claim_strands list_client sample_hash none sample_message
      (new_job "job-1" 0 send_order_confirmation "order-1")
      (new_job "job-2" 0 deliver_digital "order-1" ∷ []) one_taken (omega arith)

abbrev delivery : OutboxJob
delivery = new_job "job-2" 0 deliver_digital "order-1"

abbrev refunded_queue : Store
refunded_queue = record (with_order refunded_order) { jobs = delivery ∷ [] }
