-- ===== src/Outbox.antt =====
-- modules/outbox/outbox.service.ts: the queue of deferred work, kept in a table.
pub mod Backoff
pub mod Summary
pub mod Safety
pub mod Review
pub mod Delivered
pub mod Claims
pub mod Retry
use kori_backend.Orders.Delivery.{emitir_enlaces}
use kori_backend.Constants.{day_ms, done_retention_days}
use kori_backend.Payments.{has_id, update_order, new_job, job_name, add_event}
use kori_backend.Prelude.{
  decimal, is_empty, suc, length, ◌==◌, [], ◌∷◌, truthy, ltb, ◌<>◌, clip, ◌/◌, ◌-◌, false, ◌^◌,
  ◌&&◌, true, str_eq, none, leb, any, ◌+◌, ◌*◌, some, min, if◌then◌else◌, Option, Bool, ℕ, String,
  List,
}
use kori_backend.Database.{
  ContactMessage, send_mail, send_admin_alert, deliver_digital, fulfill_order,
  send_shipping_notification, send_order_confirmation, download_links, manual_fulfillment,
  admin_alert, Mail, ◌>>=◌, shipping_notification, plain, not_found, ◌>>◌, throw,
  send_contact_message, pure, order_confirmation, catch, pending, needs_review, in_production, err,
  delivered, M, ok, Failure, processing, Result, Order, Store, Prisma, OutboxJob, JobType,
  JobStatus, Env,
}

abbrev pub batch_size : ℕ
batch_size = 10

abbrev pub base_backoff_ms : ℕ
base_backoff_ms = 60000

abbrev pub max_backoff_ms : ℕ
max_backoff_ms = 60 * 60 * 1000

pub record OutboxRunSummary : Type 0 where
  pub taken : ℕ
  pub done : ℕ
  pub failed : ℕ
  pub retrying : ℕ

pub data Outcome : Type 0 where
  done failed retrying : Outcome

abbrev pub is_pending_job : JobStatus → Bool
is_pending_job pending = true
is_pending_job _ = false

abbrev pub is_processing : JobStatus → Bool
is_processing processing = true
is_processing _ = false

abbrev pub is_done : JobStatus → Bool
is_done JobStatus.done = true
is_done _ = false

abbrev pub is_failed : JobStatus → Bool
is_failed JobStatus.failed = true
is_failed _ = false

-- `techo`: the techo of an attempt's wait. The code asks it of one more than a job's attempts, so
-- that the subtraction is the source's.
unfoldable pub techo : ℕ → ℕ
techo attempts = min (base_backoff_ms * 2 ^ (attempts - 1)) max_backoff_ms

-- `Math.round(techo * (0.25 + Math.random() * 0.75))` with `random` over 2 ^ 53, in exact
-- arithmetic: the source's doubles may differ from it by rounding.
unfoldable pub backoff_ms : ℕ → ℕ → ℕ
backoff_ms random attempts =
    (2 * techo attempts * (2 ^ 53 + 3 * random) + 4 * 2 ^ 53) / (8 * 2 ^ 53)

abbrev pub is_due : ℕ → OutboxJob → Bool
is_due now j = is_pending_job j.status && leb j.next_attempt_at now

abbrev pub job_is : String → OutboxJob → Bool
job_is id j = str_eq j.id id

-- The condition on the claim: one of the ids, and still pending.
abbrev pub is_claimable : List OutboxJob → OutboxJob → Bool
is_claimable candidates j = any (λ c. str_eq c.id j.id) candidates && is_pending_job j.status

abbrev pub start_processing : OutboxJob → OutboxJob
start_processing j = record j { status = processing }

abbrev pub finish : ℕ → OutboxJob → OutboxJob
finish now j = record j {
  status = JobStatus.done;
  completed_at = some now;
  attempts = j.attempts + 1;
  last_error = none;
}

-- The patch of `recordFailure`.
abbrev pub fail_once : Env → String → ℕ → ℕ → OutboxJob → OutboxJob
fail_once env message attempts max_attempts j = record j {
  status = if leb max_attempts attempts then JobStatus.failed else pending;
  attempts = attempts;
  last_error = some (clip 500 message);
  next_attempt_at = env.now + backoff_ms env.random attempts;
}

-- The patch of `escalate`.
abbrev pub mark_needs_review : JobType → String → Order → Order
mark_needs_review type message o =
    add_event needs_review ("Trabajo " <> job_name type <> " agotado tras varios intentos")
      (record o {
        status = needs_review;
        review_reason = some (clip 500 ("El trabajo " <> job_name type <> " falló: " <> message));
        fulfillment_error = some (clip 500 message);
      })

abbrev pub mark_in_production : ℕ → Order → Order
mark_in_production now o =
    add_event in_production "Enviado a producción manual"
      (record o { status = in_production; fulfillment_submitted_at = some now })

abbrev pub mark_delivered : ℕ → ℕ → Order → Order
mark_delivered now count o =
    add_event delivered ("Enlaces de descarga enviados (" <> decimal count <> ")")
      (record o { status = delivered; fulfillment_submitted_at = some now })

-- The alert of `escalate`.
abbrev pub stuck_subject : JobType → Order → String
stuck_subject type o = "Pedido #" <> decimal o.order_number <> " atascado — " <> job_name type

abbrev pub stuck_body : JobType → String → Order → String
stuck_body type text o =
    "El pedido #"
    <> decimal o.order_number
    <> " está pagado pero su trabajo "
    <> job_name type
    <> "\nfalló definitivamente y ya no se reintentará.\n\nError: "
    <> text
    <> "\n\nEl pedido quedó en NEEDS_REVIEW. Hay que resolverlo a mano."

abbrev pub set_jobs : Store → Result (List OutboxJob) → Store × Result (Unit {0})
set_jobs s (ok t) = (record s { jobs = t }, ok tt)
set_jobs s (err e) = (s, err e)

abbrev pub tally : Outcome → OutboxRunSummary → OutboxRunSummary
tally done r = record r { done = r.done + 1 }
tally failed r = record r { failed = r.failed + 1 }
tally retrying r = record r { retrying = r.retrying + 1 }

abbrev pub older_than : ℕ → ℕ → Option ℕ → Bool
older_than window now none = false
older_than window now (some t) = ltb (t + window) now

abbrev pub is_purgeable : ℕ → OutboxJob → Bool
is_purgeable now j =
    is_done j.status && older_than (done_retention_days * day_ms) now j.completed_at

abbrev pub same_text : Option String → String → Bool
same_text none b = false
same_text (some a) b = str_eq a b

abbrev pub is_failed_of : String → OutboxJob → Bool
is_failed_of order_id j = same_text j.order_id order_id && is_failed j.status

abbrev pub requeue : ℕ → OutboxJob → OutboxJob
requeue now j = record j {
  status = pending;
  attempts = 0;
  last_error = none;
  next_attempt_at = now;
}

abbrev pub is_contact : JobType → Bool
is_contact send_contact_message = true
is_contact _ = false

-- `message` is an exception's text.
module _ (db : Prisma) (sha256 : String → String) (public_base_url : Option String)
    (message : Failure → String) where
  abbrev pub update_job : String → (OutboxJob → OutboxJob) → M (Unit {0})
  update_job id f s = set_jobs s (db.outbox_job.update (job_is id) f s.jobs)

  abbrev pub alert : Env → JobType → String → Option Order → M (Unit {0})
  alert env type text none s = (s, err not_found)
  alert env type text (some o) s =
      (s, env.send (admin_alert (stuck_subject type o) (stuck_body type text o)))

  -- `purgarCompletados`.
  unfoldable pub purgar_completados : Env → M ℕ
  purgar_completados env s =
      let (t, n) = db.outbox_job.delete_many (is_purgeable env.now) s.jobs in
      (record s { jobs = t }, ok n)

  -- `reencolarFallidos`.
  unfoldable pub reencolar_fallidos : Env → String → M ℕ
  reencolar_fallidos env order_id s =
      let (t, n) = db.outbox_job.update_many (is_failed_of order_id) (requeue env.now) s.jobs in
      (record s { jobs = t }, ok n)

  -- `enqueue`, with the payload left out.
  unfoldable pub enqueue : Env → JobType → String → M (Unit {0})
  enqueue env type order_id s = (
    record s {
      jobs = db.outbox_job.create_many (new_job (env.uuid 0) env.now type order_id ∷ []) s.jobs;
    },
    ok tt,
  )

  -- The first half of `claimBatch`: the candidates, as they were read.
  abbrev pub candidates : Env → Store → List OutboxJob
  candidates env s =
      db.outbox_job.find_many (is_due env.now) (λ j. j.next_attempt_at) batch_size s.jobs

  -- The second half, which another instance's writes may precede.
  unfoldable pub take_batch : List OutboxJob → M (List OutboxJob)
  take_batch [] s = (s, ok [])
  take_batch (c ∷ cs) s =
      let (t, n) = db.outbox_job.update_many (is_claimable (c ∷ cs)) start_processing s.jobs in
      (record s { jobs = t }, ok (if n == length (c ∷ cs) then c ∷ cs else []))

  unfoldable pub claim_batch : Env → M (List OutboxJob)
  claim_batch env s = take_batch (candidates env s) s

  -- A message that was deleted meanwhile is no failure.
  abbrev pub send_found : Env → Option ContactMessage → M (Unit {0})
  send_found env none s = (s, ok tt)
  send_found env (some mensaje) s = (s, env.send (Mail.contact_message mensaje))

  -- `sendContactMessage`.
  unfoldable pub send_contact : Env → Option String → M (Unit {0})
  send_contact env none s = (s, err plain)
  send_contact env (some id) s =
      send_found env
        (db.contact_message.find_first (λ (m : ContactMessage). str_eq m.id id) s.contact_messages)
        s

  -- The `switch` of `execute`, for the order as it was read.
  unfoldable pub execute_for : Env → JobType → String → Order → M (Unit {0})
  execute_for env send_order_confirmation id o = send_mail env (order_confirmation o)
  execute_for env send_shipping_notification id o = send_mail env (shipping_notification o)
  execute_for env fulfill_order id o = do
    send_mail env (manual_fulfillment o)
    update_order db env id (mark_in_production env.now)
  execute_for env deliver_digital id o = do
    links ← emitir_enlaces db sha256 public_base_url env o
    if is_empty links then throw plain else pure tt
    send_mail env (download_links o links)
    update_order db env id (mark_delivered env.now (length links))
  execute_for env send_admin_alert id o = send_mail env (
      admin_alert ("Pedido #" <> decimal o.order_number <> " necesita revisión")
        ("El pedido #" <> decimal o.order_number <> " quedó marcado para revisión."))
  execute_for env send_contact_message id o = pure tt

  abbrev pub execute_found : Env → JobType → String → Option Order → M (Unit {0})
  execute_found env type id none = throw plain
  execute_found env type id (some o) = execute_for env type id o

  abbrev pub execute_order : Env → JobType → Option String → M (Unit {0})
  execute_order env type none s = (s, err plain)
  execute_order env type (some id) s =
      execute_found env type id (db.order.find_first (has_id id) s.orders) s

  unfoldable pub execute : Env → OutboxJob → M (Unit {0})
  execute env j =
      if is_contact j.type
      then send_contact env j.contact_message_id
      else execute_order env j.type (truthy j.order_id)

  -- The alert's own failure is only logged.
  unfoldable pub escalate : Env → String → JobType → String → M (Unit {0})
  escalate env id type text = do
    update_order db env id (mark_needs_review type text)
    catch (λ s. alert env type text (db.order.find_first (has_id id) s.orders) s) (λ e. pure tt)

  abbrev pub give_up : Env → OutboxJob → JobType → String → M Outcome
  give_up env j type text = elim (truthy j.order_id) [
    | none ↦ pure failed
    | some id ↦ escalate env id type text >> pure failed
  ]

  abbrev pub record_failure_of : Env → OutboxJob → Failure → Option OutboxJob → M Outcome
  record_failure_of env j e none = throw not_found
  record_failure_of env j e (some row) = do
    update_job j.id (fail_once env (message e) (row.attempts + 1) row.max_attempts)
    if leb row.max_attempts (row.attempts + 1)
        then give_up env j row.type (message e)
        else pure retrying

  unfoldable pub record_failure : Env → OutboxJob → Failure → M Outcome
  record_failure env j e s =
      record_failure_of env j e (db.outbox_job.find_first (job_is j.id) s.jobs) s

  -- The `try` block of `process`.
  abbrev pub attempt : Env → OutboxJob → M Outcome
  attempt env j = do execute env j; update_job j.id (finish env.now); pure done

  unfoldable pub process : Env → OutboxJob → M Outcome
  process env j = catch (attempt env j) (record_failure env j)

  -- The loop of `runPending`; `at k` is what the k-th job takes from outside.
  unfoldable pub run_jobs : (ℕ → Env) → ℕ → List OutboxJob → OutboxRunSummary → M OutboxRunSummary
  run_jobs at k [] r = pure r
  run_jobs at k (j ∷ js) r = do outcome ← process (at k) j; run_jobs at (suc k) js (tally outcome r)

  -- `runPending`: the flag `running` in, and out of a pass the result and the flag.
  unfoldable pub run_pending : (ℕ → Env) → Bool → M OutboxRunSummary
  run_pending at true = pure (record { taken = 0; done = 0; failed = 0; retrying = 0 })
  run_pending at false = do
    jobs ← claim_batch (at 0)
    run_jobs at 1 jobs (record { taken = length jobs; done = 0; failed = 0; retrying = 0 })
