-- ===== src/Outbox/Safety.antt =====
-- The queue's calls write the orders table by progress alone.
use kori_backend.Constants.{download_grant_ttl_hours}
use kori_backend.Outbox.{
  send_found, process, retrying, done, finish, fail_once, tally, failed, attempt, set_jobs,
  record_failure_of, execute_found, candidates, Outcome, take_batch, job_is, is_contact,
  OutboxRunSummary, update_job, send_contact, run_pending, run_jobs, record_failure, give_up,
  execute_order, claim_batch, alert, execute, execute_for, escalate, mark_needs_review,
  mark_in_production, mark_delivered,
}
use kori_backend.Orders.Rules.{
  Keeps-catch, Keeps-if, Keeps-update_order, Keeps-bind, Keeps-then, Keeps,
}
use kori_backend.Payments.{update_order, revoke_grants, has_id}
use kori_backend.Orders.Delivery.{set_grants, new_grant, is_deliverable, issue, emitir_enlaces}
use kori_backend.Orders.Progress.{steps, Progress, Careful}
use kori_backend.Prelude.{
  if◌then◌else◌, str_eq, false, true, none, leb, truthy, length, some, Option-cases, Bool, ◌*◌, ◌+◌,
  [], suc, inr, inl, ◌∷◌, keep, refl, List-cases, List, ℕ, Option, String,
}
use kori_backend.Database.{
  ContactMessage, pure, catch, send_contact_message, send_admin_alert, deliver_digital,
  fulfill_order, send_shipping_notification, send_order_confirmation, download_links, ◌>>◌,
  manual_fulfillment, send_mail, OutboxJob, Mail, Failure, Link, M, Store, M-cases, Result-cases,
  OrderItem, Order, Env, JobType, Prisma,
}

in_production-Careful : (id : String) (now : ℕ) → Careful (has_id id) (mark_in_production now)
in_production-Careful id now o q c = (λ e. cc, refl, λ h. h)

delivered-Careful : (id : String) (now count : ℕ) → Careful (has_id id) (mark_delivered now count)
delivered-Careful id now count o q c = (λ e. cc, refl, λ h. h)

needs_review-Careful :
    (id : String) (type : JobType) (text : String)
    → Careful (has_id id) (mark_needs_review type text)
needs_review-Careful id type text o q c = (λ e. cc, refl, λ h. h)

module _ (db : Prisma) (sha256 : String → String) (public_base_url : Option String) where
  issue-Keeps :
      (env : Env) (expires k : ℕ) (items : List OrderItem)
      → Keeps (issue db sha256 public_base_url env expires k items)
  unfolding issue
  issue-Keeps env expires k [] = λ s. Progress.same refl
  issue-Keeps env expires k (i ∷ is) = λ s.
      elim (Result-cases
        (db.download_grant.create (new_grant db sha256 public_base_url env expires k i) s.grants)) [
          | inr (e, p) ↦ rw (p, set_grants) (Progress.same refl)
          | inl (t, p) ↦
              rw (p, set_grants)
                (elim (M-cases (
                  issue db sha256 public_base_url env expires (suc k) is
                    (record s { grants = t }))) [
                      | inl (u, ls, q) ↦
                          rw q
                            (rw q at (issue-Keeps env expires (suc k) is (record s { grants = t })))
                      | inr (u, e, q) ↦
                          rw q
                            (rw q at (issue-Keeps env expires (suc k) is (record s { grants = t })))
                    ])
        ]

  pub emitir_enlaces-Keeps :
      (env : Env) (o : Order) → Keeps (emitir_enlaces db sha256 public_base_url env o)
  unfolding emitir_enlaces
  emitir_enlaces-Keeps env o s = elim (List-cases (keep is_deliverable o.items)) [
    | inl p ↦ rw (p, emitir_enlaces) (Progress.same refl)
    | inr (i, is, p) ↦
        let s' : Store = (revoke_grants db env (i ∷ is) s).0 in
        let m : M (List Link) =
          issue db sha256 public_base_url env (env.now + download_grant_ttl_hours * 60 * 60 * 1000)
            0 (i ∷ is) in
        rw (p, emitir_enlaces)
          (elim (M-cases (m s')) [
            | inl (u, ls, q) ↦ rw q (
                rw q at (
                  issue-Keeps env (env.now + download_grant_ttl_hours * 60 * 60 * 1000) 0 (i ∷ is)
                    s'))
            | inr (u, e, q) ↦ rw q (Progress.same refl)
          ])
  ]

-- A mail and then an update of one order.
mail_then-Keeps :
    (db : Prisma) (env : Env) (mail : Mail) (id : String) (f : Order → Order)
    → Careful (has_id id) f
    → Keeps (send_mail env mail >> update_order db env id f)
mail_then-Keeps db env mail id f careful s = elim (Result-cases (env.send mail)) [
  | inl (u, p) ↦ rw p (Keeps-update_order db env id f careful s)
  | inr (e, p) ↦ rw p (Progress.same refl)
]

module _ (db : Prisma) (sha256 : String → String) (public_base_url : Option String)
    (message : Failure → String) where
  execute_for-Keeps :
      (env : Env) (type : JobType) (id : String) (o : Order)
      → Keeps (execute_for db sha256 public_base_url message env type id o)
  unfolding execute_for
  execute_for-Keeps env send_order_confirmation id o s = Progress.same refl
  execute_for-Keeps env send_shipping_notification id o s = Progress.same refl
  execute_for-Keeps env fulfill_order id o s =
      mail_then-Keeps db env (manual_fulfillment o) id (mark_in_production env.now)
        (in_production-Careful id env.now) s
  execute_for-Keeps env deliver_digital id o s =
      elim (M-cases (emitir_enlaces db sha256 public_base_url env o s)) [
        | inr (t, e, p) ↦ rw p (rw p at (emitir_enlaces-Keeps db sha256 public_base_url env o s))
        | inl (t, links, p) ↦ elim (List-cases links) [
          | inl q ↦ rw p (rw q (rw p at (emitir_enlaces-Keeps db sha256 public_base_url env o s)))
          | inr (l, ls, q) ↦ rw p (
              rw q (
                steps (rw p at (emitir_enlaces-Keeps db sha256 public_base_url env o s)) (
                  mail_then-Keeps db env (download_links o (l ∷ ls)) id
                    (mark_delivered env.now (length (l ∷ ls)))
                    (delivered-Careful id env.now (length (l ∷ ls))) t)))
        ]
      ]
  execute_for-Keeps env send_admin_alert id o s = Progress.same refl
  execute_for-Keeps env send_contact_message id o s = Progress.same refl

  send_contact-Keeps :
      (env : Env) (id : Option String)
      → Keeps (send_contact db sha256 public_base_url message env id)
  unfolding send_contact
  send_contact-Keeps env none s = Progress.same refl
  send_contact-Keeps env (some id) s =
      elim (Option-cases (
        db.contact_message.find_first (λ (m : ContactMessage). str_eq m.id id)
          s.contact_messages)) [
            | inl p ↦ rw (p, send_found) (Progress.same refl)
            | inr (mensaje, p) ↦ rw (p, send_found) (Progress.same refl)
          ]

  execute_order-Keeps :
      (env : Env) (type : JobType) (id : Option String)
      → Keeps (execute_order db sha256 public_base_url message env type id)
  execute_order-Keeps env type none s = Progress.same refl
  execute_order-Keeps env type (some id) s =
      elim (Option-cases (db.order.find_first (has_id id) s.orders)) [
        | inl p ↦ rw (p, execute_found) (Progress.same refl)
        | inr (o, p) ↦ rw (p, execute_found) (execute_for-Keeps env type id o s)
      ]

  execute-Keeps :
      (env : Env) (j : OutboxJob) → Keeps (execute db sha256 public_base_url message env j)
  unfolding execute
  execute-Keeps env j =
      Keeps-if (is_contact j.type)
        (send_contact db sha256 public_base_url message env j.contact_message_id)
        (execute_order db sha256 public_base_url message env j.type (truthy j.order_id))
        (send_contact-Keeps env j.contact_message_id)
        (execute_order-Keeps env j.type (truthy j.order_id))

  alert-Keeps :
      (env : Env) (id : String) (type : JobType) (text : String)
      → Keeps (λ s.
        alert db sha256 public_base_url message env type text
          (db.order.find_first (has_id id) s.orders)
          s)
  alert-Keeps env id type text s = elim (Option-cases (db.order.find_first (has_id id) s.orders)) [
    | inl p ↦ rw (p, alert) (Progress.same refl)
    | inr (o, p) ↦ rw (p, alert) (Progress.same refl)
  ]

  escalate-Keeps :
      (env : Env) (id : String) (type : JobType) (text : String)
      → Keeps (escalate db sha256 public_base_url message env id type text)
  unfolding escalate
  escalate-Keeps env id type text =
      let ring : M (Unit {0}) = λ s.
        alert db sha256 public_base_url message env type text
          (db.order.find_first (has_id id) s.orders) s in
      Keeps-then {B = Unit {0}} (update_order db env id (mark_needs_review type text))
        (catch ring (λ e. pure tt))
        (Keeps-update_order db env id _ (needs_review-Careful id type text))
        (Keeps-catch {A = Unit {0}} ring (λ e. pure tt) (alert-Keeps env id type text)
          (λ e s. Progress.same refl))

  update_job-Keeps :
      (id : String) (f : OutboxJob → OutboxJob)
      → Keeps (update_job db sha256 public_base_url message id f)
  update_job-Keeps id f s = elim (Result-cases (db.outbox_job.update (job_is id) f s.jobs)) [
    | inl (t, p) ↦ rw (p, set_jobs) (Progress.same refl)
    | inr (e, p) ↦ rw (p, set_jobs) (Progress.same refl)
  ]

  give_up-Keeps :
      (env : Env) (j : OutboxJob) (type : JobType) (text : String)
      → Keeps (give_up db sha256 public_base_url message env j type text)
  give_up-Keeps env j type text s = elim (Option-cases (truthy j.order_id)) [
    | inl p ↦ rw (p, give_up) (Progress.same refl)
    | inr (id, p) ↦
        rw (p, give_up)
          (Keeps-then {B = Outcome} (escalate db sha256 public_base_url message env id type text)
            (pure failed) (escalate-Keeps env id type text) (λ t. Progress.same refl) s)
  ]

  record_failure-Keeps :
      (env : Env) (j : OutboxJob) (e : Failure)
      → Keeps (record_failure db sha256 public_base_url message env j e)
  unfolding record_failure
  record_failure-Keeps env j e s =
      elim (Option-cases (db.outbox_job.find_first (job_is j.id) s.jobs)) [
        | inl p ↦ rw (p, record_failure_of) (Progress.same refl)
        | inr (row, p) ↦
            let over : Bool = leb row.max_attempts (row.attempts + 1) in
            let last : M Outcome =
              give_up db sha256 public_base_url message env j row.type (message e) in
            rw (p, record_failure_of)
              (Keeps-then {B = Outcome}
                (update_job db sha256 public_base_url message j.id
                  (fail_once env (message e) (row.attempts + 1) row.max_attempts))
                (if over then last else pure retrying) (update_job-Keeps j.id _)
                (Keeps-if over last (pure retrying) (give_up-Keeps env j row.type (message e))
                  (λ t. Progress.same refl))
                s)
      ]

  pub process-Keeps :
      (env : Env) (j : OutboxJob) → Keeps (process db sha256 public_base_url message env j)
  unfolding process
  process-Keeps env j =
      Keeps-catch {A = Outcome} (attempt db sha256 public_base_url message env j)
        (record_failure db sha256 public_base_url message env j)
        (Keeps-then {B = Outcome} (execute db sha256 public_base_url message env j)
          (update_job db sha256 public_base_url message j.id (finish env.now) >> pure done)
          (execute-Keeps env j)
          (Keeps-then {B = Outcome}
            (update_job db sha256 public_base_url message j.id (finish env.now)) (pure done)
            (update_job-Keeps j.id _) (λ t. Progress.same refl)))
        (record_failure-Keeps env j)

  run_jobs-Keeps :
      (at : ℕ → Env) (k : ℕ) (js : List OutboxJob) (r : OutboxRunSummary)
      → Keeps (run_jobs db sha256 public_base_url message at k js r)
  unfolding run_jobs
  run_jobs-Keeps at k [] r = λ s. Progress.same refl
  run_jobs-Keeps at k (j ∷ js) r =
      Keeps-bind {A = Outcome} {B = OutboxRunSummary}
        (process db sha256 public_base_url message (at k) j)
        (λ o. run_jobs db sha256 public_base_url message at (suc k) js (tally o r))
        (process-Keeps (at k) j) (λ o. run_jobs-Keeps at (suc k) js (tally o r))

  claim_batch-Keeps : (env : Env) → Keeps (claim_batch db sha256 public_base_url message env)
  unfolding claim_batch take_batch
  claim_batch-Keeps env s = elim (List-cases (candidates db sha256 public_base_url message env s)) [
    | inl p ↦ rw (p, take_batch) (Progress.same refl)
    | inr (c, cs, p) ↦ rw (p, take_batch) (Progress.same refl)
  ]

  pub run_pending-Keeps :
      (at : ℕ → Env) (running : Bool)
      → Keeps (run_pending db sha256 public_base_url message at running)
  unfolding run_pending
  run_pending-Keeps at true = λ s. Progress.same refl
  run_pending-Keeps at false =
      Keeps-bind {A = List OutboxJob} {B = OutboxRunSummary}
        (claim_batch db sha256 public_base_url message (at 0))
        (λ js.
          run_jobs db sha256 public_base_url message at 1 js
            (record { taken = length js; done = 0; failed = 0; retrying = 0 }))
        (claim_batch-Keeps (at 0))
        (λ js.
          run_jobs-Keeps at 1 js (record { taken = length js; done = 0; failed = 0; retrying = 0 }))
