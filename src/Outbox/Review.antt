-- ===== src/Outbox/Review.antt =====
-- What a job leaves behind that has used up its attempts.
use kori_backend.Payments.{set_orders, has_id}
use kori_backend.Outbox.{
  stuck_body, stuck_subject, set_jobs, finish, mark_needs_review, job_is, fail_once, execute,
  record_failure_of, give_up, attempt, alert, Outcome, record_failure, process, escalate,
}
use kori_backend.Prelude.{
  leb, Bool-cases, refl, All-after_update, ◌+◌, none, Option-cases, inl, true, inr, All, some, ◌≡◌,
  truthy, Option, String,
}
use kori_backend.Database.{
  needs_review, admin_alert, Result-cases, pure, M-cases, ok, catch, Store, Order, OutboxJob,
  JobType, Env, Failure, Prisma,
}

module _ (db : Prisma) (sha256 : String → String) (public_base_url : Option String)
    (message : Failure → String) where
  attempt-done :
      (env : Env) (j : OutboxJob) (s s' : Store) (o : Outcome)
      → attempt db sha256 public_base_url message env j s ≡ (s', ok o)
      → o ≡ Outcome.done
  attempt-done env j s s' o h = elim (M-cases (execute db sha256 public_base_url message env j s)) [
    | inr (t, e, p) ↦ let bad = (rw p at h) in cc
    | inl (t, u, p) ↦
        elim (Result-cases (db.outbox_job.update (job_is j.id) (finish env.now) t.jobs)) [
          | inr (e, q) ↦ let bad = (rw (q, set_jobs) at (rw p at h)) in cc
          | inl (js, q) ↦ let h' = (rw (q, set_jobs) at (rw p at h)) in cc
        ]
  ]

  alert_failure-store :
      (env : Env) (type : JobType) (text : String) (o : Option Order) (s : Store)
      → catch (alert db sha256 public_base_url message env type text o) (λ e. pure tt) s
        ≡ (s, ok tt)
  alert_failure-store env type text none s = refl
  alert_failure-store env type text (some o) s =
      elim (Result-cases (env.send (admin_alert (stuck_subject type o) (stuck_body type text o)))) [
        | inl (u, p) ↦ rw p refl
        | inr (e, p) ↦ rw p refl
      ]

  escalate-reviews :
      (env : Env) (id : String) (type : JobType) (text : String) (s s' : Store)
      → escalate db sha256 public_base_url message env id type text s ≡ (s', ok tt)
      → All (λ o. has_id id o ≡ true → o.status ≡ needs_review) s'.orders
  unfolding escalate
  escalate-reviews env id type text s s' h =
      elim (Result-cases (db.order.update (has_id id) (mark_needs_review type text) s.orders)) [
        | inr (e, p) ↦ let bad = (rw (p, set_orders) at h) in cc
        | inl (t, p) ↦
            let s1 : Store = record s { orders = t } in
            let h' = (rw (p, set_orders) at h) in
            let h'' =
              (rw (alert_failure-store env type text (db.order.find_first (has_id id) t) s1) at
                h') in
            let e : s1 ≡ s' = cc in
            rw (← e) (
              rw (db.order.update_ok _ _ _ t p) (
                All-after_update (λ o. has_id id o ≡ true → o.status ≡ needs_review) (has_id id)
                  (mark_needs_review type text) s.orders (λ r a b. refl) (λ r a b. cc)))
      ]

  give_up-reviews :
      (env : Env) (j : OutboxJob) (type : JobType) (text id : String) (s s' : Store) (o : Outcome)
      → truthy j.order_id ≡ some id
      → give_up db sha256 public_base_url message env j type text s ≡ (s', ok o)
      → All (λ o. has_id id o ≡ true → o.status ≡ needs_review) s'.orders
  give_up-reviews env j type text id s s' o p h =
      elim (M-cases (escalate db sha256 public_base_url message env id type text s)) [
        | inr (t, e, q) ↦ let bad = (rw q at (rw (p, give_up) at h)) in cc
        | inl (t, u, q) ↦
            let h' = (rw q at (rw (p, give_up) at h)) in
            let e : t ≡ s' = cc in escalate-reviews env id type text s s' (rw e at q)
      ]

  failed_row :
      (env : Env) (j : OutboxJob) (id : String) (e : Failure) (row : OutboxJob) (s s' : Store)
      → truthy j.order_id ≡ some id
      → record_failure_of db sha256 public_base_url message env j e (some row) s
        ≡ (s', ok Outcome.failed)
      → All (λ o. has_id id o ≡ true → o.status ≡ needs_review) s'.orders
  failed_row env j id e row s s' p h =
      let patch = fail_once env (message e) (row.attempts + 1) row.max_attempts in
      elim (Result-cases (db.outbox_job.update (job_is j.id) patch s.jobs)) [
        | inr (f, q) ↦ let bad = (rw (q, set_jobs) at h) in cc
        | inl (t, q) ↦ elim (Bool-cases (leb row.max_attempts (row.attempts + 1))) [
          | inr r ↦ let bad = (rw r at (rw (q, set_jobs) at h)) in cc
          | inl r ↦
              give_up-reviews env j row.type (message e) id (record s { jobs = t }) s'
                Outcome.failed p (rw r at (rw (q, set_jobs) at h))
        ]
      ]

  -- A job of an order that ends as failed, its attempts used up, leaves every row with the order's
  -- identifier in NEEDS_REVIEW, whether or not the alert's mail could be sent.
  pub failed_job_needs_review :
      (env : Env) (j : OutboxJob) (id : String) (s s' : Store)
      → truthy j.order_id ≡ some id
      → process db sha256 public_base_url message env j s ≡ (s', ok Outcome.failed)
      → All (λ o. has_id id o ≡ true → o.status ≡ needs_review) s'.orders
  unfolding process record_failure
  failed_job_needs_review env j id s s' p h =
      elim (M-cases (attempt db sha256 public_base_url message env j s)) [
        | inl (t, o, q) ↦
            let e = attempt-done env j s t o q in let bad = (rw (q, process) at h) in cc
        | inr (t, e, q) ↦ elim (Option-cases (db.outbox_job.find_first (job_is j.id) t.jobs)) [
          | inl r ↦ let bad = (rw (r, record_failure) at (rw (q, process) at h)) in cc
          | inr (row, r) ↦
              failed_row env j id e row t s' p (rw (r, record_failure) at (rw (q, process) at h))
        ]
      ]
