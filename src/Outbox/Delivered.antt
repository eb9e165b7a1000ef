-- ===== src/Outbox/Delivered.antt =====
-- What a delivery job leaves behind that went through.
use kori_backend.Orders.Delivery.{emitir_enlaces}
use kori_backend.Payments.{set_orders, has_id, update_order}
use kori_backend.Outbox.{
  set_jobs, finish, job_is, Outcome, attempt, mark_delivered, execute_for, execute,
}
use kori_backend.Prelude.{
  ℕ, length, ◌∷◌, refl, List-cases, All-after_update, inl, inr, Option-cases, some, truthy, true,
  ◌≡◌, All, Option, String,
}
use kori_backend.Database.{
  download_links, delivered, Result-cases, M-cases, ok, deliver_digital, OutboxJob, Order, Store,
  Env, Failure, Prisma,
}

module _ (db : Prisma) (sha256 : String → String) (public_base_url : Option String)
    (message : Failure → String) where
  -- The rows with the identifier are delivered.
  abbrev AllDelivered : String → Store → Type 0
  AllDelivered id s = All (λ o. has_id id o ≡ true → o.status ≡ delivered) s.orders

  update_order-AllDelivered :
      (env : Env) (id : String) (count : ℕ) (s s' : Store)
      → update_order db env id (mark_delivered env.now count) s ≡ (s', ok tt)
      → AllDelivered id s'
  update_order-AllDelivered env id count s s' h =
      elim (Result-cases (db.order.update (has_id id) (mark_delivered env.now count) s.orders)) [
        | inr (e, p) ↦ let bad = (rw (p, set_orders) at h) in cc
        | inl (t, p) ↦
            let h' = (rw (p, set_orders) at h) in
            let e : record s { orders = t } ≡ s' = cc in
            rw (← e) (
              rw (db.order.update_ok _ _ _ t p) (
                All-after_update (λ o. has_id id o ≡ true → o.status ≡ delivered) (has_id id)
                  (mark_delivered env.now count) s.orders (λ r a b. refl) (λ r a b. cc)))
      ]

  execute_for-AllDelivered :
      (env : Env) (id : String) (o : Order) (s s' : Store)
      → execute_for db sha256 public_base_url message env deliver_digital id o s ≡ (s', ok tt)
      → AllDelivered id s'
  unfolding execute_for
  execute_for-AllDelivered env id o s s' h =
      elim (M-cases (emitir_enlaces db sha256 public_base_url env o s)) [
        | inr (t, e, p) ↦ let bad = (rw (p, execute_for) at h) in cc
        | inl (t, links, p) ↦ elim (List-cases links) [
          | inl q ↦ let bad = (rw q at (rw (p, execute_for) at h)) in cc
          | inr (l, ls, q) ↦ elim (Result-cases (env.send (download_links o (l ∷ ls)))) [
            | inr (e, r) ↦ let bad = (rw r at (rw q at (rw (p, execute_for) at h))) in cc
            | inl (u, r) ↦
                update_order-AllDelivered env id (length (l ∷ ls)) t s'
                  (rw r at (rw q at (rw (p, execute_for) at h)))
          ]
        ]
      ]

  execute-AllDelivered :
      (env : Env) (j : OutboxJob) (id : String) (s s' : Store)
      → j.type ≡ deliver_digital
      → truthy j.order_id ≡ some id
      → execute db sha256 public_base_url message env j s ≡ (s', ok tt)
      → AllDelivered id s'
  unfolding execute
  execute-AllDelivered env j id s s' k p h =
      let h1 = (rw (k, execute) at h) in
      let h2 = (rw p at h1) in
      elim (Option-cases (db.order.find_first (has_id id) s.orders)) [
        | inl q ↦ let bad = (rw q at h2) in cc
        | inr (o, q) ↦ execute_for-AllDelivered env id o s s' (rw q at h2)
      ]

  -- A digital delivery that goes through leaves every row with the order's identifier DELIVERED,
  -- whatever state the order was in.
  pub delivery_marks_delivered :
      (env : Env) (j : OutboxJob) (id : String) (s s' : Store)
      → j.type ≡ deliver_digital
      → truthy j.order_id ≡ some id
      → attempt db sha256 public_base_url message env j s ≡ (s', ok Outcome.done)
      → All (λ o. has_id id o ≡ true → o.status ≡ delivered) s'.orders
  delivery_marks_delivered env j id s s' k p h =
      elim (M-cases (execute db sha256 public_base_url message env j s)) [
        | inr (t, e, q) ↦ let bad = (rw q at h) in cc
        | inl (t, u, q) ↦
            elim (Result-cases (db.outbox_job.update (job_is j.id) (finish env.now) t.jobs)) [
              | inr (e, r) ↦ let bad = (rw (r, set_jobs) at (rw q at h)) in cc
              | inl (js, r) ↦
                  let h' = (rw (r, set_jobs) at (rw q at h)) in
                  let e : record t { jobs = js } ≡ s' = cc in
                  rw (← e) (execute-AllDelivered env j id s t k p q)
            ]
      ]
