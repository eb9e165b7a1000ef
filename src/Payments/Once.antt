-- ===== src/Payments/Once.antt =====
-- What a payment, a refund and an expired session leave behind.
use kori_backend.Payments.Effects.{
  handle_charge_refunded-outcome, refunded_store, RefundOutcome, handle_session_expired-eq,
  refund_target, paid_store, PaymentOutcome, handle_payment_succeeded-outcome, Settleable,
}
use kori_backend.Payments.{
  revoke, mark_refunded, is_live, cancel, owns, handle_charge_refunded, new_job,
  handle_session_expired, delivery_job, awaits, CheckoutSession, Charge, dedupe_key, has_id,
  handle_payment_succeeded, PaymentIntent, mark_paid,
}
use kori_backend.Database.{
  refunded, send_order_confirmation, Result, OutboxJob_clash, paid, ok, Store, Order, OutboxJob,
  Env, Prisma,
}
use kori_backend.Prelude.{
  any-false, ◌&&◌, update_where-none, count_where-none, ◌≤◌, eq_iff, arith, any-append, false,
  All-mem, ◌⊎◌, ◌∙◌, discard-update_where, sym, discard, All-after_update, update_where,
  any-append_left, [], ◌++◌, inr, inl, Bool-cases, ◌∷◌, All, append_new, true, some, refl, ◌≡◌,
  truthy, str_eq, any, Bool, ℕ, String, List,
}

-- The order has the payment: this intent, at this time.
abbrev pub IsPaidBy : ℕ → PaymentIntent → Order → Type 0
IsPaidBy now intent o =
    (o.status ≡ paid) × (o.paid_at ≡ some now) × (o.payment_intent_id ≡ some intent.id)

abbrev pub job_key_is : String → OutboxJob → Bool
job_key_is key j = str_eq key j.dedupe_key

-- Of a list of new rows, one whose key is there already is left out, and each other is added.
append_new-job :
    (js t : List OutboxJob) (key : String)
    → any (job_key_is key) t ≡ true
    → any (job_key_is key) (append_new OutboxJob_clash js t) ≡ true
append_new-job [] t key h = h
append_new-job (j ∷ js) t key h = elim (Bool-cases (any (OutboxJob_clash j) t)) [
  | inl e ↦ rw e (append_new-job js t key h)
  | inr e ↦
      rw e (append_new-job js (t ++ j ∷ []) key (any-append_left (job_key_is key) t (j ∷ []) h))
]

abbrev pub job_id_is : String → OutboxJob → Bool
job_id_is id j = str_eq id j.id

clash-key :
    (j : OutboxJob) (t : List OutboxJob)
    → any (job_id_is j.id) t ≡ false
    → any (OutboxJob_clash j) t ≡ true
    → any (job_key_is j.dedupe_key) t ≡ true
clash-key j [] h k = k
clash-key j (x ∷ t) h k = ground (arith, clash-key j t)

-- A new row with a fresh identifier is in the table afterwards, or one with its key was.
append_new-head :
    (j : OutboxJob) (js t : List OutboxJob)
    → any (job_id_is j.id) t ≡ false
    → any (job_key_is j.dedupe_key) (append_new OutboxJob_clash (j ∷ js) t) ≡ true
append_new-head j js t fresh = elim (Bool-cases (any (OutboxJob_clash j) t)) [
  | inl e ↦ rw e (append_new-job js t j.dedupe_key (clash-key j t fresh e))
  | inr e ↦ rw e (
      append_new-job js (t ++ j ∷ []) j.dedupe_key
        (rw any-append (ground (arith, eq_iff j.dedupe_key j.dedupe_key))))
]

append_new-second :
    (i j : OutboxJob) (t : List OutboxJob)
    → any (job_id_is j.id) t ≡ false
    → str_eq j.id i.id ≡ false
    → any (job_key_is j.dedupe_key) (append_new OutboxJob_clash (i ∷ j ∷ []) t) ≡ true
append_new-second i j t fresh apart = elim (Bool-cases (any (OutboxJob_clash i) t)) [
  | inl e ↦ rw e (append_new-head j [] t fresh)
  | inr e ↦ rw e (append_new-head j [] (t ++ i ∷ []) (rw any-append (ground arith)))
]

mark_paid_lem :
    (now : ℕ) (intent : PaymentIntent) (read o : Order)
    → IsPaidBy now intent (mark_paid now intent read o)
unfolding mark_paid
mark_paid_lem now intent read o = (refl, refl, refl)

mark_paid_id :
    (now : ℕ) (intent : PaymentIntent) (read o : Order) → (mark_paid now intent read o).id ≡ o.id
unfolding mark_paid
mark_paid_id now intent read o = refl

mark_paid-has_id :
    (now : ℕ) (intent : PaymentIntent) (read o : Order) (id : String)
    → has_id id o ≡ true
    → has_id id (mark_paid now intent read o) ≡ true
mark_paid-has_id now intent read o id h = rw mark_paid_id h

module _ (db : Prisma) (env : Env) where
  paid_orders :
      (intent : PaymentIntent) (id : String) (o : Order) (t : List Order)
      → All
          (λ r. has_id id r ≡ true → IsPaidBy env.now intent r)
          (update_where (has_id id) (mark_paid env.now intent o) t)
  paid_orders intent id o t =
      All-after_update (λ r. has_id id r ≡ true → IsPaidBy env.now intent r) (has_id id)
        (mark_paid env.now intent o) t (λ r h k. mark_paid_lem env.now intent o r) (λ r h k. cc)

  outcome-of_ok :
      (intent : PaymentIntent) (s s' : Store) {r : Store × Result (Unit {0})}
      → PaymentOutcome db env intent s r
      → r ≡ (s', ok tt)
      → (((id : String) (o : Order) → Settleable db env intent s id o → ⊥) × (s' ≡ s))
        ⊎ ((id : String) × (o : Order) × Settleable db env intent s id o
            × (s' ≡ paid_store db env intent id o s))
  outcome-of_ok intent s s' (PaymentOutcome.refused e id o c p) h = cc
  outcome-of_ok intent s s' (PaymentOutcome.ignored c p) h = inl (c, cc)
  outcome-of_ok intent s s' (PaymentOutcome.confirmed id o c p) h = inr (id, o, c, cc)

  not-Settleable-ignored :
      (intent : PaymentIntent) (s : Store) {r : Store × Result (Unit {0})}
      → ((id : String) (o : Order) → Settleable db env intent s id o → ⊥)
      → PaymentOutcome db env intent s r
      → r ≡ (s, ok tt)
  not-Settleable-ignored intent s k (PaymentOutcome.refused e id o c p) = absurd (k id o c)
  not-Settleable-ignored intent s k (PaymentOutcome.ignored c p) = p
  not-Settleable-ignored intent s k (PaymentOutcome.confirmed id o c p) = absurd (k id o c)

  -- A payment that is handled without an exception, for an order that was pending, leaves every
  -- row with the order's identifier PAID, with the time of the call and the PaymentIntent, and
  -- every other row as it was.
  pub payment_marks_order :
      (intent : PaymentIntent) (id : String) (o : Order) (s s' : Store)
      → Settleable db env intent s id o
      → handle_payment_succeeded db env intent s ≡ (s', ok tt)
      → All (λ r. has_id id r ≡ true → IsPaidBy env.now intent r) s'.orders
        × (discard (has_id id) s'.orders ≡ discard (has_id id) s.orders)
  payment_marks_order intent id o s s' c h =
      elim (outcome-of_ok intent s s' (handle_payment_succeeded-outcome db env intent s) h) [
        | inl (k, e) ↦ absurd (k id o c)
        | inr (id', o', c', e) ↦
            let same : id' ≡ id = let a = c.0 in let b = c'.0 in cc in
            rw (e, same)
              (
                paid_orders intent id o' s.orders,
                discard-update_where (has_id id) _ s.orders
                    (λ r k. mark_paid-has_id env.now intent o' r id k),
              )
      ]

  -- A payment that is handled without an exception, for an order that was pending, leaves in the
  -- queue a job under the key of the confirmation mail and one under
  -- the key of the delivery, which is the digital one exactly where the order has items and all
  -- are digital. The two generated identifiers are new.
  pub payment_enqueues_jobs :
      (intent : PaymentIntent) (id : String) (o : Order) (s s' : Store)
      → Settleable db env intent s id o
      → any (job_id_is (env.uuid 0)) s.jobs ≡ false
      → any (job_id_is (env.uuid 1)) s.jobs ≡ false
      → str_eq (env.uuid 1) (env.uuid 0) ≡ false
      → handle_payment_succeeded db env intent s ≡ (s', ok tt)
      → (any (job_key_is (dedupe_key send_order_confirmation id)) s'.jobs ≡ true)
        × ((read : Order) × (db.order.find_first (has_id id) s.orders ≡ some read)
            × (any (job_key_is (dedupe_key (delivery_job read) id)) s'.jobs ≡ true))
  payment_enqueues_jobs intent id o s s' c fresh0 fresh1 apart h =
      elim (outcome-of_ok intent s s' (handle_payment_succeeded-outcome db env intent s) h) [
        | inl (k, e) ↦ absurd (k id o c)
        | inr (id', o', c', e) ↦
            let same : id' ≡ id = let a = c.0 in let b = c'.0 in cc in
            let first = new_job (env.uuid 0) env.now send_order_confirmation id in
            let second = new_job (env.uuid 1) env.now (delivery_job o') id in
            rw (e, same)
              (
                append_new-head first (second ∷ []) s.jobs fresh0,
                (o', rw same at c'.1, append_new-second first second s.jobs fresh1 apart),
              )
      ]

-- A payment that was handled without an exception is handled once: any later payment for the same
-- order, of the same or of another PaymentIntent, changes no table.
pub payment_once :
    (db : Prisma) (env later : Env) (intent intent' : PaymentIntent) (s s' : Store)
    → handle_payment_succeeded db env intent s ≡ (s', ok tt)
    → truthy intent'.order_id ≡ truthy intent.order_id
    → handle_payment_succeeded db later intent' s' ≡ (s', ok tt)
payment_once db env later intent intent' s s' h e =
    elim (outcome-of_ok db env intent s s' (handle_payment_succeeded-outcome db env intent s) h) [
      | inl (k, same) ↦ rw same (
          not-Settleable-ignored db later intent' s (λ id o c. k id o (sym e ∙ c.0, c.1, c.2))
            (handle_payment_succeeded-outcome db later intent' s))
      | inr (id, o, c, same) ↦ rw same (
          not-Settleable-ignored db later intent' (paid_store db env intent id o s)
            (λ id' o' c'.
              let found = db.order.find_first_some (has_id id') _ o' c'.1 in
              let same_id : id' ≡ id = let a = c'.0 in let b = c.0 in cc in
              let is_paid =
                All-mem (λ r. has_id id r ≡ true → IsPaidBy env.now intent r) _
                  (paid_orders db env intent id o s.orders) found.0 (rw same_id at found.1) in
              let live = c'.2 in let status = is_paid.0 in cc)
            (handle_payment_succeeded-outcome db later intent' (paid_store db env intent id o s)))
    ]

-- A full refund that is handled without an exception leaves every row with the order's identifier
-- REFUNDED, and no live download grant for any of its items.
pub full_refund_revokes :
    (db : Prisma) (env : Env) (charge : Charge) (o : Order) (s s' : Store)
    → refund_target db env charge s.orders ≡ some o
    → charge.amount ≤ charge.amount_refunded
    → handle_charge_refunded db env charge s ≡ (s', ok tt)
    → All (λ r. has_id o.id r ≡ true → r.status ≡ refunded) s'.orders
      × (any (λ g. owns o.items g && is_live g) s'.grants ≡ false)
full_refund_revokes db env charge o s s' found full h =
    go (handle_charge_refunded-outcome db env charge s) h
  where
    go :
        {r : Store × Result (Unit {0})}
        → RefundOutcome db env charge s r
        → r ≡ (s', ok tt)
        → All (λ r. has_id o.id r ≡ true → r.status ≡ refunded) s'.orders
          × (any (λ g. owns o.items g && is_live g) s'.grants ≡ false)
    go (RefundOutcome.refused e p) h = cc
    go (RefundOutcome.ignored (inl missing) p) h = cc
    go (RefundOutcome.ignored (inr partial) p) h = absurd (omega arith)
    go (RefundOutcome.confirmed o' f k p) h =
        let same : o' ≡ o = cc in
        let e : s' ≡ refunded_store db env charge o' s = cc in
        rw (e, same)
          (
            All-after_update (λ r. has_id o.id r ≡ true → r.status ≡ refunded) (has_id o.id)
                (mark_refunded charge) s.orders (λ r a b. refl) (λ r a b. cc),
            any-false (λ g. owns o.items g && is_live g) _
                (All-after_update (λ g. (owns o.items g && is_live g) ≡ false)
                  (λ g. owns o.items g && is_live g) (revoke env.now) s.grants (λ g a. ground arith)
                  (λ g a. a)),
          )

-- A session that expires when no row with the order's identifier is pending changes no table: a
-- late expiry never cancels an order that was paid meanwhile.
pub late_expiry_ignored :
    (db : Prisma) (env : Env) (session : CheckoutSession) (id : String) (s : Store)
    → truthy session.order_id ≡ some id
    → any (awaits id) s.orders ≡ false
    → handle_session_expired db env session s ≡ (s, ok tt)
late_expiry_ignored db env session id s p h = rw handle_session_expired-eq (
    rw p (
      rw
        (count_where-none (awaits id) s.orders h, update_where-none (awaits id) cancel s.orders h)))
