-- ===== src/Reconciliation/Summary.antt =====
-- The counts that a pass of the reconciliation reports.
use kori_backend.Payments.{handle_session_expired, handle_payment_succeeded, PaymentIntent}
use kori_backend.Prelude.{
  true, false, if◌then◌else◌, refl, [], ◌∙◌, none, suc, inr, Bool-cases, ◌∷◌, inl, truthy, arith,
  ◌≤◌, some, length, Option-cases, List, Option, ◌+◌, String, ◌≡◌, ℕ, Bool,
}
use kori_backend.Reconciliation.{
  SessionStatus, sin_sesion_note, empty_resumen, cancelar, lote, is_overdue, recover, run, revisar,
  resolver, conciliar_todos, StripeSession, ResumenConciliacion,
}
use kori_backend.Database.{pure, M-cases, ok, Store, Order, Env, Prisma}

-- Every way in which an order of a pass can end, together.
abbrev pub resueltos : ResumenConciliacion → ℕ
resueltos r = r.recuperados + r.caducados + r.sin_sesion + r.en_curso + r.fallos

-- One more order ended, and the number of orders under review is the same.
abbrev Counts : ResumenConciliacion → ResumenConciliacion → Type 0
Counts r r' = (resueltos r' ≡ resueltos r + 1) × (r'.revisados ≡ r.revisados)

module _ (db : Prisma) (has_stripe : Bool) (retrieve : String → Option StripeSession) where
  recover-Counts :
      (env : Env) (p : Option PaymentIntent) (r r' : ResumenConciliacion) (s s' : Store)
      → recover db has_stripe retrieve env p r s ≡ (s', ok r')
      → Counts r r'
  recover-Counts env none r r' s s' h = cc
  recover-Counts env (some intent) r r' s s' h =
      elim (M-cases (handle_payment_succeeded db env intent s)) [
        | inr (t, e, p) ↦ let bad = (rw p at h) in cc
        | inl (t, a, p) ↦
            let h' = (rw p at h) in
            let e : record r { recuperados = r.recuperados + 1 } ≡ r' = cc in
            rw (← e) (omega arith, refl)
      ]

  resolver-Counts :
      (env : Env) (sesion : StripeSession) (r r' : ResumenConciliacion) (s s' : Store)
      → resolver db has_stripe retrieve env sesion r s ≡ (s', ok r')
      → Counts r r'
  unfolding resolver
  resolver-Counts env sesion r r' s s' h = go sesion.status refl
    where
      go : (status : SessionStatus) → sesion.status ≡ status → Counts r r'
      go SessionStatus.still_open p =
          let h' = (rw (p, resolver) at h) in
          let e : record r { en_curso = r.en_curso + 1 } ≡ r' = cc in rw (← e) (omega arith, refl)
      go SessionStatus.complete p = elim (Bool-cases sesion.is_paid) [
        | inl q ↦
            recover-Counts env sesion.payment_intent r r' s s' (rw q at (rw (p, resolver) at h))
        | inr q ↦
            let h' = (rw q at (rw (p, resolver) at h)) in
            let e : record r { en_curso = r.en_curso + 1 } ≡ r' = cc in rw (← e) (omega arith, refl)
      ]
      go SessionStatus.expired p = elim (M-cases (handle_session_expired db env sesion.session s)) [
        | inr (t, e, q) ↦ let bad = (rw q at (rw (p, resolver) at h)) in cc
        | inl (t, a, q) ↦
            let h' = (rw q at (rw (p, resolver) at h)) in
            let e : record r { caducados = r.caducados + 1 } ≡ r' = cc in
            rw (← e) (omega arith, refl)
      ]

  revisar-Counts :
      (env : Env) (pedido : Order) (r r' : ResumenConciliacion) (s s' : Store)
      → revisar db has_stripe retrieve env pedido r s ≡ (s', ok r')
      → Counts r r'
  unfolding revisar
  revisar-Counts env pedido r r' s s' h = elim (Option-cases (truthy pedido.checkout_session_id)) [
    | inl p ↦ elim (M-cases (cancelar db has_stripe retrieve env pedido.id sin_sesion_note s)) [
      | inr (t, e, q) ↦ let bad = (rw q at (rw (p, revisar) at h)) in cc
      | inl (t, a, q) ↦
          let h' = (rw q at (rw (p, revisar) at h)) in
          let e : record r { sin_sesion = r.sin_sesion + 1 } ≡ r' = cc in
          rw (← e) (omega arith, refl)
    ]
    | inr (id, p) ↦ elim (Option-cases (retrieve id)) [
      | inl q ↦ let bad = (rw q at (rw (p, revisar) at h)) in cc
      | inr (sesion, q) ↦ resolver-Counts env sesion r r' s s' (rw q at (rw (p, revisar) at h))
    ]
  ]

  conciliar_todos-counts :
      (at : ℕ → Env) (k : ℕ) (ps : List Order) (r : ResumenConciliacion) (s : Store)
      → (s' : Store) × (r' : ResumenConciliacion) × (conciliar_todos db has_stripe retrieve at k ps
            r s
          ≡ (s', ok r'))
        × (resueltos r' ≡ resueltos r + length ps)
        × (r'.revisados ≡ r.revisados)
  unfolding conciliar_todos
  conciliar_todos-counts at k [] r s = (s, r, refl, omega arith, refl)
  conciliar_todos-counts at k (p ∷ ps) r s =
      elim (M-cases (revisar db has_stripe retrieve (at k) p r s)) [
        | inl (t, next, q) ↦
            let (s', r', e, total, same) = conciliar_todos-counts at (suc k) ps next t in
            let (one, kept) = revisar-Counts (at k) p r next s t q in
            (s', r', rw q e, omega arith, same ∙ kept)
        | inr (t, f, q) ↦
            let next : ResumenConciliacion = record r { fallos = r.fallos + 1 } in
            let (s', r', e, total, same) = conciliar_todos-counts at (suc k) ps next t in
            (s', r', rw q e, omega arith, same)
      ]

  -- A pass of the reconciliation always ends with a summary: no order's failure stops it. It
  -- reviews at most fifty orders, and counts each exactly once, as recovered, expired, without a
  -- session, still open or failed.
  pub run_accounts :
      (at : ℕ → Env) (s : Store)
      → (s' : Store) × (r : ResumenConciliacion) × (run db has_stripe retrieve at s ≡ (s', ok r))
        × (r.revisados ≡ r.recuperados + r.caducados + r.sin_sesion + r.en_curso + r.fallos)
        × (r.revisados ≤ 50)
  unfolding run
  run_accounts at s =
      let pendientes =
        db.order.find_many (is_overdue (at 0).now) (λ o. o.created_at) lote s.orders in
      let few =
        db.order.find_many_length (is_overdue (at 0).now) (λ o. o.created_at) lote s.orders in
      go pendientes few has_stripe
    where
      go :
          (ps : List Order)
          → length ps ≤ 50
          → (b : Bool)
          → (s' : Store) × (r : ResumenConciliacion) × ((if b
                  then conciliar_todos db has_stripe retrieve at 1 ps
                      (record empty_resumen { revisados = length ps })
                  else pure empty_resumen)
                s
              ≡ (s', ok r))
            × (r.revisados ≡ r.recuperados + r.caducados + r.sin_sesion + r.en_curso + r.fallos)
            × (r.revisados ≤ 50)
      go ps few false = (s, empty_resumen, refl, refl, omega arith)
      go ps few true =
          let (s', r, e, total, same) =
            conciliar_todos-counts at 1 ps (record empty_resumen { revisados = length ps }) s in
          (s', r, e, omega arith, omega arith)
