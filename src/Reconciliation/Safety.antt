-- ===== src/Reconciliation/Safety.antt =====
-- The reconciliation and the purge write the orders table by progress alone.
use kori_backend.Payments.Safety.{
  add_event-Careful, handle_session_expired-Keeps, handle_payment_succeeded-Keeps,
}
use kori_backend.Payments.{
  add_event, has_id, handle_session_expired, handle_payment_succeeded, note_if, cancel,
  PaymentIntent,
}
use kori_backend.Orders.Rules.{Keeps-if, Keeps-catch, Keeps-then, Keeps-bind, Keeps}
use kori_backend.Orders.Progress.{steps, patch, purge, Progress, Careful}
use kori_backend.Reconciliation.{
  expired, complete, resolve_found, sin_sesion_note, empty_resumen, still_open, lote, recover,
  is_overdue, is_abandoned, SessionStatus, is_cancellable, ResumenConciliacion, run, revisar,
  resolver, reconcile, purgar_sin_cobro, conciliar_todos, cancelar, StripeSession,
}
use kori_backend.Prelude.{
  ◌==◌, none, [], inr, count_where, update_where, suc, if◌then◌else◌, Bool-cases, ◌+◌, length, ◌∷◌,
  some, inl, truthy, refl, arith, Option-cases, List, ℕ, Option, String, Bool,
}
use kori_backend.Database.{◌>>◌, catch, cancelled, pure, ◌>>=◌, Store, Order, Env, Prisma}

module _ (db : Prisma) (has_stripe : Bool) (retrieve : String → Option StripeSession) where
  note_if-Progress :
      (env : Env) (id note : String) (p : Order → Bool) (s : Store)
      → Careful p cancel
      → Progress s.orders
          (note_if db env id cancelled note s
            (update_where p cancel s.orders, count_where p s.orders)).0.orders
  note_if-Progress env id note p s careful = elim (Bool-cases (count_where p s.orders == 0)) [
    | inl w ↦ rw (w, note_if) (patch p cancel careful refl)
    | inr w ↦
        rw (w, note_if)
          (steps (patch p cancel careful refl) (
            patch (has_id id) (add_event cancelled note)
              (add_event-Careful (has_id id) cancelled note) refl))
  ]

  cancel-Careful : (id : String) → Careful (is_cancellable id) cancel
  cancel-Careful id o q c = (λ e. c (ground arith), refl, λ h. h)

  cancelar-Keeps :
      (env : Env) (id nota : String) → Keeps (cancelar db has_stripe retrieve env id nota)
  unfolding cancelar
  cancelar-Keeps env id nota s =
      rw
        (db.order.update_many_lem (is_cancellable id) cancel s.orders (λ r o. ((λ e. e), (λ e. e))))
        (note_if-Progress env id nota (is_cancellable id) s (cancel-Careful id))

  recover-Keeps :
      (env : Env) (intent : Option PaymentIntent) (r : ResumenConciliacion)
      → Keeps (recover db has_stripe retrieve env intent r)
  recover-Keeps env none r = λ s. Progress.same refl
  recover-Keeps env (some intent) r =
      Keeps-then {B = ResumenConciliacion} (handle_payment_succeeded db env intent)
        (pure (record r { recuperados = r.recuperados + 1 }))
        (handle_payment_succeeded-Keeps db env intent) (λ s. Progress.same refl)

  resolver-Keeps :
      (env : Env) (sesion : StripeSession) (r : ResumenConciliacion)
      → Keeps (resolver db has_stripe retrieve env sesion r)
  unfolding resolver
  resolver-Keeps env sesion r = go sesion.status
    where
      go :
          (status : SessionStatus)
          → Keeps {A = ResumenConciliacion} (elim status [
            | still_open ↦ pure (record r { en_curso = r.en_curso + 1 })
            | complete ↦
                if sesion.is_paid
                then recover db has_stripe retrieve env sesion.payment_intent r
                else pure (record r { en_curso = r.en_curso + 1 })
            | expired ↦
                handle_session_expired db env sesion.session
                >> pure (record r { caducados = r.caducados + 1 })
          ])
      go still_open = λ s. Progress.same refl
      go complete =
          Keeps-if {A = ResumenConciliacion} sesion.is_paid
            (recover db has_stripe retrieve env sesion.payment_intent r)
            (pure (record r { en_curso = r.en_curso + 1 }))
            (recover-Keeps env sesion.payment_intent r) (λ s. Progress.same refl)
      go expired =
          Keeps-then {B = ResumenConciliacion} (handle_session_expired db env sesion.session)
            (pure (record r { caducados = r.caducados + 1 }))
            (handle_session_expired-Keeps db env sesion.session) (λ s. Progress.same refl)

  revisar-Keeps :
      (env : Env) (pedido : Order) (r : ResumenConciliacion)
      → Keeps (revisar db has_stripe retrieve env pedido r)
  unfolding revisar
  revisar-Keeps env pedido r s = elim (Option-cases (truthy pedido.checkout_session_id)) [
    | inl p ↦
        rw (p, revisar)
          (Keeps-then {B = ResumenConciliacion}
            (cancelar db has_stripe retrieve env pedido.id sin_sesion_note)
            (pure (record r { sin_sesion = r.sin_sesion + 1 }))
            (cancelar-Keeps env pedido.id sin_sesion_note) (λ t. Progress.same refl) s)
    | inr (id, p) ↦ elim (Option-cases (retrieve id)) [
      | inl q ↦ rw (p, revisar) (rw (q, resolve_found) (Progress.same refl))
      | inr (sesion, q) ↦ rw (p, revisar) (rw (q, resolve_found) (resolver-Keeps env sesion r s))
    ]
  ]

  conciliar_todos-Keeps :
      (at : ℕ → Env) (k : ℕ) (os : List Order) (r : ResumenConciliacion)
      → Keeps (conciliar_todos db has_stripe retrieve at k os r)
  unfolding conciliar_todos
  conciliar_todos-Keeps at k [] r = λ s. Progress.same refl
  conciliar_todos-Keeps at k (o ∷ os) r =
      Keeps-bind {A = ResumenConciliacion} {B = ResumenConciliacion}
        (catch (revisar db has_stripe retrieve (at k) o r)
          (λ e. pure (record r { fallos = r.fallos + 1 })))
        (λ next. conciliar_todos db has_stripe retrieve at (suc k) os next)
        (Keeps-catch {A = ResumenConciliacion} (revisar db has_stripe retrieve (at k) o r)
          (λ e. pure (record r { fallos = r.fallos + 1 })) (revisar-Keeps (at k) o r)
          (λ e s. Progress.same refl))
        (λ next. conciliar_todos-Keeps at (suc k) os next)

  run-Keeps : (at : ℕ → Env) → Keeps (run db has_stripe retrieve at)
  unfolding run
  run-Keeps at s =
      let pendientes =
        db.order.find_many (is_overdue (at 0).now) (λ o. o.created_at) lote s.orders in
      let start : ResumenConciliacion = record empty_resumen { revisados = length pendientes } in
      Keeps-if {A = ResumenConciliacion} has_stripe
        (conciliar_todos db has_stripe retrieve at 1 pendientes start) (pure empty_resumen)
        (conciliar_todos-Keeps at 1 pendientes start) (λ t. Progress.same refl) s

  purgar_sin_cobro-Keeps : (env : Env) → Keeps (purgar_sin_cobro db has_stripe retrieve env)
  unfolding purgar_sin_cobro
  purgar_sin_cobro-Keeps env s =
      rw (db.order.delete_many_lem (is_abandoned env.now) s.orders)
        (purge (is_abandoned env.now) (λ o q. ground arith) refl)

  pub reconcile-Keeps : (at : ℕ → Env) (env : Env) → Keeps (reconcile db has_stripe retrieve at env)
  unfolding reconcile
  reconcile-Keeps at env =
      Keeps-bind {A = ResumenConciliacion} {B = ResumenConciliacion × ℕ}
        (run db has_stripe retrieve at)
        (λ r. purgar_sin_cobro db has_stripe retrieve env >>= λ n. pure (r, n)) (run-Keeps at)
        (λ r.
          Keeps-bind {A = ℕ} {B = ResumenConciliacion × ℕ}
            (purgar_sin_cobro db has_stripe retrieve env) (λ n. pure (r, n))
            (purgar_sin_cobro-Keeps env) (λ n s. Progress.same refl))
