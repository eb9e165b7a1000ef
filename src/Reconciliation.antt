-- ===== src/Reconciliation.antt =====
-- modules/payments/order-reconciliation.service.ts: asking Stripe about the orders that stay
-- unpaid, and the purge of old attempts. Also the route of internal-orders.controller.ts.
pub mod Safety
pub mod Summary
use kori_backend.Constants.{day_ms, unpaid_retention_days, grace_minutes, nunca_cobrado}
use kori_backend.Payments.{
  owns, handle_session_expired, handle_payment_succeeded, cancel, note_if, CheckoutSession,
  is_pending, has_id, PaymentIntent,
}
use kori_backend.Database.{
  DownloadGrant, catch, ◌>>◌, plain, ok, cancelled, ◌>>=◌, throw, pure, M, OutboxJob, Env, Order,
  Prisma,
}
use kori_backend.Prelude.{
  [], ◌*◌, suc, not, any, ◌∷◌, ◌+◌, some, length, truthy, ltb, if◌then◌else◌, false, discard, ◌&&◌,
  none, Option, ℕ, String, List, Bool,
}

-- `LOTE`.
abbrev pub lote : ℕ
lote = 50

pub record ResumenConciliacion : Type 0 where
  pub revisados : ℕ
  pub recuperados : ℕ
  pub caducados : ℕ
  pub sin_sesion : ℕ
  pub en_curso : ℕ
  pub fallos : ℕ

pub data SessionStatus : Type 0 where
  still_open complete expired : SessionStatus

-- A session as Stripe returns it; `payment_intent` is present where it came expanded.
pub record StripeSession : Type 0 where
  pub status : SessionStatus
  pub is_paid : Bool
  pub payment_intent : Option PaymentIntent
  pub session : CheckoutSession

abbrev pub empty_resumen : ResumenConciliacion
empty_resumen = record {
  revisados = 0;
  recuperados = 0;
  caducados = 0;
  sin_sesion = 0;
  en_curso = 0;
  fallos = 0;
}

abbrev pub sin_sesion_note : String
sin_sesion_note = "Se cerró en la conciliación: nunca llegó a crearse la sesión de pago"

-- Unpaid for longer than the grace period.
abbrev pub is_overdue : ℕ → Order → Bool
is_overdue now o = is_pending o.status && ltb (o.created_at + grace_minutes * 60 * 1000) now

abbrev pub is_cancellable : String → Order → Bool
is_cancellable id o = has_id id o && nunca_cobrado o

abbrev pub is_abandoned : ℕ → Order → Bool
is_abandoned now o = nunca_cobrado o && ltb (o.created_at + unpaid_retention_days * day_ms) now

-- The job belongs to an order that was deleted.
abbrev pub is_orphan : List Order → List Order → OutboxJob → Bool
is_orphan kept before j = elim j.order_id [
  | none ↦ false
  | some id ↦ any (has_id id) before && not (any (has_id id) kept)
]

abbrev pub is_orphan_grant : List Order → List Order → DownloadGrant → Bool
is_orphan_grant kept before g =
    any (λ o. owns o.items g) before && not (any (λ o. owns o.items g) kept)

-- `has_stripe` says that the client is configured, and `retrieve` is Stripe's answer about a
-- session, `none` where the call throws.
module _ (db : Prisma) (has_stripe : Bool) (retrieve : String → Option StripeSession) where
  -- `cancelar`.
  unfoldable pub cancelar : Env → String → String → M (Unit {0})
  cancelar env id nota s =
      note_if db env id cancelled nota s (db.order.update_many (is_cancellable id) cancel s.orders)

  abbrev pub recover : Env → Option PaymentIntent → ResumenConciliacion → M ResumenConciliacion
  recover env none r = throw plain
  recover env (some intent) r =
      handle_payment_succeeded db env intent >> pure (record r { recuperados = r.recuperados + 1 })

  -- `resolver`; the summary is returned.
  unfoldable pub resolver : Env → StripeSession → ResumenConciliacion → M ResumenConciliacion
  resolver env sesion r = elim sesion.status [
    | still_open ↦ pure (record r { en_curso = r.en_curso + 1 })
    | complete ↦
        if sesion.is_paid
        then recover env sesion.payment_intent r
        else pure (record r { en_curso = r.en_curso + 1 })
    | expired ↦
        handle_session_expired db env sesion.session
        >> pure (record r { caducados = r.caducados + 1 })
  ]

  abbrev pub resolve_found :
      Env → Option StripeSession → ResumenConciliacion → M ResumenConciliacion
  resolve_found env none r = throw plain
  resolve_found env (some sesion) r = resolver env sesion r

  -- The body of the loop's `try`.
  unfoldable pub revisar : Env → Order → ResumenConciliacion → M ResumenConciliacion
  revisar env pedido r = elim (truthy pedido.checkout_session_id) [
    | none ↦
        cancelar env pedido.id sin_sesion_note >> pure (record r { sin_sesion = r.sin_sesion + 1 })
    | some id ↦ resolve_found env (retrieve id) r
  ]

  -- The loop of `run`; `at k` is what its k-th round takes from outside.
  unfoldable pub conciliar_todos :
      (ℕ → Env) → ℕ → List Order → ResumenConciliacion → M ResumenConciliacion
  conciliar_todos at k [] r = pure r
  conciliar_todos at k (pedido ∷ pedidos) r = do
    next ← catch (revisar (at k) pedido r) (λ e. pure (record r { fallos = r.fallos + 1 }))
    conciliar_todos at (suc k) pedidos next

  unfoldable pub run : (ℕ → Env) → M ResumenConciliacion
  run at s =
      let pendientes =
        db.order.find_many (is_overdue (at 0).now) (λ o. o.created_at) lote s.orders in
      (if has_stripe
          then conciliar_todos at 1 pendientes
              (record empty_resumen { revisados = length pendientes })
          else pure empty_resumen)
        s

  -- The deletion takes the items of each order, its jobs and its download grants with it.
  unfoldable pub purgar_sin_cobro : Env → M ℕ
  purgar_sin_cobro env s =
      let (t, n) = db.order.delete_many (is_abandoned env.now) s.orders in
      (
        record s {
          orders = t;
          jobs = discard (is_orphan t s.orders) s.jobs;
          grants = discard (is_orphan_grant t s.orders) s.grants;
        },
        ok n,
      )

  -- The route `internal/orders/reconcile`.
  unfoldable pub reconcile : (ℕ → Env) → Env → M (ResumenConciliacion × ℕ)
  reconcile at env = do resumen ← run at; purgados ← purgar_sin_cobro env; pure (resumen, purgados)
