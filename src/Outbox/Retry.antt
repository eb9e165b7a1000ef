-- ===== src/Outbox/Retry.antt =====
-- modules/outbox/admin-retry.controller.ts: an administrator's retry of a stuck order.
use kori_backend.Outbox.{reencolar_fallidos}
use kori_backend.Payments.{update_order, has_id, add_event}
use kori_backend.Prelude.{
  decimal, ◌<>◌, ◌==◌, if◌then◌else◌, some, ℕ, none, false, true, Option, String, Bool,
}
use kori_backend.Database.{
  pure, ◌>>◌, http, ◌>>=◌, throw, M, needs_review, Env, Failure, paid, Prisma, OrderStatus, Order,
}

abbrev pub is_needs_review : OrderStatus → Bool
is_needs_review needs_review = true
is_needs_review _ = false

-- The patch of `retry`.
abbrev pub back_to_paid : ℕ → Order → Order
back_to_paid reencolados o =
    add_event paid
      ("Reintento manual desde el panel: "
        <> decimal reencolados
        <> " trabajo(s) de vuelta a la cola")
      (record o { status = paid; review_reason = none })

module _ (db : Prisma) (sha256 : String → String) (public_base_url : Option String)
    (message : Failure → String) where
  abbrev pub requeue_and_move : Env → String → M ℕ
  requeue_and_move env id = do
    reencolados ← reencolar_fallidos db sha256 public_base_url message env id
    if reencolados == 0 then throw (http 422) else pure tt
    update_order db env id (back_to_paid reencolados)
    pure reencolados

  abbrev pub retry_found : Env → String → Option Order → M ℕ
  retry_found env id none = throw (http 404)
  retry_found env id (some o) =
      if is_needs_review o.status then requeue_and_move env id else throw (http 422)

  unfoldable pub retry : Env → String → M ℕ
  retry env id s = retry_found env id (db.order.find_first (has_id id) s.orders) s
