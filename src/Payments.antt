-- ===== src/Payments.antt =====
-- modules/payments/payments.service.ts: what Stripe's events do to an order. The events are
-- Stripe's types, by the fields that the service reads.
pub mod Effects
pub mod Once
pub mod Safety
use kori_backend.Prelude.{
  ℕ, String, Bool, true, false, ◌&&◌, ◌||◌, Option, none, some, List, [], ◌∷◌, map, any, str_eq,
  update_where, all, truthy, or_else, text_or, is_some, ◌<>◌, ◌++◌, not, ltb, ◌==◌, if◌then◌else◌,
}
use kori_backend.Database.{
  Order, OrderItem, OrderEvent, OrderStatus, pending_payment, paid, cancelled, refunded, digital,
  FulfillmentType, Address, JobType, deliver_digital, fulfill_order, send_order_confirmation,
  OutboxJob, pending, DownloadGrant, WebhookEvent, Subscriber, Store, Prisma, Env, M, pure, ◌>>=◌,
  ◌>>◌, throw, transaction, Result, ok, err, unique_violation, same_some,
  send_shipping_notification, send_admin_alert, send_contact_message,
}

-- `shipping` of a PaymentIntent. An absent name or address leaves the order's columns alone.
pub record Shipping : Type 0 where
  pub name : Option String
  pub phone : Option String
  pub address : Option Address

pub record PaymentIntent : Type 0 where
  pub id : String
  pub order_id : Option String
  pub latest_charge : Option String
  pub shipping : Option Shipping
  pub receipt_email : Option String

pub record Charge : Type 0 where
  pub id : String
  pub order_id : Option String
  pub payment_intent : Option String
  pub amount : ℕ
  pub amount_refunded : ℕ

pub record CheckoutSession : Type 0 where
  pub order_id : Option String

abbrev pub is_pending : OrderStatus → Bool
is_pending pending_payment = true
is_pending _ = false

abbrev pub is_digital : FulfillmentType → Bool
is_digital digital = true
is_digital _ = false

abbrev pub has_id : String → Order → Bool
has_id id o = str_eq o.id id

abbrev pub add_event : OrderStatus → String → Order → Order
add_event status note o = record o {
  events = o.events ++ record { status = status; note = note } ∷ [];
}

abbrev pub ship_of : Option Shipping → Address → Address
ship_of none a = a
ship_of (some s) a = elim s.address [
  | none ↦ record a { name = or_else s.name a.name }
  | some b ↦ record b { name = or_else s.name a.name }
]

abbrev pub shipping_name : Option Shipping → Option String
shipping_name none = none
shipping_name (some s) = s.name

abbrev pub shipping_phone : Option Shipping → Option String
shipping_phone none = none
shipping_phone (some s) = s.phone

abbrev pub charge_note : Option String → String
charge_note none = ""
charge_note (some charge) = ", cargo " <> charge

abbrev pub paid_note : PaymentIntent → String
paid_note intent = "Pago confirmado (" <> intent.id <> charge_note intent.latest_charge <> ")"

-- The patch of `handlePaymentSucceeded`, for the order as it was read.
unfoldable pub mark_paid : ℕ → PaymentIntent → Order → Order → Order
mark_paid now intent read o = add_event paid (paid_note intent) (record o {
  status = paid;
  paid_at = some now;
  payment_intent_id = some intent.id;
  customer_email = text_or (or_else intent.receipt_email (some read.customer_email)) "";
  customer_name = or_else (shipping_name intent.shipping) read.customer_name;
  customer_phone = or_else (shipping_phone intent.shipping) read.customer_phone;
  ship = ship_of intent.shipping o.ship;
})

-- `soloDigital`.
abbrev pub only_digital : List OrderItem → Bool
only_digital [] = false
only_digital (i ∷ is) = all (λ item. is_digital item.fulfillment_type) (i ∷ is)

abbrev pub delivery_job : Order → JobType
delivery_job o = if only_digital o.items then deliver_digital else fulfill_order

abbrev pub job_name : JobType → String
job_name fulfill_order = "FULFILL_ORDER"
job_name deliver_digital = "DELIVER_DIGITAL"
job_name send_order_confirmation = "SEND_ORDER_CONFIRMATION"
job_name send_shipping_notification = "SEND_SHIPPING_NOTIFICATION"
job_name send_admin_alert = "SEND_ADMIN_ALERT"
job_name send_contact_message = "SEND_CONTACT_MESSAGE"

abbrev pub dedupe_key : JobType → String → String
dedupe_key type id = job_name type <> ":" <> id

-- A new job of an order, with the schema's defaults.
abbrev pub new_job : String → ℕ → JobType → String → OutboxJob
new_job uuid now type order_id = record {
  id = uuid;
  type = type;
  status = pending;
  dedupe_key = dedupe_key type order_id;
  contact_message_id = none;
  attempts = 0;
  max_attempts = 5;
  next_attempt_at = now;
  last_error = none;
  order_id = some order_id;
  completed_at = none;
}

abbrev pub new_subscriber : Env → String → Subscriber
new_subscriber env email = record {
  id = env.uuid 2;
  email = email;
  ip_hash = none;
  created_at = env.now;
}

abbrev pub set_orders : Store → Result (List Order) → Store × Result (Unit {0})
set_orders s (ok t) = (record s { orders = t }, ok tt)
set_orders s (err e) = (s, err e)

abbrev pub set_events : Store → Result (List WebhookEvent) → Store × Result (Unit {0})
set_events s (ok t) = (record s { webhook_events = t }, ok tt)
set_events s (err e) = (s, err e)

abbrev pub claim_outcome : Store → Result (List WebhookEvent) → Store × Result Bool
claim_outcome s (ok t) = (record s { webhook_events = t }, ok true)
claim_outcome s (err unique_violation) = (s, ok false)
claim_outcome s (err e) = (s, err e)

abbrev pub event_is : String → WebhookEvent → Bool
event_is id e = str_eq id e.event_id

abbrev pub owns : List OrderItem → DownloadGrant → Bool
owns items g = any (λ i. str_eq i.id g.order_item_id) items

abbrev pub is_live : DownloadGrant → Bool
is_live g = not (is_some g.revoked_at)

abbrev pub revoke : ℕ → DownloadGrant → DownloadGrant
revoke now g = record g { revoked_at = some now }

-- The patch of `handleChargeRefunded`.
abbrev pub mark_refunded : Charge → Order → Order
mark_refunded charge o =
    add_event refunded ("Reembolso total confirmado (" <> charge.id <> ")")
      (record o { status = refunded })

abbrev pub awaits : String → Order → Bool
awaits id o = has_id id o && is_pending o.status

abbrev pub cancel : Order → Order
cancel o = record o { status = cancelled }

abbrev pub expired_note : String
expired_note = "La sesión de pago caducó sin completarse"

module _ (db : Prisma) (env : Env) where
  -- `tx.order.update` by identifier.
  abbrev pub update_order : String → (Order → Order) → M (Unit {0})
  update_order id f s = set_orders s (db.order.update (has_id id) f s.orders)

  -- `tx.subscriber.createMany` with `skipDuplicates`, for a buyer who opted in.
  abbrev pub opt_in : Bool → String → M (Unit {0})
  opt_in wants email s = (
    record s {
      subscribers =
          if wants && not (str_eq email "")
          then db.subscriber.create_many (new_subscriber env email ∷ []) s.subscribers
          else s.subscribers;
    },
    ok tt,
  )

  abbrev pub enqueue_all : List OutboxJob → M (Unit {0})
  enqueue_all js s = (record s { jobs = db.outbox_job.create_many js s.jobs }, ok tt)

  -- The jobs of a paid order.
  abbrev pub paid_jobs : String → Order → List OutboxJob
  paid_jobs id o =
      new_job (env.uuid 0) env.now send_order_confirmation id
      ∷ new_job (env.uuid 1) env.now (delivery_job o) id
      ∷ []

  -- `revokedAt` of the live grants of an order's items.
  abbrev pub revoke_grants : List OrderItem → M (Unit {0})
  revoke_grants items s = (
    record s {
      grants =
          (db.download_grant.update_many (λ g. owns items g && is_live g) (revoke env.now)
            s.grants).0;
    },
    ok tt,
  )

  unfoldable pub claim_event : String → M Bool
  claim_event id s = claim_outcome s (
      db.webhook_event.create (record { event_id = id; processed_at = none; failure = none })
        s.webhook_events)

  unfoldable pub mark_event_processed : String → Option String → M (Unit {0})
  mark_event_processed id failure s = set_events s (
      db.webhook_event.update (event_is id)
        (λ e. record e { processed_at = some env.now; failure = or_else failure e.failure })
        s.webhook_events)

  -- The transaction of `handlePaymentSucceeded`.
  unfoldable pub confirm_payment : PaymentIntent → String → Order → M (Unit {0})
  confirm_payment intent id o = transaction (do
    update_order id (mark_paid env.now intent o)
    opt_in o.newsletter_opt_in (text_or (or_else intent.receipt_email (some o.customer_email)) "")
    enqueue_all (paid_jobs id o))

  abbrev pub settle : PaymentIntent → String → Option Order → M (Unit {0})
  settle intent id none = pure tt
  settle intent id (some o) = if is_pending o.status then confirm_payment intent id o else pure tt

  unfoldable pub handle_payment_succeeded : PaymentIntent → M (Unit {0})
  handle_payment_succeeded intent s = elim (truthy intent.order_id) [
    | none ↦ (s, ok tt)
    | some id ↦ settle intent id (db.order.find_first (has_id id) s.orders) s
  ]

  -- The transaction of `handleChargeRefunded`.
  unfoldable pub confirm_refund : Charge → Order → M (Unit {0})
  confirm_refund charge o =
      transaction (do update_order o.id (mark_refunded charge); revoke_grants o.items)

  abbrev pub refund : Charge → Option Order → M (Unit {0})
  refund charge none = pure tt
  refund charge (some o) =
      if ltb charge.amount_refunded charge.amount then pure tt else confirm_refund charge o

  abbrev pub has_intent : String → Order → Bool
  has_intent intent o = same_some o.payment_intent_id (some intent)

  unfoldable pub handle_charge_refunded : Charge → M (Unit {0})
  handle_charge_refunded charge s = elim (truthy charge.order_id) [
    | some id ↦ refund charge (db.order.find_first (has_id id) s.orders) s
    | none ↦ elim (truthy charge.payment_intent) [
      | none ↦ (s, ok tt)
      | some intent ↦ refund charge (db.order.find_first (has_intent intent) s.orders) s
    ]
  ]

  -- `orderEvent.create`, where the update before it wrote a row.
  abbrev pub note_if :
      String → OrderStatus → String → Store → List Order × ℕ → Store × Result (Unit {0})
  note_if id status note s (t, n) =
      if n == 0
      then (record s { orders = t }, ok tt)
      else (record s { orders = update_where (has_id id) (add_event status note) t }, ok tt)

  unfoldable pub handle_session_expired : CheckoutSession → M (Unit {0})
  handle_session_expired session s = elim (truthy session.order_id) [
    | none ↦ (s, ok tt)
    | some id ↦
        note_if id cancelled expired_note s (db.order.update_many (awaits id) cancel s.orders)
  ]
