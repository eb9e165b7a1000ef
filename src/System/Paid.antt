-- ===== src/System/Paid.antt =====
-- What holds of the orders whatever calls arrive, in whatever order. A step is one call from
-- outside: a webhook, a pass over the queue, a reconciliation, an administrator's retry, a
-- checkout, a buyer's visit. Calls run one after the other.
use kori_backend.Orders.Downloads.{download}
use kori_backend.Orders.Purchases.{resend_downloads, find_by_token, request_access}
use kori_backend.Outbox.Retry.{retry}
use kori_backend.Checkout.{create_session, PaymentSession, CreateCheckoutSession, SessionParams}
use kori_backend.Outbox.{run_pending}
use kori_backend.System.Buyers.{
  download-Keeps, resend_downloads-Keeps, find_by_token-Keeps, request_access-Keeps,
  create_session-Keeps,
}
use kori_backend.Reconciliation.{reconcile, StripeSession}
use kori_backend.Reconciliation.Safety.{reconcile-Keeps}
use kori_backend.Outbox.Safety.{run_pending-Keeps}
use kori_backend.Webhook.{StripeEvent, handle}
use kori_backend.System.Entries.{retry-Keeps, handle-Keeps}
use kori_backend.Prelude.{refl, true, Bool, ℕ, any, All, [], Option, ◌≡◌, String}
use kori_backend.Orders.Progress.{
  Progress-paid, Progress-Consistent, paid_as, Consistent, steps, Progress,
}
use kori_backend.Database.{Result, Failure, Env, Store, Prisma}

-- What the shop takes from outside, apart from each call's environment.
pub record World : Type 0 where
  pub db : Prisma
  pub sha256 : String → String
  pub public_base_url : Option String
  pub message : Failure → String
  pub construct_event : String → String → Option StripeEvent
  pub has_stripe : Bool
  pub retrieve : String → Option StripeSession
  pub normalize_locale : Option String → String
  pub flat_shipping : Option ℕ
  pub create_payment : SessionParams → Result PaymentSession
  pub trim_lower : String → String
  pub landing : Option String
  pub signed_url : String → String → Result String

pub data Step (w : World) : Store → Store → Type 0 where
  webhook :
      {s s' : Store} (env : Env) (body sig : Option String)
      → s' ≡ (handle w.db w.construct_event w.message env body sig s).0
      → Step w s s'
  queue :
      {s s' : Store} (at : ℕ → Env) (running : Bool)
      → s' ≡ (run_pending w.db w.sha256 w.public_base_url w.message at running s).0
      → Step w s s'
  reconciliation :
      {s s' : Store} (at : ℕ → Env) (env : Env)
      → s' ≡ (reconcile w.db w.has_stripe w.retrieve at env s).0
      → Step w s s'
  retried :
      {s s' : Store} (env : Env) (id : String)
      → s' ≡ (retry w.db w.sha256 w.public_base_url w.message env id s).0
      → Step w s s'
  checkout :
      {s s' : Store} (env : Env) (number : ℕ) (dto : CreateCheckoutSession)
      → s'
        ≡ (create_session w.db w.normalize_locale w.has_stripe w.flat_shipping w.create_payment env
            number dto s).0
      → Step w s s'
  access_asked :
      {s s' : Store} (env : Env) (email : String)
      → s' ≡ (request_access w.db w.sha256 w.public_base_url w.trim_lower w.landing env email s).0
      → Step w s s'
  purchases_seen :
      {s s' : Store} (env : Env) (token : String)
      → s' ≡ (find_by_token w.db w.sha256 w.public_base_url w.trim_lower w.landing env token s).0
      → Step w s s'
  links_resent :
      {s s' : Store} (env : Env) (token : String) (number : ℕ)
      → s'
        ≡ (resend_downloads w.db w.sha256 w.public_base_url w.trim_lower w.landing env token number
            s).0
      → Step w s s'
  downloaded :
      {s s' : Store} (env : Env) (token : String)
      → s' ≡ (download w.db w.sha256 w.signed_url env token s).0
      → Step w s s'

pub data Reach (w : World) (s : Store) : Store → Type 0 where
  here : {s' : Store} → s' ≡ s → Reach w s s'
  next : {t u : Store} → Reach w s t → Step w t u → Reach w s u

Step-Progress : (w : World) {s s' : Store} → Step w s s' → Progress s.orders s'.orders
Step-Progress w (webhook {s} env body sig e) =
    rw e (handle-Keeps w.db w.construct_event w.message env body sig s)
Step-Progress w (queue {s} at running e) =
    rw e (run_pending-Keeps w.db w.sha256 w.public_base_url w.message at running s)
Step-Progress w (reconciliation {s} at env e) =
    rw e (reconcile-Keeps w.db w.has_stripe w.retrieve at env s)
Step-Progress w (retried {s} env id e) =
    rw e (retry-Keeps w.db w.sha256 w.public_base_url w.message env id s)
Step-Progress w (checkout {s} env number dto e) = rw e (
    create_session-Keeps w.db w.normalize_locale w.has_stripe w.flat_shipping w.create_payment env
      number dto s)
Step-Progress w (access_asked {s} env email e) =
    rw e (request_access-Keeps w.db w.sha256 w.public_base_url w.trim_lower w.landing env email s)
Step-Progress w (purchases_seen {s} env token e) =
    rw e (find_by_token-Keeps w.db w.sha256 w.public_base_url w.trim_lower w.landing env token s)
Step-Progress w (links_resent {s} env token number e) = rw e (
    resend_downloads-Keeps w.db w.sha256 w.public_base_url w.trim_lower w.landing env token number
      s)
Step-Progress w (downloaded {s} env token e) =
    rw e (download-Keeps w.db w.sha256 w.signed_url env token s)

Reach-Progress : (w : World) {s s' : Store} → Reach w s s' → Progress s.orders s'.orders
Reach-Progress w (here e) = rw e (Progress.same refl)
Reach-Progress w (next r st) = steps (Reach-Progress w r) (Step-Progress w st)

-- In every state that the shop reaches from an empty orders table, by any calls of `Step` in any
-- order, an order in PENDING_PAYMENT or CANCELLED has neither a payment date nor a PaymentIntent.
pub unpaid_orders_uncharged :
    (w : World) {s s' : Store} → s.orders ≡ [] → Reach w s s' → All Consistent s'.orders
unpaid_orders_uncharged w start r = Progress-Consistent (Reach-Progress w r) (rw start tt)

-- An order that was paid is never lost: from any state that the shop reaches from an empty orders
-- table, whatever calls of `Step` follow, purges included, a row with its identifier and a payment
-- date stays in the table.
pub paid_order_survives :
    (w : World) {s t u : Store} (id : String)
    → s.orders ≡ []
    → Reach w s t
    → any (paid_as id) t.orders ≡ true
    → Reach w t u
    → any (paid_as id) u.orders ≡ true
paid_order_survives w id start before p after =
    Progress-paid id (Reach-Progress w after) (unpaid_orders_uncharged w start before) p
