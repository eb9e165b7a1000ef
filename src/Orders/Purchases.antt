-- ===== src/Orders/Purchases.antt =====
-- modules/orders/purchases.service.ts: a buyer's access to what they bought, by a mailed link.
use kori_backend.Orders.Delivery.{emitir_enlaces, base_url}
use kori_backend.Prelude.{
  ◌<>◌, is_empty, ◌*◌, ltb, ◌==◌, ◌+◌, some, if◌then◌else◌, false, ◌&&◌, truthy, true, str_eq, none,
  map, is_some, Option, List, Bool, ℕ, String,
}
use kori_backend.Database.{
  download_links, delivered, shipped, ◌>>=◌, purchase_access, in_production, ◌>>◌, send_mail, paid,
  http, throw, pure, err, catch, ok, M, Env, Result, PurchaseAccessToken, Store, Prisma,
  OrderStatus, OrderItem, Order,
}

-- `ACCESS_TTL_MINUTES`.
abbrev pub access_ttl_minutes : ℕ
access_ttl_minutes = 30

-- `COMPRADOS`.
abbrev pub comprado : OrderStatus → Bool
comprado paid = true
comprado in_production = true
comprado shipped = true
comprado delivered = true
comprado _ = false

abbrev pub bought_by : String → Order → Bool
bought_by email o = str_eq o.customer_email email && comprado o.status

abbrev pub access_is : String → PurchaseAccessToken → Bool
access_is hash a = str_eq a.token_hash hash

abbrev pub numbered : String → ℕ → Order → Bool
numbered email number o = bought_by email o && o.order_number == number

-- An item and an order as `findByToken` shows them.
pub record ShownItem : Type 0 where
  pub id : String
  pub product_name : String
  pub quantity : ℕ
  pub variant_label : String
  pub is_downloadable : Bool

pub record ShownOrder : Type 0 where
  pub created_at : ℕ
  pub currency : String
  pub items : List ShownItem
  pub order_number : ℕ
  pub status : OrderStatus
  pub total_cents : ℕ

abbrev pub show_item : OrderItem → ShownItem
show_item i = record {
  id = i.id;
  product_name = i.product_name;
  quantity = i.quantity;
  variant_label = i.variant_label;
  is_downloadable = is_some (truthy i.digital_asset_path);
}

abbrev pub show_order : Order → ShownOrder
show_order o = record {
  created_at = o.created_at;
  currency = o.currency;
  items = map show_item o.items;
  order_number = o.order_number;
  status = o.status;
  total_cents = o.total_cents;
}

abbrev pub set_tokens : Store → Result (List PurchaseAccessToken) → Store × Result (Unit {0})
set_tokens s (ok t) = (record s { access_tokens = t }, ok tt)
set_tokens s (err e) = (s, err e)

-- The orders are listed in no given order. `trim_lower` is `trim().toLowerCase()`, and `landing` the configured address of the shop.
module _ (db : Prisma) (sha256 : String → String) (public_base_url : Option String)
    (trim_lower : String → String) (landing : Option String) where
  abbrev pub new_access : Env → String → PurchaseAccessToken
  new_access env email = record {
    id = env.uuid 0;
    email = email;
    token_hash = sha256 (env.token 0);
    expires_at = env.now + access_ttl_minutes * 60 * 1000;
    used_at = none;
  }

  abbrev pub mail_access : Env → String → M (Unit {0})
  mail_access env email =
      catch
        (send_mail env (purchase_access email (base_url landing <> "/mis-compras/" <> env.token 0)))
        (λ e. pure tt)

  abbrev pub create_access : PurchaseAccessToken → M (Unit {0})
  create_access a s = set_tokens s (db.purchase_access_token.create a s.access_tokens)

  abbrev pub request_access_for : Env → String → Option Order → M (Unit {0})
  request_access_for env email none = pure tt
  request_access_for env email (some o) = do
    create_access (new_access env email)
    mail_access env email

  unfoldable pub request_access : Env → String → M (Unit {0})
  request_access env raw_email s =
      let email = trim_lower raw_email in
      request_access_for env email (db.order.find_first (bought_by email) s.orders) s

  -- The access behind a token, if it is known and has not expired.
  unfoldable pub valid_access : ℕ → String → List PurchaseAccessToken → Option PurchaseAccessToken
  valid_access now token t =
      elim (db.purchase_access_token.find_first (access_is (sha256 token)) t) [
        | none ↦ none
        | some a ↦ if ltb a.expires_at now then none else some a
      ]

  abbrev pub mark_used : Env → PurchaseAccessToken → M (Unit {0})
  mark_used env a s =
      if is_some a.used_at
      then (s, ok tt)
      else set_tokens s (
          db.purchase_access_token.update (λ r. str_eq r.id a.id)
            (λ r. record r { used_at = some env.now }) s.access_tokens)

  abbrev pub list_orders : PurchaseAccessToken → M (String × List ShownOrder)
  list_orders a s =
      (s, ok (a.email, map show_order (db.order.find_all (bought_by a.email) s.orders)))

  abbrev pub find_by_access : Env → Option PurchaseAccessToken → M (String × List ShownOrder)
  find_by_access env none = throw (http 410)
  find_by_access env (some a) = do mark_used env a; list_orders a

  unfoldable pub find_by_token : Env → String → M (String × List ShownOrder)
  unfolding valid_access
  find_by_token env token s = find_by_access env (valid_access env.now token s.access_tokens) s

  abbrev pub resend_for : Env → Option Order → M (Unit {0})
  resend_for env none = throw (http 410)
  resend_for env (some o) = do
    links ← emitir_enlaces db sha256 public_base_url env o
    if is_empty links then throw (http 410) else pure tt
    send_mail env (download_links o links)

  abbrev pub resend_by_access : Env → ℕ → Option PurchaseAccessToken → M (Unit {0})
  resend_by_access env number none s = (s, err (http 410))
  resend_by_access env number (some a) s =
      resend_for env (db.order.find_first (numbered a.email number) s.orders) s

  unfoldable pub resend_downloads : Env → String → ℕ → M (Unit {0})
  unfolding valid_access
  resend_downloads env token number s =
      resend_by_access env number (valid_access env.now token s.access_tokens) s
