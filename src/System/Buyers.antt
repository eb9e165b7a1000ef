-- ===== src/System/Buyers.antt =====
-- The calls of buyers write the orders table by progress alone.
use kori_backend.Outbox.Safety.{emitir_enlaces-Keeps}
use kori_backend.Orders.Delivery.{emitir_enlaces}
use kori_backend.Orders.Purchases.{
  mail_access, resend_for, new_access, list_orders, numbered, create_access, ShownOrder,
  resend_by_access, request_access_for, find_by_access, valid_access, set_tokens, mark_used,
  bought_by, resend_downloads, request_access, find_by_token,
}
use kori_backend.Orders.Downloads.{
  product_name, find_item, take_use, serve, token_is, check, download,
}
use kori_backend.Payments.{update_order}
use kori_backend.Orders.Rules.{
  Keeps-update_order, Keeps-catch, Keeps-then, Keeps-bind, Keeps-if, Keeps,
}
use kori_backend.Orders.Progress.{insert, Progress, Consistent}
use kori_backend.Checkout.{
  open_session, set_session, open_result, payment_params, place_order, place, keep_session,
  create_order, Line, CartItem, CreateCheckoutSession, new_order, create_session,
  build_lines_from_database, PaymentSession, SessionParams,
}
use kori_backend.Prelude.{
  ◌<>◌, is_empty, if◌then◌else◌, ◌≡◌, is_some, [], ◌∷◌, inr, inl, truthy, any, refl, Option-cases,
  Bool-cases, List, ℕ, Bool, String, Option,
}
use kori_backend.Database.{
  DownloadGrant, download_links, ◌>>◌, send_mail, Link, err, ok, Store, PurchaseAccessToken, pure,
  catch, Order_clash, M, http, Result-cases, throw, Order, Env, Result, Prisma,
}

module _ (db : Prisma) (normalize_locale : Option String → String) (has_stripe : Bool)
    (flat_shipping : Option ℕ) (create_payment : SessionParams → Result PaymentSession) where
  create_order-Keeps :
      (o : Order)
      → Consistent o
      → Keeps (create_order db normalize_locale has_stripe flat_shipping create_payment o)
  create_order-Keeps o c s = elim (Bool-cases (any (Order_clash o) s.orders)) [
    | inl p ↦ rw (db.order.create_clash o s.orders p) (Progress.same refl)
    | inr p ↦ rw (db.order.create_new o s.orders p) (insert (o ∷ []) (c, tt) refl)
  ]

  keep_session-Keeps :
      (env : Env) (o : Order) (p : PaymentSession)
      → Keeps (keep_session db normalize_locale has_stripe flat_shipping create_payment env o p)
  keep_session-Keeps env o p s = elim (Option-cases (truthy p.url)) [
    | inl e ↦ rw (e, keep_session) (Progress.same refl)
    | inr (url, e) ↦
        rw (e, keep_session)
          (Keeps-then {B = String} (update_order db env o.id (set_session p.id)) (pure url)
            (Keeps-update_order db env o.id (set_session p.id) (λ o q c. (c, refl, λ h. h)))
            (λ t. Progress.same refl) s)
  ]

  open_session-Keeps :
      (env : Env) (dto : CreateCheckoutSession) (lines : List Line) (o : Order)
      → Keeps
          (open_session db normalize_locale has_stripe flat_shipping create_payment env dto lines o)
  open_session-Keeps env dto lines o s =
      elim (Result-cases (
        create_payment (
          payment_params db normalize_locale has_stripe flat_shipping create_payment env dto lines
            o))) [
              | inl (p, e) ↦ rw (e, open_result) (keep_session-Keeps env o p s)
              | inr (f, e) ↦ rw (e, open_result) (Progress.same refl)
            ]

  new_order-Consistent :
      (env : Env) (number : ℕ) (dto : CreateCheckoutSession) (lines : List Line)
      → Consistent (
          new_order db normalize_locale has_stripe flat_shipping create_payment env number dto
            lines)
  unfolding new_order
  new_order-Consistent env number dto lines e = (refl, refl)

  build-Keeps :
      (items : List CartItem)
      → Keeps (
          build_lines_from_database db normalize_locale has_stripe flat_shipping create_payment
            items)
  unfolding build_lines_from_database
  build-Keeps items s = Progress.same refl

  place-Keeps :
      (env : Env) (number : ℕ) (dto : CreateCheckoutSession)
      → Keeps (place db normalize_locale has_stripe flat_shipping create_payment env number dto)
  place-Keeps env number dto =
      Keeps-bind {A = List Line} {B = String}
        (build_lines_from_database db normalize_locale has_stripe flat_shipping create_payment
          dto.items)
        (λ lines.
          place_order db normalize_locale has_stripe flat_shipping create_payment env dto lines (
            new_order db normalize_locale has_stripe flat_shipping create_payment env number dto
              lines))
        (build-Keeps dto.items)
        (λ lines.
          let o : Order =
            new_order db normalize_locale has_stripe flat_shipping create_payment env number dto
              lines in
          let opening : M String =
            open_session db normalize_locale has_stripe flat_shipping create_payment env dto lines
              o in
          Keeps-then {B = String}
            (create_order db normalize_locale has_stripe flat_shipping create_payment o)
            (catch opening (λ e. throw (http 503)))
            (create_order-Keeps o (new_order-Consistent env number dto lines))
            (Keeps-catch {A = String} opening (λ e. throw (http 503))
              (open_session-Keeps env dto lines o) (λ e s. Progress.same refl)))

  pub create_session-Keeps :
      (env : Env) (number : ℕ) (dto : CreateCheckoutSession)
      → Keeps (
          create_session db normalize_locale has_stripe flat_shipping create_payment env number dto)
  unfolding create_session
  create_session-Keeps env number dto =
      Keeps-if {A = String} has_stripe
        (place db normalize_locale has_stripe flat_shipping create_payment env number dto)
        (throw (http 503)) (place-Keeps env number dto) (λ s. Progress.same refl)

module _ (db : Prisma) (sha256 : String → String) (public_base_url : Option String)
    (trim_lower : String → String) (landing : Option String) where
  set_tokens-orders :
      (s : Store) (r : Result (List PurchaseAccessToken)) → (set_tokens s r).0.orders ≡ s.orders
  set_tokens-orders s (ok t) = refl
  set_tokens-orders s (err e) = refl

  pub request_access-Keeps :
      (env : Env) (email : String)
      → Keeps (request_access db sha256 public_base_url trim_lower landing env email)
  unfolding request_access
  request_access-Keeps env email s =
      elim (Option-cases (db.order.find_first (bought_by (trim_lower email)) s.orders)) [
        | inl p ↦ rw (p, request_access_for) (Progress.same refl)
        | inr (o, p) ↦
            rw (p, request_access_for)
              (Keeps-then {B = Unit {0}}
                (create_access db sha256 public_base_url trim_lower landing
                  (new_access db sha256 public_base_url trim_lower landing env (trim_lower email)))
                (mail_access db sha256 public_base_url trim_lower landing env (trim_lower email))
                (λ t. Progress.same (set_tokens-orders t _))
                (λ t.
                  Keeps-catch {A = Unit {0}} (send_mail env _) (λ e. pure tt)
                    (λ u. Progress.same refl) (λ e u. Progress.same refl) t)
                s)
      ]

  mark_used-Keeps :
      (env : Env) (a : PurchaseAccessToken)
      → Keeps (mark_used db sha256 public_base_url trim_lower landing env a)
  mark_used-Keeps env a s = elim (Bool-cases (is_some a.used_at)) [
    | inl p ↦ rw (p, mark_used) (Progress.same refl)
    | inr p ↦ rw (p, mark_used) (Progress.same (set_tokens-orders s _))
  ]

  pub find_by_token-Keeps :
      (env : Env) (token : String)
      → Keeps (find_by_token db sha256 public_base_url trim_lower landing env token)
  unfolding find_by_token
  find_by_token-Keeps env token s =
      elim (Option-cases
        (valid_access db sha256 public_base_url trim_lower landing env.now token s.access_tokens)) [
          | inl p ↦ rw (p, find_by_access) (Progress.same refl)
          | inr (a, p) ↦
              rw (p, find_by_access)
                (Keeps-then {B = String × List ShownOrder}
                  (mark_used db sha256 public_base_url trim_lower landing env a)
                  (list_orders db sha256 public_base_url trim_lower landing a)
                  (mark_used-Keeps env a) (λ t. Progress.same refl) s)
        ]

  pub resend_downloads-Keeps :
      (env : Env) (token : String) (number : ℕ)
      → Keeps (resend_downloads db sha256 public_base_url trim_lower landing env token number)
  unfolding resend_downloads
  resend_downloads-Keeps env token number s =
      elim (Option-cases
        (valid_access db sha256 public_base_url trim_lower landing env.now token s.access_tokens)) [
          | inl p ↦ rw (p, resend_by_access) (Progress.same refl)
          | inr (a, p) ↦
              elim (Option-cases (db.order.find_first (numbered a.email number) s.orders)) [
                | inl q ↦ rw (p, resend_by_access) (rw (q, resend_for) (Progress.same refl))
                | inr (o, q) ↦
                    rw (p, resend_by_access)
                      (rw (q, resend_for)
                        (Keeps-bind {A = List Link} {B = Unit {0}}
                          (emitir_enlaces db sha256 public_base_url env o)
                          (λ links.
                            (if is_empty links then throw (http 410) else pure tt)
                            >> send_mail env (download_links o links))
                          (emitir_enlaces-Keeps db sha256 public_base_url env o)
                          (λ links.
                            Keeps-then {B = Unit {0}}
                              (if is_empty links then throw (http 410) else pure tt)
                              (send_mail env (download_links o links))
                              (Keeps-if {A = Unit {0}} (is_empty links) (throw (http 410)) (pure tt)
                                (λ t. Progress.same refl) (λ t. Progress.same refl))
                              (λ t. Progress.same refl))
                          s))
              ]
        ]

take_use-Keeps :
    (db : Prisma) (sha256 : String → String) (signed_url : String → String → Result String)
    (env : Env) (g : DownloadGrant)
    → Keeps (take_use db sha256 signed_url env g)
unfolding take_use
take_use-Keeps db sha256 signed_url env g s = Progress.same refl

pub download-Keeps :
    (db : Prisma) (sha256 : String → String) (signed_url : String → String → Result String)
    (env : Env) (token : String)
    → Keeps (download db sha256 signed_url env token)
unfolding download
download-Keeps db sha256 signed_url env token s =
    elim (Result-cases (
      check db sha256 signed_url env.now s.orders
        (db.download_grant.find_first (token_is (sha256 token)) s.grants))) [
          | inr (e, p) ↦ rw (p, serve) (Progress.same refl)
          | inl (g, p) ↦
              rw (p, serve)
                (Keeps-then {B = String} (take_use db sha256 signed_url env g.0)
                  (λ t. (
                    t,
                    signed_url g.1 (product_name (find_item g.0.order_item_id t.orders) <> ".zip"),
                  ))
                  (take_use-Keeps db sha256 signed_url env g.0) (λ t. Progress.same refl) s)
        ]
