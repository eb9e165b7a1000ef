-- ===== src/Checkout.antt =====
-- modules/checkout/checkout.service.ts: from a cart to an order and a payment session.
pub mod Lines
use kori_backend.Constants.{session_minutes, store_currency}
use kori_backend.Payments.{update_order, set_orders, is_digital}
use kori_backend.Prelude.{
  ◌/◌, text_or, ◌||◌, ltb, is_some, truthy, not, any, ◌+◌, ◌&&◌, true, suc, str_eq, some, map,
  if◌then◌else◌, false, all, [], ◌∷◌, ◌*◌, none, Bool, ◌<>◌, ℕ, String, Option, List,
}
use kori_backend.Database.{
  Product, catch, ◌>>◌, pure, plain, ◌>>=◌, throw, pod, pending_payment, http, err, M, Env, ok,
  OrderItem, Order, Result, ProductVariant, Prisma, FulfillmentType, Address,
}

pub record CartItem : Type 0 where
  pub variant_id : String
  pub quantity : ℕ

pub record CreateCheckoutSession : Type 0 where
  pub items : List CartItem
  pub email : Option String
  pub locale : Option String
  pub newsletter : Option Bool

-- A line as `buildLinesFromDatabase` makes it.
pub record Line : Type 0 where
  pub variant_id : String
  pub product_name : String
  pub variant_label : String
  pub sku : String
  pub unit_price_cents : ℕ
  pub quantity : ℕ
  pub line_total_cents : ℕ
  pub provider_product_uid : Option String
  pub print_file_url : Option String
  pub digital_asset_path : Option String
  pub fulfillment_type : FulfillmentType

-- `price_data` of one of Stripe's line items.
pub record LineItem : Type 0 where
  pub name : String
  pub unit_amount : ℕ
  pub quantity : ℕ

-- `Stripe.Checkout.SessionCreateParams`, with the idempotency key of the call.
pub record SessionParams : Type 0 where
  pub line_items : List LineItem
  pub collects_address : Bool
  pub shipping_amount : Option ℕ
  pub customer_email : Option String
  pub client_reference_id : String
  pub expires_at : ℕ
  pub order_id : String
  pub idempotency_key : String

pub record PaymentSession : Type 0 where
  pub id : String
  pub url : Option String

-- `quantities`: a Map keeps its keys in the order of their first insertion.
unfoldable pub add_quantity : String → ℕ → List (String × ℕ) → List (String × ℕ)
add_quantity id n [] = (id, n) ∷ []
add_quantity id n ((j, m) ∷ q) =
    let rest = add_quantity id n q in if str_eq j id then (j, m + n) ∷ q else (j, m) ∷ rest

unfoldable pub quantities : List CartItem → List (String × ℕ) → List (String × ℕ)
unfolding add_quantity
quantities [] q = q
quantities (i ∷ is) q = quantities is (add_quantity i.variant_id i.quantity q)

abbrev pub is_pod : FulfillmentType → Bool
is_pod pod = true
is_pod _ = false

abbrev pub variant_is : String → ProductVariant → Bool
variant_is id v = str_eq v.id id

abbrev pub product_is : String → Product → Bool
product_is id p = str_eq p.id id

-- A variant with its product, which the foreign key has it have.
pub record Listing : Type 0 where
  pub variant : ProductVariant
  pub product : Product

-- `found.get(id)`.
abbrev pub get_variant : String → List Listing → Option Listing
get_variant id [] = none
get_variant id (l ∷ ls) = if variant_is id l.variant then some l else get_variant id ls

abbrev pub lacks_print : ProductVariant → Product → Bool
lacks_print v p =
    is_pod p.fulfillment_type
    && (not (is_some (truthy v.provider_product_uid)) || not (is_some (truthy v.print_file_url)))

abbrev pub lacks_file : ProductVariant → Product → Bool
lacks_file v p = is_digital p.fulfillment_type && not (is_some (truthy v.digital_asset_path))

abbrev pub line_of : ProductVariant → Product → ℕ → Line
line_of v p quantity = record {
  variant_id = v.id;
  product_name = p.name;
  variant_label = v.label;
  sku = v.sku;
  unit_price_cents = v.price_cents;
  quantity = quantity;
  line_total_cents = v.price_cents * quantity;
  provider_product_uid = v.provider_product_uid;
  print_file_url = v.print_file_url;
  digital_asset_path = v.digital_asset_path;
  fulfillment_type = p.fulfillment_type;
}

-- The exceptions of a round of the `map`, for a variant that was found.
unfoldable pub line_for : Listing → ℕ → Result Line
line_for l quantity =
    if not l.variant.is_active || not l.product.is_active
    then err (http 409)
    else if lacks_print l.variant l.product
    then err (http 422)
    else if lacks_file l.variant l.product
    then err (http 422)
    else if ltb 10 quantity
    then err (http 409)
    else ok (line_of l.variant l.product quantity)

unfoldable pub build_line : List Listing → String → ℕ → Result Line
unfolding line_for
build_line found id quantity = elim (get_variant id found) [
  | none ↦ err (http 409)
  | some l ↦ line_for l quantity
]

abbrev pub and_line : Result Line → Result (List Line) → Result (List Line)
and_line (ok l) (ok ls) = ok (l ∷ ls)
and_line (ok l) (err e) = err e
and_line (err e) r = err e

unfoldable pub build_lines : List Listing → List (String × ℕ) → Result (List Line)
unfolding build_line
build_lines found [] = ok []
build_lines found ((id, n) ∷ q) = and_line (build_line found id n) (build_lines found q)

-- `lines.reduce(...)`.
abbrev pub subtotal : List Line → ℕ
subtotal [] = 0
subtotal (l ∷ ls) = l.line_total_cents + subtotal ls

abbrev pub only_digital_lines : List Line → Bool
only_digital_lines = all (λ l. is_digital l.fulfillment_type)

abbrev pub line_item : Line → LineItem
line_item l = record {
  name = l.product_name <> " — " <> l.variant_label;
  unit_amount = l.unit_price_cents;
  quantity = l.quantity;
}

-- `buildSessionParams`; times are in milliseconds but for `expires_at`, which is in seconds.
unfoldable pub session_params : ℕ → String → List Line → ℕ → Bool → Option String → SessionParams
session_params now order_id lines shipping solo_digital email = record {
  line_items = map line_item lines;
  collects_address = not solo_digital;
  shipping_amount = if ltb 0 shipping then some shipping else none;
  customer_email = truthy email;
  client_reference_id = order_id;
  expires_at = now / 1000 + session_minutes * 60;
  order_id = order_id;
  idempotency_key = "checkout-session-" <> order_id;
}

-- `items.create`: the rows take their identifiers from the database.
abbrev pub item_row : String → Line → OrderItem
item_row id l = record {
  id = id;
  variant_id = l.variant_id;
  product_name = l.product_name;
  variant_label = l.variant_label;
  sku = l.sku;
  unit_price_cents = l.unit_price_cents;
  quantity = l.quantity;
  line_total_cents = l.line_total_cents;
  provider_product_uid = l.provider_product_uid;
  print_file_url = l.print_file_url;
  digital_asset_path = l.digital_asset_path;
  fulfillment_type = l.fulfillment_type;
}

abbrev pub item_rows : (ℕ → String) → ℕ → List Line → List OrderItem
item_rows uuid k [] = []
item_rows uuid k (l ∷ ls) = item_row (uuid k) l ∷ item_rows uuid (suc k) ls

abbrev pub no_address : Address
no_address = record {
  name = none;
  line1 = none;
  line2 = none;
  city = none;
  state = none;
  postal_code = none;
  country = none;
}

abbrev pub set_session : String → Order → Order
set_session id o = record o { checkout_session_id = some id }

abbrev pub is_true : Option Bool → Bool
is_true none = false
is_true (some b) = b

-- `normalize_locale` is the function of email-messages.ts, and `flat_shipping` the number that
-- the setting `shipping_flat_cents` reads as, if it is a whole one that is not negative.
-- `create_payment` is the circuit breaker's run of Stripe's call.
module _ (db : Prisma) (normalize_locale : Option String → String) (has_stripe : Bool)
    (flat_shipping : Option ℕ) (create_payment : SessionParams → Result PaymentSession) where
  -- `include: { product: true }`.
  abbrev pub include_products : List Product → List ProductVariant → List Listing
  include_products ps [] = []
  include_products ps (v ∷ vs) = elim (db.product.find_first (product_is v.product_id) ps) [
    | none ↦ include_products ps vs
    | some p ↦ record { variant = v; product = p } ∷ include_products ps vs
  ]

  -- `buildLinesFromDatabase`.
  unfoldable pub build_lines_from_database : List CartItem → M (List Line)
  build_lines_from_database items s =
      let q = quantities items [] in
      (
        s,
        build_lines
            (include_products s.products
              (db.product_variant.find_all (λ v. any (λ e. str_eq e.0 v.id) q) s.variants))
            q,
      )

  abbrev pub shipping_for : List Line → ℕ
  shipping_for lines =
      if only_digital_lines lines then 0 else elim flat_shipping [ none ↦ 0 | some n ↦ n ]

  -- The order of a cart, before its session.
  unfoldable pub new_order : Env → ℕ → CreateCheckoutSession → List Line → Order
  new_order env number dto lines = record {
    id = env.uuid 0;
    order_number = number;
    status = pending_payment;
    checkout_session_id = none;
    payment_intent_id = none;
    fulfillment_submitted_at = none;
    fulfillment_error = none;
    subtotal_cents = subtotal lines;
    shipping_cents = shipping_for lines;
    total_cents = subtotal lines + shipping_for lines;
    currency = store_currency;
    customer_email = text_or dto.email "";
    locale = normalize_locale dto.locale;
    customer_name = none;
    customer_phone = none;
    newsletter_opt_in = is_true dto.newsletter;
    ship = no_address;
    review_reason = none;
    paid_at = none;
    created_at = env.now;
    items = item_rows env.uuid 1 lines;
    events = record { status = pending_payment; note = "Checkout iniciado" } ∷ [];
  }

  abbrev pub open_result : Result PaymentSession → M PaymentSession
  open_result (err e) = throw e
  open_result (ok p) = pure p

  abbrev pub keep_session : Env → Order → PaymentSession → M String
  keep_session env o p = elim (truthy p.url) [
    | none ↦ throw plain
    | some url ↦ update_order db env o.id (set_session p.id) >> pure url
  ]

  abbrev pub payment_params : Env → CreateCheckoutSession → List Line → Order → SessionParams
  payment_params env dto lines o =
      session_params env.now o.id lines (shipping_for lines) (only_digital_lines lines) dto.email

  -- The `try` of `createSession`.
  abbrev pub open_session : Env → CreateCheckoutSession → List Line → Order → M String
  open_session env dto lines o = do
    p ← open_result (create_payment (payment_params env dto lines o))
    keep_session env o p

  abbrev pub create_order : Order → M (Unit {0})
  create_order o s = set_orders s (db.order.create o s.orders)

  -- The rest of `createSession`, where Stripe is configured.
  abbrev pub place_order : Env → CreateCheckoutSession → List Line → Order → M String
  place_order env dto lines o = do
    create_order o
    catch (open_session env dto lines o) (λ e. throw (http 503))

  abbrev pub place : Env → ℕ → CreateCheckoutSession → M String
  place env number dto = do
    lines ← build_lines_from_database dto.items
    place_order env dto lines (new_order env number dto lines)

  unfoldable pub create_session : Env → ℕ → CreateCheckoutSession → M String
  create_session env number dto = if has_stripe then place env number dto else throw (http 503)
