-- ===== src/Tests/Samples.antt =====
-- Sample rows, environments and events.
use kori_backend.Checkout.{CreateCheckoutSession, no_address}
use kori_backend.Tests.Tables.{list_client}
use kori_backend.System.Paid.{World}
use kori_backend.Webhook.{payment_succeeded, StripeEvent}
use kori_backend.Prelude.{
  zero, str_eq, true, suc, if◌then◌else◌, ◌∷◌, ◌<>◌, ℕ, some, none, [], Option, String,
}
use kori_backend.Database.{
  Product, ProductVariant, plain, digital, refunded, pending_payment, paid, ok, err, Store,
  OrderItem, Order, Failure, Env,
}
use kori_backend.Payments.{PaymentIntent, Charge}

abbrev pub names : String → ℕ → String
names prefix zero = prefix <> "0"
names prefix (suc k) = prefix <> names prefix k

abbrev pub sample_env : Env
sample_env = record {
  now = 1000000;
  random = 0;
  uuid = names "u";
  token = names "t";
  send = λ mail. ok tt;
}

abbrev pub later_env : Env
later_env = record sample_env { now = 9000000; uuid = names "v"; token = names "w" }

abbrev pub broken_mail : Env
broken_mail = record sample_env { send = λ mail. err plain }

abbrev pub drumkit : OrderItem
drumkit = record {
  id = "item-1";
  variant_id = "variant-1";
  product_name = "Drumkit";
  variant_label = "WAV";
  sku = "DK-1";
  unit_price_cents = 2500;
  quantity = 1;
  line_total_cents = 2500;
  provider_product_uid = none;
  print_file_url = none;
  digital_asset_path = some "kits/1.zip";
  fulfillment_type = digital;
}

abbrev pub sample_order : Order
sample_order = record {
  id = "order-1";
  order_number = 7;
  status = pending_payment;
  checkout_session_id = some "cs_1";
  payment_intent_id = none;
  fulfillment_submitted_at = none;
  fulfillment_error = none;
  subtotal_cents = 2500;
  shipping_cents = 0;
  total_cents = 2500;
  currency = "USD";
  customer_email = "ana@example.com";
  locale = "es";
  customer_name = none;
  customer_phone = none;
  newsletter_opt_in = true;
  ship = no_address;
  review_reason = none;
  paid_at = none;
  created_at = 0;
  items = drumkit ∷ [];
  events = [];
}

abbrev pub paid_order : Order
paid_order = record sample_order {
  status = paid;
  paid_at = some 500000;
  payment_intent_id = some "pi_1";
}

abbrev pub refunded_order : Order
refunded_order = record paid_order { status = refunded }

abbrev pub empty_store : Store
empty_store = record {
  orders = [];
  jobs = [];
  grants = [];
  webhook_events = [];
  subscribers = [];
  access_tokens = [];
  contact_messages = [];
  settings = [];
  signups = [];
  notes = [];
  products = [];
  variants = [];
  images = [];
  users = [];
  refresh_tokens = [];
}

abbrev pub with_order : Order → Store
with_order o = record empty_store { orders = o ∷ [] }

abbrev pub sample_intent : PaymentIntent
sample_intent = record {
  id = "pi_1";
  order_id = some "order-1";
  latest_charge = some "ch_1";
  shipping = none;
  receipt_email = none;
}

abbrev pub sample_charge : Charge
sample_charge = record {
  id = "ch_1";
  order_id = some "order-1";
  payment_intent = some "pi_1";
  amount = 2500;
  amount_refunded = 2500;
}

abbrev pub sample_event : StripeEvent
sample_event = record { id = "evt_1"; body = payment_succeeded sample_intent }

abbrev pub sample_construct : String → String → Option StripeEvent
sample_construct body sig = if str_eq sig "good" then some sample_event else none

abbrev pub sample_message : Failure → String
sample_message e = "fallo"

abbrev pub sample_hash : String → String
sample_hash t = "#" <> t

abbrev pub sample_world : World
sample_world = record {
  db = list_client;
  sha256 = sample_hash;
  public_base_url = some "https://api.example.com/";
  message = sample_message;
  construct_event = sample_construct;
  has_stripe = true;
  retrieve = λ id. none;
  normalize_locale = λ l. "es";
  flat_shipping = none;
  create_payment = λ p. ok (record { id = "cs_9"; url = some "https://pay" });
  trim_lower = λ t. t;
  landing = some "https://shop.example.com";
  signed_url = λ path name. ok path;
}

abbrev pub cart : CreateCheckoutSession
cart = record {
  items = record { variant_id = "variant-1"; quantity = 2 } ∷ [];
  email = some "ana@example.com";
  locale = none;
  newsletter = some true;
}

abbrev pub drumkit_variant : ProductVariant
drumkit_variant = record {
  id = "variant-1";
  product_id = "product-1";
  size = none;
  color = none;
  label = "WAV";
  sku = "DK-1";
  price_cents = 2500;
  provider_product_uid = none;
  print_file_url = none;
  digital_asset_path = some "kits/1.zip";
  digital_asset_bytes = some 80000000;
  is_active = true;
  sort_order = 0;
}

abbrev pub drumkit_product : Product
drumkit_product = record {
  id = "product-1";
  name = "Drumkit";
  slug = "drumkit";
  fulfillment_type = digital;
  is_active = true;
}

abbrev pub shelf : Store
shelf = record empty_store { products = drumkit_product ∷ []; variants = drumkit_variant ∷ [] }
