-- ===== src/Database/Schema.antt =====
-- prisma/schema.prisma: the rows of the shop's tables. Times are milliseconds, identifiers are
-- texts, money is whole cents. An order holds its items and events, which only it reaches.
use kori_backend.Prelude.{ℕ, String, Bool, false, List, Option, some, ◌||◌, str_eq, ◌==◌}

pub data OrderStatus : Type 0 where
  pending_payment paid in_production shipped delivered cancelled refunded needs_review : OrderStatus

pub data FulfillmentType : Type 0 where
  pod inventory digital : FulfillmentType

pub data JobType : Type 0 where
  fulfill_order deliver_digital send_order_confirmation : JobType
  send_shipping_notification send_admin_alert send_contact_message : JobType

pub data JobStatus : Type 0 where
  pending processing done failed : JobStatus

pub record OrderItem : Type 0 where
  pub id : String
  pub variant_id : String
  pub product_name : String
  pub variant_label : String
  pub sku : String
  pub unit_price_cents : ℕ
  pub quantity : ℕ
  pub line_total_cents : ℕ
  pub provider_product_uid : Option String
  pub print_file_url : Option String
  pub digital_asset_path : Option String
  pub fulfillment_type : FulfillmentType

pub record OrderEvent : Type 0 where
  pub status : OrderStatus
  pub note : String

pub record Address : Type 0 where
  pub name : Option String
  pub line1 : Option String
  pub line2 : Option String
  pub city : Option String
  pub state : Option String
  pub postal_code : Option String
  pub country : Option String

pub record Order : Type 0 where
  pub id : String
  pub order_number : ℕ
  pub status : OrderStatus
  pub checkout_session_id : Option String
  pub payment_intent_id : Option String
  pub fulfillment_submitted_at : Option ℕ
  pub fulfillment_error : Option String
  pub subtotal_cents : ℕ
  pub shipping_cents : ℕ
  pub total_cents : ℕ
  pub currency : String
  pub customer_email : String
  pub locale : String
  pub customer_name : Option String
  pub customer_phone : Option String
  pub newsletter_opt_in : Bool
  pub ship : Address
  pub review_reason : Option String
  pub paid_at : Option ℕ
  pub created_at : ℕ
  pub items : List OrderItem
  pub events : List OrderEvent

pub record WebhookEvent : Type 0 where
  pub event_id : String
  pub processed_at : Option ℕ
  pub failure : Option String

pub record DownloadGrant : Type 0 where
  pub id : String
  pub order_item_id : String
  pub token_hash : String
  pub expires_at : ℕ
  pub max_downloads : ℕ
  pub download_count : ℕ
  pub last_download_at : Option ℕ
  pub revoked_at : Option ℕ

pub record PurchaseAccessToken : Type 0 where
  pub id : String
  pub email : String
  pub token_hash : String
  pub expires_at : ℕ
  pub used_at : Option ℕ

-- The payload that the jobs carry is a contact message's identifier or nothing that is read.
pub record OutboxJob : Type 0 where
  pub id : String
  pub type : JobType
  pub status : JobStatus
  pub dedupe_key : String
  pub contact_message_id : Option String
  pub attempts : ℕ
  pub max_attempts : ℕ
  pub next_attempt_at : ℕ
  pub last_error : Option String
  pub order_id : Option String
  pub completed_at : Option ℕ

pub record Subscriber : Type 0 where
  pub id : String
  pub email : String
  pub ip_hash : Option String
  pub created_at : ℕ

-- Null never clashes with null on a unique column.
abbrev pub same_some : Option String → Option String → Bool
same_some (some a) (some b) = str_eq a b
same_some _ _ = false

abbrev pub Order_clash : Order → Order → Bool
Order_clash a b =
    str_eq a.id b.id
    || a.order_number == b.order_number
    || same_some a.checkout_session_id b.checkout_session_id
    || same_some a.payment_intent_id b.payment_intent_id

abbrev pub WebhookEvent_clash : WebhookEvent → WebhookEvent → Bool
WebhookEvent_clash a b = str_eq a.event_id b.event_id

abbrev pub DownloadGrant_clash : DownloadGrant → DownloadGrant → Bool
DownloadGrant_clash a b = str_eq a.id b.id || str_eq a.token_hash b.token_hash

abbrev pub PurchaseAccessToken_clash : PurchaseAccessToken → PurchaseAccessToken → Bool
PurchaseAccessToken_clash a b = str_eq a.id b.id || str_eq a.token_hash b.token_hash

abbrev pub OutboxJob_clash : OutboxJob → OutboxJob → Bool
OutboxJob_clash a b = str_eq a.id b.id || str_eq a.dedupe_key b.dedupe_key

abbrev pub Subscriber_clash : Subscriber → Subscriber → Bool
Subscriber_clash a b = str_eq a.id b.id || str_eq a.email b.email
