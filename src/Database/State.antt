-- ===== src/Database/State.antt =====
-- The shop's tables together, and the monad of a call that reads and writes them and may throw.
-- A write that is not in a transaction stays when a later step throws.
use kori_backend.Prelude.{◌⊎◌, inl, inr, refl, inr, inl, ◌⊎◌, ◌≡◌, ℕ, String, List}
use kori_backend.Database.Outcome.{Result, ok, err, Failure}
use kori_backend.Database.Schema.{
  Order, Order_clash, OutboxJob, OutboxJob_clash, DownloadGrant, DownloadGrant_clash, WebhookEvent,
  WebhookEvent_clash, Subscriber, Subscriber_clash, PurchaseAccessToken, PurchaseAccessToken_clash,
}
use kori_backend.Database.Catalog.{
  Product, Product_clash, ProductVariant, ProductVariant_clash, ProductImage, ProductImage_clash,
  User, User_clash, RefreshToken, RefreshToken_clash,
}
use kori_backend.Database.Site.{
  AppSetting, AppSetting_clash, SignalSignup, SignalSignup_clash, ContactMessage,
  ContactMessage_clash, Note, Note_clash,
}
use kori_backend.Database.Client.{Delegate}

-- `EnlaceDeDescarga` of digital-delivery.service.ts.
pub record Link : Type 0 where
  pub name : String
  pub url : String

pub record Store : Type 0 where
  pub orders : List Order
  pub jobs : List OutboxJob
  pub grants : List DownloadGrant
  pub webhook_events : List WebhookEvent
  pub subscribers : List Subscriber
  pub access_tokens : List PurchaseAccessToken
  pub contact_messages : List ContactMessage
  pub settings : List AppSetting
  pub signups : List SignalSignup
  pub notes : List Note
  pub products : List Product
  pub variants : List ProductVariant
  pub images : List ProductImage
  pub users : List User
  pub refresh_tokens : List RefreshToken

-- `prismaService`: one delegate for each table.
pub record Prisma : Type 0 where
  pub order : Delegate Order Order_clash
  pub outbox_job : Delegate OutboxJob OutboxJob_clash
  pub download_grant : Delegate DownloadGrant DownloadGrant_clash
  pub webhook_event : Delegate WebhookEvent WebhookEvent_clash
  pub subscriber : Delegate Subscriber Subscriber_clash
  pub app_setting : Delegate AppSetting AppSetting_clash
  pub signal_signup : Delegate SignalSignup SignalSignup_clash
  pub contact_message : Delegate ContactMessage ContactMessage_clash
  pub note : Delegate Note Note_clash
  pub product : Delegate Product Product_clash
  pub product_variant : Delegate ProductVariant ProductVariant_clash
  pub product_image : Delegate ProductImage ProductImage_clash
  pub user : Delegate User User_clash
  pub refresh_token : Delegate RefreshToken RefreshToken_clash
  pub purchase_access_token : Delegate PurchaseAccessToken PurchaseAccessToken_clash

-- The mails that the shop sends.
pub data Mail : Type 0 where
  order_confirmation shipping_notification manual_fulfillment : Order → Mail
  download_links : Order → List Link → Mail
  admin_alert : String → String → Mail
  contact_message : ContactMessage → Mail
  purchase_access : String → String → Mail

-- What a call takes from outside: the clock, `Math.random` as a numerator over 2 ^ 53, the
-- identifiers that the database generates, the tokens of `randomBytes`, and how a mail's sending
-- ends.
pub record Env : Type 0 where
  pub now : ℕ
  pub random : ℕ
  pub uuid : ℕ → String
  pub token : ℕ → String
  pub send : Mail → Result (Unit {0})

abbrev pub M : Type 0 → Type 0
M A = Store → Store × Result A

abbrev pub continue : {A B : Type 0} → Store × Result A → (A → M B) → Store × Result B
continue (s, ok a) f = f a s
continue (s, err e) f = (s, err e)

infixl 5 ◌>>=◌ ◌>>◌
abbrev pub ◌>>=◌ : {A B : Type 0} → M A → (A → M B) → M B
◌>>=◌ m f s = continue (m s) f

abbrev pub ◌>>◌ : {B : Type 0} → M (Unit {0}) → M B → M B
◌>>◌ m k s = continue (m s) (λ _. k)

abbrev pub pure : {A : Type 0} → A → M A
pure a s = (s, ok a)

abbrev pub throw : {A : Type 0} → Failure → M A
throw e s = (s, err e)

-- A transaction that throws leaves no write.
abbrev pub rollback : {A : Type 0} → Store → Store × Result A → Store × Result A
rollback s (s', ok a) = (s', ok a)
rollback s (s', err e) = (s, err e)

abbrev pub transaction : {A : Type 0} → M A → M A
transaction m s = rollback s (m s)

-- try / catch.
abbrev pub handle_failure : {A : Type 0} → Store × Result A → (Failure → M A) → Store × Result A
handle_failure (s, ok a) h = (s, ok a)
handle_failure (s, err e) h = h e s

abbrev pub catch : {A : Type 0} → M A → (Failure → M A) → M A
catch m h s = handle_failure (m s) h

-- A call ends with a value or with an exception.
pub M-cases :
    {A : Type 0} (r : Store × Result A)
    → ((s : Store) × (a : A) × (r ≡ (s, ok a))) ⊎ ((s : Store) × (e : Failure) × (r ≡ (s, err e)))
M-cases (s, ok a) = inl (s, a, refl)
M-cases (s, err e) = inr (s, e, refl)

abbrev pub send_mail : Env → Mail → M (Unit {0})
send_mail env mail s = (s, env.send mail)
