-- ===== src/Database/Catalog.antt =====
-- The catalog's and the panel's tables of prisma/schema.prisma.
use kori_backend.Prelude.{ℕ, Bool, ◌&&◌, ◌||◌, Option, String, str_eq}
use kori_backend.Database.Schema.{FulfillmentType, same_some}

pub record Product : Type 0 where
  pub id : String
  pub name : String
  pub slug : String
  pub fulfillment_type : FulfillmentType
  pub is_active : Bool

pub record ProductVariant : Type 0 where
  pub id : String
  pub product_id : String
  pub size : Option String
  pub color : Option String
  pub label : String
  pub sku : String
  pub price_cents : ℕ
  pub provider_product_uid : Option String
  pub print_file_url : Option String
  pub digital_asset_path : Option String
  pub digital_asset_bytes : Option ℕ
  pub is_active : Bool
  pub sort_order : ℕ

pub record ProductImage : Type 0 where
  pub id : String
  pub product_id : String
  pub url : String
  pub storage_path : Option String
  pub alt_text : Option String
  pub sort_order : ℕ
  pub is_primary : Bool

pub data UserRole : Type 0 where
  admin artist : UserRole

pub record User : Type 0 where
  pub id : String
  pub email : String
  pub password_hash : String
  pub role : UserRole
  pub is_active : Bool
  pub must_change_password : Bool

pub record RefreshToken : Type 0 where
  pub id : String
  pub user_id : String
  pub token_hash : String
  pub expires_at : ℕ
  pub revoked_at : Option ℕ

abbrev pub Product_clash : Product → Product → Bool
Product_clash a b = str_eq a.id b.id || str_eq a.slug b.slug

-- The three unique indexes beside the key.
abbrev pub ProductVariant_clash : ProductVariant → ProductVariant → Bool
ProductVariant_clash a b =
    str_eq a.id b.id
    || str_eq a.sku b.sku
    || (str_eq a.product_id b.product_id && str_eq a.label b.label)
    || (str_eq a.product_id b.product_id && same_some a.size b.size && same_some a.color b.color)

-- The partial unique index of the migration admits one primary image of a product.
abbrev pub ProductImage_clash : ProductImage → ProductImage → Bool
ProductImage_clash a b =
    str_eq a.id b.id || (str_eq a.product_id b.product_id && a.is_primary && b.is_primary)

abbrev pub User_clash : User → User → Bool
User_clash a b = str_eq a.id b.id || str_eq a.email b.email

abbrev pub RefreshToken_clash : RefreshToken → RefreshToken → Bool
RefreshToken_clash a b = str_eq a.id b.id || str_eq a.token_hash b.token_hash
