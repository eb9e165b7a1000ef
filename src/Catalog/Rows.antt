-- ===== src/Catalog/Rows.antt =====
-- modules/catalog/catalog.service.ts: what the panel sends, the rows made of it, and the tests.
use kori_backend.Payments.{is_digital}
use kori_backend.Checkout.{lacks_file, is_pod, lacks_print}
use kori_backend.Prelude.{
  ◌||◌, ◌+◌, [], ◌==◌, ◌&&◌, truthy, true, str_eq, is_empty, false, count_where, any, ◌∷◌, some,
  not, none, Bool, ℕ, String, Option, List,
}
use kori_backend.Database.{
  pod, ProductImage, Order, FulfillmentType, ProductVariant, Product, OrderItem,
}

pub record CreateProductDto : Type 0 where
  pub name : String
  pub slug : String
  pub fulfillment_type : Option FulfillmentType
  pub price_cents : Option ℕ

pub record UpdateProductDto : Type 0 where
  pub name : Option String
  pub slug : Option String
  pub fulfillment_type : Option FulfillmentType
  pub is_active : Option Bool

pub record CreateVariantDto : Type 0 where
  pub label : String
  pub size : Option String
  pub color : Option String
  pub sku : String
  pub price_cents : ℕ
  pub provider_product_uid : Option String
  pub print_file_url : Option String
  pub is_active : Option Bool
  pub sort_order : Option ℕ

-- Of a column that may be null, `some none` is the null that empties it.
pub record UpdateVariantDto : Type 0 where
  pub label : Option String
  pub size : Option (Option String)
  pub color : Option (Option String)
  pub sku : Option String
  pub price_cents : Option ℕ
  pub provider_product_uid : Option (Option String)
  pub print_file_url : Option (Option String)
  pub is_active : Option Bool
  pub sort_order : Option ℕ

-- What a deletion reports, and the files that it then asks the stores to remove.
pub record DeletedProduct : Type 0 where
  pub discarded_attempts : ℕ
  pub image_files : List String
  pub asset_files : List String

-- A field of an update that is left out keeps its value.
abbrev pub get_or {ℓ} : {A : Type ℓ} → Option A → A → A
get_or (some a) b = a
get_or none b = b

abbrev pub some_texts : List (Option String) → List String
some_texts [] = []
some_texts (o ∷ os) = elim (truthy o) [ none ↦ some_texts os | some t ↦ t ∷ some_texts os ]

abbrev pub is_active_of : String → ProductVariant → Bool
is_active_of product_id v = str_eq v.product_id product_id && v.is_active

abbrev pub variant_of : String → ProductVariant → Bool
variant_of product_id v = str_eq v.product_id product_id

abbrev pub image_of : String → ProductImage → Bool
image_of product_id i = str_eq i.product_id product_id

-- Missing something to be produced or delivered.
abbrev pub is_incomplete : Product → ProductVariant → Bool
is_incomplete p v = lacks_print v p || lacks_file v p

-- The `problems` of `assertProductIsPublishable`, as whether there are none.
abbrev pub is_publishable : Product → List ProductVariant → ℕ → Bool
is_publishable p variants images =
    not (is_empty variants)
    && not (images == 0)
    && not (is_pod p.fulfillment_type && any (λ v. lacks_print v p) variants)
    && not (is_digital p.fulfillment_type && any (λ v. lacks_file v p) variants)

-- An order's line sells a variant of the product.
abbrev pub sells_product : List ProductVariant → String → OrderItem → Bool
sells_product variants product_id i =
    any (λ v. str_eq v.id i.variant_id && variant_of product_id v) variants

abbrev pub has_product : List ProductVariant → String → Order → Bool
has_product variants product_id o = any (sells_product variants product_id) o.items

-- `count` on the lines of the orders that pass a test.
abbrev pub count_items : (OrderItem → Bool) → List Order → ℕ
count_items p [] = 0
count_items p (o ∷ os) = count_where p o.items + count_items p os

abbrev pub product_patch : UpdateProductDto → Product → Product
product_patch dto p = record p {
  name = get_or dto.name p.name;
  slug = get_or dto.slug p.slug;
  fulfillment_type = get_or dto.fulfillment_type p.fulfillment_type;
  is_active = get_or dto.is_active p.is_active;
}

abbrev pub variant_patch : UpdateVariantDto → ProductVariant → ProductVariant
variant_patch dto v = record v {
  label = get_or dto.label v.label;
  size = get_or dto.size v.size;
  color = get_or dto.color v.color;
  sku = get_or dto.sku v.sku;
  price_cents = get_or dto.price_cents v.price_cents;
  provider_product_uid = get_or dto.provider_product_uid v.provider_product_uid;
  print_file_url = get_or dto.print_file_url v.print_file_url;
  is_active = get_or dto.is_active v.is_active;
  sort_order = get_or dto.sort_order v.sort_order;
}

abbrev pub new_variant : String → String → CreateVariantDto → ProductVariant
new_variant id product_id dto = record {
  id = id;
  product_id = product_id;
  size = dto.size;
  color = dto.color;
  label = dto.label;
  sku = dto.sku;
  price_cents = dto.price_cents;
  provider_product_uid = dto.provider_product_uid;
  print_file_url = dto.print_file_url;
  digital_asset_path = none;
  digital_asset_bytes = none;
  is_active = get_or dto.is_active true;
  sort_order = get_or dto.sort_order 0;
}

abbrev pub new_product : String → CreateProductDto → Product
new_product id dto = record {
  id = id;
  name = dto.name;
  slug = dto.slug;
  fulfillment_type = get_or dto.fulfillment_type pod;
  is_active = false;
}

-- The only variant of a digital product, made with it.
abbrev pub download_variant : String → String → String → ℕ → ProductVariant
download_variant id product_id sku price_cents = record {
  id = id;
  product_id = product_id;
  size = none;
  color = none;
  label = "Descarga";
  sku = sku;
  price_cents = price_cents;
  provider_product_uid = none;
  print_file_url = none;
  digital_asset_path = none;
  digital_asset_bytes = none;
  is_active = true;
  sort_order = 0;
}
