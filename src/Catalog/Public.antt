-- ===== src/Catalog/Public.antt =====
-- modules/catalog/public-catalog.service.ts: what the shop shows. Rows stand in no stated order.
use kori_backend.Catalog.Rows.{is_active_of, image_of}
use kori_backend.Constants.{store_currency}
use kori_backend.Database.{
  ok, http, err, Result, Store, Product, ProductVariant, ProductImage, Prisma,
}
use kori_backend.Prelude.{none, some, any, ◌&&◌, str_eq, ℕ, map, Bool, Option, String, List}

pub record PublicImage : Type 0 where
  pub url : String
  pub alt_text : Option String
  pub is_primary : Bool

pub record PublicVariant : Type 0 where
  pub id : String
  pub label : String
  pub size : Option String
  pub color : Option String
  pub sku : String
  pub price_cents : ℕ

pub record PublicProduct : Type 0 where
  pub id : String
  pub name : String
  pub slug : String
  pub images : List PublicImage
  pub variants : List PublicVariant

pub record PublicCatalog : Type 0 where
  pub currency : String
  pub products : List PublicProduct

abbrev pub public_image : ProductImage → PublicImage
public_image i = record { url = i.url; alt_text = i.alt_text; is_primary = i.is_primary }

abbrev pub public_variant : ProductVariant → PublicVariant
public_variant v = record {
  id = v.id;
  label = v.label;
  size = v.size;
  color = v.color;
  sku = v.sku;
  price_cents = v.price_cents;
}

-- `PURCHASABLE`.
abbrev pub is_purchasable : List ProductVariant → Product → Bool
is_purchasable vs p = p.is_active && any (is_active_of p.id) vs

module _ (db : Prisma) where
  -- `PUBLIC_PRODUCT_SELECT`.
  abbrev pub public_product : Store → Product → PublicProduct
  public_product s p = record {
    id = p.id;
    name = p.name;
    slug = p.slug;
    images = map public_image (db.product_image.find_all (image_of p.id) s.images);
    variants = map public_variant (db.product_variant.find_all (is_active_of p.id) s.variants);
  }

  unfoldable pub find_all : Store → PublicCatalog
  find_all s = record {
    currency = store_currency;
    products = map (public_product s) (db.product.find_all (is_purchasable s.variants) s.products);
  }

  abbrev pub shown_or_missing : Store → Option Product → Result PublicProduct
  shown_or_missing s none = err (http 404)
  shown_or_missing s (some p) = ok (public_product s p)

  unfoldable pub find_by_slug : String → Store → Result PublicProduct
  find_by_slug slug s =
      shown_or_missing s
        (db.product.find_first (λ p. str_eq p.slug slug && is_purchasable s.variants p) s.products)
