-- ===== src/Catalog.antt =====
-- modules/catalog/catalog.service.ts: the panel's products and variants.
pub mod Rows
pub use Rows.*
pub mod Images
pub mod Assets
pub mod Files
pub mod Pictures
pub mod LastPicture
pub mod Sellable
pub mod Edits
pub mod Calls
pub mod Variants
pub mod Products
pub mod Primary
pub mod PrimaryDeletion
pub mod Shown
pub mod OnSale
pub mod Sales
pub mod Digital
pub mod Cart
pub mod Public
pub mod Shelf
use kori_backend.Reconciliation.{is_orphan_grant, is_orphan}
use kori_backend.Payments.{is_digital}
use kori_backend.Checkout.{lacks_file, is_pod, lacks_print, variant_is, product_is}
use kori_backend.Constants.{nunca_cobrado}
use kori_backend.Prelude.{
  ◌||◌, ◌+◌, discard, [], ◌==◌, ◌&&◌, truthy, true, str_eq, is_empty, false, count_where, any, ◌∷◌,
  some, or_else, not, none, map, if◌then◌else◌, Bool, ℕ, String, Option, List,
}
use kori_backend.Database.{
  foreign_key, err, ◌>>=◌, unique_violation, pure, ok, not_found, ◌>>◌, transaction, throw, pod,
  http, catch, Result, ProductImage, Order, FulfillmentType, Env, Store, ProductVariant, Product,
  Prisma, OrderItem, M, Failure,
}

abbrev pub set_products : Store → Result (List Product) → Store × Result (Unit {0})
set_products s (ok t) = (record s { products = t }, ok tt)
set_products s (err e) = (s, err e)

abbrev pub set_variants : Store → Result (List ProductVariant) → Store × Result (Unit {0})
set_variants s (ok t) = (record s { variants = t }, ok tt)
set_variants s (err e) = (s, err e)

-- `rethrowUniqueViolation` and the `throw` after it.
abbrev pub conflict : Failure → Failure
conflict unique_violation = http 409
conflict e = e

abbrev pub with_conflicts : {A : Type 0} → M A → M A
with_conflicts m = catch m (λ e. throw (conflict e))

-- `{ ...priceCents }` is truthy where it is a number other than 0.
abbrev pub price_given : Option ℕ → Option ℕ
price_given none = none
price_given (some n) = if n == 0 then none else some n

abbrev pub is_digital_choice : Option FulfillmentType → Bool
is_digital_choice none = false
is_digital_choice (some t) = is_digital t

-- `upper` is JavaScript's toUpperCase.
module _ (db : Prisma) (upper : String → String) where
  abbrev pub assert_found : {A : Type 0} → Option A → Failure → M (Unit {0})
  assert_found none e = throw e
  assert_found (some a) e = pure tt

  -- `assertProductExists`.
  abbrev pub assert_product_exists : String → M (Unit {0})
  assert_product_exists id s =
      assert_found (db.product.find_first (product_is id) s.products) (http 404) s

  abbrev pub assert_owned : String → Option ProductVariant → M (Unit {0})
  assert_owned product_id none = throw (http 404)
  assert_owned product_id (some v) = if variant_of product_id v then pure tt else throw (http 404)

  -- `assertVariantBelongsToProduct`.
  abbrev pub assert_variant_belongs : String → String → M (Unit {0})
  assert_variant_belongs product_id variant_id s =
      assert_owned product_id (db.product_variant.find_first (variant_is variant_id) s.variants) s

  abbrev pub assert_publishable_row : String → Option Product → M (Unit {0})
  assert_publishable_row id none s = (s, err not_found)
  assert_publishable_row id (some p) s = (
    s,
    if is_publishable p (db.product_variant.find_all (is_active_of id) s.variants)
          (db.product_image.count (image_of id) s.images)
        then ok tt
        else err (http 409),
  )

  -- `assertProductIsPublishable`.
  abbrev pub assert_product_is_publishable : String → M (Unit {0})
  assert_product_is_publishable id s =
      assert_publishable_row id (db.product.find_first (product_is id) s.products) s

  abbrev pub assert_if_active : String → Option Product → M (Unit {0})
  assert_if_active id none = throw not_found
  assert_if_active id (some p) = if p.is_active then assert_product_is_publishable id else pure tt

  -- `assertStillPublishable`.
  abbrev pub assert_still_publishable : String → M (Unit {0})
  assert_still_publishable id s =
      assert_if_active id (db.product.find_first (product_is id) s.products) s

  abbrev pub create_variant_row : ProductVariant → M (Unit {0})
  create_variant_row v s = set_variants s (db.product_variant.create v s.variants)

  -- The variant that a digital product is made with.
  abbrev pub create_file : Env → CreateProductDto → Option ℕ → M (Unit {0})
  create_file env dto none = pure tt
  create_file env dto (some n) =
      create_variant_row (download_variant (env.uuid 1) (env.uuid 0) (upper dto.slug) n)

  abbrev pub create_rows : Env → CreateProductDto → Option ℕ → M (Unit {0})
  create_rows env dto price = transaction (do
    λ s. set_products s (db.product.create (new_product (env.uuid 0) dto) s.products)
    create_file env dto price)

  unfoldable pub create_product : Env → CreateProductDto → M (Unit {0})
  create_product env dto =
      if is_digital_choice dto.fulfillment_type
      then elim (price_given dto.price_cents) [
        | none ↦ throw (http 409)
        | some n ↦ with_conflicts (create_rows env dto (some n))
      ]
      else with_conflicts (create_rows env dto none)

  abbrev pub update_product_row : String → UpdateProductDto → M (Unit {0})
  update_product_row id dto s =
      set_products s (db.product.update (product_is id) (product_patch dto) s.products)

  unfoldable pub update_product : String → UpdateProductDto → M (Unit {0})
  update_product id dto = do
    assert_product_exists id
    if get_or dto.is_active false then assert_product_is_publishable id else pure tt
    with_conflicts (update_product_row id dto)

  -- The cascade takes the product's variants and images. An order's line that still sells one of
  -- the variants holds the product back.
  abbrev pub delete_product_row : String → M (Unit {0})
  delete_product_row id s =
      if any (has_product s.variants id) s.orders
      then (s, err foreign_key)
      else elim (db.product.delete (product_is id) s.products) [
        | err e ↦ (s, err e)
        | ok t ↦ (
          record s {
            products = t;
            variants = discard (variant_of id) s.variants;
            images = discard (image_of id) s.images;
          },
          ok tt,
        )
      ]

  -- The deletion of the attempts takes their jobs and grants along.
  abbrev pub delete_attempts : String → M ℕ
  delete_attempts id s =
      let (t, n) =
        db.order.delete_many (λ o. nunca_cobrado o && has_product s.variants id o) s.orders in
      (
        record s {
          orders = t;
          jobs = discard (is_orphan t s.orders) s.jobs;
          grants = discard (is_orphan_grant t s.orders) s.grants;
        },
        ok n,
      )

  abbrev pub delete_rows : String → M ℕ
  delete_rows id = transaction (do n ← delete_attempts id; delete_product_row id; pure n)

  abbrev pub product_files : String → Store → ℕ → DeletedProduct
  product_files id s n = record {
    discarded_attempts = n;
    image_files =
        some_texts (map (λ i. i.storage_path) (db.product_image.find_all (image_of id) s.images));
    asset_files =
        some_texts (
          map (λ v. v.digital_asset_path) (db.product_variant.find_all (variant_of id) s.variants));
  }

  abbrev pub sold_units : String → Store → ℕ
  sold_units id s =
      count_items (sells_product s.variants id)
        (db.order.find_all (λ o. not (nunca_cobrado o)) s.orders)

  abbrev pub delete_unsold : String → M DeletedProduct
  delete_unsold id s =
      if sold_units id s == 0
      then (delete_rows id >>= λ n. pure (product_files id s n)) s
      else (s, err (http 409))

  unfoldable pub delete_product : String → M DeletedProduct
  delete_product id = assert_product_exists id >> delete_unsold id

  unfoldable pub create_variant : Env → String → CreateVariantDto → M (Unit {0})
  create_variant env product_id dto = do
    assert_product_exists product_id
    with_conflicts (create_variant_row (new_variant (env.uuid 0) product_id dto))

  abbrev pub update_variant_row : String → UpdateVariantDto → M (Unit {0})
  update_variant_row variant_id dto s =
      set_variants s
        (db.product_variant.update (variant_is variant_id) (variant_patch dto) s.variants)

  unfoldable pub update_variant : String → String → UpdateVariantDto → M (Unit {0})
  update_variant product_id variant_id dto = do
    assert_variant_belongs product_id variant_id
    with_conflicts
        (transaction (do update_variant_row variant_id dto; assert_still_publishable product_id))

  abbrev pub delete_variant_row : String → M (Unit {0})
  delete_variant_row variant_id s =
      set_variants s (db.product_variant.delete (variant_is variant_id) s.variants)

  abbrev pub delete_unsold_variant : String → String → M (Unit {0})
  delete_unsold_variant product_id variant_id s =
      if count_items (λ i. str_eq i.variant_id variant_id) s.orders == 0
      then transaction (do delete_variant_row variant_id; assert_still_publishable product_id) s
      else (s, err (http 409))

  unfoldable pub delete_variant : String → String → M (Unit {0})
  delete_variant product_id variant_id =
      assert_variant_belongs product_id variant_id >> delete_unsold_variant product_id variant_id
