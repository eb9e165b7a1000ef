-- ===== src/Catalog/Images.antt =====
-- modules/catalog/product-images.service.ts: the images of a product. What the store of files made
-- of an upload is an argument, and the removal of a file afterwards is outside the tables.
use kori_backend.Checkout.{product_is}
use kori_backend.Catalog.Rows.{get_or, image_of}
use kori_backend.Catalog.{assert_product_exists}
use kori_backend.Database.{
  ◌>>◌, transaction, not_found, http, ◌>>=◌, throw, pure, ok, err, Result, Product, M, Env, Store,
  ProductImage, Prisma,
}
use kori_backend.Prelude.{
  any, ◌||◌, ◌==◌, ◌+◌, length, [], ◌∷◌, ◌&&◌, not, leb, str_eq, some, if◌then◌else◌, true, none,
  false, List, Bool, ℕ, String, Option,
}

pub record StoredImage : Type 0 where
  pub image_url : String
  pub storage_path : String

pub record UploadProductImageDto : Type 0 where
  pub alt_text : Option String
  pub is_primary : Option Bool

pub record UpdateProductImageDto : Type 0 where
  pub alt_text : Option String
  pub is_primary : Option Bool

abbrev pub max_images_per_product : ℕ
max_images_per_product = 10

abbrev pub image_is : String → ProductImage → Bool
image_is id i = str_eq i.id id

abbrev pub primary_of : String → ProductImage → Bool
primary_of product_id i = image_of product_id i && i.is_primary

-- The primary image of a product, if it is another than the given one.
abbrev pub other_primary : String → String → ProductImage → Bool
other_primary product_id image_id i = primary_of product_id i && not (image_is image_id i)

abbrev pub lower : ProductImage → ProductImage
lower i = record i { is_primary = false }

abbrev pub raise : ProductImage → ProductImage
raise i = record i { is_primary = true }

abbrev pub move_to : ℕ → ProductImage → ProductImage
move_to index i = record i { sort_order = index }

abbrev pub image_patch : UpdateProductImageDto → ProductImage → ProductImage
image_patch dto i = record i {
  alt_text = elim dto.alt_text [ none ↦ i.alt_text | some t ↦ some t ];
  is_primary = get_or dto.is_primary i.is_primary;
}

abbrev pub new_image :
    String → String → StoredImage → UploadProductImageDto → Bool → ℕ → ProductImage
new_image id product_id stored dto is_primary sort_order = record {
  id = id;
  product_id = product_id;
  url = stored.image_url;
  storage_path = some stored.storage_path;
  alt_text = dto.alt_text;
  sort_order = sort_order;
  is_primary = is_primary;
}

abbrev pub set_images : Store → Result (List ProductImage) → Store × Result (Unit {0})
set_images s (ok t) = (record s { images = t }, ok tt)
set_images s (err e) = (s, err e)

module _ (db : Prisma) (upper : String → String) where
  -- `updateMany` on the primary image of a product that passes a test.
  abbrev pub lower_primary : (ProductImage → Bool) → M (Unit {0})
  lower_primary p s =
      (record s { images = (db.product_image.update_many p lower s.images).0 }, ok tt)

  abbrev pub create_image : ProductImage → M (Unit {0})
  create_image i s = set_images s (db.product_image.create i s.images)

  abbrev pub store_image :
      Env → String → UploadProductImageDto → ℕ → Result StoredImage → M (Unit {0})
  store_image env product_id dto existing (err e) = throw e
  store_image env product_id dto existing (ok stored) =
      let should_be_primary = get_or dto.is_primary false || existing == 0 in
      transaction (
        (if should_be_primary then lower_primary (primary_of product_id) else pure tt)
        >> create_image (new_image (env.uuid 0) product_id stored dto should_be_primary existing))

  abbrev pub upload_counted :
      Env → String → UploadProductImageDto → Result StoredImage → ℕ → M (Unit {0})
  upload_counted env product_id dto stored existing =
      if leb max_images_per_product existing
      then throw (http 400)
      else store_image env product_id dto existing stored

  unfoldable pub upload_image :
      Env → String → UploadProductImageDto → Result StoredImage → M (Unit {0})
  upload_image env product_id dto stored = assert_product_exists db upper product_id >> λ s.
      upload_counted env product_id dto stored
        (db.product_image.count (image_of product_id) s.images) s

  abbrev pub own_image : String → Option ProductImage → M ProductImage
  own_image product_id none = throw (http 404)
  own_image product_id (some i) = if image_of product_id i then pure i else throw (http 404)

  -- `assertImageBelongsToProduct`.
  abbrev pub assert_image_belongs : String → String → M ProductImage
  assert_image_belongs product_id image_id s =
      own_image product_id (db.product_image.find_first (image_is image_id) s.images) s

  abbrev pub write_image : String → (ProductImage → ProductImage) → M (Unit {0})
  write_image id f s = set_images s (db.product_image.update (image_is id) f s.images)

  unfoldable pub update_image : String → String → UpdateProductImageDto → M (Unit {0})
  update_image product_id image_id dto = assert_image_belongs product_id image_id >>= λ image.
      transaction (
        (if get_or dto.is_primary false
          then lower_primary (other_primary product_id image_id)
          else pure tt)
        >> write_image image_id (image_patch dto))

  abbrev pub write_order : ℕ → List String → M (Unit {0})
  write_order index [] = pure tt
  write_order index (id ∷ ids) = write_image id (move_to index) >> write_order (index + 1) ids

  abbrev pub order_found : List String → List ProductImage → M (Unit {0})
  order_found ids images =
      if not (length ids == length images) || any (λ id. not (any (image_is id) images)) ids
      then throw (http 400)
      else transaction (write_order 0 ids)

  -- Its answer, the images in their order, is left out.
  unfoldable pub reorder_images : String → List String → M (Unit {0})
  reorder_images product_id ids = assert_product_exists db upper product_id >> λ s.
      order_found ids (db.product_image.find_all (image_of product_id) s.images) s

  abbrev pub raise_next : List ProductImage → M (Unit {0})
  raise_next [] = pure tt
  raise_next (next ∷ rest) = write_image next.id raise

  -- The image that takes over is the first by its order.
  abbrev pub raise_first : String → M (Unit {0})
  raise_first product_id s =
      raise_next (db.product_image.find_many (image_of product_id) (λ i. i.sort_order) 1 s.images) s

  abbrev pub assert_pictured_row : String → Option Product → M (Unit {0})
  assert_pictured_row product_id none s = (s, err not_found)
  assert_pictured_row product_id (some p) s = (
    s,
    if p.is_active && db.product_image.count (image_of product_id) s.images == 0
        then err (http 409)
        else ok tt,
  )

  abbrev pub assert_pictured : String → M (Unit {0})
  assert_pictured product_id s =
      assert_pictured_row product_id (db.product.find_first (product_is product_id) s.products) s

  abbrev pub delete_image_row : String → M (Unit {0})
  delete_image_row id s = set_images s (db.product_image.delete (image_is id) s.images)

  unfoldable pub delete_image : String → String → M (Unit {0})
  delete_image product_id image_id = assert_image_belongs product_id image_id >>= λ image.
      transaction (
        delete_image_row image_id
        >> ((if image.is_primary then raise_first product_id else pure tt)
            >> assert_pictured product_id))
