-- ===== src/Catalog/Assets.antt =====
-- modules/catalog/digital-asset.service.ts: the file that a variant sells. The removal of a file
-- from the store is outside the tables, and fails in silence: a call returns the file that it then
-- asks the store to remove.
use kori_backend.Catalog.Rows.{variant_of}
use kori_backend.Payments.{is_digital}
use kori_backend.Checkout.{product_is, variant_is}
use kori_backend.Catalog.{set_variants}
use kori_backend.Storage.{StoredAsset}
use kori_backend.Database.{
  ◌>>◌, pure, plain, ok, http, ◌>>=◌, throw, err, Result, Product, M, ProductVariant, Prisma,
}
use kori_backend.Prelude.{
  ◌&&◌, str_eq, not, if◌then◌else◌, truthy, some, none, Bool, String, Option,
}

abbrev pub owned_variant : String → String → ProductVariant → Bool
owned_variant product_id variant_id v = variant_is variant_id v && variant_of product_id v

abbrev pub asset_patch : StoredAsset → ProductVariant → ProductVariant
asset_patch stored v = record v {
  digital_asset_path = some stored.path;
  digital_asset_bytes = some stored.bytes;
}

abbrev pub no_asset : ProductVariant → ProductVariant
no_asset v = record v { digital_asset_path = none; digital_asset_bytes = none }

-- The earlier file, where it is another than the new one.
abbrev pub replaced : Option String → String → Option String
replaced earlier path = elim (truthy earlier) [
  | none ↦ none
  | some a ↦ if str_eq a path then none else some a
]

module _ (db : Prisma) (upper : String → String) where
  abbrev pub with_product : ProductVariant → Option Product → M (ProductVariant × Product)
  with_product v none = throw plain
  with_product v (some p) = pure (v, p)

  abbrev pub found_variant : Option ProductVariant → M (ProductVariant × Product)
  found_variant none s = (s, err (http 404))
  found_variant (some v) s =
      with_product v (db.product.find_first (product_is v.product_id) s.products) s

  -- `findVariant`. The product is included with the variant: the foreign key has there be one.
  abbrev pub find_variant : String → String → M (ProductVariant × Product)
  find_variant product_id variant_id s =
      found_variant (db.product_variant.find_first (owned_variant product_id variant_id) s.variants)
        s

  abbrev pub write_asset : String → (ProductVariant → ProductVariant) → M (Unit {0})
  write_asset variant_id f s =
      set_variants s (db.product_variant.update (variant_is variant_id) f s.variants)

  -- `store_file` is the upload of the storage service.
  abbrev pub keep_asset : String → ProductVariant → Result StoredAsset → M (Option String)
  keep_asset variant_id v (err e) = throw e
  keep_asset variant_id v (ok stored) =
      write_asset variant_id (asset_patch stored)
      >> pure (replaced v.digital_asset_path stored.path)

  abbrev pub upload_for :
      String → (String → Result StoredAsset) → ProductVariant × Product → M (Option String)
  upload_for variant_id store_file (v, p) =
      if not (is_digital p.fulfillment_type)
      then throw (http 409)
      else keep_asset variant_id v (store_file variant_id)

  unfoldable pub upload_asset : String → String → (String → Result StoredAsset) → M (Option String)
  upload_asset product_id variant_id store_file =
      find_variant product_id variant_id >>= upload_for variant_id store_file

  abbrev pub remove_for : String → ProductVariant × Product → M (Option String)
  remove_for variant_id (v, p) =
      if p.is_active then throw (http 409) else elim (truthy v.digital_asset_path) [
        | none ↦ pure none
        | some path ↦ write_asset variant_id no_asset >> pure (some path)
      ]

  unfoldable pub remove_asset : String → String → M (Option String)
  remove_asset product_id variant_id = find_variant product_id variant_id >>= remove_for variant_id
