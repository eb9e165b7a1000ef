-- ===== src/Catalog/OnSale.antt =====
-- The panel's calls, each as a whole, and the condition of the products on sale.
use kori_backend.Catalog.Files.{remove_asset-AllSellable, upload-path, upload_asset-AllSellable}
use kori_backend.Storage.{upload, UploadedFile}
use kori_backend.Catalog.Assets.{remove_asset, upload_asset}
use kori_backend.Catalog.LastPicture.{delete_image-AllSellable}
use kori_backend.Catalog.Pictures.{
  reorder_images-AllSellable, update_image-AllSellable, upload_image-AllSellable,
}
use kori_backend.Catalog.Images.{
  delete_image, UpdateProductImageDto, reorder_images, StoredImage, update_image, upload_image,
  UploadProductImageDto,
}
use kori_backend.Catalog.Variants.{
  delete_variant-AllSellable, update_variant-AllSellable, create_variant-AllSellable,
}
use kori_backend.Catalog.Products.{
  delete_product-AllSellable, update_product-AllSellable, create_product-AllSellable,
}
use kori_backend.Catalog.Sellable.{AllSellable, IsCatalogKeyed}
use kori_backend.Catalog.{
  delete_product, create_product, CreateProductDto, delete_variant, create_variant,
  CreateVariantDto, update_product, UpdateVariantDto, update_variant, UpdateProductDto,
}
use kori_backend.Prelude.{Bool, List, false, some, none, ◌≡◌, String}
use kori_backend.Database.{mapped, Result, ◌>>=◌, pure, Env, Store, M, Prisma}

-- A call that edits the catalog.
pub data CatalogEdit : Type 0 where
  product_created : Env → CreateProductDto → CatalogEdit
  product_updated : String → UpdateProductDto → CatalogEdit
  product_deleted : String → CatalogEdit
  variant_created : Env → String → CreateVariantDto → CatalogEdit
  variant_updated : String → String → UpdateVariantDto → CatalogEdit
  variant_deleted : String → String → CatalogEdit
  image_uploaded : Env → String → UploadProductImageDto → Result StoredImage → CatalogEdit
  image_updated : String → String → UpdateProductImageDto → CatalogEdit
  images_reordered : String → List String → CatalogEdit
  image_deleted : String → String → CatalogEdit
  asset_uploaded :
      Bool → (String → Result (Unit {0})) → Env → String → String → UploadedFile → CatalogEdit
  asset_removed : String → String → CatalogEdit

abbrev pub edit : Prisma → (String → String) → CatalogEdit → M (Unit {0})
edit db upper (product_created env dto) = create_product db upper env dto
edit db upper (product_updated id dto) = update_product db upper id dto
edit db upper (product_deleted id) = delete_product db upper id >>= λ d. pure tt
edit db upper (variant_created env id dto) = create_variant db upper env id dto
edit db upper (variant_updated id variant_id dto) = update_variant db upper id variant_id dto
edit db upper (variant_deleted id variant_id) = delete_variant db upper id variant_id
edit db upper (image_uploaded env id dto stored) = upload_image db upper env id dto stored
edit db upper (image_updated id image_id dto) = update_image db upper id image_id dto
edit db upper (images_reordered id ids) = reorder_images db upper id ids
edit db upper (image_deleted id image_id) = delete_image db upper id image_id
edit db upper (asset_uploaded has_client put env id variant_id file) =
    upload_asset db upper id variant_id (λ v. upload has_client put env v file) >>= λ r. pure tt
edit db upper (asset_removed id variant_id) = remove_asset db upper id variant_id >>= λ r. pure tt

-- An update that leaves the kind of fulfilment alone, and a new variant that is not active.
abbrev pub IsGuarded : CatalogEdit → Type 0
IsGuarded (product_updated id dto) = dto.fulfillment_type ≡ none
IsGuarded (variant_created env id dto) = dto.is_active ≡ some false
IsGuarded _ = Unit {0}

module _ (db : Prisma) (upper : String → String) where
  -- Every product on sale stays sellable through any call that edits the catalog, where the
  -- call leaves the kind of fulfilment alone and adds no variant that is active at once, and
  -- where rows are told apart by their unique columns.
  pub edit-AllSellable :
      (e : CatalogEdit) (s : Store)
      → IsGuarded e
      → IsCatalogKeyed s
      → AllSellable s
      → AllSellable (edit db upper e s).0
  edit-AllSellable (product_created env dto) s guarded keyed all =
      create_product-AllSellable db upper env dto s all
  edit-AllSellable (product_updated id dto) s guarded keyed all =
      update_product-AllSellable db upper id dto s guarded keyed all
  edit-AllSellable (product_deleted id) s guarded keyed all =
      mapped AllSellable (delete_product db upper id) (λ d. tt) s
        (delete_product-AllSellable db upper id s all)
  edit-AllSellable (variant_created env id dto) s guarded keyed all =
      create_variant-AllSellable db upper env id dto s guarded all
  edit-AllSellable (variant_updated id variant_id dto) s guarded keyed all =
      update_variant-AllSellable db upper id variant_id dto s keyed all
  edit-AllSellable (variant_deleted id variant_id) s guarded keyed all =
      delete_variant-AllSellable db upper id variant_id s keyed all
  edit-AllSellable (image_uploaded env id dto stored) s guarded keyed all =
      upload_image-AllSellable db upper env id dto stored s all
  edit-AllSellable (image_updated id image_id dto) s guarded keyed all =
      update_image-AllSellable db upper id image_id dto s all
  edit-AllSellable (images_reordered id ids) s guarded keyed all =
      reorder_images-AllSellable db upper id ids s all
  edit-AllSellable (image_deleted id image_id) s guarded (products, variants, images) all =
      delete_image-AllSellable db upper id image_id s products images all
  edit-AllSellable (asset_uploaded has_client put env id variant_id file) s guarded keyed all =
      mapped AllSellable
        (upload_asset db upper id variant_id (λ v. upload has_client put env v file)) (λ r. tt) s
        (upload_asset-AllSellable db upper id variant_id (λ v. upload has_client put env v file) s
          (λ stored h. upload-path has_client put env variant_id file stored h) keyed all)
  edit-AllSellable (asset_removed id variant_id) s guarded keyed all =
      mapped AllSellable (remove_asset db upper id variant_id) (λ r. tt) s
        (remove_asset-AllSellable db upper id variant_id s keyed all)
