-- ===== src/Tests/Catalog.antt =====
-- The theorems about the catalog at concrete inputs.
use kori_backend.Catalog.Shelf.{shown_can_be_bought}
use kori_backend.Catalog.Public.{
  public_variant, public_product, find_all, PublicVariant, PublicProduct,
}
use kori_backend.Catalog.Shown.{edit_images-HasPrimary, uploaded, edit_images}
use kori_backend.Catalog.Images.{UploadProductImageDto, StoredImage}
use kori_backend.Catalog.Primary.{HasPrimary}
use kori_backend.Catalog.Sales.{delete_product_keeps_sales}
use kori_backend.Catalog.Cart.{AllSellable-cart_lines}
use kori_backend.Tests.Samples.{
  sample_world, paid_order, drumkit_variant, sample_env, drumkit_product, cart, shelf,
}
use kori_backend.Tests.Tables.{list_client}
use kori_backend.Catalog.OnSale.{edit-AllSellable, variant_updated, edit}
use kori_backend.Checkout.{Line, build_lines_from_database}
use kori_backend.Prelude.{
  arith, Memᴰ, single-IsKeyed, refl, [], ◌∷◌, true, false, some, none, ◌≡◌, String,
}
use kori_backend.Database.{
  ProductImage_clash, ProductVariant_clash, http, Product_clash, err, ok, Store, ProductImage,
}
use kori_backend.Catalog.{delete_product, UpdateVariantDto, CreateVariantDto}
use kori_backend.Catalog.Sellable.{AllSellable}

abbrev cover : ProductImage
cover = record {
  id = "image-1";
  product_id = "product-1";
  url = "https://cdn/1.png";
  storage_path = some "covers/1.png";
  alt_text = none;
  sort_order = 0;
  is_primary = true;
}

abbrev window : Store
window = record shelf { images = cover ∷ [] }

window-AllSellable : AllSellable window
window-AllSellable = ((λ on. (refl, refl, ((λ a. refl), tt))), tt)

abbrev sample_upper : String → String
sample_upper t = t

-- The only variant of a product on sale is turned off: refused, since nothing would be left.
abbrev turned_off : UpdateVariantDto
turned_off = record {
  label = none;
  size = none;
  color = none;
  sku = none;
  price_cents = none;
  provider_product_uid = none;
  print_file_url = none;
  is_active = some false;
  sort_order = none;
}

edit-AllSellable_example :
    AllSellable
      (edit list_client sample_upper (variant_updated "product-1" "variant-1" turned_off) window).0
edit-AllSellable_example =
    edit-AllSellable list_client sample_upper (variant_updated "product-1" "variant-1" turned_off)
      window tt
      (
        single-IsKeyed Product_clash drumkit_product,
        single-IsKeyed ProductVariant_clash drumkit_variant,
        single-IsKeyed ProductImage_clash cover,
      )
      window-AllSellable

abbrev second_file : CreateVariantDto
second_file = record {
  label = "Stems";
  size = some "stems";
  color = none;
  sku = "DK-2";
  price_cents = 4000;
  provider_product_uid = none;
  print_file_url = none;
  is_active = none;
  sort_order = none;
}

AllSellable-cart_lines_example : ¬ (
    (build_lines_from_database list_client
      (λ l. "es")
      true
      none
      (λ p. ok (record { id = "cs_9"; url = some "https://pay" }))
      cart.items
      window).1
    ≡ err (http 422))
AllSellable-cart_lines_example =
    AllSellable-cart_lines list_client (λ l. "es") true none
      (λ p. ok (record { id = "cs_9"; url = some "https://pay" })) cart.items window
      window-AllSellable

abbrev sold_window : Store
sold_window = record window { orders = paid_order ∷ [] }

delete_product_keeps_sales_example :
    Memᴰ paid_order (delete_product list_client sample_upper "product-1" sold_window).0.orders
delete_product_keeps_sales_example =
    delete_product_keeps_sales list_client sample_upper "product-1" paid_order sold_window
      (Memᴰ.head refl) refl

abbrev new_cover : UploadProductImageDto
new_cover = record { alt_text = none; is_primary = some true }

abbrev stored_cover : StoredImage
stored_cover = record { image_url = "https://cdn/2.png"; storage_path = "products/2.png" }

edit_images-HasPrimary_example :
    HasPrimary "product-1"
      (edit_images list_client sample_upper
        (uploaded sample_env "product-1" new_cover (ok stored_cover))
        window).0
edit_images-HasPrimary_example =
    edit_images-HasPrimary list_client sample_upper "product-1"
      (uploaded sample_env "product-1" new_cover (ok stored_cover)) window tt
      (single-IsKeyed ProductImage_clash cover) (λ some_image. refl)

abbrev drumkit_shown : PublicProduct
drumkit_shown = public_product list_client window drumkit_product

abbrev drumkit_choice : PublicVariant
drumkit_choice = public_variant drumkit_variant

shown_can_be_bought_example :
    (l : Line) × (build_lines_from_database list_client sample_world.normalize_locale true none
        sample_world.create_payment
        (record { variant_id = drumkit_choice.id; quantity = 2 } ∷ [])
        window
      ≡ (window, ok (l ∷ [])))
    × (l.product_name ≡ drumkit_shown.name)
    × (l.unit_price_cents ≡ drumkit_choice.price_cents)
    × (l.quantity ≡ 2)
unfolding find_all
shown_can_be_bought_example =
    shown_can_be_bought list_client sample_world.normalize_locale true none
      sample_world.create_payment window drumkit_shown drumkit_choice 2 window-AllSellable
      (
        single-IsKeyed Product_clash drumkit_product,
        single-IsKeyed ProductVariant_clash drumkit_variant,
        single-IsKeyed ProductImage_clash cover,
      )
      (Memᴰ.head refl) (Memᴰ.head refl) (omega arith)
