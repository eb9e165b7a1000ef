-- ===== src/Catalog/Calls.antt =====
-- What the guards of the panel's calls leave of the store, and the writes that they protect.
use kori_backend.Catalog.Edits.{with_variants-AllSellable}
use kori_backend.Checkout.{variant_is, product_is}
use kori_backend.Catalog.Sellable.{IsSellable, AllSellable}
use kori_backend.Catalog.{
  assert_publishable_row, assert_product_is_publishable, assert_still_publishable, set_variants,
  variant_of, assert_owned, assert_found, assert_variant_belongs, assert_product_exists,
}
use kori_backend.Prelude.{
  refl, Bool-cases, inr, IsKeyed, inl, false, Option-cases, List, ◌≡◌, String,
}
use kori_backend.Database.{
  err, ◌>>◌, transaction, Product, ok, Product_clash, ProductVariant, M-cases, Result, Store,
  Prisma,
}

module _ (db : Prisma) (upper : String → String) where
  pub belongs-store :
      (product_id variant_id : String) (s : Store)
      → (assert_variant_belongs db upper product_id variant_id s).0 ≡ s
  belongs-store product_id variant_id s =
      elim (Option-cases (db.product_variant.find_first (variant_is variant_id) s.variants)) [
        | inl q ↦ rw (q, assert_owned) refl
        | inr (r, q) ↦ elim (Bool-cases (variant_of product_id r)) [
          | inr b ↦ rw (q, assert_owned) (rw b refl)
          | inl b ↦ rw (q, assert_owned) (rw b refl)
        ]
      ]

  pub exists-store : (id : String) (s : Store) → (assert_product_exists db upper id s).0 ≡ s
  exists-store id s = elim (Option-cases (db.product.find_first (product_is id) s.products)) [
    | inl q ↦ rw (q, assert_found) refl
    | inr (r, q) ↦ rw (q, assert_found) refl
  ]

  -- A write of the variants table and the check after it, in one transaction.
  pub written-AllSellable :
      (id : String) (s : Store) (r : Result (List ProductVariant))
      → IsKeyed Product_clash s.products
      → ((vs : List ProductVariant)
          → r ≡ ok vs
          → (p : Product) → product_is id p ≡ false
          → IsSellable s.variants s.images p
          → IsSellable vs s.images p)
      → AllSellable s
      → AllSellable
          (transaction ((λ s. set_variants s r) >> assert_still_publishable db upper id) s).0
  written-AllSellable id s (err e) keyed others all = all
  written-AllSellable id s (ok vs) keyed others all =
      elim (M-cases (assert_still_publishable db upper id (record s { variants = vs }))) [
        | inr (t, e, p) ↦ rw p all
        | inl (t, u, p) ↦
            rw p (with_variants-AllSellable db upper id s t vs keyed p (others vs refl) all)
      ]

  pub checked-store :
      (id : String) (s : Store) → (assert_product_is_publishable db upper id s).0 ≡ s
  checked-store id s = elim (Option-cases (db.product.find_first (product_is id) s.products)) [
    | inl q ↦ rw (q, assert_publishable_row) refl
    | inr (r, q) ↦ rw (q, assert_publishable_row) refl
  ]
