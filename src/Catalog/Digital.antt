-- ===== src/Catalog/Digital.antt =====
-- createVariant on a digital product: the variant is active before it has a file.
use kori_backend.Catalog.Sellable.{IsSellable}
use kori_backend.Payments.{is_digital}
use kori_backend.Checkout.{product_is}
use kori_backend.Catalog.{
  is_incomplete, is_active_of, new_variant, get_or, CreateVariantDto, create_variant,
}
use kori_backend.Prelude.{
  arith, mem-append_last, [], ◌∷◌, ◌++◌, All-mem, sym, eq_iff, str_eq, refl, false, any, true, some,
  ◌≡◌, String,
}
use kori_backend.Database.{ok, ProductVariant_clash, Store, Product, Env, Prisma}

module _ (db : Prisma) (upper : String → String) where
  -- A new variant of a digital product that is not made inactive is written, and the product is
  -- then not sellable, be it on sale or not.
  pub create_variant-not_IsSellable :
      (env : Env) (id : String) (dto : CreateVariantDto) (p : Product) (s : Store)
      → db.product.find_first (product_is id) s.products ≡ some p
      → is_digital p.fulfillment_type ≡ true
      → get_or dto.is_active true ≡ true
      → any (ProductVariant_clash (new_variant (env.uuid 0) id dto)) s.variants ≡ false
      → let s' = (create_variant db upper env id dto s).0 in
        (s'.products ≡ s.products)
        × ((create_variant db upper env id dto s).1 ≡ ok tt)
        × ¬ IsSellable s'.variants s'.images p
  unfolding create_variant
  create_variant-not_IsSellable env id dto p s found digital active fresh =
      let same : str_eq id p.id ≡ true =
        (eq_iff id p.id).1
          (sym ((eq_iff p.id id).0 (db.product.find_first_some _ s.products p found).1)) in
      let v = new_variant (env.uuid 0) id dto in
      rw (found, db.product_variant.create_new v s.variants fresh)
        (
          refl,
          refl,
          λ sells.
              let (sold, pictured, complete) = sells in
              let fine =
                All-mem (λ v. is_active_of p.id v ≡ true → is_incomplete p v ≡ false)
                  (s.variants ++ v ∷ []) complete (mem-append_last s.variants v)
                  (rw (same, active) refl) in
              let lacking : is_incomplete p v ≡ true = ground (arith, digital) in cc,
        )
