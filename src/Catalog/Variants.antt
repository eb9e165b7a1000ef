-- ===== src/Catalog/Variants.antt =====
-- createVariant, updateVariant and deleteVariant, and the products on sale.
use kori_backend.Catalog.Calls.{written-AllSellable, exists-store, belongs-store}
use kori_backend.Catalog.Edits.{
  appended-IsSellable, discarded-IsSellable, other_product, patched-IsSellable, belongs,
}
use kori_backend.Checkout.{variant_is}
use kori_backend.Catalog.Sellable.{IsSellable, AllSellable, IsCatalogKeyed}
use kori_backend.Catalog.{
  conflict, get_or, new_variant, is_active_of, create_variant_row, count_items,
  assert_still_publishable, set_variants, variant_patch, delete_variant, create_variant,
  CreateVariantDto, with_conflicts, assert_variant_belongs, assert_product_exists, UpdateVariantDto,
  update_variant,
}
use kori_backend.Prelude.{
  All-mem, [], ◌∷◌, ◌++◌, true, All-of_mem, arith, any, discard, ◌==◌, str_eq, ◌∙◌, sym, ap,
  Bool-cases, inr, inl, false, List, some, ◌≡◌, String,
}
use kori_backend.Database.{
  guarded, caught, ProductVariant_clash, ◌>>◌, transaction, Product, ok, ProductVariant, M-cases,
  Env, Store, Prisma,
}

module _ (db : Prisma) (upper : String → String) where
  pub update_variant-AllSellable :
      (id variant_id : String) (dto : UpdateVariantDto) (s : Store)
      → IsCatalogKeyed s
      → AllSellable s
      → AllSellable (update_variant db upper id variant_id dto s).0
  unfolding update_variant
  update_variant-AllSellable id variant_id dto s (products, variants, images) all =
      elim (M-cases (assert_variant_belongs db upper id variant_id s)) [
        | inr (t, e, p) ↦
            let same : t ≡ s = ap (λ r. r.0) (sym p) ∙ belongs-store db upper id variant_id s in
            rw p (rw same all)
        | inl (t, u, p) ↦
            let (owned, same) = belongs db upper id variant_id s t variants p in
            let write =
              db.product_variant.update (variant_is variant_id) (variant_patch dto) s.variants in
            let m =
              transaction ((λ s. set_variants s write) >> assert_still_publishable db upper id) in
            let written =
              written-AllSellable db upper id s write products
                (λ vs q r a c. rw (db.product_variant.update_ok _ _ _ vs q) (
                  patched-IsSellable (variant_is variant_id) (variant_patch dto) s.variants s.images
                    r (λ v m h. other_product v r id (owned v m h) a)
                    (λ v m h. other_product (variant_patch dto v) r id (owned v m h) a) c))
                all in
            rw p (rw same (caught AllSellable m conflict s written))
      ]

  deleted :
      (variant_id : String) (t vs : List ProductVariant)
      → db.product_variant.delete (variant_is variant_id) t ≡ ok vs
      → vs ≡ discard (variant_is variant_id) t
  deleted variant_id t vs h = elim (Bool-cases (any (variant_is variant_id) t)) [
    | inl b ↦ let done = (rw (db.product_variant.delete_lem _ t b) at h) in cc
    | inr b ↦ let bad = (rw (db.product_variant.delete_missing _ t b) at h) in cc
  ]

  pub delete_variant-AllSellable :
      (id variant_id : String) (s : Store)
      → IsCatalogKeyed s
      → AllSellable s
      → AllSellable (delete_variant db upper id variant_id s).0
  unfolding delete_variant
  delete_variant-AllSellable id variant_id s (products, variants, images) all =
      elim (M-cases (assert_variant_belongs db upper id variant_id s)) [
        | inr (t, e, p) ↦
            let same : t ≡ s = ap (λ r. r.0) (sym p) ∙ belongs-store db upper id variant_id s in
            rw p (rw same all)
        | inl (t, u, p) ↦
            let (owned, same) = belongs db upper id variant_id s t variants p in
            let write = db.product_variant.delete (variant_is variant_id) s.variants in
            let written =
              written-AllSellable db upper id s write products
                (λ vs q r a c. rw (deleted variant_id s.variants vs q) (
                  discarded-IsSellable (variant_is variant_id) s.variants s.images r
                    (λ v m h. other_product v r id (owned v m h) a) c))
                all in
            elim (Bool-cases (count_items (λ i. str_eq i.variant_id variant_id) s.orders == 0)) [
              | inl b ↦ rw p (rw same (rw b written))
              | inr b ↦ rw p (rw same (rw b all))
            ]
      ]

  pub create_variant-AllSellable :
      (env : Env) (id : String) (dto : CreateVariantDto) (s : Store)
      → dto.is_active ≡ some false
      → AllSellable s
      → AllSellable (create_variant db upper env id dto s).0
  unfolding create_variant
  create_variant-AllSellable env id dto s off all =
      let v = new_variant (env.uuid 0) id dto in
      guarded AllSellable (assert_product_exists db upper id)
        (with_conflicts (create_variant_row db upper v)) s (exists-store db upper id s) all
        (caught AllSellable (create_variant_row db upper v) conflict s
          (created v s (ap (λ o. get_or o true) off) all))
    where
      created :
          (v : ProductVariant) (s : Store)
          → v.is_active ≡ false
          → AllSellable s
          → AllSellable (create_variant_row db upper v s).0
      created v s off all = elim (Bool-cases (any (ProductVariant_clash v) s.variants)) [
        | inl b ↦ rw (db.product_variant.create_clash v s.variants b) all
        | inr b ↦ rw (db.product_variant.create_new v s.variants b) (
            All-of_mem (λ p. p.is_active ≡ true → IsSellable (s.variants ++ v ∷ []) s.images p)
              s.products
              (λ p m on. appended-IsSellable v s.variants s.images p (none_of p) (
                All-mem (λ p. p.is_active ≡ true → IsSellable s.variants s.images p) s.products all
                  m on)))
      ]
        where
          none_of : (p : Product) → is_active_of p.id v ≡ false
          none_of p = ground (arith, off)
