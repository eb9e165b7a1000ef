-- ===== src/Catalog/Products.antt =====
-- createProduct, updateProduct and deleteProduct, and the products on sale.
use kori_backend.Reconciliation.{is_orphan_grant, is_orphan}
use kori_backend.Constants.{nunca_cobrado}
use kori_backend.Catalog.Calls.{exists-store, checked-store}
use kori_backend.Catalog.Edits.{
  alike-IsSellable, each-IsSellable, appended-IsSellable, discarded-IsSellable, other_product,
}
use kori_backend.Checkout.{product_is}
use kori_backend.Catalog.Sellable.{IsSellable, AllSellable, IsCatalogKeyed}
use kori_backend.Catalog.{
  conflict, product_files, create_file, delete_rows, has_product, image_of, delete_unsold,
  sold_units, price_given, is_digital_choice, create_rows, download_variant, new_product,
  CreateProductDto, delete_product_row, delete_product, create_product, product_patch,
  update_product_row, assert_product_is_publishable, get_or, is_active_of, create_variant_row,
  variant_of, with_conflicts, update_product, assert_product_exists, UpdateProductDto,
}
use kori_backend.Prelude.{
  discard_mem, discard_mem, discard_mem, discard_mem, discard_mem, discard_mem, discard_mem,
  discard_mem, discard_mem, discard_mem, discard_mem, discard_mem, discard_mem, discard_mem,
  discard_mem, discard_mem, discard_mem, discard_mem, discard_mem, discard_mem, discard_mem,
  discard_mem, ◌&&◌, discard_mem, discard_mem, discard_mem, eq_iff, any-discard_mem, All-append,
  any-none_of, ℕ, All-update_mem, if◌then◌else◌, Bool, Option, Memᴰ, All-mem, [], ◌∷◌, ◌++◌, true,
  All-of_mem, arith, any, discard, ◌==◌, ◌∙◌, sym, refl, ap, Bool-cases, inr, inl, false,
  Option-cases, List, some, none, ◌≡◌, String,
}
use kori_backend.Database.{
  mapped, rolled, guarded, caught, rollback, ProductImage, pure, Result-cases, ProductVariant_clash,
  ◌>>◌, Product, Product_clash, ProductVariant, M-cases, Env, Store, Prisma,
}

module _ (db : Prisma) (upper : String → String) where
  -- The row's update, where it turns no product on or the product passed the check.
  patched_row-AllSellable :
      (id : String) (dto : UpdateProductDto) (s : Store)
      → dto.fulfillment_type ≡ none
      → ((p : Product)
          → Memᴰ p s.products
          → product_is id p ≡ true
          → get_or dto.is_active p.is_active ≡ true
          → IsSellable s.variants s.images p)
      → AllSellable s
      → AllSellable (with_conflicts (update_product_row db upper id dto) s).0
  patched_row-AllSellable id dto s kind on all =
      caught AllSellable (update_product_row db upper id dto) conflict s
        (elim (Result-cases (db.product.update (product_is id) (product_patch dto) s.products)) [
          | inr (e, q) ↦ rw q all
          | inl (ps, q) ↦
              rw (q, db.product.update_ok _ _ _ ps q)
                (All-update_mem (λ p. p.is_active ≡ true → IsSellable s.variants s.images p)
                  (product_is id) (product_patch dto) s.products
                  (λ p m a b.
                    alike-IsSellable s.variants s.images p (product_patch dto p) refl
                      (ap (λ k. get_or k p.fulfillment_type) (sym kind)) (on p m a b))
                  (λ p m a.
                    All-mem (λ p. p.is_active ≡ true → IsSellable s.variants s.images p) s.products
                      all m))
        ])

  pub update_product-AllSellable :
      (id : String) (dto : UpdateProductDto) (s : Store)
      → dto.fulfillment_type ≡ none
      → IsCatalogKeyed s
      → AllSellable s
      → AllSellable (update_product db upper id dto s).0
  unfolding update_product
  update_product-AllSellable id dto s kind (products, variants, images) all =
      guarded AllSellable (assert_product_exists db upper id)
        ((if get_or dto.is_active false then assert_product_is_publishable db upper id else pure tt)
          >> with_conflicts (update_product_row db upper id dto))
        s (exists-store db upper id s) all (turned dto.is_active refl)
    where
      turned :
          (k : Option Bool)
          → dto.is_active ≡ k
          → AllSellable
              (((if get_or k false then assert_product_is_publishable db upper id else pure tt)
                  >> with_conflicts (update_product_row db upper id dto))
                s).0
      turned none h =
          patched_row-AllSellable id dto s kind
            (λ p m a b.
              All-mem (λ p. p.is_active ≡ true → IsSellable s.variants s.images p) s.products all m
                (simp h at b))
            all
      turned (some false) h =
          patched_row-AllSellable id dto s kind (λ p m a b. let off = (simp h at b) in cc) all
      turned (some true) h = elim (M-cases (assert_product_is_publishable db upper id s)) [
        | inr (t, e, p) ↦
            let same : t ≡ s = ap (λ r. r.0) (sym p) ∙ checked-store db upper id s in
            rw p (rw same all)
        | inl (t, u, p) ↦
            let (each, same) = each-IsSellable db upper id s t products p in
            rw p (rw same (patched_row-AllSellable id dto s kind (λ p m a b. each p m a) all))
      ]

  pub create_product-AllSellable :
      (env : Env) (dto : CreateProductDto) (s : Store)
      → AllSellable s
      → AllSellable (create_product db upper env dto s).0
  unfolding create_product
  create_product-AllSellable env dto s all =
      elim (Bool-cases (is_digital_choice dto.fulfillment_type)) [
        | inr b ↦
            rw b (caught AllSellable (create_rows db upper env dto none) conflict s (rows none))
        | inl b ↦ elim (Option-cases (price_given dto.price_cents)) [
          | inl q ↦ rw b (rw q all)
          | inr (n, q) ↦ rw b (
              rw q (
                caught AllSellable (create_rows db upper env dto (some n)) conflict s
                  (rows (some n))))
        ]
      ]
    where
      added : Product
      added = new_product (env.uuid 0) dto

      file : ℕ → ProductVariant
      file n = download_variant (env.uuid 1) (env.uuid 0) (upper dto.slug) n

      sale : Product → Type 0
      sale p = p.is_active ≡ true → IsSellable s.variants s.images p

      apart :
          any (Product_clash added) s.products ≡ false
          → (n : ℕ) (p : Product) → Memᴰ p s.products
          → is_active_of p.id (file n) ≡ false
      apart b n p m =
          let new = any-none_of (Product_clash added) s.products p b m in ground (arith, new)

      then_file :
          any (Product_clash added) s.products ≡ false
          → (n : ℕ)
          → AllSellable
              (rollback s (
                create_variant_row db upper
                  (file n)
                  (record s { products = s.products ++ added ∷ [] }))).0
      then_file b n = elim (Bool-cases (any (ProductVariant_clash (file n)) s.variants)) [
        | inl c ↦ rw (db.product_variant.create_clash (file n) s.variants c) all
        | inr c ↦ rw (db.product_variant.create_new (file n) s.variants c) (
            All-append (λ p. p.is_active ≡ true → IsSellable (s.variants ++ file n ∷ []) s.images p)
              s.products (added ∷ [])
              (All-of_mem _ s.products (λ p m on.
                appended-IsSellable (file n) s.variants s.images p (apart b n p m)
                  (All-mem sale s.products all m on)))
              ((λ on. cc), tt))
      ]

      rows : (price : Option ℕ) → AllSellable (create_rows db upper env dto price s).0
      rows price = elim (Bool-cases (any (Product_clash added) s.products)) [
        | inl b ↦ rw (db.product.create_clash added s.products b) all
        | inr b ↦ rw (db.product.create_new added s.products b) (after b price)
      ]
        where
          after :
              any (Product_clash added) s.products ≡ false
              → (price : Option ℕ)
              → AllSellable
                  (rollback s (
                    create_file db upper env dto price
                      (record s { products = s.products ++ added ∷ [] }))).0
          after b none = All-append sale s.products (added ∷ []) all ((λ on. cc), tt)
          after b (some n) = then_file b n

  -- The cascade takes the variants and images of the product that goes, and of no other.
  discarded_product-AllSellable :
      (id : String) (s : Store) → AllSellable s → AllSellable (delete_product_row db upper id s).0
  discarded_product-AllSellable id s all =
      elim (Bool-cases (any (has_product s.variants id) s.orders)) [
        | inl b ↦ rw b all
        | inr b ↦ elim (Bool-cases (any (product_is id) s.products)) [
          | inr c ↦ rw b (rw (db.product.delete_missing _ s.products c) all)
          | inl c ↦ rw b (
              rw (db.product.delete_lem _ s.products c) (
                All-of_mem _ (discard (product_is id) s.products) (λ p m on.
                  let (old, other) = discard_mem (product_is id) s.products p m in
                  kept_images id s.variants s.images p other (
                    discarded-IsSellable (variant_of id) s.variants s.images p
                      (λ v n a. other_product v p id a other)
                      (All-mem (λ p. p.is_active ≡ true → IsSellable s.variants s.images p)
                        s.products all old on)))))
        ]
      ]
    where
      kept_images :
          (id : String) (vs : List ProductVariant) (is : List ProductImage) (p : Product)
          → product_is id p ≡ false
          → IsSellable (discard (variant_of id) vs) is p
          → IsSellable (discard (variant_of id) vs) (discard (image_of id) is) p
      kept_images id vs is p other (sold, pictured, complete) = (
        sold,
        any-discard_mem (image_of p.id) (image_of id) is (λ i m a.
              ground (arith, eq_iff i.product_id id, eq_iff p.id id, eq_iff i.product_id p.id))
            ∙ pictured,
        complete,
      )

  pub delete_product-AllSellable :
      (id : String) (s : Store) → AllSellable s → AllSellable (delete_product db upper id s).0
  unfolding delete_product
  delete_product-AllSellable id s all =
      guarded AllSellable (assert_product_exists db upper id) (delete_unsold db upper id) s
        (exists-store db upper id s) all unsold
    where
      rows : AllSellable (delete_rows db upper id s).0
      rows =
          let (orders, n) =
            db.order.delete_many (λ o. nunca_cobrado o && has_product s.variants id o) s.orders in
          let s1 = record s {
            orders = orders;
            jobs = discard (is_orphan orders s.orders) s.jobs;
            grants = discard (is_orphan_grant orders s.orders) s.grants;
          } in
          let gone = discarded_product-AllSellable id s1 all in
          rolled AllSellable (delete_product_row db upper id >> pure n) s s1 all
            (mapped AllSellable (delete_product_row db upper id) (λ u. n) s1 gone)

      unsold : AllSellable (delete_unsold db upper id s).0
      unsold = elim (Bool-cases (sold_units db upper id s == 0)) [
        | inr b ↦ rw b all
        | inl b ↦
            rw b (mapped AllSellable (delete_rows db upper id) (product_files db upper id s) s rows)
      ]
