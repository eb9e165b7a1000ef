-- ===== src/Catalog/Files.antt =====
-- The calls on the file of a variant, and the products on sale.
use mathlib.Core.Path.{subst}
use kori_backend.Catalog.Assets.{
  replaced, no_asset, remove_for, asset_patch, remove_asset, with_product, found_variant,
  owned_variant, write_asset, upload_for, find_variant, upload_asset,
}
use kori_backend.Catalog.Sellable.{IsCatalogKeyed, AllSellable, IsSellable}
use kori_backend.Checkout.{product_is, is_pod, variant_is, lacks_print}
use kori_backend.Catalog.Rows.{is_incomplete, is_active_of}
use kori_backend.Payments.{is_digital}
use kori_backend.Storage.{
  max_bytes, zip_magic, same_bytes, allowed_mime_types, stored_at, asset_key, StoredAsset,
  UploadedFile, upload,
}
use kori_backend.Prelude.{
  ap, arith, All-of_mem, Option-cases, ltb, take, any, not, length, if◌then◌else◌, All-mem, refl,
  All-update_mem, ◌∙◌, sym, ◌&&◌, eq_iff, any-update_where, update_where, inl, inr, str_eq, false,
  Bool-cases, ◌<>◌, true, Memᴰ, ◌≡◌, some, truthy, is_some, List, Bool, String,
}
use kori_backend.Database.{
  mapped, Product_clash, followed, ProductVariant_clash, Store, Prisma, Result-cases, http, err,
  inventory, Failure, pod, digital, FulfillmentType, ok, Env, Result, ProductImage, Product,
  ProductVariant,
}
use text.Mathlib.TextLemmas.{cons-append, cons-ne-nil}

-- A patch that changes what a variant needs to be delivered, and nothing else of its condition.
filed-IsSellable :
    (vid : String) (f : ProductVariant → ProductVariant) (vs : List ProductVariant)
    (is : List ProductImage) (p : Product)
    → ((v : ProductVariant) → is_active_of p.id (f v) ≡ is_active_of p.id v)
    → ((v : ProductVariant)
        → Memᴰ v vs
        → variant_is vid v ≡ true
        → is_active_of p.id v ≡ true
        → is_incomplete p (f v) ≡ false)
    → IsSellable vs is p
    → IsSellable (update_where (variant_is vid) f vs) is p
filed-IsSellable vid f vs is p same fine (sold, pictured, complete) = (
  any-update_where (is_active_of p.id) (variant_is vid) f vs same ∙ sold,
  pictured,
  All-update_mem (λ v. is_active_of p.id v ≡ true → is_incomplete p v ≡ false) (variant_is vid) f vs
      (λ v m e a. fine v m e (sym (same v) ∙ a))
      (λ v m e.
        All-mem (λ v. is_active_of p.id v ≡ true → is_incomplete p v ≡ false) vs complete m),
)

digital_no_print :
    (v : ProductVariant) (p : Product)
    → is_digital p.fulfillment_type ≡ true
    → lacks_print v p ≡ false
digital_no_print v p h = both p.fulfillment_type _ h
  where
    both : (t : FulfillmentType) (b : Bool) → is_digital t ≡ true → (is_pod t && b) ≡ false
    both digital b h = refl
    both pod b h = cc
    both inventory b h = cc

stored_truthy : (t : String) → is_some (truthy (some ("variants/" <> t))) ≡ true
stored_truthy t = elim (Bool-cases (str_eq ("variants/" <> t) "")) [
  | inr e ↦ rw e refl
  | inl e ↦
      let k = (eq_iff ("variants/" <> t) "").0 e in
      elim (cons-ne-nil _ _ (sym (cons-append _ _ _) ∙ k)) [ ]
]

passed :
    (a b c d : Bool) (e f g h : Failure) (r : Result StoredAsset) (x : StoredAsset)
    → (if a then err e else if b then err f else if c then err g else if d then err h else r) ≡ ok x
    → r ≡ ok x
passed true b c d e f g h r x k = cc
passed false true c d e f g h r x k = cc
passed false false true d e f g h r x k = cc
passed false false false true e f g h r x k = cc
passed false false false false e f g h r x k = k

pub upload-path :
    (has_client : Bool) (put : String → Result (Unit {0})) (env : Env) (variant_id : String)
    (file : UploadedFile) (stored : StoredAsset)
    → upload has_client put env variant_id file ≡ ok stored
    → is_some (truthy (some stored.path)) ≡ true
unfolding upload
upload-path has_client put env variant_id file stored h =
    let path = asset_key variant_id (env.uuid 0) in
    let r = stored_at has_client put (length file.buffer) path (put path) in
    let h' =
      passed (not has_client) (not (any (str_eq file.mimetype) allowed_mime_types))
        (not (same_bytes (take 4 file.buffer) zip_magic)) (ltb max_bytes (length file.buffer))
        (http 503) (http 400) (http 400) (http 400) r stored h in
    elim (Result-cases (put path)) [
      | inr (e, q) ↦ let bad = (rw q at h') in cc
      | inl (u, q) ↦
          let done = (rw q at h') in
          let same : path ≡ stored.path = cc in
          rw (← same) (stored_truthy (variant_id <> "/" <> env.uuid 0 <> ".zip"))
    ]

module _ (db : Prisma) (upper : String → String) where
  filed-AllSellable :
      (vid : String) (f : ProductVariant → ProductVariant) (s : Store)
      → ((p : Product) (v : ProductVariant) → is_active_of p.id (f v) ≡ is_active_of p.id v)
      → ((p : Product)
          → Memᴰ p s.products
          → p.is_active ≡ true
          → (v : ProductVariant) → Memᴰ v s.variants
          → variant_is vid v ≡ true
          → is_active_of p.id v ≡ true
          → is_incomplete p (f v) ≡ false)
      → AllSellable s
      → AllSellable (write_asset db upper vid f s).0
  filed-AllSellable vid f s same fine all =
      elim (Result-cases (db.product_variant.update (variant_is vid) f s.variants)) [
        | inr (e, q) ↦ rw q all
        | inl (vs, q) ↦
            rw (q, db.product_variant.update_ok _ f _ vs q)
              (All-of_mem
                (λ p.
                  p.is_active ≡ true
                  → IsSellable (update_where (variant_is vid) f s.variants) s.images p)
                s.products
                (λ p m on. filed-IsSellable vid f s.variants s.images p (same p) (fine p m on) (
                  All-mem (λ p. p.is_active ≡ true → IsSellable s.variants s.images p) s.products
                    all m on)))
      ]

  find_variant-store : (pid vid : String) (s : Store) → (find_variant db upper pid vid s).0 ≡ s
  find_variant-store pid vid s =
      elim (Option-cases (db.product_variant.find_first (owned_variant pid vid) s.variants)) [
        | inl q ↦ rw (q, found_variant) refl
        | inr (v, q) ↦
            elim (Option-cases (db.product.find_first (product_is v.product_id) s.products)) [
              | inl r ↦ rw (q, found_variant) (rw (r, with_product) refl)
              | inr (p, r) ↦ rw (q, found_variant) (rw (r, with_product) refl)
            ]
      ]

  -- The rows that `findVariant` returns.
  find_variant-rows :
      (pid vid : String) (s t : Store) (v : ProductVariant) (p : Product)
      → find_variant db upper pid vid s ≡ (t, ok (v, p))
      → Memᴰ v s.variants × (variant_is vid v ≡ true) × Memᴰ p s.products × (p.id ≡ v.product_id)
  find_variant-rows pid vid s t v p h =
      elim (Option-cases (db.product_variant.find_first (owned_variant pid vid) s.variants)) [
        | inl q ↦ let bad = (rw (q, found_variant) at h) in cc
        | inr (v', q) ↦
            let h' = (rw (q, found_variant) at h) in
            elim (Option-cases (db.product.find_first (product_is v'.product_id) s.products)) [
              | inl r ↦ let bad = (rw (r, with_product) at h') in cc
              | inr (p', r) ↦
                  let done = (rw (r, with_product) at h') in
                  let (m, e) = db.product_variant.find_first_some _ s.variants v' q in
                  let (n, a) = db.product.find_first_some _ s.products p' r in
                  let one : v' ≡ v = cc in
                  let two : p' ≡ p = cc in
                  (
                    subst (λ v. Memᴰ v s.variants) one m,
                    subst (λ v. variant_is vid v ≡ true) one (ground (arith, e)),
                    subst (λ p. Memᴰ p s.products) two n,
                    rw (← one, ← two) ((eq_iff p'.id v'.product_id).0 a),
                  )
            ]
      ]

  -- A product that has the variant is the one that was read with it.
  same_owner :
      (vid : String) (s : Store) (v w : ProductVariant) (p r : Product)
      → IsCatalogKeyed s
      → Memᴰ v s.variants
      → variant_is vid v ≡ true
      → Memᴰ p s.products
      → p.id ≡ v.product_id
      → Memᴰ w s.variants
      → variant_is vid w ≡ true
      → Memᴰ r s.products
      → is_active_of r.id w ≡ true
      → (w ≡ v) × (r ≡ p)
  same_owner vid s v w p r (products, variants, images) m e n a m' e' n' a' =
      let alike : ProductVariant_clash w v ≡ true =
        let k = (eq_iff w.id v.id).1 ((eq_iff w.id vid).0 e' ∙ sym ((eq_iff v.id vid).0 e)) in
        rw k refl in
      let one = variants w v m' m alike in
      let owner : w.product_id ≡ r.id = (eq_iff w.product_id r.id).0 (ground (arith, a')) in
      let id_same : r.id ≡ p.id = sym owner ∙ ap (λ v. v.product_id) one ∙ sym a in
      let clash : Product_clash r p ≡ true = let k = (eq_iff r.id p.id).1 id_same in rw k refl in
      (one, products r p n' n clash)

  pub upload_asset-AllSellable :
      (pid vid : String) (store_file : String → Result StoredAsset) (s : Store)
      → ((stored : StoredAsset)
          → store_file vid ≡ ok stored
          → is_some (truthy (some stored.path)) ≡ true)
      → IsCatalogKeyed s
      → AllSellable s
      → AllSellable (upload_asset db upper pid vid store_file s).0
  unfolding upload_asset
  upload_asset-AllSellable pid vid store_file s full keyed all =
      followed AllSellable (find_variant db upper pid vid) (upload_for db upper vid store_file) s
        (subst AllSellable (sym (find_variant-store pid vid s)) all) next
    where
      next :
          (t : Store) (r : ProductVariant × Product)
          → find_variant db upper pid vid s ≡ (t, ok r)
          → AllSellable t
          → AllSellable (upload_for db upper vid store_file r t).0
      next t (v, p) h kept =
          let same : t ≡ s = ap (λ r. r.0) (sym h) ∙ find_variant-store pid vid s in
          let (m, e, n, a) = find_variant-rows pid vid s t v p h in
          subst (λ t. AllSellable (upload_for db upper vid store_file (v, p) t).0) (sym same)
            (elim (Bool-cases (is_digital p.fulfillment_type)) [
              | inr b ↦ rw b all
              | inl b ↦ elim (Result-cases (store_file vid)) [
                | inr (f, q) ↦ rw b (rw q all)
                | inl (stored, q) ↦ rw b (
                    rw q (
                      mapped AllSellable (write_asset db upper vid (asset_patch stored))
                        (λ u. replaced v.digital_asset_path stored.path) s
                        (filed-AllSellable vid (asset_patch stored) s (λ p v. refl)
                          (λ r n' on w m' e' a'.
                            let (one, two) = same_owner vid s v w p r keyed m e n a m' e' n' a' in
                            let kind : is_digital r.fulfillment_type ≡ true = rw two b in
                            let no_print = digital_no_print (asset_patch stored w) r kind in
                            let file = full stored q in rw (no_print, kind, file) refl)
                          all)))
              ]
            ])

  pub remove_asset-AllSellable :
      (pid vid : String) (s : Store)
      → IsCatalogKeyed s
      → AllSellable s
      → AllSellable (remove_asset db upper pid vid s).0
  unfolding remove_asset
  remove_asset-AllSellable pid vid s keyed all =
      followed AllSellable (find_variant db upper pid vid) (remove_for db upper vid) s
        (subst AllSellable (sym (find_variant-store pid vid s)) all) next
    where
      next :
          (t : Store) (r : ProductVariant × Product)
          → find_variant db upper pid vid s ≡ (t, ok r)
          → AllSellable t
          → AllSellable (remove_for db upper vid r t).0
      next t (v, p) h kept =
          let same : t ≡ s = ap (λ r. r.0) (sym h) ∙ find_variant-store pid vid s in
          let (m, e, n, a) = find_variant-rows pid vid s t v p h in
          subst (λ t. AllSellable (remove_for db upper vid (v, p) t).0) (sym same)
            (elim (Bool-cases p.is_active) [
              | inl b ↦ simp b all
              | inr b ↦ elim (Option-cases (truthy v.digital_asset_path)) [
                | inl q ↦ simp b (rw q all)
                | inr (path, q) ↦ simp b (
                    rw q (
                      mapped AllSellable (write_asset db upper vid no_asset) (λ u. some path) s
                        (filed-AllSellable vid no_asset s (λ p v. refl)
                          (λ r n' on w m' e' a'.
                            let (one, two) = same_owner vid s v w p r keyed m e n a m' e' n' a' in
                            let off : r.is_active ≡ false = ap (λ p. p.is_active) two ∙ b in
                            let bad = sym on ∙ off in cc)
                          all)))
              ]
            ])
