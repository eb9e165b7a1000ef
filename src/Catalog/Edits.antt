-- ===== src/Catalog/Edits.antt =====
-- The panel's edits keep every product on sale sellable.
use mathlib.Core.Path.{subst}
use kori_backend.Catalog.Sellable.{checked-IsSellable, AllSellable, IsSellable}
use kori_backend.Catalog.{
  assert_product_is_publishable, is_incomplete, assert_owned, assert_if_active, is_active_of,
  assert_variant_belongs, assert_still_publishable, variant_of,
}
use kori_backend.Checkout.{variant_is, product_is}
use kori_backend.Prelude.{
  All-append, any-append_left, [], ◌∷◌, ◌++◌, ap, All-mem, inr, Bool-cases, All-update_mem,
  All-discard, refl, inl, any-update_mem, any-discard_mem, All-of_mem, update_where, sym, discard,
  Option-cases, ◌∙◌, arith, false, eq_iff, true, Memᴰ, ◌≡◌, IsKeyed, List, String, Bool,
}
use kori_backend.Database.{
  ok, Product_clash, ProductVariant_clash, ProductImage, Store, ProductVariant, Product, Prisma,
}

-- What a patch or a deletion of other products' rows leaves of a product's condition.
pub patched-IsSellable :
    (q : ProductVariant → Bool) (f : ProductVariant → ProductVariant) (vs : List ProductVariant)
    (is : List ProductImage) (p : Product)
    → ((v : ProductVariant) → Memᴰ v vs → q v ≡ true → is_active_of p.id v ≡ false)
    → ((v : ProductVariant) → Memᴰ v vs → q v ≡ true → is_active_of p.id (f v) ≡ false)
    → IsSellable vs is p
    → IsSellable (update_where q f vs) is p
patched-IsSellable q f vs is p before after (sold, pictured, complete) = (
  any-update_mem (is_active_of p.id) q f vs (λ v m e. after v m e ∙ sym (before v m e)) ∙ sold,
  pictured,
  All-update_mem (λ v. is_active_of p.id v ≡ true → is_incomplete p v ≡ false) q f vs
      (λ v m e a. let no = after v m e in cc)
      (λ v m e.
        All-mem (λ v. is_active_of p.id v ≡ true → is_incomplete p v ≡ false) vs complete m),
)

pub discarded-IsSellable :
    (q : ProductVariant → Bool) (vs : List ProductVariant) (is : List ProductImage) (p : Product)
    → ((v : ProductVariant) → Memᴰ v vs → q v ≡ true → is_active_of p.id v ≡ false)
    → IsSellable vs is p
    → IsSellable (discard q vs) is p
discarded-IsSellable q vs is p before (sold, pictured, complete) = (
  any-discard_mem (is_active_of p.id) q vs before ∙ sold,
  pictured,
  All-discard (λ v. is_active_of p.id v ≡ true → is_incomplete p v ≡ false) q vs complete,
)

-- A new variant that is not the product's, or not active, takes nothing away.
pub appended-IsSellable :
    (v : ProductVariant) (vs : List ProductVariant) (is : List ProductImage) (p : Product)
    → is_active_of p.id v ≡ false
    → IsSellable vs is p
    → IsSellable (vs ++ v ∷ []) is p
appended-IsSellable v vs is p apart (sold, pictured, complete) = (
  any-append_left (is_active_of p.id) vs (v ∷ []) sold,
  pictured,
  All-append (λ v. is_active_of p.id v ≡ true → is_incomplete p v ≡ false) vs (v ∷ []) complete
      ((λ a. cc), tt),
)

-- The condition is about the product's identifier and kind alone.
pub alike-IsSellable :
    (vs : List ProductVariant) (is : List ProductImage) (p q : Product)
    → p.id ≡ q.id
    → p.fulfillment_type ≡ q.fulfillment_type
    → IsSellable vs is p
    → IsSellable vs is q
alike-IsSellable vs is p q same kind sells = rw (← same, ← kind) sells

pub other_product :
    (v : ProductVariant) (p : Product) (id : String)
    → variant_of id v ≡ true
    → product_is id p ≡ false
    → is_active_of p.id v ≡ false
other_product v p id a b =
    ground (arith, eq_iff v.product_id id, eq_iff p.id id, eq_iff v.product_id p.id)

pub same_product :
    (p q : Product) (id : String) → product_is id p ≡ true → q.id ≡ id → Product_clash p q ≡ true
same_product p q id a e =
    let b = (eq_iff p.id id).0 a in let c = (eq_iff p.id q.id).1 (b ∙ sym e) in rw c refl

module _ (db : Prisma) (upper : String → String) where
  -- After the check of a product, every row with its identifier is sellable.
  pub each-IsSellable :
      (id : String) (s s' : Store)
      → IsKeyed Product_clash s.products
      → assert_product_is_publishable db upper id s ≡ (s', ok tt)
      → ((p : Product)
          → Memᴰ p s.products
          → product_is id p ≡ true
          → IsSellable s.variants s.images p)
        × (s' ≡ s)
  each-IsSellable id s s' keyed h =
      let (r, m, same, sells, kept) = checked-IsSellable db upper id s s' h in
      (
        λ p n a.
            let one = keyed p r n m (same_product p r id a same) in
            subst (IsSellable s.variants s.images) (sym one) sells,
        kept,
      )

  -- The same of the rows on sale, after the check of a product that may be on sale.
  still-IsSellable :
      (id : String) (s s' : Store)
      → IsKeyed Product_clash s.products
      → assert_still_publishable db upper id s ≡ (s', ok tt)
      → ((p : Product)
          → Memᴰ p s.products
          → product_is id p ≡ true
          → p.is_active ≡ true
          → IsSellable s.variants s.images p)
        × (s' ≡ s)
  still-IsSellable id s s' keyed h =
      elim (Option-cases (db.product.find_first (product_is id) s.products)) [
        | inl q ↦ let bad = (rw (q, assert_if_active) at h) in cc
        | inr (r, q) ↦
            let (m, e) = db.product.find_first_some _ s.products r q in
            let h' = (rw (q, assert_if_active) at h) in
            elim (Bool-cases r.is_active) [
              | inl b ↦
                  let (each, kept) = each-IsSellable id s s' keyed (simp b at h') in
                  (λ p n a on. each p n a, kept)
              | inr b ↦
                  let done = (simp b at h') in
                  (
                    λ p n a on.
                        let only = keyed p r n m (same_product p r id a ((eq_iff r.id id).0 e)) in
                        let off = ap (λ z. z.is_active) only in cc,
                    cc,
                  )
            ]
      ]

  -- A new table of variants keeps the products on sale sellable, where the other products' are
  -- and those of one product pass the check.
  pub with_variants-AllSellable :
      (id : String) (s s' : Store) (vs : List ProductVariant)
      → IsKeyed Product_clash s.products
      → assert_still_publishable db upper id (record s { variants = vs }) ≡ (s', ok tt)
      → ((p : Product)
          → product_is id p ≡ false
          → IsSellable s.variants s.images p
          → IsSellable vs s.images p)
      → AllSellable s
      → AllSellable s'
  with_variants-AllSellable id s s' vs keyed h others all =
      let (mine, same) = still-IsSellable id (record s { variants = vs }) s' keyed h in
      rw same (
        All-of_mem (λ p. p.is_active ≡ true → IsSellable vs s.images p) s.products
          (λ p m on. elim (Bool-cases (product_is id p)) [
            | inl a ↦ mine p m a on
            | inr a ↦ others p a (
                All-mem (λ p. p.is_active ≡ true → IsSellable s.variants s.images p) s.products all
                  m on)
          ]))

  -- The rows with a variant's identifier belong to the product that was asked about.
  pub belongs :
      (product_id variant_id : String) (s s' : Store)
      → IsKeyed ProductVariant_clash s.variants
      → assert_variant_belongs db upper product_id variant_id s ≡ (s', ok tt)
      → ((v : ProductVariant)
          → Memᴰ v s.variants
          → variant_is variant_id v ≡ true
          → variant_of product_id v ≡ true)
        × (s' ≡ s)
  belongs product_id variant_id s s' keyed h =
      elim (Option-cases (db.product_variant.find_first (variant_is variant_id) s.variants)) [
        | inl q ↦ let bad = (rw (q, assert_owned) at h) in cc
        | inr (r, q) ↦
            let (m, e) = db.product_variant.find_first_some _ s.variants r q in
            let h' = (rw (q, assert_owned) at h) in
            elim (Bool-cases (variant_of product_id r)) [
              | inr b ↦ let bad = (rw b at h') in cc
              | inl b ↦
                  let done = (rw b at h') in
                  (
                    λ v n a.
                        let one = keyed v r n m (same_variant v r variant_id a e) in
                        ap (variant_of product_id) one ∙ b,
                    cc,
                  )
            ]
      ]
    where
      same_variant :
          (v r : ProductVariant) (id : String)
          → variant_is id v ≡ true
          → variant_is id r ≡ true
          → ProductVariant_clash v r ≡ true
      same_variant v r id a b =
          let c = (eq_iff v.id r.id).1 ((eq_iff v.id id).0 a ∙ sym ((eq_iff r.id id).0 b)) in
          rw c refl
