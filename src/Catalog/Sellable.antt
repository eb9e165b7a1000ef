-- ===== src/Catalog/Sellable.antt =====
-- A product on sale can be produced or delivered.
use kori_backend.Payments.{is_digital}
use kori_backend.Catalog.{
  assert_publishable_row, assert_product_is_publishable, is_incomplete, image_of, is_active_of,
  is_publishable,
}
use kori_backend.Checkout.{product_is, lacks_file, lacks_print, is_pod}
use kori_backend.Database.{
  ProductImage_clash, ok, ProductVariant_clash, Product_clash, ProductImage, ProductVariant, Store,
  Product, Prisma,
}
use kori_backend.Prelude.{
  eq_iff, count_where-none, ◌∙◌, [], inl, any-of_mem, any-none_of, Option-cases, ◌∷◌, ◌||◌, ◌==◌,
  refl, inr, is_empty, Bool-cases, Bool, Memᴰ, false, All-of_mem, ◌&&◌, true, any, ◌≡◌, not, String,
  IsKeyed, All, List,
}

-- The product has an active variant and an image, and no active variant lacks anything.
abbrev pub IsSellable : List ProductVariant → List ProductImage → Product → Type 0
IsSellable vs is p =
    (any (is_active_of p.id) vs ≡ true)
    × (any (image_of p.id) is ≡ true)
    × All (λ v. is_active_of p.id v ≡ true → is_incomplete p v ≡ false) vs

-- Every product on sale is sellable.
abbrev pub AllSellable : Store → Type 0
AllSellable s = All (λ p. p.is_active ≡ true → IsSellable s.variants s.images p) s.products

-- Rows are told apart by their unique columns.
abbrev pub IsCatalogKeyed : Store → Type 0
IsCatalogKeyed s =
    IsKeyed Product_clash s.products
    × IsKeyed ProductVariant_clash s.variants
    × IsKeyed ProductImage_clash s.images

left_out : (a b c d : Bool) → not (a && b) && c ≡ true → b ≡ true → a && d ≡ false
left_out true true c d h e = cc
left_out true false c d h e = cc
left_out false b c d h e = refl

right_out : (a b c d : Bool) → c && not (a && b) ≡ true → b ≡ true → a && d ≡ false
right_out true true true d h e = cc
right_out true true false d h e = cc
right_out true false c d h e = cc
right_out false b c d h e = refl

neither : (a b : Bool) → a ≡ false → b ≡ false → a || b ≡ false
neither true b p q = cc
neither false b p q = q

all_four : (a b c d : Bool) → a && b && c && d ≡ true → (a ≡ true) × (b ≡ true) × (c && d ≡ true)
all_four true true true true h = (refl, refl, refl)
all_four true true true false h = cc
all_four true true false d h = cc
all_four true false c d h = cc
all_four false b c d h = cc

complete_of :
    (p : Product) (found : List ProductVariant) (v : ProductVariant)
    → not (is_pod p.fulfillment_type && any (λ v. lacks_print v p) found)
        && not (is_digital p.fulfillment_type && any (λ v. lacks_file v p) found)
      ≡ true
    → Memᴰ v found
    → is_incomplete p v ≡ false
complete_of p found v h m =
    let print : lacks_print v p ≡ false = elim (Bool-cases (any (λ v. lacks_print v p) found)) [
      | inr a ↦ any-none_of (λ v. lacks_print v p) found v a m
      | inl a ↦ left_out (is_pod p.fulfillment_type) _ _ _ h a
    ] in
    let file : lacks_file v p ≡ false = elim (Bool-cases (any (λ v. lacks_file v p) found)) [
      | inr a ↦ any-none_of (λ v. lacks_file v p) found v a m
      | inl a ↦ right_out (is_digital p.fulfillment_type) _ _ _ h a
    ] in
    neither (lacks_print v p) (lacks_file v p) print file

module _ (db : Prisma) (upper : String → String) where
  listed :
      (vs : List ProductVariant) (p : Product) (found : List ProductVariant)
      → db.product_variant.find_all (is_active_of p.id) vs ≡ found
      → not (is_empty found) ≡ true
      → any (is_active_of p.id) vs ≡ true
  listed vs p [] e h = cc
  listed vs p (v ∷ found) e h =
      let (m, a) =
        db.product_variant.find_all_mem (is_active_of p.id) vs v (rw e (Memᴰ.head refl)) in
      any-of_mem (is_active_of p.id) vs m a

  publishable-IsSellable :
      (vs : List ProductVariant) (is : List ProductImage) (p : Product)
      → is_publishable p
          (db.product_variant.find_all (is_active_of p.id) vs)
          (db.product_image.count (image_of p.id) is)
        ≡ true
      → IsSellable vs is p
  publishable-IsSellable vs is p h =
      let found = db.product_variant.find_all (is_active_of p.id) vs in
      let (some_found, pictured, complete) =
        all_four (not (is_empty found)) (not (db.product_image.count (image_of p.id) is == 0))
          (not (is_pod p.fulfillment_type && any (λ v. lacks_print v p) found))
          (not (is_digital p.fulfillment_type && any (λ v. lacks_file v p) found)) h in
      (
        listed vs p found refl some_found,
        elim (Bool-cases (any (image_of p.id) is)) [
          | inl e ↦ e
          | inr e ↦
              let zero_count =
                db.product_image.count_lem (image_of p.id) is
                ∙ count_where-none (image_of p.id) is e in
              let bad = (rw zero_count at pictured) in cc
        ],
        All-of_mem (λ v. is_active_of p.id v ≡ true → is_incomplete p v ≡ false) vs
            (λ v m a.
              complete_of p found v complete
                (db.product_variant.mem_find_all (is_active_of p.id) vs v m a)),
      )

  -- What the check of a product finds.
  pub checked-IsSellable :
      (id : String) (s s' : Store)
      → assert_product_is_publishable db upper id s ≡ (s', ok tt)
      → (p : Product) × Memᴰ p s.products
        × (p.id ≡ id)
        × IsSellable s.variants s.images p
        × (s' ≡ s)
  checked-IsSellable id s s' h =
      elim (Option-cases (db.product.find_first (product_is id) s.products)) [
        | inl q ↦ let bad = (rw (q, assert_publishable_row) at h) in cc
        | inr (p, q) ↦
            let (m, e) = db.product.find_first_some _ s.products p q in
            let same = (eq_iff p.id id).0 e in
            let h' = (rw (q, assert_publishable_row) at h) in
            elim (Bool-cases (
              is_publishable p (db.product_variant.find_all (is_active_of id) s.variants)
                (db.product_image.count (image_of id) s.images))) [
                  | inr b ↦ let bad = (rw b at h') in cc
                  | inl b ↦
                      let done = (rw b at h') in
                      (p, m, same, publishable-IsSellable s.variants s.images p (rw same b), cc)
                ]
      ]
