-- ===== src/Catalog/Primary.antt =====
-- The primary image of a product, through the calls on images.
use kori_backend.Catalog.Pictures.{lower-KeepsKeys}
use mathlib.Core.Path.{subst}
use kori_backend.Catalog.Images.{
  lower_primary, create_image, move_to, image_is, lower, write_image, primary_of, write_order,
}
use kori_backend.Catalog.Rows.{image_of}
use kori_backend.Prelude.{
  any-append_left, any-append, Bool-cases, ◌++◌, ◌⊎◌, if◌then◌else◌, ◌∙◌, ap, sym,
  any-update_where_mono, inl, [], ◌+◌, refl, inr, any-update_where, any-update_mem, eq_iff, ◌∷◌,
  update_where, arith, true, false, ◌≡◌, str_eq, any, List, Bool, ℕ, String,
}
use kori_backend.Database.{
  ◌>>◌, ProductImage_clash, pure, ok, followed, Result-cases, Store, ProductImage, Prisma,
}

-- The product, if it has images, has a primary one.
abbrev pub HasPrimary : String → Store → Type 0
HasPrimary q s = any (image_of q) s.images ≡ true → any (primary_of q) s.images ≡ true

pub other_primary_row :
    (q id : String) (i : ProductImage)
    → str_eq id q ≡ false
    → image_of id i ≡ true
    → image_of q i ≡ false
other_primary_row q id i apart a =
    ground (arith, eq_iff i.product_id id, eq_iff i.product_id q, eq_iff id q)

module _ (db : Prisma) (upper : String → String) (q : String) where
  -- A patch that keeps the product, and lowers no image.
  pub patched-HasPrimary :
      (id : String) (f : ProductImage → ProductImage) (s : Store)
      → ((i : ProductImage) → (f i).product_id ≡ i.product_id)
      → ((i : ProductImage) → i.is_primary ≡ true → (f i).is_primary ≡ true)
      → HasPrimary q s
      → HasPrimary q (write_image db upper id f s).0
  patched-HasPrimary id f s same up had =
      elim (Result-cases (db.product_image.update (image_is id) f s.images)) [
        | inr (e, p) ↦ rw p had
        | inl (is, p) ↦
            rw (p, db.product_image.update_ok _ f _ is p)
              (λ some_image.
                any-update_where_mono (primary_of q) (image_is id) f s.images
                  (λ i a b. let kept = same i in let high = up i in rw kept (ground (arith, high)))
                  (had (
                    sym (
                      any-update_where (image_of q) (image_is id) f s.images
                        (λ i. ap (λ k. str_eq k q) (same i)))
                    ∙ some_image)))
      ]

  pub order-HasPrimary :
      (n : ℕ) (ids : List String) (s : Store)
      → HasPrimary q s
      → HasPrimary q (write_order db upper n ids s).0
  order-HasPrimary n [] s had = had
  order-HasPrimary n (id ∷ ids) s had =
      followed (HasPrimary q) (write_image db upper id (move_to n))
        (λ u. write_order db upper (n + 1) ids) s
        (patched-HasPrimary id (move_to n) s (λ i. refl) (λ i h. h) had)
        (λ t u p h. order-HasPrimary (n + 1) ids t h)

  -- The images of another product are lowered.
  pub lowered_elsewhere :
      (id : String) (p : ProductImage → Bool) (xs : List ProductImage)
      → str_eq id q ≡ false
      → ((i : ProductImage) → p i ≡ true → image_of id i ≡ true)
      → any (primary_of q) (update_where p lower xs) ≡ any (primary_of q) xs
  lowered_elsewhere id p xs apart theirs = any-update_mem (primary_of q) p lower xs (λ i m h.
      let none_of = other_primary_row q id i apart (theirs i h) in ground (arith, none_of))

  pub lowered_same :
      (p : ProductImage → Bool) (xs : List ProductImage)
      → any (image_of q) (update_where p lower xs) ≡ any (image_of q) xs
  lowered_same p xs = any-update_where (image_of q) p lower xs (λ i. refl)

  appended-HasPrimary :
      (xs : List ProductImage) (i : ProductImage)
      → (any (image_of q) xs ≡ true → any (primary_of q) xs ≡ true) ⊎ (primary_of q i ≡ true)
      → (image_of q i ≡ true → (primary_of q i ≡ true) ⊎ (any (image_of q) xs ≡ true))
      → any (image_of q) (xs ++ i ∷ []) ≡ true
      → any (primary_of q) (xs ++ i ∷ []) ≡ true
  appended-HasPrimary xs i (inr high) enough h = rw any-append (rw high (ground arith))
  appended-HasPrimary xs i (inl had) enough h = elim (Bool-cases (any (image_of q) xs)) [
    | inl a ↦ any-append_left (primary_of q) xs (i ∷ []) (had a)
    | inr a ↦
        let here : image_of q i ≡ true =
          ground (arith, sym (any-append (image_of q) xs (i ∷ [])) ∙ h) in
        elim (enough here) [
          | inl high ↦ rw any-append (rw high (ground arith))
          | inr some_image ↦ any-append_left (primary_of q) xs (i ∷ []) (had some_image)
        ]
  ]

  created-images :
      (i : ProductImage) (s t : Store)
      → create_image db upper i s ≡ (t, ok tt)
      → t.images ≡ s.images ++ i ∷ []
  created-images i s t h = elim (Bool-cases (any (ProductImage_clash i) s.images)) [
    | inl b ↦ let bad = (rw (db.product_image.create_clash i s.images b) at h) in cc
    | inr b ↦
        let done = (rw (db.product_image.create_new i s.images b) at h) in
        sym (ap (λ r. r.0.images) done)
  ]

  pub uploaded-HasPrimary :
      (id : String) (b : Bool) (i : ProductImage) (s t : Store)
      → i.product_id ≡ id
      → i.is_primary ≡ b
      → (b ≡ false → any (image_of id) s.images ≡ true)
      → HasPrimary q s
      → ((if b then lower_primary db upper (primary_of id) else pure tt) >> create_image db upper i)
          s
        ≡ (t, ok tt)
      → HasPrimary q t
  uploaded-HasPrimary id false i s t own low some_image had h = rw (created-images i s t h) (
      appended-HasPrimary s.images i (inl had) (λ mine.
        let same : id ≡ q = sym own ∙ (eq_iff i.product_id q).0 mine in
        inr (subst (λ k. any (image_of k) s.images ≡ true) same (some_image refl))))
  uploaded-HasPrimary id true i s t own high some_image had h =
      let xs = update_where (primary_of id) lower s.images in
      let h' =
        (rw (db.product_image.update_many_lem (primary_of id) lower s.images lower-KeepsKeys) at
          h) in
      rw (created-images i (record s { images = xs }) t h') (elim (Bool-cases (str_eq id q)) [
        | inl same ↦
            let mine : primary_of q i ≡ true = rw (own, same, high) refl in
            appended-HasPrimary xs i (inr mine) (λ a. inl mine)
        | inr apart ↦
            let none_of : image_of q i ≡ false = rw own apart in
            appended-HasPrimary xs i
              (inl (λ a.
                lowered_elsewhere id (primary_of id) s.images apart (λ j e. ground (arith, e))
                ∙ had (sym (lowered_same (primary_of id) s.images) ∙ a)))
              (λ a. cc)
      ])
