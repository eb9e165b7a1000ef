-- ===== src/Catalog/PrimaryDeletion.antt =====
-- deleteImage and the primary image of a product.
use kori_backend.Catalog.LastPicture.{own_row}
use kori_backend.Catalog.Pictures.{own-store}
use kori_backend.Checkout.{product_is}
use mathlib.Core.Path.{subst}
use kori_backend.Catalog.Primary.{other_primary_row, patched-HasPrimary, HasPrimary}
use kori_backend.Catalog.Images.{
  assert_pictured_row, assert_image_belongs, assert_pictured, raise, raise_next, raise_first,
  primary_of, delete_image_row, image_is, delete_image,
}
use kori_backend.Prelude.{
  Option-cases, Bool, IsKeyed, [], any-updated, update_where, eq_iff, ◌∷◌, refl, ap, sym,
  any-discard_back, ◌⊎◌, discard, any-discard_mem, if◌then◌else◌, arith, ◌∙◌, inr, inl, any, str_eq,
  false, Bool-cases, Memᴰ, List, ◌≡◌, true, String,
}
use kori_backend.Catalog.Rows.{image_of}
use kori_backend.Database.{
  transaction, M-cases, followed, ProductImage_clash, Result-cases, ◌>>◌, pure, transacted, ok,
  Store, ProductImage, M, Prisma,
}

module _ (db : Prisma) (upper : String → String) (q : String) where
  deleted-images :
      (image_id : String) (s t : Store)
      → delete_image_row db upper image_id s ≡ (t, ok tt)
      → t.images ≡ discard (image_is image_id) s.images
  deleted-images image_id s t h = elim (Bool-cases (any (image_is image_id) s.images)) [
    | inr b ↦ let bad = (rw (db.product_image.delete_missing _ s.images b) at h) in cc
    | inl b ↦
        let done = (rw (db.product_image.delete_lem _ s.images b) at h) in
        sym (ap (λ r. r.0.images) done)
  ]

  -- A deletion of a row that is not the product's primary image.
  spared-HasPrimary :
      (image_id : String) (s t : Store)
      → HasPrimary q s
      → ((i : ProductImage) → Memᴰ i s.images → image_is image_id i ≡ true → primary_of q i ≡ false)
      → delete_image_row db upper image_id s ≡ (t, ok tt)
      → HasPrimary q t
  spared-HasPrimary image_id s t had low h = rw (deleted-images image_id s t h) (λ some_image.
      any-discard_mem (primary_of q) (image_is image_id) s.images low
      ∙ had (any-discard_back (image_of q) (image_is image_id) s.images some_image))

  raised-HasPrimary :
      (id : String) (t t' : Store)
      → (str_eq id q ≡ true) ⊎ HasPrimary q t
      → raise_first db upper id t ≡ (t', ok tt)
      → HasPrimary q t'
  raised-HasPrimary id t t' (inr had) h =
      next (db.product_image.find_many (image_of id) (λ i. i.sort_order) 1 t.images) h
    where
      next :
          (found : List ProductImage) → raise_next db upper found t ≡ (t', ok tt) → HasPrimary q t'
      next [] h = let same : t ≡ t' = cc in subst (HasPrimary q) same had
      next (i ∷ is) h =
          let kept = patched-HasPrimary db upper q i.id raise t (λ i. refl) (λ i e. refl) had in
          subst (HasPrimary q) (ap (λ r. r.0) h) kept
  raised-HasPrimary id t t' (inl mine) h =
      next (db.product_image.find_many (image_of id) (λ i. i.sort_order) 1 t.images) refl h
    where
      same_id : id ≡ q
      same_id = (eq_iff id q).0 mine

      next :
          (found : List ProductImage)
          → db.product_image.find_many (image_of id) (λ i. i.sort_order) 1 t.images ≡ found
          → raise_next db upper found t ≡ (t', ok tt)
          → HasPrimary q t'
      next [] e h =
          let same : t ≡ t' = cc in
          let nothing =
            db.product_image.find_many_none (image_of id) (λ i. i.sort_order) 0 t.images e in
          subst (HasPrimary q) same (λ some_image.
            let nothing' = subst (λ k. any (image_of k) t.images ≡ false) same_id nothing in cc)
      next (i ∷ is) e h =
          let (m, own) =
            db.product_image.find_many_mem (image_of id) (λ i. i.sort_order) 1 t.images i
              (rw e (Memᴰ.head refl)) in
          elim (Result-cases (db.product_image.update (image_is i.id) raise t.images)) [
            | inr (f, r) ↦ let bad = (rw r at h) in cc
            | inl (xs, r) ↦
                let done = (rw r at h) in
                let now : t'.images ≡ update_where (image_is i.id) raise t.images =
                  sym (ap (λ r. r.0.images) done) ∙ db.product_image.update_ok _ raise _ xs r in
                rw now (λ some_image.
                  any-updated (primary_of q) (image_is i.id) raise t.images m
                    ((eq_iff i.id i.id).1 refl)
                    (rw (subst (λ k. image_of k i ≡ true) same_id own) refl))
          ]

  pictured-same : (id : String) (s t : Store) → assert_pictured db upper id s ≡ (t, ok tt) → s ≡ t
  pictured-same id s t h = elim (Option-cases (db.product.find_first (product_is id) s.products)) [
    | inl p ↦ let bad = (rw (p, assert_pictured_row) at h) in cc
    | inr (r, p) ↦ let h' = (rw (p, assert_pictured_row) at h) in ap (λ r. r.0) h'
  ]

  deletion-HasPrimary :
      (id image_id : String) (image : ProductImage) (s t : Store)
      → ((i : ProductImage) → Memᴰ i s.images → image_is image_id i ≡ true → i ≡ image)
      → image_of id image ≡ true
      → HasPrimary q s
      → (delete_image_row db upper image_id
            >> ((if image.is_primary then raise_first db upper id else pure tt)
                >> assert_pictured db upper id))
          s
        ≡ (t, ok tt)
      → HasPrimary q t
  deletion-HasPrimary id image_id image s t only own had h =
      elim (M-cases (delete_image_row db upper image_id s)) [
        | inr (t1, e, p) ↦ let bad = (rw p at h) in cc
        | inl (t1, u, p) ↦
            let h1 = (rw p at h) in
            elim (M-cases ((if image.is_primary then raise_first db upper id else pure tt) t1)) [
              | inr (t2, e, r) ↦ let bad = (rw r at h1) in cc
              | inl (t2, u, r) ↦
                  subst (HasPrimary q) (pictured-same id t2 t (rw r at h1))
                    (between image.is_primary refl t1 t2 p r)
            ]
      ]
    where
      spared :
          (t1 : Store)
          → primary_of q image ≡ false
          → delete_image_row db upper image_id s ≡ (t1, ok tt)
          → HasPrimary q t1
      spared t1 low p =
          spared-HasPrimary image_id s t1 had (λ i m a. ap (primary_of q) (only i m a) ∙ low) p

      between :
          (b : Bool)
          → image.is_primary ≡ b
          → (t1 t2 : Store) → delete_image_row db upper image_id s ≡ (t1, ok tt)
          → (if b then raise_first db upper id else pure tt) t1 ≡ (t2, ok tt)
          → HasPrimary q t2
      between false e t1 t2 p r =
          let same : t1 ≡ t2 = cc in subst (HasPrimary q) same (spared t1 (ground (arith, e)) p)
      between true e t1 t2 p r = elim (Bool-cases (str_eq id q)) [
        | inl mine ↦ raised-HasPrimary id t1 t2 (inl mine) r
        | inr apart ↦
            let none_of = other_primary_row q id image apart own in
            raised-HasPrimary id t1 t2 (inr (spared t1 (ground (arith, none_of)) p)) r
      ]

  pub delete_image-HasPrimary :
      (id image_id : String) (s : Store)
      → IsKeyed ProductImage_clash s.images
      → HasPrimary q s
      → HasPrimary q (delete_image db upper id image_id s).0
  unfolding delete_image
  delete_image-HasPrimary id image_id s keyed had =
      followed (HasPrimary q) (assert_image_belongs db upper id image_id)
        (λ image. transaction (rest image)) s
        (subst (HasPrimary q) (sym (own-store db upper id image_id s)) had)
        (λ t image p had'.
          let (only, there, named, own) = own_row db upper id image_id s t image keyed p in
          let same : t ≡ s = ap (λ r. r.0) (sym p) ∙ own-store db upper id image_id s in
          subst (λ t. HasPrimary q (transaction (rest image) t).0) (sym same)
            (transacted (HasPrimary q) (rest image) s had
              (λ t' u h. deletion-HasPrimary id image_id image s t' only own had h)))
    where
      rest : ProductImage → M (Unit {0})
      rest image =
          delete_image_row db upper image_id
          >> ((if image.is_primary then raise_first db upper id else pure tt)
              >> assert_pictured db upper id)
