-- ===== src/Catalog/LastPicture.antt =====
-- deleteImage: the last image of a product on sale stays.
use kori_backend.Catalog.Pictures.{own-store}
use kori_backend.Catalog.Edits.{same_product}
use mathlib.Core.Path.{subst}
use kori_backend.Catalog.Sellable.{IsSellable, AllSellable}
use kori_backend.Checkout.{product_is}
use kori_backend.Catalog.Images.{
  assert_pictured_row, own_image, assert_image_belongs, delete_image, raise_next, assert_pictured,
  raise_first, delete_image_row, raise, image_is, write_image,
}
use kori_backend.Catalog.Rows.{image_of}
use kori_backend.Prelude.{
  All-mem, All-of_mem, ap, Option-cases, sym, count_where-none, ◌==◌, ◌&&◌, refl, [], ◌∷◌, ◌∙◌,
  any-discard_mem, discard, any-update_where, inl, List, inr, eq_iff, arith, any, Bool-cases, false,
  true, if◌then◌else◌, ◌≡◌, Memᴰ, IsKeyed, Bool, String,
}
use kori_backend.Database.{
  transacted, transaction, M-cases, M, ◌>>◌, ProductImage_clash, pure, Result-cases, ok,
  Product_clash, Store, Product, ProductImage, Prisma,
}

-- The products and variants are the same, and every other product has an image that had one.
abbrev IsOtherwise : String → Store → Store → Type 0
IsOtherwise id s t =
    (t.products ≡ s.products)
    × (t.variants ≡ s.variants)
    × ((p : Product)
        → product_is id p ≡ false
        → any (image_of p.id) s.images ≡ true
        → any (image_of p.id) t.images ≡ true)

other_image :
    (i : ProductImage) (p : Product) (id : String)
    → image_of id i ≡ true
    → product_is id p ≡ false
    → image_of p.id i ≡ false
other_image i p id a b =
    ground (arith, eq_iff i.product_id id, eq_iff p.id id, eq_iff i.product_id p.id)

module _ (db : Prisma) (upper : String → String) where
  deleted-IsOtherwise :
      (id image_id : String) (s t : Store)
      → ((i : ProductImage) → Memᴰ i s.images → image_is image_id i ≡ true → image_of id i ≡ true)
      → delete_image_row db upper image_id s ≡ (t, ok tt)
      → IsOtherwise id s t
  deleted-IsOtherwise id image_id s t owned h =
      elim (Bool-cases (any (image_is image_id) s.images)) [
        | inr b ↦ let bad = (rw (db.product_image.delete_missing _ s.images b) at h) in cc
        | inl b ↦
            let same : record s { images = discard (image_is image_id) s.images } ≡ t =
              let done = (rw (db.product_image.delete_lem _ s.images b) at h) in cc in
            subst (IsOtherwise id s) same (
              refl,
              refl,
              λ p other had.
                  any-discard_mem (image_of p.id) (image_is image_id) s.images
                    (λ i m e. other_image i p id (owned i m e) other)
                  ∙ had,
            )
      ]

  written-IsOtherwise :
      (id image_id : String) (s t t' : Store)
      → write_image db upper image_id raise t ≡ (t', ok tt)
      → IsOtherwise id s t
      → IsOtherwise id s t'
  written-IsOtherwise id image_id s t t' h (products, variants, pictured) =
      elim (Result-cases (db.product_image.update (image_is image_id) raise t.images)) [
        | inr (e, q) ↦ let bad = (rw q at h) in cc
        | inl (is, q) ↦
            let same : record t { images = is } ≡ t' = let done = (rw q at h) in cc in
            subst (IsOtherwise id s) same (
              products,
              variants,
              λ p other had. rw (db.product_image.update_ok _ raise _ is q) (
                  any-update_where (image_of p.id) (image_is image_id) raise t.images (λ i. refl)
                  ∙ pictured p other had),
            )
      ]

  raised-IsOtherwise :
      (id : String) (s t t' : Store) (b : Bool)
      → (if b then raise_first db upper id else pure tt) t ≡ (t', ok tt)
      → IsOtherwise id s t
      → IsOtherwise id s t'
  raised-IsOtherwise id s t t' false h rest =
      let same : t ≡ t' = cc in subst (IsOtherwise id s) same rest
  raised-IsOtherwise id s t t' true h rest =
      next (db.product_image.find_many (image_of id) (λ i. i.sort_order) 1 t.images) h
    where
      next :
          (found : List ProductImage)
          → raise_next db upper found t ≡ (t', ok tt)
          → IsOtherwise id s t'
      next [] h = let same : t ≡ t' = cc in subst (IsOtherwise id s) same rest
      next (i ∷ is) h = written-IsOtherwise id i.id s t t' h rest

  pictured-after :
      (id : String) (s t t' : Store)
      → IsKeyed Product_clash s.products
      → AllSellable s
      → IsOtherwise id s t
      → assert_pictured db upper id t ≡ (t', ok tt)
      → AllSellable t'
  pictured-after id s t t' keyed all (products, variants, pictured) h =
      elim (Option-cases (db.product.find_first (product_is id) t.products)) [
        | inl q ↦ let bad = (rw (q, assert_pictured_row) at h) in cc
        | inr (r, q) ↦
            let (m, e) = db.product.find_first_some _ t.products r q in
            let h' = (rw (q, assert_pictured_row) at h) in
            elim (Bool-cases (r.is_active && db.product_image.count (image_of id) t.images == 0)) [
              | inl b ↦ let bad = (rw b at h') in cc
              | inr b ↦
                  let same : t ≡ t' = let done = (rw b at h') in cc in
                  subst AllSellable same (kept r (subst (λ ps. Memᴰ r ps) products m) e b)
            ]
      ]
    where
      some_image :
          (r : Product)
          → r.is_active ≡ true
          → product_is id r ≡ true
          → (r.is_active && db.product_image.count (image_of id) t.images == 0) ≡ false
          → any (image_of r.id) t.images ≡ true
      some_image r on e b = elim (Bool-cases (any (image_of id) t.images)) [
        | inl a ↦ rw ((eq_iff r.id id).0 e) a
        | inr a ↦
            let zero_count =
              db.product_image.count_lem (image_of id) t.images
              ∙ count_where-none (image_of id) t.images a in
            let bad = (simp (zero_count, on) at b) in cc
      ]

      kept :
          (r : Product)
          → Memᴰ r s.products
          → product_is id r ≡ true
          → (r.is_active && db.product_image.count (image_of id) t.images == 0) ≡ false
          → AllSellable t
      kept r m e b =
          All-of_mem (λ p. p.is_active ≡ true → IsSellable t.variants t.images p) t.products
            (λ p n on.
              let n' = subst (λ ps. Memᴰ p ps) products n in
              let (sold, had, complete) =
                All-mem (λ p. p.is_active ≡ true → IsSellable s.variants s.images p) s.products all
                  n' on in
              rw variants (sold, image p n' on had, complete))
        where
          image :
              (p : Product)
              → Memᴰ p s.products
              → p.is_active ≡ true
              → any (image_of p.id) s.images ≡ true
              → any (image_of p.id) t.images ≡ true
          image p n on had = elim (Bool-cases (product_is id p)) [
            | inr a ↦ pictured p a had
            | inl a ↦
                let one = keyed p r n m (same_product p r id a ((eq_iff r.id id).0 e)) in
                subst (λ p. any (image_of p.id) t.images ≡ true) (sym one)
                  (some_image r (subst (λ p. p.is_active ≡ true) one on) e b)
          ]

  -- The one row with an image's identifier is the product's.
  pub own_row :
      (id image_id : String) (s s' : Store) (image : ProductImage)
      → IsKeyed ProductImage_clash s.images
      → assert_image_belongs db upper id image_id s ≡ (s', ok image)
      → ((i : ProductImage) → Memᴰ i s.images → image_is image_id i ≡ true → i ≡ image)
        × Memᴰ image s.images
        × (image_is image_id image ≡ true)
        × (image_of id image ≡ true)
  own_row id image_id s s' image keyed h =
      elim (Option-cases (db.product_image.find_first (image_is image_id) s.images)) [
        | inl q ↦ let bad = (rw (q, own_image) at h) in cc
        | inr (r, q) ↦
            let (m, e) = db.product_image.find_first_some _ s.images r q in
            let h' = (rw (q, own_image) at h) in
            elim (Bool-cases (image_of id r)) [
              | inr b ↦ let bad = (rw b at h') in cc
              | inl b ↦
                  let same : r ≡ image = let done = (rw b at h') in cc in
                  (
                    λ i n a. keyed i r n m (same_image i r a e) ∙ same,
                    rw (← same) m,
                    rw (← same) e,
                    rw (← same) b,
                  )
            ]
      ]
    where
      same_image :
          (i r : ProductImage)
          → image_is image_id i ≡ true
          → image_is image_id r ≡ true
          → ProductImage_clash i r ≡ true
      same_image i r a b =
          let c =
            (eq_iff i.id r.id).1 ((eq_iff i.id image_id).0 a ∙ sym ((eq_iff r.id image_id).0 b)) in
          rw c refl

  deletion-AllSellable :
      (id image_id : String) (s t : Store) (b : Bool)
      → ((i : ProductImage) → Memᴰ i s.images → image_is image_id i ≡ true → image_of id i ≡ true)
      → IsKeyed Product_clash s.products
      → AllSellable s
      → (delete_image_row db upper image_id
            >> ((if b then raise_first db upper id else pure tt) >> assert_pictured db upper id))
          s
        ≡ (t, ok tt)
      → AllSellable t
  deletion-AllSellable id image_id s t b owned keyed all h =
      elim (M-cases (delete_image_row db upper image_id s)) [
        | inr (t1, e, p) ↦ let bad = (rw p at h) in cc
        | inl (t1, u, p) ↦
            let h1 = (rw p at h) in
            elim (M-cases ((if b then raise_first db upper id else pure tt) t1)) [
              | inr (t2, e, q) ↦ let bad = (rw q at h1) in cc
              | inl (t2, u, q) ↦
                  pictured-after id s t2 t keyed all
                    (raised-IsOtherwise id s t1 t2 b q
                      (deleted-IsOtherwise id image_id s t1 owned p))
                    (rw q at h1)
            ]
      ]

  pub delete_image-AllSellable :
      (id image_id : String) (s : Store)
      → IsKeyed Product_clash s.products
      → IsKeyed ProductImage_clash s.images
      → AllSellable s
      → AllSellable (delete_image db upper id image_id s).0
  unfolding delete_image
  delete_image-AllSellable id image_id s keyed images all =
      elim (M-cases (assert_image_belongs db upper id image_id s)) [
        | inr (t, e, p) ↦
            rw p (
              subst AllSellable (sym (ap (λ r. r.0) (sym p) ∙ own-store db upper id image_id s))
                all)
        | inl (t, image, p) ↦
            let (only, there, named, own) = own_row id image_id s t image images p in
            let owned : (i : ProductImage)
                → Memᴰ i s.images
                → image_is image_id i ≡ true
                → image_of id i ≡ true =
              λ i n a. ap (image_of id) (only i n a) ∙ own in
            let same : t ≡ s = ap (λ r. r.0) (sym p) ∙ own-store db upper id image_id s in
            rw p (
              subst (λ t. AllSellable (transaction (rest image) t).0) (sym same)
                (transacted AllSellable (rest image) s all (λ t' u h.
                  deletion-AllSellable id image_id s t' image.is_primary owned keyed all h)))
      ]
    where
      rest : ProductImage → M (Unit {0})
      rest image =
          delete_image_row db upper image_id
          >> ((if image.is_primary then raise_first db upper id else pure tt)
              >> assert_pictured db upper id)
