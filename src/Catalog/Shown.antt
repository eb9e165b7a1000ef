-- ===== src/Catalog/Shown.antt =====
-- The calls on images, each as a whole, and the primary image of every product.
use kori_backend.Catalog.PrimaryDeletion.{delete_image-HasPrimary}
use kori_backend.Catalog.LastPicture.{own_row}
use kori_backend.Catalog.Pictures.{lower-KeepsKeys, own-store}
use mathlib.Core.Path.{subst}
use kori_backend.Catalog.Calls.{exists-store}
use kori_backend.Catalog.{assert_product_exists}
use kori_backend.Catalog.Primary.{
  lowered_same, lowered_elsewhere, patched-HasPrimary, uploaded-HasPrimary, order-HasPrimary,
  HasPrimary,
}
use kori_backend.Catalog.Images.{
  lower, image_patch, write_image, other_primary, assert_image_belongs, max_images_per_product,
  upload_counted, create_image, primary_of, lower_primary, write_order, new_image, image_is,
  store_image, order_found, UpdateProductImageDto, delete_image, StoredImage, update_image,
  upload_image, reorder_images, UploadProductImageDto,
}
use kori_backend.Prelude.{
  none, mem-update_where, some, Option, Bool, IsKeyed, any-updated, update_where, eq_iff, refl, ap,
  sym, leb, if◌then◌else◌, arith, count_where-none, ◌∙◌, inr, inl, any, ◌||◌, str_eq, ◌==◌, false,
  length, not, Bool-cases, Memᴰ, List, ◌≡◌, true, String,
}
use kori_backend.Catalog.Rows.{image_of, get_or}
use kori_backend.Database.{
  transaction, followed, ProductImage_clash, Result-cases, ◌>>◌, pure, transacted, guarded, rolled,
  ok, err, Store, Result, ProductImage, M, Prisma, Env,
}

-- A call on the images of a product.
pub data ImageEdit : Type 0 where
  uploaded : Env → String → UploadProductImageDto → Result StoredImage → ImageEdit
  updated : String → String → UpdateProductImageDto → ImageEdit
  reordered : String → List String → ImageEdit
  deleted : String → String → ImageEdit

abbrev pub edit_images : Prisma → (String → String) → ImageEdit → M (Unit {0})
edit_images db upper (uploaded env id dto stored) = upload_image db upper env id dto stored
edit_images db upper (updated id image_id dto) = update_image db upper id image_id dto
edit_images db upper (reordered id ids) = reorder_images db upper id ids
edit_images db upper (deleted id image_id) = delete_image db upper id image_id

-- An update that does not ask for the image to be no longer the primary one.
abbrev pub LowersNone : ImageEdit → Type 0
LowersNone (updated id image_id dto) = get_or dto.is_primary true ≡ true
LowersNone _ = Unit {0}

module _ (db : Prisma) (upper : String → String) (q : String) where
  upload_image-HasPrimary :
      (env : Env) (id : String) (dto : UploadProductImageDto) (stored : Result StoredImage)
      (s : Store)
      → HasPrimary q s
      → HasPrimary q (upload_image db upper env id dto stored s).0
  unfolding upload_image
  upload_image-HasPrimary env id dto stored s had =
      guarded (HasPrimary q) (assert_product_exists db upper id)
        (λ s.
          upload_counted db upper env id dto stored (db.product_image.count (image_of id) s.images)
            s)
        s (exists-store db upper id s) had
        (elim (Bool-cases
          (leb max_images_per_product (db.product_image.count (image_of id) s.images))) [
            | inl b ↦ rw b had
            | inr b ↦ rw b (kept stored)
          ])
    where
      kept :
          (r : Result StoredImage)
          → HasPrimary q
              (store_image db upper env id dto
                (db.product_image.count (image_of id) s.images)
                r
                s).0
      kept (err e) = had
      kept (ok file) =
          let n = db.product_image.count (image_of id) s.images in
          let b = get_or dto.is_primary false || n == 0 in
          let i = new_image (env.uuid 0) id file dto b n in
          let some_image : b ≡ false → any (image_of id) s.images ≡ true = λ low.
            elim (Bool-cases (any (image_of id) s.images)) [
              | inl a ↦ a
              | inr a ↦
                  let zero_count =
                    db.product_image.count_lem (image_of id) s.images
                    ∙ count_where-none (image_of id) s.images a in
                  let first : (n == 0) ≡ true = rw zero_count refl in ground (arith, low, first)
            ] in
          transacted (HasPrimary q)
            ((if b then lower_primary db upper (primary_of id) else pure tt)
              >> create_image db upper i)
            s had (λ t u h. uploaded-HasPrimary db upper q id b i s t refl refl some_image had h)

  reorder_images-HasPrimary :
      (id : String) (ids : List String) (s : Store)
      → HasPrimary q s
      → HasPrimary q (reorder_images db upper id ids s).0
  unfolding reorder_images
  reorder_images-HasPrimary id ids s had =
      guarded (HasPrimary q) (assert_product_exists db upper id)
        (λ s. order_found db upper ids (db.product_image.find_all (image_of id) s.images) s) s
        (exists-store db upper id s) had (found (db.product_image.find_all (image_of id) s.images))
    where
      found : (images : List ProductImage) → HasPrimary q (order_found db upper ids images s).0
      found images =
          elim (Bool-cases
            (not (length ids == length images) || any (λ id. not (any (image_is id) images)) ids)) [
              | inl b ↦ rw b had
              | inr b ↦ rw b (
                  rolled (HasPrimary q) (write_order db upper 0 ids) s s had
                    (order-HasPrimary db upper q 0 ids s had))
            ]

  updated-HasPrimary :
      (id image_id : String) (image : ProductImage) (dto : UpdateProductImageDto) (k : Option Bool)
      (s t : Store)
      → dto.is_primary ≡ k
      → get_or k true ≡ true
      → Memᴰ image s.images
      → image_is image_id image ≡ true
      → image_of id image ≡ true
      → HasPrimary q s
      → ((if get_or k false then lower_primary db upper (other_primary id image_id) else pure tt)
            >> write_image db upper image_id (image_patch dto))
          s
        ≡ (t, ok tt)
      → HasPrimary q t
  updated-HasPrimary id image_id image dto none s t asked high there named own had h =
      subst (HasPrimary q) (ap (λ r. r.0) h) (
        patched-HasPrimary db upper q image_id (image_patch dto) s (λ i. refl)
          (λ i e. ap (λ k. get_or k i.is_primary) asked ∙ e) had)
  updated-HasPrimary id image_id image dto (some false) s t asked high there named own had h = cc
  updated-HasPrimary id image_id image dto (some true) s t asked high there named own had h =
      let xs = update_where (other_primary id image_id) lower s.images in
      let h' =
        (rw
          (db.product_image.update_many_lem (other_primary id image_id) lower s.images
            lower-KeepsKeys)
          at h) in
      elim (Bool-cases (str_eq id q)) [
        | inr apart ↦ subst (HasPrimary q) (ap (λ r. r.0) h') (
            patched-HasPrimary db upper q image_id (image_patch dto) (record s { images = xs })
              (λ i. refl) (λ i e. ap (λ k. get_or k i.is_primary) asked)
              (λ a.
                lowered_elsewhere db upper q id (other_primary id image_id) s.images apart
                  (λ j e. ground (arith, e))
                ∙ had (sym (lowered_same db upper q (other_primary id image_id) s.images) ∙ a)))
        | inl mine ↦
            elim (Result-cases (db.product_image.update (image_is image_id) (image_patch dto) xs)) [
              | inr (f, r) ↦ let bad = (rw r at h') in cc
              | inl (ys, r) ↦
                  let done = (rw r at h') in
                  let now : t.images ≡ update_where (image_is image_id) (image_patch dto) xs =
                    sym (ap (λ r. r.0.images) done)
                    ∙ db.product_image.update_ok _ (image_patch dto) _ ys r in
                  let spared : other_primary id image_id image ≡ false = ground (arith, named) in
                  let raised : (image_patch dto image).is_primary ≡ true =
                    ap (λ k. get_or k image.is_primary) asked in
                  let shown : image_of q image ≡ true =
                    subst (λ k. image_of k image ≡ true) ((eq_iff id q).0 mine) own in
                  rw now (λ some_image.
                    any-updated (primary_of q) (image_is image_id) (image_patch dto) xs
                      (mem-update_where (other_primary id image_id) lower s.images there spared)
                      named (rw (shown, raised) refl))
            ]
      ]

  update_image-HasPrimary :
      (id image_id : String) (dto : UpdateProductImageDto) (s : Store)
      → get_or dto.is_primary true ≡ true
      → IsKeyed ProductImage_clash s.images
      → HasPrimary q s
      → HasPrimary q (update_image db upper id image_id dto s).0
  unfolding update_image
  update_image-HasPrimary id image_id dto s high keyed had =
      followed (HasPrimary q) (assert_image_belongs db upper id image_id)
        (λ image. transaction change) s
        (subst (HasPrimary q) (sym (own-store db upper id image_id s)) had)
        (λ t image p had'.
          let (only, there, named, own) = own_row db upper id image_id s t image keyed p in
          let same : t ≡ s = ap (λ r. r.0) (sym p) ∙ own-store db upper id image_id s in
          subst (λ t. HasPrimary q (transaction change t).0) (sym same)
            (transacted (HasPrimary q) change s had (λ t' u h.
              updated-HasPrimary id image_id image dto dto.is_primary s t' refl high there named own
                had h)))
    where
      change : M (Unit {0})
      change =
          (if get_or dto.is_primary false
            then lower_primary db upper (other_primary id image_id)
            else pure tt)
          >> write_image db upper image_id (image_patch dto)

  -- A product that has images keeps a primary one through any call on images, of this product or
  -- of another, refused or not, where the call does not ask for an image to be no longer the
  -- primary one, and where images are told apart by their unique columns.
  pub edit_images-HasPrimary :
      (e : ImageEdit) (s : Store)
      → LowersNone e
      → IsKeyed ProductImage_clash s.images
      → HasPrimary q s
      → HasPrimary q (edit_images db upper e s).0
  edit_images-HasPrimary (uploaded env id dto stored) s none_lower keyed had =
      upload_image-HasPrimary env id dto stored s had
  edit_images-HasPrimary (updated id image_id dto) s none_lower keyed had =
      update_image-HasPrimary id image_id dto s none_lower keyed had
  edit_images-HasPrimary (reordered id ids) s none_lower keyed had =
      reorder_images-HasPrimary id ids s had
  edit_images-HasPrimary (deleted id image_id) s none_lower keyed had =
      delete_image-HasPrimary db upper q id image_id s keyed had
