-- ===== src/Catalog/Pictures.antt =====
-- The calls on a product's images, and the products on sale.
use mathlib.Core.Path.{subst}
use kori_backend.Catalog.{assert_product_exists}
use kori_backend.Catalog.Calls.{exists-store}
use kori_backend.Catalog.Rows.{get_or, image_of}
use kori_backend.Catalog.Images.{
  other_primary, max_images_per_product, store_image, upload_counted, new_image, image_patch,
  StoredImage, primary_of, own_image, move_to, UploadProductImageDto, write_order, order_found,
  UpdateProductImageDto, upload_image, update_image, reorder_images, assert_image_belongs, image_is,
  write_image, lower_primary, lower, create_image,
}
use kori_backend.Catalog.Sellable.{IsSellable, AllSellable}
use kori_backend.Prelude.{
  sym, leb, false, ◌||◌, ◌==◌, if◌then◌else◌, ◌+◌, length, not, Option-cases, ℕ, any-append_left,
  [], ◌∷◌, ◌∙◌, ◌++◌, str_eq, All-mem, inr, ap, All-of_mem, inl, any, true, refl, arith,
  any-update_where, Memᴰ, Bool-cases, update_where, ◌≡◌, List, Bool, String,
}
use kori_backend.Database.{
  guarded, rolled, followed, err, ◌>>◌, pure, Result, transaction, Env, ok, Result-cases, Product,
  ProductImage_clash, M, Store, ProductImage, Prisma, KeepsKeys,
}

pub pictured-AllSellable :
    (s : Store) (is : List ProductImage)
    → ((p : Product)
        → Memᴰ p s.products
        → p.is_active ≡ true
        → any (image_of p.id) s.images ≡ true
        → any (image_of p.id) is ≡ true)
    → AllSellable s
    → AllSellable (record s { images = is })
pictured-AllSellable s is keeps all = All-of_mem _ s.products (λ p m on.
    let (sold, pictured, complete) =
      All-mem (λ p. p.is_active ≡ true → IsSellable s.variants s.images p) s.products all m on in
    (sold, keeps p m on pictured, complete))

-- A patch that leaves the product of an image alone.
patched_images-AllSellable :
    (q : ProductImage → Bool) (f : ProductImage → ProductImage) (s : Store)
    → ((i : ProductImage) → (f i).product_id ≡ i.product_id)
    → AllSellable s
    → AllSellable (record s { images = update_where q f s.images })
patched_images-AllSellable q f s same all =
    pictured-AllSellable s (update_where q f s.images)
      (λ p m on h.
        any-update_where (image_of p.id) q f s.images (λ i. ap (λ k. str_eq k p.id) (same i)) ∙ h)
      all

pub lower-KeepsKeys : KeepsKeys ProductImage_clash lower
lower-KeepsKeys r s = ((λ e. ground (arith, e)), (λ e. ground (arith, e)))

module _ (db : Prisma) (upper : String → String) where
  lowered-AllSellable :
      (q : ProductImage → Bool) (s : Store)
      → AllSellable s
      → AllSellable (lower_primary db upper q s).0
  lowered-AllSellable q s all =
      rw (db.product_image.update_many_lem q lower s.images lower-KeepsKeys)
        (patched_images-AllSellable q lower s (λ i. refl) all)

  written-AllSellable_image :
      (id : String) (f : ProductImage → ProductImage) (s : Store)
      → ((i : ProductImage) → (f i).product_id ≡ i.product_id)
      → AllSellable s
      → AllSellable (write_image db upper id f s).0
  written-AllSellable_image id f s same all =
      elim (Result-cases (db.product_image.update (image_is id) f s.images)) [
        | inr (e, q) ↦ rw q all
        | inl (is, q) ↦
            rw (q, db.product_image.update_ok _ f _ is q)
              (patched_images-AllSellable (image_is id) f s same all)
      ]

  created-AllSellable :
      (i : ProductImage) (s : Store) → AllSellable s → AllSellable (create_image db upper i s).0
  created-AllSellable i s all = elim (Bool-cases (any (ProductImage_clash i) s.images)) [
    | inl b ↦ rw (db.product_image.create_clash i s.images b) all
    | inr b ↦ rw (db.product_image.create_new i s.images b) (
        pictured-AllSellable s (s.images ++ i ∷ [])
          (λ p m on h. any-append_left (image_of p.id) s.images (i ∷ []) h) all)
  ]

  pub upload_image-AllSellable :
      (env : Env) (id : String) (dto : UploadProductImageDto) (stored : Result StoredImage)
      (s : Store)
      → AllSellable s
      → AllSellable (upload_image db upper env id dto stored s).0
  unfolding upload_image
  upload_image-AllSellable env id dto stored s all =
      guarded AllSellable (assert_product_exists db upper id)
        (λ s.
          upload_counted db upper env id dto stored (db.product_image.count (image_of id) s.images)
            s)
        s (exists-store db upper id s) all
        (counted (db.product_image.count (image_of id) s.images) stored)
    where
      first :
          (b : Bool)
          → AllSellable ((if b then lower_primary db upper (primary_of id) else pure tt) s).0
      first true = lowered-AllSellable (primary_of id) s all
      first false = all

      put :
          (n : ℕ) (b : Bool) (file : StoredImage)
          → AllSellable
              (((if b then lower_primary db upper (primary_of id) else pure tt)
                  >> create_image db upper (new_image (env.uuid 0) id file dto b n))
                s).0
      put n b file =
          followed AllSellable (if b then lower_primary db upper (primary_of id) else pure tt)
            (λ u. create_image db upper (new_image (env.uuid 0) id file dto b n)) s (first b)
            (λ t u p h. created-AllSellable (new_image (env.uuid 0) id file dto b n) t h)

      counted :
          (n : ℕ) (r : Result StoredImage)
          → AllSellable (upload_counted db upper env id dto r n s).0
      counted n r = elim (Bool-cases (leb max_images_per_product n)) [
        | inl b ↦ rw b all
        | inr b ↦ rw b (kept n r)
      ]
        where
          kept :
              (n : ℕ) (r : Result StoredImage)
              → AllSellable (store_image db upper env id dto n r s).0
          kept n (err e) = all
          kept n (ok file) =
              let b = get_or dto.is_primary false || n == 0 in
              rolled AllSellable
                ((if b then lower_primary db upper (primary_of id) else pure tt)
                  >> create_image db upper (new_image (env.uuid 0) id file dto b n))
                s s all (put n b file)

  pub own-store :
      (id image_id : String) (s : Store) → (assert_image_belongs db upper id image_id s).0 ≡ s
  own-store id image_id s =
      elim (Option-cases (db.product_image.find_first (image_is image_id) s.images)) [
        | inl q ↦ rw (q, own_image) refl
        | inr (r, q) ↦ elim (Bool-cases (image_of id r)) [
          | inr b ↦ rw (q, own_image) (rw b refl)
          | inl b ↦ rw (q, own_image) (rw b refl)
        ]
      ]

  pub update_image-AllSellable :
      (id image_id : String) (dto : UpdateProductImageDto) (s : Store)
      → AllSellable s
      → AllSellable (update_image db upper id image_id dto s).0
  unfolding update_image
  update_image-AllSellable id image_id dto s all =
      followed AllSellable (assert_image_belongs db upper id image_id)
        (λ image. transaction (change (get_or dto.is_primary false))) s
        (subst AllSellable (sym (own-store id image_id s)) all)
        (λ t image p h.
          rolled AllSellable (change (get_or dto.is_primary false)) t t h
            (changed (get_or dto.is_primary false) t h))
    where
      change : Bool → M (Unit {0})
      change b =
          (if b then lower_primary db upper (other_primary id image_id) else pure tt)
          >> write_image db upper image_id (image_patch dto)

      first :
          (b : Bool) (t : Store)
          → AllSellable t
          → AllSellable
              ((if b then lower_primary db upper (other_primary id image_id) else pure tt) t).0
      first true t h = lowered-AllSellable (other_primary id image_id) t h
      first false t h = h

      changed : (b : Bool) (t : Store) → AllSellable t → AllSellable (change b t).0
      changed b t h =
          followed AllSellable
            (if b then lower_primary db upper (other_primary id image_id) else pure tt)
            (λ u. write_image db upper image_id (image_patch dto)) t (first b t h)
            (λ t u p h. written-AllSellable_image image_id (image_patch dto) t (λ i. refl) h)

  order-AllSellable :
      (n : ℕ) (ids : List String) (s : Store)
      → AllSellable s
      → AllSellable (write_order db upper n ids s).0
  order-AllSellable n [] s all = all
  order-AllSellable n (id ∷ ids) s all =
      followed AllSellable (write_image db upper id (move_to n))
        (λ u. write_order db upper (n + 1) ids) s
        (written-AllSellable_image id (move_to n) s (λ i. refl) all)
        (λ t u p h. order-AllSellable (n + 1) ids t h)

  pub reorder_images-AllSellable :
      (id : String) (ids : List String) (s : Store)
      → AllSellable s
      → AllSellable (reorder_images db upper id ids s).0
  unfolding reorder_images
  reorder_images-AllSellable id ids s all =
      guarded AllSellable (assert_product_exists db upper id)
        (λ s. order_found db upper ids (db.product_image.find_all (image_of id) s.images) s) s
        (exists-store db upper id s) all (found (db.product_image.find_all (image_of id) s.images))
    where
      found : (images : List ProductImage) → AllSellable (order_found db upper ids images s).0
      found images =
          elim (Bool-cases
            (not (length ids == length images) || any (λ id. not (any (image_is id) images)) ids)) [
              | inl b ↦ rw b all
              | inr b ↦ rw b (
                  rolled AllSellable (write_order db upper 0 ids) s s all
                    (order-AllSellable 0 ids s all))
            ]
