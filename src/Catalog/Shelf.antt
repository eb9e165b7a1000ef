-- ===== src/Catalog/Shelf.antt =====
-- What the shop shows, and the cart.
use mathlib.Core.Path.{subst}
use kori_backend.Catalog.Sellable.{IsSellable, IsCatalogKeyed, AllSellable}
use kori_backend.Catalog.Public.{
  public_variant, is_purchasable, public_product, PublicVariant, PublicProduct, find_all,
}
use kori_backend.Catalog.Rows.{is_active_of, is_incomplete}
use kori_backend.Checkout.{
  Line, build_line, build_lines, add_quantity, quantities, build_lines_from_database, lacks_file,
  lacks_print, line_of, include_products, get_variant, variant_is, product_is, line_for,
  PaymentSession, SessionParams,
}
use kori_backend.Prelude.{
  ◌∙◌, any-of_mem, IsKeyed, sym, str_eq, any, All-mem, map_mem, [], Option-cases, refl, inr, ltb,
  ap, inl, arith, Bool-cases, eq_iff, ◌∷◌, ◌≤◌, false, Memᴰ, true, some, ◌≡◌, List, ℕ, Bool, String,
  Option,
}
use kori_backend.Database.{Product_clash, Store, ok, ProductVariant, Product, Result, Prisma}

module _ (db : Prisma) (normalize_locale : Option String → String) (has_stripe : Bool)
    (flat_shipping : Option ℕ) (create_payment : SessionParams → Result PaymentSession) where
  -- The listing of a variant that is told apart by its identifier.
  listing_found :
      (ps : List Product) (vs : List ProductVariant) (v : ProductVariant) (p : Product)
      → db.product.find_first (product_is v.product_id) ps ≡ some p
      → ((w : ProductVariant) → Memᴰ w vs → variant_is v.id w ≡ true → w ≡ v)
      → Memᴰ v vs
      → get_variant v.id
          (include_products db normalize_locale has_stripe flat_shipping create_payment ps vs)
        ≡ some (record { variant = v; product = p })
  listing_found ps [] v p e only m = elim m [ ]
  listing_found ps (w ∷ vs) v p e only m = elim (Bool-cases (variant_is v.id w)) [
    | inl b ↦
        let same = only w (Memᴰ.head refl) b in
        let e' : db.product.find_first (product_is w.product_id) ps ≡ some p = rw same e in
        rw (e', include_products) (rw b (ap (λ x. some (record { variant = x; product = p })) same))
    | inr b ↦
        let rest = listing_found ps vs v p e (λ w n. only w (Memᴰ.tail n)) (later m b) in
        elim (Option-cases (db.product.find_first (product_is w.product_id) ps)) [
          | inl q ↦ rw (q, include_products) rest
          | inr (r, q) ↦ rw (q, include_products) (rw b rest)
        ]
  ]
    where
      later : Memᴰ v (w ∷ vs) → variant_is v.id w ≡ false → Memᴰ v vs
      later (Memᴰ.head e) b =
          let mine : variant_is v.id w ≡ true = rw (← e) ((eq_iff v.id v.id).1 refl) in cc
      later (Memᴰ.tail n) b = n

  line_for_shown :
      (v : ProductVariant) (p : Product) (n : ℕ)
      → v.is_active ≡ true
      → p.is_active ≡ true
      → is_incomplete p v ≡ false
      → n ≤ 10
      → line_for (record { variant = v; product = p }) n ≡ ok (line_of v p n)
  unfolding line_for
  line_for_shown v p n a b c few =
      let print : lacks_print v p ≡ false = ground (arith, c) in
      let file : lacks_file v p ≡ false = ground (arith, c) in
      let room : ltb 10 n ≡ false = ground arith in
      rw (line_for, print, file, room) (simp (a, b) refl)

  -- The row of a product on sale that a variant is of.
  owner_found :
      (s : Store) (p : Product) (v : ProductVariant)
      → IsKeyed Product_clash s.products
      → Memᴰ p s.products
      → v.product_id ≡ p.id
      → db.product.find_first (product_is v.product_id) s.products ≡ some p
  owner_found s p v keyed m own =
      elim (Option-cases (db.product.find_first (product_is v.product_id) s.products)) [
        | inl q ↦
            let none_of = db.product.find_first_none _ s.products q in
            let here =
              any-of_mem (product_is v.product_id) s.products m
                ((eq_iff p.id v.product_id).1 (sym own)) in
            cc
        | inr (r, q) ↦
            let (n, e) = db.product.find_first_some _ s.products r q in
            let same : r.id ≡ p.id = (eq_iff r.id v.product_id).0 e ∙ own in
            let clash : Product_clash r p ≡ true = let k = (eq_iff r.id p.id).1 same in rw k refl in
            q ∙ ap some (keyed r p n m clash)
      ]

  row_can_be_bought :
      (s : Store) (p : Product) (v : ProductVariant) (n : ℕ)
      → IsCatalogKeyed s
      → Memᴰ p s.products
      → Memᴰ v s.variants
      → p.is_active ≡ true
      → is_active_of p.id v ≡ true
      → is_incomplete p v ≡ false
      → n ≤ 10
      → build_lines_from_database db normalize_locale has_stripe flat_shipping create_payment
          (record { variant_id = v.id; quantity = n } ∷ [])
          s
        ≡ (s, ok (line_of v p n ∷ []))
  unfolding build_lines_from_database quantities add_quantity build_lines build_line
  row_can_be_bought s p v n (products, variants, images) mp mv sold live fine few =
      let active : v.is_active ≡ true = ground (arith, live) in
      let own : v.product_id ≡ p.id = (eq_iff v.product_id p.id).0 (ground (arith, live)) in
      let asked : ProductVariant → Bool =
        λ w. any (λ (e : String × ℕ). str_eq e.0 w.id) ((v.id, n) ∷ []) in
      let mine : asked v ≡ true = rw ((eq_iff v.id v.id).1 refl) refl in
      let found =
        listing_found s.products (db.product_variant.find_all asked s.variants) v p
          (owner_found s p v products mp own)
          (λ w k c.
            variants w v (db.product_variant.find_all_mem asked s.variants w k).0 mv (rw c refl))
          (db.product_variant.mem_find_all asked s.variants v mv mine) in
      let line = line_for_shown v p n active sold fine few in
      rw (build_lines_from_database, quantities, add_quantity, build_lines, build_line, found, line)
        refl

  -- Of a catalog whose products on sale are sellable, and whose rows are told apart by their unique
  -- columns, whatever the shop shows can be bought: up to ten of a variant that is shown make a
  -- cart of one line, under the product's name and at the price that are shown.
  pub shown_can_be_bought :
      (s : Store) (shown : PublicProduct) (variant : PublicVariant) (n : ℕ)
      → AllSellable s
      → IsCatalogKeyed s
      → Memᴰ shown (find_all db s).products
      → Memᴰ variant shown.variants
      → n ≤ 10
      → (l : Line) × (build_lines_from_database db normalize_locale has_stripe flat_shipping
            create_payment
            (record { variant_id = variant.id; quantity = n } ∷ [])
            s
          ≡ (s, ok (l ∷ [])))
        × (l.product_name ≡ shown.name)
        × (l.unit_price_cents ≡ variant.price_cents)
        × (l.quantity ≡ n)
  unfolding find_all
  shown_can_be_bought s shown variant n all keyed here there few =
      let (p, m, e) =
        map_mem (public_product db s) (db.product.find_all (is_purchasable s.variants) s.products)
          shown here in
      let (v, m', e') =
        map_mem public_variant (db.product_variant.find_all (is_active_of p.id) s.variants) variant
          (subst (λ x. Memᴰ variant x.variants) e there) in
      let (mp, on) = db.product.find_all_mem (is_purchasable s.variants) s.products p m in
      let (mv, live) = db.product_variant.find_all_mem (is_active_of p.id) s.variants v m' in
      let sold : p.is_active ≡ true = ground (arith, on) in
      let (a, b, complete) =
        All-mem (λ p. p.is_active ≡ true → IsSellable s.variants s.images p) s.products all mp
          sold in
      let fine =
        All-mem (λ v. is_active_of p.id v ≡ true → is_incomplete p v ≡ false) s.variants complete mv
          live in
      (
        line_of v p n,
        subst
            (λ id.
              build_lines_from_database db normalize_locale has_stripe flat_shipping create_payment
                (record { variant_id = id; quantity = n } ∷ []) s
              ≡ (s, ok (line_of v p n ∷ [])))
            (ap (λ x. x.id) (sym e')) (row_can_be_bought s p v n keyed mp mv sold live fine few),
        ap (λ x. x.name) (sym e),
        ap (λ x. x.price_cents) (sym e'),
        refl,
      )
