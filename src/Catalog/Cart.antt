-- ===== src/Catalog/Cart.antt =====
-- The checkout over a catalog whose products on sale are sellable.
use kori_backend.Checkout.Lines.{include_products-IsRow, found_for, get_variant-mem}
use kori_backend.Catalog.Sellable.{IsSellable, AllSellable}
use kori_backend.Catalog.{is_active_of, is_incomplete}
use kori_backend.Checkout.{
  quantities, line_of, lacks_file, lacks_print, CartItem, get_variant, build_lines_from_database,
  PaymentSession, SessionParams, Listing, Line, line_for, build_lines, build_line,
}
use kori_backend.Database.{Result-cases, Store, ok, http, Result, err, Prisma}
use kori_backend.Prelude.{
  ◌∙◌, ◌∷◌, [], ℕ, refl, ap, sym, eq_iff, All-mem, arith, ltb, inr, ◌||◌, not, inl, false, true,
  Option-cases, ◌≡◌, Memᴰ, if◌then◌else◌, String, Option, List, Bool,
}

abbrev status : {A : Type 0} → Result A → ℕ
status (err (http n)) = n
status _ = 0

conflict_apart : {A : Type 0} → ¬ (◌≡◌ {A = Result A} (err (http 409)) (err (http 422)))
conflict_apart h = let k : ◌≡◌ {A = ℕ} 409 422 = ap status h in omega arith

refused_as :
    (a b c d : Bool) (x : Line)
    → (if a
        then err (http 409)
        else if b
        then err (http 422)
        else if c
        then err (http 422)
        else if d
        then err (http 409)
        else ok x)
      ≡ err (http 422)
    → (a ≡ false) × (b || c ≡ true)
refused_as true b c d x h = elim (conflict_apart h) [ ]
refused_as false true c d x h = (refl, refl)
refused_as false false true d x h = (refl, refl)
refused_as false false false true x h = elim (conflict_apart h) [ ]
refused_as false false false false x h = cc

-- The row of a listing that cannot be produced or delivered although it is on sale.
line_for-refused :
    (x : Listing) (n : ℕ)
    → line_for x n ≡ err (http 422)
    → (x.variant.is_active ≡ true)
      × (x.product.is_active ≡ true)
      × (is_incomplete x.product x.variant ≡ true)
unfolding line_for
line_for-refused x n h =
    let (live, bad) =
      refused_as (not x.variant.is_active || not x.product.is_active)
        (lacks_print x.variant x.product) (lacks_file x.variant x.product) (ltb 10 n)
        (line_of x.variant x.product n) h in
    (ground arith, ground arith, bad)

build_line-refused :
    (found : List Listing) (id : String) (n : ℕ)
    → ((x : Listing) → Memᴰ x found → (n : ℕ) → ¬ (line_for x n ≡ err (http 422)))
    → ¬ (build_line found id n ≡ err (http 422))
unfolding build_line
build_line-refused found id n fine h = elim (Option-cases (get_variant id found)) [
  | inl p ↦ conflict_apart (rw (p, build_line) at h)
  | inr (x, p) ↦ fine x (get_variant-mem id found x p) n (rw (p, build_line) at h)
]

build_lines-refused :
    (found : List Listing) (q : List (String × ℕ))
    → ((x : Listing) → Memᴰ x found → (n : ℕ) → ¬ (line_for x n ≡ err (http 422)))
    → ¬ (build_lines found q ≡ err (http 422))
unfolding build_lines
build_lines-refused found [] fine h = let k : ◌≡◌ {A = ℕ} 0 422 = ap status h in omega arith
build_lines-refused found ((id, n) ∷ q) fine h = elim (Result-cases (build_line found id n)) [
  | inr (e, p) ↦
      let h' = (rw (p, build_lines) at h) in
      let same : e ≡ http 422 = cc in build_line-refused found id n fine (p ∙ ap err same)
  | inl (l, p) ↦ elim (Result-cases (build_lines found q)) [
    | inl (ks, r) ↦ let bad = (rw r at (rw (p, build_lines) at h)) in cc
    | inr (f, r) ↦
        let h' = (rw r at (rw (p, build_lines) at h)) in build_lines-refused found q fine (r ∙ h')
  ]
]

module _ (db : Prisma) (normalize_locale : Option String → String) (has_stripe : Bool)
    (flat_shipping : Option ℕ) (create_payment : SessionParams → Result PaymentSession) where
  -- Where the products on sale are sellable, no cart is refused because a variant in it cannot be
  -- produced or delivered.
  pub AllSellable-cart_lines :
      (items : List CartItem) (s : Store)
      → AllSellable s
      → ¬ (
          (build_lines_from_database db normalize_locale has_stripe flat_shipping create_payment
            items s).1
          ≡ err (http 422))
  unfolding build_lines_from_database
  AllSellable-cart_lines items s all =
      build_lines-refused
        (found_for db normalize_locale has_stripe flat_shipping create_payment items s)
        (quantities items [])
        (λ x m n h.
          let (sold, listed, bad) = line_for-refused x n h in
          let (row, product, same) =
            include_products-IsRow db normalize_locale has_stripe flat_shipping create_payment
              s.products _ x m in
          let (there, e) = db.product_variant.find_all_mem _ s.variants x.variant row in
          let (a, b, complete) =
            All-mem (λ p. p.is_active ≡ true → IsSellable s.variants s.images p) s.products all
              product listed in
          let fine =
            All-mem (λ v. is_active_of x.product.id v ≡ true → is_incomplete x.product v ≡ false)
              s.variants complete there
              (ground (arith, (eq_iff x.variant.product_id x.product.id).1 (sym same), sold)) in
          cc)
