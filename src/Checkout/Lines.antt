-- ===== src/Checkout/Lines.antt =====
-- What a cart's lines are, and what the buyer is charged.
use kori_backend.Database.{
  http, err, Failure, Product, Env, Store, Result, Result-cases, Prisma, ok, ProductVariant,
}
use kori_backend.Checkout.{
  line_for, product_is, include_products, Listing, payment_params, CreateCheckoutSession,
  session_params, new_order, build_lines_from_database, lacks_file, PaymentSession, lacks_print,
  subtotal, SessionParams, line_item, variant_is, line_of, get_variant, LineItem, Line, CartItem,
  quantities, build_lines, build_line, add_quantity,
}
use kori_backend.Prelude.{
  false, eq_iff, any, zero, ◌||◌, suc, refl, not, none, ltb, Bool, map, if◌then◌else◌, ap,
  Option-cases, Option, inr, ◌≤◌, inl, str_eq, true, arith, [], Bool-cases, All, ◌+◌, ◌*◌, ◌&&◌,
  some, ◌≡◌, ◌∷◌, Memᴰ, ℕ, String, List,
}

-- The amount that Stripe charges for line items.
abbrev pub charged : List LineItem → ℕ
charged [] = 0
charged (i ∷ is) = i.unit_amount * i.quantity + charged is

abbrev pub cart_units : List CartItem → ℕ
cart_units [] = 0
cart_units (i ∷ is) = i.quantity + cart_units is

abbrev pub entry_units : List (String × ℕ) → ℕ
entry_units [] = 0
entry_units (e ∷ es) = e.1 + entry_units es

abbrev pub line_units : List Line → ℕ
line_units [] = 0
line_units (l ∷ ls) = l.quantity + line_units ls

-- The line sells a listed variant that is active, of a product that is active, at the variant's
-- price and in a quantity of at most ten.
abbrev pub Sells : ProductVariant → Product → Line → Type 0
Sells v p l = (v.is_active && p.is_active ≡ true) × (l ≡ line_of v p l.quantity) × (l.quantity ≤ 10)

abbrev IsListed : List Listing → Line → Type 0
IsListed found l = (x : Listing) × Memᴰ x found × Sells x.variant x.product l

-- The variant and the product are rows of the tables.
abbrev pub FromShelf : List Product → List ProductVariant → Line → Type 0
FromShelf ps vs l =
    (v : ProductVariant) × (p : Product) × Memᴰ v vs
    × Memᴰ p ps
    × (p.id ≡ v.product_id)
    × Sells v p l

add_quantity-units :
    (id : String) (n : ℕ) (q : List (String × ℕ))
    → entry_units (add_quantity id n q) ≡ entry_units q + n
unfolding add_quantity
add_quantity-units id n [] = omega arith
add_quantity-units id n ((j, m) ∷ q) = elim (Bool-cases (str_eq j id)) [
  | inl p ↦ rw (p, add_quantity) (omega arith)
  | inr p ↦ rw (p, add_quantity) (omega (arith, add_quantity-units id n q))
]

quantities-units :
    (items : List CartItem) (q : List (String × ℕ))
    → entry_units (quantities items q) ≡ entry_units q + cart_units items
unfolding quantities
quantities-units [] q = omega arith
quantities-units (i ∷ is) q =
    let step = add_quantity-units i.variant_id i.quantity q in
    let rest = quantities-units is (add_quantity i.variant_id i.quantity q) in omega arith

pub get_variant-mem :
    (id : String) (found : List Listing) (v : Listing)
    → get_variant id found ≡ some v
    → Memᴰ v found
get_variant-mem id [] v h = cc
get_variant-mem id (w ∷ found) v h = elim (Bool-cases (variant_is id w.variant)) [
  | inl p ↦ Memᴰ.head (let h' = (rw p at h) in cc)
  | inr p ↦ Memᴰ.tail (get_variant-mem id found v (rw p at h))
]

guards-ok :
    (a b c d : Bool) (e f g h : Failure) (x l : Line)
    → (if a then err e else if b then err f else if c then err g else if d then err h else ok x)
      ≡ ok l
    → (a ≡ false) × (d ≡ false) × (x ≡ l)
guards-ok true b c d e f g h x l k = cc
guards-ok false true c d e f g h x l k = cc
guards-ok false false true d e f g h x l k = cc
guards-ok false false false true e f g h x l k = cc
guards-ok false false false false e f g h x l k = (refl, refl, cc)

line_for-Sells :
    (x : Listing) (n : ℕ) (l : Line)
    → line_for x n ≡ ok l
    → Sells x.variant x.product l × (l.quantity ≡ n)
unfolding line_for
line_for-Sells x n l h =
    let (live, few, e) =
      guards-ok (not x.variant.is_active || not x.product.is_active)
        (lacks_print x.variant x.product) (lacks_file x.variant x.product) (ltb 10 n) (http 409)
        (http 422) (http 422) (http 409) (line_of x.variant x.product n) l h in
    rw (← e) ((ground arith, refl, ground arith), refl)

build_line-IsListed :
    (found : List Listing) (id : String) (n : ℕ) (l : Line)
    → build_line found id n ≡ ok l
    → IsListed found l × (l.quantity ≡ n)
unfolding build_line
build_line-IsListed found id n l h = elim (Option-cases (get_variant id found)) [
  | inl p ↦ let bad = (rw (p, build_line) at h) in cc
  | inr (x, p) ↦
      let (sells, same) = line_for-Sells x n l (rw (p, build_line) at h) in
      ((x, get_variant-mem id found x p, sells), same)
]

-- A line for each entry, in the entry's quantity, with the row's price.
build_lines-IsListed :
    (found : List Listing) (q : List (String × ℕ)) (ls : List Line)
    → build_lines found q ≡ ok ls
    → All (IsListed found) ls × (line_units ls ≡ entry_units q)
unfolding build_lines
build_lines-IsListed found [] ls h = let e : [] ≡ ls = cc in rw (← e) (tt, refl)
build_lines-IsListed found ((id, n) ∷ q) ls h = elim (Result-cases (build_line found id n)) [
  | inr (e, p) ↦ let bad = (rw (p, build_lines) at h) in cc
  | inl (l, p) ↦ elim (Result-cases (build_lines found q)) [
    | inr (f, r) ↦ let bad = (rw r at (rw (p, build_lines) at h)) in cc
    | inl (ks, r) ↦
        let h' = (rw r at (rw (p, build_lines) at h)) in
        let e : l ∷ ks ≡ ls = cc in
        let (shelf, units) = build_line-IsListed found id n l p in
        let (rest, more) = build_lines-IsListed found q ks r in
        rw (← e) ((shelf, rest), omega arith)
  ]
]

line-charged :
    (l : Line) (found : List Listing)
    → IsListed found l
    → l.line_total_cents ≡ l.unit_price_cents * l.quantity
line-charged l found (v, m, (active, e, few)) =
    let a = ap (λ l. l.line_total_cents) e in
    let b = ap (λ l. l.unit_price_cents) e in rw (a, b) refl

charged-lines :
    (found : List Listing) (ls : List Line)
    → All (IsListed found) ls
    → charged (map line_item ls) ≡ subtotal ls
charged-lines found [] h = refl
charged-lines found (l ∷ ls) h =
    let one = line-charged l found h.0 in
    let rest = charged-lines found ls h.1 in rw (rest, one) refl

-- The amount of the shipping option.
abbrev pub charged_shipping : Option ℕ → ℕ
charged_shipping none = 0
charged_shipping (some n) = n

shipping-charged : (n : ℕ) → charged_shipping (if ltb 0 n then some n else none) ≡ n
shipping-charged zero = refl
shipping-charged (suc n) = let e : ltb 0 (suc n) ≡ true = ground arith in rw e refl

module _ (db : Prisma) (normalize_locale : Option String → String) (has_stripe : Bool)
    (flat_shipping : Option ℕ) (create_payment : SessionParams → Result PaymentSession) where
  -- The variants of a cart with their products, as they are read.
  abbrev pub found_for : List CartItem → Store → List Listing
  found_for items s =
      include_products db normalize_locale has_stripe flat_shipping create_payment s.products (
        db.product_variant.find_all (λ v. any (λ e. str_eq e.0 v.id) (quantities items []))
          s.variants)

  lines_found :
      (items : List CartItem) (s s' : Store) (ls : List Line)
      → build_lines_from_database db normalize_locale has_stripe flat_shipping create_payment items
          s
        ≡ (s', ok ls)
      → All (IsListed (found_for items s)) ls × (line_units ls ≡ entry_units (quantities items []))
  unfolding build_lines_from_database
  lines_found items s s' ls h = build_lines-IsListed (found_for items s) (quantities items []) ls cc

  abbrev pub IsRow : List Product → List ProductVariant → Listing → Type 0
  IsRow ps vs x = Memᴰ x.variant vs × Memᴰ x.product ps × (x.product.id ≡ x.variant.product_id)

  pub include_products-IsRow :
      (ps : List Product) (vs : List ProductVariant) (x : Listing)
      → Memᴰ x (include_products db normalize_locale has_stripe flat_shipping create_payment ps vs)
      → IsRow ps vs x
  include_products-IsRow ps [] x m = elim m [ ]
  include_products-IsRow ps (v ∷ vs) x m =
      elim (Option-cases (db.product.find_first (product_is v.product_id) ps)) [
        | inl p ↦
            let (a, b, c) = include_products-IsRow ps vs x (rw (p, include_products) at m) in
            (Memᴰ.tail a, b, c)
        | inr (q, p) ↦
            row ps vs v q x (db.product.find_first_some _ ps q p) (include_products-IsRow ps vs x)
              (rw (p, include_products) at m)
      ]
    where
      row :
          (ps : List Product) (vs : List ProductVariant) (v : ProductVariant) (q : Product)
          (x : Listing)
          → Memᴰ q ps × (product_is v.product_id q ≡ true)
          → (Memᴰ x
                (include_products db normalize_locale has_stripe flat_shipping create_payment ps vs)
              → IsRow ps vs x)
          → Memᴰ x (
              record { variant = v; product = q }
              ∷ include_products db normalize_locale has_stripe flat_shipping create_payment ps vs)
          → IsRow ps (v ∷ vs) x
      row ps vs v q x (m, e) ih (Memᴰ.head h) =
          rw h (Memᴰ.head refl, m, (eq_iff q.id v.product_id).0 e)
      row ps vs v q x (m, e) ih (Memᴰ.tail h) = let (a, b, c) = ih h in (Memᴰ.tail a, b, c)

  found-FromShelf :
      (items : List CartItem) (s : Store) (ls : List Line)
      → All (IsListed (found_for items s)) ls
      → All (FromShelf s.products s.variants) ls
  found-FromShelf items s [] h = tt
  found-FromShelf items s (l ∷ ls) ((x, m, sells), hs) =
      let (a, b, c) = include_products-IsRow s.products _ x m in
      (
        (
          x.variant,
          x.product,
          (db.product_variant.find_all_mem _ s.variants x.variant a).0,
          b,
          c,
          sells,
        ),
        found-FromShelf items s ls hs,
      )

  -- The lines of a cart that is accepted sell, at the catalog's present prices, variants that are
  -- active and whose products are, at most ten of each line, and together as many units as the
  -- cart asks for.
  pub lines-FromShelf :
      (items : List CartItem) (s s' : Store) (ls : List Line)
      → build_lines_from_database db normalize_locale has_stripe flat_shipping create_payment items
          s
        ≡ (s', ok ls)
      → All (FromShelf s.products s.variants) ls × (line_units ls ≡ cart_units items)
  lines-FromShelf items s s' ls h =
      let (shelf, units) = lines_found items s s' ls h in
      let asked = quantities-units items [] in (found-FromShelf items s ls shelf, omega arith)

  -- For the lines of a cart that is accepted, what the payment session charges, its line items and
  -- its shipping, is the total of the order that is written.
  pub charges_order_total :
      (env : Env) (number : ℕ) (dto : CreateCheckoutSession) (s s' : Store) (ls : List Line)
      → build_lines_from_database db normalize_locale has_stripe flat_shipping create_payment
          dto.items s
        ≡ (s', ok ls)
      → (let o =
            new_order db normalize_locale has_stripe flat_shipping create_payment env number dto
              ls in
          let p =
            payment_params db normalize_locale has_stripe flat_shipping create_payment env dto ls
              o in
          charged p.line_items + charged_shipping p.shipping_amount ≡ o.total_cents)
  unfolding new_order session_params
  charges_order_total env number dto s s' ls h =
      let (shelf, units) = lines_found dto.items s s' ls h in
      rw (charged-lines _ ls shelf, shipping-charged) refl
