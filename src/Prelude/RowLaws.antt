-- ===== src/Prelude/RowLaws.antt =====
-- Laws of the operations on rows: what a patch or a deletion keeps.
use mathlib.Core.Logic.{inr, inl}
use native.Mathlib.Omega.{arith}
use kori_backend.Prelude.Tests.{Bool-cases}
use Prim.Native.Nat.{ℕ, zero, suc}
use kori_backend.Prelude.Lists.{drop, take}
use mathlib.Core.Path.{ap, refl, sym, ◌≡◌, ◌∙◌}
use kori_backend.Prelude.Rows.{count_where, update_where, discard, any, All}
use mathlib.Core.List.{[], ◌∷◌, ◌++◌, map, Memᴰ, List}
use mathlib.Core.Bool.{◌||◌, true, false, Bool}

module _ {ℓ κ} {A : Type ℓ} (P : A → Type κ) where
  pub All-mem : {x : A} (xs : List A) → All P xs → Memᴰ x xs → P x
  All-mem [] h m = elim m [ ]
  All-mem (y ∷ xs) h (Memᴰ.head e) = rw e h.0
  All-mem (y ∷ xs) h (Memᴰ.tail m) = All-mem xs h.1 m

  pub All-update_where :
      (p : A → Bool) (f : A → A) (xs : List A)
      → ((x : A) → P x → p x ≡ true → P (f x))
      → All P xs
      → All P (update_where p f xs)
  All-update_where p f [] keeps h = tt
  All-update_where p f (x ∷ xs) keeps h = (
    elim (Bool-cases (p x)) [ inl e ↦ rw e (keeps x h.0 e) | inr e ↦ rw e h.0 ],
    All-update_where p f xs keeps h.1,
  )

  pub All-append : (xs ys : List A) → All P xs → All P ys → All P (xs ++ ys)
  All-append [] ys h k = k
  All-append (x ∷ xs) ys h k = (h.0, All-append xs ys h.1 k)

  pub All-discard : (p : A → Bool) (xs : List A) → All P xs → All P (discard p xs)
  All-discard p [] h = tt
  All-discard p (x ∷ xs) h = elim (Bool-cases (p x)) [
    | inl e ↦ rw e (All-discard p xs h.1)
    | inr e ↦ rw e (h.0, All-discard p xs h.1)
  ]

  pub All-of : ((x : A) → P x) → (xs : List A) → All P xs
  All-of h [] = tt
  All-of h (x ∷ xs) = (h x, All-of h xs)

module _ {ℓ} {A : Type ℓ} where
  pub any-of_mem : (p : A → Bool) (xs : List A) {x : A} → Memᴰ x xs → p x ≡ true → any p xs ≡ true
  any-of_mem p [] m h = elim m [ ]
  any-of_mem p (y ∷ xs) (Memᴰ.head e) h = rw (← e) (rw h)
  any-of_mem p (y ∷ xs) (Memᴰ.tail m) h = ground (arith, any-of_mem p xs m h)

  pub any-update_where :
      (q p : A → Bool) (f : A → A) (xs : List A)
      → ((x : A) → q (f x) ≡ q x)
      → any q (update_where p f xs) ≡ any q xs
  any-update_where q p f [] keeps = refl
  any-update_where q p f (x ∷ xs) keeps = ground (arith, keeps x, any-update_where q p f xs keeps)

  pub any-append : (q : A → Bool) (xs ys : List A) → any q (xs ++ ys) ≡ (any q xs || any q ys)
  any-append q [] ys = refl
  any-append q (x ∷ xs) ys = ground (arith, any-append q xs ys)

  pub any-update_where_mono :
      (q p : A → Bool) (f : A → A) (xs : List A)
      → ((x : A) → p x ≡ true → q x ≡ true → q (f x) ≡ true)
      → any q xs ≡ true
      → any q (update_where p f xs) ≡ true
  any-update_where_mono q p f [] keeps h = h
  any-update_where_mono q p f (x ∷ xs) keeps h =
      ground (arith, keeps x, any-update_where_mono q p f xs keeps)

  pub any-discard :
      (q p : A → Bool) (xs : List A)
      → ((x : A) → p x ≡ true → q x ≡ false)
      → any q xs ≡ true
      → any q (discard p xs) ≡ true
  any-discard q p [] apart h = h
  any-discard q p (x ∷ xs) apart h = ground (arith, apart x, any-discard q p xs apart)

  pub any-append_left : (q : A → Bool) (xs ys : List A) → any q xs ≡ true → any q (xs ++ ys) ≡ true
  any-append_left q xs ys h = rw any-append (rw h)

module _ {ℓ} {A : Type ℓ} where
  pub update_where-none :
      (p : A → Bool) (f : A → A) (xs : List A) → any p xs ≡ false → update_where p f xs ≡ xs
  update_where-none p f [] h = refl
  update_where-none p f (x ∷ xs) h = ground (arith, update_where-none p f xs)

  pub count_where-none : (p : A → Bool) (xs : List A) → any p xs ≡ false → count_where p xs ≡ 0
  count_where-none p [] h = refl
  count_where-none p (x ∷ xs) h = ground (arith, count_where-none p xs)

  pub any-false : (p : A → Bool) (xs : List A) → All (λ x. p x ≡ false) xs → any p xs ≡ false
  any-false p [] h = refl
  any-false p (x ∷ xs) h = ground (arith, any-false p xs h.1)

module _ {ℓ κ} {A : Type ℓ} (P : A → Type κ) where
  -- What a patch makes true of the rows that it is applied to, and those it leaves had already.
  pub All-after_update :
      (p : A → Bool) (f : A → A) (xs : List A)
      → ((x : A) → p x ≡ true → P (f x))
      → ((x : A) → p x ≡ false → P x)
      → All P (update_where p f xs)
  All-after_update p f [] h k = tt
  All-after_update p f (x ∷ xs) h k = (
    elim (Bool-cases (p x)) [ inl e ↦ rw e (h x e) | inr e ↦ rw e (k x e) ],
    All-after_update p f xs h k,
  )

module _ {ℓ} {A : Type ℓ} where
  -- A patch leaves the other rows alone.
  pub discard-update_where :
      (p : A → Bool) (f : A → A) (xs : List A)
      → ((x : A) → p x ≡ true → p (f x) ≡ true)
      → discard p (update_where p f xs) ≡ discard p xs
  discard-update_where p f [] h = refl
  discard-update_where p f (x ∷ xs) h = elim (Bool-cases (p x)) [
    | inl e ↦ rw (e, h x e) (discard-update_where p f xs h)
    | inr e ↦ rw (e, e) (ap (λ t. x ∷ t) (discard-update_where p f xs h))
  ]

module _ {ℓ κ} {A : Type ℓ} (P : A → Type κ) where
  -- The same, where what is known of a row hangs on its being in the table.
  pub All-update_mem :
      (p : A → Bool) (f : A → A) (xs : List A)
      → ((x : A) → Memᴰ x xs → p x ≡ true → P (f x))
      → ((x : A) → Memᴰ x xs → p x ≡ false → P x)
      → All P (update_where p f xs)
  All-update_mem p f [] h k = tt
  All-update_mem p f (x ∷ xs) h k = (
    elim (Bool-cases (p x)) [
      | inl e ↦ rw e (h x (Memᴰ.head refl) e)
      | inr e ↦ rw e (k x (Memᴰ.head refl) e)
    ],
    All-update_mem p f xs (λ y m. h y (Memᴰ.tail m)) (λ y m. k y (Memᴰ.tail m)),
  )

  pub All-of_mem : (xs : List A) → ((x : A) → Memᴰ x xs → P x) → All P xs
  All-of_mem [] h = tt
  All-of_mem (x ∷ xs) h = (h x (Memᴰ.head refl), All-of_mem xs (λ y m. h y (Memᴰ.tail m)))

module _ {ℓ} {A : Type ℓ} where
  pub any-update_mem :
      (q p : A → Bool) (f : A → A) (xs : List A)
      → ((x : A) → Memᴰ x xs → p x ≡ true → q (f x) ≡ q x)
      → any q (update_where p f xs) ≡ any q xs
  any-update_mem q p f [] keeps = refl
  any-update_mem q p f (x ∷ xs) keeps =
      let rest = any-update_mem q p f xs (λ y m. keeps y (Memᴰ.tail m)) in
      elim (Bool-cases (p x)) [
        | inl e ↦ let same = keeps x (Memᴰ.head refl) e in rw e (rw (same, rest) refl)
        | inr e ↦ rw e (rw rest refl)
      ]

  pub any-discard_mem :
      (q p : A → Bool) (xs : List A)
      → ((x : A) → Memᴰ x xs → p x ≡ true → q x ≡ false)
      → any q (discard p xs) ≡ any q xs
  any-discard_mem q p [] apart = refl
  any-discard_mem q p (x ∷ xs) apart =
      let rest = any-discard_mem q p xs (λ y m. apart y (Memᴰ.tail m)) in
      elim (Bool-cases (p x)) [
        | inl e ↦ let none_of = apart x (Memᴰ.head refl) e in rw e (rw (none_of, rest) refl)
        | inr e ↦ rw e (rw rest refl)
      ]

  pub any-updated :
      (q p : A → Bool) (f : A → A) (xs : List A) {x : A}
      → Memᴰ x xs
      → p x ≡ true
      → q (f x) ≡ true
      → any q (update_where p f xs) ≡ true
  any-updated q p f [] m h k = elim m [ ]
  any-updated q p f (y ∷ xs) (Memᴰ.head e) h k = rw (← e) (rw (h, k) refl)
  any-updated q p f (y ∷ xs) (Memᴰ.tail m) h k = ground (arith, any-updated q p f xs m h k)

  pub any-discard_back :
      (q p : A → Bool) (xs : List A) → any q (discard p xs) ≡ true → any q xs ≡ true
  any-discard_back q p [] h = h
  any-discard_back q p (x ∷ xs) h = ground (arith, any-discard_back q p xs)

  pub mem-update_where :
      (p : A → Bool) (f : A → A) (xs : List A) {x : A}
      → Memᴰ x xs
      → p x ≡ false
      → Memᴰ x (update_where p f xs)
  mem-update_where p f [] m h = elim m [ ]
  mem-update_where p f (y ∷ xs) (Memᴰ.head e) h =
      let here : p y ≡ false = ap p (sym e) ∙ h in rw here (Memᴰ.head e)
  mem-update_where p f (y ∷ xs) (Memᴰ.tail m) h = Memᴰ.tail (mem-update_where p f xs m h)

  pub mem_discard :
      (p : A → Bool) (xs : List A) (x : A) → Memᴰ x xs → p x ≡ false → Memᴰ x (discard p xs)
  mem_discard p [] x m h = elim m [ ]
  mem_discard p (y ∷ xs) x (Memᴰ.head e) h =
      let here : p y ≡ false = ap p (sym e) ∙ h in rw here (Memᴰ.head e)
  mem_discard p (y ∷ xs) x (Memᴰ.tail m) h =
      let rest = mem_discard p xs x m h in
      elim (Bool-cases (p y)) [ inl e ↦ rw e rest | inr e ↦ rw e (Memᴰ.tail rest) ]

  kept_head :
      (p : A → Bool) (y x : A) (xs : List A)
      → p y ≡ false
      → (Memᴰ x (discard p xs) → Memᴰ x xs × (p x ≡ false))
      → Memᴰ x (y ∷ discard p xs)
      → Memᴰ x (y ∷ xs) × (p x ≡ false)
  kept_head p y x xs e rest (Memᴰ.head same) = (Memᴰ.head same, rw same e)
  kept_head p y x xs e rest (Memᴰ.tail n) = (Memᴰ.tail (rest n).0, (rest n).1)

  pub mem-drop : (n : ℕ) (t : List A) (r : A) → Memᴰ r (drop n t) → Memᴰ r t
  mem-drop zero t r m = m
  mem-drop (suc n) [] r m = elim m [ ]
  mem-drop (suc n) (x ∷ t) r m = Memᴰ.tail (mem-drop n t r m)

  pub mem-take : (n : ℕ) (t : List A) (r : A) → Memᴰ r (take n t) → Memᴰ r t
  mem-take zero t r m = elim m [ ]
  mem-take (suc n) [] r m = elim m [ ]
  mem-take (suc n) (x ∷ t) r (Memᴰ.head e) = Memᴰ.head e
  mem-take (suc n) (x ∷ t) r (Memᴰ.tail m) = Memᴰ.tail (mem-take n t r m)

  pub mem-append_left : (xs ys : List A) (x : A) → Memᴰ x xs → Memᴰ x (xs ++ ys)
  mem-append_left [] ys x m = elim m [ ]
  mem-append_left (y ∷ xs) ys x (Memᴰ.head e) = Memᴰ.head e
  mem-append_left (y ∷ xs) ys x (Memᴰ.tail m) = Memᴰ.tail (mem-append_left xs ys x m)

  pub mem-append_last : (xs : List A) (x : A) → Memᴰ x (xs ++ x ∷ [])
  mem-append_last [] x = Memᴰ.head refl
  mem-append_last (y ∷ xs) x = Memᴰ.tail (mem-append_last xs x)

  pub discard_mem :
      (p : A → Bool) (xs : List A) (x : A) → Memᴰ x (discard p xs) → Memᴰ x xs × (p x ≡ false)
  discard_mem p [] x m = elim m [ ]
  discard_mem p (y ∷ xs) x m = elim (Bool-cases (p y)) [
    | inl e ↦ let (old, other) = discard_mem p xs x (rw e at m) in (Memᴰ.tail old, other)
    | inr e ↦ kept_head p y x xs e (discard_mem p xs x) (rw e at m)
  ]

  pub any-member :
      (p : A → Bool) (xs : List A) → any p xs ≡ true → (x : A) × Memᴰ x xs × (p x ≡ true)
  any-member p [] h = cc
  any-member p (x ∷ xs) h = elim (Bool-cases (p x)) [
    | inl e ↦ (x, Memᴰ.head refl, e)
    | inr e ↦ let rest = (rw e at h) in let (y, m, k) = any-member p xs rest in (y, Memᴰ.tail m, k)
  ]

  pub any-none_of :
      (p : A → Bool) (xs : List A) (x : A) → any p xs ≡ false → Memᴰ x xs → p x ≡ false
  any-none_of p xs x h m = elim (Bool-cases (p x)) [
    | inl e ↦ let bad = any-of_mem p xs m e in cc
    | inr e ↦ e
  ]

module _ {ℓ κ} {A : Type ℓ} {B : Type κ} where
  pub map_mem :
      (f : A → B) (xs : List A) (y : B) → Memᴰ y (map f xs) → (x : A) × Memᴰ x xs × (y ≡ f x)
  map_mem f [] y m = elim m [ ]
  map_mem f (x ∷ xs) y (Memᴰ.head e) = (x, Memᴰ.head refl, e)
  map_mem f (x ∷ xs) y (Memᴰ.tail m) = let (z, n, e) = map_mem f xs y m in (z, Memᴰ.tail n, e)

module _ {R : Type 0} (clash : R → R → Bool) where
  -- Two rows of the table that clash are one row.
  abbrev pub IsKeyed : List R → Type 0
  IsKeyed t = (r q : R) → Memᴰ r t → Memᴰ q t → clash r q ≡ true → r ≡ q

  pub single-IsKeyed : (r : R) → IsKeyed (r ∷ [])
  single-IsKeyed r a b m n e = only a m ∙ sym (only b n)
    where
      only : (x : R) → Memᴰ x (r ∷ []) → x ≡ r
      only x (Memᴰ.head same) = same
      only x (Memᴰ.tail n) = elim n [ ]
