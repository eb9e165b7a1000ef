-- ===== src/Prelude/Sort.antt =====
-- `Array.prototype.sort`, and the order of a query.
use native.Mathlib.Omega.{arith}
use Prim.Native.Nat.{suc}
use mathlib.Core.Logic.{inl, inr}
use mathlib.Core.Path.{◌≡◌, refl}
use mathlib.Core.Bool.{Bool}
use mathlib.Core.List.{List, [], ◌∷◌, Memᴰ}
use kori_backend.Prelude.Tests.{Bool-cases, if◌then◌else◌}
use kori_backend.Prelude.Lists.{length}
use kori_backend.Prelude.RowLaws.{All-mem}
use kori_backend.Prelude.Rows.{count_where, All}

-- `[...list].sort(...)`, which keeps the order of equal elements; `before a b` says that `a` may
-- stand before `b`.
module _ {A : Type 0} (before : A → A → Bool) where
  abbrev pub insert : A → List A → List A
  insert a [] = a ∷ []
  insert a (x ∷ xs) = let rest = insert a xs in if before a x then a ∷ x ∷ xs else x ∷ rest

  abbrev pub sort : List A → List A
  sort [] = []
  sort (x ∷ xs) = insert x (sort xs)

module _ {A : Type 0} where
  pub All-after : (P Q : A → Type 0) (xs : List A) → ((x : A) → P x → Q x) → All P xs → All Q xs
  All-after P Q [] f h = tt
  All-after P Q (x ∷ xs) f h = (f x h.0, All-after P Q xs f h.1)

  All-own : (xs : List A) → All (λ x. Memᴰ x xs) xs
  All-own [] = tt
  All-own (x ∷ xs) = (
    Memᴰ.head refl,
    All-after (λ y. Memᴰ y xs) (λ y. Memᴰ y (x ∷ xs)) xs (λ y m. Memᴰ.tail m) (All-own xs),
  )

module _ {A : Type 0} (before : A → A → Bool) where
  count_where-insert :
      (p : A → Bool) (a : A) (xs : List A)
      → count_where p (insert before a xs) ≡ count_where p (a ∷ xs)
  count_where-insert p a [] = refl
  count_where-insert p a (x ∷ xs) = ground (arith, count_where-insert p a xs)

  pub count_where-sort :
      (p : A → Bool) (xs : List A) → count_where p (sort before xs) ≡ count_where p xs
  count_where-sort p [] = refl
  count_where-sort p (x ∷ xs) =
      ground (arith, count_where-insert p x (sort before xs), count_where-sort p xs)

  pub length-insert : (a : A) (xs : List A) → length (insert before a xs) ≡ suc (length xs)
  length-insert a [] = refl
  length-insert a (x ∷ xs) = ground (arith, length-insert a xs)

  pub length-sort : (xs : List A) → length (sort before xs) ≡ length xs
  length-sort [] = refl
  length-sort (x ∷ xs) = ground (arith, length-insert x (sort before xs), length-sort xs)

  pub All-insert :
      (P : A → Type 0) (a : A) (xs : List A) → P a → All P xs → All P (insert before a xs)
  All-insert P a [] h k = (h, tt)
  All-insert P a (x ∷ xs) h k = elim (Bool-cases (before a x)) [
    | inl e ↦ rw e (h, k)
    | inr e ↦ rw e (k.0, All-insert P a xs h k.1)
  ]

  pub All-sort : (P : A → Type 0) (xs : List A) → All P xs → All P (sort before xs)
  All-sort P [] h = tt
  All-sort P (x ∷ xs) h = All-insert P x (sort before xs) h.0 (All-sort P xs h.1)

  mem-insert_self : (a : A) (xs : List A) → Memᴰ a (insert before a xs)
  mem-insert_self a [] = Memᴰ.head refl
  mem-insert_self a (x ∷ xs) = elim (Bool-cases (before a x)) [
    | inl e ↦ rw e (Memᴰ.head refl)
    | inr e ↦ rw e (Memᴰ.tail (mem-insert_self a xs))
  ]

  mem-insert_old : (a r : A) (xs : List A) → Memᴰ r xs → Memᴰ r (insert before a xs)
  mem-insert_old a r [] m = elim m [ ]
  mem-insert_old a r (x ∷ xs) (Memᴰ.head e) = elim (Bool-cases (before a x)) [
    | inl p ↦ rw p (Memᴰ.tail (Memᴰ.head e))
    | inr p ↦ rw p (Memᴰ.head e)
  ]
  mem-insert_old a r (x ∷ xs) (Memᴰ.tail m) = elim (Bool-cases (before a x)) [
    | inl p ↦ rw p (Memᴰ.tail (Memᴰ.tail m))
    | inr p ↦ rw p (Memᴰ.tail (mem-insert_old a r xs m))
  ]

  pub mem_sort : (xs : List A) (r : A) → Memᴰ r (sort before xs) → Memᴰ r xs
  mem_sort xs r m =
      All-mem (λ x. Memᴰ x xs) (sort before xs) (All-sort (λ x. Memᴰ x xs) xs (All-own xs)) m

  pub mem-sort : (r : A) (xs : List A) → Memᴰ r xs → Memᴰ r (sort before xs)
  mem-sort r [] m = elim m [ ]
  mem-sort r (x ∷ xs) (Memᴰ.head e) = rw e (mem-insert_self x (sort before xs))
  mem-sort r (x ∷ xs) (Memᴰ.tail m) = mem-insert_old x r (sort before xs) (mem-sort r xs m)
