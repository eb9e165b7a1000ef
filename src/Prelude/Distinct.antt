-- ===== src/Prelude/Distinct.antt =====
-- Tables in which no two rows clash.
use native.Mathlib.Omega.{arith}
use mathlib.Core.Logic.{inl, inr}
use mathlib.Core.Path.{◌≡◌, refl, sym, ap, ◌∙◌}
use mathlib.Core.Bool.{Bool, true, false}
use mathlib.Core.List.{List, [], ◌∷◌, ◌++◌}
use Prim.Native.String.{String}
use text.Mathlib.Text.{◌==◌ as str_eq}
use text.Mathlib.TextEquality.{eq_iff}
use kori_backend.Prelude.Tests.{Bool-cases}
use kori_backend.Prelude.Rows.{any, discard}
use kori_backend.Prelude.RowLaws.{any-append, any-discard_back}

pub str_eq-sym : (a b : String) → str_eq a b ≡ str_eq b a
str_eq-sym a b = elim (Bool-cases (str_eq a b)) [
  | inl h ↦ h ∙ sym ((eq_iff b a).1 (sym ((eq_iff a b).0 h)))
  | inr h ↦ elim (Bool-cases (str_eq b a)) [
    | inl k ↦ let bad = (eq_iff a b).1 (sym ((eq_iff b a).0 k)) in cc
    | inr k ↦ h ∙ sym k
  ]
]

pub str_eq_trans : (a b c : String) → str_eq a b ≡ true → str_eq b c ≡ str_eq a c
str_eq_trans a b c h = ap (λ x. str_eq x c) (sym ((eq_iff a b).0 h))

pub str_eq-right : (a b c : String) → str_eq b c ≡ true → str_eq a b ≡ str_eq a c
str_eq-right a b c h = ap (str_eq a) ((eq_iff b c).0 h)

module _ {R : Type 0} (clash : R → R → Bool) where
  abbrev pub IsDistinct : List R → Type 0
  IsDistinct [] = Unit
  IsDistinct (r ∷ t) = (any (clash r) t ≡ false) × IsDistinct t

  pub IsDistinct-append :
      ((a b : R) → clash a b ≡ clash b a)
      → (r : R) → (t : List R) → any (clash r) t ≡ false
      → IsDistinct t
      → IsDistinct (t ++ r ∷ [])
  IsDistinct-append turn r [] h u = (refl, tt)
  IsDistinct-append turn r (x ∷ t) h u = (
    any-append (clash x) t (r ∷ []) ∙ ground (arith, u.0, turn x r),
    IsDistinct-append turn r t (ground arith) u.1,
  )

  pub IsDistinct-discard : (p : R → Bool) (t : List R) → IsDistinct t → IsDistinct (discard p t)
  IsDistinct-discard p [] u = tt
  IsDistinct-discard p (r ∷ t) u =
      let rest = IsDistinct-discard p t u.1 in
      elim (Bool-cases (p r)) [
        | inl e ↦ rw e rest
        | inr e ↦ rw e (ground (arith, any-discard_back (clash r) p t, u.0), rest)
      ]
