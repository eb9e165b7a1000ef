-- ===== src/Prelude/Values.antt =====
-- JavaScript's small operators on optional texts.
use mathlib.Core.Logic.{inr, inl}
use native.Mathlib.Omega.{arith}
use mathlib.Core.Path.{refl, ap, ◌≡◌}
use Prim.Native.String
use Prim.Native.String.{String}
use text.Mathlib.Text.{◌==◌ as ◌===◌}
use Prim.Native.Nat.{◌+◌, ◌%◌, ◌/◌, ◌≤◌, ℕ, zero, suc}
use Prim.Native.Char.{code}
use mathlib.Core.Bool.{Bool, true, false, ◌&&◌}
use mathlib.Core.Option.{Option, none, some}
use mathlib.Core.List.{List, [], ◌∷◌}
use kori_backend.Prelude.Tests.{Bool-cases, ltb, if◌then◌else◌, ◌==◌}

infixr 65 ◌<>◌
-- Texts joined, as a template literal does.
abbrev pub ◌<>◌ : String → String → String
a <> b = String.◌++◌ a b

-- A text that is present and not empty.
abbrev pub truthy : Option String → Option String
truthy none = none
truthy (some s) = if s === "" then none else some s

-- `a ?? b`.
abbrev pub or_else {ℓ} : {A : Type ℓ} → Option A → Option A → Option A
or_else (some a) b = some a
or_else none b = b

abbrev pub text_or : Option String → String → String
text_or (some a) b = a
text_or none b = b

abbrev pub is_some {ℓ} : {A : Type ℓ} → Option A → Bool
is_some none = false
is_some (some a) = true

-- `list.every(p)`.
abbrev pub all {ℓ} : {A : Type ℓ} → (A → Bool) → List A → Bool
all p [] = true
all p (x ∷ xs) = p x && all p xs

-- `text.replace(/\/+$/, '')`.
abbrev pub strip_slashes : String → String
strip_slashes String.[] = String.[]
strip_slashes (String.◌∷◌ c s) =
    let rest = strip_slashes s in
    if code c == b'/' && rest === "" then String.[] else String.◌∷◌ c rest

-- `text.slice(0, n)`, counted by code points.
abbrev pub clip : ℕ → String → String
clip zero s = String.[]
clip (suc n) String.[] = String.[]
clip (suc n) (String.◌∷◌ c s) = String.◌∷◌ c (clip n s)

abbrev pub is_empty {ℓ} : {A : Type ℓ} → List A → Bool
is_empty [] = true
is_empty (x ∷ xs) = false

-- An integer in a text, as JavaScript prints it.
abbrev pub digit : ℕ → String
digit n = String.slice "0123456789" n (n + 1)

unfoldable pub decimal_of : ℕ → ℕ → String
decimal_of zero n = digit n
decimal_of (suc fuel) n =
    let rest = decimal_of fuel (n / 10) in if ltb n 10 then digit n else rest <> digit (n % 10)

-- A number has fewer digits than its value, but for 0: the fuel is enough.
unfoldable pub decimal : ℕ → String
unfolding decimal_of
decimal n = decimal_of n n

decimal_of-enough : (f g n : ℕ) → n ≤ f → n ≤ g → decimal_of f n ≡ decimal_of g n
unfolding decimal_of
decimal_of-enough zero zero n h k = refl
decimal_of-enough zero (suc g) n h k =
    let e : ltb n 10 ≡ true = ground arith in rw (e, decimal_of) refl
decimal_of-enough (suc f) zero n h k =
    let e : ltb n 10 ≡ true = ground arith in rw (e, decimal_of) refl
decimal_of-enough (suc f) (suc g) n h k = elim (Bool-cases (ltb n 10)) [
  | inl p ↦ rw (p, decimal_of) refl
  | inr p ↦
      let big : 10 ≤ n = ground arith in
      rw (p, decimal_of)
        (ap (λ t. t <> digit (n % 10)) (decimal_of-enough f g (n / 10) (omega arith) (omega arith)))
]

prints_1070 : decimal 1070 ≡ "1070"
unfolding decimal
prints_1070 = refl
