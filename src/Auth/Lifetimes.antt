-- ===== src/Auth/Lifetimes.antt =====
-- The configured life of an access token, written as a number and a unit.
use kori_backend.Auth.Duration.{parse_duration_to_ms, unit_ms, is_digit, amount_from}
use kori_backend.Prelude.{
  trim_end, is_space, ◌&&◌, eq_iff, str_eq, decimal, Bool, ◌∙◌, some, ap, zero, ◌%◌, ◌/◌, inr, inl,
  ltb, Bool-cases, suc, arith, ◌≤◌, refl, ◌-◌, false, ◌+◌, true, ◌*◌, ◌≡◌, ◌<>◌, digit, ◌<◌, String,
  ℕ, decimal_of,
}
use Prim.Native.Char.{Char, code}
use text.Mathlib.TextLemmas.{append_assoc, cons-append, nil-append, concat-ne-nil}

-- What a digit of a number is read as.
digit-read :
    (d : ℕ)
    → d < 10
    → (c : Char) × (digit d ≡ String.◌∷◌ c String.[])
      × (is_digit c ≡ true)
      × (is_space c ≡ false)
      × (code c - 48 ≡ d)
digit-read zero h = ("0", refl, refl, refl, refl)
digit-read (suc zero) h = ("1", refl, refl, refl, refl)
digit-read (suc (suc zero)) h = ("2", refl, refl, refl, refl)
digit-read (suc (suc (suc zero))) h = ("3", refl, refl, refl, refl)
digit-read (suc (suc (suc (suc zero)))) h = ("4", refl, refl, refl, refl)
digit-read (suc (suc (suc (suc (suc zero))))) h = ("5", refl, refl, refl, refl)
digit-read (suc (suc (suc (suc (suc (suc zero)))))) h = ("6", refl, refl, refl, refl)
digit-read (suc (suc (suc (suc (suc (suc (suc zero))))))) h = ("7", refl, refl, refl, refl)
digit-read (suc (suc (suc (suc (suc (suc (suc (suc zero)))))))) h = ("8", refl, refl, refl, refl)
digit-read (suc (suc (suc (suc (suc (suc (suc (suc (suc zero))))))))) h =
    ("9", refl, refl, refl, refl)
digit-read (suc (suc (suc (suc (suc (suc (suc (suc (suc (suc d)))))))))) h =
    let bad : ⊥ = omega arith in elim bad [ ]

amount_from-digit :
    (a d : ℕ) (t : String) → d < 10 → amount_from a (digit d <> t) ≡ amount_from (a * 10 + d) t
amount_from-digit a d t h =
    let (c, e, digits, blank, value) = digit-read d h in
    rw (e, cons-append, nil-append, digits, value) refl

-- The digits of a number are read back as the number.
amount_from-decimal :
    (f n : ℕ) (t : String) → n ≤ f → amount_from 0 (decimal_of f n <> t) ≡ amount_from n t
unfolding decimal_of
amount_from-decimal zero n t h =
    let e : n ≡ 0 = omega arith in rw e (amount_from-digit 0 0 t (omega arith))
amount_from-decimal (suc f) n t h = elim (Bool-cases (ltb n 10)) [
  | inl p ↦
      let same : 0 * 10 + n ≡ n = omega arith in
      rw (decimal_of, p) (rw same at (amount_from-digit 0 n t (ground arith)))
  | inr p ↦
      let big : 10 ≤ n = ground arith in
      let rest = amount_from-decimal f (n / 10) (digit (n % 10) <> t) (omega arith) in
      let last = amount_from-digit (n / 10) (n % 10) t (omega arith) in
      let whole : n / 10 * 10 + n % 10 ≡ n = omega arith in
      rw (decimal_of, p, append_assoc, rest, last, whole) refl
]

-- A number starts with a digit.
decimal_of-head :
    (f n : ℕ)
    → n ≤ f
    → (c : Char) × (s : String) × (decimal_of f n ≡ String.◌∷◌ c s)
      × (is_digit c ≡ true)
      × (is_space c ≡ false)
unfolding decimal_of
decimal_of-head zero n h =
    let e : n ≡ 0 = omega arith in
    let (c, d, digits, blank, value) = digit-read 0 (omega arith) in
    (c, "", ap digit e ∙ d, digits, blank)
decimal_of-head (suc f) n h = elim (Bool-cases (ltb n 10)) [
  | inl p ↦
      let (c, d, digits, blank, value) = digit-read n (ground arith) in
      (c, "", rw (decimal_of, p) d, digits, blank)
  | inr p ↦
      let big : 10 ≤ n = ground arith in
      let (c, s, e, digits, blank) = decimal_of-head f (n / 10) (omega arith) in
      (c, s <> digit (n % 10), rw (decimal_of, p, e, cons-append) refl, digits, blank)
]

-- The four units.
abbrev pub IsUnit : Char → ℕ → Type 0
IsUnit u k = unit_ms u ≡ some k

unit-no_blank : (u : Char) (k : ℕ) → IsUnit u k → is_space u ≡ false
unit-no_blank u k h = ground (arith, h)

never_empty : (s : String) (u : Char) → str_eq (s <> String.◌∷◌ u "") "" ≡ false
never_empty s u = elim (Bool-cases (str_eq (s <> String.◌∷◌ u "") "")) [
  | inr p ↦ p
  | inl p ↦ elim (concat-ne-nil u s ((eq_iff (s <> String.◌∷◌ u "") "").0 p)) [ ]
]

and_false : (b : Bool) → (b && false) ≡ false
and_false true = refl
and_false false = refl

trim_end-unit :
    (s : String) (u : Char)
    → is_space u ≡ false
    → trim_end (s <> String.◌∷◌ u "") ≡ s <> String.◌∷◌ u ""
trim_end-unit String.[] u b = rw (nil-append, b) refl
trim_end-unit (String.◌∷◌ c s) u b =
    let full : str_eq (s <> String.◌∷◌ u "") "" ≡ false = never_empty s u in
    rw (cons-append, trim_end-unit s u b, full, and_false (is_space c)) refl

read_whole :
    (t s : String) (c u : Char)
    → t ≡ String.◌∷◌ c s
    → is_digit c ≡ true
    → is_space c ≡ false
    → is_space u ≡ false
    → parse_duration_to_ms (t <> String.◌∷◌ u "") ≡ amount_from 0 (t <> String.◌∷◌ u "")
unfolding parse_duration_to_ms
read_whole t s c u e digits blank no_blank =
    let trimmed = trim_end-unit (String.◌∷◌ c s) u no_blank in
    let whole = (rw cons-append at trimmed) in rw (e, cons-append, blank, whole, digits) refl

-- A life that is written as a number and a unit is read as that many of the unit's milliseconds.
pub parse_duration_to_ms-decimal :
    (n : ℕ) (u : Char) (k : ℕ)
    → unit_ms u ≡ some k
    → parse_duration_to_ms (decimal n <> String.◌∷◌ u "") ≡ n * k
unfolding decimal
parse_duration_to_ms-decimal n u k h =
    let (c, s, e, digits, blank) = decimal_of-head n n (omega arith) in
    let no_blank = unit-no_blank u k h in
    let no_digit : is_digit u ≡ false = ground (arith, h) in
    rw
      (
        read_whole (decimal_of n n) s c u e digits blank no_blank,
        amount_from-decimal n n (String.◌∷◌ u "") (omega arith),
        no_digit,
        no_blank,
        h,
      )
      refl
