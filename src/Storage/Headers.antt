-- ===== src/Storage/Headers.antt =====
-- What the name of a download can hold.
use kori_backend.Storage.Filename.{is_mark, is_reserved, without, is_unprintable, sanitize_filename}
use kori_backend.Prelude.{
  trim, eq_iff, arith, str_eq, inr, is_space, inl, zero, refl, Bool-cases, ◌&&◌, trim_start,
  trim_end, suc, clip, true, not, String, ◌≤◌, ◌≡◌, ℕ, Bool,
}
use Prim.Native.Char.{Char, code}

abbrev Every : (Char → Bool) → String → Type 0
Every p String.[] = Unit {0}
Every p (String.◌∷◌ c s) = (p c ≡ true) × Every p s

-- A printable ASCII character that ends neither the quoted text nor the header it stands in.
abbrev IsHeaderChar : Char → Type 0
IsHeaderChar c =
    (32 ≤ code c)
    × (code c ≤ 126)
    × ¬ (code c ≡ b'"')
    × ¬ (code c ≡ b'\\')
    × ¬ (code c ≡ b'/')
    × ¬ (code c ≡ b';')

-- Every character of the text is one, and there are at most so many.
abbrev pub IsHeaderText : ℕ → String → Type 0
IsHeaderText n String.[] = Unit {0}
IsHeaderText zero (String.◌∷◌ c s) = ⊥
IsHeaderText (suc n) (String.◌∷◌ c s) = IsHeaderChar c × IsHeaderText n s

abbrev passes : Char → Bool
passes c = not (is_unprintable c) && not (is_reserved c)

Every-without_self : (p : Char → Bool) (s : String) → Every (λ c. not (p c)) (without p s)
Every-without_self p String.[] = tt
Every-without_self p (String.◌∷◌ c s) = elim (Bool-cases (p c)) [
  | inl e ↦ rw e (Every-without_self p s)
  | inr e ↦ rw e (rw e refl, Every-without_self p s)
]

Every-without : (p q : Char → Bool) (s : String) → Every q s → Every q (without p s)
Every-without p q String.[] h = tt
Every-without p q (String.◌∷◌ c s) h = elim (Bool-cases (p c)) [
  | inl e ↦ rw e (Every-without p q s h.1)
  | inr e ↦ rw e (h.0, Every-without p q s h.1)
]

Every-trim_start : (q : Char → Bool) (s : String) → Every q s → Every q (trim_start s)
Every-trim_start q String.[] h = tt
Every-trim_start q (String.◌∷◌ c s) h = elim (Bool-cases (is_space c)) [
  | inl e ↦ rw e (Every-trim_start q s h.1)
  | inr e ↦ rw e h
]

Every-trim_end : (q : Char → Bool) (s : String) → Every q s → Every q (trim_end s)
Every-trim_end q String.[] h = tt
Every-trim_end q (String.◌∷◌ c s) h = elim (Bool-cases (is_space c && str_eq (trim_end s) "")) [
  | inl e ↦ rw e tt
  | inr e ↦ rw e (h.0, Every-trim_end q s h.1)
]

Every-both : (p q : Char → Bool) (s : String) → Every p s → Every q s → Every (λ c. p c && q c) s
Every-both p q String.[] h k = tt
Every-both p q (String.◌∷◌ c s) h k = (rw (h.0, k.0) refl, Every-both p q s h.1 k.1)

passes-IsHeaderChar : (c : Char) → passes c ≡ true → IsHeaderChar c
passes-IsHeaderChar c h = (
  ground (arith, h),
  ground (arith, h),
  (λ e. ground (arith, h, e)),
  (λ e. ground (arith, h, e)),
  (λ e. ground (arith, h, e)),
  λ e. ground (arith, h, e),
)

clip-IsHeaderText : (n : ℕ) (s : String) → Every passes s → IsHeaderText n (clip n s)
clip-IsHeaderText zero s h = tt
clip-IsHeaderText (suc n) String.[] h = tt
clip-IsHeaderText (suc n) (String.◌∷◌ c s) h =
    (passes-IsHeaderChar c h.0, clip-IsHeaderText n s h.1)

default_text : IsHeaderText 100 "descarga.zip"
default_text = omega arith

never_empty : ¬ (◌≡◌ {A = String} "descarga.zip" "")
never_empty e = let bad = (eq_iff "descarga.zip" "").1 e in cc

-- Whatever name a product has, the name of its download is not empty, and has at most a hundred
-- characters, all of them printable ASCII and none a quote, a backslash, a slash or a semicolon.
pub sanitize_filename-IsHeaderText :
    (normalize : String → String) (raw : String)
    → IsHeaderText 100 (sanitize_filename normalize raw) × ¬ (sanitize_filename normalize raw ≡ "")
unfolding sanitize_filename
sanitize_filename-IsHeaderText normalize raw =
    let marked = without is_mark (normalize raw) in
    let printable = without is_unprintable marked in
    let safe : Every passes (without is_reserved printable) =
      Every-both (λ c. not (is_unprintable c)) (λ c. not (is_reserved c))
        (without is_reserved printable)
        (Every-without is_reserved (λ c. not (is_unprintable c)) printable
          (Every-without_self is_unprintable marked))
        (Every-without_self is_reserved printable) in
    let limpio = trim (without is_reserved printable) in
    let clean : Every passes limpio =
      Every-trim_end passes (trim_start (without is_reserved printable))
        (Every-trim_start passes (without is_reserved printable) safe) in
    elim (Bool-cases (str_eq (clip 100 limpio) "")) [
      | inl e ↦ rw (e, sanitize_filename) (default_text, never_empty)
      | inr e ↦
          rw (e, sanitize_filename)
            (
              clip-IsHeaderText 100 limpio clean,
              λ k. let bad = (eq_iff (clip 100 limpio) "").1 k in cc,
            )
    ]
