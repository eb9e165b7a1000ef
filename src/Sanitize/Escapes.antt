-- ===== src/Sanitize/Escapes.antt =====
-- What the sanitizing leaves of a text.
use kori_backend.Sanitize.{vuelta, sanitize_plain_text, rounds, desescapar}
use kori_backend.Prelude.{
  str_eq, eq_iff, ◌⊎◌, ◌∙◌, zero, refl, trim, suc, inr, ℕ, arith, ap, sym, inl, true, Bool-cases,
  ◌≡◌, if◌then◌else◌, ◌==◌, String,
}
use Prim.Native.Char.{Char, code}
use text.Mathlib.TextEquality.{Char-path}

-- A text with its ampersands and angle brackets escaped, as sanitize-html writes it.
abbrev pub escapar : String → String
escapar String.[] = String.[]
escapar (String.◌∷◌ c s) =
    let rest = escapar s in
    if code c == b'&'
    then String.◌∷◌ "&" (String.◌∷◌ "a" (String.◌∷◌ "m" (String.◌∷◌ "p" (String.◌∷◌ ";" rest))))
    else if code c == b'<'
    then String.◌∷◌ "&" (String.◌∷◌ "l" (String.◌∷◌ "t" (String.◌∷◌ ";" rest)))
    else if code c == b'>'
    then String.◌∷◌ "&" (String.◌∷◌ "g" (String.◌∷◌ "t" (String.◌∷◌ ";" rest)))
    else String.◌∷◌ c rest

same_char : (c d : Char) → code c == code d ≡ true → d ≡ c
same_char c d e = sym (Char-path c d (ground (arith, e)))

-- The unescaping takes back exactly what the escaping did.
pub desescapar-escapar : (t : String) → desescapar (escapar t) ≡ t
unfolding desescapar
desescapar-escapar String.[] = refl
desescapar-escapar (String.◌∷◌ c s) = elim (Bool-cases (code c == b'&')) [
  | inl a ↦ rw (a, desescapar-escapar s) (ap (λ d. String.◌∷◌ d s) (same_char c "&" a))
  | inr a ↦ elim (Bool-cases (code c == b'<')) [
    | inl b ↦ rw (a, b, desescapar-escapar s) (ap (λ d. String.◌∷◌ d s) (same_char c "<" b))
    | inr b ↦ elim (Bool-cases (code c == b'>')) [
      | inl d ↦ rw (a, b, d, desescapar-escapar s) (ap (λ d. String.◌∷◌ d s) (same_char c ">" d))
      | inr d ↦ rw (a, b, d, a, desescapar-escapar s) refl
    ]
  ]
]

-- The text after so many rounds.
abbrev pub after_rounds : (String → String) → ℕ → String → String
after_rounds sanitize_html zero actual = actual
after_rounds sanitize_html (suc n) actual =
    after_rounds sanitize_html n (vuelta sanitize_html actual)

module _ (sanitize_html : String → String) where
  rounds-end :
      (n : ℕ) (value : String)
      → (x : String) × (rounds sanitize_html n value ≡ trim x)
        × ((vuelta sanitize_html x ≡ x) ⊎ (x ≡ after_rounds sanitize_html n value))
  unfolding rounds
  rounds-end zero value = (value, refl, inr refl)
  rounds-end (suc n) value = elim (Bool-cases (str_eq (vuelta sanitize_html value) value)) [
    | inl b ↦ (value, rw (b, rounds) refl, inl ((eq_iff (vuelta sanitize_html value) value).0 b))
    | inr b ↦
        let (x, e, end) = rounds-end n (vuelta sanitize_html value) in (x, rw (b, rounds) e, end)
  ]

  -- The result is a text that another round would leave as it is, or the text after five rounds,
  -- in either case without the blanks around it.
  pub sanitize_plain_text-end :
      (value : String)
      → (x : String) × (sanitize_plain_text sanitize_html value ≡ trim x)
        × ((vuelta sanitize_html x ≡ x) ⊎ (x ≡ after_rounds sanitize_html 5 value))
  unfolding sanitize_plain_text
  sanitize_plain_text-end value = rounds-end 5 value

  -- A text of which the library only escapes the ampersands and the angle brackets comes back as it
  -- was, but for the blanks around it.
  pub plain_text_stays :
      (value : String)
      → sanitize_html value ≡ escapar value
      → sanitize_plain_text sanitize_html value ≡ trim value
  unfolding sanitize_plain_text rounds
  plain_text_stays value h =
      let same : vuelta sanitize_html value ≡ value = ap desescapar h ∙ desescapar-escapar value in
      let done = (eq_iff (vuelta sanitize_html value) value).1 same in
      rw (sanitize_plain_text, rounds, done) refl
