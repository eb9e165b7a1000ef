-- ===== src/Sanitize.antt =====
-- common/utils/text-sanitize.util.ts: text of visitors made plain.
pub mod Escapes
use kori_backend.Prelude.{
  ◌||◌, ◌&&◌, false, ◌==◌, zero, true, str_eq, [], ◌∷◌, trim, suc, if◌then◌else◌, Bool, ℕ, String,
  List,
}
use Prim.Native.Char.{Char, code}

abbrev pub max_vueltas : ℕ
max_vueltas = 5

-- The text starts with the characters of these codes.
abbrev pub begins : List ℕ → String → Bool
begins [] s = true
begins (k ∷ ks) String.[] = false
begins (k ∷ ks) (String.◌∷◌ c s) = code c == k && begins ks s

-- The three entities without their ampersand.
abbrev pub amp : List ℕ
amp = b'a' ∷ b'm' ∷ b'p' ∷ b';' ∷ []

abbrev pub lt : List ℕ
lt = b'l' ∷ b't' ∷ b';' ∷ []

abbrev pub gt : List ℕ
gt = b'g' ∷ b't' ∷ b';' ∷ []

-- What stands for a character and the text after it, and how much of that text it took.
abbrev pub decoded : Char → String → Char
decoded c s =
    if code c == b'&' && begins lt s then "<" else if code c == b'&' && begins gt s then ">" else c

abbrev pub taken : Char → String → ℕ
taken c s =
    if code c == b'&' && begins amp s
    then 4
    else if code c == b'&' && (begins lt s || begins gt s)
    then 3
    else 0

-- The text but for its first characters, with the entities replaced.
abbrev pub desescapar_from : ℕ → String → String
desescapar_from n String.[] = String.[]
desescapar_from (suc n) (String.◌∷◌ c s) = desescapar_from n s
desescapar_from zero (String.◌∷◌ c s) = String.◌∷◌ (decoded c s) (desescapar_from (taken c s) s)

unfoldable pub desescapar : String → String
desescapar valor = desescapar_from 0 valor

-- `sanitize_html` is the library's, without any tag.
module _ (sanitize_html : String → String) where
  abbrev pub vuelta : String → String
  vuelta actual = desescapar (sanitize_html actual)

  unfoldable pub rounds : ℕ → String → String
  rounds zero actual = trim actual
  rounds (suc n) actual =
      let rest = rounds n (vuelta actual) in
      if str_eq (vuelta actual) actual then trim actual else rest

  unfoldable pub sanitize_plain_text : String → String
  unfolding rounds
  sanitize_plain_text value = rounds max_vueltas value
