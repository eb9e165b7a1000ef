-- ===== src/Storage/Filename.antt =====
-- modules/storage/digital-assets.service.ts: sanitizeFilename, whose result stands between quotes
-- in the header of the answer.
use kori_backend.Prelude.{
  clip, some, truthy, ◌||◌, ◌&&◌, text_or, ◌==◌, trim, ltb, leb, if◌then◌else◌, String, Bool,
}
use Prim.Native.Char.{Char, code}

-- `[\u0300-\u036f]`, what is left of an accent.
abbrev pub is_mark : Char → Bool
is_mark c = leb 0x300 (code c) && leb (code c) 0x36f

-- `[^\x20-\x7e]`.
abbrev pub is_unprintable : Char → Bool
is_unprintable c = ltb (code c) 0x20 || ltb 0x7e (code c)

-- `["\\/\r\n;]`.
abbrev pub is_reserved : Char → Bool
is_reserved c =
    code c == b'"'
    || code c == b'\\'
    || code c == b'/'
    || code c == 13
    || code c == 10
    || code c == b';'

-- `replace` of every character that passes the test by nothing.
abbrev pub without : (Char → Bool) → String → String
without p String.[] = String.[]
without p (String.◌∷◌ c s) = let rest = without p s in if p c then rest else String.◌∷◌ c rest

-- `normalize` is the normal form NFD of a text.
unfoldable pub sanitize_filename : (String → String) → String → String
sanitize_filename normalize raw =
    let limpio =
      trim (without is_reserved (without is_unprintable (without is_mark (normalize raw)))) in
    text_or (truthy (some (clip 100 limpio))) "descarga.zip"
