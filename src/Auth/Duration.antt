-- ===== src/Auth/Duration.antt =====
-- modules/auth/auth.service.ts: parseDurationToMs, on the characters of the text.
use kori_backend.Prelude.{
  trim, is_space, ◌-◌, str_eq, some, ◌==◌, ◌+◌, ◌&&◌, none, ◌*◌, refl, leb, if◌then◌else◌, ◌≡◌, ℕ,
  String, Option, Bool,
}
use Prim.Native.Char.{Char, code}
use kori_backend.Constants.{day_ms}

abbrev pub is_digit : Char → Bool
is_digit c = leb 48 (code c) && leb (code c) 57

-- `unitMultipliers`, and whether the unit is one of the pattern's.
abbrev pub unit_ms : Char → Option ℕ
unit_ms c =
    if code c == b's'
    then some 1000
    else if code c == b'm'
    then some (60 * 1000)
    else if code c == b'h'
    then some (60 * 60 * 1000)
    else if code c == b'd'
    then some day_ms
    else none

-- What a text that is no duration counts as.
abbrev pub default_ms : ℕ
default_ms = 15 * 60 * 1000

-- After the digits: blanks, and a unit or none, which stands for seconds.
abbrev pub with_unit : ℕ → String → ℕ
with_unit n String.[] = n * 1000
with_unit n (String.◌∷◌ c s) =
    let rest = with_unit n s in
    if is_space c
    then rest
    else elim (unit_ms c) [ none ↦ default_ms | some k ↦ if str_eq s "" then n * k else default_ms ]

abbrev pub amount_from : ℕ → String → ℕ
amount_from n String.[] = with_unit n String.[]
amount_from n (String.◌∷◌ c s) =
    let rest = amount_from (n * 10 + (code c - 48)) s in
    if is_digit c then rest else with_unit n (String.◌∷◌ c s)

abbrev pub duration_of : String → ℕ
duration_of String.[] = default_ms
duration_of (String.◌∷◌ c s) = if is_digit c then amount_from 0 (String.◌∷◌ c s) else default_ms

unfoldable pub parse_duration_to_ms : String → ℕ
parse_duration_to_ms duration = duration_of (trim duration)

reads_15m : parse_duration_to_ms " 15 m" ≡ 900000
unfolding parse_duration_to_ms
reads_15m = refl

reads_7d : parse_duration_to_ms "7d" ≡ 604800000
unfolding parse_duration_to_ms
reads_7d = refl

reads_30 : parse_duration_to_ms "30" ≡ 30000
unfolding parse_duration_to_ms
reads_30 = refl
