-- ===== src/Origins/Allowed.antt =====
-- Which origins are allowed.
use mathlib.Core.Path.{subst}
use kori_backend.Origins.{is_origin_allowed, build_allowed_origins}
use kori_backend.Prelude.{
  sym, none, refl, [], inr, eq_iff, ◌&&◌, inl, ◌∷◌, ◌↔◌, ◌==◌, trim, true, some, false, Bool-cases,
  ◌≡◌, str_eq, any, Memᴰ, strip_slashes, Option, String, List,
}
use Prim.Native.Char.{code}

-- The origin is one of the configured values, but for blanks around that and slashes at the end.
abbrev pub IsConfigured : List (Option String) → String → Type 0
IsConfigured values origin =
    (value : String) × Memᴰ (some value) values
    × (str_eq (trim value) "" ≡ false)
    × (strip_slashes (trim value) ≡ strip_slashes origin)

built-IsConfigured :
    (values : List (Option String)) (origin : String)
    → any (λ a. str_eq a (strip_slashes origin)) (build_allowed_origins values) ≡ true
    → IsConfigured values origin
unfolding build_allowed_origins
built-IsConfigured [] origin h = cc
built-IsConfigured (none ∷ values) origin h =
    let (v, m, full, same) = built-IsConfigured values origin h in (v, Memᴰ.tail m, full, same)
built-IsConfigured (some value ∷ values) origin h = elim (Bool-cases (str_eq (trim value) "")) [
  | inl b ↦
      let (v, m, full, same) =
        built-IsConfigured values origin (rw (b, build_allowed_origins) at h) in
      (v, Memᴰ.tail m, full, same)
  | inr b ↦ elim (Bool-cases (str_eq (strip_slashes (trim value)) (strip_slashes origin))) [
    | inl e ↦ (value, Memᴰ.head refl, b, (eq_iff _ _).0 e)
    | inr e ↦
        let h' = (rw e at (rw (b, build_allowed_origins) at h)) in
        let (v, m, full, same) = built-IsConfigured values origin h' in (v, Memᴰ.tail m, full, same)
  ]
]

IsConfigured-built :
    (values : List (Option String)) (origin : String)
    → IsConfigured values origin
    → any (λ a. str_eq a (strip_slashes origin)) (build_allowed_origins values) ≡ true
unfolding build_allowed_origins
IsConfigured-built [] origin (v, m, full, same) = elim m [ ]
IsConfigured-built (none ∷ values) origin (v, Memᴰ.head e, full, same) = cc
IsConfigured-built (none ∷ values) origin (v, Memᴰ.tail m, full, same) =
    IsConfigured-built values origin (v, m, full, same)
IsConfigured-built (some value ∷ values) origin (v, Memᴰ.head e, full, same) =
    let one : v ≡ value = cc in
    let there : str_eq (trim value) "" ≡ false = subst (λ v. str_eq (trim v) "" ≡ false) one full in
    let found : str_eq (strip_slashes (trim value)) (strip_slashes origin) ≡ true =
      (eq_iff _ _).1 (subst (λ v. strip_slashes (trim v) ≡ strip_slashes origin) one same) in
    rw (there, build_allowed_origins) (rw found refl)
IsConfigured-built (some value ∷ values) origin (v, Memᴰ.tail m, full, same) =
    let rest = IsConfigured-built values origin (v, m, full, same) in
    elim (Bool-cases (str_eq (trim value) "")) [
      | inl b ↦ rw (b, build_allowed_origins) rest
      | inr b ↦ elim (Bool-cases (str_eq (strip_slashes (trim value)) (strip_slashes origin))) [
        | inl e ↦ rw (b, build_allowed_origins) (rw e refl)
        | inr e ↦ rw (b, build_allowed_origins) (rw e rest)
      ]
    ]

-- An origin that is not empty is allowed exactly if it is one of the configured values, but for
-- blanks around that and slashes at the end of either.
pub is_origin_allowed_iff :
    (values : List (Option String)) (origin : String)
    → str_eq origin "" ≡ false
    → (is_origin_allowed (some origin) (build_allowed_origins values) ≡ true)
      ↔ IsConfigured values origin
unfolding is_origin_allowed
is_origin_allowed_iff values origin full =
    rw (full, is_origin_allowed)
      (built-IsConfigured values origin, IsConfigured-built values origin)

strip_slashes-again : (s : String) → strip_slashes (strip_slashes s) ≡ strip_slashes s
strip_slashes-again String.[] = refl
strip_slashes-again (String.◌∷◌ c s) =
    elim (Bool-cases (code c == b'/' && str_eq (strip_slashes s) "")) [
      | inl b ↦ rw b refl
      | inr b ↦ rw b (rw (strip_slashes-again s, b) refl)
    ]

-- What a browser sends for a page of a configured value, which ends in no slash, is allowed
-- whatever blanks and slashes the value was configured with.
pub origin_of_value_allowed :
    (values : List (Option String)) (value : String)
    → Memᴰ (some value) values
    → str_eq (trim value) "" ≡ false
    → is_origin_allowed (some (strip_slashes (trim value))) (build_allowed_origins values) ≡ true
unfolding is_origin_allowed
origin_of_value_allowed values value m full =
    let origin = strip_slashes (trim value) in
    elim (Bool-cases (str_eq origin "")) [
      | inl b ↦ rw (is_origin_allowed, b) refl
      | inr b ↦
          rw (is_origin_allowed, b)
            (IsConfigured-built values origin
              (value, m, full, sym (strip_slashes-again (trim value))))
    ]
