-- ===== src/Origins.antt =====
-- common/http/cors-origins.ts: the origins whose pages may call the API.
pub mod Allowed
use kori_backend.Prelude.{
  [], strip_slashes, trim, any, true, str_eq, none, if◌then◌else◌, truthy, some, ◌∷◌, Bool, String,
  Option, List,
}

-- `filter`: the values that are there and not blank, each with its blanks and last slashes gone.
unfoldable pub build_allowed_origins : List (Option String) → List String
build_allowed_origins [] = []
build_allowed_origins (none ∷ values) = build_allowed_origins values
build_allowed_origins (some value ∷ values) =
    let rest = build_allowed_origins values in
    if str_eq (trim value) "" then rest else strip_slashes (trim value) ∷ rest

unfoldable pub is_origin_allowed : Option String → List String → Bool
is_origin_allowed origin allowed_origins = elim (truthy origin) [
  | none ↦ true
  | some o ↦ any (λ a. str_eq a (strip_slashes o)) allowed_origins
]
