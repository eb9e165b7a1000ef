-- ===== src/Tests/Texts.antt =====
-- The theorems about texts and origins at concrete inputs.
use kori_backend.Storage.Filename.{sanitize_filename}
use kori_backend.Storage.Headers.{sanitize_filename-IsHeaderText, IsHeaderText}
use kori_backend.Origins.Allowed.{is_origin_allowed_iff, IsConfigured}
use kori_backend.Sanitize.Escapes.{plain_text_stays, escapar}
use kori_backend.Sanitize.{sanitize_plain_text}
use kori_backend.Origins.{build_allowed_origins, is_origin_allowed}
use kori_backend.Prelude.{◌↔◌, refl, [], ◌∷◌, true, ◌≡◌, none, some, Option, String, List}

plain_text_stays_example : sanitize_plain_text escapar " te quiero <3 & ya " ≡ "te quiero <3 & ya"
plain_text_stays_example = plain_text_stays escapar " te quiero <3 & ya " refl

abbrev origins : List (Option String)
origins = none ∷ some "  " ∷ some " https://insecurekori.com/ " ∷ []

is_origin_allowed_iff_example :
    (is_origin_allowed (some "https://insecurekori.com") (build_allowed_origins origins) ≡ true)
    ↔ IsConfigured origins "https://insecurekori.com"
is_origin_allowed_iff_example = is_origin_allowed_iff origins "https://insecurekori.com" refl

abbrev same_text : String → String
same_text t = t

sanitize_filename-IsHeaderText_example :
    IsHeaderText 100 (sanitize_filename same_text "Kit; \"1\"")
    × ¬ (sanitize_filename same_text "Kit; \"1\"" ≡ "")
sanitize_filename-IsHeaderText_example = sanitize_filename-IsHeaderText same_text "Kit; \"1\""
