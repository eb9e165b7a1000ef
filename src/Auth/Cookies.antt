-- ===== src/Auth/Cookies.antt =====
-- common/utils/cookie.util.ts and the cookies of modules/auth/auth.constants.ts.
use kori_backend.Auth.{IssuedSession}
use Prim.Native.Char.{code, Char}
use kori_backend.Prelude.{
  ◌++◌, is_some, ◌==◌, truthy, any, ◌||◌, trim, ◌∷◌, true, ℕ, text_or, str_eq, some, none,
  if◌then◌else◌, false, [], String, Option, List, Bool,
}

-- `header.split(';')`.
abbrev pub before_first : Char → List String → List String
before_first c [] = String.◌∷◌ c String.[] ∷ []
before_first c (s ∷ rest) = String.◌∷◌ c s ∷ rest

abbrev pub split : String → List String
split String.[] = String.[] ∷ []
split (String.◌∷◌ c s) =
    let rest = split s in if code c == b';' then String.[] ∷ rest else before_first c rest

abbrev pub with_first : Char → Option (String × String) → Option (String × String)
with_first c none = none
with_first c (some (name, value)) = some (String.◌∷◌ c name, value)

-- What stands before the first `=` of a segment, and after it.
abbrev pub cut : String → Option (String × String)
cut String.[] = none
cut (String.◌∷◌ c s) =
    let rest = cut s in if code c == b'=' then some (String.[], s) else with_first c rest

-- `text.slice(1, -1)`.
abbrev without_last : String → String
without_last String.[] = String.[]
without_last (String.◌∷◌ c s) =
    let rest = without_last s in if str_eq s "" then String.[] else String.◌∷◌ c rest

abbrev pub unquoted : String → String
unquoted String.[] = String.[]
unquoted (String.◌∷◌ c s) = if code c == b'"' then without_last s else String.◌∷◌ c s

-- The names that every object of JavaScript has: `cookies[name]` is defined for them at once.
abbrev pub object_members : List String
object_members =
    "constructor" ∷ "hasOwnProperty" ∷ "isPrototypeOf" ∷ "propertyIsEnumerable" ∷ "toLocaleString"
    ∷ "toString" ∷ "valueOf" ∷ "__proto__" ∷ "__defineGetter__" ∷ "__defineSetter__"
    ∷ "__lookupGetter__" ∷ "__lookupSetter__" ∷ []

abbrev pub lookup : String → List (String × String) → Option String
lookup name [] = none
lookup name (c ∷ cookies) =
    let rest = lookup name cookies in if str_eq c.0 name then some c.1 else rest

-- `decode` is `decodeURIComponent`, `none` where it throws.
module _ (decode : String → Option String) where
  abbrev pub decoded_or : String → String
  decoded_or value = text_or (decode value) value

  -- One turn of the loop.
  abbrev pub take_cookie :
      List (String × String) → Option (String × String) → List (String × String)
  take_cookie cookies none = cookies
  take_cookie cookies (some (before, after)) =
      if str_eq before ""
      then cookies
      else if str_eq (trim before) ""
      then cookies
      else if any (str_eq (trim before)) object_members
      then cookies
      else if is_some (lookup (trim before) cookies)
      then cookies
      else cookies ++ (trim before, decoded_or (unquoted (trim after))) ∷ []

  abbrev pub take_all : List (String × String) → List String → List (String × String)
  take_all cookies [] = cookies
  take_all cookies (s ∷ segments) = take_all (take_cookie cookies (cut s)) segments

  -- `parseCookieHeader`.
  unfoldable pub parse_cookie_header : Option String → List (String × String)
  parse_cookie_header none = []
  parse_cookie_header (some header) = if str_eq header "" then [] else take_all [] (split header)

-- The options of a cookie.
pub record CookieOptions : Type 0 where
  pub http_only : Bool
  pub secure : Bool
  pub same_site : String
  pub domain : Option String
  pub path : String
  pub max_age_ms : ℕ

-- The settings of the environment that the cookies depend on.
pub record CookieSettings : Type 0 where
  pub node_env : Option String
  pub cookie_samesite : Option String
  pub cookie_secure : Option String
  pub cookie_domain : Option String

abbrev pub is_same_site : String → Bool
is_same_site value = str_eq value "lax" || str_eq value "strict" || str_eq value "none"

abbrev pub given_site : Bool → Option String → String
given_site production none = if production then "none" else "lax"
given_site production (some value) =
    if is_same_site value then value else if production then "none" else "lax"

abbrev pub is_text_of : String → Option String → Bool
is_text_of want none = false
is_text_of want (some value) = str_eq value want

abbrev pub lowered : (String → String) → Option String → Option String
lowered lower none = none
lowered lower (some value) = some (lower value)

-- `buildCookieOptions`; `lower` is `toLowerCase`.
unfoldable pub build_cookie_options :
    (String → String) → CookieSettings → ℕ → String → CookieOptions
build_cookie_options lower settings max_age_ms path =
    let production = is_text_of "production" settings.node_env in
    let same_site = given_site production (lowered lower settings.cookie_samesite) in
    record {
      http_only = true;
      secure =
          str_eq same_site "none"
          || str_eq (text_or settings.cookie_secure (if production then "true" else "false"))
              "true";
      same_site = same_site;
      domain = truthy settings.cookie_domain;
      path = path;
      max_age_ms = max_age_ms;
    }

abbrev pub access_token_cookie : String
access_token_cookie = "kori_access_token"

abbrev pub refresh_token_cookie : String
refresh_token_cookie = "kori_refresh_token"

abbrev pub refresh_token_cookie_path : String
refresh_token_cookie_path = "/auth"

-- A cookie of an answer: `response.cookie` and `response.clearCookie`.
pub record SetCookie : Type 0 where
  pub name : String
  pub value : String
  pub options : CookieOptions

-- The cookies that `completeSession` sets.
unfoldable pub complete_session :
    (String → String) → CookieSettings → IssuedSession → List SetCookie
complete_session lower settings session =
    record {
      name = access_token_cookie;
      value = session.access_token;
      options = build_cookie_options lower settings session.access_token_ttl_ms "/";
    }
    ∷ record {
      name = refresh_token_cookie;
      value = session.refresh_token;
      options =
          build_cookie_options lower settings session.refresh_token_ttl_ms
            refresh_token_cookie_path;
    }
    ∷ []

-- The cookies that the route of the logout clears: the same ones, empty and with no life.
unfoldable pub cleared_cookies : (String → String) → CookieSettings → List SetCookie
cleared_cookies lower settings =
    record {
      name = access_token_cookie;
      value = "";
      options = build_cookie_options lower settings 0 "/";
    }
    ∷ record {
      name = refresh_token_cookie;
      value = "";
      options = build_cookie_options lower settings 0 refresh_token_cookie_path;
    }
    ∷ []
