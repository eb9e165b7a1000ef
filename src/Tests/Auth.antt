-- ===== src/Tests/Auth.antt =====
-- The theorems about the panel's sessions at concrete inputs.
use kori_backend.Auth.CookieHeader.{parse_cookie_header-first}
use kori_backend.Auth.CookieSession.{cleared_cookies-match, IsGuarded, same_cookie}
use kori_backend.Auth.Cookies.{
  refresh_token_cookie_path, refresh_token_cookie, cleared_cookies, complete_session,
  parse_cookie_header, lookup, CookieSettings,
}
use kori_backend.Auth.Rotation.{token_works_once}
use kori_backend.Auth.Password.{new_password_opens}
use kori_backend.Tests.Tables.{list_client}
use kori_backend.Tests.Samples.{sample_env, later_env, sample_hash, empty_store}
use kori_backend.Prelude.{
  All, if◌then◌else◌, map, Option, single-IsKeyed, eq_iff, some, refl, [], ◌∷◌, ◌<>◌, true, false,
  ◌≡◌, str_eq, none, any, String,
}
use kori_backend.Database.{
  User_clash, RefreshToken_clash, http, err, admin, Result, User, Store, RefreshToken,
}
use kori_backend.Auth.{
  revoke_all_sessions, session_of, issue_session, login, IssuedSession, refresh, is_open_session,
  change_password, Bcrypt,
}

abbrev sample_bcrypt : Bcrypt
sample_bcrypt = record {
  compare = λ password hash. str_eq hash ("!" <> password);
  hash = λ password. "!" <> password;
}

abbrev ana : User
ana = record {
  id = "user-1";
  email = "ana@example.com";
  password_hash = "!old";
  role = admin;
  is_active = true;
  must_change_password = true;
}

abbrev open_token : RefreshToken
open_token = record {
  id = "token-1";
  user_id = "user-1";
  token_hash = "#raw";
  expires_at = 99000000;
  revoked_at = none;
}

abbrev panel : Store
panel = record empty_store { users = ana ∷ []; refresh_tokens = open_token ∷ [] }

abbrev sign_email : User → String
sign_email u = u.email

abbrev refreshed : Store × Result IssuedSession
refreshed =
    refresh list_client sample_hash sample_bcrypt sign_email "15m" sample_env (some "raw") panel

token_works_once_example :
    (s'' : Store) × (refresh list_client sample_hash sample_bcrypt sign_email "15m" later_env
        (some "raw")
        refreshed.0
      ≡ (s'', err (http 401)))
    × (any (is_open_session "user-1") s''.refresh_tokens ≡ false)
unfolding refresh issue_session
token_works_once_example =
    token_works_once list_client sample_hash sample_bcrypt sign_email "15m" sample_env later_env
      (some "raw") panel refreshed.0
      (session_of list_client sample_hash sample_bcrypt sign_email "15m" sample_env ana)
      (single-IsKeyed RefreshToken_clash open_token) refl

abbrev changed : Store
changed =
    (change_password list_client sample_hash sample_bcrypt sign_email "15m" sample_env "user-1"
      "old" "new" panel).0

new_password_opens_example :
    (r : User) × (r.id ≡ "user-1")
    × (r.must_change_password ≡ false)
    × (login list_client sample_hash sample_bcrypt sign_email "15m" later_env
          (record { email = some "ana@example.com"; username = none; password = "new" })
          changed
        ≡ issue_session list_client sample_hash sample_bcrypt sign_email "15m" later_env r changed)
unfolding change_password revoke_all_sessions
new_password_opens_example =
    new_password_opens list_client sample_hash sample_bcrypt sign_email "15m" sample_env later_env
      "user-1" "old" "new" "ana@example.com" ana panel changed
      (λ password. (eq_iff ("!" <> password) ("!" <> password)).1 refl)
      (single-IsKeyed User_clash ana) refl refl refl

abbrev plus_decoded : String → Option String
plus_decoded value = if str_eq value "%" then none else some value

parse_cookie_header-first_example :
    lookup "r" (parse_cookie_header plus_decoded (some "a=1; r=2; r=3")) ≡ some "2"
parse_cookie_header-first_example =
    parse_cookie_header-first plus_decoded "r" ("a", "1") (("r", "2") ∷ ("r", "3") ∷ [])
      (
        ((refl, tt), (refl, tt), refl, refl, refl, (refl, tt), refl, refl),
        (
          ((refl, tt), (refl, tt), refl, refl, refl, (refl, tt), refl, refl),
          (((refl, tt), (refl, tt), refl, refl, refl, (refl, tt), refl, refl), tt),
        ),
      )

abbrev kori_session : IssuedSession
kori_session = record {
  access_token = "a0";
  refresh_token = "t0";
  access_token_ttl_ms = 900000;
  refresh_token_ttl_ms = 604800000;
  expires_in = "15m";
  user = record {
    id = "user-1";
    email = "ana@example.com";
    role = admin;
    must_change_password = false;
  };
}

abbrev live_settings : CookieSettings
live_settings = record {
  node_env = some "production";
  cookie_samesite = none;
  cookie_secure = none;
  cookie_domain = some ".insecurekori.com";
}

cleared_cookies-match_example :
    (map same_cookie (complete_session sample_hash live_settings kori_session)
      ≡ map same_cookie (cleared_cookies sample_hash live_settings))
    × All IsGuarded (complete_session sample_hash live_settings kori_session)
    × All (λ c. c.value ≡ "") (cleared_cookies sample_hash live_settings)
    × All
        (λ c. c.name ≡ refresh_token_cookie → c.options.path ≡ refresh_token_cookie_path)
        (complete_session sample_hash live_settings kori_session)
cleared_cookies-match_example = cleared_cookies-match sample_hash live_settings kori_session
