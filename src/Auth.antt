-- ===== src/Auth.antt =====
-- modules/auth/auth.service.ts: the panel's sessions.
pub mod Duration
pub use Duration.*
pub mod Lifetimes
pub mod Rotation
pub mod Password
pub mod Cookies
pub mod CookieHeader
pub mod CookieSession
use kori_backend.Constants.{day_ms}
use kori_backend.Database.{
  transaction, pure, plain, http, ◌>>◌, throw, ok, err, UserRole, Result, RefreshToken, M, Env,
  User, Store, Prisma,
}
use kori_backend.Prelude.{
  or_else, ◌||◌, leb, is_some, not, ◌+◌, ◌*◌, ◌&&◌, truthy, str_eq, some, if◌then◌else◌, List, none,
  false, Bool, ℕ, String, Option,
}

abbrev pub refresh_token_ttl_days : ℕ
refresh_token_ttl_days = 7

pub record AuthenticatedUser : Type 0 where
  pub id : String
  pub email : String
  pub role : UserRole
  pub must_change_password : Bool

pub record IssuedSession : Type 0 where
  pub access_token : String
  pub refresh_token : String
  pub access_token_ttl_ms : ℕ
  pub refresh_token_ttl_ms : ℕ
  pub expires_in : String
  pub user : AuthenticatedUser

pub record LoginDto : Type 0 where
  pub email : Option String
  pub username : Option String
  pub password : String

-- bcrypt, as it is used: the comparison of a password with a hash, and the hash of a password.
pub record Bcrypt : Type 0 where
  pub compare : String → String → Bool
  pub hash : String → String

abbrev pub email_is : String → User → Bool
email_is email u = str_eq u.email email

abbrev pub user_is : String → User → Bool
user_is id u = str_eq u.id id

abbrev pub stored_as : String → RefreshToken → Bool
stored_as hash t = str_eq t.token_hash hash

abbrev pub token_of : String → RefreshToken → Bool
token_of id t = str_eq t.id id

-- `where: { userId, revokedAt: null }`.
abbrev pub is_open_session : String → RefreshToken → Bool
is_open_session user_id t = str_eq t.user_id user_id && not (is_some t.revoked_at)

abbrev pub is_open_token : String → RefreshToken → Bool
is_open_token hash t = stored_as hash t && not (is_some t.revoked_at)

abbrev pub revoke_token : ℕ → RefreshToken → RefreshToken
revoke_token now t = record t { revoked_at = some now }

abbrev pub authenticated : User → AuthenticatedUser
authenticated u = record {
  id = u.id;
  email = u.email;
  role = u.role;
  must_change_password = u.must_change_password;
}

abbrev pub with_password : String → User → User
with_password hash u = record u { password_hash = hash; must_change_password = false }

abbrev pub set_refresh_tokens : Store → Result (List RefreshToken) → Store × Result (Unit {0})
set_refresh_tokens s (ok t) = (record s { refresh_tokens = t }, ok tt)
set_refresh_tokens s (err e) = (s, err e)

abbrev pub set_users : Store → Result (List User) → Store × Result (Unit {0})
set_users s (ok t) = (record s { users = t }, ok tt)
set_users s (err e) = (s, err e)

-- `expires_in` is the configured life of an access token, and `sign` the library's signature of a
-- user's claims.
module _ (db : Prisma) (sha256 : String → String) (bcrypt : Bcrypt) (sign : User → String)
    (expires_in : String) where
  -- The row that `issueSession` creates.
  abbrev pub new_token : Env → User → RefreshToken
  new_token env u = record {
    id = env.uuid 0;
    user_id = u.id;
    token_hash = sha256 (env.token 0);
    expires_at = env.now + refresh_token_ttl_days * day_ms;
    revoked_at = none;
  }

  abbrev pub session_of : Env → User → IssuedSession
  session_of env u = record {
    access_token = sign u;
    refresh_token = env.token 0;
    access_token_ttl_ms = parse_duration_to_ms expires_in;
    refresh_token_ttl_ms = refresh_token_ttl_days * day_ms;
    expires_in = expires_in;
    user = authenticated u;
  }

  abbrev pub create_token : Env → User → M (Unit {0})
  create_token env u s =
      set_refresh_tokens s (db.refresh_token.create (new_token env u) s.refresh_tokens)

  -- `issueSession`.
  unfoldable pub issue_session : Env → User → M IssuedSession
  issue_session env u = create_token env u >> pure (session_of env u)

  -- `revokeAllSessions`.
  unfoldable pub revoke_all_sessions : Env → String → M (Unit {0})
  revoke_all_sessions env user_id s = (
    record s {
      refresh_tokens =
          (db.refresh_token.update_many (is_open_session user_id) (revoke_token env.now)
            s.refresh_tokens).0;
    },
    ok tt,
  )

  -- The rest of `login`, for the user that was found. Where there is none, the source compares
  -- with the hash of nobody's password for the time that it takes, and throws all the same.
  abbrev pub enter_as : Env → String → Option User → M IssuedSession
  enter_as env password none = throw (http 401)
  enter_as env password (some u) =
      if not u.is_active || not (bcrypt.compare password u.password_hash)
      then throw (http 401)
      else issue_session env u

  unfoldable pub login : Env → LoginDto → M IssuedSession
  login env dto s = elim (truthy (or_else dto.email dto.username)) [
    | none ↦ (s, err (http 401))
    | some identifier ↦
        enter_as env dto.password (db.user.find_first (email_is identifier) s.users) s
  ]

  -- `refresh` once the token was neither revoked nor expired, for the user that it belongs to.
  abbrev pub rotate : Env → RefreshToken → User → M IssuedSession
  rotate env stored u =
      if not u.is_active then revoke_all_sessions env stored.user_id >> throw (http 401) else (do
        λ s.
            set_refresh_tokens s
              (db.refresh_token.update (token_of stored.id) (revoke_token env.now) s.refresh_tokens)
        issue_session env u)

  -- The user is included with the token: the foreign key has there be one.
  abbrev pub rotate_for : Env → RefreshToken → Option User → M IssuedSession
  rotate_for env stored none = throw plain
  rotate_for env stored (some u) =
      if leb stored.expires_at env.now then throw (http 401) else rotate env stored u

  abbrev pub check_stored : Env → Option RefreshToken → M IssuedSession
  check_stored env none s = (s, err (http 401))
  check_stored env (some stored) s =
      if is_some stored.revoked_at
      then (revoke_all_sessions env stored.user_id >> throw (http 401)) s
      else rotate_for env stored (db.user.find_first (user_is stored.user_id) s.users) s

  unfoldable pub refresh : Env → Option String → M IssuedSession
  refresh env raw s = elim (truthy raw) [
    | none ↦ (s, err (http 401))
    | some token ↦
        check_stored env (db.refresh_token.find_first (stored_as (sha256 token)) s.refresh_tokens) s
  ]

  unfoldable pub logout : Env → Option String → M (Unit {0})
  logout env raw s = elim (truthy raw) [
    | none ↦ (s, ok tt)
    | some token ↦ (
      record s {
        refresh_tokens =
            (db.refresh_token.update_many (is_open_token (sha256 token)) (revoke_token env.now)
              s.refresh_tokens).0;
      },
      ok tt,
    )
  ]

  unfoldable pub find_active_user_by_id : String → Store → Option AuthenticatedUser
  find_active_user_by_id id s = elim (db.user.find_first (user_is id) s.users) [
    | none ↦ none
    | some u ↦ if u.is_active then some (authenticated u) else none
  ]

  abbrev pub write_password : String → String → M (Unit {0})
  write_password user_id hash s =
      set_users s (db.user.update (user_is user_id) (with_password hash) s.users)

  abbrev pub change_of : Env → String → String → String → Option User → M (Unit {0})
  change_of env user_id current new none = throw (http 401)
  change_of env user_id current new (some u) =
      if not u.is_active
      then throw (http 401)
      else if not (bcrypt.compare current u.password_hash)
      then throw (http 401)
      else if bcrypt.compare new u.password_hash
      then throw (http 400)
      else transaction
          (do write_password user_id (bcrypt.hash new); revoke_all_sessions env user_id)

  unfoldable pub change_password : Env → String → String → String → M (Unit {0})
  change_password env user_id current new s =
      change_of env user_id current new (db.user.find_first (user_is user_id) s.users) s
