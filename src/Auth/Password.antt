-- ===== src/Auth/Password.antt =====
-- A logout, and the change of a password.
use kori_backend.Auth.Rotation.{
  revoke_all_sessions-eq, revoked-refused, refresh-eq, no_open_session,
}
use kori_backend.Auth.{
  set_users, revoke_all_sessions, write_password, enter_as, stored_as, is_open_token, revoke_token,
  with_password, is_open_session, refresh, issue_session, logout, login, change_password, LoginDto,
  user_is, email_is, Bcrypt,
}
use kori_backend.Prelude.{
  ◌∙◌, All-update_mem, All-mem, refl, Memᴰ, str_eq, inr, any-of_mem, or_else, any-update_where_mono,
  Bool-cases, inl, Option-cases, All-after_update, is_some, All, List, update_where, any, truthy,
  none, eq_iff, IsKeyed, some, arith, ap, Option, false, true, ◌≡◌, String,
}
use kori_backend.Database.{
  Result-cases, ◌>>◌, transaction, RefreshToken, http, err, ok, Store, User_clash, Env, User,
  Prisma,
}

-- The row that opens the panel with the new password.
abbrev HasPassword : String → String → User → Type 0
HasPassword id hash u =
    (u.is_active ≡ true) × (u.password_hash ≡ hash) × (u.id ≡ id) × (u.must_change_password ≡ false)

other_user : (x y : User) (id : String) → x ≡ y → user_is id y ≡ true → user_is id x ≡ false → ⊥
other_user x y id e p q = let same = ap (λ z. user_is id z) e in cc

full_text : (a b : String) → truthy (some a) ≡ some b → a ≡ b
full_text a b k = elim (Bool-cases (str_eq a "")) [
  | inl p ↦ let bad = (rw (p, truthy) at k) in cc
  | inr p ↦ let e = (rw (p, truthy) at k) in cc
]

same_email :
    (x y : User) (email : String)
    → email_is email x ≡ true
    → email_is email y ≡ true
    → User_clash x y ≡ true
same_email x y email p q =
    ground (arith, eq_iff x.email email, eq_iff y.email email, eq_iff x.email y.email)

module _ (db : Prisma) (sha256 : String → String) (bcrypt : Bcrypt) (sign : User → String)
    (expires_in : String) where
  -- After a logout its refresh token is refused with 401, at whatever time.
  pub logout_ends_session :
      (env later : Env) (raw : Option String) (token : String) (s : Store)
      → truthy raw ≡ some token
      → (s' : Store) × (refresh db sha256 bcrypt sign expires_in later raw
            (logout db sha256 bcrypt sign expires_in env raw s).0
          ≡ (s', err (http 401)))
  unfolding logout
  logout_ends_session env later raw token s k =
      rw (k, logout)
        (rw
          (db.refresh_token.update_many_lem (is_open_token (sha256 token)) (revoke_token env.now)
            s.refresh_tokens (λ r o. ((λ e. e), (λ e. e))))
          (refused s now revoked))
    where
      now : List RefreshToken
      now = update_where (is_open_token (sha256 token)) (revoke_token env.now) s.refresh_tokens

      revoked : All (λ r. stored_as (sha256 token) r ≡ true → is_some r.revoked_at ≡ true) now
      revoked =
          All-after_update (λ r. stored_as (sha256 token) r ≡ true → is_some r.revoked_at ≡ true)
            (is_open_token (sha256 token)) (revoke_token env.now) s.refresh_tokens (λ r a b. refl)
            (λ r a b. ground arith)

      refused :
          (s : Store) (t : List RefreshToken)
          → All (λ r. stored_as (sha256 token) r ≡ true → is_some r.revoked_at ≡ true) t
          → (s' : Store) × (refresh db sha256 bcrypt sign expires_in later raw
                (record s { refresh_tokens = t })
              ≡ (s', err (http 401)))
      refused s t h =
          elim (Option-cases (db.refresh_token.find_first (stored_as (sha256 token)) t)) [
            | inl p ↦ (
              record s { refresh_tokens = t },
              rw
                  (refresh-eq db sha256 bcrypt sign expires_in later raw token
                    (record s { refresh_tokens = t }) k)
                  (rw p refl),
            )
            | inr (r, p) ↦
                let (m, q) = db.refresh_token.find_first_some _ t r p in
                let (s', e, closed) =
                  revoked-refused db sha256 bcrypt sign expires_in later r
                    (record s { refresh_tokens = t }) (All-mem _ t h m q) in
                (
                  s',
                  rw
                      (refresh-eq db sha256 bcrypt sign expires_in later raw token
                        (record s { refresh_tokens = t }) k)
                      (rw p e),
                )
          ]

  written :
      (env : Env) (user_id hash : String) (s s' : Store)
      → transaction
          (do
            write_password db sha256 bcrypt sign expires_in user_id hash
            revoke_all_sessions db sha256 bcrypt sign expires_in env user_id)
          s
        ≡ (s', ok tt)
      → (s'.users ≡ update_where (user_is user_id) (with_password hash) s.users)
        × (s'.refresh_tokens
            ≡ update_where (is_open_session user_id) (revoke_token env.now) s.refresh_tokens)
  written env user_id hash s s' h =
      elim (Result-cases (db.user.update (user_is user_id) (with_password hash) s.users)) [
        | inr (e, p) ↦ let bad = (rw (p, set_users) at h) in cc
        | inl (t, p) ↦
            let h' =
              (rw
                (revoke_all_sessions-eq db sha256 bcrypt sign expires_in env user_id
                  (record s { users = t }))
                at (rw (p, set_users) at h)) in
            let e : record s {
              users = t;
              refresh_tokens =
                  update_where (is_open_session user_id) (revoke_token env.now) s.refresh_tokens;
            }
                ≡ s' =
              cc in
            rw (← e) (db.user.update_ok _ _ _ t p, refl)
      ]

  -- What a change of password that succeeds has found and done.
  change_password-ok :
      (env : Env) (user_id current new : String) (u : User) (s s' : Store)
      → db.user.find_first (user_is user_id) s.users ≡ some u
      → change_password db sha256 bcrypt sign expires_in env user_id current new s ≡ (s', ok tt)
      → (u.is_active ≡ true)
        × (s'.users ≡ update_where (user_is user_id) (with_password (bcrypt.hash new)) s.users)
        × (s'.refresh_tokens
            ≡ update_where (is_open_session user_id) (revoke_token env.now) s.refresh_tokens)
  unfolding change_password
  change_password-ok env user_id current new u s s' p h =
      let h0 = (rw (p, change_password) at h) in
      elim (Bool-cases u.is_active) [
        | inr a ↦ let bad = (simp a at h0) in cc
        | inl a ↦ elim (Bool-cases (bcrypt.compare current u.password_hash)) [
          | inr b ↦ let bad = (simp (a, b) at h0) in cc
          | inl b ↦ elim (Bool-cases (bcrypt.compare new u.password_hash)) [
            | inl c ↦ let bad = (simp (a, b, c) at h0) in cc
            | inr c ↦
                let (users, tokens) =
                  written env user_id (bcrypt.hash new) s s' (simp (a, b, c) at h0) in
                (a, users, tokens)
          ]
        ]
      ]

  -- A change of password that succeeds ends every session of the user.
  pub change_ends_sessions :
      (env : Env) (user_id current new : String) (u : User) (s s' : Store)
      → db.user.find_first (user_is user_id) s.users ≡ some u
      → change_password db sha256 bcrypt sign expires_in env user_id current new s ≡ (s', ok tt)
      → any (is_open_session user_id) s'.refresh_tokens ≡ false
  change_ends_sessions env user_id current new u s s' p h =
      let (active, users, tokens) = change_password-ok env user_id current new u s s' p h in
      rw tokens (no_open_session env.now user_id s.refresh_tokens)

  abbrev password_login : String → String → LoginDto
  password_login email password = record {
    email = some email;
    username = none;
    password = password;
  }

  login-eq :
      (env : Env) (dto : LoginDto) (identifier : String) (s : Store)
      → truthy (or_else dto.email dto.username) ≡ some identifier
      → login db sha256 bcrypt sign expires_in env dto s
        ≡ enter_as db sha256 bcrypt sign expires_in env dto.password
            (db.user.find_first (email_is identifier) s.users)
            s
  unfolding login
  login-eq env dto identifier s k = rw (k, login) refl

  -- Where bcrypt accepts the password that it hashed, the new password opens a session: after the
  -- change a login with it issues one to the same user, who need not change it again.
  pub new_password_opens :
      (env later : Env) (user_id current new email : String) (u : User) (s s' : Store)
      → ((password : String) → bcrypt.compare password (bcrypt.hash password) ≡ true)
      → IsKeyed User_clash s.users
      → db.user.find_first (user_is user_id) s.users ≡ some u
      → truthy (some u.email) ≡ some email
      → change_password db sha256 bcrypt sign expires_in env user_id current new s ≡ (s', ok tt)
      → (r : User) × (r.id ≡ user_id)
        × (r.must_change_password ≡ false)
        × (login db sha256 bcrypt sign expires_in later (password_login u.email new) s'
            ≡ issue_session db sha256 bcrypt sign expires_in later r s')
  new_password_opens env later user_id current new email u s s' accepts keyed p k h =
      let (active, users, tokens) = change_password-ok env user_id current new u s s' p h in
      let (m, own) = db.user.find_first_some _ s.users u p in
      let now = update_where (user_is user_id) (with_password (bcrypt.hash new)) s.users in
      let mine : email_is email u ≡ true = (eq_iff u.email email).1 (full_text u.email email k) in
      let there : any (email_is email) now ≡ true =
        any-update_where_mono (email_is email) (user_is user_id) (with_password (bcrypt.hash new))
          s.users (λ x a b. b) (any-of_mem (email_is email) s.users m mine) in
      let only : (x : User) → Memᴰ x s.users → email_is email x ≡ true → x ≡ u =
        λ x n q. keyed x u n m (same_email x u email q mine) in
      let rows : All (λ r. email_is email r ≡ true → HasPassword user_id (bcrypt.hash new) r) now =
        All-update_mem (λ r. email_is email r ≡ true → HasPassword user_id (bcrypt.hash new) r)
          (user_is user_id) (with_password (bcrypt.hash new)) s.users
          (λ x n a q.
            (ap (λ z. z.is_active) (only x n q) ∙ active, refl, (eq_iff x.id user_id).0 a, refl))
          (λ x n a q. absurd (other_user x u user_id (only x n q) own a)) in
      elim (Option-cases (db.user.find_first (email_is email) s'.users)) [
        | inl q ↦
            let none_there = db.user.find_first_none _ _ q in
            let bad = (rw users at none_there) in cc
        | inr (r, q) ↦
            let (n, e) = db.user.find_first_some _ s'.users r q in
            let (on, hash, same, done) =
              All-mem (λ r. email_is email r ≡ true → HasPassword user_id (bcrypt.hash new) r) now
                rows (rw users at n) e in
            let fits : bcrypt.compare new r.password_hash ≡ true = rw hash (accepts new) in
            (
              r,
              same,
              done,
              rw (login-eq later (password_login u.email new) email s' k) (rw q (simp (on, fits))),
            )
      ]
