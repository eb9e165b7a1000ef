-- ===== src/Auth/Rotation.antt =====
-- A refresh token is used once, and its reuse ends every session of its user.
use kori_backend.Auth.{
  rotate_for, user_is, session_of, rotate, set_refresh_tokens, token_of, new_token, IssuedSession,
  issue_session, check_stored, revoke_token, revoke_all_sessions, refresh, is_open_session,
  stored_as, Bcrypt,
}
use kori_backend.Prelude.{
  All-append, any-append_left, sym, All-update_mem, any-of_mem, ap, any-update_where_mono, ◌∙◌,
  eq_iff, leb, IsKeyed, Bool-cases, [], ◌∷◌, ◌++◌, Memᴰ, All-mem, Option, inr, inl, Option-cases,
  arith, All-after_update, All, some, refl, any-false, truthy, false, is_some, update_where, true,
  ◌≡◌, any, List, ℕ, String,
}
use kori_backend.Database.{
  Result-cases, RefreshToken_clash, http, err, ok, Store, Env, User, RefreshToken, Prisma,
}

abbrev IsUsedUp : String → String → RefreshToken → Type 0
IsUsedUp hash user_id t =
    stored_as hash t ≡ true → (is_some t.revoked_at ≡ true) × (t.user_id ≡ user_id)

same_row :
    (x y : RefreshToken) (hash : String)
    → stored_as hash x ≡ true
    → stored_as hash y ≡ true
    → RefreshToken_clash x y ≡ true
same_row x y hash p q =
    ground
      (arith, eq_iff x.token_hash hash, eq_iff y.token_hash hash, eq_iff x.token_hash y.token_hash)

other_row : (x y : RefreshToken) → x ≡ y → token_of y.id x ≡ false → ⊥
other_row x y e p = let same = (eq_iff x.id y.id).1 (ap (λ z. z.id) e) in cc

-- A row that no row of the table clashes with has another hash than theirs.
fresh_row :
    (row : RefreshToken) (t : List RefreshToken) (hash : String)
    → any (stored_as hash) t ≡ true
    → any (RefreshToken_clash row) t ≡ false
    → stored_as hash row ≡ false
fresh_row row [] hash there apart = cc
fresh_row row (x ∷ t) hash there apart = ground (
  arith,
  fresh_row row t hash,
  eq_iff row.token_hash x.token_hash,
  eq_iff row.token_hash hash,
  eq_iff x.token_hash hash,
)

pub no_open_session :
    (now : ℕ) (user_id : String) (t : List RefreshToken)
    → any (is_open_session user_id) (update_where (is_open_session user_id) (revoke_token now) t)
      ≡ false
no_open_session now user_id t = any-false (is_open_session user_id) _ (
    All-after_update (λ r. is_open_session user_id r ≡ false) (is_open_session user_id)
      (revoke_token now) t (λ r a. ground arith) (λ r a. a))

module _ (db : Prisma) (sha256 : String → String) (bcrypt : Bcrypt) (sign : User → String)
    (expires_in : String) where
  pub revoke_all_sessions-eq :
      (env : Env) (user_id : String) (s : Store)
      → revoke_all_sessions db sha256 bcrypt sign expires_in env user_id s ≡ (
        record s {
          refresh_tokens =
              update_where (is_open_session user_id) (revoke_token env.now) s.refresh_tokens;
        },
        ok tt,
      )
  unfolding revoke_all_sessions
  revoke_all_sessions-eq env user_id s =
      rw
        (db.refresh_token.update_many_lem (is_open_session user_id) (revoke_token env.now)
          s.refresh_tokens (λ r o. ((λ e. e), (λ e. e))))
        refl

  pub refresh-eq :
      (env : Env) (raw : Option String) (token : String) (s : Store)
      → truthy raw ≡ some token
      → refresh db sha256 bcrypt sign expires_in env raw s
        ≡ check_stored db sha256 bcrypt sign expires_in env
            (db.refresh_token.find_first (stored_as (sha256 token)) s.refresh_tokens)
            s
  unfolding refresh
  refresh-eq env raw token s k = rw (k, refresh) refl

  pub revoked-refused :
      (env : Env) (r : RefreshToken) (s : Store)
      → is_some r.revoked_at ≡ true
      → (s' : Store) × (check_stored db sha256 bcrypt sign expires_in env (some r) s
          ≡ (s', err (http 401)))
        × (any (is_open_session r.user_id) s'.refresh_tokens ≡ false)
  revoked-refused env r s e = (
    record s {
      refresh_tokens =
          update_where (is_open_session r.user_id) (revoke_token env.now) s.refresh_tokens;
    },
    rw e (rw revoke_all_sessions-eq refl),
    no_open_session env.now r.user_id s.refresh_tokens,
  )

  -- A token that was used up is refused, and no session of its user stays open.
  used_up-refused :
      (env : Env) (raw : Option String) (token user_id : String) (s : Store)
      → truthy raw ≡ some token
      → any (stored_as (sha256 token)) s.refresh_tokens ≡ true
      → All (IsUsedUp (sha256 token) user_id) s.refresh_tokens
      → (s' : Store) × (refresh db sha256 bcrypt sign expires_in env raw s ≡ (s', err (http 401)))
        × (any (is_open_session user_id) s'.refresh_tokens ≡ false)
  used_up-refused env raw token user_id s k there used =
      elim (Option-cases
        (db.refresh_token.find_first (stored_as (sha256 token)) s.refresh_tokens)) [
          | inl p ↦ let bad = db.refresh_token.find_first_none _ _ p in cc
          | inr (r, p) ↦
              let (m, h) = db.refresh_token.find_first_some _ _ r p in
              let (revoked, owner) =
                All-mem (IsUsedUp (sha256 token) user_id) s.refresh_tokens used m h in
              let (s', e, closed) = revoked-refused env r s revoked in
              (s', rw (refresh-eq env raw token s k) (rw p e), rw (← owner) closed)
        ]

  issue_session-ok :
      (env : Env) (u : User) (s s' : Store) (session : IssuedSession)
      → issue_session db sha256 bcrypt sign expires_in env u s ≡ (s', ok session)
      → (s'.refresh_tokens
          ≡ s.refresh_tokens ++ new_token db sha256 bcrypt sign expires_in env u ∷ [])
        × (any
              (RefreshToken_clash (new_token db sha256 bcrypt sign expires_in env u))
              s.refresh_tokens
            ≡ false)
        × (session.user.id ≡ u.id)
  unfolding issue_session
  issue_session-ok env u s s' session h =
      let row = new_token db sha256 bcrypt sign expires_in env u in
      elim (Bool-cases (any (RefreshToken_clash row) s.refresh_tokens)) [
        | inl c ↦
            let e = db.refresh_token.create_clash row s.refresh_tokens c in
            let bad = (rw (e, set_refresh_tokens) at h) in cc
        | inr c ↦
            let e = db.refresh_token.create_new row s.refresh_tokens c in
            let h' = (rw (e, set_refresh_tokens) at h) in
            let e1 : record s { refresh_tokens = s.refresh_tokens ++ row ∷ [] } ≡ s' = cc in
            let e2 : session_of db sha256 bcrypt sign expires_in env u ≡ session = cc in
            (rw (← e1) refl, c, rw (← e2) refl)
      ]

  -- A rotation that succeeds has revoked the row and created another.
  rotate-ok :
      (env : Env) (stored : RefreshToken) (u : User) (s s' : Store) (session : IssuedSession)
      → rotate db sha256 bcrypt sign expires_in env stored u s ≡ (s', ok session)
      → (any
            (RefreshToken_clash (new_token db sha256 bcrypt sign expires_in env u))
            (update_where (token_of stored.id) (revoke_token env.now) s.refresh_tokens)
          ≡ false)
        × (s'.refresh_tokens
            ≡ update_where (token_of stored.id) (revoke_token env.now) s.refresh_tokens
              ++ new_token db sha256 bcrypt sign expires_in env u ∷ [])
        × (session.user.id ≡ u.id)
  rotate-ok env stored u s s' session h = elim (Bool-cases u.is_active) [
    | inr a ↦ let bad = (rw revoke_all_sessions-eq at (rw a at h)) in cc
    | inl a ↦
        elim (Result-cases
          (db.refresh_token.update (token_of stored.id) (revoke_token env.now) s.refresh_tokens)) [
            | inr (e, p) ↦ let bad = (rw (p, set_refresh_tokens) at (rw a at h)) in cc
            | inl (t, p) ↦
                let same = db.refresh_token.update_ok _ _ _ t p in
                let (grown, apart, owner) =
                  issue_session-ok env u (record s { refresh_tokens = t }) s' session
                    (rw (p, set_refresh_tokens) at (simp a at h)) in
                (rw same at apart, rw same at grown, owner)
          ]
  ]

  -- The token that a refresh presented, its row and its user, where the refresh succeeds.
  abbrev IsRotated : Env → Option String → Store → Store → IssuedSession → Type 0
  IsRotated env raw s s' session =
      (token : String) × (stored : RefreshToken) × (u : User) × (truthy raw ≡ some token)
      × Memᴰ stored s.refresh_tokens
      × (stored_as (sha256 token) stored ≡ true)
      × (session.user.id ≡ stored.user_id)
      × (any (RefreshToken_clash (new_token db sha256 bcrypt sign expires_in env u))
            (update_where (token_of stored.id) (revoke_token env.now) s.refresh_tokens)
          ≡ false)
      × (s'.refresh_tokens
          ≡ update_where (token_of stored.id) (revoke_token env.now) s.refresh_tokens
            ++ new_token db sha256 bcrypt sign expires_in env u ∷ [])

  check_stored-ok :
      (env : Env) (raw : Option String) (token : String) (stored : RefreshToken) (s s' : Store)
      (session : IssuedSession)
      → truthy raw ≡ some token
      → Memᴰ stored s.refresh_tokens × (stored_as (sha256 token) stored ≡ true)
      → check_stored db sha256 bcrypt sign expires_in env (some stored) s ≡ (s', ok session)
      → IsRotated env raw s s' session
  check_stored-ok env raw token stored s s' session k (m, e) h =
      elim (Bool-cases (is_some stored.revoked_at)) [
        | inl a ↦ let bad = (rw revoke_all_sessions-eq at (rw a at h)) in cc
        | inr a ↦ elim (Option-cases (db.user.find_first (user_is stored.user_id) s.users)) [
          | inl p ↦ let bad = (rw (p, rotate_for) at (rw a at h)) in cc
          | inr (u, p) ↦ elim (Bool-cases (leb stored.expires_at env.now)) [
            | inl b ↦ let bad = (rw b at (rw (p, rotate_for) at (rw a at h))) in cc
            | inr b ↦
                let (apart, grown, owner) =
                  rotate-ok env stored u s s' session
                    (rw b at (rw (p, rotate_for) at (rw a at h))) in
                let found = (db.user.find_first_some _ s.users u p).1 in
                let same : u.id ≡ stored.user_id = (eq_iff u.id stored.user_id).0 found in
                (token, stored, u, k, m, e, owner ∙ same, apart, grown)
          ]
        ]
      ]

  refresh-ok :
      (env : Env) (raw : Option String) (s s' : Store) (session : IssuedSession)
      → refresh db sha256 bcrypt sign expires_in env raw s ≡ (s', ok session)
      → IsRotated env raw s s' session
  unfolding refresh
  refresh-ok env raw s s' session h = elim (Option-cases (truthy raw)) [
    | inl k ↦ let bad = (rw (k, refresh) at h) in cc
    | inr (token, k) ↦
        let h' = (rw (refresh-eq env raw token s k) at h) in
        elim (Option-cases
          (db.refresh_token.find_first (stored_as (sha256 token)) s.refresh_tokens)) [
            | inl p ↦ let bad = (rw (p, check_stored) at h') in cc
            | inr (r, p) ↦
                check_stored-ok env raw token r s s' session k
                  (db.refresh_token.find_first_some _ _ r p) (rw p at h')
          ]
  ]

  -- After a rotation the presented token is used up.
  rotated-IsUsedUp :
      (env : Env) (raw : Option String) (s s' : Store) (session : IssuedSession)
      → IsKeyed RefreshToken_clash s.refresh_tokens
      → (r : IsRotated env raw s s' session)
      → (any (stored_as (sha256 r.0)) s'.refresh_tokens ≡ true)
        × All (IsUsedUp (sha256 r.0) session.user.id) s'.refresh_tokens
  rotated-IsUsedUp env raw s s' session keyed (token, stored, u, k, m, e, owner, apart, grown) =
      let now = update_where (token_of stored.id) (revoke_token env.now) s.refresh_tokens in
      let row = new_token db sha256 bcrypt sign expires_in env u in
      let there : any (stored_as (sha256 token)) now ≡ true =
        any-update_where_mono (stored_as (sha256 token)) (token_of stored.id) (revoke_token env.now)
          s.refresh_tokens (λ x p q. q)
          (any-of_mem (stored_as (sha256 token)) s.refresh_tokens m e) in
      let only : (x : RefreshToken)
          → Memᴰ x s.refresh_tokens
          → stored_as (sha256 token) x ≡ true
          → x ≡ stored =
        λ x n q. keyed x stored n m (same_row x stored (sha256 token) q e) in
      let old : All (IsUsedUp (sha256 token) session.user.id) now =
        All-update_mem (IsUsedUp (sha256 token) session.user.id) (token_of stored.id)
          (revoke_token env.now) s.refresh_tokens
          (λ x n p q. (refl, ap (λ y. y.user_id) (only x n q) ∙ sym owner))
          (λ x n p q. absurd (other_row x stored (only x n q) p)) in
      let new : stored_as (sha256 token) row ≡ false =
        fresh_row row now (sha256 token) there apart in
      rw grown (
        any-append_left (stored_as (sha256 token)) now (row ∷ []) there,
        All-append (IsUsedUp (sha256 token) session.user.id) now (row ∷ []) old ((λ q. cc), tt),
      )

  -- A refresh token works once. Where it is presented again after a refresh that succeeded, at
  -- whatever time, it is refused with 401, and every session of its user ends.
  pub token_works_once :
      (env later : Env) (raw : Option String) (s s' : Store) (session : IssuedSession)
      → IsKeyed RefreshToken_clash s.refresh_tokens
      → refresh db sha256 bcrypt sign expires_in env raw s ≡ (s', ok session)
      → (s'' : Store) × (refresh db sha256 bcrypt sign expires_in later raw s'
          ≡ (s'', err (http 401)))
        × (any (is_open_session session.user.id) s''.refresh_tokens ≡ false)
  token_works_once env later raw s s' session keyed h =
      let r = refresh-ok env raw s s' session h in
      let (there, used) = rotated-IsUsedUp env raw s s' session keyed r in
      used_up-refused later raw r.0 session.user.id s' r.3 there used
