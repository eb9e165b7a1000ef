-- ===== src/Orders/Limits.antt =====
-- How often a download grant can be used.
use mathlib.Core.Path.{subst}
use kori_backend.Orders.Downloads.{serve, grant_is, count_download, has_room, take_use}
use kori_backend.Prelude.{
  ◌==◌, suc, inr, ◌&&◌, refl, inl, if◌then◌else◌, str_eq, Bool-cases, update_where, sum_where,
  count_where, Bool, ltb→lt, ◌∙◌, sym, eq_iff, arith, ltb, ◌+◌, true, [], ◌∷◌, All-update_where,
  ◌≤◌, ◌≡◌, All, List, ℕ, String,
}
use kori_backend.Database.{is_ok, ok, Store, Env, DownloadGrant, Result, Prisma}

-- The rows with the identifier have been used at most that often.
abbrev pub WithinLimit : String → ℕ → List DownloadGrant → Type 0
WithinLimit id limit = All (λ g. g.id ≡ id → g.download_count ≤ limit)

-- The uses of the rows with the identifier, together.
abbrev pub used : String → List DownloadGrant → ℕ
used id = sum_where (grant_is id) (λ g. g.download_count)

grant_is-same :
    (read : DownloadGrant) (g : DownloadGrant) → has_room read g ≡ true → grant_is read.id g ≡ true
grant_is-same read g h = ground arith

-- Each row that an update counts is one of the rows with the identifier that was read.
used-counted :
    (read : DownloadGrant) (now : ℕ) (t : List DownloadGrant)
    → used read.id (update_where (has_room read) (count_download now) t)
      ≡ used read.id t + count_where (has_room read) t
used-counted read now [] = refl
used-counted read now (g ∷ t) =
    let rest = used-counted read now t in
    elim (Bool-cases (has_room read g)) [
      | inl p ↦ let mine = grant_is-same read g p in rw (p, mine) (omega arith)
      | inr p ↦ elim (Bool-cases (grant_is read.id g)) [
        | inl q ↦ rw (p, q) (omega arith)
        | inr q ↦ rw (p, q) rest
      ]
    ]

used-grows :
    (read : DownloadGrant) (id : String) (now : ℕ) (t : List DownloadGrant)
    → used id t ≤ used id (update_where (has_room read) (count_download now) t)
used-grows read id now [] = omega arith
used-grows read id now (g ∷ t) =
    let rest = used-grows read id now t in
    elim (Bool-cases (has_room read g)) [
      | inl p ↦ elim (Bool-cases (grant_is id g)) [
        | inl q ↦ rw (p, q) (omega arith)
        | inr q ↦ rw (p, q) rest
      ]
      | inr p ↦ elim (Bool-cases (grant_is id g)) [
        | inl q ↦ rw (p, q) (omega arith)
        | inr q ↦ rw (p, q) rest
      ]
    ]

rows-kept :
    (read : DownloadGrant) (id : String) (now : ℕ) (t : List DownloadGrant)
    → count_where (grant_is id) (update_where (has_room read) (count_download now) t)
      ≡ count_where (grant_is id) t
rows-kept read id now [] = refl
rows-kept read id now (g ∷ t) =
    let rest = rows-kept read id now t in
    elim (Bool-cases (has_room read g)) [ inl p ↦ rw (p, rest) refl | inr p ↦ rw (p, rest) refl ]

used-none : (id : String) (t : List DownloadGrant) → count_where (grant_is id) t ≡ 0 → used id t ≡ 0
used-none id [] h = refl
used-none id (g ∷ t) h = elim (Bool-cases (grant_is id g)) [
  | inl q ↦ absurd (omega (arith, rw q at h))
  | inr q ↦ rw q (used-none id t (rw q at h))
]

used-limited :
    (id : String) (limit : ℕ) (t : List DownloadGrant)
    → count_where (grant_is id) t ≤ 1
    → WithinLimit id limit t
    → used id t ≤ limit
used-limited id limit [] h w = omega arith
used-limited id limit (g ∷ t) h (w, ws) = elim (Bool-cases (grant_is id g)) [
  | inl q ↦
      let only = rw q at h in
      let none = used-none id t (omega arith) in
      let mine = w ((eq_iff g.id id).0 q) in rw (q, none) (omega arith)
  | inr q ↦ rw q (used-limited id limit t (rw q at h) ws)
]

module _ (db : Prisma) (sha256 : String → String)
    (signed_url : String → String → Result String) where
  -- Requests one after the other, each with the grant as it read it, maybe long before, and the
  -- path of its file.
  abbrev pub serve_all : List (Env × DownloadGrant × String) → Store → Store
  serve_all [] s = s
  serve_all ((env, read, path) ∷ rs) s =
      serve_all rs (serve db sha256 signed_url env (ok (read, path)) s).0

  abbrev pub is_served : String → String → Result String → Bool
  is_served id read_id answer = str_eq read_id id && is_ok answer

  -- How many of the requests for the grant are answered with the link to the file.
  abbrev pub served : String → List (Env × DownloadGrant × String) → Store → ℕ
  served id [] s = 0
  served id ((env, read, path) ∷ rs) s =
      let (s', answer) = serve db sha256 signed_url env (ok (read, path)) s in
      let rest = served id rs s' in if is_served id read.id answer then suc rest else rest

  used_once :
      (env : Env) (read g : DownloadGrant) (id : String) (limit : ℕ)
      → (read.id ≡ id → read.max_downloads ≤ limit)
      → has_room read g ≡ true
      → g.id ≡ id
      → g.download_count + 1 ≤ limit
  used_once env read g id limit most k e =
      let (below, same) : (ltb g.download_count read.max_downloads ≡ true)
          × (grant_is read.id g ≡ true) =
        ground arith in
      let same_id : g.id ≡ read.id = (eq_iff g.id read.id).0 same in
      let limited = most (sym same_id ∙ e) in
      let less = ltb→lt g.download_count read.max_downloads below in omega arith

  -- The table after a request, and what its answer says of the update.
  serve-After :
      (env : Env) (read : DownloadGrant) (path : String) (s : Store)
      → ((serve db sha256 signed_url env (ok (read, path)) s).0.grants
          ≡ update_where (has_room read) (count_download env.now) s.grants)
        × (is_ok (serve db sha256 signed_url env (ok (read, path)) s).1 ≡ true
            → 1 ≤ count_where (has_room read) s.grants)
  unfolding take_use
  serve-After env read path s =
      let written =
        db.download_grant.update_many_lem (has_room read) (count_download env.now) s.grants
          (λ r o. ((λ e. e), (λ e. e))) in
      rw written (elim (Bool-cases (count_where (has_room read) s.grants == 0)) [
        | inl p ↦ rw p (refl, λ e. cc)
        | inr p ↦ rw p (refl, λ e. ground arith)
      ])

  serve-used :
      (env : Env) (read : DownloadGrant) (path id : String) (s : Store)
      → let (s', answer) = serve db sha256 signed_url env (ok (read, path)) s in
        (used id s.grants ≤ used id s'.grants)
        × (is_served id read.id answer ≡ true → used id s.grants + 1 ≤ used id s'.grants)
  serve-used env read path id s =
      let (written, counted) = serve-After env read path s in
      rw written (
        used-grows read id env.now s.grants,
        λ e.
            let (mine, answered) : (str_eq read.id id ≡ true)
                × (is_ok (serve db sha256 signed_url env (ok (read, path)) s).1 ≡ true) =
              ground arith in
            let same : read.id ≡ id = (eq_iff read.id id).0 mine in
            let more = used-counted read env.now s.grants in
            subst
              (λ i.
                used i s.grants + 1
                ≤ used i (update_where (has_room read) (count_download env.now) s.grants))
              same (omega (arith, counted answered)),
      )

  serve-WithinLimit :
      (env : Env) (read : DownloadGrant) (path id : String) (limit : ℕ) (s : Store)
      → (read.id ≡ id → read.max_downloads ≤ limit)
      → WithinLimit id limit s.grants
      → WithinLimit id limit (serve db sha256 signed_url env (ok (read, path)) s).0.grants
  serve-WithinLimit env read path id limit s most h = rw ((serve-After env read path s).0) (
      All-update_where (λ g. g.id ≡ id → g.download_count ≤ limit) (has_room read)
        (count_download env.now) s.grants (λ g a k e. used_once env read g id limit most k e) h)

  serve_all-WithinLimit :
      (rs : List (Env × DownloadGrant × String)) (id : String) (limit : ℕ) (s : Store)
      → All (λ r. r.1.id ≡ id → r.1.max_downloads ≤ limit) rs
      → WithinLimit id limit s.grants
      → WithinLimit id limit (serve_all rs s).grants
  serve_all-WithinLimit [] id limit s most h = h
  serve_all-WithinLimit ((env, read, path) ∷ rs) id limit s (m, most) h =
      serve_all-WithinLimit rs id limit (serve db sha256 signed_url env (ok (read, path)) s).0 most
        (serve-WithinLimit env read path id limit s m h)

  serve_all-rows :
      (rs : List (Env × DownloadGrant × String)) (id : String) (s : Store)
      → count_where (grant_is id) (serve_all rs s).grants ≡ count_where (grant_is id) s.grants
  serve_all-rows [] id s = refl
  serve_all-rows ((env, read, path) ∷ rs) id s =
      serve_all-rows rs id (serve db sha256 signed_url env (ok (read, path)) s).0
      ∙ rw ((serve-After env read path s).0) (rows-kept read id env.now s.grants)

  served-used :
      (rs : List (Env × DownloadGrant × String)) (id : String) (s : Store)
      → served id rs s + used id s.grants ≤ used id (serve_all rs s).grants
  served-used [] id s = omega arith
  served-used ((env, read, path) ∷ rs) id s =
      let after = serve db sha256 signed_url env (ok (read, path)) s in
      let rest = served-used rs id after.0 in
      let (grows, counts) = serve-used env read path id s in
      elim (Bool-cases (is_served id read.id after.1)) [
        | inl p ↦ rw p (omega (arith, counts p))
        | inr p ↦ rw p (omega arith)
      ]

  -- However many requests race for a grant, each on a row that it may have read long before: where
  -- one row at most has the grant's identifier, the requests that are answered with the file and
  -- the uses that were counted before are together no more than the grant's limit, and no row of
  -- the grant counts more uses than that.
  pub uses-WithinLimit :
      (rs : List (Env × DownloadGrant × String)) (id : String) (limit : ℕ) (s : Store)
      → All (λ r. r.1.id ≡ id → r.1.max_downloads ≤ limit) rs
      → count_where (grant_is id) s.grants ≤ 1
      → WithinLimit id limit s.grants
      → (served id rs s + used id s.grants ≤ limit) × WithinLimit id limit (serve_all rs s).grants
  uses-WithinLimit rs id limit s most one h =
      let within = serve_all-WithinLimit rs id limit s most h in
      let rows = serve_all-rows rs id s in
      let last = used-limited id limit (serve_all rs s).grants (omega arith) within in
      let all = served-used rs id s in (omega arith, within)
