-- ===== src/Auth/CookieSession.antt =====
-- The cookies of a session and those that end it.
use kori_backend.Auth.{IssuedSession}
use kori_backend.Prelude.{
  false, refl, eq_iff, inr, inl, Bool-cases, some, All, map, ℕ, true, Bool, ◌≡◌, Option, String,
}
use kori_backend.Auth.Cookies.{
  lowered, is_text_of, access_token_cookie, refresh_token_cookie_path, refresh_token_cookie,
  given_site, CookieSettings, is_same_site, cleared_cookies, complete_session, build_cookie_options,
  SetCookie,
}

-- What a browser tells two cookies apart by, and the attributes that must agree for one to be
-- replaced by the other.
abbrev pub same_cookie : SetCookie → String × String × Option String × String × Bool
same_cookie c = (c.name, c.options.path, c.options.domain, c.options.same_site, c.options.secure)

-- A cookie that scripts cannot read, with one of the three values of `SameSite`, and for all sites
-- only together with `Secure`.
abbrev pub IsGuarded : SetCookie → Type 0
IsGuarded c =
    (c.options.http_only ≡ true)
    × (is_same_site c.options.same_site ≡ true)
    × (c.options.same_site ≡ "none" → c.options.secure ≡ true)

is_same_site-given_site :
    (production : Bool) (value : Option String) → is_same_site (given_site production value) ≡ true
is_same_site-given_site true Option.none = refl
is_same_site-given_site false Option.none = refl
is_same_site-given_site production (some value) = elim (Bool-cases (is_same_site value)) [
  | inl e ↦ rw e e
  | inr e ↦ rw e (elim (Bool-cases production) [ inl k ↦ rw k refl | inr k ↦ rw k refl ])
]

built-IsGuarded :
    (lower : String → String) (settings : CookieSettings) (name value path : String) (age : ℕ)
    → IsGuarded (record {
      name = name;
      value = value;
      options = build_cookie_options lower settings age path;
    })
unfolding build_cookie_options
built-IsGuarded lower settings name value path age = (
  refl,
  is_same_site-given_site (is_text_of "production" settings.node_env)
      (lowered lower settings.cookie_samesite),
  λ e.
      rw
        ((eq_iff
            (given_site (is_text_of "production" settings.node_env)
              (lowered lower settings.cookie_samesite))
            "none").1
          e)
        refl,
)

-- The logout clears exactly the cookies that a session sets, by name, path, domain and the
-- attributes for other sites, whatever the settings; every cookie of a session is hidden from
-- scripts, has one of the three values of `SameSite`, and has `none` only together with `Secure`;
-- the cleared cookies are empty; and only the routes of the sessions get the refresh token.
pub cleared_cookies-match :
    (lower : String → String) (settings : CookieSettings) (session : IssuedSession)
    → (map same_cookie (complete_session lower settings session)
        ≡ map same_cookie (cleared_cookies lower settings))
      × All IsGuarded (complete_session lower settings session)
      × All (λ c. c.value ≡ "") (cleared_cookies lower settings)
      × All
          (λ c. c.name ≡ refresh_token_cookie → c.options.path ≡ refresh_token_cookie_path)
          (complete_session lower settings session)
unfolding complete_session cleared_cookies build_cookie_options
cleared_cookies-match lower settings session = (
  refl,
  (
    built-IsGuarded lower settings access_token_cookie session.access_token "/"
        session.access_token_ttl_ms,
    (
      built-IsGuarded lower settings refresh_token_cookie session.refresh_token
          refresh_token_cookie_path session.refresh_token_ttl_ms,
      tt,
    ),
  ),
  (refl, (refl, tt)),
  ((λ e. let bad = (eq_iff access_token_cookie refresh_token_cookie).1 e in cc), ((λ e. refl), tt)),
)
