-- ===== src/Auth/CookieHeader.antt =====
-- The header that a browser writes, read back.
use mathlib.Core.Path.{subst}
use Prim.Native.Char.{Char, code}
use kori_backend.Auth.Cookies.{
  take_all, parse_cookie_header, take_cookie, decoded_or, unquoted, object_members, split, lookup,
  cut, before_first,
}
use kori_backend.Prelude.{
  sym, true, eq_iff, Bool, Option-cases, is_some, Option, inr, inl, Bool-cases, none, if◌then◌else◌,
  any, ◌∙◌, or_else, false, ◌==◌, ◌++◌, str_eq, some, refl, map, ap, [], ◌≡◌, ◌∷◌, trim, All, ℕ,
  String, List,
}

-- One text before another.
abbrev pub joined : String → String → String
joined String.[] t = t
joined (String.◌∷◌ c s) t = String.◌∷◌ c (joined s t)

-- `name=value; name=value`.
abbrev pub cookie_header : List (String × String) → String
cookie_header [] = String.[]
cookie_header (p ∷ []) = joined p.0 (String.◌∷◌ "=" p.1)
cookie_header (p ∷ q ∷ ps) =
    joined p.0
      (String.◌∷◌ "=" (joined p.1 (String.◌∷◌ ";" (String.◌∷◌ " " (cookie_header (q ∷ ps))))))

abbrev Lacks : ℕ → String → Type 0
Lacks k String.[] = Unit {0}
Lacks k (String.◌∷◌ c s) = ((code c == k) ≡ false) × Lacks k s

joined_empty : (s : String) → joined s "" ≡ s
joined_empty String.[] = refl
joined_empty (String.◌∷◌ c s) = ap (String.◌∷◌ c) (joined_empty s)

abbrev lead : String → List String → List String
lead String.[] xs = xs
lead (String.◌∷◌ c s) xs = before_first c (lead s xs)

lead-joined : (s x : String) (xs : List String) → lead s (x ∷ xs) ≡ joined s x ∷ xs
lead-joined String.[] x xs = refl
lead-joined (String.◌∷◌ c s) x xs = rw (lead-joined s x xs) refl

split-joined : (s t : String) → Lacks b';' s → split (joined s t) ≡ lead s (split t)
split-joined String.[] t h = refl
split-joined (String.◌∷◌ c s) t h = rw (h.0, split-joined s t h.1) refl

split-one : (s : String) → Lacks b';' s → split s ≡ s ∷ []
split-one String.[] h = refl
split-one (String.◌∷◌ c s) h = rw (h.0, split-one s h.1) refl

cut-joined : (s v : String) → Lacks b'=' s → cut (joined s (String.◌∷◌ "=" v)) ≡ some (s, v)
cut-joined String.[] v h = refl
cut-joined (String.◌∷◌ c s) v h = rw (h.0, cut-joined s v h.1) refl

abbrev segment : String × String → String
segment p = joined p.0 (String.◌∷◌ "=" p.1)

-- A name and a value that need no care: what a browser can send.
abbrev pub IsClean : String × String → Type 0
IsClean (name, value) =
    Lacks b';' name
    × Lacks b'=' name
    × (trim name ≡ name)
    × (str_eq name "" ≡ false)
    × (any (str_eq name) object_members ≡ false)
    × Lacks b';' value
    × (trim value ≡ value)
    × (unquoted value ≡ value)

split-header :
    (p : String × String) (ps : List (String × String))
    → All IsClean (p ∷ ps)
    → split (cookie_header (p ∷ ps)) ≡ segment p ∷ map (λ q. String.◌∷◌ " " (segment q)) ps
split-header (n, v) [] h =
    let (a, b, c, d, e, f, g, i) = h.0 in
    split-joined n (String.◌∷◌ "=" v) a ∙ rw (split-one v f) (lead-joined n (String.◌∷◌ "=" v) [])
split-header (n, v) (q ∷ ps) h =
    let (a, b, c, d, e, f, g, i) = h.0 in
    let rest = split-header q ps h.1 in
    let tail = map (λ r. String.◌∷◌ " " (segment r)) ps in
    split-joined n
      (String.◌∷◌ "=" (joined v (String.◌∷◌ ";" (String.◌∷◌ " " (cookie_header (q ∷ ps)))))) a
    ∙ rw (split-joined v (String.◌∷◌ ";" (String.◌∷◌ " " (cookie_header (q ∷ ps)))) f, rest)
        (rw (lead-joined v "" (String.◌∷◌ " " (segment q) ∷ tail), joined_empty v)
          (lead-joined n (String.◌∷◌ "=" v) (String.◌∷◌ " " (segment q) ∷ tail)))

lookup-append :
    (name n v : String) (cs : List (String × String))
    → lookup name (cs ++ (n, v) ∷ [])
      ≡ or_else (lookup name cs) (if str_eq n name then some v else none)
lookup-append name n v [] = refl
lookup-append name n v (c ∷ cs) = elim (Bool-cases (str_eq c.0 name)) [
  | inl e ↦ rw e refl
  | inr e ↦ rw e (lookup-append name n v cs)
]

abbrev is_nil : String → Bool
is_nil String.[] = true
is_nil (String.◌∷◌ c s) = false

joined_full : (s t : String) (c : Char) → is_nil (joined s (String.◌∷◌ c t)) ≡ false
joined_full String.[] t c = refl
joined_full (String.◌∷◌ d s) t c = refl

header_full :
    (p : String × String) (ps : List (String × String)) → is_nil (cookie_header (p ∷ ps)) ≡ false
header_full p [] = joined_full p.0 p.1 "="
header_full p (q ∷ ps) =
    joined_full p.0 (joined p.1 (String.◌∷◌ ";" (String.◌∷◌ " " (cookie_header (q ∷ ps))))) "="

not_blank : (s : String) → str_eq (String.◌∷◌ " " s) "" ≡ false
not_blank s = elim (Bool-cases (str_eq (String.◌∷◌ " " s) "")) [
  | inl e ↦ let bad = ap is_nil ((eq_iff (String.◌∷◌ " " s) "").0 e) in cc
  | inr e ↦ e
]

or_else-none : {A : Type 0} → (a : Option A) → a ≡ or_else a none
or_else-none none = refl
or_else-none (some a) = refl

or_else-again :
    {A : Type 0} → (a b c : Option A) → or_else (or_else a b) c ≡ or_else a (or_else b c)
or_else-again none b c = refl
or_else-again (some a) b c = refl

module _ (decode : String → Option String) where
  abbrev added_cookie : List (String × String) → String → String → List (String × String)
  added_cookie cookies n v =
      if is_some (lookup n cookies) then cookies else cookies ++ (n, decoded_or decode v) ∷ []

  -- A clean segment, and the same one after a blank.
  take_clean :
      (cookies : List (String × String)) (n v : String)
      → IsClean (n, v)
      → (take_cookie decode cookies (cut (segment (n, v))) ≡ added_cookie cookies n v)
        × (take_cookie decode cookies (cut (String.◌∷◌ " " (segment (n, v))))
            ≡ added_cookie cookies n v)
  take_clean cookies n v (a, b, c, d, e, f, g, i) =
      rw (cut-joined n v b) (rw (c, d, e, g, i) refl, rw (c, d, e, g, i) (rw (not_blank n) refl))

  looked_up :
      (name n v : String) (cookies : List (String × String))
      → lookup name (added_cookie cookies n v)
        ≡ or_else (lookup name cookies) (if str_eq n name then some (decoded_or decode v) else none)
  looked_up name n v cookies = elim (Option-cases (lookup n cookies)) [
    | inl p ↦ rw p (lookup-append name n (decoded_or decode v) cookies)
    | inr (w, p) ↦ elim (Bool-cases (str_eq n name)) [
      | inl e ↦
          let here : lookup name cookies ≡ some w =
            subst (λ m. lookup m cookies ≡ some w) ((eq_iff n name).0 e) p in
          rw (p, here) refl
      | inr e ↦ rw (p, e) (or_else-none (lookup name cookies))
    ]
  ]

  -- The value of the first cookie of a name.
  abbrev pub first_value : String → List (String × String) → Option String
  first_value name [] = none
  first_value name (p ∷ ps) =
      or_else (if str_eq p.0 name then some (decoded_or decode p.1) else none) (first_value name ps)

  after_blank :
      (name : String) (cookies ps : List (String × String))
      → All IsClean ps
      → lookup name (take_all decode cookies (map (λ q. String.◌∷◌ " " (segment q)) ps))
        ≡ or_else (lookup name cookies) (first_value name ps)
  after_blank name cookies [] h = or_else-none (lookup name cookies)
  after_blank name cookies ((n, v) ∷ ps) h =
      ap (λ cs. lookup name (take_all decode cs (map (λ q. String.◌∷◌ " " (segment q)) ps)))
        (take_clean cookies n v h.0).1
      ∙ (after_blank name (added_cookie cookies n v) ps h.1
          ∙ ap (λ a. or_else a (first_value name ps)) (looked_up name n v cookies)
          ∙ or_else-again (lookup name cookies)
              (if str_eq n name then some (decoded_or decode v) else none) (first_value name ps))

  -- Of the cookies that a browser sends, whose names and values hold no separator, no blank around
  -- them and no quotes, and whose names are no member of every object, the parser reads for any
  -- name the value of the first one of that name, decoded where it can be, and none where there is
  -- none.
  pub parse_cookie_header-first :
      (name : String) (p : String × String) (ps : List (String × String))
      → All IsClean (p ∷ ps)
      → lookup name (parse_cookie_header decode (some (cookie_header (p ∷ ps))))
        ≡ first_value name (p ∷ ps)
  unfolding parse_cookie_header
  parse_cookie_header-first name (n, v) ps h =
      elim (Bool-cases (str_eq (cookie_header ((n, v) ∷ ps)) "")) [
        | inl e ↦
            let bad =
              sym (header_full (n, v) ps)
              ∙ ap is_nil ((eq_iff (cookie_header ((n, v) ∷ ps)) "").0 e) in
            cc
        | inr e ↦ rw e (
            ap (λ x. lookup name (take_all decode [] x)) (split-header (n, v) ps h)
            ∙ ap (λ cs. lookup name (take_all decode cs (map (λ q. String.◌∷◌ " " (segment q)) ps)))
                (take_clean [] n v h.0).0
            ∙ after_blank name (added_cookie [] n v) ps h.1
            ∙ ap (λ a. or_else a (first_value name ps)) (looked_up name n v []))
      ]
