-- ===== src/Settings/Values.antt =====
-- The table of settings read as a map: what a write does to the value of every key.
use kori_backend.Database.{AppSetting_clash, AppSetting}
use kori_backend.Prelude.{
  str_eq_trans, str_eq-right, str_eq-sym, IsDistinct, any-update_where, inr, ◌∙◌, any-of_mem, sym,
  inl, ◌++◌, update_where, discard, arith, ap, Memᴰ, Bool-cases, [], some, refl, false,
  if◌then◌else◌, eq_iff, true, none, any, ◌≡◌, ◌∷◌, Option, Bool, str_eq, String, List,
}

-- No two rows have one key.
abbrev pub IsUnique : List AppSetting → Type 0
IsUnique = IsDistinct AppSetting_clash

abbrev pub of_key : String → AppSetting → Bool
of_key key r = str_eq r.key key

abbrev pub value_of : String → List AppSetting → Option String
value_of key [] = none
value_of key (r ∷ t) = let rest = value_of key t in if str_eq r.key key then some r.value else rest

-- Membership of a key, and its value.
pub any-clash :
    (r : AppSetting) (t : List AppSetting) → any (AppSetting_clash r) t ≡ any (of_key r.key) t
any-clash r [] = refl
any-clash r (x ∷ t) = rw (str_eq-sym r.key x.key, any-clash r t)

pub value_of-none :
    (key : String) (t : List AppSetting) → any (of_key key) t ≡ false → value_of key t ≡ none
value_of-none key [] h = refl
value_of-none key (r ∷ t) h = ground (arith, value_of-none key t)

pub value_of-member :
    (t : List AppSetting) (r : AppSetting) → IsUnique t → Memᴰ r t → value_of r.key t ≡ some r.value
value_of-member [] r u m = elim m [ ]
value_of-member (x ∷ t) r u (Memᴰ.head e) =
    let same = (eq_iff x.key r.key).1 (ap (λ (y : AppSetting). y.key) (sym e)) in
    rw same (ap (λ (y : AppSetting). some y.value) (sym e))
value_of-member (x ∷ t) r u (Memᴰ.tail m) = elim (Bool-cases (str_eq x.key r.key)) [
  | inl h ↦ let bad = any-of_mem (AppSetting_clash x) t m h in let good = u.0 in cc
  | inr h ↦ rw h (value_of-member t r u.1 m)
]

-- The value of a key, after each of the three writes.
abbrev pub put_value : String → Option String → String → Option String → Option String
put_value key v key' before = if str_eq key key' then v else before

module _ (key value key' : String) where
  abbrev written : AppSetting → AppSetting
  written r = record r { value = value }

  value_of-update_other :
      (t : List AppSetting)
      → str_eq key key' ≡ false
      → value_of key' (update_where (of_key key) written t) ≡ value_of key' t
  value_of-update_other [] h = refl
  value_of-update_other (r ∷ t) h =
      let rest = value_of-update_other t h in
      elim (Bool-cases (str_eq r.key key)) [
        | inl e ↦
            let apart = sym (str_eq_trans r.key key key' e) ∙ h in rw e (rw (apart, rest) refl)
        | inr e ↦ rw e (rw rest refl)
      ]

  value_of-update_same :
      (t : List AppSetting)
      → str_eq key key' ≡ true
      → any (of_key key) t ≡ true
      → value_of key' (update_where (of_key key) written t) ≡ some value
  value_of-update_same [] h k = cc
  value_of-update_same (r ∷ t) h k = elim (Bool-cases (str_eq r.key key)) [
    | inl e ↦ let same = sym (str_eq_trans r.key key key' e) ∙ h in rw e (rw same refl)
    | inr e ↦
        let apart = sym (str_eq-right r.key key key' h) ∙ e in
        rw e (rw apart (value_of-update_same t h (ground arith)))
  ]

  pub value_of-update :
      (t : List AppSetting)
      → any (of_key key) t ≡ true
      → value_of key' (update_where (of_key key) written t)
        ≡ put_value key (some value) key' (value_of key' t)
  value_of-update t k = elim (Bool-cases (str_eq key key')) [
    | inl h ↦ rw h (value_of-update_same t h k)
    | inr h ↦ rw h (value_of-update_other t h)
  ]

  pub value_of-append :
      (t : List AppSetting)
      → any (of_key key) t ≡ false
      → value_of key' (t ++ record { key = key; value = value } ∷ [])
        ≡ put_value key (some value) key' (value_of key' t)
  value_of-append [] h = refl
  value_of-append (r ∷ t) h = elim (Bool-cases (str_eq r.key key')) [
    | inl e ↦ elim (Bool-cases (str_eq key key')) [
      | inl q ↦ let bad = str_eq-right r.key key key' q ∙ e in absurd (ground arith)
      | inr q ↦ rw (e, q) refl
    ]
    | inr e ↦ rw e (value_of-append t (ground arith))
  ]

pub value_of-discard :
    (key key' : String) (t : List AppSetting)
    → value_of key' (discard (of_key key) t) ≡ put_value key none key' (value_of key' t)
value_of-discard key key' [] = elim (Bool-cases (str_eq key key')) [
  | inl h ↦ rw h refl
  | inr h ↦ rw h refl
]
value_of-discard key key' (r ∷ t) =
    let rest = value_of-discard key key' t in
    elim (Bool-cases (str_eq r.key key)) [
      | inl e ↦
          let same = str_eq_trans r.key key key' e in
          rw e (
            rw (rest, ← same)
              (elim (Bool-cases (str_eq key key')) [ inl q ↦ rw q refl | inr q ↦ rw q refl ]))
      | inr e ↦ elim (Bool-cases (str_eq key key')) [
        | inl q ↦
            let apart = sym (str_eq-right r.key key key' q) ∙ e in
            let rest' = (rw q at rest) in rw (e, q) (rw (apart, rest') refl)
        | inr q ↦ let rest' = (rw q at rest) in rw (e, q) (rw rest' refl)
      ]
    ]

-- No write repeats a key.
pub IsUnique-update :
    (p : AppSetting → Bool) (value : String) (t : List AppSetting)
    → IsUnique t
    → IsUnique (update_where p (λ r. record r { value = value }) t)
IsUnique-update p value [] u = tt
IsUnique-update p value (r ∷ t) u =
    let same =
      any-update_where (AppSetting_clash r) p (λ (x : AppSetting). record x { value = value }) t
        (λ x. refl) in
    elim (Bool-cases (p r)) [
      | inl e ↦ rw e (same ∙ u.0, IsUnique-update p value t u.1)
      | inr e ↦ rw e (same ∙ u.0, IsUnique-update p value t u.1)
    ]
