-- ===== src/Settings/Writes.antt =====
-- What one write of the settings service does to the values that the landing page reads.
use mathlib.Core.Path.{subst}
use kori_backend.Settings.Values.{
  value_of-append, any-clash, value_of-update, value_of-none, IsUnique-update, value_of-discard,
  value_of-member, of_key, value_of, IsUnique,
}
use kori_backend.Settings.{
  with_value, is_setting, album_url_key, write_settings, write_setting, countdown_target_key,
  run_all, delete_setting, upsert_or_delete, get_settings, PublicSettings, by_key, UpdateSettings,
}
use kori_backend.Database.{
  AppSetting_clash, is_ok, M-cases, rollback, Result, ok, Store, M, AppSetting, Prisma,
}
use kori_backend.Prelude.{
  str_eq-sym, IsDistinct-append, IsDistinct-discard, update_where, any-none_of, All-of_mem,
  any-false, any-of_mem, sym, discard, [], inr, arith, any-member, refl, inl, eq_iff, ap, ◌∷◌, ◌∙◌,
  ◌++◌, Bool-cases, ◌||◌, true, none, false, ◌≡◌, str_eq, if◌then◌else◌, some, any, Memᴰ, String,
  Option, List,
}

-- What a field of a request makes of the value: absent keeps it, empty removes it.
abbrev pub applied : Option String → Option String → Option String
applied none before = before
applied (some v) before = if str_eq v "" then none else some v

abbrev pub applied_all : UpdateSettings → PublicSettings → PublicSettings
applied_all dto v = record {
  countdown_target = applied dto.countdown_target v.countdown_target;
  album_url = applied dto.album_url v.album_url;
}

by_key-none :
    (key : String) (rows : List AppSetting) → any (of_key key) rows ≡ false → by_key rows key ≡ none
unfolding by_key
by_key-none key [] h = refl
by_key-none key (r ∷ rows) h = elim (Bool-cases (str_eq r.key key)) [
  | inl e ↦ absurd (ground arith)
  | inr e ↦ rw (e, by_key-none key rows (ground arith)) refl
]

by_key-all :
    (key v : String) (rows : List AppSetting)
    → ((r : AppSetting) → Memᴰ r rows → str_eq r.key key ≡ true → r.value ≡ v)
    → any (of_key key) rows ≡ true
    → by_key rows key ≡ some v
unfolding by_key
by_key-all key v [] same h = cc
by_key-all key v (r ∷ rows) same h = elim (Bool-cases (any (of_key key) rows)) [
  | inl e ↦ rw (by_key-all key v rows (λ q m. same q (Memᴰ.tail m)) e) refl
  | inr e ↦
      let here : str_eq r.key key ≡ true = ground arith in
      rw (by_key-none key rows e, here) (ap some (same r (Memᴰ.head refl) here))
]

value_of-key :
    (t : List AppSetting) (r : AppSetting) (key : String)
    → IsUnique t
    → Memᴰ r t
    → str_eq r.key key ≡ true
    → value_of key t ≡ some r.value
value_of-key t r key u m e =
    subst (λ k. value_of k t ≡ some r.value) ((eq_iff r.key key).0 e) (value_of-member t r u m)

module _ (db : Prisma) where
  by_key-value_of :
      (key : String) (t : List AppSetting)
      → IsUnique t
      → (str_eq key countdown_target_key || str_eq key album_url_key) ≡ true
      → by_key (db.app_setting.find_all is_setting t) key ≡ value_of key t
  by_key-value_of key t u known =
      let found = db.app_setting in
      let rows = found.find_all is_setting t in
      elim (Bool-cases (any (of_key key) t)) [
        | inl e ↦
            let (r, m, h) = any-member (of_key key) t e in
            let here = value_of-key t r key u m h in
            let passes =
              subst (λ k. (str_eq k countdown_target_key || str_eq k album_url_key) ≡ true)
                (sym ((eq_iff r.key key).0 h)) known in
            let got = any-of_mem (of_key key) rows (found.mem_find_all is_setting t r m passes) h in
            by_key-all key r.value rows
              (λ q n k.
                let there = value_of-key t q key u (found.find_all_mem is_setting t q n).0 k in cc)
              got
            ∙ sym here
        | inr e ↦
            by_key-none key rows (
              any-false (of_key key) rows (
                All-of_mem (λ q. of_key key q ≡ false) rows
                  (λ q n. any-none_of (of_key key) t q e (found.find_all_mem is_setting t q n).0)))
            ∙ sym (value_of-none key t e)
      ]

  abbrev pub view : Store → PublicSettings
  view s = record {
    countdown_target = value_of countdown_target_key s.settings;
    album_url = value_of album_url_key s.settings;
  }

  -- A write of one key, and what it leaves of every key.
  runs :
      (key : String) (v : Option String) (s : Store)
      → IsUnique s.settings
      → (s' : Store) × (run_all db (upsert_or_delete db key v) s ≡ (s', ok tt))
        × IsUnique s'.settings
        × ((k : String)
            → value_of k s'.settings
              ≡ (if str_eq key k then applied v (value_of k s.settings) else value_of k s.settings))
  unfolding upsert_or_delete delete_setting write_setting
  runs key none s u =
      (s, refl, u, λ k. elim (Bool-cases (str_eq key k)) [ inl e ↦ rw e refl | inr e ↦ rw e refl ])
  runs key (some v) s u = elim (Bool-cases (str_eq v "")) [
    | inl e ↦
        rw (e, db.app_setting.delete_many_lem)
          (
            record s { settings = discard (of_key key) s.settings },
            refl,
            IsDistinct-discard AppSetting_clash (of_key key) s.settings u,
            λ k. value_of-discard key k s.settings,
          )
    | inr e ↦ rw e (elim (Bool-cases (any (of_key key) s.settings)) [
      | inl h ↦
          rw
            (db.app_setting.upsert_old (of_key key) (record { key = key; value = v })
              (with_value db v) s.settings h (λ r q. (λ a. a, λ a. a)))
            (
              record s { settings = update_where (of_key key) (with_value db v) s.settings },
              refl,
              IsUnique-update (of_key key) v s.settings u,
              λ k. value_of-update key v k s.settings h,
            )
      | inr h ↦
          let fresh = any-clash (record { key = key; value = v }) s.settings ∙ h in
          rw
            (db.app_setting.upsert_new (of_key key) (record { key = key; value = v })
              (with_value db v) s.settings h fresh)
            (
              record s { settings = s.settings ++ record { key = key; value = v } ∷ [] },
              refl,
              IsDistinct-append AppSetting_clash (λ a b. str_eq-sym a.key b.key)
                  (record { key = key; value = v }) s.settings fresh u,
              λ k. value_of-append key v k s.settings h,
            )
    ])
  ]

  run_all-append :
      (xs ys : List (M (Unit {0}))) (s s' : Store)
      → run_all db xs s ≡ (s', ok tt)
      → run_all db (xs ++ ys) s ≡ run_all db ys s'
  run_all-append [] ys s s' e = ap (λ (r : Store × Result (Unit {0})). run_all db ys r.0) e
  run_all-append (m ∷ xs) ys s s' e = elim (M-cases (m s)) [
    | inl (t, a, p) ↦ rw p (run_all-append xs ys t s' (rw p at e))
    | inr (t, f, p) ↦
        let bad = (rw p at e) in
        let worse = ap (λ (r : Store × Result (Unit {0})). is_ok r.1) bad in cc
  ]

  pub get_settings-view : (s : Store) → IsUnique s.settings → get_settings db s ≡ view s
  unfolding get_settings
  get_settings-view s u =
      rw
        (
          by_key-value_of countdown_target_key s.settings u refl,
          by_key-value_of album_url_key s.settings u refl,
        )
        refl

  -- Both keys in one transaction.
  pub writes :
      (dto : UpdateSettings) (s : Store)
      → IsUnique s.settings
      → (s' : Store) × (write_settings db dto s ≡ (s', ok tt))
        × IsUnique s'.settings
        × (view s' ≡ applied_all dto (view s))
  writes dto s u =
      let (s1, e1, u1, v1) = runs countdown_target_key dto.countdown_target s u in
      let (s2, e2, u2, v2) = runs album_url_key dto.album_url s1 u1 in
      let both =
        run_all-append (upsert_or_delete db countdown_target_key dto.countdown_target)
          (upsert_or_delete db album_url_key dto.album_url) s s1 e1
        ∙ e2 in
      (
        s2,
        ap (rollback s) both,
        u2,
        rw (v2 countdown_target_key, v2 album_url_key, v1 countdown_target_key, v1 album_url_key)
            refl,
      )
