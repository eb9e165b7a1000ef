-- ===== src/Settings/Refinement.antt =====
-- The settings service as a record of two optional values that each accepted request rewrites.
use kori_backend.Settings.Writes.{writes, get_settings-view, applied_all, view}
use kori_backend.Settings.Values.{IsUnique}
use kori_backend.Settings.{
  get_settings, PublicSettings, update_settings, bad_url, bad_protocol, bad_date, UpdateSettings,
}
use kori_backend.Prelude.{
  inr, refl, inl, ap, ◌∙◌, none, [], Bool-cases, ◌∷◌, ◌||◌, if◌then◌else◌, arith, str_eq, not, ◌≡◌,
  ◌&&◌, some, true, false, List, Option, Bool, String,
}
use kori_backend.Database.{http, err, ok, Result, Store, Prisma}

module _ (db : Prisma) (is_date : String → Bool) (protocol : String → Option String) where
  -- A request whose two fields are absent, empty or well formed.
  abbrev field_ok : (String → Bool) → Option String → Bool
  field_ok good none = true
  field_ok good (some v) = str_eq v "" || good v

  abbrev web_protocol : Option String → Bool
  web_protocol none = false
  web_protocol (some p) = str_eq p "https:" || str_eq p "http:"

  abbrev web : String → Bool
  web u = web_protocol (protocol u)

  abbrev pub accepted : UpdateSettings → Bool
  accepted dto = field_ok is_date dto.countdown_target && field_ok web dto.album_url

  bad_date-field : (d : Option String) → bad_date db is_date protocol d ≡ not (field_ok is_date d)
  unfolding bad_date
  bad_date-field none = refl
  bad_date-field (some d) = ground arith

  bad_protocol-web : (p : Option String) → bad_protocol db is_date protocol p ≡ not (web_protocol p)
  bad_protocol-web none = refl
  bad_protocol-web (some p) = ground arith

  bad_url-field : (u : Option String) → bad_url db is_date protocol u ≡ not (field_ok web u)
  unfolding bad_url
  bad_url-field none = refl
  bad_url-field (some u) = ground (arith, bad_protocol-web (protocol u))

  -- The abstract service: an accepted request rewrites the two values and answers with them, any
  -- other is refused and changes nothing.
  abbrev pub step : UpdateSettings → PublicSettings → PublicSettings × Result PublicSettings
  step dto v =
      if accepted dto then (applied_all dto v, ok (applied_all dto v)) else (v, err (http 400))

  abbrev pub replay :
      List UpdateSettings → PublicSettings → PublicSettings × List (Result PublicSettings)
  replay [] v = (v, [])
  replay (dto ∷ dtos) v =
      let (w, answer) = step dto v in let (w', answers) = replay dtos w in (w', answer ∷ answers)

  -- The service's own run over the same requests.
  abbrev pub run_updates : List UpdateSettings → Store → Store × List (Result PublicSettings)
  run_updates [] s = (s, [])
  run_updates (dto ∷ dtos) s =
      let (t, answer) = update_settings db is_date protocol dto s in
      let (t', answers) = run_updates dtos t in (t', answer ∷ answers)

  update_settings-step :
      (dto : UpdateSettings) (s : Store)
      → IsUnique s.settings
      → IsUnique (update_settings db is_date protocol dto s).0.settings
        × (view db (update_settings db is_date protocol dto s).0 ≡ (step dto (view db s)).0)
        × ((update_settings db is_date protocol dto s).1 ≡ (step dto (view db s)).1)
  unfolding update_settings
  update_settings-step dto s u =
      rw (bad_date-field dto.countdown_target, bad_url-field dto.album_url)
        (elim (Bool-cases (field_ok is_date dto.countdown_target)) [
          | inl d ↦ elim (Bool-cases (field_ok web dto.album_url)) [
            | inl a ↦
                let (t, e, u', v) = writes db dto s u in
                rw (d, a, e) (u', v, ap ok (get_settings-view db t u' ∙ v))
            | inr a ↦ rw (d, a) (u, refl, refl)
          ]
          | inr d ↦ rw d (u, refl, refl)
        ])

  run_updates-view :
      (dtos : List UpdateSettings) (s : Store)
      → IsUnique s.settings
      → IsUnique (run_updates dtos s).0.settings
        × (view db (run_updates dtos s).0 ≡ (replay dtos (view db s)).0)
        × ((run_updates dtos s).1 ≡ (replay dtos (view db s)).1)
  run_updates-view [] s u = (u, refl, refl)
  run_updates-view (dto ∷ dtos) s u =
      let (u', v, a) = update_settings-step dto s u in
      let t = (update_settings db is_date protocol dto s).0 in
      let (u'', v', a') = run_updates-view dtos t u' in
      (u'', v' ∙ ap (λ w. (replay dtos w).0) v, let rest = a' ∙ ap (λ w. (replay dtos w).1) v in cc)

  -- From a table of settings in which no key is repeated, any sequence of requests to the panel
  -- gets the answers of the abstract service, and what the landing page reads afterwards is the
  -- abstract service's two values: an absent field keeps its value, an empty one removes it, a
  -- well-formed one replaces it, and a request with a field that is no date or no web address is
  -- refused with 400 and changes neither.
  pub run_updates-replay :
      (dtos : List UpdateSettings) (s : Store)
      → IsUnique s.settings
      → let (s', answers) = run_updates dtos s in
        let (v, expected) = replay dtos (get_settings db s) in
        (get_settings db s' ≡ v) × (answers ≡ expected)
  run_updates-replay dtos s u =
      let (u', v, a) = run_updates-view dtos s u in
      rw (get_settings-view db s u) (get_settings-view db (run_updates dtos s).0 u' ∙ v, a)
