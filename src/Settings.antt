-- ===== src/Settings.antt =====
-- modules/settings/settings.service.ts: the settings that the panel edits and the landing reads.
-- `Date.parse` and the URL parser are parameters.
pub mod Values
pub mod Writes
pub mod Refinement
use kori_backend.Prelude.{
  ◌&&◌, ◌||◌, ◌++◌, not, ◌∷◌, true, str_eq, if◌then◌else◌, false, [], some, none, Bool, String,
  Option, List,
}
use kori_backend.Database.{
  http, ◌>>◌, throw, err, transaction, pure, ok, Result, Store, M, Prisma, AppSetting,
}

-- `SETTING_KEYS`.
abbrev pub countdown_target_key : String
countdown_target_key = "countdown_target"

abbrev pub album_url_key : String
album_url_key = "album_url"

pub record PublicSettings : Type 0 where
  pub countdown_target : Option String
  pub album_url : Option String

-- `none` for a field that the request leaves out.
pub record UpdateSettings : Type 0 where
  pub countdown_target : Option String
  pub album_url : Option String

-- `new Map(rows.map(...)).get(key)`: a later row replaces an earlier one of its key.
abbrev pub later : Option String → Option String → Option String
later (some v) before = some v
later none before = before

unfoldable pub by_key : List AppSetting → String → Option String
by_key [] key = none
by_key (r ∷ rows) key = later (by_key rows key) (if str_eq r.key key then some r.value else none)

-- `where: { key: { in: Object.values(SETTING_KEYS) } }`.
abbrev pub is_setting : AppSetting → Bool
is_setting r = str_eq r.key countdown_target_key || str_eq r.key album_url_key

module _ (db : Prisma) where
  unfoldable pub get_settings : Store → PublicSettings
  get_settings s =
      let rows = db.app_setting.find_all is_setting s.settings in
      record {
        countdown_target = by_key rows countdown_target_key;
        album_url = by_key rows album_url_key;
      }

  abbrev stored : Store → Result (List AppSetting) → Store × Result (Unit {0})
  stored s (ok t) = (record s { settings = t }, ok tt)
  stored s (err e) = (s, err e)

  abbrev pub has_key : String → AppSetting → Bool
  has_key key r = str_eq r.key key

  abbrev pub with_value : String → AppSetting → AppSetting
  with_value value r = record r { value = value }

  unfoldable pub delete_setting : String → M (Unit {0})
  delete_setting key s =
      (record s { settings = (db.app_setting.delete_many (has_key key) s.settings).0 }, ok tt)

  unfoldable pub write_setting : String → String → M (Unit {0})
  write_setting key value s = stored s (
      db.app_setting.upsert (has_key key) (record { key = key; value = value }) (with_value value)
        s.settings)

  -- `upsertOrDelete`.
  unfoldable pub upsert_or_delete : String → Option String → List (M (Unit {0}))
  upsert_or_delete key none = []
  upsert_or_delete key (some value) =
      (if str_eq value "" then delete_setting key else write_setting key value) ∷ []

  -- `$transaction([...])`.
  abbrev pub run_all : List (M (Unit {0})) → M (Unit {0})
  run_all [] = pure tt
  run_all (m ∷ ms) = m >> run_all ms

  -- The transaction of `updateSettings`.
  abbrev pub write_settings : UpdateSettings → M (Unit {0})
  write_settings dto = transaction (
      run_all (
        upsert_or_delete countdown_target_key dto.countdown_target
        ++ upsert_or_delete album_url_key dto.album_url))

  module _ (is_date : String → Bool) (protocol : String → Option String) where
    -- The guard of the countdown's date.
    unfoldable pub bad_date : Option String → Bool
    bad_date none = false
    bad_date (some d) = not (str_eq d "") && not (is_date d)

    abbrev pub bad_protocol : Option String → Bool
    bad_protocol none = true
    bad_protocol (some p) = not (str_eq p "https:") && not (str_eq p "http:")

    -- The guard of the album's address; `protocol` is `none` where `new URL` throws.
    unfoldable pub bad_url : Option String → Bool
    bad_url none = false
    bad_url (some u) = not (str_eq u "") && bad_protocol (protocol u)

    unfoldable pub update_settings : UpdateSettings → M PublicSettings
    update_settings dto =
        if bad_date dto.countdown_target
        then throw (http 400)
        else if bad_url dto.album_url
        then throw (http 400)
        else write_settings dto >> λ s. (s, ok (get_settings s))
