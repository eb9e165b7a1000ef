-- ===== src/Tests/Notes.antt =====
-- The theorems about the wall of notes at concrete inputs.
use kori_backend.Notes.Moderation.{wall_is_moderated, verdict, run_notes-IsWithin, run_notes}
use kori_backend.Notes.Orphans.{no_orphan, Whole}
use kori_backend.Notes.{
  PublicNoteRecord, create_drawing_note, find_public_notes, RequestFingerprint, NoteStyle,
}
use kori_backend.Notes.Kept.{rejected_note, approved_note, drew, wrote, IsWithin, NoteCall}
use kori_backend.Tests.Samples.{later_env, sample_hash, sample_env, empty_store}
use kori_backend.Database.{Store, is_ok, plain, ok, err, Result, Failure}
use kori_backend.Tests.Tables.{list_client}
use kori_backend.Storage.{UploadedFile}
use kori_backend.Prelude.{
  ◌≤◌, length, Memᴰ, All, inr, ◌∙◌, str_eq-right, sym, refl, eq_iff, inl, ap, [], Bool-cases, ◌∷◌,
  ◌&&◌, true, none, false, ◌≡◌, str_eq, some, if◌then◌else◌, Bool, String, List,
}
use kori_backend.Notes.Drawings.{StoredFile, Bucket}

abbrev hmac_value : String → String → String
hmac_value value secret = value

-- A bucket with room for one file.
abbrev slot : String
slot = "drawings/1.png"

abbrev small_upload : UploadedFile → Bool → Bool × Result StoredFile
small_upload file false =
    (true, ok (record { image_url = "https://cdn/1.png"; storage_path = slot }))
small_upload file true = (true, err plain)

abbrev small_delete : String → Bool → Bool × Result (Unit {0})
small_delete path b = (if str_eq path slot then false else b, ok tt)

pub small_upload-ok :
    (file : UploadedFile) (b b' : Bool) (stored : StoredFile)
    → small_upload file b ≡ (b', ok stored)
    → ((str_eq stored.storage_path slot && b) ≡ false)
      × ((str_eq stored.storage_path slot && b') ≡ true)
      × ((path : String)
          → str_eq path stored.storage_path ≡ false
          → (str_eq path slot && b') ≡ (str_eq path slot && b))
small_upload-ok file true b' stored h =
    let bad = ap (λ (r : Bool × Result StoredFile). is_ok r.1) h in cc
small_upload-ok file false b' stored h =
    let full : true ≡ b' = ap (λ (r : Bool × Result StoredFile). r.0) h in
    let here : slot ≡ stored.storage_path = ap (λ (r : Bool × Result StoredFile). path_of r.1) h in
    let same = (eq_iff stored.storage_path slot).1 (sym here) in
    (
      rw (← here) refl,
      rw (same, ← full) refl,
      λ path e. let other : str_eq path slot ≡ false = rw here e in rw other refl,
    )
  where
    path_of : Result StoredFile → String
    path_of (ok f) = f.storage_path
    path_of (err e) = ""

pub small_upload-err :
    (file : UploadedFile) (b b' : Bool) (e : Failure)
    → small_upload file b ≡ (b', err e)
    → (path : String) → (str_eq path slot && b') ≡ (str_eq path slot && b)
small_upload-err file true b' e h path =
    let full : true ≡ b' = ap (λ (r : Bool × Result StoredFile). r.0) h in rw (← full) refl
small_upload-err file false b' e h path =
    let bad = ap (λ (r : Bool × Result StoredFile). is_ok r.1) h in cc

pub small_delete-ok :
    (path : String) (b b' : Bool) (u : Unit {0})
    → small_delete path b ≡ (b', ok u)
    → ((str_eq path slot && b') ≡ false)
      × ((other : String)
          → str_eq other path ≡ false
          → (str_eq other slot && b') ≡ (str_eq other slot && b))
small_delete-ok path b b' u h = elim (Bool-cases (str_eq path slot)) [
  | inl e ↦
      let gone : false ≡ b' = ap (λ (r : Bool × Result (Unit {0})). r.0) (rw e at h) in
      (
        rw (e, ← gone) refl,
        λ other k. let apart = sym (str_eq-right other path slot e) ∙ k in rw apart refl,
      )
  | inr e ↦
      let same : b ≡ b' = ap (λ (r : Bool × Result (Unit {0})). r.0) (rw e at h) in
      (rw e refl, λ other k. rw (← same) refl)
]

pub small_delete-err :
    (path : String) (b b' : Bool) (e : Failure)
    → small_delete path b ≡ (b', err e)
    → (other : String) → (str_eq other slot && b') ≡ (str_eq other slot && b)
small_delete-err path b b' e h other =
    let bad = ap (λ (r : Bool × Result (Unit {0})). is_ok r.1) h in cc

abbrev small_bucket : Bucket Bool
small_bucket = record {
  holds = λ path b. str_eq path slot && b;
  upload_drawing = small_upload;
  upload_ok = small_upload-ok;
  upload_err = small_upload-err;
  delete_file = small_delete;
  delete_ok = small_delete-ok;
  delete_err = small_delete-err;
}

abbrev style : NoteStyle
style = record { color = "yellow"; rotation = 15; position_x = 10; position_y = 20; z_index = 1 }

abbrev nobody : RequestFingerprint
nobody = record { ip = none; user_agent = none }

abbrev picture : UploadedFile
picture = record { buffer = 0xff ∷ 0xd8 ∷ 0xff ∷ 0xe0 ∷ []; mimetype = "image/jpeg" }

-- Two notes, of which one is approved.
abbrev wall_calls : List NoteCall
wall_calls =
    wrote sample_env "Ana" "te quiero" style nobody
    ∷ drew later_env "Luis" (some picture) style nobody
    ∷ approved_note "u0"
    ∷ rejected_note "v0"
    ∷ []

abbrev blank_wall : Store × Bool
blank_wall = (empty_store, false)

wall_is_moderated_example :
    let wall =
      find_public_notes list_client sample_hash hmac_value none 50
        (run_notes list_client sample_hash hmac_value none small_bucket wall_calls blank_wall).0 in
    (length wall ≤ 200)
    × ((r : PublicNoteRecord) → Memᴰ r wall → verdict r.id false wall_calls ≡ true)
wall_is_moderated_example =
    wall_is_moderated list_client sample_hash hmac_value none small_bucket wall_calls blank_wall 50

run_notes-IsWithin_example :
    All IsWithin
      (run_notes list_client sample_hash hmac_value none small_bucket wall_calls blank_wall).0.notes
run_notes-IsWithin_example =
    run_notes-IsWithin list_client sample_hash hmac_value none small_bucket wall_calls blank_wall tt

no_orphan_example : Whole list_client sample_hash hmac_value none small_bucket blank_wall (
    create_drawing_note list_client sample_hash hmac_value none small_bucket sample_env "Luis"
      (some picture)
      style
      nobody
      blank_wall)
no_orphan_example =
    no_orphan list_client sample_hash hmac_value none small_bucket
      (λ path b. (if str_eq path slot then false else b, refl)) sample_env "Luis" (some picture)
      style nobody empty_store false
