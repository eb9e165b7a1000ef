-- ===== src/Notes/Kept.antt =====
-- What one call makes of the table of notes.
use mathlib.Core.Path.{subst}
use kori_backend.Notes.Admin.{
  after_file, note_has_id, delete_found, set_note_status, find_note, with_note, delete_row,
  delete_note, reject_note, approve_note, set_status,
}
use kori_backend.Storage.{UploadedFile}
use kori_backend.Notes.Drawings.{StoredFile, Bucket}
use kori_backend.Notes.{
  drawing_note, validate_drawing_file, keep_drawing, text_note, insert_note, text_length,
  is_approved, create_drawing_note, sanitize_required_text, max_message_length, create_text_note,
  RequestFingerprint, NoteStyle, max_recipient_name_length,
}
use kori_backend.Prelude.{
  truthy, any-of_mem, update_where-none, sym, Option-cases, arith, refl, ltb, discard, inl, any,
  ◌≤◌, inr, [], Bool-cases, ◌∷◌, none, ◌++◌, false, ◌⊎◌, update_where, str_eq, some, ◌≡◌, String, ℕ,
  Option, List,
}
use kori_backend.Database.{
  err, Result, Note_clash, pending, NoteStatus, ok, Result-cases, Store, Prisma, Note, Env,
}

-- The calls of visitors and of the panel.
pub data NoteCall : Type 0 where
  wrote : Env → String → String → NoteStyle → RequestFingerprint → NoteCall
  drew : Env → String → Option UploadedFile → NoteStyle → RequestFingerprint → NoteCall
  approved_note rejected_note deleted_note : String → NoteCall

-- A text that is not empty and has at most so many units.
abbrev pub IsText : ℕ → String → Type 0
IsText n value = (str_eq value "" ≡ false) × (text_length value ≤ n)

abbrev IsMessage : Option String → Type 0
IsMessage none = Unit {0}
IsMessage (some value) = IsText max_message_length value

-- The texts of a note are within their bounds.
abbrev pub IsWithin : Note → Type 0
IsWithin n = IsText max_recipient_name_length n.recipient_name × IsMessage n.message

-- At most one new note, which waits for the moderation.
abbrev pub Added : List Note → List Note → Type 0
Added t t' = (t' ≡ t) ⊎ ((n : Note) × (t' ≡ t ++ n ∷ []) × (is_approved n ≡ false) × IsWithin n)

abbrev pub After : NoteCall → List Note → List Note → Type 0
After (wrote env name message style who) t t' = Added t t'
After (drew env name file style who) t t' = Added t t'
After (approved_note id) t t' =
    t' ≡ update_where (note_has_id id) (set_status NoteStatus.approved) t
After (rejected_note id) t t' = t' ≡ update_where (note_has_id id) (set_status pending) t
After (deleted_note id) t t' = (t' ≡ t) ⊎ (t' ≡ discard (note_has_id id) t)

module _ {B : Type 0} (db : Prisma) (sanitize : String → String) (hmac : String → String → String)
    (pepper : Option String) (bucket : Bucket B) where
  required-IsText :
      (value x : String) (n : ℕ)
      → sanitize_required_text db sanitize hmac pepper value n ≡ ok x
      → IsText n x
  unfolding sanitize_required_text
  required-IsText value x n h = elim (Bool-cases (str_eq (sanitize value) "")) [
    | inl e ↦ let bad = (rw e at h) in cc
    | inr e ↦
        let h' = (rw e at h) in
        elim (Bool-cases (ltb n (text_length (sanitize value)))) [
          | inl k ↦ let bad = (rw k at h') in cc
          | inr k ↦
              let same : sanitize value ≡ x = let h'' = (rw k at h') in cc in
              subst (IsText n) same (e, ground arith)
        ]
  ]

  inserted-Added :
      (n : Note) (s : Store)
      → is_approved n ≡ false
      → IsWithin n
      → Added s.notes (insert_note db sanitize hmac pepper n s).0.notes
  inserted-Added n s h k = elim (Bool-cases (any (Note_clash n) s.notes)) [
    | inl e ↦ rw (db.note.create_clash n s.notes e) (inl refl)
    | inr e ↦ rw (db.note.create_new n s.notes e) (inr (n, refl, h, k))
  ]

  abbrev pub call_notes : NoteCall → Store × B → Store × B
  call_notes (wrote env name message style who) (s, b) =
      ((create_text_note db sanitize hmac pepper env name message style who s).0, b)
  call_notes (drew env name file style who) w =
      (create_drawing_note db sanitize hmac pepper bucket env name file style who w).0
  call_notes (approved_note id) (s, b) = ((approve_note db id s).0, b)
  call_notes (rejected_note id) (s, b) = ((reject_note db id s).0, b)
  call_notes (deleted_note id) w = (delete_note db bucket id w).0

  wrote-Added :
      (env : Env) (name message : String) (style : NoteStyle) (who : RequestFingerprint) (s : Store)
      → Added s.notes
          (create_text_note db sanitize hmac pepper env name message style who s).0.notes
  unfolding create_text_note
  wrote-Added env name message style who s =
      elim (Result-cases (sanitize_required_text db sanitize hmac pepper name 14)) [
        | inr (e, p) ↦ rw p (inl refl)
        | inl (x, p) ↦
            elim (Result-cases (sanitize_required_text db sanitize hmac pepper message 50)) [
              | inr (e, q) ↦ rw (p, q) (inl refl)
              | inl (y, q) ↦
                  rw (p, q)
                    (inserted-Added (text_note db sanitize hmac pepper env x y style who) s refl
                      (required-IsText name x 14 p, required-IsText message y 50 q))
            ]
      ]

  drawn :
      (env : Env) (x : String) (style : NoteStyle) (who : RequestFingerprint) (s : Store)
      (f : UploadedFile) (b : B)
      → IsText 14 x
      → Added s.notes
          (keep_drawing db sanitize hmac pepper bucket env x style who s
            (bucket.upload_drawing f b)).0.0.notes
  drawn env x style who s f b h = go (bucket.upload_drawing f b)
    where
      go :
          (r : B × Result StoredFile)
          → Added s.notes
              (keep_drawing db sanitize hmac pepper bucket env x style who s r).0.0.notes
      go (b', err e) = inl refl
      go (b', ok stored) =
          let n = drawing_note db sanitize hmac pepper env x stored style who in
          elim (Bool-cases (any (Note_clash n) s.notes)) [
            | inl e ↦ rw (db.note.create_clash n s.notes e) (inl refl)
            | inr e ↦ rw (db.note.create_new n s.notes e) (inr (n, refl, refl, (h, tt)))
          ]

  drew-Added :
      (env : Env) (name : String) (file : Option UploadedFile) (style : NoteStyle)
      (who : RequestFingerprint) (s : Store) (b : B)
      → Added s.notes
          (create_drawing_note db sanitize hmac pepper bucket env name file style who
            (s, b)).0.0.notes
  unfolding create_drawing_note
  drew-Added env name file style who s b =
      elim (Result-cases (sanitize_required_text db sanitize hmac pepper name 14)) [
        | inr (e, p) ↦ rw p (inl refl)
        | inl (x, p) ↦ elim (Result-cases (validate_drawing_file file)) [
          | inr (e, q) ↦ rw (p, q) (inl refl)
          | inl (f, q) ↦ rw (p, q) (drawn env x style who s f b (required-IsText name x 14 p))
        ]
      ]

  moderated :
      (id : String) (status : NoteStatus) (s : Store)
      → (with_note db s (find_note db id s) (λ n. set_note_status db id status s)).0.notes
        ≡ update_where (note_has_id id) (set_status status) s.notes
  moderated id status s = elim (Option-cases (db.note.find_first (note_has_id id) s.notes)) [
    | inl p ↦ rw p (
        sym (
          update_where-none (note_has_id id) (set_status status) s.notes
            (db.note.find_first_none (note_has_id id) s.notes p)))
    | inr (n, p) ↦
        let (m, k) = db.note.find_first_some (note_has_id id) s.notes n p in
        let found = any-of_mem (note_has_id id) s.notes m k in
        rw p (
          rw
            (db.note.update_lem (note_has_id id) (set_status status) s.notes found
              (λ r q. (λ a. a, λ a. a)))
            refl)
  ]

  row_deleted :
      (id : String) (s : Store) (b : B)
      → ((delete_row db id s b).0.0.notes ≡ s.notes)
        ⊎ ((delete_row db id s b).0.0.notes ≡ discard (note_has_id id) s.notes)
  row_deleted id s b = elim (Bool-cases (any (note_has_id id) s.notes)) [
    | inl e ↦ rw (db.note.delete_lem (note_has_id id) s.notes e) (inr refl)
    | inr e ↦ rw (db.note.delete_missing (note_has_id id) s.notes e) (inl refl)
  ]

  found_deleted :
      (id : String) (s : Store) (b : B) (path : Option String)
      → ((delete_found db bucket id s b path).0.0.notes ≡ s.notes)
        ⊎ ((delete_found db bucket id s b path).0.0.notes ≡ discard (note_has_id id) s.notes)
  found_deleted id s b none = row_deleted id s b
  found_deleted id s b (some path) = go (bucket.delete_file path b)
    where
      go :
          (r : B × Result (Unit {0}))
          → ((after_file db bucket id s r).0.0.notes ≡ s.notes)
            ⊎ ((after_file db bucket id s r).0.0.notes ≡ discard (note_has_id id) s.notes)
      go (b', ok u) = row_deleted id s b'
      go (b', err e) = inl refl

  -- One call changes the table in one of these ways.
  pub call_notes-After :
      (c : NoteCall) (s : Store) (b : B) → After c s.notes (call_notes c (s, b)).0.notes
  unfolding approve_note reject_note delete_note
  call_notes-After (wrote env name message style who) s b = wrote-Added env name message style who s
  call_notes-After (drew env name file style who) s b = drew-Added env name file style who s b
  call_notes-After (approved_note id) s b = moderated id NoteStatus.approved s
  call_notes-After (rejected_note id) s b = moderated id pending s
  call_notes-After (deleted_note id) s b =
      elim (Option-cases (db.note.find_first (note_has_id id) s.notes)) [
        | inl p ↦ rw (call_notes, p) (inl refl)
        | inr (n, p) ↦ rw (call_notes, p) (found_deleted id s b (truthy n.storage_path))
      ]
