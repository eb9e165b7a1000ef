-- ===== src/Notes/Orphans.antt =====
-- The file of a drawing and its row.
use mathlib.Core.Path.{subst}
use kori_backend.Storage.{UploadedFile}
use kori_backend.Notes.{
  validate_drawing_file, drawing_note, sanitize_required_text, keep_drawing, public_note,
  RequestFingerprint, NoteStyle, create_drawing_note, PublicNoteRecord,
}
use kori_backend.Notes.Drawings.{StoredFile, Bucket}
use kori_backend.Prelude.{
  true, refl, any, ◌∙◌, some, sym, inr, [], ◌∷◌, ◌++◌, eq_iff, inl, Bool-cases, str_eq, false, ◌≡◌,
  Option, String,
}
use kori_backend.Database.{Note_clash, err, Result-cases, Note, Env, ok, Result, Store, Prisma}

module _ {B : Type 0} (db : Prisma) (sanitize : String → String) (hmac : String → String → String)
    (pepper : Option String) (bucket : Bucket B) where
  -- Of a call that answered, a new row whose file the bucket holds; of one that threw, nothing.
  abbrev pub Whole : Store × B → (Store × B) × Result PublicNoteRecord → Type 0
  Whole (s, b) ((s', b'), ok r) =
      (n : Note) × (path : String) × (r ≡ public_note n)
      × (s'.notes ≡ s.notes ++ n ∷ [])
      × (n.storage_path ≡ some path)
      × (bucket.holds path b' ≡ true)
  Whole (s, b) ((s', b'), err e) =
      (s' ≡ s) × ((path : String) → bucket.holds path b' ≡ bucket.holds path b)

  undone :
      (path : String) (b b1 b2 : B) (u : Unit {0})
      → (bucket.holds path b ≡ false)
      → ((other : String)
          → str_eq other path ≡ false
          → bucket.holds other b1 ≡ bucket.holds other b)
      → bucket.delete_file path b1 ≡ (b2, ok u)
      → (other : String) → bucket.holds other b2 ≡ bucket.holds other b
  undone path b b1 b2 u clear same gone other = elim (Bool-cases (str_eq other path)) [
    | inl e ↦
        let here = (eq_iff other path).0 e in
        subst (λ p. bucket.holds p b2 ≡ bucket.holds p b) (sym here)
          ((bucket.delete_ok path b1 b2 u gone).0 ∙ sym clear)
    | inr e ↦ (bucket.delete_ok path b1 b2 u gone).1 other e ∙ same other e
  ]

  module _
      (deletes : (path : String) (b : B)
        → (b' : B) × (bucket.delete_file path b ≡ (b', ok tt))) where
    kept_drawing :
        (env : Env) (x : String) (style : NoteStyle) (who : RequestFingerprint) (s : Store)
        (f : UploadedFile) (b : B) (r : B × Result StoredFile)
        → bucket.upload_drawing f b ≡ r
        → Whole (s, b) (keep_drawing db sanitize hmac pepper bucket env x style who s r)
    kept_drawing env x style who s f b (b1, err e) h = (refl, bucket.upload_err f b b1 e h)
    kept_drawing env x style who s f b (b1, ok stored) h =
        let n = drawing_note db sanitize hmac pepper env x stored style who in
        let (clear, there, same) = bucket.upload_ok f b b1 stored h in
        elim (Bool-cases (any (Note_clash n) s.notes)) [
          | inl e ↦
              let (b2, gone) = deletes stored.storage_path b1 in
              rw (db.note.create_clash n s.notes e, gone)
                (refl, undone stored.storage_path b b1 b2 tt clear same gone)
          | inr e ↦
              rw (db.note.create_new n s.notes e) (n, stored.storage_path, refl, refl, refl, there)
        ]

    -- Where the bucket can delete what it holds, a drawing that is answered has its row and its
    -- file, and one that is refused, or whose row the database refuses after the upload, leaves
    -- the tables and the bucket as they were: no file without a row.
    pub no_orphan :
        (env : Env) (name : String) (file : Option UploadedFile) (style : NoteStyle)
        (who : RequestFingerprint) (s : Store) (b : B)
        → Whole
            (s, b)
            (create_drawing_note db sanitize hmac pepper bucket env name file style who (s, b))
    unfolding create_drawing_note
    no_orphan env name file style who s b =
        elim (Result-cases (sanitize_required_text db sanitize hmac pepper name 14)) [
          | inr (e, p) ↦ rw p (refl, λ path. refl)
          | inl (x, p) ↦ elim (Result-cases (validate_drawing_file file)) [
            | inr (e, q) ↦ rw (p, q) (refl, λ path. refl)
            | inl (f, q) ↦
                rw (p, q) (kept_drawing env x style who s f b (bucket.upload_drawing f b) refl)
          ]
        ]
