-- ===== src/Notes.antt =====
-- The wall of notes: modules/notes/notes.service.ts and notes.repository.ts, with the constants of
-- common/constants/note.constants.ts. The bucket that keeps the drawings is an interface, and the
-- random style of a note is an argument.
pub mod Drawings
pub mod Admin
pub mod Kept
pub mod Moderation
pub mod Orphans
pub use Drawings.*
use kori_backend.Site.{hmac_or_null}
use Prim.Native.Char.{code}
use kori_backend.Storage.{same_bytes, UploadedFile}
use kori_backend.Database.{
  pending, http, text, err, drawing, ok, Store, NoteType, M, Env, Result, Prisma, NoteStatus, Note,
}
use kori_backend.Prelude.{
  drop, any, ◌&&◌, not, length, leb, ◌+◌, take, some, max, none, min, false, true, str_eq, map, ltb,
  [], ◌∷◌, ◌*◌, if◌then◌else◌, Bool, ℕ, String, Option, List,
}

abbrev pub max_recipient_name_length : ℕ
max_recipient_name_length = 14

abbrev pub max_message_length : ℕ
max_message_length = 50

abbrev pub max_drawing_file_size_bytes : ℕ
max_drawing_file_size_bytes = 2 * 1024 * 1024

abbrev pub allowed_drawing_mime_types : List String
allowed_drawing_mime_types = "image/png" ∷ "image/jpeg" ∷ "image/webp" ∷ []

abbrev pub public_notes_max_limit : ℕ
public_notes_max_limit = 200

pub record NoteStyle : Type 0 where
  pub color : String
  pub rotation : ℕ
  pub position_x : ℕ
  pub position_y : ℕ
  pub z_index : ℕ

pub record RequestFingerprint : Type 0 where
  pub ip : Option String
  pub user_agent : Option String

-- `publicNoteSelect`.
pub record PublicNoteRecord : Type 0 where
  pub id : String
  pub type : NoteType
  pub recipient_name : String
  pub message : Option String
  pub image_url : Option String
  pub color : Option String
  pub rotation : ℕ
  pub z_index : ℕ
  pub created_at : ℕ

abbrev pub public_note : Note → PublicNoteRecord
public_note n = record {
  id = n.id;
  type = n.type;
  recipient_name = n.recipient_name;
  message = n.message;
  image_url = n.image_url;
  color = n.color;
  rotation = n.rotation;
  z_index = n.z_index;
  created_at = n.created_at;
}

-- `hasValidImageSignature`; the texts `RIFF` and `WEBP` are written as their bytes.
abbrev pub has_valid_image_signature : List ℕ → String → Bool
has_valid_image_signature buffer mime =
    if str_eq mime "image/png"
    then same_bytes (take 8 buffer) (0x89 ∷ 0x50 ∷ 0x4e ∷ 0x47 ∷ 0x0d ∷ 0x0a ∷ 0x1a ∷ 0x0a ∷ [])
    else if str_eq mime "image/jpeg"
    then same_bytes (take 3 buffer) (0xff ∷ 0xd8 ∷ 0xff ∷ [])
    else if str_eq mime "image/webp"
    then leb 12 (length buffer)
      && same_bytes (take 4 buffer) (0x52 ∷ 0x49 ∷ 0x46 ∷ 0x46 ∷ [])
      && same_bytes (take 4 (drop 8 buffer)) (0x57 ∷ 0x45 ∷ 0x42 ∷ 0x50 ∷ [])
    else false

-- `validateDrawingFile`.
unfoldable pub validate_drawing_file : Option UploadedFile → Result UploadedFile
validate_drawing_file none = err (http 400)
validate_drawing_file (some file) =
    if ltb max_drawing_file_size_bytes (length file.buffer)
    then err (http 400)
    else if not (any (str_eq file.mimetype) allowed_drawing_mime_types)
    then err (http 400)
    else if not (has_valid_image_signature file.buffer file.mimetype)
    then err (http 400)
    else ok file

-- The length of a text in JavaScript, whose units are of 16 bits.
abbrev pub text_length : String → ℕ
text_length String.[] = 0
text_length (String.◌∷◌ c s) = (if ltb 0xffff (code c) then 2 else 1) + text_length s

abbrev pub approved_status : NoteStatus → Bool
approved_status NoteStatus.approved = true
approved_status NoteStatus.pending = false

abbrev pub is_approved : Note → Bool
is_approved n = approved_status n.status

-- A text that was refused ends the call before anything is written.
abbrev pub with_text : {S A : Type 0} → S → Result String → (String → S × Result A) → S × Result A
with_text s (ok value) next = next value
with_text s (err e) next = (s, err e)

-- `sanitize` is `sanitizePlainText`, whose HTML library stands outside.
module _ (db : Prisma) (sanitize : String → String) (hmac : String → String → String)
    (pepper : Option String) where
  unfoldable pub sanitize_required_text : String → ℕ → Result String
  sanitize_required_text value max_length =
      if str_eq (sanitize value) ""
      then err (http 400)
      else if ltb max_length (text_length (sanitize value))
      then err (http 400)
      else ok (sanitize value)

  -- The row of `createTextNote`, with the schema's defaults: it waits for the moderation.
  abbrev pub text_note : Env → String → String → NoteStyle → RequestFingerprint → Note
  text_note env recipient_name message style who = record {
    id = env.uuid 0;
    type = text;
    status = pending;
    recipient_name = recipient_name;
    message = some message;
    image_url = none;
    storage_path = none;
    color = some style.color;
    rotation = style.rotation;
    position_x = style.position_x;
    position_y = style.position_y;
    z_index = style.z_index;
    ip_hash = hmac_or_null hmac who.ip pepper;
    user_agent_hash = hmac_or_null hmac who.user_agent pepper;
    created_at = env.now;
  }

  -- The row of `createDrawingNote`.
  abbrev pub drawing_note : Env → String → StoredFile → NoteStyle → RequestFingerprint → Note
  drawing_note env recipient_name stored style who =
      record (text_note env recipient_name "" style who) {
        type = drawing;
        message = none;
        image_url = some stored.image_url;
        storage_path = some stored.storage_path;
        color = none;
      }

  abbrev pub kept_note : Note → Store → Result (List Note) → Store × Result PublicNoteRecord
  kept_note n s (ok t) = (record s { notes = t }, ok (public_note n))
  kept_note n s (err e) = (s, err e)

  abbrev pub insert_note : Note → M PublicNoteRecord
  insert_note n s = kept_note n s (db.note.create n s.notes)

  -- `createTextNote`: the name is looked at before the message.
  unfoldable pub create_text_note :
      Env → String → String → NoteStyle → RequestFingerprint → M PublicNoteRecord
  create_text_note env name message style who s =
      with_text s (sanitize_required_text name max_recipient_name_length) (λ recipient.
        with_text s (sanitize_required_text message max_message_length)
          (λ body. insert_note (text_note env recipient body style who) s))

  -- `findPublicNotes`.
  unfoldable pub find_public_notes : ℕ → Store → List PublicNoteRecord
  find_public_notes limit s = map public_note (
      db.note.find_page is_approved (λ n. n.created_at) 0 (min (max limit 1) public_notes_max_limit)
        s.notes)

  -- What an operation reaches: the tables, the bucket, and how it ends.
  module _ {B : Type 0} (bucket : Bucket B) where
    -- A drawing whose row cannot be kept is taken out of the bucket again; the failure of that
    -- deletion is only logged.
    abbrev pub undo_upload : {A : Type 0} → String → B → Store × Result A → (Store × B) × Result A
    undo_upload path b (s, ok a) = ((s, b), ok a)
    undo_upload path b (s, err e) = ((s, (bucket.delete_file path b).0), err e)

    abbrev pub keep_drawing :
        Env
        → String
        → NoteStyle
        → RequestFingerprint
        → Store
        → B × Result StoredFile
        → (Store × B) × Result PublicNoteRecord
    keep_drawing env recipient style who s (b, ok stored) =
        undo_upload stored.storage_path b
          (insert_note (drawing_note env recipient stored style who) s)
    keep_drawing env recipient style who s (b, err e) = ((s, b), err e)

    abbrev pub with_drawing :
        {A : Type 0}
        → Store × B
        → Result UploadedFile
        → (UploadedFile → (Store × B) × Result A)
        → (Store × B) × Result A
    with_drawing w (ok file) next = next file
    with_drawing w (err e) next = (w, err e)

    -- `createDrawingNote`.
    unfoldable pub create_drawing_note :
        Env
        → String
        → Option UploadedFile
        → NoteStyle
        → RequestFingerprint
        → Store × B
        → (Store × B) × Result PublicNoteRecord
    create_drawing_note env name file style who (s, b) =
        with_text (s, b) (sanitize_required_text name max_recipient_name_length)
          (λ recipient.
            with_drawing (s, b) (validate_drawing_file file)
              (λ f. keep_drawing env recipient style who s (bucket.upload_drawing f b)))
