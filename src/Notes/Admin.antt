-- ===== src/Notes/Admin.antt =====
-- modules/admin/admin-notes.service.ts and the repository's calls that it makes: the moderation.
use kori_backend.Site.{page_count, safe_page, Page}
use kori_backend.Notes.Drawings.{Bucket}
use kori_backend.Notes.{approved_status, public_note, PublicNoteRecord}
use kori_backend.Prelude.{
  ◌*◌, ◌-◌, map, ◌||◌, not, none, max, ◌&&◌, truthy, true, str_eq, some, false, List, Bool, ℕ,
  String, Option,
}
use kori_backend.Database.{
  http, pending, ok, err, approved, Store, Result, NoteStatus, M, Prisma, NoteType, Note,
}

-- `adminNoteSelect`.
pub record AdminNoteRecord : Type 0 where
  pub note : PublicNoteRecord
  pub status : NoteStatus
  pub storage_path : Option String

abbrev pub admin_note : Note → AdminNoteRecord
admin_note n = record { note = public_note n; status = n.status; storage_path = n.storage_path }

pub record AdminNotesQuery : Type 0 where
  pub type : Option NoteType
  pub status : Option NoteStatus
  pub search : Option String
  pub page : ℕ
  pub limit : ℕ

pub record NotesStats : Type 0 where
  pub total : ℕ
  pub total_text : ℕ
  pub total_drawing : ℕ
  pub total_pending : ℕ

abbrev pub is_text : NoteType → Bool
is_text NoteType.text = true
is_text NoteType.drawing = false

abbrev same_type : Option NoteType → NoteType → Bool
same_type none u = true
same_type (some NoteType.text) u = is_text u
same_type (some NoteType.drawing) u = not (is_text u)

abbrev same_status : Option NoteStatus → NoteStatus → Bool
same_status none u = true
same_status (some NoteStatus.approved) u = approved_status u
same_status (some NoteStatus.pending) u = not (approved_status u)

abbrev pub note_has_id : String → Note → Bool
note_has_id id n = str_eq n.id id

-- `contains` is the database's search that does not mind case.
module _ (db : Prisma) (sanitize : String → String) (contains : String → String → Bool) where
  abbrev found_in : String → Option String → Bool
  found_in search none = false
  found_in search (some body) = contains body search

  abbrev matches : Option String → Note → Bool
  matches none n = true
  matches (some search) n = contains n.recipient_name search || found_in search n.message

  -- `buildAdminWhere`.
  abbrev pub build_admin_where : Option NoteType → Option NoteStatus → Option String → Note → Bool
  build_admin_where type status search n =
      same_type type n.type && same_status status n.status && matches search n

  abbrev cleaned : Option String → Option String
  cleaned none = none
  cleaned (some search) = truthy (some (sanitize search))

  -- `findNotes`, through `findAdminNotes`.
  unfoldable pub find_notes : AdminNotesQuery → Store → Page AdminNoteRecord
  find_notes query s =
      let n = max query.limit 1 in
      let shown = build_admin_where query.type query.status (cleaned (truthy query.search)) in
      let total = db.note.count shown s.notes in
      record {
        data_rows = map admin_note (
            db.note.find_page shown (λ r. r.created_at) ((safe_page query.page - 1) * n) n s.notes);
        page = safe_page query.page;
        limit = n;
        total = total;
        total_pages = page_count total n;
      }

  -- `getStats`.
  unfoldable pub get_stats : Store → NotesStats
  get_stats s = record {
    total = db.note.count (λ r. true) s.notes;
    total_text = db.note.count (λ r. is_text r.type) s.notes;
    total_drawing = db.note.count (λ r. not (is_text r.type)) s.notes;
    total_pending = db.note.count (λ r. not (approved_status r.status)) s.notes;
  }

abbrev pub set_status : NoteStatus → Note → Note
set_status status n = record n { status = status }

module _ (db : Prisma) where
  -- `assertNoteExists`.
  abbrev pub with_note : {S A : Type 0} → S → Option Note → (Note → S × Result A) → S × Result A
  with_note w none next = (w, err (http 404))
  with_note w (some n) next = next n

  abbrev pub find_note : String → Store → Option Note
  find_note id s = db.note.find_first (note_has_id id) s.notes

  -- `findNoteById` of the panel.
  unfoldable pub find_note_by_id : String → M AdminNoteRecord
  find_note_by_id id s = with_note s (find_note id s) (λ n. (s, ok (admin_note n)))

  abbrev pub kept_notes : Store → Result (List Note) → Store × Result (Unit {0})
  kept_notes s (ok t) = (record s { notes = t }, ok tt)
  kept_notes s (err e) = (s, err e)

  -- `setNoteStatus`.
  abbrev pub set_note_status : String → NoteStatus → M (Unit {0})
  set_note_status id status s =
      kept_notes s (db.note.update (note_has_id id) (set_status status) s.notes)

  -- `approveNote` and `rejectNote`; the row that they answer with is left out.
  unfoldable pub approve_note : String → M (Unit {0})
  approve_note id s = with_note s (find_note id s) (λ n. set_note_status id approved s)

  unfoldable pub reject_note : String → M (Unit {0})
  reject_note id s = with_note s (find_note id s) (λ n. set_note_status id pending s)

  abbrev pub delete_row : {B : Type 0} → String → Store → B → (Store × B) × Result (Unit {0})
  delete_row id s b =
      let (t, r) = kept_notes s (db.note.delete (note_has_id id) s.notes) in ((t, b), r)

  module _ {B : Type 0} (bucket : Bucket B) where
    abbrev pub after_file : String → Store → B × Result (Unit {0}) → (Store × B) × Result (Unit {0})
    after_file id s (b, ok u) = delete_row id s b
    after_file id s (b, err e) = ((s, b), err e)

    abbrev pub delete_found : String → Store → B → Option String → (Store × B) × Result (Unit {0})
    delete_found id s b none = delete_row id s b
    delete_found id s b (some path) = after_file id s (bucket.delete_file path b)

    -- `deleteNote`: the drawing goes first, and its failure keeps the row.
    unfoldable pub delete_note : String → Store × B → (Store × B) × Result (Unit {0})
    delete_note id (s, b) =
        with_note (s, b) (find_note id s) (λ n. delete_found id s b (truthy n.storage_path))
