-- ===== src/Notes/Moderation.antt =====
-- What any sequence of calls lets onto the public wall.
use mathlib.Core.Path.{subst}
use kori_backend.Notes.Drawings.{Bucket}
use kori_backend.Notes.{public_note, PublicNoteRecord, find_public_notes, is_approved}
use kori_backend.Notes.Admin.{set_status, note_has_id}
use kori_backend.Database.{Store, Prisma, approved, pending, Note, NoteStatus}
use kori_backend.Notes.Kept.{
  call_notes-After, call_notes, IsWithin, deleted_note, drew, wrote, rejected_note, After, Added,
  approved_note, NoteCall,
}
use kori_backend.Prelude.{
  eq_iff, any-of_mem, length-map, map_mem, max, min, Memᴰ, ◌≤◌, length, ℕ, All-discard,
  All-update_where, All-append, Option, str_eq_trans, str_eq-right, All, refl, arith,
  any-discard_back, any-append, All-after_update, ◌∙◌, inr, any-false, sym, any-update_mem,
  Bool-cases, ap, update_where, not, inl, ◌&&◌, true, false, ◌≡◌, ◌||◌, str_eq, any, [], ◌∷◌, List,
  Bool, String,
}

-- Whether the last word of the moderation on an identifier was its approval.
abbrev pub decided : String → NoteCall → Bool → Bool
decided id (approved_note x) before = str_eq x id || before
decided id (rejected_note x) before = not (str_eq x id) && before
decided id (wrote env name message style who) before = before
decided id (drew env name file style who) before = before
decided id (deleted_note x) before = before

abbrev pub verdict : String → Bool → List NoteCall → Bool
verdict id before [] = before
verdict id before (c ∷ cs) = verdict id (decided id c before) cs

abbrev pub stands_approved : String → List Note → Bool
stands_approved id t = any (λ (n : Note). note_has_id id n && is_approved n) t

-- A change of status reaches the approved rows of no other identifier.
apart :
    (id x : String) (status : NoteStatus) (t : List Note)
    → str_eq x id ≡ false
    → stands_approved id (update_where (note_has_id x) (set_status status) t) ≡ stands_approved id t
apart id x status t h =
    any-update_mem (λ (n : Note). note_has_id id n && is_approved n) (note_has_id x)
      (set_status status) t
      (λ n m k. let other = sym (str_eq_trans n.id x id k) ∙ h in rw other refl)

sent_back :
    (id x : String) (t : List Note)
    → str_eq x id ≡ true
    → stands_approved id (update_where (note_has_id x) (set_status pending) t) ≡ false
sent_back id x t h =
    any-false (λ (n : Note). note_has_id id n && is_approved n)
      (update_where (note_has_id x) (set_status pending) t)
      (All-after_update (λ n. (note_has_id id n && is_approved n) ≡ false) (note_has_id x)
        (set_status pending) t (λ n k. ground arith)
        (λ n k. let other = sym (str_eq-right n.id x id h) ∙ k in rw other refl))

added :
    (id : String) (t t' : List Note)
    → Added t t'
    → stands_approved id t' ≡ true
    → stands_approved id t ≡ true
added id t t' (inl h) k = ap (stands_approved id) (sym h) ∙ k
added id t t' (inr (n, h, waits, within)) k =
    let q = λ (n : Note). note_has_id id n && is_approved n in
    let all = sym (any-append q t (n ∷ [])) ∙ ap (stands_approved id) (sym h) ∙ k in ground arith

step :
    (id : String) (c : NoteCall) (t t' : List Note)
    → After c t t'
    → stands_approved id t' ≡ true
    → decided id c (stands_approved id t) ≡ true
step id (wrote env name message style who) t t' h k = added id t t' h k
step id (drew env name file style who) t t' h k = added id t t' h k
step id (approved_note x) t t' h k = elim (Bool-cases (str_eq x id)) [
  | inl e ↦ rw e refl
  | inr e ↦ rw e (sym (apart id x approved t e) ∙ ap (stands_approved id) (sym h) ∙ k)
]
step id (rejected_note x) t t' h k = elim (Bool-cases (str_eq x id)) [
  | inl e ↦ let bad = ap (stands_approved id) h ∙ sent_back id x t e in cc
  | inr e ↦ rw e (sym (apart id x pending t e) ∙ ap (stands_approved id) (sym h) ∙ k)
]
step id (deleted_note x) t t' (inl h) k = ap (stands_approved id) (sym h) ∙ k
step id (deleted_note x) t t' (inr h) k =
    any-discard_back (λ (n : Note). note_has_id id n && is_approved n) (note_has_id x) t
      (ap (stands_approved id) (sym h) ∙ k)

mono :
    (id : String) (c : NoteCall) (a b : Bool)
    → (a ≡ true → b ≡ true)
    → decided id c a ≡ true
    → decided id c b ≡ true
mono id (wrote env name message style who) a b h k = h k
mono id (drew env name file style who) a b h k = h k
mono id (approved_note x) a b h k = ground arith
mono id (rejected_note x) a b h k = ground arith
mono id (deleted_note x) a b h k = h k

Added-IsWithin : (t t' : List Note) → Added t t' → All IsWithin t → All IsWithin t'
Added-IsWithin t t' (inl h) u = subst (All IsWithin) (sym h) u
Added-IsWithin t t' (inr (n, h, waits, within)) u =
    subst (All IsWithin) (sym h) (All-append IsWithin t (n ∷ []) u (within, tt))

-- The bounds of the texts outlive every change of the table.
step-IsWithin : (c : NoteCall) (t t' : List Note) → After c t t' → All IsWithin t → All IsWithin t'
step-IsWithin (wrote env name message style who) t t' h u = Added-IsWithin t t' h u
step-IsWithin (drew env name file style who) t t' h u = Added-IsWithin t t' h u
step-IsWithin (approved_note x) t t' h u =
    subst (All IsWithin) (sym h)
      (All-update_where IsWithin (note_has_id x) (set_status approved) t (λ n k e. k) u)
step-IsWithin (rejected_note x) t t' h u =
    subst (All IsWithin) (sym h)
      (All-update_where IsWithin (note_has_id x) (set_status pending) t (λ n k e. k) u)
step-IsWithin (deleted_note x) t t' (inl h) u = subst (All IsWithin) (sym h) u
step-IsWithin (deleted_note x) t t' (inr h) u =
    subst (All IsWithin) (sym h) (All-discard IsWithin (note_has_id x) t u)

module _ {B : Type 0} (db : Prisma) (sanitize : String → String) (hmac : String → String → String)
    (pepper : Option String) (bucket : Bucket B) where
  abbrev pub run_notes : List NoteCall → Store × B → Store × B
  run_notes [] w = w
  run_notes (c ∷ cs) w = run_notes cs (call_notes db sanitize hmac pepper bucket c w)

  run_notes-verdict :
      (id : String) (cs : List NoteCall) (w : Store × B) (before : Bool)
      → (stands_approved id w.0.notes ≡ true → before ≡ true)
      → stands_approved id (run_notes cs w).0.notes ≡ true
      → verdict id before cs ≡ true
  run_notes-verdict id [] w before h k = h k
  run_notes-verdict id (c ∷ cs) w before h k =
      run_notes-verdict id cs (call_notes db sanitize hmac pepper bucket c w) (decided id c before)
        (λ q. mono id c (stands_approved id w.0.notes) before h (
          step id c w.0.notes (call_notes db sanitize hmac pepper bucket c w).0.notes
            (call_notes-After db sanitize hmac pepper bucket c w.0 w.1) q))
        k

  -- From a table in which they are so, the texts of every note stay within their bounds, and none
  -- is empty, through any sequence of calls.
  pub run_notes-IsWithin :
      (cs : List NoteCall) (w : Store × B)
      → All IsWithin w.0.notes
      → All IsWithin (run_notes cs w).0.notes
  run_notes-IsWithin [] w h = h
  run_notes-IsWithin (c ∷ cs) w h =
      run_notes-IsWithin cs (call_notes db sanitize hmac pepper bucket c w) (
        step-IsWithin c w.0.notes (call_notes db sanitize hmac pepper bucket c w).0.notes
          (call_notes-After db sanitize hmac pepper bucket c w.0 w.1) h)

  -- After any sequence of calls of visitors and of the panel, the public wall shows at most 200
  -- notes, and each of them is one whose identifier the moderation approved, with no rejection
  -- since: in the sequence, or before it. What a visitor writes or draws waits to be approved.
  pub wall_is_moderated :
      (cs : List NoteCall) (w : Store × B) (limit : ℕ)
      → let wall = find_public_notes db sanitize hmac pepper limit (run_notes cs w).0 in
        (length wall ≤ 200)
        × ((r : PublicNoteRecord)
            → Memᴰ r wall
            → verdict r.id (stands_approved r.id w.0.notes) cs ≡ true)
  unfolding find_public_notes
  wall_is_moderated cs w limit =
      let t = (run_notes cs w).0.notes in
      let n = min (max limit 1) 200 in
      let page = db.note.find_page is_approved (λ r. r.created_at) 0 n t in
      let size = db.note.find_page_length is_approved (λ r. r.created_at) 0 n t in
      (
        omega (arith, length-map page public_note),
        λ r m.
            let (note, k, e) = map_mem public_note page r m in
            let (there, shown) =
              db.note.find_page_mem is_approved (λ q. q.created_at) 0 n t note k in
            run_notes-verdict r.id cs w (stands_approved r.id w.0.notes) (λ q. q)
              (any-of_mem (λ (q : Note). note_has_id r.id q && is_approved q) t there
                (subst (λ x. (str_eq note.id x && is_approved note) ≡ true)
                  (ap (λ (x : PublicNoteRecord). x.id) (sym e))
                  (rw ((eq_iff note.id note.id).1 refl) shown))),
      )
