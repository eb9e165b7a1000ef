-- ===== src/Site/Pages.antt =====
-- The pages of the panel's lists, one after the other.
use kori_backend.Site.Contact.{contact_record, find_messages}
use kori_backend.Site.Signal.{signup_record, find_signups}
use kori_backend.Site.Subscribers.{subscriber_record, find_subscribers}
use native.Mathlib.Nat.{lt-div-mul-add}
use kori_backend.Database.{larger, Store, Delegate, Prisma}
use mathlib.Core.Path.{subst}
use kori_backend.Site.{safe_limit, safe_page, page_count}
use kori_backend.Prelude.{
  mem-sort, length-sort, ◌==◌, sort, keep, IsDistinct, length-map, count_where, Memᴰ, Option, ◌∙◌,
  String, true, map, Bool, sym, refl, ◌-◌, zero, arith, ap, ◌∷◌, ◌++◌, ◌*◌, max, ◌≡◌, ◌+◌, suc,
  drop, ◌≤◌, take, length, [], ℕ, List,
}

module _ {ℓ} {A : Type ℓ} where
  take-nil : (n : ℕ) → ◌≡◌ {A = List A} (take n []) []
  take-nil zero = refl
  take-nil (suc n) = refl

  take-split : (n a b : ℕ) (xs : List A) → n ≡ a + b → take n xs ≡ take a xs ++ take b (drop a xs)
  take-split n zero b xs e = ap (λ m. take m xs) (omega arith)
  take-split n (suc a) b [] e = rw (take-nil n, take-nil b) refl
  take-split zero (suc a) b (x ∷ xs) e = absurd (omega arith)
  take-split (suc n) (suc a) b (x ∷ xs) e = ap (λ t. x ∷ t) (take-split n a b xs (omega arith))

  take-all : (n : ℕ) (xs : List A) → length xs ≤ n → take n xs ≡ xs
  take-all zero [] h = refl
  take-all zero (x ∷ xs) h = absurd (omega arith)
  take-all (suc n) [] h = refl
  take-all (suc n) (x ∷ xs) h = ap (λ t. x ∷ t) (take-all n xs (omega arith))

  -- The pages from the first to the n-th.
  abbrev pub gather : (ℕ → List A) → ℕ → List A
  gather f zero = []
  gather f (suc n) = gather f n ++ f (suc n)

  gather-take :
      (xs : List A) (k n : ℕ)
      → gather (λ i. take k (drop ((max i 1 - 1) * k) xs)) n ≡ take (n * k) xs
  gather-take xs k zero =
      let none : 0 ≡ 0 * k = omega arith in subst (λ m. [] ≡ take m xs) none refl
  gather-take xs k (suc n) =
      let here : (max (suc n) 1 - 1) * k ≡ n * k = ap (λ m. m * k) (omega arith) in
      let more : suc n * k ≡ n * k + k = omega arith in
      rw (gather-take xs k n, here) (sym (take-split (suc n * k) (n * k) k xs more))

page_count-enough : (total k : ℕ) → 1 ≤ k → total ≤ page_count total k * k
page_count-enough total k h =
    let bound = lt-div-mul-add {a = total + (k - 1)} {b = k} h in omega arith

module _ {A : Type 0} where
  gather-same : (g h : ℕ → List A) (n : ℕ) → ((i : ℕ) → g i ≡ h i) → gather g n ≡ gather h n
  gather-same g h zero e = refl
  gather-same g h (suc n) e = rw (gather-same g h n e, e (suc n)) refl

keep-all : {R : Type 0} → (t : List R) → keep (λ r. true) t ≡ t
keep-all [] = refl
keep-all (r ∷ t) = ap (λ rs. r ∷ rs) (keep-all t)

count_where-all : {R : Type 0} → (t : List R) → count_where (λ r. true) t ≡ length t
count_where-all [] = refl
count_where-all (r ∷ t) = ap suc (count_where-all t)

module _ {A B : Type 0} where
  mem_map : (f : A → B) (xs : List A) (x : A) → Memᴰ x xs → Memᴰ (f x) (map f xs)
  mem_map f [] x m = elim m [ ]
  mem_map f (y ∷ xs) x (Memᴰ.head e) = Memᴰ.head (ap f e)
  mem_map f (y ∷ xs) x (Memᴰ.tail m) = Memᴰ.tail (mem_map f xs x m)

  map-append_both : (f : A → B) (xs ys : List A) → map f (xs ++ ys) ≡ map f xs ++ map f ys
  map-append_both f [] ys = refl
  map-append_both f (x ∷ xs) ys = ap (λ t. f x ∷ t) (map-append_both f xs ys)

  gather-map :
      (f : A → B) (g : ℕ → List A) (n : ℕ) → gather (λ i. map f (g i)) n ≡ map f (gather g n)
  gather-map f g zero = refl
  gather-map f g (suc n) = rw (gather-map f g n) (sym (map-append_both f (gather g n) (g (suc n))))

-- No two rows were made at the same time.
abbrev pub IsTimed : {R : Type 0} → (R → ℕ) → List R → Type 0
IsTimed key = IsDistinct (λ a b. key a == key b)

-- The pages are the rows of the table from the newest to the oldest, each row of the table is on
-- one, and there are as many of them as rows.
abbrev pub Complete : {R A : Type 0} → (R → A) → (R → ℕ) → List A → List R → Type 0
Complete {R} f key pages t =
    (pages ≡ map f (sort (larger key) t))
    × ((r : R) → Memᴰ r t → Memᴰ (f r) pages)
    × (length pages ≡ length t)

module _ {R A : Type 0} {clash : R → R → Bool} (d : Delegate R clash) (f : R → A)
    (key : R → ℕ) where
  -- The pages of one query, from the first to the last that its count announces.
  abbrev pages_of : ℕ → List R → List A
  pages_of limit t =
      gather
        (λ i.
          map f (
            d.find_page (λ r. true) key ((safe_page i - 1) * safe_limit limit) (safe_limit limit)
              t))
        (page_count (d.count (λ r. true) t) (safe_limit limit))

  pages-whole :
      (limit : ℕ) (t : List R) → IsTimed key t → pages_of limit t ≡ map f (sort (larger key) t)
  pages-whole limit t timed =
      let k = safe_limit limit in
      let rows = sort (larger key) t in
      let n = page_count (d.count (λ r. true) t) k in
      let every = keep-all t in
      let size =
        length-sort (larger key) t ∙ sym (count_where-all t) ∙ sym (d.count_lem (λ r. true) t) in
      let enough = page_count-enough (d.count (λ r. true) t) k (omega arith) in
      let distinct = subst (IsTimed key) (sym every) timed in
      gather-map f (λ i. d.find_page (λ r. true) key ((safe_page i - 1) * k) k t) n
      ∙ ap (map f) (
          gather-same (λ i. d.find_page (λ r. true) key ((safe_page i - 1) * k) k t)
            (λ i. take k (drop ((max i 1 - 1) * k) rows)) n
            (λ i.
              d.find_page_lem (λ r. true) key ((safe_page i - 1) * k) k t distinct
              ∙ ap (λ rs. take k (drop ((max i 1 - 1) * k) (sort (larger key) rs))) every)
          ∙ gather-take rows k n
          ∙ take-all (n * k) rows (omega arith))

  pages-Complete : (limit : ℕ) (t : List R) → IsTimed key t → Complete f key (pages_of limit t) t
  pages-Complete limit t timed =
      let whole = pages-whole limit t timed in
      let rows = sort (larger key) t in
      (
        whole,
        λ r m.
            subst (λ p. Memᴰ (f r) p) (sym whole) (mem_map f rows r (mem-sort (larger key) r t m)),
        ap length whole ∙ length-map rows f ∙ length-sort (larger key) t,
      )

module _ (db : Prisma) (hmac : String → String → String) (pepper : Option String) where
  -- Where no two rows of a table were made at the same time, the pages that the panel reads of the
  -- subscribers, of the signups and of the messages, from the first to the last that the answer
  -- announces, are the rows of the table from the newest to the oldest, every row and as many as
  -- there are rows, whatever page size is asked for.
  pub panel_pages-Complete :
      (page limit : ℕ) (s : Store)
      → IsTimed (λ r. r.created_at) s.subscribers
      → IsTimed (λ r. r.created_at) s.signups
      → IsTimed (λ r. r.created_at) s.contact_messages
      → Complete subscriber_record
          (λ r. r.created_at)
          (gather
            (λ i. (find_subscribers db hmac pepper i limit s).data_rows)
            (find_subscribers db hmac pepper page limit s).total_pages)
          s.subscribers
        × Complete signup_record
            (λ r. r.created_at)
            (gather
              (λ i. (find_signups db hmac pepper i limit s).0.data_rows)
              (find_signups db hmac pepper page limit s).0.total_pages)
            s.signups
        × Complete contact_record
            (λ r. r.created_at)
            (gather
              (λ i. (find_messages db hmac pepper i limit s).data_rows)
              (find_messages db hmac pepper page limit s).total_pages)
            s.contact_messages
  unfolding find_subscribers find_signups find_messages
  panel_pages-Complete page limit s subscribers signups messages = (
    pages-Complete db.subscriber subscriber_record (λ r. r.created_at) limit s.subscribers
        subscribers,
    pages-Complete db.signal_signup signup_record (λ r. r.created_at) limit s.signups signups,
    pages-Complete db.contact_message contact_record (λ r. r.created_at) limit s.contact_messages
        messages,
  )
