-- ===== src/Tests/Tables.antt =====
-- A client that keeps each table as a list: the laws of `Delegate` can be met.
use mathlib.Core.Path.{subst}
use kori_backend.Database.{
  larger, Note_clash, ContactMessage_clash, SignalSignup_clash, AppSetting_clash,
  RefreshToken_clash, User_clash, ProductImage_clash, Product_clash, not_found,
  PurchaseAccessToken_clash, unique_violation, ProductVariant_clash, ok, err, Subscriber_clash,
  WebhookEvent_clash, DownloadGrant_clash, Result, OutboxJob_clash, Order_clash, Delegate, Prisma,
}
use kori_backend.Prelude.{
  mem-drop, mem_sort, sort, count_where-none, ◌∙◌, ap, map_mem, ◌==◌, ◌&&◌, sum_where, map,
  mem-take, drop, append_new, discard, ◌++◌, sym, inr, count_where, update_where, refl, inl,
  length-take, false, [], Bool-cases, ◌∷◌, suc, arith, any, true, take, some, none, if◌then◌else◌,
  ◌≡◌, keep, Option, Memᴰ, List, ℕ, Bool,
}

module _ {R : Type 0} where
  abbrev pub first_where : (R → Bool) → List R → Option R
  first_where p [] = none
  first_where p (r ∷ t) = if p r then some r else first_where p t

  pub first_where-some :
      (p : R → Bool) (t : List R) (r : R) → first_where p t ≡ some r → Memᴰ r t × (p r ≡ true)
  first_where-some p [] r e = cc
  first_where-some p (x ∷ t) r e = elim (Bool-cases (p x)) [
    | inl h ↦
        let same : x ≡ r = let e' : some x ≡ some r = rw h at e in cc in
        (Memᴰ.head (sym same), subst (λ y. p y ≡ true) same h)
    | inr h ↦ let (m, q) = first_where-some p t r (rw h at e) in (Memᴰ.tail m, q)
  ]

  pub first_where-none : (p : R → Bool) (t : List R) → first_where p t ≡ none → any p t ≡ false
  first_where-none p [] e = refl
  first_where-none p (x ∷ t) e = ground (arith, first_where-none p t)

  keep-mem_step :
      (p : R → Bool) (t : List R) (x r : R)
      → p x ≡ true
      → (Memᴰ r (keep p t) → Memᴰ r t × (p r ≡ true))
      → Memᴰ r (x ∷ keep p t)
      → Memᴰ r (x ∷ t) × (p r ≡ true)
  keep-mem_step p t x r h ih (Memᴰ.head e) = (Memᴰ.head e, rw e h)
  keep-mem_step p t x r h ih (Memᴰ.tail m) = let (m', q) = ih m in (Memᴰ.tail m', q)

  pub keep-mem : (p : R → Bool) (t : List R) (r : R) → Memᴰ r (keep p t) → Memᴰ r t × (p r ≡ true)
  keep-mem p [] r m = elim m [ ]
  keep-mem p (x ∷ t) r m = elim (Bool-cases (p x)) [
    | inl h ↦ keep-mem_step p t x r h (keep-mem p t r) (rw h at m)
    | inr h ↦ let (m', q) = keep-mem p t r (rw h at m) in (Memᴰ.tail m', q)
  ]

  pub mem-keep : (p : R → Bool) (t : List R) (r : R) → Memᴰ r t → p r ≡ true → Memᴰ r (keep p t)
  mem-keep p [] r m h = elim m [ ]
  mem-keep p (x ∷ t) r (Memᴰ.head e) h = rw (← e) (rw h (Memᴰ.head refl))
  mem-keep p (x ∷ t) r (Memᴰ.tail m) h = elim (Bool-cases (p x)) [
    | inl q ↦ rw q (Memᴰ.tail (mem-keep p t r m h))
    | inr q ↦ rw q (mem-keep p t r m h)
  ]

  pub take-keep-none :
      (p : R → Bool) (n : ℕ) (t : List R) → take (suc n) (keep p t) ≡ [] → any p t ≡ false
  take-keep-none p n [] e = refl
  take-keep-none p n (x ∷ t) e = elim (Bool-cases (p x)) [
    | inl h ↦ let bad = (rw h at e) in cc
    | inr h ↦ rw h (take-keep-none p n t (rw h at e))
  ]

  any-map :
      {C : Type 0} (q : C → Bool) (f : R → C) (xs : List R)
      → any q (map f xs) ≡ any (λ r. q (f r)) xs
  any-map q f [] = refl
  any-map q f (x ∷ xs) = rw (any-map q f xs) refl

  any-keep : (p q : R → Bool) (xs : List R) → any q (keep p xs) ≡ any (λ r. p r && q r) xs
  any-keep p q [] = refl
  any-keep p q (x ∷ xs) = ground (arith, any-keep p q xs)

  abbrev list_groups : (R → ℕ) → (R → Bool) → List R → List (ℕ × ℕ)
  list_groups key p t = map (λ r. (key r, count_where (λ x. p x && key x == key r) t)) (keep p t)

  pub list_groups-mem :
      (key : R → ℕ) (p : R → Bool) (t : List R) (k n : ℕ)
      → Memᴰ (k, n) (list_groups key p t)
      → n ≡ count_where (λ r. p r && key r == k) t
  list_groups-mem key p t k n m =
      let (r, here, e) =
        map_mem (λ r. (key r, count_where (λ x. p x && key x == key r) t)) (keep p t) (k, n) m in
      ap (λ (g : ℕ × ℕ). g.1) e
      ∙ ap (λ j. count_where (λ x. p x && key x == j) t) (sym (ap (λ (g : ℕ × ℕ). g.0) e))

  pub list_groups-none :
      (key : R → ℕ) (p : R → Bool) (t : List R) (k : ℕ)
      → any (λ (g : ℕ × ℕ). g.0 == k) (list_groups key p t) ≡ false
      → count_where (λ r. p r && key r == k) t ≡ 0
  list_groups-none key p t k h =
      let none_of =
        sym (any-keep p (λ r. key r == k) t)
        ∙ sym (
            any-map (λ (g : ℕ × ℕ). g.0 == k)
              (λ r. (key r, count_where (λ x. p x && key x == key r) t)) (keep p t))
        ∙ h in
      count_where-none (λ r. p r && key r == k) t none_of

  abbrev list_page : (R → Bool) → (R → ℕ) → ℕ → ℕ → List R → List R
  list_page p key skip n t = take n (drop skip (sort (larger key) (keep p t)))

  pub list_page-mem :
      (p : R → Bool) (key : R → ℕ) (skip n : ℕ) (t : List R) (r : R)
      → Memᴰ r (list_page p key skip n t)
      → Memᴰ r t × (p r ≡ true)
  list_page-mem p key skip n t r m =
      let rows = sort (larger key) (keep p t) in
      keep-mem p t r (
        mem_sort (larger key) (keep p t) r (mem-drop skip rows r (mem-take n (drop skip rows) r m)))

  module _ (clash : R → R → Bool) where
    abbrev list_update : (R → Bool) → (R → R) → List R → Result (List R)
    list_update p f t = if any p t then ok (update_where p f t) else err not_found

    pub list_update-ok :
        (p : R → Bool) (f : R → R) (t t' : List R)
        → list_update p f t ≡ ok t'
        → t' ≡ update_where p f t
    list_update-ok p f t t' e = ground arith

    abbrev list_create : R → List R → Result (List R)
    list_create r t = if any (clash r) t then err unique_violation else ok (t ++ r ∷ [])

    abbrev list_upsert : (R → Bool) → R → (R → R) → List R → Result (List R)
    list_upsert p r f t = if any p t then list_update p f t else list_create r t

    abbrev list_delete : (R → Bool) → List R → Result (List R)
    list_delete p t = if any p t then ok (discard p t) else err not_found

    abbrev pub list_delegate : Delegate R clash
    list_delegate = record {
      find_first = first_where;
      find_first_some = first_where-some;
      find_first_none = first_where-none;
      find_all = keep;
      find_all_mem = keep-mem;
      mem_find_all = mem-keep;
      find_many = λ p key n t. take n (keep p t);
      find_many_length = λ p key n t. omega (arith, length-take n (keep p t));
      find_many_mem = λ p key n t r m. keep-mem p t r (mem-take n (keep p t) r m);
      find_many_none = λ p key n t e. take-keep-none p n t e;
      update_many = λ p f t. (update_where p f t, count_where p t);
      update_many_lem = λ p f t k. refl;
      update = list_update;
      update_ok = list_update-ok;
      update_missing = λ p f t e. rw e;
      update_lem = λ p f t e k. rw e;
      delete = list_delete;
      delete_lem = λ p t e. rw e;
      delete_missing = λ p t e. rw e;
      delete_many = λ p t. (discard p t, count_where p t);
      delete_many_lem = λ p t. refl;
      upsert = list_upsert;
      upsert_old = λ p r f t e k. rw e;
      upsert_new = λ p r f t e k. rw (e, k);
      find_page = list_page;
      find_page_length =
          λ p key skip n t. omega (arith, length-take n (drop skip (sort (larger key) (keep p t))));
      find_page_mem = list_page-mem;
      find_page_lem = λ p key skip n t u. refl;
      create = list_create;
      create_new = λ r t e. rw e;
      create_clash = λ r t e. rw e;
      create_many = append_new clash;
      create_many_lem = λ rs t. refl;
      count = count_where;
      count_lem = λ p t. refl;
      sum = sum_where;
      sum_lem = λ p f t. refl;
      group_count = list_groups;
      group_count_mem = list_groups-mem;
      group_count_none = list_groups-none;
    }

abbrev pub list_client : Prisma
list_client = record {
  order = list_delegate Order_clash;
  outbox_job = list_delegate OutboxJob_clash;
  download_grant = list_delegate DownloadGrant_clash;
  webhook_event = list_delegate WebhookEvent_clash;
  subscriber = list_delegate Subscriber_clash;
  app_setting = list_delegate AppSetting_clash;
  signal_signup = list_delegate SignalSignup_clash;
  contact_message = list_delegate ContactMessage_clash;
  note = list_delegate Note_clash;
  product = list_delegate Product_clash;
  product_variant = list_delegate ProductVariant_clash;
  product_image = list_delegate ProductImage_clash;
  user = list_delegate User_clash;
  refresh_token = list_delegate RefreshToken_clash;
  purchase_access_token = list_delegate PurchaseAccessToken_clash;
}
