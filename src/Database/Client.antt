-- ===== src/Database/Client.antt =====
-- The calls of a Prisma model delegate, with the behaviour that its documentation gives them.
-- Lost connections are left out.
use kori_backend.Prelude.{
  sort, keep, IsDistinct, leb, sum_where, ◌&&◌, ◌==◌, suc, ℕ, ◌≤◌, ◌≡◌, Bool, true, false, List,
  ◌++◌, [], ◌∷◌, Option, none, some, Memᴰ, any, discard, count_where, update_where, append_new,
  length, take, drop,
}
use kori_backend.Database.Outcome.{Result, ok, err, not_found, unique_violation}

-- A patch after which no two rows agree on a unique column that did not before.
abbrev pub KeepsKeys : {R : Type 0} → (R → R → Bool) → (R → R) → Type 0
KeepsKeys {R} clash f =
    (r s : R)
    → (clash (f r) s ≡ true → clash r s ≡ true) × (clash s (f r) ≡ true → clash s r ≡ true)

-- The order `desc` of a query.
abbrev pub larger : {R : Type 0} → (R → ℕ) → R → R → Bool
larger key a b = leb (key b) (key a)

-- `clash` says that two rows agree on a unique column.
pub record Delegate (R : Type 0) (clash : R → R → Bool) : Type 0 where
  -- findFirst, and findUnique by a unique column: a row that passes the test, if there is one.
  pub find_first : (R → Bool) → List R → Option R
  pub find_first_some :
      (p : R → Bool) (t : List R) (r : R) → find_first p t ≡ some r → Memᴰ r t × (p r ≡ true)
  pub find_first_none : (p : R → Bool) (t : List R) → find_first p t ≡ none → any p t ≡ false
  -- findMany: the rows that pass the test.
  pub find_all : (R → Bool) → List R → List R
  pub find_all_mem :
      (p : R → Bool) (t : List R) (r : R) → Memᴰ r (find_all p t) → Memᴰ r t × (p r ≡ true)
  pub mem_find_all :
      (p : R → Bool) (t : List R) (r : R) → Memᴰ r t → p r ≡ true → Memᴰ r (find_all p t)
  -- findMany with orderBy and take: at most so many of the rows that pass the test.
  pub find_many : (R → Bool) → (R → ℕ) → ℕ → List R → List R
  pub find_many_length :
      (p : R → Bool) (key : R → ℕ) (n : ℕ) (t : List R) → length (find_many p key n t) ≤ n
  pub find_many_mem :
      (p : R → Bool) (key : R → ℕ) (n : ℕ) (t : List R) (r : R)
      → Memᴰ r (find_many p key n t)
      → Memᴰ r t × (p r ≡ true)
  pub find_many_none :
      (p : R → Bool) (key : R → ℕ) (n : ℕ) (t : List R)
      → find_many p key (suc n) t ≡ []
      → any p t ≡ false
  -- updateMany gives the number of rows that it wrote.
  pub update_many : (R → Bool) → (R → R) → List R → List R × ℕ
  pub update_many_lem :
      (p : R → Bool) (f : R → R) (t : List R)
      → KeepsKeys clash f
      → update_many p f t ≡ (update_where p f t, count_where p t)
  -- update by a unique column: P2025 where no row has it, P2002 where the new row clashes.
  pub update : (R → Bool) → (R → R) → List R → Result (List R)
  pub update_ok :
      (p : R → Bool) (f : R → R) (t t' : List R) → update p f t ≡ ok t' → t' ≡ update_where p f t
  pub update_missing :
      (p : R → Bool) (f : R → R) (t : List R) → any p t ≡ false → update p f t ≡ err not_found
  pub update_lem :
      (p : R → Bool) (f : R → R) (t : List R)
      → any p t ≡ true
      → KeepsKeys clash f
      → update p f t ≡ ok (update_where p f t)
  -- delete by a unique column, for a row that no other table's rows hold back.
  pub delete : (R → Bool) → List R → Result (List R)
  pub delete_lem : (p : R → Bool) (t : List R) → any p t ≡ true → delete p t ≡ ok (discard p t)
  pub delete_missing : (p : R → Bool) (t : List R) → any p t ≡ false → delete p t ≡ err not_found
  pub delete_many : (R → Bool) → List R → List R × ℕ
  pub delete_many_lem :
      (p : R → Bool) (t : List R) → delete_many p t ≡ (discard p t, count_where p t)
  pub create : R → List R → Result (List R)
  -- upsert by a unique column: the row is patched where there is one, and else made.
  pub upsert : (R → Bool) → R → (R → R) → List R → Result (List R)
  pub upsert_old :
      (p : R → Bool) (r : R) (f : R → R) (t : List R)
      → any p t ≡ true
      → KeepsKeys clash f
      → upsert p r f t ≡ ok (update_where p f t)
  pub upsert_new :
      (p : R → Bool) (r : R) (f : R → R) (t : List R)
      → any p t ≡ false
      → any (clash r) t ≡ false
      → upsert p r f t ≡ ok (t ++ r ∷ [])
  -- findMany with orderBy, skip and take: rows that pass the test, so many at most; where no two
  -- of these rows have one key, they are a stretch of the rows from the largest key on.
  pub find_page : (R → Bool) → (R → ℕ) → ℕ → ℕ → List R → List R
  pub find_page_length :
      (p : R → Bool) (key : R → ℕ) (skip n : ℕ) (t : List R) → length (find_page p key skip n t) ≤ n
  pub find_page_mem :
      (p : R → Bool) (key : R → ℕ) (skip n : ℕ) (t : List R) (r : R)
      → Memᴰ r (find_page p key skip n t)
      → Memᴰ r t × (p r ≡ true)
  pub find_page_lem :
      (p : R → Bool) (key : R → ℕ) (skip n : ℕ) (t : List R)
      → IsDistinct (λ a b. key a == key b) (keep p t)
      → find_page p key skip n t ≡ take n (drop skip (sort (larger key) (keep p t)))
  pub create_new : (r : R) (t : List R) → any (clash r) t ≡ false → create r t ≡ ok (t ++ r ∷ [])
  pub create_clash :
      (r : R) (t : List R) → any (clash r) t ≡ true → create r t ≡ err unique_violation
  -- createMany with skipDuplicates.
  pub create_many : List R → List R → List R
  pub create_many_lem : (rs t : List R) → create_many rs t ≡ append_new clash rs t
  pub count : (R → Bool) → List R → ℕ
  pub count_lem : (p : R → Bool) (t : List R) → count p t ≡ count_where p t
  -- aggregate with _sum, where no row gives 0.
  pub sum : (R → Bool) → (R → ℕ) → List R → ℕ
  pub sum_lem : (p : R → Bool) (f : R → ℕ) (t : List R) → sum p f t ≡ sum_where p f t
  -- groupBy with _count, for a key that is given as a number: no group is empty.
  pub group_count : (R → ℕ) → (R → Bool) → List R → List (ℕ × ℕ)
  pub group_count_mem :
      (key : R → ℕ) (p : R → Bool) (t : List R) (k n : ℕ)
      → Memᴰ (k, n) (group_count key p t)
      → n ≡ count_where (λ r. p r && key r == k) t
  pub group_count_none :
      (key : R → ℕ) (p : R → Bool) (t : List R) (k : ℕ)
      → any (λ (g : ℕ × ℕ). g.0 == k) (group_count key p t) ≡ false
      → count_where (λ r. p r && key r == k) t ≡ 0
