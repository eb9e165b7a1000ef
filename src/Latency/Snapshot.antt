-- ===== src/Latency/Snapshot.antt =====
-- What the snapshot says of every route.
use mathlib.Core.Path.{subst}
use kori_backend.Latency.Percentiles.{percentile_covers, IsAscending}
use kori_backend.Latency.{route_stats, percentile, slower, RouteStats, snapshot, LatencyRegistry}
use kori_backend.Prelude.{
  sort, insert, All-after, length-sort, count_where-sort, All-insert, All-sort, count_where-sort,
  All-sort, length-sort, All-insert, length-map, ◌∙◌, ◌*◌, map, Memᴰ, ◌≤◌, leb, String, ℕ, inr,
  refl, inl, arith, [], Bool-cases, true, ◌∷◌, length, false, count_where, All, ◌≡◌, List, Bool,
}

module _ {A : Type 0} (before : A → A → Bool) where
  -- Every element may stand before those after it.
  abbrev pub IsOrdered : List A → Type 0
  IsOrdered [] = Unit
  IsOrdered (x ∷ xs) = All (λ y. before x y ≡ true) xs × IsOrdered xs

  module _ (total : (a b : A) → before a b ≡ false → before b a ≡ true)
      (chain : (a b c : A) → before a b ≡ true → before b c ≡ true → before a c ≡ true) where
    insert-IsOrdered : (a : A) (xs : List A) → IsOrdered xs → IsOrdered (insert before a xs)
    insert-IsOrdered a [] h = (tt, tt)
    insert-IsOrdered a (x ∷ xs) h = elim (Bool-cases (before a x)) [
      | inl e ↦ rw e (
        (
          e,
          All-after (λ y. before x y ≡ true) (λ y. before a y ≡ true) xs (λ y k. chain a x y e k)
              h.0,
        ),
        (h.0, h.1),
      )
      | inr e ↦ rw e (
        All-insert before (λ y. before x y ≡ true) a xs (total a x e) h.0,
        insert-IsOrdered a xs h.1,
      )
    ]

    sort-IsOrdered : (xs : List A) → IsOrdered (sort before xs)
    sort-IsOrdered [] = tt
    sort-IsOrdered (x ∷ xs) = insert-IsOrdered x (sort before xs) (sort-IsOrdered xs)

ascending : (xs : List ℕ) → IsOrdered leb xs → IsAscending xs
ascending [] h = tt
ascending (x ∷ xs) h =
    (All-after (λ y. leb x y ≡ true) (λ y. x ≤ y) xs (λ y k. ground arith) h.0, ascending xs h.1)

sorted-IsAscending : (xs : List ℕ) → IsAscending (sort leb xs)
sorted-IsAscending xs =
    ascending (sort leb xs)
      (sort-IsOrdered leb (λ a b e. ground arith) (λ a b c e k. ground arith) xs)

-- The sorted samples of a route are no more and no fewer than the recorded ones.
covers :
    (percent : ℕ) (xs : List ℕ)
    → percent ≤ 100
    → percent * length xs ≤ 100 * count_where (λ y. leb y (percentile (sort leb xs) percent)) xs
covers percent xs h =
    let n = length-sort leb xs in
    let c = count_where-sort leb (λ y. leb y (percentile (sort leb xs) percent)) xs in
    let bound = percentile_covers (sort leb xs) percent (sorted-IsAscending xs) h in
    subst (λ k. percent * k ≤ 100 * count_where (λ y. leb y (percentile (sort leb xs) percent)) xs)
      n (subst (λ k. percent * length (sort leb xs) ≤ 100 * k) c bound)

-- What the entry of a route says of its samples.
abbrev pub IsMeasure : LatencyRegistry → RouteStats → Type 0
IsMeasure registry r =
    (list : List ℕ) × Memᴰ (r.route, list) registry.samples
    × (r.count ≡ length list)
    × (50 * length list ≤ 100 * count_where (λ y. leb y r.p50) list)
    × (95 * length list ≤ 100 * count_where (λ y. leb y r.p95) list)
    × (99 * length list ≤ 100 * count_where (λ y. leb y r.p99) list)

measured :
    (registry : LatencyRegistry) (m : List (String × List ℕ))
    → ((e : String × List ℕ) → Memᴰ e m → Memᴰ e registry.samples)
    → All (IsMeasure registry) (map (route_stats registry) m)
measured registry [] h = tt
measured registry ((route, list) ∷ m) h = (
  (
    list,
    h (route, list) (Memᴰ.head refl),
    length-sort leb list,
    covers 50 list (omega arith),
    covers 95 list (omega arith),
    covers 99 list (omega arith),
  ),
  measured registry m (λ e k. h e (Memᴰ.tail k)),
)

-- The snapshot has as many entries as routes, the slowest by its 95th percentile first; each entry
-- counts the samples that its route has recorded, and at least 50, 95 and 99 per cent of them are
-- no slower than the percentile that it says.
pub snapshot_covers :
    (registry : LatencyRegistry)
    → (length (snapshot registry) ≡ length registry.samples)
      × IsOrdered slower (snapshot registry)
      × All (IsMeasure registry) (snapshot registry)
unfolding snapshot
snapshot_covers registry =
    let stats = map (route_stats registry) registry.samples in
    (
      length-sort slower stats ∙ length-map registry.samples (route_stats registry),
      sort-IsOrdered slower (λ a b e. ground arith) (λ a b c e k. ground arith) stats,
      All-sort slower (IsMeasure registry) stats (measured registry registry.samples (λ e k. k)),
    )
