-- ===== src/Latency/Percentiles.antt =====
-- What a percentile promises, and how many samples a route keeps.
use kori_backend.Latency.{
  shift, LatencyRegistry, max_samples, element, record_sample, push_sample, push, percentile,
}
use kori_backend.Prelude.{
  ◌-◌, length-append, ◌/◌, ◌++◌, min, true, inr, ◌≡◌, inl, zero, str_eq, leb, suc, count_where,
  Bool-cases, ◌+◌, ◌*◌, arith, [], Bool, ◌≤◌, ◌∷◌, ◌<◌, length, String, All, ℕ, List,
}

abbrev pub IsAscending : List ℕ → Type 0
IsAscending [] = Unit {0}
IsAscending (x ∷ xs) = All (λ y. x ≤ y) xs × IsAscending xs

element-least : (x i : ℕ) (xs : List ℕ) → All (λ y. x ≤ y) xs → i < length xs → x ≤ element xs i
element-least x i [] h k = absurd (omega arith)
element-least x zero (y ∷ xs) h k = h.0
element-least x (suc i) (y ∷ xs) h k = element-least x i xs h.1 (omega arith)

-- In an ascending list, no fewer than `i + 1` elements are at most the one at `i`.
count-element :
    (i : ℕ) (xs : List ℕ)
    → IsAscending xs
    → i < length xs
    → i + 1 ≤ count_where (λ y. leb y (element xs i)) xs
count-element i [] h k = absurd (omega arith)
count-element zero (x ∷ xs) h k = let e : leb x x ≡ true = ground arith in rw e (omega arith)
count-element (suc i) (x ∷ xs) h k =
    let least = element-least x i xs h.0 (omega arith) in
    let e : leb x (element xs i) ≡ true = ground arith in
    let rest = count-element i xs h.1 (omega arith) in rw e (omega arith)

-- At least the given percentage of the samples, one hundred at most, is no slower than the
-- percentile of the sorted samples.
pub percentile_covers :
    (xs : List ℕ) (percent : ℕ)
    → IsAscending xs
    → percent ≤ 100
    → percent * length xs ≤ 100 * count_where (λ y. leb y (percentile xs percent)) xs
unfolding percentile
percentile_covers [] percent h k = omega arith
percentile_covers (x ∷ xs) percent h k =
    let n = length (x ∷ xs) in
    let i = min ((percent * n + 99) / 100 - 1) (n - 1) in
    let whole : percent * n ≤ 100 * n = grind arith in
    let inside : i < n = omega arith in
    let enough : percent * n ≤ 100 * (i + 1) = omega arith in
    let count = count-element i (x ∷ xs) h inside in omega arith

-- Every route has at most as many samples as the window holds.
abbrev pub FitsWindow : List (String × List ℕ) → Type 0
FitsWindow = All (λ e. length e.1 ≤ max_samples)

push-fits :
    (ms : ℕ) (list : List ℕ) → length list ≤ max_samples → length (push ms list) ≤ max_samples
unfolding push
push-fits ms list h = elim (Bool-cases (leb max_samples (length list))) [
  | inr p ↦
      let below : length list < 500 = ground arith in
      let total = length-append list (ms ∷ []) in rw (p, push) (omega arith)
  | inl p ↦ rw (p, push) (shift_fits list h)
]
  where
    shift_fits :
        (list : List ℕ) → length list ≤ max_samples → length (shift list ++ ms ∷ []) ≤ max_samples
    shift_fits [] k = omega arith
    shift_fits (x ∷ xs) k = let total = length-append xs (ms ∷ []) in omega arith

push_sample-FitsWindow :
    (route : String) (ms : ℕ) (m : List (String × List ℕ))
    → FitsWindow m
    → FitsWindow (push_sample route ms m)
unfolding push_sample
push_sample-FitsWindow route ms [] h = (push-fits ms [] (omega arith), tt)
push_sample-FitsWindow route ms ((r, list) ∷ m) h = elim (Bool-cases (str_eq r route)) [
  | inl p ↦ rw (p, push_sample) (push-fits ms list h.0, h.1)
  | inr p ↦ rw (p, push_sample) (h.0, push_sample-FitsWindow route ms m h.1)
]

-- Recording keeps every route within the window of 500 samples.
pub record_sample-FitsWindow :
    (route : String) (ms : ℕ) (failed : Bool) (registry : LatencyRegistry)
    → FitsWindow registry.samples
    → FitsWindow (record_sample route ms failed registry).samples
unfolding record_sample
record_sample-FitsWindow route ms failed registry h =
    push_sample-FitsWindow route ms registry.samples h
