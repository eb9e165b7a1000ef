-- ===== src/Latency.antt =====
-- common/observability/latency.registry.ts: how long each route takes, in memory.
pub mod Percentiles
pub mod Snapshot
use kori_backend.Prelude.{
  sort, map, ◌-◌, ◌/◌, ◌*◌, ◌+◌, ◌++◌, zero, min, suc, str_eq, length, leb, [], ◌∷◌, if◌then◌else◌,
  Bool, ℕ, String, List,
}

abbrev pub max_samples : ℕ
max_samples = 500

-- The two maps, each with an entry for a route.
pub record LatencyRegistry : Type 0 where
  pub samples : List (String × List ℕ)
  pub errors : List (String × ℕ)

-- `list.shift()`.
abbrev pub shift : List ℕ → List ℕ
shift [] = []
shift (x ∷ xs) = xs

-- The window after one more sample.
unfoldable pub push : ℕ → List ℕ → List ℕ
push ms list = (if leb max_samples (length list) then shift list else list) ++ ms ∷ []

unfoldable pub push_sample : String → ℕ → List (String × List ℕ) → List (String × List ℕ)
unfolding push
push_sample route ms [] = (route, push ms []) ∷ []
push_sample route ms ((r, list) ∷ m) =
    let rest = push_sample route ms m in
    if str_eq r route then (r, push ms list) ∷ m else (r, list) ∷ rest

unfoldable pub count_error : String → List (String × ℕ) → List (String × ℕ)
count_error route [] = (route, 1) ∷ []
count_error route ((r, n) ∷ m) =
    let rest = count_error route m in if str_eq r route then (r, n + 1) ∷ m else (r, n) ∷ rest

-- `record`.
unfoldable pub record_sample : String → ℕ → Bool → LatencyRegistry → LatencyRegistry
record_sample route ms failed registry = record {
  samples = push_sample route ms registry.samples;
  errors = if failed then count_error route registry.errors else registry.errors;
}

-- `sorted[i]`, for an index in range.
abbrev pub element : List ℕ → ℕ → ℕ
element [] i = 0
element (x ∷ xs) zero = x
element (x ∷ xs) (suc i) = element xs i

-- `percentile(sorted, percent / 100)`, in exact arithmetic: a product of doubles may lie above.
unfoldable pub percentile : List ℕ → ℕ → ℕ
percentile [] percent = 0
percentile (x ∷ xs) percent =
    let n = length (x ∷ xs) in element (x ∷ xs) (min ((percent * n + 99) / 100 - 1) (n - 1))

pub record RouteStats : Type 0 where
  pub route : String
  pub count : ℕ
  pub p50 : ℕ
  pub p95 : ℕ
  pub p99 : ℕ
  pub slowest : ℕ
  pub errors : ℕ

abbrev pub last_of : List ℕ → ℕ
last_of xs = element xs (length xs - 1)

abbrev pub errors_of : String → List (String × ℕ) → ℕ
errors_of route [] = 0
errors_of route (e ∷ m) = let rest = errors_of route m in if str_eq e.0 route then e.1 else rest

abbrev pub route_stats : LatencyRegistry → String × List ℕ → RouteStats
route_stats registry (route, list) =
    let sorted = sort leb list in
    record {
      route = route;
      count = length sorted;
      p50 = percentile sorted 50;
      p95 = percentile sorted 95;
      p99 = percentile sorted 99;
      slowest = last_of sorted;
      errors = errors_of route registry.errors;
    }

abbrev pub slower : RouteStats → RouteStats → Bool
slower a b = leb b.p95 a.p95

-- `snapshot`, less the date.
unfoldable pub snapshot : LatencyRegistry → List RouteStats
snapshot registry = sort slower (map (route_stats registry) registry.samples)

-- `reset`, less the date.
abbrev pub reset : LatencyRegistry → LatencyRegistry
reset registry = record { samples = []; errors = [] }
