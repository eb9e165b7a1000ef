-- ===== src/Tests/Passes.antt =====
-- The theorems about the reconciliation, the checkout, the downloads and the circuit at concrete
-- inputs.
use kori_backend.Latency.Snapshot.{snapshot_covers, IsMeasure, IsOrdered}
use kori_backend.Latency.{slower, snapshot, percentile, LatencyRegistry}
use kori_backend.Reconciliation.Summary.{run_accounts}
use kori_backend.Tests.Tables.{list_client}
use kori_backend.Orders.Delivery.{new_grant}
use kori_backend.Tests.Samples.{
  drumkit_product, drumkit, sample_hash, later_env, shelf, sample_order, sample_env, paid_order,
  drumkit_variant, with_order, cart,
}
use kori_backend.Reconciliation.{run, ResumenConciliacion}
use kori_backend.Checkout.Lines.{
  lines-FromShelf, charges_order_total, cart_units, line_units, charged_shipping, FromShelf,
  charged,
}
use kori_backend.Orders.Downloads.{take_use}
use kori_backend.Orders.Limits.{uses-WithinLimit, serve_all, served, used, WithinLimit}
use kori_backend.CircuitBreaker.Calls.{closed_below_threshold, closed, streak}
use kori_backend.Database.{plain, err, ok, Env, Store, Order, DownloadGrant}
use kori_backend.Checkout.{
  quantities, build_lines, build_lines_from_database, payment_params, new_order, line_of,
  SessionParams, Line, CreateCheckoutSession,
}
use kori_backend.CircuitBreaker.{cerrado, success, failure, call, apply_all}
use kori_backend.Prelude.{
  String, length, ℕ, refl, ◌≤◌, ◌<◌, ◌↔◌, arith, some, none, ◌≡◌, true, [], ◌∷◌, ◌+◌, List, All,
}

abbrev stale_store : Store
stale_store = record (with_order sample_order) { grants = [] }

run_accounts_example :
    (s' : Store) × (r : ResumenConciliacion) × (run list_client true
        (λ id. none)
        (λ k. later_env)
        stale_store
      ≡ (s', ok r))
    × (r.revisados ≡ r.recuperados + r.caducados + r.sin_sesion + r.en_curso + r.fallos)
    × (r.revisados ≤ 50)
run_accounts_example = run_accounts list_client true (λ id. none) (λ k. later_env) stale_store

abbrev cart_line : Line
cart_line = line_of drumkit_variant drumkit_product 3

abbrev twice : CreateCheckoutSession
twice = record cart {
  items =
      record { variant_id = "variant-1"; quantity = 2 }
      ∷ record { variant_id = "variant-1"; quantity = 1 }
      ∷ [];
}

lines-FromShelf_example :
    All (FromShelf shelf.products shelf.variants) (cart_line ∷ [])
    × (line_units (cart_line ∷ []) ≡ cart_units twice.items)
unfolding build_lines_from_database build_lines quantities
lines-FromShelf_example =
    lines-FromShelf list_client (λ l. "es") true (some 900) (λ p. err plain) twice.items shelf shelf
      (cart_line ∷ []) refl

abbrev order_of_twice : Order
order_of_twice =
    new_order list_client (λ l. "es") true (some 900) (λ p. err plain) sample_env 7 twice
      (cart_line ∷ [])

abbrev params_of_twice : SessionParams
params_of_twice =
    payment_params list_client (λ l. "es") true (some 900) (λ p. err plain) sample_env twice
      (cart_line ∷ []) order_of_twice

charges_order_total_example :
    charged params_of_twice.line_items + charged_shipping params_of_twice.shipping_amount
    ≡ order_of_twice.total_cents
unfolding build_lines_from_database build_lines quantities
charges_order_total_example =
    charges_order_total list_client (λ l. "es") true (some 900) (λ p. err plain) sample_env 7 twice
      shelf shelf (cart_line ∷ []) refl

abbrev grant : DownloadGrant
grant = record (new_grant list_client sample_hash none sample_env 2000000 0 drumkit) {
  id = "grant-1";
  download_count = 4;
}

abbrev racing : List (Env × DownloadGrant × String)
racing = (sample_env, grant, "kit.zip") ∷ (later_env, grant, "kit.zip") ∷ []

abbrev granted : Store
granted = record (with_order paid_order) { grants = grant ∷ [] }

-- Two requests have read the grant with one use left.
uses-WithinLimit_example :
    (served list_client sample_hash (λ path name. ok path) "grant-1" racing granted
        + used "grant-1" granted.grants
      ≤ 5)
    × WithinLimit "grant-1" 5
        (serve_all list_client sample_hash (λ path name. ok path) racing granted).grants
uses-WithinLimit_example =
    uses-WithinLimit list_client sample_hash (λ path name. ok path) racing "grant-1" 5 granted
      ((λ e. omega arith), ((λ e. omega arith), tt)) (omega arith) ((λ e. omega arith), tt)

one_is_served : served list_client sample_hash (λ path name. ok path) "grant-1" racing granted ≡ 1
unfolding take_use
one_is_served = refl

closed_below_threshold_example :
    (apply_all (call 1 ∷ call 2 ∷ failure 3 ∷ failure 4 ∷ success ∷ []) (closed 2 30000 0 0)).estado
      ≡ cerrado
    ↔ (streak (call 1 ∷ call 2 ∷ failure 3 ∷ failure 4 ∷ success ∷ []) 0 < 2)
closed_below_threshold_example =
    closed_below_threshold 2 30000 0 0 (call 1 ∷ call 2 ∷ failure 3 ∷ failure 4 ∷ success ∷ [])
      (omega arith)

abbrev sorted_samples : List ℕ
sorted_samples = 10 ∷ 20 ∷ 30 ∷ 8000 ∷ []

p50_is : percentile sorted_samples 50 ≡ 20
unfolding percentile
p50_is = refl

abbrev registry : LatencyRegistry
registry = record { samples = ("GET /orders", sorted_samples) ∷ []; errors = [] }

snapshot_covers_example :
    (length (snapshot registry) ≡ 1)
    × IsOrdered slower (snapshot registry)
    × All (IsMeasure registry) (snapshot registry)
snapshot_covers_example = snapshot_covers registry
