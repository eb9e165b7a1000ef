-- ===== src/Outbox/Backoff.antt =====
-- The wait before a job is tried again.
use native.Mathlib.Nat.{pow-suc}
use kori_backend.Prelude.{◌/◌, zero, ◌-◌, suc, ◌*◌, min, arith, ◌≡◌, ◌^◌, ◌≤◌, ◌<◌, ◌+◌, ℕ}
use kori_backend.Outbox.{max_backoff_ms, base_backoff_ms, techo, backoff_ms}

pow-pos : (k : ℕ) → 1 ≤ 2 ^ k
pow-pos zero = omega arith
pow-pos (suc k) = simp pow-suc (omega (arith, pow-pos k))

techo_bounds :
    (attempts : ℕ) → (base_backoff_ms ≤ techo attempts) × (techo attempts ≤ max_backoff_ms)
unfolding techo
techo_bounds attempts = (omega (arith, pow-pos (attempts - 1)), omega arith)

techo-quarter : (attempts : ℕ) → 4 * (techo attempts / 4) ≡ techo attempts
unfolding techo
techo-quarter attempts = omega arith

-- For every outcome of `Math.random`, the wait lies between a quarter of the attempt's ceiling and
-- the ceiling; so it is never below 15 seconds and never above an hour.
pub backoff_bounds :
    (random attempts : ℕ)
    → random < 2 ^ 53
    → (techo attempts ≤ 4 * backoff_ms random attempts)
      × (backoff_ms random attempts ≤ techo attempts)
      × (15000 ≤ backoff_ms random attempts)
      × (backoff_ms random attempts ≤ 3600000)
unfolding backoff_ms
backoff_bounds random attempts h =
    let (low, high) = techo_bounds attempts in
    let whole = techo-quarter attempts in
    let mixed : techo attempts * random ≤ techo attempts * (2 ^ 53 - 1) = grind arith in
    (omega arith, omega arith, omega arith, omega arith)

-- The ceiling doubles from one attempt to the next until it reaches an hour.
pub techo_doubles : (k : ℕ) → techo (k + 2) ≡ min (2 * techo (k + 1)) max_backoff_ms
unfolding techo
techo_doubles k =
    let e : k + 2 - 1 ≡ suc k = omega arith in
    let e' : k + 1 - 1 ≡ k = omega arith in rw (e, e') (rw pow-suc (omega arith))
