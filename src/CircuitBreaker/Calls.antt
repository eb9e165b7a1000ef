-- ===== src/CircuitBreaker/Calls.antt =====
-- When the circuit opens, and what it lets through.
use kori_backend.Prelude.{
  ◌⊎◌, Bool, ap, suc, inl, refl, inr, false, leb, arith, Bool-cases, ltb, map, true, ◌↔◌, sym, ◌∙◌,
  length, ◌≤◌, ◌+◌, [], ◌∷◌, ◌<◌, ◌≡◌, ℕ, List,
}
use kori_backend.CircuitBreaker.{
  Estado, success, is_tanteando, is_abierto, tanteando, failure, call, al_fallo, al_exito, abierto,
  enter, cerrado, Event, passes, apply_all, apply, CircuitBreaker,
}

abbrev pub closed : ℕ → ℕ → ℕ → ℕ → CircuitBreaker
closed threshold reset failures until = record {
  failure_threshold = threshold;
  reset_ms = reset;
  estado = cerrado;
  fallos_seguidos = failures;
  abierto_hasta = until;
}

-- Calls that fail one after the other, each before the next one starts.
abbrev pub failing_calls : List ℕ → List Event
failing_calls [] = []
failing_calls (now ∷ times) = call now ∷ failure now ∷ failing_calls times

-- The failures since the last success, of which `n` came before the events.
abbrev pub streak : List Event → ℕ → ℕ
streak [] n = n
streak (call now ∷ es) n = streak es n
streak (success ∷ es) n = streak es 0
streak (failure now ∷ es) n = streak es (n + 1)

abbrev is_cerrado : Estado → Bool
is_cerrado cerrado = true
is_cerrado _ = false

-- The circuit after so many failures since the last success.
abbrev Tracks : ℕ → ℕ → CircuitBreaker → Type 0
Tracks threshold n b =
    (b.failure_threshold ≡ threshold)
    × (((b.estado ≡ cerrado) × (b.fallos_seguidos ≡ n) × (n < threshold))
        ⊎ ((is_cerrado b.estado ≡ false) × (threshold ≤ n)))

enter-Tracks :
    (threshold n now : ℕ) (b : CircuitBreaker)
    → Tracks threshold n b
    → Tracks threshold n (enter now b).0
unfolding enter
enter-Tracks threshold n now b (t, inl (e, f, h)) =
    let p : is_abierto b.estado ≡ false = rw e refl in rw p (t, inl (e, f, h))
enter-Tracks threshold n now b (t, inr (e, h)) = elim (Bool-cases (is_abierto b.estado)) [
  | inr p ↦ rw p (t, inr (e, h))
  | inl p ↦ elim (Bool-cases (ltb now b.abierto_hasta)) [
    | inl q ↦ rw p (rw q (t, inr (e, h)))
    | inr q ↦ rw p (rw q (t, inr (refl, h)))
  ]
]

al_fallo-Tracks :
    (threshold n now : ℕ) (b : CircuitBreaker)
    → Tracks threshold n b
    → Tracks threshold (n + 1) (al_fallo now b)
unfolding al_fallo
al_fallo-Tracks threshold n now b (t, inl (e, f, h)) =
    let p : is_tanteando b.estado ≡ false = rw e refl in
    elim (Bool-cases (leb b.failure_threshold (b.fallos_seguidos + 1))) [
      | inl q ↦ rw p (rw q (t, inr (refl, ground arith)))
      | inr q ↦ rw p (rw q (t, inl (e, ap (λ m. m + 1) f, ground arith)))
    ]
al_fallo-Tracks threshold n now b (t, inr (e, h)) = elim (Bool-cases (is_tanteando b.estado)) [
  | inl p ↦ rw p (t, inr (refl, omega arith))
  | inr p ↦ elim (Bool-cases (leb b.failure_threshold (b.fallos_seguidos + 1))) [
    | inl q ↦ rw p (rw q (t, inr (refl, omega arith)))
    | inr q ↦ rw p (rw q (t, inr (e, omega arith)))
  ]
]

apply_all-Tracks :
    (threshold n : ℕ) (es : List Event) (b : CircuitBreaker)
    → 1 ≤ threshold
    → Tracks threshold n b
    → Tracks threshold (streak es n) (apply_all es b)
unfolding apply_all apply al_exito
apply_all-Tracks threshold n [] b pos h = h
apply_all-Tracks threshold n (call now ∷ es) b pos h =
    apply_all-Tracks threshold n es (enter now b).0 pos (enter-Tracks threshold n now b h)
apply_all-Tracks threshold n (success ∷ es) b pos h =
    apply_all-Tracks threshold 0 es (al_exito b) pos (h.0, inl (refl, refl, omega arith))
apply_all-Tracks threshold n (failure now ∷ es) b pos h =
    apply_all-Tracks threshold (n + 1) es (al_fallo now b) pos (al_fallo-Tracks threshold n now b h)

-- From a closed circuit that has had fewer failures in a row than its threshold, whatever calls
-- start, succeed and fail, in any order, the circuit is closed exactly if fewer calls than the
-- threshold have failed since the last success.
pub closed_below_threshold :
    (threshold reset failures until : ℕ) (es : List Event)
    → failures < threshold
    → (apply_all es (closed threshold reset failures until)).estado ≡ cerrado
      ↔ (streak es failures < threshold)
closed_below_threshold threshold reset failures until es h =
    let (t, tracks) =
      apply_all-Tracks threshold failures es (closed threshold reset failures until) (omega arith)
        (refl, inl (refl, refl, h)) in
    elim tracks [
      | inl (e, f, below) ↦ ((λ k. below), (λ k. e))
      | inr (not_closed, over) ↦ (
        (λ k. let bad : true ≡ false = ap is_cerrado (sym k) ∙ not_closed in cc),
        (λ k. absurd (omega arith)),
      )
    ]

stays_closed :
    (threshold reset until failures : ℕ) (times : List ℕ)
    → failures + length times < threshold
    → apply_all (failing_calls times) (closed threshold reset failures until)
      ≡ closed threshold reset (failures + length times) until
unfolding apply_all apply enter al_fallo
stays_closed threshold reset until failures [] h =
    let e : failures + 0 ≡ failures = omega arith in rw e refl
stays_closed threshold reset until failures (t ∷ times) h =
    let below : leb threshold (failures + 1) ≡ false = ground arith in
    let e : failures + suc (length times) ≡ failures + 1 + length times = omega arith in
    rw (below, apply_all)
      (rw e (stays_closed threshold reset until (failures + 1) times (omega arith)))

-- A closed circuit without failures stays closed through fewer failing calls than its threshold,
-- and the failing call that reaches the threshold opens it, until the reset time has passed since
-- that failure.
pub opens_at_threshold :
    (threshold reset until last : ℕ) (times : List ℕ)
    → length times + 1 ≡ threshold
    → ((apply_all (failing_calls times) (closed threshold reset 0 until)).estado ≡ cerrado)
      × (apply_all
            (failing_calls (last ∷ []))
            (apply_all (failing_calls times) (closed threshold reset 0 until))
          ≡ record {
            failure_threshold = threshold;
            reset_ms = reset;
            estado = abierto;
            fallos_seguidos = threshold;
            abierto_hasta = last + reset;
          })
unfolding apply_all apply enter al_fallo
opens_at_threshold threshold reset until last times h =
    let e = stays_closed threshold reset until 0 times (omega arith) in
    let over : leb threshold (0 + length times + 1) ≡ true = ground arith in
    let full : 0 + length times + 1 ≡ threshold = omega arith in rw e (refl, rw over (rw full refl))

-- Once the rest of an open circuit is over, every call goes through until one of them ends.
pub all_probe :
    (b : CircuitBreaker) (now : ℕ) (times : List ℕ)
    → b.estado ≡ abierto
    → b.abierto_hasta ≤ now
    → passes (now ∷ times) b ≡ true ∷ map (λ t. true) times
unfolding passes enter
all_probe b now times e h =
    let rested : ltb now b.abierto_hasta ≡ false = ground arith in
    rw e (rw rested (ap (λ l. true ∷ l) (all_pass times)))
  where
    all_pass :
        (times : List ℕ) → passes times (record b { estado = tanteando }) ≡ map (λ t. true) times
    all_pass [] = refl
    all_pass (t ∷ times) = ap (λ l. true ∷ l) (all_pass times)
