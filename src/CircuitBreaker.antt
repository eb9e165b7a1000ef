-- ===== src/CircuitBreaker.antt =====
-- common/resilience/circuit-breaker.ts: the calls to outside services, and when they fail at once.
pub mod Calls
use kori_backend.Prelude.{ltb, leb, false, [], ◌∷◌, ◌+◌, ◌&&◌, true, if◌then◌else◌, ℕ, List, Bool}

pub data Estado : Type 0 where
  cerrado abierto tanteando : Estado

pub record CircuitBreaker : Type 0 where
  pub failure_threshold : ℕ
  pub reset_ms : ℕ
  pub estado : Estado
  pub fallos_seguidos : ℕ
  pub abierto_hasta : ℕ

abbrev pub is_abierto : Estado → Bool
is_abierto abierto = true
is_abierto _ = false

abbrev pub is_tanteando : Estado → Bool
is_tanteando tanteando = true
is_tanteando _ = false

-- `isOpen`.
abbrev pub is_open : ℕ → CircuitBreaker → Bool
is_open now b = is_abierto b.estado && ltb now b.abierto_hasta

-- `abrir`.
abbrev pub abrir : ℕ → CircuitBreaker → CircuitBreaker
abrir now b = record b { estado = abierto; abierto_hasta = now + b.reset_ms }

-- `alExito`.
unfoldable pub al_exito : CircuitBreaker → CircuitBreaker
al_exito b = record b { estado = cerrado; fallos_seguidos = 0 }

-- `alFallo`.
unfoldable pub al_fallo : ℕ → CircuitBreaker → CircuitBreaker
al_fallo now b =
    let counted = record b { fallos_seguidos = b.fallos_seguidos + 1 } in
    if is_tanteando b.estado
    then abrir now b
    else if leb b.failure_threshold (b.fallos_seguidos + 1)
    then abrir now counted
    else counted

-- `run` before the operation: whether the call goes through.
unfoldable pub enter : ℕ → CircuitBreaker → CircuitBreaker × Bool
enter now b =
    if is_abierto b.estado
    then (if ltb now b.abierto_hasta then (b, false) else (record b { estado = tanteando }, true))
    else (b, true)

-- `run` of several callers: each starts a call, and ends one that went through, at some time.
pub data Event : Type 0 where
  call : ℕ → Event
  success : Event
  failure : ℕ → Event

unfoldable pub apply : Event → CircuitBreaker → CircuitBreaker
apply (call now) b = (enter now b).0
apply success b = al_exito b
apply (failure now) b = al_fallo now b

unfoldable pub apply_all : List Event → CircuitBreaker → CircuitBreaker
apply_all [] b = b
apply_all (e ∷ es) b = apply_all es (apply e b)

-- Which of a run of calls go through, none of which has ended yet.
unfoldable pub passes : List ℕ → CircuitBreaker → List Bool
passes [] b = []
passes (now ∷ times) b = let (b', p) = enter now b in p ∷ passes times b'
