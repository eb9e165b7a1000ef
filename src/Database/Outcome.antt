-- ===== src/Database/Outcome.antt =====
-- How a call ends: with a value, or with the exception that it throws.
use kori_backend.Prelude.{ℕ, ◌≡◌, refl, ◌⊎◌, inl, inr, Bool, true, false}

-- `not_found`, `unique_violation` and `foreign_key` are Prisma's P2025, P2002 and P2003, `http` is
-- one of Nest's exceptions by its status, and `plain` is any other `Error`.
pub data Failure : Type 0 where
  not_found unique_violation foreign_key plain : Failure
  http : ℕ → Failure

pub data Result {ℓ} (A : Type ℓ) : Type ℓ where
  ok : A → Result A
  err : Failure → Result A

abbrev pub is_ok {ℓ} : {A : Type ℓ} → Result A → Bool
is_ok (ok a) = true
is_ok (err e) = false

pub Result-cases {ℓ} :
    {A : Type ℓ} (r : Result A) → ((a : A) × (r ≡ ok a)) ⊎ ((e : Failure) × (r ≡ err e))
Result-cases (ok a) = inl (a, refl)
Result-cases (err e) = inr (e, refl)
