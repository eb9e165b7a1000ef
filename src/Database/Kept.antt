-- ===== src/Database/Kept.antt =====
-- What a call keeps true of the tables, by the way that it is made of others.
use mathlib.Core.Path.{subst}
use kori_backend.Prelude.{inl, inr, sym, ap, ◌∙◌, ◌≡◌}
use kori_backend.Database.Outcome.{Failure, ok}
use kori_backend.Database.State.{
  M, Store, ◌>>◌, ◌>>=◌, pure, catch, throw, rollback, transaction, M-cases,
}

module _ {ℓ} (P : Store → Type ℓ) where
  -- An exception that is turned into another.
  pub caught :
      {A : Type 0} (m : M A) (f : Failure → Failure) (s : Store)
      → P (m s).0
      → P (catch m (λ e. throw (f e)) s).0
  caught m f s h = elim (M-cases (m s)) [
    | inl (t, a, p) ↦ rw p (rw p at h)
    | inr (t, e, p) ↦ rw p (rw p at h)
  ]

  -- Two calls, one after the other.
  pub followed :
      {A B : Type 0} (m : M A) (k : A → M B) (s : Store)
      → P (m s).0
      → ((t : Store) (a : A) → m s ≡ (t, ok a) → P t → P (k a t).0)
      → P ((m >>= k) s).0
  followed m k s h next = elim (M-cases (m s)) [
    | inl (t, a, p) ↦ rw p (next t a p (rw p at h))
    | inr (t, e, p) ↦ rw p (rw p at h)
  ]

  pub mapped :
      {A B : Type 0} (m : M A) (f : A → B) (s : Store) → P (m s).0 → P ((m >>= λ a. pure (f a)) s).0
  mapped m f s h = followed m (λ a. pure (f a)) s h (λ t a p k. k)

  -- A transaction, from a state that its calls reach.
  pub rolled : {A : Type 0} (m : M A) (s s' : Store) → P s → P (m s').0 → P (rollback s (m s')).0
  rolled m s s' all h = elim (M-cases (m s')) [
    | inl (t, a, p) ↦ rw p (rw p at h)
    | inr (t, e, p) ↦ rw p all
  ]

  pub transacted :
      {A : Type 0} (m : M A) (s : Store)
      → P s
      → ((t : Store) (a : A) → m s ≡ (t, ok a) → P t)
      → P (transaction m s).0
  transacted m s all done = elim (M-cases (m s)) [
    | inl (t, a, p) ↦ rw p (done t a p)
    | inr (t, e, p) ↦ rw p all
  ]

  -- A check that changes nothing, and what it guards.
  pub guarded :
      {A : Type 0} (g : M (Unit {0})) (m : M A) (s : Store)
      → (g s).0 ≡ s
      → P s
      → P (m s).0
      → P ((g >> m) s).0
  guarded g m s kept all h = elim (M-cases (g s)) [
    | inl (t, u, p) ↦ rw p (subst (λ t. P (m t).0) (sym (ap (λ r. r.0) (sym p) ∙ kept)) h)
    | inr (t, e, p) ↦ rw p (subst P (sym (ap (λ r. r.0) (sym p) ∙ kept)) all)
  ]
