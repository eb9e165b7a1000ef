-- ===== src/Orders/Rules.antt =====
-- `Keeps m`: whatever `m` does, and also if it throws, it writes the orders table by progress
-- alone. One rule for each way of putting calls together.
use kori_backend.Payments.{set_orders, update_order, has_id}
use kori_backend.Orders.Progress.{patch, steps, Careful, Progress}
use kori_backend.Database.{
  Result-cases, Order, catch, M-cases, ◌>>◌, ◌>>=◌, transaction, Store, Failure, Env, Prisma, M,
}
use kori_backend.Prelude.{refl, inr, inl, false, ◌≡◌, true, String, if◌then◌else◌, Bool}

abbrev pub Keeps : {A : Type 0} → M A → Type 0
Keeps m = (s : Store) → Progress s.orders (m s).0.orders

pub Keeps-bind :
    {A B : Type 0} (m : M A) (f : A → M B) → Keeps m → ((a : A) → Keeps (f a)) → Keeps (m >>= f)
Keeps-bind m f h k s = elim (M-cases (m s)) [
  | inl (t, a, p) ↦ rw p (steps (rw p at (h s)) (k a t))
  | inr (t, e, p) ↦ rw p (rw p at (h s))
]

pub Keeps-then : {B : Type 0} (m : M (Unit {0})) (k : M B) → Keeps m → Keeps k → Keeps (m >> k)
Keeps-then m k h g = Keeps-bind m (λ _. k) h (λ _. g)

pub Keeps-catch :
    {A : Type 0} (m : M A) (h : Failure → M A)
    → Keeps m
    → ((e : Failure) → Keeps (h e))
    → Keeps (catch m h)
Keeps-catch m h k g s = elim (M-cases (m s)) [
  | inl (t, a, p) ↦ rw p (rw p at (k s))
  | inr (t, e, p) ↦ rw p (steps (rw p at (k s)) (g e t))
]

pub Keeps-transaction : {A : Type 0} (m : M A) → Keeps m → Keeps (transaction m)
Keeps-transaction m k s = elim (M-cases (m s)) [
  | inl (t, a, p) ↦ rw p (rw p at (k s))
  | inr (t, e, p) ↦ rw p (Progress.same refl)
]

pub Keeps-if : {A : Type 0} (b : Bool) (m k : M A) → Keeps m → Keeps k → Keeps (if b then m else k)
Keeps-if true m k h g = h
Keeps-if false m k h g = g

-- A call that does not write the orders.
pub Keeps-orders : {A : Type 0} (m : M A) → ((s : Store) → (m s).0.orders ≡ s.orders) → Keeps m
Keeps-orders m h s = Progress.same (h s)

pub Keeps-update_order :
    (db : Prisma) (env : Env) (id : String) (f : Order → Order)
    → Careful (has_id id) f
    → Keeps (update_order db env id f)
Keeps-update_order db env id f careful s =
    elim (Result-cases (db.order.update (has_id id) f s.orders)) [
      | inl (t, p) ↦ rw (p, set_orders) (patch (has_id id) f careful (db.order.update_ok _ _ _ t p))
      | inr (e, p) ↦ rw (p, set_orders) (Progress.same refl)
    ]
