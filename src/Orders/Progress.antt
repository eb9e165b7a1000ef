-- ===== src/Orders/Progress.antt =====
-- The ways in which the shop's code writes the orders table, and what none of them undoes.
use kori_backend.Constants.{estado_sin_cobro}
use kori_backend.Database.{Order}
use kori_backend.Prelude.{
  [], inl, inr, discard, arith, false, any-discard, Bool-cases, All-discard, ◌∷◌, ◌++◌, ◌&&◌,
  is_some, any-append_left, All-append, update_where, true, str_eq, any, All-update_where, ◌≡◌,
  Bool, All, String, List,
}

-- An order that counts as never paid carries no trace of a payment.
abbrev pub Consistent : Order → Type 0
Consistent o =
    estado_sin_cobro o.status ≡ true
    → (is_some o.payment_intent_id ≡ false) × (is_some o.paid_at ≡ false)

-- A patch, for the rows that it is applied to, that keeps orders consistent, their identifiers,
-- and the fact that they were paid.
abbrev pub Careful : (Order → Bool) → (Order → Order) → Type 0
Careful p f =
    (o : Order)
    → p o ≡ true
    → Consistent o
    → Consistent (f o)
      × ((f o).id ≡ o.id)
      × (is_some o.paid_at ≡ true → is_some (f o).paid_at ≡ true)

pub data Progress : List Order → List Order → Type 0 where
  same : {t t' : List Order} → t' ≡ t → Progress t t'
  patch :
      {t t' : List Order} (p : Order → Bool) (f : Order → Order)
      → Careful p f
      → t' ≡ update_where p f t
      → Progress t t'
  insert : {t t' : List Order} (rs : List Order) → All Consistent rs → t' ≡ t ++ rs → Progress t t'
  purge :
      {t t' : List Order} (p : Order → Bool)
      → ((o : Order) → p o ≡ true → is_some o.paid_at ≡ false)
      → t' ≡ discard p t
      → Progress t t'
  steps : {t u v : List Order} → Progress t u → Progress u v → Progress t v

pub Progress-Consistent : {t t' : List Order} → Progress t t' → All Consistent t → All Consistent t'
Progress-Consistent (Progress.same e) h = rw e h
Progress-Consistent (patch {t} p f careful e) h =
    rw e (All-update_where Consistent p f t (λ o c q. (careful o q c).0) h)
Progress-Consistent (insert {t} rs c e) h = rw e (All-append Consistent t rs h c)
Progress-Consistent (purge {t} p unpaid e) h = rw e (All-discard Consistent p t h)
Progress-Consistent (steps a b) h = Progress-Consistent b (Progress-Consistent a h)

-- The row is the paid order of that identifier.
abbrev pub paid_as : String → Order → Bool
paid_as id o = str_eq o.id id && is_some o.paid_at

paid_as-patch :
    (id : String) (p : Order → Bool) (f : Order → Order) (t : List Order)
    → Careful p f
    → All Consistent t
    → any (paid_as id) t ≡ true
    → any (paid_as id) (update_where p f t) ≡ true
paid_as-patch id p f [] careful c h = h
paid_as-patch id p f (o ∷ t) careful c h = elim (Bool-cases (p o)) [
  | inr out ↦ rw out (ground (arith, paid_as-patch id p f t careful c.1))
  | inl within ↦
      let (kept, same_id, paid_on) = careful o within c.0 in
      rw (within, same_id) (ground (arith, paid_on, paid_as-patch id p f t careful c.1))
]

pub Progress-paid :
    (id : String) {t t' : List Order}
    → Progress t t'
    → All Consistent t
    → any (paid_as id) t ≡ true
    → any (paid_as id) t' ≡ true
Progress-paid id (Progress.same e) c h = rw e h
Progress-paid id (patch {t} p f careful e) c h = rw e (paid_as-patch id p f t careful c h)
Progress-paid id (insert {t} rs k e) c h = rw e (any-append_left (paid_as id) t rs h)
Progress-paid id (purge {t} p unpaid e) c h =
    rw e (any-discard (paid_as id) p t (λ o q. ground (arith, unpaid o q)) h)
Progress-paid id (steps a b) c h =
    Progress-paid id b (Progress-Consistent a c) (Progress-paid id a c h)
