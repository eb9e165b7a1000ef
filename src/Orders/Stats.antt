-- ===== src/Orders/Stats.antt =====
-- How the numbers of the panel's statistics hang together.
use kori_backend.Orders.Panel.{
  count_of, build_where, find_orders, AdminOrdersQuery, status_code, is_sold, get_stats,
}
use kori_backend.Database.{
  needs_review, refunded, cancelled, delivered, shipped, in_production, paid, pending_payment,
  Store, OrderStatus, Prisma, Order,
}
use kori_backend.Prelude.{
  ◌∙◌, inr, ap, inl, Bool-cases, sym, refl, true, [], false, arith, ◌∷◌, ◌==◌, any, ◌≡◌,
  count_where, Memᴰ, ◌+◌, ◌&&◌, if◌then◌else◌, String, List, ℕ, Bool,
}

abbrev one : Bool → ℕ
one b = if b then 1 else 0

module _ {R : Type 0} where
  count_where-step :
      (p : R → Bool) (x : R) (t : List R) → count_where p (x ∷ t) ≡ one (p x) + count_where p t
  count_where-step p x t = ground arith

count_of-lem :
    (k c : ℕ) (rows : List (ℕ × ℕ))
    → ((n : ℕ) → Memᴰ (k, n) rows → n ≡ c)
    → (any (λ (g : ℕ × ℕ). g.0 == k) rows ≡ false → c ≡ 0)
    → count_of k rows ≡ c
count_of-lem k c [] same none_of = sym (none_of refl)
count_of-lem k c ((j, n) ∷ rows) same none_of = elim (Bool-cases (j == k)) [
  | inl e ↦
      let here : j ≡ k = ground arith in rw e (same n (Memᴰ.head (ap (λ i. (i, n)) (sym here))))
  | inr e ↦
      rw e (count_of-lem k c rows (λ m q. same m (Memᴰ.tail q)) (λ q. none_of (rw (e, q) refl)))
]

abbrev with_code : (Order → Bool) → ℕ → Order → Bool
with_code p k o = p o && status_code o.status == k

abbrev statuses : (ℕ → ℕ) → ℕ
statuses f = f 0 + f 1 + f 2 + f 3 + f 4 + f 5 + f 6 + f 7

abbrev sold_statuses : (ℕ → ℕ) → ℕ
sold_statuses f = f 1 + f 2 + f 3 + f 4 + f 7

every_status :
    (b : Bool) (st : OrderStatus) → one b ≡ statuses (λ k. one (b && status_code st == k))
every_status false st = refl
every_status true pending_payment = refl
every_status true paid = refl
every_status true in_production = refl
every_status true shipped = refl
every_status true delivered = refl
every_status true cancelled = refl
every_status true refunded = refl
every_status true needs_review = refl

every_sold :
    (b : Bool) (st : OrderStatus)
    → one (b && is_sold st) ≡ sold_statuses (λ k. one (b && status_code st == k))
every_sold false st = refl
every_sold true pending_payment = refl
every_sold true paid = refl
every_sold true in_production = refl
every_sold true shipped = refl
every_sold true delivered = refl
every_sold true cancelled = refl
every_sold true refunded = refl
every_sold true needs_review = refl

counted_all :
    (p : Order → Bool) (t : List Order)
    → count_where p t ≡ statuses (λ k. count_where (with_code p k) t)
counted_all p [] = refl
counted_all p (o ∷ t) = omega (
  arith,
  counted_all p t,
  every_status (p o) o.status,
  count_where-step p o t,
  count_where-step (with_code p 0) o t,
  count_where-step (with_code p 1) o t,
  count_where-step (with_code p 2) o t,
  count_where-step (with_code p 3) o t,
  count_where-step (with_code p 4) o t,
  count_where-step (with_code p 5) o t,
  count_where-step (with_code p 6) o t,
  count_where-step (with_code p 7) o t,
)

counted_sold :
    (p : Order → Bool) (t : List Order)
    → count_where (λ o. p o && is_sold o.status) t
      ≡ sold_statuses (λ k. count_where (with_code p k) t)
counted_sold p [] = refl
counted_sold p (o ∷ t) = omega (
  arith,
  counted_sold p t,
  every_sold (p o) o.status,
  count_where-step (λ (q : Order). p q && is_sold q.status) o t,
  count_where-step (with_code p 1) o t,
  count_where-step (with_code p 2) o t,
  count_where-step (with_code p 3) o t,
  count_where-step (with_code p 4) o t,
  count_where-step (with_code p 7) o t,
)

module _ (db : Prisma) (instant : String → ℕ) where
  counted :
      (query : AdminOrdersQuery) (s : Store) (st : OrderStatus)
      → (get_stats db instant query s).count_by_status st
        ≡ count_where (with_code (build_where db instant query) (status_code st)) s.orders
  unfolding get_stats
  counted query s st =
      let key = λ (o : Order). status_code o.status in
      let p = build_where db instant query in
      let k = status_code st in
      count_of-lem k (count_where (with_code p k) s.orders) (db.order.group_count key p s.orders)
        (λ n m. db.order.group_count_mem key p s.orders k n m)
        (λ e. db.order.group_count_none key p s.orders k e)

  -- For any filter of the panel, the orders counted by status add up to the total of the list that
  -- the same filter gives; the sales are the paid, the produced, the shipped, the delivered and the
  -- ones in review, and nothing else; and the refunds are the orders of that status.
  pub stats_add_up :
      (query : AdminOrdersQuery) (s : Store)
      → let stats = get_stats db instant query s in
        let n = stats.count_by_status in
        (n pending_payment
            + n paid
            + n in_production
            + n shipped
            + n delivered
            + n cancelled
            + n refunded
            + n needs_review
          ≡ (find_orders db instant query s).total)
        × (stats.sales_count ≡ n paid + n in_production + n shipped + n delivered + n needs_review)
        × (stats.refunded_count ≡ n refunded)
  unfolding get_stats find_orders
  stats_add_up query s =
      let p = build_where db instant query in
      (
        omega (
          arith,
          counted query s pending_payment,
          counted query s paid,
          counted query s in_production,
          counted query s shipped,
          counted query s delivered,
          counted query s cancelled,
          counted query s refunded,
          counted query s needs_review,
          counted_all p s.orders,
          db.order.count_lem p s.orders,
        ),
        omega (
          arith,
          counted query s paid,
          counted query s in_production,
          counted query s shipped,
          counted query s delivered,
          counted query s needs_review,
          counted_sold p s.orders,
          db.order.count_lem (λ o. p o && is_sold o.status) s.orders,
        ),
        db.order.count_lem (with_code p 6) s.orders ∙ sym (counted query s refunded),
      )
