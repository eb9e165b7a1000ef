-- ===== src/Orders/Days.antt =====
-- What the chart of the sales shows.
use kori_backend.Orders.Panel.{AdminOrdersQuery}
use kori_backend.Orders.Chart.{
  sold_between, last_day, first_day, get_sales_timeseries, chart_days, sales_by_day, add_sale,
  day_of, SalesDay,
}
use kori_backend.Database.{Store, Env, Order}
use kori_backend.Prelude.{
  sym, All, ◌∙◌, ap, true, leb, ◌-◌, inr, refl, inl, zero, map, if◌then◌else◌, arith, Bool-cases,
  ◌≤◌, ◌∷◌, ◌==◌, ◌+◌, ◌||◌, ◌&&◌, sum_where, suc, false, ◌≡◌, [], String, List, ℕ, Bool,
}

-- The day numbers from one on, so many of them.
abbrev pub days_from : ℕ → ℕ → List ℕ
days_from first zero = []
days_from first (suc n) = first ∷ days_from (suc first) n

module _ {R : Type 0} where
  sum_where-same :
      (p q : R → Bool) (f : R → ℕ) (t : List R)
      → ((r : R) → p r ≡ q r)
      → sum_where p f t ≡ sum_where q f t
  sum_where-same p q f [] e = refl
  sum_where-same p q f (x ∷ t) e = ground (arith, sum_where-same p q f t e, e x)

  sum_where-none :
      (p : R → Bool) (f : R → ℕ) (t : List R) → ((r : R) → p r ≡ false) → sum_where p f t ≡ 0
  sum_where-none p f [] e = refl
  sum_where-none p f (x ∷ t) e = ground (arith, sum_where-none p f t e, e x)

  -- Rows that pass one of two tests, never both.
  sum_where-either :
      (p q r : R → Bool) (f : R → ℕ) (t : List R)
      → ((x : R) → r x ≡ (p x || q x))
      → ((x : R) → (p x && q x) ≡ false)
      → sum_where p f t + sum_where q f t ≡ sum_where r f t
  sum_where-either p q r f [] e n = refl
  sum_where-either p q r f (x ∷ t) e n = ground (arith, sum_where-either p q r f t e n, e x, n x)

day_of-date : (d : ℕ) (rows : List SalesDay) → (day_of d rows).date ≡ d
day_of-date d [] = refl
day_of-date d (r ∷ rows) = elim (Bool-cases (r.date == d)) [
  | inl e ↦ rw e (ground arith)
  | inr e ↦ rw e (day_of-date d rows)
]

-- What one more order adds to a day.
day_of-add :
    (d day cents : ℕ) (rows : List SalesDay)
    → ((day_of d (add_sale day cents rows)).gross_revenue_cents
        ≡ (if day == d then cents else 0) + (day_of d rows).gross_revenue_cents)
      × ((day_of d (add_sale day cents rows)).sales_count
          ≡ (if day == d then 1 else 0) + (day_of d rows).sales_count)
day_of-add d day cents [] = elim (Bool-cases (day == d)) [
  | inl e ↦ rw e (omega arith, omega arith)
  | inr e ↦ rw e (omega arith, omega arith)
]
day_of-add d day cents (r ∷ rows) = elim (Bool-cases (r.date == day)) [
  | inl e ↦ elim (Bool-cases (r.date == d)) [
    | inl k ↦ let same : (day == d) ≡ true = ground arith in rw (e, k, same) (refl, omega arith)
    | inr k ↦
        let other : (day == d) ≡ false = ground arith in rw (e, k, other) (omega arith, omega arith)
  ]
  | inr e ↦ elim (Bool-cases (r.date == d)) [
    | inl k ↦
        let other : (day == d) ≡ false = ground arith in rw (e, k, other) (omega arith, omega arith)
    | inr k ↦ rw (e, k) (day_of-add d day cents rows)
  ]
]

module _ (calendar : ℕ → ℕ) (plain instant : String → ℕ) where
  abbrev pub on_day : (Order → Bool) → ℕ → Order → Bool
  on_day chosen d o = chosen o && calendar o.created_at == d

  day_of-sales :
      (d : ℕ) (chosen : Order → Bool) (t : List Order)
      → ((day_of d (sales_by_day calendar plain instant chosen t)).gross_revenue_cents
          ≡ sum_where (on_day chosen d) (λ o. o.total_cents) t)
        × ((day_of d (sales_by_day calendar plain instant chosen t)).sales_count
            ≡ sum_where (on_day chosen d) (λ o. 1) t)
  day_of-sales d chosen [] = (refl, refl)
  day_of-sales d chosen (o ∷ t) =
      let rest = day_of-sales d chosen t in
      let more =
        day_of-add d (calendar o.created_at) o.total_cents
          (sales_by_day calendar plain instant chosen t) in
      elim (Bool-cases (chosen o)) [
        | inl e ↦ elim (Bool-cases (calendar o.created_at == d)) [
          | inl k ↦ let more' = (rw k at more) in rw (e, k) (omega arith, omega arith)
          | inr k ↦ let more' = (rw k at more) in rw (e, k) (omega arith, omega arith)
        ]
        | inr e ↦ rw e rest
      ]

  -- The dates of the chart, with fuel enough.
  chart_days-dates :
      (fuel cursor last : ℕ) (rows : List SalesDay)
      → suc last ≤ cursor + fuel
      → map (λ (r : SalesDay). r.date) (chart_days calendar plain instant fuel cursor last rows)
        ≡ days_from cursor (suc last - cursor)
  chart_days-dates zero cursor last rows h =
      let over : suc last - cursor ≡ 0 = omega arith in rw over refl
  chart_days-dates (suc fuel) cursor last rows h = elim (Bool-cases (leb cursor last)) [
    | inl e ↦
        let go : suc last - cursor ≡ suc (last - cursor) = ground arith in
        let next : suc last - suc cursor ≡ last - cursor = omega arith in
        rw (e, go, day_of-date cursor rows)
          (ap (λ t. cursor ∷ t)
            (chart_days-dates fuel (suc cursor) last rows (omega arith)
              ∙ ap (days_from (suc cursor)) next))
    | inr e ↦ let over : suc last - cursor ≡ 0 = ground arith in rw (e, over) refl
  ]

  abbrev within : (Order → Bool) → ℕ → ℕ → Order → Bool
  within chosen first last o =
      chosen o && leb first (calendar o.created_at) && leb (calendar o.created_at) last

  -- The sum of the chart, of either of its two numbers.
  chart_days-sum :
      (v : SalesDay → ℕ) (f : Order → ℕ) (chosen : Order → Bool) (t : List Order)
      (rows : List SalesDay)
      → ((d : ℕ) → v (day_of d rows) ≡ sum_where (on_day chosen d) f t)
      → (fuel cursor last : ℕ) → suc last ≤ cursor + fuel
      → sum_where (λ r. true) v (chart_days calendar plain instant fuel cursor last rows)
        ≡ sum_where (within chosen cursor last) f t
  chart_days-sum v f chosen t rows each zero cursor last h =
      sym (sum_where-none (within chosen cursor last) f t (λ o. ground arith))
  chart_days-sum v f chosen t rows each (suc fuel) cursor last h =
      let rest = chart_days-sum v f chosen t rows each fuel (suc cursor) last (omega arith) in
      elim (Bool-cases (leb cursor last)) [
        | inl e ↦
            rw (e, each cursor, rest)
              (sum_where-either (on_day chosen cursor) (within chosen (suc cursor) last)
                (within chosen cursor last) f t (λ o. ground arith) (λ o. ground arith))
        | inr e ↦ rw e (sym (sum_where-none (within chosen cursor last) f t (λ o. ground arith)))
      ]

  abbrev pub Measured : (Order → Bool) → List Order → SalesDay → Type 0
  Measured chosen t r =
      (r.gross_revenue_cents ≡ sum_where (on_day chosen r.date) (λ o. o.total_cents) t)
      × (r.sales_count ≡ sum_where (on_day chosen r.date) (λ o. 1) t)

  chart_days-Measured :
      (chosen : Order → Bool) (t : List Order) (fuel cursor last : ℕ)
      → All (Measured chosen t) (
          chart_days calendar plain instant fuel cursor last
            (sales_by_day calendar plain instant chosen t))
  chart_days-Measured chosen t zero cursor last = tt
  chart_days-Measured chosen t (suc fuel) cursor last =
      let rest = chart_days-Measured chosen t fuel (suc cursor) last in
      elim (Bool-cases (leb cursor last)) [
        | inl e ↦ rw e (
          rw (day_of-date cursor (sales_by_day calendar plain instant chosen t))
              (day_of-sales cursor chosen t),
          rest,
        )
        | inr e ↦ rw e tt
      ]

  -- The chart has one entry for each day of the range, in order, also for the days without a sale;
  -- each entry is the sum and the number of that day's sold orders; and all the entries together
  -- are the sum and the number of the sold orders of the range, none lost and none counted twice.
  pub chart_is_complete :
      (env : Env) (query : AdminOrdersQuery) (s : Store)
      → let first = first_day calendar plain instant env query in
        let last = last_day calendar plain instant env query in
        let sold = sold_between calendar plain instant first last in
        let chart = get_sales_timeseries calendar plain instant env query s in
        (map (λ (r : SalesDay). r.date) chart ≡ days_from first (suc last - first))
        × All (Measured sold s.orders) chart
        × (sum_where (λ r. true) (λ (r : SalesDay). r.gross_revenue_cents) chart
            ≡ sum_where sold (λ o. o.total_cents) s.orders)
        × (sum_where (λ r. true) (λ (r : SalesDay). r.sales_count) chart
            ≡ sum_where sold (λ o. 1) s.orders)
  unfolding get_sales_timeseries
  chart_is_complete env query s =
      let first = first_day calendar plain instant env query in
      let last = last_day calendar plain instant env query in
      let sold = sold_between calendar plain instant first last in
      let rows = sales_by_day calendar plain instant sold s.orders in
      (
        chart_days-dates (suc last) first last rows (omega arith),
        chart_days-Measured sold s.orders (suc last) first last,
        chart_days-sum (λ r. r.gross_revenue_cents) (λ o. o.total_cents) sold s.orders rows
              (λ d. (day_of-sales d sold s.orders).0) (suc last) first last (omega arith)
            ∙ sum_where-same (within sold first last) sold (λ o. o.total_cents) s.orders
                (λ o. ground arith),
        chart_days-sum (λ r. r.sales_count) (λ o. 1) sold s.orders rows
              (λ d. (day_of-sales d sold s.orders).1) (suc last) first last (omega arith)
            ∙ sum_where-same (within sold first last) sold (λ o. 1) s.orders (λ o. ground arith),
      )
