-- ===== src/Orders/Chart.antt =====
-- `getSalesTimeseries` of modules/orders/orders.service.ts: the sales of each day, for the
-- panel's chart.
use kori_backend.Orders.Panel.{is_sold, is_date_only, AdminOrdersQuery}
use kori_backend.Database.{Store, Order, Env}
use kori_backend.Prelude.{
  ◌*◌, ◌-◌, ◌+◌, ◌&&◌, zero, ◌==◌, truthy, none, leb, suc, some, if◌then◌else◌, Bool, ◌∷◌, [],
  Option, String, List, ℕ,
}

pub record SalesDay : Type 0 where
  pub date : ℕ
  pub gross_revenue_cents : ℕ
  pub sales_count : ℕ

-- `GROUP BY "day"`: one row for each day that has an order, with COUNT and SUM.
abbrev pub add_sale : ℕ → ℕ → List SalesDay → List SalesDay
add_sale day cents [] = record { date = day; gross_revenue_cents = cents; sales_count = 1 } ∷ []
add_sale day cents (r ∷ rows) =
    let rest = add_sale day cents rows in
    if r.date == day
    then record r {
      gross_revenue_cents = cents + r.gross_revenue_cents;
      sales_count = suc r.sales_count;
    }
      ∷ rows
    else r ∷ rest

-- `porDia.get(date)`, filled with zeros.
abbrev pub day_of : ℕ → List SalesDay → SalesDay
day_of date [] = record { date = date; gross_revenue_cents = 0; sales_count = 0 }
day_of date (r ∷ rows) = let rest = day_of date rows in if r.date == date then r else rest

-- `calendar` is the day of an instant in the shop's time zone, `plain` the day that a date without
-- a time names, and `instant` the reading of any other date.
module _ (calendar : ℕ → ℕ) (plain instant : String → ℕ) where
  abbrev pub sold_between : ℕ → ℕ → Order → Bool
  sold_between first last o =
      is_sold o.status && leb first (calendar o.created_at) && leb (calendar o.created_at) last

  -- The rows of the query over the orders.
  abbrev pub sales_by_day : (Order → Bool) → List Order → List SalesDay
  sales_by_day chosen [] = []
  sales_by_day chosen (o ∷ orders) =
      let rest = sales_by_day chosen orders in
      if chosen o then add_sale (calendar o.created_at) o.total_cents rest else rest

  -- The `while` over the cursor, which the fuel outlasts.
  abbrev pub chart_days : ℕ → ℕ → ℕ → List SalesDay → List SalesDay
  chart_days zero cursor last rows = []
  chart_days (suc fuel) cursor last rows =
      let rest = chart_days fuel (suc cursor) last rows in
      if leb cursor last then day_of cursor rows ∷ rest else []

  -- `asPlainDate`.
  abbrev pub as_plain_date : Option String → Option ℕ
  as_plain_date none = none
  as_plain_date (some value) =
      some (if is_date_only value then plain value else calendar (instant value))

  abbrev day_or : Option ℕ → ℕ → ℕ
  day_or none d = d
  day_or (some n) d = n

  -- The first and the last day that a query asks for.
  abbrev pub first_day : Env → AdminOrdersQuery → ℕ
  first_day env query =
      day_or (as_plain_date (truthy query.from)) (calendar (env.now - 29 * 24 * 60 * 60 * 1000))

  abbrev pub last_day : Env → AdminOrdersQuery → ℕ
  last_day env query = day_or (as_plain_date (truthy query.to)) (calendar env.now)

  unfoldable pub get_sales_timeseries : Env → AdminOrdersQuery → Store → List SalesDay
  get_sales_timeseries env query s =
      let first = first_day env query in
      let last = last_day env query in
      chart_days (suc last) first last (sales_by_day (sold_between first last) s.orders)
