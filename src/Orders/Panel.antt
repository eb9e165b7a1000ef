-- ===== src/Orders/Panel.antt =====
-- modules/orders/orders.service.ts: what the panel reads of the orders. The reading of dates and
-- the shop's calendar are parameters; a day is its number in that calendar.
use kori_backend.Site.{page_count, Page}
use kori_backend.Database.{
  needs_review, refunded, cancelled, delivered, shipped, in_production, paid, pending_payment,
  Store, Prisma, OrderStatus, Order,
}
use kori_backend.Prelude.{
  max, ◌*◌, ◌-◌, truthy, map, false, [], ◌==◌, ◌<>◌, ◌&&◌, true, none, leb, ◌∷◌, some, length,
  if◌then◌else◌, Bool, ℕ, String, Option, List,
}
use Prim.Native.Char.{code, Char}

-- `SOLD_STATUSES`.
abbrev pub is_sold : OrderStatus → Bool
is_sold OrderStatus.paid = true
is_sold OrderStatus.in_production = true
is_sold OrderStatus.shipped = true
is_sold OrderStatus.delivered = true
is_sold OrderStatus.needs_review = true
is_sold _ = false

abbrev pub status_code : OrderStatus → ℕ
status_code pending_payment = 0
status_code paid = 1
status_code in_production = 2
status_code shipped = 3
status_code delivered = 4
status_code cancelled = 5
status_code refunded = 6
status_code needs_review = 7

pub record AdminOrdersQuery : Type 0 where
  pub status : Option OrderStatus
  pub from : Option String
  pub to : Option String
  pub page : Option ℕ
  pub limit : Option ℕ

-- The `select` of `findOrders`.
pub record OrderRow : Type 0 where
  pub id : String
  pub order_number : ℕ
  pub status : OrderStatus
  pub customer_email : String
  pub customer_name : Option String
  pub total_cents : ℕ
  pub currency : String
  pub created_at : ℕ
  pub paid_at : Option ℕ
  pub item_count : ℕ

abbrev pub order_row : Order → OrderRow
order_row o = record {
  id = o.id;
  order_number = o.order_number;
  status = o.status;
  customer_email = o.customer_email;
  customer_name = o.customer_name;
  total_cents = o.total_cents;
  currency = o.currency;
  created_at = o.created_at;
  paid_at = o.paid_at;
  item_count = length o.items;
}

-- The answer of `getStats`, less the fees, which are estimated in floating point.
pub record OrderStats : Type 0 where
  pub sales_count : ℕ
  pub gross_revenue_cents : ℕ
  pub products_revenue_cents : ℕ
  pub shipping_revenue_cents : ℕ
  pub refunded_count : ℕ
  pub refunded_cents : ℕ
  pub count_by_status : OrderStatus → ℕ

-- `byStatus.find(row => row.status === status)?._count ?? 0`.
abbrev pub count_of : ℕ → List (ℕ × ℕ) → ℕ
count_of k [] = 0
count_of k (g ∷ rows) = let rest = count_of k rows in if g.0 == k then g.1 else rest

abbrev number_or : Option ℕ → ℕ → ℕ
number_or none d = d
number_or (some n) d = n

-- `/^\d{4}-\d{2}-\d{2}$/`.
abbrev is_digit : Char → Bool
is_digit c = leb b'0' (code c) && leb (code c) b'9'

abbrev shaped : List Bool → String → Bool
shaped [] String.[] = true
shaped (digit ∷ shape) (String.◌∷◌ c s) =
    (if digit then is_digit c else code c == b'-') && shaped shape s
shaped _ _ = false

abbrev pub is_date_only : String → Bool
is_date_only value =
    shaped (true ∷ true ∷ true ∷ true ∷ false ∷ true ∷ true ∷ false ∷ true ∷ true ∷ []) value

module _ (db : Prisma) (instant : String → ℕ) where
  -- `endOfDayIfDateOnly`.
  abbrev pub end_of_day : String → ℕ
  end_of_day value =
      if is_date_only value then instant (value <> "T23:59:59.999Z") else instant value

  abbrev after_start : Option String → ℕ → Bool
  after_start none at = true
  after_start (some from) at = leb (instant from) at

  abbrev before_end : Option String → ℕ → Bool
  before_end none at = true
  before_end (some to) at = leb at (end_of_day to)

  abbrev of_status : Option OrderStatus → OrderStatus → Bool
  of_status none st = true
  of_status (some want) st = status_code st == status_code want

  -- `buildWhere`.
  abbrev pub build_where : AdminOrdersQuery → Order → Bool
  build_where query o =
      of_status query.status o.status
      && after_start (truthy query.from) o.created_at
      && before_end (truthy query.to) o.created_at

  -- `findOrders`.
  unfoldable pub find_orders : AdminOrdersQuery → Store → Page OrderRow
  find_orders query s =
      let page = number_or query.page 1 in
      let limit = number_or query.limit 20 in
      let total = db.order.count (build_where query) s.orders in
      record {
        data_rows = map order_row (
            db.order.find_page (build_where query) (λ o. o.created_at) ((page - 1) * limit) limit
              s.orders);
        page = page;
        limit = limit;
        total = total;
        total_pages = max 1 (page_count total limit);
      }

  -- `getStats`.
  unfoldable pub get_stats : AdminOrdersQuery → Store → OrderStats
  get_stats query s =
      let shown = build_where query in
      let sold = λ (o : Order). shown o && is_sold o.status in
      let returned = λ (o : Order). shown o && status_code o.status == 6 in
      let by_status = db.order.group_count (λ o. status_code o.status) shown s.orders in
      record {
        sales_count = db.order.count sold s.orders;
        gross_revenue_cents = db.order.sum sold (λ o. o.total_cents) s.orders;
        products_revenue_cents = db.order.sum sold (λ o. o.subtotal_cents) s.orders;
        shipping_revenue_cents = db.order.sum sold (λ o. o.shipping_cents) s.orders;
        refunded_count = db.order.count returned s.orders;
        refunded_cents = db.order.sum returned (λ o. o.total_cents) s.orders;
        count_by_status = λ st. count_of (status_code st) by_status;
      }
