-- ===== src/Tests/Site.antt =====
-- The theorems about settings, lists and statistics at concrete inputs.
use kori_backend.Orders.Stats.{stats_add_up}
use kori_backend.Outbox.{execute}
use kori_backend.Orders.Days.{chart_is_complete, Measured}
use kori_backend.Site.Inbox.{queued, received_is_sent, job_of}
use kori_backend.Site.Subscribers.{subscriber_record, find_subscribers}
use kori_backend.Orders.Chart.{SalesDay, sold_between, get_sales_timeseries}
use kori_backend.Site.Pages.{Complete, panel_pages-Complete, gather}
use kori_backend.Site.Register.{run_list-kept, spares, unsigned, signed, run_list, ListCall}
use kori_backend.Site.Signal.{signup_record, find_signups, CreateSignalSignup}
use kori_backend.Site.Contact.{
  contact_record, find_messages, new_message, receive, CreateContactMessage,
}
use kori_backend.Orders.Panel.{find_orders, get_stats, AdminOrdersQuery}
use kori_backend.Tests.Samples.{
  sample_message, refunded_order, sample_hash, sample_env, paid_order, empty_store,
}
use kori_backend.Settings.Refinement.{run_updates-replay, replay, run_updates}
use kori_backend.Database.{
  ContactMessage_clash, needs_review, refunded, contact_message, cancelled, delivered, Subscriber,
  Env, shipped, in_production, paid, Subscriber_clash, SignalSignup_clash, pending_payment, Store,
  SignalSignup, ok,
}
use kori_backend.Tests.Tables.{list_client}
use kori_backend.Settings.{UpdateSettings, get_settings}
use kori_backend.Prelude.{
  IsKeyed, ◌++◌, sum_where, all, map, Memᴰ, ◌+◌, ◌/◌, IsDistinct, ℕ, All, refl, [], ◌∷◌, true, none,
  ◌≡◌, str_eq, some, if◌then◌else◌, Option, Bool, String, List,
}

abbrev sample_hmac : String → String → String
sample_hmac value secret = value

abbrev is_day : String → Bool
is_day value = str_eq value "2026-12-31"

abbrev protocol_of : String → Option String
protocol_of value = if str_eq value "https://kori.mx" then some "https:" else none

-- A date, then one that is no date, then the removal of the first.
abbrev edits : List UpdateSettings
edits =
    record { countdown_target = some "2026-12-31"; album_url = some "https://kori.mx" }
    ∷ record { countdown_target = some "mañana"; album_url = none }
    ∷ record { countdown_target = some ""; album_url = none }
    ∷ []

run_updates-replay_example :
    (get_settings list_client (run_updates list_client is_day protocol_of edits empty_store).0
      ≡ record { countdown_target = none; album_url = some "https://kori.mx" })
    × ((run_updates list_client is_day protocol_of edits empty_store).1
        ≡ (replay list_client is_day protocol_of edits
            (record { countdown_target = none; album_url = none })).1)
run_updates-replay_example = run_updates-replay list_client is_day protocol_of edits empty_store tt

abbrev signup : SignalSignup
signup = record {
  id = "s1";
  name = "Ana";
  email = "ana@example.com";
  locale = "es";
  marketing_opt_in = true;
  privacy_version = "2026-08-01";
  ip_hash = none;
  created_at = 5;
}

abbrev signed_up : Store
signed_up = record empty_store {
  signups = signup ∷ record signup { id = "s2"; email = "b"; created_at = 6 } ∷ [];
}

panel_pages-Complete_example :
    Complete subscriber_record (λ r. r.created_at) [] []
    × Complete signup_record
        (λ r. r.created_at)
        (gather (λ i. (find_signups list_client sample_hmac none i 1 signed_up).0.data_rows) 2)
        signed_up.signups
    × Complete contact_record (λ r. r.created_at) [] []
unfolding find_subscribers find_signups find_messages
panel_pages-Complete_example =
    panel_pages-Complete list_client sample_hmac none 1 1 signed_up tt (refl, (refl, tt)) tt

abbrev again : CreateSignalSignup
again = record {
  name = "Otra";
  email = "ana@example.com";
  locale = none;
  marketing_opt_in = none;
  privacy_version = "2026-08-01";
}

abbrev list_calls : List ListCall
list_calls = signed sample_env again none ∷ unsigned "s2" ∷ []

run_list-kept_example :
    let after = run_list list_client sample_hmac none list_calls signed_up in
    (IsDistinct SignalSignup_clash signed_up.signups → IsDistinct SignalSignup_clash after.signups)
    × (IsDistinct Subscriber_clash [] → IsDistinct Subscriber_clash after.subscribers)
    × ((r : SignalSignup)
        → Memᴰ r signed_up.signups
        → all (spares r.id) list_calls ≡ true
        → Memᴰ r after.signups)
    × ((r : Subscriber)
        → Memᴰ r []
        → all (spares r.id) list_calls ≡ true
        → Memᴰ r after.subscribers)
run_list-kept_example = run_list-kept list_client sample_hmac none list_calls signed_up

abbrev question : CreateContactMessage
question = record { name = "Ana"; email = "ana@example.com"; message = "¿Y mi kit?"; locale = none }

received_is_sent_example :
    let (s', answer) = receive list_client sample_hmac none sample_env question none empty_store in
    (answer ≡ ok tt)
    × (s'.contact_messages
        ≡ empty_store.contact_messages
          ++ new_message list_client sample_hmac none sample_env question none ∷ [])
    × (s'.jobs
        ≡ queued list_client sample_hmac none sample_hash none sample_message sample_env
            empty_store.jobs)
    × ((env' : Env) (t : Store)
        → Memᴰ
            (new_message list_client sample_hmac none sample_env question none)
            t.contact_messages
        → IsKeyed ContactMessage_clash t.contact_messages
        → execute list_client sample_hash none sample_message env'
            (job_of list_client sample_hmac none sample_hash none sample_message sample_env)
            t
          ≡ (
            t,
            env'.send (
                contact_message
                  (new_message list_client sample_hmac none sample_env question none)),
          ))
received_is_sent_example =
    received_is_sent list_client sample_hmac none sample_hash none sample_message sample_env
      question none empty_store refl

abbrev sold_store : Store
sold_store = record empty_store {
  orders = paid_order ∷ record refunded_order { id = "order-2"; order_number = 8 } ∷ [];
}

abbrev whole_list : AdminOrdersQuery
whole_list = record { status = none; from = none; to = none; page = none; limit = none }

abbrev instant_of : String → ℕ
instant_of value = 0

stats_add_up_example :
    let stats = get_stats list_client instant_of whole_list sold_store in
    let n = stats.count_by_status in
    (n pending_payment
        + n paid
        + n in_production
        + n shipped
        + n delivered
        + n cancelled
        + n refunded
        + n needs_review
      ≡ (find_orders list_client instant_of whole_list sold_store).total)
    × (stats.sales_count ≡ n paid + n in_production + n shipped + n delivered + n needs_review)
    × (stats.refunded_count ≡ n refunded)
stats_add_up_example = stats_add_up list_client instant_of whole_list sold_store

abbrev two_days : AdminOrdersQuery
two_days = record whole_list { from = some "2026-08-01"; to = some "2026-08-02" }

abbrev plain_day : String → ℕ
plain_day value = if str_eq value "2026-08-01" then 0 else 1

abbrev day_number : ℕ → ℕ
day_number at = at / 86400000

chart_is_complete_example :
    let chart =
      get_sales_timeseries day_number plain_day instant_of sample_env two_days sold_store in
    let sold = sold_between day_number plain_day instant_of 0 1 in
    (map (λ (r : SalesDay). r.date) chart ≡ 0 ∷ 1 ∷ [])
    × All (Measured day_number plain_day instant_of sold sold_store.orders) chart
    × (sum_where (λ r. true) (λ (r : SalesDay). r.gross_revenue_cents) chart
        ≡ sum_where sold (λ o. o.total_cents) sold_store.orders)
    × (sum_where (λ r. true) (λ (r : SalesDay). r.sales_count) chart
        ≡ sum_where sold (λ o. 1) sold_store.orders)
chart_is_complete_example =
    chart_is_complete day_number plain_day instant_of sample_env two_days sold_store
