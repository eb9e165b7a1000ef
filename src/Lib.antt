-- ===== src/Lib.antt =====
-- The store of the kori! backend: orders, payments, deliveries and the queue of deferred work.
--
-- A buyer's cart becomes an order and a payment session (Checkout). Stripe reports what happened
-- to the session through the webhook (Webhook), whose handlers write the order, its jobs and its
-- download grants (Payments). The queue executes the jobs (Outbox): mails, production, digital
-- delivery (Orders.Delivery); a job that keeps failing puts its order under review, from which an
-- administrator can put it back (Outbox.Retry). A periodic pass asks Stripe about orders that
-- stayed pending, and deletes old ones that were never paid (Reconciliation). Buyers download by
-- the tokens of their mails (Orders.Downloads), or ask for new ones (Orders.Purchases). The panel's
-- users open sessions (Auth), edit what is on sale (Catalog) and its files (Storage), and read the
-- statistics of the sales (Orders.Panel, Orders.Chart). The landing page shows the settings
-- (Settings) and the wall of notes that were approved (Notes), and takes addresses and messages
-- (Site), of which the queue mails the latter. Calls to outside services go through a circuit
-- breaker (CircuitBreaker). Latency keeps how long routes take. Sanitize makes
-- the texts of visitors plain, and Origins says whose pages may call.
--
-- Files and sources, each by its path in the repository:
--   Database (Schema, Catalog, Site, State, Client, Outcome, Kept): prisma/schema.prisma, the rows
--     with their unique keys; the tables as a state `Store`; the client's operations with their
--     documented effect, `Delegate`, as a parameter; exceptions as `Failure`; a call as a function
--     of the tables that returns the new ones and a value or an exception, `M`, with
--     `transaction` and `catch`.
--   Constants: src/common/constants/order.constants.ts, digital.constants.ts,
--     src/common/money/currency.ts.
--   Payments (Effects, Safety, Once): src/modules/payments/payments.service.ts, one function per
--     method, such as `handle_payment_succeeded` for handlePaymentSucceeded.
--   Webhook (Delivery): src/modules/payments/stripe-webhook.controller.ts.
--   Outbox (Backoff, Summary, Claims, Review,
--     Delivered, Safety): src/modules/outbox/outbox.service.ts;
--     Outbox.Retry: src/modules/outbox/admin-retry.controller.ts.
--   Reconciliation (Safety, Summary): src/modules/payments/order-reconciliation.service.ts,
--     internal-orders.controller.ts.
--   Orders: Delivery is digital-delivery.service.ts, Downloads and Limits downloads.controller.ts,
--     Purchases purchases.service.ts, all of src/modules/orders. Progress says how the orders table
--     may change, and Rules which calls keep to it. Panel (with Stats) and Chart (with Days):
--     orders.service.ts.
--   Checkout (Lines): src/modules/checkout/checkout.service.ts.
--   Auth (Duration, Rotation, Password, Lifetimes): src/modules/auth/auth.service.ts. Cookies (with
--     CookieHeader, CookieSession): src/common/utils/cookie.util.ts, auth.constants.ts and the
--     cookies of auth.controller.ts, both of src/modules/auth.
--   Catalog (Rows; Sellable, Edits, Calls, Variants, Products, OnSale, Digital, Cart, Sales):
--     src/modules/catalog/catalog.service.ts, one function per call that writes. Images (with
--     Pictures, LastPicture, Primary, PrimaryDeletion, Shown):
--     src/modules/catalog/product-images.service.ts. Assets (Files): digital-asset.service.ts.
--     Public (Shelf): public-catalog.service.ts.
--   Storage (Filename, Headers): src/modules/storage/digital-assets.service.ts.
--   Settings (Values; Writes; Refinement, with the abstract service):
--     src/modules/settings/settings.service.ts.
--   Site: Subscribers is src/modules/subscribers/subscribers.service.ts, Signal
--     src/modules/signal/signal.service.ts, Contact (Inbox) src/modules/contact/contact.service.ts;
--     Register and Pages are about the lists of all three.
--   Notes (Drawings, Kept, Moderation, Orphans): src/modules/notes/notes.service.ts and
--     notes.repository.ts; Admin: src/modules/admin/admin-notes.service.ts.
--   Sanitize (Escapes): src/common/utils/text-sanitize.util.ts. Origins (Allowed):
--     src/common/http/cors-origins.ts.
--   CircuitBreaker (Calls): src/common/resilience/circuit-breaker.ts.
--   Latency (Percentiles, Snapshot): src/common/observability/latency.registry.ts, whose sorting
--     stands in Prelude.Sort.
--   System (Buyers, Entries, Paid): the calls of all parts as steps, `Step`, and what they reach.
--   Tests: tables held as lists, which meet the laws of `Delegate`; samples; the theorems at
--     concrete inputs.
--
-- Conventions. Times are milliseconds and amounts cents, both natural numbers without bound: the
-- amounts of a cart stay far below what a double holds exactly. `Env` is what a call takes from
-- outside: the clock (one reading a call), identifiers, tokens, Math.random, the sending of mails.
-- Loops are structural, on the lists or the characters that they run over; the rounds of the
-- sanitizing are the source's five; the digits of a number in a text alone run on fuel, the number
-- itself, which has no more digits than that; the days of the chart run on the last day's number and
-- one more, which is at least the number of days. A call
-- runs without interruption, but where the source guards against others between a read and a write:
-- there the two halves are apart (`candidates` and `take_batch`, `check` and `take_use`, the two
-- ends of the circuit breaker's `run`). Related rows that a deletion takes along are deleted with
-- it. The database is assumed to answer; in which order it gives rows of one key is left open.
-- Stripe, sha256, createHmac, bcrypt, the signature of tokens, sanitize-html,
-- the locale, the reading of dates, addresses and escaped cookies, the calendar of the time zone,
-- the stores of files and the texts of exceptions are parameters. The bucket of the drawings is a
-- record of operations and laws, `Bucket`; the random style of a note is an argument.
--
-- Not modelled: the guards of the panel's routes, the validation of requests by
-- decorators, the panel's listings of the catalog and of one order, the estimated fees of the
-- statistics, the drivers of the object stores, the texts of mails, logging,
-- schedulers and start-up. The calls of `Step` are those of payments, the queue, the checkout, the
-- reconciliation and the downloads alone: those of Auth and Catalog are not among them.
pub mod Prelude
pub mod Database
pub mod Payments
pub mod Webhook
pub mod Constants
pub mod Notes
pub mod Orders
pub mod Outbox
pub mod Reconciliation
pub mod Checkout
pub mod CircuitBreaker
pub mod Latency
pub mod Auth
pub mod Site
pub mod Storage
pub mod Origins
pub mod Sanitize
pub mod Settings
pub mod Catalog
pub mod System
mod Tests
