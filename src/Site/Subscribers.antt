-- ===== src/Site/Subscribers.antt =====
-- modules/subscribers/subscribers.service.ts: the mailing list of the landing page.
use kori_backend.Site.{
  page_count, safe_page, taken_is_conflict, safe_limit, hmac_or_null, deleted_already, Page,
}
use kori_backend.Prelude.{◌*◌, ◌-◌, map, true, str_eq, List, ℕ, Option, String}
use kori_backend.Database.{err, throw, ok, catch, Result, Store, M, Env, Subscriber, Prisma}

pub record SubscriberRecord : Type 0 where
  pub id : String
  pub email : String
  pub created_at : ℕ

-- `subscriberSelect`.
abbrev pub subscriber_record : Subscriber → SubscriberRecord
subscriber_record r = record { id = r.id; email = r.email; created_at = r.created_at }

module _ (db : Prisma) (hmac : String → String → String) (pepper : Option String) where
  abbrev pub kept_subscribers :
      {A : Type 0} → A → Store → Result (List Subscriber) → Store × Result A
  kept_subscribers a s (ok t) = (record s { subscribers = t }, ok a)
  kept_subscribers a s (err e) = (s, err e)

  abbrev pub new_subscription : Env → String → Option String → Subscriber
  new_subscription env email ip = record {
    id = env.uuid 0;
    email = email;
    ip_hash = hmac_or_null hmac ip pepper;
    created_at = env.now;
  }

  -- `subscribe`, which answers with the address that is stored.
  unfoldable pub subscribe : Env → String → Option String → M String
  subscribe env email ip =
      let row = new_subscription env email ip in
      catch (λ s. kept_subscribers email s (db.subscriber.create row s.subscribers))
        (λ e. throw (taken_is_conflict e))

  -- `remove` of a subscriber, which answers with the identifier.
  unfoldable pub remove_subscriber : String → M String
  remove_subscriber id s = kept_subscribers id s (
      deleted_already s.subscribers
        (db.subscriber.delete (λ (r : Subscriber). str_eq r.id id) s.subscribers))

  -- `findAll` of the subscribers.
  unfoldable pub find_subscribers : ℕ → ℕ → Store → Page SubscriberRecord
  find_subscribers page limit s =
      let n = safe_limit limit in
      let total = db.subscriber.count (λ r. true) s.subscribers in
      record {
        data_rows = map subscriber_record (
            db.subscriber.find_page (λ r. true) (λ r. r.created_at) ((safe_page page - 1) * n) n
              s.subscribers);
        page = safe_page page;
        limit = n;
        total = total;
        total_pages = page_count total n;
      }
