-- ===== src/Site/Contact.antt =====
-- modules/contact/contact.service.ts: the messages of the contact form, and `enqueueStandalone`
-- of modules/outbox/outbox.service.ts.
use kori_backend.Payments.{new_job}
use kori_backend.Site.{page_count, safe_page, safe_limit, hmac_or_null, Page}
use kori_backend.Prelude.{
  ◌*◌, ◌-◌, none, map, true, some, [], List, ◌∷◌, text_or, str_eq, ℕ, Option, String,
}
use kori_backend.Database.{
  pure, err, send_contact_message, ok, catch, ◌>>=◌, Result, OutboxJob, Store, M, JobType, Env,
  Prisma, ContactMessage,
}

pub record CreateContactMessage : Type 0 where
  pub name : String
  pub email : String
  pub message : String
  pub locale : Option String

pub record ContactRecord : Type 0 where
  pub id : String
  pub name : String
  pub email : String
  pub message : String
  pub locale : String
  pub created_at : ℕ

abbrev pub contact_record : ContactMessage → ContactRecord
contact_record r = record {
  id = r.id;
  name = r.name;
  email = r.email;
  message = r.message;
  locale = r.locale;
  created_at = r.created_at;
}

-- The job of a message, with the schema's defaults and no order.
abbrev pub standalone_job : String → ℕ → JobType → String → OutboxJob
standalone_job uuid now type id = record (new_job uuid now type id) {
  contact_message_id = some id;
  order_id = none;
}

module _ (db : Prisma) (hmac : String → String → String) (pepper : Option String) where
  -- `enqueueStandalone`, whose payload is `{ contactMessageId }`.
  unfoldable pub enqueue_standalone : Env → JobType → String → M (Unit {0})
  enqueue_standalone env type id s = (
    record s {
      jobs = db.outbox_job.create_many (standalone_job (env.uuid 1) env.now type id ∷ []) s.jobs;
    },
    ok tt,
  )

  abbrev pub new_message : Env → CreateContactMessage → Option String → ContactMessage
  new_message env dto ip = record {
    id = env.uuid 0;
    name = dto.name;
    email = dto.email;
    message = dto.message;
    locale = text_or dto.locale "es";
    ip_hash = hmac_or_null hmac ip pepper;
    created_at = env.now;
  }

  abbrev pub kept_messages :
      {A : Type 0} → A → Store → Result (List ContactMessage) → Store × Result A
  kept_messages a s (ok t) = (record s { contact_messages = t }, ok a)
  kept_messages a s (err e) = (s, err e)

  -- `receive`: the message is kept first, and a failure to enqueue is only logged.
  unfoldable pub receive : Env → CreateContactMessage → Option String → M (Unit {0})
  receive env dto ip = do
    row ← λ s.
        kept_messages (env.uuid 0) s
          (db.contact_message.create (new_message env dto ip) s.contact_messages)
    catch (enqueue_standalone env send_contact_message row) (λ e. pure tt)

  -- `remove` of a message.
  unfoldable pub remove_message : String → M String
  remove_message id s =
      kept_messages id s
        (db.contact_message.delete (λ (r : ContactMessage). str_eq r.id id) s.contact_messages)

  -- `findAll` of the messages.
  unfoldable pub find_messages : ℕ → ℕ → Store → Page ContactRecord
  find_messages page limit s =
      let n = safe_limit limit in
      let total = db.contact_message.count (λ r. true) s.contact_messages in
      record {
        data_rows = map contact_record (
            db.contact_message.find_page (λ r. true) (λ r. r.created_at) ((safe_page page - 1) * n)
              n s.contact_messages);
        page = safe_page page;
        limit = n;
        total = total;
        total_pages = page_count total n;
      }
