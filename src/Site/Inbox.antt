-- ===== src/Site/Inbox.antt =====
-- From the contact form to the mail that the queue sends.
use kori_backend.Outbox.{send_found, send_contact, execute}
use kori_backend.Site.Contact.{
  kept_messages, new_message, CreateContactMessage, standalone_job, enqueue_standalone, receive,
}
use kori_backend.Prelude.{
  inr, inl, Option-cases, some, if◌then◌else◌, List, IsKeyed, ◌∙◌, refl, ap, eq_iff, str_eq,
  any-of_mem, Memᴰ, [], ◌∷◌, ◌++◌, false, ◌≡◌, any, Option, String,
}
use kori_backend.Database.{
  pure, catch, continue, contact_message, ok, OutboxJob_clash, ContactMessage, ContactMessage_clash,
  Store, send_contact_message, OutboxJob, Env, Failure, Prisma,
}

module _ (db : Prisma) (hmac : String → String → String) (pepper : Option String)
    (sha256 : String → String) (public_base_url : Option String) (message : Failure → String) where
  abbrev pub job_of : Env → OutboxJob
  job_of env = standalone_job (env.uuid 1) env.now send_contact_message (env.uuid 0)

  -- `skipDuplicates`: the job is left out if the queue holds one of its identifier or key.
  abbrev pub queued : Env → List OutboxJob → List OutboxJob
  queued env jobs =
      if any (OutboxJob_clash (job_of env)) jobs then jobs else jobs ++ job_of env ∷ []

  abbrev with_message : Env → CreateContactMessage → Option String → Store → Store
  with_message env dto ip s = record s {
    contact_messages = s.contact_messages ++ new_message db hmac pepper env dto ip ∷ [];
    jobs = queued env s.jobs;
  }

  received :
      (env : Env) (dto : CreateContactMessage) (ip : Option String) (s : Store)
      → any (ContactMessage_clash (new_message db hmac pepper env dto ip)) s.contact_messages
        ≡ false
      → receive db hmac pepper env dto ip s ≡ (with_message env dto ip s, ok tt)
  unfolding receive enqueue_standalone
  received env dto ip s h =
      let row = new_message db hmac pepper env dto ip in
      let job = db.outbox_job.create_many_lem (job_of env ∷ []) s.jobs in
      ap
        (λ r. continue (kept_messages db hmac pepper (env.uuid 0) s r) (λ id.
          catch (enqueue_standalone db hmac pepper env send_contact_message id) (λ e. pure tt)))
        (db.contact_message.create_new row s.contact_messages h)
      ∙ rw job refl

  found :
      (t : List ContactMessage) (row : ContactMessage)
      → Memᴰ row t
      → IsKeyed ContactMessage_clash t
      → db.contact_message.find_first (λ (m : ContactMessage). str_eq m.id row.id) t ≡ some row
  found t row m keyed =
      let p = λ (x : ContactMessage). str_eq x.id row.id in
      elim (Option-cases (db.contact_message.find_first p t)) [
        | inl e ↦
            let there = any-of_mem p t m ((eq_iff row.id row.id).1 refl) in
            let nowhere = db.contact_message.find_first_none p t e in cc
        | inr (other, e) ↦
            let (k, same) = db.contact_message.find_first_some p t other e in
            e ∙ ap some (keyed other row k m same)
      ]

  -- A message whose identifier is new is kept and its sender is answered, and its job is put into
  -- the queue unless a job of the same identifier or key is there. Running that job on any later
  -- state that still holds the message, and in which no two messages have one identifier, sends
  -- the message as it was written and changes nothing.
  pub received_is_sent :
      (env : Env) (dto : CreateContactMessage) (ip : Option String) (s : Store)
      → any (ContactMessage_clash (new_message db hmac pepper env dto ip)) s.contact_messages
        ≡ false
      → let (s', answer) = receive db hmac pepper env dto ip s in
        (answer ≡ ok tt)
        × (s'.contact_messages ≡ s.contact_messages ++ new_message db hmac pepper env dto ip ∷ [])
        × (s'.jobs ≡ queued env s.jobs)
        × ((env' : Env) (t : Store)
            → Memᴰ (new_message db hmac pepper env dto ip) t.contact_messages
            → IsKeyed ContactMessage_clash t.contact_messages
            → execute db sha256 public_base_url message env' (job_of env) t
              ≡ (t, env'.send (contact_message (new_message db hmac pepper env dto ip))))
  unfolding execute send_contact
  received_is_sent env dto ip s h = rw (received env dto ip s h) (
    refl,
    refl,
    refl,
    λ env' t m keyed.
        let there = found t.contact_messages (new_message db hmac pepper env dto ip) m keyed in
        rw (there, send_found) refl,
  )
