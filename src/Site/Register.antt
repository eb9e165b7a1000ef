-- ===== src/Site/Register.antt =====
-- What any sequence of calls leaves of the two lists of addresses.
use kori_backend.Site.{taken_is_conflict}
use kori_backend.Site.Subscribers.{kept_subscribers, new_subscription, remove_subscriber, subscribe}
use kori_backend.Site.Signal.{kept_signups, new_signup, remove_signup, sign_up, CreateSignalSignup}
use kori_backend.Database.{
  throw, handle_failure, Result, ok, http, err, Store, Subscriber_clash, SignalSignup_clash,
  Subscriber, SignalSignup, Prisma, Env,
}
use kori_backend.Prelude.{
  ap, if◌then◌else◌, mem_discard, mem-append_left, ◌++◌, arith, [], IsDistinct-discard, ◌∷◌, false,
  discard, all, IsDistinct-append, inr, inl, any, Bool-cases, refl, true, str_eq-sym, Memᴰ, ◌≡◌,
  str_eq, IsDistinct, not, Option, List, String, Bool,
}

-- The calls of visitors and of the panel on the two lists.
pub data ListCall : Type 0 where
  signed : Env → CreateSignalSignup → Option String → ListCall
  unsigned : String → ListCall
  subscribed : Env → String → Option String → ListCall
  unsubscribed : String → ListCall

-- The identifiers of the rows that the call removes.
abbrev pub spares : String → ListCall → Bool
spares id (unsigned x) = not (str_eq id x)
spares id (unsubscribed x) = not (str_eq id x)
spares id (signed env dto ip) = true
spares id (subscribed env email ip) = true

signup-turn : (a b : SignalSignup) → SignalSignup_clash a b ≡ SignalSignup_clash b a
signup-turn a b = rw (str_eq-sym a.id b.id, str_eq-sym a.email b.email) refl

subscriber-turn : (a b : Subscriber) → Subscriber_clash a b ≡ Subscriber_clash b a
subscriber-turn a b = rw (str_eq-sym a.id b.id, str_eq-sym a.email b.email) refl

-- A table after a call: no two rows clash, and every row whose identifier is spared is there
-- as it was.
abbrev Follows :
    {R : Type 0} (clash : R → R → Bool) (id_of : R → String) (call : ListCall)
    → List R
    → List R
    → Type 0
Follows clash id_of call t t' =
    (IsDistinct clash t → IsDistinct clash t')
    × ((r : _) → Memᴰ r t → spares (id_of r) call ≡ true → Memᴰ r t')

module _ {R : Type 0} (clash : R → R → Bool) (id_of : R → String) where
  same-Follows : (c : ListCall) (t : List R) → Follows clash id_of c t t
  same-Follows c t = (λ u. u, λ r m k. m)

  append-Follows :
      (turn : (a b : R) → clash a b ≡ clash b a) (c : ListCall) (t : List R) (row : R)
      → any (clash row) t ≡ false
      → Follows clash id_of c t (t ++ row ∷ [])
  append-Follows turn c t row e =
      (IsDistinct-append clash turn row t e, λ r m k. mem-append_left t (row ∷ []) r m)

  discard-Follows :
      (c : ListCall) (t : List R) (id : String)
      → ((r : R) → spares (id_of r) c ≡ not (str_eq (id_of r) id))
      → Follows clash id_of c t (discard (λ r. str_eq (id_of r) id) t)
  discard-Follows c t id same = (
    IsDistinct-discard clash (λ r. str_eq (id_of r) id) t,
    λ r m k. mem_discard (λ q. str_eq (id_of q) id) t r m (ground (arith, same r)),
  )

module _ (db : Prisma) (hmac : String → String → String) (pepper : Option String) where
  abbrev pub listed : ListCall → Store → Store
  listed (signed env dto ip) s = (sign_up db hmac pepper env dto ip s).0
  listed (unsigned id) s = (remove_signup db hmac pepper id s).0
  listed (subscribed env email ip) s = (subscribe db hmac pepper env email ip s).0
  listed (unsubscribed id) s = (remove_subscriber db hmac pepper id s).0

  sign_up-answers :
      (env : Env) (dto : CreateSignalSignup) (ip : Option String) (s : Store)
      → sign_up db hmac pepper env dto ip s ≡ (
          if any (SignalSignup_clash (new_signup db hmac pepper env dto ip)) s.signups
          then (s, err (http 409))
          else (
            record s { signups = s.signups ++ new_signup db hmac pepper env dto ip ∷ [] },
            ok tt,
          ))
  unfolding sign_up
  sign_up-answers env dto ip s =
      let row = new_signup db hmac pepper env dto ip in
      let answer = λ (r : Result (List SignalSignup)).
        handle_failure (kept_signups db hmac pepper tt s r) (λ e. throw (taken_is_conflict e)) in
      elim (Bool-cases (any (SignalSignup_clash row) s.signups)) [
        | inl e ↦ rw e (ap answer (db.signal_signup.create_clash row s.signups e))
        | inr e ↦ rw e (ap answer (db.signal_signup.create_new row s.signups e))
      ]

  subscribe-answers :
      (env : Env) (email : String) (ip : Option String) (s : Store)
      → subscribe db hmac pepper env email ip s ≡ (
          if any (Subscriber_clash (new_subscription db hmac pepper env email ip)) s.subscribers
          then (s, err (http 409))
          else (
            record s {
              subscribers = s.subscribers ++ new_subscription db hmac pepper env email ip ∷ [];
            },
            ok email,
          ))
  unfolding subscribe
  subscribe-answers env email ip s =
      let row = new_subscription db hmac pepper env email ip in
      let answer = λ (r : Result (List Subscriber)).
        handle_failure (kept_subscribers db hmac pepper email s r)
          (λ e. throw (taken_is_conflict e)) in
      elim (Bool-cases (any (Subscriber_clash row) s.subscribers)) [
        | inl e ↦ rw e (ap answer (db.subscriber.create_clash row s.subscribers e))
        | inr e ↦ rw e (ap answer (db.subscriber.create_new row s.subscribers e))
      ]

  listed-Follows :
      (c : ListCall) (s : Store)
      → Follows SignalSignup_clash (λ r. r.id) c s.signups (listed c s).signups
        × Follows Subscriber_clash (λ r. r.id) c s.subscribers (listed c s).subscribers
  unfolding remove_signup remove_subscriber
  listed-Follows (signed env dto ip) s =
      let row = new_signup db hmac pepper env dto ip in
      let other = same-Follows Subscriber_clash (λ r. r.id) (signed env dto ip) s.subscribers in
      elim (Bool-cases (any (SignalSignup_clash row) s.signups)) [
        | inl e ↦
            rw (listed, sign_up-answers env dto ip s, e)
              (same-Follows SignalSignup_clash (λ r. r.id) (signed env dto ip) s.signups, other)
        | inr e ↦
            rw (listed, sign_up-answers env dto ip s, e)
              (
                append-Follows SignalSignup_clash (λ r. r.id) signup-turn (signed env dto ip)
                    s.signups row e,
                other,
              )
      ]
  listed-Follows (subscribed env email ip) s =
      let row = new_subscription db hmac pepper env email ip in
      let other = same-Follows SignalSignup_clash (λ r. r.id) (subscribed env email ip) s.signups in
      elim (Bool-cases (any (Subscriber_clash row) s.subscribers)) [
        | inl e ↦
            rw (listed, subscribe-answers env email ip s, e)
              (
                other,
                same-Follows Subscriber_clash (λ r. r.id) (subscribed env email ip) s.subscribers,
              )
        | inr e ↦
            rw (listed, subscribe-answers env email ip s, e)
              (
                other,
                append-Follows Subscriber_clash (λ r. r.id) subscriber-turn
                    (subscribed env email ip) s.subscribers row e,
              )
      ]
  listed-Follows (unsigned id) s =
      let other = same-Follows Subscriber_clash (λ r. r.id) (unsigned id) s.subscribers in
      elim (Bool-cases (any (λ (r : SignalSignup). str_eq r.id id) s.signups)) [
        | inl e ↦
            rw (db.signal_signup.delete_lem (λ r. str_eq r.id id) s.signups e, listed)
              (
                discard-Follows SignalSignup_clash (λ r. r.id) (unsigned id) s.signups id
                    (λ r. refl),
                other,
              )
        | inr e ↦
            rw (db.signal_signup.delete_missing (λ r. str_eq r.id id) s.signups e, listed)
              (same-Follows SignalSignup_clash (λ r. r.id) (unsigned id) s.signups, other)
      ]
  listed-Follows (unsubscribed id) s =
      let other = same-Follows SignalSignup_clash (λ r. r.id) (unsubscribed id) s.signups in
      elim (Bool-cases (any (λ (r : Subscriber). str_eq r.id id) s.subscribers)) [
        | inl e ↦
            rw (db.subscriber.delete_lem (λ r. str_eq r.id id) s.subscribers e, listed)
              (
                other,
                discard-Follows Subscriber_clash (λ r. r.id) (unsubscribed id) s.subscribers id
                    (λ r. refl),
              )
        | inr e ↦
            rw (db.subscriber.delete_missing (λ r. str_eq r.id id) s.subscribers e, listed)
              (other, same-Follows Subscriber_clash (λ r. r.id) (unsubscribed id) s.subscribers)
      ]

  abbrev pub run_list : List ListCall → Store → Store
  run_list [] s = s
  run_list (c ∷ cs) s = run_list cs (listed c s)

  -- No sequence of sign-ups, subscriptions and removals puts one address or one identifier twice
  -- on a list, nor changes a row that is there: until a call removes its identifier, the name and
  -- the consent of a person stay as that person gave them, whoever signs up with the same address.
  pub run_list-kept :
      (cs : List ListCall) (s : Store)
      → (IsDistinct SignalSignup_clash s.signups
          → IsDistinct SignalSignup_clash (run_list cs s).signups)
        × (IsDistinct Subscriber_clash s.subscribers
            → IsDistinct Subscriber_clash (run_list cs s).subscribers)
        × ((r : SignalSignup)
            → Memᴰ r s.signups
            → all (spares r.id) cs ≡ true
            → Memᴰ r (run_list cs s).signups)
        × ((r : Subscriber)
            → Memᴰ r s.subscribers
            → all (spares r.id) cs ≡ true
            → Memᴰ r (run_list cs s).subscribers)
  run_list-kept [] s = (λ u. u, λ u. u, λ r m k. m, λ r m k. m)
  run_list-kept (c ∷ cs) s =
      let (one, two) = listed-Follows c s in
      let (a, b, d, e) = run_list-kept cs (listed c s) in
      (
        λ u. a (one.0 u),
        λ u. b (two.0 u),
        λ r m k. d r (one.1 r m (ground arith)) (ground arith),
        λ r m k. e r (two.1 r m (ground arith)) (ground arith),
      )
