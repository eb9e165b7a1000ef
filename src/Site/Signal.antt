-- ===== src/Site/Signal.antt =====
-- modules/signal/signal.service.ts: the list of `La señal`, the mails of the campaign.
use kori_backend.Site.{
  page_count, safe_page, taken_is_conflict, safe_limit, hmac_or_null, deleted_already, Page,
}
use kori_backend.Database.{err, ok, throw, catch, Result, Store, M, Env, SignalSignup, Prisma}
use kori_backend.Prelude.{
  ◌*◌, ◌-◌, map, true, none, str_eq, some, List, text_or, false, ℕ, Bool, String, Option,
}

-- The request of a visitor, after its validation.
pub record CreateSignalSignup : Type 0 where
  pub name : String
  pub email : String
  pub locale : Option String
  pub marketing_opt_in : Option Bool
  pub privacy_version : String

pub record SignalSignupRecord : Type 0 where
  pub id : String
  pub name : String
  pub email : String
  pub locale : String
  pub marketing_opt_in : Bool
  pub privacy_version : String
  pub created_at : ℕ

-- `signupSelect`.
abbrev pub signup_record : SignalSignup → SignalSignupRecord
signup_record r = record {
  id = r.id;
  name = r.name;
  email = r.email;
  locale = r.locale;
  marketing_opt_in = r.marketing_opt_in;
  privacy_version = r.privacy_version;
  created_at = r.created_at;
}

abbrev opted : Option Bool → Bool
opted none = false
opted (some b) = b

module _ (db : Prisma) (hmac : String → String → String) (pepper : Option String) where
  abbrev pub new_signup : Env → CreateSignalSignup → Option String → SignalSignup
  new_signup env dto ip = record {
    id = env.uuid 0;
    name = dto.name;
    email = dto.email;
    locale = text_or dto.locale "es";
    marketing_opt_in = opted dto.marketing_opt_in;
    privacy_version = dto.privacy_version;
    ip_hash = hmac_or_null hmac ip pepper;
    created_at = env.now;
  }

  abbrev pub kept_signups : {A : Type 0} → A → Store → Result (List SignalSignup) → Store × Result A
  kept_signups a s (ok t) = (record s { signups = t }, ok a)
  kept_signups a s (err e) = (s, err e)

  -- `signUp`.
  unfoldable pub sign_up : Env → CreateSignalSignup → Option String → M (Unit {0})
  sign_up env dto ip =
      catch (λ s. kept_signups tt s (db.signal_signup.create (new_signup env dto ip) s.signups))
        (λ e. throw (taken_is_conflict e))

  -- `remove` of a signup.
  unfoldable pub remove_signup : String → M String
  remove_signup id s = kept_signups id s (
      deleted_already s.signups
        (db.signal_signup.delete (λ (r : SignalSignup). str_eq r.id id) s.signups))

  -- `findAll` of the signups: the page, and how many accepted the news too.
  unfoldable pub find_signups : ℕ → ℕ → Store → Page SignalSignupRecord × ℕ
  find_signups page limit s =
      let n = safe_limit limit in
      let total = db.signal_signup.count (λ r. true) s.signups in
      (
        record {
          data_rows = map signup_record (
              db.signal_signup.find_page (λ r. true) (λ r. r.created_at) ((safe_page page - 1) * n)
                n s.signups);
          page = safe_page page;
          limit = n;
          total = total;
          total_pages = page_count total n;
        },
        db.signal_signup.count (λ r. r.marketing_opt_in) s.signups,
      )
