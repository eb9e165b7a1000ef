-- ===== src/Site.antt =====
-- The landing page's lists: the subscribers, `La señal`, the contact form and the wall of notes,
-- and what they share, common/utils/hash.util.ts and the cutting of a list into pages.
pub mod Subscribers
pub mod Signal
pub mod Contact
pub mod Pages
pub mod Register
pub mod Inbox
use kori_backend.Prelude.{
  truthy, none, trim, str_eq, ◌/◌, if◌then◌else◌, ◌-◌, some, ◌+◌, min, max, Option, ℕ, String, List,
}
use kori_backend.Database.{ok, unique_violation, err, http, Result, Failure}

abbrev keyed : (String → String) → Option String → Option String
keyed f none = none
keyed f (some secret) = some (f secret)

-- `hmacSha256OrNull`, over Node's `createHmac`.
abbrev pub hmac_or_null : (String → String → String) → Option String → Option String → Option String
hmac_or_null hmac none secret = none
hmac_or_null hmac (some value) secret =
    if str_eq (trim value) "" then none else keyed (hmac (trim value)) (truthy secret)

-- `P2002` is answered with 409, and any other failure as it is.
abbrev pub taken_is_conflict : Failure → Failure
taken_is_conflict Failure.unique_violation = http 409
taken_is_conflict e = e

-- `P2025` counts as deleted.
abbrev pub deleted_already : {R : Type 0} → List R → Result (List R) → Result (List R)
deleted_already t (err Failure.not_found) = ok t
deleted_already t r = r

-- `safePage` and `safeLimit`, for whole numbers from 0 on.
abbrev pub safe_page : ℕ → ℕ
safe_page page = max page 1

abbrev pub safe_limit : ℕ → ℕ
safe_limit limit = min (max limit 1) 100

-- `Math.ceil(total / limit)`.
abbrev pub page_count : ℕ → ℕ → ℕ
page_count total limit = (total + (limit - 1)) / limit

-- `data` and `meta` of an answer that is one page of a list.
pub record Page (A : Type 0) : Type 0 where
  pub data_rows : List A
  pub page : ℕ
  pub limit : ℕ
  pub total : ℕ
  pub total_pages : ℕ
