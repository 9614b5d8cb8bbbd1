-- ===== src/Billing/Models.antt =====
-- The tables that billing reads and writes (db/models/billing.py), with the rows of the three
-- tables that they refer to. A UUID is a number. A time is a number of microseconds in UTC, and a
-- date is a number of days. The free text of a journal entry (description, meta) is left out: no
-- code reads it.
use sentry_backend.Base.{ℕ, ◌*◌, Bool, Option, List}
use sentry_backend.Base.Int.{ℤ}
use sentry_backend.Base.Dict.{Dict}
use Prim.Native.String.{String}

abbrev pub Time : Type 0
Time = ℕ

-- timedelta(days=n)
abbrev pub timedelta_days : ℕ → Time
timedelta_days n = n * 86_400_000_000

pub data JournalKind : Type 0 where
  topup usage_charge promo_credit adjustment : JournalKind

pub data LedgerAccount : Type 0 where
  cash org_wallet revenue promo_expense : LedgerAccount

pub record BillingJournal : Type 0 where
  pub id : ℕ
  pub org_id : ℕ
  pub posted_at : Time
  pub kind : JournalKind
  pub dr_account : LedgerAccount
  pub cr_account : LedgerAccount
  pub amount_mnt : ℤ
  pub charge_date : Option ℕ
  pub created_by_user_id : Option ℕ

-- Its `org_id` is the key of the table.
pub record BillingProfile : Type 0 where
  pub balance_mnt : ℤ
  pub credit_until : Option Time
  pub credit_note : Option String
  pub promo_free_until : Option Time

pub data PromoKind : Type 0 where
  bonus_amount free_days : PromoKind

-- A code is the list of its code points.
pub record PromoCode : Type 0 where
  pub id : ℕ
  pub code : List ℕ
  pub kind : PromoKind
  pub amount_mnt : Option ℤ
  pub free_days : Option ℤ
  pub valid_until : Option Time
  pub max_redemptions : ℕ
  pub redeemed_count : ℕ
  pub active : Bool
  pub note : Option String

pub record PromoRedemption : Type 0 where
  pub promo_id : ℕ
  pub org_id : ℕ
  pub journal_id : Option ℕ

pub record Store : Type 0 where
  pub id : ℕ
  pub organization_id : ℕ

pub record Camera : Type 0 where
  pub store_id : ℕ
  pub enabled : Bool

-- The database as billing sees it. `fresh` is the next unused UUID.
pub record Db : Type 0 where
  pub orgs : List ℕ
  pub stores : List Store
  pub cameras : List Camera
  pub profiles : Dict BillingProfile
  pub journal : List BillingJournal
  pub promos : List PromoCode
  pub redemptions : List PromoRedemption
  pub fresh : ℕ
