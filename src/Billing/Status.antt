-- ===== src/Billing/Status.antt =====
-- services/billing/status.py and services/billing/gating.py: the billing status of an org.
pub mod Gate
use sentry_backend.Base.{ℕ, Bool, true, false, ◌||◌, Option, none, some, ltb, if◌then◌else◌}
use sentry_backend.Base.Int.{ℤ, pos, is_pos}
use sentry_backend.Base.Dict.{lookup}
use sentry_backend.Billing.Models.{Time, Db, BillingProfile}

pub data BillingStatus : Type 0 where
  active credit suspended : BillingStatus

-- `t is not None and t > now`
abbrev pub is_open : Option Time → Time → Bool
is_open none now = false
is_open (some t) now = ltb now t

unfoldable pub billing_status : ℤ → Option Time → Option Time → Time → BillingStatus
billing_status balance_mnt credit_until promo_free_until now =
    if is_pos balance_mnt || is_open promo_free_until now
    then active
    else if is_open credit_until now
    then credit
    else suspended

abbrev profile_status : Option BillingProfile → Time → BillingStatus
profile_status none now = billing_status (pos 0) none none now
profile_status (some p) now = billing_status p.balance_mnt p.credit_until p.promo_free_until now

-- `org_billing_status`: an org with no profile row has the status of an empty wallet.
unfoldable pub org_billing_status : Db → ℕ → Time → BillingStatus
unfolding billing_status
org_billing_status db org_id now = profile_status (lookup org_id db.profiles) now
