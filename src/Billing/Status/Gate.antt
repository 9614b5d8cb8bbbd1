-- ===== src/Billing/Status/Gate.antt =====
-- Theorems on services/billing/status.py and services/billing/gating.py.
use sentry_backend.Base.{◌≤◌, ◌≡◌, ◌↔◌, none, some, Option, arith}
use sentry_backend.Base.Int.{ℤ, pos, ◌≤ℤ◌}
use sentry_backend.Billing.Models.{Time}
use sentry_backend.Billing.Status.{suspended, billing_status}

-- The window has run out, or there is none.
abbrev pub Closed : Option Time → Time → Type 0
Closed none now = Unit
Closed (some t) now = t ≤ now

-- An org is suspended exactly when its balance is not positive and neither its promo window nor its
-- credit is still open.
pub billing_status-suspended :
    (b : ℤ) (credit promo : Option Time) (now : Time)
    → (billing_status b credit promo now ≡ suspended)
      ↔ ((b ≤ℤ pos 0) × Closed promo now × Closed credit now)
unfolding billing_status
billing_status-suspended b credit promo now = ground arith
