-- ===== src/Billing/Promo/Rules.antt =====
-- Theorems on `validate_promo` and the promo window of services/billing/promo.py.
use sentry_backend.Base.{ℕ, ◌+◌, ◌≤◌, ◌<◌, ◌≡◌, ◌↔◌, Bool, true, false, Option, none, some, arith}
use sentry_backend.Billing.Models.{Time, PromoCode}
use sentry_backend.Billing.Promo.{validate_promo, extend_promo_window}

-- The code's validity has no end, or one that lies ahead.
abbrev pub InForce : Option Time → Time → Type 0
InForce none now = Unit
InForce (some t) now = now < t

-- An existing code is redeemable exactly when it is active, is in force, has redemptions left and the
-- org has not redeemed it before.
pub validate_promo_iff :
    (p : PromoCode) (already : Bool) (now : Time)
    → (validate_promo (some p) already now ≡ none) ↔ (
        (p.active ≡ true)
        × InForce p.valid_until now
        × (already ≡ false)
        × (p.redeemed_count < p.max_redemptions))
unfolding validate_promo
validate_promo_iff p already now = ground arith

-- Two extensions, one after the other, add up: no day of either is lost.
pub extend-extend :
    (current : Option Time) (d e : ℕ) (now : Time)
    → extend_promo_window (some (extend_promo_window current d now)) e now
      ≡ extend_promo_window current (d + e) now
unfolding extend_promo_window
extend-extend current d e now = ground arith

-- `redeem` reads the window of a free-days code without the row lock. A session that extends the
-- window it has read before another session's extension of `d` days (at least one) was committed
-- ends at an earlier time than one that reads it afterwards: the other's days are lost.
pub stale_read_loses_days :
    (current : Option Time) (d e : ℕ) (now : Time)
    → 1 ≤ d
    → extend_promo_window current e now
      < extend_promo_window (some (extend_promo_window current d now)) e now
unfolding extend_promo_window
stale_read_loses_days current d e now h = ground arith
