-- ===== src/Billing/Pricing/Bounds.antt =====
-- Theorems on services/billing/pricing.py.
use sentry_backend.Base.{
  ℕ, leb, Bool-cases, ◌+◌, ◌*◌, ◌≤◌, ◌<◌, ◌≡◌, ◌↔◌, ◌⊎◌, inl, inr, none, some, List, [], ◌∷◌, arith,
}
use sentry_backend.Base.Lists.{length}
use sentry_backend.Base.Action.{ok}
use sentry_backend.Billing.Pricing.{
  Tier, starter, pro, enterprise, tier_for, store_monthly_mnt, daily_from_monthly,
  org_daily_charge_mnt, org_monthly_charge_mnt,
}

-- The camera count lies in the bounds of the tier.
abbrev pub Fits : ℕ → Tier → Type 0
Fits n t = (t.min_cameras ≤ n) × elim t.max_cameras [ none ↦ Unit | some top ↦ n ≤ top ]

-- Every store with a camera has a tier, and its camera count lies within that tier's bounds.
pub tier_for-Fits : (n : ℕ) → 1 ≤ n → (t : Tier) × (tier_for n ≡ ok t) × Fits n t
unfolding tier_for
tier_for-Fits n h = elim (Bool-cases (leb n 9)) [
  | inl small ↦ (starter, ground arith, (omega arith, ground arith))
  | inr more ↦ elim (Bool-cases (leb n 50)) [
    | inl middle ↦ (pro, ground arith, (ground arith, ground arith))
    | inr large ↦ (enterprise, ground arith, (ground arith, tt))
  ]
]

-- Within a tier one more camera raises the fee; only at the two steps to a cheaper tier (9 to 10
-- and 50 to 51 cameras) the fee falls.
pub store_monthly_step :
    (n : ℕ)
    → (store_monthly_mnt n < store_monthly_mnt (n + 1))
      ⊎ ((n ≡ 9) ⊎ (n ≡ 50)) × (store_monthly_mnt (n + 1) < store_monthly_mnt n)
unfolding store_monthly_mnt
store_monthly_step n = ground arith

-- A store costs nothing exactly when it has no camera.
pub store_monthly-zero : (n : ℕ) → (store_monthly_mnt n ≡ 0) ↔ (n ≡ 0)
unfolding store_monthly_mnt
store_monthly-zero n = ground arith

-- Thirty daily charges miss the monthly fee by at most half a day's rounding, 15.
pub daily_close :
    (m : ℕ) → (30 * daily_from_monthly m ≤ m + 15) × (m ≤ 30 * daily_from_monthly m + 15)
unfolding daily_from_monthly
daily_close m = ground arith

-- Thirty daily charges of an org miss its monthly rate by at most 15 for each store.
pub org_daily_close :
    (counts : List ℕ)
    → (30 * org_daily_charge_mnt counts ≤ org_monthly_charge_mnt counts + 15 * length counts)
      × (org_monthly_charge_mnt counts ≤ 30 * org_daily_charge_mnt counts + 15 * length counts)
unfolding org_daily_charge_mnt org_monthly_charge_mnt
org_daily_close [] = omega arith
org_daily_close (n ∷ counts) =
    omega (arith, daily_close (store_monthly_mnt n), org_daily_close counts)
