-- ===== src/Billing/Pricing.antt =====
-- services/billing/pricing.py: the tiers, a store's monthly fee and an org's daily charge. A camera
-- count is the result of a SQL `count`, so it is a natural number, and so are the prices.
pub mod Bounds
use sentry_backend.Base.{
  ℕ, ◌+◌, ◌*◌, ◌/◌, Option, none, some, List, [], ◌∷◌, map, leb, ltb, ◌==◌, if◌then◌else◌,
}
use sentry_backend.Base.Lists.{sum}
use sentry_backend.Base.Action.{Result, ok, err, value_error}
use Prim.Native.String.{String}

abbrev pub days_per_month : ℕ
days_per_month = 30

pub record Tier : Type 0 where
  pub name : String
  pub min_cameras : ℕ
  pub max_cameras : Option ℕ  -- none = unbounded
  pub platform_fee_mnt : ℕ
  pub camera_fee_mnt : ℕ

abbrev pub starter : Tier
starter = record {
  name = "starter";
  min_cameras = 1;
  max_cameras = some 9;
  platform_fee_mnt = 49_000;
  camera_fee_mnt = 22_000;
}

abbrev pub pro : Tier
pro = record {
  name = "pro";
  min_cameras = 10;
  max_cameras = some 50;
  platform_fee_mnt = 39_000;
  camera_fee_mnt = 17_000;
}

abbrev pub enterprise : Tier
enterprise = record {
  name = "enterprise";
  min_cameras = 51;
  max_cameras = none;
  platform_fee_mnt = 29_000;
  camera_fee_mnt = 12_000;
}

abbrev pub tiers : List Tier
tiers = starter ∷ pro ∷ enterprise ∷ []

-- The loop of `tier_for`; past the last tier stands `raise AssertionError`.
first_tier : ℕ → List Tier → Result Tier
first_tier n [] = err value_error
first_tier n (t ∷ ts) =
    let rest = first_tier n ts in
    elim t.max_cameras [ none ↦ ok t | some top ↦ if leb n top then ok t else rest ]

unfoldable pub tier_for : ℕ → Result Tier
unfolding first_tier
tier_for n = if ltb n 1 then err value_error else first_tier n tiers

-- The fee of a store in a tier. `tier_for` raises only below one camera.
tier_fee : ℕ → Result Tier → ℕ
tier_fee n (ok t) = t.platform_fee_mnt + t.camera_fee_mnt * n
tier_fee n (err _) = 0

unfoldable pub store_monthly_mnt : ℕ → ℕ
unfolding tier_for tier_fee
store_monthly_mnt n = if leb n 0 then 0 else tier_fee n (tier_for n)

unfoldable pub daily_from_monthly : ℕ → ℕ
daily_from_monthly monthly =
    if leb monthly 0 then 0 else (monthly + days_per_month / 2) / days_per_month

unfoldable pub org_daily_charge_mnt : List ℕ → ℕ
org_daily_charge_mnt counts = sum (map (λ n. daily_from_monthly (store_monthly_mnt n)) counts)

unfoldable pub org_monthly_charge_mnt : List ℕ → ℕ
org_monthly_charge_mnt counts = sum (map store_monthly_mnt counts)
