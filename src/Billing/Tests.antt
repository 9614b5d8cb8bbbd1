-- ===== src/Billing/Tests.antt =====
-- Concrete runs of the billing core, and its theorems at concrete inputs.
use sentry_backend.Base.{ℕ, ◌+◌, ◌*◌, ◌≤◌, ◌≡◌, ◌≢◌, refl, true, false, none, some, [], ◌∷◌, arith}
use sentry_backend.Base.Int.{◌+ℤ◌, ◌-ℤ◌, ℤ, pos}
use sentry_backend.Base.Dict.{lookup}
use sentry_backend.Base.Action.{ok}
use sentry_backend.Billing.Models.{Time, Db, BillingProfile, bonus_amount, PromoCode}
use sentry_backend.Billing.Pricing.{
  store_monthly_mnt, daily_from_monthly, org_daily_charge_mnt, org_monthly_charge_mnt,
}
use sentry_backend.Billing.Pricing.Bounds.{org_daily_close}
use sentry_backend.Billing.Status.{billing_status, org_billing_status, is_open}
use sentry_backend.Billing.Ledger.{post_entry, has_charge, get_or_create_profile}
use sentry_backend.Billing.Ledger.Balance.{window_of, Posts, post_entry-Posts}
use sentry_backend.Billing.Promo.{RedeemArgs, accepted, redeem}
use sentry_backend.Billing.Promo.Once.{Accepted, redeem-Accepted, redeem_once}
use sentry_backend.Billing.Invariant.{Inv}
use sentry_backend.Billing.Charger.{empty_summary, charge_session, charge_org}
use sentry_backend.Billing.Charger.Daily.{Charges, Idle, charge_session-Charges}
use sentry_backend.Billing.Charger.Passes.{charge_org_again}
use sentry_backend.Billing.Api.{topup_org, topup_entry}
use sentry_backend.Billing.Api.Reach.{here, next, topped_up, changed, empty_db, Reach-Inv}

abbrev spring : PromoCode
spring = record {
  id = 3;
  code = 65 ∷ 66 ∷ [];
  kind = bonus_amount;
  amount_mnt = some (pos 5_000);
  free_days = none;
  valid_until = some 900;
  max_redemptions = 2;
  redeemed_count = 0;
  active = true;
  note = none;
}

abbrev wallet_of : ℤ → BillingProfile
wallet_of balance = record {
  balance_mnt = balance;
  credit_until = none;
  credit_note = none;
  promo_free_until = none;
}

-- Org 1 has a store with two cameras and 100 000 in its wallet; org 2 has nothing.
abbrev two_orgs : Db
two_orgs = record {
  orgs = 1 ∷ 2 ∷ [];
  stores = record { id = 10; organization_id = 1 } ∷ [];
  cameras =
      record { store_id = 10; enabled = true }
      ∷ record { store_id = 10; enabled = true }
      ∷ record { store_id = 10; enabled = false }
      ∷ [];
  profiles = (1, wallet_of (pos 100_000)) ∷ [];
  journal = [];
  promos = spring ∷ [];
  redemptions = [];
  fresh = 5;
}

abbrev redeem_spring : ℕ → RedeemArgs
redeem_spring now = record { org_id = 1; code = 32 ∷ 97 ∷ 66 ∷ []; user_id = none; now = now }

abbrev spring_taken : PromoCode
spring_taken = record spring { redeemed_count = 1 }

-- A month of two cameras is 93 000, and a day 3 100.
org_daily-run : org_daily_charge_mnt (2 ∷ []) ≡ 3_100
unfolding org_daily_charge_mnt daily_from_monthly store_monthly_mnt
org_daily-run = refl

redeem-run : (redeem (redeem_spring 7) two_orgs).0 ≡ ok (accepted spring_taken)
unfolding redeem post_entry lookup ◌+ℤ◌
redeem-run = refl

abbrev one_org : Db
one_org = record empty_db { orgs = 1 ∷ [] }

Reach-Inv_example : Inv (topup_org 5 1 (pos 700) 9 one_org).1
Reach-Inv_example =
    Reach-Inv (next (next here (changed (1 ∷ []) [] [] refl)) (topped_up 5 1 (pos 700) 9 refl))

post_entry-Posts_example : Posts two_orgs (post_entry (topup_entry 5 1 (pos 700) 9) two_orgs)
post_entry-Posts_example = post_entry-Posts (topup_entry 5 1 (pos 700) 9) two_orgs

charge_session-Charges_example :
    Charges
      (org_billing_status two_orgs 1 5)
      (is_open (window_of two_orgs 1) 5)
      20
      1
      3_100
      two_orgs
      (charge_session 5 20 1 3_100 two_orgs)
charge_session-Charges_example = charge_session-Charges 5 20 1 3_100 two_orgs (omega arith)

redeem-Accepted_example :
    Accepted (redeem_spring 7) two_orgs (redeem (redeem_spring 7) two_orgs).1 spring_taken
redeem-Accepted_example = redeem-Accepted (redeem_spring 7) two_orgs redeem-run

redeem_once_example :
    (redeem (redeem_spring 8) (redeem (redeem_spring 7) two_orgs).1).0 ≢ ok (accepted spring_taken)
redeem_once_example =
    redeem_once (redeem_spring 7) (redeem_spring 8) two_orgs redeem-run refl refl spring_taken

abbrev charged_db : Db
charged_db = (charge_session 5 20 1 3_100 two_orgs).1

charged-run : has_charge 1 (some 20) charged_db.journal ≡ true
unfolding charge_session has_charge get_or_create_profile lookup billing_status post_entry ◌+ℤ◌ ◌-ℤ◌
charged-run = refl

charge_org_again_example :
    Idle charged_db (charge_org 6 20 [] 1 (2 ∷ []) empty_summary charged_db).1
charge_org_again_example = charge_org_again 6 20 [] 1 (2 ∷ []) empty_summary charged_db charged-run

abbrev utc_day : Time → ℕ
utc_day now = 20

org_daily_close_example :
    (30 * org_daily_charge_mnt (2 ∷ []) ≤ org_monthly_charge_mnt (2 ∷ []) + 15 * 1)
    × (org_monthly_charge_mnt (2 ∷ []) ≤ 30 * org_daily_charge_mnt (2 ∷ []) + 15 * 1)
org_daily_close_example = org_daily_close (2 ∷ [])

abbrev nine : ℕ
nine = 9
