-- ===== src/Billing/Charger.antt =====
-- services/billing/charger.py: the daily charge. `ub_date` stands for the time zone database, which
-- gives the Ulaanbaatar calendar day of a moment. A per-org transaction may meet a journal that
-- another replica has written since the snapshot, so `charge_org` takes the database as it finds it;
-- from its first read on the transaction runs alone. A lost connection is left out.
pub mod Daily
pub mod Passes
use sentry_backend.Base.{
  ℕ, suc, ◌+◌, Bool, true, false, ◌&&◌, Option, none, some, List, [], ◌∷◌, ◌++◌, ◌==◌, leb,
  if◌then◌else◌,
}
use sentry_backend.Base.Int.{ℤ, pos}
use sentry_backend.Base.Lists.{count_by}
use sentry_backend.Base.Dict.{Dict, lookup, insert}
use sentry_backend.Base.Eq.{nat_eq}
use sentry_backend.Base.Sets.{IdSet, member}
use sentry_backend.Base.Action.{
  Action, Error, Result, ok, err, value_error, integrity_error, data_error, http, pure, transaction,
  ◌>>=◌, ◌>>◌,
}
use sentry_backend.Billing.Models.{
  Time, Db, Store, Camera, BillingJournal, BillingProfile, JournalKind, usage_charge, promo_credit,
}
use sentry_backend.Billing.Pricing.{org_daily_charge_mnt}
use sentry_backend.Billing.Status.{
  BillingStatus, active, credit, suspended, billing_status, is_open,
}
use sentry_backend.Billing.Ledger.{
  get_or_create_profile, is_usage, same_date, EntryArgs, post_entry,
}

pub record Summary : Type 0 where
  pub charged : ℕ
  pub skipped_already_charged : ℕ
  pub skipped_suspended : ℕ
  pub skipped_no_cameras : ℕ
  pub skipped_conflict : ℕ
  pub promo_credited : ℕ

abbrev pub empty_summary : Summary
empty_summary = record {
  charged = 0;
  skipped_already_charged = 0;
  skipped_suspended = 0;
  skipped_no_cameras = 0;
  skipped_conflict = 0;
  promo_credited = 0;
}

-- The query: each store's org and its number of enabled cameras.
unfoldable pub store_rows : List Camera → List Store → List (ℕ × ℕ)
store_rows cams [] = []
store_rows cams (s ∷ ss) =
    (s.organization_id, count_by (λ c. c.store_id == s.id && c.enabled) cams) ∷ store_rows cams ss

abbrev pub counts_of : Option (List ℕ) → List ℕ
counts_of none = []
counts_of (some counts) = counts

-- `org_store_counts.setdefault(org_id, []).append(n)`, for each row
unfoldable pub group_rows : List (ℕ × ℕ) → Dict (List ℕ) → Dict (List ℕ)
group_rows [] groups = groups
group_rows ((org, n) ∷ rows) groups =
    group_rows rows (insert org (counts_of (lookup org groups) ++ (n ∷ [])) groups)

unfoldable pub org_store_counts : Db → Dict (List ℕ)
unfolding store_rows group_rows
org_store_counts db = group_rows (store_rows db.cameras db.stores) []

-- The orgs that have a usage charge for the day.
unfoldable pub charged_on : ℕ → List BillingJournal → IdSet
charged_on today [] = []
charged_on today (e ∷ j) =
    let rest = charged_on today j in
    if is_usage e.kind && same_date e.charge_date (some today) then e.org_id ∷ rest else rest

-- How one org's transaction ended; the flag says whether the promo credit was posted too.
pub data Outcome : Type 0 where
  suspended_org : Outcome
  charged_org : Bool → Outcome

abbrev pub usage_entry : Time → ℕ → ℕ → ℕ → EntryArgs
usage_entry now today org daily = record {
  now = now;
  org_id = org;
  kind = usage_charge;
  amount_mnt = pos daily;
  dr_account = none;
  cr_account = none;
  charge_date = some today;
  created_by_user_id = none;
}

abbrev pub promo_entry : Time → ℕ → ℕ → EntryArgs
promo_entry now org daily = record {
  now = now;
  org_id = org;
  kind = promo_credit;
  amount_mnt = pos daily;
  dr_account = none;
  cr_account = none;
  charge_date = none;
  created_by_user_id = none;
}

-- The promo credit, while the promo window is open.
unfoldable pub net_promo : Bool → Time → ℕ → ℕ → Action Db Outcome
net_promo false now org daily = pure (charged_org false)
net_promo true now org daily = do post_entry (promo_entry now org daily); pure (charged_org true)

-- `continue` leaves the session scope, which commits the profile row that may have been created.
unfoldable pub charge_by_status : BillingStatus → Bool → Time → ℕ → ℕ → ℕ → Action Db Outcome
unfolding net_promo
charge_by_status suspended promo_open now today org daily = pure suspended_org
charge_by_status status promo_open now today org daily = do
  post_entry (usage_entry now today org daily)
  net_promo promo_open now org daily

-- The body of the per-org session.
unfoldable pub charge_session : Time → ℕ → ℕ → ℕ → Action Db Outcome
unfolding charge_by_status
charge_session now today org daily = do
  p ← get_or_create_profile org
  charge_by_status (billing_status p.balance_mnt p.credit_until p.promo_free_until now)
      (is_open p.promo_free_until now) now today org daily

-- The counters after one session; only an IntegrityError is caught, any other leaves the loop.
abbrev pub tally : Result Outcome → Summary → Result Summary
tally (ok suspended_org) s = ok (record s { skipped_suspended = s.skipped_suspended + 1 })
tally (ok (charged_org false)) s = ok (record s { charged = s.charged + 1 })
tally (ok (charged_org true)) s =
    ok (record s { promo_credited = s.promo_credited + 1; charged = s.charged + 1 })
tally (err integrity_error) s = ok (record s { skipped_conflict = s.skipped_conflict + 1 })
tally (err data_error) s = err data_error
tally (err value_error) s = err value_error
tally (err (http n)) s = err (http n)

-- One turn of the loop over the snapshot's orgs.
unfoldable pub charge_org : Time → ℕ → IdSet → ℕ → List ℕ → Summary → Action Db Summary
unfolding transaction
charge_org now today charged_today org counts s db =
    let daily = org_daily_charge_mnt counts in
    let (r, db') = transaction (charge_session now today org daily) db in
    if member org charged_today
    then (ok (record s { skipped_already_charged = s.skipped_already_charged + 1 }), db)
    else if leb daily 0
    then (ok (record s { skipped_no_cameras = s.skipped_no_cameras + 1 }), db)
    else (tally r s, db')

unfoldable pub charge_loop : Time → ℕ → IdSet → Dict (List ℕ) → Summary → Action Db Summary
charge_loop now today charged_today [] s = pure s
charge_loop now today charged_today ((org, counts) ∷ rest) s = do
  s' ← charge_org now today charged_today org counts s
  charge_loop now today charged_today rest s'

unfoldable pub charge_once : (Time → ℕ) → Time → Action Db Summary
unfolding org_store_counts charged_on charge_loop
charge_once ub_date now db =
    charge_loop now (ub_date now) (charged_on (ub_date now) db.journal) (org_store_counts db)
      empty_summary db
