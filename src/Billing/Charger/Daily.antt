-- ===== src/Billing/Charger/Daily.antt =====
-- Theorems on the per-org session of `charge_once`, services/billing/charger.py.
use sentry_backend.Base.{
  ℕ, ◌<◌, ◌≡◌, ◌≢◌, refl, sym, ap, inl, ◌∙◌, Bool, true, false, some, arith, if◌then◌else◌, ◌==◌,
  ==_refl,
}
use sentry_backend.Base.Int.{pos, ◌-ℤ◌, ◌+ℤ◌, int_laws}
use sentry_backend.Base.Action.{Result, ok, err, bind_rule, ◌>>◌}
use sentry_backend.Billing.Models.{Time, Db, BillingJournal, BillingProfile}
use sentry_backend.Billing.Status.{
  BillingStatus, active, credit, suspended, billing_status, org_billing_status, is_open,
}
use sentry_backend.Billing.Ledger.{
  get_or_create_profile, post_entry, EntryArgs, has_charge, balance_delta, entry_accounts,
}
use sentry_backend.Billing.Ledger.Balance.{
  balance_of, window_of, post_entry-Posts, Loaded, Posts-ok, get_or_create_profile-Loads, Loads-ok,
  delta_of,
}
use sentry_backend.Billing.Ledger.Entries.{
  IsDbError, post_entry-Describes, Describes, post_entry_error, get_or_create_profile_error,
}
use sentry_backend.Billing.Invariant.{Inv, Posts-Inv, Loads-Inv}
use sentry_backend.Billing.Charger.{
  Outcome, suspended_org, charged_org, net_promo, charge_by_status, charge_session, usage_entry,
  promo_entry,
}

post_entry-Inv : (a : EntryArgs) (db : Db) → Inv db → Inv (post_entry a db).1
post_entry-Inv a db v = Posts-Inv db (post_entry a db) (post_entry-Posts a db) v

net_promo-Inv :
    (promo_open : Bool) (now : Time) (org daily : ℕ) (db : Db)
    → Inv db
    → Inv (net_promo promo_open now org daily db).1
unfolding net_promo
net_promo-Inv false now org daily db v = v
net_promo-Inv true now org daily db v =
    bind_rule (λ out. Inv out.1) (post_entry (promo_entry now org daily) db)
      (λ e _. post_entry-Inv (promo_entry now org daily) db v)
      (λ x _. post_entry-Inv (promo_entry now org daily) db v)

charge_by_status-Inv :
    (s : BillingStatus) (promo_open : Bool) (now : Time) (today org daily : ℕ) (db : Db)
    → Inv db
    → Inv (charge_by_status s promo_open now today org daily db).1
unfolding charge_by_status
charge_by_status-Inv suspended promo_open now today org daily db v = v
charge_by_status-Inv _ promo_open now today org daily db v =
    bind_rule (λ out. Inv out.1) (post_entry (usage_entry now today org daily) db)
      (λ e _.
        net_promo-Inv promo_open now org daily _
          (post_entry-Inv (usage_entry now today org daily) db v))
      (λ x _. post_entry-Inv (usage_entry now today org daily) db v)

-- One org's session keeps the invariant of the billing tables, however it ends.
pub charge_session-Inv :
    (now : Time) (today org daily : ℕ) (db : Db)
    → Inv db
    → Inv (charge_session now today org daily db).1
unfolding charge_session
charge_session-Inv now today org daily db v =
    bind_rule (λ out. Inv out.1) (get_or_create_profile org db)
      (λ p _. charge_by_status-Inv _ _ now today org daily _ (load v)) (λ x _. load v)
  where
    load : Inv db → Inv (get_or_create_profile org db).1
    load = Loads-Inv org db (get_or_create_profile org db) (get_or_create_profile-Loads org db)

-- How a charge of `daily` for the day moves the wallets: the org's falls by the charge, or keeps its
-- balance while a promo window is open, no other wallet moves, and the day counts as charged,
-- which it did not before.
pub record ChargedDay (today org daily : ℕ) (credited : Bool) (db db' : Db) : Type 0 where
  pub balances :
      (o : ℕ)
      → balance_of db' o ≡ (
          if org == o
          then (if credited then balance_of db o else balance_of db o -ℤ pos daily)
          else balance_of db o)
  pub before : has_charge org (some today) db.journal ≡ false
  pub after : has_charge org (some today) db'.journal ≡ true

usage_delta :
    (now : Time) (today org daily : ℕ) (e : BillingJournal)
    → Describes (usage_entry now today org daily) e
    → delta_of e ≡ pos 0 -ℤ pos daily
unfolding balance_delta entry_accounts
usage_delta now today org daily e d = ground (arith, d.accounts, d.amount_mnt)

promo_delta :
    (now : Time) (org daily : ℕ) (e : BillingJournal)
    → Describes (promo_entry now org daily) e
    → delta_of e ≡ pos 0 +ℤ pos daily
unfolding balance_delta entry_accounts
promo_delta now org daily e d = ground (arith, d.accounts, d.amount_mnt)

-- The usage entry alone.
usage_posted :
    (now : Time) (today org daily : ℕ) (db : Db) {e : BillingJournal}
    → (post_entry (usage_entry now today org daily) db).0 ≡ ok e
    → ChargedDay today org daily false db (post_entry (usage_entry now today org daily) db).1
unfolding has_charge
usage_posted now today org daily db {e} h =
    let a = usage_entry now today org daily in
    let d = post_entry-Describes a db h in
    let p = Posts-ok db (post_entry a db) (post_entry-Posts a db) h in
    record {
      balances = λ o. grind (int_laws, p.balances o, d.org_id, usage_delta now today org daily e d);
      before = ground (arith, p.first, d.org_id, d.kind, d.charge_date);
      after =
          rw p.journal
            (ground (arith, d.org_id, d.kind, d.charge_date, ==_refl org, ==_refl today));
    }

-- The usage entry and then the promo credit: the wallet keeps its balance.
promo_posted :
    (now : Time) (today org daily : ℕ) (db mid : Db) {e : BillingJournal}
    → ChargedDay today org daily false db mid
    → (post_entry (promo_entry now org daily) mid).0 ≡ ok e
    → ChargedDay today org daily true db (post_entry (promo_entry now org daily) mid).1
unfolding has_charge
promo_posted now today org daily db mid {e} c h =
    let a = promo_entry now org daily in
    let d = post_entry-Describes a mid h in
    let p = Posts-ok mid (post_entry a mid) (post_entry-Posts a mid) h in
    record {
      balances = λ o.
          grind (int_laws, p.balances o, c.balances o, d.org_id, promo_delta now org daily e d);
      before = c.before;
      after = rw p.journal (ground (arith, c.after));
    }

-- A session that leaves the journal and every balance as they were.
pub record Idle (db db' : Db) : Type 0 where
  pub balances : (o : ℕ) → balance_of db' o ≡ balance_of db o
  pub journal : db'.journal ≡ db.journal

-- What the session has done, by how it ended, for an org with this billing status and promo window.
abbrev pub Charges : BillingStatus → Bool → ℕ → ℕ → ℕ → Db → Result Outcome × Db → Type 0
Charges s promo_open today org daily db (ok suspended_org, db') = Idle db db' × (s ≡ suspended)
Charges s promo_open today org daily db (ok (charged_org credited), db') =
    ChargedDay today org daily credited db db' × (s ≢ suspended) × (credited ≡ promo_open)
Charges s promo_open today org daily db (err x, db') = IsDbError x

net_promo-Charges :
    (s : BillingStatus) (promo_open : Bool) (now : Time) (today org daily : ℕ) (db mid : Db)
    → 0 < daily
    → s ≢ suspended
    → ChargedDay today org daily false db mid
    → Charges s promo_open today org daily db (net_promo promo_open now org daily mid)
unfolding net_promo
net_promo-Charges s false now today org daily db mid paid served c = (c, served, refl)
net_promo-Charges s true now today org daily db mid paid served c =
    bind_rule (Charges s true today org daily db) (post_entry (promo_entry now org daily) mid)
      (λ e h. (promo_posted now today org daily db mid c h, served, refl))
      (λ x h.
        post_entry_error (promo_entry now org daily) mid (ground arith)
          (unfold entry_accounts in refl) h)

-- Loading the profile first changes no balance and no journal.
after_load :
    (s s' : BillingStatus) (w w' : Bool) (today org daily : ℕ) (db mid : Db)
    (r : Result Outcome × Db) (p : BillingProfile)
    → Loaded org db mid p
    → s' ≡ s
    → w' ≡ w
    → Charges s' w' today org daily mid r
    → Charges s w today org daily db r
after_load s s' w w' today org daily db mid (ok suspended_org, db') p l hs hw (c, e) = (
  record { balances = λ o. c.balances o ∙ l.balances o; journal = c.journal ∙ l.journal },
  sym hs ∙ e,
)
after_load s s' w w' today org daily db mid (ok (charged_org b), db') p l hs hw (c, served, e) = (
  record {
    balances = λ o. rw (← l.balances o) (c.balances o);
    before = rw (← l.journal) c.before;
    after = c.after;
  },
  λ k. served (hs ∙ k),
  e ∙ hw,
)
after_load s s' w w' today org daily db mid (err x, db') p l hs hw c = c

-- The charge of an org that is not suspended.
served-Charges :
    (s : BillingStatus) (promo_open : Bool) (now : Time) (today org daily : ℕ) (db : Db)
    → 0 < daily
    → s ≢ suspended
    → Charges s promo_open today org daily db
        ((do post_entry (usage_entry now today org daily); net_promo promo_open now org daily) db)
served-Charges s promo_open now today org daily db paid served =
    bind_rule (Charges s promo_open today org daily db)
      (post_entry (usage_entry now today org daily) db)
      (λ e h.
        net_promo-Charges s promo_open now today org daily db _ paid served
          (usage_posted now today org daily db h))
      (λ x h.
        post_entry_error (usage_entry now today org daily) db (ground arith)
          (unfold entry_accounts in refl) h)

charge_by_status-Charges :
    (s : BillingStatus) (promo_open : Bool) (now : Time) (today org daily : ℕ) (db : Db)
    → 0 < daily
    → Charges s promo_open today org daily db (charge_by_status s promo_open now today org daily db)
unfolding charge_by_status
charge_by_status-Charges suspended promo_open now today org daily db paid =
    (record { balances = λ o. refl; journal = refl }, refl)
charge_by_status-Charges active promo_open now today org daily db paid =
    served-Charges active promo_open now today org daily db paid (λ e. cc e)
charge_by_status-Charges credit promo_open now today org daily db paid =
    served-Charges credit promo_open now today org daily db paid (λ e. cc e)

-- The row that is loaded has the status and the window of its org.
Loaded-status :
    (org : ℕ) (now : Time) (db mid : Db) (p : BillingProfile)
    → Loaded org db mid p
    → (billing_status p.balance_mnt p.credit_until p.promo_free_until now
        ≡ org_billing_status db org now)
      × (p.promo_free_until ≡ window_of db org)
unfolding org_billing_status
Loaded-status org now db mid p l =
    (rw l.found at (l.statuses org now), rw l.found at (l.windows org))

-- A session for a positive charge moves no money exactly when the org is suspended; otherwise it
-- charges the day, which was not charged before, and gives the charge back exactly when the org's
-- promo window is open, moving no other wallet; or it fails on a constraint of the database or on the
-- range of an INTEGER column.
pub charge_session-Charges :
    (now : Time) (today org daily : ℕ) (db : Db)
    → 0 < daily
    → Charges
        (org_billing_status db org now)
        (is_open (window_of db org) now)
        today
        org
        daily
        db
        (charge_session now today org daily db)
unfolding charge_session
charge_session-Charges now today org daily db paid =
    let s = org_billing_status db org now in
    let w = is_open (window_of db org) now in
    bind_rule (Charges s w today org daily db) (get_or_create_profile org db)
      (λ p h.
        let r = get_or_create_profile org db in
        let l = Loads-ok r (get_or_create_profile-Loads org db) h in
        let (status, window) = Loaded-status org now db r.1 p l in
        let now_status = billing_status p.balance_mnt p.credit_until p.promo_free_until now in
        let now_open = is_open p.promo_free_until now in
        after_load s now_status w now_open today org daily db r.1 _ p l status
          (ap (λ t. is_open t now) window)
          (charge_by_status-Charges now_status now_open now today org daily r.1 paid))
      (λ x h. inl (get_or_create_profile_error org db h))
