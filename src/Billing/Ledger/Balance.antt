-- ===== src/Billing/Ledger/Balance.antt =====
-- Theorems on `post_entry` of services/billing/ledger.py: the balances and the journal.
use sentry_backend.Base.{
  ℕ, suc, ap, sym, subst, ◌∙◌, ◌≤◌, ◌≡◌, refl, false, not, ◌&&◌, inl, inr, Option, none, some, List,
  [], ◌∷◌, ◌==◌, ==_refl, if◌then◌else◌, arith, Bool-cases,
}
use sentry_backend.Base.Int.{ℤ, pos, is_pos, ◌+ℤ◌}
use sentry_backend.Base.Eq.{nat_eq}
use sentry_backend.Base.Sets.{member}
use sentry_backend.Base.Dict.{lookup, lookup-insert}
use sentry_backend.Base.Action.{
  Result, ok, err, Error, raise_if, bind_rule, ok-injective, value_error,
}
use sentry_backend.Billing.Models.{Time, Db, BillingJournal, BillingProfile}
use sentry_backend.Billing.Status.{org_billing_status}
use sentry_backend.Billing.Ledger.{
  balance_delta, add_profile, or_create, get_or_create_profile, profile_for_update, is_usage,
  has_charge, entry_accounts, fits_integer, write_entry, of_result, EntryArgs, new_entry,
  post_entry,
}

abbrev pub balance_of_profile : Option BillingProfile → ℤ
balance_of_profile none = pos 0
balance_of_profile (some p) = p.balance_mnt

-- The balance of an org; an org with no profile has an empty wallet.
abbrev pub balance_of : Db → ℕ → ℤ
balance_of db org = balance_of_profile (lookup org db.profiles)

abbrev pub window_of_profile : Option BillingProfile → Option Time
window_of_profile none = none
window_of_profile (some p) = p.promo_free_until

-- The promo window of an org; an org with no profile has none.
abbrev pub window_of : Db → ℕ → Option Time
window_of db org = window_of_profile (lookup org db.profiles)

-- What the journal says that the org's wallet holds.
unfoldable pub wallet : ℕ → List BillingJournal → ℤ
wallet org [] = pos 0
wallet org (e ∷ j) =
    if e.org_id == org
    then wallet org j +ℤ balance_delta e.dr_account e.cr_account e.amount_mnt
    else wallet org j

abbrev pub IsBalanced : Db → Type 0
IsBalanced db = (org : ℕ) → balance_of db org ≡ wallet org db.journal

-- No org is charged twice for a day.
abbrev pub ChargedOnce : List BillingJournal → Type 0
ChargedOnce [] = Unit
ChargedOnce (e ∷ j) =
    (is_usage e.kind && has_charge e.org_id e.charge_date j ≡ false) × ChargedOnce j

-- The tables other than the profiles are as they were.
pub record SameRest (db db' : Db) : Type 0 where
  pub orgs : db'.orgs ≡ db.orgs
  pub stores : db'.stores ≡ db.stores
  pub cameras : db'.cameras ≡ db.cameras
  pub promos : db'.promos ≡ db.promos
  pub redemptions : db'.redemptions ≡ db.redemptions

-- What reading a profile has done: an existing row is returned, a missing one is created empty for
-- an existing org, and no balance changes.
pub record Loaded (org : ℕ) (db db' : Db) (p : BillingProfile) : Type 0 where
  pub found : lookup org db'.profiles ≡ some p
  pub balances : (o : ℕ) → balance_of db' o ≡ balance_of db o
  pub windows : (o : ℕ) → window_of db' o ≡ window_of db o
  pub statuses : (o : ℕ) (t : Time) → org_billing_status db' o t ≡ org_billing_status db o t
  pub journal : db'.journal ≡ db.journal
  pub fresh : db'.fresh ≡ db.fresh
  pub rest : SameRest db db'

abbrev pub Loads : ℕ → Db → Result BillingProfile × Db → Type 0
Loads org db (ok p, db') = Loaded org db db' p
Loads org db (err _, db') = db' ≡ db

add_profile-Loads :
    (org : ℕ) (db : Db) → lookup org db.profiles ≡ none → Loads org db (add_profile org db)
unfolding add_profile
add_profile-Loads org db h = elim (Bool-cases (member org db.orgs)) [
  | inl known ↦ rw known (record {
    found = simp (lookup-insert, ==_refl);
    balances = λ o. rw lookup-insert (ground arith);
    windows = λ o. rw lookup-insert (ground arith);
    statuses = λ o t. unfold org_billing_status in rw lookup-insert (ground arith);
    journal = refl;
    fresh = refl;
    rest = record { orgs = refl; stores = refl; cameras = refl; promos = refl; redemptions = refl };
  })
  | inr unknown ↦ rw unknown refl
]

same_rest : (db : Db) → SameRest db db
same_rest db = record {
  orgs = refl;
  stores = refl;
  cameras = refl;
  promos = refl;
  redemptions = refl;
}

or_create-Loads :
    (org : ℕ) (db : Db) (o : Option BillingProfile)
    → lookup org db.profiles ≡ o
    → Loads org db (or_create org o db)
unfolding or_create
or_create-Loads org db none e = add_profile-Loads org db e
or_create-Loads org db (some p) e = record {
  found = e;
  balances = λ o. refl;
  windows = λ o. refl;
  statuses = λ o t. refl;
  journal = refl;
  fresh = refl;
  rest = same_rest db;
}

rest_trans : {a b c : Db} → SameRest a b → SameRest b c → SameRest a c
rest_trans h k = record {
  orgs = k.orgs ∙ h.orgs;
  stores = k.stores ∙ h.stores;
  cameras = k.cameras ∙ h.cameras;
  promos = k.promos ∙ h.promos;
  redemptions = k.redemptions ∙ h.redemptions;
}

-- The lazy creation of the wallet row keeps every balance and all other tables.
pub get_or_create_profile-Loads : (org : ℕ) (db : Db) → Loads org db (get_or_create_profile org db)
unfolding get_or_create_profile
get_or_create_profile-Loads org db = or_create-Loads org db (lookup org db.profiles) refl

pub profile_for_update-Loads : (org : ℕ) (db : Db) → Loads org db (profile_for_update org db)
unfolding profile_for_update
profile_for_update-Loads org db = or_create-Loads org db (lookup org db.profiles) refl

abbrev pub delta_of : BillingJournal → ℤ
delta_of e = balance_delta e.dr_account e.cr_account e.amount_mnt

-- What a posted entry has done: it stands in the journal, its org's balance has moved by the entry's
-- delta and no other balance has, no promo window has moved, and the day's charge was not there
-- before.
pub record Posted (db db' : Db) (e : BillingJournal) : Type 0 where
  pub journal : db'.journal ≡ e ∷ db.journal
  pub balances :
      (o : ℕ)
      → balance_of db' o
        ≡ (if e.org_id == o then balance_of db o +ℤ delta_of e else balance_of db o)
  pub windows : (o : ℕ) → window_of db' o ≡ window_of db o
  pub first : is_usage e.kind && has_charge e.org_id e.charge_date db.journal ≡ false
  pub fresh : db'.fresh ≡ suc db.fresh
  pub rest : SameRest db db'

-- A failed post writes no journal entry and moves no balance; it may have created a profile row.
pub record Refused (db db' : Db) : Type 0 where
  pub journal : db'.journal ≡ db.journal
  pub balances : (o : ℕ) → balance_of db' o ≡ balance_of db o
  pub fresh : db'.fresh ≡ db.fresh
  pub rest : SameRest db db'

abbrev pub Posts : Db → Result BillingJournal × Db → Type 0
Posts db (ok e, db') = Posted db db' e
Posts db (err _, db') = Refused db db'

write_entry-Posts :
    (e : BillingJournal) (p : BillingProfile) (db : Db)
    → lookup e.org_id db.profiles ≡ some p
    → Posts db (write_entry e p db)
unfolding write_entry
write_entry-Posts e p db found =
    let balance = p.balance_mnt +ℤ balance_delta e.dr_account e.cr_account e.amount_mnt in
    elim (Bool-cases (is_usage e.kind && has_charge e.org_id e.charge_date db.journal)) [
      | inl again ↦
          rw again
            (record { journal = refl; balances = λ o. refl; fresh = refl; rest = same_rest db })
      | inr first ↦
          rw first (elim (Bool-cases (fits_integer e.amount_mnt && fits_integer balance)) [
            | inr large ↦
                rw large (record {
                  journal = refl;
                  balances = λ o. refl;
                  fresh = refl;
                  rest = same_rest db;
                })
            | inl fits ↦ rw fits (record {
              journal = refl;
              balances = λ o. rw lookup-insert (ground (arith, found));
              windows = λ o. rw lookup-insert (ground (arith, found));
              first = first;
              fresh = refl;
              rest = record {
                orgs = refl;
                stores = refl;
                cameras = refl;
                promos = refl;
                redemptions = refl;
              };
            })
          ])
    ]

pub Loads-ok :
    {org : ℕ} {db : Db} (r : Result BillingProfile × Db) {p : BillingProfile}
    → Loads org db r
    → r.0 ≡ ok p
    → Loaded org db r.1 p
Loads-ok {org} {db} (ok q, mid) h e = subst (λ q. Loaded org db mid q) (ok-injective e) h
Loads-ok (err x, mid) h e = cc

refused : (db : Db) → Refused db db
refused db = record { journal = refl; balances = λ o. refl; fresh = refl; rest = same_rest db }

Loads-err :
    (org : ℕ) {db : Db} (r : Result BillingProfile × Db) {x : Error}
    → Loads org db r
    → r.0 ≡ err x
    → Refused db r.1
Loads-err org {db} (ok q, mid) h e = cc
Loads-err org {db} (err x, mid) h e = subst (λ s. Refused db s) (sym h) (refused db)

-- Posts and loads compose.
after_load :
    (e : BillingJournal) (p : BillingProfile) (db mid : Db) (r : Result BillingJournal × Db)
    → Loaded e.org_id db mid p
    → Posts mid r
    → Posts db r
after_load e p db mid (ok e', db') l h = record {
  journal = h.journal ∙ ap (λ j. e' ∷ j) l.journal;
  balances = λ o. rw (← l.balances o) (h.balances o);
  windows = λ o. h.windows o ∙ l.windows o;
  first = rw (← l.journal) h.first;
  fresh = h.fresh ∙ ap suc l.fresh;
  rest = rest_trans l.rest h.rest;
}
after_load e p db mid (err x, db') l h = record {
  journal = h.journal ∙ l.journal;
  balances = λ o. h.balances o ∙ l.balances o;
  fresh = h.fresh ∙ l.fresh;
  rest = rest_trans l.rest h.rest;
}

-- A call of `post_entry` either posts one entry and moves its org's balance by the entry's delta, or
-- raises and leaves the journal and every balance alone.
pub post_entry-Posts : (a : EntryArgs) (db : Db) → Posts db (post_entry a db)
unfolding post_entry
post_entry-Posts a db =
    bind_rule (Posts db) (raise_if (not (is_pos a.amount_mnt)) value_error db)
      (λ _ _.
        bind_rule (Posts db) (of_result (entry_accounts a.kind a.dr_account a.cr_account) db)
          (λ acc _.
            bind_rule (Posts db) (profile_for_update a.org_id db)
              (λ p h.
                let r = profile_for_update a.org_id db in
                let l = Loads-ok r (profile_for_update-Loads a.org_id db) h in
                let e = new_entry a acc r.1.fresh in
                after_load e p db r.1 (write_entry e p r.1) l (write_entry-Posts e p r.1 l.found))
              (λ x h.
                Loads-err a.org_id (profile_for_update a.org_id db)
                  (profile_for_update-Loads a.org_id db) h))
          (λ x _. refused db))
      (λ x _. refused db)

-- The wallets stay those of the journal, whether or not the post succeeds.
pub Posts-IsBalanced :
    (db : Db) (r : Result BillingJournal × Db) → Posts db r → IsBalanced db → IsBalanced r.1
Posts-IsBalanced db (ok e, db') h b o =
    rw (h.journal, h.balances o) (unfold wallet in rw (b o) refl)
Posts-IsBalanced db (err x, db') h b o = h.balances o ∙ b o ∙ sym (ap (wallet o) h.journal)

pub Posts-ChargedOnce :
    (db : Db) (r : Result BillingJournal × Db)
    → Posts db r
    → ChargedOnce db.journal
    → ChargedOnce r.1.journal
Posts-ChargedOnce db (ok e, db') h c = rw h.journal (h.first, c)
Posts-ChargedOnce db (err x, db') h c = rw h.journal c

pub Posts-rest :
    (db : Db) (r : Result BillingJournal × Db)
    → Posts db r
    → SameRest db r.1 × (db.fresh ≤ r.1.fresh)
Posts-rest db (ok e, db') h = (h.rest, omega (arith, h.fresh))
Posts-rest db (err x, db') h = (h.rest, omega (arith, h.fresh))

pub Posts-ok :
    (db : Db) (r : Result BillingJournal × Db) {e : BillingJournal}
    → Posts db r
    → r.0 ≡ ok e
    → Posted db r.1 e
Posts-ok db (ok e', s) h q = subst (λ e. Posted db s e) (ok-injective q) h
Posts-ok db (err x, s) h q = cc
