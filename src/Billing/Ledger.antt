-- ===== src/Billing/Ledger.antt =====
-- services/billing/ledger.py: double-entry posting. A journal row and the wallet's balance are
-- written in one transaction, which the caller commits. A flush raises IntegrityError where a
-- constraint of db/models/billing.py fails: a profile needs its organisation, and one usage charge
-- is allowed for each org and day. The row lock of `profile_for_update` changes nothing within one
-- transaction; it is taken to return the row as it is under the lock, while a session that has read
-- the row before keeps the values that it read. The flush raises DataError where an amount or a
-- balance does not fit its INTEGER column.
pub mod Balance
pub mod Entries
use sentry_backend.Base.{
  ltb, ℕ, suc, Bool, true, false, not, ◌&&◌, ◌||◌, Option, none, some, List, [], ◌∷◌, ◌==◌,
  if◌then◌else◌,
}
use sentry_backend.Base.Int.{negsuc, ℤ, pos, is_pos, ◌+ℤ◌, ◌-ℤ◌}
use sentry_backend.Base.Dict.{lookup, insert}
use sentry_backend.Base.Eq.{nat_eq}
use sentry_backend.Base.Sets.{member}
use sentry_backend.Base.Action.{
  Action, Result, ok, err, value_error, integrity_error, data_error, raise, pure, gets, raise_if,
  modify, ◌>>=◌, ◌>>◌,
}
use sentry_backend.Billing.Models.{
  Time, Db, BillingJournal, BillingProfile, JournalKind, topup, usage_charge, promo_credit,
  adjustment, LedgerAccount, cash, org_wallet, revenue, promo_expense,
}

abbrev pub Accounts : Type 0
Accounts = LedgerAccount × LedgerAccount

-- (dr, cr) for a kind with a fixed pair; `adjustment` has none.
unfoldable pub accounts_for : JournalKind → Result Accounts
accounts_for topup = ok (cash, org_wallet)
accounts_for usage_charge = ok (org_wallet, revenue)
accounts_for promo_credit = ok (promo_expense, org_wallet)
accounts_for adjustment = err value_error

abbrev pub is_wallet : LedgerAccount → Bool
is_wallet org_wallet = true
is_wallet _ = false

-- How an entry moves the wallet: Cr org_wallet adds, Dr removes.
unfoldable pub balance_delta : LedgerAccount → LedgerAccount → ℤ → ℤ
balance_delta dr cr amount =
    let credited : ℤ = if is_wallet cr then pos 0 +ℤ amount else pos 0 in
    if is_wallet dr then credited -ℤ amount else credited

abbrev pub new_profile : BillingProfile
new_profile = record {
  balance_mnt = pos 0;
  credit_until = none;
  credit_note = none;
  promo_free_until = none;
}

unfoldable pub add_profile : ℕ → Action Db BillingProfile
add_profile org_id db =
    if member org_id db.orgs
    then (ok new_profile, record db { profiles = insert org_id new_profile db.profiles })
    else (err integrity_error, db)

-- The row that was read, or a new one.
unfoldable pub or_create : ℕ → Option BillingProfile → Action Db BillingProfile
unfolding add_profile
or_create org_id none db = add_profile org_id db
or_create org_id (some p) db = (ok p, db)

unfoldable pub get_or_create_profile : ℕ → Action Db BillingProfile
unfolding or_create
get_or_create_profile org_id db = or_create org_id (lookup org_id db.profiles) db

-- `SELECT … FOR UPDATE`, then the same.
unfoldable pub profile_for_update : ℕ → Action Db BillingProfile
unfolding or_create
profile_for_update org_id db = or_create org_id (lookup org_id db.profiles) db

abbrev pub is_usage : JournalKind → Bool
is_usage usage_charge = true
is_usage _ = false

-- Equality of two dates; a NULL equals nothing.
abbrev pub same_date : Option ℕ → Option ℕ → Bool
same_date (some a) (some b) = a == b
same_date (some a) none = false
same_date none _ = false

-- Whether the unique index uq_billing_journal_org_usage_day has an entry for this org and day.
unfoldable pub has_charge : ℕ → Option ℕ → List BillingJournal → Bool
has_charge org_id day [] = false
has_charge org_id day (e ∷ j) =
    is_usage e.kind && e.org_id == org_id && same_date e.charge_date day || has_charge org_id day j

-- The accounts of a new entry: explicit for an adjustment, fixed for the other kinds.
unfoldable pub entry_accounts :
    JournalKind → Option LedgerAccount → Option LedgerAccount → Result Accounts
unfolding accounts_for
entry_accounts adjustment (some dr) (some cr) = ok (dr, cr)
entry_accounts adjustment (some dr) none = err value_error
entry_accounts adjustment none cr = err value_error
entry_accounts kind dr cr = accounts_for kind

-- `db.add(entry)`, the new balance, and the flush.
-- What a column of type INTEGER holds.
unfoldable pub fits_integer : ℤ → Bool
fits_integer (pos n) = ltb n 2_147_483_648
fits_integer (negsuc n) = ltb n 2_147_483_648

-- The flush inserts the journal row and updates the balance.
unfoldable pub write_entry : BillingJournal → BillingProfile → Action Db BillingJournal
unfolding balance_delta has_charge fits_integer
write_entry e p db =
    let balance = p.balance_mnt +ℤ balance_delta e.dr_account e.cr_account e.amount_mnt in
    if is_usage e.kind && has_charge e.org_id e.charge_date db.journal
    then (err integrity_error, db)
    else if not (fits_integer e.amount_mnt && fits_integer balance)
    then (err data_error, db)
    else (
      ok e,
      record db {
        journal = e ∷ db.journal;
        profiles = insert e.org_id (record p { balance_mnt = balance }) db.profiles;
        fresh = suc db.fresh;
      },
    )

abbrev of_result : {A : Type 0} → Result A → Action Db A
of_result r db = (r, db)

-- The arguments of a call of `post_entry`; `now` is the database's clock (`posted_at`).
pub record EntryArgs : Type 0 where
  pub now : Time
  pub org_id : ℕ
  pub kind : JournalKind
  pub amount_mnt : ℤ
  pub dr_account : Option LedgerAccount
  pub cr_account : Option LedgerAccount
  pub charge_date : Option ℕ
  pub created_by_user_id : Option ℕ

abbrev pub new_entry : EntryArgs → Accounts → ℕ → BillingJournal
new_entry a (dr, cr) id = record {
  id = id;
  org_id = a.org_id;
  posted_at = a.now;
  kind = a.kind;
  dr_account = dr;
  cr_account = cr;
  amount_mnt = a.amount_mnt;
  charge_date = a.charge_date;
  created_by_user_id = a.created_by_user_id;
}

unfoldable pub post_entry : EntryArgs → Action Db BillingJournal
unfolding entry_accounts profile_for_update write_entry
post_entry a = do
  raise_if (not (is_pos a.amount_mnt)) value_error
  accounts ← of_result (entry_accounts a.kind a.dr_account a.cr_account)
  profile ← profile_for_update a.org_id
  id ← gets (λ db. db.fresh)
  write_entry (new_entry a accounts id) profile
