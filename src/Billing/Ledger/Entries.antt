-- ===== src/Billing/Ledger/Entries.antt =====
-- Lemmas on the entry that `post_entry` of services/billing/ledger.py writes, and on the errors that it
-- raises.
use sentry_backend.Base.{
  ℕ, subst, ◌≡◌, refl, Bool, true, false, not, ◌&&◌, ◌⊎◌, inl, inr, Option, none, some, arith,
  Bool-cases,
}
use sentry_backend.Base.Int.{is_pos, ◌+ℤ◌}
use sentry_backend.Base.Eq.{nat_eq}
use sentry_backend.Base.Dict.{lookup}
use sentry_backend.Base.Action.{
  Result, ok, err, Error, raise_if, bind_rule, ok-injective, value_error, integrity_error,
  data_error,
}
use sentry_backend.Billing.Models.{Db, BillingJournal, BillingProfile}
use sentry_backend.Billing.Ledger.{
  Accounts, balance_delta, add_profile, or_create, get_or_create_profile, profile_for_update,
  is_usage, has_charge, entry_accounts, fits_integer, write_entry, of_result, EntryArgs, new_entry,
  post_entry,
}

-- What the new entry says, and how a call with a positive amount and a fixed pair can fail.
pub record Describes (a : EntryArgs) (e : BillingJournal) : Type 0 where
  pub org_id : e.org_id ≡ a.org_id
  pub kind : e.kind ≡ a.kind
  pub amount_mnt : e.amount_mnt ≡ a.amount_mnt
  pub charge_date : e.charge_date ≡ a.charge_date
  pub accounts : entry_accounts a.kind a.dr_account a.cr_account ≡ ok (e.dr_account, e.cr_account)
  pub paid : is_pos a.amount_mnt ≡ true

abbrev pub is_ok : {A : Type 0} → Result A → Bool
is_ok (ok a) = true
is_ok (err x) = false

or_create_error :
    (org : ℕ) (o : Option BillingProfile) (db : Db) {x : Error}
    → (or_create org o db).0 ≡ err x
    → x ≡ integrity_error
unfolding or_create add_profile
or_create_error org none db h = ground (arith, h)
or_create_error org (some p) db h = cc

-- Only a missing organisation stops the creation of its profile.
pub get_or_create_profile_error :
    (org : ℕ) (db : Db) {x : Error} → (get_or_create_profile org db).0 ≡ err x → x ≡ integrity_error
unfolding get_or_create_profile
get_or_create_profile_error org db h = or_create_error org (lookup org db.profiles) db h

profile_for_update_error :
    (org : ℕ) (db : Db) {x : Error} → (profile_for_update org db).0 ≡ err x → x ≡ integrity_error
unfolding profile_for_update
profile_for_update_error org db h = or_create_error org (lookup org db.profiles) db h

-- A constraint or the range of a column fails.
abbrev pub IsDbError : Error → Type 0
IsDbError x = (x ≡ integrity_error) ⊎ (x ≡ data_error)

-- With a positive amount and known accounts only the database fails.
abbrev Described : EntryArgs → Result BillingJournal × Db → Type 0
Described a (ok e, db) = Describes a e
Described a (err x, db) =
    is_pos a.amount_mnt ≡ true
    → is_ok (entry_accounts a.kind a.dr_account a.cr_account) ≡ true
    → IsDbError x

Described-write :
    (a : EntryArgs) (acc : Accounts) (id : ℕ) (p : BillingProfile) (db : Db)
    → entry_accounts a.kind a.dr_account a.cr_account ≡ ok acc
    → is_pos a.amount_mnt ≡ true
    → Described a (write_entry (new_entry a acc id) p db)
unfolding write_entry
Described-write a acc id p db h k =
    let e = new_entry a acc id in
    let balance = p.balance_mnt +ℤ balance_delta e.dr_account e.cr_account e.amount_mnt in
    elim (Bool-cases (is_usage a.kind && has_charge a.org_id a.charge_date db.journal)) [
      | inl again ↦ rw again (λ _ _. inl refl)
      | inr first ↦
          rw first (elim (Bool-cases (fits_integer e.amount_mnt && fits_integer balance)) [
            | inr large ↦ rw large (λ _ _. inr refl)
            | inl fits ↦ rw fits (record {
              org_id = refl;
              kind = refl;
              amount_mnt = refl;
              charge_date = refl;
              accounts = h;
              paid = k;
            })
          ])
    ]

post_entry-Described : (a : EntryArgs) (db : Db) → Described a (post_entry a db)
unfolding post_entry
post_entry-Described a db =
    bind_rule (Described a) (raise_if (not (is_pos a.amount_mnt)) value_error db)
      (λ _ k.
        bind_rule (Described a) (of_result (entry_accounts a.kind a.dr_account a.cr_account) db)
          (λ acc h.
            bind_rule (Described a) (profile_for_update a.org_id db)
              (λ p _.
                Described-write a acc _ p (profile_for_update a.org_id db).1 h (ground (arith, k)))
              (λ x e _ _. inl (profile_for_update_error a.org_id db e)))
          (λ x e _ fixed.
            absurd (not_both (entry_accounts a.kind a.dr_account a.cr_account) fixed e)))
      (λ x e paid _. absurd (ground (arith, e, paid)))
  where
    not_both : (r : Result Accounts) {x : Error} → is_ok r ≡ true → r ≡ err x → ⊥
    not_both (ok acc) h e = cc
    not_both (err y) h e = cc

err_injective : {y x : Error} → Path (Result BillingJournal) (err y) (err x) → y ≡ x
err_injective h = cc

-- A call with a positive amount and known accounts fails only on a constraint of the database or the
-- range of a column.
pub post_entry_error :
    (a : EntryArgs) (db : Db) {x : Error}
    → is_pos a.amount_mnt ≡ true
    → is_ok (entry_accounts a.kind a.dr_account a.cr_account) ≡ true
    → (post_entry a db).0 ≡ err x
    → IsDbError x
post_entry_error a db {x} paid fixed h = go (post_entry a db) (post_entry-Described a db) h
  where
    go : (r : Result BillingJournal × Db) → Described a r → r.0 ≡ err x → IsDbError x
    go (ok e, s) d q = cc
    go (err y, s) d q = subst (λ e. IsDbError e) (err_injective q) (d paid fixed)

-- An entry that is posted is the one that the call describes.
pub post_entry-Describes :
    (a : EntryArgs) (db : Db) {e : BillingJournal} → (post_entry a db).0 ≡ ok e → Describes a e
post_entry-Describes a db {e} h = go (post_entry a db) (post_entry-Described a db) h
  where
    go : (r : Result BillingJournal × Db) → Described a r → r.0 ≡ ok e → Describes a e
    go (ok e', s) d q = subst (λ e. Describes a e) (ok-injective q) d
    go (err x, s) d q = cc
