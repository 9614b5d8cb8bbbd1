-- ===== src/Billing/Api.antt =====
-- The billing handlers: api/v1/admin_billing.py and api/v1/billing.py. `get_db` commits a handler
-- that returns and rolls back one that raises. A request body's `gt=0` fields are checked before the
-- handler runs, with status 422 (the length limits of its texts are left out). The caller's rights
-- are checked by the dependencies (Tenancy).
pub mod Reach
use sentry_backend.Base.{
  ℕ, suc, ◌+◌, ◌≡◌, Bool, true, false, not, ◌&&◌, ◌||◌, Option, none, some, List, [], ◌∷◌, map, leb,
  ◌==◌, if◌then◌else◌,
}
use Prim.Native.String.{String}
use sentry_backend.Base.Int.{ℤ, pos, negsuc, is_pos}
use sentry_backend.Base.Lists.{find_by, sum, count_by}
use sentry_backend.Base.Dict.{lookup, insert}
use sentry_backend.Base.Eq.{nat_eq}
use sentry_backend.Base.Sets.{member}
use sentry_backend.Base.Action.{
  Action, Error, Result, ok, err, value_error, integrity_error, data_error, http, pure, gets,
  or_raise, raise, transaction, raise_if, modify, ◌>>=◌, ◌>>◌,
}
use sentry_backend.Billing.Models.{
  Time, Db, BillingJournal, BillingProfile, JournalKind, topup, PromoKind, bonus_amount, free_days,
  PromoCode,
}
use sentry_backend.Billing.Ledger.{get_or_create_profile, EntryArgs, post_entry}
use sentry_backend.Billing.Promo.{
  PromoError, err_not_found, err_exhausted, err_already_redeemed, normalize_code, same_code,
  update_row, RedeemArgs, Redeemed, rejected, accepted, redeem,
}

require_org : ℕ → Action Db (Unit {0})
require_org org db = raise_if (not (member org db.orgs)) (http 404) db

abbrev pub topup_entry : Time → ℕ → ℤ → ℕ → EntryArgs
topup_entry now org amount actor = record {
  now = now;
  org_id = org;
  kind = topup;
  amount_mnt = amount;
  dr_account = none;
  cr_account = none;
  charge_date = none;
  created_by_user_id = some actor;
}

unfoldable pub topup_org_body : Time → ℕ → ℤ → ℕ → Action Db BillingJournal
unfolding require_org
topup_org_body now org amount actor = do
  raise_if (not (is_pos amount)) (http 422)
  require_org org
  post_entry (topup_entry now org amount actor)

-- `POST /orgs/{org_id}/topup`
unfoldable pub topup_org : Time → ℕ → ℤ → ℕ → Action Db BillingJournal
unfolding topup_org_body transaction
topup_org now org amount actor = transaction (topup_org_body now org amount actor)

unfoldable pub set_credit : ℕ → Option Time → Option String → BillingProfile → Action Db (Unit {0})
set_credit org until note p = modify (λ db. record db {
  profiles = insert org (record p { credit_until = until; credit_note = note }) db.profiles;
})

unfoldable pub grant_credit_body : Time → ℕ → Time → Option String → Action Db (Unit {0})
unfolding require_org set_credit
grant_credit_body now org until note = do
  require_org org
  raise_if (leb until now) (http 400)
  p ← get_or_create_profile org
  set_credit org (some until) note p

-- `POST /orgs/{org_id}/credit`
unfoldable pub grant_credit : Time → ℕ → Time → Option String → Action Db (Unit {0})
unfolding grant_credit_body transaction
grant_credit now org until note = transaction (grant_credit_body now org until note)

unfoldable pub revoke_credit_body : ℕ → Action Db (Unit {0})
unfolding require_org set_credit
revoke_credit_body org = do
  require_org org
  p ← get_or_create_profile org
  set_credit org none none p

-- `DELETE /orgs/{org_id}/credit`
unfoldable pub revoke_credit : ℕ → Action Db (Unit {0})
unfolding revoke_credit_body transaction
revoke_credit org = transaction (revoke_credit_body org)

pub record PromoCodeCreate : Type 0 where
  pub code : Option (List ℕ)
  pub kind : PromoKind
  pub amount_mnt : Option ℤ
  pub free_days : Option ℤ
  pub valid_until : Option Time
  pub max_redemptions : ℕ
  pub note : Option String

abbrev unset_or_pos : Option ℤ → Bool
unset_or_pos none = true
unset_or_pos (some n) = is_pos n

-- The `gt=0` fields of the body.
body_ok : PromoCodeCreate → Bool
body_ok b = unset_or_pos b.amount_mnt && unset_or_pos b.free_days && not (leb b.max_redemptions 0)

-- The validator of `code`: a code that is blank after normalising counts as omitted.
abbrev nonblank : List ℕ → Option (List ℕ)
nonblank [] = none
nonblank (c ∷ cs) = some (c ∷ cs)

body_code : Option (List ℕ) → Option (List ℕ)
unfolding normalize_code
body_code none = none
body_code (some code) = nonblank (normalize_code code)

-- `not v`, for an optional integer
abbrev is_missing : Option ℤ → Bool
is_missing none = true
is_missing (some (pos n)) = n == 0
is_missing (some (negsuc n)) = false

-- `bonus_amount` needs an amount and `free_days` a number of days.
abbrev lacks_value : PromoKind → PromoCodeCreate → Bool
lacks_value bonus_amount b = is_missing b.amount_mnt
lacks_value free_days b = is_missing b.free_days

abbrev only_for_bonus : PromoKind → Option ℤ → Option ℤ
only_for_bonus bonus_amount v = v
only_for_bonus free_days v = none

abbrev only_for_days : PromoKind → Option ℤ → Option ℤ
only_for_days bonus_amount v = none
only_for_days free_days v = v

abbrev code_or : Option (List ℕ) → List ℕ → List ℕ
code_or none generated = generated
code_or (some code) generated = code

abbrev pub new_promo : PromoCodeCreate → List ℕ → ℕ → PromoCode
new_promo b code id = record {
  id = id;
  code = code;
  kind = b.kind;
  amount_mnt = only_for_bonus b.kind b.amount_mnt;
  free_days = only_for_days b.kind b.free_days;
  valid_until = b.valid_until;
  max_redemptions = b.max_redemptions;
  redeemed_count = 0;
  active = true;
  note = b.note;
}

-- Whether the unique index on `code` has the code.
unfoldable pub has_code : List ℕ → List PromoCode → Bool
unfolding same_code
has_code code [] = false
has_code code (p ∷ ps) = same_code p.code code || has_code code ps

-- The insert and its flush; IntegrityError becomes status 409.
unfoldable pub insert_promo : PromoCodeCreate → List ℕ → Action Db PromoCode
unfolding has_code
insert_promo b code db =
    let p = new_promo b code db.fresh in
    if has_code code db.promos
    then (err (http 409), db)
    else (ok p, record db { promos = p ∷ db.promos; fresh = suc db.fresh })

unfoldable pub create_promo_code_body : PromoCodeCreate → List ℕ → Action Db PromoCode
unfolding body_ok body_code insert_promo
create_promo_code_body b generated = do
  raise_if (not (body_ok b)) (http 422)
  raise_if (lacks_value b.kind b) (http 400)
  insert_promo b (code_or (body_code b.code) generated)

-- `POST /promo-codes`; `generated` is the result of `generate_code`.
unfoldable pub create_promo_code : PromoCodeCreate → List ℕ → Action Db PromoCode
unfolding create_promo_code_body transaction
create_promo_code b generated = transaction (create_promo_code_body b generated)

abbrev or_else {ℓ} : {A : Type ℓ} → Option A → A → A
or_else none a = a
or_else (some b) a = b

abbrev note_or : Option String → Option String → Option String
note_or none old = old
note_or (some n) old = some n

-- The fields of the body that are given replace those of the row.
unfoldable pub patch_promo : Option Bool → Option String → PromoCode → Action Db PromoCode
unfolding update_row
patch_promo on note p db =
    let q = record p { active = or_else on p.active; note = note_or note p.note } in
    (ok q, record db { promos = update_row q db.promos })

unfoldable pub update_promo_code_body : ℕ → Option Bool → Option String → Action Db PromoCode
unfolding patch_promo
update_promo_code_body promo_id on note = do
  p ← gets (λ db. find_by (λ p. p.id == promo_id) db.promos)
  row ← or_raise p (http 404)
  patch_promo on note row

-- `PATCH /promo-codes/{promo_id}`
unfoldable pub update_promo_code : ℕ → Option Bool → Option String → Action Db PromoCode
unfolding update_promo_code_body transaction
update_promo_code promo_id on note = transaction (update_promo_code_body promo_id on note)

abbrev pub status_of : PromoError → ℕ
status_of err_not_found = 404
status_of err_already_redeemed = 409
status_of err_exhausted = 410

-- The reply of `redeem_promo`; an accepted code answers with the profile's balance and window.
unfoldable pub redeem_reply : ℕ → Redeemed → Action Db (PromoCode × BillingProfile)
redeem_reply org (rejected e) = raise (http (status_of e))
redeem_reply org (accepted p) = do profile ← get_or_create_profile org; pure (p, profile)

-- `except IntegrityError`: a race on the unique index answers as an already redeemed code.
unfoldable pub conflict_on_integrity : {A : Type 0} → Action Db A → Action Db A
conflict_on_integrity m db =
    let (r, db') = m db in
    elim r [
      | ok a ↦ (ok a, db')
      | err x ↦ (
        err (elim x [
          | integrity_error ↦ http 409
          | data_error ↦ data_error
          | value_error ↦ value_error
          | http n ↦ http n
        ]),
        db',
      )
    ]

unfoldable pub redeem_promo_body : RedeemArgs → Action Db (PromoCode × BillingProfile)
unfolding conflict_on_integrity redeem_reply
redeem_promo_body a = do r ← conflict_on_integrity (redeem a); redeem_reply a.org_id r

-- `POST /promo`
unfoldable pub redeem_promo : RedeemArgs → Action Db (PromoCode × BillingProfile)
unfolding redeem_promo_body transaction
redeem_promo a = transaction (redeem_promo_body a)
