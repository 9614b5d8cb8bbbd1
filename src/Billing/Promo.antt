-- ===== src/Billing/Promo.antt =====
-- services/billing/promo.py: promo codes. A code is a list of ASCII code points; `strip` and `upper`
-- are written out for those.
pub mod Rules
pub mod Once
use sentry_backend.Base.{
  ℕ, suc, ◌+◌, ◌-◌, ◌<◌, Bool, true, false, not, ◌&&◌, ◌||◌, Option, none, some, List, [], ◌∷◌, map,
  ltb, leb, ◌==◌, if◌then◌else◌,
}
use mathlib.Core.List.{reverse}
use sentry_backend.Base.Int.{ℤ, is_pos, pos_part}
use sentry_backend.Base.Lists.{find_by}
use sentry_backend.Base.Dict.{insert}
use sentry_backend.Base.Action.{
  Action, Result, ok, err, integrity_error, pure, gets, raise_if, modify, ◌>>=◌, ◌>>◌,
}
use sentry_backend.Billing.Models.{
  Time, timedelta_days, Db, BillingJournal, BillingProfile, JournalKind, promo_credit, PromoKind,
  bonus_amount, free_days, PromoCode, PromoRedemption,
}
use sentry_backend.Billing.Ledger.{get_or_create_profile, EntryArgs, post_entry}

pub data PromoError : Type 0 where
  err_not_found err_exhausted err_already_redeemed : PromoError

-- What `str.strip` removes, among ASCII.
abbrev is_space : ℕ → Bool
is_space c = leb 9 c && leb c 13 || leb 28 c && leb c 32

lstrip : List ℕ → List ℕ
lstrip [] = []
lstrip (c ∷ cs) = let rest = lstrip cs in if is_space c then rest else c ∷ cs

unfoldable pub strip : List ℕ → List ℕ
unfolding lstrip
strip cs = reverse (lstrip (reverse (lstrip cs)))

unfoldable pub upper : ℕ → ℕ
upper c = if leb 97 c && leb c 122 then c - 32 else c

unfoldable pub normalize_code : List ℕ → List ℕ
unfolding strip upper
normalize_code code = map upper (strip code)

abbrev pub expired : Option Time → Time → Bool
expired none now = false
expired (some t) now = leb t now

-- `none` means that the code can be redeemed.
unfoldable pub validate_promo : Option PromoCode → Bool → Time → Option PromoError
validate_promo none already_redeemed now = some err_not_found
validate_promo (some p) already_redeemed now =
    if not p.active
    then some err_not_found
    else if expired p.valid_until now
    then some err_not_found
    else if already_redeemed
    then some err_already_redeemed
    else if leb p.max_redemptions p.redeemed_count
    then some err_exhausted
    else none

abbrev pub window_base : Option Time → Time → Time
window_base none now = now
window_base (some t) now = if ltb now t then t else now

unfoldable pub extend_promo_window : Option Time → ℕ → Time → Time
extend_promo_window current days now = window_base current now + timedelta_days days

-- Equality of two codes.
unfoldable pub same_code : List ℕ → List ℕ → Bool
same_code [] [] = true
same_code [] (d ∷ ds) = false
same_code (c ∷ cs) [] = false
same_code (c ∷ cs) (d ∷ ds) = c == d && same_code cs ds

unfoldable pub find_code : List ℕ → List PromoCode → Option PromoCode
unfolding same_code
find_code code promos = find_by (λ p. same_code p.code code) promos

-- `UPDATE promo_codes SET … WHERE id = …`
unfoldable pub update_row : PromoCode → List PromoCode → List PromoCode
update_row q [] = []
update_row q (p ∷ ps) = (if p.id == q.id then q else p) ∷ update_row q ps

-- Whether the unique index uq_promo_redemptions_promo_org has this pair.
unfoldable pub has_redemption : ℕ → ℕ → List PromoRedemption → Bool
has_redemption promo_id org_id [] = false
has_redemption promo_id org_id (r ∷ rs) =
    r.promo_id == promo_id && r.org_id == org_id || has_redemption promo_id org_id rs

unfoldable pub already_redeemed : Option PromoCode → ℕ → List PromoRedemption → Bool
unfolding has_redemption
already_redeemed none org_id rs = false
already_redeemed (some p) org_id rs = has_redemption p.id org_id rs

pub data Redeemed : Type 0 where
  rejected : PromoError → Redeemed
  accepted : PromoCode → Redeemed

-- A call of `redeem`.
pub record RedeemArgs : Type 0 where
  pub org_id : ℕ
  pub code : List ℕ
  pub user_id : Option ℕ
  pub now : Time

abbrev pub bonus_entry : RedeemArgs → ℤ → EntryArgs
bonus_entry a amount = record {
  now = a.now;
  org_id = a.org_id;
  kind = promo_credit;
  amount_mnt = amount;
  dr_account = none;
  cr_account = none;
  charge_date = none;
  created_by_user_id = a.user_id;
}

-- The count, the redemption row and the flush, for a code that has taken effect.
unfoldable pub record_redemption : RedeemArgs → PromoCode → Option ℕ → Action Db Redeemed
unfolding has_redemption update_row
record_redemption a p journal_id db =
    let q = record p { redeemed_count = p.redeemed_count + 1 } in
    if has_redemption p.id a.org_id db.redemptions then (err integrity_error, db) else (
      ok (accepted q),
      record db {
        promos = update_row q db.promos;
        redemptions =
            record { promo_id = p.id; org_id = a.org_id; journal_id = journal_id } ∷ db.redemptions;
      },
    )

-- A missing amount, or one that is not positive, is a misconfigured code.
unfoldable pub redeem_bonus : RedeemArgs → PromoCode → Option ℤ → Action Db Redeemed
unfolding record_redemption
redeem_bonus a p none = pure (rejected err_not_found)
redeem_bonus a p (some amount) =
    if is_pos amount
    then (do e ← post_entry (bonus_entry a amount); record_redemption a p (some e.id))
    else pure (rejected err_not_found)

unfoldable pub set_window : ℕ → Time → BillingProfile → Action Db (Unit {0})
set_window org_id until p = modify (λ db. record db {
  profiles = insert org_id (record p { promo_free_until = some until }) db.profiles;
})

unfoldable pub redeem_days : RedeemArgs → PromoCode → Option ℤ → Action Db Redeemed
unfolding record_redemption set_window extend_promo_window
redeem_days a p none = pure (rejected err_not_found)
redeem_days a p (some days) =
    if is_pos days
    then (do
      profile ← get_or_create_profile a.org_id
      set_window a.org_id (extend_promo_window profile.promo_free_until (pos_part days) a.now)
          profile
      record_redemption a p none)
    else pure (rejected err_not_found)

unfoldable pub redeem_kind : PromoKind → RedeemArgs → PromoCode → Action Db Redeemed
unfolding redeem_bonus redeem_days
redeem_kind bonus_amount a p = redeem_bonus a p p.amount_mnt
redeem_kind free_days a p = redeem_days a p p.free_days

unfoldable pub redeem_checked :
    Option PromoError → Option PromoCode → RedeemArgs → Action Db Redeemed
unfolding redeem_kind
redeem_checked (some e) promo a = pure (rejected e)
redeem_checked none none a = pure (rejected err_not_found)
redeem_checked none (some p) a = redeem_kind p.kind a p

unfoldable pub redeem : RedeemArgs → Action Db Redeemed
unfolding normalize_code find_code already_redeemed validate_promo redeem_checked
redeem a db =
    let promo = find_code (normalize_code a.code) db.promos in
    let already = already_redeemed promo a.org_id db.redemptions in
    redeem_checked (validate_promo promo already a.now) promo a db
