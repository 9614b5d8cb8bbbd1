-- ===== src/Billing/Invariant/Redeem.antt =====
-- Lemmas on `redeem` of services/billing/promo.py and the invariant of the billing tables.
use sentry_backend.Base.{◌≤◌, ◌<◌, ◌≡◌, refl, Bool, Option, none, some, inl, inr, arith, Bool-cases}
use sentry_backend.Base.Int.{ℤ, is_pos}
use sentry_backend.Base.Lists.{find_by-All}
use sentry_backend.Base.Action.{bind_rule}
use sentry_backend.Billing.Models.{Db, PromoKind, bonus_amount, free_days, PromoCode}
use sentry_backend.Billing.Ledger.{get_or_create_profile, post_entry}
use sentry_backend.Billing.Ledger.Balance.{
  SameRest, Loads-ok, get_or_create_profile-Loads, post_entry-Posts, Posts-rest,
}
use sentry_backend.Billing.Promo.{
  PromoError, validate_promo, find_code, normalize_code, RedeemArgs, bonus_entry, redeem_bonus,
  redeem_days, redeem_kind, redeem_checked, redeem,
}
use sentry_backend.Billing.Promo.Rules.{validate_promo_iff}
use sentry_backend.Billing.Invariant.{
  CountsRedemptions, Inv, Posts-Inv, Loaded-Inv, Loads-Inv, insert_profile-Inv,
  record_redemption-Inv,
}

-- The row of a code that has redemptions left.
record HasLeft (db : Db) (p : PromoCode) : Type 0 where
  counts : CountsRedemptions db.redemptions p
  left : p.redeemed_count < p.max_redemptions
  id : p.id < db.fresh

HasLeft-rest :
    {db db' : Db} (p : PromoCode)
    → SameRest db db'
    → db.fresh ≤ db'.fresh
    → HasLeft db p
    → HasLeft db' p
HasLeft-rest p s f h = record {
  counts = rw s.redemptions h.counts;
  left = h.left;
  id = omega (arith, h.id);
}

redeem_bonus-Inv :
    (a : RedeemArgs) (p : PromoCode) (amount : Option ℤ) (db : Db)
    → HasLeft db p
    → Inv db
    → Inv (redeem_bonus a p amount db).1
unfolding redeem_bonus
redeem_bonus-Inv a p none db h v = v
redeem_bonus-Inv a p (some amount) db h v = elim (Bool-cases (is_pos amount)) [
  | inr bad ↦ rw bad v
  | inl good ↦ rw good (
      bind_rule (λ out. Inv out.1) (post_entry (bonus_entry a amount) db)
        (λ e _.
          let r = post_entry (bonus_entry a amount) db in
          let posts = post_entry-Posts (bonus_entry a amount) db in
          let (s, f) = Posts-rest db r posts in
          let left = HasLeft-rest p s f h in
          record_redemption-Inv a p (some e.id) r.1 left.counts left.left left.id
            (Posts-Inv db r posts v))
        (λ x _.
          Posts-Inv db (post_entry (bonus_entry a amount) db)
            (post_entry-Posts (bonus_entry a amount) db) v))
]

redeem_days-Inv :
    (a : RedeemArgs) (p : PromoCode) (days : Option ℤ) (db : Db)
    → HasLeft db p
    → Inv db
    → Inv (redeem_days a p days db).1
unfolding redeem_days
redeem_days-Inv a p none db h v = v
redeem_days-Inv a p (some days) db h v = elim (Bool-cases (is_pos days)) [
  | inr bad ↦ rw bad v
  | inl good ↦ rw good (
      bind_rule (λ out. Inv out.1) (get_or_create_profile a.org_id db)
        (λ profile e.
          let r = get_or_create_profile a.org_id db in
          let l = Loads-ok r (get_or_create_profile-Loads a.org_id db) e in
          let left = HasLeft-rest p l.rest (omega (arith, l.fresh)) h in
          record_redemption-Inv a p none _ left.counts left.left left.id
            (insert_profile-Inv a.org_id r.1 profile _ l.found refl (Loaded-Inv l v)))
        (λ x _.
          Loads-Inv a.org_id db (get_or_create_profile a.org_id db)
            (get_or_create_profile-Loads a.org_id db) v))
]

redeem_kind-Inv :
    (k : PromoKind) (a : RedeemArgs) (p : PromoCode) (db : Db)
    → HasLeft db p
    → Inv db
    → Inv (redeem_kind k a p db).1
unfolding redeem_kind
redeem_kind-Inv bonus_amount a p db h v = redeem_bonus-Inv a p p.amount_mnt db h v
redeem_kind-Inv free_days a p db h v = redeem_days-Inv a p p.free_days db h v

redeem_checked-Inv :
    (e : Option PromoError) (promo : Option PromoCode) (a : RedeemArgs) (already : Bool) (db : Db)
    → find_code (normalize_code a.code) db.promos ≡ promo
    → validate_promo promo already a.now ≡ e
    → Inv db
    → Inv (redeem_checked e promo a db).1
unfolding redeem_checked find_code
redeem_checked-Inv (some e) promo a already db found valid v = v
redeem_checked-Inv none none a already db found valid v = v
redeem_checked-Inv none (some p) a already db found valid v =
    redeem_kind-Inv p.kind a p db
      (record {
        counts = (find_by-All (CountsRedemptions db.redemptions) _ db.promos v.counts found).0;
        left = ((validate_promo_iff p already a.now).0 valid).3;
        id = (find_by-All (λ q. q.id < db.fresh) _ db.promos v.promo_ids found).0;
      })
      v

-- A call of `redeem`, accepted, rejected or failed, keeps the invariant.
pub redeem-Inv : (a : RedeemArgs) (db : Db) → Inv db → Inv (redeem a db).1
unfolding redeem
redeem-Inv a db v = redeem_checked-Inv _ _ a _ db refl refl v
