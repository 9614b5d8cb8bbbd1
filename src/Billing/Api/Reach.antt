-- ===== src/Billing/Api/Reach.antt =====
-- The databases that the billing handlers and the charging passes reach, in any order, from an empty
-- ledger, with their invariant. A charging turn may work from any snapshot, so turns of several replicas
-- interleave.
use sentry_backend.Base.{
  ℕ, ◌<◌, ◌≡◌, refl, sym, Bool, not, Option, none, some, List, [], ◌∷◌, inl, inr, arith, Bool-cases,
  leb, ◌==◌,
}
use Prim.Native.String.{String}
use sentry_backend.Base.Int.{ℤ, is_pos}
use sentry_backend.Base.Lists.{All, All-map, find_by, find_by-All}
use sentry_backend.Base.Eq.{nat_eq}
use sentry_backend.Base.Sets.{IdSet, member}
use sentry_backend.Base.Dict.{lookup}
use sentry_backend.Base.Action.{
  Result, ok, err, http, integrity_error, value_error, data_error, or_raise, raise_if, bind_rule,
  transaction_keeps,
}
use sentry_backend.Billing.Models.{Time, Db, PromoCode, PromoRedemption, Store, Camera}
use sentry_backend.Billing.Ledger.{get_or_create_profile, post_entry}
use sentry_backend.Billing.Ledger.Balance.{
  post_entry-Posts, get_or_create_profile-Loads, Loads-ok, wallet,
}
use sentry_backend.Billing.Promo.{RedeemArgs, Redeemed, rejected, accepted, redeem}
use sentry_backend.Billing.Invariant.{
  Inv, CountsRedemptions, Posts-Inv, Loads-Inv, insert_profile-Inv, count_redemptions,
  All-update_row,
}
use sentry_backend.Billing.Invariant.Redeem.{redeem-Inv}
use sentry_backend.Billing.Charger.{charge_once, charge_org, Summary}
use sentry_backend.Billing.Charger.Passes.{charge_once-Inv, charge_org-Inv}
use sentry_backend.Billing.Api.{
  require_org, topup_org, topup_org_body, grant_credit_body, revoke_credit_body,
  create_promo_code_body, update_promo_code_body, redeem_promo_body, topup_entry, set_credit,
  grant_credit, revoke_credit, PromoCodeCreate, body_ok, lacks_value, body_code, code_or,
  insert_promo, has_code, create_promo_code, patch_promo, update_promo_code, conflict_on_integrity,
  redeem_reply, redeem_promo,
}

topup_body-Inv :
    (now : Time) (org : ℕ) (amount : ℤ) (actor : ℕ) (db : Db)
    → Inv db
    → Inv (topup_org_body now org amount actor db).1
unfolding topup_org_body require_org
topup_body-Inv now org amount actor db v =
    bind_rule (λ out. Inv out.1) (raise_if (not (is_pos amount)) (http 422) db)
      (λ _ _.
        bind_rule (λ out. Inv out.1) (raise_if (not (member org db.orgs)) (http 404) db)
          (λ _ _.
            Posts-Inv db (post_entry (topup_entry now org amount actor) db)
              (post_entry-Posts (topup_entry now org amount actor) db) v)
          (λ x _. v))
      (λ x _. v)

credit_set :
    (org : ℕ) (until : Option Time) (text : Option String) (db : Db)
    → Inv db
    → Inv
        (elim (get_or_create_profile org db).0 as (λ _. Result (Unit {0}) × Db) [
          | ok p ↦ set_credit org until text p (get_or_create_profile org db).1
          | err x ↦ (err x, (get_or_create_profile org db).1)
        ]).1
unfolding set_credit
credit_set org until text db v =
    let r = get_or_create_profile org db in
    let loads = get_or_create_profile-Loads org db in
    bind_rule (λ out. Inv out.1) r
      (λ p e.
        insert_profile-Inv org r.1 p _ (Loads-ok r loads e).found refl (Loads-Inv org db r loads v))
      (λ x _. Loads-Inv org db r loads v)

grant_body-Inv :
    (now : Time) (org : ℕ) (until : Time) (text : Option String) (db : Db)
    → Inv db
    → Inv (grant_credit_body now org until text db).1
unfolding grant_credit_body require_org
grant_body-Inv now org until text db v =
    bind_rule (λ out. Inv out.1) (raise_if (not (member org db.orgs)) (http 404) db)
      (λ _ _.
        bind_rule (λ out. Inv out.1) (raise_if (leb until now) (http 400) db)
          (λ _ _. credit_set org (some until) text db v) (λ x _. v))
      (λ x _. v)

revoke_body-Inv : (org : ℕ) (db : Db) → Inv db → Inv (revoke_credit_body org db).1
unfolding revoke_credit_body require_org
revoke_body-Inv org db v =
    bind_rule (λ out. Inv out.1) (raise_if (not (member org db.orgs)) (http 404) db)
      (λ _ _. credit_set org none none db v) (λ x _. v)

-- A code below `fresh` in each redemption means that a new id has none.
fresh_unused :
    (id : ℕ) (rs : List PromoRedemption)
    → All (λ r. r.promo_id < id) rs
    → count_redemptions id rs ≡ 0
unfolding count_redemptions
fresh_unused id [] h = refl
fresh_unused id (r ∷ rs) h = ground (arith, fresh_unused id rs h.1)

insert_promo-Inv :
    (b : PromoCodeCreate) (code : List ℕ) (db : Db) → Inv db → Inv (insert_promo b code db).1
unfolding insert_promo
insert_promo-Inv b code db v = elim (Bool-cases (has_code code db.promos)) [
  | inl known ↦ rw known v
  | inr new ↦ rw new (record {
    balanced = v.balanced;
    charged_once = v.charged_once;
    counts = ((sym (fresh_unused db.fresh db.redemptions v.redemption_ids), omega arith), v.counts);
    redeemed_once = v.redeemed_once;
    promo_ids = (omega arith, All-map db.promos (λ p h. omega arith) v.promo_ids);
    redemption_ids = All-map db.redemptions (λ r h. omega arith) v.redemption_ids;
  })
]

create_body-Inv :
    (b : PromoCodeCreate) (generated : List ℕ) (db : Db)
    → Inv db
    → Inv (create_promo_code_body b generated db).1
unfolding create_promo_code_body
create_body-Inv b generated db v =
    bind_rule (λ out. Inv out.1) (raise_if (not (body_ok b)) (http 422) db)
      (λ _ _.
        bind_rule (λ out. Inv out.1) (raise_if (lacks_value b.kind b) (http 400) db)
          (λ _ _. insert_promo-Inv b (code_or (body_code b.code) generated) db v) (λ x _. v))
      (λ x _. v)

patch_promo-Inv :
    (on : Option Bool) (text : Option String) (p : PromoCode) (db : Db)
    → CountsRedemptions db.redemptions p
    → p.id < db.fresh
    → Inv db
    → Inv (patch_promo on text p db).1
unfolding patch_promo
patch_promo-Inv on text p db c id v = record {
  balanced = v.balanced;
  charged_once = v.charged_once;
  counts = All-update_row _ _ _ db.promos c (λ _ _ h. h) v.counts;
  redeemed_once = v.redeemed_once;
  promo_ids = All-update_row _ _ _ db.promos id (λ _ _ h. h) v.promo_ids;
  redemption_ids = v.redemption_ids;
}

update_found-Inv :
    (on : Option Bool) (text : Option String) (db : Db) (id : ℕ) (o : Option PromoCode)
    → find_by (λ p. p.id == id) db.promos ≡ o
    → Inv db
    → Inv
        (elim (or_raise o (http 404) db).0 as (λ _. Result PromoCode × Db) [
          | ok p ↦ patch_promo on text p (or_raise o (http 404) db).1
          | err x ↦ (err x, (or_raise o (http 404) db).1)
        ]).1
update_found-Inv on text db id none e v = v
update_found-Inv on text db id (some p) e v =
    patch_promo-Inv on text p db
      (find_by-All (CountsRedemptions db.redemptions) _ db.promos v.counts e).0
      (find_by-All (λ q. q.id < db.fresh) _ db.promos v.promo_ids e).0 v

update_body-Inv :
    (id : ℕ) (on : Option Bool) (text : Option String) (db : Db)
    → Inv db
    → Inv (update_promo_code_body id on text db).1
unfolding update_promo_code_body
update_body-Inv id on text db v = update_found-Inv on text db id _ refl v

conflict-Inv : (a : RedeemArgs) (db : Db) → Inv db → Inv (conflict_on_integrity (redeem a) db).1
unfolding conflict_on_integrity
conflict-Inv a db v = go (redeem a db) (redeem-Inv a db v)
  where
    go :
        (r : Result Redeemed × Db)
        → Inv r.1
        → Inv
            (elim r.0 as (λ _. Result Redeemed × Db) [
              | ok a ↦ (ok a, r.1)
              | err x ↦ (
                err (elim x [
                  | integrity_error ↦ http 409
                  | data_error ↦ data_error
                  | value_error ↦ value_error
                  | http n ↦ http n
                ]),
                r.1,
              )
            ]).1
    go (ok a, s) h = h
    go (err x, s) h = h

reply-Inv : (org : ℕ) (r : Redeemed) (db : Db) → Inv db → Inv (redeem_reply org r db).1
unfolding redeem_reply
reply-Inv org (rejected e) db v = v
reply-Inv org (accepted p) db v =
    bind_rule (λ out. Inv out.1) (get_or_create_profile org db)
      (λ q _. Loads-Inv org db _ (get_or_create_profile-Loads org db) v)
      (λ x _. Loads-Inv org db _ (get_or_create_profile-Loads org db) v)

redeem_body-Inv : (a : RedeemArgs) (db : Db) → Inv db → Inv (redeem_promo_body a db).1
unfolding redeem_promo_body
redeem_body-Inv a db v =
    bind_rule (λ out. Inv out.1) (conflict_on_integrity (redeem a) db)
      (λ r _. reply-Inv a.org_id r _ (conflict-Inv a db v)) (λ x _. conflict-Inv a db v)

-- One step of the billing service: a handler, a charging pass, one turn of a pass over any snapshot,
-- or a change of the organisations, stores and cameras by the rest of the program.
pub data Step (db db' : Db) : Type 0 where
  topped_up :
      (now : Time) (org : ℕ) (amount : ℤ) (actor : ℕ)
      → db' ≡ (topup_org now org amount actor db).1
      → Step db db'
  granted :
      (now : Time) (org : ℕ) (until : Time) (text : Option String)
      → db' ≡ (grant_credit now org until text db).1
      → Step db db'
  revoked : (org : ℕ) → db' ≡ (revoke_credit org db).1 → Step db db'
  created :
      (b : PromoCodeCreate) (generated : List ℕ)
      → db' ≡ (create_promo_code b generated db).1
      → Step db db'
  patched :
      (id : ℕ) (on : Option Bool) (text : Option String)
      → db' ≡ (update_promo_code id on text db).1
      → Step db db'
  redeemed : (a : RedeemArgs) → db' ≡ (redeem_promo a db).1 → Step db db'
  passed : (ub_date : Time → ℕ) (now : Time) → db' ≡ (charge_once ub_date now db).1 → Step db db'
  turned :
      (now : Time) (today : ℕ) (done : IdSet) (org : ℕ) (counts : List ℕ) (s : Summary)
      → db' ≡ (charge_org now today done org counts s db).1
      → Step db db'
  changed :
      (orgs : List ℕ) (stores : List Store) (cameras : List Camera)
      → db' ≡ record db { orgs = orgs; stores = stores; cameras = cameras }
      → Step db db'

pub data Reach (db : Db) : Db → Type 0 where
  here : Reach db db
  next : {mid last : Db} → Reach db mid → Step mid last → Reach db last

Step-Inv : {db db' : Db} → Step db db' → Inv db → Inv db'
unfolding topup_org grant_credit revoke_credit create_promo_code update_promo_code redeem_promo
Step-Inv {db} (topped_up now org amount actor e) v = rw e (
    transaction_keeps Inv (topup_org_body now org amount actor) db v
      (topup_body-Inv now org amount actor db v))
Step-Inv {db} (granted now org until text e) v = rw e (
    transaction_keeps Inv (grant_credit_body now org until text) db v
      (grant_body-Inv now org until text db v))
Step-Inv {db} (revoked org e) v =
    rw e (transaction_keeps Inv (revoke_credit_body org) db v (revoke_body-Inv org db v))
Step-Inv {db} (created b generated e) v = rw e (
    transaction_keeps Inv (create_promo_code_body b generated) db v
      (create_body-Inv b generated db v))
Step-Inv {db} (patched id on text e) v = rw e (
    transaction_keeps Inv (update_promo_code_body id on text) db v
      (update_body-Inv id on text db v))
Step-Inv {db} (redeemed a e) v =
    rw e (transaction_keeps Inv (redeem_promo_body a) db v (redeem_body-Inv a db v))
Step-Inv {db} (passed ub_date now e) v = rw e (charge_once-Inv ub_date now db v)
Step-Inv {db} (turned now today done org counts s e) v =
    rw e (charge_org-Inv now today done org counts s db v)
Step-Inv {db} (changed orgs stores cameras e) v = rw e (record {
  balanced = v.balanced;
  charged_once = v.charged_once;
  counts = v.counts;
  redeemed_once = v.redeemed_once;
  promo_ids = v.promo_ids;
  redemption_ids = v.redemption_ids;
})

abbrev pub empty_db : Db
empty_db = record {
  orgs = [];
  stores = [];
  cameras = [];
  profiles = [];
  journal = [];
  promos = [];
  redemptions = [];
  fresh = 0;
}

empty_db-Inv : Inv empty_db
unfolding lookup wallet
empty_db-Inv = record {
  balanced = λ o. refl;
  charged_once = tt;
  counts = tt;
  redeemed_once = tt;
  promo_ids = tt;
  redemption_ids = tt;
}

-- In every database that the billing service reaches from an empty one, each wallet holds what the
-- journal says, no org has two usage charges for one day, each promo code counts its redemptions
-- within its limit, and no org has redeemed a code twice.
pub Reach-Inv : {db : Db} → Reach empty_db db → Inv db
Reach-Inv here = empty_db-Inv
Reach-Inv (next r s) = Step-Inv s (Reach-Inv r)
