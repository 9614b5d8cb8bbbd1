-- ===== src/Billing/Promo/Once.antt =====
-- Theorems on `redeem` of services/billing/promo.py.
use sentry_backend.Base.{
  ℕ, ◌+◌, ◌≡◌, ◌≢◌, refl, sym, ap, subst, ◌∙◌, true, Option, none, some, List, [], ◌∷◌, inl, inr,
  arith, Bool-cases, ==_refl, ◌==◌, if◌then◌else◌,
}
use sentry_backend.Base.Int.{ℤ, pos, is_pos, pos_part, ◌+ℤ◌, int_laws}
use sentry_backend.Base.Lists.{All, find_by, find_by-All}
use sentry_backend.Base.Dict.{lookup-insert}
use sentry_backend.Base.Action.{Result, ok, err, bind_rule}
use sentry_backend.Billing.Models.{
  Db, BillingJournal, PromoKind, bonus_amount, free_days, PromoCode,
}
use sentry_backend.Billing.Ledger.{get_or_create_profile, post_entry, balance_delta, entry_accounts}
use sentry_backend.Billing.Ledger.Balance.{
  balance_of, window_of, Posts-ok, post_entry-Posts, Loads-ok, get_or_create_profile-Loads,
  delta_of,
}
use sentry_backend.Billing.Ledger.Entries.{post_entry-Describes, Describes}
use sentry_backend.Billing.Promo.Rules.{validate_promo_iff}
use sentry_backend.Billing.Promo.{
  PromoError, validate_promo, find_code, same_code, already_redeemed, has_redemption,
  normalize_code, extend_promo_window, update_row, RedeemArgs, bonus_entry, Redeemed, rejected,
  accepted, record_redemption, redeem_bonus, redeem_days, redeem_kind, redeem_checked, redeem,
}

-- What a code gives: its amount on the wallet, or its days on the promo window.
abbrev pub Gives : PromoKind → RedeemArgs → PromoCode → Db → Db → Type 0
Gives bonus_amount a row db db' =
    (amount : ℤ) × (row.amount_mnt ≡ some amount)
    × ((o : ℕ)
        → balance_of db' o ≡ (if a.org_id == o then balance_of db o +ℤ amount else balance_of db o))
    × ((o : ℕ) → window_of db' o ≡ window_of db o)
Gives free_days a row db db' =
    (days : ℤ) × (row.free_days ≡ some days)
    × ((o : ℕ) → balance_of db' o ≡ balance_of db o)
    × ((o : ℕ)
        → window_of db' o ≡ (
            if a.org_id == o
            then some (extend_promo_window (window_of db o) (pos_part days) a.now)
            else window_of db o))

-- What the redemption of a row has done.
pub record Took (a : RedeemArgs) (row : PromoCode) (db db' : Db) (p : PromoCode) : Type 0 where
  pub bumped : p ≡ record row { redeemed_count = row.redeemed_count + 1 }
  pub promos : db'.promos ≡ update_row p db.promos
  pub recorded : has_redemption row.id a.org_id db'.redemptions ≡ true
  pub gives : Gives row.kind a row db db'

abbrev Takes : RedeemArgs → PromoCode → Db → Result Redeemed × Db → Type 0
Takes a row db (ok (accepted p), db') = Took a row db db' p
Takes a row db (ok (rejected e), db') = Unit
Takes a row db (err x, db') = Unit

record_redemption-Takes :
    (a : RedeemArgs) (row : PromoCode) (j : Option ℕ) (db mid : Db)
    → mid.promos ≡ db.promos
    → Gives row.kind a row db mid
    → Takes a row db (record_redemption a row j mid)
unfolding record_redemption
record_redemption-Takes a row j db mid same g =
    elim (Bool-cases (has_redemption row.id a.org_id mid.redemptions)) [
      | inl again ↦ rw again tt
      | inr first ↦ rw first (record {
        bumped = refl;
        promos = ap (update_row _) same;
        recorded = unfold has_redemption in ground (arith, ==_refl row.id, ==_refl a.org_id);
        gives = later row.kind g;
      })
    ]
  where
    later :
        (k : PromoKind)
        → Gives k a row db mid
        → Gives k a row db (record mid {
          promos = update_row (record row { redeemed_count = row.redeemed_count + 1 }) mid.promos;
          redemptions =
              record { promo_id = row.id; org_id = a.org_id; journal_id = j } ∷ mid.redemptions;
        })
    later bonus_amount g = g
    later free_days g = g

bonus_delta :
    (a : RedeemArgs) (amount : ℤ) (e : BillingJournal)
    → Describes (bonus_entry a amount) e
    → delta_of e ≡ pos 0 +ℤ amount
unfolding balance_delta entry_accounts
bonus_delta a amount e d = ground (arith, d.accounts, d.amount_mnt)

redeem_bonus-Takes :
    (a : RedeemArgs) (row : PromoCode) (v : Option ℤ) (db : Db)
    → row.kind ≡ bonus_amount
    → row.amount_mnt ≡ v
    → Takes a row db (redeem_bonus a row v db)
unfolding redeem_bonus
redeem_bonus-Takes a row none db k e = tt
redeem_bonus-Takes a row (some amount) db k e = elim (Bool-cases (is_pos amount)) [
  | inr bad ↦ rw bad tt
  | inl good ↦ rw good (
      bind_rule (Takes a row db) (post_entry (bonus_entry a amount) db)
        (λ entry h.
          let c = bonus_entry a amount in
          let d = post_entry-Describes c db h in
          let p = Posts-ok db (post_entry c db) (post_entry-Posts c db) h in
          record_redemption-Takes a row (some entry.id) db (post_entry c db).1 p.rest.promos (
            rw k (
              amount,
              e,
              λ o. grind (int_laws, p.balances o, d.org_id, bonus_delta a amount entry d),
              p.windows,
            )))
        (λ x _. tt))
]

redeem_days-Takes :
    (a : RedeemArgs) (row : PromoCode) (v : Option ℤ) (db : Db)
    → row.kind ≡ free_days
    → row.free_days ≡ v
    → Takes a row db (redeem_days a row v db)
unfolding redeem_days
redeem_days-Takes a row none db k e = tt
redeem_days-Takes a row (some days) db k e = elim (Bool-cases (is_pos days)) [
  | inr bad ↦ rw bad tt
  | inl good ↦ rw good (
      bind_rule (Takes a row db) (get_or_create_profile a.org_id db)
        (λ q h.
          let r = get_or_create_profile a.org_id db in
          let l = Loads-ok r (get_or_create_profile-Loads a.org_id db) h in
          record_redemption-Takes a row none db _ l.rest.promos (
            rw k (
              days,
              e,
              λ o. rw lookup-insert (ground (arith, l.balances o, l.found)),
              λ o. rw lookup-insert (ground (arith, l.windows o, l.found)),
            )))
        (λ x _. tt))
]

redeem_kind-Takes :
    (k : PromoKind) (a : RedeemArgs) (row : PromoCode) (db : Db)
    → row.kind ≡ k
    → Takes a row db (redeem_kind k a row db)
unfolding redeem_kind
redeem_kind-Takes bonus_amount a row db e = redeem_bonus-Takes a row row.amount_mnt db e refl
redeem_kind-Takes free_days a row db e = redeem_days-Takes a row row.free_days db e refl

-- What an accepted call has done: the row was found under the normalised code and was redeemable.
pub record Accepted (a : RedeemArgs) (db db' : Db) (p : PromoCode) : Type 0 where
  pub row : PromoCode
  pub found : find_code (normalize_code a.code) db.promos ≡ some row
  pub valid : validate_promo (some row) (has_redemption row.id a.org_id db.redemptions) a.now ≡ none
  pub took : Took a row db db' p

checked-Accepted :
    (x : Option PromoError) (o : Option PromoCode) (a : RedeemArgs) (db : Db) {p : PromoCode}
    → find_code (normalize_code a.code) db.promos ≡ o
    → validate_promo o (already_redeemed o a.org_id db.redemptions) a.now ≡ x
    → (redeem_checked x o a db).0 ≡ ok (accepted p)
    → Accepted a db (redeem_checked x o a db).1 p
unfolding redeem_checked already_redeemed
checked-Accepted (some x) o a db found valid h = cc
checked-Accepted none none a db found valid h = cc
checked-Accepted none (some row) a db {p} found valid h = record {
  row = row;
  found = found;
  valid = valid;
  took = took (redeem_kind row.kind a row db) (redeem_kind-Takes row.kind a row db refl) h;
}
  where
    accepted_inj : {q p : PromoCode} → ok (accepted q) ≡ ok (accepted p) → q ≡ p
    accepted_inj h = cc

    took :
        (r : Result Redeemed × Db) → Takes a row db r → r.0 ≡ ok (accepted p) → Took a row db r.1 p
    took (ok (accepted q), s) t e = subst (λ q. Took a row db s q) (accepted_inj e) t
    took (ok (rejected y), s) t e = cc
    took (err y, s) t e = cc

-- An accepted code was found, was redeemable, has counted the redemption and recorded it, and has
-- given its bonus to that org's wallet, or its days to that org's promo window; no other balance and
-- no other window has moved.
pub redeem-Accepted :
    (a : RedeemArgs) (db : Db) {p : PromoCode}
    → (redeem a db).0 ≡ ok (accepted p)
    → Accepted a db (redeem a db).1 p
unfolding redeem
redeem-Accepted a db h = checked-Accepted _ _ a db refl refl h

find_code-update_row :
    (code : List ℕ) (q : PromoCode) (ps : List PromoCode) {row : PromoCode}
    → same_code q.code code ≡ true
    → row.id ≡ q.id
    → find_code code ps ≡ some row
    → find_code code (update_row q ps) ≡ some q
unfolding find_code update_row
find_code-update_row code q [] hit same h = cc
find_code-update_row code q (p ∷ ps) {row} hit same h = elim (Bool-cases (p.id == q.id)) [
  | inl e ↦ rw e (rw (hit, find_by) refl)
  | inr e ↦ rw e (ground (arith, find_code-update_row code q ps {row = row} hit same))
]

find_code-same_code :
    (code : List ℕ) (ps : List PromoCode) {row : PromoCode}
    → find_code code ps ≡ some row
    → same_code row.code code ≡ true
unfolding find_code
find_code-same_code code ps h =
    (find_by-All (λ _. Unit {0}) (λ p. same_code p.code code) ps (trivial ps) h).1
  where
    trivial : (ps : List PromoCode) → All (λ _. Unit {0}) ps
    trivial [] = tt
    trivial (p ∷ ps) = (tt, trivial ps)

some_injective : {A : Type 0} {x y : A} → some x ≡ some y → x ≡ y
some_injective h = cc

-- After an accepted redemption the next call of the same org with the same code, up to blanks around
-- it and case, is not accepted.
pub redeem_once :
    (a b : RedeemArgs) (db : Db) {p : PromoCode}
    → (redeem a db).0 ≡ ok (accepted p)
    → b.org_id ≡ a.org_id
    → normalize_code b.code ≡ normalize_code a.code
    → (q : PromoCode) → (redeem b (redeem a db).1).0 ≢ ok (accepted q)
redeem_once a b db {p} h org code q k =
    let first = redeem-Accepted a db h in
    let second = redeem-Accepted b (redeem a db).1 k in
    let row = first.row in
    let id : row.id ≡ p.id = sym (ap (λ r. r.id) first.took.bumped) in
    let hit : same_code p.code (normalize_code a.code) ≡ true =
      rw first.took.bumped (find_code-same_code _ db.promos first.found) in
    let again : find_code (normalize_code b.code) (redeem a db).1.promos ≡ some p =
      rw (code, first.took.promos)
        (find_code-update_row (normalize_code a.code) p db.promos hit id first.found) in
    let same : second.row ≡ p = some_injective (sym second.found ∙ again) in
    let free = ((validate_promo_iff second.row _ b.now).0 second.valid).2 in
    let spent : has_redemption second.row.id b.org_id (redeem a db).1.redemptions ≡ true =
      rw (same, ← id, org) first.took.recorded in
    cc (sym spent ∙ free)
