-- ===== src/Billing/Invariant.antt =====
-- The invariant of the billing tables, on the wallets and the journal, the daily charges, and the counts
-- of the promo codes; with lemmas on the operations.
pub mod Redeem
use sentry_backend.Base.{
  ℕ, suc, ap, sym, subst, ◌∙◌, ◌+◌, ◌≤◌, ◌<◌, ◌≡◌, refl, Bool, true, false, ◌&&◌, ◌||◌, Option,
  none, some, List, [], ◌∷◌, ◌==◌, ==_refl, if◌then◌else◌, arith, Bool-cases, Option-cases, inl,
  inr,
}
use sentry_backend.Base.Lists.{All, All-map}
use sentry_backend.Base.Action.{Result, ok, err, Error}
use sentry_backend.Base.Dict.{lookup, insert, lookup-insert}
use sentry_backend.Billing.Models.{
  Time, Db, BillingJournal, BillingProfile, PromoCode, PromoRedemption,
}
use sentry_backend.Billing.Ledger.Balance.{
  balance_of, wallet, IsBalanced, ChargedOnce, SameRest, Posts, Posted, Refused, Loads, Loaded,
  Posts-IsBalanced, Posts-ChargedOnce,
}
use sentry_backend.Billing.Promo.{
  has_redemption, update_row, record_redemption, set_window, RedeemArgs, Redeemed,
}

unfoldable pub count_redemptions : ℕ → List PromoRedemption → ℕ
count_redemptions promo_id [] = 0
count_redemptions promo_id (r ∷ rs) =
    let rest = count_redemptions promo_id rs in if r.promo_id == promo_id then suc rest else rest

-- The counter of a code is the number of its redemptions, and within its limit.
abbrev pub CountsRedemptions : List PromoRedemption → PromoCode → Type 0
CountsRedemptions rs p =
    (p.redeemed_count ≡ count_redemptions p.id rs) × (p.redeemed_count ≤ p.max_redemptions)

-- No org redeems a code twice.
abbrev pub RedeemedOnce : List PromoRedemption → Type 0
RedeemedOnce [] = Unit
RedeemedOnce (r ∷ rs) = (has_redemption r.promo_id r.org_id rs ≡ false) × RedeemedOnce rs

pub record Inv (db : Db) : Type 0 where
  pub balanced : IsBalanced db
  pub charged_once : ChargedOnce db.journal
  pub counts : All (CountsRedemptions db.redemptions) db.promos
  pub redeemed_once : RedeemedOnce db.redemptions
  pub promo_ids : All (λ p. p.id < db.fresh) db.promos
  pub redemption_ids : All (λ r. r.promo_id < db.fresh) db.redemptions

-- A step that leaves the promo tables alone keeps their part.
keep :
    {db db' : Db}
    → Inv db
    → IsBalanced db'
    → ChargedOnce db'.journal
    → SameRest db db'
    → db.fresh ≤ db'.fresh
    → Inv db'
keep {db} {db'} v b c s f = record {
  balanced = b;
  charged_once = c;
  counts = rw (s.promos, s.redemptions) v.counts;
  redeemed_once = rw s.redemptions v.redeemed_once;
  promo_ids = rw s.promos (All-map db.promos (λ p h. omega arith) v.promo_ids);
  redemption_ids = rw s.redemptions (All-map db.redemptions (λ r h. omega arith) v.redemption_ids);
}

pub Posts-Inv : (db : Db) (r : Result BillingJournal × Db) → Posts db r → Inv db → Inv r.1
Posts-Inv db (ok e, db') h v =
    keep v (Posts-IsBalanced db (ok e, db') h v.balanced)
      (Posts-ChargedOnce db (ok e, db') h v.charged_once) h.rest (omega (arith, h.fresh))
Posts-Inv db (err x, db') h v =
    keep v (Posts-IsBalanced db (err x, db') h v.balanced)
      (Posts-ChargedOnce db (err x, db') h v.charged_once) h.rest (omega (arith, h.fresh))

pub Loaded-Inv :
    {org : ℕ} {db db' : Db} {p : BillingProfile} → Loaded org db db' p → Inv db → Inv db'
Loaded-Inv l v =
    keep v (λ o. l.balances o ∙ v.balanced o ∙ sym (ap (wallet o) l.journal))
      (rw l.journal v.charged_once) l.rest (omega (arith, l.fresh))

-- A profile field other than the balance may change at will.
pub insert_profile-Inv :
    (org : ℕ) (db : Db) (p q : BillingProfile)
    → lookup org db.profiles ≡ some p
    → q.balance_mnt ≡ p.balance_mnt
    → Inv db
    → Inv (record db { profiles = insert org q db.profiles })
insert_profile-Inv org db p q found same v =
    keep v (λ o. rw lookup-insert (ground (arith, v.balanced o))) v.charged_once
      (record { orgs = refl; stores = refl; cameras = refl; promos = refl; redemptions = refl })
      (omega arith)

pub All-update_row :
    (P : PromoCode → Type 0) (Q : PromoCode → Type 0) (q : PromoCode) (ps : List PromoCode)
    → Q q
    → ((p : PromoCode) → (p.id == q.id) ≡ false → P p → Q p)
    → All P ps
    → All Q (update_row q ps)
unfolding update_row
All-update_row P Q q [] new other h = tt
All-update_row P Q q (p ∷ ps) new other h =
    (ite_Q (p.id == q.id) refl, All-update_row P Q q ps new other h.1)
  where
    ite_Q : (b : Bool) → (p.id == q.id) ≡ b → Q (if b then q else p)
    ite_Q true e = new
    ite_Q false e = other p e h.0

-- Recording a redemption of a code that has some left keeps the invariant, also where the unique
-- index refuses it.
pub record_redemption-Inv :
    (a : RedeemArgs) (p : PromoCode) (j : Option ℕ) (db : Db)
    → CountsRedemptions db.redemptions p
    → p.redeemed_count < p.max_redemptions
    → p.id < db.fresh
    → Inv db
    → Inv (record_redemption a p j db).1
unfolding record_redemption count_redemptions
record_redemption-Inv a p j db c left id v =
    elim (Bool-cases (has_redemption p.id a.org_id db.redemptions)) [
      | inl again ↦ rw again v
      | inr first ↦ rw first (record {
        balanced = v.balanced;
        charged_once = v.charged_once;
        counts =
            All-update_row _ _ _ db.promos (ground (arith, ==_refl p.id), omega arith)
              (λ p' ne h. ground (arith, h)) v.counts;
        redeemed_once = (first, v.redeemed_once);
        promo_ids = All-update_row _ _ _ db.promos id (λ _ _ h. h) v.promo_ids;
        redemption_ids = (id, v.redemption_ids);
      })
    ]

pub Loads-Inv :
    (org : ℕ) (db : Db) (r : Result BillingProfile × Db) → Loads org db r → Inv db → Inv r.1
Loads-Inv org db (ok p, db') l v = Loaded-Inv l v
Loads-Inv org db (err x, db') e v = subst Inv (sym e) v
