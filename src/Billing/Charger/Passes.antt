-- ===== src/Billing/Charger/Passes.antt =====
-- Theorems on the loop of `charge_once`, services/billing/charger.py.
use sentry_backend.Base.{
  ℕ, subst, ==_iff, ◌≡◌, refl, sym, ◌∙◌, true, false, some, List, [], ◌∷◌, ◌++◌, inl, inr, arith,
  Bool, Bool-cases, if◌then◌else◌, leb, ◌==◌,
}
use mathlib.Core.List.{append_assoc, append-nil}
use sentry_backend.Base.Dict.{Dict, lookup, insert, lookup-insert}
use sentry_backend.Base.Eq.{nat_eq}
use sentry_backend.Base.Sets.{IdSet, member}
use sentry_backend.Base.Action.{Result, ok, err, bind_rule}
use sentry_backend.Billing.Models.{Time, Db}
use sentry_backend.Billing.Status.{BillingStatus}
use sentry_backend.Billing.Pricing.{org_daily_charge_mnt}
use sentry_backend.Billing.Ledger.{has_charge}
use sentry_backend.Billing.Invariant.{Inv}
use sentry_backend.Billing.Charger.Daily.{Charges, Idle, charge_session-Inv, charge_session-Charges}
use sentry_backend.Billing.Charger.{
  Summary, empty_summary, Outcome, suspended_org, charged_org, charge_session, tally, charge_org,
  charge_loop, charge_once, counts_of, group_rows, store_rows, org_store_counts,
}

-- A turn that does nothing for an org that is charged already.
record Turn (org today : ℕ) (s : Summary) (db : Db) (r : Result Summary × Db) : Type 0 where
  keeps : Inv db → Inv r.1
  idle : has_charge org (some today) db.journal ≡ true → Idle db r.1

session-Turn :
    (b : BillingStatus) (w : Bool) (org today daily : ℕ) (s : Summary) (db : Db)
    (r : Result Outcome × Db)
    → Charges b w today org daily db r
    → (Inv db → Inv r.1)
    → Turn org today s db (
        let out = elim r.0 as (λ _. Result Outcome × Db) [
          | ok a ↦ (ok a, r.1)
          | err e ↦ (err e, db)
        ] in
        (tally out.0 s, out.1))
session-Turn b w org today daily s db (ok suspended_org, db') c v = record {
  keeps = v;
  idle = λ _. c.0;
}
session-Turn b w org today daily s db (ok (charged_org false), db') c v = record {
  keeps = v;
  idle = λ h. cc (c.0.before);
}
session-Turn b w org today daily s db (ok (charged_org true), db') c v = record {
  keeps = v;
  idle = λ h. cc (c.0.before);
}
session-Turn b w org today daily s db (err x, db') c v = record {
  keeps = λ w. w;
  idle = λ _. record { balances = λ o. refl; journal = refl };
}

charge_org-Turn :
    (now : Time) (today : ℕ) (done : IdSet) (org : ℕ) (counts : List ℕ) (s : Summary) (db : Db)
    → Turn org today s db (charge_org now today done org counts s db)
unfolding charge_org
charge_org-Turn now today done org counts s db = elim (Bool-cases (member org done)) [
  | inl seen ↦ rw seen still
  | inr unseen ↦ rw unseen (elim (Bool-cases (leb (org_daily_charge_mnt counts) 0)) [
    | inl free ↦ rw free still
    | inr priced ↦ rw priced (
        session-Turn _ _ org today (org_daily_charge_mnt counts) s db
          (charge_session now today org (org_daily_charge_mnt counts) db)
          (charge_session-Charges now today org (org_daily_charge_mnt counts) db (ground arith))
          (charge_session-Inv now today org (org_daily_charge_mnt counts) db))
  ])
]
  where
    still : {s' : Summary} → Turn org today s db (ok s', db)
    still = record { keeps = λ w. w; idle = λ _. record { balances = λ o. refl; journal = refl } }

-- A turn of the loop for an org that already has its usage charge for the day leaves the journal and
-- every balance alone, however stale the snapshot is that the loop works from.
pub charge_org_again :
    (now : Time) (today : ℕ) (done : IdSet) (org : ℕ) (counts : List ℕ) (s : Summary) (db : Db)
    → has_charge org (some today) db.journal ≡ true
    → Idle db (charge_org now today done org counts s db).1
charge_org_again now today done org counts s db h =
    (charge_org-Turn now today done org counts s db).idle h

charge_loop-Inv :
    (now : Time) (today : ℕ) (done : IdSet) (groups : Dict (List ℕ)) (s : Summary) (db : Db)
    → Inv db
    → Inv (charge_loop now today done groups s db).1
unfolding charge_loop
charge_loop-Inv now today done [] s db v = v
charge_loop-Inv now today done ((org, counts) ∷ rest) s db v =
    let t = charge_org-Turn now today done org counts s db in
    bind_rule (λ out. Inv out.1) (charge_org now today done org counts s db)
      (λ s' _. charge_loop-Inv now today done rest s' _ (t.keeps v)) (λ x _. t.keeps v)

-- A pass keeps the invariant of the billing tables.
pub charge_once-Inv :
    (ub_date : Time → ℕ) (now : Time) (db : Db) → Inv db → Inv (charge_once ub_date now db).1
unfolding charge_once
charge_once-Inv ub_date now db v = charge_loop-Inv now _ _ (org_store_counts db) empty_summary db v

-- The camera counts of the stores of one org, in the order of the rows.
abbrev pub rows_of : ℕ → List (ℕ × ℕ) → List ℕ
rows_of org [] = []
rows_of org ((o, n) ∷ rows) = if o == org then n ∷ rows_of org rows else rows_of org rows

group_rows-rows_of :
    (rows : List (ℕ × ℕ)) (groups : Dict (List ℕ)) (org : ℕ)
    → counts_of (lookup org (group_rows rows groups))
      ≡ counts_of (lookup org groups) ++ rows_of org rows
unfolding group_rows
group_rows-rows_of [] groups org = sym (append-nil _)
group_rows-rows_of ((o, n) ∷ rows) groups org =
    group_rows-rows_of rows (insert o (counts_of (lookup o groups) ++ (n ∷ [])) groups) org
    ∙ rw lookup-insert (elim (Bool-cases (o == org)) [
      | inl same ↦ rw same (
          subst
            (λ k.
              (counts_of (lookup o groups) ++ (n ∷ [])) ++ rows_of org rows
              ≡ counts_of (lookup k groups) ++ (n ∷ rows_of org rows))
            ((==_iff o org).0 same)
            (append_assoc (counts_of (lookup o groups)) (n ∷ []) (rows_of org rows)))
      | inr other ↦ rw other refl
    ])

-- The grouping in Python loses no store: each org is charged for exactly its own stores' counts.
pub org_store_counts-rows_of :
    (db : Db) (org : ℕ)
    → counts_of (lookup org (org_store_counts db)) ≡ rows_of org (store_rows db.cameras db.stores)
unfolding org_store_counts lookup
org_store_counts-rows_of db org = group_rows-rows_of (store_rows db.cameras db.stores) [] org

-- A turn of the loop keeps the invariant, whatever snapshot it works from.
pub charge_org-Inv :
    (now : Time) (today : ℕ) (done : IdSet) (org : ℕ) (counts : List ℕ) (s : Summary) (db : Db)
    → Inv db
    → Inv (charge_org now today done org counts s db).1
charge_org-Inv now today done org counts s db v =
    (charge_org-Turn now today done org counts s db).keeps v
