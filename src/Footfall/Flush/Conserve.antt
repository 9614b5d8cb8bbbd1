-- ===== src/Footfall/Flush/Conserve.antt =====
-- Theorems on `_flush_locked`: the counts in the buffers and in the tables.
use sentry_backend.Base.{
  ℕ, ◌+◌, ◌≡◌, refl, sym, ap, ◌∙◌, Bool, true, List, [], ◌++◌, arith, Bool-cases, inl, inr,
}
use mathlib.Core.List.{append-nil}
use sentry_backend.Base.Lists.{filter_by, filter_by-append, filter_by-filter_by}
use sentry_backend.Base.Eq.{Eq}
use sentry_backend.Base.Counter.{Counts, total, bump_all, total-bump_all, total-filter}
use sentry_backend.Footfall.{bucket_eq, slot_eq, PathRow, Aggregator}
use sentry_backend.Footfall.Flush.{Analytics, nothing_buffered, persist, restore, flush}

-- Of every key of a store whose organization is known, buffer and table have together what they had.
abbrev pub Kept : {K : Type 0} ⦃e : Eq K⦄ → (K → Bool) → (buf db buf' db' : Counts K) → Type 0
Kept has buf db buf' db' =
    (k : _) → has k ≡ true → total k buf' + total k db' ≡ total k buf + total k db

module _ {K : Type 0} ⦃e : Eq K⦄ where
  persisted :
      (has : K → Bool) (buf db : Counts K)
      → Kept has buf db [] (bump_all (filter_by (λ x. has x.0) buf) db)
  unfolding total
  persisted has buf db k h =
      ground (arith, h, total-bump_all k (filter_by (λ x. has x.0) buf) db, total-filter has k buf)

  restored : (has : K → Bool) (buf db : Counts K) → Kept has buf db (bump_all buf []) db
  unfolding total
  restored has buf db k h = ground (arith, total-bump_all k buf [])

module _ {Point : Type 0} where
  abbrev pub owned : (ℕ → Bool) → List (PathRow Point) → List (PathRow Point)
  owned has_org rows = filter_by (λ r. has_org r.bucket.store_id) rows

  pub record Conserves (has_org : ℕ → Bool) (s s' : Aggregator Point) (db db' : Analytics Point)
      : Type 0 where
    pub footfall : Kept (λ k. has_org k.bucket.store_id) s.buf db.footfall s'.buf db'.footfall
    pub visits : Kept (λ k. has_org k.store_id) s.visits db.visits s'.visits db'.visits
    pub dwell_count :
        Kept (λ k. has_org k.store_id) s.dwell_count db.dwell_count s'.dwell_count db'.dwell_count
    pub dwell_ms : Kept (λ k. has_org k.store_id) s.dwell_ms db.dwell_ms s'.dwell_ms db'.dwell_ms
    pub flow : Kept (λ k. has_org k.bucket.store_id) s.flow_buf db.flow s'.flow_buf db'.flow
    pub demographics :
        Kept
          (λ k. has_org k.bucket.store_id)
          s.demo_buf
          db.demographics
          s'.demo_buf
          db'.demographics
    pub paths : owned has_org (db'.paths ++ s'.path_buf) ≡ owned has_org (db.paths ++ s.path_buf)

  -- Whether its session succeeds or fails, a flush conserves every count and every walked path of the
  -- stores whose organization is known: what leaves a buffer is in its table, once.
  pub flush-Conserves :
      (has_org : ℕ → Bool) (fails : Bool) (now : ℕ) (s : Aggregator Point) (db : Analytics Point)
      → let r = flush has_org fails now (s, db) in Conserves has_org s r.0 db r.1
  unfolding flush persist restore
  flush-Conserves has_org fails now s db = elim (Bool-cases (nothing_buffered s)) [
    | inl idle ↦ rw idle (record {
      footfall = λ k h. refl;
      visits = λ k h. refl;
      dwell_count = λ k h. refl;
      dwell_ms = λ k h. refl;
      flow = λ k h. refl;
      demographics = λ k h. refl;
      paths = refl;
    })
    | inr busy ↦ elim (Bool-cases fails) [
      | inl failed ↦
          rw (busy, failed)
            (record {
              footfall = restored (λ k. has_org k.bucket.store_id) s.buf db.footfall;
              visits = restored (λ k. has_org k.store_id) s.visits db.visits;
              dwell_count = restored (λ k. has_org k.store_id) s.dwell_count db.dwell_count;
              dwell_ms = restored (λ k. has_org k.store_id) s.dwell_ms db.dwell_ms;
              flow = restored (λ k. has_org k.bucket.store_id) s.flow_buf db.flow;
              demographics = restored (λ k. has_org k.bucket.store_id) s.demo_buf db.demographics;
              paths = refl;
            })
      | inr done ↦
          rw (busy, done)
            (record {
              footfall = persisted (λ k. has_org k.bucket.store_id) s.buf db.footfall;
              visits = persisted (λ k. has_org k.store_id) s.visits db.visits;
              dwell_count = persisted (λ k. has_org k.store_id) s.dwell_count db.dwell_count;
              dwell_ms = persisted (λ k. has_org k.store_id) s.dwell_ms db.dwell_ms;
              flow = persisted (λ k. has_org k.bucket.store_id) s.flow_buf db.flow;
              demographics = persisted (λ k. has_org k.bucket.store_id) s.demo_buf db.demographics;
              paths =
                  ap (owned has_org) (append-nil (db.paths ++ owned has_org s.path_buf))
                  ∙ filter_by-append _ db.paths (owned has_org s.path_buf)
                  ∙ ap (λ l. owned has_org db.paths ++ l) (filter_by-filter_by _ s.path_buf)
                  ∙ sym (filter_by-append _ db.paths s.path_buf);
            })
    ]
  ]
