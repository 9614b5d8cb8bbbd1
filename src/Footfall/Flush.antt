-- ===== src/Footfall/Flush.antt =====
-- `_flush_locked` and `on_frame_inner`, with the tables that repository/analytics_repo.py adds the counts to.
pub mod Conserve
pub mod Credits
use sentry_backend.Base.{
  ℕ, ◌+◌, Bool, true, false, not, ◌&&◌, ◌||◌, Option, none, some, List, [], ◌∷◌, ◌++◌, leb,
  if◌then◌else◌, is_some,
}
use sentry_backend.Base.Lists.{length, filter_by}
use sentry_backend.Base.Eq.{Eq}
use sentry_backend.Base.Counter.{Counts, bump_all}
use sentry_backend.Footfall.{
  Bucket, Slot, Visitor, bucket_eq, slot_eq, visitor_eq, Geometry, Track, PathRow, Aggregator,
}
use sentry_backend.Footfall.Frame.{Frame, gate_hits, count_frame, visitors, staff_marks}
use sentry_backend.Footfall.Prune.{prune_gate_seen, prune_presence}

-- The rows of the analytics tables; the upserts add the new counts to them.
pub record Analytics (Point : Type 0) : Type 0 where
  pub footfall : Counts Slot
  pub visits : Counts Bucket
  pub dwell_count : Counts Bucket
  pub dwell_ms : Counts Bucket
  pub flow : Counts Slot
  pub demographics : Counts Slot
  pub paths : List (PathRow Point)

-- The upserts of repository/analytics_repo.py, `set n = n + excluded.n` on a row that is there.
abbrev pub bump_buckets : Counts Slot → Counts Slot → Counts Slot
bump_buckets deltas rows = bump_all deltas rows

abbrev pub bump_visits : Counts Bucket → Counts Bucket → Counts Bucket
bump_visits counts rows = bump_all counts rows

abbrev pub bump_dwell :
    Counts Bucket × Counts Bucket → Counts Bucket × Counts Bucket → Counts Bucket × Counts Bucket
bump_dwell (tracks, ms) (track_count, dwell_ms_sum) =
    (bump_all tracks track_count, bump_all ms dwell_ms_sum)

abbrev pub bump_flow : Counts Slot → Counts Slot → Counts Slot
bump_flow edges rows = bump_all edges rows

abbrev pub bump_demographics : Counts Slot → Counts Slot → Counts Slot
bump_demographics counts rows = bump_all counts rows

abbrev pub flush_cells : ℕ
flush_cells = 800

abbrev pub flush_interval : ℕ
flush_interval = 90_000_000

abbrev pub is_empty : {A : Type 0} → List A → Bool
is_empty [] = true
is_empty (x ∷ xs) = false

module _ {Point : Type 0} where
  abbrev pub nothing_buffered : Aggregator Point → Bool
  nothing_buffered s =
      is_empty s.buf
      && is_empty s.visits
      && is_empty s.dwell_count
      && is_empty s.flow_buf
      && is_empty s.demo_buf
      && is_empty s.path_buf

  -- The buffers handed over to the flush; the credits point into them and go too.
  abbrev pub emptied : ℕ → Aggregator Point → Aggregator Point
  emptied now s = record s {
    buf = [];
    visits = [];
    visit_credit = [];
    dwell_count = [];
    dwell_ms = [];
    flow_buf = [];
    demo_buf = [];
    path_buf = [];
    last_flush = now;
  }

  -- The upserts of one session. `has_org` tells whether the store's organization is known: the rows
  -- of other stores are skipped.
  unfoldable pub persist : (ℕ → Bool) → Aggregator Point → Analytics Point → Analytics Point
  persist has_org s db =
      let slots : Counts Slot → Counts Slot = filter_by (λ e. has_org e.0.bucket.store_id) in
      let buckets : Counts Bucket → Counts Bucket = filter_by (λ e. has_org e.0.store_id) in
      let dwell =
        bump_dwell (buckets s.dwell_count, buckets s.dwell_ms) (db.dwell_count, db.dwell_ms) in
      record {
        footfall = bump_buckets (slots s.buf) db.footfall;
        visits = bump_visits (buckets s.visits) db.visits;
        dwell_count = dwell.0;
        dwell_ms = dwell.1;
        flow = bump_flow (slots s.flow_buf) db.flow;
        demographics = bump_demographics (slots s.demo_buf) db.demographics;
        paths = db.paths ++ filter_by (λ r. has_org r.bucket.store_id) s.path_buf;
      }

  -- The counts are put back after a failure; the credits are not.
  unfoldable pub restore : Aggregator Point → Aggregator Point → Aggregator Point
  restore old s = record s {
    path_buf = s.path_buf ++ old.path_buf;
    buf = bump_all old.buf s.buf;
    visits = bump_all old.visits s.visits;
    dwell_count = bump_all old.dwell_count s.dwell_count;
    dwell_ms = bump_all old.dwell_ms s.dwell_ms;
    flow_buf = bump_all old.flow_buf s.flow_buf;
    demo_buf = bump_all old.demo_buf s.demo_buf;
  }

  -- `fails` tells whether the session raises; then the database rolls back.
  unfoldable pub flush :
      (ℕ → Bool)
      → Bool
      → ℕ
      → Aggregator Point × Analytics Point
      → Aggregator Point × Analytics Point
  unfolding persist restore
  flush has_org fails now (s, db) =
      if nothing_buffered s
      then (record s { last_flush = now }, db)
      else if fails
      then (restore s (emptied now s), db)
      else (emptied now s, persist has_org s db)

  abbrev pub is_due : ℕ → Aggregator Point → Bool
  is_due now s = leb flush_cells (length s.buf) || leb (s.last_flush + flush_interval) now

  -- A frame with no foot point on the plan, no tracked visitor and no staff badge.
  abbrev pub is_idle : List (Track Point) → Bool
  is_idle ts =
      is_empty (filter_by (λ t. is_some t.person_id || is_some t.place) (visitors ts))
      && is_empty (staff_marks ts)

  -- `_on_frame_inner` of a camera that resolves to a store with a plan.
  unfoldable pub on_frame_inner :
      Geometry Point
      → (ℕ → Bool)
      → Bool
      → Frame
      → List (Track Point)
      → Aggregator Point × Analytics Point
      → Aggregator Point × Analytics Point
  unfolding gate_hits count_frame visitors staff_marks prune_gate_seen prune_presence flush
  on_frame_inner g has_org fails f ts (s, db) =
      let hits = gate_hits f s.gate_seen (visitors ts) in
      let t = prune_presence g f.now (prune_gate_seen f.now (count_frame g f ts hits s)) in
      if is_idle ts
      then (s, db)
      else if is_due f.now t
      then flush has_org fails f.now (t, db)
      else (t, db)
