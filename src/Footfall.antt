-- ===== src/Footfall.antt =====
-- services/footfall_aggregator.py: how the live frames become counts of footfall, visits, dwell,
-- movement and demographics, and how these are flushed. A time is a number of microseconds of the
-- monotonic clock, a camera path, a store and an hour are numbers. The geometry of floats (the
-- projection of a foot point, the polygon tests, walls and the simplification of paths) is an
-- interface: a track comes with the place that the projection gives it, and `Geometry` holds the tests
-- on two points of a path.
pub mod Frame
pub mod Prune
pub mod Flush
pub mod Numbers
mod Tests
use sentry_backend.Base.{
  ℕ, ◌≡◌, ◌↔◌, Bool, true, false, ◌&&◌, Option, none, some, List, [], ◌∷◌, ◌==◌, arith,
}
use sentry_backend.Base.Eq.{Eq}
use sentry_backend.Base.Counter.{Counts}

-- (store_id, camera_id, hour_ts); the synthetic camera "__store__" is `none`.
pub record Bucket : Type 0 where
  pub store_id : ℕ
  pub camera_id : Option ℕ
  pub hour : ℕ

-- A bucket with a grid cell, a movement from a cell to a cell, or a gender with an age band.
pub record Slot : Type 0 where
  pub bucket : Bucket
  pub x : ℕ
  pub y : ℕ

-- Whose visit a gate counts: a shopper known in the store, or a camera's track.
pub data Visitor : Type 0 where
  sp : (store_id store_person_id : ℕ) → Visitor
  cam : (camera_id person_id : ℕ) → Visitor

abbrev pub same_camera : Option ℕ → Option ℕ → Bool
same_camera none none = true
same_camera none (some b) = false
same_camera (some a) none = false
same_camera (some a) (some b) = a == b

abbrev pub bucket_beq : Bucket → Bucket → Bool
bucket_beq a b = a.store_id == b.store_id && same_camera a.camera_id b.camera_id && a.hour == b.hour

abbrev pub slot_beq : Slot → Slot → Bool
slot_beq a b = bucket_beq a.bucket b.bucket && a.x == b.x && a.y == b.y

abbrev pub visitor_beq : Visitor → Visitor → Bool
visitor_beq (sp a b) (sp c d) = a == c && b == d
visitor_beq (sp a b) (cam c d) = false
visitor_beq (cam a b) (sp c d) = false
visitor_beq (cam a b) (cam c d) = a == c && b == d

same_camera_iff : (a b : Option ℕ) → (same_camera a b ≡ true) ↔ (a ≡ b)
same_camera_iff a b = ground arith

pub bucket_beq_iff : (a b : Bucket) → (bucket_beq a b ≡ true) ↔ (a ≡ b)
bucket_beq_iff a b = ground (arith, same_camera_iff a.camera_id b.camera_id)

pub slot_beq_iff : (a b : Slot) → (slot_beq a b ≡ true) ↔ (a ≡ b)
slot_beq_iff a b = ground (arith, bucket_beq_iff a.bucket b.bucket)

pub visitor_beq_iff : (a b : Visitor) → (visitor_beq a b ≡ true) ↔ (a ≡ b)
visitor_beq_iff a b = ground arith

instance abbrev pub bucket_eq : Eq Bucket
bucket_eq = record { beq = bucket_beq; beq_iff = bucket_beq_iff }

instance abbrev pub slot_eq : Eq Slot
slot_eq = record { beq = slot_beq; beq_iff = slot_beq_iff }

instance abbrev pub visitor_eq : Eq Visitor
visitor_eq = record { beq = visitor_beq; beq_iff = visitor_beq_iff }

pub record Geometry (Point : Type 0) : Type 0 where
  pub near : Point → Point → Bool  -- nearer than _PATH_MIN_STEP
  pub rounded : Point → Point  -- to four decimals
  pub blocked : ℕ → Point → Point → Bool  -- a teleport, or a wall of the store between
  pub simplify : List Point → List Point  -- _rdp

-- Where the projection puts a track's foot: the grid cell, the coarse cell, the point on the plan,
-- whether the point lies on the canvas with no wall in sight, and whether it lies in a gate.
pub record Place (Point : Type 0) : Type 0 where
  pub gx : ℕ
  pub gy : ℕ
  pub flow_cell : ℕ
  pub point : Point
  pub in_sight : Bool
  pub in_gate : Bool

-- `demo` is the pair of `_demo_bucket`, as places in the closed vocabularies with 0 for "unknown".
pub record Track (Point : Type 0) : Type 0 where
  pub person_id : Option ℕ
  pub store_person_id : Option ℕ
  pub is_mannequin : Bool
  pub is_staff : Bool
  pub demo : Option (ℕ × ℕ)
  pub place : Option (Place Point)

pub record Presence (Point : Type 0) : Type 0 where
  pub first_mono : ℕ
  pub last_mono : ℕ
  pub store_id : ℕ
  pub hour : ℕ
  pub last_flow_cell : Option ℕ
  pub path : List Point
  pub gender : Option ℕ
  pub age_band : Option ℕ
  pub has_sp : Bool
  pub is_staff : Bool

-- A cross-camera visit.
pub record Span : Type 0 where
  pub first : ℕ
  pub last : ℕ
  pub hour : ℕ

pub record PathRow (Point : Type 0) : Type 0 where
  pub bucket : Bucket
  pub duration : ℕ
  pub points : List Point
  pub gender : Option ℕ
  pub age_band : Option ℕ

abbrev pub TrackKey : Type 0
TrackKey = ℕ × ℕ

-- The two entries of a dwell bucket, its completed tracks and their milliseconds, are two tables.
pub record Aggregator (Point : Type 0) : Type 0 where
  pub buf : Counts Slot
  pub visits : Counts Bucket
  pub gate_seen : List (Visitor × ℕ)
  pub gate_last_prune : ℕ
  pub visit_credit : List (Visitor × Bucket)
  pub presence : List (TrackKey × Presence Point)
  pub sp_presence : List (TrackKey × Span)
  pub demo_seen : List (TrackKey × ℕ)
  pub demo_buf : Counts Slot
  pub dwell_count : Counts Bucket
  pub dwell_ms : Counts Bucket
  pub flow_buf : Counts Slot
  pub path_buf : List (PathRow Point)
  pub last_flush : ℕ
