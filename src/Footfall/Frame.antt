-- ===== src/Footfall/Frame.antt =====
-- One frame of a resolved camera, step by step as `_on_frame_inner` takes them under its lock.
pub mod Visits
use sentry_backend.Base.{
  ℕ, zero, suc, ◌+◌, ◌*◌, ◌-◌, ◌/◌, ◌%◌, Bool, true, false, not, ◌&&◌, ◌||◌, Option, none, some,
  List, [], ◌∷◌, ◌++◌, map, leb, ltb, ◌==◌, if◌then◌else◌, is_some,
}
use sentry_backend.Base.Lists.{length, filter_by}
use sentry_backend.Base.Eq.{Eq, pair_eq}
use sentry_backend.Base.Table.{get, put, remove}
use sentry_backend.Base.Counter.{Counts, bump, take_one}
use sentry_backend.Footfall.{
  Bucket, Slot, Visitor, sp, cam, bucket_eq, slot_eq, visitor_eq, Geometry, Place, Track, Presence,
  Span, TrackKey, Aggregator,
}

-- The constants of a frame.
pub record Frame : Type 0 where
  pub store_id : ℕ
  pub cam_path : ℕ
  pub hour : ℕ
  pub now : ℕ

abbrev pub bucket_of : Frame → Bucket
bucket_of f = record { store_id = f.store_id; camera_id = some f.cam_path; hour = f.hour }

abbrev pub slot_of : Frame → ℕ → ℕ → Slot
slot_of f x y = record { bucket = bucket_of f; x = x; y = y }

abbrev pub visitor_of : Frame → Option ℕ → ℕ → Visitor
visitor_of f (some person) pid = sp f.store_id person
visitor_of f none pid = cam f.cam_path pid

staff_key : Frame → Option ℕ → Option ℕ → Option Visitor
staff_key f pid (some person) = some (sp f.store_id person)
staff_key f (some pid) none = some (cam f.cam_path pid)
staff_key f none none = none

uncredit : Option Bucket → Counts Bucket → Counts Bucket
uncredit none visits = visits
uncredit (some b) visits = take_one b visits

-- A loop over the items that the frame has collected.
abbrev pub for_each : {A S : Type 0} → (A → S → S) → List A → S → S
for_each body [] s = s
for_each body (x ∷ xs) s = for_each body xs (body x s)

span_now : Frame → Option Span → Span
span_now f none = record { first = f.now; last = f.now; hour = f.hour }
span_now f (some x) = record x { last = f.now }

abbrev known : ℕ → Option ℕ
known zero = none
known (suc n) = some (suc n)

abbrev pub path_max_points : ℕ
path_max_points = 400

abbrev pub flow_grid : ℕ
flow_grid = 12

abbrev pub near_coordinate : ℕ → ℕ → Bool
near_coordinate a b = leb a (b + 2) && leb b (a + 2)

-- Two coarse cells within two steps of each other.
unfoldable pub flow_adjacent : ℕ → ℕ → Bool
flow_adjacent a b =
    near_coordinate (a % flow_grid) (b % flow_grid)
    && near_coordinate (a / flow_grid) (b / flow_grid)

flow_edge : Frame → Option ℕ → ℕ → Counts Slot → Counts Slot
unfolding flow_adjacent
flow_edge f none cell flow = flow
flow_edge f (some prev) cell flow =
    if not (prev == cell) && flow_adjacent prev cell
    then bump (slot_of f prev cell) 1 flow
    else flow

module _ {Point : Type 0} where
  abbrev is_visitor : Track Point → Bool
  is_visitor t = not t.is_mannequin && not t.is_staff

  -- The tracks that reach the counters.
  unfoldable pub visitors : List (Track Point) → List (Track Point)
  visitors ts = filter_by is_visitor ts

  unfoldable pub staff_marks : List (Track Point) → List (Option ℕ × Option ℕ)
  staff_marks ts =
      map (λ t. (t.person_id, t.store_person_id))
        (filter_by (λ t. not t.is_mannequin && t.is_staff) ts)

  gate_hit :
      Frame
      → List (Visitor × ℕ)
      → Option ℕ
      → Option ℕ
      → Option (Place Point)
      → List (Visitor × Bool)
  gate_hit f seen (some pid) person (some p) =
      if p.in_gate
      then (visitor_of f person pid, not (is_some (get (visitor_of f person pid) seen))) ∷ []
      else []
  gate_hit f seen none person p = []
  gate_hit f seen (some pid) person none = []

  -- Who stands in a gate, with whether the gate had not seen them before this frame.
  unfoldable pub gate_hits : Frame → List (Visitor × ℕ) → List (Track Point) → List (Visitor × Bool)
  unfolding gate_hit
  gate_hits f seen [] = []
  gate_hits f seen (t ∷ ts) =
      gate_hit f seen t.person_id t.store_person_id t.place ++ gate_hits f seen ts

  -- The gate key stays deduplicated, and a credited visit is taken back.
  unfoldable pub cancel_visit : Frame → Option Visitor → Aggregator Point → Aggregator Point
  unfolding uncredit
  cancel_visit f none s = s
  cancel_visit f (some v) s = record s {
    gate_seen = put v f.now s.gate_seen;
    visits = uncredit (get v s.visit_credit) s.visits;
    visit_credit = remove v s.visit_credit;
  }

  mark_presence : TrackKey → Option (Presence Point) → Aggregator Point → Aggregator Point
  mark_presence k none s = s
  mark_presence k (some p) s =
      if p.is_staff
      then s
      else record s { presence = put k (record p { is_staff = true; path = [] }) s.presence }

  mark_track : Frame → Option ℕ → Aggregator Point → Aggregator Point
  unfolding mark_presence
  mark_track f none s = s
  mark_track f (some pid) s = mark_presence (f.cam_path, pid) (get (f.cam_path, pid) s.presence) s

  drop_span : Frame → Option ℕ → Aggregator Point → Aggregator Point
  drop_span f none s = s
  drop_span f (some person) s = record s { sp_presence = remove (f.store_id, person) s.sp_presence }

  unfoldable pub cancel_staff : Frame → Option ℕ × Option ℕ → Aggregator Point → Aggregator Point
  unfolding cancel_visit mark_track drop_span staff_key
  cancel_staff f (pid, person) s =
      drop_span f person (mark_track f pid (cancel_visit f (staff_key f pid person) s))

  count_cell : Frame → Option (Place Point) → Aggregator Point → Aggregator Point
  count_cell f none s = s
  count_cell f (some p) s = record s { buf = bump (slot_of f p.gx p.gy) 1 s.buf }

  -- A fresh visitor counts once, and is credited with the bucket.
  unfoldable pub count_gate : Frame → Visitor × Bool → Aggregator Point → Aggregator Point
  count_gate f (v, fresh) s =
      let t = record s { gate_seen = put v f.now s.gate_seen } in
      if fresh
      then record t {
        visits = bump (bucket_of f) 1 s.visits;
        visit_credit = put v (bucket_of f) s.visit_credit;
      }
      else t

  abbrev pub new_presence : Frame → Presence Point
  new_presence f = record {
    first_mono = f.now;
    last_mono = f.now;
    store_id = f.store_id;
    hour = f.hour;
    last_flow_cell = none;
    path = [];
    gender = none;
    age_band = none;
    has_sp = false;
    is_staff = false;
  }

  extended : Frame → Option (Presence Point) → Presence Point
  extended f none = new_presence f
  extended f (some p) = record p { last_mono = f.now }

  extend_presence : Frame → Option ℕ → Aggregator Point → Aggregator Point
  unfolding extended
  extend_presence f none s = s
  extend_presence f (some pid) s =
      let k : TrackKey = (f.cam_path, pid) in
      record s { presence = put k (extended f (get k s.presence)) s.presence }

  -- A change of the presence of a track, where it has one.
  abbrev with_presence :
      TrackKey
      → (Presence Point → Presence Point)
      → Option (Presence Point)
      → List (TrackKey × Presence Point)
      → List (TrackKey × Presence Point)
  with_presence k g none d = d
  with_presence k g (some p) d = put k (g p) d

  abbrev on_presence :
      Frame → ℕ → (Presence Point → Presence Point) → Aggregator Point → Aggregator Point
  on_presence f pid g s =
      let k : TrackKey = (f.cam_path, pid) in
      record s { presence = with_presence k g (get k s.presence) s.presence }

  extend_span : Frame → Option ℕ → Option ℕ → Aggregator Point → Aggregator Point
  unfolding span_now
  extend_span f (some pid) (some person) s =
      let t = on_presence f pid (λ p. record p { has_sp = true }) s in
      let k : TrackKey = (f.store_id, person) in
      record t { sp_presence = put k (span_now f (get k s.sp_presence)) s.sp_presence }
  extend_span f none person s = s
  extend_span f (some pid) none s = s

  -- The first gender that is not "unknown" stays.
  stamp : ℕ → ℕ → Presence Point → Presence Point
  stamp gender age p =
      if not (is_some p.gender) && ltb 0 gender
      then record p { gender = some gender; age_band = known age }
      else p

  stamp_demo : Frame → Option ℕ → Option (ℕ × ℕ) → Aggregator Point → Aggregator Point
  unfolding stamp
  stamp_demo f (some pid) (some (gender, age)) s = on_presence f pid (stamp gender age) s
  stamp_demo f none demo s = s
  stamp_demo f (some pid) none s = s

  -- A track counts once while the table remembers it.
  count_demo : Frame → Option ℕ → Option (ℕ × ℕ) → Aggregator Point → Aggregator Point
  count_demo f (some pid) (some (gender, age)) s =
      let k : TrackKey = (f.cam_path, pid) in
      let t = record s { demo_seen = put k f.now s.demo_seen } in
      if is_some (get k s.demo_seen)
      then t
      else record t { demo_buf = bump (slot_of f gender age) 1 s.demo_buf }
  count_demo f none demo s = s
  count_demo f (some pid) none s = s

  abbrev last_near : Geometry Point → Point → List Point → Bool
  last_near g x [] = false
  last_near g x (y ∷ []) = g.near y x
  last_near g x (y ∷ z ∷ ps) = last_near g x (z ∷ ps)

  sample : Geometry Point → Place Point → Presence Point → Presence Point
  sample g q p =
      if leb path_max_points (length p.path) || not q.in_sight || last_near g q.point p.path
      then p
      else record p { path = p.path ++ (g.rounded q.point ∷ []) }

  sample_path :
      Geometry Point → Frame → Option ℕ → Option (Place Point) → Aggregator Point → Aggregator Point
  unfolding sample
  sample_path g f (some pid) (some q) s = on_presence f pid (sample g q) s
  sample_path g f none q s = s
  sample_path g f (some pid) none s = s

  move : Frame → ℕ → ℕ → Option (Presence Point) → Aggregator Point → Aggregator Point
  unfolding flow_edge
  move f pid cell none s = s
  move f pid cell (some p) s = record s {
    flow_buf = flow_edge f p.last_flow_cell cell s.flow_buf;
    presence = put (f.cam_path, pid) (record p { last_flow_cell = some cell }) s.presence;
  }

  count_flow : Frame → Option ℕ → Option (Place Point) → Aggregator Point → Aggregator Point
  unfolding move
  count_flow f (some pid) (some q) s = move f pid q.flow_cell (get (f.cam_path, pid) s.presence) s
  count_flow f none q s = s
  count_flow f (some pid) none s = s

  -- The loops of a frame under the lock, in the order of the code; `hits` were collected before it.
  unfoldable pub count_frame :
      Geometry Point
      → Frame
      → List (Track Point)
      → List (Visitor × Bool)
      → Aggregator Point
      → Aggregator Point
  unfolding visitors staff_marks cancel_staff count_cell count_gate extend_presence extend_span
      stamp_demo count_demo sample_path count_flow
  count_frame g f ts hits s0 =
      let vs = visitors ts in
      let s1 = for_each (cancel_staff f) (staff_marks ts) s0 in
      let s2 = for_each (λ t. count_cell f t.place) vs s1 in
      let s3 = for_each (count_gate f) hits s2 in
      let s4 = for_each (λ t. extend_presence f t.person_id) vs s3 in
      let s5 = for_each (λ t. extend_span f t.person_id t.store_person_id) vs s4 in
      let s6 = for_each (λ t. stamp_demo f t.person_id t.demo) vs s5 in
      let s7 = for_each (λ t. count_demo f t.person_id t.demo) vs s6 in
      let s8 = for_each (λ t. sample_path g f t.person_id t.place) vs s7 in
      for_each (λ t. count_flow f t.person_id t.place) vs s8
