-- ===== src/Footfall/Tests.antt =====
-- The theorems on footfall at concrete inputs: points are numbers, near when equal, and a step of more
-- than fifty is a teleport.
use sentry_backend.Base.{
  refl, ℕ, ◌+◌, ◌≡◌, Bool, true, false, not, none, some, [], ◌∷◌, map, ltb, ◌==◌, arith,
}
use sentry_backend.Base.Lists.{count_by, filter_by}
use sentry_backend.Base.Counter.{total}
use sentry_backend.Footfall.{Bucket, cam, Geometry, Presence, Track, Aggregator}
use sentry_backend.Footfall.Frame.{Frame}
use sentry_backend.Footfall.Frame.Visits.{credits, Credited}
use sentry_backend.Footfall.Prune.{finished_paths, gone, span_gone, prune_presence}
use sentry_backend.Footfall.Prune.Dwell.{
  sum_by, banks, span_banks, dwell_of, span_dwell, Grows, prune_presence-banks_once,
}
use sentry_backend.Base.Text.{digits, value}
use sentry_backend.Footfall.Numbers.{
  pad, text_lt, greatest, next_visitor_seq, number_rows, insert_batches, insert_batches-number_rows,
}
use sentry_backend.Footfall.Flush.{Analytics, flush, on_frame_inner}
use sentry_backend.Footfall.Flush.Conserve.{Conserves, flush-Conserves}
use sentry_backend.Footfall.Flush.Credits.{on_frame_inner-Credited}

abbrev jump : ℕ → ℕ → Bool
jump a b = ltb (a + 50) b

abbrev line : Geometry ℕ
line = record {
  near = λ a b. a == b;
  rounded = λ a. a;
  blocked = λ store a b. jump a b;
  simplify = λ ps. ps;
}

abbrev is_known : ℕ → Bool
is_known store = store == 1

abbrev door : Bucket
door = record { store_id = 1; camera_id = some 3; hour = 9 }

-- Track 5 walked three points and left; shopper 8 left the store after a minute.
abbrev yesterday : Aggregator ℕ
yesterday = record {
  buf = [];
  visits = (door, 2) ∷ [];
  gate_seen = (cam 3 5, 10) ∷ [];
  gate_last_prune = 0;
  visit_credit = (cam 3 5, door) ∷ [];
  presence =
      (
        (3, 5),
        record {
          first_mono = 10;
          last_mono = 4_000_010;
          store_id = 1;
          hour = 9;
          last_flow_cell = none;
          path = 1 ∷ 2 ∷ 3 ∷ [];
          gender = none;
          age_band = none;
          has_sp = false;
          is_staff = false;
        },
      )
      ∷ [];
  sp_presence = ((1, 8), record { first = 0; last = 60_000_000; hour = 9 }) ∷ [];
  demo_seen = [];
  demo_buf = [];
  dwell_count = [];
  dwell_ms = [];
  flow_buf = [];
  path_buf = [];
  last_flush = 0;
}

abbrev no_rows : Analytics ℕ
no_rows = record {
  footfall = [];
  visits = (door, 4) ∷ [];
  dwell_count = [];
  dwell_ms = [];
  flow = [];
  demographics = [];
  paths = [];
}

abbrev later : Frame
later = record { store_id = 1; cam_path = 3; hour = 10; now = 200_000_000 }

abbrev guest : Track ℕ
guest = record {
  person_id = some 6;
  store_person_id = some 8;
  is_mannequin = false;
  is_staff = false;
  demo = some (1, 2);
  place =
      some (record { gx = 4; gy = 5; flow_cell = 17; point = 7; in_sight = true; in_gate = true });
}

flush-Conserves_example :
    let r = flush is_known true 5 (yesterday, no_rows) in
    Conserves is_known yesterday r.0 no_rows r.1
flush-Conserves_example = flush-Conserves is_known true 5 yesterday no_rows

yesterday-Credited : Credited yesterday
unfolding credits total
yesterday-Credited b = ground arith

on_frame_inner-Credited_example :
    Credited (on_frame_inner line is_known true later (guest ∷ []) (yesterday, no_rows)).0
on_frame_inner-Credited_example =
    on_frame_inner-Credited line is_known true later (guest ∷ []) yesterday no_rows
      yesterday-Credited

-- A walk whose fourth point is a teleport away from the third.
abbrev walker : Presence ℕ
walker = record {
  first_mono = 10;
  last_mono = 4_000_010;
  store_id = 1;
  hour = 9;
  last_flow_cell = none;
  path = 1 ∷ 2 ∷ 3 ∷ 90 ∷ 91 ∷ [];
  gender = none;
  age_band = none;
  has_sp = false;
  is_staff = false;
}

walker-run : map (λ row. row.points) (finished_paths line (3, 5) walker) ≡ (1 ∷ 2 ∷ 3 ∷ []) ∷ []
unfolding finished_paths
walker-run = refl

prune_presence-banks_once_example :
    Grows door
      (count_by (banks door) (filter_by (gone 200_000_000) yesterday.presence)
        + count_by (span_banks door) (filter_by (span_gone 200_000_000) yesterday.sp_presence))
      (sum_by (banks door) dwell_of (filter_by (gone 200_000_000) yesterday.presence)
        + sum_by
            (span_banks door)
            span_dwell
            (filter_by (span_gone 200_000_000) yesterday.sp_presence))
      yesterday
      (prune_presence line 200_000_000 yesterday)
    × ((prune_presence line 200_000_000 yesterday).presence
        ≡ filter_by (λ e. not (gone 200_000_000 e)) yesterday.presence)
    × ((prune_presence line 200_000_000 yesterday).sp_presence
        ≡ filter_by (λ e. not (span_gone 200_000_000 e)) yesterday.sp_presence)
prune_presence-banks_once_example = prune_presence-banks_once line 200_000_000 door yesterday

insert_batches-number_rows_example : insert_batches (2 ∷ 0 ∷ 3 ∷ []) [] ≡ number_rows 1 5
insert_batches-number_rows_example = insert_batches-number_rows (2 ∷ 0 ∷ 3 ∷ []) (omega arith)

-- Once 1000 is stored the next number is 1000 again.
stuck : next_visitor_seq (pad 999 ∷ pad 1_000 ∷ []) ≡ 1_000
unfolding next_visitor_seq greatest text_lt pad digits value
stuck = refl
