-- ===== src/Footfall/Prune.antt =====
-- `_prune_gate_seen`, `_prune_presence` and `_split_path`.
pub mod Dwell
pub mod Paths
use sentry_backend.Base.{
  ℕ, suc, ◌+◌, ◌-◌, ◌/◌, Bool, true, false, not, ◌&&◌, ◌||◌, Option, none, some, List, [], ◌∷◌,
  ◌++◌, map, leb, ltb, if◌then◌else◌,
}
use sentry_backend.Base.Lists.{length, filter_by}
use sentry_backend.Base.Eq.{Eq}
use sentry_backend.Base.Table.{remove}
use sentry_backend.Base.Counter.{Counts, bump}
use sentry_backend.Footfall.{
  Bucket, Slot, Visitor, bucket_eq, visitor_eq, Geometry, Presence, Span, TrackKey, PathRow,
  Aggregator,
}

abbrev pub gate_ttl : ℕ
gate_ttl = 45_000_000

abbrev pub presence_ttl : ℕ
presence_ttl = 45_000_000

abbrev pub sp_ttl : ℕ
sp_ttl = 120_000_000

abbrev pub path_min_saved_points : ℕ
path_min_saved_points = 3

abbrev is_past : ℕ → ℕ → ℕ → Bool
is_past ttl now seen = leb (seen + ttl) now

abbrev pub remove_all : {V : Type 0} → List (Visitor × ℕ) → List (Visitor × V) → List (Visitor × V)
remove_all [] d = d
remove_all ((v, t) ∷ vs) d = remove_all vs (remove v d)

abbrev or_part : {A : Type 0} → List A → List (List A) → List (List A)
or_part cur parts = if leb path_min_saved_points (length cur) then cur ∷ parts else parts

-- The loop of `_split_path`, from the last point of `cur` on.
split_loop : {A : Type 0} → (A → A → Bool) → A → List A → List A → List (List A)
split_loop blocked a cur [] = or_part cur []
split_loop blocked a cur (b ∷ bs) =
    let cut = split_loop blocked b (b ∷ []) bs in
    let on = split_loop blocked b (cur ++ (b ∷ [])) bs in
    if blocked a b then or_part cur cut else on

unfoldable pub split_path : {A : Type 0} → (A → A → Bool) → List A → List (List A)
unfolding split_loop
split_path blocked [] = []
split_path blocked (a ∷ rest) = split_loop blocked a (a ∷ []) rest

abbrev pub span_bucket : TrackKey → Span → Bucket
span_bucket k x = record { store_id = k.0; camera_id = none; hour = x.hour }

abbrev pub span_gone : ℕ → TrackKey × Span → Bool
span_gone now e = is_past sp_ttl now e.1.last

module _ {Point : Type 0} where
  -- Forgets who left a gate, with their credit, and tracks that demographics has seen; once per TTL.
  unfoldable pub prune_gate_seen : ℕ → Aggregator Point → Aggregator Point
  prune_gate_seen now s = if ltb now (s.gate_last_prune + gate_ttl) then s else record s {
    gate_last_prune = now;
    gate_seen = filter_by (λ e. not (is_past gate_ttl now e.1)) s.gate_seen;
    visit_credit =
        remove_all (filter_by (λ e. is_past gate_ttl now e.1) s.gate_seen) s.visit_credit;
    demo_seen = filter_by (λ e. not (is_past gate_ttl now e.1)) s.demo_seen;
  }

  rows : TrackKey → Presence Point → List (List Point) → List (PathRow Point)
  rows k p [] = []
  rows k p (part ∷ parts) =
      let more = rows k p parts in
      let row : PathRow Point = record {
        bucket = record { store_id = p.store_id; camera_id = some k.0; hour = p.hour };
        duration = p.last_mono - p.first_mono;
        points = part;
        gender = p.gender;
        age_band = p.age_band;
      } in
      if leb path_min_saved_points (length part) then row ∷ more else more

  unfoldable pub finished_paths : Geometry Point → TrackKey → Presence Point → List (PathRow Point)
  unfolding rows split_path
  finished_paths g k p =
      if leb path_min_saved_points (length p.path)
      then rows k p (map g.simplify (split_path (g.blocked p.store_id) p.path))
      else []

  abbrev pub dwell_bucket : TrackKey → Presence Point → Bucket
  dwell_bucket k p = record { store_id = p.store_id; camera_id = some k.0; hour = p.hour }

  -- The dwell of `first` to `last`, in whole milliseconds.
  abbrev pub bank : Bucket → ℕ → Aggregator Point → Aggregator Point
  bank b dwell s = record s {
    dwell_count = bump b 1 s.dwell_count;
    dwell_ms = bump b (dwell / 1000) s.dwell_ms;
  }

  -- A track that is gone: staff leaves nothing; a track of a known shopper leaves its path.
  unfoldable pub bank_track :
      Geometry Point → TrackKey × Presence Point → Aggregator Point → Aggregator Point
  unfolding finished_paths
  bank_track g (k, p) s =
      let t = record s { path_buf = s.path_buf ++ finished_paths g k p } in
      if p.is_staff
      then s
      else if p.has_sp
      then t
      else bank (dwell_bucket k p) (p.last_mono - p.first_mono) t

  unfoldable pub bank_tracks :
      Geometry Point → List (TrackKey × Presence Point) → Aggregator Point → Aggregator Point
  bank_tracks g [] s = s
  bank_tracks g (e ∷ es) s = bank_tracks g es (bank_track g e s)

  unfoldable pub bank_spans : List (TrackKey × Span) → Aggregator Point → Aggregator Point
  bank_spans [] s = s
  bank_spans ((k, x) ∷ es) s = bank_spans es (bank (span_bucket k x) (x.last - x.first) s)

  abbrev pub gone : ℕ → TrackKey × Presence Point → Bool
  gone now e = is_past presence_ttl now e.1.last_mono

  unfoldable pub prune_presence : Geometry Point → ℕ → Aggregator Point → Aggregator Point
  unfolding bank_tracks bank_spans
  prune_presence g now s =
      let t =
        bank_tracks g (filter_by (gone now) s.presence)
          (record s { presence = filter_by (λ e. not (gone now e)) s.presence }) in
      bank_spans (filter_by (span_gone now) t.sp_presence)
        (record t { sp_presence = filter_by (λ e. not (span_gone now e)) t.sp_presence })
