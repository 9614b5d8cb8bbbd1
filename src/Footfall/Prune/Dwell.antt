-- ===== src/Footfall/Prune/Dwell.antt =====
-- Theorems on `_prune_presence`: the dwell that it banks.
use sentry_backend.Base.{
  ℕ, ◌+◌, ◌-◌, ◌/◌, ◌≡◌, refl, ap, ◌∙◌, Bool, not, ◌&&◌, List, [], ◌∷◌, if◌then◌else◌, arith,
  Bool-cases, inl, inr,
}
use sentry_backend.Base.Lists.{filter_by, count_by}
use sentry_backend.Base.Counter.{total, total-bump}
use sentry_backend.Footfall.{Bucket, bucket_eq, Geometry, Presence, Span, TrackKey, Aggregator}
use sentry_backend.Footfall.Prune.{
  bank, bank_track, bank_tracks, bank_spans, dwell_bucket, span_bucket, gone, span_gone,
  prune_presence,
}

-- The sum over the entries that pass a test.
abbrev pub sum_by : {A : Type 0} → (A → Bool) → (A → ℕ) → List A → ℕ
sum_by p w [] = 0
sum_by p w (x ∷ xs) = let rest = sum_by p w xs in if p x then w x + rest else rest

-- Whether a gone shopper counts for the bucket, and for how many milliseconds.
abbrev pub span_banks : Bucket → TrackKey × Span → Bool
span_banks b e = bucket_eq.beq (span_bucket e.0 e.1) b

abbrev pub span_dwell : TrackKey × Span → ℕ
span_dwell e = (e.1.last - e.1.first) / 1000

module _ {Point : Type 0} where
  -- Whether a gone track counts for the bucket, and for how many milliseconds.
  abbrev pub banks : Bucket → TrackKey × Presence Point → Bool
  banks b e = not e.1.is_staff && not e.1.has_sp && bucket_eq.beq (dwell_bucket e.0 e.1) b

  abbrev pub dwell_of : TrackKey × Presence Point → ℕ
  dwell_of e = (e.1.last_mono - e.1.first_mono) / 1000

  -- What the bucket has after a banking, when `n` dwells of `ms` in all were for it.
  abbrev pub Grows : Bucket → ℕ → ℕ → Aggregator Point → Aggregator Point → Type 0
  Grows b n ms s s' =
      (total b s'.dwell_count ≡ total b s.dwell_count + n)
      × (total b s'.dwell_ms ≡ total b s.dwell_ms + ms)

  -- Banking forgets nobody by itself.
  abbrev Stays : Aggregator Point → Aggregator Point → Type 0
  Stays s s' = (s'.presence ≡ s.presence) × (s'.sp_presence ≡ s.sp_presence)

  bank_track-Grows :
      (g : Geometry Point) (e : TrackKey × Presence Point) (b : Bucket) (s : Aggregator Point)
      → Grows b
          (if banks b e then 1 else 0)
          (if banks b e then dwell_of e else 0)
          s
          (bank_track g e s)
  unfolding bank_track
  bank_track-Grows g (k, p) b s = elim (Bool-cases p.is_staff) [
    | inl staff ↦ rw staff (omega arith, omega arith)
    | inr guest ↦ elim (Bool-cases p.has_sp) [
      | inl known ↦ rw (guest, known) (omega arith, omega arith)
      | inr alone ↦
          rw (guest, alone)
            (
              total-bump (dwell_bucket k p) b 1 s.dwell_count,
              total-bump (dwell_bucket k p) b ((p.last_mono - p.first_mono) / 1000) s.dwell_ms,
            )
    ]
  ]

  bank_track-Stays :
      (g : Geometry Point) (e : TrackKey × Presence Point) (s : Aggregator Point)
      → Stays s (bank_track g e s)
  unfolding bank_track
  bank_track-Stays g (k, p) s = elim (Bool-cases p.is_staff) [
    | inl staff ↦ rw staff (refl, refl)
    | inr guest ↦ elim (Bool-cases p.has_sp) [
      | inl known ↦ rw (guest, known) (refl, refl)
      | inr alone ↦ rw (guest, alone) (refl, refl)
    ]
  ]

  bank_tracks-Grows :
      (g : Geometry Point) (es : List (TrackKey × Presence Point)) (b : Bucket)
      (s : Aggregator Point)
      → Grows b (count_by (banks b) es) (sum_by (banks b) dwell_of es) s (bank_tracks g es s)
        × Stays s (bank_tracks g es s)
  unfolding bank_tracks
  bank_tracks-Grows g [] b s = ((omega arith, omega arith), (refl, refl))
  bank_tracks-Grows g (e ∷ es) b s =
      let one = bank_track-Grows g e b s in
      let kept = bank_track-Stays g e s in
      let more = bank_tracks-Grows g es b (bank_track g e s) in
      (
        (ground (arith, one.0, more.0.0), ground (arith, one.1, more.0.1)),
        (more.1.0 ∙ kept.0, more.1.1 ∙ kept.1),
      )

  bank_spans-Grows :
      (es : List (TrackKey × Span)) (b : Bucket) (s : Aggregator Point)
      → Grows b
          (count_by (span_banks b) es)
          (sum_by (span_banks b) span_dwell es)
          s
          (bank_spans es s)
        × Stays s (bank_spans es s)
  unfolding bank_spans
  bank_spans-Grows [] b s = ((omega arith, omega arith), (refl, refl))
  bank_spans-Grows ((k, x) ∷ es) b s =
      let t = bank (span_bucket k x) (x.last - x.first) s in
      let more = bank_spans-Grows es b t in
      (
        (
          ground (arith, total-bump (span_bucket k x) b 1 s.dwell_count, more.0.0),
          ground (
            arith,
            total-bump (span_bucket k x) b ((x.last - x.first) / 1000) s.dwell_ms,
            more.0.1,
          ),
        ),
        more.1,
      )

  -- Whatever the bucket, a pruning adds to its dwell count one for each guest track that is gone and
  -- has no store-wide identity, and one for each shopper that is gone from the store, and to its
  -- dwell time theirs, whole milliseconds each; staff adds nothing. The tracks and shoppers that
  -- stay are exactly those seen within their time to live, so that none is banked twice.
  pub prune_presence-banks_once :
      (g : Geometry Point) (now : ℕ) (b : Bucket) (s : Aggregator Point)
      → Grows b
          (count_by (banks b) (filter_by (gone now) s.presence)
            + count_by (span_banks b) (filter_by (span_gone now) s.sp_presence))
          (sum_by (banks b) dwell_of (filter_by (gone now) s.presence)
            + sum_by (span_banks b) span_dwell (filter_by (span_gone now) s.sp_presence))
          s
          (prune_presence g now s)
        × ((prune_presence g now s).presence ≡ filter_by (λ e. not (gone now e)) s.presence)
        × ((prune_presence g now s).sp_presence
            ≡ filter_by (λ e. not (span_gone now e)) s.sp_presence)
  unfolding prune_presence
  prune_presence-banks_once g now b s =
      let kept = record s { presence = filter_by (λ e. not (gone now e)) s.presence } in
      let t = bank_tracks g (filter_by (gone now) s.presence) kept in
      let u = record t { sp_presence = filter_by (λ e. not (span_gone now e)) t.sp_presence } in
      let one = bank_tracks-Grows g (filter_by (gone now) s.presence) b kept in
      let two = bank_spans-Grows (filter_by (span_gone now) t.sp_presence) b u in
      let same : t.sp_presence ≡ s.sp_presence = one.1.1 in
      let count = ap (λ xs. count_by (span_banks b) (filter_by (span_gone now) xs)) same in
      let sum = ap (λ xs. sum_by (span_banks b) span_dwell (filter_by (span_gone now) xs)) same in
      (
        (omega (arith, one.0.0, two.0.0, count), omega (arith, one.0.1, two.0.1, sum)),
        two.1.0 ∙ one.1.0,
        two.1.1 ∙ ap (λ xs. filter_by (λ e. not (span_gone now e)) xs) same,
      )
