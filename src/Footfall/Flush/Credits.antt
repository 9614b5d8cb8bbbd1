-- ===== src/Footfall/Flush/Credits.antt =====
-- Theorems on `on_frame_inner`: the credits of buffered visits over whole frames.
use sentry_backend.Base.{
  ℕ, ◌+◌, ◌≤◌, ◌≡◌, refl, ◌∙◌, Bool, not, List, [], ◌∷◌, ltb, arith, Bool-cases, inl, inr,
}
use sentry_backend.Base.Lists.{filter_by}
use sentry_backend.Base.Table.{remove}
use sentry_backend.Footfall.{
  Bucket, Visitor, bucket_eq, visitor_eq, Geometry, Track, Presence, Span, TrackKey, Aggregator,
}
use sentry_backend.Footfall.Frame.{Frame, gate_hits, visitors, count_frame}
use sentry_backend.Footfall.Frame.Visits.{credits, credits-remove, Credited, count_frame-Credited}
use sentry_backend.Footfall.Prune.{
  remove_all, prune_gate_seen, prune_presence, bank_track, bank_tracks, bank_spans, gate_ttl, gone,
  span_gone,
}
use sentry_backend.Footfall.Flush.{
  Analytics, nothing_buffered, restore, flush, is_due, on_frame_inner, is_idle,
}

credits-remove_all :
    (b : Bucket) (vs : List (Visitor × ℕ)) (d : List (Visitor × Bucket))
    → credits b (remove_all vs d) ≤ credits b d
credits-remove_all b [] d = omega arith
credits-remove_all b ((v, t) ∷ vs) d =
    omega (arith, credits-remove_all b vs (remove v d), credits-remove b v d)

module _ {Point : Type 0} where
  prune_gate-Credited :
      (now : ℕ) (s : Aggregator Point) → Credited s → Credited (prune_gate_seen now s)
  unfolding prune_gate_seen
  prune_gate-Credited now s c b = elim (Bool-cases (ltb now (s.gate_last_prune + gate_ttl))) [
    | inl soon ↦ rw soon (c b)
    | inr due ↦ rw due (omega (arith, c b, credits-remove_all b _ s.visit_credit))
  ]

  -- Banking touches no visit.
  abbrev Unmoved : Aggregator Point → Aggregator Point → Type 0
  Unmoved s s' = (s'.visits ≡ s.visits) × (s'.visit_credit ≡ s.visit_credit)

  bank_track-Unmoved :
      (g : Geometry Point) (e : TrackKey × Presence Point) (s : Aggregator Point)
      → Unmoved s (bank_track g e s)
  unfolding bank_track
  bank_track-Unmoved g (k, p) s = elim (Bool-cases p.is_staff) [
    | inl staff ↦ rw staff (refl, refl)
    | inr guest ↦ elim (Bool-cases p.has_sp) [
      | inl known ↦ rw (guest, known) (refl, refl)
      | inr alone ↦ rw (guest, alone) (refl, refl)
    ]
  ]

  bank_tracks-Unmoved :
      (g : Geometry Point) (es : List (TrackKey × Presence Point)) (s : Aggregator Point)
      → Unmoved s (bank_tracks g es s)
  unfolding bank_tracks
  bank_tracks-Unmoved g [] s = (refl, refl)
  bank_tracks-Unmoved g (e ∷ es) s =
      let one = bank_track-Unmoved g e s in
      let more = bank_tracks-Unmoved g es (bank_track g e s) in (more.0 ∙ one.0, more.1 ∙ one.1)

  bank_spans-Unmoved :
      (es : List (TrackKey × Span)) (s : Aggregator Point) → Unmoved s (bank_spans es s)
  unfolding bank_spans
  bank_spans-Unmoved [] s = (refl, refl)
  bank_spans-Unmoved ((k, x) ∷ es) s = bank_spans-Unmoved es _

  prune_presence-Credited :
      (g : Geometry Point) (now : ℕ) (s : Aggregator Point)
      → Credited s
      → Credited (prune_presence g now s)
  unfolding prune_presence
  prune_presence-Credited g now s c b =
      let kept = record s { presence = filter_by (λ e. not (gone now e)) s.presence } in
      let t = bank_tracks g (filter_by (gone now) s.presence) kept in
      let one = bank_tracks-Unmoved g (filter_by (gone now) s.presence) kept in
      let two =
        bank_spans-Unmoved (filter_by (span_gone now) t.sp_presence)
          (record t { sp_presence = filter_by (λ e. not (span_gone now e)) t.sp_presence }) in
      rw (two.0, two.1, one.0, one.1) (c b)

  flush-Credited :
      (has_org : ℕ → Bool) (fails : Bool) (now : ℕ) (s : Aggregator Point) (db : Analytics Point)
      → Credited s
      → Credited (flush has_org fails now (s, db)).0
  unfolding flush restore credits
  flush-Credited has_org fails now s db c b = elim (Bool-cases (nothing_buffered s)) [
    | inl idle ↦ rw idle (c b)
    | inr busy ↦ elim (Bool-cases fails) [
      | inl failed ↦ rw (busy, failed) (omega arith)
      | inr done ↦ rw (busy, done) (omega arith)
    ]
  ]

  -- Every frame, with its pruning and its flush, whether this succeeds or fails, keeps each credit
  -- backed by a visit that is still buffered: cancelling a badge's visit never finds the count at zero.
  pub on_frame_inner-Credited :
      (g : Geometry Point) (has_org : ℕ → Bool) (fails : Bool) (f : Frame) (ts : List (Track Point))
      (s : Aggregator Point) (db : Analytics Point)
      → Credited s
      → Credited (on_frame_inner g has_org fails f ts (s, db)).0
  unfolding on_frame_inner
  on_frame_inner-Credited g has_org fails f ts s db c =
      let counted = count_frame g f ts (gate_hits f s.gate_seen (visitors ts)) s in
      let t = prune_presence g f.now (prune_gate_seen f.now counted) in
      let ct = prune_presence-Credited g f.now (prune_gate_seen f.now counted) (
        prune_gate-Credited f.now counted
          (count_frame-Credited g f ts (gate_hits f s.gate_seen (visitors ts)) s c)) in
      elim (Bool-cases (is_idle ts)) [
        | inl idle ↦ rw idle c
        | inr busy ↦ elim (Bool-cases (is_due f.now t)) [
          | inl due ↦ rw (busy, due) (flush-Credited has_org fails f.now t db ct)
          | inr soon ↦ rw (busy, soon) ct
        ]
      ]
