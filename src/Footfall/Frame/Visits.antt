-- ===== src/Footfall/Frame/Visits.antt =====
-- Lemmas on the steps of a frame: the visits in the buffer and the credits of visitors.
use sentry_backend.Base.{
  ℕ, ◌+◌, ◌≤◌, ◌≡◌, refl, Bool, true, false, Option, none, some, List, [], ◌∷◌, if◌then◌else◌,
  arith, Bool-cases, inl, inr, is_some,
}
use sentry_backend.Base.Eq.{pair_eq}
use sentry_backend.Base.Table.{get, put, remove}
use sentry_backend.Base.Counter.{total, total-bump, total-take_one}
use sentry_backend.Footfall.{
  Bucket, Visitor, bucket_eq, slot_eq, visitor_eq, Geometry, Place, Track, Presence, Aggregator,
}
use sentry_backend.Footfall.Frame.{
  Frame, bucket_of, visitors, staff_marks, staff_key, uncredit, cancel_visit, mark_presence,
  mark_track, drop_span, cancel_staff, for_each, count_cell, count_gate, extend_presence,
  extend_span, stamp_demo, count_demo, sample_path, move, count_flow, count_frame,
}

-- The credits that point to the bucket.
unfoldable pub credits : Bucket → List (Visitor × Bucket) → ℕ
credits b [] = 0
credits b ((v, c) ∷ d) = let rest = credits b d in if bucket_eq.beq c b then 1 + rest else rest

pub credits-put :
    (b c : Bucket) (v : Visitor) (d : List (Visitor × Bucket))
    → credits b (put v c d) ≤ credits b d + (if bucket_eq.beq c b then 1 else 0)
unfolding credits put
credits-put b c v [] = ground arith
credits-put b c v ((w, e) ∷ d) = ground (arith, credits-put b c v d)

pub credits-remove :
    (b : Bucket) (v : Visitor) (d : List (Visitor × Bucket)) → credits b (remove v d) ≤ credits b d
unfolding credits remove
credits-remove b v [] = ground arith
credits-remove b v ((w, e) ∷ d) = ground (arith, credits-remove b v d)

-- Taking out a visitor's credit takes one from its bucket at least.
credits-uncredit :
    (b c : Bucket) (v : Visitor) (d : List (Visitor × Bucket))
    → get v d ≡ some c
    → credits b (remove v d) + (if bucket_eq.beq c b then 1 else 0) ≤ credits b d
unfolding credits remove get
credits-uncredit b c v [] h = cc
credits-uncredit b c v ((w, e) ∷ d) h = elim (Bool-cases (visitor_eq.beq w v)) [
  | inl hit ↦ ground (arith, h, hit, credits-remove b v d)
  | inr miss ↦ ground (arith, h, miss, credits-uncredit b c v d)
]

pub for_each_keeps :
    {A S : Type 0} (P : S → Type 0) (body : A → S → S)
    → ((x : A) (s : S) → P s → P (body x s))
    → (xs : List A) (s : S) → P s
    → P (for_each body xs s)
for_each_keeps P body keep [] s h = h
for_each_keeps P body keep (x ∷ xs) s h = for_each_keeps P body keep xs (body x s) (keep x s h)

module _ {Point : Type 0} where
  abbrev pub Credited : Aggregator Point → Type 0
  Credited s = (b : Bucket) → credits b s.visit_credit ≤ total b s.visits

  -- A step that does not touch the visits.
  abbrev SameVisits : Aggregator Point → Aggregator Point → Type 0
  SameVisits s s' = (s'.visits ≡ s.visits) × (s'.visit_credit ≡ s.visit_credit)

  same-Credited : (s s' : Aggregator Point) → SameVisits s s' → Credited s → Credited s'
  same-Credited s s' e c b = rw (e.0, e.1) (c b)

  count_gate-Credited :
      (f : Frame) (v : Visitor) (fresh : Bool) (s : Aggregator Point)
      → Credited s
      → Credited (count_gate f (v, fresh) s)
  unfolding count_gate
  count_gate-Credited f v true s c b = omega (
    arith,
    c b,
    credits-put b (bucket_of f) v s.visit_credit,
    total-bump (bucket_of f) b 1 s.visits,
  )
  count_gate-Credited f v false s c b = c b

  uncredited :
      (v : Visitor) (o : Option Bucket) (s : Aggregator Point) (b : Bucket)
      → get v s.visit_credit ≡ o
      → Credited s
      → credits b (remove v s.visit_credit) ≤ total b (uncredit o s.visits)
  unfolding uncredit
  uncredited v none s b e c = omega (arith, c b, credits-remove b v s.visit_credit)
  uncredited v (some d) s b e c =
      omega (arith, c b, credits-uncredit b d v s.visit_credit e, (total-take_one d b s.visits).1)

  cancel_visit-Credited :
      (f : Frame) (o : Option Visitor) (s : Aggregator Point)
      → Credited s
      → Credited (cancel_visit f o s)
  unfolding cancel_visit
  cancel_visit-Credited f none s c b = c b
  cancel_visit-Credited f (some v) s c b = uncredited v (get v s.visit_credit) s b refl c

  mark_track-same :
      (f : Frame) (pid : Option ℕ) (s : Aggregator Point) → SameVisits s (mark_track f pid s)
  unfolding mark_track mark_presence
  mark_track-same f none s = (refl, refl)
  mark_track-same f (some pid) s = go (get (f.cam_path, pid) s.presence)
    where
      go : (o : Option (Presence Point)) → SameVisits s (mark_presence (f.cam_path, pid) o s)
      go none = (refl, refl)
      go (some p) = elim (Bool-cases p.is_staff) [
        | inl e ↦ rw e (refl, refl)
        | inr e ↦ rw e (refl, refl)
      ]

  drop_span-same :
      (f : Frame) (person : Option ℕ) (s : Aggregator Point) → SameVisits s (drop_span f person s)
  unfolding drop_span
  drop_span-same f none s = (refl, refl)
  drop_span-same f (some person) s = (refl, refl)

  cancel_staff-Credited :
      (f : Frame) (m : Option ℕ × Option ℕ) (s : Aggregator Point)
      → Credited s
      → Credited (cancel_staff f m s)
  unfolding cancel_staff
  cancel_staff-Credited f (pid, person) s c =
      let s1 = cancel_visit f (staff_key f pid person) s in
      let s2 = mark_track f pid s1 in
      same-Credited s2 (drop_span f person s2) (drop_span-same f person s2) (
        same-Credited s1 s2 (mark_track-same f pid s1)
          (cancel_visit-Credited f (staff_key f pid person) s c))

  count_cell-same :
      (f : Frame) (q : Option (Place Point)) (s : Aggregator Point)
      → SameVisits s (count_cell f q s)
  unfolding count_cell
  count_cell-same f none s = (refl, refl)
  count_cell-same f (some q) s = (refl, refl)

  extend_presence-same :
      (f : Frame) (pid : Option ℕ) (s : Aggregator Point) → SameVisits s (extend_presence f pid s)
  unfolding extend_presence
  extend_presence-same f none s = (refl, refl)
  extend_presence-same f (some pid) s = (refl, refl)

  extend_span-same :
      (f : Frame) (pid person : Option ℕ) (s : Aggregator Point)
      → SameVisits s (extend_span f pid person s)
  unfolding extend_span
  extend_span-same f none person s = (refl, refl)
  extend_span-same f (some pid) none s = (refl, refl)
  extend_span-same f (some pid) (some person) s = (refl, refl)

  stamp_demo-same :
      (f : Frame) (pid : Option ℕ) (d : Option (ℕ × ℕ)) (s : Aggregator Point)
      → SameVisits s (stamp_demo f pid d s)
  unfolding stamp_demo
  stamp_demo-same f none d s = (refl, refl)
  stamp_demo-same f (some pid) none s = (refl, refl)
  stamp_demo-same f (some pid) (some d) s = (refl, refl)

  count_demo-same :
      (f : Frame) (pid : Option ℕ) (d : Option (ℕ × ℕ)) (s : Aggregator Point)
      → SameVisits s (count_demo f pid d s)
  unfolding count_demo
  count_demo-same f none d s = (refl, refl)
  count_demo-same f (some pid) none s = (refl, refl)
  count_demo-same f (some pid) (some d) s =
      elim (Bool-cases (is_some (get (f.cam_path, pid) s.demo_seen))) [
        | inl e ↦ rw e (refl, refl)
        | inr e ↦ rw e (refl, refl)
      ]

  sample_path-same :
      (g : Geometry Point) (f : Frame) (pid : Option ℕ) (q : Option (Place Point))
      (s : Aggregator Point)
      → SameVisits s (sample_path g f pid q s)
  unfolding sample_path
  sample_path-same g f none q s = (refl, refl)
  sample_path-same g f (some pid) none s = (refl, refl)
  sample_path-same g f (some pid) (some q) s = (refl, refl)

  count_flow-same :
      (f : Frame) (pid : Option ℕ) (q : Option (Place Point)) (s : Aggregator Point)
      → SameVisits s (count_flow f pid q s)
  unfolding count_flow move
  count_flow-same f none q s = (refl, refl)
  count_flow-same f (some pid) none s = (refl, refl)
  count_flow-same f (some pid) (some q) s = go (get (f.cam_path, pid) s.presence)
    where
      go : (o : Option (Presence Point)) → SameVisits s (move f pid q.flow_cell o s)
      go none = (refl, refl)
      go (some p) = (refl, refl)

  -- The loops of a frame keep every credit backed by a buffered visit.
  pub count_frame-Credited :
      (g : Geometry Point) (f : Frame) (ts : List (Track Point)) (hits : List (Visitor × Bool))
      (s : Aggregator Point)
      → Credited s
      → Credited (count_frame g f ts hits s)
  unfolding count_frame
  count_frame-Credited g f ts hits s c =
      let vs = visitors ts in
      let same : (body : Track Point → Aggregator Point → Aggregator Point)
          → ((t : Track Point) (s : Aggregator Point) → SameVisits s (body t s))
          → (s : Aggregator Point) → Credited s
          → Credited (for_each body vs s) =
        λ body keep s.
          for_each_keeps Credited body (λ t s. same-Credited s (body t s) (keep t s)) vs s in
      let c1 =
        for_each_keeps Credited (cancel_staff f) (cancel_staff-Credited f) (staff_marks ts) s c in
      let c2 = same _ (λ t. count_cell-same f t.place) _ c1 in
      let c3 =
        for_each_keeps Credited (count_gate f) (λ h. count_gate-Credited f h.0 h.1) hits _ c2 in
      let c4 = same _ (λ t. extend_presence-same f t.person_id) _ c3 in
      let c5 = same _ (λ t. extend_span-same f t.person_id t.store_person_id) _ c4 in
      let c6 = same _ (λ t. stamp_demo-same f t.person_id t.demo) _ c5 in
      let c7 = same _ (λ t. count_demo-same f t.person_id t.demo) _ c6 in
      let c8 = same _ (λ t. sample_path-same g f t.person_id t.place) _ c7 in
      same _ (λ t. count_flow-same f t.person_id t.place) _ c8
