-- ===== src/Footfall/Prune/Paths.antt =====
-- Theorems on `_split_path` and on the paths that `_prune_presence` buffers,
-- services/footfall_aggregator.py. What is saved is a part after `_rdp`, which is a parameter of the
-- model; `Open` speaks of the parts before it.
use sentry_backend.Base.{
  ◌≤◌, subst, sym, true, ◌≡◌, ◌-◌, refl, map, ap, ◌∙◌, Bool, false, List, [], ◌∷◌, ◌++◌, leb, arith,
  Bool-cases, inl, inr,
}
use mathlib.Core.List.{append_assoc, append-nil}
use sentry_backend.Base.Lists.{length, All, filter_by}
use sentry_backend.Footfall.{Geometry, TrackKey, Presence, PathRow}
use sentry_backend.Footfall.Prune.{
  path_min_saved_points, split_loop, split_path, or_part, dwell_bucket,
}

abbrev pub is_long : {A : Type 0} → List A → Bool
is_long part = leb path_min_saved_points (length part)

abbrev pub flatten : {A : Type 0} → List (List A) → List A
flatten [] = []
flatten (l ∷ ls) = l ++ flatten ls

module _ {A : Type 0} (blocked : A → A → Bool) where
  -- No two neighbours are blocked.
  abbrev pub Open : List A → Type 0
  Open [] = Unit
  Open (a ∷ []) = Unit
  Open (a ∷ b ∷ ps) = (blocked a b ≡ false) × Open (b ∷ ps)

  snoc-Open :
      (init : List A) (a b : A)
      → blocked a b ≡ false
      → Open (init ++ (a ∷ []))
      → Open ((init ++ (a ∷ [])) ++ (b ∷ []))
  snoc-Open [] a b free o = (free, tt)
  snoc-Open (p ∷ []) a b free o = (o.0, (free, tt))
  snoc-Open (p ∷ q ∷ init) a b free o = (o.0, snoc-Open (q ∷ init) a b free o.1)

  -- A piece ends and the next begins with two points that are blocked.
  abbrev pub Cuts : List (List A) → Type 0
  Cuts [] = Unit
  Cuts (p ∷ []) = Unit
  Cuts (p ∷ q ∷ pieces) =
      ((init : List A) × (a : A) × (b : A) × (tail : List A) × (p ≡ init ++ (a ∷ []))
        × (q ≡ b ∷ tail)
        × (blocked a b ≡ true))
      × Cuts (q ∷ pieces)

  -- Parts of a walk: what is long enough of pieces that make up the walk, with nothing blocked
  -- inside a piece and the step from each piece to the next blocked.
  pub record Splits (whole : List A) (parts : List (List A)) : Type 0 where
    pub pieces : List (List A)
    pub joined : flatten pieces ≡ whole
    pub walkable : All Open pieces
    pub cuts : Cuts pieces
    pub long : parts ≡ filter_by is_long pieces

  or_part-filter :
      (cur : List A) (pieces : List (List A))
      → or_part cur (filter_by is_long pieces) ≡ filter_by is_long (cur ∷ pieces)
  or_part-filter cur pieces = elim (Bool-cases (is_long cur)) [
    | inl long ↦ rw (filter_by, long) refl
    | inr short ↦ rw (filter_by, short) refl
  ]

  -- How the loop goes on from the points `cur` of the piece at hand: it adds `more` to them.
  record Goes (cur whole : List A) (parts : List (List A)) : Type 0 where
    more : List A
    others : List (List A)
    joined : flatten ((cur ++ more) ∷ others) ≡ whole
    walkable : All Open ((cur ++ more) ∷ others)
    cuts : Cuts ((cur ++ more) ∷ others)
    long : parts ≡ filter_by is_long ((cur ++ more) ∷ others)

  loop-Goes :
      (a : A) (init bs : List A)
      → Open (init ++ (a ∷ []))
      → Goes
          (init ++ (a ∷ []))
          ((init ++ (a ∷ [])) ++ bs)
          (split_loop blocked a (init ++ (a ∷ [])) bs)
  unfolding split_loop
  loop-Goes a init [] o =
      let cur = init ++ (a ∷ []) in
      record {
        more = [];
        others = [];
        joined = append-nil (cur ++ []);
        walkable = (subst (λ l. Open l) (sym (append-nil cur)) o, tt);
        cuts = tt;
        long = or_part-filter cur [] ∙ ap (λ l. filter_by is_long (l ∷ [])) (sym (append-nil cur));
      }
  loop-Goes a init (b ∷ bs) o = elim (Bool-cases (blocked a b)) [
    | inl cut ↦ rw cut (
        let cur = init ++ (a ∷ []) in
        let rest = loop-Goes b [] bs tt in
        let pieces = (b ∷ rest.more) ∷ rest.others in
        record {
          more = [];
          others = pieces;
          joined = ap (λ l. l ++ flatten pieces) (append-nil cur) ∙ ap (λ l. cur ++ l) rest.joined;
          walkable = (subst (λ l. Open l) (sym (append-nil cur)) o, rest.walkable);
          cuts = ((init, a, b, rest.more, append-nil cur, refl, cut), rest.cuts);
          long =
              ap (λ parts. or_part cur parts) rest.long
              ∙ or_part-filter cur pieces
              ∙ ap (λ l. filter_by is_long (l ∷ pieces)) (sym (append-nil cur));
        })
    | inr free ↦ rw free (
        let cur = init ++ (a ∷ []) in
        let on = loop-Goes b cur bs (snoc-Open init a b free o) in
        let same : (cur ++ (b ∷ [])) ++ on.more ≡ cur ++ (b ∷ on.more) =
          append_assoc cur (b ∷ []) on.more in
        record {
          more = b ∷ on.more;
          others = on.others;
          joined =
              ap (λ l. l ++ flatten on.others) (sym same)
              ∙ on.joined
              ∙ append_assoc cur (b ∷ []) bs;
          walkable = subst (λ l. All Open (l ∷ on.others)) same on.walkable;
          cuts = subst (λ l. Cuts (l ∷ on.others)) same on.cuts;
          long = on.long ∙ ap (λ l. filter_by is_long (l ∷ on.others)) same;
        })
  ]

  -- A walked path is split into pieces that make it up, with no teleport and no wall between two
  -- neighbours of a piece and one at each cut, and the parts are the pieces of at least three
  -- points.
  pub split_path-Splits : (ps : List A) → Splits ps (split_path blocked ps)
  unfolding split_path
  split_path-Splits [] = record {
    pieces = [];
    joined = refl;
    walkable = tt;
    cuts = tt;
    long = refl;
  }
  split_path-Splits (a ∷ ps) =
      let g = loop-Goes a [] ps tt in
      record {
        pieces = (a ∷ g.more) ∷ g.others;
        joined = g.joined;
        walkable = g.walkable;
        cuts = g.cuts;
        long = g.long;
      }

  loop_whole :
      (a : A) (cur bs : List A)
      → path_min_saved_points ≤ length (cur ++ bs)
      → Open (a ∷ bs)
      → split_loop blocked a cur bs ≡ (cur ++ bs) ∷ []
  unfolding split_loop
  loop_whole a cur [] long o = ground (arith, long, append-nil cur)
  loop_whole a cur (b ∷ bs) long o = rw o.0 (
      loop_whole b (cur ++ (b ∷ [])) bs (rw (append_assoc cur (b ∷ []) bs) long) o.1
      ∙ ap (λ l. l ∷ []) (append_assoc cur (b ∷ []) bs))

  -- A path of at least three points that nothing blocks is saved whole.
  pub split_path-whole :
      (ps : List A) → path_min_saved_points ≤ length ps → Open ps → split_path blocked ps ≡ ps ∷ []
  unfolding split_path
  split_path-whole [] long o = absurd (omega (arith, long))
  split_path-whole (a ∷ ps) long o = loop_whole a (a ∷ []) ps long o

module _ {Point : Type 0} where
  -- A row under the track's store, camera and hour, with its duration and demographics.
  abbrev IsRowOf : TrackKey → Presence Point → PathRow Point → Type 0
  IsRowOf k p row =
      (row.bucket ≡ dwell_bucket k p)
      × (row.duration ≡ p.last_mono - p.first_mono)
      × (row.gender ≡ p.gender)
      × (row.age_band ≡ p.age_band)

  -- The rows that a track that is gone leaves.
  pub record Leaves (g : Geometry Point) (k : TrackKey) (p : Presence Point)
      (out : List (PathRow Point)) : Type 0 where
    pub parts : List (List Point)
    pub splits : Splits (g.blocked p.store_id) p.path parts
    pub points : map (λ row. row.points) out ≡ filter_by is_long (map g.simplify parts)
    pub rows_of : All (IsRowOf k p) out
