-- ===== src/Live/Breach.antt =====
-- Theorems on the breach tasks of `_on_frame_inner`, services/threshold_handler.py.
use sentry_backend.Base.{
  ℕ, ◌+◌, ◌≤◌, ◌≡◌, ◌∙◌, not, ◌&&◌, ◌||◌, leb, map, ◌↔◌, ◌≢◌, refl, ap, Bool, true, false, Option,
  none, some, List, [], ◌∷◌, ◌++◌, if◌then◌else◌, arith, Bool-cases, inl, inr,
}
use sentry_backend.Base.Eq.{pair_eq}
use sentry_backend.Base.Table.{get}
use sentry_backend.Base.Sets.{member, member-add, discard, member-discard}
use sentry_backend.Base.Lists.{filter_by}
use sentry_backend.Live.{
  Key, PersonState, Track, Settings, Task, emit_alert_blocked, handle_breach, emit_episode_summary,
  Handler, observe, fire, sustain, check_breach, person_or_new, Frame, track_person, on_track,
  on_tracks, is_stale, discard_all, cleanup_every, EpisodeSummary, maybe_cleanup, on_frame,
}

abbrev is_for : Key → Task → Bool
is_for k (handle_breach key peak ss bs scores offs started ts) = pair_eq.beq key k
is_for k (emit_alert_blocked key peak) = false
is_for k (emit_episode_summary s) = false

-- The breach tasks of a person among the tasks.
abbrev pub breaches : Key → List Task → ℕ
breaches k [] = 0
breaches k (t ∷ ts) = let n = breaches k ts in if is_for k t then 1 + n else n

abbrev pub in_flight : Key → List Key → ℕ
in_flight k keys = if member k keys then 1 else 0

breaches-append :
    (k : Key) (ts us : List Task) → breaches k (ts ++ us) ≡ breaches k ts + breaches k us
breaches-append k [] us = omega arith
breaches-append k (t ∷ ts) us = ground (arith, breaches-append k ts us)

-- A key that equals a missing one is missing.
same : (key k : Key) (keys : List Key) → pair_eq.beq key k ≡ true → member k keys ≡ member key keys
same key k keys h = ground (arith, ap (λ x. member x keys) ((pair_eq.beq_iff key k).0 h))

fire_count :
    (cfg : Settings) (key k : Key) (now ts : ℕ) (st : PersonState) (keys : List Key)
    → member key keys ≡ false
    → let r = fire cfg key now ts st keys in breaches k r.2 + in_flight k keys ≡ in_flight k r.1
unfolding fire
fire_count cfg key k now ts st keys h = ground (arith, h, member-add key k keys, same key k keys)

check_count :
    (cfg : Settings) (threshold : ℕ) (key k : Key) (now ts : ℕ) (st : PersonState) (keys : List Key)
    → let r = check_breach cfg threshold key now ts st keys in
      breaches k r.2 + in_flight k keys ≡ in_flight k r.1
unfolding check_breach sustain
check_count cfg threshold key k now ts st keys = go st.above_threshold_since refl
  where
    go :
        (o : Option ℕ)
        → st.above_threshold_since ≡ o
        → let r = check_breach cfg threshold key now ts st keys in
          breaches k r.2 + in_flight k keys ≡ in_flight k r.1
    go none e = ground (arith, e)
    go (some since) e = ground (arith, e, fire_count cfg key k now ts st keys)

track_count :
    (cfg : Settings) (f : Frame) (t : Track) (p r : Option ℕ) (k : Key) (h : Handler)
    → let o = on_track cfg f t p r h in
      breaches k o.1 + in_flight k h.inflight ≡ in_flight k o.0.inflight
unfolding on_track track_person
track_count cfg f t none r k h = ground arith
track_count cfg f t (some pid) none k h = ground arith
track_count cfg f t (some pid) (some risk) k h =
    let key : Key = (f.cam_path, pid) in
    let st = observe f.now risk t (person_or_new f.now (get key h.state)) in
    elim (Bool-cases t.is_mannequin) [
      | inl e ↦ rw e (ground arith)
      | inr e ↦ rw e (check_count cfg f.risk_threshold key k f.now f.breach_ts st h.inflight)
    ]

-- Over the tracks of a frame, the breach tasks started for a person and the one it may have had in
-- flight are those in flight after them, at most one.
on_tracks-OneBreach :
    (cfg : Settings) (f : Frame) (ts : List Track) (k : Key) (h : Handler)
    → let o = on_tracks cfg f ts h in
      (breaches k o.1 + in_flight k h.inflight ≡ in_flight k o.0.inflight)
      × (breaches k o.1 + in_flight k h.inflight ≤ 1)
unfolding on_tracks
on_tracks-OneBreach cfg f [] k h = (ground arith, ground arith)
on_tracks-OneBreach cfg f (t ∷ ts) k h =
    let (h', tasks) = on_track cfg f t t.person_id t.risk_pct h in
    let first = track_count cfg f t t.person_id t.risk_pct k h in
    let (more, bound) = on_tracks-OneBreach cfg f ts k h' in
    let split = breaches-append k tasks (on_tracks cfg f ts h').1 in
    (omega (arith, first, more, split), omega (arith, first, more, split, bound))

-- A person whose state the clean-up of a frame drops, and with it the key of a task in flight.
abbrev pub dropped : ℕ → Key → List (Key × PersonState) → Bool
dropped now k [] = false
dropped now k (e ∷ es) = is_stale now e && pair_eq.beq e.0 k || dropped now k es

abbrev pub forgets : ℕ → Key → Handler → Bool
forgets now k h = leb (h.last_cleanup + cleanup_every) now && dropped now k h.state

discard_all-dropped :
    (now : ℕ) (k : Key) (es : List (Key × PersonState)) (keys : List Key)
    → member k (discard_all (filter_by (is_stale now) es) keys)
      ≡ (not (dropped now k es) && member k keys)
discard_all-dropped now k [] keys = refl
discard_all-dropped now k (e ∷ es) keys = elim (Bool-cases (is_stale now e)) [
  | inl old ↦
      rw (filter_by, old)
        (discard_all-dropped now k es (discard e.0 keys)
          ∙ rw (member-discard e.0 k keys) (ground arith))
  | inr seen ↦ rw (filter_by, seen) (discard_all-dropped now k es keys)
]

cleanup_count :
    (log_min now : ℕ) (k : Key) (h : Handler)
    → in_flight k (maybe_cleanup log_min now h).0.inflight
      ≡ (if forgets now k h then 0 else in_flight k h.inflight)
unfolding maybe_cleanup
cleanup_count log_min now k h = ground (arith, discard_all-dropped now k h.state h.inflight)

breaches-summaries :
    (k : Key) (ss : List EpisodeSummary) → breaches k (map emit_episode_summary ss) ≡ 0
breaches-summaries k [] = refl
breaches-summaries k (s ∷ ss) = ground (arith, breaches-summaries k ss)

-- Over a whole frame, at most one breach task of a person starts or is in flight: a task that starts is
-- in flight after the frame, and none starts while one is in flight, unless the clean-up, due every
-- minute, forgets that one as it drops the state of the person, unseen for five minutes.
pub on_frame-OneBreach :
    (cfg : Settings) (log_min : ℕ) (f : Frame) (ts : List Track) (k : Key) (h : Handler)
    → let o = on_frame cfg log_min (some f) ts h in
      let before = if forgets f.now k h then 0 else in_flight k h.inflight in
      (breaches k o.1 + before ≡ in_flight k o.0.inflight) × (breaches k o.1 + before ≤ 1)
unfolding on_frame
on_frame-OneBreach cfg log_min f ts k h =
    let (h', summaries) = maybe_cleanup log_min f.now h in
    let (h'', tasks) = on_tracks cfg f ts h' in
    let (count, bound) = on_tracks-OneBreach cfg f ts k h' in
    let clean = cleanup_count log_min f.now k h in
    let split = breaches-append k tasks (map emit_episode_summary summaries) in
    let none_there = breaches-summaries k summaries in
    (omega (arith, count, clean, split, none_there), omega (arith, bound, clean, split, none_there))

-- What makes a person's observation start a breach or report a blocked one.
abbrev pub Ripe : Settings → ℕ → Key → ℕ → PersonState → List Key → Type 0
Ripe cfg threshold key now st keys =
    (cfg.live_alerts_via_node_push ≡ false)
    × (st.last_breach_ts + cfg.live_breach_cooldown ≤ now)
    × (threshold ≤ st.risk_pct)
    × ((since : ℕ) × (st.above_threshold_since ≡ some since)
        × (since + cfg.live_breach_sustain ≤ now))
    × (member key keys ≡ false)

-- A task starts exactly when alerts are not pushed by the node, the cooldown since the last breach is
-- over, the risk is at the threshold, it has been so for the sustain time, and no breach of the
-- person is in flight.
pub check_breach_iff :
    (cfg : Settings) (threshold : ℕ) (key : Key) (now ts : ℕ) (st : PersonState) (keys : List Key)
    → ((check_breach cfg threshold key now ts st keys).2 ≢ []) ↔ Ripe cfg threshold key now st keys
unfolding check_breach sustain fire
check_breach_iff cfg threshold key now ts st keys = go st.above_threshold_since refl
  where
    go :
        (o : Option ℕ)
        → st.above_threshold_since ≡ o
        → ((check_breach cfg threshold key now ts st keys).2 ≢ [])
          ↔ Ripe cfg threshold key now st keys
    go none e = (λ h. grind (arith, e), λ r. grind (arith, e))
    go (some since) e = (
      λ h. (
        grind (arith, e),
        grind (arith, e),
        grind (arith, e),
        (since, e, grind (arith, e)),
        grind (arith, e),
      ),
      λ r. grind (arith, e),
    )
