-- ===== src/Live.antt =====
-- The live risk tracker: ThresholdHandler of services/threshold_handler.py. A risk is a natural number
-- in any fixed unit of a percent that the thresholds use too (the code only compares risks); a
-- time is a number of microseconds of the monotonic clock, which does not run backwards, so a
-- difference of times is compared as an order of sums. A frame's fields have the types that the node
-- sends; a field that is absent or empty is `none` or []. The camera row is the result of the look-up
-- of the frame's path. What the handler starts with `create_task` is returned as a list of tasks.
pub mod Breach
mod Tests
use sentry_backend.Base.{
  ℕ, ◌+◌, ◌-◌, Bool, true, false, not, ◌&&◌, ◌||◌, Option, none, some, List, [], ◌∷◌, ◌++◌, map,
  ltb, leb, if◌then◌else◌,
}
use Prim.Native.String.{String}
use sentry_backend.Base.Lists.{filter_by}
use sentry_backend.Base.Eq.{Eq, pair_eq}
use sentry_backend.Base.Table.{get, put}
use sentry_backend.Base.Sets.{member, add, discard}

abbrev pub Key : Type 0
Key = ℕ × ℕ

pub record PersonState : Type 0 where
  pub risk_pct : ℕ
  pub peak_risk_pct : ℕ
  pub episode_peak_risk_pct : ℕ
  pub first_seen : ℕ
  pub alerted : Bool
  pub above_threshold_since : Option ℕ
  pub last_breach_ts : ℕ
  pub last_seen : ℕ
  pub last_sequences : List String
  pub last_behaviors : List String
  pub last_behavior_scores : List (String × ℕ)
  pub last_behavior_offsets : List (String × ℕ)
  pub episode_started_ms : Option ℕ
  pub peak_foot : Option (ℕ × ℕ)

abbrev pub new_person : ℕ → PersonState
new_person now = record {
  risk_pct = 0;
  peak_risk_pct = 0;
  episode_peak_risk_pct = 0;
  first_seen = now;
  alerted = false;
  above_threshold_since = none;
  last_breach_ts = 0;
  last_seen = 0;
  last_sequences = [];
  last_behaviors = [];
  last_behavior_scores = [];
  last_behavior_offsets = [];
  episode_started_ms = none;
  peak_foot = none;
}

-- `person_id` and `risk_pct` are none where the frame has no number there. A box is
-- (x1, y1, x2, y2), and a foot point keeps x1 + x2, twice its abscissa.
pub record Track : Type 0 where
  pub person_id : Option ℕ
  pub risk_pct : Option ℕ
  pub is_mannequin : Bool
  pub box : Option (ℕ × ℕ × ℕ × ℕ)
  pub sequences : List String
  pub behaviors : List String
  pub behavior_scores : List (String × ℕ)
  pub behavior_offsets : List (String × ℕ)
  pub episode_started_ms : ℕ

pub record Settings : Type 0 where
  pub l5_enabled : Bool
  pub live_alerts_via_node_push : Bool
  pub live_breach_cooldown : ℕ
  pub live_breach_sustain : ℕ

pub record EpisodeSummary : Type 0 where
  pub key : Key
  pub peak_risk_pct : ℕ
  pub behaviors : List String
  pub behavior_scores : List (String × ℕ)
  pub alerted : Bool
  pub duration : ℕ
  pub peak_foot : Option (ℕ × ℕ)

-- `handle_breach` gets the scores and offsets that `build_behavior_detail` formats.
pub data Task : Type 0 where
  emit_alert_blocked : Key → (peak : ℕ) → Task
  handle_breach :
      Key
      → (peak : ℕ) → (sequences behaviors : List String) → (scores offsets : List (String × ℕ))
      → (episode_started_ms : Option ℕ) → (breach_ts_ms : ℕ) → Task
  emit_episode_summary : EpisodeSummary → Task

pub record Handler : Type 0 where
  pub state : List (Key × PersonState)
  pub inflight : List Key
  pub last_cleanup : ℕ

abbrev max : ℕ → ℕ → ℕ
max a b = if leb a b then b else a

-- Keep the last non-empty value.
abbrev last_non_empty : {A : Type 0} → List A → List A → List A
last_non_empty [] old = old
last_non_empty (x ∷ xs) old = x ∷ xs

abbrev foot_or : Option (ℕ × ℕ × ℕ × ℕ) → Option (ℕ × ℕ) → Option (ℕ × ℕ)
foot_or none old = old
foot_or (some (x1, y1, x2, y2)) old = some (x1 + x2, y2)

abbrev start_or : ℕ → Option ℕ → Option ℕ
start_or ms old = if ltb 0 ms then some ms else old

-- What every track of a frame records on its person.
unfoldable pub observe : ℕ → ℕ → Track → PersonState → PersonState
observe now risk t st = record st {
  risk_pct = risk;
  peak_risk_pct = max st.peak_risk_pct risk;
  peak_foot =
      if leb st.episode_peak_risk_pct risk && ltb 0 risk
      then foot_or t.box st.peak_foot
      else st.peak_foot;
  episode_peak_risk_pct = max st.episode_peak_risk_pct risk;
  last_seen = now;
  last_sequences = last_non_empty t.sequences st.last_sequences;
  last_behaviors = last_non_empty t.behaviors st.last_behaviors;
  last_behavior_scores = last_non_empty t.behavior_scores st.last_behavior_scores;
  last_behavior_offsets = last_non_empty t.behavior_offsets st.last_behavior_offsets;
  episode_started_ms = start_or t.episode_started_ms st.episode_started_ms;
}

-- A person with the keys in flight and the tasks that a frame starts.
abbrev pub Breached : Type 0
Breached = PersonState × List Key × List Task

unfoldable pub fire : Settings → Key → ℕ → ℕ → PersonState → List Key → Breached
fire cfg key now breach_ts st inflight =
    let st' = record st { last_breach_ts = now; above_threshold_since = none; peak_risk_pct = 0 } in
    if cfg.l5_enabled
    then (
      st',
      add key inflight,
      handle_breach key st.peak_risk_pct st.last_sequences st.last_behaviors st.last_behavior_scores
            st.last_behavior_offsets st.episode_started_ms breach_ts
          ∷ [],
    )
    else (st', inflight, emit_alert_blocked key st.peak_risk_pct ∷ [])

-- Above the threshold: the start of the sustain window, or a breach at its end.
sustain : Settings → Key → ℕ → ℕ → Option ℕ → PersonState → List Key → Breached
unfolding fire
sustain cfg key now breach_ts none st inflight =
    (record st { above_threshold_since = some now }, inflight, [])
sustain cfg key now breach_ts (some since) st inflight =
    if leb (since + cfg.live_breach_sustain) now && not (member key inflight)
    then fire cfg key now breach_ts st inflight
    else (st, inflight, [])

-- From the node-push test to the end of the loop's body. `breach_ts` is the frame's timestamp, or the
-- wall clock where the frame has none.
unfoldable pub check_breach : Settings → ℕ → Key → ℕ → ℕ → PersonState → List Key → Breached
unfolding sustain
check_breach cfg threshold key now breach_ts st inflight =
    if cfg.live_alerts_via_node_push
    then (st, inflight, [])
    else if ltb now (st.last_breach_ts + cfg.live_breach_cooldown)
    then (st, inflight, [])
    else if leb threshold st.risk_pct
    then sustain cfg key now breach_ts st.above_threshold_since st inflight
    else (record st { above_threshold_since = none }, inflight, [])

abbrev pub person_or_new : ℕ → Option PersonState → PersonState
person_or_new now none = new_person now
person_or_new now (some st) = st

-- A frame's constants in the loop: the camera's path and threshold and the clocks.
pub record Frame : Type 0 where
  pub cam_path : ℕ
  pub risk_threshold : ℕ
  pub now : ℕ
  pub breach_ts : ℕ

unfoldable pub track_person : Settings → Frame → Track → ℕ → ℕ → Handler → Handler × List Task
unfolding observe check_breach
track_person cfg f t pid risk h =
    let key : Key = (f.cam_path, pid) in
    let st = observe f.now risk t (person_or_new f.now (get key h.state)) in
    let (st', inflight', tasks) =
      check_breach cfg f.risk_threshold key f.now f.breach_ts st h.inflight in
    (record h { state = put key st' h.state; inflight = inflight' }, tasks)

-- A track without a person or a risk is skipped, and so is a mannequin.
unfoldable pub on_track :
    Settings → Frame → Track → Option ℕ → Option ℕ → Handler → Handler × List Task
unfolding track_person
on_track cfg f t (some pid) (some risk) h =
    if t.is_mannequin then (h, []) else track_person cfg f t pid risk h
on_track cfg f t none risk h = (h, [])
on_track cfg f t (some pid) none h = (h, [])

unfoldable pub on_tracks : Settings → Frame → List Track → Handler → Handler × List Task
unfolding on_track
on_tracks cfg f [] h = (h, [])
on_tracks cfg f (t ∷ ts) h =
    let (h', tasks) = on_track cfg f t t.person_id t.risk_pct h in
    let (h'', more) = on_tracks cfg f ts h' in (h'', tasks ++ more)

abbrev pub state_ttl : ℕ
state_ttl = 300_000_000

abbrev pub cleanup_every : ℕ
cleanup_every = 60_000_000

unfoldable pub is_stale : ℕ → Key × PersonState → Bool
is_stale now (k, st) = ltb (st.last_seen + state_ttl) now

summary_of : Key × PersonState → EpisodeSummary
summary_of (k, st) = record {
  key = k;
  peak_risk_pct = st.episode_peak_risk_pct;
  behaviors = st.last_behaviors;
  behavior_scores = st.last_behavior_scores;
  alerted = st.alerted;
  duration = st.last_seen - st.first_seen;
  peak_foot = st.peak_foot;
}

abbrev pub discard_all : List (Key × PersonState) → List Key → List Key
discard_all [] keys = keys
discard_all ((k, st) ∷ d) keys = discard_all d (discard k keys)

-- `log_min` is `_EPISODE_LOG_MIN_PCT` in the unit of the risks.
unfoldable pub maybe_cleanup : ℕ → ℕ → Handler → Handler × List EpisodeSummary
unfolding is_stale summary_of
maybe_cleanup log_min now h =
    let stale = filter_by (is_stale now) h.state in
    if ltb now (h.last_cleanup + cleanup_every) then (h, []) else (
      record {
        state = filter_by (λ e. not (is_stale now e)) h.state;
        inflight = discard_all stale h.inflight;
        last_cleanup = now;
      },
      map summary_of (filter_by (λ e. ltb log_min e.1.episode_peak_risk_pct) stale),
    )

-- `_on_frame_inner`; `none` is a path with no camera.
unfoldable pub on_frame : Settings → ℕ → Option Frame → List Track → Handler → Handler × List Task
unfolding maybe_cleanup on_tracks
on_frame cfg log_min none ts h = (h, [])
on_frame cfg log_min (some f) ts h =
    let (h', summaries) = maybe_cleanup log_min f.now h in
    let (h'', tasks) = on_tracks cfg f ts h' in (h'', tasks ++ map emit_episode_summary summaries)

-- The `finally` of `_handle_breach`.
unfoldable pub handle_breach_done : Key → Handler → Handler
handle_breach_done key h = record h { inflight = discard key h.inflight }
