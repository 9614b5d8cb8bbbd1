-- ===== src/Live/Tests.antt =====
-- The tracker's theorems at concrete inputs.
use sentry_backend.Base.{ℕ, ◌+◌, ◌≤◌, ◌≡◌, ◌≢◌, ◌↔◌, refl, true, false, some, List, [], ◌∷◌}
use sentry_backend.Base.Table.{get, put}
use sentry_backend.Base.Sets.{member}
use sentry_backend.Live.{
  PersonState, new_person, Track, Settings, Handler, Frame, check_breach, on_tracks, on_frame,
  is_stale, if◌then◌else◌,
}
use sentry_backend.Live.Breach.{
  breaches, in_flight, forgets, Ripe, on_frame-OneBreach, check_breach_iff,
}

abbrev defaults : Settings
defaults = record {
  l5_enabled = true;
  live_alerts_via_node_push = false;
  live_breach_cooldown = 30_000_000;
  live_breach_sustain = 1_000_000;
}

abbrev person_7 : ℕ → Track
person_7 risk = record {
  person_id = some 7;
  risk_pct = some risk;
  is_mannequin = false;
  box = some (1, 2, 3, 4);
  sequences = [];
  behaviors = [];
  behavior_scores = [];
  behavior_offsets = [];
  episode_started_ms = 0;
}

abbrev frame_at : ℕ → Frame
frame_at now = record { cam_path = 1; risk_threshold = 50; now = now; breach_ts = 900 }

-- Person 7 has been above the threshold since second 40.
abbrev waiting : PersonState
waiting = record (new_person 40_000_000) { risk_pct = 60; above_threshold_since = some 40_000_000 }

abbrev handler : Handler
handler = record { state = ((1, 7), waiting) ∷ []; inflight = []; last_cleanup = 40_000_000 }

abbrev tracks : List Track
tracks = person_7 70 ∷ person_7 80 ∷ []

-- The first of two tracks of a person starts the breach, the second does not.
on_tracks-run : breaches (1, 7) (on_tracks defaults (frame_at 42_000_000) tracks handler).1 ≡ 1
unfolding on_tracks get member put
on_tracks-run = refl

on_frame-OneBreach_example :
    let o = on_frame defaults 30 (some (frame_at 42_000_000)) tracks handler in
    let before =
      if forgets 42_000_000 (1, 7) handler then 0 else in_flight (1, 7) handler.inflight in
    (breaches (1, 7) o.1 + before ≡ in_flight (1, 7) o.0.inflight)
    × (breaches (1, 7) o.1 + before ≤ 1)
on_frame-OneBreach_example =
    on_frame-OneBreach defaults 30 (frame_at 42_000_000) tracks (1, 7) handler

-- A task in flight of a person unseen for over five minutes is forgotten, and a second one starts.
abbrev late : Handler
late = record handler { inflight = (1, 7) ∷ []; last_cleanup = 40_000_000 }

forgotten-run : forgets 400_000_000 (1, 7) late ≡ true
unfolding is_stale
forgotten-run = refl

check_breach_iff_example :
    ((check_breach defaults 50 (1, 7) 42_000_000 900 waiting []).2 ≢ [])
    ↔ Ripe defaults 50 (1, 7) 42_000_000 waiting []
check_breach_iff_example = check_breach_iff defaults 50 (1, 7) 42_000_000 900 waiting []
