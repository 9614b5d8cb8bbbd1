-- ===== src/Watchdog/Tests.antt =====
-- The watchdog's theorems at concrete inputs.
use sentry_backend.Base.{
  false, not, ◌||◌, if◌then◌else◌, ◌≡◌, refl, ◌&&◌, none, some, List, [], ◌∷◌,
}
use sentry_backend.Base.Lists.{filter_by}
use sentry_backend.Base.Eq.{nat_eq, pair_eq}
use sentry_backend.Base.Sets.{member, intersection, add, discard}
use sentry_backend.Watchdog.{
  Node, sweep_node, detect_transitions, CameraHealth, stalled, CameraSweep, camera_down,
  sweep_camera,
}
use sentry_backend.Watchdog.Cameras.{key_of, reported, sweep_camera-Moves}
use sentry_backend.Watchdog.Nodes.{goes_down, comes_back, detect_transitions-reports}

-- Node 1 was last seen at 5, node 2 never since it was made at 90 s.
abbrev two_nodes : List Node
two_nodes =
    record { id = 1; last_seen_at = some 5; created_at = 0; telemetry = none }
    ∷ record { id = 2; last_seen_at = none; created_at = 90_000_000; telemetry = none }
    ∷ []

detect_transitions-run : detect_transitions two_nodes (2 ∷ 7 ∷ []) 100_000_000 60 ≡ (
  1 ∷ [],
  record { id = 1; last_seen_at = some 5; created_at = 0; telemetry = none } ∷ [],
  record { id = 2; last_seen_at = none; created_at = 90_000_000; telemetry = none } ∷ [],
)
unfolding detect_transitions intersection sweep_node member add discard
detect_transitions-run = refl

detect_transitions-reports_example :
    ((detect_transitions two_nodes (2 ∷ 7 ∷ []) 100_000_000 60).1
      ≡ filter_by (goes_down 100_000_000 60 (2 ∷ 7 ∷ [])) two_nodes)
    × ((detect_transitions two_nodes (2 ∷ 7 ∷ []) 100_000_000 60).2
        ≡ filter_by (comes_back 100_000_000 60 (2 ∷ 7 ∷ [])) two_nodes)
detect_transitions-reports_example =
    detect_transitions-reports two_nodes (2 ∷ 7 ∷ []) 100_000_000 60 (refl, (refl, tt))

abbrev node_1 : Node
node_1 = record { id = 1; last_seen_at = some 5; created_at = 0; telemetry = none }

abbrev camera_4 : CameraHealth
camera_4 = record { camera_id = 4; fps_is_zero = false; status = stalled }

-- Camera 4 was down at the last check.
abbrev second_check : CameraSweep
second_check = record {
  candidate = (1, 4) ∷ [];
  notified = [];
  newly_down = [];
  recovered = [];
  seen = [];
}

sweep_camera-Moves_example :
    let s' = sweep_camera node_1 camera_4 second_check in
    let down = camera_down camera_4 in
    let known = member (key_of node_1 camera_4) second_check.notified in
    let candidate = member (key_of node_1 camera_4) second_check.candidate in
    (member (key_of node_1 camera_4) s'.notified ≡ (down && (known || candidate)))
    × (member (key_of node_1 camera_4) s'.candidate
        ≡ (down && (if known then candidate else not candidate)))
    × (s'.newly_down ≡ reported (down && candidate && not known) node_1 camera_4 [])
    × (s'.recovered ≡ reported (not down && known) node_1 camera_4 [])
    × ((pair_eq.beq (key_of node_1 camera_4) (2, 5) ≡ false)
        → (member (2, 5) s'.notified ≡ member (2, 5) second_check.notified)
          × (member (2, 5) s'.candidate ≡ member (2, 5) second_check.candidate))
sweep_camera-Moves_example = sweep_camera-Moves node_1 camera_4 second_check (2, 5)
