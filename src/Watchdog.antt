-- ===== src/Watchdog.antt =====
-- services/node_watchdog.py: the pure steps of the offline watchdog. A time is a number of
-- microseconds, and `offline_after_sec` of the settings is not negative, so `now - last` at or above
-- it is an order of sums. `parse_camera_health` decodes a node's telemetry text with the json and
-- pydantic libraries, so it is a parameter. Labels, messages and the loop's notifications are text
-- and I/O.
pub mod Nodes
pub mod Cameras
mod Tests
use sentry_backend.Base.{
  ℕ, ◌+◌, ◌*◌, Bool, true, false, not, ◌&&◌, ◌||◌, Option, none, some, List, [], ◌∷◌, ◌++◌, leb,
  ◌==◌, if◌then◌else◌,
}
use Prim.Native.String.{String}
use sentry_backend.Base.Lists.{filter_by}
use sentry_backend.Base.Eq.{Eq, nat_eq, pair_eq}
use sentry_backend.Base.Sets.{IdSet, member, add, discard, intersection}

pub record Node : Type 0 where
  pub id : ℕ
  pub last_seen_at : Option ℕ
  pub created_at : ℕ
  pub telemetry : Option String

abbrev last_of : Option ℕ → ℕ → ℕ
last_of none created = created
last_of (some seen) created = seen

unfoldable pub is_offline : Node → ℕ → ℕ → Bool
is_offline n now offline_after_sec =
    leb (last_of n.last_seen_at n.created_at + offline_after_sec * 1_000_000) now

-- The state of the loop in `detect_transitions`.
pub record Sweep : Type 0 where
  pub notified : IdSet
  pub newly_offline : List Node
  pub recovered : List Node
  pub seen : IdSet

-- One node of the loop.
unfoldable pub sweep_node : ℕ → ℕ → Node → Sweep → Sweep
unfolding is_offline
sweep_node now after n s =
    let t = record s { seen = add n.id s.seen } in
    let offline = is_offline n now after in
    if offline && not (member n.id s.notified)
    then record t { notified = add n.id s.notified; newly_offline = s.newly_offline ++ (n ∷ []) }
    else if not offline && member n.id s.notified
    then record t { notified = discard n.id s.notified; recovered = s.recovered ++ (n ∷ []) }
    else t

unfoldable pub sweep_nodes : ℕ → ℕ → List Node → Sweep → Sweep
sweep_nodes now after [] s = s
sweep_nodes now after (n ∷ ns) s = sweep_nodes now after ns (sweep_node now after n s)

abbrev pub begin_sweep : IdSet → Sweep
begin_sweep notified = record { notified = notified; newly_offline = []; recovered = []; seen = [] }

-- Returns the new state set with the two lists.
unfoldable pub detect_transitions : List Node → IdSet → ℕ → ℕ → IdSet × List Node × List Node
unfolding sweep_nodes
detect_transitions nodes notified now after =
    let s = sweep_nodes now after nodes (begin_sweep notified) in
    (intersection s.notified s.seen, s.newly_offline, s.recovered)

pub data CameraStatus : Type 0 where
  status_ok stalled error : CameraStatus

-- `fps` is only compared with 0; a float is given by whether it is 0.
pub record CameraHealth : Type 0 where
  pub camera_id : ℕ
  pub fps_is_zero : Bool
  pub status : CameraStatus

abbrev is_ok_status : CameraStatus → Bool
is_ok_status status_ok = true
is_ok_status stalled = false
is_ok_status error = false

unfoldable pub camera_down : CameraHealth → Bool
camera_down c = not (is_ok_status c.status) || c.fps_is_zero

abbrev pub CameraKey : Type 0
CameraKey = ℕ × ℕ

-- The state of the loop in `detect_camera_transitions`.
pub record CameraSweep : Type 0 where
  pub candidate : List CameraKey
  pub notified : List CameraKey
  pub newly_down : List (Node × CameraHealth)
  pub recovered : List (Node × CameraHealth)
  pub seen : List CameraKey

-- One camera of an online node.
unfoldable pub sweep_camera : Node → CameraHealth → CameraSweep → CameraSweep
unfolding camera_down
sweep_camera n c s =
    let key : CameraKey = (n.id, c.camera_id) in
    let t = record s { seen = add key s.seen } in
    if camera_down c
    then if member key s.notified
      then t
      else if member key s.candidate
      then record t {
        candidate = discard key s.candidate;
        notified = add key s.notified;
        newly_down = s.newly_down ++ ((n, c) ∷ []);
      }
      else record t { candidate = add key s.candidate }
    else if member key s.notified
    then record t {
      candidate = discard key s.candidate;
      notified = discard key s.notified;
      recovered = s.recovered ++ ((n, c) ∷ []);
    }
    else record t { candidate = discard key s.candidate }

unfoldable pub sweep_cameras : Node → List CameraHealth → CameraSweep → CameraSweep
sweep_cameras n [] s = s
sweep_cameras n (c ∷ cs) s = sweep_cameras n cs (sweep_camera n c s)

-- An offline node's camera state is frozen: its keys count as seen.
unfoldable pub freeze : Node → CameraSweep → CameraSweep
freeze n s = record s { seen = filter_by (λ k. k.0 == n.id) (s.candidate ++ s.notified) ++ s.seen }

abbrev health_or_empty : Option (List CameraHealth) → List CameraHealth
health_or_empty none = []
health_or_empty (some cs) = cs

module _ (parse_camera_health : Option String → Option (List CameraHealth)) where
  unfoldable pub sweep_camera_nodes : ℕ → ℕ → List Node → CameraSweep → CameraSweep
  unfolding freeze sweep_cameras is_offline
  sweep_camera_nodes now after [] s = s
  sweep_camera_nodes now after (n ∷ ns) s = sweep_camera_nodes now after ns (
      if is_offline n now after
      then freeze n s
      else sweep_cameras n (health_or_empty (parse_camera_health n.telemetry)) s)

  -- Returns the two state sets with the two lists.
  unfoldable pub detect_camera_transitions :
      List Node
      → List CameraKey
      → List CameraKey
      → ℕ
      → ℕ
      → List CameraKey × List CameraKey × List (Node × CameraHealth) × List (Node × CameraHealth)
  unfolding sweep_camera_nodes
  detect_camera_transitions nodes candidate notified now after =
      let s = sweep_camera_nodes now after nodes (record {
        candidate = candidate;
        notified = notified;
        newly_down = [];
        recovered = [];
        seen = [];
      }) in
      (intersection s.candidate s.seen, intersection s.notified s.seen, s.newly_down, s.recovered)
