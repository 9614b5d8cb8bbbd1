-- ===== src/Watchdog/Cameras.antt =====
-- Theorems on `detect_camera_transitions` of services/node_watchdog.py.
use sentry_backend.Base.{
  ◌≡◌, Bool, true, false, not, ◌&&◌, ◌||◌, List, [], ◌∷◌, ◌++◌, if◌then◌else◌, arith,
}
use sentry_backend.Base.Eq.{pair_eq}
use sentry_backend.Base.Sets.{member, member-add, member-discard}
use sentry_backend.Watchdog.{Node, CameraHealth, CameraKey, CameraSweep, camera_down, sweep_camera}

abbrev pub key_of : Node → CameraHealth → CameraKey
key_of n c = (n.id, c.camera_id)

-- The list with the camera, if it is reported.
abbrev pub reported :
    Bool → Node → CameraHealth → List (Node × CameraHealth) → List (Node × CameraHealth)
reported true n c l = l ++ ((n, c) ∷ [])
reported false n c l = l

-- One camera of an online node moves between four states. It is notified as down exactly if it is
-- down and was a candidate or notified, becomes a candidate at the first check that finds it down,
-- and is reported exactly when it becomes notified or stops being so. No other camera's state moves.
pub sweep_camera-Moves :
    (n : Node) (c : CameraHealth) (s : CameraSweep) (k : CameraKey)
    → let s' = sweep_camera n c s in
      let down = camera_down c in
      let known = member (key_of n c) s.notified in
      let candidate = member (key_of n c) s.candidate in
      (member (key_of n c) s'.notified ≡ (down && (known || candidate)))
      × (member (key_of n c) s'.candidate ≡ (down && (if known then candidate else not candidate)))
      × (s'.newly_down ≡ reported (down && candidate && not known) n c s.newly_down)
      × (s'.recovered ≡ reported (not down && known) n c s.recovered)
      × ((pair_eq.beq (key_of n c) k ≡ false)
          → (member k s'.notified ≡ member k s.notified)
            × (member k s'.candidate ≡ member k s.candidate))
unfolding sweep_camera
sweep_camera-Moves n c s k =
    let key = key_of n c in
    (
      ground (arith, member-add key key s.notified, member-discard key key s.notified),
      ground (arith, member-add key key s.candidate, member-discard key key s.candidate),
      ground arith,
      ground arith,
      λ other. (
        ground (arith, other, member-add key k s.notified, member-discard key k s.notified),
        ground (arith, other, member-add key k s.candidate, member-discard key k s.candidate),
      ),
    )
