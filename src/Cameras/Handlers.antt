-- ===== src/Cameras/Handlers.antt =====
-- update_camera and delete_camera of repository/camera_repo.py, and the handlers of a paired computer.
-- That the computer was seen, the events and the calls of the live worker are left out.
use sentry_backend.Base.{
  ℕ, Bool, false, ◌&&◌, Option, none, some, List, [], ◌∷◌, ◌==◌, if◌then◌else◌,
}
use sentry_backend.Base.Text.{Text, text_beq}
use sentry_backend.Base.Action.{Action, Result, ok, err, http}
use sentry_backend.Billing.Models.{Db, Time}
use sentry_backend.Billing.Status.{BillingStatus, active, credit, suspended, org_billing_status}
use sentry_backend.Auth.{Jwt, Uuid, Settings}
use sentry_backend.Auth.Token.{create_stream_token}
use sentry_backend.Cameras.{
  ComputeTier, CameraRow, CameraDb, NewCamera, store_belongs_to_org, get_camera,
  get_camera_by_store_path, paths, put_row, remove_row, allocate_mediamtx_path, create_camera,
  non_empty,
}

-- `none` is no change.
pub record Edit : Type 0 where
  pub name : Option Text
  pub rtsp_url : Option Text
  pub shelf_zone : Option ℕ
  pub stage2_threshold : Option ℕ
  pub enabled : Option Bool
  pub mediamtx_path : Option Text
  pub risk_threshold : Option ℕ
  pub compute_tier : Option ComputeTier
  pub zones : Option (List ℕ)

abbrev pub or_old : {A : Type 0} → Option A → A → A
or_old none old = old
or_old (some new) old = new

abbrev pub or_kept : {A : Type 0} → Option A → Option A → Option A
or_kept none old = old
or_kept (some new) old = some new

abbrev pub new_zones : Option (List ℕ) → Option (List ℕ) → Option (List ℕ)
new_zones none old = old
new_zones (some zones) old = non_empty (some zones)

abbrev pub edited : Edit → Option Text → CameraRow → CameraRow
edited e path c = record c {
  name = or_old e.name c.name;
  rtsp_url = or_kept e.rtsp_url c.rtsp_url;
  shelf_zone = or_kept e.shelf_zone c.shelf_zone;
  stage2_threshold = or_old e.stage2_threshold c.stage2_threshold;
  enabled = or_old e.enabled c.enabled;
  mediamtx_path = path;
  risk_threshold = or_old e.risk_threshold c.risk_threshold;
  compute_tier = or_old e.compute_tier c.compute_tier;
  zones = new_zones e.zones c.zones;
}

abbrev pub is_path : Option Text → Text → Bool
is_path none p = false
is_path (some q) p = text_beq p q

-- The path after the edit: another one is made unique.
unfoldable pub edited_path : Option Text → Option Text → List Text → Option Text
edited_path none old taken = old
edited_path (some p) old taken = if is_path old p then old else allocate_mediamtx_path p taken

unfoldable pub update_camera : Edit → CameraRow → Action CameraDb CameraRow
unfolding edited_path
update_camera e c db =
    let new = edited e (edited_path e.mediamtx_path c.mediamtx_path (paths db.cameras)) c in
    (ok new, record db { cameras = put_row new db.cameras })

unfoldable pub delete_camera : ℕ → CameraDb → CameraDb
delete_camera id db = record db { cameras = remove_row id db.cameras }

-- A paired computer, with the store that its row names.
pub record PairedAgent : Type 0 where
  pub organization_id : ℕ
  pub store_id : ℕ

unfoldable pub existing_camera : ℕ → Option Text → CameraDb → Option CameraRow
existing_camera store_id (some (c ∷ t)) db = get_camera_by_store_path store_id (c ∷ t) db
existing_camera store_id (some []) db = none
existing_camera store_id none db = none

-- The tier is kept: the computer always sends the default one.
abbrev pub refreshed : NewCamera → Edit
refreshed new = record {
  name = some new.name;
  rtsp_url = new.rtsp_url;
  shelf_zone = none;
  stage2_threshold = none;
  enabled = none;
  mediamtx_path = none;
  risk_threshold = some new.risk_threshold;
  compute_tier = none;
  zones = new.zones;
}

unfoldable pub or_conflict : Result (Option CameraRow) × CameraDb → Result CameraRow × CameraDb
or_conflict (err e, db) = (err e, db)
or_conflict (ok none, db) = (err (http 409), db)
or_conflict (ok (some c), db) = (ok c, db)

unfoldable pub register_on : PairedAgent → NewCamera → Option CameraRow → Action CameraDb CameraRow
unfolding or_conflict create_camera update_camera
register_on agent new none db =
    or_conflict (create_camera agent.store_id agent.organization_id new db)
register_on agent new (some c) db = update_camera (refreshed new) c db

-- The body brings name, URL, path, threshold, tier and zones; the rest has its default.
unfoldable pub agent_register_camera : PairedAgent → NewCamera → Action CameraDb CameraRow
unfolding register_on existing_camera
agent_register_camera agent new db =
    register_on agent new (existing_camera agent.store_id new.mediamtx_path db) db

abbrev pub in_hand : PairedAgent → CameraDb → Option CameraRow → Option CameraRow
in_hand agent db none = none
in_hand agent db (some c) =
    if store_belongs_to_org c.store_id agent.organization_id db && c.store_id == agent.store_id
    then some c
    else none

-- The camera, if the organization and the store are the computer's.
unfoldable pub own_camera : PairedAgent → ℕ → CameraDb → Option CameraRow
own_camera agent camera_id db = in_hand agent db (get_camera camera_id db.cameras)

unfoldable pub edit_own : Edit → Option CameraRow → Action CameraDb CameraRow
unfolding update_camera
edit_own e none db = (err (http 404), db)
edit_own e (some c) db = update_camera e c db

-- The edit of a computer brings no path.
unfoldable pub agent_update_camera : PairedAgent → ℕ → Edit → Action CameraDb CameraRow
unfolding edit_own own_camera
agent_update_camera agent camera_id e db =
    edit_own (record e { mediamtx_path = none }) (own_camera agent camera_id db) db

unfoldable pub delete_own : Option CameraRow → Action CameraDb (Unit {0})
unfolding delete_camera
delete_own none db = (err (http 404), db)
delete_own (some c) db = (ok tt, delete_camera c.id db)

unfoldable pub agent_delete_camera : PairedAgent → ℕ → Action CameraDb (Unit {0})
unfolding delete_own own_camera
agent_delete_camera agent camera_id db = delete_own (own_camera agent camera_id db) db

module _ (j : Jwt) (u : Uuid) (settings : Settings) where
  unfoldable pub path_token : ℕ → Option Text → Result Text
  path_token now none = err (http 409)
  path_token now (some []) = err (http 409)
  path_token now (some (c ∷ path)) = ok (create_stream_token j u settings now (c ∷ path))

  unfoldable pub token_for : ℕ → Option CameraRow → Result Text
  unfolding path_token
  token_for now none = err (http 404)
  token_for now (some c) = path_token now c.mediamtx_path

  unfoldable pub unless_suspended : BillingStatus → Result Text → Result Text
  unless_suspended suspended answer = err (http 402)
  unless_suspended active answer = answer
  unless_suspended credit answer = answer

  -- `at` is the time as billing counts it, `now` in seconds.
  unfoldable pub agent_camera_stream_token :
      Db → Time → ℕ → PairedAgent → ℕ → CameraDb → Result Text
  unfolding token_for unless_suspended own_camera
  agent_camera_stream_token billing at now agent camera_id db =
      unless_suspended (org_billing_status billing agent.organization_id at)
        (token_for now (own_camera agent camera_id db))
