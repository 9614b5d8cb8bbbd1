-- ===== src/Cameras/Tests.antt =====
-- The theorems on cameras at concrete inputs.
use sentry_backend.Base.{◌≡◌, refl, subst, true, false, none, some, List, [], ◌∷◌}
use sentry_backend.Base.Text.{Text, text_eq, digits}
use sentry_backend.Base.Sets.{member}
use sentry_backend.Base.Dict.{lookup}
use sentry_backend.Base.Action.{ok}
use sentry_backend.Base.Int.{pos}
use sentry_backend.Billing.Models.{Db}
use sentry_backend.Billing.Api.Reach.{empty_db}
use sentry_backend.Auth.Plain.{plain, plain-laws, numbers, limits}
use sentry_backend.Billing.Status.{suspended, billing_status, org_billing_status}
use sentry_backend.Auth.Token.{create_stream_token}
use sentry_backend.Auth.Media.{stream_token_allows}
use sentry_backend.Cameras.{
  cloud, edge_pc, CameraRow, CameraDb, NewCamera, get_camera, get_camera_by_store_path,
  create_camera, add_camera, paths, store_belongs_to_org, allocate_mediamtx_path, slugify,
}
use sentry_backend.Cameras.Free.{NumberedFrom, allocate_mediamtx_path-Fresh}
use sentry_backend.Cameras.Slugs.{IsSlug, slugify-IsSlug}
use sentry_backend.Cameras.Kept.{Inv, ids}
use sentry_backend.Cameras.Reach.{Reached, starts, then_step, registers, Reached-Inv}
use sentry_backend.Cameras.Handlers.{
  PairedAgent, register_on, or_conflict, own_camera, token_for, path_token, unless_suspended,
  agent_register_camera, agent_camera_stream_token, existing_camera,
}
use sentry_backend.Cameras.Streams.{
  agent_camera_stream_token-Isolated, agent_register_camera-Refreshes,
}

-- "cam", with "cam_2" taken too.
abbrev cam_path : Text
cam_path = 99 ∷ 97 ∷ 109 ∷ []

abbrev taken_paths : List Text
taken_paths = cam_path ∷ (99 ∷ 97 ∷ 109 ∷ 95 ∷ 50 ∷ []) ∷ []

cam_3 : allocate_mediamtx_path cam_path taken_paths ≡ some (99 ∷ 97 ∷ 109 ∷ 95 ∷ 51 ∷ [])
unfolding allocate_mediamtx_path member digits
cam_3 = refl

allocate_mediamtx_path-Fresh_example :
    (p : Text) × (allocate_mediamtx_path cam_path taken_paths ≡ some p)
    × (member p taken_paths ≡ false)
    × NumberedFrom cam_path taken_paths p
allocate_mediamtx_path-Fresh_example = allocate_mediamtx_path-Fresh cam_path taken_paths

-- " Cam-1"
slugify-IsSlug_example : IsSlug (slugify (32 ∷ 67 ∷ 97 ∷ 109 ∷ 45 ∷ 49 ∷ []))
slugify-IsSlug_example = slugify-IsSlug (32 ∷ 67 ∷ 97 ∷ 109 ∷ 45 ∷ 49 ∷ [])

abbrev front_door : NewCamera
front_door = record {
  name = 97 ∷ [];
  rtsp_url = some (114 ∷ []);
  shelf_zone = none;
  stage2_threshold = 60;
  enabled = true;
  mediamtx_path = some cam_path;
  risk_threshold = 11;
  compute_tier = edge_pc;
  zones = none;
}

abbrev counter : PairedAgent
counter = record { organization_id = 7; store_id = 1 }

abbrev no_cameras : CameraDb
no_cameras = record {
  stores = record { id = 1; organization_id = 7 } ∷ [];
  cameras = [];
  next_id = 0;
}

abbrev one_camera : CameraDb
one_camera = (agent_register_camera counter front_door no_cameras).1

one_Reached : Reached one_camera
one_Reached = then_step (starts refl) (registers counter front_door)

Reached-Inv_example : Inv one_camera
Reached-Inv_example = Reached-Inv one_Reached

abbrev rich : Db
rich = record empty_db {
  profiles =
      (
        7,
        record {
          balance_mnt = pos 100;
          credit_until = none;
          credit_note = none;
          promo_free_until = none;
        },
      )
      ∷ [];
}

abbrev first_camera : CameraRow
first_camera = record {
  id = 0;
  store_id = 1;
  name = 97 ∷ [];
  rtsp_url = some (114 ∷ []);
  shelf_zone = none;
  stage2_threshold = 60;
  enabled = true;
  mediamtx_path = some cam_path;
  risk_threshold = 11;
  compute_tier = edge_pc;
  zones = none;
}

stored : one_camera ≡ record no_cameras { cameras = first_camera ∷ []; next_id = 1 }
unfolding agent_register_camera register_on existing_camera get_camera_by_store_path create_camera
    or_conflict store_belongs_to_org allocate_mediamtx_path paths add_camera member
stored = refl

stored-Reached : Reached (record no_cameras { cameras = first_camera ∷ []; next_id = 1 })
stored-Reached = subst (λ db. Reached db) stored one_Reached

abbrev one_stored : CameraDb
one_stored = record no_cameras { cameras = first_camera ∷ []; next_id = 1 }

abbrev stream_token : Text
stream_token = create_stream_token plain numbers limits 30 cam_path

granted :
    agent_camera_stream_token plain numbers limits rich 5 30 counter 0 one_stored ≡ ok stream_token
unfolding agent_camera_stream_token own_camera get_camera store_belongs_to_org token_for path_token
    unless_suspended org_billing_status billing_status lookup create_stream_token
granted = refl

agent_camera_stream_token-Isolated_example :
    ((org_billing_status rich 7 5 ≡ suspended) → ⊥)
    × ((a : CameraRow) × (get_camera 0 one_stored.cameras ≡ some a) × (a.store_id ≡ 1))
    × ((b : CameraRow) (q : Text)
        → get_camera b.id one_stored.cameras ≡ some b
        → b.mediamtx_path ≡ some q
        → stream_token_allows plain numbers limits 40 stream_token q ≡ true
        → b.id ≡ 0)
agent_camera_stream_token-Isolated_example =
    agent_camera_stream_token-Isolated plain numbers limits plain-laws one_stored stored-Reached
      rich 5 30 40 counter 0 stream_token granted

found_again : existing_camera 1 (some cam_path) one_stored ≡ some first_camera
unfolding existing_camera get_camera_by_store_path
found_again = refl

abbrev again : NewCamera
again = record front_door { name = 98 ∷ []; compute_tier = cloud }

agent_register_camera-Refreshes_example :
    let r = agent_register_camera counter again one_stored in
    (d : CameraRow) × (r.0 ≡ ok d)
    × (d.id ≡ 0)
    × (d.mediamtx_path ≡ some cam_path)
    × (d.compute_tier ≡ edge_pc)
    × (d.enabled ≡ true)
    × (d.name ≡ again.name)
    × (d.risk_threshold ≡ 11)
    × (ids r.1.cameras ≡ ids one_stored.cameras)
    × (existing_camera 1 (some cam_path) r.1 ≡ some d)
agent_register_camera-Refreshes_example =
    agent_register_camera-Refreshes counter again one_stored first_camera found_again
