-- ===== src/Evidence/Tests.antt =====
-- The theorems on clips, alerts and their files at concrete inputs.
use sentry_backend.Base.{
  ℕ, ◌+◌, ◌*◌, ◌≤◌, ◌≡◌, ◌⊎◌, refl, Bool, false, none, some, List, [], ◌∷◌, arith,
}
use sentry_backend.Base.Int.{pos, ◌+ℤ◌}
use sentry_backend.Base.Dict.{lookup}
use sentry_backend.Base.Eq.{nat_eq}
use sentry_backend.Base.Sets.{IdSet, member}
use sentry_backend.Evidence.{Camera, Clip, Alert, Db}
use sentry_backend.Evidence.Level.{
  pocket_conceal, whole_episode, compute_clip_window, compute_clip_window-Covers,
}
use sentry_backend.Evidence.Live.{
  LiveAlert, Settings, live_alert, create_live_alert, IsSound, create_live_alert-IsSound,
  create_live_alert-Debounced,
}
use sentry_backend.Evidence.Retention.{AlertsKept, NoOrphan, sweep_expired, sweep_expired-Keeps}
use sentry_backend.Evidence.OrgDelete.{ClipFileSweep}

abbrev camera : Camera
camera = record { mediamtx_path = 77; store_id = 10 }

abbrev one_camera : Db
one_camera = record {
  stores = (10, 1) ∷ [];
  cameras = (20, camera) ∷ [];
  clips = [];
  alerts = [];
  disk = [];
  fresh = 100;
}

abbrev settings : Settings
settings = record { live_breach_cooldown = 30; max_clip_size_mb = 1 }

abbrev push_at : ℕ → LiveAlert
push_at now = record {
  mediamtx_path = 77;
  clip_size = 5;
  category = pocket_conceal;
  confidence = 900_000;
  person_id = some 7;
  now = now;
}

abbrev no_other : Db → Db
no_other db = db

abbrev pushed : Alert
pushed = live_alert (push_at 40) 101 20 camera 1

create_live_alert-run :
    (create_live_alert settings no_other (push_at 40) one_camera).0 ≡ some pushed
unfolding create_live_alert lookup
create_live_alert-run = refl

create_live_alert-IsSound_example :
    IsSound (push_at 40) pushed (create_live_alert settings no_other (push_at 40) one_camera).1
create_live_alert-IsSound_example =
    create_live_alert-IsSound settings no_other (push_at 40) one_camera pushed create_live_alert-run

create_live_alert-Debounced_example :
    create_live_alert settings no_other
      (push_at 60)
      (create_live_alert settings no_other (push_at 40) one_camera).1
    ≡ (none, (create_live_alert settings no_other (push_at 40) one_camera).1)
unfolding create_live_alert lookup
create_live_alert-Debounced_example =
    create_live_alert-Debounced settings no_other (push_at 40) (push_at 60) one_camera pushed 7
      camera create_live_alert-run refl refl (omega arith) (omega arith) refl

abbrev never : ℕ → Bool
never path = false

abbrev clip_of : ℕ → ℕ → Clip
clip_of path made = record {
  organization_id = 1;
  store_id = 10;
  camera_id = 20;
  storage_path = path;
  created_at = made;
  file_deleted_at = none;
}

-- Two expired clips, the first referenced by an alert.
abbrev two_clips : Db
two_clips = record one_camera {
  clips = (3, clip_of 30 5) ∷ (4, clip_of 40 6) ∷ [];
  alerts = (9, live_alert (push_at 5) 3 20 camera 1) ∷ [];
  disk = 30 ∷ [];
}

two_clips-AlertsKept : AlertsKept two_clips
unfolding lookup
two_clips-AlertsKept i h = ground (arith, h)

two_clips-NoOrphan : NoOrphan two_clips
unfolding lookup member
two_clips-NoOrphan f h = (3, clip_of 30 5, refl, ground (arith, h), refl)

sweep_expired-Keeps_example :
    AlertsKept (sweep_expired never 172_800_000_000 (pos 1) two_clips).0
    × NoOrphan (sweep_expired never 172_800_000_000 (pos 1) two_clips).0
sweep_expired-Keeps_example =
    sweep_expired-Keeps never 172_800_000_000 (pos 1) two_clips two_clips-AlertsKept
      two_clips-NoOrphan

abbrev no_files : ClipFileSweep
no_files = record { removed = 0; missing_files = 0; failed = 0 }

abbrev disk_files : IdSet
disk_files = 30 ∷ 40 ∷ []

abbrev org_paths : List ℕ
org_paths = 30 ∷ 31 ∷ []

compute_clip_window-Covers_example :
    let w = compute_clip_window (some 9_000) (some 4_000) 3 10_000 90 in
    (w.0 +ℤ pos w.1 ≡ pos 0)
    × (5 ≤ w.1)
    × (w.1 ≤ 90)
    × ((8_000 + 10_000 + 2000 ≤ 1000 * w.1) ⊎ (w.1 ≡ 90))
    × ((w.1 ≡ 5) ⊎ (1000 * w.1 ≤ 8_000 + 10_000 + 2000 + 999))
compute_clip_window-Covers_example =
    compute_clip_window-Covers (some 9_000) (some 4_000) 3 10_000 90 8_000
      (whole_episode 4_000 5_000 3) (omega arith)
