-- ===== src/Evidence.antt =====
-- Evidence clips and their alerts: the rows of db/models/clip.py and db/models/alert.py with the .mp4
-- files on disk, and who writes them: create_live_alert of services/threshold_handler.py
-- (Evidence/Live), the retention sweeper (Evidence/Retention) and the deletion of an organization
-- (Evidence/OrgDelete). A UUID and a path are numbers, a time is in microseconds.
pub mod Level
pub mod Live
pub mod Retention
pub mod OrgDelete
mod Tests
use sentry_backend.Base.{
  ℕ, ◌≡◌, Bool, true, false, Option, none, some, List, [], ◌∷◌, ◌||◌, ◌==◌, if◌then◌else◌,
}
use sentry_backend.Base.Dict.{Dict, lookup}
use sentry_backend.Base.Eq.{nat_eq}
use sentry_backend.Base.Sets.{IdSet, member, discard}
use sentry_backend.Evidence.Level.{AlertCategory, AlertLevel}

pub record Camera : Type 0 where
  pub mediamtx_path : ℕ
  pub store_id : ℕ

-- The keys of the tables are the rows' ids; a store is its organization.
pub record Clip : Type 0 where
  pub organization_id : ℕ
  pub store_id : ℕ
  pub camera_id : ℕ
  pub storage_path : ℕ
  pub created_at : ℕ
  pub file_deleted_at : Option ℕ

pub record Alert : Type 0 where
  pub clip_id : ℕ
  pub organization_id : ℕ
  pub store_id : ℕ
  pub camera_id : ℕ
  pub category : AlertCategory
  pub alert_level : AlertLevel
  pub confidence : ℕ
  pub live_threshold : Bool
  pub person_id : Option ℕ
  pub created_at : ℕ

-- `fresh` is the next unused id and file name.
pub record Db : Type 0 where
  pub stores : Dict ℕ
  pub cameras : Dict Camera
  pub clips : Dict Clip
  pub alerts : Dict Alert
  pub disk : IdSet
  pub fresh : ℕ

pub data FileDeleteResult : Type 0 where
  deleted missing error : FileDeleteResult

-- `Path.unlink`: `unlink_fails` tells which files the operating system refuses to remove.
unfoldable pub delete_clip_file : (ℕ → Bool) → ℕ → IdSet → FileDeleteResult × IdSet
delete_clip_file unlink_fails path disk =
    if member path disk
    then if unlink_fails path then (error, disk) else (deleted, discard path disk)
    else (missing, disk)

-- Whether an alert references the clip.
abbrev pub has_alerts : ℕ → Dict Alert → Bool
has_alerts clip [] = false
has_alerts clip ((i, a) ∷ alerts) = a.clip_id == clip || has_alerts clip alerts
