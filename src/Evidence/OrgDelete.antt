-- ===== src/Evidence/OrgDelete.antt =====
-- services/org_delete.py, with the cascade of the foreign keys on the tables of Evidence.
use sentry_backend.Base.{
  ℕ, suc, ◌+◌, ◌≡◌, Bool, false, not, ◌&&◌, ◌||◌, Option, none, some, List, [], ◌∷◌, map, ◌==◌,
  arith, is_some,
}
use sentry_backend.Base.Lists.{length, filter_by}
use sentry_backend.Base.Dict.{Dict, lookup}
use sentry_backend.Base.Eq.{nat_eq}
use sentry_backend.Base.Sets.{IdSet, member, member-discard}
use sentry_backend.Evidence.{
  Camera, Clip, Db, FileDeleteResult, deleted, missing, error, delete_clip_file,
}

pub record ClipFileSweep : Type 0 where
  pub removed : ℕ
  pub missing_files : ℕ
  pub failed : ℕ

count_result : FileDeleteResult → ClipFileSweep → ClipFileSweep
count_result deleted s = record s { removed = suc s.removed }
count_result missing s = record s { missing_files = suc s.missing_files }
count_result error s = record s { failed = suc s.failed }

unfoldable pub remove_clip_files :
    (ℕ → Bool) → List ℕ → IdSet → ClipFileSweep → ClipFileSweep × IdSet
unfolding count_result
remove_clip_files unlink_fails [] disk s = (s, disk)
remove_clip_files unlink_fails (path ∷ paths) disk s =
    let (result, disk') = delete_clip_file unlink_fails path disk in
    remove_clip_files unlink_fails paths disk' (count_result result s)

-- The files that are still expected on disk.
unfoldable pub org_files : ℕ → Dict Clip → List ℕ
org_files org clips =
    map (λ e. e.1.storage_path)
      (filter_by (λ e. e.1.organization_id == org && not (is_some e.1.file_deleted_at)) clips)

abbrev of_other : ℕ → ℕ → Bool
of_other org o = not (o == org)

-- The deletion of the organization's row cascades to its stores, their cameras, its clips and alerts.
cascade : ℕ → Db → Db
cascade org db = record db {
  stores = filter_by (λ e. of_other org e.1) db.stores;
  cameras = filter_by (λ e. not (in_org org db.stores e.1)) db.cameras;
  clips = filter_by (λ e. of_other org e.1.organization_id) db.clips;
  alerts = filter_by (λ e. of_other org e.1.organization_id) db.alerts;
}
  where
    owns : ℕ → Option ℕ → Bool
    owns org none = false
    owns org (some o) = o == org

    in_org : ℕ → Dict ℕ → Camera → Bool
    in_org org stores c = owns org (lookup c.store_id stores)

unfoldable pub delete_organization : (ℕ → Bool) → ℕ → Db → ClipFileSweep × Db
unfolding remove_clip_files org_files cascade
delete_organization unlink_fails org db =
    let (sweep, disk') =
      remove_clip_files unlink_fails (org_files org db.clips) db.disk
        (record { removed = 0; missing_files = 0; failed = 0 }) in
    (sweep, cascade org (record db { disk = disk' }))

-- Whether the path is among them.
abbrev pub listed : ℕ → List ℕ → Bool
listed f [] = false
listed f (p ∷ ps) = p == f || listed f ps

file_kept :
    (unlink_fails : ℕ → Bool) (path f : ℕ) (disk : IdSet)
    → member f (delete_clip_file unlink_fails path disk).1
      ≡ (member f disk && (not (path == f) || unlink_fails f))
unfolding delete_clip_file
file_kept unlink_fails path f disk = ground (arith, member-discard path f disk)

counted :
    (r : FileDeleteResult) (s : ClipFileSweep)
    → let t = count_result r s in
      t.removed + t.missing_files + t.failed ≡ suc (s.removed + s.missing_files + s.failed)
unfolding count_result
counted deleted s = omega arith
counted missing s = omega arith
counted error s = omega arith

-- The file pass tries every path once: its counts add up to the number of paths, and a file stays on
-- disk exactly if it is not among them or the system refuses to remove it. One failure does not stop
-- the others.
pub remove_clip_files-Removes :
    (unlink_fails : ℕ → Bool) (paths : List ℕ) (disk : IdSet) (s : ClipFileSweep) (f : ℕ)
    → let r = remove_clip_files unlink_fails paths disk s in
      (r.0.removed + r.0.missing_files + r.0.failed
        ≡ length paths + (s.removed + s.missing_files + s.failed))
      × (member f r.1 ≡ (member f disk && (not (listed f paths) || unlink_fails f)))
unfolding remove_clip_files
remove_clip_files-Removes unlink_fails [] disk s f = (ground arith, ground arith)
remove_clip_files-Removes unlink_fails (path ∷ paths) disk s f =
    let (result, disk') = delete_clip_file unlink_fails path disk in
    let (counts, kept) =
      remove_clip_files-Removes unlink_fails paths disk' (count_result result s) f in
    (
      omega (arith, counts, counted result s),
      ground (arith, kept, file_kept unlink_fails path f disk),
    )
