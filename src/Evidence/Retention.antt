-- ===== src/Evidence/Retention.antt =====
-- services/retention.py. The metric rows and the pairing codes are deleted alike, so a batch works on
-- the rows' times; the database chooses which expired rows a batch takes (here the first). The loop
-- around the sweep and the log are left out.
use sentry_backend.Base.{
  ℕ, zero, suc, ◌+◌, ◌-◌, ◌*◌, ◌≡◌, refl, Bool, true, false, not, ◌&&◌, Option, none, some, List,
  [], ◌∷◌, map, ltb, leb, ◌==◌, if◌then◌else◌, arith, ==_iff, ap, ◌∙◌, ◌⊎◌, Bool-cases, inl, inr,
  is_some,
}
use sentry_backend.Base.Int.{ℤ, pos, negsuc}
use sentry_backend.Base.Lists.{take, filter_by, count_by}
use sentry_backend.Base.Dict.{Dict, lookup, insert, erase, lookup-insert, lookup-erase}
use sentry_backend.Base.Eq.{nat_eq}
use sentry_backend.Base.Sets.{IdSet, member, member-discard}
use sentry_backend.Evidence.{
  Clip, Alert, Db, FileDeleteResult, deleted, missing, error, delete_clip_file, has_alerts,
}

-- `days <= 0` disables. The clock is past the first `days` days, so the difference is a time.
unfoldable pub retention_cutoff : ℕ → ℤ → Option ℕ
retention_cutoff now (negsuc n) = none
retention_cutoff now (pos n) = if n == 0 then none else some (now - n * 86_400_000_000)

pub data ClipAction : Type 0 where
  delete_row keep_row_mark_deleted retry_later : ClipAction

unfoldable pub plan_clip_action : Bool → FileDeleteResult → ClipAction
plan_clip_action has_alert error = retry_later
plan_clip_action has_alert deleted = if has_alert then keep_row_mark_deleted else delete_row
plan_clip_action has_alert missing = if has_alert then keep_row_mark_deleted else delete_row

pub record Summary : Type 0 where
  pub clip_files_deleted : ℕ
  pub clip_rows_deleted : ℕ
  pub clip_rows_kept_for_alerts : ℕ
  pub clip_files_retry : ℕ

abbrev count_file : FileDeleteResult → Summary → Summary
count_file deleted s = record s { clip_files_deleted = suc s.clip_files_deleted }
count_file missing s = s
count_file error s = s

act : ClipAction → ℕ → ℕ → Clip → Dict Clip → Summary → Dict Clip × Summary
act delete_row now id c clips s =
    (erase id clips, record s { clip_rows_deleted = suc s.clip_rows_deleted })
act keep_row_mark_deleted now id c clips s = (
  insert id (record c { file_deleted_at = some now }) clips,
  record s { clip_rows_kept_for_alerts = suc s.clip_rows_kept_for_alerts },
)
act retry_later now id c clips s = (clips, record s { clip_files_retry = suc s.clip_files_retry })

-- One clip of the loop.
sweep_row : (ℕ → Bool) → ℕ → ℕ → Option Clip → Db → Summary → Db × Summary
unfolding act delete_clip_file plan_clip_action
sweep_row unlink_fails now id none db s = (db, s)
sweep_row unlink_fails now id (some c) db s =
    let (result, disk') = delete_clip_file unlink_fails c.storage_path db.disk in
    let action = plan_clip_action (has_alerts id db.alerts) result in
    let (clips', s') = act action now id c db.clips (count_file result s) in
    (record db { disk = disk'; clips = clips' }, s')

unfoldable pub sweep_clips : (ℕ → Bool) → ℕ → List ℕ → Db → Summary → Db × Summary
unfolding sweep_row
sweep_clips unlink_fails now [] db s = (db, s)
sweep_clips unlink_fails now (id ∷ ids) db s =
    let (db', s') = sweep_row unlink_fails now id (lookup id db.clips) db s in
    sweep_clips unlink_fails now ids db' s'

abbrev pub is_expired : ℕ → ℕ × Clip → Bool
is_expired cutoff (i, c) = ltb c.created_at cutoff && not (is_some c.file_deleted_at)

-- ORDER BY created_at, as an insertion sort.
insert_by_time : ℕ × Clip → List (ℕ × Clip) → List (ℕ × Clip)
insert_by_time e [] = e ∷ []
insert_by_time e (f ∷ es) =
    if leb e.1.created_at f.1.created_at then e ∷ f ∷ es else f ∷ insert_by_time e es

order_by_time : List (ℕ × Clip) → List (ℕ × Clip)
unfolding insert_by_time
order_by_time [] = []
order_by_time (e ∷ es) = insert_by_time e (order_by_time es)

-- CLIP_BATCH = 200
unfoldable pub expired_clips : ℕ → Dict Clip → List ℕ
unfolding order_by_time
expired_clips cutoff clips =
    map (λ e. e.0) (take 200 (order_by_time (filter_by (is_expired cutoff) clips)))

abbrev pub no_counts : Summary
no_counts = record {
  clip_files_deleted = 0;
  clip_rows_deleted = 0;
  clip_rows_kept_for_alerts = 0;
  clip_files_retry = 0;
}

sweep_before : (ℕ → Bool) → ℕ → Option ℕ → Db → Db × Summary
unfolding expired_clips sweep_clips
sweep_before unlink_fails now none db = (db, no_counts)
sweep_before unlink_fails now (some cutoff) db =
    sweep_clips unlink_fails now (expired_clips cutoff db.clips) db no_counts

-- Part (a) of `sweep_once`.
unfoldable pub sweep_expired : (ℕ → Bool) → ℕ → ℤ → Db → Db × Summary
unfolding sweep_before retention_cutoff
sweep_expired unlink_fails now clip_retention_days db =
    sweep_before unlink_fails now (retention_cutoff now clip_retention_days) db

-- A batch of parts (b) and (c): the rows left, and how many were deleted.
unfoldable pub delete_batch : ℕ → ℕ → List ℕ → List ℕ × ℕ
delete_batch limit cutoff [] = ([], 0)
delete_batch zero cutoff (t ∷ ts) = (t ∷ ts, 0)
delete_batch (suc limit) cutoff (t ∷ ts) =
    let more = delete_batch limit cutoff ts in
    let keep = delete_batch (suc limit) cutoff ts in
    if ltb t cutoff then (more.0, suc more.1) else (t ∷ keep.0, keep.1)

abbrev pub expired : ℕ → ℕ → Bool
expired cutoff t = ltb t cutoff

-- A batch keeps every row that is not expired and deletes at most `limit` rows: all the expired ones
-- if these are no more than the limit, else exactly `limit`.
pub delete_batch-Drains :
    (limit cutoff : ℕ) (ts : List ℕ)
    → let r = delete_batch limit cutoff ts in
      (filter_by (λ t. not (expired cutoff t)) r.0 ≡ filter_by (λ t. not (expired cutoff t)) ts)
      × (count_by (expired cutoff) r.0 + r.1 ≡ count_by (expired cutoff) ts)
      × (count_by (expired cutoff) r.0 ≡ count_by (expired cutoff) ts - limit)
unfolding delete_batch
delete_batch-Drains limit cutoff [] = (refl, ground arith, ground arith)
delete_batch-Drains zero cutoff (t ∷ ts) = (refl, ground arith, ground arith)
delete_batch-Drains (suc limit) cutoff (t ∷ ts) =
    ground (arith, delete_batch-Drains limit cutoff ts, delete_batch-Drains (suc limit) cutoff ts)

-- Every file on disk is the undeleted file of some clip row.
abbrev pub NoOrphan : Db → Type 0
NoOrphan db =
    (f : ℕ)
    → member f db.disk ≡ true
    → (i : ℕ) × (c : Clip) × (lookup i db.clips ≡ some c)
      × (c.storage_path ≡ f)
      × (c.file_deleted_at ≡ none)

-- Every alert refers to a clip row.
abbrev pub AlertsKept : Db → Type 0
AlertsKept db = (i : ℕ) → has_alerts i db.alerts ≡ true → is_some (lookup i db.clips) ≡ true

same_alerts :
    (id i : ℕ) (alerts : Dict Alert) → (id == i) ≡ true → has_alerts i alerts ≡ has_alerts id alerts
same_alerts id i alerts h = ground (arith, h)

row_AlertsKept :
    (unlink_fails : ℕ → Bool) (now id : ℕ) (o : Option Clip) (db : Db) (s : Summary)
    → AlertsKept db
    → AlertsKept (sweep_row unlink_fails now id o db s).0
unfolding sweep_row act plan_clip_action delete_clip_file
row_AlertsKept unlink_fails now id none db s k i h = k i h
row_AlertsKept unlink_fails now id (some c) db s k i h = ground (
  arith,
  k i,
  h,
  same_alerts id i db.alerts,
  lookup-erase id i db.clips,
  lookup-insert id i (record c { file_deleted_at = some now }) db.clips,
)

-- The owner of a file is not the clip whose file is gone.
other_owner :
    (id i f : ℕ) (c c' : Clip) (db : Db) (disk : IdSet)
    → lookup id db.clips ≡ some c
    → lookup i db.clips ≡ some c'
    → c'.storage_path ≡ f
    → member c.storage_path disk ≡ false
    → member f disk ≡ true
    → (id == i) ≡ false
other_owner id i f c c' db disk e e' p gone h = elim (Bool-cases (id == i)) [
  | inl q ↦
      let n : id ≡ i = (==_iff id i).0 q in
      let same : c ≡ c' = cc in
      let path : c.storage_path ≡ f = ap (λ x. x.storage_path) same ∙ p in
      ground (arith, ap (λ x. member x disk) path, gone, h)
  | inr q ↦ q
]

act_lem :
    (a : ClipAction) (now id i f : ℕ) (c c' : Clip) (db : Db) (disk : IdSet) (s : Summary)
    → lookup id db.clips ≡ some c
    → lookup i db.clips ≡ some c'
    → c'.storage_path ≡ f
    → member c.storage_path disk ≡ false
    → member f disk ≡ true
    → lookup i (act a now id c db.clips s).0 ≡ some c'
unfolding act
act_lem delete_row now id i f c c' db disk s e e' p gone h =
    ground (arith, e', lookup-erase id i db.clips, other_owner id i f c c' db disk e e' p gone h)
act_lem keep_row_mark_deleted now id i f c c' db disk s e e' p gone h = ground (
  arith,
  e',
  lookup-insert id i (record c { file_deleted_at = some now }) db.clips,
  other_owner id i f c c' db disk e e' p gone h,
)
act_lem retry_later now id i f c c' db disk s e e' p gone h = e'

planned : (b : Bool) (r : FileDeleteResult) → r ≡ error → plan_clip_action b r ≡ retry_later
unfolding plan_clip_action
planned b r h = rw h refl

file_lem :
    (unlink_fails : ℕ → Bool) (path f : ℕ) (disk : IdSet)
    → let r = delete_clip_file unlink_fails path disk in
      (member f r.1 ≡ true → member f disk ≡ true) × ((r.0 ≡ error) ⊎ (member path r.1 ≡ false))
unfolding delete_clip_file
file_lem unlink_fails path f disk = elim (Bool-cases (member path disk)) [
  | inr m ↦ rw m (λ h. h, inr m)
  | inl m ↦ elim (Bool-cases (unlink_fails path)) [
    | inl u ↦ rw (m, u) (λ h. h, inl refl)
    | inr u ↦
        rw (m, u)
          (
            λ h. ground (arith, h, member-discard path f disk),
            inr (ground (arith, member-discard path path disk)),
          )
  ]
]

row_NoOrphan :
    (unlink_fails : ℕ → Bool) (now id : ℕ) (o : Option Clip) (db : Db) (s : Summary)
    → lookup id db.clips ≡ o
    → NoOrphan db
    → NoOrphan (sweep_row unlink_fails now id o db s).0
unfolding sweep_row
row_NoOrphan unlink_fails now id none db s e k f h = k f h
row_NoOrphan unlink_fails now id (some c) db s e k f h =
    let r = delete_clip_file unlink_fails c.storage_path db.disk in
    let (before, outcome) = file_lem unlink_fails c.storage_path f db.disk in
    let (i, c', found, path, live) = k f (before h) in
    let a = plan_clip_action (has_alerts id db.alerts) r.0 in
    let still : lookup i (act a now id c db.clips (count_file r.0 s)).0 ≡ some c' = elim outcome [
      | inl stuck ↦
          let later : a ≡ retry_later = planned (has_alerts id db.alerts) r.0 stuck in
          ap (λ x. lookup i (act x now id c db.clips (count_file r.0 s)).0) later ∙ found
      | inr gone ↦ act_lem a now id i f c c' db r.1 (count_file r.0 s) e found path gone h
    ] in
    (i, c', still, path, live)

-- The loop over the clips.
loop_Keeps :
    (unlink_fails : ℕ → Bool) (now : ℕ) (ids : List ℕ) (db : Db) (s : Summary)
    → AlertsKept db
    → NoOrphan db
    → AlertsKept (sweep_clips unlink_fails now ids db s).0
      × NoOrphan (sweep_clips unlink_fails now ids db s).0
unfolding sweep_clips
loop_Keeps unlink_fails now [] db s a k = (a, k)
loop_Keeps unlink_fails now (id ∷ ids) db s a k =
    let (db', s') = sweep_row unlink_fails now id (lookup id db.clips) db s in
    loop_Keeps unlink_fails now ids db' s'
      (row_AlertsKept unlink_fails now id (lookup id db.clips) db s a)
      (row_NoOrphan unlink_fails now id (lookup id db.clips) db s refl k)

-- Where every alert has its clip row and every file on disk an undeleted clip row, a retention pass
-- over the clips keeps both so, whatever files the system refuses to remove: it deletes no row that an
-- alert refers to and orphans no file.
pub sweep_expired-Keeps :
    (unlink_fails : ℕ → Bool) (now : ℕ) (days : ℤ) (db : Db)
    → AlertsKept db
    → NoOrphan db
    → AlertsKept (sweep_expired unlink_fails now days db).0
      × NoOrphan (sweep_expired unlink_fails now days db).0
unfolding sweep_expired sweep_before
sweep_expired-Keeps unlink_fails now days db a k = go (retention_cutoff now days)
  where
    go :
        (o : Option ℕ)
        → AlertsKept (sweep_before unlink_fails now o db).0
          × NoOrphan (sweep_before unlink_fails now o db).0
    go none = (a, k)
    go (some cutoff) = loop_Keeps unlink_fails now (expired_clips cutoff db.clips) db no_counts a k
