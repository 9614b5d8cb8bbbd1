-- ===== src/Cameras/Reach.antt =====
-- The rows that the operations on cameras reach, in any order, with their invariant.
use sentry_backend.Base.{
  ℕ, ◌≡◌, ap, ◌&&◌, Option, none, some, List, [], ◌∷◌, ◌==◌, arith, Bool-cases, Option-cases, inl,
  inr,
}
use sentry_backend.Base.Lists.{find_by, some_inj}
use sentry_backend.Base.Eq.{nat_eq}
use sentry_backend.Base.Keyed.{find_by-own}
use sentry_backend.Base.Text.{Text, text_eq}
use sentry_backend.Base.Action.{Result, ok, err}
use sentry_backend.Cameras.{
  CameraRow, CameraDb, NewCamera, get_camera, get_camera_by_store_path, store_belongs_to_org, paths,
  create_camera,
}
use sentry_backend.Cameras.Handlers.{
  Edit, update_camera, delete_camera, PairedAgent, existing_camera, or_conflict, register_on,
  agent_register_camera, in_hand, own_camera, edit_own, agent_update_camera, delete_own,
  agent_delete_camera, refreshed,
}
use sentry_backend.Cameras.Kept.{Inv, delete_camera-Inv, update_camera-Inv, create_camera-Inv}

pub own_camera-row :
    (agent : PairedAgent) (id : ℕ) (c : CameraRow) (db : CameraDb)
    → own_camera agent id db ≡ some c
    → (get_camera id db.cameras ≡ some c) × (c.store_id ≡ agent.store_id)
unfolding own_camera
own_camera-row agent id c db h = go (get_camera id db.cameras) h
  where
    go :
        (o : Option CameraRow)
        → in_hand agent db o ≡ some c
        → (o ≡ some c) × (c.store_id ≡ agent.store_id)
    go none h = ground (arith, h)
    go (some d) h =
        elim (Bool-cases (
          store_belongs_to_org d.store_id agent.organization_id db
          && d.store_id == agent.store_id)) [
            | inl own ↦
                let e : d ≡ c = some_inj (rw own at h) in
                (ap (λ r. some r) e, ground (arith, own, ap (λ r. r.store_id) e))
            | inr other ↦ ground (arith, other, rw other at h)
          ]

pub get_camera-id :
    (id : ℕ) (c : CameraRow) (cams : List CameraRow) → get_camera id cams ≡ some c → c.id ≡ id
unfolding get_camera
get_camera-id id c [] h = ground (arith, h)
get_camera-id id c (d ∷ cams) h = elim (Bool-cases (d.id == id)) [
  | inl hit ↦ ground (arith, hit, ap (λ r. r.id) (some_inj (rw (find_by, hit) at h)))
  | inr miss ↦ get_camera-id id c cams (rw (find_by, miss) at h)
]

pub row_of_id :
    (id : ℕ) (c : CameraRow) (cams : List CameraRow)
    → get_camera id cams ≡ some c
    → get_camera c.id cams ≡ some c
unfolding get_camera
row_of_id id c [] h = ground (arith, h)
row_of_id id c (d ∷ cams) h = elim (Bool-cases (d.id == id)) [
  | inl hit ↦ row_head d c cams (some_inj (rw (find_by, hit) at h))
  | inr miss ↦ ground (
    arith,
    row_of_id id c cams (rw (find_by, miss) at h),
    miss,
    get_camera-id id c cams (rw (find_by, miss) at h),
  )
]
  where
    row_head :
        (d c : CameraRow) (cams : List CameraRow)
        → d ≡ c
        → find_by (λ r. r.id == c.id) (d ∷ cams) ≡ some c
    row_head d c cams e = ground (arith, ap (λ r. r.id) e, e)

existing_camera-row :
    (store_id : ℕ) (path : Option Text) (c : CameraRow) (db : CameraDb)
    → Inv db
    → existing_camera store_id path db ≡ some c
    → get_camera c.id db.cameras ≡ some c
unfolding existing_camera get_camera_by_store_path get_camera
existing_camera-row store_id none c db i h = ground (arith, h)
existing_camera-row store_id (some []) c db i h = ground (arith, h)
existing_camera-row store_id (some (a ∷ t)) c db i h =
    find_by-own (λ r. r.id) _ db.cameras c i.keyed h

agent_register_camera-Inv :
    (agent : PairedAgent) (new : NewCamera) (db : CameraDb)
    → Inv db
    → Inv (agent_register_camera agent new db).1
unfolding agent_register_camera register_on or_conflict
agent_register_camera-Inv agent new db i =
    elim (Option-cases (existing_camera agent.store_id new.mediamtx_path db)) [
      | inl nothing ↦ rw nothing (
          kept (create_camera agent.store_id agent.organization_id new db)
            (create_camera-Inv agent.store_id agent.organization_id new db i))
      | inr (c, found) ↦ rw found (
          update_camera-Inv (refreshed new) c db
            (existing_camera-row agent.store_id new.mediamtx_path c db i found) i)
    ]
  where
    kept : (r : Result (Option CameraRow) × CameraDb) → Inv r.1 → Inv (or_conflict r).1
    kept (err e, db) i = i
    kept (ok none, db) i = i
    kept (ok (some c), db) i = i

agent_update_camera-Inv :
    (agent : PairedAgent) (id : ℕ) (e : Edit) (db : CameraDb)
    → Inv db
    → Inv (agent_update_camera agent id e db).1
unfolding agent_update_camera edit_own
agent_update_camera-Inv agent id e db i = elim (Option-cases (own_camera agent id db)) [
  | inl nothing ↦ rw nothing i
  | inr (c, found) ↦ rw found (
      update_camera-Inv (record e { mediamtx_path = none }) c db
        (row_of_id id c db.cameras (own_camera-row agent id c db found).0) i)
]

agent_delete_camera-Inv :
    (agent : PairedAgent) (id : ℕ) (db : CameraDb)
    → Inv db
    → Inv (agent_delete_camera agent id db).1
unfolding agent_delete_camera delete_own
agent_delete_camera-Inv agent id db i = elim (Option-cases (own_camera agent id db)) [
  | inl nothing ↦ rw nothing i
  | inr (c, found) ↦ rw found (delete_camera-Inv c.id db i)
]

-- One operation of a user or of a paired computer.
pub data Step : CameraDb → CameraDb → Type 0 where
  creates :
      {db : CameraDb} (store_id org_id : ℕ) (new : NewCamera)
      → Step db (create_camera store_id org_id new db).1
  edits :
      {db : CameraDb} (e : Edit) (c : CameraRow)
      → get_camera c.id db.cameras ≡ some c
      → Step db (update_camera e c db).1
  deletes : {db : CameraDb} (id : ℕ) → Step db (delete_camera id db)
  registers :
      {db : CameraDb} (agent : PairedAgent) (new : NewCamera)
      → Step db (agent_register_camera agent new db).1
  agent_edits :
      {db : CameraDb} (agent : PairedAgent) (id : ℕ) (e : Edit)
      → Step db (agent_update_camera agent id e db).1
  agent_deletes :
      {db : CameraDb} (agent : PairedAgent) (id : ℕ) → Step db (agent_delete_camera agent id db).1

-- The databases that come about from one without cameras.
pub data Reached : CameraDb → Type 0 where
  starts : {db : CameraDb} → db.cameras ≡ [] → Reached db
  then_step : {db db' : CameraDb} → Reached db → Step db db' → Reached db'

Step-Inv : {db db' : CameraDb} → Step db db' → Inv db → Inv db'
Step-Inv {db} (creates store_id org_id new) i = create_camera-Inv store_id org_id new db i
Step-Inv {db} (edits e c row) i = update_camera-Inv e c db row i
Step-Inv {db} (deletes id) i = delete_camera-Inv id db i
Step-Inv {db} (registers agent new) i = agent_register_camera-Inv agent new db i
Step-Inv {db} (agent_edits agent id e) i = agent_update_camera-Inv agent id e db i
Step-Inv {db} (agent_deletes agent id) i = agent_delete_camera-Inv agent id db i

-- Whatever users and paired computers do with cameras, in any order, no two cameras ever have an id
-- or a stream path in common.
pub Reached-Inv : {db : CameraDb} → Reached db → Inv db
unfolding paths
Reached-Inv (starts none_yet) = record {
  keyed = rw none_yet tt;
  new_id = rw none_yet tt;
  apart = rw none_yet tt;
}
Reached-Inv (then_step before step) = Step-Inv step (Reached-Inv before)
