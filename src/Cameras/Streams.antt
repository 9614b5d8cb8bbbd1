-- ===== src/Cameras/Streams.antt =====
-- Theorems on the handlers of api/v1/agents.py that give stream tokens and register cameras.
use sentry_backend.Base.{
  ℕ, ◌≡◌, refl, ap, sym, subst, Bool, true, ◌&&◌, Option, none, some, List, [], ◌∷◌, ◌==◌, arith,
  Bool-cases, inl, inr,
}
use sentry_backend.Base.Lists.{find_by, some_inj}
use sentry_backend.Base.Text.{Text, text_beq_iff}
use sentry_backend.Base.Action.{Result, ok, ok-injective}
use sentry_backend.Billing.Models.{Db, Time}
use sentry_backend.Billing.Status.{BillingStatus, active, credit, suspended, org_billing_status}
use sentry_backend.Auth.{Jwt, JwtLaws, Uuid, Settings}
use sentry_backend.Auth.Token.{create_stream_token}
use sentry_backend.Auth.Media.{stream_token_allows, stream_token_allows-create}
use sentry_backend.Cameras.{
  CameraRow, CameraDb, NewCamera, get_camera, put_row, on_path, get_camera_by_store_path,
}
use sentry_backend.Cameras.Paths.{paths_apart}
use sentry_backend.Cameras.Kept.{ids, ids-put_row}
use sentry_backend.Cameras.Reach.{Reached, Reached-Inv, own_camera-row, get_camera-id, row_of_id}
use sentry_backend.Cameras.Handlers.{
  PairedAgent, own_camera, path_token, token_for, unless_suspended, agent_camera_stream_token,
  existing_camera, agent_register_camera, register_on, update_camera, refreshed, edited,
  edited_path,
}

module _ (j : Jwt) (u : Uuid) (settings : Settings) where
  not_suspended :
      (status : BillingStatus) (answer : Result Text) (token : Text)
      → unless_suspended j u settings status answer ≡ ok token
      → (answer ≡ ok token) × ((status ≡ suspended) → ⊥)
  unfolding unless_suspended
  not_suspended suspended answer token h = ground (arith, h)
  not_suspended active answer token h = (h, λ e. ground (arith, e))
  not_suspended credit answer token h = (h, λ e. ground (arith, e))

  token_path :
      (now : ℕ) (o : Option Text) (token : Text)
      → path_token j u settings now o ≡ ok token
      → (p : Text) × (o ≡ some p) × (create_stream_token j u settings now p ≡ token)
  unfolding path_token
  token_path now none token h = ground (arith, h)
  token_path now (some []) token h = ground (arith, h)
  token_path now (some (c ∷ p)) token h = (c ∷ p, refl, ok-injective h)

  token_row :
      (now : ℕ) (o : Option CameraRow) (token : Text)
      → token_for j u settings now o ≡ ok token
      → (a : CameraRow) × (o ≡ some a)
        × (p : Text) × (a.mediamtx_path ≡ some p)
        × (create_stream_token j u settings now p ≡ token)
  unfolding token_for
  token_row now none token h = ground (arith, h)
  token_row now (some a) token h =
      let (p, e, minted) = token_path now a.mediamtx_path token h in (a, refl, p, e, minted)

  -- In every database that comes about, a computer gets a stream token only for a camera of its own
  -- store, while its organization is not suspended, and the token reads no other camera's stream.
  pub agent_camera_stream_token-Isolated :
      JwtLaws j
      → (db : CameraDb) → Reached db
      → (billing : Db) (at : Time) (now later : ℕ) (agent : PairedAgent) (id : ℕ) (token : Text)
      → agent_camera_stream_token j u settings billing at now agent id db ≡ ok token
      → ((org_billing_status billing agent.organization_id at ≡ suspended) → ⊥)
        × ((a : CameraRow) × (get_camera id db.cameras ≡ some a) × (a.store_id ≡ agent.store_id))
        × ((b : CameraRow) (q : Text)
            → get_camera b.id db.cameras ≡ some b
            → b.mediamtx_path ≡ some q
            → stream_token_allows j u settings later token q ≡ true
            → b.id ≡ id)
  unfolding agent_camera_stream_token
  agent_camera_stream_token-Isolated laws db reached billing at now later agent id token h =
      let (answered, paid) =
        not_suspended (org_billing_status billing agent.organization_id at)
          (token_for j u settings now (own_camera agent id db)) token h in
      let (a, owned, p, pa, minted) = token_row now (own_camera agent id db) token answered in
      let (row, store) = own_camera-row agent id a db owned in
      (
        paid,
        (a, row, store),
        λ b q row_b pb allowed. elim (Bool-cases (a.id == b.id)) [
          | inl same ↦ ground (arith, same, get_camera-id id a db.cameras row)
          | inr other ↦
              let reads = (stream_token_allows-create j u settings laws now later p q).0 (
                subst (λ t. stream_token_allows j u settings later t q ≡ true) (sym minted)
                  allowed) in
              let apart =
                paths_apart a b p q db.cameras (row_of_id id a db.cameras row) row_b other pa pb
                  (Reached-Inv reached).apart in
              ground (arith, (text_beq_iff p q).1 reads.0, apart)
        ],
      )

find_passes :
    (p : CameraRow → Bool) (cams : List CameraRow) (c : CameraRow)
    → find_by p cams ≡ some c
    → p c ≡ true
find_passes p [] c h = ground (arith, h)
find_passes p (d ∷ cams) c h = elim (Bool-cases (p d)) [
  | inl hit ↦ subst (λ r. p r ≡ true) (some_inj (rw (find_by, hit) at h)) hit
  | inr miss ↦ find_passes p cams c (rw (find_by, miss) at h)
]

-- A test that finds a row finds the row written in its place, if this passes it.
find_by-put_row :
    (p : CameraRow → Bool) (new c : CameraRow) (cams : List CameraRow)
    → new.id ≡ c.id
    → p new ≡ true
    → find_by p cams ≡ some c
    → find_by p (put_row new cams) ≡ some new
unfolding put_row
find_by-put_row p new c [] same good h = ground (arith, h)
find_by-put_row p new c (d ∷ cams) same good h = elim (Bool-cases (d.id == new.id)) [
  | inl here ↦ rw (here, find_by, good) refl
  | inr away ↦ elim (Bool-cases (p d)) [
    | inl hit ↦ ground (arith, away, same, ap (λ r. r.id) (some_inj (rw (find_by, hit) at h)))
    | inr miss ↦
        rw (away, find_by, miss) (find_by-put_row p new c cams same good (rw (find_by, miss) at h))
  ]
]

still_found :
    (store_id : ℕ) (path : Option Text) (c d : CameraRow) (db : CameraDb)
    → d.id ≡ c.id
    → d.store_id ≡ c.store_id
    → d.mediamtx_path ≡ c.mediamtx_path
    → existing_camera store_id path db ≡ some c
    → existing_camera store_id path (record db { cameras = put_row d db.cameras }) ≡ some d
unfolding existing_camera get_camera_by_store_path
still_found store_id none c d db ids_same store_same path_same h = ground (arith, h)
still_found store_id (some []) c d db ids_same store_same path_same h = ground (arith, h)
still_found store_id (some (a ∷ t)) c d db ids_same store_same path_same h =
    let p : CameraRow → Bool = λ r. r.store_id == store_id && on_path (a ∷ t) r in
    let good : p d ≡ true = rw (store_same, path_same) (find_passes p db.cameras c h) in
    find_by-put_row p d c db.cameras ids_same good h

-- Registering a camera that the store has on this path again writes the row in place: it keeps its id,
-- its path, its compute tier and whether it is enabled, takes the name and the threshold that are
-- sent, and stays the one that is found on the path.
pub agent_register_camera-Refreshes :
    (agent : PairedAgent) (new : NewCamera) (db : CameraDb) (c : CameraRow)
    → existing_camera agent.store_id new.mediamtx_path db ≡ some c
    → let r = agent_register_camera agent new db in
      (d : CameraRow) × (r.0 ≡ ok d)
      × (d.id ≡ c.id)
      × (d.mediamtx_path ≡ c.mediamtx_path)
      × (d.compute_tier ≡ c.compute_tier)
      × (d.enabled ≡ c.enabled)
      × (d.name ≡ new.name)
      × (d.risk_threshold ≡ new.risk_threshold)
      × (ids r.1.cameras ≡ ids db.cameras)
      × (existing_camera agent.store_id new.mediamtx_path r.1 ≡ some d)
unfolding agent_register_camera register_on update_camera edited_path
agent_register_camera-Refreshes agent new db c h =
    let d = edited (refreshed new) c.mediamtx_path c in
    rw h (
      d,
      refl,
      refl,
      refl,
      refl,
      refl,
      refl,
      refl,
      ids-put_row d db.cameras,
      still_found agent.store_id new.mediamtx_path c d db refl refl refl h,
    )
