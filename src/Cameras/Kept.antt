-- ===== src/Cameras/Kept.antt =====
-- Lemmas on one change of the cameras' rows, with the invariant of the rows.
use sentry_backend.Base.{
  ℕ, suc, ◌<◌, ◌≡◌, ◌⊎◌, refl, ap, sym, subst, true, false, Option, none, some, List, [], ◌∷◌, map,
  ◌==◌, arith, Bool-cases, inl, inr,
}
use sentry_backend.Base.Lists.{All}
use sentry_backend.Base.Eq.{nat_eq}
use sentry_backend.Base.Sets.{member}
use sentry_backend.Base.Keyed.{Distinct}
use sentry_backend.Base.Text.{Text, text_eq}
use sentry_backend.Cameras.{
  CameraRow, CameraDb, NewCamera, get_camera, store_belongs_to_org, paths, put_row, remove_row,
  add_camera, create_camera, or_name,
}
use sentry_backend.Cameras.Free.{allocate_mediamtx_path-Fresh}
use sentry_backend.Cameras.Paths.{Renamed, put_row-Distinct, remove_row-Distinct}
use sentry_backend.Cameras.Handlers.{
  Edit, edited, edited_path, is_path, update_camera, delete_camera,
}

abbrev pub ids : List CameraRow → List ℕ
ids cams = map (λ c. c.id) cams

-- No two cameras have an id or a path in common, and the next id is new.
pub record Inv (db : CameraDb) : Type 0 where
  pub keyed : Distinct (ids db.cameras)
  pub new_id : All (λ i. i < db.next_id) (ids db.cameras)
  pub apart : Distinct (paths db.cameras)

unborn : (n : ℕ) (is : List ℕ) → All (λ i. i < n) is → member n is ≡ false
unfolding member
unborn n [] h = refl
unborn n (i ∷ is) h = ground (arith, h.0, unborn n is h.1)

younger : (n : ℕ) (is : List ℕ) → All (λ i. i < n) is → All (λ i. i < suc n) is
younger n [] h = tt
younger n (i ∷ is) h = (omega (arith, h.0), younger n is h.1)

pub ids-put_row : (new : CameraRow) (cams : List CameraRow) → ids (put_row new cams) ≡ ids cams
unfolding put_row
ids-put_row new [] = refl
ids-put_row new (c ∷ cams) = elim (Bool-cases (c.id == new.id)) [
  | inl hit ↦ rw hit (ap (λ i. i ∷ ids cams) (same_id c.id new.id hit))
  | inr miss ↦ rw miss (ap (λ is. c.id ∷ is) (ids-put_row new cams))
]
  where
    same_id : (a b : ℕ) → (a == b) ≡ true → b ≡ a
    same_id a b h = ground (arith, h)

free-remove_row :
    (n id : ℕ) (cams : List CameraRow)
    → member n (ids cams) ≡ false
    → member n (ids (remove_row id cams)) ≡ false
unfolding member remove_row
free-remove_row n id [] h = h
free-remove_row n id (c ∷ cams) h = elim (Bool-cases (c.id == id)) [
  | inl hit ↦ rw hit (ground (arith, h))
  | inr miss ↦ rw miss (ground (arith, h, free-remove_row n id cams))
]

keyed-remove_row :
    (id : ℕ) (cams : List CameraRow) → Distinct (ids cams) → Distinct (ids (remove_row id cams))
unfolding remove_row
keyed-remove_row id [] d = tt
keyed-remove_row id (c ∷ cams) d = elim (Bool-cases (c.id == id)) [
  | inl hit ↦ rw hit d.1
  | inr miss ↦ rw miss (free-remove_row c.id id cams d.0, keyed-remove_row id cams d.1)
]

bounded-remove_row :
    (n id : ℕ) (cams : List CameraRow)
    → All (λ i. i < n) (ids cams)
    → All (λ i. i < n) (ids (remove_row id cams))
unfolding remove_row
bounded-remove_row n id [] h = tt
bounded-remove_row n id (c ∷ cams) h = elim (Bool-cases (c.id == id)) [
  | inl hit ↦ rw hit h.1
  | inr miss ↦ rw miss (h.0, bounded-remove_row n id cams h.1)
]

pub delete_camera-Inv : (id : ℕ) (db : CameraDb) → Inv db → Inv (delete_camera id db)
unfolding delete_camera
delete_camera-Inv id db i = record {
  keyed = keyed-remove_row id db.cameras i.keyed;
  new_id = bounded-remove_row db.next_id id db.cameras i.new_id;
  apart = remove_row-Distinct id db.cameras i.apart;
}

edited_path-Renamed :
    (e : Edit) (c : CameraRow) (taken : List Text)
    → Renamed c (edited e (edited_path e.mediamtx_path c.mediamtx_path taken) c) taken
unfolding edited_path
edited_path-Renamed e c taken = go e.mediamtx_path
  where
    go :
        (o : Option Text)
        → (edited_path o c.mediamtx_path taken ≡ c.mediamtx_path)
          ⊎ ((p : Text) × (edited_path o c.mediamtx_path taken ≡ some p) × (member p taken ≡ false))
    go none = inl refl
    go (some p) = elim (Bool-cases (is_path c.mediamtx_path p)) [
      | inl same ↦ inl (rw same refl)
      | inr other ↦ inr (
          let (q, found, fresh, shape) = allocate_mediamtx_path-Fresh p taken in
          (q, rw other found, fresh))
    ]

pub update_camera-Inv :
    (e : Edit) (c : CameraRow) (db : CameraDb)
    → get_camera c.id db.cameras ≡ some c
    → Inv db
    → Inv (update_camera e c db).1
unfolding update_camera
update_camera-Inv e c db row i =
    let new = edited e (edited_path e.mediamtx_path c.mediamtx_path (paths db.cameras)) c in
    record {
      keyed = subst (λ is. Distinct is) (sym (ids-put_row new db.cameras)) i.keyed;
      new_id =
          subst (λ is. All (λ n. n < db.next_id) is) (sym (ids-put_row new db.cameras)) i.new_id;
      apart =
          put_row-Distinct c new db.cameras row (edited_path-Renamed e c (paths db.cameras))
            i.apart;
    }

pub create_camera-Inv :
    (store_id org_id : ℕ) (new : NewCamera) (db : CameraDb)
    → Inv db
    → Inv (create_camera store_id org_id new db).1
unfolding create_camera add_camera paths
create_camera-Inv store_id org_id new db i =
    elim (Bool-cases (store_belongs_to_org store_id org_id db)) [
      | inr other ↦ rw other i
      | inl own ↦
          let (p, found, fresh, shape) =
            allocate_mediamtx_path-Fresh (or_name new.mediamtx_path new.name) (paths db.cameras) in
          rw (own, found)
            (record {
              keyed = (unborn db.next_id (ids db.cameras) i.new_id, i.keyed);
              new_id = (omega arith, younger db.next_id (ids db.cameras) i.new_id);
              apart = (fresh, i.apart);
            })
    ]
