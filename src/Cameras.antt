-- ===== src/Cameras.antt =====
-- repository/camera_repo.py and the camera handlers of a paired computer in api/v1/agents.py. The URL of a
-- camera is kept as it is: its encryption at rest is left out. A query that the unique constraint on
-- the path or the primary key limits to one row takes the first.
pub mod Free
pub mod Paths
pub mod Slugs
pub mod Handlers
pub mod Kept
pub mod Reach
pub mod Streams
mod Tests
use sentry_backend.Base.{
  ℕ, zero, suc, ◌+◌, Bool, true, false, not, ◌&&◌, ◌||◌, Option, none, some, List, [], ◌∷◌, ◌++◌,
  leb, ltb, ◌==◌, if◌then◌else◌, is_some,
}
use sentry_backend.Base.Lists.{length, take, find_by, filter_by}
use sentry_backend.Base.Eq.{Eq}
use sentry_backend.Base.Sets.{member}
use sentry_backend.Base.Text.{Text, text_beq, text_eq, digits}
use sentry_backend.Base.Action.{Action, Result, ok, err, http}

pub data ComputeTier : Type 0 where
  cloud edge_pc edge_device : ComputeTier

-- Zones are known by numbers.
pub record CameraRow : Type 0 where
  pub id : ℕ
  pub store_id : ℕ
  pub name : Text
  pub rtsp_url : Option Text
  pub shelf_zone : Option ℕ
  pub stage2_threshold : ℕ
  pub enabled : Bool
  pub mediamtx_path : Option Text
  pub risk_threshold : ℕ
  pub compute_tier : ComputeTier
  pub zones : Option (List ℕ)

pub record StoreRow : Type 0 where
  pub id : ℕ
  pub organization_id : ℕ

pub record CameraDb : Type 0 where
  pub stores : List StoreRow
  pub cameras : List CameraRow
  pub next_id : ℕ

unfoldable pub store_belongs_to_org : ℕ → ℕ → CameraDb → Bool
store_belongs_to_org store_id org_id db =
    is_some (find_by (λ s. s.id == store_id && s.organization_id == org_id) db.stores)

unfoldable pub get_camera : ℕ → List CameraRow → Option CameraRow
get_camera id cams = find_by (λ c. c.id == id) cams

abbrev of_org : ℕ → CameraDb → CameraRow → Bool
of_org org_id db c = store_belongs_to_org c.store_id org_id db

unfoldable pub get_camera_for_org : ℕ → ℕ → CameraDb → Option CameraRow
unfolding store_belongs_to_org
get_camera_for_org camera_id org_id db =
    find_by (λ c. c.id == camera_id && of_org org_id db c) db.cameras

abbrev pub on_path : Text → CameraRow → Bool
on_path path c = elim c.mediamtx_path [ none ↦ false | some p ↦ text_beq p path ]

unfoldable pub get_camera_by_store_path : ℕ → Text → CameraDb → Option CameraRow
get_camera_by_store_path store_id path db =
    find_by (λ c. c.store_id == store_id && on_path path c) db.cameras

-- `[a-zA-Z0-9_]`
abbrev pub is_word : ℕ → Bool
is_word c = leb 48 c && leb c 57 || leb 65 c && leb c 90 || leb 97 c && leb c 122 || c == 95

-- `str.lower` as far as a word character comes out: A to Z, the Kelvin sign, and the I with a dot, whose
-- dot follows it.
abbrev lower_char : ℕ → Text
lower_char c =
    if leb 65 c && leb c 90
    then (c + 32) ∷ []
    else if c == 8490
    then 107 ∷ []
    else if c == 304
    then 105 ∷ 775 ∷ []
    else c ∷ []

lower_text : Text → Text
lower_text [] = []
lower_text (c ∷ t) = lower_char c ++ lower_text t

-- `re.sub(r"[^a-zA-Z0-9_]+", "_", text)`, before a run and within one.
unfoldable pub collapse : Bool → Text → Text
collapse in_run [] = []
collapse in_run (c ∷ t) =
    let after = collapse false t in
    let within = collapse true t in
    if is_word c then c ∷ after else if in_run then within else 95 ∷ within

unfoldable pub strip_start : Text → Text
strip_start [] = []
strip_start (c ∷ t) = let rest = strip_start t in if c == 95 then rest else c ∷ t

strip_end : Text → Text
strip_end [] = []
strip_end (c ∷ t) =
    let rest = strip_end t in
    elim rest [ [] ↦ if c == 95 then [] else c ∷ [] | d ∷ more ↦ c ∷ d ∷ more ]

abbrev pub or_cam : Text → Text
or_cam [] = 99 ∷ 97 ∷ 109 ∷ []
or_cam (c ∷ t) = c ∷ t

-- Spaces at the ends become underscores and are stripped as these are.
unfoldable pub slugify : Text → Text
unfolding lower_text collapse strip_start strip_end
slugify text = or_cam (take 50 (strip_end (strip_start (collapse false (lower_text text)))))

abbrev pub with_path : Option Text → List Text → List Text
with_path none taken = taken
with_path (some p) taken = p ∷ taken

unfoldable pub paths : List CameraRow → List Text
paths [] = []
paths (c ∷ cams) = with_path c.mediamtx_path (paths cams)

-- `flush` of a changed row, and `delete`.
unfoldable pub put_row : CameraRow → List CameraRow → List CameraRow
put_row new [] = []
put_row new (c ∷ cams) =
    let rest = put_row new cams in if c.id == new.id then new ∷ cams else c ∷ rest

unfoldable pub remove_row : ℕ → List CameraRow → List CameraRow
remove_row id [] = []
remove_row id (c ∷ cams) = let rest = remove_row id cams in if c.id == id then cams else c ∷ rest

-- f"{preferred}_{i}"
abbrev pub candidate : Text → ℕ → Text
candidate preferred i = preferred ++ (95 ∷ digits i)

-- The loop over i; `none` once the fuel is used up.
unfoldable pub first_free : ℕ → Text → ℕ → List Text → Option Text
first_free zero preferred i taken = none
first_free (suc fuel) preferred i taken =
    let rest = first_free fuel preferred (suc i) taken in
    if member (candidate preferred i) taken then rest else some (candidate preferred i)

unfoldable pub allocate_mediamtx_path : Text → List Text → Option Text
unfolding first_free
allocate_mediamtx_path preferred taken =
    if member preferred taken
    then first_free (suc (length taken)) preferred 2 taken
    else some preferred

-- The `or` of Python: an empty text or list is false.
abbrev pub or_name : Option Text → Text → Text
or_name none name = slugify name
or_name (some []) name = slugify name
or_name (some (c ∷ t)) name = c ∷ t

abbrev pub non_empty : {A : Type 0} → Option (List A) → Option (List A)
non_empty (some (x ∷ xs)) = some (x ∷ xs)
non_empty (some []) = none
non_empty none = none

pub record NewCamera : Type 0 where
  pub name : Text
  pub rtsp_url : Option Text
  pub shelf_zone : Option ℕ
  pub stage2_threshold : ℕ
  pub enabled : Bool
  pub mediamtx_path : Option Text
  pub risk_threshold : ℕ
  pub compute_tier : ComputeTier
  pub zones : Option (List ℕ)

unfoldable pub add_camera : ℕ → NewCamera → Option Text → Action CameraDb (Option CameraRow)
add_camera store_id new none db = (err (http 500), db)
add_camera store_id new (some path) db =
    let c : CameraRow = record {
      id = db.next_id;
      store_id = store_id;
      name = new.name;
      rtsp_url = non_empty new.rtsp_url;
      shelf_zone = new.shelf_zone;
      stage2_threshold = new.stage2_threshold;
      enabled = new.enabled;
      mediamtx_path = some path;
      risk_threshold = new.risk_threshold;
      compute_tier = new.compute_tier;
      zones = non_empty new.zones;
    } in
    (ok (some c), record db { cameras = c ∷ db.cameras; next_id = suc db.next_id })

unfoldable pub create_camera : ℕ → ℕ → NewCamera → Action CameraDb (Option CameraRow)
unfolding add_camera allocate_mediamtx_path paths slugify store_belongs_to_org
create_camera store_id org_id new db =
    if store_belongs_to_org store_id org_id db
    then add_camera store_id new
        (allocate_mediamtx_path (or_name new.mediamtx_path new.name) (paths db.cameras)) db
    else (ok none, db)
