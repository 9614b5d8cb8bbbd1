-- ===== src/Evidence/Live.antt =====
-- create_live_alert of services/threshold_handler.py, with the debounce query of
-- repository/alert_repo.py. The texts, scores, embedding and hash of an alert, the activity log and the
-- notification are left out; the returned alert is what the broker publishes.
use sentry_backend.Base.{
  ℕ, suc, ◌+◌, ◌*◌, ◌≤◌, ◌≡◌, refl, subst, ap, ◌∙◌, Bool, true, false, ◌&&◌, ◌||◌, Option, none,
  some, [], ◌∷◌, ltb, leb, ◌==◌, if◌then◌else◌, arith, Bool-cases, inl, inr,
}
use sentry_backend.Base.Dict.{Dict, lookup, insert, lookup-insert}
use sentry_backend.Base.Eq.{nat_eq}
use sentry_backend.Base.Sets.{add}
use sentry_backend.Evidence.{Camera, Clip, Alert, Db}
use sentry_backend.Evidence.Level.{AlertCategory, AlertLevel, derive_alert_level, level_order}

pub record LiveAlert : Type 0 where
  pub mediamtx_path : ℕ
  pub clip_size : ℕ
  pub category : AlertCategory
  pub confidence : ℕ
  pub person_id : Option ℕ
  pub now : ℕ

pub record Settings : Type 0 where
  pub live_breach_cooldown : ℕ
  pub max_clip_size_mb : ℕ

-- The camera whose path it is, with its id.
unfoldable pub resolve_camera : ℕ → Dict Camera → Option (ℕ × Camera)
resolve_camera path [] = none
resolve_camera path ((i, c) ∷ cams) =
    let rest = resolve_camera path cams in if c.mediamtx_path == path then some (i, c) else rest

abbrev same_person : Option ℕ → ℕ → Bool
same_person none p = false
same_person (some q) p = q == p

-- `created_at >= now - within`
abbrev is_recent : ℕ → ℕ → ℕ → ℕ → AlertLevel → Alert → Bool
is_recent camera_id person_id within now level a =
    a.camera_id == camera_id
    && same_person a.person_id person_id
    && a.live_threshold
    && leb (level_order level) (level_order a.alert_level)
    && leb now (a.created_at + within)

unfoldable pub recent_live_alert_exists : ℕ → ℕ → ℕ → ℕ → AlertLevel → Dict Alert → Bool
recent_live_alert_exists camera_id person_id within now level [] = false
recent_live_alert_exists camera_id person_id within now level ((i, a) ∷ alerts) =
    is_recent camera_id person_id within now level a
    || recent_live_alert_exists camera_id person_id within now level alerts

-- An alert with no person is not debounced.
debounced : Settings → LiveAlert → ℕ → AlertLevel → Option ℕ → Dict Alert → Bool
unfolding recent_live_alert_exists
debounced cfg r camera level none alerts = false
debounced cfg r camera level (some p) alerts =
    recent_live_alert_exists camera p cfg.live_breach_cooldown r.now level alerts

abbrev is_ignored : AlertLevel → Bool
is_ignored l = leb (level_order l) 0

-- The checks before the file is written: the camera's id, or `none` where the request ends.
unfoldable pub admit : Settings → LiveAlert → Option (ℕ × Camera) → Dict Alert → Option ℕ
unfolding debounced derive_alert_level
admit cfg r none alerts = none
admit cfg r (some (camera, c)) alerts =
    let level = derive_alert_level r.category r.confidence in
    if is_ignored level
    then none
    else if debounced cfg r camera level r.person_id alerts
    then none
    else if ltb (cfg.max_clip_size_mb * 1_048_576) r.clip_size
    then none
    else some camera

unfoldable pub write_file : Db → Db
write_file db = record db { disk = add db.fresh db.disk; fresh = suc db.fresh }

abbrev pub live_clip : LiveAlert → ℕ → ℕ → Camera → ℕ → Clip
live_clip r path camera c org = record {
  organization_id = org;
  store_id = c.store_id;
  camera_id = camera;
  storage_path = path;
  created_at = r.now;
  file_deleted_at = none;
}

abbrev pub live_alert : LiveAlert → ℕ → ℕ → Camera → ℕ → Alert
live_alert r clip camera c org = record {
  clip_id = clip;
  organization_id = org;
  store_id = c.store_id;
  camera_id = camera;
  category = r.category;
  alert_level = derive_alert_level r.category r.confidence;
  confidence = r.confidence;
  live_threshold = true;
  person_id = r.person_id;
  created_at = r.now;
}

-- The transaction that adds the clip and its alert, with the camera and the store read again.
add_rows : LiveAlert → ℕ → ℕ → Option Camera → Option ℕ → Db → Option Alert × Db
add_rows r path camera none store db = (none, db)
add_rows r path camera (some c) none db = (none, db)
add_rows r path camera (some c) (some org) db =
    let a = live_alert r db.fresh camera c org in
    (
      some a,
      record db {
        clips = insert db.fresh (live_clip r path camera c org) db.clips;
        alerts = insert (suc db.fresh) a db.alerts;
        fresh = suc (suc db.fresh);
      },
    )

abbrev store_of : Option Camera → Dict ℕ → Option ℕ
store_of none stores = none
store_of (some c) stores = lookup c.store_id stores

unfoldable pub store_alert : LiveAlert → ℕ → ℕ → Db → Option Alert × Db
unfolding add_rows
store_alert r path camera db =
    let c = lookup camera db.cameras in add_rows r path camera c (store_of c db.stores) db

-- What follows the checks. `meanwhile` is what other requests do between the two sessions.
after_checks : (Db → Db) → LiveAlert → Option ℕ → Db → Option Alert × Db
unfolding write_file store_alert
after_checks meanwhile r none db = (none, db)
after_checks meanwhile r (some camera) db =
    store_alert r db.fresh camera (meanwhile (write_file db))

unfoldable pub create_live_alert : Settings → (Db → Db) → LiveAlert → Db → Option Alert × Db
unfolding admit after_checks resolve_camera
create_live_alert cfg meanwhile r db =
    after_checks meanwhile r (admit cfg r (resolve_camera r.mediamtx_path db.cameras) db.alerts) db

-- What a created alert satisfies in the database that the request leaves: it is of a level worth
-- keeping, it and its clip belong to the organization of the camera's store, and the debounce query
-- finds it.
abbrev pub IsSound : LiveAlert → Alert → Db → Type 0
IsSound r a db =
    (is_ignored a.alert_level ≡ false)
    × (lookup a.store_id db.stores ≡ some a.organization_id)
    × ((c : Clip) × (lookup a.clip_id db.clips ≡ some c)
        × (c.organization_id ≡ a.organization_id)
        × (c.store_id ≡ a.store_id)
        × (c.camera_id ≡ a.camera_id))
    × ((p within now : ℕ)
        → r.person_id ≡ some p
        → now ≤ r.now + within
        → (l : AlertLevel) → level_order l ≤ level_order a.alert_level
        → recent_live_alert_exists a.camera_id p within now l db.alerts ≡ true)

recent_insert :
    (camera p within now i : ℕ) (l : AlertLevel) (a : Alert) (d : Dict Alert)
    → is_recent camera p within now l a ≡ true
    → recent_live_alert_exists camera p within now l (insert i a d) ≡ true
unfolding recent_live_alert_exists insert
recent_insert camera p within now i l a [] h = ground (arith, h)
recent_insert camera p within now i l a ((j, b) ∷ d) h =
    ground (arith, h, recent_insert camera p within now i l a d h)

finds :
    (r : LiveAlert) (clip camera p within now : ℕ) (c : Camera) (org : ℕ) (l : AlertLevel)
    → r.person_id ≡ some p
    → now ≤ r.now + within
    → level_order l ≤ level_order (derive_alert_level r.category r.confidence)
    → is_recent camera p within now l (live_alert r clip camera c org) ≡ true
finds r clip camera p within now c org l e h k = rw e (ground (arith, h, k))

added-IsSound :
    (r : LiveAlert) (path camera : ℕ) (db : Db) (a : Alert) (c : Camera) (store : Option ℕ)
    → is_ignored (derive_alert_level r.category r.confidence) ≡ false
    → lookup c.store_id db.stores ≡ store
    → (add_rows r path camera (some c) store db).0 ≡ some a
    → IsSound r a (add_rows r path camera (some c) store db).1
unfolding add_rows
added-IsSound r path camera db a c none shown e h = cc
added-IsSound r path camera db a c (some org) shown e h =
    let new = live_alert r db.fresh camera c org in
    let after = (add_rows r path camera (some c) (some org) db).1 in
    let same : new ≡ a = cc in
    subst (λ x. IsSound r x after) same
      (
        shown,
        e,
        (
          live_clip r path camera c org,
          rw (lookup-insert db.fresh db.fresh (live_clip r path camera c org) db.clips)
              (ground arith),
          refl,
          refl,
          refl,
        ),
        λ p within now person soon l low.
            recent_insert camera p within now (suc db.fresh) l new db.alerts
              (finds r db.fresh camera p within now c org l person soon low),
      )

stored-IsSound :
    (r : LiveAlert) (path camera : ℕ) (db : Db) (a : Alert)
    → is_ignored (derive_alert_level r.category r.confidence) ≡ false
    → (store_alert r path camera db).0 ≡ some a
    → IsSound r a (store_alert r path camera db).1
unfolding store_alert add_rows
stored-IsSound r path camera db a shown h = go (lookup camera db.cameras) refl h
  where
    go :
        (c : Option Camera)
        → lookup camera db.cameras ≡ c
        → (add_rows r path camera c (store_of c db.stores) db).0 ≡ some a
        → IsSound r a (add_rows r path camera c (store_of c db.stores) db).1
    go none e h = cc
    go (some c) e h = added-IsSound r path camera db a c (lookup c.store_id db.stores) shown refl h

admit_shown :
    (cfg : Settings) (r : LiveAlert) (o : Option (ℕ × Camera)) (alerts : Dict Alert) (camera : ℕ)
    → admit cfg r o alerts ≡ some camera
    → is_ignored (derive_alert_level r.category r.confidence) ≡ false
unfolding admit
admit_shown cfg r none alerts camera h = cc
admit_shown cfg r (some (i, c)) alerts camera h =
    elim (Bool-cases (is_ignored (derive_alert_level r.category r.confidence))) [
      | inl e ↦ ground (arith, e, h)
      | inr e ↦ e
    ]

admit_debounced :
    (cfg : Settings) (r : LiveAlert) (camera p : ℕ) (c : Camera) (alerts : Dict Alert)
    → r.person_id ≡ some p
    → recent_live_alert_exists camera p cfg.live_breach_cooldown r.now
        (derive_alert_level r.category r.confidence)
        alerts
      ≡ true
    → admit cfg r (some (camera, c)) alerts ≡ none
unfolding admit debounced
admit_debounced cfg r camera p c alerts e h =
    elim (Bool-cases (is_ignored (derive_alert_level r.category r.confidence))) [
      | inl i ↦ rw i refl
      | inr i ↦ rw (i, e, h) refl
    ]

after-IsSound :
    (meanwhile : Db → Db) (r : LiveAlert) (o : Option ℕ) (db : Db) (a : Alert)
    → ((camera : ℕ)
        → o ≡ some camera
        → is_ignored (derive_alert_level r.category r.confidence) ≡ false)
    → (after_checks meanwhile r o db).0 ≡ some a
    → IsSound r a (after_checks meanwhile r o db).1
unfolding after_checks
after-IsSound meanwhile r none db a shown h = cc
after-IsSound meanwhile r (some camera) db a shown h =
    stored-IsSound r db.fresh camera (meanwhile (write_file db)) a (shown camera refl) h

-- Whatever other requests do meanwhile, an alert that the node's push creates is sound in the
-- database it leaves: its level is not ignore, its clip's row exists and both belong to the
-- organization of the camera's store, and the debounce query finds it for the cooldown.
pub create_live_alert-IsSound :
    (cfg : Settings) (meanwhile : Db → Db) (r : LiveAlert) (db : Db) (a : Alert)
    → (create_live_alert cfg meanwhile r db).0 ≡ some a
    → IsSound r a (create_live_alert cfg meanwhile r db).1
unfolding create_live_alert
create_live_alert-IsSound cfg meanwhile r db a h =
    let found = resolve_camera r.mediamtx_path db.cameras in
    after-IsSound meanwhile r (admit cfg r found db.alerts) db a (admit_shown cfg r found db.alerts)
      h

-- After an alert has been created, a push for the same person at the same camera within the cooldown
-- and at no higher a level creates nothing and leaves the database as it was.
pub create_live_alert-Debounced :
    (cfg : Settings) (meanwhile : Db → Db) (r r' : LiveAlert) (db : Db) (a : Alert) (p : ℕ)
    (c : Camera)
    → (create_live_alert cfg meanwhile r db).0 ≡ some a
    → r.person_id ≡ some p
    → r'.person_id ≡ some p
    → r'.now ≤ r.now + cfg.live_breach_cooldown
    → level_order (derive_alert_level r'.category r'.confidence) ≤ level_order a.alert_level
    → let db' = (create_live_alert cfg meanwhile r db).1 in
      resolve_camera r'.mediamtx_path db'.cameras ≡ some (a.camera_id, c)
      → create_live_alert cfg meanwhile r' db' ≡ (none, db')
unfolding create_live_alert after_checks
create_live_alert-Debounced cfg meanwhile r r' db a p c h e e' soon low found =
    let db' = (create_live_alert cfg meanwhile r db).1 in
    let sound = create_live_alert-IsSound cfg meanwhile r db a h in
    let recent =
      sound.3 p cfg.live_breach_cooldown r'.now e soon
        (derive_alert_level r'.category r'.confidence) low in
    ap (λ o. after_checks meanwhile r' o db')
      (ap (λ o. admit cfg r' o db'.alerts) found
        ∙ admit_debounced cfg r' a.camera_id p c db'.alerts e' recent)
