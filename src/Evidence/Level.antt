-- ===== src/Evidence/Level.antt =====
-- services/alert_service.py, `is_actionable` of services/alert_notify.py and the clip window of
-- services/threshold_handler.py. A confidence is a number of millionths; the window, which the code
-- computes in seconds with floats, is computed in exact milliseconds, and the settings are not
-- negative.
use sentry_backend.Base.{
  ℕ, suc, refl, ◌+◌, ◌-◌, ◌*◌, ◌/◌, ◌≤◌, ◌≡◌, ◌↔◌, Bool, true, false, Option, none, some, ltb, leb,
  if◌then◌else◌, arith, ◌⊎◌,
}
use sentry_backend.Base.Int.{ℤ, pos, ◌-ℤ◌, ◌+ℤ◌, int_laws}

pub data AlertCategory : Type 0 where
  browsing cart_pickup pocket_conceal bag_conceal other : AlertCategory

pub data AlertLevel : Type 0 where
  ignore log notify review : AlertLevel

by_confidence : ℕ → AlertLevel
by_confidence c =
    if ltb c 500_000
    then ignore
    else if leb 850_000 c
    then review
    else if leb 700_000 c
    then notify
    else log

unfoldable pub derive_alert_level : AlertCategory → ℕ → AlertLevel
unfolding by_confidence
derive_alert_level browsing c = ignore
derive_alert_level cart_pickup c = ignore
derive_alert_level other c = ignore
derive_alert_level pocket_conceal c = by_confidence c
derive_alert_level bag_conceal c = by_confidence c

abbrev pub is_actionable : AlertLevel → Bool
is_actionable notify = true
is_actionable review = true
is_actionable ignore = false
is_actionable log = false

-- The position in `_LEVEL_ORDER`.
abbrev pub level_order : AlertLevel → ℕ
level_order ignore = 0
level_order log = 1
level_order notify = 2
level_order review = 3

abbrev pub is_conceal : AlertCategory → Bool
is_conceal pocket_conceal = true
is_conceal bag_conceal = true
is_conceal browsing = false
is_conceal cart_pickup = false
is_conceal other = false

-- A verdict is actionable exactly if it is a concealment with a confidence of at least 0.70, it is
-- kept exactly if it is one with at least 0.50, and a higher confidence never lowers the level.
pub derive_alert_level-Grades :
    (c : AlertCategory) (p q : ℕ)
    → p ≤ q
    → ((is_actionable (derive_alert_level c p) ≡ true) ↔ ((is_conceal c ≡ true) × (700_000 ≤ p)))
      × (1 ≤ level_order (derive_alert_level c p) ↔ ((is_conceal c ≡ true) × (500_000 ≤ p)))
      × (level_order (derive_alert_level c p) ≤ level_order (derive_alert_level c q))
unfolding derive_alert_level by_confidence
derive_alert_level-Grades browsing p q h = ground (arith, h)
derive_alert_level-Grades cart_pickup p q h = ground (arith, h)
derive_alert_level-Grades other p q h = ground (arith, h)
derive_alert_level-Grades pocket_conceal p q h = ground (arith, h)
derive_alert_level-Grades bag_conceal p q h = ground (arith, h)

-- The pre-roll in milliseconds.
abbrev pub pre_ms : Option ℕ → Option ℕ → ℕ → ℕ
pre_ms (some breach) (some start) pre_pad_sec =
    if leb start breach then breach - start + 1000 * pre_pad_sec else 5000
pre_ms none start pre_pad_sec = 5000
pre_ms (some breach) none pre_pad_sec = 5000

abbrev min : ℕ → ℕ → ℕ
min a b = if leb a b then a else b

abbrev max : ℕ → ℕ → ℕ
max a b = if leb a b then b else a

unfoldable pub compute_clip_window : Option ℕ → Option ℕ → ℕ → ℕ → ℕ → ℤ × ℕ
compute_clip_window breach_ts_ms episode_started_ms pre_pad_sec post_roll_ms max_sec =
    let duration =
      (pre_ms breach_ts_ms episode_started_ms pre_pad_sec + post_roll_ms + 2000 + 999) / 1000 in
    let capped = max 5 (min max_sec duration) in (pos 0 -ℤ pos capped, capped)

cancel : (d : ℕ) → (pos 0 -ℤ pos d) +ℤ pos d ≡ pos 0
cancel d = omega int_laws

capped :
    (need max_sec : ℕ)
    → 5 ≤ max_sec
    → let d = max 5 (min max_sec ((need + 999) / 1000)) in
      (5 ≤ d)
      × (d ≤ max_sec)
      × ((need ≤ 1000 * d) ⊎ (d ≡ max_sec))
      × ((d ≡ 5) ⊎ (1000 * d ≤ need + 999))
capped need max_sec h = ground (arith, h)

-- How long before the breach a clip is to start, in milliseconds: `lead` and the padding when the
-- episode began `lead` before the breach, and 5 seconds when the breach or the beginning of the
-- episode is not known, or the episode would begin after the breach.
pub data PreRoll : Option ℕ → Option ℕ → ℕ → ℕ → Type 0 where
  whole_episode :
      (start lead pre_pad_sec : ℕ)
      → PreRoll (some (start + lead)) (some start) pre_pad_sec (lead + 1000 * pre_pad_sec)
  no_breach : (start : Option ℕ) (pre_pad_sec : ℕ) → PreRoll none start pre_pad_sec 5000
  no_start : (breach pre_pad_sec : ℕ) → PreRoll (some breach) none pre_pad_sec 5000
  late_start :
      (breach later pre_pad_sec : ℕ)
      → PreRoll (some breach) (some (breach + suc later)) pre_pad_sec 5000

pre_ms-PreRoll :
    {breach start : Option ℕ} {pad before : ℕ}
    → PreRoll breach start pad before
    → pre_ms breach start pad ≡ before
pre_ms-PreRoll (whole_episode start lead pad) = ground arith
pre_ms-PreRoll (no_breach start pad) = refl
pre_ms-PreRoll (no_start breach pad) = refl
pre_ms-PreRoll (late_start breach later pad) = ground arith

-- With a cap of at least 5 seconds, the window ends when the node cuts and lasts between 5 seconds
-- and the cap. Unless the cap trims it, it holds the pre-roll, the post-roll and two seconds of
-- slack, where the pre-roll is the episode up to the breach with its padding, or 5 seconds when that
-- is not known; and it is less than a second longer than these or lasts just the 5 seconds.
pub compute_clip_window-Covers :
    (breach start : Option ℕ) (pad post max_sec before : ℕ)
    → PreRoll breach start pad before
    → 5 ≤ max_sec
    → let w = compute_clip_window breach start pad post max_sec in
      (w.0 +ℤ pos w.1 ≡ pos 0)
      × (5 ≤ w.1)
      × (w.1 ≤ max_sec)
      × ((before + post + 2000 ≤ 1000 * w.1) ⊎ (w.1 ≡ max_sec))
      × ((w.1 ≡ 5) ⊎ (1000 * w.1 ≤ before + post + 2000 + 999))
unfolding compute_clip_window
compute_clip_window-Covers breach start pad post max_sec before roll h =
    let need = before + post + 2000 in
    let (low, high, covers, tight) = capped need max_sec h in
    rw (pre_ms-PreRoll roll)
      (cancel (max 5 (min max_sec ((need + 999) / 1000))), low, high, covers, tight)
