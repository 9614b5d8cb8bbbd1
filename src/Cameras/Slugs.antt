-- ===== src/Cameras/Slugs.antt =====
-- Theorems on `slugify` of repository/camera_repo.py.
use sentry_backend.Base.{
  ℕ, zero, suc, ◌≤◌, ◌≡◌, refl, Bool, true, false, not, ◌&&◌, ◌||◌, [], ◌∷◌, leb, ◌==◌,
  if◌then◌else◌, arith, Bool-cases, inl, inr,
}
use sentry_backend.Base.Lists.{length, take, All, length-take}
use sentry_backend.Base.Text.{Text}
use sentry_backend.Cameras.{is_word, lower_text, collapse, strip_start, strip_end, or_cam, slugify}

-- `[a-z0-9]`, and `[a-z0-9_]`.
abbrev pub starts_slug : ℕ → Bool
starts_slug c = leb 48 c && leb c 57 || leb 97 c && leb c 122

abbrev pub in_slug : ℕ → Bool
in_slug c = starts_slug c || c == 95

abbrev pub Slug : Text → Type 0
Slug t = All (λ c. in_slug c ≡ true) t

-- What schemas/camera.py asks of a path, with a length of 50 at most.
abbrev pub IsSlug : Text → Type 0
IsSlug [] = ⊥
IsSlug (c ∷ t) = (starts_slug c ≡ true) × (length (c ∷ t) ≤ 50) × Slug t

-- No capital letter is left.
abbrev lowered : ℕ → Bool
lowered c = not (leb 65 c && leb c 90)

lower_text-lowered : (t : Text) → All (λ c. lowered c ≡ true) (lower_text t)
unfolding lower_text
lower_text-lowered [] = tt
lower_text-lowered (c ∷ t) = elim (Bool-cases (leb 65 c && leb c 90)) [
  | inl capital ↦ rw capital (ground (arith, capital), lower_text-lowered t)
  | inr small ↦ elim (Bool-cases (c == 8490)) [
    | inl kelvin ↦ rw (small, kelvin) (refl, lower_text-lowered t)
    | inr plain ↦ elim (Bool-cases (c == 304)) [
      | inl dotted ↦ rw (small, plain, dotted) (refl, (refl, lower_text-lowered t))
      | inr same ↦ rw (small, plain, same) (ground (arith, small), lower_text-lowered t)
    ]
  ]
]

collapse-Slug :
    (in_run : Bool) (t : Text) → All (λ c. lowered c ≡ true) t → Slug (collapse in_run t)
unfolding collapse
collapse-Slug in_run [] h = tt
collapse-Slug in_run (c ∷ t) h = elim (Bool-cases (is_word c)) [
  | inl word ↦ rw word (ground (arith, word, h.0), collapse-Slug false t h.1)
  | inr gap ↦ elim (Bool-cases in_run) [
    | inl within ↦ rw (gap, within) (collapse-Slug true t h.1)
    | inr first ↦ rw (gap, first) (refl, collapse-Slug true t h.1)
  ]
]

abbrev Starts : Text → Type 0
Starts [] = Unit
Starts (c ∷ t) = (starts_slug c ≡ true) × Slug t

strip_start-Starts : (t : Text) → Slug t → Starts (strip_start t)
unfolding strip_start
strip_start-Starts [] h = tt
strip_start-Starts (c ∷ t) h = elim (Bool-cases (c == 95)) [
  | inl low ↦ rw low (strip_start-Starts t h.1)
  | inr letter ↦ rw letter (ground (arith, letter, h.0), h.1)
]

strip_end-Slug : (t : Text) → Slug t → Slug (strip_end t)
unfolding strip_end
strip_end-Slug [] h = tt
strip_end-Slug (c ∷ t) h = go (strip_end t) (strip_end-Slug t h.1)
  where
    go :
        (rest : Text)
        → Slug rest
        → Slug (elim rest [ [] ↦ if c == 95 then [] else c ∷ [] | d ∷ more ↦ c ∷ d ∷ more ])
    go [] ok = elim (Bool-cases (c == 95)) [
      | inl low ↦ rw low tt
      | inr letter ↦ rw letter (h.0, tt)
    ]
    go (d ∷ more) ok = (h.0, ok)

strip_end-Starts : (t : Text) → Starts t → Starts (strip_end t)
unfolding strip_end
strip_end-Starts [] h = tt
strip_end-Starts (c ∷ t) h = go (strip_end t) (strip_end-Slug t h.1)
  where
    go :
        (rest : Text)
        → Slug rest
        → Starts (elim rest [ [] ↦ if c == 95 then [] else c ∷ [] | d ∷ more ↦ c ∷ d ∷ more ])
    go [] ok = elim (Bool-cases (c == 95)) [
      | inl low ↦ rw low tt
      | inr letter ↦ rw letter (h.0, tt)
    ]
    go (d ∷ more) ok = (h.0, ok)

take-Slug : (n : ℕ) (t : Text) → Slug t → Slug (take n t)
take-Slug zero t h = tt
take-Slug (suc n) [] h = tt
take-Slug (suc n) (c ∷ t) h = (h.0, take-Slug n t h.1)

take-Starts : (n : ℕ) (t : Text) → Starts t → Starts (take n t)
take-Starts zero t h = tt
take-Starts (suc n) [] h = tt
take-Starts (suc n) (c ∷ t) h = (h.0, take-Slug n t h.1)

or_cam-IsSlug : (t : Text) → Starts t → length t ≤ 50 → IsSlug (or_cam t)
or_cam-IsSlug [] h short = (refl, omega arith, (refl, (refl, tt)))
or_cam-IsSlug (c ∷ t) h short = (h.0, short, h.1)

-- Whatever the name of a camera, the path generated from it is what schemas/camera.py asks of a path: it
-- starts with a small letter or a digit and has only these and underscores, and it has fifty
-- characters at most.
pub slugify-IsSlug : (text : Text) → IsSlug (slugify text)
unfolding slugify
slugify-IsSlug text =
    let stripped = strip_start (collapse false (lower_text text)) in
    let starts =
      strip_start-Starts (collapse false (lower_text text))
        (collapse-Slug false (lower_text text) (lower_text-lowered text)) in
    or_cam-IsSlug (take 50 (strip_end stripped))
      (take-Starts 50 (strip_end stripped) (strip_end-Starts stripped starts))
      (length-take 50 (strip_end stripped))
