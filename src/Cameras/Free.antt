-- ===== src/Cameras/Free.antt =====
-- Theorems on `allocate_mediamtx_path` of repository/camera_repo.py.
use sentry_backend.Base.{
  ℕ, zero, suc, ◌≤◌, ◌<◌, ◌≡◌, refl, sym, ◌∙◌, true, false, some, List, [], ◌∷◌, ◌++◌, arith,
  Bool-cases, inl, inr, ◌⊎◌, subst, ltb,
}
use sentry_backend.Base.Lists.{length}
use sentry_backend.Base.Sets.{member, discard, member-discard}
use sentry_backend.Base.Text.{Text, text_beq, text_beq_iff, text_eq, digits, digits-injective}
use sentry_backend.Cameras.{candidate, first_free, allocate_mediamtx_path}

append_cancel : (s t u : Text) → s ++ t ≡ s ++ u → t ≡ u
append_cancel [] t u h = h
append_cancel (c ∷ s) t u h = append_cancel s t u cc

candidate-apart :
    (preferred : Text) (i k : ℕ)
    → i < k
    → text_beq (candidate preferred i) (candidate preferred k) ≡ false
candidate-apart preferred i k lt =
    elim (Bool-cases (text_beq (candidate preferred i) (candidate preferred k))) [
      | inl same ↦
          let e : 95 ∷ digits i ≡ 95 ∷ digits k =
            append_cancel preferred (95 ∷ digits i) (95 ∷ digits k)
              ((text_beq_iff (candidate preferred i) (candidate preferred k)).0 same) in
          absurd (omega (arith, digits-injective i k cc, lt))
      | inr differ ↦ differ
    ]

length-discard : (x : Text) (s : List Text) → length (discard x s) ≤ length s
unfolding discard
length-discard x [] = omega arith
length-discard x (y ∷ s) = ground (arith, length-discard x s)

length-discard_lt : (x : Text) (s : List Text) → member x s ≡ true → length (discard x s) < length s
unfolding discard member
length-discard_lt x [] h = ground (arith, h)
length-discard_lt x (y ∷ s) h = ground (arith, h, length-discard x s, length-discard_lt x s)

-- The part `left` of the taken paths that can still get in the way shrinks with each turn.
search_succeeds :
    (preferred : Text) (taken : List Text) (fuel i : ℕ) (left : List Text)
    → length left < fuel
    → ((k : ℕ) → i ≤ k → member (candidate preferred k) taken ≡ member (candidate preferred k) left)
    → (p : Text) × (first_free fuel preferred i taken ≡ some p)
      × (member p taken ≡ false)
      × (k : ℕ) × (i ≤ k)
      × (p ≡ preferred ++ (95 ∷ digits k))
      × ((m : ℕ) → i ≤ m → m < k → member (preferred ++ (95 ∷ digits m)) taken ≡ true)
unfolding first_free
search_succeeds preferred taken zero i left short same = absurd (omega (arith, short))
search_succeeds preferred taken (suc fuel) i left short same =
    elim (Bool-cases (member (candidate preferred i) taken)) [
      | inr free ↦ (
        candidate preferred i,
        rw free refl,
        free,
        i,
        omega arith,
        refl,
        λ m low high. absurd (omega (arith, low, high)),
      )
      | inl used ↦
          let here = sym (same i (omega arith)) ∙ used in
          let (p, found, fresh, k, le, shape, before) =
            search_succeeds preferred taken fuel (suc i) (discard (candidate preferred i) left)
              (omega (arith, short, length-discard_lt (candidate preferred i) left here))
              (λ k le.
                same k (omega (arith, le))
                ∙ sym (
                    member-discard (candidate preferred i) (candidate preferred k) left
                    ∙ rw (candidate-apart preferred i k (omega (arith, le))) refl)) in
          (
            p,
            rw used found,
            fresh,
            k,
            omega (arith, le),
            shape,
            λ m low high. elim (Bool-cases (ltb i m)) [
              | inl lt ↦ before m (ground (arith, lt)) high
              | inr ge ↦
                  subst (λ m. member (candidate preferred m) taken ≡ true) (ground (arith, low, ge))
                    used
            ],
          )
    ]

-- The preferred path, or this with the least free number from 2 on.
abbrev pub NumberedFrom : Text → List Text → Text → Type 0
NumberedFrom preferred taken p =
    (p ≡ preferred)
    ⊎ ((member preferred taken ≡ true)
        × (k : ℕ) × (2 ≤ k)
        × (p ≡ preferred ++ (95 ∷ digits k))
        × ((m : ℕ) → 2 ≤ m → m < k → member (preferred ++ (95 ∷ digits m)) taken ≡ true))

-- The search for a path ends, whatever paths are taken, and with one that is not: the preferred path,
-- or, when that is taken, this with an underscore and the least number from 2 on that is free.
pub allocate_mediamtx_path-Fresh :
    (preferred : Text) (taken : List Text)
    → (p : Text) × (allocate_mediamtx_path preferred taken ≡ some p)
      × (member p taken ≡ false)
      × NumberedFrom preferred taken p
unfolding allocate_mediamtx_path
allocate_mediamtx_path-Fresh preferred taken = elim (Bool-cases (member preferred taken)) [
  | inr free ↦ (preferred, rw free refl, free, inl refl)
  | inl used ↦
      let (p, found, fresh, k, le, shape, before) =
        search_succeeds preferred taken (suc (length taken)) 2 taken (omega arith) (λ k le. refl) in
      (p, rw used found, fresh, inr (used, k, le, shape, before))
]
