-- ===== src/Base/Keyed.antt =====
-- Lemmas on rows with a primary key.
use sentry_backend.Base.{
  ℕ, ◌≡◌, ap, Bool, true, false, some, List, [], ◌∷◌, map, ◌==◌, arith, Bool-cases, inl, inr,
}
use sentry_backend.Base.Lists.{find_by, some_inj}
use sentry_backend.Base.Eq.{Eq, nat_eq}
use sentry_backend.Base.Sets.{member}

-- Nothing is there twice.
abbrev pub Distinct : {K : Type 0} ⦃e : Eq K⦄ → List K → Type 0
Distinct [] = Unit
Distinct (x ∷ xs) = (member x xs ≡ false) × Distinct xs

module _ {A : Type 0} (key : A → ℕ) where
  member-find_by :
      (p : A → Bool) (xs : List A) (a : A)
      → find_by p xs ≡ some a
      → member (key a) (map key xs) ≡ true
  unfolding member
  member-find_by p [] a h = ground (arith, h)
  member-find_by p (x ∷ xs) a h = elim (Bool-cases (p x)) [
    | inl hit ↦ ground (arith, ap key (some_inj (rw (find_by, hit) at h)))
    | inr miss ↦ ground (arith, member-find_by p xs a (rw (find_by, miss) at h))
  ]

  find_head : (x a : A) (xs : List A) → x ≡ a → find_by (λ b. key b == key a) (x ∷ xs) ≡ some a
  find_head x a xs e = ground (arith, ap key e, e)

  apart_keys :
      (x a : A) (ks : List ℕ)
      → member (key x) ks ≡ false
      → member (key a) ks ≡ true
      → (key x == key a) ≡ false
  unfolding member
  apart_keys x a [] free there = ground (arith, there)
  apart_keys x a (k ∷ ks) free there = ground (arith, free, there, apart_keys x a ks)

  pub find_by-own :
      (p : A → Bool) (xs : List A) (a : A)
      → Distinct (map key xs)
      → find_by p xs ≡ some a
      → find_by (λ b. key b == key a) xs ≡ some a
  find_by-own p [] a d h = ground (arith, h)
  find_by-own p (x ∷ xs) a d h = elim (Bool-cases (p x)) [
    | inl hit ↦ find_head x a xs (some_inj (rw (find_by, hit) at h))
    | inr miss ↦
        let later = (rw (find_by, miss) at h) in
        rw (find_by, apart_keys x a (map key xs) d.0 (member-find_by p xs a later))
          (find_by-own p xs a d.1 later)
  ]
