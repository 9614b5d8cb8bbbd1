-- ===== src/Base/Sets.antt =====
-- A Python set: the list of its members, only ever read by membership.
use Prim.Native.Nat.{ℕ}
use mathlib.Core.Path.{◌≡◌, refl}
use mathlib.Core.Bool.{Bool, true, false, not, ◌&&◌, ◌||◌}
use mathlib.Core.List.{List, [], ◌∷◌, ◌++◌}
use native.Mathlib.Omega.{arith}
use sentry_backend.Base.{if◌then◌else◌}
use sentry_backend.Base.Eq.{Eq}

abbrev pub IdSet : Type 0
IdSet = List ℕ

module _ {K : Type 0} ⦃e : Eq K⦄ where
  -- `x in s`
  unfoldable pub member : K → List K → Bool
  member x [] = false
  member x (y ∷ s) = e.beq y x || member x s

  -- `s.add(x)`
  unfoldable pub add : K → List K → List K
  add x s = x ∷ s

  -- `s.discard(x)`
  unfoldable pub discard : K → List K → List K
  discard x [] = []
  discard x (y ∷ s) = let rest = discard x s in if e.beq y x then rest else y ∷ rest

  -- `s.intersection_update(t)`
  unfoldable pub intersection : List K → List K → List K
  intersection [] t = []
  intersection (y ∷ s) t = let rest = intersection s t in if member y t then y ∷ rest else rest

  pub member-add : (x y : K) (s : List K) → member y (add x s) ≡ (e.beq x y || member y s)
  unfolding member add
  member-add x y s = refl

  pub member-append : (x : K) (s t : List K) → member x (s ++ t) ≡ (member x s || member x t)
  unfolding member
  member-append x [] t = refl
  member-append x (y ∷ s) t = ground (arith, member-append x s t)

  beq_trans : (x y z : K) → e.beq y x ≡ true → e.beq y z ≡ e.beq x z
  beq_trans x y z h = ground (arith, (e.beq_iff y x).0 h)

  beq_right : (x y z : K) → e.beq x y ≡ true → e.beq z x ≡ e.beq z y
  beq_right x y z h = ground (arith, (e.beq_iff x y).0 h)

  pub member-discard :
      (x y : K) (s : List K) → member y (discard x s) ≡ (not (e.beq x y) && member y s)
  unfolding member discard
  member-discard x y [] = ground arith
  member-discard x y (z ∷ s) =
      ground (arith, member-discard x y s, beq_trans x z y, beq_right x y z)

  member_cong : (z y : K) (t : List K) → e.beq z y ≡ true → member z t ≡ member y t
  member_cong z y t h = ground (arith, (e.beq_iff z y).0 h)

  pub member-intersection :
      (y : K) (s t : List K) → member y (intersection s t) ≡ (member y s && member y t)
  unfolding member intersection
  member-intersection y [] t = refl
  member-intersection y (z ∷ s) t = ground (arith, member-intersection y s t, member_cong z y t)
