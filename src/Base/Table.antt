-- ===== src/Base/Table.antt =====
-- A Python dict whose keys are compared by an instance, such as a dict keyed by pairs.
use mathlib.Core.Path.{◌≡◌, refl}
use mathlib.Core.Bool.{true}
use mathlib.Core.Option.{Option, none, some}
use mathlib.Core.List.{List, [], ◌∷◌}
use native.Mathlib.Omega.{arith}
use sentry_backend.Base.{if◌then◌else◌}
use sentry_backend.Base.Eq.{Eq}

module _ {K : Type 0} ⦃e : Eq K⦄ where
  chain : (i j k : K) → e.beq i k ≡ true → e.beq i j ≡ e.beq k j
  chain i j k h = ground (arith, (e.beq_iff i k).0 h)

  chain_right : (i j k : K) → e.beq k j ≡ true → e.beq i k ≡ e.beq i j
  chain_right i j k h = ground (arith, (e.beq_iff k j).0 h)

module _ {K V : Type 0} ⦃e : Eq K⦄ where
  unfoldable pub get : K → List (K × V) → Option V
  get k [] = none
  get k ((j, v) ∷ d) = if e.beq j k then some v else get k d

  -- `d[k] = v`
  unfoldable pub put : K → V → List (K × V) → List (K × V)
  put k v [] = (k, v) ∷ []
  put k v ((j, w) ∷ d) = if e.beq j k then (k, v) ∷ d else (j, w) ∷ put k v d

  pub get-put :
      (k j : K) (v : V) (d : List (K × V))
      → get j (put k v d) ≡ (if e.beq k j then some v else get j d)
  unfolding get put
  get-put k j v [] = refl
  get-put k j v ((i, w) ∷ d) = ground (arith, get-put k j v d, chain i j k, chain_right i j k)

  -- `d.pop(k, None)`
  unfoldable pub remove : K → List (K × V) → List (K × V)
  remove k [] = []
  remove k ((j, v) ∷ d) = let rest = remove k d in if e.beq j k then rest else (j, v) ∷ rest

  pub get-remove :
      (k j : K) (d : List (K × V)) → get j (remove k d) ≡ (if e.beq k j then none else get j d)
  unfolding get remove
  get-remove k j [] = ground arith
  get-remove k j ((i, w) ∷ d) = ground (arith, get-remove k j d, chain i j k, chain_right i j k)
