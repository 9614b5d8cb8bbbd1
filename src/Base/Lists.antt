-- ===== src/Base/Lists.antt =====
-- Lists measured by native numbers, and the predicates on them that compute to tuples.
use Prim.Native.Nat.{ℕ, zero, suc, ◌+◌, ◌≤◌}
use mathlib.Core.Path.{◌≡◌, refl, ap, ◌∙◌, subst}
use mathlib.Core.Logic.{◌⊎◌, inl, inr}
use mathlib.Core.Bool.{Bool, true, false}
use mathlib.Core.List.{List, [], ◌∷◌, ◌++◌, append_assoc, append-nil}
use mathlib.Core.Option.{Option, none, some}
use native.Mathlib.Omega.{arith}

module _ {ℓ} {A : Type ℓ} where
  abbrev pub length : List A → ℕ
  length [] = 0
  length (_ ∷ xs) = suc (length xs)

  abbrev pub take : ℕ → List A → List A
  take zero xs = []
  take (suc n) [] = []
  take (suc n) (x ∷ xs) = x ∷ take n xs

  -- A Python comprehension with a condition, and `next(…)` over one.
  abbrev pub filter_by : (A → Bool) → List A → List A
  filter_by p [] = []
  filter_by p (x ∷ xs) = let rest = filter_by p xs in elim (p x) [ true ↦ x ∷ rest | false ↦ rest ]

  abbrev pub find_by : (A → Bool) → List A → Option A
  find_by p [] = none
  find_by p (x ∷ xs) = let rest = find_by p xs in elim (p x) [ true ↦ some x | false ↦ rest ]

  abbrev pub count_by : (A → Bool) → List A → ℕ
  count_by p [] = 0
  count_by p (x ∷ xs) = let rest = count_by p xs in elim (p x) [ true ↦ suc rest | false ↦ rest ]

  pub length-append : (xs ys : List A) → length (xs ++ ys) ≡ length xs + length ys
  length-append [] ys = omega arith
  length-append (x ∷ xs) ys = omega (arith, length-append xs ys)

  pub length-take : (n : ℕ) (xs : List A) → length (take n xs) ≤ n
  length-take zero xs = omega arith
  length-take (suc n) [] = omega arith
  length-take (suc n) (x ∷ xs) = omega (arith, length-take n xs)

abbrev pub All {ℓ κ} : {A : Type ℓ} → (A → Type κ) → List A → Type κ
All P [] = Unit
All P (x ∷ xs) = P x × All P xs

abbrev pub sum : List ℕ → ℕ
sum [] = 0
sum (x ∷ xs) = x + sum xs

pub some_inj {ℓ} : {A : Type ℓ} {x y : A} → some x ≡ some y → x ≡ y
some_inj h = cc

Bool-cases : (b : Bool) → (b ≡ true) ⊎ (b ≡ false)
Bool-cases true = inl refl
Bool-cases false = inr refl

module _ {ℓ κ μ} {A : Type ℓ} {P : A → Type κ} {Q : A → Type μ} where
  pub All-map : (xs : List A) → ((x : A) → P x → Q x) → All P xs → All Q xs
  All-map [] f h = tt
  All-map (x ∷ xs) f h = (f x h.0, All-map xs f h.1)

-- What `find_by` returns passes the test and has the property of all.
pub find_by-All {ℓ κ} :
    {A : Type ℓ} (P : A → Type κ) (p : A → Bool) (xs : List A) {x : A}
    → All P xs
    → find_by p xs ≡ some x
    → P x × (p x ≡ true)
find_by-All P p [] h e = cc
find_by-All P p (y ∷ xs) {x} h e = go (p y) refl (find_by-All P p xs h.1) e
  where
    go :
        (b : Bool)
        → p y ≡ b
        → (find_by p xs ≡ some x → P x × (p x ≡ true))
        → elim b [ true ↦ some y | false ↦ find_by p xs ] ≡ some x
        → P x × (p x ≡ true)
    go true hit rest e = (subst P (some_inj e) h.0, subst (λ z. p z ≡ true) (some_inj e) hit)
    go false miss rest e = rest e

module _ {ℓ} {A : Type ℓ} where
  pub filter_cong :
      (p q : A → Bool) (xs : List A) → All (λ x. p x ≡ q x) xs → filter_by p xs ≡ filter_by q xs
  filter_cong p q [] h = refl
  filter_cong p q (x ∷ xs) h =
      let ih = filter_cong p q xs h.1 in λ i. elim (h.0 i) [ true ↦ x ∷ ih i | false ↦ ih i ]

  pub filter_none : (p : A → Bool) (xs : List A) → All (λ x. p x ≡ false) xs → filter_by p xs ≡ []
  filter_none p [] h = refl
  filter_none p (x ∷ xs) h =
      ap (λ b. elim b [ true ↦ x ∷ filter_by p xs | false ↦ filter_by p xs ]) h.0
      ∙ filter_none p xs h.1

  -- A loop that appends what passes its test builds the filtered list.
  pub append_if :
      (acc rest : List A) (x : A) (b : Bool)
      → (acc ++ elim b [ true ↦ x ∷ [] | false ↦ [] ]) ++ rest
        ≡ acc ++ elim b [ true ↦ x ∷ rest | false ↦ rest ]
  append_if acc rest x true = append_assoc acc (x ∷ []) rest
  append_if acc rest x false = ap (λ l. l ++ rest) (append-nil acc)

  pub filter_by-append :
      (p : A → Bool) (xs ys : List A) → filter_by p (xs ++ ys) ≡ filter_by p xs ++ filter_by p ys
  filter_by-append p [] ys = refl
  filter_by-append p (x ∷ xs) ys = ground (arith, filter_by-append p xs ys)

  pub filter_by-filter_by :
      (p : A → Bool) (xs : List A) → filter_by p (filter_by p xs) ≡ filter_by p xs
  filter_by-filter_by p [] = refl
  filter_by-filter_by p (x ∷ xs) = ground (arith, filter_by-filter_by p xs)
