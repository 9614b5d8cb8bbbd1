-- ===== src/Base/Counter.antt =====
-- A table of counts, as in `d[k] = d.get(k, 0) + n`.
use sentry_backend.Base.{ℕ, ◌+◌, ◌-◌, ◌≤◌, ◌≡◌, ap, Bool, true, List, [], ◌∷◌, arith, if◌then◌else◌}
use sentry_backend.Base.Lists.{filter_by}
use sentry_backend.Base.Eq.{Eq}

abbrev pub Counts : Type 0 → Type 0
Counts K = List (K × ℕ)

module _ {K : Type 0} ⦃e : Eq K⦄ where
  -- All that the table has for the key.
  unfoldable pub total : K → Counts K → ℕ
  total k [] = 0
  total k ((j, n) ∷ d) = let rest = total k d in if e.beq j k then n + rest else rest

  -- `d[k] = d.get(k, 0) + n`
  unfoldable pub bump : K → ℕ → Counts K → Counts K
  bump k n [] = (k, n) ∷ []
  bump k n ((j, m) ∷ d) =
      let rest = bump k n d in if e.beq j k then (j, m + n) ∷ d else (j, m) ∷ rest

  -- `if d.get(k, 0) > 0: d[k] -= 1`
  unfoldable pub take_one : K → Counts K → Counts K
  take_one k [] = []
  take_one k ((j, m) ∷ d) =
      let rest = take_one k d in if e.beq j k then (j, m - 1) ∷ d else (j, m) ∷ rest

  -- `for k, n in entries.items(): d[k] = d.get(k, 0) + n`
  unfoldable pub bump_all : Counts K → Counts K → Counts K
  bump_all [] d = d
  bump_all ((k, n) ∷ entries) d = bump_all entries (bump k n d)

  beq_chain : (j k i : K) → e.beq j k ≡ true → e.beq j i ≡ e.beq k i
  beq_chain j k i h = ground (arith, (e.beq_iff j k).0 h)

  same_test : (p : K → Bool) (j i : K) → e.beq j i ≡ true → p j ≡ p i
  same_test p j i h = ap p ((e.beq_iff j i).0 h)

  pub total-bump :
      (k i : K) (n : ℕ) (d : Counts K)
      → total i (bump k n d) ≡ total i d + (if e.beq k i then n else 0)
  unfolding total bump
  total-bump k i n [] = ground arith
  total-bump k i n ((j, m) ∷ d) = ground (arith, total-bump k i n d, beq_chain j k i)

  -- The table has one entry at most for the key of each entry.
  pub total-take_one :
      (k i : K) (d : Counts K)
      → total i (take_one k d) ≤ total i d
        × total i d ≤ total i (take_one k d) + (if e.beq k i then 1 else 0)
  unfolding total take_one
  total-take_one k i [] = ground arith
  total-take_one k i ((j, m) ∷ d) = ground (arith, total-take_one k i d, beq_chain j k i)

  pub total-bump_all :
      (i : K) (entries d : Counts K) → total i (bump_all entries d) ≡ total i d + total i entries
  unfolding total bump_all
  total-bump_all i [] d = ground arith
  total-bump_all i ((k, n) ∷ entries) d =
      ground (arith, total-bump_all i entries (bump k n d), total-bump k i n d)

  -- The entries that pass a test on their keys.
  pub total-filter :
      (p : K → Bool) (i : K) (d : Counts K)
      → total i (filter_by (λ x. p x.0) d) ≡ (if p i then total i d else 0)
  unfolding total
  total-filter p i [] = ground arith
  total-filter p i ((j, n) ∷ d) = ground (arith, total-filter p i d, same_test p j i)
