-- ===== src/Footfall/Numbers.antt =====
-- The visitor numbers of repository/analytics_repo.py, `_next_visitor_seq` and the numbering of
-- `insert_paths`, for one store and day: all labels start with this day, so that the order of the texts
-- is that of the numbers' texts behind it.
use sentry_backend.Base.{
  ℕ, zero, suc, ◌+◌, ◌/◌, ◌%◌, ◌≤◌, ◌<◌, ◌≡◌, refl, ap, ◌∙◌, Bool, true, false, ◌&&◌, ◌||◌, Option,
  none, some, List, [], ◌∷◌, ◌++◌, ltb, ◌==◌, if◌then◌else◌, arith,
}
use sentry_backend.Base.Lists.{sum}
use sentry_backend.Base.Text.{Text, digits, value, value_on}

-- f"{seq:03d}"
unfoldable pub pad : ℕ → Text
pad n = if ltb n 1_000 then (48 + n / 100) ∷ (48 + n / 10 % 10) ∷ (48 + n % 10) ∷ [] else digits n

-- The order of texts, character by character.
unfoldable pub text_lt : Text → Text → Bool
text_lt [] [] = false
text_lt [] (d ∷ b) = true
text_lt (c ∷ a) [] = false
text_lt (c ∷ a) (d ∷ b) = let rest = text_lt a b in ltb c d || c == d && rest

-- `order_by(visitor_id.desc()).limit(1)`
unfoldable pub greatest : List Text → Option Text
greatest [] = none
greatest (x ∷ xs) = elim (greatest xs) [
  | none ↦ some x
  | some y ↦ if text_lt x y then some y else some x
]

unfoldable pub next_visitor_seq : List Text → ℕ
unfolding greatest
next_visitor_seq stored = elim (greatest stored) [ none ↦ 1 | some last ↦ value last + 1 ]

-- As many numbers as there are rows, from the next one on.
unfoldable pub number_rows : ℕ → ℕ → List Text
unfolding pad
number_rows seq zero = []
number_rows seq (suc n) = pad seq ∷ number_rows (suc seq) n

unfoldable pub insert_paths : ℕ → List Text → List Text
unfolding next_visitor_seq number_rows
insert_paths n stored = stored ++ number_rows (next_visitor_seq stored) n

unfoldable pub insert_batches : List ℕ → List Text → List Text
unfolding insert_paths
insert_batches [] stored = stored
insert_batches (n ∷ ns) stored = insert_batches ns (insert_paths n stored)

below : (n : ℕ) → n < 1_000 → ltb n 1_000 ≡ true
below n h = ground (arith, h)

value-pad : (n : ℕ) → n < 1_000 → value (pad n) ≡ n
unfolding pad value value_on
value-pad n h = rw (below n h) (omega (arith, h))

text_lt-pad : (m n : ℕ) → m < n → n < 1_000 → text_lt (pad m) (pad n) ≡ true
unfolding pad text_lt
text_lt-pad m n h small =
    rw (below m (omega (arith, h, small)), below n small) (ground (arith, h, small))

greatest-number_rows :
    (s k : ℕ) → s + k < 1_000 → greatest (number_rows s (suc k)) ≡ some (pad (s + k))
unfolding greatest number_rows
greatest-number_rows s zero h = let e : s ≡ s + 0 = omega arith in ap (λ n. some (pad n)) e
greatest-number_rows s (suc k) h =
    let e : suc s + k ≡ s + suc k = omega arith in
    let later = greatest-number_rows (suc s) k (omega (arith, h)) ∙ ap (λ n. some (pad n)) e in
    rw (later, text_lt-pad s (s + suc k) (omega arith) h) refl

next_visitor_seq-number_rows : (k : ℕ) → k ≤ 999 → next_visitor_seq (number_rows 1 k) ≡ suc k
unfolding next_visitor_seq number_rows greatest
next_visitor_seq-number_rows zero h = refl
next_visitor_seq-number_rows (suc k) h =
    rw (greatest-number_rows 1 k (omega (arith, h)), value-pad (1 + k) (omega (arith, h)))
      (omega arith)

number_rows-append : (s m n : ℕ) → number_rows s m ++ number_rows (s + m) n ≡ number_rows s (m + n)
unfolding number_rows
number_rows-append s zero n =
    let e : s + 0 ≡ s = omega arith in
    let e' : n ≡ 0 + n = omega arith in ap (λ i. number_rows i n) e ∙ ap (λ k. number_rows s k) e'
number_rows-append s (suc m) n =
    let e : s + suc m ≡ suc s + m = omega arith in
    let e' : suc (m + n) ≡ suc m + n = omega arith in
    ap (λ i. pad s ∷ (number_rows (suc s) m ++ number_rows i n)) e
    ∙ ap (λ l. pad s ∷ l) (number_rows-append (suc s) m n)
    ∙ ap (λ k. number_rows s k) e'

batches_from :
    (m : ℕ) (ns : List ℕ)
    → m + sum ns ≤ 999
    → insert_batches ns (number_rows 1 m) ≡ number_rows 1 (m + sum ns)
unfolding insert_batches insert_paths
batches_from m [] h = let e : m ≡ m + 0 = omega arith in ap (λ k. number_rows 1 k) e
batches_from m (n ∷ ns) h =
    let next = next_visitor_seq-number_rows m (omega (arith, h)) in
    let e : (m + n) + sum ns ≡ m + (n + sum ns) = omega arith in
    let one : suc m ≡ 1 + m = omega arith in
    let grown =
      ap (λ i. number_rows 1 m ++ number_rows i n) (next ∙ one) ∙ number_rows-append 1 m n in
    ap (λ l. insert_batches ns l) grown
    ∙ batches_from (m + n) ns (omega (arith, h))
    ∙ ap (λ k. number_rows 1 k) e

-- In whatever batches the paths of a day are inserted, up to 999 of them get the numbers 1, 2, 3, ... in
-- turn, each once.
pub insert_batches-number_rows :
    (ns : List ℕ) → sum ns ≤ 999 → insert_batches ns [] ≡ number_rows 1 (sum ns)
unfolding number_rows
insert_batches-number_rows ns h =
    let e : 0 + sum ns ≡ sum ns = omega arith in
    batches_from 0 ns (omega (arith, h)) ∙ ap (λ k. number_rows 1 k) e
