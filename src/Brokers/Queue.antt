-- ===== src/Brokers/Queue.antt =====
-- An asyncio.Queue with a bound, and the put of the three brokers that drops the oldest item.
use sentry_backend.Base.{
  ℕ, zero, suc, ◌+◌, ◌-◌, ◌≤◌, ◌≡◌, refl, sym, ◌∙◌, ap, false, Option, none, some, List, [], ◌∷◌,
  ◌++◌, leb, if◌then◌else◌, arith, inl, inr, Bool-cases,
}
use mathlib.Core.List.{append_assoc, append-nil}
use sentry_backend.Base.Lists.{length, length-append}

module _ {A : Type 0} where
  -- `none` is QueueFull.
  abbrev pub put_nowait : ℕ → A → List A → Option (List A)
  put_nowait max x q = if leb max (length q) then none else some (q ++ (x ∷ []))

  -- get_nowait, with QueueEmpty suppressed.
  abbrev pub drop_first : List A → List A
  drop_first [] = []
  drop_first (y ∷ q) = q

  abbrev suppressed : List A → Option (List A) → List A
  suppressed q none = q
  suppressed q (some q') = q'

  abbrev put_or_drop : ℕ → A → List A → Option (List A) → List A
  put_or_drop max x q (some q') = q'
  put_or_drop max x q none = suppressed (drop_first q) (put_nowait max x (drop_first q))

  -- The `try` of a publish.
  unfoldable pub put_drop_oldest : ℕ → A → List A → List A
  put_drop_oldest max x q = put_or_drop max x q (put_nowait max x q)

  -- A queue after a sequence of puts.
  abbrev pub put_all : ℕ → List A → List A → List A
  put_all max [] q = q
  put_all max (x ∷ xs) q = put_all max xs (put_drop_oldest max x q)

  abbrev pub drop : ℕ → List A → List A
  drop zero xs = xs
  drop (suc n) [] = []
  drop (suc n) (x ∷ xs) = drop n xs

  -- The newest `max` items.
  abbrev pub last_n : ℕ → List A → List A
  last_n max xs = drop (length xs - max) xs

  drop_none : (n : ℕ) (q : List A) → n ≡ 0 → drop n q ≡ q
  drop_none zero q e = refl
  drop_none (suc n) q e = ground arith

  drop_short : (n : ℕ) (q : List A) → length q ≤ n → last_n n q ≡ q
  drop_short n q h = drop_none _ q (omega (arith, h))

  drop-append : (n : ℕ) (q r : List A) → n ≤ length q → drop n (q ++ r) ≡ drop n q ++ r
  drop-append zero q r h = refl
  drop-append (suc n) [] r h = ground arith
  drop-append (suc n) (x ∷ q) r h = drop-append n q r (omega (arith, h))

  length-drop : (n : ℕ) (q : List A) → length (drop n q) ≡ length q - n
  length-drop zero q = omega arith
  length-drop (suc n) [] = omega arith
  length-drop (suc n) (x ∷ q) = omega (arith, length-drop n q)

  pub length-last_n : (max : ℕ) (q : List A) → length (last_n max q) ≤ max
  length-last_n max q = omega (arith, length-drop (length q - max) q)

  drop_nil : (n : ℕ) → drop n [] ≡ []
  drop_nil zero = refl
  drop_nil (suc n) = refl

  drop-drop : (m k : ℕ) (q : List A) → drop m (drop k q) ≡ drop (k + m) q
  drop-drop m zero q = ap (λ n. drop n q) (omega arith)
  drop-drop m (suc k) [] = drop_nil m ∙ sym (drop_nil (suc k + m))
  drop-drop m (suc k) (x ∷ q) =
      let e : suc (k + m) ≡ suc k + m = omega arith in drop-drop m k q ∙ ap (λ n. drop n (x ∷ q)) e

  last_n_first : (max : ℕ) (q r : List A) → last_n max (last_n max q ++ r) ≡ last_n max (q ++ r)
  last_n_first max q r =
      let k = length q - max in
      ap (λ l. last_n max l) (sym (drop-append k q r (omega arith)))
      ∙ drop-drop (length (drop k (q ++ r)) - max) k (q ++ r)
      ∙ ap (λ n. drop n (q ++ r)) (omega (arith, length-drop k (q ++ r), length-append q r))

  put_room :
      (max : ℕ) (x : A) (q : List A)
      → leb max (length q) ≡ false
      → put_drop_oldest max x q ≡ q ++ (x ∷ [])
  unfolding put_drop_oldest
  put_room max x q h = rw h

  put_full :
      (max : ℕ) (x y : A) (q : List A)
      → length (y ∷ q) ≡ max
      → put_drop_oldest max x (y ∷ q) ≡ q ++ (x ∷ [])
  unfolding put_drop_oldest
  put_full max x y q h = ground (arith, h)

  -- A put that respects the bound leaves the newest items, the new one among them.
  put_one :
      (max : ℕ) (x : A) (q : List A)
      → 1 ≤ max
      → length q ≤ max
      → put_drop_oldest max x q ≡ last_n max (q ++ (x ∷ []))
  put_one max x [] pos fits = put_room max x [] (ground (arith, pos)) ∙ sym (drop_short max _ pos)
  put_one max x (y ∷ q) pos fits = elim (Bool-cases (leb max (length (y ∷ q)))) [
    | inl full ↦
        let one : 1 ≡ length (y ∷ q ++ (x ∷ [])) - max =
          ground (arith, length-append q (x ∷ []), full, fits) in
        put_full max x y q (ground (arith, full, fits)) ∙ ap (λ n. drop n (y ∷ q ++ (x ∷ []))) one
    | inr room ↦
        put_room max x (y ∷ q) room
        ∙ sym (drop_short max _ (ground (arith, length-append q (x ∷ []), room, fits)))
  ]

  -- A queue within its bound holds the newest of what it held and was sent, in order.
  pub put_all_last :
      (max : ℕ) (xs q : List A) → 1 ≤ max → length q ≤ max → put_all max xs q ≡ last_n max (q ++ xs)
  put_all_last max [] q pos fits =
      sym (ap (λ l. last_n max l) (append-nil q) ∙ drop_short max q fits)
  put_all_last max (x ∷ xs) q pos fits =
      ap (put_all max xs) (put_one max x q pos fits)
      ∙ put_all_last max xs (last_n max (q ++ (x ∷ []))) pos (length-last_n max _)
      ∙ last_n_first max (q ++ (x ∷ [])) xs
      ∙ ap (λ l. last_n max l) (append_assoc q (x ∷ []) xs)
