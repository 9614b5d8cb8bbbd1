-- ===== src/Pairing/Codes.antt =====
-- Lemmas on the active pairing codes of repository/agent_repo.py.
use sentry_backend.Base.{
  ℕ, ◌+◌, ◌≤◌, ◌≡◌, refl, ap, subst, Bool, true, not, ◌&&◌, Option, none, some, List, [], ◌∷◌, ◌==◌,
  arith, ==_refl, Bool-cases, inl, inr,
}
use sentry_backend.Base.Lists.{some_inj, length, filter_by, count_by, take}
use sentry_backend.Base.Text.{Text, text_beq, text_beq_iff}
use sentry_backend.Base.Action.{ok, ok-injective}
use sentry_backend.Pairing.{
  PairingCode, is_active_code, one_or_none, active_code, new_code, use_draw, add_code,
  create_pairing_code, consume_pairing_code, mark_consumed,
}

module _ {A : Type 0} where
  pub count_none : (p : A → Bool) (xs : List A) → count_by p xs ≡ 0 → filter_by p xs ≡ []
  count_none p [] h = refl
  count_none p (x ∷ xs) h = ground (arith, h, count_none p xs)

  pub none_counted : (p : A → Bool) (xs : List A) → filter_by p xs ≡ [] → count_by p xs ≡ 0
  none_counted p [] h = refl
  none_counted p (x ∷ xs) h = ground (arith, h, none_counted p xs)

  count_by-length : (p : A → Bool) (xs : List A) → count_by p xs ≡ length (filter_by p xs)
  count_by-length p [] = refl
  count_by-length p (x ∷ xs) = ground (arith, count_by-length p xs)

  one_of_few : (ys : List A) → length ys ≤ 1 → (o : Option A) × (one_or_none ys ≡ ok o)
  one_of_few [] h = (none, refl)
  one_of_few (y ∷ []) h = (some y, refl)
  one_of_few (y ∷ z ∷ ys) h = absurd (omega (arith, h))

  pub one_or_none-ok :
      (p : A → Bool) (xs : List A)
      → count_by p xs ≤ 1
      → (o : Option A) × (one_or_none (filter_by p xs) ≡ ok o)
  one_or_none-ok p xs h = one_of_few (filter_by p xs) (omega (arith, h, count_by-length p xs))

  pub only_one : (ys : List A) (c : A) → one_or_none ys ≡ ok (some c) → ys ≡ c ∷ []
  only_one [] c h = ground (arith, h)
  only_one (y ∷ []) c h = ap (λ x. x ∷ []) (some_inj (ok-injective h))
  only_one (y ∷ z ∷ ys) c h = ground (arith, h)

  heads : (x c : A) (xs ys : List A) → x ∷ xs ≡ c ∷ ys → x ≡ c
  heads x c xs ys h = cc

  pub head_counted :
      (p q : A → Bool) (c : A) (rest xs : List A)
      → filter_by p xs ≡ c ∷ rest
      → q c ≡ true
      → 1 ≤ count_by (λ x. p x && q x) xs
  head_counted p q c rest [] h good = ground (arith, h)
  head_counted p q c rest (x ∷ xs) h good = elim (Bool-cases (p x)) [
    | inl hit ↦
        let e : x ≡ c = heads x c (filter_by p xs) rest (rw (filter_by, hit) at h) in
        ground (arith, hit, good, ap q e)
    | inr miss ↦ ground (arith, head_counted p q c rest xs (rw (filter_by, miss) at h) good)
  ]

  pub count_split :
      (p q : A → Bool) (xs : List A)
      → count_by p xs ≡ count_by (λ x. p x && q x) xs + count_by (λ x. p x && not (q x)) xs
  count_split p q [] = refl
  count_split p q (x ∷ xs) = ground (arith, count_split p q xs)

module _ {Scope : Type 0} where
  abbrev pub actives : Text → ℕ → List (PairingCode Scope) → ℕ
  actives code now codes = count_by (is_active_code code now) codes

  -- Which holds from a time on, as codes only expire.
  abbrev pub Unique : ℕ → List (PairingCode Scope) → Type 0
  Unique now codes = (code : Text) → actives code now codes ≤ 1

  pub actives-later :
      (code : Text) (now later : ℕ) (codes : List (PairingCode Scope))
      → now ≤ later
      → actives code later codes ≤ actives code now codes
  actives-later code now later [] le = omega arith
  actives-later code now later (c ∷ codes) le =
      ground (arith, le, actives-later code now later codes le)

  pub actives-mark_consumed :
      (code : Text) (t now id device : ℕ) (codes : List (PairingCode Scope))
      → actives code t (mark_consumed now id device codes) ≤ actives code t codes
  unfolding mark_consumed
  actives-mark_consumed code t now id device [] = omega arith
  actives-mark_consumed code t now id device (c ∷ codes) =
      ground (arith, actives-mark_consumed code t now id device codes)

  -- Of the rows that a marking leaves active, none has the id.
  pub actives-marked :
      (code : Text) (t now id device : ℕ) (codes : List (PairingCode Scope))
      → actives code t (mark_consumed now id device codes)
        ≤ count_by (λ c. is_active_code code t c && not (c.id == id)) codes
  unfolding mark_consumed
  actives-marked code t now id device [] = omega arith
  actives-marked code t now id device (c ∷ codes) =
      ground (arith, actives-marked code t now id device codes)

  -- A row for a code that is not active yet.
  Unique-cons :
      (now : ℕ) (row : PairingCode Scope) (codes : List (PairingCode Scope))
      → actives row.code now codes ≡ 0
      → Unique now codes
      → Unique now (row ∷ codes)
  Unique-cons now row codes free unique code = elim (Bool-cases (text_beq row.code code)) [
    | inl same ↦
        let e = (text_beq_iff row.code code).0 same in
        ground (arith, subst (λ t. actives t now codes ≡ 0) e free)
    | inr other ↦ ground (arith, other, unique code)
  ]

  add_code-Unique :
      (id now ttl : ℕ) (scope : Scope) (user : Option ℕ) (draws : List Text)
      (codes : List (PairingCode Scope))
      → Unique now codes
      → Unique now (add_code id now ttl scope user draws codes).1
  unfolding add_code active_code
  add_code-Unique id now ttl scope user [] codes unique = unique
  add_code-Unique id now ttl scope user (draw ∷ draws) codes unique =
      go (add_code-Unique id now ttl scope user draws codes unique)
        (filter_by (is_active_code draw now) codes) refl
    where
      go :
          Unique now (add_code id now ttl scope user draws codes).1
          → (found : List (PairingCode Scope)) → filter_by (is_active_code draw now) codes ≡ found
          → Unique now
              (use_draw
                (new_code id now ttl scope user draw)
                codes
                (add_code id now ttl scope user draws codes)
                (one_or_none found)).1
      go retry [] h =
          Unique-cons now (new_code id now ttl scope user draw) codes
            (none_counted (is_active_code draw now) codes h) unique
      go retry (c ∷ []) h = retry
      go retry (c ∷ d ∷ rest) h = unique

  -- Creating a code keeps every code unique, if it was.
  pub create_pairing_code-Unique :
      (id now ttl : ℕ) (scope : Scope) (user : Option ℕ) (draws : List Text)
      (codes : List (PairingCode Scope))
      → Unique now codes
      → Unique now (create_pairing_code id now ttl scope user draws codes).1
  unfolding create_pairing_code
  create_pairing_code-Unique id now ttl scope user draws codes unique =
      add_code-Unique id now ttl scope user (take 10 draws) codes unique

  -- After the row of a code has been marked, the code is not active at any later time.
  pub consumed_gone :
      (code : Text) (now later device : ℕ) (c : PairingCode Scope)
      (codes : List (PairingCode Scope))
      → now ≤ later
      → Unique now codes
      → consume_pairing_code now code codes ≡ ok (some c)
      → consume_pairing_code later code (mark_consumed now c.id device codes) ≡ ok none
  unfolding consume_pairing_code
  consumed_gone code now later device c codes le unique h =
      let p : PairingCode Scope → Bool = is_active_code code now in
      let q : PairingCode Scope → Bool = λ x. x.id == c.id in
      let one = head_counted p q c [] codes (only_one (filter_by p codes) c h) (==_refl c.id) in
      let none_left = count_none (is_active_code code later) (mark_consumed now c.id device codes) (
        omega (
          arith,
          one,
          count_split p q codes,
          unique code,
          actives-marked code now now c.id device codes,
          actives-later code now later (mark_consumed now c.id device codes) le,
        )) in
      rw none_left refl
