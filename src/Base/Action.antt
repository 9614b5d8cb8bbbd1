-- ===== src/Base/Action.antt =====
-- A handler: state and exceptions. What was written before a raise stays in the session until the
-- surrounding transaction rolls it back.
use mathlib.Core.Bool.{Bool, true, false}
use mathlib.Core.Path.{◌≡◌, refl}
use mathlib.Core.Option.{Option, none, some}
use Prim.Native.Nat.{ℕ}

-- `http n` is an HTTPException with status n.
pub data Error : Type 0 where
  value_error integrity_error data_error : Error
  http : ℕ → Error

pub data Result (A : Type 0) : Type 0 where
  ok : A → Result A
  err : Error → Result A

abbrev pub Action : Type 0 → Type 0 → Type 0
Action S A = S → Result A × S

module _ {S : Type 0} {A : Type 0} where
  abbrev pub pure : A → Action S A
  pure a s = (ok a, s)

  abbrev pub raise : Error → Action S A
  raise e s = (err e, s)

  abbrev pub gets : (S → A) → Action S A
  gets f s = (ok (f s), s)

  abbrev pub or_raise : Option A → Error → Action S A
  or_raise none e = raise e
  or_raise (some a) _ = pure a

  -- `async with session_scope()` and `get_db`: commit on success, roll back on an exception.
  unfoldable pub transaction : Action S A → Action S A
  transaction m s = let (r, s') = m s in elim r [ ok a ↦ (ok a, s') | err e ↦ (err e, s) ]

infixl 5 ◌>>=◌ ◌>>◌
abbrev pub ◌>>=◌ : {S A B : Type 0} → Action S A → (A → Action S B) → Action S B
◌>>=◌ m f s = let (r, s') = m s in elim r [ ok a ↦ f a s' | err e ↦ (err e, s') ]

abbrev pub ◌>>◌ : {S A B : Type 0} → Action S A → Action S B → Action S B
m >> k = m >>= λ _. k

abbrev pub raise_if : {S : Type 0} → Bool → Error → Action S (Unit {0})
raise_if b e s = (elim b [ true ↦ err e | false ↦ ok tt ], s)

abbrev pub modify : {S : Type 0} → (S → S) → Action S (Unit {0})
modify f s = (ok tt, f s)

-- To prove a property of `m >>= f`, split on how `m` ended.
pub bind_rule :
    {S A B : Type 0} (P : Result B × S → Type 0) (r : Result A × S) {g : A → Result B × S}
    → ((a : A) → r.0 ≡ ok a → P (g a))
    → ((x : Error) → r.0 ≡ err x → P (err x, r.1))
    → P (elim r.0 [ ok a ↦ g a | err e ↦ (err e, r.1) ])
bind_rule P (ok a, s) h k = h a refl
bind_rule P (err x, s) h k = k x refl

pub ok-injective : {A : Type 0} {a b : A} → ok a ≡ ok b → a ≡ b
ok-injective h = cc

-- A property that a step keeps is kept by its transaction: a rollback restores the state.
pub transaction_keeps :
    {S A : Type 0} (P : S → Type 0) (m : Action S A) (s : S)
    → P s
    → P (m s).1
    → P (transaction m s).1
unfolding transaction
transaction_keeps {S} {A} P m s h k = go (m s) k
  where
    go :
        (r : Result A × S)
        → P r.1
        → P (elim r.0 as (λ _. Result A × S) [ ok a ↦ (ok a, r.1) | err e ↦ (err e, s) ]).1
    go (ok a, s') k = k
    go (err x, s') k = h
