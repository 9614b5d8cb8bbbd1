-- ===== src/Base/Eq.antt =====
-- Boolean equality as an interface, with its instances for identifiers and pairs of them.
use Prim.Native.Nat.{ℕ}
use mathlib.Core.Path.{◌≡◌}
use mathlib.Core.Logic.{◌↔◌}
use mathlib.Core.Bool.{Bool, true, ◌&&◌}
use native.Mathlib.Omega.{arith}
use sentry_backend.Base.{◌==◌, ==_iff}

pub record Eq (K : Type 0) : Type 0 where
  pub beq : K → K → Bool
  pub beq_iff : (a b : K) → (beq a b ≡ true) ↔ (a ≡ b)

abbrev pub nat_beq : ℕ → ℕ → Bool
nat_beq a b = a == b

abbrev pub pair_beq : ℕ × ℕ → ℕ × ℕ → Bool
pair_beq (a, b) (c, d) = a == c && b == d

pub pair_beq_iff : (p q : ℕ × ℕ) → (pair_beq p q ≡ true) ↔ (p ≡ q)
pair_beq_iff (a, b) (c, d) = ground arith

instance abbrev pub nat_eq : Eq ℕ
nat_eq = record { beq = nat_beq; beq_iff = ==_iff }

instance abbrev pub pair_eq : Eq (ℕ × ℕ)
pair_eq = record { beq = pair_beq; beq_iff = pair_beq_iff }
