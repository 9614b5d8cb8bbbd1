-- ===== src/Base/Text.antt =====
-- Texts as lists of the numbers of their characters, and decimal numerals.
use sentry_backend.Base.{
  ℕ, zero, suc, ◌+◌, ◌-◌, ◌*◌, ◌/◌, ◌%◌, ◌<◌, ◌≡◌, ◌↔◌, refl, ap, sym, ◌∙◌, Bool, true, false, ◌&&◌,
  List, [], ◌∷◌, ◌++◌, ltb, ◌==◌, if◌then◌else◌, arith, Bool-cases, inl, inr,
}
use sentry_backend.Base.Eq.{Eq}

abbrev pub Text : Type 0
Text = List ℕ

abbrev pub text_beq : Text → Text → Bool
text_beq [] [] = true
text_beq [] (d ∷ b) = false
text_beq (c ∷ a) [] = false
text_beq (c ∷ a) (d ∷ b) = c == d && text_beq a b

pub text_beq_iff : (a b : Text) → (text_beq a b ≡ true) ↔ (a ≡ b)
text_beq_iff [] [] = ground arith
text_beq_iff [] (d ∷ b) = ground arith
text_beq_iff (c ∷ a) [] = ground arith
text_beq_iff (c ∷ a) (d ∷ b) = ground (arith, text_beq_iff a b)

instance abbrev pub text_eq : Eq Text
text_eq = record { beq = text_beq; beq_iff = text_beq_iff }

digits_on : ℕ → ℕ → Text
digits_on zero n = []
digits_on (suc fuel) n =
    let rest = digits_on fuel (n / 10) in
    if ltb n 10 then (48 + n) ∷ [] else rest ++ ((48 + n % 10) ∷ [])

-- `str(n)`; a number has no more digits than itself and one.
unfoldable pub digits : ℕ → Text
unfolding digits_on
digits n = digits_on (suc n) n

unfoldable pub value_on : ℕ → Text → ℕ
value_on acc [] = acc
value_on acc (c ∷ t) = value_on (acc * 10 + (c - 48)) t

-- `int(text)` of a text of digits.
unfoldable pub value : Text → ℕ
unfolding value_on
value t = value_on 0 t

value_on-append :
    (acc c : ℕ) (t : Text) → value_on acc (t ++ (c ∷ [])) ≡ value_on acc t * 10 + (c - 48)
unfolding value_on
value_on-append acc c [] = refl
value_on-append acc c (d ∷ t) = value_on-append (acc * 10 + (d - 48)) c t

value-digits_on : (fuel n : ℕ) → n < fuel → value_on 0 (digits_on fuel n) ≡ n
unfolding digits_on value_on
value-digits_on zero n h = absurd (omega (arith, h))
value-digits_on (suc fuel) n h = elim (Bool-cases (ltb n 10)) [
  | inl small ↦ rw small (ground arith)
  | inr large ↦
      rw (large, value_on-append 0 (48 + n % 10) (digits_on fuel (n / 10)))
        (ground (arith, large, h, value-digits_on fuel (n / 10)))
]

-- A numeral is read back.
pub value-digits : (n : ℕ) → value (digits n) ≡ n
unfolding value digits
value-digits n = value-digits_on (suc n) n (omega arith)

pub digits-injective : (m n : ℕ) → digits m ≡ digits n → m ≡ n
digits-injective m n h = sym (value-digits m) ∙ ap value h ∙ value-digits n
