-- ===== src/Base/Decimal.antt =====
-- `%d` of a number that is not negative, and that two numbers never print alike.
use Prim.Native.Nat.{ℕ, zero, suc, ◌+◌, ◌-◌, ◌*◌, ◌/◌, ◌%◌, ◌<◌}
use mathlib.Core.Path.{◌≡◌, refl, sym, ap, ◌∙◌}
use mathlib.Core.Logic.{inl, inr}
use mathlib.Core.Bool.{Bool, true, false, ◌&&◌}
use mathlib.Core.List.{[], ◌∷◌, ◌++◌}
use native.Mathlib.Omega.{arith}
use komachi.Base.Tests.{ltb, leb, Bool-cases}
use komachi.Base.Lists.{all}
use komachi.Base.Strings.{Text}

-- The digits of `n`, with fuel for as many divisions.
digits : ℕ → ℕ → Text
digits zero n = []
digits (suc fuel) n = elim (ltb n 10) [
  | true ↦ (b'0' + n) ∷ []
  | false ↦ digits fuel (n / 10) ++ (b'0' + n % 10) ∷ []
]

unfoldable pub decimal : ℕ → Text
unfolding digits
decimal n = digits (suc n) n

value : ℕ → Text → ℕ
value acc [] = acc
value acc (c ∷ s) = value (acc * 10 + (c - b'0')) s

value-append :
    (acc : ℕ) (s : Text) (c : ℕ) → value acc (s ++ c ∷ []) ≡ value acc s * 10 + (c - b'0')
unfolding value
value-append acc [] c = refl
value-append acc (d ∷ s) c = value-append (acc * 10 + (d - b'0')) s c

value-digits : (fuel n : ℕ) → n < fuel → value 0 (digits fuel n) ≡ n
unfolding digits
value-digits zero n h = absurd (omega arith)
value-digits (suc fuel) n h = elim (Bool-cases (ltb n 10)) [
  | inl small ↦ rw (small, digits) (unfold value in ground arith)
  | inr big ↦
      rw (big, digits)
        (value-append 0 (digits fuel (n / 10)) (b'0' + n % 10)
          ∙ ground (arith, value-digits fuel (n / 10)))
]

pub decimal_injective : (m n : ℕ) → decimal m ≡ decimal n → m ≡ n
unfolding decimal
decimal_injective m n e =
    sym (value-digits (suc m) m (omega arith))
    ∙ ap (value 0) e
    ∙ value-digits (suc n) n (omega arith)

abbrev pub is_digit : ℕ → Bool
is_digit c = leb b'0' c && leb c b'9'

all-append_digit :
    (s : Text) (c : ℕ)
    → all is_digit s ≡ true
    → is_digit c ≡ true
    → all is_digit (s ++ c ∷ []) ≡ true
all-append_digit [] c h k = ground arith
all-append_digit (d ∷ s) c h k = ground (arith, all-append_digit s c)

all-digits : (fuel n : ℕ) → all is_digit (digits fuel n) ≡ true
unfolding digits
all-digits zero n = refl
all-digits (suc fuel) n = elim (Bool-cases (ltb n 10)) [
  | inl small ↦ rw (small, digits) (ground arith)
  | inr big ↦
      rw (big, digits)
        (all-append_digit (digits fuel (n / 10)) (b'0' + n % 10) (all-digits fuel (n / 10))
          (ground arith))
]

pub decimal_digits : (n : ℕ) → all is_digit (decimal n) ≡ true
unfolding decimal
decimal_digits n = all-digits (suc n) n

append-ne-nil : (s : Text) (c : ℕ) → (s ++ c ∷ []) ≡ [] → ⊥
append-ne-nil [] c e = ground arith
append-ne-nil (d ∷ s) c e = ground arith

pub decimal-ne-nil : (n : ℕ) → decimal n ≡ [] → ⊥
unfolding decimal digits
decimal-ne-nil n e = elim (Bool-cases (ltb n 10)) [
  | inl small ↦ ground arith
  | inr big ↦ append-ne-nil (digits n (n / 10)) (b'0' + n % 10) (rw (big, decimal, digits) at e)
]
