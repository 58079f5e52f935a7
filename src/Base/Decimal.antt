-- ===== src/Base/Decimal.antt =====
-- `String(n)` at a number that is a natural: its decimal digits.
use Prim.Native.Nat.{ℕ, zero, suc, ◌<◌, ◌/◌, ◌%◌}
use Prim.Native.String.{String, [], ◌∷◌, ◌++◌}
use mathlib.Core.Bool.{true, false}
use mathlib.Core.Logic.{inl, inr}
use mathlib.Core.Path.{◌≡◌, refl, ap}
use native.Mathlib.Omega.{arith}
use ailens.Base.Tests.{ltb, Bool-cases, if◌then◌else◌}

-- The piece of one character at a position.
abbrev pub char_at : ℕ → String → String
char_at k [] = ""
char_at zero (c ∷ s) = c ∷ []
char_at (suc k) (c ∷ s) = char_at k s

abbrev digit : ℕ → String
digit n = char_at n "0123456789"

-- The digits of a number, at most as many as the fuel allows.
decimal_from : ℕ → ℕ → String
decimal_from zero n = ""
decimal_from (suc f) n = elim (ltb n 10) [
  | true ↦ digit n
  | false ↦ decimal_from f (n / 10) ++ digit (n % 10)
]

unfoldable pub decimal : ℕ → String
unfolding decimal_from
decimal n = decimal_from (suc n) n

decimal_from-suc :
    (f n : ℕ)
    → decimal_from (suc f) n
      ≡ (if ltb n 10 then digit n else decimal_from f (n / 10) ++ digit (n % 10))
unfolding decimal_from
decimal_from-suc f n = ground arith

decimal_from-enough : (f g n : ℕ) → n < f → n < g → decimal_from f n ≡ decimal_from g n
decimal_from-enough zero g n p q = ground arith
decimal_from-enough (suc f) zero n p q = ground arith
decimal_from-enough (suc f) (suc g) n p q = elim (Bool-cases (ltb n 10)) [
  | inl small ↦ rw (decimal_from-suc f n, decimal_from-suc g n, small) refl
  | inr large ↦
      rw (decimal_from-suc f n, decimal_from-suc g n, large)
        (ap (λ s. s ++ digit (n % 10))
          (decimal_from-enough f g (n / 10) (grind arith) (grind arith)))
]

-- The fuel is enough for every number: its last digit follows the digits of its tenth.
pub decimal_lem :
    (n : ℕ) → decimal n ≡ (if ltb n 10 then digit n else decimal (n / 10) ++ digit (n % 10))
unfolding decimal
decimal_lem n = elim (Bool-cases (ltb n 10)) [
  | inl small ↦ rw (decimal_from-suc n n, small) refl
  | inr large ↦
      rw (decimal_from-suc n n, large)
        (ap (λ s. s ++ digit (n % 10))
          (decimal_from-enough n (suc (n / 10)) (n / 10) (grind arith) (grind arith)))
]
