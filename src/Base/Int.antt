-- ===== src/Base/Int.antt =====
-- Integers over the native numbers, for the times and their differences.
use Prim.Native.Nat.{ℕ, suc, ◌-◌, ◌≤◌}
use mathlib.Core.Bool.{Bool, true, false}
use mathlib.Core.Path.{◌≡◌}
use native.Mathlib.Omega.{arith}
use ailens.Base.Tests.{leb, ltb}

pub data ℤ : Type 0 where
  pos : ℕ → ℤ
  negsuc : ℕ → ℤ

-- `m - n`
unfoldable pub difference : ℕ → ℕ → ℤ
difference m n = elim (leb n m) [ true ↦ pos (m - n) | false ↦ negsuc (n - suc m) ]

pub difference_of_le : (m n : ℕ) → n ≤ m → difference m n ≡ pos (m - n)
unfolding difference
difference_of_le m n h = ground arith

-- `a < b`
unfoldable pub less : ℤ → ℤ → Bool
less (pos m) (pos n) = ltb m n
less (pos m) (negsuc n) = false
less (negsuc m) (pos n) = true
less (negsuc m) (negsuc n) = ltb n m
