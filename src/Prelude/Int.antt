-- ===== src/Prelude/Int.antt =====
-- Signed numbers, for the source's int and long.
use Prim.Native.Nat.{ℕ, zero, suc}
use mathlib.Core.Bool.{Bool, true, false}
use kineircd.Prelude.Tests.{ltb}

-- `negsuc n` is -(n + 1).
pub data ℤ : Type 0 where
  pos : ℕ → ℤ
  negsuc : ℕ → ℤ

-- The test `0 < n`.
abbrev pub is_positive : ℤ → Bool
is_positive (pos zero) = false
is_positive (pos (suc n)) = true
is_positive (negsuc n) = false

-- The test `n == 1`.
abbrev pub is_one : ℤ → Bool
is_one (pos zero) = false
is_one (pos (suc zero)) = true
is_one (pos (suc (suc n))) = false
is_one (negsuc n) = false

-- The test `m < n`.
abbrev pub ltbℤ : ℤ → ℤ → Bool
ltbℤ (pos m) (pos n) = ltb m n
ltbℤ (pos m) (negsuc n) = false
ltbℤ (negsuc m) (pos n) = true
ltbℤ (negsuc m) (negsuc n) = ltb n m
