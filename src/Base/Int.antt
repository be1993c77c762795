-- ===== src/Base/Int.antt =====
-- Signed integers over the native numbers, and the range of an i64.
use Prim.Native.Nat.{ℕ, ◌-◌, ◌^◌}
use mathlib.Core.Bool.{Bool, true, false}
use native.Mathlib.Decide.{ℕ_discrete}
use rustly_core.Base.Tests.{ltb}

-- `negsuc n` is -(n + 1).
pub data ℤ : Type 0 where
  pos : ℕ → ℤ
  negsuc : ℕ → ℤ

unfoldable pub ℤ_discrete : Discrete ℤ
ℤ_discrete = hlevel ℕ_discrete

-- `a < b` of two i64.
unfoldable pub lt_int : ℤ → ℤ → Bool
lt_int (pos a) (pos b) = ltb a b
lt_int (pos a) (negsuc b) = false
lt_int (negsuc a) (pos b) = true
lt_int (negsuc a) (negsuc b) = ltb b a

-- `v as i64` of a u64: the upper half of the range wraps around to the negative numbers.
unfoldable pub u64_as_i64 : ℕ → ℤ
u64_as_i64 n = elim (ltb n (2 ^ 63)) [ true ↦ pos n | false ↦ negsuc (2 ^ 64 - 1 - n) ]
