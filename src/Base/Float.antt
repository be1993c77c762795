-- ===== src/Base/Float.antt =====
-- 64-bit floats by their bits. `ordered_float::OrderedFloat` counts the two zeros as equal, and all
-- NaNs too, so a value here is given by one pattern for each class: negative zero and the other
-- NaNs do not occur. The order is that of `<` on f64: no NaN is below or above anything.
use Prim.Native.Nat.{ℕ, ◌*◌, ◌%◌, ◌^◌}
use mathlib.Core.Bool.{Bool, true, false, ◌&&◌, not}
use native.Mathlib.Decide.{ℕ_discrete}
use rustly_core.Base.Tests.{ltb, leb}

pub record F64 : Type 0 where
  pub bits : ℕ

unfoldable pub F64-discrete : Discrete F64
F64-discrete = hlevel ℕ_discrete

abbrev pub magnitude : F64 → ℕ
magnitude f = f.bits % 2 ^ 63

abbrev pub is_negative : F64 → Bool
is_negative f = leb (2 ^ 63) f.bits

-- The bits of infinity; a larger magnitude is a NaN.
abbrev pub infinity_bits : ℕ
infinity_bits = 2047 * 2 ^ 52

unfoldable pub is_nan : F64 → Bool
is_nan f = ltb infinity_bits (magnitude f)

unfoldable pub is_finite : F64 → Bool
is_finite f = ltb (magnitude f) infinity_bits

ordered : Bool → Bool → ℕ → ℕ → Bool
ordered false false a b = ltb a b
ordered false true a b = false
ordered true false a b = true
ordered true true a b = ltb b a

-- `a < b` of two f64.
unfoldable pub lt_float : F64 → F64 → Bool
unfolding is_nan ordered
lt_float a b =
    not (is_nan a)
    && not (is_nan b)
    && ordered (is_negative a) (is_negative b) (magnitude a) (magnitude b)
