-- ===== src/Input/Types.antt =====
-- Which branch of the conversion an object takes, by its type.
use rustly_core.Base.{◌≡◌, Bool, true, false, Option, none, some, ◌==◌, arith}
use rustly_core.Ruby.{RubyValue, RubyType, Reads}
use rustly_core.Validation.Value.{OwnedValue}
use rustly_core.Input.{
  C, pure, or_raised, or_unsupported, unsupported, copy_ruby_string, copy_ruby_symbol,
  convert_array, convert_hash, convert_typed, convert_value,
}
use rustly_core.Input.Shape.{RubyData, Typed, Shows}

module _ (R : Reads) (go : RubyValue → C OwnedValue) where
  pub nil_lem : (v : RubyValue) → (v == R.qnil) ≡ true → convert_value R go v ≡ pure OwnedValue.null
  unfolding convert_value
  nil_lem v e = rw e

  pub boolean_lem :
      (v : RubyValue) (b : Bool)
      → Shows R v (RubyData.boolean b)
      → convert_value R go v ≡ pure (OwnedValue.bool b)
  unfolding convert_value
  boolean_lem v true (e, f) = rw (e, f)
  boolean_lem v false (e, f, g) = rw (e, f, g)

  -- What becomes of an object of a type.
  abbrev pub by_type : Option RubyType → RubyValue → C OwnedValue
  by_type (some RubyType.t_fixnum) v = or_raised (R.rb_num2ll v)
  by_type (some RubyType.t_bignum) v = or_raised (R.rb_num2ll v)
  by_type (some RubyType.t_float) v = pure (OwnedValue.float (R.rb_num2dbl v))
  by_type (some RubyType.t_string) v = or_unsupported R OwnedValue.string (copy_ruby_string R v) v
  by_type (some RubyType.t_symbol) v = or_unsupported R OwnedValue.symbol (copy_ruby_symbol R v) v
  by_type (some RubyType.t_array) v = convert_array R go v
  by_type (some RubyType.t_hash) v = convert_hash R go v
  by_type none v = unsupported R v

  typed_lem :
      (v : RubyValue) (ty : Option RubyType) → Typed R v ty → convert_typed R go v ≡ by_type ty v
  unfolding convert_typed
  typed_lem v (some RubyType.t_fixnum) t = rw (t.typed RubyType.t_fixnum)
  typed_lem v _ t = ground (
    arith,
    t.typed RubyType.t_fixnum,
    t.typed RubyType.t_bignum,
    t.typed RubyType.t_float,
    t.typed RubyType.t_string,
    t.typed RubyType.t_symbol,
    t.typed RubyType.t_array,
    t.typed RubyType.t_hash,
  )

  pub special_lem :
      (v : RubyValue) (ty : Option RubyType) → Typed R v ty → convert_value R go v ≡ by_type ty v
  unfolding convert_value
  special_lem v ty t = rw (t.not_nil, t.not_true, t.not_false) (typed_lem v ty t)
