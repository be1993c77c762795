-- ===== src/Native/TypedData.antt =====
-- The Rust values that Ruby objects hold (`wrap_compiled_schema`, `wrap_error_set`,
-- `schema_from_value` and `error_set_from_value` of ext/rustly_core/src/ruby_helpers.rs). The marking,
-- the freeing and the measuring of them for the garbage collector are memory alone.
use rustly_core.Base.{Option, none, some}
use rustly_core.Ruby.{RubyValue}
use rustly_core.Schema.Compiled.{CompiledSchema}
use rustly_core.Materialize.{RubyHeap, Built, built, raised, B, call}
use rustly_core.Native.Errors.{ErrorSet}

-- `COMPILED_SCHEMA_TYPE` and `ERROR_SET_TYPE`
pub data DataType : Type 0 where
  compiled_schema_type error_set_type : DataType

-- What an object of a data type points to.
abbrev pub Boxed : DataType → Type 0
Boxed DataType.compiled_schema_type = CompiledSchema
Boxed DataType.error_set_type = ErrorSet

-- The C API for such objects. `none`: `rb_check_typeddata` raises a `TypeError`.
pub record TypedData (Y : RubyHeap) : Type 0 where
  pub rb_data_typed_object_wrap :
      (t : DataType) → RubyValue → Boxed t → Y.Store → RubyValue × Y.Store
  pub rb_check_typeddata : (t : DataType) → RubyValue → Y.Store → Option (Boxed t)

abbrev pub given_or_raised : {S A : Type 0} → Option A → S → Built S A
given_or_raised none st = raised st
given_or_raised (some a) st = built a st

module _ (Y : RubyHeap) (D : TypedData Y) where
  abbrev pub wrap_compiled_schema : CompiledSchema → RubyValue → B Y RubyValue
  wrap_compiled_schema schema klass =
      call (D.rb_data_typed_object_wrap DataType.compiled_schema_type klass schema)

  abbrev pub wrap_error_set : ErrorSet → RubyValue → B Y RubyValue
  wrap_error_set set klass = call (D.rb_data_typed_object_wrap DataType.error_set_type klass set)

  abbrev pub schema_from_value : RubyValue → B Y CompiledSchema
  schema_from_value value st =
      given_or_raised (D.rb_check_typeddata DataType.compiled_schema_type value st) st

  abbrev pub error_set_from_value : RubyValue → B Y ErrorSet
  error_set_from_value value st =
      given_or_raised (D.rb_check_typeddata DataType.error_set_type value st) st
