-- ===== src/Native/Methods.antt =====
-- The methods of the objects that the extension makes, and their allocators
-- (ext/rustly_core/src/lib.rs), with `CompiledSchema::default` of
-- ext/rustly_core/src/schema/compiled.rs.
use rustly_core.Base.{ℕ, String, Option, []}
use rustly_core.Ruby.{RubyValue}
use rustly_core.Host.{Host}
use rustly_core.Schema.Ir.{empty_ir}
use rustly_core.Schema.Plan.{MaterializePlan, new_plan}
use rustly_core.Schema.Compiled.{CompiledSchema, next_id, new_schema}
use rustly_core.Materialize.{RubyHeap, B, pure, call, or_raised, ◌>>=◌}
use rustly_core.Native.Errors.{ErrorSet, from_entries}
use rustly_core.Native.Messages.{error_set_messages}
use rustly_core.Native.TypedData.{
  TypedData, wrap_compiled_schema, wrap_error_set, schema_from_value, error_set_from_value,
}

-- `MaterializePlan::empty`
unfoldable pub empty_plan : MaterializePlan
unfolding new_plan
empty_plan = new_plan []

-- `CompiledSchema::default`, with `NEXT_SCHEMA_ID` before it: the schema, and the counter after it.
unfoldable pub default_schema : ℕ → CompiledSchema × ℕ
unfolding empty_plan empty_ir
default_schema counter =
    (new_schema (next_id counter).0 "{}" empty_ir empty_plan, (next_id counter).1)

-- `ErrorSet::default`
abbrev pub default_error_set : ErrorSet
default_error_set = from_entries []

module _ (Y : RubyHeap) (H : Host) (D : TypedData Y) where
  -- The object, and the counter after it.
  unfoldable pub compiled_schema_alloc : ℕ → RubyValue → B Y (RubyValue × ℕ)
  unfolding default_schema ◌>>=◌
  compiled_schema_alloc counter klass = do
    object ← wrap_compiled_schema Y D (default_schema counter).0 klass
    pure (object, (default_schema counter).1)

  unfoldable pub error_set_alloc : RubyValue → B Y RubyValue
  error_set_alloc klass = wrap_error_set Y D default_error_set klass

  unfoldable pub compiled_schema_id : RubyValue → B Y RubyValue
  unfolding ◌>>=◌
  compiled_schema_id self_value = do
    schema ← schema_from_value Y D self_value
    call (Y.rb_ull2inum schema.id)

  unfoldable pub compiled_schema_summary : RubyValue → B Y RubyValue
  unfolding ◌>>=◌
  compiled_schema_summary self_value = do
    schema ← schema_from_value Y D self_value
    call (Y.rb_utf8_str_new schema.summary)

  -- `error_set_messages`, from the object on.
  unfoldable pub messages : RubyValue → B Y RubyValue
  unfolding error_set_messages ◌>>=◌
  messages self_value = do set ← error_set_from_value Y D self_value; error_set_messages Y H set

  -- `VERSION` is a text that the build gives.
  unfoldable pub version : String → B Y RubyValue
  version text = call (Y.rb_utf8_str_new text)

  -- `raise_validation_error`, up to `rb_exc_raise`: the exception that is raised. `new` is Ruby's
  -- `ValidationError.new`, which may raise an exception itself.
  unfoldable pub raise_validation_error :
      (RubyValue → Y.Store → Option (RubyValue × Y.Store)) → RubyValue → ErrorSet → B Y RubyValue
  unfolding ◌>>=◌
  raise_validation_error new error_set_class error_set = do
    error_value ← wrap_error_set Y D error_set error_set_class
    λ st. or_raised st (new error_value st)
