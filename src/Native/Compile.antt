-- ===== src/Native/Compile.antt =====
-- The method `compile` (ext/rustly_core/src/lib.rs) with `SchemaCompiler::compile`, `RubyJson` and the
-- texts of `CompileError` (ext/rustly_core/src/schema/compiler.rs). The counter of the schemas goes in
-- and out; the wrapped schema is the schema itself.
pub mod Sound
pub mod Decides
use rustly_core.Base.{ℕ, String, ◌<>◌, ◌⊎◌, inl, inr, Bool, not, Option, none, some, if◌then◌else◌}
use rustly_core.Json.{JsonValue}
use rustly_core.Host.{Host}
use rustly_core.Ruby.{RubyValue, RubyClass, Reads, CText, truthy}
use rustly_core.Schema.Error.{
  CompileError, json_conversion, invalid_schema, Compiled, ok, err, exhausted,
}
use rustly_core.Schema.Build.{build_ir}
use rustly_core.Schema.Document.{SchemaDocument, from_value}
use rustly_core.Schema.Plan.{RubyIds, build_materialize_plan}
use rustly_core.Schema.Summary.{summary_from_value}
use rustly_core.Schema.Compiled.{CompiledSchema, next_id, new_schema}
use rustly_core.Validation.Options.{ValidationOptions}
use rustly_core.Native.Options.{Symbols, parse_options}
use rustly_core.Native.Gvl.{T, pure, raise, ruby_error, ◌>>=◌, stuck}
use rustly_core.Native.Flow.{or_stuck, or_argument_error, raise_argument_error}

-- `JSON.generate`, with the reads after it, since it runs Ruby code; `none`: it raises an exception.
abbrev pub Generate : Type 0
Generate = RubyValue → Option (RubyValue × Reads)

-- `to_string` of an error.
unfoldable pub error_text : CompileError → String
error_text (json_conversion message) = "failed to convert schema AST to JSON: " <> message
error_text (invalid_schema path message) = "invalid schema at " <> path <> ": " <> message
error_text (CompileError.json message) = message

abbrev pub source_of : CText → T (Compiled String)
source_of CText.raises = raise ruby_error
source_of CText.null_pointer =
    pure (err (json_conversion "Ruby string conversion yielded null pointer"))
source_of (CText.text s) = pure (ok s)

-- `RubyJson::ruby_string`
unfoldable pub ruby_string : Reads → RubyValue → T (Compiled String)
ruby_string R v = source_of (R.rb_string_value_cstr v)

abbrev pub is_string : Reads → RubyValue → Bool
is_string R v = truthy R (R.rb_obj_is_kind_of v RubyClass.c_string)

unfoldable pub generated : Option (RubyValue × Reads) → T (Compiled String)
unfolding truthy ruby_string
generated none = raise ruby_error
generated (some (v, R)) =
    if not (is_string R v)
    then pure (err (json_conversion "JSON.generate returned a non-string value"))
    else ruby_string R v

-- `RubyJson::coerce`
unfoldable pub coerce : Reads → Generate → RubyValue → T (Compiled String)
unfolding truthy ruby_string generated
coerce R generate v = if is_string R v then ruby_string R v else generated (generate v)

-- `?`, the fuel of the model aside.
abbrev pub try_compiled : {A B : Type 0} → Compiled A → (A → T (Compiled B)) → T (Compiled B)
try_compiled (ok a) f = f a
try_compiled (err e) f = pure (err e)
try_compiled exhausted f = λ skip. stuck

abbrev pub read_json : String ⊎ JsonValue → Compiled JsonValue
read_json (inl message) = err (CompileError.json message)
read_json (inr value) = ok value

abbrev pub or_argument_text : {A : Type 0} → Compiled A → T A
or_argument_text (ok a) = pure a
or_argument_text (err e) = raise_argument_error (error_text e)
or_argument_text exhausted = λ skip. stuck

-- `*compiled.options_mut() = options`
abbrev pub set_options : ValidationOptions → CompiledSchema × ℕ → CompiledSchema × ℕ
set_options options (c, counter) = (record c { options = options }, counter)

module _ (R : Reads) (H : Host) (I : RubyIds) (generate : Generate) where
  -- The summary is made before the plan; each may panic.
  unfoldable pub finish_schema : ℕ → JsonValue → SchemaDocument → T (Compiled (CompiledSchema × ℕ))
  unfolding summary_from_value build_materialize_plan ◌>>=◌
  finish_schema counter value document = or_stuck (summary_from_value H value) >>= λ summary.
      or_stuck (build_materialize_plan I (build_ir document.root)) >>= λ plan. pure (
        ok (
          new_schema (next_id counter).0 summary (build_ir document.root) plan,
          (next_id counter).1,
        ))

  -- `SchemaCompiler::compile`
  unfoldable pub compile_schema : ℕ → RubyValue → T (Compiled (CompiledSchema × ℕ))
  unfolding coerce from_value finish_schema ◌>>=◌
  compile_schema counter ast = coerce R generate ast >>= λ source. try_compiled source (λ s.
      try_compiled (read_json (H.from_str s))
        (λ value. try_compiled (from_value H value) (finish_schema counter value)))

  unfoldable pub compile : Symbols → ℕ → RubyValue → RubyValue → T (CompiledSchema × ℕ)
  unfolding compile_schema or_argument_error raise_argument_error error_text ◌>>=◌
  compile S counter ast opts = or_argument_error (parse_options R S opts) >>= λ options.
      compile_schema counter ast >>= or_argument_text >>= λ c. pure (set_options options c)
