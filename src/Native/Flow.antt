-- ===== src/Native/Flow.antt =====
-- The methods that validate (`validate`, `bench_prepare` and `bench_validate` of
-- ext/rustly_core/src/lib.rs, and `validate_no_gvl` of ext/rustly_core/src/validation/engine.rs). The
-- pointer of `schema_from_value` is the schema itself.
pub mod Answer
pub mod Expected
use rustly_core.Base.{ℕ, String, Option, none, some, ◌==◌, if◌then◌else◌}
use rustly_core.Host.{Host}
use rustly_core.Ruby.{RubyValue, Reads, Raising, gives, exception, symbol_to_owned}
use rustly_core.Input.{Prepared, prepared, refused, prepare_input}
use rustly_core.Schema.Ir.{SchemaIr}
use rustly_core.Schema.Compiled.{CompiledSchema}
use rustly_core.Validation.Options.{InputMode, ValidationOptions}
use rustly_core.Validation.Result.{
  PreparedInput, ValidationResult, is_valid, validate_prepared_input,
}
use rustly_core.Native.Options.{Parsed, parsed, bad, Symbols, map_input_mode, parse_options}
use rustly_core.Native.Errors.{
  ErrorSet, error_set_from_issues, error_set_from_input_error, argument_message,
}
use rustly_core.Native.Gvl.{
  argument_error, ruby_error, T, pure, raise, ◌>>=◌, call_without_gvl, stuck,
}

-- The array that a validation returns: `[true, nil]`, or `false` and an error set.
pub data Verdict : Type 0 where
  valid : Verdict
  invalid : ErrorSet → Verdict

unfoldable pub raise_argument_error {ℓ} : {A : Type ℓ} → String → T A
unfolding argument_message
raise_argument_error message = raise (argument_error (argument_message message))

-- `none`: the validation panicked, or the fuel of its model ran out.
abbrev pub or_stuck {ℓ} : {A : Type ℓ} → Option A → T A
or_stuck none skip = stuck
or_stuck (some a) skip = pure a skip

unfoldable pub or_argument_error {ℓ} : {A : Type ℓ} → Parsed A → T A
unfolding raise_argument_error
or_argument_error (parsed a) = pure a
or_argument_error (bad message) = raise_argument_error message
or_argument_error Parsed.raised = raise ruby_error

unfoldable pub verdict_of : ValidationResult → Verdict
unfolding error_set_from_issues
verdict_of r = if is_valid r then valid else invalid (error_set_from_issues r.issues)

-- What follows `prepare_input`.
unfoldable pub after_prepare : (PreparedInput → T Verdict) → Prepared → T Verdict
unfolding error_set_from_input_error
after_prepare f (prepared input) = f input
after_prepare f (refused e) = pure (invalid (error_set_from_input_error e))
after_prepare f Prepared.raised = raise ruby_error
after_prepare f Prepared.exhausted = λ skip. stuck

-- The Symbol that `Rustly::Core::Bench.prepare` expects.
unfoldable pub bench_mode : Raising (Option String) → T InputMode
unfolding or_argument_error map_input_mode raise_argument_error
bench_mode (gives (some symbol)) = or_argument_error (map_input_mode symbol)
bench_mode (gives none) = raise_argument_error "Rustly::Core::Bench.prepare expects a Symbol"
bench_mode exception = raise ruby_error

module _ (R : Reads) (H : Host) (S : Symbols) (runs : Option ℕ) (fuel : ℕ) where
  unfoldable pub validate_no_gvl : SchemaIr → PreparedInput → ValidationOptions → T ValidationResult
  unfolding call_without_gvl
  validate_no_gvl ir input options =
      call_without_gvl runs (or_stuck (validate_prepared_input H ir input options))

  unfoldable pub validate_with : CompiledSchema → RubyValue → ValidationOptions → T Verdict
  unfolding after_prepare validate_no_gvl verdict_of ◌>>=◌
  validate_with compiled input options =
      after_prepare (λ p. validate_no_gvl compiled.ir p options >>= λ r. pure (verdict_of r))
        (prepare_input R fuel input options.input_mode)

  -- Options that are given stand for all those of the schema.
  unfoldable pub validate : CompiledSchema → RubyValue → RubyValue → T Verdict
  unfolding or_argument_error validate_with ◌>>=◌
  validate compiled input opts =
      (if opts == R.qnil then pure compiled.options else or_argument_error (parse_options R S opts))
      >>= validate_with compiled input

  unfoldable pub bench_validate : CompiledSchema → RubyValue → RubyValue → T Verdict
  unfolding or_argument_error validate_with ◌>>=◌
  bench_validate compiled input opts =
      or_argument_error (parse_options R S opts) >>= validate_with compiled input

  unfoldable pub bench_prepare : RubyValue → RubyValue → T Verdict
  unfolding bench_mode after_prepare ◌>>=◌
  bench_prepare input mode = bench_mode (symbol_to_owned R mode) >>= λ m.
      after_prepare (λ p. pure valid) (prepare_input R fuel input m)
