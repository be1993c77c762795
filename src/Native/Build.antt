-- ===== src/Native/Build.antt =====
-- The methods `build` and `build_synced` (ext/rustly_core/src/lib.rs), which validate an input and make
-- a Ruby object of what the validation gives.
pub mod Conforms
pub mod Ends
use rustly_core.Base.{ℕ, Bool, true, false, Option, if◌then◌else◌}
use rustly_core.Host.{Host}
use rustly_core.Ruby.{RubyValue}
use rustly_core.Input.{Prepared, prepared, refused, prepare_input}
use rustly_core.Schema.Compiled.{CompiledSchema}
use rustly_core.Validation.Value.{OwnedValue}
use rustly_core.Validation.Result.{PreparedInput, ValidationResult, is_valid}
use rustly_core.Materialize.{RubyHeap, Built, built, failed}
use rustly_core.Materialize.Instance.{materialize_instance}
use rustly_core.Native.Options.{Symbols}
use rustly_core.Native.Errors.{
  error_set_from_issues, error_set_from_input_error, error_set_from_materialize_error,
}
use rustly_core.Native.Gvl.{
  T, pure, raise, ruby_error, validation_error, stuck, ◌>>=◌, execute_with_gvl,
}
use rustly_core.Native.Flow.{or_stuck, validate_no_gvl}

unfoldable pub prepared_or_raise : Prepared → T PreparedInput
unfolding error_set_from_input_error
prepared_or_raise (prepared input) = pure input
prepared_or_raise (refused e) = raise (validation_error (error_set_from_input_error e))
prepared_or_raise Prepared.raised = raise ruby_error
prepared_or_raise Prepared.exhausted = λ skip. stuck

unfoldable pub instance_or_raise : {S : Type 0} → Built S RubyValue → T (RubyValue × S)
unfolding error_set_from_materialize_error
instance_or_raise (built instance st) = pure (instance, st)
instance_or_raise (failed e st) = raise (validation_error (error_set_from_materialize_error e))
instance_or_raise (Built.raised st) = raise ruby_error
instance_or_raise Built.exhausted = λ skip. stuck
instance_or_raise Built.panicked = λ skip. stuck

-- The end of the process by `output.expect(…)` is `stuck`.
unfoldable pub output_or_raise : ValidationResult → T OwnedValue
unfolding error_set_from_issues
output_or_raise r =
    if is_valid r
    then or_stuck r.output
    else raise (validation_error (error_set_from_issues r.issues))

-- `fuel` is that of the conversion of the input, `deep` that of the freezing.
module _ (Y : RubyHeap) (H : Host) (S : Symbols) (runs : Option ℕ) (fuel deep : ℕ) where
  -- The validation, without the lock or under the flag.
  unfoldable pub validate_by : Bool → Y.Store → CompiledSchema → PreparedInput → T ValidationResult
  unfolding validate_no_gvl execute_with_gvl
  validate_by true st c p = validate_no_gvl (Y.reads st) H S runs fuel c.ir p c.options
  validate_by false st c p =
      execute_with_gvl (validate_no_gvl (Y.reads st) H S runs fuel c.ir p c.options)

  -- `attr` is the id of `@attributes`.
  unfoldable pub build_internal :
      CompiledSchema → RubyValue → RubyValue → Option ℕ → Bool → Y.Store → T (RubyValue × Y.Store)
  unfolding prepared_or_raise validate_by output_or_raise instance_or_raise ◌>>=◌
  build_internal c input klass attr release_gvl st =
      prepared_or_raise (prepare_input (Y.reads st) fuel input c.options.input_mode) >>= λ p.
      validate_by release_gvl st c p >>= output_or_raise >>= λ w. instance_or_raise (
        materialize_instance Y deep klass attr w c.plan c.options.freeze c.options.store_attributes
          st)

  unfoldable pub build :
      CompiledSchema → RubyValue → RubyValue → Option ℕ → Y.Store → T (RubyValue × Y.Store)
  unfolding build_internal
  build c input klass attr st = build_internal c input klass attr true st

  unfoldable pub build_synced :
      CompiledSchema → RubyValue → RubyValue → Option ℕ → Y.Store → T (RubyValue × Y.Store)
  unfolding build_internal
  build_synced c input klass attr st = build_internal c input klass attr false st
