-- ===== src/Validation/Result/Correct.antt =====
-- A validation under a compiled schema ends, and gives what the specification says.
use rustly_core.Base.{◌≤◌, ◌^◌, ◌≡◌, refl, ap, String, ◌⊎◌, inl, inr, Option, none, some, [], ◌∷◌}
use rustly_core.Json.{JsonValue}
use rustly_core.Host.{Host}
use rustly_core.Schema.Ir.{SchemaIr, len}
use rustly_core.Schema.Expr.{TypeExpr, count}
use rustly_core.Schema.Build.{build_ir}
use rustly_core.Schema.Build.Correct.{IsCompiled, build_ir-IsCompiled, Denotes-lt}
use rustly_core.Validation.Options.{ValidationOptions}
use rustly_core.Validation.Value.{OwnedValue, from_json}
use rustly_core.Validation.Engine.{validate_root}
use rustly_core.Validation.Spec.{check}
use rustly_core.Validation.Spec.Refines.{refines}
use rustly_core.Validation.Result.{
  PreparedInput, ValidationResult, finished, finish, json_issue, validate_owned, validate_parsed,
  validate_prepared_input,
}

-- The specification of a validation: an unreadable text is one issue, and otherwise the value is
-- checked against the type expression, at the empty path.
abbrev pub checked : Host → ValidationOptions → TypeExpr → OwnedValue → ValidationResult
checked H o t v = finished (check H o t [] v).0 (check H o t [] v).1

abbrev pub parsed_value : Host → String ⊎ JsonValue → Option OwnedValue
parsed_value H (inl message) = none
parsed_value H (inr value) = some (from_json H value)

abbrev pub input_value : Host → PreparedInput → Option OwnedValue
input_value H (PreparedInput.owned v) = some v
input_value H (PreparedInput.json source) = parsed_value H (H.from_str source)

abbrev pub expected : Host → ValidationOptions → TypeExpr → Option OwnedValue → ValidationResult
expected H o t none = record { output = none; issues = json_issue ∷ [] }
expected H o t (some v) = checked H o t v

module _ (H : Host) (o : ValidationOptions) (t : TypeExpr) where
  validate_owned-checked :
      (ir : SchemaIr)
      → IsCompiled t ir
      → (v : OwnedValue) → validate_owned H ir v o ≡ some (checked H o t v)
  unfolding validate_owned validate_root
  validate_owned-checked ir c v =
      let lt = Denotes-lt t ir.arena ir.root c.denotes in
      let e = refines H ir o c.ordered t (len ir.arena) ir.root c.denotes lt [] v in
      ap finish (e.run [])

  parsed_lem :
      (ir : SchemaIr)
      → IsCompiled t ir
      → (r : String ⊎ JsonValue)
      → validate_parsed H ir r o ≡ some (expected H o t (parsed_value H r))
  unfolding validate_parsed
  parsed_lem ir c (inl message) = refl
  parsed_lem ir c (inr value) = validate_owned-checked ir c (from_json H value)

  validate-expected :
      (ir : SchemaIr)
      → IsCompiled t ir
      → (input : PreparedInput)
      → validate_prepared_input H ir input o ≡ some (expected H o t (input_value H input))
  unfolding validate_prepared_input
  validate-expected ir c (PreparedInput.owned v) = validate_owned-checked ir c v
  validate-expected ir c (PreparedInput.json source) = parsed_lem ir c (H.from_str source)

  -- Under the arena that `build_ir` makes of a type expression of at most 2^32 parts, a validation
  -- ends and does not panic, and its output and its issues are those of the specification.
  pub validate_prepared_input-expected :
      count t ≤ 2 ^ 32
      → (input : PreparedInput)
      → validate_prepared_input H (build_ir t) input o ≡ some (expected H o t (input_value H input))
  validate_prepared_input-expected room input =
      validate-expected (build_ir t) (build_ir-IsCompiled t room) input
