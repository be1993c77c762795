-- ===== src/Validation/Result.antt =====
-- A whole validation (`validate_prepared_input`, `validate_owned`, `validate_json` and `finish` of
-- ext/rustly_core/src/validation/engine.rs).
pub mod Correct
pub mod Verdict
use rustly_core.Base.{String, ◌⊎◌, inl, inr, Bool, true, false, Option, none, some, List, [], ◌∷◌}
use rustly_core.Json.{JsonValue, JsonMap}
use rustly_core.Host.{Host}
use rustly_core.Schema.Ir.{SchemaIr}
use rustly_core.Validation.Options.{ValidationOptions}
use rustly_core.Validation.Value.{OwnedValue, from_json}
use rustly_core.Validation.State.{ValidationIssue, Validator, Outcome, done, panic, timeout}
use rustly_core.Validation.Engine.{validate_root}

-- `PreparedInput`; a `PreparedOwned` is its value, the arena being memory alone.
pub data PreparedInput : Type 0 where
  owned : OwnedValue → PreparedInput
  json : String → PreparedInput

pub record ValidationResult : Type 0 where
  pub output : Option OwnedValue
  pub issues : List ValidationIssue

-- `issues.is_empty()`
abbrev pub no_issues : List ValidationIssue → Bool
no_issues [] = true
no_issues (i ∷ is) = false

-- `ValidationResult::is_valid`
abbrev pub is_valid : ValidationResult → Bool
is_valid r = no_issues r.issues

-- `Validator::new`
abbrev pub new_validator : SchemaIr → ValidationOptions → Validator
new_validator schema options = record { schema = schema; options = options; path = []; issues = [] }

-- What `finish` makes of the output and the issues.
abbrev pub finished : Option OwnedValue → List ValidationIssue → ValidationResult
finished output [] = record { output = output; issues = [] }
finished output (i ∷ is) = record { output = none; issues = i ∷ is }

-- `none`: the walk panicked, or the fuel of the model ran out.
unfoldable pub finish : Outcome (Option OwnedValue) → Option ValidationResult
finish (done output st) = some (finished output st.issues)
finish panic = none
finish timeout = none

unfoldable pub validate_owned :
    Host → SchemaIr → OwnedValue → ValidationOptions → Option ValidationResult
unfolding finish
validate_owned H schema root options = finish (validate_root H root (new_validator schema options))

abbrev pub json_issue : ValidationIssue
json_issue = record {
  path = "";
  code = "format_invalid";
  meta = JsonMap.entry "kind" (JsonValue.string "json") JsonMap.empty;
}

-- What follows the reading of the text.
unfoldable pub validate_parsed :
    Host → SchemaIr → String ⊎ JsonValue → ValidationOptions → Option ValidationResult
unfolding validate_owned
validate_parsed H schema (inl message) options =
    some (record { output = none; issues = json_issue ∷ [] })
validate_parsed H schema (inr value) options = validate_owned H schema (from_json H value) options

unfoldable pub validate_json :
    Host → SchemaIr → String → ValidationOptions → Option ValidationResult
unfolding validate_parsed
validate_json H schema source options = validate_parsed H schema (H.from_str source) options

unfoldable pub validate_prepared_input :
    Host → SchemaIr → PreparedInput → ValidationOptions → Option ValidationResult
unfolding validate_owned validate_json
validate_prepared_input H schema (PreparedInput.owned value) options =
    validate_owned H schema value options
validate_prepared_input H schema (PreparedInput.json source) options =
    validate_json H schema source options
