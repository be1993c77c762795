-- ===== src/Tests.antt =====
-- Runs of the model on a small schema: a record with a number, an optional list of texts, and keys
-- that the schema does not name.
pub mod Compile
pub mod Native
pub mod Flow
pub mod Build
pub mod Heap
pub mod Variables
use rustly_core.Base.{◌≤◌, ◌^◌, ◌≡◌, refl, ◌↔◌, true, none, some, [], ◌∷◌, arith, inr, ℕ_discrete}
use rustly_core.Base.Tests.{string_discrete}
use rustly_core.Base.Int.{pos, lt_int, ℤ_discrete}
use rustly_core.Base.Float.{F64-discrete}
use rustly_core.Base.Text.{parse_i64, trim}
use rustly_core.Json.{JsonValue}
use rustly_core.Host.{Host}
use rustly_core.Schema.Ir.{
  NodeId, Node, PrimitiveType, ExtraBehavior, StructFieldPresence, len, get, node_id, intern, find,
  Node-discrete, alloc, empty_store,
}
use rustly_core.Schema.Expr.{TypeExpr, FieldExprs, count}
use rustly_core.Schema.Build.{build_ir}
use rustly_core.Schema.Build.Denotes.{Denotes}
use rustly_core.Schema.Build.Invariant.{Grows, empty_store-IsStore, intern_lem}
use rustly_core.Schema.Build.Correct.{IsCompiled, build_ir-IsCompiled, len-build_ir}
use rustly_core.Schema.Build.Sharing.{build_ir-shares}
use rustly_core.Validation.Options.{ValidationOptions, default_options}
use rustly_core.Validation.Value.{OwnedValue, OwnedList, OwnedDict}
use rustly_core.Validation.Engine.{find_field_index}
use rustly_core.Validation.Path.{PathSegment, format_path, path_text, format_path_lem}
use rustly_core.Validation.Spec.{check}
use rustly_core.Validation.Accepts.{Accepts, Conforms}
use rustly_core.Validation.Result.{
  PreparedInput, ValidationResult, is_valid, validate_prepared_input,
}
use rustly_core.Validation.Result.Correct.{
  validate_prepared_input-expected, checked, expected, input_value,
}
use rustly_core.Validation.Result.Verdict.{validate-decides, validate-Conforms, root_extra_ignored}

abbrev pub test_host : Host
test_host = record {
  int_as_f64 = λ i. record { bits = 0 };
  parse_f64 = λ cs. none;
  to_lowercase = λ s. s;
  from_str = λ s. inr (JsonValue.string s);
  json_text = λ v. "";
  debug_text = λ v. "?";
}

abbrev positive : TypeExpr
positive = TypeExpr.primitive (PrimitiveType.int (record { min = some (pos 1); max = none }))

abbrev texts : TypeExpr
texts =
    TypeExpr.list
      (TypeExpr.primitive
        (PrimitiveType.string (record { min_size = some 1; max_size = none; format = none })))
      (record { min_size = none; max_size = some 2 })

abbrev test_fields : FieldExprs
test_fields = FieldExprs.field "id" StructFieldPresence.required positive (
    FieldExprs.field "tags" StructFieldPresence.optional texts
      (FieldExprs.field "rank" StructFieldPresence.optional positive FieldExprs.nil))

abbrev pub test_schema : TypeExpr
test_schema = TypeExpr.struct test_fields ExtraBehavior.forbid

abbrev pub lenient : ValidationOptions
lenient = record {
  strict = default_options.strict;
  input_mode = default_options.input_mode;
  extra_behavior = ExtraBehavior.allow;
  freeze = default_options.freeze;
  store_attributes = default_options.store_attributes;
}

-- `{ "id" => "7", "tags" => ["a"], "note" => true }`
abbrev test_value : OwnedValue
test_value = OwnedValue.dict (
    OwnedDict.entry "id" (OwnedValue.string "7") (
      OwnedDict.entry "tags"
        (OwnedValue.list (OwnedList.cons (OwnedValue.string "a") OwnedList.nil))
        (OwnedDict.entry "note" (OwnedValue.bool true) OwnedDict.empty)))

pub test_schema-small : count test_schema ≤ 2 ^ 32
unfolding count
test_schema-small = omega arith

validate-decides_example :
    (r : ValidationResult) × (validate_prepared_input test_host
        (build_ir test_schema)
        (PreparedInput.owned test_value)
        lenient
      ≡ some r)
    × ((is_valid r ≡ true) ↔ Accepts test_host lenient true test_schema test_value)
validate-decides_example =
    validate-decides test_host lenient test_schema test_schema-small test_value

test_value-valid : is_valid (checked test_host lenient test_schema test_value) ≡ true
unfolding check parse_i64 trim lt_int find_field_index
test_value-valid = refl

validate-Conforms_example :
    (w : OwnedValue) × ((checked test_host lenient test_schema test_value).output ≡ some w)
    × Conforms lenient true test_schema w
validate-Conforms_example =
    validate-Conforms test_host lenient test_schema test_schema-small test_value
      (checked test_host lenient test_schema test_value)
      (validate_prepared_input-expected test_host lenient test_schema test_schema-small
        (PreparedInput.owned test_value))
      test_value-valid

validate_prepared_input-expected_example :
    validate_prepared_input test_host (build_ir test_schema) (PreparedInput.json "{}") lenient
    ≡ some
        (expected test_host lenient test_schema (input_value test_host (PreparedInput.json "{}")))
validate_prepared_input-expected_example =
    validate_prepared_input-expected test_host lenient test_schema test_schema-small
      (PreparedInput.json "{}")

root_extra_ignored_example :
    validate_prepared_input test_host
      (build_ir test_schema)
      (PreparedInput.owned test_value)
      lenient
    ≡ validate_prepared_input test_host
        (build_ir (TypeExpr.struct test_fields ExtraBehavior.ignore))
        (PreparedInput.owned test_value)
        lenient
root_extra_ignored_example =
    root_extra_ignored test_host lenient test_fields ExtraBehavior.forbid ExtraBehavior.ignore
      test_schema-small (PreparedInput.owned test_value)

build_ir-IsCompiled_example : IsCompiled test_schema (build_ir test_schema)
build_ir-IsCompiled_example = build_ir-IsCompiled test_schema test_schema-small

len-build_ir_example : len (build_ir test_schema).arena ≤ count test_schema
len-build_ir_example = len-build_ir test_schema test_schema-small

abbrev node_zero : NodeId
node_zero = record { index = 0 }

-- The fields `id` and `rank` share node 0.
first_node : Denotes positive (build_ir test_schema).arena node_zero
unfolding build_ir intern find Node-discrete alloc node_id ℤ_discrete F64-discrete string_discrete
    ℕ_discrete
first_node = refl

build_ir-shares_example : node_zero ≡ node_zero
build_ir-shares_example =
    build_ir-shares test_schema test_schema-small positive node_zero node_zero first_node first_node

abbrev choice : Node
choice = Node.enum ("a" ∷ [])

intern_lem_example :
    Grows 1 empty_store (intern empty_store choice).1
    × (get (intern empty_store choice).1.arena (intern empty_store choice).0 ≡ some choice)
intern_lem_example = intern_lem empty_store choice empty_store-IsStore (omega arith) tt

format_path_lem_example :
    format_path (
      PathSegment.key "" ∷ PathSegment.key "tags" ∷ PathSegment.index 1 ∷ PathSegment.key "id" ∷ [])
    ≡ path_text (
        PathSegment.key ""
        ∷ PathSegment.key "tags"
        ∷ PathSegment.index 1
        ∷ PathSegment.key "id"
        ∷ [])
format_path_lem_example =
    format_path_lem (
      PathSegment.key "" ∷ PathSegment.key "tags" ∷ PathSegment.index 1 ∷ PathSegment.key "id" ∷ [])

-- The expression has five parts, the arena four nodes: `id` and `rank` share one.
len-test_schema : len (build_ir test_schema).arena ≡ 4
unfolding build_ir intern find Node-discrete alloc node_id ℤ_discrete F64-discrete string_discrete
    ℕ_discrete
len-test_schema = refl
