-- ===== src/Tests/Heap/Runs.antt =====
-- Runs of the conversions on the heap that keeps its objects.
use rustly_core.Base.{◌≡◌, refl, ◌==◌, if◌then◌else◌, Option, none, some, true, [], ◌∷◌, arith}
use rustly_core.Base.Int.{pos, negsuc}
use rustly_core.Json.{JsonValue, JsonArray, JsonMap, integer}
use rustly_core.Validation.Value.{OwnedValue, OwnedList, OwnedDict, OwnedFields, OwnedExtras}
use rustly_core.Validation.Path.{PathSegment}
use rustly_core.Input.Shape.{objects}
use rustly_core.Native.Errors.{ErrorSet, from_entries}
use rustly_core.Heap.{has_key, fits}
use rustly_core.Heap.Shown.{shown}
use rustly_core.Heap.Values.{tree_of, fields_of, IsProper}
use rustly_core.Heap.Values.Converted.{
  ComesBackAs, owned_value_to_ruby-as_dicts, convert_ruby_value-owned_value_to_ruby,
}
use rustly_core.Heap.Values.Dicts.{as_dicts}
use rustly_core.Heap.Messages.{json_tree, HasMaps}
use rustly_core.Heap.Messages.Converted.{
  HaveI64, ReadsAsJson, convert_ruby_value-json_value_to_ruby,
}
use rustly_core.Ruby.{RubyValue}
use rustly_core.Native.TypedData.{DataType, Boxed, TypedData}
use rustly_core.Native.Init.{ClassApi, init_rustly_core}
use rustly_core.Native.Init.Started.{Started, init_rustly_core-Started}
use rustly_core.Native.Init.Distinct.{ClassLaws}
use rustly_core.Heap.Messages.Issues.{HasMessages, validate_prepared_input-HasMessages}
use rustly_core.Schema.Build.{build_ir}
use rustly_core.Validation.Result.{PreparedInput, validate_prepared_input}
use rustly_core.Tests.{test_host, test_schema, test_schema-small, lenient}
use rustly_core.Tests.Heap.{cells, storing}
use rustly_core.Tests.Heap.Laws.{storing-HeapLaws}

-- `[7, { a: :b, c: nil }]`
abbrev nested : OwnedValue
nested = OwnedValue.list (
    OwnedList.cons (OwnedValue.int (pos 7)) (
      OwnedList.cons
        (OwnedValue.dict (
          OwnedDict.entry "a" (OwnedValue.symbol "b")
            (OwnedDict.entry "c" OwnedValue.null OwnedDict.empty)))
        OwnedList.nil))

nested-IsProper : IsProper nested
unfolding fits has_key
nested-IsProper = (refl, (((refl, refl), refl, ((refl, refl), tt, tt)), tt))

nested-objects : objects (shown (tree_of nested)) ≡ 5
unfolding objects shown tree_of fits
nested-objects = refl

convert_ruby_value-owned_value_to_ruby_example :
    ComesBackAs storing nested nested [] 5 (PathSegment.index 2 ∷ [])
convert_ruby_value-owned_value_to_ruby_example =
    convert_ruby_value-owned_value_to_ruby storing cells storing-HeapLaws nested [] 5
      (PathSegment.index 2 ∷ []) nested-IsProper (tt, ((tt, (tt, tt)), tt))
      (omega (arith, nested-objects))

-- A struct with two of its three fields, and another key named as one of them.
abbrev partial : OwnedValue
partial =
    OwnedValue.struct ("id" ∷ "name" ∷ "age" ∷ [])
      (OwnedFields.present (OwnedValue.int (negsuc 0))
        (OwnedFields.absent (OwnedFields.present (OwnedValue.string "x") OwnedFields.end)))
      (OwnedExtras.extras (OwnedDict.entry "id" (OwnedValue.bool true) OwnedDict.empty))

partial-IsProper : IsProper partial
unfolding fits has_key fields_of
partial-IsProper = (((refl, refl), refl, ((refl, refl), tt, tt)), ((refl, refl), tt, tt))

partial-objects : objects (shown (tree_of partial)) ≡ 4
unfolding objects shown tree_of fits
partial-objects = refl

owned_value_to_ruby-as_dicts_example : ComesBackAs storing partial (as_dicts partial) [] 4 []
owned_value_to_ruby-as_dicts_example =
    owned_value_to_ruby-as_dicts storing cells storing-HeapLaws partial [] 4 [] partial-IsProper
      (omega (arith, partial-objects))

abbrev two_errors : ErrorSet
two_errors = from_entries (
    record {
      path = "/a";
      code = "type_mismatch";
      meta =
          JsonMap.entry "actual" (JsonValue.string "str")
            (JsonMap.entry "min" (JsonValue.number (integer (pos 3))) JsonMap.empty);
    }
    ∷ record { path = ""; code = "missing"; meta = JsonMap.empty }
    ∷ [])

-- The object 99 holds the errors.
abbrev check : (t : DataType) → RubyValue → Option (Boxed t)
check DataType.compiled_schema_type v = none
check DataType.error_set_type v = if v == 99 then some two_errors else none

abbrev holding : TypedData storing
holding = record {
  rb_data_typed_object_wrap = λ t klass boxed st. (99, st);
  rb_check_typeddata = λ t v st. check t v;
}

-- `{"a": [-1, null], "b": "x"}`
abbrev document : JsonValue
document = JsonValue.object (
    JsonMap.entry "a"
      (JsonValue.array (
        JsonArray.cons (JsonValue.number (integer (negsuc 0)))
          (JsonArray.cons JsonValue.null JsonArray.nil)))
      (JsonMap.entry "b" (JsonValue.string "x") JsonMap.empty))

document-HasMaps : HasMaps document
unfolding has_key
document-HasMaps = (refl, (tt, (tt, tt)), (refl, tt, tt))

document-HaveI64 : HaveI64 document
unfolding fits
document-HaveI64 = ((refl, (tt, tt)), (tt, tt))

document-objects : objects (shown (json_tree test_host document)) ≡ 5
unfolding objects shown json_tree fits
document-objects = refl

convert_ruby_value-json_value_to_ruby_example : ReadsAsJson storing test_host document [] 5 []
convert_ruby_value-json_value_to_ruby_example =
    convert_ruby_value-json_value_to_ruby storing test_host cells storing-HeapLaws document [] 5 []
      document-HasMaps document-HaveI64 (omega (arith, document-objects))

abbrev defining : ClassApi storing
defining = record {
  rb_cobject = 101;
  rb_estandarderror = 103;
  rb_define_module = λ name st. (105, st);
  rb_define_module_under = λ m name st. (107, st);
  rb_define_class_under = λ m name c st. (109, st);
  rb_define_alloc_func = λ c f st. st;
  rb_define_method = λ c name f n st. st;
  rb_define_singleton_method = λ c name f n st. st;
}

defining-ClassLaws : ClassLaws storing defining cells
defining-ClassLaws = record {
  module_kept = λ name st w c e. e;
  module_under_kept = λ m name st w c e. e;
  class_under_kept = λ m name k st w c e. e;
  alloc_func_kept = λ k f st w c e. e;
  method_kept = λ k name f n st w c e. e;
  singleton_method_kept = λ k name f n st w c e. e;
}

init_rustly_core-Started_example : Started storing cells [] (init_rustly_core storing defining [])
init_rustly_core-Started_example =
    init_rustly_core-Started storing cells storing-HeapLaws defining defining-ClassLaws []

validate_prepared_input-HasMessages_example :
    HasMessages storing test_host cells []
      (validate_prepared_input test_host (build_ir test_schema) (PreparedInput.json "{}") lenient)
validate_prepared_input-HasMessages_example =
    validate_prepared_input-HasMessages storing test_host cells storing-HeapLaws lenient test_schema
      test_schema-small (PreparedInput.json "{}") []
