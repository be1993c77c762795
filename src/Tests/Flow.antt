-- ===== src/Tests/Flow.antt =====
-- Runs of `compile` and `validate` on the heap of Tests/Native.antt, with the schema `"int"`.
use rustly_core.Base.{
  ◌≤◌, ◌^◌, ◌<◌, String, ◌<>◌, ◌≡◌, ◌↔◌, ◌⊎◌, refl, ap, ◌∙◌, true, false, none, some, [], arith,
  inl, ℕ,
}
use rustly_core.Base.Int.{pos}
use rustly_core.Base.Text.{codes, encode_char, encode}
use rustly_core.Json.{JsonValue, get as lookup, erase}
use rustly_core.Json.Size.{size}
use rustly_core.Ruby.{truthy}
use rustly_core.Input.Shape.{RubyData, objects}
use rustly_core.Input.Spec.{got, read}
use rustly_core.Input.Prepare.{expected_input}
use rustly_core.Schema.Ir.{PrimitiveType, intern, find, alloc, node_id}
use rustly_core.Schema.Expr.{TypeExpr, count}
use rustly_core.Schema.Error.{ok, ◌>>=◌}
use rustly_core.Schema.Build.{build_ir}
use rustly_core.Schema.Document.{SchemaDocument, from_value}
use rustly_core.Schema.Parse.{parse_type_expr}
use rustly_core.Schema.Parse.Shape.{IsSchema}
use rustly_core.Schema.Plan.{RubyIds, new_plan, build_materialize_plan}
use rustly_core.Schema.Summary.{byte_len, truncate, shorten, summary_from_value}
use rustly_core.Schema.Summary.Cut.{CutAt, shorten-CutAt}
use rustly_core.Schema.Compiled.{CompiledSchema}
use rustly_core.Validation.Options.{ValidationOptions}
use rustly_core.Validation.Value.{OwnedValue}
use rustly_core.Validation.Accepts.{Accepts}
use rustly_core.Native.Options.Given.{with_defaults, parse_options-given}
use rustly_core.Native.Gvl.{continue, ended, call_without_gvl, call_without_gvl-once}
use rustly_core.Native.Flow.{validate, valid}
use rustly_core.Native.Flow.Answer.{CallOptions, call_options}
use rustly_core.Native.Flow.Expected.{answer, validate-expected, validate-Accepts}
use rustly_core.Native.Compile.{Generate, compile}
use rustly_core.Native.Compile.Sound.{
  IsText, Refused, Taken, outcome, compile-outcome, compile-outcomes,
}
use rustly_core.Native.Compile.Decides.{compile-validates}
use rustly_core.Tests.{test_host}
use rustly_core.Tests.Native.{
  test_reads, test_symbols, test_given, test_given-given, test_tree, test_tree-small,
  test_tree-shown, typed,
}

abbrev pub int_root : TypeExpr
int_root = TypeExpr.primitive (PrimitiveType.int (record { min = none; max = none }))

pub int_root-small : count int_root ≤ 2 ^ 32
unfolding count
int_root-small = omega arith

abbrev ids : RubyIds
ids = record { rb_intern2 = λ s. 1; rb_intern = λ s. 2 }

abbrev no_generate : Generate
no_generate v = none

abbrev pub test_options : ValidationOptions
test_options = with_defaults test_given

abbrev pub int_schema : CompiledSchema
int_schema = record {
  id = 5;
  summary = "";
  ir = build_ir int_root;
  plan = new_plan [];
  options = test_options;
}

abbrev int_text : JsonValue
int_text = JsonValue.string "int"

from_value-int : from_value test_host int_text ≡ ok (record { root = int_root })
unfolding from_value parse_type_expr size ◌>>=◌ lookup erase
from_value-int = refl

ast-IsText : IsText test_reads 30 "int"
unfolding truthy
ast-IsText = record { string = refl; text = refl }

int_text-small : size int_text ≤ 2 ^ 32
unfolding size
int_text-small = omega arith

compile-outcomes_example :
    Refused test_reads test_host ids no_generate test_symbols 5 30 60 int_text false
    ⊎ Taken test_reads test_host ids no_generate test_symbols 5 30 60 test_options int_text false
compile-outcomes_example =
    compile-outcomes test_reads test_host ids no_generate test_symbols 5 30 60 test_options "int"
      int_text false (parse_options-given test_reads test_symbols 60 test_given test_given-given)
      ast-IsText refl int_text-small

compile-int :
    compile test_reads test_host ids no_generate test_symbols 5 30 60 false
    ≡ ended (int_schema, 6) false
unfolding summary_from_value build_materialize_plan build_ir intern find alloc node_id
compile-int =
    compile-outcome test_reads test_host ids no_generate test_symbols 5 30 60 test_options "int"
      int_text false (parse_options-given test_reads test_symbols 60 test_given test_given-given)
      ast-IsText refl
    ∙ ap
        (λ r.
          outcome test_reads test_host ids no_generate test_symbols 5 test_options int_text r false)
        from_value-int

pub read-seven : read (RubyData.integer (pos 7)) [] ≡ got (OwnedValue.int (pos 7))
unfolding read
read-seven = refl

pub one_object : objects (RubyData.integer (pos 7)) ≤ 1
unfolding objects
one_object = omega arith

compile-validates_example :
    (d : SchemaDocument) × (from_value test_host int_text ≡ ok d)
    × IsSchema d.root
    × ((validate test_reads test_host test_symbols (some 1) 1 int_schema 15 8 true
          ≡ ended valid true)
        ↔ Accepts test_host test_options true d.root (OwnedValue.int (pos 7)))
compile-validates_example =
    compile-validates test_reads test_host ids no_generate test_symbols 5 30 60 test_options "int"
      int_text (parse_options-given test_reads test_symbols 60 test_given test_given-given)
      ast-IsText refl int_text-small refl int_schema 6 false false compile-int 0 1
      (RubyData.integer (pos 7)) 15 one_object (inl (typed 15 refl refl refl), refl)
      (OwnedValue.int (pos 7)) read-seven true

validate-expected_example :
    validate test_reads test_host test_symbols (some 2) 4 int_schema 40 60 false
    ≡ continue
        (λ o. answer test_host o int_root (expected_input test_reads o.input_mode 40 test_tree))
        (call_options int_schema (CallOptions.given test_given) false)
validate-expected_example =
    validate-expected test_reads test_host test_symbols 1 4 int_schema int_root refl int_root-small
      test_tree 40 test_tree-small test_tree-shown 60 (CallOptions.given test_given)
      test_given-given false

validate-Accepts_example :
    (validate test_reads test_host test_symbols (some 1) 1 int_schema 15 8 false
      ≡ ended valid false)
    ↔ Accepts test_host test_options true int_root (OwnedValue.int (pos 7))
validate-Accepts_example =
    validate-Accepts test_reads test_host test_symbols 0 1 int_schema int_root refl int_root-small
      (RubyData.integer (pos 7)) 15 one_object (inl (typed 15 refl refl refl), refl) 8 test_options
      false refl refl (OwnedValue.int (pos 7)) read-seven

call_without_gvl-once_example :
    call_without_gvl {A = ℕ} (some 3) (λ skip. ended 7 true) false ≡ ended 7 true
call_without_gvl-once_example = call_without_gvl-once 2 (λ skip. ended 7 true) false

-- 100 bytes.
abbrev hundred : String
hundred =
    "0123456789012345678901234567890123456789012345678901234567890123456789012345678901234567890123456789"

abbrev two_hundred_one : String
two_hundred_one =
    "01234567890123456789012345678901234567890123456789012345678901234567890123456789012345678901234567890123456789012345678901234567890123456789012345678901234567890123456789012345678901234567890123456789A"

two_hundred_one-long : 200 < byte_len (codes two_hundred_one)
unfolding encode
two_hundred_one-long = omega arith

shorten-CutAt_example :
    (shorten two_hundred_one ≡ some (hundred <> hundred <> "…"))
    ↔ ((p : String) × CutAt 200 two_hundred_one p × ((hundred <> hundred <> "…") ≡ p <> "…"))
shorten-CutAt_example =
    shorten-CutAt two_hundred_one (hundred <> hundred <> "…") two_hundred_one-long

-- A cut inside a character is a panic.
truncate-inside : truncate 2 "aéb" ≡ none
unfolding truncate encode_char
truncate-inside = refl
