-- ===== src/Tests/Compile.antt =====
-- Runs of the compiler of schemas on small documents, and of the functions that it calls.
use rustly_core.Base.{◌+◌, ◌≤◌, ◌≡◌, refl, ◌↔◌, true, none, some, [], ◌∷◌, arith}
use rustly_core.Json.{JsonValue, JsonArray, as_str, get as lookup, erase, nth}
use rustly_core.Schema.Options.{apply_collection_constraints}
use rustly_core.Schema.Ir.{SchemaIr, PrimitiveType}
use rustly_core.Schema.Expr.{TypeExpr}
use rustly_core.Json.Size.{size}
use rustly_core.Json.Lookup.{IsMap}
use rustly_core.Schema.Options.{merge_options, inline_map_without_type}
use rustly_core.Schema.Options.Merge.{
  or_else, get_option, get-merge_options, get-inline_map_without_type,
}
use rustly_core.Schema.Enums.{parse_enum_type}
use rustly_core.Schema.Parse.Enums.{distinct, parse_enum_type-strings}
use rustly_core.Validation.Format.{is_uuid}
use rustly_core.Validation.Format.Uuid.{UuidText, is_uuid_lem}
use rustly_core.Base.{if◌then◌else◌, str_eq, false}
use rustly_core.Base.Text.{codes, encode}
use rustly_core.Json.{JsonMap, strings}
use rustly_core.Base.{List}
use rustly_core.Base.Lists.{length}
use rustly_core.Schema.Plan.{RubyIds, MaterializeEntry, new_plan, plan_get}
use rustly_core.Schema.Plan.Found.{last_named, plan_get-new_plan, entries_of}
use rustly_core.Pipeline.{Decides, compile-Decides}
use rustly_core.Schema.Document.{from_value, compile_value}
use rustly_core.Schema.Document.Compiles.{IsSound, compile_value_lem}
use rustly_core.Schema.Parse.Post.{Post}
use rustly_core.Schema.Parse.Shape.{Fits, IsSchema}
use rustly_core.Schema.Parse.Total.{parse_type_expr_lem}
use rustly_core.Schema.Error.{ok, err, invalid_schema, invalid, or_invalid, ◌>>=◌}
use rustly_core.Schema.Parse.{parse_type_expr}
use rustly_core.Tests.{test_host}

-- `["list", "int"]`
abbrev int_list_document : JsonValue
int_list_document = JsonValue.array (
    JsonArray.cons (JsonValue.string "list")
      (JsonArray.cons (JsonValue.string "int") JsonArray.nil))

abbrev int_list : TypeExpr
int_list =
    TypeExpr.list (TypeExpr.primitive (PrimitiveType.int (record { min = none; max = none })))
      (record { min_size = none; max_size = none })

int_list_document-small : size int_list_document ≤ 3
unfolding size
int_list_document-small = omega arith

from_value-int_list : from_value test_host int_list_document ≡ ok (record { root = int_list })
unfolding from_value parse_type_expr size as_str lookup erase apply_collection_constraints nth ◌>>=◌
    or_invalid
from_value-int_list = refl

compile-Decides_example :
    (ir : SchemaIr) × (compile_value test_host int_list_document ≡ ok ir)
    × IsSchema int_list
    × Decides test_host ir int_list
compile-Decides_example =
    compile-Decides test_host int_list_document (record { root = int_list })
      (omega (arith, int_list_document-small)) from_value-int_list

compile_value_lem_example : Post "$" IsSound (compile_value test_host int_list_document)
compile_value_lem_example =
    compile_value_lem test_host int_list_document (omega (arith, int_list_document-small))

parse_type_expr_lem_example :
    Post "$.of"
      (Fits (size int_list_document + 0))
      (parse_type_expr test_host 3 int_list_document none "$.of")
parse_type_expr_lem_example =
    parse_type_expr_lem test_host 3 int_list_document none "$.of"
      (omega (arith, int_list_document-small))

parse_nothing :
    parse_type_expr test_host 1 (JsonValue.array JsonArray.nil) none "$"
    ≡ err (invalid_schema "$" "array type expression cannot be empty")
unfolding parse_type_expr invalid
parse_nothing = refl

parse_enum_type-strings_example :
    parse_enum_type (some (JsonValue.array (strings ("a" ∷ "b" ∷ "a" ∷ [])))) none none "$"
    ≡ ok (TypeExpr.enum (distinct ("a" ∷ "b" ∷ "a" ∷ [])))
parse_enum_type-strings_example = parse_enum_type-strings "a" ("b" ∷ "a" ∷ []) none none "$"

distinct_a_b : distinct ("a" ∷ "b" ∷ "a" ∷ []) ≡ "a" ∷ "b" ∷ []
distinct_a_b = refl

abbrev test_ids : RubyIds
test_ids = record { rb_intern2 = λ s. length (codes s); rb_intern = λ s. length (codes s) + 100 }

abbrev two_entries : List MaterializeEntry
two_entries = entries_of test_ids ("id" ∷ "tags" ∷ "id" ∷ [])

plan_get-new_plan_example : plan_get (new_plan two_entries) "id" ≡ last_named "id" two_entries
plan_get-new_plan_example = plan_get-new_plan two_entries "id"

-- `{ "max" => true, "min" => null }`
abbrev two_options : JsonMap
two_options =
    JsonMap.entry "max" (JsonValue.bool true) (JsonMap.entry "min" JsonValue.null JsonMap.empty)

abbrev one_option : JsonMap
one_option = JsonMap.entry "max" (JsonValue.bool false) JsonMap.empty

two_options-IsMap : IsMap two_options
unfolding lookup
two_options-IsMap = (refl, (refl, tt))

one_option-IsMap : IsMap one_option
unfolding lookup
one_option-IsMap = (refl, tt)

get-merge_options_example :
    lookup "max" (merge_options (some one_option) (some two_options))
    ≡ or_else (get_option "max" (some one_option)) (get_option "max" (some two_options))
get-merge_options_example =
    get-merge_options "max" (some one_option) (some two_options) one_option-IsMap two_options-IsMap

get-inline_map_without_type_example :
    lookup "min" (inline_map_without_type two_options)
    ≡ (if str_eq "min" "type" then none else lookup "min" two_options)
get-inline_map_without_type_example =
    get-inline_map_without_type "min" two_options two_options-IsMap

is_uuid_lem_example :
    (is_uuid "123e4567-e89b-12d3-a456-426614174000" ≡ true)
    ↔ UuidText (encode (codes "123e4567-e89b-12d3-a456-426614174000"))
is_uuid_lem_example = is_uuid_lem "123e4567-e89b-12d3-a456-426614174000"
