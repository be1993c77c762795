-- ===== src/Schema/Parse.antt =====
-- From a JSON document to a type expression (`SchemaDocument::from_value` and the `parse_` functions
-- of ext/rustly_core/src/schema/compiler.rs). The types inside a type are found among options that
-- were copied together, so `parse_type_expr` takes fuel, one unit for each type on the way down;
-- the functions that it calls take it as an argument.
pub mod Post
pub mod Leaf
pub mod Shape
pub mod Inside
pub mod Total
pub mod Enums
use rustly_core.Base.{ℕ, zero, suc, String, ◌<>◌, ◌||◌, Option, none, some, str_eq, if◌then◌else◌}
use rustly_core.Json.{JsonValue, JsonArray, JsonMap, get, as_str, as_object, nth}
use rustly_core.Host.{Host}
use rustly_core.Schema.Ir.{PrimitiveType}
use rustly_core.Schema.Expr.{TypeExpr}
use rustly_core.Schema.Error.{Compiled, ok, exhausted, ◌>>=◌, invalid, or_invalid}
use rustly_core.Schema.Options.{
  merge_options, inline_map_without_type, apply_int_constraints, apply_float_constraints,
  apply_string_constraints,
}
use rustly_core.Schema.Enums.{parse_enum_type}
use rustly_core.Schema.Holders.{
  ParseType, option_map, parse_list_type, parse_dict_type, parse_optional_type, parse_struct_type,
}

-- The type that a name in lower case stands for.
pub data TypeName : Type 0 where
  any_name bool_name int_name float_name string_name symbol_name : TypeName
  enum_name list_name dict_name optional_name struct_name other_name : TypeName

unfoldable pub type_named : String → TypeName
type_named s =
    if str_eq s "any"
    then any_name
    else if str_eq s "bool" || str_eq s "boolean"
    then bool_name
    else if str_eq s "int" || str_eq s "integer"
    then int_name
    else if str_eq s "float" || str_eq s "double"
    then float_name
    else if str_eq s "str" || str_eq s "string"
    then string_name
    else if str_eq s "sym" || str_eq s "symbol"
    then symbol_name
    else if str_eq s "enum"
    then enum_name
    else if str_eq s "list"
    then list_name
    else if str_eq s "dict"
    then dict_name
    else if str_eq s "optional"
    then optional_name
    else if str_eq s "struct"
    then struct_name
    else other_name

module _ (H : Host) (go : ParseType) where
  -- A type by its name, in lower case.
  unfoldable pub parse_as :
      TypeName → String → Option JsonMap → Option JsonMap → String → Compiled TypeExpr
  unfolding merge_options apply_int_constraints apply_float_constraints apply_string_constraints
      parse_enum_type parse_list_type parse_dict_type parse_optional_type parse_struct_type
  parse_as any_name name inline outer path = ok (TypeExpr.primitive PrimitiveType.any)
  parse_as bool_name name inline outer path = ok (TypeExpr.primitive PrimitiveType.bool)
  parse_as int_name name inline outer path = do
    c ← apply_int_constraints H (merge_options inline outer) path
    ok (TypeExpr.primitive (PrimitiveType.int c))
  parse_as float_name name inline outer path = do
    c ← apply_float_constraints H (merge_options inline outer) path
    ok (TypeExpr.primitive (PrimitiveType.float c))
  parse_as string_name name inline outer path = do
    c ← apply_string_constraints H (merge_options inline outer) path
    ok (TypeExpr.primitive (PrimitiveType.string c))
  parse_as symbol_name name inline outer path = ok (TypeExpr.primitive PrimitiveType.symbol)
  parse_as enum_name name inline outer path = parse_enum_type none inline outer path
  parse_as list_name name inline outer path =
      parse_list_type H go none (merge_options inline outer) path
  parse_as dict_name name inline outer path =
      parse_dict_type H go none (merge_options inline outer) path
  parse_as optional_name name inline outer path =
      parse_optional_type H go none (merge_options inline outer) path
  parse_as struct_name name inline outer path =
      parse_struct_type H go (merge_options inline outer) path
  parse_as other_name name inline outer path = invalid path ("unknown type `" <> (name <> "`"))

  unfoldable pub parse_named_type :
      String → Option JsonMap → Option JsonMap → String → Compiled TypeExpr
  unfolding type_named parse_as
  parse_named_type name inline outer path =
      let canonical = H.to_lowercase name in
      parse_as (type_named canonical) canonical inline outer path

  -- The options of an array, `items[2]`, if they are an object.
  abbrev pub inline_options : JsonArray → Option JsonMap
  inline_options rest = option_map (nth rest 0) as_object

  unfoldable pub parse_optional_array : JsonArray → Option JsonMap → String → Compiled TypeExpr
  parse_optional_array JsonArray.nil outer path =
      invalid path "optional type requires an inner type"
  parse_optional_array (JsonArray.cons inner rest) outer path = do
    t ← go inner outer (path <> ".optional")
    ok (TypeExpr.optional t)

  unfoldable pub parse_list_array : JsonArray → Option JsonMap → String → Compiled TypeExpr
  unfolding merge_options parse_list_type
  parse_list_array JsonArray.nil outer path = invalid path "list type requires an element type"
  parse_list_array (JsonArray.cons inner rest) outer path =
      parse_list_type H go (some inner) (merge_options (inline_options rest) outer) path

  unfoldable pub parse_dict_array : JsonArray → Option JsonMap → String → Compiled TypeExpr
  unfolding merge_options parse_dict_type
  parse_dict_array JsonArray.nil outer path = invalid path "dict type requires a value type"
  parse_dict_array (JsonArray.cons inner rest) outer path =
      parse_dict_type H go (some inner) (merge_options (inline_options rest) outer) path

  -- An array by the tag that it starts with, `rest` being what follows. The tag is compared as it
  -- stands; any other is taken for a name, and what follows it is not read.
  unfoldable pub parse_tagged : String → JsonArray → Option JsonMap → String → Compiled TypeExpr
  unfolding parse_optional_array parse_list_array parse_dict_array parse_enum_type merge_options
      parse_struct_type parse_named_type
  parse_tagged tag rest outer path =
      if str_eq tag "optional"
      then parse_optional_array rest outer path
      else if str_eq tag "list"
      then parse_list_array rest outer path
      else if str_eq tag "dict"
      then parse_dict_array rest outer path
      else if str_eq tag "enum"
      then parse_enum_type (nth rest 0) outer none path
      else if str_eq tag "struct"
      then parse_struct_type H go (merge_options (option_map (nth rest 0) as_object) outer) path
      else parse_named_type tag none outer path

  unfoldable pub parse_array_type : JsonArray → Option JsonMap → String → Compiled TypeExpr
  unfolding parse_tagged
  parse_array_type JsonArray.nil outer path = invalid path "array type expression cannot be empty"
  parse_array_type (JsonArray.cons first rest) outer path = do
    tag ← or_invalid (as_str first) path "array type must start with a string tag"
    parse_tagged tag rest outer path

  unfoldable pub parse_value : JsonValue → Option JsonMap → String → Compiled TypeExpr
  unfolding parse_named_type inline_map_without_type parse_array_type
  parse_value (JsonValue.string name) outer path = parse_named_type name none outer path
  parse_value (JsonValue.object m) outer path = do
    name ← or_invalid (option_map (get "type" m) as_str) path "object type is missing a `type` key"
    parse_named_type name (some (inline_map_without_type m)) outer path
  parse_value (JsonValue.array items) outer path = parse_array_type items outer path
  parse_value value outer path =
      invalid path ("unsupported type expression: " <> H.debug_text value)

unfoldable pub parse_type_expr : Host → ℕ → ParseType
unfolding parse_value
parse_type_expr H zero value outer path = exhausted
parse_type_expr H (suc fuel) value outer path =
    parse_value H (parse_type_expr H fuel) value outer path
