-- ===== src/Schema/Holders.antt =====
-- The parsing of lists, dicts, optional types and structs (`parse_list_type` to `parse_field_entry` of
-- ext/rustly_core/src/schema/compiler.rs), given the parser of the types inside.
use rustly_core.Base.{ℕ, suc, String, ◌<>◌, Option, none, some, str_eq, if◌then◌else◌}
use rustly_core.Base.Text.{to_string}
use rustly_core.Json.{JsonValue, JsonArray, JsonMap, get, as_str, as_object, as_array, nth, erase}
use rustly_core.Host.{Host}
use rustly_core.Schema.Ir.{StructFieldPresence}
use rustly_core.Schema.Expr.{TypeExpr, FieldExprs}
use rustly_core.Schema.Error.{Compiled, ok, ◌>>=◌, invalid, or_invalid}
use rustly_core.Schema.Options.{or_remove, apply_collection_constraints, parse_extra}

abbrev pub ParseType : Type 0
ParseType = JsonValue → Option JsonMap → String → Compiled TypeExpr

abbrev pub option_map {ℓ κ} : {A : Type ℓ} {B : Type κ} → Option A → (A → Option B) → Option B
option_map none f = none
option_map (some a) f = f a

-- A field of a struct; a list of them is `FieldExprs`.
pub record FieldExpr : Type 0 where
  pub name : String
  pub presence : StructFieldPresence
  pub ty : TypeExpr

module _ (H : Host) (go : ParseType) where
  unfoldable pub parse_list_type : Option JsonValue → JsonMap → String → Compiled TypeExpr
  parse_list_type inline_type options path = do
    let of = or_remove inline_type "of" options
    let item = or_remove of.0 "item" of.1
    value ← or_invalid item.0 path "list type requires an `of` element specification"
    element ← go value none (path <> ".of")
    constraints ← apply_collection_constraints H item.1 path
    ok (TypeExpr.list element constraints)

  unfoldable pub parse_dict_type : Option JsonValue → JsonMap → String → Compiled TypeExpr
  parse_dict_type inline_type options path = do
    let values = or_remove inline_type "values" options
    let value = or_remove values.0 "value" values.1
    found ← or_invalid value.0 path "dict type requires a `values` specification"
    inner ← go found none (path <> ".values")
    constraints ← apply_collection_constraints H value.1 path
    ok (TypeExpr.dict inner constraints)

  unfoldable pub parse_optional_type : Option JsonValue → JsonMap → String → Compiled TypeExpr
  parse_optional_type inline_type options path = do
    value ←
        or_invalid (or_remove inline_type "of" options).0 path
          "optional type requires an inner type"
    inner ← go value none (path <> ".of")
    ok (TypeExpr.optional inner)

  unfoldable pub presence_named : String → String → Compiled StructFieldPresence
  presence_named raw path =
      if str_eq raw "required"
      then ok StructFieldPresence.required
      else if str_eq raw "optional"
      then ok StructFieldPresence.optional
      else invalid path ("unsupported field presence `" <> (raw <> "`"))

  -- One entry of `fields`: presence, name, type, and perhaps options.
  unfoldable pub parse_entry_array : JsonArray → String → Compiled FieldExpr
  unfolding presence_named
  parse_entry_array (JsonArray.cons p (JsonArray.cons n (JsonArray.cons t options))) path = do
    presence_raw ← or_invalid (as_str p) path "field presence must be a string"
    presence ← presence_named presence_raw path
    name ← or_invalid (as_str n) path "field name must be a string"
    ty ← go t (option_map (nth options 0) as_object) (path <> ".type")
    ok (record { name = name; presence = presence; ty = ty })
  parse_entry_array _ path = invalid path "field entry must contain presence, name, and type"

  unfoldable pub parse_field_entry : JsonValue → String → Compiled FieldExpr
  unfolding parse_entry_array
  parse_field_entry value path = do
    entries ← or_invalid (as_array value) path "field entry must be an array"
    parse_entry_array entries path

  -- The loop over the entries of `fields`.
  unfoldable pub parse_fields : ℕ → JsonArray → String → Compiled FieldExprs
  unfolding parse_field_entry
  parse_fields index JsonArray.nil path = ok FieldExprs.nil
  parse_fields index (JsonArray.cons entry rest) path = do
    field ← parse_field_entry entry (path <> (".fields[" <> (to_string index <> "]")))
    fields ← parse_fields (suc index) rest path
    ok (FieldExprs.field field.name field.presence field.ty fields)

  unfoldable pub parse_fields_array : JsonValue → String → Compiled FieldExprs
  unfolding parse_fields
  parse_fields_array value path = do
    entries ← or_invalid (as_array value) path "struct `fields` must be an array"
    parse_fields 0 entries path

  -- Every caller passes `None` for the first parameter of the source, which is left out.
  unfoldable pub parse_struct_type : JsonMap → String → Compiled TypeExpr
  unfolding parse_fields_array
  parse_struct_type options path = do
    fields_value ← or_invalid (get "fields" options) path "struct type requires a `fields` array"
    extra ← parse_extra H (get "extra" (erase "fields" options)) path
    fields ← parse_fields_array fields_value path
    ok (TypeExpr.struct fields extra)
