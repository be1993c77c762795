-- ===== src/Validation/Engine.antt =====
-- The walk over schema and value (`Validator` of ext/rustly_core/src/validation/engine.rs). A node
-- number may lead anywhere in an arena, so `validate_node` takes fuel, one unit for each node on
-- the way down; the loops take it as an argument.
use rustly_core.Base.{
  ℕ, zero, suc, String, Option, none, some, List, [], ◌∷◌, str_eq, if◌then◌else◌,
}
use rustly_core.Base.Int.{ℤ}
use rustly_core.Base.Float.{F64}
use rustly_core.Host.{Host}
use rustly_core.Schema.Ir.{
  NodeId, Node, PrimitiveType, CollectionConstraints, IntConstraints, FloatConstraints,
  StringConstraints, ExtraBehavior, StructField, StructFieldPresence, len,
}
use rustly_core.Validation.Value.{
  OwnedValue, OwnedList, OwnedDict, OwnedFields, OwnedExtras, list_len, dict_len,
}
use rustly_core.Validation.Path.{PathSegment, is_empty}
use rustly_core.Validation.State.{
  timeout, M, pure, done, ◌>>=◌, ◌>>◌, push_path, pop_path, get_node,
}
use rustly_core.Validation.Leaf.{
  coerce_bool, coerce_int, coerce_float, coerce_string, coerce_symbol, validate_enum,
  apply_int_constraints, apply_float_constraints, apply_string_constraints,
  apply_collection_constraints, record_type_mismatch, record_required_missing, record_extra_key,
}

-- `.map(f)` on what a coercion gave.
unfoldable pub map_done : {A : Type 0} → (A → OwnedValue) → Option A → M (Option OwnedValue)
map_done f none = pure none
map_done f (some a) = pure (some (f a))

unfoldable pub int_done : IntConstraints → Option ℤ → M (Option OwnedValue)
int_done c none = pure none
int_done c (some i) = do apply_int_constraints i c; pure (some (OwnedValue.int i))

unfoldable pub float_done : FloatConstraints → Option F64 → M (Option OwnedValue)
float_done c none = pure none
float_done c (some f) = do apply_float_constraints f c; pure (some (OwnedValue.float f))

unfoldable pub string_done : StringConstraints → Option String → M (Option OwnedValue)
string_done c none = pure none
string_done c (some s) = do apply_string_constraints s c; pure (some (OwnedValue.string s))

unfoldable pub validate_primitive : Host → PrimitiveType → OwnedValue → M (Option OwnedValue)
unfolding map_done int_done float_done string_done
validate_primitive H PrimitiveType.any value = pure (some value)
validate_primitive H PrimitiveType.bool value = do b ← coerce_bool value; map_done OwnedValue.bool b
validate_primitive H (PrimitiveType.int c) value = do i ← coerce_int value; int_done c i
validate_primitive H (PrimitiveType.float c) value = do f ← coerce_float H value; float_done c f
validate_primitive H (PrimitiveType.string c) value = do s ← coerce_string value; string_done c s
validate_primitive H PrimitiveType.symbol value = do
  s ← coerce_symbol value
  map_done OwnedValue.symbol s

abbrev pub Validate : Type 0
Validate = NodeId → OwnedValue → M (Option OwnedValue)

unfoldable pub validate_optional : Validate → NodeId → OwnedValue → M (Option OwnedValue)
validate_optional go of OwnedValue.null = pure (some OwnedValue.null)
validate_optional go of value = go of value

-- `if let Some(validated) = validated { output.push(validated) }`, in front of what follows.
abbrev pub push_item : Option OwnedValue → OwnedList → OwnedList
push_item none output = output
push_item (some v) output = OwnedList.cons v output

abbrev pub push_entry : String → Option OwnedValue → OwnedDict → OwnedDict
push_entry k none output = output
push_entry k (some v) output = OwnedDict.entry k v output

unfoldable pub validate_items : Validate → NodeId → ℕ → OwnedList → M OwnedList
validate_items go of index OwnedList.nil = pure OwnedList.nil
validate_items go of index (OwnedList.cons element rest) = do
  push_path (PathSegment.index index)
  validated ← go of element
  pop_path
  output ← validate_items go of (suc index) rest
  pure (push_item validated output)

unfoldable pub validate_entries : Validate → NodeId → OwnedDict → M OwnedDict
validate_entries go of OwnedDict.empty = pure OwnedDict.empty
validate_entries go of (OwnedDict.entry k v rest) = do
  push_path (PathSegment.key k)
  validated ← go of v
  pop_path
  output ← validate_entries go of rest
  pure (push_entry k validated output)

unfoldable pub validate_list :
    Validate → NodeId → CollectionConstraints → OwnedValue → M (Option OwnedValue)
unfolding validate_items
validate_list go of c (OwnedValue.list items) = do
  output ← validate_items go of 0 items
  apply_collection_constraints (list_len output) c
  pure (some (OwnedValue.list output))
validate_list go of c _ = do record_type_mismatch "list"; pure none

unfoldable pub validate_dict :
    Validate → NodeId → CollectionConstraints → OwnedValue → M (Option OwnedValue)
unfolding validate_entries
validate_dict go of c (OwnedValue.dict map) = do
  output ← validate_entries go of map
  apply_collection_constraints (dict_len output) c
  pure (some (OwnedValue.dict output))
validate_dict go of c _ = do record_type_mismatch "dict"; pure none

-- The first entry of a key.
unfoldable pub dict_find : OwnedDict → String → Option OwnedValue
dict_find OwnedDict.empty k = none
dict_find (OwnedDict.entry j v m) k = if str_eq j k then some v else dict_find m k

-- The first position of a name.
unfoldable pub find_field_index : List String → String → Option ℕ
find_field_index [] k = none
find_field_index (n ∷ ns) k =
    if str_eq n k
    then some 0
    else elim (find_field_index ns k) [ none ↦ none | some i ↦ some (suc i) ]

abbrev pub field_names : List StructField → List String
field_names [] = []
field_names (f ∷ fs) = f.name ∷ field_names fs

abbrev pub field_value : Option OwnedValue → OwnedFields → OwnedFields
field_value none fs = OwnedFields.absent fs
field_value (some v) fs = OwnedFields.present v fs

-- A field without a value.
unfoldable pub missing_field : StructFieldPresence → String → M (Option OwnedValue)
missing_field StructFieldPresence.required name = do
  push_path (PathSegment.key name)
  record_required_missing
  pop_path
  pure none
missing_field StructFieldPresence.optional name = pure none

unfoldable pub validate_field : Validate → StructField → Option OwnedValue → M (Option OwnedValue)
unfolding missing_field
validate_field go field (some v) = do
  push_path (PathSegment.key field.name)
  validated ← go field.node v
  pop_path
  pure validated
validate_field go field none = missing_field field.presence field.name

unfoldable pub validate_fields : Validate → List StructField → OwnedDict → M OwnedFields
unfolding validate_field dict_find
validate_fields go [] map = pure OwnedFields.end
validate_fields go (field ∷ fields) map = do
  validated ← validate_field go field (dict_find map field.name)
  rest ← validate_fields go fields map
  pure (field_value validated rest)

-- `extras_temp.get_or_insert_with(…).push((key, value))`, in front of what follows.
abbrev pub push_extra : String → OwnedValue → OwnedExtras → OwnedExtras
push_extra k v OwnedExtras.no_extras = OwnedExtras.extras (OwnedDict.entry k v OwnedDict.empty)
push_extra k v (OwnedExtras.extras m) = OwnedExtras.extras (OwnedDict.entry k v m)

-- A key that is no field; `others` is the rest of the loop.
unfoldable pub extra_key : ExtraBehavior → String → OwnedValue → M OwnedExtras → M OwnedExtras
extra_key ExtraBehavior.forbid k v others = do
  push_path (PathSegment.key k)
  record_extra_key k
  pop_path
  others
extra_key ExtraBehavior.ignore k v others = others
extra_key ExtraBehavior.allow k v others = do more ← others; pure (push_extra k v more)

abbrev pub unless_field :
    Option ℕ → ExtraBehavior → String → OwnedValue → M OwnedExtras → M OwnedExtras
unless_field (some i) extra k v others = others
unless_field none extra k v others = extra_key extra k v others

-- The loop over the entries of the value for keys that are no field. Both branches of the test on
-- `field_present` go on to the next entry, so that vector is left out.
unfoldable pub validate_extras : List String → ExtraBehavior → OwnedDict → M OwnedExtras
unfolding find_field_index extra_key
validate_extras names extra OwnedDict.empty = pure OwnedExtras.no_extras
validate_extras names extra (OwnedDict.entry k v rest) =
    unless_field (find_field_index names k) extra k v (validate_extras names extra rest)

-- At the root the options decide about extra keys, and not the schema.
unfoldable pub effective_extra : ExtraBehavior → M ExtraBehavior
effective_extra extra st = done (if is_empty st.path then st.options.extra_behavior else extra) st

unfoldable pub validate_struct :
    Validate → List StructField → ExtraBehavior → OwnedValue → M (Option OwnedValue)
unfolding validate_fields validate_extras effective_extra
validate_struct go fields extra (OwnedValue.dict map) = do
  values ← validate_fields go fields map
  policy ← effective_extra extra
  extras ← validate_extras (field_names fields) policy map
  pure (some (OwnedValue.struct (field_names fields) values extras))
validate_struct go fields extra _ = do record_type_mismatch "struct"; pure none

unfoldable pub dispatch : Host → Validate → Node → OwnedValue → M (Option OwnedValue)
unfolding validate_primitive validate_optional validate_list validate_dict validate_struct
dispatch H go (Node.primitive p) value = validate_primitive H p value
dispatch H go (Node.enum variants) value = validate_enum variants value
dispatch H go (Node.optional of) value = validate_optional go of value
dispatch H go (Node.list of c) value = validate_list go of c value
dispatch H go (Node.dict of c) value = validate_dict go of c value
dispatch H go (Node.struct fields extra) value = validate_struct go fields extra value

unfoldable pub validate_node : Host → ℕ → Validate
unfolding dispatch
validate_node H zero i value = λ st. timeout
validate_node H (suc fuel) i value = do
  node ← get_node i
  dispatch H (validate_node H fuel) node value

-- In a compiled arena children stand before their parents, so its length is fuel enough.
unfoldable pub validate_root : Host → OwnedValue → M (Option OwnedValue)
unfolding validate_node
validate_root H value st = validate_node H (len st.schema.arena) st.schema.root value st
