-- ===== src/Validation/Spec.antt =====
-- What validation computes, said without state, arena, node numbers and fuel: by recursion on the
-- type expression, a function from a path and a value to a result and the list of issues.
pub mod Emits
pub mod Constraints
pub mod Leaf
pub mod Walk
pub mod Refines
use rustly_core.Base.{
  ℕ, suc, String, Bool, true, false, not, Option, none, some, List, [], ◌∷◌, ◌++◌, ltb,
  if◌then◌else◌,
}
use rustly_core.Base.Int.{ℤ, lt_int, u64_as_i64}
use rustly_core.Base.Float.{F64, lt_float}
use rustly_core.Base.Text.{codes, trim, parse_i64, contains_char}
use rustly_core.Json.{JsonMap, JsonValue, strings}
use rustly_core.Host.{Host}
use rustly_core.Schema.Ir.{
  IntConstraints, FloatConstraints, StringConstraints, CollectionConstraints, StringFormat,
  PrimitiveType, ExtraBehavior, StructFieldPresence,
}
use rustly_core.Schema.Expr.{TypeExpr, FieldExprs}
use rustly_core.Validation.Options.{ValidationOptions}
use rustly_core.Validation.Value.{
  OwnedValue, OwnedList, OwnedDict, OwnedFields, OwnedExtras, list_len, dict_len, type_name,
}
use rustly_core.Validation.Path.{PathSegment, is_empty, format_path}
use rustly_core.Validation.State.{ValidationIssue}
use rustly_core.Validation.Format.{is_uuid, is_url_like}
use rustly_core.Validation.Leaf.{one_entry, int_meta, float_meta, char_count, read_bool, is_variant}
use rustly_core.Validation.Engine.{
  push_item, push_entry, push_extra, field_value, dict_find, find_field_index,
}

abbrev pub Segments : Type 0
Segments = List PathSegment

abbrev pub Issues : Type 0
Issues = List ValidationIssue

abbrev pub Checked : Type 0
Checked = Option OwnedValue × Issues

abbrev pub issue : Segments → String → JsonMap → ValidationIssue
issue p code meta = record { path = format_path p; code = code; meta = meta }

abbrev pub raise : Bool → ValidationIssue → Issues
raise true i = i ∷ []
raise false i = []

abbrev pub int_min_issues : Segments → Option ℤ → ℤ → Issues
int_min_issues p none v = []
int_min_issues p (some m) v = raise (lt_int v m) (issue p "too_small" (int_meta "min" m))

abbrev pub int_max_issues : Segments → Option ℤ → ℤ → Issues
int_max_issues p none v = []
int_max_issues p (some m) v = raise (lt_int m v) (issue p "too_large" (int_meta "max" m))

abbrev pub int_issues : Segments → IntConstraints → ℤ → Issues
int_issues p c v = int_min_issues p c.min v ++ int_max_issues p c.max v

abbrev pub float_min_issues : Segments → Option F64 → F64 → Issues
float_min_issues p none v = []
float_min_issues p (some m) v = raise (lt_float v m) (issue p "too_small" (float_meta "min" m))

abbrev pub float_max_issues : Segments → Option F64 → F64 → Issues
float_max_issues p none v = []
float_max_issues p (some m) v = raise (lt_float m v) (issue p "too_large" (float_meta "max" m))

abbrev pub float_issues : Segments → FloatConstraints → F64 → Issues
float_issues p c v = float_min_issues p c.min v ++ float_max_issues p c.max v

abbrev pub min_size_issues : Segments → Option ℕ → ℕ → Issues
min_size_issues p none n = []
min_size_issues p (some m) n = raise (ltb n m) (issue p "too_short" (int_meta "min" (u64_as_i64 m)))

abbrev pub max_size_issues : Segments → Option ℕ → ℕ → Issues
max_size_issues p none n = []
max_size_issues p (some m) n = raise (ltb m n) (issue p "too_long" (int_meta "max" (u64_as_i64 m)))

abbrev pub size_issues : Segments → CollectionConstraints → ℕ → Issues
size_issues p c n = min_size_issues p c.min_size n ++ max_size_issues p c.max_size n

abbrev pub format_name : StringFormat → String
format_name StringFormat.email = "email"
format_name StringFormat.uuid = "uuid"
format_name StringFormat.url = "url"

abbrev pub has_format : StringFormat → String → Bool
has_format StringFormat.email s = contains_char b'@' (codes s)
has_format StringFormat.uuid s = is_uuid s
has_format StringFormat.url s = is_url_like s

abbrev pub format_issues : Segments → Option StringFormat → String → Issues
format_issues p none s = []
format_issues p (some f) s =
    raise (not (has_format f s))
      (issue p "format_invalid" (one_entry "kind" (JsonValue.string (format_name f))))

abbrev pub string_issues : Segments → StringConstraints → String → Issues
string_issues p c s =
    min_size_issues p c.min_size (char_count s)
    ++ (max_size_issues p c.max_size (char_count s) ++ format_issues p c.format s)

-- A coercion reads a value, refuses its type, or cannot read the text.
pub data Reading {ℓ} (A : Type ℓ) : Type ℓ where
  got : A → Reading A
  mismatched uncoercible : Reading A

abbrev pub of_text {ℓ} : {A : Type ℓ} → Bool → Option A → Reading A
of_text true r = mismatched
of_text false none = uncoercible
of_text false (some a) = got a

abbrev pub reading_bool : Bool → OwnedValue → Reading Bool
reading_bool strict (OwnedValue.bool b) = got b
reading_bool strict (OwnedValue.string raw) = of_text strict (read_bool raw)
reading_bool strict _ = mismatched

abbrev pub reading_int : Bool → OwnedValue → Reading ℤ
reading_int strict (OwnedValue.int i) = got i
reading_int strict (OwnedValue.string raw) = of_text strict (parse_i64 (trim (codes raw)))
reading_int strict _ = mismatched

abbrev pub reading_float : Host → Bool → OwnedValue → Reading F64
reading_float H strict (OwnedValue.float f) = got f
reading_float H strict (OwnedValue.int i) = got (H.int_as_f64 i)
reading_float H strict (OwnedValue.string raw) = of_text strict (H.parse_f64 (trim (codes raw)))
reading_float H strict _ = mismatched

abbrev pub reading_string : OwnedValue → Reading String
reading_string (OwnedValue.string s) = got s
reading_string _ = mismatched

abbrev pub reading_symbol : Bool → OwnedValue → Reading String
reading_symbol strict (OwnedValue.symbol s) = got s
reading_symbol strict (OwnedValue.string s) = of_text strict (some s)
reading_symbol strict _ = mismatched

abbrev pub mismatch_issue : Segments → String → ValidationIssue
mismatch_issue p expected =
    issue p "type_mismatch" (one_entry "expected" (JsonValue.string expected))

abbrev pub coerce_issue : Segments → OwnedValue → ValidationIssue
coerce_issue p v = issue p "coerce_failed" (one_entry "from" (JsonValue.string (type_name v)))

abbrev pub check_reading {ℓ} :
    {A : Type ℓ} → Segments → String → OwnedValue → (A → Checked) → Reading A → Checked
check_reading p expected v k (got a) = k a
check_reading p expected v k mismatched = (none, mismatch_issue p expected ∷ [])
check_reading p expected v k uncoercible = (none, coerce_issue p v ∷ [])

unfoldable pub check_primitive : Host → Bool → PrimitiveType → Segments → OwnedValue → Checked
check_primitive H strict PrimitiveType.any p v = (some v, [])
check_primitive H strict PrimitiveType.bool p v =
    check_reading p "bool" v (λ b. (some (OwnedValue.bool b), [])) (reading_bool strict v)
check_primitive H strict (PrimitiveType.int c) p v =
    check_reading p "int" v (λ i. (some (OwnedValue.int i), int_issues p c i))
      (reading_int strict v)
check_primitive H strict (PrimitiveType.float c) p v =
    check_reading p "float" v (λ f. (some (OwnedValue.float f), float_issues p c f))
      (reading_float H strict v)
check_primitive H strict (PrimitiveType.string c) p v =
    check_reading p "str" v (λ s. (some (OwnedValue.string s), string_issues p c s))
      (reading_string v)
check_primitive H strict PrimitiveType.symbol p v =
    check_reading p "sym" v (λ s. (some (OwnedValue.symbol s), [])) (reading_symbol strict v)

abbrev pub check_variant_if : Bool → List String → Segments → String → Checked
check_variant_if true variants p s = (some (OwnedValue.symbol s), [])
check_variant_if false variants p s =
    (none, issue p "value_not_in" (one_entry "list" (JsonValue.array (strings variants))) ∷ [])

abbrev pub check_variant : List String → Segments → String → Checked
check_variant variants p s = check_variant_if (is_variant s variants) variants p s

unfoldable pub check_enum : Bool → List String → Segments → OwnedValue → Checked
check_enum strict variants p v =
    check_reading p "enum" v (check_variant variants p) (reading_symbol strict v)

abbrev pub Check : Type 0
Check = Segments → OwnedValue → Checked

unfoldable pub check_optional : Check → Check
check_optional f p OwnedValue.null = (some OwnedValue.null, [])
check_optional f p v = f p v

unfoldable pub check_items : Check → Segments → ℕ → OwnedList → OwnedList × Issues
check_items f p i OwnedList.nil = (OwnedList.nil, [])
check_items f p i (OwnedList.cons v vs) =
    let r = f (p ++ PathSegment.index i ∷ []) v in
    let rest = check_items f p (suc i) vs in (push_item r.0 rest.0, r.1 ++ rest.1)

unfoldable pub check_entries : Check → Segments → OwnedDict → OwnedDict × Issues
check_entries f p OwnedDict.empty = (OwnedDict.empty, [])
check_entries f p (OwnedDict.entry k v m) =
    let r = f (p ++ PathSegment.key k ∷ []) v in
    let rest = check_entries f p m in (push_entry k r.0 rest.0, r.1 ++ rest.1)

unfoldable pub check_list : Check → CollectionConstraints → Check
unfolding check_items
check_list f c p (OwnedValue.list items) =
    let r = check_items f p 0 items in
    (some (OwnedValue.list r.0), r.1 ++ size_issues p c (list_len r.0))
check_list f c p _ = (none, mismatch_issue p "list" ∷ [])

unfoldable pub check_dict : Check → CollectionConstraints → Check
unfolding check_entries
check_dict f c p (OwnedValue.dict m) =
    let r = check_entries f p m in
    (some (OwnedValue.dict r.0), r.1 ++ size_issues p c (dict_len r.0))
check_dict f c p _ = (none, mismatch_issue p "dict" ∷ [])

abbrev pub expr_names : FieldExprs → List String
expr_names FieldExprs.nil = []
expr_names (FieldExprs.field name presence t fs) = name ∷ expr_names fs

abbrev pub Extras : Type 0
Extras = OwnedExtras × Issues

-- What a key that is no field does to the extras and issues of the keys behind it.
abbrev pub check_extra : ExtraBehavior → Segments → String → OwnedValue → Extras → Extras
check_extra ExtraBehavior.forbid p k v rest = (
  rest.0,
  issue (p ++ PathSegment.key k ∷ []) "extra_key" (one_entry "name" (JsonValue.string k)) ∷ rest.1,
)
check_extra ExtraBehavior.ignore p k v rest = rest
check_extra ExtraBehavior.allow p k v rest = (push_extra k v rest.0, rest.1)

abbrev pub check_unless_field :
    Option ℕ → ExtraBehavior → Segments → String → OwnedValue → Extras → Extras
check_unless_field (some i) policy p k v rest = rest
check_unless_field none policy p k v rest = check_extra policy p k v rest

-- The keys of a value that are no fields.
unfoldable pub check_extras : List String → ExtraBehavior → Segments → OwnedDict → Extras
check_extras names policy p OwnedDict.empty = (OwnedExtras.no_extras, [])
check_extras names policy p (OwnedDict.entry k v m) =
    check_unless_field (find_field_index names k) policy p k v (check_extras names policy p m)

abbrev pub effective : ValidationOptions → ExtraBehavior → Segments → ExtraBehavior
effective o extra p = if is_empty p then o.extra_behavior else extra

abbrev pub check_field :
    Check → String → StructFieldPresence → Segments → Option OwnedValue → Checked
check_field f name presence p (some v) = f (p ++ PathSegment.key name ∷ []) v
check_field f name StructFieldPresence.required p none =
    (none, issue (p ++ PathSegment.key name ∷ []) "required_missing" JsonMap.empty ∷ [])
check_field f name StructFieldPresence.optional p none = (none, [])

unfoldable pub check_struct :
    (Segments → OwnedDict → OwnedFields × Issues) → List String → ExtraBehavior → Check
unfolding check_extras
check_struct f names policy p (OwnedValue.dict m) =
    let r = f p m in
    let e = check_extras names policy p m in (some (OwnedValue.struct names r.0 e.0), r.1 ++ e.1)
check_struct f names policy p _ = (none, mismatch_issue p "struct" ∷ [])

module _ (H : Host) (o : ValidationOptions) where
  unfoldable mutual
    unfolding check_primitive check_enum check_optional check_list check_dict check_struct dict_find

    pub check : TypeExpr → Segments → OwnedValue → Checked
    check (TypeExpr.primitive t) p v = check_primitive H o.strict t p v
    check (TypeExpr.enum variants) p v = check_enum o.strict variants p v
    check (TypeExpr.optional t) p v = check_optional (λ q w. check t q w) p v
    check (TypeExpr.list t c) p v = check_list (λ q w. check t q w) c p v
    check (TypeExpr.dict t c) p v = check_dict (λ q w. check t q w) c p v
    check (TypeExpr.struct fields extra) p v =
        check_struct (λ q m. check_fields fields q m) (expr_names fields) (effective o extra p) p v

    pub check_fields : FieldExprs → Segments → OwnedDict → OwnedFields × Issues
    check_fields FieldExprs.nil p m = (OwnedFields.end, [])
    check_fields (FieldExprs.field name presence t fs) p m =
        let r = check_field (λ q w. check t q w) name presence p (dict_find m name) in
        let rest = check_fields fs p m in (field_value r.0 rest.0, r.1 ++ rest.1)
