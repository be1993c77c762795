-- ===== src/Validation/Leaf.antt =====
-- The parts of the validator that look at one value: the issues that it records, the constraints
-- and the coercions (ext/rustly_core/src/validation/engine.rs).
use rustly_core.Base.{
  ℕ, String, Bool, true, false, not, ◌||◌, Option, none, some, List, [], ◌∷◌, str_eq, ltb,
  if◌then◌else◌,
}
use rustly_core.Base.Lists.{length}
use rustly_core.Base.Int.{ℤ, lt_int, u64_as_i64}
use rustly_core.Base.Float.{F64, lt_float, is_finite}
use rustly_core.Base.Text.{codes, trim, parse_i64, eq_ignore_ascii_case, contains_char}
use rustly_core.Json.{JsonMap, JsonValue, integer, real, strings}
use rustly_core.Host.{Host}
use rustly_core.Schema.Ir.{
  IntConstraints, FloatConstraints, StringConstraints, CollectionConstraints, StringFormat,
}
use rustly_core.Validation.Value.{OwnedValue, type_name}
use rustly_core.Validation.State.{M, pure, ◌>>=◌, ◌>>◌, when, is_strict, push_issue}
use rustly_core.Validation.Format.{is_uuid, is_url_like}

-- A map with one entry.
abbrev pub one_entry : String → JsonValue → JsonMap
one_entry k v = JsonMap.entry k v JsonMap.empty

unfoldable pub record_required_missing : M (Unit {0})
record_required_missing = push_issue "required_missing" JsonMap.empty

unfoldable pub record_type_mismatch : String → M (Unit {0})
record_type_mismatch expected =
    push_issue "type_mismatch" (one_entry "expected" (JsonValue.string expected))

unfoldable pub record_coerce_failed : OwnedValue → M (Unit {0})
record_coerce_failed from =
    push_issue "coerce_failed" (one_entry "from" (JsonValue.string (type_name from)))

unfoldable pub record_value_not_in : List String → M (Unit {0})
record_value_not_in variants =
    push_issue "value_not_in" (one_entry "list" (JsonValue.array (strings variants)))

unfoldable pub record_extra_key : String → M (Unit {0})
record_extra_key key = push_issue "extra_key" (one_entry "name" (JsonValue.string key))

unfoldable pub record_format_invalid : String → M (Unit {0})
record_format_invalid format =
    push_issue "format_invalid" (one_entry "kind" (JsonValue.string format))

abbrev pub int_meta : String → ℤ → JsonMap
int_meta k i = one_entry k (JsonValue.number (integer i))

-- `JsonNumber::from_f64` refuses what is not finite, and the meta stays empty then.
abbrev pub float_meta : String → F64 → JsonMap
float_meta k f = if is_finite f then one_entry k (JsonValue.number (real f)) else JsonMap.empty

unfoldable pub check_int_min : Option ℤ → ℤ → M (Unit {0})
check_int_min none value = pure tt
check_int_min (some min) value =
    when (lt_int value min) (push_issue "too_small" (int_meta "min" min))

unfoldable pub check_int_max : Option ℤ → ℤ → M (Unit {0})
check_int_max none value = pure tt
check_int_max (some max) value =
    when (lt_int max value) (push_issue "too_large" (int_meta "max" max))

unfoldable pub apply_int_constraints : ℤ → IntConstraints → M (Unit {0})
unfolding check_int_min check_int_max
apply_int_constraints value c = do check_int_min c.min value; check_int_max c.max value

unfoldable pub check_float_min : Option F64 → F64 → M (Unit {0})
check_float_min none value = pure tt
check_float_min (some min) value =
    when (lt_float value min) (push_issue "too_small" (float_meta "min" min))

unfoldable pub check_float_max : Option F64 → F64 → M (Unit {0})
check_float_max none value = pure tt
check_float_max (some max) value =
    when (lt_float max value) (push_issue "too_large" (float_meta "max" max))

unfoldable pub apply_float_constraints : F64 → FloatConstraints → M (Unit {0})
unfolding check_float_min check_float_max
apply_float_constraints value c = do check_float_min c.min value; check_float_max c.max value

-- `min as i64` wraps a bound of 2^63 or more around.
unfoldable pub check_min_size : Option ℕ → ℕ → M (Unit {0})
check_min_size none size = pure tt
check_min_size (some min) size =
    when (ltb size min) (push_issue "too_short" (int_meta "min" (u64_as_i64 min)))

unfoldable pub check_max_size : Option ℕ → ℕ → M (Unit {0})
check_max_size none size = pure tt
check_max_size (some max) size =
    when (ltb max size) (push_issue "too_long" (int_meta "max" (u64_as_i64 max)))

unfoldable pub apply_collection_constraints : ℕ → CollectionConstraints → M (Unit {0})
unfolding check_min_size check_max_size
apply_collection_constraints size c = do
  check_min_size c.min_size size
  check_max_size c.max_size size

unfoldable pub apply_format : StringFormat → String → M (Unit {0})
apply_format StringFormat.email value =
    when (not (contains_char b'@' (codes value))) (record_format_invalid "email")
apply_format StringFormat.uuid value = when (not (is_uuid value)) (record_format_invalid "uuid")
apply_format StringFormat.url value = when (not (is_url_like value)) (record_format_invalid "url")

unfoldable pub check_format : Option StringFormat → String → M (Unit {0})
check_format none value = pure tt
check_format (some f) value = apply_format f value

-- `value.chars().count()`
abbrev pub char_count : String → ℕ
char_count value = length (codes value)

unfoldable pub apply_string_constraints : String → StringConstraints → M (Unit {0})
unfolding check_min_size check_max_size check_format
apply_string_constraints value c = do
  check_min_size c.min_size (char_count value)
  check_max_size c.max_size (char_count value)
  check_format c.format value

-- `record_type_mismatch`, then `None`.
unfoldable pub mismatch : {A : Type 0} → String → M (Option A)
mismatch expected = do record_type_mismatch expected; pure none

-- What a coercion of a text gave; `record_coerce_failed` and `None` on an error.
unfoldable pub coerced : {A : Type 0} → OwnedValue → Option A → M (Option A)
coerced value none = do record_coerce_failed value; pure none
coerced value (some a) = pure (some a)

-- The texts that stand for a Boolean.
unfoldable pub read_bool : String → Option Bool
read_bool raw =
    if eq_ignore_ascii_case raw "true" || str_eq raw "1"
    then some true
    else if eq_ignore_ascii_case raw "false" || str_eq raw "0"
    then some false
    else none

unfoldable pub coerce_bool : OwnedValue → M (Option Bool)
unfolding mismatch coerced
coerce_bool (OwnedValue.bool b) = pure (some b)
coerce_bool (OwnedValue.string raw) = do
  strict ← is_strict
  if strict then mismatch "bool" else coerced (OwnedValue.string raw) (read_bool raw)
coerce_bool _ = mismatch "bool"

unfoldable pub coerce_int : OwnedValue → M (Option ℤ)
unfolding mismatch coerced
coerce_int (OwnedValue.int i) = pure (some i)
coerce_int (OwnedValue.string raw) = do
  strict ← is_strict
  if strict then mismatch "int" else coerced (OwnedValue.string raw) (parse_i64 (trim (codes raw)))
coerce_int _ = mismatch "int"

unfoldable pub coerce_float : Host → OwnedValue → M (Option F64)
unfolding mismatch coerced
coerce_float H (OwnedValue.float f) = pure (some f)
coerce_float H (OwnedValue.int i) = pure (some (H.int_as_f64 i))
coerce_float H (OwnedValue.string raw) = do
  strict ← is_strict
  if strict
      then mismatch "float"
      else coerced (OwnedValue.string raw) (H.parse_f64 (trim (codes raw)))
coerce_float H _ = mismatch "float"

unfoldable pub coerce_string : OwnedValue → M (Option String)
unfolding mismatch
coerce_string (OwnedValue.string s) = pure (some s)
coerce_string _ = mismatch "str"

unfoldable pub coerce_symbol : OwnedValue → M (Option String)
unfolding mismatch
coerce_symbol (OwnedValue.symbol s) = pure (some s)
coerce_symbol (OwnedValue.string s) = do
  strict ← is_strict
  if strict then mismatch "sym" else pure (some s)
coerce_symbol _ = mismatch "sym"

-- `variants.iter().any(|variant| variant == s)`
unfoldable pub is_variant : String → List String → Bool
is_variant s [] = false
is_variant s (v ∷ vs) = str_eq v s || is_variant s vs

abbrev pub choose_if : Bool → List String → String → M (Option OwnedValue)
choose_if true variants s = pure (some (OwnedValue.symbol s))
choose_if false variants s = do record_value_not_in variants; pure none

abbrev pub choose : List String → String → M (Option OwnedValue)
choose variants s = choose_if (is_variant s variants) variants s

unfoldable pub validate_enum : List String → OwnedValue → M (Option OwnedValue)
unfolding mismatch
validate_enum variants (OwnedValue.symbol s) = choose variants s
validate_enum variants (OwnedValue.string s) = do
  strict ← is_strict
  if strict then mismatch "enum" else choose variants s
validate_enum variants _ = mismatch "enum"
