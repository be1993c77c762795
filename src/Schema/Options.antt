-- ===== src/Schema/Options.antt =====
-- The options of a type and what is read from them: the constraints and the policy on extra keys
-- (ext/rustly_core/src/schema/compiler.rs).
pub mod Merge
use rustly_core.Base.{ℕ, ◌^◌, String, ◌<>◌, Option, none, some, str_eq, ltb, if◌then◌else◌}
use rustly_core.Base.Int.{ℤ, pos, negsuc}
use rustly_core.Base.Float.{F64}
use rustly_core.Json.{JsonValue, JsonMap, integer, real, get, insert, erase, as_str}
use rustly_core.Host.{Host}
use rustly_core.Schema.Ir.{
  IntConstraints, FloatConstraints, StringConstraints, CollectionConstraints, StringFormat,
  ExtraBehavior,
}
use rustly_core.Schema.Error.{Compiled, ok, ◌>>=◌, invalid, or_invalid}

-- `Number::as_i64`, `Number::as_u64` and `Number::as_f64` of a value.
unfoldable pub value_as_i64 : JsonValue → Option ℤ
value_as_i64 (JsonValue.number (integer (pos n))) = if ltb n (2 ^ 63) then some (pos n) else none
value_as_i64 (JsonValue.number (integer (negsuc n))) =
    if ltb n (2 ^ 63) then some (negsuc n) else none
value_as_i64 _ = none

unfoldable pub value_as_u64 : JsonValue → Option ℕ
value_as_u64 (JsonValue.number (integer (pos n))) = if ltb n (2 ^ 64) then some n else none
value_as_u64 _ = none

unfoldable pub value_as_f64 : Host → JsonValue → Option F64
value_as_f64 H (JsonValue.number (integer i)) = some (H.int_as_f64 i)
value_as_f64 H (JsonValue.number (real f)) = some f
value_as_f64 H _ = none

-- Every entry of the first map is put into the second.
unfoldable pub insert_all : JsonMap → JsonMap → JsonMap
insert_all JsonMap.empty into = into
insert_all (JsonMap.entry k v rest) into = insert_all rest (insert k v into)

unfoldable pub insert_options : Option JsonMap → JsonMap → JsonMap
unfolding insert_all
insert_options none into = into
insert_options (some m) into = insert_all m into

-- The inline options override the outer ones.
unfoldable pub merge_options : Option JsonMap → Option JsonMap → JsonMap
unfolding insert_options
merge_options inline outer = insert_options inline (insert_options outer JsonMap.empty)

-- `inline_map_without(map, &["type"])`, an entry at a time into `result`.
unfoldable pub without_type : JsonMap → JsonMap → JsonMap
without_type JsonMap.empty result = result
without_type (JsonMap.entry k v rest) result =
    without_type rest (if str_eq k "type" then result else insert k v result)

unfoldable pub inline_map_without_type : JsonMap → JsonMap
unfolding without_type
inline_map_without_type m = without_type m JsonMap.empty

-- `a.or_else(|| options.remove(key))`, and the options that are left.
abbrev pub or_remove : Option JsonValue → String → JsonMap → Option JsonValue × JsonMap
or_remove none k m = (get k m, erase k m)
or_remove (some v) k m = (some v, m)

-- `if let Some(value) = options.remove(key) { constraints.key = Some(parse(value)?) }`
abbrev pub parse_option :
    {A : Type 0}
    → (JsonValue → String → Compiled A)
    → Option JsonValue
    → String
    → Compiled (Option A)
parse_option parse none path = ok none
parse_option parse (some v) path = do a ← parse v path; ok (some a)

module _ (H : Host) where
  unfoldable pub parse_i64 : JsonValue → String → Compiled ℤ
  unfolding value_as_i64
  parse_i64 value path =
      or_invalid (value_as_i64 value) path ("expected integer, got " <> H.debug_text value)

  unfoldable pub parse_f64 : JsonValue → String → Compiled F64
  unfolding value_as_f64
  parse_f64 value path =
      or_invalid (value_as_f64 H value) path
        ("expected float-compatible number, got " <> H.debug_text value)

  unfoldable pub parse_usize : JsonValue → String → Compiled ℕ
  unfolding value_as_u64
  parse_usize value path =
      or_invalid (value_as_u64 value) path ("expected positive integer, got " <> H.debug_text value)

  unfoldable pub apply_int_constraints : JsonMap → String → Compiled IntConstraints
  unfolding parse_i64
  apply_int_constraints options path = do
    min ← parse_option parse_i64 (get "min" options) (path <> ".min")
    max ← parse_option parse_i64 (get "max" (erase "min" options)) (path <> ".max")
    ok (record { min = min; max = max })

  unfoldable pub apply_float_constraints : JsonMap → String → Compiled FloatConstraints
  unfolding parse_f64
  apply_float_constraints options path = do
    min ← parse_option parse_f64 (get "min" options) (path <> ".min")
    max ← parse_option parse_f64 (get "max" (erase "min" options)) (path <> ".max")
    ok (record { min = min; max = max })

  unfoldable pub apply_collection_constraints : JsonMap → String → Compiled CollectionConstraints
  unfolding parse_usize
  apply_collection_constraints options path = do
    min ← parse_option parse_usize (get "min_size" options) (path <> ".min_size")
    max ← parse_option parse_usize (get "max_size" (erase "min_size" options)) (path <> ".max_size")
    ok (record { min_size = min; max_size = max })

  unfoldable pub format_named : String → String → Compiled StringFormat
  format_named name path =
      if str_eq name "email"
      then ok StringFormat.email
      else if str_eq name "uuid"
      then ok StringFormat.uuid
      else if str_eq name "url"
      then ok StringFormat.url
      else invalid path ("unsupported string format `" <> (name <> "`"))

  unfoldable pub parse_format : JsonValue → String → Compiled StringFormat
  unfolding format_named
  parse_format value path = do
    name ← or_invalid (as_str value) path "format must be specified as a string"
    format_named name path

  unfoldable pub apply_string_constraints : JsonMap → String → Compiled StringConstraints
  unfolding parse_usize parse_format
  apply_string_constraints options path = do
    let rest = erase "min_size" options
    min ← parse_option parse_usize (get "min_size" options) (path <> ".min_size")
    max ← parse_option parse_usize (get "max_size" rest) (path <> ".max_size")
    format ← parse_option parse_format (get "format" (erase "max_size" rest)) (path <> ".format")
    ok (record { min_size = min; max_size = max; format = format })

  unfoldable pub extra_named : String → String → Compiled ExtraBehavior
  extra_named raw path =
      if str_eq raw "forbid"
      then ok ExtraBehavior.forbid
      else if str_eq raw "ignore"
      then ok ExtraBehavior.ignore
      else if str_eq raw "allow"
      then ok ExtraBehavior.allow
      else invalid path ("unknown struct extra behavior `" <> (raw <> "`"))

  unfoldable pub parse_extra : Option JsonValue → String → Compiled ExtraBehavior
  unfolding extra_named
  parse_extra none path = ok ExtraBehavior.forbid
  parse_extra (some (JsonValue.string raw)) path = extra_named raw path
  parse_extra (some other) path =
      invalid path ("struct `extra` must be a string, got " <> H.debug_text other)
