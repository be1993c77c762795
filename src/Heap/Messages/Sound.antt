-- ===== src/Heap/Messages/Sound.antt =====
-- Issues whose messages can be made: those that the checks of one value give
-- (ext/rustly_core/src/validation/engine.rs).
use mathlib.Core.List.{map}
use rustly_core.Base.{
  ℕ, ◌≡◌, refl, String, Bool, true, false, Option, none, some, List, [], ◌∷◌, ◌++◌, if◌then◌else◌,
}
use rustly_core.Base.Int.{ℤ, u64_as_i64}
use rustly_core.Base.Float.{F64, is_finite}
use rustly_core.Host.{Host}
use rustly_core.Json.{JsonValue, JsonMap, integer, real, strings}
use rustly_core.Schema.Ir.{
  IntConstraints, FloatConstraints, StringConstraints, CollectionConstraints, StringFormat,
  PrimitiveType,
}
use rustly_core.Schema.Plan.{has_nul}
use rustly_core.Validation.Value.{OwnedValue, type_name}
use rustly_core.Validation.State.{ValidationIssue}
use rustly_core.Validation.Leaf.{one_entry, int_meta, float_meta, is_variant}
use rustly_core.Validation.Spec.{
  Segments, Issues, Checked, issue, raise, int_issues, int_min_issues, int_max_issues, float_issues,
  float_min_issues, float_max_issues, min_size_issues, max_size_issues, size_issues, format_issues,
  format_name, string_issues, Reading, got, mismatched, uncoercible, check_reading, mismatch_issue,
  check_primitive, reading_bool, reading_symbol, check_variant_if, check_enum,
}
use rustly_core.Native.Errors.{entry_of_issue}
use rustly_core.Heap.{has_key}
use rustly_core.Heap.Messages.{HasMaps, HaveMaps, HasNewKeys, AreSound}

-- The codes of the issues have no NUL, and their metas are maps.
abbrev pub Sound : Issues → Type 0
Sound is = AreSound (map entry_of_issue is)

pub Sound-append : (is js : Issues) → Sound is → Sound js → Sound (is ++ js)
Sound-append [] js h k = k
Sound-append (i ∷ is) js (c, m, h) k = (c, m, Sound-append is js h k)

pub issue_lem :
    (p : Segments) (code : String) (meta : JsonMap)
    → has_nul code ≡ false
    → HasNewKeys [] meta
    → Sound (issue p code meta ∷ [])
issue_lem p code meta c m = (c, m, tt)

pub entry_lem : (k : String) (v : JsonValue) → HasMaps v → HasNewKeys [] (one_entry k v)
unfolding has_key
entry_lem k v h = (refl, h, tt)

raise_lem : (b : Bool) (i : ValidationIssue) → Sound (i ∷ []) → Sound (raise b i)
raise_lem true i h = h
raise_lem false i h = tt

float_lem : (k : String) (f : F64) → HasNewKeys [] (float_meta k f)
unfolding has_key
float_lem k f = by_test (is_finite f)
  where
    by_test :
        (b : Bool)
        → HasNewKeys [] (if b then one_entry k (JsonValue.number (real f)) else JsonMap.empty)
    by_test true = (refl, tt, tt)
    by_test false = tt

strings_lem : (ss : List String) → HaveMaps (strings ss)
unfolding strings
strings_lem [] = tt
strings_lem (s ∷ ss) = (tt, strings_lem ss)

int_min_lem : (p : Segments) (m : Option ℤ) (v : ℤ) → Sound (int_min_issues p m v)
int_min_lem p none v = tt
int_min_lem p (some m) v = raise_lem _ _ (
    issue_lem p "too_small" (int_meta "min" m) refl
      (entry_lem "min" (JsonValue.number (integer m)) tt))

int_max_lem : (p : Segments) (m : Option ℤ) (v : ℤ) → Sound (int_max_issues p m v)
int_max_lem p none v = tt
int_max_lem p (some m) v = raise_lem _ _ (
    issue_lem p "too_large" (int_meta "max" m) refl
      (entry_lem "max" (JsonValue.number (integer m)) tt))

int_lem : (p : Segments) (c : IntConstraints) (v : ℤ) → Sound (int_issues p c v)
int_lem p c v = Sound-append _ _ (int_min_lem p c.min v) (int_max_lem p c.max v)

float_min_lem : (p : Segments) (m : Option F64) (v : F64) → Sound (float_min_issues p m v)
float_min_lem p none v = tt
float_min_lem p (some m) v =
    raise_lem _ _ (issue_lem p "too_small" (float_meta "min" m) refl (float_lem "min" m))

float_max_lem : (p : Segments) (m : Option F64) (v : F64) → Sound (float_max_issues p m v)
float_max_lem p none v = tt
float_max_lem p (some m) v =
    raise_lem _ _ (issue_lem p "too_large" (float_meta "max" m) refl (float_lem "max" m))

float_issues_lem : (p : Segments) (c : FloatConstraints) (v : F64) → Sound (float_issues p c v)
float_issues_lem p c v = Sound-append _ _ (float_min_lem p c.min v) (float_max_lem p c.max v)

min_size_lem : (p : Segments) (m : Option ℕ) (n : ℕ) → Sound (min_size_issues p m n)
min_size_lem p none n = tt
min_size_lem p (some m) n = raise_lem _ _ (
    issue_lem p "too_short" (int_meta "min" (u64_as_i64 m)) refl
      (entry_lem "min" (JsonValue.number (integer (u64_as_i64 m))) tt))

max_size_lem : (p : Segments) (m : Option ℕ) (n : ℕ) → Sound (max_size_issues p m n)
max_size_lem p none n = tt
max_size_lem p (some m) n = raise_lem _ _ (
    issue_lem p "too_long" (int_meta "max" (u64_as_i64 m)) refl
      (entry_lem "max" (JsonValue.number (integer (u64_as_i64 m))) tt))

pub size_lem : (p : Segments) (c : CollectionConstraints) (n : ℕ) → Sound (size_issues p c n)
size_lem p c n = Sound-append _ _ (min_size_lem p c.min_size n) (max_size_lem p c.max_size n)

format_lem : (p : Segments) (f : Option StringFormat) (s : String) → Sound (format_issues p f s)
format_lem p none s = tt
format_lem p (some f) s = raise_lem _ _ (
    issue_lem p "format_invalid" (one_entry "kind" (JsonValue.string (format_name f))) refl
      (entry_lem "kind" (JsonValue.string (format_name f)) tt))

string_lem : (p : Segments) (c : StringConstraints) (s : String) → Sound (string_issues p c s)
string_lem p c s =
    Sound-append _ _ (min_size_lem p c.min_size _)
      (Sound-append _ _ (max_size_lem p c.max_size _) (format_lem p c.format s))

pub mismatch_lem : (p : Segments) (e : String) → Sound (mismatch_issue p e ∷ [])
mismatch_lem p e =
    issue_lem p "type_mismatch" (one_entry "expected" (JsonValue.string e)) refl
      (entry_lem "expected" (JsonValue.string e) tt)

reading_lem :
    {A : Type 0} (p : Segments) (e : String) (v : OwnedValue) (k : A → Checked) (r : Reading A)
    → ((a : A) → Sound (k a).1)
    → Sound (check_reading p e v k r).1
reading_lem p e v k (got a) h = h a
reading_lem p e v k mismatched h = mismatch_lem p e
reading_lem p e v k uncoercible h =
    issue_lem p "coerce_failed" (one_entry "from" (JsonValue.string (type_name v))) refl
      (entry_lem "from" (JsonValue.string (type_name v)) tt)

pub primitive_lem :
    (H : Host) (strict : Bool) (t : PrimitiveType) (p : Segments) (v : OwnedValue)
    → Sound (check_primitive H strict t p v).1
unfolding check_primitive
primitive_lem H strict PrimitiveType.any p v = tt
primitive_lem H strict PrimitiveType.bool p v =
    reading_lem p "bool" v (λ b. (some (OwnedValue.bool b), [])) (reading_bool strict v) (λ b. tt)
primitive_lem H strict (PrimitiveType.int c) p v = reading_lem p "int" v _ _ (int_lem p c)
primitive_lem H strict (PrimitiveType.float c) p v =
    reading_lem p "float" v _ _ (float_issues_lem p c)
primitive_lem H strict (PrimitiveType.string c) p v = reading_lem p "str" v _ _ (string_lem p c)
primitive_lem H strict PrimitiveType.symbol p v =
    reading_lem p "sym" v (λ s. (some (OwnedValue.symbol s), [])) (reading_symbol strict v)
      (λ s. tt)

variant_lem :
    (b : Bool) (variants : List String) (p : Segments) (s : String)
    → Sound (check_variant_if b variants p s).1
variant_lem true variants p s = tt
variant_lem false variants p s =
    issue_lem p "value_not_in" (one_entry "list" (JsonValue.array (strings variants))) refl
      (entry_lem "list" (JsonValue.array (strings variants)) (strings_lem variants))

pub enum_lem :
    (strict : Bool) (variants : List String) (p : Segments) (v : OwnedValue)
    → Sound (check_enum strict variants p v).1
unfolding check_enum
enum_lem strict variants p v =
    reading_lem p "enum" v _ _ (λ s. variant_lem (is_variant s variants) variants p s)
