-- ===== src/Validation/Value.antt =====
-- The values that are validated (ext/rustly_core/src/validation/value.rs). The bump arena that
-- holds them is memory alone, and the extension of a lifetime changes no value.
use rustly_core.Base.{ℕ, suc, ◌^◌, String, Bool, true, false, List, Option, none, some, ltb}
use rustly_core.Base.Int.{ℤ, pos, negsuc}
use rustly_core.Base.Float.{F64}
use rustly_core.Json.{JsonValue, JsonArray, JsonMap, Number, integer, real}
use rustly_core.Host.{Host}

-- `OwnedFields` is `BVec<Option<OwnedValue>>`, `OwnedExtras` is `Option<OwnedDict>`, and the three
-- fields of `OwnedStruct` are the arguments of `struct`.
mutual
  pub data OwnedValue : Type 0 where
    null : OwnedValue
    bool : Bool → OwnedValue
    int : ℤ → OwnedValue
    float : F64 → OwnedValue
    string : String → OwnedValue
    symbol : String → OwnedValue
    list : OwnedList → OwnedValue
    dict : OwnedDict → OwnedValue
    struct : List String → OwnedFields → OwnedExtras → OwnedValue

  pub data OwnedList : Type 0 where
    nil : OwnedList
    cons : OwnedValue → OwnedList → OwnedList

  pub data OwnedDict : Type 0 where
    empty : OwnedDict
    entry : String → OwnedValue → OwnedDict → OwnedDict

  pub data OwnedFields : Type 0 where
    end : OwnedFields
    absent : OwnedFields → OwnedFields
    present : OwnedValue → OwnedFields → OwnedFields

  pub data OwnedExtras : Type 0 where
    no_extras : OwnedExtras
    extras : OwnedDict → OwnedExtras

abbrev pub list_len : OwnedList → ℕ
list_len OwnedList.nil = 0
list_len (OwnedList.cons v vs) = suc (list_len vs)

abbrev pub dict_len : OwnedDict → ℕ
dict_len OwnedDict.empty = 0
dict_len (OwnedDict.entry k v m) = suc (dict_len m)

unfoldable pub type_name : OwnedValue → String
type_name OwnedValue.null = "null"
type_name (OwnedValue.bool b) = "bool"
type_name (OwnedValue.int i) = "int"
type_name (OwnedValue.float f) = "float"
type_name (OwnedValue.string s) = "str"
type_name (OwnedValue.symbol s) = "sym"
type_name (OwnedValue.list vs) = "list"
type_name (OwnedValue.dict m) = "dict"
type_name (OwnedValue.struct names fs ex) = "struct"

-- `Number::as_i64`
unfoldable pub as_i64 : Number → Option ℤ
as_i64 (integer (pos n)) = elim (ltb n (2 ^ 63)) [ true ↦ some (pos n) | false ↦ none ]
as_i64 (integer (negsuc n)) = elim (ltb n (2 ^ 63)) [ true ↦ some (negsuc n) | false ↦ none ]
as_i64 (real f) = none

module _ (H : Host) where
  -- `Number::as_f64`
  unfoldable pub as_f64 : Number → F64
  as_f64 (integer i) = H.int_as_f64 i
  as_f64 (real f) = f

  number_value : Option ℤ → Number → OwnedValue
  unfolding as_f64
  number_value (some i) n = OwnedValue.int i
  number_value none n = OwnedValue.float (as_f64 n)

  unfoldable mutual
    unfolding number_value as_i64

    pub from_json : JsonValue → OwnedValue
    from_json JsonValue.null = OwnedValue.null
    from_json (JsonValue.bool b) = OwnedValue.bool b
    from_json (JsonValue.number n) = number_value (as_i64 n) n
    from_json (JsonValue.string s) = OwnedValue.string s
    from_json (JsonValue.array xs) = OwnedValue.list (list_from_json xs)
    from_json (JsonValue.object m) = OwnedValue.dict (dict_from_json m)

    pub list_from_json : JsonArray → OwnedList
    list_from_json JsonArray.nil = OwnedList.nil
    list_from_json (JsonArray.cons x xs) = OwnedList.cons (from_json x) (list_from_json xs)

    pub dict_from_json : JsonMap → OwnedDict
    dict_from_json JsonMap.empty = OwnedDict.empty
    dict_from_json (JsonMap.entry k v m) = OwnedDict.entry k (from_json v) (dict_from_json m)
