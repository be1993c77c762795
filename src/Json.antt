-- ===== src/Json.antt =====
-- The values of `serde_json`, as the code takes them apart: `Value`, `Number`, and `Map`, which
-- stands on the `BTreeMap` of the Rust standard library. A map is the list of its entries in the
-- order of its iteration.
pub mod Size
pub mod Lookup
use rustly_core.Base.{ℕ, suc, String, Bool, List, [], ◌∷◌, Option, none, some, if◌then◌else◌}
use rustly_core.Base.{str_eq, str_lt}
use rustly_core.Base.Int.{ℤ}
use rustly_core.Base.Float.{F64}

pub data Number : Type 0 where
  integer : ℤ → Number
  real : F64 → Number

mutual
  pub data JsonValue : Type 0 where
    null : JsonValue
    bool : Bool → JsonValue
    number : Number → JsonValue
    string : String → JsonValue
    array : JsonArray → JsonValue
    object : JsonMap → JsonValue

  pub data JsonArray : Type 0 where
    nil : JsonArray
    cons : JsonValue → JsonArray → JsonArray

  pub data JsonMap : Type 0 where
    empty : JsonMap
    entry : String → JsonValue → JsonMap → JsonMap

-- `Map::get`
unfoldable pub get : String → JsonMap → Option JsonValue
get k empty = none
get k (entry j v m) = if str_eq j k then some v else get k m

-- `Map::insert`, which keeps the keys in order.
unfoldable pub insert : String → JsonValue → JsonMap → JsonMap
insert k v empty = entry k v empty
insert k v (entry j w m) =
    let rest = insert k v m in
    if str_eq j k
    then entry j v m
    else if str_lt k j
    then entry k v (entry j w m)
    else entry j w rest

-- The map that `Map::remove` leaves; what it returns is `get`.
unfoldable pub erase : String → JsonMap → JsonMap
erase k empty = empty
erase k (entry j v m) = if str_eq j k then m else entry j v (erase k m)

unfoldable pub as_str : JsonValue → Option String
as_str (string s) = some s
as_str _ = none

unfoldable pub as_object : JsonValue → Option JsonMap
as_object (object m) = some m
as_object _ = none

unfoldable pub as_array : JsonValue → Option JsonArray
as_array (array xs) = some xs
as_array _ = none

-- `items.get(i)`
unfoldable pub nth : JsonArray → ℕ → Option JsonValue
nth nil i = none
nth (cons x xs) ℕ.zero = some x
nth (cons x xs) (suc i) = nth xs i

unfoldable pub array_len : JsonArray → ℕ
array_len nil = 0
array_len (cons x xs) = suc (array_len xs)

-- An array of texts, `JsonValue::Array(texts)`.
unfoldable pub strings : List String → JsonArray
strings [] = nil
strings (s ∷ ss) = cons (string s) (strings ss)
