-- ===== src/Json/Size.antt =====
-- The size of a JSON value, the measure on which the recursion of the schema parser is founded.
use rustly_core.Base.{ℕ, zero, suc, ◌+◌, ◌≤◌, ◌≡◌, String, Option, none, some, arith}
use rustly_core.Json.{JsonValue, JsonArray, JsonMap, get, insert, erase, nth}

unfoldable mutual
  pub size : JsonValue → ℕ
  size JsonValue.null = 1
  size (JsonValue.bool b) = 1
  size (JsonValue.number n) = 1
  size (JsonValue.string s) = 1
  size (JsonValue.array xs) = suc (size_array xs)
  size (JsonValue.object m) = suc (size_map m)

  pub size_array : JsonArray → ℕ
  size_array JsonArray.nil = 0
  size_array (JsonArray.cons x xs) = size x + size_array xs

  pub size_map : JsonMap → ℕ
  size_map JsonMap.empty = 0
  size_map (JsonMap.entry k v m) = size v + size_map m

abbrev pub size_option : Option JsonMap → ℕ
size_option none = 0
size_option (some m) = size_map m

-- No value of the map is larger than `n`.
abbrev pub IsSmall : ℕ → JsonMap → Type 0
IsSmall n JsonMap.empty = Unit {0}
IsSmall n (JsonMap.entry k v m) = (size v ≤ n) × IsSmall n m

pub size-pos : (v : JsonValue) → 1 ≤ size v
unfolding size
size-pos JsonValue.null = omega arith
size-pos _ = omega arith

pub IsSmall-le : (m : JsonMap) (j k : ℕ) → j ≤ k → IsSmall j m → IsSmall k m
IsSmall-le JsonMap.empty j k h s = tt
IsSmall-le (JsonMap.entry k v m) j n h (s, r) = (omega arith, IsSmall-le m j n h r)

pub IsSmall-size : (m : JsonMap) → IsSmall (size_map m) m
unfolding size
IsSmall-size JsonMap.empty = tt
IsSmall-size (JsonMap.entry k v m) = (omega arith, IsSmall-le m _ _ (omega arith) (IsSmall-size m))

pub insert-IsSmall :
    (n : ℕ) (k : String) (v : JsonValue) (m : JsonMap)
    → size v ≤ n
    → IsSmall n m
    → IsSmall n (insert k v m)
unfolding insert
insert-IsSmall n k v JsonMap.empty h s = (h, tt)
insert-IsSmall n k v (JsonMap.entry j w m) h (s, r) = ground (arith, insert-IsSmall n k v m h r)

pub erase-IsSmall : (n : ℕ) (k : String) (m : JsonMap) → IsSmall n m → IsSmall n (erase k m)
unfolding erase
erase-IsSmall n k JsonMap.empty s = tt
erase-IsSmall n k (JsonMap.entry j w m) (s, r) = ground (arith, erase-IsSmall n k m r)

pub get-IsSmall :
    (n : ℕ) (k : String) (m : JsonMap) (v : JsonValue) → IsSmall n m → get k m ≡ some v → size v ≤ n
unfolding get
get-IsSmall n k JsonMap.empty v s h = ground arith
get-IsSmall n k (JsonMap.entry j w m) v (s, r) h = ground (arith, get-IsSmall n k m v r)

pub nth-size : (xs : JsonArray) (i : ℕ) (v : JsonValue) → nth xs i ≡ some v → size v ≤ size_array xs
unfolding nth size
nth-size JsonArray.nil i v h = ground arith
nth-size (JsonArray.cons x xs) zero v h = ground arith
nth-size (JsonArray.cons x xs) (suc i) v h = omega (arith, nth-size xs i v h)
