-- ===== src/Heap/Messages.antt =====
-- The trees of objects for JSON values and for the messages of an error set
-- (ext/rustly_core/src/ruby_helpers.rs and `error_set_messages` of ext/rustly_core/src/lib.rs).
pub mod Objects
pub mod Shown
pub mod Converted
pub mod Issues
pub mod Sound
use rustly_core.Base.{ℕ, ◌≡◌, false, Option, none, some, List, [], ◌∷◌, ◌++◌}
use rustly_core.Base.Int.{ℤ, pos}
use rustly_core.Base.Float.{F64}
use rustly_core.Host.{Host}
use rustly_core.Json.{JsonValue, JsonArray, JsonMap, integer}
use rustly_core.Schema.Plan.{has_nul}
use rustly_core.Validation.Value.{as_i64, as_f64}
use rustly_core.Native.Errors.{ErrorEntry}
use rustly_core.Native.Messages.{as_u64}
use rustly_core.Heap.{Key, has_key}
use rustly_core.Heap.Trees.{Tree, Trees, Entries}

abbrev pub number_tree : Option ℤ → Option ℕ → F64 → Tree
number_tree (some i) u f = Tree.integer i
number_tree none (some u) f = Tree.integer (pos u)
number_tree none none f = Tree.float f

module _ (H : Host) where
  -- The keys of an object are strings.
  unfoldable mutual
    unfolding as_i64 as_u64 as_f64

    pub json_tree : JsonValue → Tree
    json_tree JsonValue.null = Tree.nil
    json_tree (JsonValue.bool b) = Tree.boolean b
    json_tree (JsonValue.number n) = number_tree (as_i64 n) (as_u64 n) (as_f64 H n)
    json_tree (JsonValue.string s) = Tree.string s
    json_tree (JsonValue.array items) = Tree.list (json_trees items)
    json_tree (JsonValue.object map) = Tree.hash (json_entries map)

    pub json_trees : JsonArray → Trees
    json_trees JsonArray.nil = Trees.no_items
    json_trees (JsonArray.cons x xs) = Trees.item (json_tree x) (json_trees xs)

    pub json_entries : JsonMap → Entries
    json_entries JsonMap.empty = Entries.no_entries
    json_entries (JsonMap.entry k v m) =
        Entries.entry (Key.string_key k) (json_tree v) (json_entries m)

  -- The path, the code and the meta of an entry, under symbols.
  unfoldable pub message_tree : ErrorEntry → Tree
  unfolding json_tree
  message_tree e = Tree.hash (
      Entries.entry (Key.symbol_key "path") (Tree.string e.path) (
        Entries.entry (Key.symbol_key "code") (Tree.symbol e.code) (
          Entries.entry (Key.symbol_key "meta") (Tree.hash (json_entries e.meta))
            Entries.no_entries)))

  unfoldable pub message_trees : List ErrorEntry → Trees
  unfolding message_tree
  message_trees [] = Trees.no_items
  message_trees (e ∷ es) = Trees.item (message_tree e) (message_trees es)

-- No object has a key twice; the maps of `serde_json` have none.
abbrev mutual
  pub HasMaps : JsonValue → Type 0
  HasMaps JsonValue.null = Unit {0}
  HasMaps (JsonValue.bool b) = Unit {0}
  HasMaps (JsonValue.number n) = Unit {0}
  HasMaps (JsonValue.string s) = Unit {0}
  HasMaps (JsonValue.array items) = HaveMaps items
  HasMaps (JsonValue.object map) = HasNewKeys [] map

  pub HaveMaps : JsonArray → Type 0
  HaveMaps JsonArray.nil = Unit {0}
  HaveMaps (JsonArray.cons x xs) = HasMaps x × HaveMaps xs

  pub HasNewKeys : List Key → JsonMap → Type 0
  HasNewKeys keys JsonMap.empty = Unit {0}
  HasNewKeys keys (JsonMap.entry k v m) =
      (has_key (Key.string_key k) keys ≡ false)
      × HasMaps v
      × HasNewKeys (keys ++ Key.string_key k ∷ []) m

-- The codes have no NUL, and the metas are maps.
abbrev pub AreSound : List ErrorEntry → Type 0
AreSound [] = Unit {0}
AreSound (e ∷ es) = (has_nul e.code ≡ false) × HasNewKeys [] e.meta × AreSound es
