-- ===== src/Heap/Messages/Objects.antt =====
-- The conversions of JSON values and of error sets make their trees.
use rustly_core.Base.{
  ℕ, ◌^◌, String, ◌≡◌, refl, true, false, Option, none, some, List, [], ◌∷◌, ◌++◌, ltb, arith,
}
use rustly_core.Base.Int.{ℤ, pos, negsuc}
use rustly_core.Base.Float.{F64}
use rustly_core.Host.{Host}
use rustly_core.Json.{JsonValue, JsonArray, JsonMap, Number, integer, real}
use rustly_core.Ruby.{RubyValue}
use rustly_core.Schema.Plan.{has_nul}
use rustly_core.Validation.Value.{as_i64, as_f64}
use rustly_core.Materialize.{RubyHeap, call, ◌>>=◌}
use rustly_core.Native.Errors.{ErrorEntry, ErrorSet}
use rustly_core.Native.Messages.{
  as_u64, ensure_symbol, number_to_ruby, json_value_to_ruby, push_values, map_to_ruby, put_values,
  put_message, message_hash, push_messages, fill_messages, error_set_messages,
}
use rustly_core.Heap.{Cell, Key, has_key, fits, HeapLaws}
use rustly_core.Heap.Trees.{Tree}
use rustly_core.Heap.Makes.{
  Makes, MakesItems, MakesEntries, MakesKey, Makes-call, Makes-look, MakesKey-call, MakesItems-none,
  MakesEntries-none,
}
use rustly_core.Heap.Containers.{Makes-array, Makes-hash, MakesItems-with_key}
use rustly_core.Heap.Loops.{MakesItems-push, MakesEntries-key_first, MakesEntries-fixed}
use rustly_core.Heap.Messages.{
  number_tree, json_tree, json_trees, json_entries, message_tree, message_trees, HasMaps, HaveMaps,
  HasNewKeys, AreSound,
}

pub as_i64-fits : (n : Number) (i : ℤ) → as_i64 n ≡ some i → fits i ≡ true
unfolding as_i64 fits
as_i64-fits (integer (pos n)) i e = ground (arith, e)
as_i64-fits (integer (negsuc n)) i e = ground (arith, e)
as_i64-fits (real f) i e = ground (arith, e)

as_u64-lt : (n : Number) (u : ℕ) → as_u64 n ≡ some u → ltb u (2 ^ 64) ≡ true
unfolding as_u64
as_u64-lt (integer (pos n)) u e = ground (arith, e)
as_u64-lt (integer (negsuc n)) u e = ground (arith, e)
as_u64-lt (real f) u e = ground (arith, e)

module _ (Y : RubyHeap) (H : Host) (cells : Y.Store → RubyValue → Option Cell)
    (K : HeapLaws Y cells) where
  symbol_lem :
      (before : Y.Store) (s : String)
      → has_nul s ≡ false
      → MakesKey cells before (ensure_symbol Y s) (Key.symbol_key s)
  unfolding ensure_symbol ◌>>=◌
  symbol_lem before s e st g = rw e (record {
    object = (Y.rb_id2sym (Y.rb_intern2 s st).0 (Y.rb_intern2 s st).1).0;
    after = (Y.rb_id2sym (Y.rb_intern2 s st).0 (Y.rb_intern2 s st).1).1;
    ends = refl;
    kept = (K.symbol_made s st e).kept;
    stands = (K.symbol_made s st e).stands;
  })

  symbol_tree_lem :
      (before : Y.Store) (s : String)
      → has_nul s ≡ false
      → Makes cells before (ensure_symbol Y s) (Tree.symbol s)
  symbol_tree_lem before s e st g =
      let k = symbol_lem before s e st g in
      record { object = k.object; after = k.after; ends = k.ends; kept = k.kept; holds = k.stands }

  string_lem :
      (before : Y.Store) (s : String)
      → Makes cells before (call (Y.rb_utf8_str_new s)) (Tree.string s)
  string_lem before s =
      Makes-call (Y.rb_utf8_str_new s) (Cell.string s) (Tree.string s) (λ st v e. e) (K.str_new s)

  number_lem :
      (before : Y.Store) (i : Option ℤ) (u : Option ℕ) (f : F64)
      → ((j : ℤ) → i ≡ some j → fits j ≡ true)
      → ((n : ℕ) → u ≡ some n → ltb n (2 ^ 64) ≡ true)
      → Makes cells before (number_to_ruby Y i u (some f)) (number_tree i u f)
  number_lem b (some i) u f h k =
      Makes-call (Y.rb_ll2inum i) (Cell.integer i) (Tree.integer i) (λ st v e. e)
        (λ st. K.ll2inum i st (h i refl))
  number_lem b none (some u) f h k =
      Makes-call (Y.rb_ull2inum u) (Cell.integer (pos u)) (Tree.integer (pos u)) (λ st v e. e)
        (λ st. K.ull2inum u st (k u refl))
  number_lem b none none f h k =
      Makes-call (Y.rb_float_new f) (Cell.float f) (Tree.float f) (λ st v e. e) (K.float_new f)

  mutual
    unfolding json_value_to_ruby json_tree

    value_lem :
        (before : Y.Store) (v : JsonValue)
        → HasMaps v
        → Makes cells before (json_value_to_ruby Y H v) (json_tree H v)
    value_lem b JsonValue.null p = Makes-look _ Tree.nil (λ st. K.nil_stands st)
    value_lem b (JsonValue.bool true) p = Makes-look _ (Tree.boolean true) (λ st. K.true_stands st)
    value_lem b (JsonValue.bool false) p =
        Makes-look _ (Tree.boolean false) (λ st. K.false_stands st)
    value_lem b (JsonValue.number n) p =
        number_lem b (as_i64 n) (as_u64 n) (as_f64 H n) (as_i64-fits n) (as_u64-lt n)
    value_lem b (JsonValue.string s) p = string_lem b s
    value_lem b (JsonValue.array items) p =
        Makes-array Y cells K b (λ a. push_values Y H a items) (json_trees H items)
          (λ st a g e. items_lem st a (Cell.array []) e items p)
    value_lem b (JsonValue.object map) p =
        Makes-hash Y cells K b (λ h. put_values Y H h map) (json_entries H map)
          (λ st h g e. entries_lem st h (Cell.hash []) e [] map p)

    items_lem :
        (before : Y.Store) (a : RubyValue) (old : Cell)
        → cells before a ≡ some old
        → (items : JsonArray) → HaveMaps items
        → MakesItems cells before a (push_values Y H a items) (json_trees H items)
    items_lem b a old e JsonArray.nil p = MakesItems-none a
    items_lem b a old e (JsonArray.cons x xs) (p, ps) =
        MakesItems-push Y cells K b a old e (json_value_to_ruby Y H x) (push_values Y H a xs)
          (json_tree H x) (json_trees H xs) (value_lem b x p) (items_lem b a old e xs ps)

    entries_lem :
        (before : Y.Store) (h : RubyValue) (old : Cell)
        → cells before h ≡ some old
        → (keys : List Key) (map : JsonMap) → HasNewKeys keys map
        → MakesEntries cells before h keys (put_values Y H h map) (json_entries H map)
    entries_lem b h old e keys JsonMap.empty p = MakesEntries-none h keys
    entries_lem b h old e keys (JsonMap.entry k v m) (new, p, ps) =
        MakesEntries-key_first Y cells K b h old e (put_values Y H h m) keys (Key.string_key k)
          (json_tree H v) (json_entries H m) new
          (entries_lem b h old e (keys ++ Key.string_key k ∷ []) m ps) (call (Y.rb_utf8_str_new k))
          (json_value_to_ruby Y H v)
          (MakesKey-call (Y.rb_utf8_str_new k) (Key.string_key k) (K.str_new k)) (value_lem b v p)

  map_lem :
      (before : Y.Store) (map : JsonMap)
      → HasNewKeys [] map
      → Makes cells before (map_to_ruby Y H map) (Tree.hash (json_entries H map))
  unfolding map_to_ruby
  map_lem b map p =
      Makes-hash Y cells K b (λ h. put_values Y H h map) (json_entries H map)
        (λ st h g e. entries_lem st h (Cell.hash []) e [] map p)

  module _ (before : Y.Store) (path_sym code_sym meta_sym : RubyValue)
      (is_path : cells before path_sym ≡ some (Cell.symbol "path"))
      (is_code : cells before code_sym ≡ some (Cell.symbol "code"))
      (is_meta : cells before meta_sym ≡ some (Cell.symbol "meta")) where
    message_lem :
        (e : ErrorEntry)
        → has_nul e.code ≡ false
        → HasNewKeys [] e.meta
        → Makes cells before (message_hash Y H path_sym code_sym meta_sym e) (message_tree H e)
    unfolding message_hash message_tree has_key
    message_lem e n p =
        Makes-hash Y cells K before (λ h. put_message Y H path_sym code_sym meta_sym h e) _
          (λ st h g alive.
            MakesEntries-fixed Y cells K st h (Cell.hash []) alive _ [] (Key.symbol_key "path")
              (Tree.string e.path) _ refl
              (MakesEntries-fixed Y cells K st h (Cell.hash []) alive _ (Key.symbol_key "path" ∷ [])
                (Key.symbol_key "code") (Tree.symbol e.code) _ refl
                (MakesEntries-fixed Y cells K st h (Cell.hash []) alive _
                  (Key.symbol_key "path" ∷ Key.symbol_key "code" ∷ []) (Key.symbol_key "meta")
                  (Tree.hash (json_entries H e.meta)) _ refl (MakesEntries-none h _) meta_sym
                  (map_to_ruby Y H e.meta) (g.leaves meta_sym _ refl is_meta) (map_lem st e.meta p))
                code_sym (ensure_symbol Y e.code) (g.leaves code_sym _ refl is_code)
                (symbol_tree_lem st e.code n))
              path_sym (call (Y.rb_utf8_str_new e.path)) (g.leaves path_sym _ refl is_path)
              (string_lem st e.path))

    messages_lem :
        (a : RubyValue) (old : Cell)
        → cells before a ≡ some old
        → (es : List ErrorEntry) → AreSound es
        → MakesItems cells before a
            (push_messages Y H path_sym code_sym meta_sym a es)
            (message_trees H es)
    unfolding push_messages message_trees
    messages_lem a old alive [] p = MakesItems-none a
    messages_lem a old alive (e ∷ es) (n, p, ps) =
        MakesItems-push Y cells K before a old alive (message_hash Y H path_sym code_sym meta_sym e)
          (push_messages Y H path_sym code_sym meta_sym a es) (message_tree H e)
          (message_trees H es) (message_lem e n p) (messages_lem a old alive es ps)

  fill_lem :
      (before : Y.Store) (a : RubyValue) (es : List ErrorEntry)
      → AreSound es
      → MakesItems cells before a (fill_messages Y H a es) (message_trees H es)
  unfolding fill_messages
  fill_lem b a es p =
      MakesItems-with_key Y cells K b a (ensure_symbol Y "path") (Key.symbol_key "path") _
        (message_trees H es) (symbol_lem b "path" refl)
        (λ c path g is_path ws e.
          MakesItems-with_key Y cells K c a (ensure_symbol Y "code") (Key.symbol_key "code") _
            (message_trees H es) (symbol_lem c "code" refl)
            (λ d code h is_code vs f.
              MakesItems-with_key Y cells K d a (ensure_symbol Y "meta") (Key.symbol_key "meta") _
                (message_trees H es) (symbol_lem d "meta" refl)
                (λ later meta i is_meta us alive.
                  messages_lem later path code meta
                    (i.leaves path _ refl (h.leaves path _ refl is_path))
                    (i.leaves code _ refl is_code) is_meta a (Cell.array us) alive es p)))

  pub error_set_messages-Makes :
      (before : Y.Store) (set : ErrorSet)
      → AreSound set.entries
      → Makes cells before (error_set_messages Y H set) (Tree.list (message_trees H set.entries))
  unfolding error_set_messages
  error_set_messages-Makes b set p =
      Makes-array Y cells K b (λ a. fill_messages Y H a set.entries) (message_trees H set.entries)
        (λ st a g e. fill_lem st a set.entries p)

  pub json_value_to_ruby-Makes :
      (before : Y.Store) (v : JsonValue)
      → HasMaps v
      → Makes cells before (json_value_to_ruby Y H v) (json_tree H v)
  json_value_to_ruby-Makes b v p = value_lem b v p
