-- ===== src/Native/Messages.antt =====
-- The Ruby objects for JSON values and for the messages of an error set (`ensure_symbol`,
-- `json_value_to_ruby` and `map_to_ruby` of ext/rustly_core/src/ruby_helpers.rs, and
-- `error_set_messages` of ext/rustly_core/src/lib.rs).
use rustly_core.Base.{ℕ, ◌^◌, String, true, false, Option, none, some, List, [], ◌∷◌, ltb}
use rustly_core.Base.{if◌then◌else◌}
use rustly_core.Base.Int.{ℤ, pos, negsuc}
use rustly_core.Base.Float.{F64}
use rustly_core.Host.{Host}
use rustly_core.Json.{JsonValue, JsonArray, JsonMap, Number, integer, real}
use rustly_core.Ruby.{RubyValue}
use rustly_core.Schema.Plan.{has_nul}
use rustly_core.Validation.Value.{as_i64, as_f64}
use rustly_core.Materialize.{RubyHeap, panicked, B, pure, ◌>>=◌, ◌>>◌, call, look, change}
use rustly_core.Native.Errors.{ErrorEntry, ErrorSet}

-- `Number::as_u64`
unfoldable pub as_u64 : Number → Option ℕ
as_u64 (integer (pos n)) = elim (ltb n (2 ^ 64)) [ true ↦ some n | false ↦ none ]
as_u64 (integer (negsuc n)) = none
as_u64 (real f) = none

module _ (Y : RubyHeap) where
  -- `CString::new(id).expect("symbol name")` panics for a text with a NUL.
  unfoldable pub ensure_symbol : String → B Y RubyValue
  unfolding ◌>>=◌
  ensure_symbol id =
      if has_nul id
      then (λ st. panicked)
      else (call (Y.rb_intern2 id) >>= λ id_value. call (Y.rb_id2sym id_value))

  abbrev pub number_to_ruby : Option ℤ → Option ℕ → Option F64 → B Y RubyValue
  number_to_ruby (some i) u f = call (Y.rb_ll2inum i)
  number_to_ruby none (some u) f = call (Y.rb_ull2inum u)
  number_to_ruby none none (some f) = call (Y.rb_float_new f)
  number_to_ruby none none none = look (λ st. (Y.reads st).qnil)

module _ (Y : RubyHeap) (H : Host) where
  unfoldable mutual
    unfolding as_i64 as_u64 as_f64 ◌>>=◌

    pub json_value_to_ruby : JsonValue → B Y RubyValue
    json_value_to_ruby JsonValue.null = look (λ st. (Y.reads st).qnil)
    json_value_to_ruby (JsonValue.bool true) = look (λ st. (Y.reads st).qtrue)
    json_value_to_ruby (JsonValue.bool false) = look (λ st. (Y.reads st).qfalse)
    json_value_to_ruby (JsonValue.number num) =
        number_to_ruby Y (as_i64 num) (as_u64 num) (some (as_f64 H num))
    json_value_to_ruby (JsonValue.string s) = call (Y.rb_utf8_str_new s)
    json_value_to_ruby (JsonValue.array items) = do
      array ← call Y.rb_ary_new
      push_values array items
      pure array
    -- `map_to_ruby(map)`, written out
    json_value_to_ruby (JsonValue.object map) = do
      hash ← call Y.rb_hash_new
      put_values hash map
      pure hash

    -- The loop over the items of an array.
    pub push_values : RubyValue → JsonArray → B Y (Unit {0})
    push_values array JsonArray.nil = pure tt
    push_values array (JsonArray.cons item items) = do
      ruby_value ← json_value_to_ruby item
      change (Y.rb_ary_push array ruby_value)
      push_values array items

    -- The loop of `map_to_ruby`.
    pub put_values : RubyValue → JsonMap → B Y (Unit {0})
    put_values hash JsonMap.empty = pure tt
    put_values hash (JsonMap.entry key value map) = do
      key_value ← call (Y.rb_utf8_str_new key)
      ruby_value ← json_value_to_ruby value
      change (Y.rb_hash_aset hash key_value ruby_value)
      put_values hash map

  unfoldable pub map_to_ruby : JsonMap → B Y RubyValue
  unfolding json_value_to_ruby ◌>>=◌
  map_to_ruby map = do hash ← call Y.rb_hash_new; put_values hash map; pure hash

  module _ (path_sym code_sym meta_sym : RubyValue) where
    -- The calls of `rb_hash_aset` for one entry.
    unfoldable pub put_message : RubyValue → ErrorEntry → B Y (Unit {0})
    unfolding ensure_symbol map_to_ruby
    put_message hash entry = do
      path_value ← call (Y.rb_utf8_str_new entry.path)
      change (Y.rb_hash_aset hash path_sym path_value)
      code_value ← ensure_symbol Y entry.code
      change (Y.rb_hash_aset hash code_sym code_value)
      meta_hash ← map_to_ruby entry.meta
      change (Y.rb_hash_aset hash meta_sym meta_hash)
      pure tt

    -- The hash of one entry.
    unfoldable pub message_hash : ErrorEntry → B Y RubyValue
    unfolding put_message
    message_hash entry = do hash ← call Y.rb_hash_new; put_message hash entry; pure hash

    -- The loop over the entries.
    unfoldable pub push_messages : RubyValue → List ErrorEntry → B Y (Unit {0})
    unfolding message_hash
    push_messages array [] = pure tt
    push_messages array (entry ∷ entries) = do
      hash ← message_hash entry
      change (Y.rb_ary_push array hash)
      push_messages array entries

  -- The three symbols, and the loop.
  unfoldable pub fill_messages : RubyValue → List ErrorEntry → B Y (Unit {0})
  unfolding ensure_symbol push_messages
  fill_messages array entries = do
    path_sym ← ensure_symbol Y "path"
    code_sym ← ensure_symbol Y "code"
    meta_sym ← ensure_symbol Y "meta"
    push_messages path_sym code_sym meta_sym array entries

  unfoldable pub error_set_messages : ErrorSet → B Y RubyValue
  unfolding fill_messages
  error_set_messages set = do array ← call Y.rb_ary_new; fill_messages array set.entries; pure array
