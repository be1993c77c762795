-- ===== src/Heap.antt =====
-- Ruby's heap as cells: what stands at each object, what the reads of it show, and what the calls of
-- the C API that ext/rustly_core/src/materialize.rs, ruby_helpers.rs and lib.rs make objects with do
-- to the cells. The cells are no part of the program: a heap is said to have them.
pub mod Trees
pub mod Frame
pub mod Makes
pub mod Containers
pub mod Loops
pub mod Sequence
pub mod Shown
pub mod Values
pub mod Messages
use rustly_core.Base.{
  ℕ, suc, ◌^◌, String, ◌≡◌, ◌⊎◌, Bool, true, false, Option, none, some, List, [], ◌∷◌, ◌++◌, ◌||◌,
  ltb, ◌==◌, str_eq,
}
use rustly_core.Base.Lists.{length}
use rustly_core.Base.Int.{ℤ, pos, negsuc}
use rustly_core.Base.Float.{F64}
use rustly_core.Ruby.{RubyValue, RubyType, Reads}
use rustly_core.Schema.Plan.{has_nul}
use rustly_core.Input.Shape.{Typed}
use rustly_core.Materialize.{RubyHeap}

pub data Cell : Type 0 where
  nil : Cell
  boolean : Bool → Cell
  integer : ℤ → Cell
  float : F64 → Cell
  string symbol : String → Cell
  array : List RubyValue → Cell
  hash : List (RubyValue × RubyValue) → Cell

-- Arrays and hashes can be changed.
abbrev pub is_compound : Cell → Bool
is_compound (array vs) = true
is_compound (hash kvs) = true
is_compound _ = false

-- A key of a hash that the extension makes.
pub data Key : Type 0 where
  string_key symbol_key : String → Key

abbrev pub key_cell : Key → Cell
key_cell (Key.string_key s) = string s
key_cell (Key.symbol_key s) = symbol s

-- A string and a symbol are different keys.
abbrev pub same_key : Key → Key → Bool
same_key (Key.string_key s) (Key.string_key t) = str_eq s t
same_key (Key.symbol_key s) (Key.symbol_key t) = str_eq s t
same_key _ _ = false

unfoldable pub has_key : Key → List Key → Bool
has_key k [] = false
has_key k (j ∷ js) = same_key j k || has_key k js

-- Whether an integer is an i64.
unfoldable pub fits : ℤ → Bool
fits (pos n) = ltb n (2 ^ 63)
fits (negsuc n) = ltb n (2 ^ 63)

module _ (R : Reads) where
  -- The elements of an array from the index `i` on.
  abbrev pub Listed : RubyValue → ℕ → List RubyValue → Type 0
  Listed v i [] = Unit {0}
  Listed v i (w ∷ ws) = (R.rb_ary_entry v i ≡ w) × Listed v (suc i) ws

  abbrev pub ShowsInteger : RubyValue → ℤ → Bool → Type 0
  ShowsInteger v i true =
      (Typed R v (some RubyType.t_fixnum) ⊎ Typed R v (some RubyType.t_bignum))
      × (R.rb_num2ll v ≡ some i)
  ShowsInteger v i false = Typed R v (some RubyType.t_bignum) × (R.rb_num2ll v ≡ none)

  -- The bytes of a string are those of the text.
  abbrev pub ShowsText : RubyValue → String → Type 0
  ShowsText v s = (bytes : List ℕ) × (R.rstring v ≡ some bytes) × (R.utf8_text bytes ≡ s)

  -- What the reads of an object show of its cell.
  abbrev pub ShowsCell : RubyValue → Cell → Type 0
  ShowsCell v nil = (v == R.qnil) ≡ true
  ShowsCell v (boolean true) = ((v == R.qnil) ≡ false) × ((v == R.qtrue) ≡ true)
  ShowsCell v (boolean false) =
      ((v == R.qnil) ≡ false) × ((v == R.qtrue) ≡ false) × ((v == R.qfalse) ≡ true)
  ShowsCell v (integer i) = ShowsInteger v i (fits i)
  ShowsCell v (float f) = Typed R v (some RubyType.t_float) × (R.rb_num2dbl v ≡ f)
  ShowsCell v (string s) = Typed R v (some RubyType.t_string) × ShowsText v s
  ShowsCell v (symbol s) =
      Typed R v (some RubyType.t_symbol)
      × (R.rb_type_p (R.rb_sym2str v) RubyType.t_string ≡ true)
      × ShowsText (R.rb_sym2str v) s
  ShowsCell v (array ws) =
      Typed R v (some RubyType.t_array) × (R.rarray_len v ≡ length ws) × Listed v 0 ws
  ShowsCell v (hash kvs) = Typed R v (some RubyType.t_hash) × (R.rb_hash_entries v ≡ kvs)

module _ {S : Type 0} (cells : S → RubyValue → Option Cell) where
  -- Every object stays what it is.
  abbrev pub Kept : S → S → Type 0
  Kept st next = (w : RubyValue) (c : Cell) → cells st w ≡ some c → cells next w ≡ some c

  -- Every object but one stays what it is.
  abbrev pub KeptBut : RubyValue → S → S → Type 0
  KeptBut a st next =
      (w : RubyValue) (c : Cell) → (w ≡ a → ⊥) → cells st w ≡ some c → cells next w ≡ some c

  -- A call has made an object.
  pub record IsMade (c : Cell) (st : S) (made : RubyValue × S) : Type 0 where
    pub stands : cells made.1 made.0 ≡ some c
    pub kept : Kept st made.1

  -- A call has made an object where there was none.
  pub record IsNew (c : Cell) (st : S) (made : RubyValue × S) : Type 0 where
    pub was_free : cells st made.0 ≡ none
    pub is_made : IsMade c st made

  -- The keys of a hash, in their order.
  abbrev pub KeysAre : S → List (RubyValue × RubyValue) → List Key → Type 0
  KeysAre st [] [] = Unit {0}
  KeysAre st [] (key ∷ keys) = ⊥
  KeysAre st (kv ∷ kvs) [] = ⊥
  KeysAre st (kv ∷ kvs) (key ∷ keys) = (cells st kv.0 ≡ some (key_cell key)) × KeysAre st kvs keys

  pub record IsPushed (a x : RubyValue) (ws : List RubyValue) (st next : S) : Type 0 where
    pub stands : cells next a ≡ some (array (ws ++ x ∷ []))
    pub kept : KeptBut a st next

  -- An entry has been added; a key that is a string is copied.
  pub record IsPut (h x : RubyValue) (key : Key) (kvs : List (RubyValue × RubyValue)) (st next : S)
      : Type 0 where
    pub copied : RubyValue
    pub key_stands : cells next copied ≡ some (key_cell key)
    pub stands : cells next h ≡ some (hash (kvs ++ (copied, x) ∷ []))
    pub kept : KeptBut h st next

-- The heap has these cells: its reads show them, and its calls make and change them as Ruby's manual
-- says. `rb_hash_aset` adds a key that the hash does not have at its end.
pub record HeapLaws (Y : RubyHeap) (cells : Y.Store → RubyValue → Option Cell) : Type 0 where
  pub shows :
      (st : Y.Store) (v : RubyValue) (c : Cell) → cells st v ≡ some c → ShowsCell (Y.reads st) v c
  pub nil_stands : (st : Y.Store) → cells st (Y.reads st).qnil ≡ some nil
  pub true_stands : (st : Y.Store) → cells st (Y.reads st).qtrue ≡ some (boolean true)
  pub false_stands : (st : Y.Store) → cells st (Y.reads st).qfalse ≡ some (boolean false)
  pub ll2inum :
      (i : ℤ) (st : Y.Store) → fits i ≡ true → IsMade cells (integer i) st (Y.rb_ll2inum i st)
  pub ull2inum :
      (n : ℕ) (st : Y.Store)
      → ltb n (2 ^ 64) ≡ true
      → IsMade cells (integer (pos n)) st (Y.rb_ull2inum n st)
  pub float_new : (f : F64) (st : Y.Store) → IsMade cells (float f) st (Y.rb_float_new f st)
  pub str_new : (s : String) (st : Y.Store) → IsMade cells (string s) st (Y.rb_utf8_str_new s st)
  pub symbol_made :
      (s : String) (st : Y.Store)
      → has_nul s ≡ false
      → IsMade cells (symbol s) st (Y.rb_id2sym (Y.rb_intern2 s st).0 (Y.rb_intern2 s st).1)
  pub ary_new : (st : Y.Store) → IsNew cells (array []) st (Y.rb_ary_new st)
  pub ary_push :
      (a x : RubyValue) (ws : List RubyValue) (st : Y.Store)
      → cells st a ≡ some (array ws)
      → IsPushed cells a x ws st (Y.rb_ary_push a x st)
  pub hash_new : (st : Y.Store) → IsNew cells (hash []) st (Y.rb_hash_new st)
  pub hash_aset :
      (h k x : RubyValue) (key : Key) (keys : List Key) (kvs : List (RubyValue × RubyValue))
      (st : Y.Store)
      → cells st h ≡ some (hash kvs)
      → KeysAre cells st kvs keys
      → has_key key keys ≡ false
      → cells st k ≡ some (key_cell key)
      → IsPut cells h x key kvs st (Y.rb_hash_aset h k x st)
