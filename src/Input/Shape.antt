-- ===== src/Input/Shape.antt =====
-- Ruby objects as trees: what the reads of an object, and of the objects in it, show.
use rustly_core.Base.{
  ℕ, suc, ◌+◌, String, ◌≡◌, ◌⊎◌, Bool, true, false, Option, none, some, List, [], ◌∷◌, ◌==◌,
}
use rustly_core.Base.Int.{ℤ}
use rustly_core.Base.Float.{F64}
use rustly_core.Ruby.{RubyValue, RubyType, Reads, class_name}
use rustly_core.Input.{copy_ruby_string, copy_ruby_symbol}

-- A key of a hash is a string or a symbol, or an object of another class.
pub data RubyKey : Type 0 where
  named : String → RubyKey
  other_key : String → RubyKey

-- `huge` is an integer that does not fit an i64, `other` an object of a class that has no conversion.
mutual
  pub data RubyData : Type 0 where
    nil huge : RubyData
    boolean : Bool → RubyData
    integer : ℤ → RubyData
    float : F64 → RubyData
    string : String → RubyData
    symbol : String → RubyData
    list : RubyItems → RubyData
    hash : RubyEntries → RubyData
    other : String → RubyData

  pub data RubyItems : Type 0 where
    no_items : RubyItems
    item : RubyData → RubyItems → RubyItems

  pub data RubyEntries : Type 0 where
    no_entries : RubyEntries
    entry : RubyKey → RubyData → RubyEntries → RubyEntries

-- The number of objects in a tree, the keys aside.
unfoldable mutual
  pub objects : RubyData → ℕ
  objects (list ds) = suc (objects_items ds)
  objects (hash es) = suc (objects_entries es)
  objects nil = 1
  objects huge = 1
  objects (boolean b) = 1
  objects (integer i) = 1
  objects (float f) = 1
  objects (string s) = 1
  objects (symbol s) = 1
  objects (other c) = 1

  pub objects_items : RubyItems → ℕ
  objects_items no_items = 0
  objects_items (item d ds) = objects d + objects_items ds

  pub objects_entries : RubyEntries → ℕ
  objects_entries no_entries = 0
  objects_entries (entry k d es) = objects d + objects_entries es

abbrev pub items_len : RubyItems → ℕ
items_len no_items = 0
items_len (item d ds) = suc (items_len ds)

-- Whether two types are the same; a type outside the list is `none`.
abbrev pub has_type : Option RubyType → RubyType → Bool
has_type (some RubyType.t_fixnum) RubyType.t_fixnum = true
has_type (some RubyType.t_bignum) RubyType.t_bignum = true
has_type (some RubyType.t_float) RubyType.t_float = true
has_type (some RubyType.t_string) RubyType.t_string = true
has_type (some RubyType.t_symbol) RubyType.t_symbol = true
has_type (some RubyType.t_array) RubyType.t_array = true
has_type (some RubyType.t_hash) RubyType.t_hash = true
has_type _ _ = false

module _ (R : Reads) where
  -- The object is none of the three special constants, and is of the type.
  pub record Typed (v : RubyValue) (ty : Option RubyType) : Type 0 where
    pub not_nil : (v == R.qnil) ≡ false
    pub not_true : (v == R.qtrue) ≡ false
    pub not_false : (v == R.qfalse) ≡ false
    pub typed : (t : RubyType) → R.rb_type_p v t ≡ has_type ty t

  abbrev pub ShowsKey : RubyValue → RubyKey → Type 0
  ShowsKey k (named s) =
      (copy_ruby_string R k ≡ some s)
      ⊎ ((copy_ruby_string R k ≡ none) × (copy_ruby_symbol R k ≡ some s))
  ShowsKey k (other_key c) =
      (copy_ruby_string R k ≡ none) × (copy_ruby_symbol R k ≡ none) × (class_name R k ≡ c)

  abbrev mutual
    pub Shows : RubyValue → RubyData → Type 0
    Shows v nil = (v == R.qnil) ≡ true
    Shows v (boolean true) = ((v == R.qnil) ≡ false) × ((v == R.qtrue) ≡ true)
    Shows v (boolean false) =
        ((v == R.qnil) ≡ false) × ((v == R.qtrue) ≡ false) × ((v == R.qfalse) ≡ true)
    Shows v (integer i) =
        (Typed v (some RubyType.t_fixnum) ⊎ Typed v (some RubyType.t_bignum))
        × (R.rb_num2ll v ≡ some i)
    Shows v huge = Typed v (some RubyType.t_bignum) × (R.rb_num2ll v ≡ none)
    Shows v (float f) = Typed v (some RubyType.t_float) × (R.rb_num2dbl v ≡ f)
    Shows v (string s) = Typed v (some RubyType.t_string) × (copy_ruby_string R v ≡ some s)
    Shows v (symbol s) = Typed v (some RubyType.t_symbol) × (copy_ruby_symbol R v ≡ some s)
    Shows v (list ds) =
        Typed v (some RubyType.t_array) × (R.rarray_len v ≡ items_len ds) × ShowsItems v 0 ds
    Shows v (hash es) = Typed v (some RubyType.t_hash) × ShowsEntries (R.rb_hash_entries v) es
    Shows v (other c) = Typed v none × (class_name R v ≡ c)

    -- The elements from the index `i` on.
    pub ShowsItems : RubyValue → ℕ → RubyItems → Type 0
    ShowsItems v i no_items = Unit {0}
    ShowsItems v i (item d ds) = Shows (R.rb_ary_entry v i) d × ShowsItems v (suc i) ds

    pub ShowsEntries : List (RubyValue × RubyValue) → RubyEntries → Type 0
    ShowsEntries [] no_entries = Unit {0}
    ShowsEntries [] (entry k d es) = ⊥
    ShowsEntries (kv ∷ kvs) no_entries = ⊥
    ShowsEntries ((k, v) ∷ kvs) (entry key d es) = ShowsKey k key × Shows v d × ShowsEntries kvs es
