-- ===== src/Ruby.antt =====
-- What the extension reads of Ruby objects through the C API, and the helpers on top of it
-- (ext/rustly_core/src/ruby_helpers.rs). A `VALUE` is a machine word. The calls of the C API are the
-- fields of `Reads`: what they return at one moment. While the extension reads, it holds Ruby's lock
-- and runs no Ruby code, so that all reads are of one moment.
use rustly_core.Base.{
  ℕ, String, Bool, true, false, not, ◌&&◌, Option, none, some, List, ◌==◌, if◌then◌else◌,
}
use rustly_core.Base.Int.{ℤ}
use rustly_core.Base.Float.{F64}

abbrev pub RubyValue : Type 0
RubyValue = ℕ

-- The types that `RB_TYPE_P` is asked for: `RUBY_T_FIXNUM` and so on.
pub data RubyType : Type 0 where
  t_fixnum t_bignum t_float t_string t_symbol t_array t_hash : RubyType

-- The classes that `rb_obj_is_kind_of` is asked for.
pub data RubyClass : Type 0 where
  c_string c_symbol c_array c_hash : RubyClass

-- `rb_string_value_cstr` and `CStr::to_string_lossy`: an exception, which it raises for a text with a
-- NUL, a null pointer, or the text.
pub data CText : Type 0 where
  raises null_pointer : CText
  text : String → CText

pub record Reads : Type 0 where
  pub qnil : RubyValue
  pub qtrue : RubyValue
  pub qfalse : RubyValue
  pub qundef : RubyValue
  pub rb_type_p : RubyValue → RubyType → Bool
  pub rb_obj_is_kind_of : RubyValue → RubyClass → RubyValue
  -- `none`: it raises a `RangeError`.
  pub rb_num2ll : RubyValue → Option ℤ
  pub rb_num2dbl : RubyValue → F64
  -- `RSTRING_PTR` and `RSTRING_LEN`: the bytes, or `none` for a null pointer.
  pub rstring : RubyValue → Option (List ℕ)
  -- `str::from_utf8_unchecked`
  pub utf8_text : List ℕ → String
  pub rb_string_value_cstr : RubyValue → CText
  pub rb_sym2str : RubyValue → RubyValue
  pub rarray_len : RubyValue → ℕ
  pub rb_ary_entry : RubyValue → ℕ → RubyValue
  -- The entries that `rb_hash_foreach` goes through, in its order.
  pub rb_hash_entries : RubyValue → List (RubyValue × RubyValue)
  pub rb_hash_lookup2 : RubyValue → RubyValue → RubyValue → RubyValue
  pub rb_obj_class : RubyValue → RubyValue
  -- `none`: a null pointer.
  pub rb_class2name : RubyValue → Option String

-- What a helper gives that may raise an exception of Ruby.
pub data Raising {ℓ} (A : Type ℓ) : Type ℓ where
  gives : A → Raising A
  exception : Raising A

abbrev pub map_raising {ℓ κ} : {A : Type ℓ} {B : Type κ} → (A → B) → Raising A → Raising B
map_raising f (gives a) = gives (f a)
map_raising f exception = exception

abbrev pub or_unknown : Option String → String
or_unknown none = "Unknown"
or_unknown (some name) = name

abbrev pub text_option : CText → Raising (Option String)
text_option CText.raises = exception
text_option CText.null_pointer = gives none
text_option (CText.text s) = gives (some s)

module _ (R : Reads) where
  unfoldable pub truthy : RubyValue → Bool
  truthy value = not (value == R.qfalse) && not (value == R.qnil)

  unfoldable pub hash_lookup : RubyValue → RubyValue → Option RubyValue
  unfolding truthy
  hash_lookup hash key =
      if not (truthy (R.rb_obj_is_kind_of hash RubyClass.c_hash))
      then none
      else if R.rb_hash_lookup2 hash key R.qundef == R.qundef
      then none
      else some (R.rb_hash_lookup2 hash key R.qundef)

  unfoldable pub value_to_bool : RubyValue → Option Bool
  value_to_bool value =
      if value == R.qtrue then some true else if value == R.qfalse then some false else none

  unfoldable pub string_to_owned : RubyValue → Raising (Option String)
  unfolding truthy
  string_to_owned value =
      if not (truthy (R.rb_obj_is_kind_of value RubyClass.c_string))
      then gives none
      else text_option (R.rb_string_value_cstr value)

  unfoldable pub symbol_to_owned : RubyValue → Raising (Option String)
  unfolding truthy string_to_owned
  symbol_to_owned value =
      if not (truthy (R.rb_obj_is_kind_of value RubyClass.c_symbol))
      then gives none
      else string_to_owned (R.rb_sym2str value)

  unfoldable pub class_name : RubyValue → String
  class_name value = or_unknown (R.rb_class2name (R.rb_obj_class value))
