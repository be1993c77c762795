-- ===== src/Input.antt =====
-- The preparation of an input for validation (ext/rustly_core/src/validation/input.rs): a JSON text is
-- taken as it is, and any other Ruby object is converted. Arrays and hashes may hold themselves, so
-- the conversion takes fuel, one unit for each object on the way down; the loops take it as an argument.
-- The file's own `PathSegment` and `format_path` are those of the validator once more.
pub mod Shape
pub mod Spec
pub mod Follows
pub mod Types
pub mod Refines
pub mod Prepare
use rustly_core.Base.{
  ℕ, zero, suc, String, true, false, ◌||◌, Option, none, some, List, [], ◌∷◌, ◌++◌, ◌==◌,
  if◌then◌else◌,
}
use rustly_core.Base.Int.{ℤ}
use rustly_core.Ruby.{
  RubyValue, RubyType, Reads, Raising, gives, exception, class_name, text_option,
}
use rustly_core.Validation.Options.{InputMode}
use rustly_core.Validation.Value.{OwnedValue, OwnedList, OwnedDict}
use rustly_core.Validation.Path
use rustly_core.Validation.Path.{PathSegment, pop}
use rustly_core.Validation.Result.{PreparedInput}

pub data InputError : Type 0 where
  expected_string : String → InputError
  unsupported_type : String → String → InputError
  invalid_hash_key : String → String → InputError

abbrev pub Segments : Type 0
Segments = List PathSegment

-- The text of this file's `format_path` is that of the validator's.
abbrev pub format_path : Segments → String
format_path path = Path.format_path path

-- A function with `path: &mut Path` ends with a value, ends with an error, or is left by an exception
-- of Ruby; or the fuel has run out.
pub data Converted {ℓ} (A : Type ℓ) : Type ℓ where
  value : A → Segments → Converted A
  failed : InputError → Segments → Converted A
  raised exhausted : Converted A

abbrev pub C {ℓ} : Type ℓ → Type ℓ
C A = Segments → Converted A

abbrev pub pure {ℓ} : {A : Type ℓ} → A → C A
pure a path = value a path

abbrev pub continue {ℓ κ} : {A : Type ℓ} {B : Type κ} → (A → C B) → Converted A → Converted B
continue f (value a path) = f a path
continue f (failed e path) = failed e path
continue f raised = raised
continue f exhausted = exhausted

infixl 5 ◌>>=◌ ◌>>◌
unfoldable pub ◌>>=◌ {ℓ κ} : {A : Type ℓ} {B : Type κ} → C A → (A → C B) → C B
◌>>=◌ m f path = continue f (m path)

abbrev pub ◌>>◌ {ℓ κ} : {A : Type ℓ} {B : Type κ} → C A → C B → C B
m >> n = m >>= λ _. n

unfoldable pub push : PathSegment → C (Unit {0})
push s path = value tt (path ++ s ∷ [])

unfoldable pub pop_segment : C (Unit {0})
pop_segment path = value tt (pop path)

abbrev pub or_raised : Option ℤ → C OwnedValue
or_raised none path = raised
or_raised (some i) path = value (OwnedValue.int i) path

abbrev pub text_of : (List ℕ → String) → Option (List ℕ) → Option String
text_of utf8 none = none
text_of utf8 (some bytes) = some (utf8 bytes)

-- `prepare_input` ends with an input or with an error, or is left by an exception of Ruby; or the
-- fuel has run out.
pub data Prepared : Type 0 where
  prepared : PreparedInput → Prepared
  refused : InputError → Prepared
  raised exhausted : Prepared

abbrev pub prepared_owned : Converted OwnedValue → Prepared
prepared_owned (value v path) = prepared (PreparedInput.owned v)
prepared_owned (failed e path) = refused e
prepared_owned raised = Prepared.raised
prepared_owned exhausted = Prepared.exhausted

abbrev pub prepared_json : String → Raising (Option String) → Prepared
prepared_json class_name (gives (some s)) = prepared (PreparedInput.json s)
prepared_json class_name (gives none) = refused (InputError.expected_string class_name)
prepared_json class_name exception = Prepared.raised

module _ (R : Reads) where
  -- The bytes of a string are taken for UTF-8 unchecked.
  unfoldable pub copy_ruby_string : RubyValue → Option String
  copy_ruby_string v =
      if R.rb_type_p v RubyType.t_string then text_of R.utf8_text (R.rstring v) else none

  unfoldable pub copy_ruby_symbol : RubyValue → Option String
  unfolding copy_ruby_string
  copy_ruby_symbol v =
      if R.rb_type_p v RubyType.t_symbol then copy_ruby_string (R.rb_sym2str v) else none

  unfoldable pub unsupported {ℓ} : {A : Type ℓ} → RubyValue → C A
  unfolding class_name
  unsupported v path = failed (InputError.unsupported_type (format_path path) (class_name R v)) path

  abbrev pub or_unsupported : (String → OwnedValue) → Option String → RubyValue → C OwnedValue
  or_unsupported make none v = unsupported v
  or_unsupported make (some s) v = pure (make s)

  unfoldable pub invalid_key : RubyValue → C String
  unfolding class_name
  invalid_key k path = failed (InputError.invalid_hash_key (format_path path) (class_name R k)) path

  abbrev pub first_key : Option String → Option String → RubyValue → C String
  first_key (some s) t k = pure s
  first_key none (some s) k = pure s
  first_key none none k = invalid_key k

  unfoldable pub extract_hash_key : RubyValue → C String
  unfolding copy_ruby_string copy_ruby_symbol invalid_key
  extract_hash_key k = first_key (copy_ruby_string k) (copy_ruby_symbol k) k

  module _ (go : RubyValue → C OwnedValue) where
    -- The loop over the indices from `index` on, `left` of them.
    unfoldable pub convert_items : RubyValue → ℕ → ℕ → C OwnedList
    convert_items v zero index = pure OwnedList.nil
    convert_items v (suc left) index = do
      push (PathSegment.index index)
      converted ← go (R.rb_ary_entry v index)
      pop_segment
      items ← convert_items v left (suc index)
      pure (OwnedList.cons converted items)

    unfoldable pub convert_array : RubyValue → C OwnedValue
    unfolding convert_items
    convert_array v = do items ← convert_items v (R.rarray_len v) 0; pure (OwnedValue.list items)

    -- `path.pop()` where an error is put into its slot.
    abbrev pub pop_on_error {ℓ} : {A : Type ℓ} → Converted A → Converted A
    pop_on_error (failed e path) = failed e (pop path)
    pop_on_error r = r

    -- The callback of `rb_hash_foreach` for one entry: an error stops the iteration, and is what
    -- `convert_hash` then returns.
    unfoldable pub hash_foreach_convert : RubyValue → RubyValue → C (String × OwnedValue)
    unfolding extract_hash_key
    hash_foreach_convert k v = do
      key ← extract_hash_key k
      push (PathSegment.key key)
      converted ← (λ path. pop_on_error (go v path))
      pop_segment
      pure (key, converted)

    unfoldable pub convert_entries : List (RubyValue × RubyValue) → C OwnedDict
    unfolding hash_foreach_convert
    convert_entries [] = pure OwnedDict.empty
    convert_entries ((k, v) ∷ rest) = do
      pair ← hash_foreach_convert k v
      entries ← convert_entries rest
      pure (OwnedDict.entry pair.0 pair.1 entries)

    unfoldable pub convert_hash : RubyValue → C OwnedValue
    unfolding convert_entries
    convert_hash v = do
      entries ← convert_entries (R.rb_hash_entries v)
      pure (OwnedValue.dict entries)

    -- An object that is none of `nil`, `true` and `false`.
    unfoldable pub convert_typed : RubyValue → C OwnedValue
    unfolding copy_ruby_string copy_ruby_symbol unsupported convert_array convert_hash
    convert_typed v =
        if R.rb_type_p v RubyType.t_fixnum || R.rb_type_p v RubyType.t_bignum
        then or_raised (R.rb_num2ll v)
        else if R.rb_type_p v RubyType.t_float
        then pure (OwnedValue.float (R.rb_num2dbl v))
        else if R.rb_type_p v RubyType.t_string
        then or_unsupported OwnedValue.string (copy_ruby_string v) v
        else if R.rb_type_p v RubyType.t_symbol
        then or_unsupported OwnedValue.symbol (copy_ruby_symbol v) v
        else if R.rb_type_p v RubyType.t_array
        then convert_array v
        else if R.rb_type_p v RubyType.t_hash
        then convert_hash v
        else unsupported v

    unfoldable pub convert_value : RubyValue → C OwnedValue
    unfolding convert_typed
    convert_value v =
        if v == R.qnil
        then pure OwnedValue.null
        else if v == R.qtrue
        then pure (OwnedValue.bool true)
        else if v == R.qfalse
        then pure (OwnedValue.bool false)
        else convert_typed v

  unfoldable pub convert_ruby_value : ℕ → RubyValue → C OwnedValue
  unfolding convert_value
  convert_ruby_value zero v = λ path. exhausted
  convert_ruby_value (suc fuel) v = convert_value (convert_ruby_value fuel) v

  unfoldable pub convert_owned : ℕ → RubyValue → Prepared
  unfolding convert_ruby_value
  convert_owned fuel v = prepared_owned (convert_ruby_value fuel v [])

  unfoldable pub string_to_owned : RubyValue → Raising (Option String)
  string_to_owned v =
      if R.rb_type_p v RubyType.t_string then text_option (R.rb_string_value_cstr v) else gives none

  unfoldable pub prepare_json : RubyValue → Prepared
  unfolding string_to_owned class_name
  prepare_json v = prepared_json (class_name R v) (string_to_owned v)

  unfoldable pub prepare_input : ℕ → RubyValue → InputMode → Prepared
  unfolding convert_owned prepare_json
  prepare_input fuel v InputMode.json = prepare_json v
  prepare_input fuel v InputMode.ruby = convert_owned fuel v
  prepare_input fuel v InputMode.auto =
      if R.rb_type_p v RubyType.t_string then prepare_json v else convert_owned fuel v
