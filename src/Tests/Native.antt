-- ===== src/Tests/Native.antt =====
-- Runs of the methods that Ruby calls, on a small heap: `"int"`, `{ "a" => [7, "a"] }`, an array that
-- holds itself, and the options `{ strict: true, input_mode: :ruby, freeze: true }`.
use rustly_core.Base.{
  ◌≤◌, ◌≡◌, refl, true, false, ◌||◌, Option, none, some, [], ◌∷◌, arith, ◌==◌, if◌then◌else◌, inl,
}
use rustly_core.Base.Int.{pos}
use rustly_core.Ruby.{RubyValue, RubyType, RubyClass, CText, Reads}
use rustly_core.Input.{exhausted, copy_ruby_string, convert_ruby_value, prepare_input}
use rustly_core.Input.Shape.{
  RubyData, RubyItems, RubyEntries, RubyKey, Typed, Shows, objects, has_type,
}
use rustly_core.Input.Spec.{read}
use rustly_core.Input.Follows.{Follows}
use rustly_core.Input.Refines.{convert_ruby_value_lem}
use rustly_core.Input.Prepare.{expected_input, prepare_input-expected, convert_ruby_value-cyclic}
use rustly_core.Validation.Options.{InputMode}
use rustly_core.Native.Options.{Symbols, parsed, parse_options}
use rustly_core.Native.Options.Given.{
  GivenOptions, FreezeWord, with_defaults, Gives, parse_options-given,
}

abbrev type_of : RubyValue → Option RubyType
type_of v =
    if v == 15
    then some RubyType.t_fixnum
    else if v == 30 || v == 34 || v == 62
    then some RubyType.t_string
    else if v == 61
    then some RubyType.t_symbol
    else if v == 32 || v == 50
    then some RubyType.t_array
    else if v == 40 || v == 60
    then some RubyType.t_hash
    else none

abbrev class_type : RubyClass → RubyType
class_type RubyClass.c_string = RubyType.t_string
class_type RubyClass.c_symbol = RubyType.t_symbol
class_type RubyClass.c_array = RubyType.t_array
class_type RubyClass.c_hash = RubyType.t_hash

abbrev pub test_reads : Reads
test_reads = record {
  qnil = 8;
  qtrue = 20;
  qfalse = 0;
  qundef = 36;
  rb_type_p = λ v t. has_type (type_of v) t;
  rb_obj_is_kind_of = λ v c. if has_type (type_of v) (class_type c) then 20 else 0;
  rb_num2ll = λ v. some (pos 7);
  rb_num2dbl = λ v. record { bits = 0 };
  rstring = λ v. some (97 ∷ []);
  utf8_text = λ bytes. "a";
  rb_string_value_cstr = λ v. if v == 30 then CText.text "int" else CText.text "ruby";
  rb_sym2str = λ v. 62;
  rarray_len = λ v. if v == 32 then 2 else 1;
  rb_ary_entry = λ v i. if v == 32 then (if i == 0 then 15 else 34) else 50;
  rb_hash_entries = λ v. (34, 32) ∷ [];
  rb_hash_lookup2 =
      λ v key default. if key == 71 || key == 74 then 20 else if key == 73 then 61 else default;
  rb_obj_class = λ v. 90;
  rb_class2name = λ v. some "Object";
}

abbrev pub test_symbols : Symbols
test_symbols = record {
  strict = 71;
  extra = 72;
  input_mode = 73;
  freeze = 74;
  store_attributes = 75;
}

abbrev pub test_tree : RubyData
test_tree = RubyData.hash (
    RubyEntries.entry (RubyKey.named "a")
      (RubyData.list (
        RubyItems.item (RubyData.integer (pos 7))
          (RubyItems.item (RubyData.string "a") RubyItems.no_items)))
      RubyEntries.no_entries)

abbrev pub typed :
    (v : RubyValue)
    → (v == 8) ≡ false
    → (v == 20) ≡ false
    → (v == 0) ≡ false
    → Typed test_reads v (type_of v)
typed v e f g = record { not_nil = e; not_true = f; not_false = g; typed = λ t. refl }

pub test_tree-shown : Shows test_reads 40 test_tree
unfolding copy_ruby_string
test_tree-shown = (
  typed 40 refl refl refl,
  (
    inl refl,
    (
      typed 32 refl refl refl,
      refl,
      ((inl (typed 15 refl refl refl), refl), ((typed 34 refl refl refl, refl), tt)),
    ),
    tt,
  ),
)

pub test_tree-small : objects test_tree ≤ 4
unfolding objects
test_tree-small = omega arith

convert_ruby_value_lem_example : Follows (convert_ruby_value test_reads 4 40) [] (read test_tree [])
convert_ruby_value_lem_example =
    convert_ruby_value_lem test_reads 4 test_tree 40 [] test_tree-small test_tree-shown

prepare_input-expected_example :
    prepare_input test_reads 4 40 InputMode.auto
    ≡ expected_input test_reads InputMode.auto 40 test_tree
prepare_input-expected_example =
    prepare_input-expected test_reads 4 InputMode.auto test_tree 40 test_tree-small test_tree-shown

convert_ruby_value-cyclic_example : convert_ruby_value test_reads 100 50 [] ≡ exhausted
convert_ruby_value-cyclic_example =
    convert_ruby_value-cyclic test_reads 50 0 (typed 50 refl refl refl) refl refl 100 []

abbrev pub test_given : GivenOptions
test_given = record {
  strict = some true;
  input_mode = some InputMode.ruby;
  extra = none;
  freeze = some (FreezeWord.flag true);
  store_attributes = none;
}

pub test_given-given : Gives test_reads test_symbols 60 test_given
test_given-given = record {
  not_nil = refl;
  is_hash = (refl, refl);
  strict = (refl, refl, refl);
  input_mode = (refl, refl, ((refl, refl), (refl, refl), refl));
  extra = inl refl;
  freeze = (refl, refl, refl);
  store_attributes = inl refl;
}

parse_options-given_example :
    parse_options test_reads test_symbols 60 ≡ parsed (with_defaults test_given)
parse_options-given_example =
    parse_options-given test_reads test_symbols 60 test_given test_given-given
