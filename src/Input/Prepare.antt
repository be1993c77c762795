-- ===== src/Input/Prepare.antt =====
-- `prepare_input` as a whole, and the objects on which it does not return.
use rustly_core.Base.{
  ℕ, zero, suc, ◌≤◌, String, ◌≡◌, refl, ap, ◌∙◌, Bool, true, false, none, some, [], ◌∷◌, ◌++◌,
  if◌then◌else◌,
}
use rustly_core.Ruby.{RubyValue, RubyType, Reads, CText, text_option, class_name, gives}
use rustly_core.Validation.Options.{InputMode}
use rustly_core.Validation.Path.{PathSegment}
use rustly_core.Validation.Value.{OwnedValue}
use rustly_core.Validation.Result.{PreparedInput}
use rustly_core.Input.{
  InputError, Segments, Converted, value, failed, raised, exhausted, C, ◌>>=◌, push, convert_items,
  convert_array, convert_ruby_value, Prepared, prepared, refused, prepared_owned, prepared_json,
  convert_owned, string_to_owned, prepare_json, prepare_input,
}
use rustly_core.Input.Shape.{RubyData, Typed, Shows, objects}
use rustly_core.Input.Spec.{Reading, got, wrong, raising, read}
use rustly_core.Input.Refines.{convert_ruby_value_lem}
use rustly_core.Input.Follows.{SameEnd}
use rustly_core.Input.Types.{special_lem}

abbrev pub prepared_reading : Reading OwnedValue → Prepared
prepared_reading (got v) = prepared (PreparedInput.owned v)
prepared_reading (wrong e) = refused e
prepared_reading raising = Prepared.raised

prepared_same :
    (x : Converted OwnedValue) (r : Reading OwnedValue) (p : Segments)
    → SameEnd x r p
    → prepared_owned x ≡ prepared_reading r
prepared_same (value v q) (got w) p (e, f) = ap (λ u. prepared (PreparedInput.owned u)) e
prepared_same (failed e q) (wrong d) p h = ap refused h
prepared_same raised raising p h = refl
prepared_same (value v q) (wrong d) p h = absurd h
prepared_same (value v q) raising p h = absurd h
prepared_same (failed e q) (got w) p h = absurd h
prepared_same (failed e q) raising p h = absurd h
prepared_same raised (got w) p h = absurd h
prepared_same raised (wrong d) p h = absurd h
prepared_same exhausted r p h = absurd h

-- The text of a string object, what is refused where an object is no string, or Ruby's exception for a
-- text with a NUL.
abbrev pub prepared_text : Bool → CText → String → Prepared
prepared_text true (CText.text s) class = prepared (PreparedInput.json s)
prepared_text true CText.null_pointer class = refused (InputError.expected_string class)
prepared_text true CText.raises class = Prepared.raised
prepared_text false t class = refused (InputError.expected_string class)

-- How an input is taken in each mode.
abbrev pub expected_input : Reads → InputMode → RubyValue → RubyData → Prepared
expected_input R InputMode.json v d =
    prepared_text (R.rb_type_p v RubyType.t_string) (R.rb_string_value_cstr v) (class_name R v)
expected_input R InputMode.ruby v d = prepared_reading (read d [])
expected_input R InputMode.auto v d =
    if R.rb_type_p v RubyType.t_string
    then prepared_text true (R.rb_string_value_cstr v) (class_name R v)
    else prepared_reading (read d [])

module _ (R : Reads) where
  convert_owned_lem :
      (fuel : ℕ) (d : RubyData) (v : RubyValue)
      → objects d ≤ fuel
      → Shows R v d
      → convert_owned R fuel v ≡ prepared_reading (read d [])
  unfolding convert_owned
  convert_owned_lem fuel d v small s =
      prepared_same (convert_ruby_value R fuel v []) (read d []) []
        (convert_ruby_value_lem R fuel d v [] small s).ends

  text_lem :
      (b : Bool) (t : CText) (class : String)
      → prepared_json class (if b then text_option t else gives none) ≡ prepared_text b t class
  text_lem true (CText.text s) class = refl
  text_lem true CText.null_pointer class = refl
  text_lem true CText.raises class = refl
  text_lem false t class = refl

  json_lem :
      (v : RubyValue)
      → prepare_json R v
        ≡ prepared_text
            (R.rb_type_p v RubyType.t_string)
            (R.rb_string_value_cstr v)
            (class_name R v)
  unfolding prepare_json string_to_owned
  json_lem v =
      text_lem (R.rb_type_p v RubyType.t_string) (R.rb_string_value_cstr v) (class_name R v)

  -- If the reads of an input show a tree of at most as many objects as there is fuel, then it is taken
  -- as each mode says: as a JSON text, as a value that is read off the tree, or, in the mode `auto`,
  -- as a JSON text exactly if it is a string.
  pub prepare_input-expected :
      (fuel : ℕ) (mode : InputMode) (d : RubyData) (v : RubyValue)
      → objects d ≤ fuel
      → Shows R v d
      → prepare_input R fuel v mode ≡ expected_input R mode v d
  unfolding prepare_input
  prepare_input-expected fuel InputMode.json d v small s = json_lem v
  prepare_input-expected fuel InputMode.ruby d v small s = convert_owned_lem fuel d v small s
  prepare_input-expected fuel InputMode.auto d v small s =
      auto_lem (R.rb_type_p v RubyType.t_string) refl
    where
      auto_lem :
          (b : Bool)
          → R.rb_type_p v RubyType.t_string ≡ b
          → (if b then prepare_json R v else convert_owned R fuel v) ≡ (
              if b
              then prepared_text true (R.rb_string_value_cstr v) (class_name R v)
              else prepared_reading (read d []))
      auto_lem true e = rw (json_lem v, e)
      auto_lem false e = convert_owned_lem fuel d v small s

  array_exhausted :
      (go : RubyValue → C OwnedValue) (v : RubyValue) (n : ℕ) (p : Segments)
      → R.rarray_len v ≡ suc n
      → go (R.rb_ary_entry v 0) (p ++ PathSegment.index 0 ∷ []) ≡ exhausted
      → convert_array R go v p ≡ exhausted
  unfolding convert_array convert_items push ◌>>=◌
  array_exhausted go v n p e h = rw (e, h)

  -- An array whose first element is the array itself is never converted: whatever the fuel, it runs
  -- out, so that the recursion of the code does not end.
  pub convert_ruby_value-cyclic :
      (v : RubyValue) (n : ℕ)
      → Typed R v (some RubyType.t_array)
      → R.rarray_len v ≡ suc n
      → R.rb_ary_entry v 0 ≡ v
      → (fuel : ℕ) (p : Segments) → convert_ruby_value R fuel v p ≡ exhausted
  unfolding convert_ruby_value
  convert_ruby_value-cyclic v n t e f zero p = refl
  convert_ruby_value-cyclic v n t e f (suc fuel) p =
      let more = convert_ruby_value-cyclic v n t e f fuel (p ++ PathSegment.index 0 ∷ []) in
      ap (λ m. m p) (special_lem R (convert_ruby_value R fuel) v (some RubyType.t_array) t)
      ∙ array_exhausted (convert_ruby_value R fuel) v n p e
          (ap (λ w. convert_ruby_value R fuel w (p ++ PathSegment.index 0 ∷ [])) f ∙ more)
