-- ===== src/Native/Build/Ends.antt =====
-- How `build` should end once its input is valid.
use rustly_core.Base.{ℕ, String, ◌≡◌, refl, ap, Bool, Option, [], ◌∷◌}
use rustly_core.Json.{JsonValue, JsonMap, insert}
use rustly_core.Ruby.{RubyValue}
use rustly_core.Schema.Compiled.{CompiledSchema}
use rustly_core.Validation.Value.{OwnedValue, type_name}
use rustly_core.Materialize.{MaterializeError, RubyHeap, Built, built, failed}
use rustly_core.Materialize.Instance.{materialize_instance}
use rustly_core.Native.Errors.{ErrorEntry, error_set_from_materialize_error}
use rustly_core.Native.Gvl.{validation_error, ruby_error, Ended, ended, raised, stuck}
use rustly_core.Native.Build.{instance_or_raise}

abbrev not_struct : String → ErrorEntry
not_struct kind = record {
  path = "";
  code = "type_mismatch";
  meta =
      JsonMap.entry "actual" (JsonValue.string kind)
        (JsonMap.entry "expected" (JsonValue.string "struct") JsonMap.empty);
}

abbrev not_coerced : String → String → ErrorEntry
not_coerced from name = record {
  path = "";
  code = "coerce_failed";
  meta =
      JsonMap.entry "from" (JsonValue.string from)
        (JsonMap.entry "value" (JsonValue.string name) JsonMap.empty);
}

-- The entry of an object that cannot be made.
abbrev pub failure : MaterializeError → ErrorEntry
failure (MaterializeError.unsupported_root kind) = not_struct kind
failure (MaterializeError.invalid_symbol name) = not_coerced "sym" name
failure (MaterializeError.invalid_key name) = not_coerced "str" name

abbrev pub one_error : {A : Type 0} → ErrorEntry → Bool → Ended A
one_error e skip = raised (validation_error (record { entries = e ∷ [] })) skip

-- The object with its heap, an error that carries the failure, or the exception of Ruby.
abbrev pub ends_as : {S : Type 0} → Built S RubyValue → Bool → Ended (RubyValue × S)
ends_as (built instance st) skip = ended (instance, st) skip
ends_as (failed e st) skip = one_error (failure e) skip
ends_as (Built.raised st) skip = raised ruby_error skip
ends_as Built.exhausted skip = stuck
ends_as Built.panicked skip = stuck

failure_lem :
    (e : MaterializeError)
    → error_set_from_materialize_error e ≡ record { entries = failure e ∷ [] }
unfolding error_set_from_materialize_error insert
failure_lem (MaterializeError.unsupported_root kind) = refl
failure_lem (MaterializeError.invalid_symbol name) = refl
failure_lem (MaterializeError.invalid_key name) = refl

instance_or_raise-ends_as :
    {S : Type 0} (m : Built S RubyValue) (skip : Bool) → instance_or_raise m skip ≡ ends_as m skip
unfolding instance_or_raise
instance_or_raise-ends_as (built instance st) skip = refl
instance_or_raise-ends_as (failed e st) skip =
    ap (λ set. raised (validation_error set) skip) (failure_lem e)
instance_or_raise-ends_as (Built.raised st) skip = refl
instance_or_raise-ends_as Built.exhausted skip = refl
instance_or_raise-ends_as Built.panicked skip = refl

module _ (Y : RubyHeap) (deep : ℕ) (c : CompiledSchema) (klass : RubyValue) (attr : Option ℕ)
    (st : Y.Store) (skip : Bool) where
  -- For a struct it ends as the making of the object does; any other value is an error.
  abbrev pub EndsBy : OwnedValue → Ended (RubyValue × Y.Store) → Type 0
  EndsBy OwnedValue.null m = m ≡ one_error (not_struct "null") skip
  EndsBy (OwnedValue.bool b) m = m ≡ one_error (not_struct "bool") skip
  EndsBy (OwnedValue.int i) m = m ≡ one_error (not_struct "int") skip
  EndsBy (OwnedValue.float f) m = m ≡ one_error (not_struct "float") skip
  EndsBy (OwnedValue.string s) m = m ≡ one_error (not_struct "str") skip
  EndsBy (OwnedValue.symbol s) m = m ≡ one_error (not_struct "sym") skip
  EndsBy (OwnedValue.list vs) m = m ≡ one_error (not_struct "list") skip
  EndsBy (OwnedValue.dict d) m = m ≡ one_error (not_struct "dict") skip
  EndsBy (OwnedValue.struct names fields ex) m =
      m
      ≡ ends_as
          (materialize_instance Y deep klass attr (OwnedValue.struct names fields ex) c.plan
            c.options.freeze c.options.store_attributes st)
          skip

  ends_lem :
      (u : OwnedValue)
      → EndsBy u (
          ends_as
            (materialize_instance Y deep klass attr u c.plan c.options.freeze
              c.options.store_attributes st)
            skip)
  unfolding materialize_instance type_name
  ends_lem OwnedValue.null = refl
  ends_lem (OwnedValue.bool b) = refl
  ends_lem (OwnedValue.int i) = refl
  ends_lem (OwnedValue.float f) = refl
  ends_lem (OwnedValue.string s) = refl
  ends_lem (OwnedValue.symbol s) = refl
  ends_lem (OwnedValue.list vs) = refl
  ends_lem (OwnedValue.dict d) = refl
  ends_lem (OwnedValue.struct names fields ex) = refl

  pub instance_or_raise-EndsBy :
      (u : OwnedValue)
      → EndsBy u (
          instance_or_raise
            (materialize_instance Y deep klass attr u c.plan c.options.freeze
              c.options.store_attributes st)
            skip)
  instance_or_raise-EndsBy u =
      rw
        (instance_or_raise-ends_as
          (materialize_instance Y deep klass attr u c.plan c.options.freeze
            c.options.store_attributes st)
          skip)
        (ends_lem u)
