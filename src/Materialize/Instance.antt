-- ===== src/Materialize/Instance.antt =====
-- `materialize_instance` and `deep_freeze_value` of ext/rustly_core/src/materialize.rs. Objects may hold
-- themselves, so `deep_freeze_value` takes fuel, one unit for each object on the way down.
pub mod Fields
pub mod Frozen
pub mod Laws
pub mod Variables
use rustly_core.Base.{
  ℕ, zero, suc, String, Bool, true, false, Option, none, some, List, [], ◌∷◌, str_eq, if◌then◌else◌,
}
use rustly_core.Ruby.{RubyValue, RubyClass, truthy}
use rustly_core.Schema.Plan.{MaterializeEntry, MaterializePlan}
use rustly_core.Validation.Options.{FreezeMode}
use rustly_core.Validation.Value.{OwnedValue, OwnedDict, OwnedFields, OwnedExtras, type_name}
use rustly_core.Materialize.{
  unsupported_root, RubyHeap, Built, built, exhausted, B, pure, ◌>>=◌, ◌>>◌, call, look, change,
  fail, or_raised, changed_or_raised, owned_value_to_ruby, attribute_key_value,
}

-- `field_lookup`: the `HashMap` keeps the last index of a name. `i` is the index of the first name.
unfoldable pub lookup_from : ℕ → String → List String → Option ℕ
lookup_from i name [] = none
lookup_from i name (n ∷ ns) =
    let later = lookup_from (suc i) name ns in
    elim later [ some j ↦ some j | none ↦ if str_eq n name then some i else none ]

-- `field_values[idx]`; `none` also where the index is out of bounds.
unfoldable pub field_at : ℕ → OwnedFields → Option OwnedValue
field_at i OwnedFields.end = none
field_at zero (OwnedFields.absent fs) = none
field_at zero (OwnedFields.present v fs) = some v
field_at (suc i) (OwnedFields.absent fs) = field_at i fs
field_at (suc i) (OwnedFields.present v fs) = field_at i fs

abbrev pub field_of : Option ℕ → OwnedFields → Option OwnedValue
field_of none fs = none
field_of (some i) fs = field_at i fs

abbrev pub when : {S : Type 0} → Bool → (S → Built S (Unit {0})) → S → Built S (Unit {0})
when true m = m
when false m = pure tt

abbrev pub is_deep : FreezeMode → Bool
is_deep FreezeMode.deep = true
is_deep _ = false

module _ (Y : RubyHeap) where
  abbrev pub freeze : RubyValue → B Y (Unit {0})
  freeze v = change (Y.rb_obj_freeze v)

  module _ (go : RubyValue → B Y (Unit {0})) where
    -- The loop over the indices from `index` on, `left` of them; each element is read at its turn.
    unfoldable pub freeze_elements : RubyValue → ℕ → ℕ → B Y (Unit {0})
    unfolding ◌>>=◌
    freeze_elements v zero index = pure tt
    freeze_elements v (suc left) index = do
      element ← look (λ st. (Y.reads st).rb_ary_entry v index)
      go element
      freeze_elements v left (suc index)

    -- `deep_freeze_hash_callback` for each entry of `rb_hash_foreach`.
    unfoldable pub freeze_entries : List (RubyValue × RubyValue) → B Y (Unit {0})
    unfolding ◌>>=◌
    freeze_entries [] = pure tt
    freeze_entries ((k, v) ∷ rest) = do go k; go v; freeze_entries rest

    -- What an array or a hash holds.
    unfoldable pub freeze_held : RubyValue → B Y (Unit {0})
    unfolding truthy freeze_elements freeze_entries
    freeze_held v st =
        let R = Y.reads st in
        if truthy R (R.rb_obj_is_kind_of v RubyClass.c_array)
        then freeze_elements v (R.rarray_len v) 0 st
        else if truthy R (R.rb_obj_is_kind_of v RubyClass.c_hash)
        then freeze_entries (R.rb_hash_entries v) st
        else built tt st

  unfoldable pub deep_freeze_value : ℕ → RubyValue → B Y (Unit {0})
  unfolding freeze_held ◌>>=◌
  deep_freeze_value zero v = λ st. exhausted
  deep_freeze_value (suc fuel) v = do freeze v; freeze_held (deep_freeze_value fuel) v

  module _ (fuel : ℕ) (mode : FreezeMode) (attributes : Option RubyValue) where
    -- The value as a Ruby object, frozen if the mode is `deep`.
    unfoldable pub field_value : OwnedValue → B Y RubyValue
    unfolding owned_value_to_ruby deep_freeze_value ◌>>=◌
    field_value v = do
      x ← owned_value_to_ruby Y v
      when (is_deep mode) (deep_freeze_value fuel x)
      pure x

    abbrev pub set_attribute : Option RubyValue → RubyValue → RubyValue → B Y (Unit {0})
    set_attribute none key x = pure tt
    set_attribute (some hash) key x = change (Y.rb_hash_aset hash key x)

    abbrev pub set_ivar : RubyValue → ℕ → RubyValue → B Y (Unit {0})
    set_ivar instance ivar x = λ st. changed_or_raised st (Y.rb_ivar_set instance ivar x st)

    unfoldable pub set_field : RubyValue → MaterializeEntry → Option OwnedValue → B Y (Unit {0})
    unfolding field_value ◌>>=◌
    set_field instance entry none = pure tt
    set_field instance entry (some v) = do
      x ← field_value v
      symbol ← call (Y.rb_id2sym entry.symbol_id)
      set_attribute attributes symbol x
      set_ivar instance entry.ivar_id x

    -- The loop over the entries of the plan.
    unfoldable pub set_fields :
        RubyValue → List String → OwnedFields → List MaterializeEntry → B Y (Unit {0})
    unfolding lookup_from field_at set_field ◌>>=◌
    set_fields instance names fields [] = pure tt
    set_fields instance names fields (e ∷ es) = do
      set_field instance e (field_of (lookup_from 0 e.name names) fields)
      set_fields instance names fields es

    abbrev pub extra_attribute : Option RubyValue → String → RubyValue → B Y (Unit {0})
    extra_attribute none key x = pure tt
    extra_attribute (some hash) key x =
        attribute_key_value Y key >>= λ k. change (Y.rb_hash_aset hash k x)

    -- The loop over the extra keys, which converts each value even where no attributes are kept.
    unfoldable pub set_extra_entries : OwnedDict → B Y (Unit {0})
    unfolding field_value attribute_key_value ◌>>=◌
    set_extra_entries OwnedDict.empty = pure tt
    set_extra_entries (OwnedDict.entry key v m) = do
      x ← field_value v
      extra_attribute attributes key x
      set_extra_entries m

    abbrev pub set_extras : OwnedExtras → B Y (Unit {0})
    set_extras OwnedExtras.no_extras = pure tt
    set_extras (OwnedExtras.extras m) = set_extra_entries m

    -- `if has_attributes && !attr_ivar.is_null()`
    abbrev pub set_attributes : Option RubyValue → Option ℕ → RubyValue → B Y (Unit {0})
    set_attributes none attr instance = pure tt
    set_attributes (some hash) none instance = pure tt
    set_attributes (some hash) (some attr) instance = set_ivar instance attr hash

    abbrev pub freeze_all : FreezeMode → Option RubyValue → RubyValue → B Y (Unit {0})
    freeze_all FreezeMode.none hash instance = pure tt
    freeze_all FreezeMode.shallow none instance = freeze instance
    freeze_all FreezeMode.shallow (some hash) instance = freeze hash >> freeze instance
    freeze_all FreezeMode.deep none instance = deep_freeze_value fuel instance
    freeze_all FreezeMode.deep (some hash) instance =
        deep_freeze_value fuel hash >> deep_freeze_value fuel instance

    -- From the allocation of the attributes on.
    unfoldable pub fill_instance :
        RubyValue
        → Option ℕ
        → List String
        → OwnedFields
        → OwnedExtras
        → MaterializePlan
        → B Y RubyValue
    unfolding set_fields set_extra_entries deep_freeze_value ◌>>=◌
    fill_instance instance attr names fields ex plan = do
      set_fields instance names fields plan.entries
      set_extras ex
      set_attributes attributes attr instance
      freeze_all mode attributes instance
      pure instance

  -- The hash for the attributes, if they are kept.
  abbrev pub new_attributes : Bool → B Y (Option RubyValue)
  new_attributes true st = built (some (Y.rb_hash_new st).0) (Y.rb_hash_new st).1
  new_attributes false st = built none st

  -- `attr` is the id of the name in `attr_ivar`, if that is no null pointer.
  unfoldable pub materialize_instance :
      ℕ → RubyValue → Option ℕ → OwnedValue → MaterializePlan → FreezeMode → Bool → B Y RubyValue
  unfolding fill_instance type_name ◌>>=◌
  materialize_instance fuel klass attr (OwnedValue.struct names fields ex) plan mode store = do
    instance ← (λ st. or_raised st (Y.rb_obj_alloc klass st))
    attributes ← new_attributes store
    fill_instance fuel mode attributes instance attr names fields ex plan
  materialize_instance fuel klass attr other plan mode store =
      fail (unsupported_root (type_name other))
