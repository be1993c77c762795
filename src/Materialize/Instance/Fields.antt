-- ===== src/Materialize/Instance/Fields.antt =====
-- Which field an entry of the plan gets (`field_lookup` of `materialize_instance` in
-- ext/rustly_core/src/materialize.rs).
use rustly_core.Base.{
  ℕ, suc, String, ◌≡◌, refl, Bool, true, false, ◌||◌, Option, none, some, List, [], ◌∷◌, arith,
  str_eq, if◌then◌else◌,
}
use rustly_core.Validation.Value.{OwnedValue, OwnedFields}
use rustly_core.Materialize.Instance.{lookup_from, field_at, field_of}

abbrev pub occurs : String → List String → Bool
occurs name [] = false
occurs name (n ∷ ns) = str_eq n name || occurs name ns

abbrev pub first_field : OwnedFields → Option OwnedValue
first_field OwnedFields.end = none
first_field (OwnedFields.absent fs) = none
first_field (OwnedFields.present v fs) = some v

abbrev pub other_fields : OwnedFields → OwnedFields
other_fields OwnedFields.end = OwnedFields.end
other_fields (OwnedFields.absent fs) = fs
other_fields (OwnedFields.present v fs) = fs

-- The names and the fields are walked side by side: the field beside the last name that is this one, if
-- there is such a name and its field is there.
abbrev pub field_named : String → List String → OwnedFields → Option OwnedValue
field_named name [] fields = none
field_named name (n ∷ ns) fields =
    let later = field_named name ns (other_fields fields) in
    if occurs name ns then later else if str_eq n name then first_field fields else none

abbrev shift : Option ℕ → Option ℕ
shift none = none
shift (some i) = some (suc i)

lookup_from-shift :
    (i : ℕ) (name : String) (names : List String)
    → lookup_from (suc i) name names ≡ shift (lookup_from i name names)
unfolding lookup_from
lookup_from-shift i name [] = refl
lookup_from-shift i name (n ∷ ns) = ground (arith, lookup_from-shift (suc i) name ns)

field_of-shift :
    (o : Option ℕ) (fields : OwnedFields)
    → field_of (shift o) fields ≡ field_of o (other_fields fields)
unfolding field_at
field_of-shift none fields = refl
field_of-shift (some i) OwnedFields.end = refl
field_of-shift (some i) (OwnedFields.absent fs) = refl
field_of-shift (some i) (OwnedFields.present v fs) = refl

field_of-first : (fields : OwnedFields) → field_of (some 0) fields ≡ first_field fields
unfolding field_at
field_of-first OwnedFields.end = refl
field_of-first (OwnedFields.absent fs) = refl
field_of-first (OwnedFields.present v fs) = refl

abbrev is_found : Option ℕ → Bool
is_found none = false
is_found (some i) = true

lookup_from-found :
    (i : ℕ) (name : String) (names : List String)
    → is_found (lookup_from i name names) ≡ occurs name names
unfolding lookup_from
lookup_from-found i name [] = refl
lookup_from-found i name (n ∷ ns) = ground (arith, lookup_from-found (suc i) name ns)

later_or_here :
    (o : Option ℕ) (here : Bool) (fields : OwnedFields)
    → field_of (elim (shift o) [ some j ↦ some j | none ↦ if here then some 0 else none ]) fields
      ≡ (if is_found o
          then field_of o (other_fields fields)
          else if here
          then first_field fields
          else none)
later_or_here none true fields = field_of-first fields
later_or_here none false fields = refl
later_or_here (some i) here fields = field_of-shift (some i) fields

pub lookup_from-field_named :
    (name : String) (names : List String) (fields : OwnedFields)
    → field_of (lookup_from 0 name names) fields ≡ field_named name names fields
unfolding lookup_from
lookup_from-field_named name [] fields = refl
lookup_from-field_named name (n ∷ ns) fields =
    rw
      (
        lookup_from-shift 0 name ns,
        later_or_here (lookup_from 0 name ns) (str_eq n name) fields,
        lookup_from-found 0 name ns,
        lookup_from-field_named name ns (other_fields fields),
      )
      refl
