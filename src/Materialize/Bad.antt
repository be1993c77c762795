-- ===== src/Materialize/Bad.antt =====
-- The texts of a value that Ruby takes for no symbol and for no key (the errors of `CString::new` in
-- ext/rustly_core/src/materialize.rs).
use rustly_core.Base.{String, Option, none, some, List, [], ◌∷◌, if◌then◌else◌}
use rustly_core.Schema.Plan.{has_nul}
use rustly_core.Validation.Value.{OwnedValue, OwnedList, OwnedDict, OwnedFields, OwnedExtras}
use rustly_core.Materialize.{MaterializeError, invalid_symbol, invalid_key}

-- The first of two errors.
abbrev pub first : Option MaterializeError → Option MaterializeError → Option MaterializeError
first none o = o
first (some e) o = some e

abbrev pub bad_symbol : String → Option MaterializeError
bad_symbol s = if has_nul s then some (invalid_symbol s) else none

abbrev pub bad_key : String → Option MaterializeError
bad_key s = if has_nul s then some (invalid_key s) else none

-- The first text of a value that is to be a symbol, or a key of a struct outside its fields, and has a
-- NUL.
unfoldable mutual
  pub bad : OwnedValue → Option MaterializeError
  bad (OwnedValue.symbol s) = bad_symbol s
  bad (OwnedValue.list vs) = bad_items vs
  bad (OwnedValue.dict m) = bad_entries m
  bad (OwnedValue.struct names fs ex) = first (bad_fields fs names) (bad_extras ex)
  bad OwnedValue.null = none
  bad (OwnedValue.bool b) = none
  bad (OwnedValue.int i) = none
  bad (OwnedValue.float f) = none
  bad (OwnedValue.string s) = none

  pub bad_items : OwnedList → Option MaterializeError
  bad_items OwnedList.nil = none
  bad_items (OwnedList.cons v vs) = first (bad v) (bad_items vs)

  pub bad_entries : OwnedDict → Option MaterializeError
  bad_entries OwnedDict.empty = none
  bad_entries (OwnedDict.entry k v m) = first (bad_symbol k) (first (bad v) (bad_entries m))

  pub bad_fields : OwnedFields → List String → Option MaterializeError
  bad_fields OwnedFields.end names = none
  bad_fields (OwnedFields.absent fs) [] = none
  bad_fields (OwnedFields.absent fs) (n ∷ ns) = bad_fields fs ns
  bad_fields (OwnedFields.present v fs) [] = none
  bad_fields (OwnedFields.present v fs) (n ∷ ns) =
      first (bad v) (first (bad_symbol n) (bad_fields fs ns))

  pub bad_extras : OwnedExtras → Option MaterializeError
  bad_extras OwnedExtras.no_extras = none
  bad_extras (OwnedExtras.extras m) = bad_extra_entries m

  pub bad_extra_entries : OwnedDict → Option MaterializeError
  bad_extra_entries OwnedDict.empty = none
  bad_extra_entries (OwnedDict.entry k v m) =
      first (bad v) (first (bad_key k) (bad_extra_entries m))
