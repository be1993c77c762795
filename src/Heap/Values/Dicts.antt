-- ===== src/Heap/Values/Dicts.antt =====
-- A value with a dict for each struct, and values that have none.
use rustly_core.Base.{String, ◌≡◌, refl, ap, List, [], ◌∷◌}
use rustly_core.Validation.Value.{OwnedValue, OwnedList, OwnedDict, OwnedFields, OwnedExtras}

abbrev pub both_dicts : OwnedDict → OwnedDict → OwnedDict
both_dicts OwnedDict.empty m = m
both_dicts (OwnedDict.entry k v l) m = OwnedDict.entry k v (both_dicts l m)

-- The value with a dict for each struct: its fields by their names, and then its other keys.
unfoldable mutual
  pub as_dicts : OwnedValue → OwnedValue
  as_dicts (OwnedValue.list vs) = OwnedValue.list (list_as_dicts vs)
  as_dicts (OwnedValue.dict m) = OwnedValue.dict (dict_as_dicts m)
  as_dicts (OwnedValue.struct names fs ex) =
      OwnedValue.dict (both_dicts (fields_as_dict fs names) (extras_as_dict ex))
  as_dicts OwnedValue.null = OwnedValue.null
  as_dicts (OwnedValue.bool b) = OwnedValue.bool b
  as_dicts (OwnedValue.int i) = OwnedValue.int i
  as_dicts (OwnedValue.float f) = OwnedValue.float f
  as_dicts (OwnedValue.string s) = OwnedValue.string s
  as_dicts (OwnedValue.symbol s) = OwnedValue.symbol s

  pub list_as_dicts : OwnedList → OwnedList
  list_as_dicts OwnedList.nil = OwnedList.nil
  list_as_dicts (OwnedList.cons v vs) = OwnedList.cons (as_dicts v) (list_as_dicts vs)

  pub dict_as_dicts : OwnedDict → OwnedDict
  dict_as_dicts OwnedDict.empty = OwnedDict.empty
  dict_as_dicts (OwnedDict.entry k v m) = OwnedDict.entry k (as_dicts v) (dict_as_dicts m)

  pub fields_as_dict : OwnedFields → List String → OwnedDict
  fields_as_dict OwnedFields.end names = OwnedDict.empty
  fields_as_dict (OwnedFields.absent fs) [] = OwnedDict.empty
  fields_as_dict (OwnedFields.absent fs) (n ∷ ns) = fields_as_dict fs ns
  fields_as_dict (OwnedFields.present v fs) [] = OwnedDict.empty
  fields_as_dict (OwnedFields.present v fs) (n ∷ ns) =
      OwnedDict.entry n (as_dicts v) (fields_as_dict fs ns)

  pub extras_as_dict : OwnedExtras → OwnedDict
  extras_as_dict OwnedExtras.no_extras = OwnedDict.empty
  extras_as_dict (OwnedExtras.extras m) = dict_as_dicts m

-- No struct.
abbrev mutual
  pub IsPlain : OwnedValue → Type 0
  IsPlain (OwnedValue.struct names fs ex) = ⊥
  IsPlain (OwnedValue.list vs) = ArePlain vs
  IsPlain (OwnedValue.dict m) = HasPlainEntries m
  IsPlain OwnedValue.null = Unit {0}
  IsPlain (OwnedValue.bool b) = Unit {0}
  IsPlain (OwnedValue.int i) = Unit {0}
  IsPlain (OwnedValue.float f) = Unit {0}
  IsPlain (OwnedValue.string s) = Unit {0}
  IsPlain (OwnedValue.symbol s) = Unit {0}

  pub ArePlain : OwnedList → Type 0
  ArePlain OwnedList.nil = Unit {0}
  ArePlain (OwnedList.cons v vs) = IsPlain v × ArePlain vs

  pub HasPlainEntries : OwnedDict → Type 0
  HasPlainEntries OwnedDict.empty = Unit {0}
  HasPlainEntries (OwnedDict.entry k v m) = IsPlain v × HasPlainEntries m

mutual
  unfolding as_dicts

  pub as_dicts-plain : (v : OwnedValue) → IsPlain v → as_dicts v ≡ v
  as_dicts-plain (OwnedValue.struct names fs ex) p = absurd p
  as_dicts-plain (OwnedValue.list vs) p = ap OwnedValue.list (list_as_dicts-plain vs p)
  as_dicts-plain (OwnedValue.dict m) p = ap OwnedValue.dict (dict_as_dicts-plain m p)
  as_dicts-plain OwnedValue.null p = refl
  as_dicts-plain (OwnedValue.bool b) p = refl
  as_dicts-plain (OwnedValue.int i) p = refl
  as_dicts-plain (OwnedValue.float f) p = refl
  as_dicts-plain (OwnedValue.string s) p = refl
  as_dicts-plain (OwnedValue.symbol s) p = refl

  list_as_dicts-plain : (vs : OwnedList) → ArePlain vs → list_as_dicts vs ≡ vs
  list_as_dicts-plain OwnedList.nil p = refl
  list_as_dicts-plain (OwnedList.cons v vs) (p, ps) =
      rw (as_dicts-plain v p, list_as_dicts-plain vs ps) refl

  dict_as_dicts-plain : (m : OwnedDict) → HasPlainEntries m → dict_as_dicts m ≡ m
  dict_as_dicts-plain OwnedDict.empty p = refl
  dict_as_dicts-plain (OwnedDict.entry k v m) (p, ps) =
      rw (as_dicts-plain v p, dict_as_dicts-plain m ps) refl
