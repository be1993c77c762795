-- ===== src/Heap/Values.antt =====
-- The tree of objects that ext/rustly_core/src/materialize.rs makes of a validated value.
pub mod Made
pub mod Converted
pub mod Dicts
use rustly_core.Base.{String, ◌≡◌, true, false, List, [], ◌∷◌, ◌++◌}
use rustly_core.Schema.Plan.{has_nul}
use rustly_core.Validation.Value.{OwnedValue, OwnedList, OwnedDict, OwnedFields, OwnedExtras}
use rustly_core.Heap.{Key, has_key, fits}
use rustly_core.Heap.Trees.{Tree, Trees, Entries, both, with_keys}

-- The keys of a dict, and the names of the fields of a struct, are symbols; the other keys of a struct
-- are strings.
unfoldable mutual
  pub tree_of : OwnedValue → Tree
  tree_of OwnedValue.null = Tree.nil
  tree_of (OwnedValue.bool b) = Tree.boolean b
  tree_of (OwnedValue.int i) = Tree.integer i
  tree_of (OwnedValue.float f) = Tree.float f
  tree_of (OwnedValue.string s) = Tree.string s
  tree_of (OwnedValue.symbol s) = Tree.symbol s
  tree_of (OwnedValue.list vs) = Tree.list (trees_of vs)
  tree_of (OwnedValue.dict m) = Tree.hash (entries_of m)
  tree_of (OwnedValue.struct names fs ex) = Tree.hash (both (fields_of fs names) (extras_of ex))

  pub trees_of : OwnedList → Trees
  trees_of OwnedList.nil = Trees.no_items
  trees_of (OwnedList.cons v vs) = Trees.item (tree_of v) (trees_of vs)

  pub entries_of : OwnedDict → Entries
  entries_of OwnedDict.empty = Entries.no_entries
  entries_of (OwnedDict.entry k v m) = Entries.entry (Key.symbol_key k) (tree_of v) (entries_of m)

  pub fields_of : OwnedFields → List String → Entries
  fields_of OwnedFields.end names = Entries.no_entries
  fields_of (OwnedFields.absent fs) [] = Entries.no_entries
  fields_of (OwnedFields.absent fs) (n ∷ ns) = fields_of fs ns
  fields_of (OwnedFields.present v fs) [] = Entries.no_entries
  fields_of (OwnedFields.present v fs) (n ∷ ns) =
      Entries.entry (Key.symbol_key n) (tree_of v) (fields_of fs ns)

  pub extras_of : OwnedExtras → Entries
  extras_of OwnedExtras.no_extras = Entries.no_entries
  extras_of (OwnedExtras.extras m) = extra_entries_of m

  pub extra_entries_of : OwnedDict → Entries
  extra_entries_of OwnedDict.empty = Entries.no_entries
  extra_entries_of (OwnedDict.entry k v m) =
      Entries.entry (Key.string_key k) (tree_of v) (extra_entries_of m)

-- What the name of a symbol, and any key, has to be: no text with a NUL, and none of the keys before.
abbrev pub IsNewKey : List Key → Key → String → Type 0
IsNewKey keys key s = (has_nul s ≡ false) × (has_key key keys ≡ false)

-- Integers are i64, no symbol or key has a NUL, and no hash has a key twice.
abbrev mutual
  pub IsProper : OwnedValue → Type 0
  IsProper (OwnedValue.int i) = fits i ≡ true
  IsProper (OwnedValue.symbol s) = has_nul s ≡ false
  IsProper (OwnedValue.list vs) = AreProper vs
  IsProper (OwnedValue.dict m) = HasProperEntries [] m
  IsProper (OwnedValue.struct names fs ex) =
      HasProperFields [] fs names × HasProperExtras (with_keys [] (fields_of fs names)) ex
  IsProper OwnedValue.null = Unit {0}
  IsProper (OwnedValue.bool b) = Unit {0}
  IsProper (OwnedValue.float f) = Unit {0}
  IsProper (OwnedValue.string s) = Unit {0}

  pub AreProper : OwnedList → Type 0
  AreProper OwnedList.nil = Unit {0}
  AreProper (OwnedList.cons v vs) = IsProper v × AreProper vs

  pub HasProperEntries : List Key → OwnedDict → Type 0
  HasProperEntries keys OwnedDict.empty = Unit {0}
  HasProperEntries keys (OwnedDict.entry k v m) =
      IsNewKey keys (Key.symbol_key k) k
      × IsProper v
      × HasProperEntries (keys ++ Key.symbol_key k ∷ []) m

  pub HasProperFields : List Key → OwnedFields → List String → Type 0
  HasProperFields keys OwnedFields.end names = Unit {0}
  HasProperFields keys (OwnedFields.absent fs) [] = Unit {0}
  HasProperFields keys (OwnedFields.absent fs) (n ∷ ns) = HasProperFields keys fs ns
  HasProperFields keys (OwnedFields.present v fs) [] = Unit {0}
  HasProperFields keys (OwnedFields.present v fs) (n ∷ ns) =
      IsNewKey keys (Key.symbol_key n) n
      × IsProper v
      × HasProperFields (keys ++ Key.symbol_key n ∷ []) fs ns

  pub HasProperExtras : List Key → OwnedExtras → Type 0
  HasProperExtras keys OwnedExtras.no_extras = Unit {0}
  HasProperExtras keys (OwnedExtras.extras m) = HasProperExtraEntries keys m

  pub HasProperExtraEntries : List Key → OwnedDict → Type 0
  HasProperExtraEntries keys OwnedDict.empty = Unit {0}
  HasProperExtraEntries keys (OwnedDict.entry k v m) =
      IsNewKey keys (Key.string_key k) k
      × IsProper v
      × HasProperExtraEntries (keys ++ Key.string_key k ∷ []) m
