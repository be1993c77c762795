-- ===== src/Heap/Values/Converted.antt =====
-- A validated value that has become a Ruby object, converted back (`owned_value_to_ruby` of
-- ext/rustly_core/src/materialize.rs and `convert_ruby_value` of
-- ext/rustly_core/src/validation/input.rs).
use mathlib.Core.Path.{subst}
use rustly_core.Base.{ℕ, suc, ◌≤◌, String, ◌≡◌, refl, Option, List, [], ◌∷◌, ◌++◌}
use rustly_core.Ruby.{RubyValue}
use rustly_core.Validation.Path.{PathSegment}
use rustly_core.Validation.Value.{OwnedValue, OwnedList, OwnedDict, OwnedFields, OwnedExtras}
use rustly_core.Input.{Segments, Converted, value, failed, raised, exhausted, convert_ruby_value}
use rustly_core.Input.Shape.{objects}
use rustly_core.Input.Spec.{got, read, read_items, read_entries}
use rustly_core.Input.Follows.{SameEnd}
use rustly_core.Input.Refines.{convert_ruby_value_lem}
use rustly_core.Materialize.{RubyHeap, built, owned_value_to_ruby}
use rustly_core.Heap.{Cell, Key, HeapLaws}
use rustly_core.Heap.Trees.{Entries, both, with_keys}
use rustly_core.Heap.Frame.{Grows-same}
use rustly_core.Heap.Shown.{shown, shown_items, shown_entries, Holds→Shows}
use rustly_core.Heap.Values.{
  tree_of, trees_of, entries_of, fields_of, extras_of, extra_entries_of, IsProper, AreProper,
  HasProperEntries, HasProperFields, HasProperExtras, HasProperExtraEntries,
}
use rustly_core.Heap.Values.Made.{owned_value_to_ruby-Makes}
use rustly_core.Heap.Values.Dicts.{
  both_dicts, as_dicts, list_as_dicts, dict_as_dicts, fields_as_dict, extras_as_dict, IsPlain,
  as_dicts-plain,
}

mutual
  unfolding shown read tree_of as_dicts

  read_lem :
      (v : OwnedValue) (p : Segments) → IsProper v → read (shown (tree_of v)) p ≡ got (as_dicts v)
  read_lem OwnedValue.null p h = refl
  read_lem (OwnedValue.bool b) p h = refl
  read_lem (OwnedValue.int i) p h = rw h refl
  read_lem (OwnedValue.float f) p h = refl
  read_lem (OwnedValue.string s) p h = refl
  read_lem (OwnedValue.symbol s) p h = refl
  read_lem (OwnedValue.list vs) p h = rw (read_items_lem vs 0 p h) refl
  read_lem (OwnedValue.dict m) p h = rw (read_entries_lem [] m p h) refl
  read_lem (OwnedValue.struct names fs ex) p (h, i) =
      rw
        (read_fields_lem [] fs names (extras_of ex) (extras_as_dict ex) p h
          (read_extras_lem (with_keys [] (fields_of fs names)) ex p i))
        refl

  read_items_lem :
      (vs : OwnedList) (i : ℕ) (p : Segments)
      → AreProper vs
      → read_items (shown_items (trees_of vs)) i p ≡ got (list_as_dicts vs)
  read_items_lem OwnedList.nil i p h = refl
  read_items_lem (OwnedList.cons v vs) i p (h, hs) =
      rw (read_lem v (p ++ PathSegment.index i ∷ []) h, read_items_lem vs (suc i) p hs) refl

  read_entries_lem :
      (keys : List Key) (m : OwnedDict) (p : Segments)
      → HasProperEntries keys m
      → read_entries (shown_entries (entries_of m)) p ≡ got (dict_as_dicts m)
  read_entries_lem keys OwnedDict.empty p h = refl
  read_entries_lem keys (OwnedDict.entry k v m) p (n, h, hs) =
      rw
        (
          read_lem v (p ++ PathSegment.key k ∷ []) h,
          read_entries_lem (keys ++ Key.symbol_key k ∷ []) m p hs,
        )
        refl

  read_fields_lem :
      (keys : List Key) (fs : OwnedFields) (names : List String) (es : Entries) (m : OwnedDict)
      (p : Segments)
      → HasProperFields keys fs names
      → read_entries (shown_entries es) p ≡ got m
      → read_entries (shown_entries (both (fields_of fs names) es)) p
        ≡ got (both_dicts (fields_as_dict fs names) m)
  read_fields_lem keys OwnedFields.end names es m p h e = e
  read_fields_lem keys (OwnedFields.absent fs) [] es m p h e = e
  read_fields_lem keys (OwnedFields.absent fs) (n ∷ ns) es m p h e =
      read_fields_lem keys fs ns es m p h e
  read_fields_lem keys (OwnedFields.present v fs) [] es m p h e = e
  read_fields_lem keys (OwnedFields.present v fs) (n ∷ ns) es m p (k, h, hs) e =
      rw
        (
          read_lem v (p ++ PathSegment.key n ∷ []) h,
          read_fields_lem (keys ++ Key.symbol_key n ∷ []) fs ns es m p hs e,
        )
        refl

  read_extras_lem :
      (keys : List Key) (ex : OwnedExtras) (p : Segments)
      → HasProperExtras keys ex
      → read_entries (shown_entries (extras_of ex)) p ≡ got (extras_as_dict ex)
  read_extras_lem keys OwnedExtras.no_extras p h = refl
  read_extras_lem keys (OwnedExtras.extras m) p h = read_extra_entries_lem keys m p h

  read_extra_entries_lem :
      (keys : List Key) (m : OwnedDict) (p : Segments)
      → HasProperExtraEntries keys m
      → read_entries (shown_entries (extra_entries_of m)) p ≡ got (dict_as_dicts m)
  read_extra_entries_lem keys OwnedDict.empty p h = refl
  read_extra_entries_lem keys (OwnedDict.entry k v m) p (n, h, hs) =
      rw
        (
          read_lem v (p ++ PathSegment.key k ∷ []) h,
          read_extra_entries_lem (keys ++ Key.string_key k ∷ []) m p hs,
        )
        refl

-- The conversion to a Ruby object succeeds, and the conversion of that object gives `back`, and the
-- path that it was given.
pub record ComesBackAs (Y : RubyHeap) (v back : OwnedValue) (st : Y.Store) (fuel : ℕ) (p : Segments)
    : Type 0 where
  pub object : RubyValue
  pub after : Y.Store
  pub made : owned_value_to_ruby Y v st ≡ built object after
  pub read_back : convert_ruby_value (Y.reads after) fuel object p ≡ value back p

pub ends_lem :
    (r : Converted OwnedValue) (v : OwnedValue) (p : Segments) → SameEnd r (got v) p → r ≡ value v p
ends_lem (value w q) v p (e, f) = rw (e, f) refl
ends_lem (failed e q) v p h = absurd h
ends_lem raised v p h = absurd h
ends_lem exhausted v p h = absurd h

-- On a heap that has cells as the C API says, the conversion to a Ruby object of a value whose
-- integers are i64, whose symbols and keys have no NUL, and whose hashes have no key twice, succeeds.
-- The conversion of that object, with fuel for the objects in it, gives the value with a dict for each
-- struct, and the path that it was given.
pub owned_value_to_ruby-as_dicts :
    (Y : RubyHeap) (cells : Y.Store → RubyValue → Option Cell)
    → HeapLaws Y cells
    → (v : OwnedValue) (st : Y.Store) (fuel : ℕ) (p : Segments) → IsProper v
    → objects (shown (tree_of v)) ≤ fuel
    → ComesBackAs Y v (as_dicts v) st fuel p
owned_value_to_ruby-as_dicts Y cells K v st fuel p h small =
    let m = owned_value_to_ruby-Makes Y cells K st v h st (Grows-same cells st) in
    record {
      object = m.object;
      after = m.after;
      made = m.ends;
      read_back =
          let f =
            convert_ruby_value_lem (Y.reads m.after) fuel (shown (tree_of v)) m.object p small
              (Holds→Shows Y cells K st m.after m.object (tree_of v) m.holds) in
          ends_lem _ (as_dicts v) p (
            subst (λ r. SameEnd (convert_ruby_value (Y.reads m.after) fuel m.object p) r p)
              (read_lem v p h) f.ends);
    }

-- On a heap that has cells as the C API says, a value without structs, whose integers are i64, whose
-- symbols and keys have no NUL, and whose dicts have no key twice, becomes a Ruby object. The
-- conversion of that object, with fuel for the objects in it, gives the same value.
pub convert_ruby_value-owned_value_to_ruby :
    (Y : RubyHeap) (cells : Y.Store → RubyValue → Option Cell)
    → HeapLaws Y cells
    → (v : OwnedValue) (st : Y.Store) (fuel : ℕ) (p : Segments) → IsProper v
    → IsPlain v
    → objects (shown (tree_of v)) ≤ fuel
    → ComesBackAs Y v v st fuel p
convert_ruby_value-owned_value_to_ruby Y cells K v st fuel p h plain small =
    subst (λ back. ComesBackAs Y v back st fuel p) (as_dicts-plain v plain)
      (owned_value_to_ruby-as_dicts Y cells K v st fuel p h small)
