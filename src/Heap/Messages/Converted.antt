-- ===== src/Heap/Messages/Converted.antt =====
-- A JSON value that has become a Ruby object, converted as an input (`json_value_to_ruby` of
-- ext/rustly_core/src/ruby_helpers.rs, `convert_ruby_value` of
-- ext/rustly_core/src/validation/input.rs and `from_json` of
-- ext/rustly_core/src/validation/value.rs).
use mathlib.Core.Path.{subst}
use rustly_core.Base.{ℕ, suc, ◌≤◌, ◌≡◌, refl, true, Option, some, [], ◌∷◌, ◌++◌, arith}
use rustly_core.Base.Int.{ℤ, pos, negsuc}
use rustly_core.Host.{Host}
use rustly_core.Json.{JsonValue, JsonArray, JsonMap, integer, real}
use rustly_core.Ruby.{RubyValue}
use rustly_core.Validation.Path.{PathSegment}
use rustly_core.Validation.Value.{as_i64, from_json, list_from_json, dict_from_json}
use rustly_core.Input.{Segments, value, convert_ruby_value}
use rustly_core.Input.Shape.{objects}
use rustly_core.Input.Spec.{got, read, read_items, read_entries}
use rustly_core.Input.Follows.{SameEnd}
use rustly_core.Input.Refines.{convert_ruby_value_lem}
use rustly_core.Materialize.{RubyHeap, built}
use rustly_core.Native.Messages.{json_value_to_ruby}
use rustly_core.Heap.{Cell, fits, HeapLaws}
use rustly_core.Heap.Frame.{Grows-same}
use rustly_core.Heap.Shown.{shown, shown_items, shown_entries, Holds→Shows}
use rustly_core.Heap.Values.Converted.{ends_lem}
use rustly_core.Heap.Messages.{json_tree, json_trees, json_entries, HasMaps}
use rustly_core.Heap.Messages.Objects.{json_value_to_ruby-Makes}

-- Every integer is an i64.
abbrev mutual
  pub HaveI64 : JsonValue → Type 0
  HaveI64 JsonValue.null = Unit {0}
  HaveI64 (JsonValue.bool b) = Unit {0}
  HaveI64 (JsonValue.number (integer i)) = fits i ≡ true
  HaveI64 (JsonValue.number (real f)) = Unit {0}
  HaveI64 (JsonValue.string s) = Unit {0}
  HaveI64 (JsonValue.array items) = ItemsHaveI64 items
  HaveI64 (JsonValue.object map) = EntriesHaveI64 map

  pub ItemsHaveI64 : JsonArray → Type 0
  ItemsHaveI64 JsonArray.nil = Unit {0}
  ItemsHaveI64 (JsonArray.cons x xs) = HaveI64 x × ItemsHaveI64 xs

  pub EntriesHaveI64 : JsonMap → Type 0
  EntriesHaveI64 JsonMap.empty = Unit {0}
  EntriesHaveI64 (JsonMap.entry k v m) = HaveI64 v × EntriesHaveI64 m

as_i64-some : (i : ℤ) → fits i ≡ true → as_i64 (integer i) ≡ some i
unfolding as_i64 fits
as_i64-some (pos n) h = ground (arith, h)
as_i64-some (negsuc n) h = ground (arith, h)

module _ (H : Host) where
  integer_lem :
      (i : ℤ) (p : Segments)
      → fits i ≡ true
      → read (shown (json_tree H (JsonValue.number (integer i)))) p
        ≡ got (from_json H (JsonValue.number (integer i)))
  unfolding read shown json_tree from_json
  integer_lem i p h = rw (as_i64-some i h, h) refl

  mutual
    unfolding read shown json_tree from_json

    read_lem :
        (v : JsonValue) (p : Segments)
        → HaveI64 v
        → read (shown (json_tree H v)) p ≡ got (from_json H v)
    read_lem JsonValue.null p h = refl
    read_lem (JsonValue.bool b) p h = refl
    read_lem (JsonValue.number (integer i)) p h = integer_lem i p h
    read_lem (JsonValue.number (real f)) p h = refl
    read_lem (JsonValue.string s) p h = refl
    read_lem (JsonValue.array items) p h = rw (read_items_lem items 0 p h) refl
    read_lem (JsonValue.object map) p h = rw (read_entries_lem map p h) refl

    read_items_lem :
        (xs : JsonArray) (i : ℕ) (p : Segments)
        → ItemsHaveI64 xs
        → read_items (shown_items (json_trees H xs)) i p ≡ got (list_from_json H xs)
    read_items_lem JsonArray.nil i p h = refl
    read_items_lem (JsonArray.cons x xs) i p (h, hs) =
        rw (read_lem x (p ++ PathSegment.index i ∷ []) h, read_items_lem xs (suc i) p hs) refl

    read_entries_lem :
        (m : JsonMap) (p : Segments)
        → EntriesHaveI64 m
        → read_entries (shown_entries (json_entries H m)) p ≡ got (dict_from_json H m)
    read_entries_lem JsonMap.empty p h = refl
    read_entries_lem (JsonMap.entry k v m) p (h, hs) =
        rw (read_lem v (p ++ PathSegment.key k ∷ []) h, read_entries_lem m p hs) refl

-- The conversion to a Ruby object succeeds, and the object is read as the JSON value itself is.
pub record ReadsAsJson (Y : RubyHeap) (H : Host) (v : JsonValue) (st : Y.Store) (fuel : ℕ)
    (p : Segments) : Type 0 where
  pub object : RubyValue
  pub after : Y.Store
  pub made : json_value_to_ruby Y H v st ≡ built object after
  pub read_back : convert_ruby_value (Y.reads after) fuel object p ≡ value (from_json H v) p

-- On a heap that has cells as the C API says, a JSON value whose objects have no key twice and whose
-- integers are i64 becomes a Ruby object. The conversion of that object as an input, with fuel for the
-- objects in it, gives what the JSON value gives as an input.
pub convert_ruby_value-json_value_to_ruby :
    (Y : RubyHeap) (H : Host) (cells : Y.Store → RubyValue → Option Cell)
    → HeapLaws Y cells
    → (v : JsonValue) (st : Y.Store) (fuel : ℕ) (p : Segments) → HasMaps v
    → HaveI64 v
    → objects (shown (json_tree H v)) ≤ fuel
    → ReadsAsJson Y H v st fuel p
convert_ruby_value-json_value_to_ruby Y H cells K v st fuel p maps h small =
    let m = json_value_to_ruby-Makes Y H cells K st v maps st (Grows-same cells st) in
    record {
      object = m.object;
      after = m.after;
      made = m.ends;
      read_back =
          let f =
            convert_ruby_value_lem (Y.reads m.after) fuel (shown (json_tree H v)) m.object p small
              (Holds→Shows Y cells K st m.after m.object (json_tree H v) m.holds) in
          ends_lem _ (from_json H v) p (
            subst (λ r. SameEnd (convert_ruby_value (Y.reads m.after) fuel m.object p) r p)
              (read_lem H v p h) f.ends);
    }
