-- ===== src/Input/Refines.antt =====
-- The conversion of a Ruby object gives what its tree says.
use rustly_core.Base.{
  ℕ, zero, suc, ◌≤◌, String, ◌≡◌, refl, ap, inl, inr, List, [], ◌∷◌, ◌++◌, arith,
}
use rustly_core.Ruby.{RubyValue, Reads, class_name}
use rustly_core.Validation.Path.{PathSegment, format_path}
use rustly_core.Validation.Value.{OwnedValue, OwnedDict}
use rustly_core.Input.{
  InputError, Segments, Converted, value, failed, raised, exhausted, C, unsupported, invalid_key,
  extract_hash_key, convert_items, convert_array, hash_foreach_convert, pop_on_error,
  convert_entries, convert_hash, convert_value, convert_ruby_value,
}
use rustly_core.Input.Shape.{
  RubyData, RubyItems, RubyEntries, RubyKey, objects, objects_items, objects_entries, items_len,
  Shows, ShowsItems, ShowsKey, ShowsEntries,
}
use rustly_core.Input.Spec
use rustly_core.Input.Follows.{SameEnd, Follows, Follows-pure, Follows-bind, Follows-within}
use rustly_core.Input.Types.{nil_lem, boolean_lem, special_lem}
use rustly_core.Input.Spec.{Reading, got, wrong, raising, read, read_items, read_entries, read_key}

SameEnd-pop_on_error :
    (R : Reads) (go : RubyValue → C OwnedValue) {A : Type 0} (x : Converted A) (r : Reading A)
    (p : Segments)
    → SameEnd x r p
    → SameEnd (pop_on_error R go x) r p
SameEnd-pop_on_error R go (value a q) r p h = h
SameEnd-pop_on_error R go (failed e q) (wrong d) p h = h
SameEnd-pop_on_error R go (failed e q) (got b) p h = absurd h
SameEnd-pop_on_error R go (failed e q) raising p h = absurd h
SameEnd-pop_on_error R go raised r p h = h
SameEnd-pop_on_error R go exhausted r p h = absurd h

objects-pos : (d : RubyData) → 1 ≤ objects d
unfolding objects
objects-pos RubyData.nil = omega arith
objects-pos _ = omega arith

-- The key and the value of an entry, taken together and one after the other.
pair_lem :
    {B : Type 0} (r : Reading String) (s : String → Reading OwnedValue)
    (t : String × OwnedValue → Reading B)
    → Spec.◌>>=◌ (Spec.◌>>=◌ r (λ k. Spec.◌>>=◌ (s k) (λ x. got (k, x)))) t
      ≡ Spec.◌>>=◌ r (λ k. Spec.◌>>=◌ (s k) (λ x. t (k, x)))
pair_lem {B} (got k) s t = of_value (s k)
  where
    of_value :
        (q : Reading OwnedValue)
        → Spec.◌>>=◌ (Spec.◌>>=◌ q (λ x. got (k, x))) t ≡ Spec.◌>>=◌ q (λ x. t (k, x))
    of_value (got x) = refl
    of_value (wrong e) = refl
    of_value raising = refl
pair_lem (wrong e) s t = refl
pair_lem raising s t = refl

module _ (R : Reads) where
  key_lem :
      (k : RubyValue) (key : RubyKey) (p : Segments)
      → ShowsKey R k key
      → Follows (extract_hash_key R k) p (read_key key p)
  unfolding extract_hash_key invalid_key
  key_lem k (RubyKey.named s) p (inl e) = rw e (Follows-pure s p)
  key_lem k (RubyKey.named s) p (inr (e, f)) = rw (e, f) (Follows-pure s p)
  key_lem k (RubyKey.other_key c) p (e, f, g) = rw (e, f) (record { ends = rw g refl })

  -- Trees of at most `n` objects are converted well.
  abbrev ConvertsTo : ℕ → (RubyValue → C OwnedValue) → Type 0
  ConvertsTo n go =
      (d : RubyData) (v : RubyValue) (p : Segments)
      → objects d ≤ n
      → Shows R v d
      → Follows (go v) p (read d p)

  module _ (n : ℕ) (go : RubyValue → C OwnedValue) (h : ConvertsTo n go) where
    items_lem :
        (ds : RubyItems) (v : RubyValue) (i : ℕ) (p : Segments)
        → objects_items ds ≤ n
        → ShowsItems R v i ds
        → Follows (convert_items R go v (items_len ds) i) p (read_items ds i p)
    unfolding convert_items read objects
    items_lem RubyItems.no_items v i p small s = Follows-pure _ p
    items_lem (RubyItems.item d ds) v i p small (s, ss) =
        Follows-within p (PathSegment.index i) _ _ (read d (p ++ PathSegment.index i ∷ [])) _
          (h d (R.rb_ary_entry v i) _ (omega arith) s)
          (λ x.
            Follows-bind p _ _ (read_items ds (suc i) p) _
              (items_lem ds v (suc i) p (omega arith) ss) (λ xs. Follows-pure _ p))

    array_lem :
        (ds : RubyItems) (v : RubyValue) (p : Segments)
        → objects_items ds ≤ n
        → R.rarray_len v ≡ items_len ds
        → ShowsItems R v 0 ds
        → Follows (convert_array R go v) p (read (RubyData.list ds) p)
    unfolding convert_array read
    array_lem ds v p small e s = rw e (
        Follows-bind p _ _ (read_items ds 0 p) _ (items_lem ds v 0 p small s)
          (λ vs. Follows-pure _ p))

    foreach_lem :
        (k v : RubyValue) (key : RubyKey) (d : RubyData) (p : Segments)
        → objects d ≤ n
        → ShowsKey R k key
        → Shows R v d
        → Follows (hash_foreach_convert R go k v) p (
            Spec.◌>>=◌
              (read_key key p)
              (λ name. Spec.◌>>=◌ (read d (p ++ PathSegment.key name ∷ [])) (λ x. got (name, x))))
    unfolding hash_foreach_convert
    foreach_lem k v key d p small sk s =
        Follows-bind p _ _ (read_key key p) _ (key_lem k key p sk) (λ name.
          let below = p ++ PathSegment.key name ∷ [] in
          Follows-within p (PathSegment.key name) (λ path. pop_on_error R go (go v path)) _
            (read d below) _
            (record {
              ends =
                  SameEnd-pop_on_error R go (go v below) (read d below) below
                    (h d v below small s).ends;
            })
            (λ x. Follows-pure (name, x) p))

    entries_lem :
        (kvs : List (RubyValue × RubyValue)) (es : RubyEntries) (p : Segments)
        → objects_entries es ≤ n
        → ShowsEntries R kvs es
        → Follows (convert_entries R go kvs) p (read_entries es p)
    unfolding convert_entries read objects
    entries_lem [] RubyEntries.no_entries p small s = Follows-pure _ p
    entries_lem [] (RubyEntries.entry key d es) p small s = absurd s
    entries_lem (kv ∷ kvs) RubyEntries.no_entries p small s = absurd s
    entries_lem ((k, v) ∷ kvs) (RubyEntries.entry key d es) p small (sk, sv, ss) =
        rw
          (← pair_lem (read_key key p) (λ name. read d (p ++ PathSegment.key name ∷ []))
            (λ q. Spec.◌>>=◌ (read_entries es p) (λ m. got (OwnedDict.entry q.0 q.1 m))))
          (Follows-bind p _ _ _ _ (foreach_lem k v key d p (omega arith) sk sv) (λ q.
            Follows-bind p _ _ (read_entries es p) _ (entries_lem kvs es p (omega arith) ss)
              (λ m. Follows-pure _ p)))

    hash_lem :
        (es : RubyEntries) (v : RubyValue) (p : Segments)
        → objects_entries es ≤ n
        → ShowsEntries R (R.rb_hash_entries v) es
        → Follows (convert_hash R go v) p (read (RubyData.hash es) p)
    unfolding convert_hash read
    hash_lem es v p small s =
        Follows-bind p _ _ (read_entries es p) _ (entries_lem (R.rb_hash_entries v) es p small s)
          (λ m. Follows-pure _ p)

    unsupported_lem :
        (v : RubyValue) (c : String) (p : Segments)
        → class_name R v ≡ c
        → Follows (unsupported R v) p (read (RubyData.other c) p)
    unfolding unsupported read
    unsupported_lem v c p e = record { ends = ap (InputError.unsupported_type (format_path p)) e }

    value_lem :
        (d : RubyData) (v : RubyValue) (p : Segments)
        → objects d ≤ suc n
        → Shows R v d
        → Follows (convert_value R go v) p (read d p)
    unfolding read objects
    value_lem RubyData.nil v p small e = rw (nil_lem R go v e) (Follows-pure _ p)
    value_lem (RubyData.boolean b) v p small e = rw (boolean_lem R go v b e) (Follows-pure _ p)
    value_lem (RubyData.integer i) v p small (inl t, e) =
        rw (special_lem R go v _ t, e) (Follows-pure _ p)
    value_lem (RubyData.integer i) v p small (inr t, e) =
        rw (special_lem R go v _ t, e) (Follows-pure _ p)
    value_lem RubyData.huge v p small (t, e) = rw (special_lem R go v _ t, e) (record { ends = tt })
    value_lem (RubyData.float f) v p small (t, e) =
        rw (special_lem R go v _ t, e) (Follows-pure _ p)
    value_lem (RubyData.string s) v p small (t, e) =
        rw (special_lem R go v _ t, e) (Follows-pure _ p)
    value_lem (RubyData.symbol s) v p small (t, e) =
        rw (special_lem R go v _ t, e) (Follows-pure _ p)
    value_lem (RubyData.list ds) v p small (t, e, s) =
        rw (special_lem R go v _ t) (array_lem ds v p (omega arith) e s)
    value_lem (RubyData.hash es) v p small (t, s) =
        rw (special_lem R go v _ t) (hash_lem es v p (omega arith) s)
    value_lem (RubyData.other c) v p small (t, e) =
        rw (special_lem R go v _ t) (unsupported_lem v c p e)

-- If the reads of an object show a tree, and the fuel is at least the number of objects in it, then
-- the conversion ends as the tree is read: with the value and the path unchanged, with the error, or
-- by the exception for an integer that does not fit.
pub convert_ruby_value_lem :
    (R : Reads) (fuel : ℕ) (d : RubyData) (v : RubyValue) (p : Segments)
    → objects d ≤ fuel
    → Shows R v d
    → Follows (convert_ruby_value R fuel v) p (read d p)
unfolding convert_ruby_value
convert_ruby_value_lem R zero d v p small s = omega (arith, objects-pos d)
convert_ruby_value_lem R (suc fuel) d v p small s =
    value_lem R fuel (convert_ruby_value R fuel) (convert_ruby_value_lem R fuel) d v p small s
