-- ===== src/Heap/Values/Made.antt =====
-- The conversion of a validated value makes the tree of the value.
use rustly_core.Base.{String, ◌≡◌, refl, true, false, Option, some, List, [], ◌∷◌, ◌++◌}
use mathlib.Core.Path.{subst}
use rustly_core.Ruby.{RubyValue}
use rustly_core.Schema.Plan.{has_nul}
use rustly_core.Validation.Value.{OwnedValue, OwnedList, OwnedDict, OwnedFields, OwnedExtras}
use rustly_core.Materialize.{
  RubyHeap, Built, built, failed, raised, exhausted, panicked, pure, continue, ◌>>=◌,
  symbol_to_value, attribute_key_value, owned_value_to_ruby, push_items, put_entries, put_fields,
  put_extras, put_extra_entries,
}
use rustly_core.Heap.{Cell, Key, HeapLaws}
use rustly_core.Heap.Trees.{Tree, both, with_keys}
use rustly_core.Heap.Makes.{
  Made, Makes, MakesItems, MakesEntries, MakesKey, Makes-call, Makes-look, MakesItems-none,
  MakesEntries-none,
}
use rustly_core.Heap.Containers.{Makes-array, Makes-hash}
use rustly_core.Heap.Loops.{MakesItems-push, MakesEntries-key_first, MakesEntries-value_first}
use rustly_core.Heap.Sequence.{MakesEntries-seq}
use rustly_core.Heap.Values.{
  tree_of, trees_of, entries_of, fields_of, extras_of, extra_entries_of, IsProper, AreProper,
  HasProperEntries, HasProperFields, HasProperExtras, HasProperExtraEntries,
}

continue_lem :
    {S A C : Type 0} (n : S → Built S C) (a : A) (r : Built S (Unit {0}))
    → continue (λ u. pure a) (continue (λ u. n) r)
      ≡ continue (λ u st. continue (λ w. pure a) (n st)) r
continue_lem n a (built u st) = refl
continue_lem n a (failed e st) = refl
continue_lem n a (raised st) = refl
continue_lem n a exhausted = refl
continue_lem n a panicked = refl

assoc_lem :
    {S A C : Type 0} (m : S → Built S (Unit {0})) (n : S → Built S C) (a : A) (st : S)
    → ((m >>= λ u. n) >>= λ u. pure a) st ≡ (m >>= λ u. n >>= λ u. pure a) st
unfolding ◌>>=◌
assoc_lem m n a st = continue_lem n a (m st)

module _ (Y : RubyHeap) (cells : Y.Store → RubyValue → Option Cell) (K : HeapLaws Y cells) where
  symbol_lem :
      (before : Y.Store) (s : String)
      → has_nul s ≡ false
      → MakesKey cells before (symbol_to_value Y s) (Key.symbol_key s)
  unfolding symbol_to_value ◌>>=◌
  symbol_lem before s e st g = rw e (record {
    object = (Y.rb_id2sym (Y.rb_intern2 s st).0 (Y.rb_intern2 s st).1).0;
    after = (Y.rb_id2sym (Y.rb_intern2 s st).0 (Y.rb_intern2 s st).1).1;
    ends = refl;
    kept = (K.symbol_made s st e).kept;
    stands = (K.symbol_made s st e).stands;
  })

  key_lem :
      (before : Y.Store) (s : String)
      → has_nul s ≡ false
      → MakesKey cells before (attribute_key_value Y s) (Key.string_key s)
  unfolding attribute_key_value
  key_lem before s e st g = rw e (record {
    object = (Y.rb_utf8_str_new s st).0;
    after = (Y.rb_utf8_str_new s st).1;
    ends = refl;
    kept = (K.str_new s st).kept;
    stands = (K.str_new s st).stands;
  })

  symbol_tree_lem :
      (before : Y.Store) (s : String)
      → has_nul s ≡ false
      → Makes cells before (symbol_to_value Y s) (Tree.symbol s)
  symbol_tree_lem before s e st g =
      let k = symbol_lem before s e st g in
      record { object = k.object; after = k.after; ends = k.ends; kept = k.kept; holds = k.stands }

  mutual
    unfolding owned_value_to_ruby tree_of ◌>>=◌

    value_lem :
        (before : Y.Store) (v : OwnedValue)
        → IsProper v
        → Makes cells before (owned_value_to_ruby Y v) (tree_of v)
    value_lem b OwnedValue.null p = Makes-look _ Tree.nil (λ st. K.nil_stands st)
    value_lem b (OwnedValue.bool true) p = Makes-look _ (Tree.boolean true) (λ st. K.true_stands st)
    value_lem b (OwnedValue.bool false) p =
        Makes-look _ (Tree.boolean false) (λ st. K.false_stands st)
    value_lem b (OwnedValue.int i) p =
        Makes-call (Y.rb_ll2inum i) (Cell.integer i) (Tree.integer i) (λ st v e. e)
          (λ st. K.ll2inum i st p)
    value_lem b (OwnedValue.float f) p =
        Makes-call (Y.rb_float_new f) (Cell.float f) (Tree.float f) (λ st v e. e) (K.float_new f)
    value_lem b (OwnedValue.string s) p =
        Makes-call (Y.rb_utf8_str_new s) (Cell.string s) (Tree.string s) (λ st v e. e) (K.str_new s)
    value_lem b (OwnedValue.symbol s) p = symbol_tree_lem b s p
    value_lem b (OwnedValue.list vs) p =
        Makes-array Y cells K b (λ a. push_items Y a vs) (trees_of vs)
          (λ st a g e. items_lem st a (Cell.array []) e vs p)
    value_lem b (OwnedValue.dict m) p =
        Makes-hash Y cells K b (λ h. put_entries Y h m) (entries_of m)
          (λ st h g e. entries_lem st h (Cell.hash []) e [] m p)
    value_lem b (OwnedValue.struct names fs ex) (p, q) = λ st g.
        subst (λ run. Made cells b (tree_of (OwnedValue.struct names fs ex)) st run)
          (assoc_lem (put_fields Y (Y.rb_hash_new st).0 fs names)
            (put_extras Y (Y.rb_hash_new st).0 ex) (Y.rb_hash_new st).0 (Y.rb_hash_new st).1)
          (Makes-hash Y cells K b (λ h. put_fields Y h fs names >>= λ u. put_extras Y h ex)
            (both (fields_of fs names) (extras_of ex))
            (λ later h grown e.
              MakesEntries-seq cells later h (Cell.hash []) e (put_fields Y h fs names)
                (put_extras Y h ex) [] (fields_of fs names) (extras_of ex)
                (fields_lem later h (Cell.hash []) e [] fs names p)
                (extras_lem later h (Cell.hash []) e (with_keys [] (fields_of fs names)) ex q))
            st g)

    items_lem :
        (before : Y.Store) (a : RubyValue) (old : Cell)
        → cells before a ≡ some old
        → (vs : OwnedList) → AreProper vs
        → MakesItems cells before a (push_items Y a vs) (trees_of vs)
    items_lem b a old e OwnedList.nil p = MakesItems-none a
    items_lem b a old e (OwnedList.cons v vs) (p, ps) =
        MakesItems-push Y cells K b a old e (owned_value_to_ruby Y v) (push_items Y a vs)
          (tree_of v) (trees_of vs) (value_lem b v p) (items_lem b a old e vs ps)

    entries_lem :
        (before : Y.Store) (h : RubyValue) (old : Cell)
        → cells before h ≡ some old
        → (keys : List Key) (m : OwnedDict) → HasProperEntries keys m
        → MakesEntries cells before h keys (put_entries Y h m) (entries_of m)
    entries_lem b h old e keys OwnedDict.empty p = MakesEntries-none h keys
    entries_lem b h old e keys (OwnedDict.entry k v m) ((n, new), p, ps) =
        MakesEntries-key_first Y cells K b h old e (put_entries Y h m) keys (Key.symbol_key k)
          (tree_of v) (entries_of m) new
          (entries_lem b h old e (keys ++ Key.symbol_key k ∷ []) m ps) (symbol_to_value Y k)
          (owned_value_to_ruby Y v) (symbol_lem b k n) (value_lem b v p)

    fields_lem :
        (before : Y.Store) (h : RubyValue) (old : Cell)
        → cells before h ≡ some old
        → (keys : List Key) (fs : OwnedFields) (names : List String) → HasProperFields keys fs names
        → MakesEntries cells before h keys (put_fields Y h fs names) (fields_of fs names)
    fields_lem b h old e keys OwnedFields.end names p = MakesEntries-none h keys
    fields_lem b h old e keys (OwnedFields.absent fs) [] p = MakesEntries-none h keys
    fields_lem b h old e keys (OwnedFields.absent fs) (n ∷ ns) p = fields_lem b h old e keys fs ns p
    fields_lem b h old e keys (OwnedFields.present v fs) [] p = MakesEntries-none h keys
    fields_lem b h old e keys (OwnedFields.present v fs) (n ∷ ns) ((nul, new), p, ps) =
        MakesEntries-value_first Y cells K b h old e (put_fields Y h fs ns) keys (Key.symbol_key n)
          (tree_of v) (fields_of fs ns) new
          (fields_lem b h old e (keys ++ Key.symbol_key n ∷ []) fs ns ps) (symbol_to_value Y n)
          (owned_value_to_ruby Y v) (symbol_lem b n nul) (value_lem b v p)

    extras_lem :
        (before : Y.Store) (h : RubyValue) (old : Cell)
        → cells before h ≡ some old
        → (keys : List Key) (ex : OwnedExtras) → HasProperExtras keys ex
        → MakesEntries cells before h keys (put_extras Y h ex) (extras_of ex)
    extras_lem b h old e keys OwnedExtras.no_extras p = MakesEntries-none h keys
    extras_lem b h old e keys (OwnedExtras.extras m) p = extra_entries_lem b h old e keys m p

    extra_entries_lem :
        (before : Y.Store) (h : RubyValue) (old : Cell)
        → cells before h ≡ some old
        → (keys : List Key) (m : OwnedDict) → HasProperExtraEntries keys m
        → MakesEntries cells before h keys (put_extra_entries Y h m) (extra_entries_of m)
    extra_entries_lem b h old e keys OwnedDict.empty p = MakesEntries-none h keys
    extra_entries_lem b h old e keys (OwnedDict.entry k v m) ((n, new), p, ps) =
        MakesEntries-value_first Y cells K b h old e (put_extra_entries Y h m) keys
          (Key.string_key k) (tree_of v) (extra_entries_of m) new
          (extra_entries_lem b h old e (keys ++ Key.string_key k ∷ []) m ps)
          (attribute_key_value Y k) (owned_value_to_ruby Y v) (key_lem b k n) (value_lem b v p)

  pub owned_value_to_ruby-Makes :
      (before : Y.Store) (v : OwnedValue)
      → IsProper v
      → Makes cells before (owned_value_to_ruby Y v) (tree_of v)
  owned_value_to_ruby-Makes before v p = value_lem before v p
