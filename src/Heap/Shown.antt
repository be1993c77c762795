-- ===== src/Heap/Shown.antt =====
-- What the reads of a heap show of a tree that stands in its cells.
use rustly_core.Base.{
  some, ℕ, suc, String, ◌≡◌, refl, ap, ◌∙◌, inl, inr, Bool, true, false, Option, List, [], ◌∷◌,
}
use rustly_core.Base.Lists.{length}
use rustly_core.Base.Int.{ℤ}
use rustly_core.Ruby.{RubyValue, RubyType, Reads}
use rustly_core.Input.{copy_ruby_string, copy_ruby_symbol}
use rustly_core.Input.Shape.{
  RubyData, RubyItems, RubyEntries, RubyKey, Shows, ShowsKey, ShowsItems, ShowsEntries, items_len,
}
use rustly_core.Materialize.{RubyHeap}
use rustly_core.Heap.{
  Cell, Key, fits, key_cell, Listed, ShowsText, ShowsInteger, ShowsCell, HeapLaws,
}
use rustly_core.Heap.Trees.{Tree, Trees, Entries, Holds, HoldsItems, HoldsEntries}

abbrev pub key_name : Key → String
key_name (Key.string_key s) = s
key_name (Key.symbol_key s) = s

abbrev pub shown_integer : Bool → ℤ → RubyData
shown_integer true i = RubyData.integer i
shown_integer false i = RubyData.huge

unfoldable mutual
  pub shown : Tree → RubyData
  shown Tree.nil = RubyData.nil
  shown (Tree.boolean b) = RubyData.boolean b
  shown (Tree.integer i) = shown_integer (fits i) i
  shown (Tree.float f) = RubyData.float f
  shown (Tree.string s) = RubyData.string s
  shown (Tree.symbol s) = RubyData.symbol s
  shown (Tree.list ts) = RubyData.list (shown_items ts)
  shown (Tree.hash es) = RubyData.hash (shown_entries es)

  pub shown_items : Trees → RubyItems
  shown_items Trees.no_items = RubyItems.no_items
  shown_items (Trees.item t ts) = RubyItems.item (shown t) (shown_items ts)

  pub shown_entries : Entries → RubyEntries
  shown_entries Entries.no_entries = RubyEntries.no_entries
  shown_entries (Entries.entry k t es) =
      RubyEntries.entry (RubyKey.named (key_name k)) (shown t) (shown_entries es)

text_lem :
    (R : Reads) (v : RubyValue) (s : String)
    → R.rb_type_p v RubyType.t_string ≡ true
    → ShowsText R v s
    → copy_ruby_string R v ≡ some s
unfolding copy_ruby_string
text_lem R v s t (bytes, e, f) = rw (t, e, f) refl

string_lem :
    (R : Reads) (v : RubyValue) (s : String)
    → ShowsCell R v (Cell.string s)
    → Shows R v (RubyData.string s)
string_lem R v s (t, h) = (t, text_lem R v s (t.typed RubyType.t_string) h)

symbol_lem :
    (R : Reads) (v : RubyValue) (s : String)
    → ShowsCell R v (Cell.symbol s)
    → Shows R v (RubyData.symbol s)
unfolding copy_ruby_symbol
symbol_lem R v s (t, h, k) =
    (t, rw (t.typed RubyType.t_symbol, text_lem R (R.rb_sym2str v) s h k) refl)

key_lem :
    (R : Reads) (k : RubyValue) (key : Key)
    → ShowsCell R k (key_cell key)
    → ShowsKey R k (RubyKey.named (key_name key))
unfolding copy_ruby_string
key_lem R k (Key.string_key s) h = inl (string_lem R k s h).1
key_lem R k (Key.symbol_key s) h =
    inr (rw (h.0.typed RubyType.t_string) refl, (symbol_lem R k s h).1)

integer_lem :
    (R : Reads) (v : RubyValue) (i : ℤ) (b : Bool)
    → ShowsInteger R v i b
    → Shows R v (shown_integer b i)
integer_lem R v i true s = s
integer_lem R v i false s = s

module _ (Y : RubyHeap) (cells : Y.Store → RubyValue → Option Cell) (K : HeapLaws Y cells) where
  len_lem :
      (before st : Y.Store) (ws : List RubyValue) (ts : Trees)
      → HoldsItems cells before st ws ts
      → length ws ≡ items_len (shown_items ts)
  unfolding shown
  len_lem b st [] Trees.no_items h = refl
  len_lem b st [] (Trees.item t ts) h = absurd h
  len_lem b st (w ∷ ws) Trees.no_items h = absurd h
  len_lem b st (w ∷ ws) (Trees.item t ts) (h, hs) = ap suc (len_lem b st ws ts hs)

  mutual
    unfolding shown

    pub Holds→Shows :
        (before st : Y.Store) (v : RubyValue) (t : Tree)
        → Holds cells before st v t
        → Shows (Y.reads st) v (shown t)
    Holds→Shows b st v Tree.nil h = K.shows st v _ h
    Holds→Shows b st v (Tree.boolean true) h = K.shows st v _ h
    Holds→Shows b st v (Tree.boolean false) h = K.shows st v _ h
    Holds→Shows b st v (Tree.integer i) h = integer_lem (Y.reads st) v i (fits i) (K.shows st v _ h)
    Holds→Shows b st v (Tree.float f) h = K.shows st v _ h
    Holds→Shows b st v (Tree.string s) h = string_lem (Y.reads st) v s (K.shows st v _ h)
    Holds→Shows b st v (Tree.symbol s) h = symbol_lem (Y.reads st) v s (K.shows st v _ h)
    Holds→Shows b st v (Tree.list ts) (n, ws, e, hs) =
        let (t, len, listed) = K.shows st v _ e in
        (t, len ∙ len_lem b st ws ts hs, HoldsItems→ShowsItems b st v 0 ws ts listed hs)
    Holds→Shows b st v (Tree.hash es) (n, kvs, e, hs) =
        let (t, entries) = K.shows st v _ e in
        (t, rw entries (HoldsEntries→ShowsEntries b st kvs es hs))

    HoldsItems→ShowsItems :
        (before st : Y.Store) (v : RubyValue) (i : ℕ) (ws : List RubyValue) (ts : Trees)
        → Listed (Y.reads st) v i ws
        → HoldsItems cells before st ws ts
        → ShowsItems (Y.reads st) v i (shown_items ts)
    HoldsItems→ShowsItems b st v i [] Trees.no_items l h = tt
    HoldsItems→ShowsItems b st v i [] (Trees.item t ts) l h = absurd h
    HoldsItems→ShowsItems b st v i (w ∷ ws) Trees.no_items l h = absurd h
    HoldsItems→ShowsItems b st v i (w ∷ ws) (Trees.item t ts) (e, l) (h, hs) =
        (rw e (Holds→Shows b st w t h), HoldsItems→ShowsItems b st v (suc i) ws ts l hs)

    HoldsEntries→ShowsEntries :
        (before st : Y.Store) (kvs : List (RubyValue × RubyValue)) (es : Entries)
        → HoldsEntries cells before st kvs es
        → ShowsEntries (Y.reads st) kvs (shown_entries es)
    HoldsEntries→ShowsEntries b st [] Entries.no_entries h = tt
    HoldsEntries→ShowsEntries b st [] (Entries.entry k t es) h = absurd h
    HoldsEntries→ShowsEntries b st (kv ∷ kvs) Entries.no_entries h = absurd h
    HoldsEntries→ShowsEntries b st (kv ∷ kvs) (Entries.entry k t es) (e, h, hs) = (
      key_lem (Y.reads st) kv.0 k (K.shows st kv.0 _ e),
      Holds→Shows b st kv.1 t h,
      HoldsEntries→ShowsEntries b st kvs es hs,
    )
