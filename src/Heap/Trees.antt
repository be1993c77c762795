-- ===== src/Heap/Trees.antt =====
-- The trees of objects that the extension makes, and how they stand in the cells of a heap.
use rustly_core.Base.{String, ◌≡◌, Bool, Option, none, some, List, [], ◌∷◌, ◌++◌}
use rustly_core.Base.Int.{ℤ}
use rustly_core.Base.Float.{F64}
use rustly_core.Ruby.{RubyValue}
use rustly_core.Heap.{Cell, Key, key_cell}

mutual
  pub data Tree : Type 0 where
    nil : Tree
    boolean : Bool → Tree
    integer : ℤ → Tree
    float : F64 → Tree
    string symbol : String → Tree
    list : Trees → Tree
    hash : Entries → Tree

  pub data Trees : Type 0 where
    no_items : Trees
    item : Tree → Trees → Trees

  pub data Entries : Type 0 where
    no_entries : Entries
    entry : Key → Tree → Entries → Entries

-- The keys of some entries, after those of a list.
abbrev pub with_keys : List Key → Entries → List Key
with_keys keys no_entries = keys
with_keys keys (entry k t es) = with_keys (keys ++ k ∷ []) es

abbrev pub both : Entries → Entries → Entries
both no_entries es = es
both (entry k t ds) es = entry k t (both ds es)

module _ {S : Type 0} (cells : S → RubyValue → Option Cell) where
  -- The object is the root of the tree at `st`, and every array and hash of the tree was made after
  -- `before`.
  abbrev mutual
    pub Holds : S → S → RubyValue → Tree → Type 0
    Holds before st v nil = cells st v ≡ some Cell.nil
    Holds before st v (boolean b) = cells st v ≡ some (Cell.boolean b)
    Holds before st v (integer i) = cells st v ≡ some (Cell.integer i)
    Holds before st v (float f) = cells st v ≡ some (Cell.float f)
    Holds before st v (string s) = cells st v ≡ some (Cell.string s)
    Holds before st v (symbol s) = cells st v ≡ some (Cell.symbol s)
    Holds before st v (list ts) =
        (cells before v ≡ none)
        × (ws : List RubyValue) × (cells st v ≡ some (Cell.array ws))
        × HoldsItems before st ws ts
    Holds before st v (hash es) =
        (cells before v ≡ none)
        × (kvs : List (RubyValue × RubyValue)) × (cells st v ≡ some (Cell.hash kvs))
        × HoldsEntries before st kvs es

    pub HoldsItems : S → S → List RubyValue → Trees → Type 0
    HoldsItems before st [] no_items = Unit {0}
    HoldsItems before st [] (item t ts) = ⊥
    HoldsItems before st (w ∷ ws) no_items = ⊥
    HoldsItems before st (w ∷ ws) (item t ts) = Holds before st w t × HoldsItems before st ws ts

    pub HoldsEntries : S → S → List (RubyValue × RubyValue) → Entries → Type 0
    HoldsEntries before st [] no_entries = Unit {0}
    HoldsEntries before st [] (entry k t es) = ⊥
    HoldsEntries before st (kv ∷ kvs) no_entries = ⊥
    HoldsEntries before st (kv ∷ kvs) (entry k t es) =
        (cells st kv.0 ≡ some (key_cell k)) × Holds before st kv.1 t × HoldsEntries before st kvs es
