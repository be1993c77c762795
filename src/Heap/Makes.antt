-- ===== src/Heap/Makes.antt =====
-- Calls that make trees of objects, one after the other: a literal object, an array and its pushes, a
-- hash and its entries.
use rustly_core.Base.{◌≡◌, refl, sym, ap, ◌∙◌, Option, some, List, [], ◌++◌}
use mathlib.Core.List.{append-nil}
use rustly_core.Ruby.{RubyValue}
use rustly_core.Materialize.{Built, built, pure, call, look}
use rustly_core.Heap.{Cell, Key, key_cell, Kept, KeptBut, KeysAre, IsMade}
use rustly_core.Heap.Trees.{Tree, Trees, Entries, Holds, HoldsItems, HoldsEntries}
use rustly_core.Heap.Frame.{Grows}

module _ {S : Type 0} (cells : S → RubyValue → Option Cell) (before : S) where
  -- A run from `st` ends with the root of a new tree, and leaves every object what it was.
  pub record Made (t : Tree) (st : S) (run : Built S RubyValue) : Type 0 where
    pub object : RubyValue
    pub after : S
    pub ends : run ≡ built object after
    pub kept : Kept cells st after
    pub holds : Holds cells before after object t

  -- A run from `st` ends with more elements in an array, and changes no other object.
  pub record Pushed (a : RubyValue) (ws : List RubyValue) (ts : Trees) (st : S)
      (run : Built S (Unit {0})) : Type 0 where
    pub more : List RubyValue
    pub after : S
    pub ends : run ≡ built tt after
    pub stands : cells after a ≡ some (Cell.array (ws ++ more))
    pub kept : KeptBut cells a st after
    pub holds : HoldsItems cells before after more ts

  pub record Filled (h : RubyValue) (kvs : List (RubyValue × RubyValue)) (es : Entries) (st : S)
      (run : Built S (Unit {0})) : Type 0 where
    pub more : List (RubyValue × RubyValue)
    pub after : S
    pub ends : run ≡ built tt after
    pub stands : cells after h ≡ some (Cell.hash (kvs ++ more))
    pub kept : KeptBut cells h st after
    pub holds : HoldsEntries cells before after more es

  abbrev pub Makes : (S → Built S RubyValue) → Tree → Type 0
  Makes m t = (st : S) → Grows cells before st → Made t st (m st)

  abbrev pub MakesItems : RubyValue → (S → Built S (Unit {0})) → Trees → Type 0
  MakesItems a m ts =
      (st : S) (ws : List RubyValue)
      → Grows cells before st
      → cells st a ≡ some (Cell.array ws)
      → Pushed a ws ts st (m st)

  -- The hash has the keys `keys` at first.
  abbrev pub MakesEntries : RubyValue → List Key → (S → Built S (Unit {0})) → Entries → Type 0
  MakesEntries h keys m es =
      (st : S) (kvs : List (RubyValue × RubyValue))
      → Grows cells before st
      → cells st h ≡ some (Cell.hash kvs)
      → KeysAre cells st kvs keys
      → Filled h kvs es st (m st)

  -- A run ends with an object that is a key.
  pub record MadeKey (key : Key) (st : S) (run : Built S RubyValue) : Type 0 where
    pub object : RubyValue
    pub after : S
    pub ends : run ≡ built object after
    pub kept : Kept cells st after
    pub stands : cells after object ≡ some (key_cell key)

  abbrev pub MakesKey : (S → Built S RubyValue) → Key → Type 0
  MakesKey m key = (st : S) → Grows cells before st → MadeKey key st (m st)

module _ {S : Type 0} {cells : S → RubyValue → Option Cell} {before : S} where
  pub Makes-call :
      (f : S → RubyValue × S) (c : Cell) (t : Tree)
      → ((st : S) (v : RubyValue) → cells st v ≡ some c → Holds cells before st v t)
      → ((st : S) → IsMade cells c st (f st))
      → Makes cells before (call f) t
  Makes-call f c t hold makes st g = record {
    object = (f st).0;
    after = (f st).1;
    ends = refl;
    kept = (makes st).kept;
    holds = hold (f st).1 (f st).0 (makes st).stands;
  }

  pub MakesKey-call :
      (f : S → RubyValue × S) (key : Key)
      → ((st : S) → IsMade cells (key_cell key) st (f st))
      → MakesKey cells before (call f) key
  MakesKey-call f key makes st g = record {
    object = (f st).0;
    after = (f st).1;
    ends = refl;
    kept = (makes st).kept;
    stands = (makes st).stands;
  }

  pub Makes-look :
      (f : S → RubyValue) (t : Tree)
      → ((st : S) → Holds cells before st (f st) t)
      → Makes cells before (look f) t
  Makes-look f t hold st g = record {
    object = f st;
    after = st;
    ends = refl;
    kept = λ w c e. e;
    holds = hold st;
  }

  pub MakesItems-none : (a : RubyValue) → MakesItems cells before a (pure tt) Trees.no_items
  MakesItems-none a st ws g e = record {
    more = [];
    after = st;
    ends = refl;
    stands = e ∙ ap (λ l. some (Cell.array l)) (sym (append-nil ws));
    kept = λ w c d h. h;
    holds = tt;
  }

  pub MakesEntries-none :
      (h : RubyValue) (keys : List Key)
      → MakesEntries cells before h keys (pure tt) Entries.no_entries
  MakesEntries-none h keys st kvs g e k = record {
    more = [];
    after = st;
    ends = refl;
    stands = e ∙ ap (λ l. some (Cell.hash l)) (sym (append-nil kvs));
    kept = λ w c d i. i;
    holds = tt;
  }
