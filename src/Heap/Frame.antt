-- ===== src/Heap/Frame.antt =====
-- What a change of one array or hash leaves of the trees that do not have it.
use rustly_core.Base.{
  ◌≡◌, refl, sym, ap, ◌∙◌, Bool, true, false, Option, none, some, List, [], ◌∷◌, ℕ_discrete, arith,
}
use rustly_core.Ruby.{RubyValue}
use rustly_core.Heap.{Cell, Key, key_cell, is_compound, Kept, KeptBut, KeysAre}
use rustly_core.Heap.Trees.{Tree, Trees, Entries, Holds, HoldsItems, HoldsEntries}

pub key-leaf : (k : Key) → is_compound (key_cell k) ≡ false
key-leaf (Key.string_key s) = refl
key-leaf (Key.symbol_key s) = refl

pub none-some : {A : Type 0} {a : A} → none ≡ some a → ⊥
none-some e = ground arith

abbrev compound_of : Option Cell → Bool
compound_of none = false
compound_of (some c) = is_compound c

module _ {S : Type 0} (cells : S → RubyValue → Option Cell) where
  -- Between two moments objects have been made, and nothing but arrays and hashes has changed.
  pub record Grows (before st : S) : Type 0 where
    pub below : (w : RubyValue) → cells st w ≡ none → cells before w ≡ none
    pub leaves :
        (w : RubyValue) (c : Cell)
        → is_compound c ≡ false
        → cells before w ≡ some c
        → cells st w ≡ some c

  pub Grows-same : (st : S) → Grows st st
  Grows-same st = record { below = λ w e. e; leaves = λ w c l e. e }

  pub Grows-chain : (a b c : S) → Grows a b → Grows b c → Grows a c
  Grows-chain a b c g h = record {
    below = λ w e. g.below w (h.below w e);
    leaves = λ w x l e. h.leaves w x l (g.leaves w x l e);
  }

  pub Kept-chain : (a b c : S) → Kept cells a b → Kept cells b c → Kept cells a c
  Kept-chain a b c k l = λ w x e. l w x (k w x e)

  pub KeptBut-chain :
      (v : RubyValue) (a b c : S) → KeptBut cells v a b → KeptBut cells v b c → KeptBut cells v a c
  KeptBut-chain v a b c k l = λ w x d e. l w x d (k w x d e)

  pub Kept→KeptBut : (v : RubyValue) (a b : S) → Kept cells a b → KeptBut cells v a b
  Kept→KeptBut v a b k = λ w x d e. k w x e

  below_cases :
      (a b : S) (w : RubyValue) (o : Option Cell)
      → cells a w ≡ o
      → ((c : Cell) → cells a w ≡ some c → ⊥)
      → cells a w ≡ none
  below_cases a b w none e h = e
  below_cases a b w (some c) e h = absurd (h c e)

  pub Kept→Grows : (a b : S) → Kept cells a b → Grows a b
  Kept→Grows a b k = record {
    below = λ w e. below_cases a b w (cells a w) refl (λ c f. none-some (sym e ∙ k w c f));
    leaves = λ w c l e. k w c e;
  }

  -- What is no array and no hash is not the object that changes.
  pub leaf-apart :
      (st : S) (v w : RubyValue) (c d : Cell)
      → cells st v ≡ some c
      → is_compound c ≡ true
      → cells st w ≡ some d
      → is_compound d ≡ false
      → w ≡ v
      → ⊥
  leaf-apart st v w c d e h f l p =
      ground (arith, sym h ∙ ap compound_of (sym e ∙ ap (cells st) (sym p) ∙ f) ∙ l)

  pub KeptBut→Grows :
      (v : RubyValue) (a b : S) (c d : Cell)
      → cells a v ≡ some c
      → is_compound c ≡ true
      → cells b v ≡ some d
      → KeptBut cells v a b
      → Grows a b
  KeptBut→Grows v a b c d e h f k = record {
    below = λ w g. below_cases a b w (cells a w) refl (λ x i. elim (ℕ_discrete w v) [
      | yes p ↦ none-some (sym g ∙ ap (cells b) p ∙ f)
      | no q ↦ none-some (sym g ∙ k w x q i)
    ]);
    leaves = λ w x l i. k w x (leaf-apart a v w c x e h i l) i;
  }

  -- A tree of objects that were made after `later` was made after `before`.
  mutual
    pub Holds-before :
        (before later st : S) (v : RubyValue) (t : Tree)
        → Grows before later
        → Holds cells later st v t
        → Holds cells before st v t
    Holds-before b l st v Tree.nil g h = h
    Holds-before b l st v (Tree.boolean x) g h = h
    Holds-before b l st v (Tree.integer i) g h = h
    Holds-before b l st v (Tree.float f) g h = h
    Holds-before b l st v (Tree.string s) g h = h
    Holds-before b l st v (Tree.symbol s) g h = h
    Holds-before b l st v (Tree.list ts) g (n, ws, e, hs) =
        (g.below v n, ws, e, HoldsItems-before b l st ws ts g hs)
    Holds-before b l st v (Tree.hash es) g (n, kvs, e, hs) =
        (g.below v n, kvs, e, HoldsEntries-before b l st kvs es g hs)

    pub HoldsItems-before :
        (before later st : S) (ws : List RubyValue) (ts : Trees)
        → Grows before later
        → HoldsItems cells later st ws ts
        → HoldsItems cells before st ws ts
    HoldsItems-before b l st [] Trees.no_items g h = h
    HoldsItems-before b l st [] (Trees.item t ts) g h = absurd h
    HoldsItems-before b l st (w ∷ ws) Trees.no_items g h = absurd h
    HoldsItems-before b l st (w ∷ ws) (Trees.item t ts) g (h, hs) =
        (Holds-before b l st w t g h, HoldsItems-before b l st ws ts g hs)

    pub HoldsEntries-before :
        (before later st : S) (kvs : List (RubyValue × RubyValue)) (es : Entries)
        → Grows before later
        → HoldsEntries cells later st kvs es
        → HoldsEntries cells before st kvs es
    HoldsEntries-before b l st [] Entries.no_entries g h = h
    HoldsEntries-before b l st [] (Entries.entry k t es) g h = absurd h
    HoldsEntries-before b l st (kv ∷ kvs) Entries.no_entries g h = absurd h
    HoldsEntries-before b l st (kv ∷ kvs) (Entries.entry k t es) g (e, h, hs) =
        (e, Holds-before b l st kv.1 t g h, HoldsEntries-before b l st kvs es g hs)

  -- One array or hash `a`, which there was already before the tree was made, changes.
  module _ (a : RubyValue) (before st next : S) (old now : Cell) (alive : cells before a ≡ some old)
      (here : cells st a ≡ some now) (changing : is_compound now ≡ true)
      (kept : KeptBut cells a st next) where
    leaf-kept :
        (w : RubyValue) (c : Cell)
        → is_compound c ≡ false
        → cells st w ≡ some c
        → cells next w ≡ some c
    leaf-kept w c l e = kept w c (leaf-apart st a w now c here changing e l) e

    new-kept :
        (w : RubyValue) (c : Cell)
        → cells before w ≡ none
        → cells st w ≡ some c
        → cells next w ≡ some c
    new-kept w c n e = kept w c (λ p. none-some (sym n ∙ ap (cells before) p ∙ alive)) e

    mutual
      pub Holds-kept :
          (v : RubyValue) (t : Tree) → Holds cells before st v t → Holds cells before next v t
      Holds-kept v Tree.nil h = leaf-kept v _ refl h
      Holds-kept v (Tree.boolean x) h = leaf-kept v _ refl h
      Holds-kept v (Tree.integer i) h = leaf-kept v _ refl h
      Holds-kept v (Tree.float f) h = leaf-kept v _ refl h
      Holds-kept v (Tree.string s) h = leaf-kept v _ refl h
      Holds-kept v (Tree.symbol s) h = leaf-kept v _ refl h
      Holds-kept v (Tree.list ts) (n, ws, e, hs) =
          (n, ws, new-kept v _ n e, HoldsItems-kept ws ts hs)
      Holds-kept v (Tree.hash es) (n, kvs, e, hs) =
          (n, kvs, new-kept v _ n e, HoldsEntries-kept kvs es hs)

      pub HoldsItems-kept :
          (ws : List RubyValue) (ts : Trees)
          → HoldsItems cells before st ws ts
          → HoldsItems cells before next ws ts
      HoldsItems-kept [] Trees.no_items h = h
      HoldsItems-kept [] (Trees.item t ts) h = absurd h
      HoldsItems-kept (w ∷ ws) Trees.no_items h = absurd h
      HoldsItems-kept (w ∷ ws) (Trees.item t ts) (h, hs) =
          (Holds-kept w t h, HoldsItems-kept ws ts hs)

      pub HoldsEntries-kept :
          (kvs : List (RubyValue × RubyValue)) (es : Entries)
          → HoldsEntries cells before st kvs es
          → HoldsEntries cells before next kvs es
      HoldsEntries-kept [] Entries.no_entries h = h
      HoldsEntries-kept [] (Entries.entry k t es) h = absurd h
      HoldsEntries-kept (kv ∷ kvs) Entries.no_entries h = absurd h
      HoldsEntries-kept (kv ∷ kvs) (Entries.entry k t es) (e, h, hs) =
          (leaf-kept kv.0 _ (key-leaf k) e, Holds-kept kv.1 t h, HoldsEntries-kept kvs es hs)

    pub KeysAre-kept :
        (kvs : List (RubyValue × RubyValue)) (keys : List Key)
        → KeysAre cells st kvs keys
        → KeysAre cells next kvs keys
    KeysAre-kept [] [] h = h
    KeysAre-kept [] (k ∷ ks) h = absurd h
    KeysAre-kept (kv ∷ kvs) [] h = absurd h
    KeysAre-kept (kv ∷ kvs) (k ∷ ks) (e, h) =
        (leaf-kept kv.0 _ (key-leaf k) e, KeysAre-kept kvs ks h)
