-- ===== src/Heap/Containers.antt =====
-- New arrays and new hashes, and what fills them.
use rustly_core.Base.{◌≡◌, refl, sym, ap, ◌∙◌, Option, some, List, []}
use rustly_core.Ruby.{RubyValue}
use rustly_core.Materialize.{RubyHeap, B, pure, call, ◌>>=◌}
use rustly_core.Heap.{Cell, Key, key_cell, HeapLaws}
use rustly_core.Heap.Trees.{Tree, Trees, Entries}
use rustly_core.Heap.Frame.{
  none-some, Grows, Grows-same, Grows-chain, KeptBut-chain, Kept→Grows, Kept→KeptBut,
  HoldsItems-before, HoldsEntries-before,
}
use rustly_core.Heap.Makes.{Makes, MakesItems, MakesEntries, MakesKey}

module _ (Y : RubyHeap) (cells : Y.Store → RubyValue → Option Cell) (K : HeapLaws Y cells) where
  -- A new array.
  pub Makes-array :
      (before : Y.Store) (fill : RubyValue → B Y (Unit {0})) (ts : Trees)
      → ((st : Y.Store) (a : RubyValue)
          → Grows cells before st
          → cells st a ≡ some (Cell.array [])
          → MakesItems cells st a (fill a) ts)
      → Makes cells before (call Y.rb_ary_new >>= λ a. fill a >>= λ u. pure a) (Tree.list ts)
  unfolding ◌>>=◌
  Makes-array before fill ts fills st g =
      let is_new = K.ary_new st in
      let a = (Y.rb_ary_new st).0 in
      let next = (Y.rb_ary_new st).1 in
      let grown =
        Grows-chain cells before st next g (Kept→Grows cells st next is_new.is_made.kept) in
      let filled =
        fills next a grown is_new.is_made.stands next [] (Grows-same cells next)
          is_new.is_made.stands in
      record {
        object = a;
        after = filled.after;
        ends = rw filled.ends refl;
        kept = λ w c e.
            filled.kept w c (λ p. none-some (sym is_new.was_free ∙ ap (cells st) (sym p) ∙ e))
              (is_new.is_made.kept w c e);
        holds = (
          g.below a is_new.was_free,
          filled.more,
          filled.stands,
          HoldsItems-before cells before next filled.after filled.more ts grown filled.holds,
        );
      }

  -- A new hash.
  pub Makes-hash :
      (before : Y.Store) (fill : RubyValue → B Y (Unit {0})) (es : Entries)
      → ((st : Y.Store) (h : RubyValue)
          → Grows cells before st
          → cells st h ≡ some (Cell.hash [])
          → MakesEntries cells st h [] (fill h) es)
      → Makes cells before (call Y.rb_hash_new >>= λ h. fill h >>= λ u. pure h) (Tree.hash es)
  unfolding ◌>>=◌
  Makes-hash before fill es fills st g =
      let is_new = K.hash_new st in
      let h = (Y.rb_hash_new st).0 in
      let next = (Y.rb_hash_new st).1 in
      let grown =
        Grows-chain cells before st next g (Kept→Grows cells st next is_new.is_made.kept) in
      let filled =
        fills next h grown is_new.is_made.stands next [] (Grows-same cells next)
          is_new.is_made.stands tt in
      record {
        object = h;
        after = filled.after;
        ends = rw filled.ends refl;
        kept = λ w c e.
            filled.kept w c (λ p. none-some (sym is_new.was_free ∙ ap (cells st) (sym p) ∙ e))
              (is_new.is_made.kept w c e);
        holds = (
          g.below h is_new.was_free,
          filled.more,
          filled.stands,
          HoldsEntries-before cells before next filled.after filled.more es grown filled.holds,
        );
      }

  -- A symbol or a string, and then the elements.
  pub MakesItems-with_key :
      (before : Y.Store) (a : RubyValue) (key_of : B Y RubyValue) (key : Key)
      (rest : RubyValue → B Y (Unit {0})) (ts : Trees)
      → MakesKey cells before key_of key
      → ((later : Y.Store) (k : RubyValue)
          → Grows cells before later
          → cells later k ≡ some (key_cell key)
          → (ws : List RubyValue) → cells later a ≡ some (Cell.array ws)
          → MakesItems cells later a (rest k) ts)
      → MakesItems cells before a (key_of >>= λ k. rest k) ts
  unfolding ◌>>=◌
  MakesItems-with_key before a key_of key rest ts makes_key others st ws g e =
      let k = makes_key st g in
      let grown = Grows-chain cells before st k.after g (Kept→Grows cells st k.after k.kept) in
      let r =
        others k.after k.object grown k.stands ws (k.kept a _ e) k.after ws
          (Grows-same cells k.after) (k.kept a _ e) in
      rw k.ends (record {
        more = r.more;
        after = r.after;
        ends = r.ends;
        stands = r.stands;
        kept =
            KeptBut-chain cells a st k.after r.after (Kept→KeptBut cells a st k.after k.kept)
              r.kept;
        holds = HoldsItems-before cells before k.after r.after r.more ts grown r.holds;
      })
