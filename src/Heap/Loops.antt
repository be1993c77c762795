-- ===== src/Heap/Loops.antt =====
-- One turn of a loop that fills an array or a hash.
use rustly_core.Base.{◌≡◌, refl, ap, ◌∙◌, false, Option, some, List, [], ◌∷◌, ◌++◌}
use mathlib.Core.List.{append_assoc}
use rustly_core.Ruby.{RubyValue}
use rustly_core.Materialize.{RubyHeap, Built, B, change, ◌>>=◌}
use rustly_core.Heap.{Cell, Key, key_cell, has_key, Kept, KeysAre, HeapLaws}
use rustly_core.Heap.Trees.{Tree, Trees, Entries, Holds}
use rustly_core.Heap.Frame.{
  Grows, Grows-chain, Kept-chain, KeptBut-chain, Kept→Grows, Kept→KeptBut, KeptBut→Grows,
  Holds-kept, KeysAre-kept, leaf-apart, key-leaf,
}
use rustly_core.Heap.Makes.{Filled, Makes, MakesItems, MakesEntries, MakesKey}

pub KeysAre-snoc :
    {S : Type 0} (cells : S → RubyValue → Option Cell) (st : S) (kvs : List (RubyValue × RubyValue))
    (keys : List Key) (k x : RubyValue) (key : Key)
    → KeysAre cells st kvs keys
    → cells st k ≡ some (key_cell key)
    → KeysAre cells st (kvs ++ (k, x) ∷ []) (keys ++ key ∷ [])
KeysAre-snoc cells st [] [] k x key h e = (e, tt)
KeysAre-snoc cells st [] (j ∷ js) k x key h e = absurd h
KeysAre-snoc cells st (kv ∷ kvs) [] k x key h e = absurd h
KeysAre-snoc cells st (kv ∷ kvs) (j ∷ js) k x key (f, h) e =
    (f, KeysAre-snoc cells st kvs js k x key h e)

module _ (Y : RubyHeap) (cells : Y.Store → RubyValue → Option Cell) (K : HeapLaws Y cells)
    (before : Y.Store) (a : RubyValue) (old : Cell) (alive : cells before a ≡ some old) where
  pub MakesItems-push :
      (m : B Y RubyValue) (rest : B Y (Unit {0})) (t : Tree) (ts : Trees)
      → Makes cells before m t
      → MakesItems cells before a rest ts
      → MakesItems cells before a
          (m >>= λ x. change (Y.rb_ary_push a x) >>= λ u. rest)
          (Trees.item t ts)
  unfolding ◌>>=◌
  MakesItems-push m rest t ts makes others st ws g e =
      let made = makes st g in
      let x = made.object in
      let next = made.after in
      let here = made.kept a (Cell.array ws) e in
      let pushed = K.ary_push a x ws next here in
      let grown =
        Grows-chain cells before next _
          (Grows-chain cells before st next g (Kept→Grows cells st next made.kept))
          (KeptBut→Grows cells a next _ (Cell.array ws) _ here refl pushed.stands pushed.kept) in
      let last = others (Y.rb_ary_push a x next) (ws ++ x ∷ []) grown pushed.stands in
      record {
        more = x ∷ last.more;
        after = last.after;
        ends = rw made.ends last.ends;
        stands = last.stands ∙ ap (λ l. some (Cell.array l)) (append_assoc ws (x ∷ []) last.more);
        kept =
            KeptBut-chain cells a st next last.after (Kept→KeptBut cells a st next made.kept)
              (KeptBut-chain cells a next _ last.after pushed.kept last.kept);
        holds = (
          Holds-kept cells a before _ last.after old _ alive pushed.stands refl last.kept x t
              (Holds-kept cells a before next _ old _ alive here refl pushed.kept x t made.holds),
          last.holds,
        );
      }

  Filled-from :
      {kvs : List (RubyValue × RubyValue)} {es : Entries} {st next : Y.Store}
      {run : Built Y.Store (Unit {0})}
      → Kept cells st next
      → Filled cells before a kvs es next run
      → Filled cells before a kvs es st run
  Filled-from {st} {next} k f = record {
    more = f.more;
    after = f.after;
    ends = f.ends;
    stands = f.stands;
    kept = KeptBut-chain cells a st next f.after (Kept→KeptBut cells a st next k) f.kept;
    holds = f.holds;
  }

  module _ (rest : B Y (Unit {0})) (keys : List Key) (key : Key) (t : Tree) (es : Entries)
      (is_new : has_key key keys ≡ false)
      (others : MakesEntries cells before a (keys ++ key ∷ []) rest es) where
    -- The key and the value are there.
    put_lem :
        (k x : RubyValue) (kvs : List (RubyValue × RubyValue)) (st : Y.Store)
        → Grows cells before st
        → cells st a ≡ some (Cell.hash kvs)
        → KeysAre cells st kvs keys
        → cells st k ≡ some (key_cell key)
        → Holds cells before st x t
        → Filled cells before a kvs (Entries.entry key t es) st (rest (Y.rb_hash_aset a k x st))
    put_lem k x kvs st g here ks e h =
        let put = K.hash_aset a k x key keys kvs st here ks is_new e in
        let next = Y.rb_hash_aset a k x st in
        let grown =
          Grows-chain cells before st next g
            (KeptBut→Grows cells a st next (Cell.hash kvs) _ here refl put.stands put.kept) in
        let last = others next (kvs ++ (put.copied, x) ∷ []) grown put.stands (
          KeysAre-snoc cells next kvs keys put.copied x key
            (KeysAre-kept cells a before st next old _ alive here refl put.kept kvs keys ks)
            put.key_stands) in
        record {
          more = (put.copied, x) ∷ last.more;
          after = last.after;
          ends = last.ends;
          stands =
              last.stands
              ∙ ap (λ l. some (Cell.hash l)) (append_assoc kvs ((put.copied, x) ∷ []) last.more);
          kept = KeptBut-chain cells a st next last.after put.kept last.kept;
          holds = (
            last.kept put.copied _
                (leaf-apart cells next a put.copied _ _ put.stands refl put.key_stands
                  (key-leaf key))
                put.key_stands,
            Holds-kept cells a before next last.after old _ alive put.stands refl last.kept x t
                (Holds-kept cells a before st next old _ alive here refl put.kept x t h),
            last.holds,
          );
        }

    -- The key is made before the value.
    pub MakesEntries-key_first :
        (key_of value_of : B Y RubyValue)
        → MakesKey cells before key_of key
        → Makes cells before value_of t
        → MakesEntries cells before a keys
            (key_of >>= λ k. value_of >>= λ x. change (Y.rb_hash_aset a k x) >>= λ u. rest)
            (Entries.entry key t es)
    unfolding ◌>>=◌
    MakesEntries-key_first key_of value_of makes_key makes st kvs g e ks =
        let k = makes_key st g in
        let g1 = Grows-chain cells before st k.after g (Kept→Grows cells st k.after k.kept) in
        let v = makes k.after g1 in
        let g2 =
          Grows-chain cells before k.after v.after g1 (Kept→Grows cells k.after v.after v.kept) in
        let kept = Kept-chain cells st k.after v.after k.kept v.kept in
        rw (k.ends, v.ends)
          (Filled-from kept (
            put_lem k.object v.object kvs v.after g2 (kept a _ e)
              (KeysAre-kept cells a before st v.after old _ alive e refl
                (Kept→KeptBut cells a st v.after kept) kvs keys ks)
              (v.kept k.object _ k.stands) v.holds))

    -- The value is made before the key.
    pub MakesEntries-value_first :
        (key_of value_of : B Y RubyValue)
        → MakesKey cells before key_of key
        → Makes cells before value_of t
        → MakesEntries cells before a keys
            (value_of >>= λ x. key_of >>= λ k. change (Y.rb_hash_aset a k x) >>= λ u. rest)
            (Entries.entry key t es)
    unfolding ◌>>=◌
    MakesEntries-value_first key_of value_of makes_key makes st kvs g e ks =
        let v = makes st g in
        let g1 = Grows-chain cells before st v.after g (Kept→Grows cells st v.after v.kept) in
        let k = makes_key v.after g1 in
        let g2 =
          Grows-chain cells before v.after k.after g1 (Kept→Grows cells v.after k.after k.kept) in
        let kept = Kept-chain cells st v.after k.after v.kept k.kept in
        let here = v.kept a _ e in
        rw (v.ends, k.ends)
          (Filled-from kept (
            put_lem k.object v.object kvs k.after g2 (kept a _ e)
              (KeysAre-kept cells a before st k.after old _ alive e refl
                (Kept→KeptBut cells a st k.after kept) kvs keys ks)
              k.stands
              (Holds-kept cells a before v.after k.after old _ alive here refl
                (Kept→KeptBut cells a v.after k.after k.kept) v.object t v.holds)))

    -- The key has been there before the hash.
    pub MakesEntries-fixed :
        (k : RubyValue) (value_of : B Y RubyValue)
        → cells before k ≡ some (key_cell key)
        → Makes cells before value_of t
        → MakesEntries cells before a keys
            (value_of >>= λ x. change (Y.rb_hash_aset a k x) >>= λ u. rest)
            (Entries.entry key t es)
    unfolding ◌>>=◌
    MakesEntries-fixed k value_of stands makes st kvs g e ks =
        let v = makes st g in
        let g1 = Grows-chain cells before st v.after g (Kept→Grows cells st v.after v.kept) in
        rw v.ends (
          Filled-from v.kept (
            put_lem k v.object kvs v.after g1 (v.kept a _ e)
              (KeysAre-kept cells a before st v.after old _ alive e refl
                (Kept→KeptBut cells a st v.after v.kept) kvs keys ks)
              (g1.leaves k _ (key-leaf key) stands) v.holds))
