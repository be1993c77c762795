-- ===== src/Heap/Sequence.antt =====
-- A loop that fills a hash after another one.
use rustly_core.Base.{◌≡◌, refl, ap, ◌∙◌, Option, some, List, [], ◌∷◌, ◌++◌}
use mathlib.Core.List.{append-nil, append_assoc}
use rustly_core.Ruby.{RubyValue}
use rustly_core.Materialize.{Built, ◌>>=◌}
use rustly_core.Heap.{Cell, Key, KeysAre}
use rustly_core.Heap.Trees.{Entries, HoldsEntries, both, with_keys}
use rustly_core.Heap.Frame.{
  Grows-chain, KeptBut-chain, KeptBut→Grows, HoldsEntries-kept, KeysAre-kept,
}
use rustly_core.Heap.Makes.{MakesEntries}
use rustly_core.Heap.Loops.{KeysAre-snoc}

module _ {S : Type 0} (cells : S → RubyValue → Option Cell) (before : S) where
  KeysAre-HoldsEntries :
      (st : S) (kvs more : List (RubyValue × RubyValue)) (keys : List Key) (es : Entries)
      → KeysAre cells st kvs keys
      → HoldsEntries cells before st more es
      → KeysAre cells st (kvs ++ more) (with_keys keys es)
  KeysAre-HoldsEntries st kvs [] keys Entries.no_entries ks h = rw (append-nil kvs) ks
  KeysAre-HoldsEntries st kvs [] keys (Entries.entry k t es) ks h = absurd h
  KeysAre-HoldsEntries st kvs (kv ∷ more) keys Entries.no_entries ks h = absurd h
  KeysAre-HoldsEntries st kvs (kv ∷ more) keys (Entries.entry k t es) ks (e, h, hs) =
      rw (← append_assoc kvs (kv ∷ []) more) (
        KeysAre-HoldsEntries st (kvs ++ kv ∷ []) more (keys ++ k ∷ []) es
          (KeysAre-snoc cells st kvs keys kv.0 kv.1 k ks e) hs)

  HoldsEntries-both :
      (st : S) (kvs more : List (RubyValue × RubyValue)) (ds es : Entries)
      → HoldsEntries cells before st kvs ds
      → HoldsEntries cells before st more es
      → HoldsEntries cells before st (kvs ++ more) (both ds es)
  HoldsEntries-both st [] more Entries.no_entries es h i = i
  HoldsEntries-both st [] more (Entries.entry k t ds) es h i = absurd h
  HoldsEntries-both st (kv ∷ kvs) more Entries.no_entries es h i = absurd h
  HoldsEntries-both st (kv ∷ kvs) more (Entries.entry k t ds) es (e, h, hs) i =
      (e, h, HoldsEntries-both st kvs more ds es hs i)

  -- One loop after another.
  pub MakesEntries-seq :
      (a : RubyValue) (old : Cell)
      → cells before a ≡ some old
      → (m n : S → Built S (Unit {0})) (keys : List Key) (ds es : Entries)
      → MakesEntries cells before a keys m ds
      → MakesEntries cells before a (with_keys keys ds) n es
      → MakesEntries cells before a keys (m >>= λ u. n) (both ds es)
  unfolding ◌>>=◌
  MakesEntries-seq a old alive m n keys ds es f g st kvs grown e ks =
      let p = f st kvs grown e ks in
      let further = KeptBut→Grows cells a st p.after (Cell.hash kvs) _ e refl p.stands p.kept in
      let q =
        g p.after (kvs ++ p.more) (Grows-chain cells before st p.after grown further) p.stands (
          KeysAre-HoldsEntries p.after kvs p.more keys ds
            (KeysAre-kept cells a before st p.after old _ alive e refl p.kept kvs keys ks)
            p.holds) in
      record {
        more = p.more ++ q.more;
        after = q.after;
        ends = rw p.ends q.ends;
        stands = q.stands ∙ ap (λ l. some (Cell.hash l)) (append_assoc kvs p.more q.more);
        kept = KeptBut-chain cells a st p.after q.after p.kept q.kept;
        holds =
            HoldsEntries-both q.after p.more q.more ds es
              (HoldsEntries-kept cells a before p.after q.after old _ alive p.stands refl q.kept
                p.more ds p.holds)
              q.holds;
      }
