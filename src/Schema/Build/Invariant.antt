-- ===== src/Schema/Build/Invariant.antt =====
-- The invariant of the arena and the intern table, and that interning keeps it.
use mathlib.Core.Path.{subst, subst₂}
use rustly_core.Base.{
  ℕ, ◌+◌, ◌^◌, ◌≤◌, ◌<◌, ◌≡◌, refl, sym, ap, ◌∙◌, ◌≢◌, ◌⊎◌, inl, inr, Option, none, some, List, [],
  ◌∷◌, arith,
}
use rustly_core.Base.Lists.{
  get_elem?-append_left, get_elem?-append_cases, get_elem?-append_last, length-append,
}
use rustly_core.Schema.Ir.{
  NodeId, node_id, Node, StructField, SchemaArena, len, alloc, get, Store, known, fresh, find,
  intern, empty_store,
}
use rustly_core.Schema.Build.Denotes.{Extends, Extends-refl}

abbrev pub AllBelow : List StructField → ℕ → Type 0
AllBelow [] k = Unit {0}
AllBelow (f ∷ fs) k = (f.node.index < k) × AllBelow fs k

-- The children of a node have numbers below `k`.
abbrev pub Below : Node → ℕ → Type 0
Below (Node.primitive p) k = Unit {0}
Below (Node.enum vs) k = Unit {0}
Below (Node.optional j) k = j.index < k
Below (Node.list j c) k = j.index < k
Below (Node.dict j c) k = j.index < k
Below (Node.struct fs ex) k = AllBelow fs k

-- Every node comes after its children, so an arena holds no cycle.
abbrev pub Ordered : SchemaArena → Type 0
Ordered a = (i : NodeId) (n : Node) → get a i ≡ some n → Below n i.index

-- The table knows exactly the nodes of the arena, each by its number.
pub record IsStore (s : Store) : Type 0 where
  pub ordered : Ordered s.arena
  pub sound : (n : Node) (i : NodeId) → find n s.table.entries ≡ some i → get s.arena i ≡ some n
  pub complete : (n : Node) (i : NodeId) → get s.arena i ≡ some n → find n s.table.entries ≡ some i

pub empty_store-IsStore : IsStore empty_store
unfolding find
empty_store-IsStore = record {
  ordered = λ i n h. ground arith;
  sound = λ n i h. ground arith;
  complete = λ n i h. ground arith;
}

-- What interning a node, or building an expression of `k` nodes, does to a store.
pub record Grows (k : ℕ) (s t : Store) : Type 0 where
  pub valid : IsStore t
  pub extends : Extends s.arena t.arena
  pub grown : len s.arena ≤ len t.arena
  pub bounded : len t.arena ≤ len s.arena + k

-- What a search finds in a table with one more entry.
find-cons :
    (n m : Node) (i j : NodeId) (es : List (Node × NodeId))
    → find m ((n, i) ∷ es) ≡ some j
    → ((n ≡ m) × (i ≡ j)) ⊎ (find m es ≡ some j)
unfolding find
find-cons n m i j es h = ground arith

find-cons_self : (n : Node) (i : NodeId) (es : List (Node × NodeId)) → find n ((n, i) ∷ es) ≡ some i
unfolding find
find-cons_self n i es = ground arith

find-cons_ne :
    (n m : Node) (i : NodeId) (es : List (Node × NodeId)) → n ≢ m → find m ((n, i) ∷ es) ≡ find m es
unfolding find
find-cons_ne n m i es h = ground arith

abbrev at_index : ℕ → Option NodeId
at_index k = some (record { index = k })

module _ (s : Store) (v : IsStore s) (n : Node) (room : len s.arena < 2 ^ 32)
    (new : find n s.table.entries ≡ none) (below : Below n (len s.arena)) where
  index-alloc : (alloc s.arena n).0.index ≡ len s.arena
  unfolding alloc node_id
  index-alloc = omega arith

  get-alloc : get (alloc s.arena n).1 (alloc s.arena n).0 ≡ some n
  unfolding alloc
  get-alloc = rw index-alloc (get_elem?-append_last s.arena.nodes n)

  get-alloc_old :
      (i : NodeId) (m : Node) → get s.arena i ≡ some m → get (alloc s.arena n).1 i ≡ some m
  unfolding alloc
  get-alloc_old i m h = get_elem?-append_left s.arena.nodes (n ∷ []) i.index h

  alloc_cases :
      (i : NodeId) (m : Node)
      → get (alloc s.arena n).1 i ≡ some m
      → (get s.arena i ≡ some m) ⊎ ((i.index ≡ len s.arena) × (n ≡ m))
  unfolding alloc
  alloc_cases i m h = get_elem?-append_cases s.arena.nodes n i.index h

  fresh-IsStore : IsStore (fresh s n).1
  fresh-IsStore = record {
    ordered = λ i m h. elim (alloc_cases i m h) [
      | inl old ↦ v.ordered i m old
      | inr here ↦ subst₂ Below here.1 (sym here.0) below
    ];
    sound = λ m i h. elim (find-cons n m _ i _ h) [
      | inl here ↦ subst₂ (λ k j. get (alloc s.arena n).1 j ≡ some k) here.0 here.1 get-alloc
      | inr old ↦ get-alloc_old i m (v.sound m i old)
    ];
    complete = λ m i h. elim (alloc_cases i m h) [
      | inl old ↦
          find-cons_ne n m _ _ (λ (e : n ≡ m). cc (new, e, v.complete m i old)) ∙ v.complete m i old
      | inr here ↦
          subst (λ k. find k (fresh s n).1.table.entries ≡ some i) here.1
            (find-cons_self n _ _ ∙ ap at_index (index-alloc ∙ sym here.0))
    ];
  }

  fresh-Grows : Grows 1 s (fresh s n).1
  unfolding alloc
  fresh-Grows = record {
    valid = fresh-IsStore;
    extends = record { keeps = get-alloc_old };
    grown = omega (arith, length-append s.arena.nodes (n ∷ []));
    bounded = omega (arith, length-append s.arena.nodes (n ∷ []));
  }

known_lem :
    (o : Option NodeId) (s : Store) (n : Node)
    → find n s.table.entries ≡ o
    → IsStore s
    → len s.arena < 2 ^ 32
    → Below n (len s.arena)
    → Grows 1 s (known o s n).1 × (get (known o s n).1.arena (known o s n).0 ≡ some n)
known_lem none s n e v room below = (fresh-Grows s v n room e below, get-alloc s v n room e below)
known_lem (some i) s n e v room below = (
  record { valid = v; extends = Extends-refl s.arena; grown = omega arith; bounded = omega arith },
  v.sound n i e,
)

-- If the store has its invariant and less than 2^32 nodes, and the children of the node are in it, then
-- interning keeps the invariant and the nodes that were there, adds at most one node, and returns a
-- number at which the node stands.
pub intern_lem :
    (s : Store) (n : Node)
    → IsStore s
    → len s.arena < 2 ^ 32
    → Below n (len s.arena)
    → Grows 1 s (intern s n).1 × (get (intern s n).1.arena (intern s n).0 ≡ some n)
unfolding intern
intern_lem s n = known_lem (find n s.table.entries) s n refl
