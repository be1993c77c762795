-- ===== src/Schema/Build/Correct.antt =====
-- The arena that the compiler builds holds the schema: reading it back from the root gives the type
-- expression, equal parts share one node, and children come before their parents.
use rustly_core.Base.{ℕ, suc, ◌+◌, ◌^◌, ◌≤◌, ◌<◌, ◌≡◌, refl, some, List, [], ◌∷◌, arith}
use rustly_core.Base.Lists.{get_elem?-lt}
use rustly_core.Schema.Ir.{
  NodeId, Node, StructField, SchemaArena, len, get, SchemaIr, Store, empty_store, intern,
}
use rustly_core.Schema.Expr.{TypeExpr, FieldExprs, count, count_fields}
use rustly_core.Schema.Build.{build_type_expr, build_fields, build_ir}
use rustly_core.Schema.Build.Denotes.{
  Denotes, DenotesFields, Extends-refl, Extends-trans, Denotes-Extends, DenotesFields-Extends,
}
use rustly_core.Schema.Build.Invariant.{
  AllBelow, Below, Ordered, IsStore, empty_store-IsStore, Grows, intern_lem,
}

Grows-refl : (s : Store) → IsStore s → Grows 0 s s
Grows-refl s v = record {
  valid = v;
  extends = Extends-refl s.arena;
  grown = omega arith;
  bounded = omega arith;
}

Grows-trans :
    {j k : ℕ} {s t u : Store} (l : ℕ) → j + k ≤ l → Grows j s t → Grows k t u → Grows l s u
Grows-trans l h p q = record {
  valid = q.valid;
  extends = Extends-trans p.extends q.extends;
  grown = omega arith;
  bounded = omega arith;
}

-- A type expression was built: the store grew by its nodes at most, and holds it at the number.
record Built (t : TypeExpr) (s : Store) (r : NodeId × Store) : Type 0 where
  grows : Grows (count t) s r.1
  denotes : Denotes t r.1.arena r.0

record BuiltFields (fields : FieldExprs) (s : Store) (r : List StructField × Store) : Type 0 where
  grows : Grows (count_fields fields) s r.1
  denotes : DenotesFields fields r.1.arena r.0
  below : AllBelow r.0 (len r.1.arena)

pub Denotes-lt : (t : TypeExpr) (a : SchemaArena) (i : NodeId) → Denotes t a i → i.index < len a
Denotes-lt (TypeExpr.primitive p) a i d = get_elem?-lt a.nodes i.index d
Denotes-lt (TypeExpr.enum vs) a i d = get_elem?-lt a.nodes i.index d
Denotes-lt (TypeExpr.optional t) a i (_, g, _) = get_elem?-lt a.nodes i.index g
Denotes-lt (TypeExpr.list t c) a i (_, g, _) = get_elem?-lt a.nodes i.index g
Denotes-lt (TypeExpr.dict t c) a i (_, g, _) = get_elem?-lt a.nodes i.index g
Denotes-lt (TypeExpr.struct fs ex) a i (_, g, _) = get_elem?-lt a.nodes i.index g

AllBelow-le : (fs : List StructField) (j k : ℕ) → j ≤ k → AllBelow fs j → AllBelow fs k
AllBelow-le [] j k h b = tt
AllBelow-le (f ∷ fs) j k h (b, bs) = (omega arith, AllBelow-le fs j k h bs)

Below-le : (n : Node) (j k : ℕ) → j ≤ k → Below n j → Below n k
Below-le (Node.optional i) j k h b = omega arith
Below-le (Node.list i c) j k h b = omega arith
Below-le (Node.dict i c) j k h b = omega arith
Below-le (Node.struct fs ex) j k h b = AllBelow-le fs j k h b
Below-le (Node.primitive p) j k h b = tt
Below-le (Node.enum vs) j k h b = tt

-- A node is put above an expression that was built.
above :
    (t : TypeExpr) (s : Store) (r : NodeId × Store) (n : Node)
    → Built t s r
    → len s.arena + count t < 2 ^ 32
    → Below n (suc r.0.index)
    → Grows (suc (count t)) s (intern r.1 n).1
      × (get (intern r.1 n).1.arena (intern r.1 n).0 ≡ some n)
      × Denotes t (intern r.1 n).1.arena r.0
above t s r n b room below =
    let lt = Denotes-lt t r.1.arena r.0 b.denotes in
    let (g, d) =
      intern_lem r.1 n b.grows.valid (omega (arith, b.grows.bounded)) (Below-le n _ _ lt below) in
    (Grows-trans _ (omega arith) b.grows g, d, Denotes-Extends t r.0 g.extends b.denotes)

mutual
  unfolding build_type_expr count

  build_lem :
      (t : TypeExpr) (s : Store)
      → IsStore s
      → len s.arena + count t ≤ 2 ^ 32
      → Built t s (build_type_expr t s)
  build_lem (TypeExpr.primitive p) s v room =
      let (g, d) = intern_lem s (Node.primitive p) v (omega arith) tt in
      record { grows = g; denotes = d }
  build_lem (TypeExpr.enum vs) s v room =
      let (g, d) = intern_lem s (Node.enum vs) v (omega arith) tt in
      record { grows = g; denotes = d }
  build_lem (TypeExpr.optional t) s v room =
      let r = build_type_expr t s in
      let (g, d, c) =
        above t s r (Node.optional r.0) (build_lem t s v (omega arith)) (omega arith)
          (omega arith) in
      record { grows = g; denotes = (r.0, d, c) }
  build_lem (TypeExpr.list t k) s v room =
      let r = build_type_expr t s in
      let (g, d, c) =
        above t s r (Node.list r.0 k) (build_lem t s v (omega arith)) (omega arith) (omega arith) in
      record { grows = g; denotes = (r.0, d, c) }
  build_lem (TypeExpr.dict t k) s v room =
      let r = build_type_expr t s in
      let (g, d, c) =
        above t s r (Node.dict r.0 k) (build_lem t s v (omega arith)) (omega arith) (omega arith) in
      record { grows = g; denotes = (r.0, d, c) }
  build_lem (TypeExpr.struct fields ex) s v room =
      let r = build_fields fields s in
      let b = build_fields_lem fields s v (omega arith) in
      let (g, d) =
        intern_lem r.1 (Node.struct r.0 ex) b.grows.valid (omega (arith, b.grows.bounded))
          b.below in
      record {
        grows = Grows-trans _ (omega arith) b.grows g;
        denotes = (r.0, d, DenotesFields-Extends fields r.0 g.extends b.denotes);
      }

  build_fields_lem :
      (fields : FieldExprs) (s : Store)
      → IsStore s
      → len s.arena + count_fields fields ≤ 2 ^ 32
      → BuiltFields fields s (build_fields fields s)
  build_fields_lem FieldExprs.nil s v room = record {
    grows = Grows-refl s v;
    denotes = tt;
    below = tt;
  }
  build_fields_lem (FieldExprs.field name pr t rest) s v room =
      let r = build_type_expr t s in
      let b = build_lem t s v (omega arith) in
      let q = build_fields_lem rest r.1 b.grows.valid (omega (arith, b.grows.bounded)) in
      let e = q.grows.extends in
      let d = Denotes-Extends t r.0 e b.denotes in
      record {
        grows = Grows-trans _ (omega arith) b.grows q.grows;
        denotes = (refl, refl, d, q.denotes);
        below = (Denotes-lt t (build_fields rest r.1).1.arena r.0 d, q.below);
      }

-- The arena and the root of `ir` hold the expression `t`.
pub record IsCompiled (t : TypeExpr) (ir : SchemaIr) : Type 0 where
  pub denotes : Denotes t ir.arena ir.root
  pub ordered : Ordered ir.arena
  pub unrepeated :
      (i j : NodeId) (n : Node) → get ir.arena i ≡ some n → get ir.arena j ≡ some n → i ≡ j

-- If a type expression has at most 2^32 parts, then in the arena that `build_ir` returns the root
-- reads back as the expression, every node stands behind its children, and no node occurs twice.
pub build_ir-IsCompiled : (t : TypeExpr) → count t ≤ 2 ^ 32 → IsCompiled t (build_ir t)
unfolding build_ir
build_ir-IsCompiled t room =
    let b = build_lem t empty_store empty_store-IsStore (omega arith) in
    let complete = b.grows.valid.complete in
    record {
      denotes = b.denotes;
      ordered = b.grows.valid.ordered;
      unrepeated = λ i j n p q. cc (complete n i p, complete n j q);
    }

-- The arena of a type expression of at most 2^32 parts has at most as many nodes as the expression
-- has parts.
pub len-build_ir : (t : TypeExpr) → count t ≤ 2 ^ 32 → len (build_ir t).arena ≤ count t
unfolding build_ir
len-build_ir t room =
    let b = build_lem t empty_store empty_store-IsStore (omega arith) in
    omega (arith, b.grows.bounded)
