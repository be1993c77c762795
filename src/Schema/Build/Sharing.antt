-- ===== src/Schema/Build/Sharing.antt =====
-- Hash consing: equal parts of a schema share one node, and a node stands for one expression.
use rustly_core.Base.{◌≤◌, ◌^◌, ◌≡◌, refl, some, List, [], ◌∷◌, arith}
use rustly_core.Schema.Ir.{NodeId, Node, StructField, SchemaArena, get}
use rustly_core.Schema.Expr.{TypeExpr, FieldExprs, count}
use rustly_core.Schema.Build.{build_ir}
use rustly_core.Schema.Build.Denotes.{Denotes, DenotesFields}
use rustly_core.Schema.Build.Correct.{build_ir-IsCompiled}

module _ (a : SchemaArena)
    (unrepeated : (i j : NodeId) (n : Node) → get a i ≡ some n → get a j ≡ some n → i ≡ j) where
  mutual
    same_node : (t : TypeExpr) (i j : NodeId) → Denotes t a i → Denotes t a j → i ≡ j
    same_node (TypeExpr.primitive p) i j d e = unrepeated i j _ d e
    same_node (TypeExpr.enum vs) i j d e = unrepeated i j _ d e
    same_node (TypeExpr.optional t) i j (k, g, d) (l, h, e) =
        unrepeated i j (Node.optional k) g (cc (h, same_node t k l d e))
    same_node (TypeExpr.list t c) i j (k, g, d) (l, h, e) =
        unrepeated i j (Node.list k c) g (cc (h, same_node t k l d e))
    same_node (TypeExpr.dict t c) i j (k, g, d) (l, h, e) =
        unrepeated i j (Node.dict k c) g (cc (h, same_node t k l d e))
    same_node (TypeExpr.struct fields ex) i j (fs, g, d) (gs, h, e) =
        unrepeated i j (Node.struct fs ex) g (cc (h, same_fields fields fs gs d e))

    same_fields :
        (fields : FieldExprs) (fs gs : List StructField)
        → DenotesFields fields a fs
        → DenotesFields fields a gs
        → fs ≡ gs
    same_fields FieldExprs.nil [] [] d e = refl
    same_fields FieldExprs.nil [] (g ∷ gs) d e = absurd e
    same_fields FieldExprs.nil (f ∷ fs) gs d e = absurd d
    same_fields (FieldExprs.field name pr t rest) [] gs d e = absurd d
    same_fields (FieldExprs.field name pr t rest) (f ∷ fs) [] d e = absurd e
    same_fields (FieldExprs.field name pr t rest) (f ∷ fs) (g ∷ gs) (p, q, d, r) (p', q', e, r') =
        let h = same_node t f.node g.node d e in
        let k = same_fields rest fs gs r r' in ground (arith, h, k)

-- In the arena of a type expression of at most 2^32 parts, two nodes that stand for the same
-- expression are the same node.
pub build_ir-shares :
    (t : TypeExpr)
    → count t ≤ 2 ^ 32
    → (u : TypeExpr) (i j : NodeId) → Denotes u (build_ir t).arena i
    → Denotes u (build_ir t).arena j
    → i ≡ j
build_ir-shares t room = same_node (build_ir t).arena (build_ir-IsCompiled t room).unrepeated
