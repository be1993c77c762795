-- ===== src/Schema/Build/Denotes.antt =====
-- What a node of an arena stands for: the type expression that is read off from it.
use rustly_core.Base.{◌≡◌, some, List, [], ◌∷◌}
use rustly_core.Schema.Ir.{NodeId, Node, StructField, SchemaArena, get}
use rustly_core.Schema.Expr.{TypeExpr, FieldExprs}

abbrev mutual
  pub Denotes : TypeExpr → SchemaArena → NodeId → Type 0
  Denotes (TypeExpr.primitive p) a i = get a i ≡ some (Node.primitive p)
  Denotes (TypeExpr.enum vs) a i = get a i ≡ some (Node.enum vs)
  Denotes (TypeExpr.optional t) a i =
      (j : NodeId) × (get a i ≡ some (Node.optional j)) × Denotes t a j
  Denotes (TypeExpr.list t c) a i = (j : NodeId) × (get a i ≡ some (Node.list j c)) × Denotes t a j
  Denotes (TypeExpr.dict t c) a i = (j : NodeId) × (get a i ≡ some (Node.dict j c)) × Denotes t a j
  Denotes (TypeExpr.struct fields ex) a i =
      (fs : List StructField) × (get a i ≡ some (Node.struct fs ex)) × DenotesFields fields a fs

  pub DenotesFields : FieldExprs → SchemaArena → List StructField → Type 0
  DenotesFields FieldExprs.nil a [] = Unit {0}
  DenotesFields FieldExprs.nil a (f ∷ fs) = ⊥
  DenotesFields (FieldExprs.field name presence t rest) a [] = ⊥
  DenotesFields (FieldExprs.field name presence t rest) a (f ∷ fs) =
      (f.name ≡ name) × (f.presence ≡ presence) × Denotes t a f.node × DenotesFields rest a fs

-- Everything that stands in `a` stands at the same place in `b`.
pub record Extends (a b : SchemaArena) : Type 0 where
  pub keeps : (i : NodeId) (n : Node) → get a i ≡ some n → get b i ≡ some n

pub Extends-refl : (a : SchemaArena) → Extends a a
Extends-refl a = record { keeps = λ i n h. h }

pub Extends-trans : {a b c : SchemaArena} → Extends a b → Extends b c → Extends a c
Extends-trans p q = record { keeps = λ i n h. q.keeps i n (p.keeps i n h) }

mutual
  pub Denotes-Extends :
      (t : TypeExpr) {a b : SchemaArena} (i : NodeId) → Extends a b → Denotes t a i → Denotes t b i
  Denotes-Extends (TypeExpr.primitive p) i e d = e.keeps _ _ d
  Denotes-Extends (TypeExpr.enum vs) i e d = e.keeps _ _ d
  Denotes-Extends (TypeExpr.optional t) i e (j, g, d) = (j, e.keeps _ _ g, Denotes-Extends t j e d)
  Denotes-Extends (TypeExpr.list t c) i e (j, g, d) = (j, e.keeps _ _ g, Denotes-Extends t j e d)
  Denotes-Extends (TypeExpr.dict t c) i e (j, g, d) = (j, e.keeps _ _ g, Denotes-Extends t j e d)
  Denotes-Extends (TypeExpr.struct fields ex) i e (fs, g, d) =
      (fs, e.keeps _ _ g, DenotesFields-Extends fields fs e d)

  pub DenotesFields-Extends :
      (fields : FieldExprs) {a b : SchemaArena} (fs : List StructField)
      → Extends a b
      → DenotesFields fields a fs
      → DenotesFields fields b fs
  DenotesFields-Extends FieldExprs.nil [] e d = d
  DenotesFields-Extends FieldExprs.nil (f ∷ fs) e d = d
  DenotesFields-Extends (FieldExprs.field name pr t rest) [] e d = d
  DenotesFields-Extends (FieldExprs.field name pr t rest) (f ∷ fs) e (p, q, d, r) =
      (p, q, Denotes-Extends t f.node e d, DenotesFields-Extends rest fs e r)
