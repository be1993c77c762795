-- ===== src/Schema/Build.antt =====
-- From type expressions to the arena (`build_ir` and `build_type_expr` of
-- ext/rustly_core/src/schema/compiler.rs). No branch of `build_type_expr` returns an error, so its
-- `Result` is left out.
pub mod Denotes
pub mod Invariant
pub mod Correct
pub mod Sharing
use rustly_core.Base.{List, [], ◌∷◌}
use rustly_core.Schema.Ir.{NodeId, Node, StructField, SchemaIr, Store, empty_store, intern}
use rustly_core.Schema.Expr.{TypeExpr, FieldExprs}

unfoldable mutual
  pub build_type_expr : TypeExpr → Store → NodeId × Store
  build_type_expr (TypeExpr.primitive p) s = intern s (Node.primitive p)
  build_type_expr (TypeExpr.enum variants) s = intern s (Node.enum variants)
  build_type_expr (TypeExpr.optional t) s =
      let (i, s') = build_type_expr t s in intern s' (Node.optional i)
  build_type_expr (TypeExpr.list t c) s =
      let (i, s') = build_type_expr t s in intern s' (Node.list i c)
  build_type_expr (TypeExpr.dict t c) s =
      let (i, s') = build_type_expr t s in intern s' (Node.dict i c)
  build_type_expr (TypeExpr.struct fields extra) s =
      let (fs, s') = build_fields fields s in intern s' (Node.struct fs extra)

  pub build_fields : FieldExprs → Store → List StructField × Store
  build_fields FieldExprs.nil s = ([], s)
  build_fields (FieldExprs.field name presence t rest) s =
      let (i, s') = build_type_expr t s in
      let (fs, s'') = build_fields rest s' in
      (record { name = name; presence = presence; node = i } ∷ fs, s'')

unfoldable pub build_ir : TypeExpr → SchemaIr
unfolding build_type_expr
build_ir root =
    let (i, s) = build_type_expr root empty_store in record { arena = s.arena; root = i }
