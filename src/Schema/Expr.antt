-- ===== src/Schema/Expr.antt =====
-- The type expressions that a schema document is parsed into
-- (`TypeExpr` and `FieldExpr` of ext/rustly_core/src/schema/compiler.rs).
use rustly_core.Base.{ℕ, suc, ◌+◌, String, List}
use rustly_core.Schema.Ir.{PrimitiveType, CollectionConstraints, ExtraBehavior, StructFieldPresence}

-- `FieldExprs` is `Vec<FieldExpr>`.
mutual
  pub data TypeExpr : Type 0 where
    primitive : PrimitiveType → TypeExpr
    enum : List String → TypeExpr
    optional : TypeExpr → TypeExpr
    list : TypeExpr → CollectionConstraints → TypeExpr
    dict : TypeExpr → CollectionConstraints → TypeExpr
    struct : FieldExprs → ExtraBehavior → TypeExpr

  pub data FieldExprs : Type 0 where
    nil : FieldExprs
    field : String → StructFieldPresence → TypeExpr → FieldExprs → FieldExprs

-- The number of type expressions in an expression, itself included.
unfoldable mutual
  pub count : TypeExpr → ℕ
  count (primitive p) = 1
  count (enum vs) = 1
  count (optional t) = suc (count t)
  count (list t c) = suc (count t)
  count (dict t c) = suc (count t)
  count (struct fs ex) = suc (count_fields fs)

  pub count_fields : FieldExprs → ℕ
  count_fields nil = 0
  count_fields (field name pr t fs) = count t + count_fields fs
