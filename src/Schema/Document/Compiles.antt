-- ===== src/Schema/Document/Compiles.antt =====
-- A compilation ends, and what it returns is a well-formed schema in a well-formed arena.
use rustly_core.Base.{◌≤◌, ◌^◌, none, arith}
use rustly_core.Json.{JsonValue}
use rustly_core.Json.Size.{size}
use rustly_core.Host.{Host}
use rustly_core.Schema.Ir.{SchemaIr}
use rustly_core.Schema.Expr.{TypeExpr, count}
use rustly_core.Schema.Build.Correct.{IsCompiled, build_ir-IsCompiled}
use rustly_core.Schema.Parse.Post.{Post, Post-ok, Post-bind}
use rustly_core.Schema.Parse.Shape.{Fits, IsSchema}
use rustly_core.Schema.Parse.Total.{parse_type_expr_lem}
use rustly_core.Schema.Document.{root_path, from_value, compile_value}

pub from_value_lem :
    (H : Host) (v : JsonValue) → Post root_path (λ d. Fits (size v) d.root) (from_value H v)
unfolding from_value
from_value_lem H v =
    Post-bind (parse_type_expr_lem H (size v) v none root_path (omega arith))
      (λ t f. Post-ok (record { small = omega (arith, f.small); schema = f.schema }))

-- The arena holds a well-formed type expression.
pub record IsSound (ir : SchemaIr) : Type 0 where
  pub root : TypeExpr
  pub schema : IsSchema root
  pub compiled : IsCompiled root ir

-- The compilation of a JSON document of size at most 2^32 ends with an error whose path begins with
-- `$`, or with the arena of a type expression whose enums have variants and repeat none; the root
-- reads back as that expression, children stand before their parents, and no node occurs twice.
pub compile_value_lem :
    (H : Host) (v : JsonValue) → size v ≤ 2 ^ 32 → Post root_path IsSound (compile_value H v)
unfolding compile_value
compile_value_lem H v small = Post-bind (from_value_lem H v) (λ d f.
    let room : count d.root ≤ 2 ^ 32 = omega (arith, f.small) in
    Post-ok
      (record { root = d.root; schema = f.schema; compiled = build_ir-IsCompiled d.root room }))
