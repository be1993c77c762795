-- ===== src/Schema/Document.antt =====
-- From the JSON of a schema to its arena (`SchemaDocument` and the part of `SchemaCompiler::compile`
-- from the text on, in ext/rustly_core/src/schema/compiler.rs, less the summary and the plan).
pub mod Compiles
use rustly_core.Base.{String, ◌⊎◌, inl, inr, none}
use rustly_core.Json.{JsonValue}
use rustly_core.Json.Size.{size}
use rustly_core.Host.{Host}
use rustly_core.Schema.Ir.{SchemaIr}
use rustly_core.Schema.Expr.{TypeExpr}
use rustly_core.Schema.Build.{build_ir}
use rustly_core.Schema.Error.{CompileError, Compiled, ok, err, ◌>>=◌}
use rustly_core.Schema.Parse.{parse_type_expr}

pub record SchemaDocument : Type 0 where
  pub root : TypeExpr

abbrev pub root_path : String
root_path = "$"

-- `SchemaDocument::from_value`; the fuel is the size of the document.
unfoldable pub from_value : Host → JsonValue → Compiled SchemaDocument
from_value H value = do
  root ← parse_type_expr H (size value) value none root_path
  ok (record { root = root })

unfoldable pub compile_value : Host → JsonValue → Compiled SchemaIr
unfolding from_value
compile_value H value = do document ← from_value H value; ok (build_ir document.root)

-- What follows the reading of the text.
unfoldable pub compile_parsed : Host → String ⊎ JsonValue → Compiled SchemaIr
unfolding compile_value
compile_parsed H (inl message) = err (CompileError.json message)
compile_parsed H (inr value) = compile_value H value

unfoldable pub compile_source : Host → String → Compiled SchemaIr
unfolding compile_parsed
compile_source H source = compile_parsed H (H.from_str source)
