-- ===== src/Pipeline.antt =====
-- A schema is compiled and an input is validated against it: `SchemaCompiler::compile` of
-- ext/rustly_core/src/schema/compiler.rs, then `validate_prepared_input` of
-- ext/rustly_core/src/validation/engine.rs.
use mathlib.Core.Path.{subst}
use rustly_core.Base.{◌≤◌, ◌^◌, ◌≡◌, ap, ◌↔◌, true, some, arith}
use rustly_core.Json.{JsonValue}
use rustly_core.Json.Size.{size}
use rustly_core.Host.{Host}
use rustly_core.Schema.Ir.{SchemaIr}
use rustly_core.Schema.Expr.{TypeExpr, count}
use rustly_core.Schema.Build.{build_ir}
use rustly_core.Schema.Error.{Compiled, ok, ◌>>=◌}
use rustly_core.Schema.Parse.Shape.{Fits, IsSchema}
use rustly_core.Schema.Parse.Post.{Post}
use rustly_core.Schema.Document.{SchemaDocument, root_path, from_value, compile_value}
use rustly_core.Schema.Document.Compiles.{from_value_lem}
use rustly_core.Validation.Options.{ValidationOptions}
use rustly_core.Validation.Value.{OwnedValue}
use rustly_core.Validation.Accepts.{Accepts}
use rustly_core.Validation.Result.{
  PreparedInput, ValidationResult, is_valid, validate_prepared_input,
}
use rustly_core.Validation.Result.Verdict.{validate-decides}

-- A validation under the arena ends, and decides what the expression accepts.
abbrev pub Decides : Host → SchemaIr → TypeExpr → Type 0
Decides H ir t =
    (o : ValidationOptions) (v : OwnedValue)
    → (r : ValidationResult) × (validate_prepared_input H ir (PreparedInput.owned v) o ≡ some r)
      × ((is_valid r ≡ true) ↔ Accepts H o true t v)

-- If a JSON document of size at most 2^32 is read as a type expression, then its compilation gives
-- an arena, the enums of the expression have variants and repeat none, and under every options every
-- validation of a value against the arena ends and is valid exactly if the expression accepts it.
pub compile-Decides :
    (H : Host) (document : JsonValue) (d : SchemaDocument)
    → size document ≤ 2 ^ 32
    → from_value H document ≡ ok d
    → (ir : SchemaIr) × (compile_value H document ≡ ok ir) × IsSchema d.root × Decides H ir d.root
unfolding compile_value ◌>>=◌
compile-Decides H document d small e =
    let post =
      subst (λ m. Post root_path (λ q. Fits (size document) q.root) m) e
        (from_value_lem H document) in
    let fits = post.holds in
    let room : count d.root ≤ 2 ^ 32 = omega (arith, fits.small) in
    (
      build_ir d.root,
      ap (λ m. m >>= built) e,
      fits.schema,
      λ o v. validate-decides H o d.root room v,
    )
  where
    built : SchemaDocument → Compiled SchemaIr
    built q = ok (build_ir q.root)
