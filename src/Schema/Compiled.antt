-- ===== src/Schema/Compiled.antt =====
-- A compiled schema (`CompiledSchema` of ext/rustly_core/src/schema/compiled.rs) with the counter
-- `NEXT_SCHEMA_ID`, an `AtomicU64`, as the state. The `Arc` around the arena is memory alone.
use rustly_core.Base.{ℕ, ◌+◌, ◌%◌, ◌^◌, String}
use rustly_core.Schema.Ir.{SchemaIr}
use rustly_core.Schema.Plan.{MaterializePlan}
use rustly_core.Validation.Options.{ValidationOptions, default_options}

pub record CompiledSchema : Type 0 where
  pub id : ℕ
  pub summary : String
  pub ir : SchemaIr
  pub plan : MaterializePlan
  pub options : ValidationOptions

-- `NEXT_SCHEMA_ID.fetch_add(1)`: the id, and the counter after it.
abbrev pub next_id : ℕ → ℕ × ℕ
next_id counter = (counter, (counter + 1) % 2 ^ 64)

-- `CompiledSchema::new`
abbrev pub new_schema : ℕ → String → SchemaIr → MaterializePlan → CompiledSchema
new_schema id summary ir plan = record {
  id = id;
  summary = summary;
  ir = ir;
  plan = plan;
  options = default_options;
}
