-- ===== src/Schema.antt =====
-- The schema half of the crate: schema/ir.rs, schema/compiler.rs and schema/compiled.rs.
pub mod Ir
pub mod Expr
pub mod Build
pub mod Error
pub mod Options
pub mod Enums
pub mod Holders
pub mod Parse
pub mod Document
pub mod Plan
pub mod Compiled
pub mod Summary
