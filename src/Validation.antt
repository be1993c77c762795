-- ===== src/Validation.antt =====
-- The validation half of the crate: ext/rustly_core/src/validation.
pub mod Options
pub mod Value
pub mod Path
pub mod State
pub mod Format
pub mod Leaf
pub mod Engine
pub mod Spec
pub mod Result
pub mod Accepts
