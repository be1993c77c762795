-- ===== src/Native.antt =====
-- The methods that Ruby calls (ext/rustly_core/src/lib.rs) and what they stand on.
pub mod Options
pub mod Errors
pub mod Messages
pub mod TypedData
pub mod Methods
pub mod Init
pub mod Gvl
pub mod Flow
pub mod Compile
pub mod Build
