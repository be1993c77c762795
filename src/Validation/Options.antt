-- ===== src/Validation/Options.antt =====
-- The options of a validation (ext/rustly_core/src/validation/options.rs).
use rustly_core.Base.{Bool, false}
use rustly_core.Schema.Ir.{ExtraBehavior}

pub data InputMode : Type 0 where
  auto json ruby : InputMode

pub data FreezeMode : Type 0 where
  deep shallow none : FreezeMode

pub record ValidationOptions : Type 0 where
  pub strict : Bool
  pub input_mode : InputMode
  pub extra_behavior : ExtraBehavior
  pub freeze : FreezeMode
  pub store_attributes : Bool

-- `ValidationOptions::default()`
abbrev pub default_options : ValidationOptions
default_options = record {
  strict = false;
  input_mode = InputMode.auto;
  extra_behavior = ExtraBehavior.forbid;
  freeze = FreezeMode.none;
  store_attributes = false;
}
