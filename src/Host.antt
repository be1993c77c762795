-- ===== src/Host.antt =====
-- What the program takes from outside: the conversions of floats, Unicode lower case, and the
-- reading and printing of JSON by `serde_json`. Nothing is assumed of them here.
use rustly_core.Base.{ℕ, String, List, Option, ◌⊎◌}
use rustly_core.Base.Int.{ℤ}
use rustly_core.Base.Float.{F64}
use rustly_core.Json.{JsonValue}

pub record Host : Type 0 where
  -- `i as f64`
  pub int_as_f64 : ℤ → F64
  -- `str::parse::<f64>`, over the characters of the text
  pub parse_f64 : List ℕ → Option F64
  -- `str::to_lowercase`
  pub to_lowercase : String → String
  -- `serde_json::from_str`: the message of an error, or the value
  pub from_str : String → String ⊎ JsonValue
  -- `Value::to_string`
  pub json_text : JsonValue → String
  -- `format!("{value:?}")`
  pub debug_text : JsonValue → String
