-- ===== src/Schema/Error.antt =====
-- The errors of a compilation (`CompileError` of ext/rustly_core/src/schema/compiler.rs).
use rustly_core.Base.{String, Option, none, some}

pub data CompileError : Type 0 where
  json_conversion : String → CompileError
  invalid_schema : String → String → CompileError
  json : String → CompileError

-- A `Result`, or the fuel of the model has run out.
pub data Compiled {ℓ} (A : Type ℓ) : Type ℓ where
  ok : A → Compiled A
  err : CompileError → Compiled A
  exhausted : Compiled A

-- `?`
infixl 5 ◌>>=◌
unfoldable pub ◌>>=◌ {ℓ κ} : {A : Type ℓ} {B : Type κ} → Compiled A → (A → Compiled B) → Compiled B
ok a >>= f = f a
err e >>= f = err e
exhausted >>= f = exhausted

-- `CompileError::invalid`
unfoldable pub invalid {ℓ} : {A : Type ℓ} → String → String → Compiled A
invalid path message = err (invalid_schema path message)

-- `ok_or_else(|| CompileError::invalid(path, message))`
unfoldable pub or_invalid {ℓ} : {A : Type ℓ} → Option A → String → String → Compiled A
unfolding invalid
or_invalid none path message = invalid path message
or_invalid (some a) path message = ok a
