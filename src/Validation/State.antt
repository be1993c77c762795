-- ===== src/Validation/State.antt =====
-- The state of the validator and the actions on it (`Validator` of
-- ext/rustly_core/src/validation/engine.rs).
use rustly_core.Base.{String, Bool, true, false, Option, none, some, List, [], ◌∷◌, ◌++◌}
use rustly_core.Json.{JsonMap}
use rustly_core.Schema.Ir.{NodeId, Node, SchemaIr, get}
use rustly_core.Validation.Options.{ValidationOptions}
use rustly_core.Validation.Path.{PathSegment, format_path, pop}

pub record ValidationIssue : Type 0 where
  pub path : String
  pub code : String
  pub meta : JsonMap

pub record Validator : Type 0 where
  pub schema : SchemaIr
  pub options : ValidationOptions
  pub path : List PathSegment
  pub issues : List ValidationIssue

-- A `&mut self` method ends, panics, or has used up the fuel of the model.
pub data Outcome {ℓ} (A : Type ℓ) : Type ℓ where
  done : A → Validator → Outcome A
  panic timeout : Outcome A

abbrev pub M {ℓ} : Type ℓ → Type ℓ
M A = Validator → Outcome A

abbrev pub pure {ℓ} : {A : Type ℓ} → A → M A
pure a st = done a st

-- A panic ends everything.
abbrev pub continue {ℓ κ} : {A : Type ℓ} {B : Type κ} → (A → M B) → Outcome A → Outcome B
continue f (done a st) = f a st
continue f panic = panic
continue f timeout = timeout

infixl 5 ◌>>=◌ ◌>>◌
unfoldable pub ◌>>=◌ {ℓ κ} : {A : Type ℓ} {B : Type κ} → M A → (A → M B) → M B
◌>>=◌ m f st = continue f (m st)

abbrev pub ◌>>◌ {ℓ κ} : {A : Type ℓ} {B : Type κ} → M A → M B → M B
m >> n = m >>= λ _. n

-- `if test { action }`
abbrev pub when : Bool → M (Unit {0}) → M (Unit {0})
when true m = m
when false m = pure tt

-- `self.options.strict`
abbrev pub is_strict : M Bool
is_strict st = done st.options.strict st

unfoldable pub push_path : PathSegment → M (Unit {0})
push_path s st = done tt (record st { path = st.path ++ (s ∷ []) })

unfoldable pub pop_path : M (Unit {0})
pop_path st = done tt (record st { path = pop st.path })

unfoldable pub push_issue : String → JsonMap → M (Unit {0})
push_issue code meta st = done tt (record st {
  issues = st.issues ++ record { path = format_path st.path; code = code; meta = meta } ∷ [];
})

abbrev or_panic : Option Node → M Node
or_panic none st = panic
or_panic (some n) st = done n st

-- `self.schema.arena().get(node_id)`, which panics on an index out of bounds.
unfoldable pub get_node : NodeId → M Node
get_node i st = or_panic (get st.schema.arena i) st
