-- ===== src/Schema/Plan.antt =====
-- The plan for materialising the root struct (`MaterializePlan` and `build_materialize_plan` of
-- ext/rustly_core/src/schema/compiled.rs).
pub mod Found
use rustly_core.Base.{
  ℕ, suc, String, ◌<>◌, Bool, Option, none, some, List, [], ◌∷◌, str_eq, if◌then◌else◌,
}
use rustly_core.Base.Lists.{get_elem?}
use rustly_core.Base.Text.{codes, contains_char}
use rustly_core.Schema.Ir.{Node, StructField, SchemaIr, get}

-- `rb_intern2` and `rb_intern` of Ruby, by the text whose bytes they are given.
pub record RubyIds : Type 0 where
  pub rb_intern2 : String → ℕ
  pub rb_intern : String → ℕ

pub record MaterializeEntry : Type 0 where
  pub name : String
  pub ivar_id : ℕ
  pub symbol_id : ℕ

-- The index is a `HashMap`; the newest entry of a key stands in front.
pub record MaterializePlan : Type 0 where
  pub entries : List MaterializeEntry
  pub index : List (String × ℕ)

-- `collect` puts the entries into the map in their order.
unfoldable pub index_from : ℕ → List MaterializeEntry → List (String × ℕ) → List (String × ℕ)
index_from i [] index = index
index_from i (e ∷ es) index = index_from (suc i) es ((e.name, i) ∷ index)

-- `MaterializePlan::new`
unfoldable pub new_plan : List MaterializeEntry → MaterializePlan
unfolding index_from
new_plan entries = record { entries = entries; index = index_from 0 entries [] }

-- `HashMap::get`
unfoldable pub index_get : String → List (String × ℕ) → Option ℕ
index_get name [] = none
index_get name ((key, i) ∷ index) = if str_eq key name then some i else index_get name index

-- `&self.entries[*idx]` under `Option::map`; an index out of bounds, which would panic, is `none` too.
abbrev pub entry_at : List MaterializeEntry → Option ℕ → Option MaterializeEntry
entry_at entries none = none
entry_at entries (some i) = get_elem? entries i

-- `MaterializePlan::get`
unfoldable pub plan_get : MaterializePlan → String → Option MaterializeEntry
unfolding index_get
plan_get plan name = entry_at plan.entries (index_get name plan.index)

-- `CString::new`, which refuses a text with a NUL.
abbrev pub has_nul : String → Bool
has_nul name = contains_char 0 (codes name)

module _ (R : RubyIds) where
  abbrev pub new_entry : String → MaterializeEntry
  new_entry name = record {
    name = name;
    ivar_id = R.rb_intern ("@" <> name);
    symbol_id = R.rb_intern2 name;
  }

  -- `None` stands for the panic of `expect`.
  abbrev pub push_entry_of :
      String → Option (List MaterializeEntry) → Option (List MaterializeEntry)
  push_entry_of name none = none
  push_entry_of name (some es) = some (new_entry name ∷ es)

  -- The loop over the fields.
  unfoldable pub plan_entries : List StructField → Option (List MaterializeEntry)
  plan_entries [] = some []
  plan_entries (f ∷ fs) =
      let rest = plan_entries fs in if has_nul f.name then none else push_entry_of f.name rest

  abbrev pub new_plan_of : Option (List MaterializeEntry) → Option MaterializePlan
  new_plan_of none = none
  new_plan_of (some es) = some (new_plan es)

  abbrev pub plan_of_node : Option Node → Option MaterializePlan
  plan_of_node none = none
  plan_of_node (some (Node.struct fields extra)) = new_plan_of (plan_entries fields)
  plan_of_node (some _) = some (new_plan [])

  unfoldable pub build_materialize_plan : SchemaIr → Option MaterializePlan
  unfolding plan_entries new_plan
  build_materialize_plan ir = plan_of_node (get ir.arena ir.root)
