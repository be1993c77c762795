-- ===== src/Schema/Plan/Found.antt =====
-- What a plan holds, and what is found in it.
use rustly_core.Base.{
  ℕ, suc, ◌+◌, ◌≤◌, ◌^◌, String, ◌≡◌, refl, ◌∙◌, ap, Bool, Bool-cases, true, false, ◌||◌, inl, inr,
  Option, none, some, List, [], ◌∷◌, str_eq, if◌then◌else◌, arith,
}
use rustly_core.Base.Lists.{get_elem?}
use rustly_core.Schema.Ir.{StructField, SchemaIr}
use rustly_core.Schema.Expr.{TypeExpr, count}
use rustly_core.Schema.Build.{build_ir}
use rustly_core.Schema.Build.Denotes.{Denotes}
use rustly_core.Validation.Engine.{field_names}
use rustly_core.Validation.Spec.{expr_names}
use rustly_core.Validation.Spec.Refines.{field_names-eq}
use rustly_core.Schema.Build.Correct.{build_ir-IsCompiled}
use rustly_core.Schema.Plan.{
  RubyIds, MaterializeEntry, index_from, new_plan, index_get, entry_at, plan_get, has_nul,
  new_entry, plan_entries, new_plan_of, plan_of_node, build_materialize_plan,
}

abbrev pub or_entry : Option MaterializeEntry → Option MaterializeEntry → Option MaterializeEntry
or_entry none o = o
or_entry (some e) o = some e

-- The last entry of a name.
abbrev pub last_named : String → List MaterializeEntry → Option MaterializeEntry
last_named name [] = none
last_named name (e ∷ es) =
    or_entry (last_named name es) (if str_eq e.name name then some e else none)

or_entry_assoc :
    (a b c : Option MaterializeEntry) → or_entry a (or_entry b c) ≡ or_entry (or_entry a b) c
or_entry_assoc none b c = refl
or_entry_assoc (some e) b c = refl

found_lem :
    (name : String) (all : List MaterializeEntry) (i : ℕ) (es : List MaterializeEntry)
    (index : List (String × ℕ))
    → ((j : ℕ) → get_elem? all (i + j) ≡ get_elem? es j)
    → entry_at all (index_get name (index_from i es index))
      ≡ or_entry (last_named name es) (entry_at all (index_get name index))
unfolding index_get index_from
found_lem name all i [] index at = refl
found_lem name all i (e ∷ es) index at =
    found_lem name all (suc i) es ((e.name, i) ∷ index)
      (λ j. ap (get_elem? all) (shift j) ∙ at (suc j))
    ∙ ap (or_entry (last_named name es)) (top (str_eq e.name name))
    ∙ or_entry_assoc (last_named name es) _ _
  where
    shift : (j : ℕ) → suc i + j ≡ i + suc j
    shift j = omega arith

    here : get_elem? all i ≡ some e
    here = ap (get_elem? all) (omega arith) ∙ at 0

    top :
        (b : Bool)
        → entry_at all (if b then some i else index_get name index)
          ≡ or_entry (if b then some e else none) (entry_at all (index_get name index))
    top true = here
    top false = refl

-- A plan of some entries gives the last of them that has the name, if there is one.
pub plan_get-new_plan :
    (entries : List MaterializeEntry) (name : String)
    → plan_get (new_plan entries) name ≡ last_named name entries
unfolding plan_get new_plan
plan_get-new_plan entries name =
    found_lem name entries 0 entries [] (λ j. ap (get_elem? entries) (omega arith))
    ∙ or_none (last_named name entries)
  where
    or_none : (o : Option MaterializeEntry) → or_entry o none ≡ o
    or_none none = refl
    or_none (some e) = refl

-- The names of the fields at the root.
abbrev pub root_names : TypeExpr → List String
root_names (TypeExpr.struct fields extra) = expr_names fields
root_names _ = []

abbrev pub any_nul : List String → Bool
any_nul [] = false
any_nul (n ∷ ns) = has_nul n || any_nul ns

module _ (R : RubyIds) where
  abbrev pub entries_of : List String → List MaterializeEntry
  entries_of [] = []
  entries_of (n ∷ ns) = new_entry R n ∷ entries_of ns

  entries_lem :
      (fs : List StructField)
      → plan_entries R fs
        ≡ (if any_nul (field_names fs) then none else some (entries_of (field_names fs)))
  unfolding plan_entries
  entries_lem [] = refl
  entries_lem (f ∷ fs) =
      let rest = entries_lem fs in
      elim (Bool-cases (has_nul f.name)) [
        | inl e ↦ ground (arith, e)
        | inr e ↦ elim (Bool-cases (any_nul (field_names fs))) [
          | inl g ↦ ground (arith, e, g, rest)
          | inr g ↦ ground (arith, e, g, rest)
        ]
      ]

  if_plan :
      (b : Bool) (es : List MaterializeEntry)
      → new_plan_of R (if b then none else some es) ≡ (if b then none else some (new_plan es))
  if_plan true es = refl
  if_plan false es = refl

  plan_lem :
      (t : TypeExpr) (ir : SchemaIr)
      → Denotes t ir.arena ir.root
      → build_materialize_plan R ir
        ≡ (if any_nul (root_names t) then none else some (new_plan (entries_of (root_names t))))
  unfolding build_materialize_plan
  plan_lem (TypeExpr.primitive p) ir d = ap (plan_of_node R) d
  plan_lem (TypeExpr.enum vs) ir d = ap (plan_of_node R) d
  plan_lem (TypeExpr.optional t) ir (j, g, d) = ap (plan_of_node R) g
  plan_lem (TypeExpr.list t c) ir (j, g, d) = ap (plan_of_node R) g
  plan_lem (TypeExpr.dict t c) ir (j, g, d) = ap (plan_of_node R) g
  plan_lem (TypeExpr.struct fields extra) ir (fs, g, d) =
      ap (plan_of_node R) g
      ∙ ap (new_plan_of R) (entries_lem fs)
      ∙ rw (field_names-eq fields ir.arena fs d)
          (if_plan (any_nul (expr_names fields)) (entries_of (expr_names fields)))

  pub build_materialize_plan_lem :
      (t : TypeExpr)
      → count t ≤ 2 ^ 32
      → build_materialize_plan R (build_ir t)
        ≡ (if any_nul (root_names t) then none else some (new_plan (entries_of (root_names t))))
  build_materialize_plan_lem t room = plan_lem t (build_ir t) (build_ir-IsCompiled t room).denotes
