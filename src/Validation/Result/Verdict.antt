-- ===== src/Validation/Result/Verdict.antt =====
-- What the caller of a validation may rely on, for schemas that were compiled.
use mathlib.Core.Option.{some-injective}
use rustly_core.Base.{
  ◌≤◌, ◌^◌, ◌≡◌, refl, sym, ap, ◌∙◌, ◌↔◌, true, Option, none, some, List, [], ◌∷◌, arith,
}
use rustly_core.Host.{Host}
use rustly_core.Schema.Ir.{ExtraBehavior}
use rustly_core.Schema.Expr.{TypeExpr, FieldExprs, count}
use rustly_core.Schema.Build.{build_ir}
use rustly_core.Validation.Options.{ValidationOptions}
use rustly_core.Validation.Value.{OwnedValue}
use rustly_core.Validation.State.{ValidationIssue}
use rustly_core.Validation.Spec.{check}
use rustly_core.Validation.Accepts.{Accepts, Conforms}
use rustly_core.Validation.Accepts.Values.{Silent, Gives}
use rustly_core.Validation.Accepts.Decides.{silent}
use rustly_core.Validation.Accepts.Sound.{gives}
use rustly_core.Validation.Result.{
  PreparedInput, ValidationResult, finished, is_valid, validate_prepared_input,
}
use rustly_core.Validation.Result.Correct.{
  validate_prepared_input-expected, checked, expected, input_value,
}

finished-valid :
    (output : Option OwnedValue) (is : List ValidationIssue) {P : Type 0}
    → Silent is P
    → (is_valid (finished output is) ≡ true) ↔ P
finished-valid output [] h = (λ e. h.0 refl, λ q. refl)
finished-valid output (i ∷ is) h = (λ e. ground arith, λ q. absurd (cons_not_nil (h.1 q)))
  where
    cons_not_nil : i ∷ is ≡ [] → ⊥
    cons_not_nil e = ground arith

finished-output :
    (output : Option OwnedValue) (is : List ValidationIssue) {C : OwnedValue → Type 0}
    → Gives [] (output, is) C
    → is_valid (finished output is) ≡ true
    → (w : OwnedValue) × ((finished output is).output ≡ some w) × C w
finished-output output [] h e = h refl
finished-output output (i ∷ is) h e = ground arith

module _ (H : Host) (o : ValidationOptions) (t : TypeExpr) (room : count t ≤ 2 ^ 32) where
  -- A validation of a value under a compiled schema of at most 2^32 parts ends with a result, and
  -- the result is valid exactly if the type expression accepts the value.
  pub validate-decides :
      (v : OwnedValue)
      → (r : ValidationResult) × (validate_prepared_input H (build_ir t) (PreparedInput.owned v) o
          ≡ some r)
        × ((is_valid r ≡ true) ↔ Accepts H o true t v)
  validate-decides v = (
    checked H o t v,
    validate_prepared_input-expected H o t room (PreparedInput.owned v),
    finished-valid _ _ (silent H o t [] v),
  )

  -- If a validation of a value under a compiled schema of at most 2^32 parts gives a valid result,
  -- the result has an output, and the output conforms to the type expression: the types, bounds,
  -- sizes, formats, fields and extra keys are as the schema says.
  pub validate-Conforms :
      (v : OwnedValue) (r : ValidationResult)
      → validate_prepared_input H (build_ir t) (PreparedInput.owned v) o ≡ some r
      → is_valid r ≡ true
      → (w : OwnedValue) × (r.output ≡ some w) × Conforms o true t w
  validate-Conforms v r e valid =
      let same =
        some-injective _ _
          (sym e ∙ validate_prepared_input-expected H o t room (PreparedInput.owned v)) in
      rw same (finished-output _ _ (gives H o t [] v) (rw same at valid))

expected_same :
    (H : Host) (o : ValidationOptions) (fields : FieldExprs) (a b : ExtraBehavior)
    (v : Option OwnedValue)
    → expected H o (TypeExpr.struct fields a) v ≡ expected H o (TypeExpr.struct fields b) v
unfolding check
expected_same H o fields a b none = refl
expected_same H o fields a b (some v) = refl

-- At the root the schema's own policy on extra keys has no effect: two schemas of at most 2^32
-- parts that differ in it alone give the same result on every input.
pub root_extra_ignored :
    (H : Host) (o : ValidationOptions) (fields : FieldExprs) (a b : ExtraBehavior)
    → count (TypeExpr.struct fields a) ≤ 2 ^ 32
    → (input : PreparedInput)
    → validate_prepared_input H (build_ir (TypeExpr.struct fields a)) input o
      ≡ validate_prepared_input H (build_ir (TypeExpr.struct fields b)) input o
unfolding count
root_extra_ignored H o fields a b room input =
    validate_prepared_input-expected H o (TypeExpr.struct fields a) room input
    ∙ ap some (expected_same H o fields a b (input_value H input))
    ∙ sym (validate_prepared_input-expected H o (TypeExpr.struct fields b) room input)
