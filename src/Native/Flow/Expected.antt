-- ===== src/Native/Flow/Expected.antt =====
-- What a validation that Ruby asks for answers, in terms of the tree that the input shows and of the
-- type expression of the schema.
use mathlib.Core.Option.{some-injective}
use rustly_core.Base.{
  ℕ, suc, ◌≤◌, ◌^◌, ◌≡◌, ◌↔◌, refl, ap, sym, ◌∙◌, Bool, true, false, some, [], ◌∷◌, arith, ◌==◌,
  if◌then◌else◌,
}
use rustly_core.Host.{Host}
use rustly_core.Ruby.{RubyValue, Reads}
use rustly_core.Input.{Prepared, prepared, refused}
use rustly_core.Input.Shape.{RubyData, Shows, objects}
use rustly_core.Input.Spec.{got, read}
use rustly_core.Input.Prepare.{prepared_reading, expected_input, prepare_input-expected}
use rustly_core.Schema.Expr.{TypeExpr, count}
use rustly_core.Schema.Build.{build_ir}
use rustly_core.Schema.Compiled.{CompiledSchema}
use rustly_core.Validation.Options.{InputMode, ValidationOptions}
use rustly_core.Validation.Value.{OwnedValue}
use rustly_core.Validation.Accepts.{Accepts}
use rustly_core.Validation.Result.{
  PreparedInput, ValidationResult, is_valid, validate_prepared_input,
}
use rustly_core.Validation.Result.Correct.{
  checked, expected, input_value, validate_prepared_input-expected,
}
use rustly_core.Validation.Result.Verdict.{validate-decides}
use rustly_core.Native.Options.{Symbols, parse_options}
use rustly_core.Native.Errors.{ErrorSet, error_set_from_issues}
use rustly_core.Native.Gvl.{
  T, pure, raise, ruby_error, continue, ◌>>=◌, stuck, Ended, ended, call_without_gvl-once,
}
use rustly_core.Native.Flow.Answer.{
  verdict, refusal, CallOptions, Passes, call_options, verdict_of-verdict, refusal_lem,
  parse_options-Passes,
}
use rustly_core.Native.Flow.{
  Verdict, valid, invalid, or_stuck, verdict_of, or_argument_error, after_prepare, validate_no_gvl,
  validate_with, validate,
}

pub continue_same :
    {A B : Type 0} {f g : A → T B} (m : Ended A)
    → ((a : A) (skip : Bool) → f a skip ≡ g a skip)
    → continue f m ≡ continue g m
continue_same (ended a skip) h = h a skip
continue_same (Ended.raised e skip) h = refl
continue_same stuck h = refl

abbrev is_valid_verdict : Ended Verdict → Bool
is_valid_verdict (ended valid skip) = true
is_valid_verdict _ = false

verdict_lem :
    (b : Bool) (set : ErrorSet) (skip : Bool)
    → (ended (if b then valid else invalid set) skip ≡ ended valid skip) ↔ (b ≡ true)
verdict_lem true set skip = (λ e. refl, λ e. refl)
verdict_lem false set skip = (λ e. ap is_valid_verdict e, λ e. absurd (no_confusion e))
  where
    no_confusion : false ≡ true → ⊥
    no_confusion e = ground arith

ended-valid :
    (r : ValidationResult) (skip : Bool) {A : Type 0}
    → (is_valid r ≡ true) ↔ A
    → (ended (verdict_of r) skip ≡ ended valid skip) ↔ A
unfolding verdict_of
ended-valid r skip h =
    let v = verdict_lem (is_valid r) (error_set_from_issues r.issues) skip in
    (λ e. h.0 (v.0 e), λ a. v.1 (h.1 a))

-- The answer to a prepared input.
abbrev pub answer : Host → ValidationOptions → TypeExpr → Prepared → T Verdict
answer H o t (prepared input) = pure (verdict (expected H o t (input_value H input)).issues)
answer H o t (refused e) = pure (invalid (record { entries = refusal e ∷ [] }))
answer H o t Prepared.raised = raise ruby_error
answer H o t Prepared.exhausted = λ skip. stuck

-- The options of a call: those of the schema, unless some are given.
abbrev pub chosen : Reads → Symbols → CompiledSchema → RubyValue → T ValidationOptions
chosen R S c opts =
    if opts == R.qnil then pure c.options else or_argument_error (parse_options R S opts)

module _ (R : Reads) (H : Host) (S : Symbols) (n fuel : ℕ) where
  pub checked-Accepts :
      (o : ValidationOptions) (t : TypeExpr)
      → count t ≤ 2 ^ 32
      → (w : OwnedValue) → (is_valid (checked H o t w) ≡ true) ↔ Accepts H o true t w
  checked-Accepts o t room w =
      let d = validate-decides H o t room w in
      let same =
        some-injective _ _
          (sym d.1 ∙ validate_prepared_input-expected H o t room (PreparedInput.owned w)) in
      rw same at d.2

  pub no_gvl_lem :
      (t : TypeExpr)
      → count t ≤ 2 ^ 32
      → (p : PreparedInput) (o : ValidationOptions) (skip : Bool)
      → validate_no_gvl R H S (some (suc n)) fuel (build_ir t) p o skip
        ≡ ended (expected H o t (input_value H p)) skip
  unfolding validate_no_gvl
  no_gvl_lem t room p o skip =
      call_without_gvl-once n (or_stuck (validate_prepared_input H (build_ir t) p o)) skip
      ∙ ap (λ r. or_stuck r skip) (validate_prepared_input-expected H o t room p)

  after_prepare_lem :
      (t : TypeExpr)
      → count t ≤ 2 ^ 32
      → (o : ValidationOptions) (p : Prepared) (skip : Bool)
      → after_prepare
          (λ p.
            validate_no_gvl R H S (some (suc n)) fuel (build_ir t) p o >>= λ r. pure (verdict_of r))
          p
          skip
        ≡ answer H o t p skip
  unfolding after_prepare ◌>>=◌
  after_prepare_lem t room o (prepared p) skip =
      ap (continue (λ r. pure (verdict_of r))) (no_gvl_lem t room p o skip)
      ∙ ap (λ v. pure v skip) (verdict_of-verdict (expected H o t (input_value H p)))
  after_prepare_lem t room o (refused e) skip = ap (λ set. pure (invalid set) skip) (refusal_lem e)
  after_prepare_lem t room o Prepared.raised skip = refl
  after_prepare_lem t room o Prepared.exhausted skip = refl

  validate_with_lem :
      (c : CompiledSchema) (t : TypeExpr)
      → c.ir ≡ build_ir t
      → count t ≤ 2 ^ 32
      → (d : RubyData) (v : RubyValue) → objects d ≤ fuel
      → Shows R v d
      → (o : ValidationOptions) (skip : Bool)
      → validate_with R H S (some (suc n)) fuel c v o skip
        ≡ answer H o t (expected_input R o.input_mode v d) skip
  unfolding validate_with
  validate_with_lem c t e room d v small s o skip =
      rw (e, prepare_input-expected R fuel o.input_mode d v small s)
        (after_prepare_lem t room o (expected_input R o.input_mode v d) skip)

  validate-chosen :
      (c : CompiledSchema) (t : TypeExpr)
      → c.ir ≡ build_ir t
      → count t ≤ 2 ^ 32
      → (d : RubyData) (input : RubyValue) → objects d ≤ fuel
      → Shows R input d
      → (opts : RubyValue) (skip : Bool)
      → validate R H S (some (suc n)) fuel c input opts skip
        ≡ continue
            (λ o. answer H o t (expected_input R o.input_mode input d))
            (chosen R S c opts skip)
  unfolding validate ◌>>=◌
  validate-chosen c t e room d input small s opts skip =
      continue_same (chosen R S c opts skip) (validate_with_lem c t e room d input small s)

  -- If a schema was compiled from a type expression of at most 2^32 parts, an input shows a tree of at
  -- most as many objects as there is fuel, a call passes no options, something that is no hash, or a hash
  -- whose options have forms that are allowed, and the function is run at least once without the lock,
  -- then `validate` answers, with the flag of the thread kept: an argument error for what is no hash; else,
  -- under the options of the schema or those of the hash and the defaults, the exception or the one error
  -- of the conversion, that the input is valid if the type expression gives no issue for it, and else
  -- its issues in their order.
  pub validate-expected :
      (c : CompiledSchema) (t : TypeExpr)
      → c.ir ≡ build_ir t
      → count t ≤ 2 ^ 32
      → (d : RubyData) (input : RubyValue) → objects d ≤ fuel
      → Shows R input d
      → (opts : RubyValue) (o : CallOptions) → Passes R S opts o
      → (skip : Bool)
      → validate R H S (some (suc n)) fuel c input opts skip
        ≡ continue
            (λ x. answer H x t (expected_input R x.input_mode input d))
            (call_options c o skip)
  validate-expected c t e room d input small s opts o passes skip =
      validate-chosen c t e room d input small s opts skip
      ∙ ap (λ m. continue (λ x. answer H x t (expected_input R x.input_mode input d)) (m skip))
          (parse_options-Passes R S c opts o passes)

  -- If a schema was compiled from a type expression of at most 2^32 parts, an input shows a tree of at
  -- most as many objects as there is fuel and is read as a value, the options of the call have the mode
  -- `ruby`, and the function is run at least once without the lock, then `validate` answers that the
  -- input is valid exactly if the type expression accepts the value.
  pub validate-Accepts :
      (c : CompiledSchema) (t : TypeExpr)
      → c.ir ≡ build_ir t
      → count t ≤ 2 ^ 32
      → (d : RubyData) (input : RubyValue) → objects d ≤ fuel
      → Shows R input d
      → (opts : RubyValue) (o : ValidationOptions) (skip : Bool)
      → chosen R S c opts skip ≡ ended o skip
      → o.input_mode ≡ InputMode.ruby
      → (w : OwnedValue) → read d [] ≡ got w
      → (validate R H S (some (suc n)) fuel c input opts skip ≡ ended valid skip)
        ↔ Accepts H o true t w
  validate-Accepts c t e room d input small s opts o skip chose mode w same =
      let taken : expected_input R o.input_mode input d ≡ prepared (PreparedInput.owned w) =
        ap (λ m. expected_input R m input d) mode ∙ ap prepared_reading same in
      let run : validate R H S (some (suc n)) fuel c input opts skip
          ≡ ended (verdict_of (checked H o t w)) skip =
        validate-chosen c t e room d input small s opts skip
        ∙ ap (continue (λ o. answer H o t (expected_input R o.input_mode input d))) chose
        ∙ ap (λ p. answer H o t p skip) taken
        ∙ ap (λ v. pure v skip) (sym (verdict_of-verdict (checked H o t w))) in
      rw run (ended-valid (checked H o t w) skip (checked-Accepts o t room w))
