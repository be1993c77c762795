-- ===== src/Native/Build/Conforms.antt =====
-- What `build` makes of an input.
use mathlib.Core.Path.{subst}
use rustly_core.Base.{
  ℕ, suc, ◌≤◌, ◌^◌, ◌≡◌, refl, ap, sym, ◌∙◌, Bool, true, false, Option, none, some, [], ◌⊎◌, inl,
  inr, Bool-cases, arith,
}
use rustly_core.Host.{Host}
use rustly_core.Ruby.{RubyValue}
use rustly_core.Input.{prepared, prepare_input}
use rustly_core.Input.Shape.{RubyData, Shows, objects}
use rustly_core.Input.Spec.{got, read}
use rustly_core.Input.Prepare.{prepared_reading, expected_input, prepare_input-expected}
use rustly_core.Schema.Expr.{TypeExpr, count}
use rustly_core.Schema.Build.{build_ir}
use rustly_core.Schema.Compiled.{CompiledSchema}
use rustly_core.Validation.Options.{InputMode}
use rustly_core.Validation.Value.{OwnedValue}
use rustly_core.Validation.Accepts.{Accepts, Conforms}
use rustly_core.Validation.Result.{
  PreparedInput, ValidationResult, is_valid, validate_prepared_input,
}
use rustly_core.Validation.Result.Correct.{
  checked, expected, input_value, validate_prepared_input-expected,
}
use rustly_core.Validation.Result.Verdict.{validate-Conforms}
use rustly_core.Materialize.{RubyHeap}
use rustly_core.Materialize.Instance.{materialize_instance}
use rustly_core.Native.Options.{Symbols}
use rustly_core.Native.Gvl.{
  validation_error, T, continue, ended, raised, restore, ◌>>=◌, call_without_gvl-once,
  execute_with_gvl-nested,
}
use rustly_core.Native.Flow.{or_stuck, validate_no_gvl}
use rustly_core.Native.Flow.Answer.{entries_of, error_set_from_issues-entries_of}
use rustly_core.Native.Build.Ends.{EndsBy, instance_or_raise-EndsBy}
use rustly_core.Native.Flow.Expected.{continue_same, no_gvl_lem, checked-Accepts}
use rustly_core.Native.Build.{
  prepared_or_raise, instance_or_raise, output_or_raise, validate_by, build_internal, build,
  build_synced,
}

module _ (Y : RubyHeap) (H : Host) (S : Symbols) (n fuel deep : ℕ) where
  -- What is made of the output of a validation.
  abbrev pub made :
      CompiledSchema → RubyValue → Option ℕ → Y.Store → OwnedValue → T (RubyValue × Y.Store)
  made c klass attr st w = instance_or_raise (
      materialize_instance Y deep klass attr w c.plan c.options.freeze c.options.store_attributes
        st)

  restored :
      {A : Type 0} (o : Option A) (skip : Bool) → restore skip (or_stuck o true) ≡ or_stuck o skip
  restored none skip = refl
  restored (some a) skip = refl

  synced_lem :
      (st : Y.Store) (c : CompiledSchema) (p : PreparedInput) (skip : Bool)
      → validate_by Y H S (some (suc n)) fuel deep true st c p skip
        ≡ validate_by Y H S (some (suc n)) fuel deep false st c p skip
  unfolding validate_by validate_no_gvl
  synced_lem st c p skip =
      let result = or_stuck (validate_prepared_input H c.ir p c.options) in
      call_without_gvl-once n result skip
      ∙ sym (restored (validate_prepared_input H c.ir p c.options) skip)
      ∙ sym (execute_with_gvl-nested (some (suc n)) result skip)

  -- If `rb_thread_call_without_gvl` runs its function at least once, then `build` and `build_synced` do
  -- the same: the same object and heap, or the same exception, with the same flag of the thread.
  pub build-build_synced :
      (c : CompiledSchema) (input klass : RubyValue) (attr : Option ℕ) (st : Y.Store) (skip : Bool)
      → build Y H S (some (suc n)) fuel deep c input klass attr st skip
        ≡ build_synced Y H S (some (suc n)) fuel deep c input klass attr st skip
  unfolding build build_synced build_internal ◌>>=◌
  build-build_synced c input klass attr st skip =
      continue_same
        (prepared_or_raise (prepare_input (Y.reads st) fuel input c.options.input_mode) skip)
        (λ p s.
          ap (λ m. continue (made c klass attr st) (continue output_or_raise m))
            (synced_lem st c p s))

  checked_lem :
      (c : CompiledSchema) (t : TypeExpr)
      → c.ir ≡ build_ir t
      → count t ≤ 2 ^ 32
      → (input klass : RubyValue) (attr : Option ℕ) (st : Y.Store) (skip : Bool) (p : PreparedInput)
      → prepare_input (Y.reads st) fuel input c.options.input_mode ≡ prepared p
      → build Y H S (some (suc n)) fuel deep c input klass attr st skip
        ≡ continue
            (made c klass attr st)
            (output_or_raise (expected H c.options t (input_value H p)) skip)
  unfolding build build_internal prepared_or_raise validate_by ◌>>=◌
  checked_lem c t e room input klass attr st skip p same = rw same (
      ap (λ m. continue (made c klass attr st) (continue output_or_raise m))
        (ap (λ ir. validate_no_gvl (Y.reads st) H S (some (suc n)) fuel ir p c.options skip) e
          ∙ no_gvl_lem (Y.reads st) H S n fuel t room p c.options skip))

  prepared_lem :
      (d : RubyData) (input : RubyValue) (st : Y.Store) (mode : InputMode)
      → objects d ≤ fuel
      → Shows (Y.reads st) input d
      → mode ≡ InputMode.ruby
      → (w : OwnedValue) → read d [] ≡ got w
      → prepare_input (Y.reads st) fuel input mode ≡ prepared (PreparedInput.owned w)
  prepared_lem d input st mode enough shows m w same =
      prepare_input-expected (Y.reads st) fuel mode d input enough shows
      ∙ ap (λ x. expected_input (Y.reads st) x input d) m
      ∙ ap prepared_reading same

  -- The input conforms after its coercions, and `build` ends by what conforms.
  abbrev pub IsBuilt :
      CompiledSchema → TypeExpr → RubyValue → RubyValue → Option ℕ → Y.Store → Bool → Type 0
  IsBuilt c t input klass attr st skip =
      (u : OwnedValue) × Conforms c.options true t u
      × EndsBy Y deep c klass attr st skip u
          (build Y H S (some (suc n)) fuel deep c input klass attr st skip)

  -- The exception carries the issues of the specification.
  abbrev pub IsRaised :
      CompiledSchema
      → TypeExpr
      → OwnedValue
      → RubyValue
      → RubyValue
      → Option ℕ
      → Y.Store
      → Bool
      → Type 0
  IsRaised c t w input klass attr st skip =
      build Y H S (some (suc n)) fuel deep c input klass attr st skip
      ≡ raised (validation_error (record { entries = entries_of (checked H c.options t w).issues }))
          skip

  output_lem :
      (r : ValidationResult) (u : OwnedValue) (skip : Bool)
      → is_valid r ≡ true
      → r.output ≡ some u
      → output_or_raise r skip ≡ ended u skip
  unfolding output_or_raise
  output_lem r u skip e f = rw (e, f)

  issues_lem :
      (r : ValidationResult) (skip : Bool)
      → is_valid r ≡ false
      → output_or_raise r skip
        ≡ raised (validation_error (record { entries = entries_of r.issues })) skip
  unfolding output_or_raise
  issues_lem r skip e =
      rw e
        (ap (λ set. raised (validation_error set) skip) (error_set_from_issues-entries_of r.issues))

  -- If a schema was compiled from a type expression of at most 2^32 parts, its options have the mode
  -- `ruby`, an input shows a tree of at most as many objects as there is fuel and is read as a value, and
  -- the function is run at least once without the lock, then either the type expression accepts the
  -- value, and `build` ends by an output that conforms to it: for a struct as `materialize_instance` ends
  -- on it under the plan and the options of the schema, with its object and heap, its failure as the one
  -- entry of a validation error, or the exception of Ruby; for any other value by a validation error
  -- that a struct was expected and not this kind of value. Or the type expression does not accept
  -- the value, and `build` is left by a validation error with the issues of the specification in their
  -- order. It never lacks an output.
  pub build-Conforms :
      (c : CompiledSchema) (t : TypeExpr)
      → c.ir ≡ build_ir t
      → count t ≤ 2 ^ 32
      → c.options.input_mode ≡ InputMode.ruby
      → (d : RubyData) (input klass : RubyValue) (attr : Option ℕ) (st : Y.Store) (skip : Bool)
      → objects d ≤ fuel
      → Shows (Y.reads st) input d
      → (w : OwnedValue) → read d [] ≡ got w
      → (Accepts H c.options true t w × IsBuilt c t input klass attr st skip)
        ⊎ ((Accepts H c.options true t w → ⊥) × IsRaised c t w input klass attr st skip)
  build-Conforms c t e room mode d input klass attr st skip enough shows w same =
      let r = checked H c.options t w in
      let accepts = checked-Accepts (Y.reads st) H S n fuel c.options t room w in
      let ready = prepared_lem d input st c.options.input_mode enough shows mode w same in
      let run = checked_lem c t e room input klass attr st skip (PreparedInput.owned w) ready in
      elim (Bool-cases (is_valid r)) [
        | inl valid ↦
            let (u, output, conforms) =
              validate-Conforms H c.options t room w r
                (validate_prepared_input-expected H c.options t room (PreparedInput.owned w))
                valid in
            inl (
              accepts.0 valid,
              (
                u,
                conforms,
                subst (EndsBy Y deep c klass attr st skip u)
                    (sym (
                      run
                      ∙ ap (continue (made c klass attr st)) (output_lem r u skip valid output)))
                    (instance_or_raise-EndsBy Y deep c klass attr st skip u),
              ),
            )
        | inr invalid ↦ inr (
          λ a. not_both _ (accepts.1 a) invalid,
          run ∙ ap (continue (made c klass attr st)) (issues_lem r skip invalid),
        )
      ]
    where
      not_both : (b : Bool) → b ≡ true → b ≡ false → ⊥
      not_both b p q = ground (arith, p, q)
