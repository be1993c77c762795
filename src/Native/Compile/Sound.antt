-- ===== src/Native/Compile/Sound.antt =====
-- What `compile` gives for the text of a schema.
use rustly_core.Base.{
  ℕ, ◌+◌, ◌%◌, ◌^◌, ◌≤◌, String, ◌≡◌, ◌⊎◌, inl, inr, refl, ap, ◌∙◌, Bool, true, Option, none, some,
  arith, if◌then◌else◌,
}
use rustly_core.Json.{JsonValue}
use rustly_core.Json.Size.{size}
use rustly_core.Host.{Host}
use rustly_core.Ruby.{RubyValue, Reads, CText}
use rustly_core.Schema.Ir.{SchemaIr}
use rustly_core.Schema.Expr.{count}
use rustly_core.Schema.Error.{CompileError, Compiled, ok, err, exhausted}
use rustly_core.Schema.Build.{build_ir}
use rustly_core.Schema.Document.{SchemaDocument, root_path, from_value}
use rustly_core.Schema.Document.Compiles.{from_value_lem}
use rustly_core.Schema.Parse.Shape.{Fits, IsSchema}
use rustly_core.Schema.Parse.Post.{Post, Under}
use rustly_core.Schema.Plan.{RubyIds, MaterializePlan, new_plan, build_materialize_plan}
use rustly_core.Schema.Plan.Found.{root_names, any_nul, entries_of, build_materialize_plan_lem}
use rustly_core.Schema.Summary.{summary_from_value}
use rustly_core.Schema.Compiled.{CompiledSchema}
use rustly_core.Validation.Options.{ValidationOptions}
use rustly_core.Native.Options.{parsed, Symbols, parse_options}
use rustly_core.Native.Errors.{argument_message}
use rustly_core.Native.Gvl.{T, pure, continue, ◌>>=◌, stuck, raised, argument_error}
use rustly_core.Native.Flow.{or_argument_error, raise_argument_error}
use rustly_core.Native.Compile.{
  Generate, is_string, coerce, ruby_string, error_text, try_compiled, or_argument_text, set_options,
  finish_schema, compile_schema, compile,
}

-- The schema and the counter after it, if there are a summary and a plan; else the code panics.
abbrev pub made :
    ℕ
    → ValidationOptions
    → SchemaIr
    → Option String
    → Option MaterializePlan
    → T (CompiledSchema × ℕ)
made counter o ir (some summary) (some plan) = pure (
  record { id = counter; summary = summary; ir = ir; plan = plan; options = o },
  (counter + 1) % 2 ^ 64,
)
made counter o ir (some summary) none = λ skip. stuck
made counter o ir none plan = λ skip. stuck

-- The text of an object that is a string.
pub record IsText (R : Reads) (ast : RubyValue) (s : String) : Type 0 where
  pub string : is_string R ast ≡ true
  pub text : R.rb_string_value_cstr ast ≡ CText.text s

module _ (R : Reads) (H : Host) (I : RubyIds) (generate : Generate) (S : Symbols) where
  abbrev pub plan_for : SchemaDocument → Option MaterializePlan
  plan_for d =
      if any_nul (root_names d.root)
      then none
      else some (new_plan (entries_of I (root_names d.root)))

  -- The outcome of `compile` for what the reading of the document gives.
  abbrev pub outcome :
      ℕ → ValidationOptions → JsonValue → Compiled SchemaDocument → T (CompiledSchema × ℕ)
  outcome counter o value (ok d) =
      made counter o (build_ir d.root) (summary_from_value H value)
        (build_materialize_plan I (build_ir d.root))
  outcome counter o value (err e) = raise_argument_error (error_text e)
  outcome counter o value exhausted = λ skip. stuck

  finish_lem :
      (counter : ℕ) (o : ValidationOptions) (value : JsonValue) (d : SchemaDocument) (skip : Bool)
      (summary : Option String) (plan : Option MaterializePlan)
      → summary_from_value H value ≡ summary
      → build_materialize_plan I (build_ir d.root) ≡ plan
      → continue
          (λ c. pure (set_options o c))
          (continue or_argument_text (finish_schema R H I generate counter value d skip))
        ≡ made counter o (build_ir d.root) summary plan skip
  unfolding finish_schema ◌>>=◌
  finish_lem counter o value d skip (some s) (some p) e f = rw (e, f)
  finish_lem counter o value d skip (some s) none e f = rw (e, f)
  finish_lem counter o value d skip none p e f = rw e

  made_lem :
      (counter : ℕ) (o : ValidationOptions) (value : JsonValue) (r : Compiled SchemaDocument)
      (skip : Bool)
      → continue
          (λ c. pure (set_options o c))
          (continue or_argument_text
            (try_compiled r (finish_schema R H I generate counter value) skip))
        ≡ outcome counter o value r skip
  unfolding raise_argument_error
  made_lem counter o value (ok d) skip = finish_lem counter o value d skip _ _ refl refl
  made_lem counter o value (err e) skip = refl
  made_lem counter o value exhausted skip = refl

  pub compile-outcome :
      (counter : ℕ) (ast opts : RubyValue) (o : ValidationOptions) (s : String) (value : JsonValue)
      (skip : Bool)
      → parse_options R S opts ≡ parsed o
      → IsText R ast s
      → H.from_str s ≡ inr value
      → compile R H I generate S counter ast opts skip
        ≡ outcome counter o value (from_value H value) skip
  unfolding compile compile_schema or_argument_error coerce ruby_string ◌>>=◌
  compile-outcome counter ast opts o s value skip p t f =
      rw (p, t.string, t.text, f) (made_lem counter o value (from_value H value) skip)

  -- A schema whose text is refused, with the error of its reading.
  abbrev pub Refused : ℕ → RubyValue → RubyValue → JsonValue → Bool → Type 0
  Refused counter ast opts value skip =
      (e : CompileError) × (from_value H value ≡ err e)
      × Under root_path e
      × (compile R H I generate S counter ast opts skip
          ≡ raised (argument_error (argument_message (error_text e))) skip)

  -- A schema that is compiled, if its text has a summary and a plan.
  abbrev pub Taken : ℕ → RubyValue → RubyValue → ValidationOptions → JsonValue → Bool → Type 0
  Taken counter ast opts o value skip =
      (d : SchemaDocument) × (from_value H value ≡ ok d)
      × IsSchema d.root
      × (compile R H I generate S counter ast opts skip
          ≡ made counter o (build_ir d.root) (summary_from_value H value) (plan_for d) skip)

  read_cases :
      (counter : ℕ) (ast opts : RubyValue) (o : ValidationOptions) (value : JsonValue) (skip : Bool)
      → size value ≤ 2 ^ 32
      → (r : Compiled SchemaDocument) → from_value H value ≡ r
      → Post root_path (λ d. Fits (size value) d.root) r
      → compile R H I generate S counter ast opts skip ≡ outcome counter o value r skip
      → Refused counter ast opts value skip ⊎ Taken counter ast opts o value skip
  unfolding raise_argument_error
  read_cases counter ast opts o value skip small (err e) same post run =
      inl (e, same, post.holds, run)
  read_cases counter ast opts o value skip small (ok d) same post run =
      let room : count d.root ≤ 2 ^ 32 = omega (arith, small, post.holds.small) in
      let plan =
        ap (λ p. made counter o (build_ir d.root) (summary_from_value H value) p skip)
          (build_materialize_plan_lem I d.root room) in
      inr (d, same, post.holds.schema, run ∙ plan)
  read_cases counter ast opts o value skip small exhausted same post run = absurd post.holds

  -- If the options of a call of `compile` are read, and the schema is a string with the text of a JSON
  -- document of size at most 2^32, then the call is left by an argument error with the text of the
  -- error of the document, whose path begins with `$`; or it ends with the schema under the next id,
  -- with its arena, with the options, and with a plan that has an entry for each field of the root
  -- struct, except that it panics where the text has no summary or a field of the root has a NUL.
  pub compile-outcomes :
      (counter : ℕ) (ast opts : RubyValue) (o : ValidationOptions) (s : String) (value : JsonValue)
      (skip : Bool)
      → parse_options R S opts ≡ parsed o
      → IsText R ast s
      → H.from_str s ≡ inr value
      → size value ≤ 2 ^ 32
      → Refused counter ast opts value skip ⊎ Taken counter ast opts o value skip
  compile-outcomes counter ast opts o s value skip p t f small =
      read_cases counter ast opts o value skip small (from_value H value) refl
        (from_value_lem H value) (compile-outcome counter ast opts o s value skip p t f)
