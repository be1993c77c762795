-- ===== src/Native/Compile/Decides.antt =====
-- The schemas that `compile` gives decide as the type expression of the text does.
use mathlib.Core.Path.{subst}
use rustly_core.Base.{
  ℕ, suc, ◌^◌, ◌≤◌, String, ◌≡◌, inl, inr, ◌↔◌, refl, ap, sym, ◌∙◌, Bool, true, false, Option, none,
  some, [], arith, ◌==◌,
}
use rustly_core.Json.{JsonValue}
use rustly_core.Json.Size.{size}
use rustly_core.Host.{Host}
use rustly_core.Ruby.{RubyValue, Reads}
use rustly_core.Input.Shape.{RubyData, Shows, objects}
use rustly_core.Input.Spec.{got, read}
use rustly_core.Schema.Ir.{SchemaIr}
use rustly_core.Schema.Expr.{count}
use rustly_core.Schema.Error.{ok}
use rustly_core.Schema.Build.{build_ir}
use rustly_core.Schema.Document.{SchemaDocument, root_path, from_value}
use rustly_core.Schema.Document.Compiles.{from_value_lem}
use rustly_core.Schema.Parse.Shape.{Fits, IsSchema}
use rustly_core.Schema.Parse.Post.{Post}
use rustly_core.Schema.Plan.{RubyIds, MaterializePlan}
use rustly_core.Schema.Compiled.{CompiledSchema}
use rustly_core.Validation.Options.{InputMode, ValidationOptions}
use rustly_core.Validation.Value.{OwnedValue}
use rustly_core.Validation.Accepts.{Accepts}
use rustly_core.Native.Options.{parsed, Symbols, parse_options}
use rustly_core.Native.Errors.{argument_message}
use rustly_core.Native.Gvl.{stuck, Ended, ended, raised, argument_error}
use rustly_core.Native.Flow.{valid, validate}
use rustly_core.Native.Flow.Expected.{chosen, validate-Accepts}
use rustly_core.Native.Compile.{Generate, error_text, compile}
use rustly_core.Native.Compile.Sound.{made, IsText, compile-outcomes}

abbrev has_ended : Ended (CompiledSchema × ℕ) → Bool
has_ended (ended c skip) = true
has_ended _ = false

abbrev schema_of : CompiledSchema → Ended (CompiledSchema × ℕ) → CompiledSchema
schema_of c (ended x skip) = x.0
schema_of c _ = c

not_ended : (m : Ended (CompiledSchema × ℕ)) → has_ended m ≡ true → has_ended m ≡ false → ⊥
not_ended m e f = ground (arith, e, f)

made-ended :
    (counter : ℕ) (o : ValidationOptions) (ir : SchemaIr) (summary : Option String)
    (plan : Option MaterializePlan) (c : CompiledSchema) (next : ℕ) (before after : Bool)
    → made counter o ir summary plan before ≡ ended (c, next) after
    → (ir ≡ c.ir) × (o ≡ c.options)
made-ended counter o ir (some s) (some p) c next before after e =
    let same = ap (schema_of c) e in (ap (λ x. x.ir) same, ap (λ x. x.options) same)
made-ended counter o ir (some s) none c next before after e =
    absurd (not_ended stuck (ap has_ended e) refl)
made-ended counter o ir none p c next before after e =
    absurd (not_ended stuck (ap has_ended e) refl)

module _ (R : Reads) (H : Host) (I : RubyIds) (generate : Generate) (S : Symbols) where
  own_options :
      (c : CompiledSchema) (o : ValidationOptions) (skip : Bool)
      → o ≡ c.options
      → chosen R S c R.qnil skip ≡ ended o skip
  own_options c o skip same = rw (eq_refl R.qnil) (ap (λ x. ended x skip) (sym same))
    where
      eq_refl : (v : ℕ) → (v == v) ≡ true
      eq_refl v = ground arith

  -- If a call of `compile`, whose options are read and have the mode `ruby` and whose schema is a string
  -- with the text of a JSON document of size at most 2^32, ends with a schema, then it has read a type
  -- expression, and for every input that shows a tree of at most as many objects as there is fuel and
  -- that is read as a value, `validate` without options answers that it is valid exactly if that type
  -- expression accepts the value; the function is run at least once without the lock.
  pub compile-validates :
      (counter : ℕ) (ast opts : RubyValue) (o : ValidationOptions) (s : String) (value : JsonValue)
      → parse_options R S opts ≡ parsed o
      → IsText R ast s
      → H.from_str s ≡ inr value
      → size value ≤ 2 ^ 32
      → o.input_mode ≡ InputMode.ruby
      → (c : CompiledSchema) (next : ℕ) (before after : Bool)
      → compile R H I generate S counter ast opts before ≡ ended (c, next) after
      → (n fuel : ℕ) (tree : RubyData) (input : RubyValue) → objects tree ≤ fuel
      → Shows R input tree
      → (w : OwnedValue) → read tree [] ≡ got w
      → (skip : Bool)
      → (d : SchemaDocument) × (from_value H value ≡ ok d)
        × IsSchema d.root
        × ((validate R H S (some (suc n)) fuel c input R.qnil skip ≡ ended valid skip)
            ↔ Accepts H o true d.root w)
  compile-validates counter ast opts o s value p t f small mode c next before after run n fuel tree
        input enough shows w same skip =
      elim (compile-outcomes R H I generate S counter ast opts o s value before p t f small) [
        | inl (e, q, u, r) ↦ absurd (
            not_ended (raised (argument_error (argument_message (error_text e))) before)
              (ap has_ended (sym r ∙ run)) refl)
        | inr (d, q, schema, r) ↦
            let made =
              made-ended counter o (build_ir d.root) _ _ c next before after (sym r ∙ run) in
            let post =
              subst (λ m. Post root_path (λ q. Fits (size value) q.root) m) q
                (from_value_lem H value) in
            let room : count d.root ≤ 2 ^ 32 = omega (arith, small, post.holds.small) in
            (
              d,
              q,
              schema,
              validate-Accepts R H S n fuel c d.root (sym made.0) room tree input enough shows
                  R.qnil o skip (own_options c o skip made.1) mode w same,
            )
      ]
