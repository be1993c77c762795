-- ===== src/Validation/Spec/Leaf.antt =====
-- The parts of the validator that look at one value do what the specification says.
use rustly_core.Base.{String, Bool, true, false, Option, none, some, List, [], ◌∷◌, if◌then◌else◌}
use rustly_core.Host.{Host}
use rustly_core.Schema.Ir.{SchemaIr, PrimitiveType}
use rustly_core.Validation.Options.{ValidationOptions}
use rustly_core.Validation.Value.{OwnedValue}
use rustly_core.Validation.State.{M, pure, ◌>>=◌}
use rustly_core.Validation.Leaf.{
  record_type_mismatch, record_coerce_failed, record_value_not_in, mismatch, coerced, coerce_bool,
  coerce_int, coerce_float, coerce_string, coerce_symbol, validate_enum, read_bool, is_variant,
  choose, choose_if,
}
use rustly_core.Validation.Engine.{validate_primitive}
use rustly_core.Validation.Spec.{
  Segments, Issues, Checked, Reading, got, mismatched, uncoercible, of_text, reading_bool,
  reading_int, reading_float, reading_string, reading_symbol, mismatch_issue, coerce_issue,
  check_reading, check_primitive, check_enum, check_variant, check_variant_if,
}
use rustly_core.Validation.Spec.Emits.{
  Emits, Emits-pure, Emits-bind, Emits-bind_quiet, Emits-bind_last, Emits-is_strict,
  Emits-push_issue,
}
use rustly_core.Validation.Spec.Constraints.{apply_int, apply_float, apply_string}

module _ (s : SchemaIr) (o : ValidationOptions) (p : Segments) where
  pub Emits-mismatch :
      {A : Type 0} (expected : String)
      → Emits s o p (mismatch {A = A} expected) none (mismatch_issue p expected ∷ [])
  unfolding mismatch record_type_mismatch
  Emits-mismatch expected =
      Emits-bind s o p _ _ (Emits-push_issue s o p _ _) (Emits-pure s o p none)

  Emits-failed :
      {A : Type 0} (v : OwnedValue)
      → Emits s o p (coerced {A = A} v none) none (coerce_issue p v ∷ [])
  unfolding coerced record_coerce_failed
  Emits-failed v = Emits-bind s o p _ _ (Emits-push_issue s o p _ _) (Emits-pure s o p none)

  abbrev reading_value : {A : Type 0} → Reading A → Option A
  reading_value (got a) = some a
  reading_value mismatched = none
  reading_value uncoercible = none

  abbrev reading_issues : {A : Type 0} → String → OwnedValue → Reading A → Issues
  reading_issues expected v (got a) = []
  reading_issues expected v mismatched = mismatch_issue p expected ∷ []
  reading_issues expected v uncoercible = coerce_issue p v ∷ []

  -- The coercion `m` of `v` does what the reading `r` says.
  abbrev Reads : {A : Type 0} → String → OwnedValue → M (Option A) → Reading A → Type 0
  Reads expected v m r = Emits s o p m (reading_value r) (reading_issues expected v r)

  text_Reads :
      {A : Type 0} (expected : String) (v : OwnedValue) (strict : Bool) (r : Option A)
      → Reads expected v (if strict then mismatch expected else coerced v r) (of_text strict r)
  unfolding coerced
  text_Reads expected v true r = Emits-mismatch expected
  text_Reads expected v false none = Emits-failed v
  text_Reads expected v false (some a) = Emits-pure s o p (some a)

  coerce_bool_Reads : (v : OwnedValue) → Reads "bool" v (coerce_bool v) (reading_bool o.strict v)
  unfolding coerce_bool
  coerce_bool_Reads (OwnedValue.bool b) = Emits-pure s o p (some b)
  coerce_bool_Reads (OwnedValue.string raw) =
      Emits-bind_quiet s o p _ _ (Emits-is_strict s o p) (text_Reads _ _ o.strict (read_bool raw))
  coerce_bool_Reads _ = Emits-mismatch "bool"

  coerce_int_Reads : (v : OwnedValue) → Reads "int" v (coerce_int v) (reading_int o.strict v)
  unfolding coerce_int
  coerce_int_Reads (OwnedValue.int i) = Emits-pure s o p (some i)
  coerce_int_Reads (OwnedValue.string raw) =
      Emits-bind_quiet s o p _ _ (Emits-is_strict s o p) (text_Reads _ _ o.strict _)
  coerce_int_Reads _ = Emits-mismatch "int"

  coerce_float_Reads :
      (H : Host) (v : OwnedValue) → Reads "float" v (coerce_float H v) (reading_float H o.strict v)
  unfolding coerce_float
  coerce_float_Reads H (OwnedValue.float f) = Emits-pure s o p (some f)
  coerce_float_Reads H (OwnedValue.int i) = Emits-pure s o p (some (H.int_as_f64 i))
  coerce_float_Reads H (OwnedValue.string raw) =
      Emits-bind_quiet s o p _ _ (Emits-is_strict s o p) (text_Reads _ _ o.strict _)
  coerce_float_Reads H _ = Emits-mismatch "float"

  coerce_string_Reads : (v : OwnedValue) → Reads "str" v (coerce_string v) (reading_string v)
  unfolding coerce_string
  coerce_string_Reads (OwnedValue.string t) = Emits-pure s o p (some t)
  coerce_string_Reads _ = Emits-mismatch "str"

  symbol_text :
      (v : OwnedValue) (strict : Bool) (t : String)
      → Reads "sym" v (if strict then mismatch "sym" else pure (some t)) (of_text strict (some t))
  symbol_text v true t = Emits-mismatch "sym"
  symbol_text v false t = Emits-pure s o p (some t)

  coerce_symbol_Reads :
      (v : OwnedValue) → Reads "sym" v (coerce_symbol v) (reading_symbol o.strict v)
  unfolding coerce_symbol
  coerce_symbol_Reads (OwnedValue.symbol t) = Emits-pure s o p (some t)
  coerce_symbol_Reads (OwnedValue.string t) =
      Emits-bind_quiet s o p _ _ (Emits-is_strict s o p) (symbol_text _ o.strict t)
  coerce_symbol_Reads _ = Emits-mismatch "sym"

  -- A coercion and what is done with its result.
  Emits-check_reading :
      {A : Type 0} (expected : String) (v : OwnedValue) (r : Reading A) (m : M (Option A))
      (f : Option A → M (Option OwnedValue)) (k : A → Checked)
      → Reads expected v m r
      → Emits s o p (f none) none []
      → ((a : A) → Emits s o p (f (some a)) (k a).0 (k a).1)
      → Emits s o p (m >>= f) (check_reading p expected v k r).0 (check_reading p expected v k r).1
  Emits-check_reading expected v (got a) m f k h n j = Emits-bind_quiet s o p m f h (j a)
  Emits-check_reading expected v mismatched m f k h n j = Emits-bind_last s o p m f h n
  Emits-check_reading expected v uncoercible m f k h n j = Emits-bind_last s o p m f h n

  pub Emits-primitive :
      (H : Host) (t : PrimitiveType) (v : OwnedValue)
      → Emits s o p
          (validate_primitive H t v)
          (check_primitive H o.strict t p v).0
          (check_primitive H o.strict t p v).1
  unfolding validate_primitive check_primitive
  Emits-primitive H PrimitiveType.any v = Emits-pure s o p (some v)
  Emits-primitive H PrimitiveType.bool v =
      Emits-check_reading "bool" v _ _ _ _ (coerce_bool_Reads v) (Emits-pure s o p none)
        (λ b. Emits-pure s o p _)
  Emits-primitive H (PrimitiveType.int c) v =
      Emits-check_reading "int" v _ _ _ _ (coerce_int_Reads v) (Emits-pure s o p none)
        (λ i. Emits-bind_last s o p _ _ (apply_int s o p i c) (Emits-pure s o p _))
  Emits-primitive H (PrimitiveType.float c) v =
      Emits-check_reading "float" v _ _ _ _ (coerce_float_Reads H v) (Emits-pure s o p none)
        (λ f. Emits-bind_last s o p _ _ (apply_float s o p f c) (Emits-pure s o p _))
  Emits-primitive H (PrimitiveType.string c) v =
      Emits-check_reading "str" v _ _ _ _ (coerce_string_Reads v) (Emits-pure s o p none)
        (λ t. Emits-bind_last s o p _ _ (apply_string s o p t c) (Emits-pure s o p _))
  Emits-primitive H PrimitiveType.symbol v =
      Emits-check_reading "sym" v _ _ _ _ (coerce_symbol_Reads v) (Emits-pure s o p none)
        (λ t. Emits-pure s o p _)

  choose_by :
      (b : Bool) (variants : List String) (t : String)
      → Emits s o p
          (choose_if b variants t)
          (check_variant_if b variants p t).0
          (check_variant_if b variants p t).1
  unfolding record_value_not_in
  choose_by true variants t = Emits-pure s o p _
  choose_by false variants t =
      Emits-bind_last s o p _ _ (Emits-push_issue s o p _ _) (Emits-pure s o p none)

  Emits-enum_text :
      (variants : List String) (strict : Bool) (v : OwnedValue) (t : String)
      → Emits s o p
          (if strict then mismatch "enum" else choose variants t)
          (check_reading p "enum" v (check_variant variants p) (of_text strict (some t))).0
          (check_reading p "enum" v (check_variant variants p) (of_text strict (some t))).1
  Emits-enum_text variants true v t = Emits-mismatch "enum"
  Emits-enum_text variants false v t = choose_by (is_variant t variants) variants t

  pub Emits-enum :
      (variants : List String) (v : OwnedValue)
      → Emits s o p
          (validate_enum variants v)
          (check_enum o.strict variants p v).0
          (check_enum o.strict variants p v).1
  unfolding validate_enum check_enum
  Emits-enum variants (OwnedValue.symbol t) = choose_by (is_variant t variants) variants t
  Emits-enum variants (OwnedValue.string t) =
      Emits-bind_quiet s o p _ _ (Emits-is_strict s o p) (Emits-enum_text variants o.strict _ t)
  Emits-enum variants _ = Emits-mismatch "enum"
