-- ===== src/Validation/Accepts/Values.antt =====
-- The checks of single values report nothing exactly where the predicates hold, and deliver what
-- conforms.
use mathlib.Core.List.{append-eq-nil_iff}
use text.Mathlib.TextEquality.{eq_iff}
use rustly_core.Base.{
  ℕ, ◌≤◌, ◌≡◌, refl, ◌↔◌, String, Bool, true, false, not, Option, none, some, List, [], ◌∷◌, ◌++◌,
  ltb, arith,
}
use rustly_core.Base.Int.{ℤ, lt_int}
use rustly_core.Base.Float.{F64, lt_float}
use rustly_core.Host.{Host}
use rustly_core.Schema.Ir.{
  IntConstraints, FloatConstraints, StringConstraints, StringFormat, PrimitiveType,
}
use rustly_core.Validation.Value.{OwnedValue}
use rustly_core.Validation.State.{ValidationIssue}
use rustly_core.Validation.Leaf.{is_variant, char_count}
use rustly_core.Validation.Spec.{
  Segments, Issues, Checked, raise, int_issues, int_min_issues, int_max_issues, float_issues,
  float_min_issues, float_max_issues, min_size_issues, max_size_issues, format_issues,
  string_issues, has_format, Reading, got, mismatched, uncoercible, reading_bool, reading_int,
  reading_float, reading_string, reading_symbol, check_reading, check_primitive, check_enum,
  check_variant, check_variant_if,
}
use rustly_core.Validation.Accepts.{
  Bounded, IntWithin, FloatWithin, SizeWithin, StringWithin, OneOf, Reads, AcceptsPrimitive,
  ConformsPrimitive, ConformsEnum,
}

-- The list of issues is empty exactly if `P`.
abbrev pub Silent : Issues → Type 0 → Type 0
Silent is P = (is ≡ []) ↔ P

pub Silent-append :
    (x y : Issues) {P Q : Type 0} → Silent x P → Silent y Q → Silent (x ++ y) (P × Q)
Silent-append x y h k = (
  λ e. let (a, b) = append-eq-nil_iff.0 e in (h.0 a, k.0 b),
  λ (p, q). append-eq-nil_iff.1 (h.1 p, k.1 q),
)

Silent-raise : (b : Bool) (i : ValidationIssue) → Silent (raise b i) (b ≡ false)
Silent-raise true i = (λ e. ground arith, λ e. ground arith)
Silent-raise false i = (λ e. refl, λ e. refl)

pub Silent-nil : Silent [] (Unit {0})
Silent-nil = (λ e. tt, λ t. refl)

not-false : (b : Bool) → (not b ≡ false) ↔ (b ≡ true)
not-false true = (λ e. refl, λ e. refl)
not-false false = (λ e. ground arith, λ e. ground arith)

ltb-false : (a b : ℕ) → (ltb a b ≡ false) ↔ (b ≤ a)
ltb-false a b = (λ e. ground arith, λ e. ground arith)

pub through : {P Q R : Type 0} → P ↔ Q → Q ↔ R → P ↔ R
through h k = (λ p. k.0 (h.0 p), λ r. h.1 (k.1 r))

is_variant_iff : (s : String) (vs : List String) → (is_variant s vs ≡ true) ↔ OneOf s vs
unfolding is_variant
is_variant_iff s [] = (λ e. ground arith, λ h. absurd h)
is_variant_iff s (v ∷ vs) = ground (arith, eq_iff v s, is_variant_iff s vs)

module _ (p : Segments) where
  int_min :
      (c : Option ℤ) (v : ℤ) → Silent (int_min_issues p c v) (Bounded (λ m. lt_int v m ≡ false) c)
  int_min none v = Silent-nil
  int_min (some m) v = Silent-raise _ _

  int_max :
      (c : Option ℤ) (v : ℤ) → Silent (int_max_issues p c v) (Bounded (λ m. lt_int m v ≡ false) c)
  int_max none v = Silent-nil
  int_max (some m) v = Silent-raise _ _

  Silent-int : (c : IntConstraints) (v : ℤ) → Silent (int_issues p c v) (IntWithin c v)
  Silent-int c v = Silent-append _ _ (int_min c.min v) (int_max c.max v)

  float_min :
      (c : Option F64) (v : F64)
      → Silent (float_min_issues p c v) (Bounded (λ m. lt_float v m ≡ false) c)
  float_min none v = Silent-nil
  float_min (some m) v = Silent-raise _ _

  float_max :
      (c : Option F64) (v : F64)
      → Silent (float_max_issues p c v) (Bounded (λ m. lt_float m v ≡ false) c)
  float_max none v = Silent-nil
  float_max (some m) v = Silent-raise _ _

  Silent-float : (c : FloatConstraints) (v : F64) → Silent (float_issues p c v) (FloatWithin c v)
  Silent-float c v = Silent-append _ _ (float_min c.min v) (float_max c.max v)

  min_size : (c : Option ℕ) (n : ℕ) → Silent (min_size_issues p c n) (Bounded (λ m. m ≤ n) c)
  min_size none n = Silent-nil
  min_size (some m) n = through (Silent-raise _ _) (ltb-false n m)

  max_size : (c : Option ℕ) (n : ℕ) → Silent (max_size_issues p c n) (Bounded (λ m. n ≤ m) c)
  max_size none n = Silent-nil
  max_size (some m) n = through (Silent-raise _ _) (ltb-false m n)

  pub Silent-size :
      (min max : Option ℕ) (n : ℕ)
      → Silent (min_size_issues p min n ++ max_size_issues p max n) (SizeWithin min max n)
  Silent-size min max n = Silent-append _ _ (min_size min n) (max_size max n)

  format :
      (c : Option StringFormat) (s : String)
      → Silent (format_issues p c s) (Bounded (λ f. has_format f s ≡ true) c)
  format none s = Silent-nil
  format (some f) s = through (Silent-raise _ _) (not-false (has_format f s))

  Silent-string :
      (c : StringConstraints) (s : String) → Silent (string_issues p c s) (StringWithin c s)
  Silent-string c s =
      let h =
        Silent-append _ _ (min_size c.min_size (char_count s))
          (Silent-append _ _ (max_size c.max_size (char_count s)) (format c.format s)) in
      (λ e. let (a, b) = h.0 e in ((a, b.0), b.1), λ (q, r). h.1 (q.0, (q.1, r)))

  -- A check after a coercion is silent if the coercion reads the value and what follows is silent.
  Silent-reading :
      {A : Type 0} (expected : String) (v : OwnedValue) (k : A → Checked) (r : Reading A)
      (P : A → Type 0)
      → ((a : A) → Silent (k a).1 (P a))
      → Silent (check_reading p expected v k r).1 (Reads r P)
  Silent-reading expected v k (got a) P h = h a
  Silent-reading expected v k mismatched P h = (λ e. ground arith, λ b. absurd b)
  Silent-reading expected v k uncoercible P h = (λ e. ground arith, λ b. absurd b)

  -- The check of a primitive reports nothing exactly if the primitive accepts the value.
  pub Silent-primitive :
      (H : Host) (strict : Bool) (t : PrimitiveType) (v : OwnedValue)
      → Silent (check_primitive H strict t p v).1 (AcceptsPrimitive H strict t v)
  unfolding check_primitive
  Silent-primitive H strict PrimitiveType.any v = Silent-nil
  Silent-primitive H strict PrimitiveType.bool v =
      Silent-reading "bool" v _ (reading_bool strict v) _ (λ b. Silent-nil)
  Silent-primitive H strict (PrimitiveType.int c) v =
      Silent-reading "int" v _ (reading_int strict v) _ (Silent-int c)
  Silent-primitive H strict (PrimitiveType.float c) v =
      Silent-reading "float" v _ (reading_float H strict v) _ (Silent-float c)
  Silent-primitive H strict (PrimitiveType.string c) v =
      Silent-reading "str" v _ (reading_string v) _ (Silent-string c)
  Silent-primitive H strict PrimitiveType.symbol v =
      Silent-reading "sym" v _ (reading_symbol strict v) _ (λ s. Silent-nil)

  variant_by :
      (b : Bool) (variants : List String) (s : String)
      → Silent (check_variant_if b variants p s).1 (b ≡ true)
  variant_by true variants s = (λ e. refl, λ e. refl)
  variant_by false variants s = (λ e. ground arith, λ e. ground arith)

  Silent-variant :
      (variants : List String) (s : String)
      → Silent (check_variant variants p s).1 (OneOf s variants)
  Silent-variant variants s =
      through (variant_by (is_variant s variants) variants s) (is_variant_iff s variants)

  pub Silent-enum :
      (strict : Bool) (variants : List String) (v : OwnedValue)
      → Silent
          (check_enum strict variants p v).1
          (Reads (reading_symbol strict v) (λ s. OneOf s variants))
  unfolding check_enum
  Silent-enum strict variants v =
      Silent-reading "enum" v _ (reading_symbol strict v) _ (Silent-variant variants)

  -- A check that reports nothing delivers a value with the property.
  abbrev pub Gives : Checked → (OwnedValue → Type 0) → Type 0
  Gives r C = r.1 ≡ [] → (w : OwnedValue) × (r.0 ≡ some w) × C w

  Gives-reading :
      {A : Type 0} (expected : String) (v : OwnedValue) (k : A → Checked) (r : Reading A)
      (C : OwnedValue → Type 0)
      → ((a : A) → Gives (k a) C)
      → Gives (check_reading p expected v k r) C
  Gives-reading expected v k (got a) C h e = h a e
  Gives-reading expected v k mismatched C h e = ground arith
  Gives-reading expected v k uncoercible C h e = ground arith

  pub Gives-primitive :
      (H : Host) (strict : Bool) (t : PrimitiveType) (v : OwnedValue)
      → Gives (check_primitive H strict t p v) (ConformsPrimitive t)
  unfolding check_primitive
  Gives-primitive H strict PrimitiveType.any v = λ e. (v, refl, tt)
  Gives-primitive H strict PrimitiveType.bool v =
      Gives-reading "bool" v _ (reading_bool strict v) (ConformsPrimitive PrimitiveType.bool)
        (λ b e. (OwnedValue.bool b, refl, tt))
  Gives-primitive H strict (PrimitiveType.int c) v =
      Gives-reading "int" v _ (reading_int strict v) (ConformsPrimitive (PrimitiveType.int c))
        (λ i e. (OwnedValue.int i, refl, (Silent-int c i).0 e))
  Gives-primitive H strict (PrimitiveType.float c) v =
      Gives-reading "float" v _ (reading_float H strict v)
        (ConformsPrimitive (PrimitiveType.float c))
        (λ f e. (OwnedValue.float f, refl, (Silent-float c f).0 e))
  Gives-primitive H strict (PrimitiveType.string c) v =
      Gives-reading "str" v _ (reading_string v) (ConformsPrimitive (PrimitiveType.string c))
        (λ s e. (OwnedValue.string s, refl, (Silent-string c s).0 e))
  Gives-primitive H strict PrimitiveType.symbol v =
      Gives-reading "sym" v _ (reading_symbol strict v) (ConformsPrimitive PrimitiveType.symbol)
        (λ s e. (OwnedValue.symbol s, refl, tt))

  variant_gives :
      (b : Bool) (variants : List String) (s : String)
      → (b ≡ true → OneOf s variants)
      → Gives (check_variant_if b variants p s) (ConformsEnum variants)
  variant_gives true variants s h e = (OwnedValue.symbol s, refl, h refl)
  variant_gives false variants s h e = ground arith

  pub Gives-enum :
      (strict : Bool) (variants : List String) (v : OwnedValue)
      → Gives (check_enum strict variants p v) (ConformsEnum variants)
  unfolding check_enum
  Gives-enum strict variants v =
      Gives-reading "enum" v _ (reading_symbol strict v) (ConformsEnum variants)
        (λ s. variant_gives (is_variant s variants) variants s (is_variant_iff s variants).0)
