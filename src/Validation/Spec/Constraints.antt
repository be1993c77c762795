-- ===== src/Validation/Spec/Constraints.antt =====
-- The constraints give the issues of the specification (ext/rustly_core/src/validation/engine.rs).
use rustly_core.Base.{ℕ, String, Option, none, some}
use rustly_core.Base.Int.{ℤ}
use rustly_core.Base.Float.{F64}
use rustly_core.Schema.Ir.{
  SchemaIr, IntConstraints, FloatConstraints, StringConstraints, CollectionConstraints,
  StringFormat,
}
use rustly_core.Validation.Options.{ValidationOptions}
use rustly_core.Validation.Leaf.{
  apply_int_constraints, apply_float_constraints, apply_string_constraints,
  apply_collection_constraints, apply_format, check_min_size, check_max_size, check_format,
  check_int_min, check_int_max, check_float_min, check_float_max, record_format_invalid,
}
use rustly_core.Validation.Spec.{
  Segments, int_issues, int_min_issues, int_max_issues, float_issues, float_min_issues,
  float_max_issues, string_issues, size_issues, min_size_issues, max_size_issues, format_issues,
}
use rustly_core.Validation.Spec.Emits.{Emits, Emits-pure, Emits-bind, Emits-when}

module _ (s : SchemaIr) (o : ValidationOptions) (p : Segments) where
  int_min : (c : Option ℤ) (v : ℤ) → Emits s o p (check_int_min c v) tt (int_min_issues p c v)
  unfolding check_int_min
  int_min none v = Emits-pure s o p tt
  int_min (some m) v = Emits-when s o p _ _ _

  int_max : (c : Option ℤ) (v : ℤ) → Emits s o p (check_int_max c v) tt (int_max_issues p c v)
  unfolding check_int_max
  int_max none v = Emits-pure s o p tt
  int_max (some m) v = Emits-when s o p _ _ _

  pub apply_int :
      (v : ℤ) (c : IntConstraints) → Emits s o p (apply_int_constraints v c) tt (int_issues p c v)
  unfolding apply_int_constraints
  apply_int v c = Emits-bind s o p _ _ (int_min c.min v) (int_max c.max v)

  float_min :
      (c : Option F64) (v : F64) → Emits s o p (check_float_min c v) tt (float_min_issues p c v)
  unfolding check_float_min
  float_min none v = Emits-pure s o p tt
  float_min (some m) v = Emits-when s o p _ _ _

  float_max :
      (c : Option F64) (v : F64) → Emits s o p (check_float_max c v) tt (float_max_issues p c v)
  unfolding check_float_max
  float_max none v = Emits-pure s o p tt
  float_max (some m) v = Emits-when s o p _ _ _

  pub apply_float :
      (v : F64) (c : FloatConstraints)
      → Emits s o p (apply_float_constraints v c) tt (float_issues p c v)
  unfolding apply_float_constraints
  apply_float v c = Emits-bind s o p _ _ (float_min c.min v) (float_max c.max v)

  min_size : (c : Option ℕ) (n : ℕ) → Emits s o p (check_min_size c n) tt (min_size_issues p c n)
  unfolding check_min_size
  min_size none n = Emits-pure s o p tt
  min_size (some m) n = Emits-when s o p _ _ _

  max_size : (c : Option ℕ) (n : ℕ) → Emits s o p (check_max_size c n) tt (max_size_issues p c n)
  unfolding check_max_size
  max_size none n = Emits-pure s o p tt
  max_size (some m) n = Emits-when s o p _ _ _

  pub Emits-size :
      (n : ℕ) (c : CollectionConstraints)
      → Emits s o p (apply_collection_constraints n c) tt (size_issues p c n)
  unfolding apply_collection_constraints
  Emits-size n c = Emits-bind s o p _ _ (min_size c.min_size n) (max_size c.max_size n)

  format :
      (f : Option StringFormat) (v : String)
      → Emits s o p (check_format f v) tt (format_issues p f v)
  unfolding check_format apply_format record_format_invalid
  format none v = Emits-pure s o p tt
  format (some StringFormat.email) v = Emits-when s o p _ _ _
  format (some StringFormat.uuid) v = Emits-when s o p _ _ _
  format (some StringFormat.url) v = Emits-when s o p _ _ _

  pub apply_string :
      (v : String) (c : StringConstraints)
      → Emits s o p (apply_string_constraints v c) tt (string_issues p c v)
  unfolding apply_string_constraints
  apply_string v c =
      Emits-bind s o p _ _ (min_size c.min_size _)
        (Emits-bind s o p _ _ (max_size c.max_size _) (format c.format v))
