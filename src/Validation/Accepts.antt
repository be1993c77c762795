-- ===== src/Validation/Accepts.antt =====
-- Which values a type expression accepts, and what the accepted ones become, as predicates: no
-- issues, no paths, no order of the tests.
pub mod Values
pub mod Walk
pub mod Structs
pub mod Decides
pub mod Sound
use rustly_core.Base.{
  ℕ, ◌≤◌, ◌≡◌, ◌⊎◌, String, Bool, true, false, Option, none, some, List, [], ◌∷◌, if◌then◌else◌,
}
use rustly_core.Base.Int.{ℤ, lt_int}
use rustly_core.Base.Float.{F64, lt_float}
use rustly_core.Host.{Host}
use rustly_core.Schema.Ir.{
  IntConstraints, FloatConstraints, StringConstraints, CollectionConstraints, PrimitiveType,
  ExtraBehavior, StructFieldPresence,
}
use rustly_core.Schema.Expr.{TypeExpr, FieldExprs}
use rustly_core.Validation.Options.{ValidationOptions}
use rustly_core.Validation.Value.{
  OwnedValue, OwnedList, OwnedDict, OwnedFields, OwnedExtras, list_len, dict_len,
}
use rustly_core.Validation.Leaf.{char_count}
use rustly_core.Validation.Engine.{dict_find}
use rustly_core.Validation.Spec.{
  Reading, got, mismatched, uncoercible, reading_bool, reading_int, reading_float, reading_string,
  reading_symbol, has_format, expr_names,
}

-- A bound holds if there is one.
abbrev pub Bounded {ℓ} : {A : Type ℓ} → (A → Type 0) → Option A → Type 0
Bounded P none = Unit {0}
Bounded P (some a) = P a

abbrev pub IntWithin : IntConstraints → ℤ → Type 0
IntWithin c v = Bounded (λ m. lt_int v m ≡ false) c.min × Bounded (λ m. lt_int m v ≡ false) c.max

abbrev pub FloatWithin : FloatConstraints → F64 → Type 0
FloatWithin c v =
    Bounded (λ m. lt_float v m ≡ false) c.min × Bounded (λ m. lt_float m v ≡ false) c.max

abbrev pub SizeWithin : Option ℕ → Option ℕ → ℕ → Type 0
SizeWithin min max n = Bounded (λ m. m ≤ n) min × Bounded (λ m. n ≤ m) max

abbrev pub StringWithin : StringConstraints → String → Type 0
StringWithin c s =
    SizeWithin c.min_size c.max_size (char_count s) × Bounded (λ f. has_format f s ≡ true) c.format

abbrev pub OneOf : String → List String → Type 0
OneOf s [] = ⊥
OneOf s (t ∷ ts) = (t ≡ s) ⊎ OneOf s ts

-- The coercion gives a value with the property.
abbrev pub Reads {ℓ} : {A : Type ℓ} → Reading A → (A → Type 0) → Type 0
Reads (got a) P = P a
Reads mismatched P = ⊥
Reads uncoercible P = ⊥

abbrev pub AcceptsPrimitive : Host → Bool → PrimitiveType → OwnedValue → Type 0
AcceptsPrimitive H strict PrimitiveType.any v = Unit {0}
AcceptsPrimitive H strict PrimitiveType.bool v = Reads (reading_bool strict v) (λ b. Unit {0})
AcceptsPrimitive H strict (PrimitiveType.int c) v = Reads (reading_int strict v) (IntWithin c)
AcceptsPrimitive H strict (PrimitiveType.float c) v =
    Reads (reading_float H strict v) (FloatWithin c)
AcceptsPrimitive H strict (PrimitiveType.string c) v = Reads (reading_string v) (StringWithin c)
AcceptsPrimitive H strict PrimitiveType.symbol v = Reads (reading_symbol strict v) (λ s. Unit {0})

abbrev pub AllItems : (OwnedValue → Type 0) → OwnedList → Type 0
AllItems P OwnedList.nil = Unit {0}
AllItems P (OwnedList.cons v vs) = P v × AllItems P vs

abbrev pub AllEntries : (String → OwnedValue → Type 0) → OwnedDict → Type 0
AllEntries P OwnedDict.empty = Unit {0}
AllEntries P (OwnedDict.entry k v m) = P k v × AllEntries P m

abbrev pub AcceptsOptional : (OwnedValue → Type 0) → OwnedValue → Type 0
AcceptsOptional P OwnedValue.null = Unit {0}
AcceptsOptional P v = P v

abbrev pub AcceptsList : (OwnedValue → Type 0) → CollectionConstraints → OwnedValue → Type 0
AcceptsList P c (OwnedValue.list vs) =
    AllItems P vs × SizeWithin c.min_size c.max_size (list_len vs)
AcceptsList P c _ = ⊥

abbrev pub AcceptsDict : (OwnedValue → Type 0) → CollectionConstraints → OwnedValue → Type 0
AcceptsDict P c (OwnedValue.dict m) =
    AllEntries (λ k. P) m × SizeWithin c.min_size c.max_size (dict_len m)
AcceptsDict P c _ = ⊥

-- A field that is there is accepted, and a field that is not there is optional.
abbrev pub AcceptsField : (OwnedValue → Type 0) → StructFieldPresence → Option OwnedValue → Type 0
AcceptsField P presence (some v) = P v
AcceptsField P presence none = presence ≡ StructFieldPresence.optional

-- If extra keys are forbidden, every key is that of a field.
abbrev pub KeysAllowed : ExtraBehavior → List String → OwnedDict → Type 0
KeysAllowed ExtraBehavior.forbid names m = AllEntries (λ k v. OneOf k names) m
KeysAllowed ExtraBehavior.ignore names m = Unit {0}
KeysAllowed ExtraBehavior.allow names m = Unit {0}

abbrev pub policy_at : Bool → ValidationOptions → ExtraBehavior → ExtraBehavior
policy_at root o extra = if root then o.extra_behavior else extra

abbrev pub AcceptsStruct : (OwnedDict → Type 0) → List String → ExtraBehavior → OwnedValue → Type 0
AcceptsStruct P names policy (OwnedValue.dict m) = P m × KeysAllowed policy names m
AcceptsStruct P names policy _ = ⊥

-- The Boolean says whether the value is the whole input: its extra keys are up to the options.
abbrev mutual
  pub Accepts : Host → ValidationOptions → Bool → TypeExpr → OwnedValue → Type 0
  Accepts H o root (TypeExpr.primitive t) v = AcceptsPrimitive H o.strict t v
  Accepts H o root (TypeExpr.enum variants) v =
      Reads (reading_symbol o.strict v) (λ s. OneOf s variants)
  Accepts H o root (TypeExpr.optional t) v = AcceptsOptional (λ w. Accepts H o root t w) v
  Accepts H o root (TypeExpr.list t c) v = AcceptsList (λ w. Accepts H o false t w) c v
  Accepts H o root (TypeExpr.dict t c) v = AcceptsDict (λ w. Accepts H o false t w) c v
  Accepts H o root (TypeExpr.struct fields extra) v =
      AcceptsStruct (λ m. AcceptsFields H o fields m) (expr_names fields) (policy_at root o extra) v

  pub AcceptsFields : Host → ValidationOptions → FieldExprs → OwnedDict → Type 0
  AcceptsFields H o FieldExprs.nil m = Unit {0}
  AcceptsFields H o (FieldExprs.field name presence t fs) m =
      AcceptsField (λ w. Accepts H o false t w) presence (dict_find m name) × AcceptsFields H o fs m

abbrev pub ConformsPrimitive : PrimitiveType → OwnedValue → Type 0
ConformsPrimitive PrimitiveType.any w = Unit {0}
ConformsPrimitive PrimitiveType.bool (OwnedValue.bool b) = Unit {0}
ConformsPrimitive (PrimitiveType.int c) (OwnedValue.int i) = IntWithin c i
ConformsPrimitive (PrimitiveType.float c) (OwnedValue.float f) = FloatWithin c f
ConformsPrimitive (PrimitiveType.string c) (OwnedValue.string s) = StringWithin c s
ConformsPrimitive PrimitiveType.symbol (OwnedValue.symbol s) = Unit {0}
ConformsPrimitive _ _ = ⊥

abbrev pub ConformsEnum : List String → OwnedValue → Type 0
ConformsEnum variants (OwnedValue.symbol s) = OneOf s variants
ConformsEnum variants _ = ⊥

abbrev pub ConformsField :
    (OwnedValue → Type 0) → (OwnedFields → Type 0) → StructFieldPresence → OwnedFields → Type 0
ConformsField P Q presence OwnedFields.end = ⊥
ConformsField P Q presence (OwnedFields.absent fs) =
    (presence ≡ StructFieldPresence.optional) × Q fs
ConformsField P Q presence (OwnedFields.present w fs) = P w × Q fs

-- Extra entries are kept only where they are allowed, and none has the key of a field.
abbrev pub ConformsExtras : ExtraBehavior → List String → OwnedExtras → Type 0
ConformsExtras policy names OwnedExtras.no_extras = Unit {0}
ConformsExtras policy names (OwnedExtras.extras m) =
    (policy ≡ ExtraBehavior.allow) × AllEntries (λ k v. ¬ (OneOf k names)) m

abbrev pub ConformsStruct :
    (OwnedFields → Type 0) → List String → ExtraBehavior → OwnedValue → Type 0
ConformsStruct P names policy (OwnedValue.struct ns fs ex) =
    (ns ≡ names) × P fs × ConformsExtras policy names ex
ConformsStruct P names policy _ = ⊥

abbrev pub Ends : OwnedFields → Type 0
Ends OwnedFields.end = Unit {0}
Ends _ = ⊥

-- What a validated value looks like: coerced to the types of the schema, and in its bounds.
abbrev mutual
  pub Conforms : ValidationOptions → Bool → TypeExpr → OwnedValue → Type 0
  Conforms o root (TypeExpr.primitive t) w = ConformsPrimitive t w
  Conforms o root (TypeExpr.enum variants) w = ConformsEnum variants w
  Conforms o root (TypeExpr.optional t) w = AcceptsOptional (λ v. Conforms o root t v) w
  Conforms o root (TypeExpr.list t c) w = AcceptsList (λ v. Conforms o false t v) c w
  Conforms o root (TypeExpr.dict t c) w = AcceptsDict (λ v. Conforms o false t v) c w
  Conforms o root (TypeExpr.struct fields extra) w =
      ConformsStruct (λ fs. ConformsFields o fields fs) (expr_names fields) (policy_at root o extra)
        w

  pub ConformsFields : ValidationOptions → FieldExprs → OwnedFields → Type 0
  ConformsFields o FieldExprs.nil fs = Ends fs
  ConformsFields o (FieldExprs.field name presence t rest) fs =
      ConformsField (λ v. Conforms o false t v) (λ qs. ConformsFields o rest qs) presence fs
