-- ===== src/Schema/Parse/Shape.antt =====
-- What a parsed type expression looks like: its enums have variants and repeat none, and it has no
-- more parts than the document it was read from.
use rustly_core.Base.{
  ℕ, ◌≤◌, String, Bool, true, false, ◌≡◌, refl, Option, List, [], ◌∷◌, arith, if◌then◌else◌, suc,
}
use rustly_core.Json.{JsonValue, JsonArray, JsonMap}
use rustly_core.Schema.Expr.{TypeExpr, FieldExprs, count}
use rustly_core.Schema.Enums.{contains, enum_variants, non_empty_enum, parse_enum_type}
use rustly_core.Schema.Parse.Post.{
  Post, Post-ok, Post-bind, Post-invalid, Post-or_invalid, Post-deeper,
}
use rustly_core.Schema.Parse.Leaf.{Any}

-- No text of the second list is in the first.
abbrev pub Fresh : List String → List String → Type 0
Fresh seen [] = Unit {0}
Fresh seen (s ∷ ss) = (contains seen s ≡ false) × Fresh seen ss

abbrev pub NoRepeats : List String → Type 0
NoRepeats [] = Unit {0}
NoRepeats (s ∷ ss) = Fresh (s ∷ []) ss × NoRepeats ss

abbrev pub IsVariants : List String → Type 0
IsVariants [] = ⊥
IsVariants (s ∷ ss) = NoRepeats (s ∷ ss)

abbrev mutual
  pub IsSchema : TypeExpr → Type 0
  IsSchema (TypeExpr.primitive p) = Unit {0}
  IsSchema (TypeExpr.enum variants) = IsVariants variants
  IsSchema (TypeExpr.optional t) = IsSchema t
  IsSchema (TypeExpr.list t c) = IsSchema t
  IsSchema (TypeExpr.dict t c) = IsSchema t
  IsSchema (TypeExpr.struct fields extra) = AreSchemas fields

  pub AreSchemas : FieldExprs → Type 0
  AreSchemas FieldExprs.nil = Unit {0}
  AreSchemas (FieldExprs.field name presence t fields) = IsSchema t × AreSchemas fields

-- A type expression of at most `n` parts.
pub record Fits (n : ℕ) (t : TypeExpr) : Type 0 where
  pub small : count t ≤ n
  pub schema : IsSchema t

pub Fits-le : (j k : ℕ) (t : TypeExpr) → j ≤ k → Fits j t → Fits k t
Fits-le j k t h f = record { small = omega (arith, f.small); schema = f.schema }

Fresh-cons :
    (s : String) (seen ss : List String) → Fresh (s ∷ seen) ss → Fresh (s ∷ []) ss × Fresh seen ss
Fresh-cons s seen [] h = (tt, tt)
Fresh-cons s seen (t ∷ ss) (h, r) =
    let (a, b) = Fresh-cons s seen ss r in ((ground arith, a), (ground arith, b))

abbrev Chosen : List String → List String → Type 0
Chosen seen ss = NoRepeats ss × Fresh seen ss

-- One round of the loop, by the test on `seen`.
choose_variant :
    (b : Bool) (s : String) (seen more : List String)
    → contains seen s ≡ b
    → Chosen (if b then seen else s ∷ seen) more
    → Chosen seen (if b then more else s ∷ more)
choose_variant true s seen more e h = h
choose_variant false s seen more e (r, f) =
    let (a, b) = Fresh-cons s seen more f in ((a, r), (e, b))

enum_variants_lem :
    (i : ℕ) (values : JsonArray) (seen : List String) (path : String)
    → Post path (Chosen seen) (enum_variants i values seen path)
unfolding enum_variants
enum_variants_lem i JsonArray.nil seen path = Post-ok (tt, tt)
enum_variants_lem i (JsonArray.cons v values) seen path =
    Post-bind {Q = Any} (Post-deeper path _ _ (Post-or_invalid _ (λ s e. tt))) (λ s t.
      Post-bind (enum_variants_lem (suc i) values _ path)
        (λ more h. Post-ok (choose_variant (contains seen s) s seen more refl h)))

non_empty_lem :
    (n : ℕ) (path : String) (ss : List String)
    → 1 ≤ n
    → NoRepeats ss
    → Post path (Fits n) (non_empty_enum path ss)
unfolding count
non_empty_lem n path [] h r = Post-invalid _
non_empty_lem n path (s ∷ ss) h r = Post-ok (record { small = h; schema = r })

pub enum_lem :
    (n : ℕ) (values : Option JsonValue) (inline outer : Option JsonMap) (path : String)
    → 1 ≤ n
    → Post path (Fits n) (parse_enum_type values inline outer path)
unfolding parse_enum_type
enum_lem n values inline outer path h =
    Post-bind {Q = Any} (Post-or_invalid _ (λ a e. tt)) (λ source t.
      Post-bind {Q = Any} (Post-or_invalid _ (λ a e. tt)) (λ array u.
        Post-bind (enum_variants_lem 0 array [] path) (λ ss c. non_empty_lem n path ss h c.0)))
