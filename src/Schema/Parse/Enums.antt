-- ===== src/Schema/Parse/Enums.antt =====
-- The variants of an enum are the given texts, each at the place where it stands first.
use rustly_core.Base.{
  ℕ, suc, String, true, Bool-cases, ◌≡◌, refl, ◌∙◌, ap, inl, inr, Option, some, List, [], ◌∷◌,
  str_eq, str_eq→≡, arith, if◌then◌else◌,
}
use rustly_core.Json.{JsonValue, JsonMap, strings, as_str, as_array}
use rustly_core.Schema.Expr.{TypeExpr}
use rustly_core.Schema.Error.{ok, ◌>>=◌, or_invalid}
use rustly_core.Schema.Enums.{contains, enum_variants, non_empty_enum, parse_enum_type}

-- The texts that are not among `seen`.
abbrev pub without : List String → List String → List String
without seen [] = []
without seen (s ∷ ss) = if contains seen s then without seen ss else s ∷ without seen ss

-- Each text once, where it stands first.
abbrev pub distinct : List String → List String
distinct [] = []
distinct (s ∷ ss) = s ∷ without (s ∷ []) (distinct ss)

without-without :
    (s : String) (seen ss : List String)
    → without seen (without (s ∷ []) ss) ≡ without (s ∷ seen) ss
without-without s seen [] = refl
without-without s seen (t ∷ ss) = ground (arith, without-without s seen ss)

contains_same :
    (seen : List String) (s t : String) → str_eq s t ≡ true → contains seen s ≡ contains seen t
contains_same seen s t e = ap (contains seen) (str_eq→≡ s t e)

without-cons_seen :
    (s : String) (seen ss : List String)
    → contains seen s ≡ true
    → without (s ∷ seen) ss ≡ without seen ss
without-cons_seen s seen [] h = refl
without-cons_seen s seen (t ∷ ss) h = elim (Bool-cases (str_eq s t)) [
  | inl e ↦ ground (arith, e, h, contains_same seen s t e, without-cons_seen s seen ss h)
  | inr e ↦ ground (arith, e, without-cons_seen s seen ss h)
]

without_nothing : (ss : List String) → without [] ss ≡ ss
without_nothing [] = refl
without_nothing (s ∷ ss) = ap (λ q. s ∷ q) (without_nothing ss)

enum_variants-strings :
    (i : ℕ) (ss seen : List String) (path : String)
    → enum_variants i (strings ss) seen path ≡ ok (without seen (distinct ss))
unfolding enum_variants strings as_str or_invalid ◌>>=◌
enum_variants-strings i [] seen path = refl
enum_variants-strings i (s ∷ ss) seen path =
    let old = enum_variants-strings (suc i) ss seen path in
    let new = enum_variants-strings (suc i) ss (s ∷ seen) path in
    let both = without-without s seen (distinct ss) in
    elim (Bool-cases (contains seen s)) [
      | inl e ↦ ground (arith, e, old, both, without-cons_seen s seen (distinct ss) e)
      | inr e ↦ ground (arith, e, new, both)
    ]

-- An enum with the texts `s ∷ ss` for its values, which options cannot override, has each of them
-- once as a variant, in the order in which they stand first.
pub parse_enum_type-strings :
    (s : String) (ss : List String) (inline outer : Option JsonMap) (path : String)
    → parse_enum_type (some (JsonValue.array (strings (s ∷ ss)))) inline outer path
      ≡ ok (TypeExpr.enum (distinct (s ∷ ss)))
unfolding parse_enum_type as_array or_invalid ◌>>=◌
parse_enum_type-strings s ss inline outer path =
    let ran = enum_variants-strings 0 (s ∷ ss) [] path in
    let same = ran ∙ ap ok (without_nothing (distinct (s ∷ ss))) in
    ap (λ m. m >>= λ variants. non_empty_enum path variants) same
