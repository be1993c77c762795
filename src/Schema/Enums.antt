-- ===== src/Schema/Enums.antt =====
-- The parsing of an enum (`parse_enum_type` of ext/rustly_core/src/schema/compiler.rs).
use rustly_core.Base.{
  ℕ, suc, String, ◌<>◌, Bool, false, ◌||◌, Option, none, some, List, [], ◌∷◌, str_eq, if◌then◌else◌,
}
use rustly_core.Base.Text.{to_string}
use rustly_core.Json.{JsonValue, JsonArray, JsonMap, get, as_str, as_array}
use rustly_core.Schema.Expr.{TypeExpr}
use rustly_core.Schema.Error.{Compiled, ok, ◌>>=◌, invalid, or_invalid}
use rustly_core.Schema.Options.{merge_options}

-- `seen.contains(s)`
abbrev pub contains : List String → String → Bool
contains [] s = false
contains (t ∷ ts) s = str_eq t s || contains ts s

-- The loop over the values of an enum; the result is what it pushes from here on. The order of the
-- set `seen` does not matter.
unfoldable pub enum_variants : ℕ → JsonArray → List String → String → Compiled (List String)
enum_variants index JsonArray.nil seen path = ok []
enum_variants index (JsonArray.cons variant rest) seen path = do
  s ←
      or_invalid (as_str variant) (path <> (".values[" <> (to_string index <> "]")))
        "enum values must be strings"
  more ← enum_variants (suc index) rest (if contains seen s then seen else s ∷ seen) path
  ok (if contains seen s then more else s ∷ more)

abbrev pub non_empty_enum : String → List String → Compiled TypeExpr
non_empty_enum path [] = invalid path "enum values cannot be empty"
non_empty_enum path (v ∷ vs) = ok (TypeExpr.enum (v ∷ vs))

-- `inline_values.or_else(|| options.get("values"))`, then `options.remove("in")`.
abbrev pub variants_source : Option JsonValue → JsonMap → Option JsonValue
variants_source (some v) options = some v
variants_source none options = elim (get "values" options) [
  | some v ↦ some v
  | none ↦ get "in" options
]

unfoldable pub parse_enum_type :
    Option JsonValue → Option JsonMap → Option JsonMap → String → Compiled TypeExpr
unfolding enum_variants merge_options
parse_enum_type inline_values inline_options field_options path = do
  source ←
      or_invalid (variants_source inline_values (merge_options inline_options field_options)) path
        "enum type requires a `values` array"
  values ← or_invalid (as_array source) path "enum `values` must be specified as an array"
  variants ← enum_variants 0 values [] path
  non_empty_enum path variants
