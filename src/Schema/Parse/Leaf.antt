-- ===== src/Schema/Parse/Leaf.antt =====
-- The parsing of constraints, of the policy on extra keys and of the presence of a field ends with a
-- value or with an error under the given path.
use rustly_core.Base.{str_eq, String, ◌<>◌, Option, none, some}
use rustly_core.Json.{JsonValue, JsonMap}
use rustly_core.Host.{Host}
use rustly_core.Schema.Error.{Compiled, ◌>>=◌}
use rustly_core.Schema.Options.{
  parse_option, parse_i64, parse_f64, parse_usize, parse_format, format_named,
  apply_int_constraints, apply_float_constraints, apply_string_constraints,
  apply_collection_constraints, parse_extra, extra_named,
}
use rustly_core.Schema.Holders.{presence_named, ParseType}
use rustly_core.Schema.Parse.Post.{
  Post, Post-bind, Post-ok, Post-invalid, Post-or_invalid, Post-if, Post-deeper,
}

abbrev pub Any {ℓ} : {A : Type ℓ} → A → Type 0
Any a = Unit {0}

-- The parser ends below its path.
abbrev Fine : {A : Type 0} → (JsonValue → String → Compiled A) → Type 0
Fine parse = (v : JsonValue) (path : String) → Post path Any (parse v path)

Post-option :
    {A : Type 0} (parse : JsonValue → String → Compiled A)
    → Fine parse
    → (o : Option JsonValue) (path s : String) → Post path Any (parse_option parse o (path <> s))
Post-option parse h none path s = Post-ok tt
Post-option parse h (some v) path s =
    Post-deeper path s _ (Post-bind (h v (path <> s)) (λ a t. Post-ok tt))

-- One option is parsed, and then the rest of the function.
and_then :
    {A B : Type 0} (parse : JsonValue → String → Compiled A)
    → Fine parse
    → (o : Option JsonValue) (path s : String) (f : Option A → Compiled B)
    → ((a : Option A) → Post path Any (f a))
    → Post path Any (parse_option parse o (path <> s) >>= f)
and_then parse h o path s f k = Post-bind (Post-option parse h o path s) (λ a t. k a)

pub presence_lem :
    (H : Host) (go : ParseType) (raw path : String) → Post path Any (presence_named H go raw path)
unfolding presence_named
presence_lem H go raw path =
    Post-if (str_eq raw "required") (Post-ok tt)
      (Post-if (str_eq raw "optional") (Post-ok tt) (Post-invalid _))

module _ (H : Host) where
  i64_Fine : Fine (parse_i64 H)
  unfolding parse_i64
  i64_Fine v path = Post-or_invalid _ (λ a e. tt)

  f64_Fine : Fine (parse_f64 H)
  unfolding parse_f64
  f64_Fine v path = Post-or_invalid _ (λ a e. tt)

  usize_Fine : Fine (parse_usize H)
  unfolding parse_usize
  usize_Fine v path = Post-or_invalid _ (λ a e. tt)

  format_lem : (name path : String) → Post path Any (format_named H name path)
  unfolding format_named
  format_lem name path = Post-if (str_eq name "email") (Post-ok tt) (
      Post-if (str_eq name "uuid") (Post-ok tt)
        (Post-if (str_eq name "url") (Post-ok tt) (Post-invalid _)))

  format_Fine : Fine (parse_format H)
  unfolding parse_format
  format_Fine v path = Post-bind (Post-or_invalid _ (λ a e. tt)) (λ name t. format_lem name path)

  pub int_lem :
      (options : JsonMap) (path : String) → Post path Any (apply_int_constraints H options path)
  unfolding apply_int_constraints
  int_lem options path =
      and_then _ i64_Fine _ path ".min" _
        (λ a. and_then _ i64_Fine _ path ".max" _ (λ b. Post-ok tt))

  pub float_lem :
      (options : JsonMap) (path : String) → Post path Any (apply_float_constraints H options path)
  unfolding apply_float_constraints
  float_lem options path =
      and_then _ f64_Fine _ path ".min" _
        (λ a. and_then _ f64_Fine _ path ".max" _ (λ b. Post-ok tt))

  pub collection_lem :
      (options : JsonMap) (path : String)
      → Post path Any (apply_collection_constraints H options path)
  unfolding apply_collection_constraints
  collection_lem options path =
      and_then _ usize_Fine _ path ".min_size" _
        (λ a. and_then _ usize_Fine _ path ".max_size" _ (λ b. Post-ok tt))

  pub string_lem :
      (options : JsonMap) (path : String) → Post path Any (apply_string_constraints H options path)
  unfolding apply_string_constraints
  string_lem options path = and_then _ usize_Fine _ path ".min_size" _ (λ a.
      and_then _ usize_Fine _ path ".max_size" _
        (λ b. and_then _ format_Fine _ path ".format" _ (λ c. Post-ok tt)))

  extra_named_lem : (raw path : String) → Post path Any (extra_named H raw path)
  unfolding extra_named
  extra_named_lem raw path = Post-if (str_eq raw "forbid") (Post-ok tt) (
      Post-if (str_eq raw "ignore") (Post-ok tt)
        (Post-if (str_eq raw "allow") (Post-ok tt) (Post-invalid _)))

  pub extra_lem : (o : Option JsonValue) (path : String) → Post path Any (parse_extra H o path)
  unfolding parse_extra
  extra_lem none path = Post-ok tt
  extra_lem (some (JsonValue.string raw)) path = extra_named_lem raw path
  extra_lem (some _) path = Post-invalid _
