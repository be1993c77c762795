-- ===== src/Schema/Parse/Inside.antt =====
-- The types that hold others: if the types inside a document of size `n` are parsed well, then so are
-- the lists, dicts, optional types and structs that are made of them.
use mathlib.Core.Path.{subst}
use rustly_core.Base.{ℕ, suc, ◌+◌, ◌≤◌, String, ◌<>◌, ◌≡◌, refl, Option, none, some, arith}
use rustly_core.Json.{JsonValue, JsonArray, JsonMap, get, nth, as_object, as_array}
use rustly_core.Json.Size.{
  size, size_array, size_option, IsSmall, erase-IsSmall, get-IsSmall, nth-size,
}
use rustly_core.Host.{Host}
use rustly_core.Schema.Expr.{FieldExprs, count, count_fields}
use rustly_core.Schema.Options.{or_remove}
use rustly_core.Schema.Holders.{
  ParseType, option_map, parse_list_type, parse_dict_type, parse_optional_type, parse_entry_array,
  parse_field_entry, parse_fields, parse_fields_array, parse_struct_type,
}
use rustly_core.Schema.Parse.Post.{
  Post, Post-ok, Post-bind, Post-invalid, Post-or_invalid, Post-deeper, Post-weaken,
}
use rustly_core.Schema.Parse.Leaf.{Any, collection_lem, extra_lem, presence_lem}
use rustly_core.Schema.Parse.Shape.{Fits, Fits-le, AreSchemas}

abbrev pub IsSmallValue : ℕ → Option JsonValue → Type 0
IsSmallValue n none = Unit {0}
IsSmallValue n (some v) = size v ≤ n

pub get-IsSmallValue : (n : ℕ) (k : String) (m : JsonMap) → IsSmall n m → IsSmallValue n (get k m)
get-IsSmallValue n k m s = found (get k m) refl
  where
    found : (o : Option JsonValue) → get k m ≡ o → IsSmallValue n o
    found none e = tt
    found (some v) e = get-IsSmall n k m v s e

or_remove-IsSmall :
    (n : ℕ) (o : Option JsonValue) (k : String) (m : JsonMap)
    → IsSmallValue n o
    → IsSmall n m
    → IsSmallValue n (or_remove o k m).0 × IsSmall n (or_remove o k m).1
or_remove-IsSmall n none k m h s = (get-IsSmallValue n k m s, erase-IsSmall n k m s)
or_remove-IsSmall n (some v) k m h s = (h, s)

some-IsSmallValue :
    (n : ℕ) (o : Option JsonValue) (v : JsonValue) → IsSmallValue n o → o ≡ some v → size v ≤ n
some-IsSmallValue n o v h e = subst (λ q. IsSmallValue n q) e h

pub object-size :
    (xs : JsonArray) (i : ℕ) → size_option (option_map (nth xs i) as_object) ≤ size_array xs
unfolding size as_object
object-size xs i = found (nth xs i) refl
  where
    found :
        (o : Option JsonValue) → nth xs i ≡ o → size_option (option_map o as_object) ≤ size_array xs
    found none e = omega arith
    found (some (JsonValue.object m)) e = omega (arith, nth-size xs i (JsonValue.object m) e)
    found (some JsonValue.null) e = omega arith
    found (some (JsonValue.bool b)) e = omega arith
    found (some (JsonValue.number k)) e = omega arith
    found (some (JsonValue.string s)) e = omega arith
    found (some (JsonValue.array ys)) e = omega arith

as_array-size :
    (v : JsonValue) (xs : JsonArray) → as_array v ≡ some xs → suc (size_array xs) ≤ size v
unfolding as_array size
as_array-size (JsonValue.array ys) xs e = ground arith
as_array-size JsonValue.null xs e = ground arith
as_array-size (JsonValue.bool b) xs e = ground arith
as_array-size (JsonValue.number k) xs e = ground arith
as_array-size (JsonValue.string s) xs e = ground arith
as_array-size (JsonValue.object m) xs e = ground arith

-- Documents up to the size `n` are parsed well.
abbrev pub GoesTo : ℕ → ParseType → Type 0
GoesTo n go =
    (v : JsonValue) (outer : Option JsonMap) (path : String)
    → size v + size_option outer ≤ n
    → Post path (Fits (size v + size_option outer)) (go v outer path)

record FitsFields (n : ℕ) (fields : FieldExprs) : Type 0 where
  small : count_fields fields ≤ n
  schemas : AreSchemas fields

module _ (H : Host) (n : ℕ) (go : ParseType) (h : GoesTo n go) where
  -- An element type, below the path.
  inner_lem :
      (v : JsonValue) (path s : String) → size v ≤ n → Post path (Fits n) (go v none (path <> s))
  inner_lem v path s small =
      Post-deeper path s _
        (Post-weaken _ (h v none (path <> s) (omega arith)) (λ t f. Fits-le _ _ t (omega arith) f))

  module _ (inline : Option JsonValue) (options : JsonMap) (path : String)
      (small : IsSmallValue n inline) (all_small : IsSmall n options) where
    pub list_lem : Post path (Fits (suc n)) (parse_list_type H go inline options path)
    unfolding parse_list_type count
    list_lem =
        let of = or_remove-IsSmall n inline "of" options small all_small in
        let item = or_remove-IsSmall n _ "item" _ of.0 of.1 in
        Post-bind (Post-or_invalid _ (λ v e. some-IsSmallValue n _ v item.0 e)) (λ v s.
          Post-bind (inner_lem v path ".of" s) (λ t f.
            Post-bind (collection_lem H _ path)
              (λ c u. Post-ok (record { small = omega (arith, f.small); schema = f.schema }))))

    pub dict_lem : Post path (Fits (suc n)) (parse_dict_type H go inline options path)
    unfolding parse_dict_type count
    dict_lem =
        let values = or_remove-IsSmall n inline "values" options small all_small in
        let value = or_remove-IsSmall n _ "value" _ values.0 values.1 in
        Post-bind (Post-or_invalid _ (λ v e. some-IsSmallValue n _ v value.0 e)) (λ v s.
          Post-bind (inner_lem v path ".values" s) (λ t f.
            Post-bind (collection_lem H _ path)
              (λ c u. Post-ok (record { small = omega (arith, f.small); schema = f.schema }))))

    pub optional_lem : Post path (Fits (suc n)) (parse_optional_type H go inline options path)
    unfolding parse_optional_type count
    optional_lem =
        let of = or_remove-IsSmall n inline "of" options small all_small in
        Post-bind (Post-or_invalid _ (λ v e. some-IsSmallValue n _ v of.0 e)) (λ v s.
          Post-bind (inner_lem v path ".of" s)
            (λ t f. Post-ok (record { small = omega (arith, f.small); schema = f.schema })))

  entry_array_lem :
      (xs : JsonArray) (path : String)
      → size_array xs ≤ n
      → Post path (λ f. Fits (size_array xs) f.ty) (parse_entry_array H go xs path)
  unfolding parse_entry_array size
  entry_array_lem JsonArray.nil path small = Post-invalid _
  entry_array_lem (JsonArray.cons p JsonArray.nil) path small = Post-invalid _
  entry_array_lem (JsonArray.cons p (JsonArray.cons name JsonArray.nil)) path small = Post-invalid _
  entry_array_lem (JsonArray.cons p (JsonArray.cons name (JsonArray.cons t options))) path small =
      let room = object-size options 0 in
      Post-bind {Q = Any} (Post-or_invalid _ (λ a e. tt)) (λ raw u.
        Post-bind (presence_lem H go raw path) (λ presence u.
          Post-bind {Q = Any} (Post-or_invalid _ (λ a e. tt)) (λ name u.
            Post-bind (Post-deeper path ".type" _ (h t _ _ (omega (arith, room))))
              (λ ty f. Post-ok (Fits-le _ _ ty (omega (arith, room)) f)))))

  field_entry_lem :
      (v : JsonValue) (path : String)
      → size v ≤ n
      → Post path (λ f. Fits (size v) f.ty) (parse_field_entry H go v path)
  unfolding parse_field_entry
  field_entry_lem v path small =
      Post-bind (Post-or_invalid _ (λ xs e. as_array-size v xs e)) (λ xs s.
        Post-weaken _ (entry_array_lem xs path (omega arith))
          (λ f q. Fits-le _ _ f.ty (omega arith) q))

  fields_lem :
      (i : ℕ) (xs : JsonArray) (path : String)
      → size_array xs ≤ n
      → Post path (FitsFields (size_array xs)) (parse_fields H go i xs path)
  unfolding parse_fields size count
  fields_lem i JsonArray.nil path small = Post-ok (record { small = omega arith; schemas = tt })
  fields_lem i (JsonArray.cons x xs) path small =
      Post-bind (Post-deeper path _ _ (field_entry_lem x _ (omega arith))) (λ f q.
        Post-bind (fields_lem (suc i) xs path (omega arith)) (λ fs r.
          Post-ok
            (record { small = omega (arith, q.small, r.small); schemas = (q.schema, r.schemas) })))

  fields_array_lem :
      (v : JsonValue) (path : String)
      → size v ≤ n
      → Post path (FitsFields n) (parse_fields_array H go v path)
  unfolding parse_fields_array
  fields_array_lem v path small =
      Post-bind (Post-or_invalid _ (λ xs e. as_array-size v xs e)) (λ xs s.
        Post-weaken _ (fields_lem 0 xs path (omega arith))
          (λ fs q. record { small = omega (arith, q.small); schemas = q.schemas }))

  pub struct_lem :
      (options : JsonMap) (path : String)
      → IsSmall n options
      → Post path (Fits (suc n)) (parse_struct_type H go options path)
  unfolding parse_struct_type count
  struct_lem options path all_small =
      let fields = get-IsSmallValue n "fields" options all_small in
      Post-bind (Post-or_invalid _ (λ v e. some-IsSmallValue n _ v fields e)) (λ v s.
        Post-bind (extra_lem H _ path) (λ extra u.
          Post-bind (fields_array_lem v path s)
            (λ fs q. Post-ok (record { small = omega (arith, q.small); schema = q.schemas }))))
