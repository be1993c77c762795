-- ===== src/Schema/Parse/Total.antt =====
-- The parser ends on every document with a type expression or with an error under its path, and the
-- size of the document is fuel enough.
use rustly_core.Base.{ℕ, zero, suc, ◌+◌, ◌-◌, ◌≤◌, String, Option, none, some, str_eq, arith}
use rustly_core.Json.{JsonValue, JsonArray, JsonMap, nth, as_object}
use rustly_core.Json.Size.{
  size, size_array, size_option, size-pos, IsSmall, IsSmall-le, IsSmall-size, insert-IsSmall,
}
use rustly_core.Host.{Host}
use rustly_core.Schema.Expr.{count}
use rustly_core.Schema.Options.{
  insert_all, insert_options, merge_options, without_type, inline_map_without_type,
}
use rustly_core.Schema.Holders.{ParseType, option_map}
use rustly_core.Schema.Parse.{
  TypeName, type_named, parse_as, parse_named_type, parse_optional_array, parse_list_array,
  parse_dict_array, parse_tagged, parse_array_type, parse_value, parse_type_expr,
}
use rustly_core.Schema.Parse.Post.{
  Post, Post-ok, Post-bind, Post-invalid, Post-or_invalid, Post-if, Post-deeper, Post-weaken,
}
use rustly_core.Schema.Parse.Leaf.{Any, int_lem, float_lem, string_lem}
use rustly_core.Schema.Parse.Shape.{Fits, Fits-le, enum_lem}
use rustly_core.Schema.Parse.Inside.{
  GoesTo, object-size, list_lem, dict_lem, optional_lem, struct_lem,
}

-- No value of the map, if there is one, is larger than `n`.
abbrev IsSmallOption : ℕ → Option JsonMap → Type 0
IsSmallOption n none = Unit {0}
IsSmallOption n (some m) = IsSmall n m

size-IsSmallOption : (n : ℕ) (o : Option JsonMap) → size_option o ≤ n → IsSmallOption n o
size-IsSmallOption n none h = tt
size-IsSmallOption n (some m) h = IsSmall-le m _ _ h (IsSmall-size m)

insert_all-IsSmall :
    (n : ℕ) (m into : JsonMap) → IsSmall n m → IsSmall n into → IsSmall n (insert_all m into)
unfolding insert_all
insert_all-IsSmall n JsonMap.empty into s t = t
insert_all-IsSmall n (JsonMap.entry k v m) into (h, s) t =
    insert_all-IsSmall n m _ s (insert-IsSmall n k v into h t)

insert_options-IsSmall :
    (n : ℕ) (o : Option JsonMap) (into : JsonMap)
    → IsSmallOption n o
    → IsSmall n into
    → IsSmall n (insert_options o into)
unfolding insert_options
insert_options-IsSmall n none into s t = t
insert_options-IsSmall n (some m) into s t = insert_all-IsSmall n m into s t

merge_options-IsSmall :
    (n : ℕ) (inline outer : Option JsonMap)
    → IsSmallOption n inline
    → IsSmallOption n outer
    → IsSmall n (merge_options inline outer)
unfolding merge_options
merge_options-IsSmall n inline outer s t =
    insert_options-IsSmall n inline _ s (insert_options-IsSmall n outer _ t tt)

without_type-IsSmall :
    (n : ℕ) (m result : JsonMap)
    → IsSmall n m
    → IsSmall n result
    → IsSmall n (without_type m result)
unfolding without_type
without_type-IsSmall n JsonMap.empty result s t = t
without_type-IsSmall n (JsonMap.entry k v m) result (h, s) t =
    without_type-IsSmall n m _ s (ground (arith, t, insert-IsSmall n k v result h t))

module _ (H : Host) (n : ℕ) (go : ParseType) (h : GoesTo n go) where
  as_lem :
      (ty : TypeName) (name : String) (inline outer : Option JsonMap) (path : String)
      → IsSmallOption n inline
      → IsSmallOption n outer
      → Post path (Fits (suc n)) (parse_as H go ty name inline outer path)
  unfolding parse_as count
  as_lem TypeName.any_name name inline outer path s t =
      Post-ok (record { small = omega arith; schema = tt })
  as_lem TypeName.bool_name name inline outer path s t =
      Post-ok (record { small = omega arith; schema = tt })
  as_lem TypeName.int_name name inline outer path s t =
      Post-bind (int_lem H _ path) (λ c u. Post-ok (record { small = omega arith; schema = tt }))
  as_lem TypeName.float_name name inline outer path s t =
      Post-bind (float_lem H _ path) (λ c u. Post-ok (record { small = omega arith; schema = tt }))
  as_lem TypeName.string_name name inline outer path s t =
      Post-bind (string_lem H _ path) (λ c u. Post-ok (record { small = omega arith; schema = tt }))
  as_lem TypeName.symbol_name name inline outer path s t =
      Post-ok (record { small = omega arith; schema = tt })
  as_lem TypeName.enum_name name inline outer path s t =
      enum_lem (suc n) none inline outer path (omega arith)
  as_lem TypeName.list_name name inline outer path s t =
      list_lem H n go h none _ path tt (merge_options-IsSmall n inline outer s t)
  as_lem TypeName.dict_name name inline outer path s t =
      dict_lem H n go h none _ path tt (merge_options-IsSmall n inline outer s t)
  as_lem TypeName.optional_name name inline outer path s t =
      optional_lem H n go h none _ path tt (merge_options-IsSmall n inline outer s t)
  as_lem TypeName.struct_name name inline outer path s t =
      struct_lem H n go h _ path (merge_options-IsSmall n inline outer s t)
  as_lem TypeName.other_name name inline outer path s t = Post-invalid _

  named_lem :
      (name : String) (inline outer : Option JsonMap) (path : String)
      → IsSmallOption n inline
      → IsSmallOption n outer
      → Post path (Fits (suc n)) (parse_named_type H go name inline outer path)
  unfolding parse_named_type
  named_lem name inline outer path s t =
      let canonical = H.to_lowercase name in
      as_lem (type_named canonical) canonical inline outer path s t

  -- An array, what follows its tag being `rest`.
  module _ (outer : Option JsonMap) (path : String) where
    optional_array_lem :
        (rest : JsonArray)
        → size_array rest + size_option outer ≤ n
        → Post path (Fits (suc n)) (parse_optional_array H go rest outer path)
    unfolding parse_optional_array size count
    optional_array_lem JsonArray.nil s = Post-invalid _
    optional_array_lem (JsonArray.cons v rest) s =
        Post-bind (Post-deeper path ".optional" _ (h v outer _ (omega arith)))
          (λ t f. Post-ok (record { small = omega (arith, f.small); schema = f.schema }))

    merged :
        (rest : JsonArray)
        → size_array rest + size_option outer ≤ n
        → IsSmall n (merge_options (option_map (nth rest 0) as_object) outer)
    merged rest s =
        merge_options-IsSmall n _ outer (size-IsSmallOption n _ (omega (arith, object-size rest 0)))
          (size-IsSmallOption n outer (omega arith))

    list_array_lem :
        (rest : JsonArray)
        → size_array rest + size_option outer ≤ n
        → Post path (Fits (suc n)) (parse_list_array H go rest outer path)
    unfolding parse_list_array size
    list_array_lem JsonArray.nil s = Post-invalid _
    list_array_lem (JsonArray.cons v rest) s =
        list_lem H n go h (some v) _ path (omega arith) (merged rest (omega arith))

    dict_array_lem :
        (rest : JsonArray)
        → size_array rest + size_option outer ≤ n
        → Post path (Fits (suc n)) (parse_dict_array H go rest outer path)
    unfolding parse_dict_array size
    dict_array_lem JsonArray.nil s = Post-invalid _
    dict_array_lem (JsonArray.cons v rest) s =
        dict_lem H n go h (some v) _ path (omega arith) (merged rest (omega arith))

    tagged_lem :
        (tag : String) (rest : JsonArray)
        → size_array rest + size_option outer ≤ n
        → Post path (Fits (suc n)) (parse_tagged H go tag rest outer path)
    unfolding parse_tagged
    tagged_lem tag rest s = Post-if (str_eq tag "optional") (optional_array_lem rest s) (
        Post-if (str_eq tag "list") (list_array_lem rest s) (
          Post-if (str_eq tag "dict") (dict_array_lem rest s) (
            Post-if (str_eq tag "enum") (enum_lem (suc n) _ outer none path (omega arith)) (
              Post-if (str_eq tag "struct") (struct_lem H n go h _ path (merged rest s))
                (named_lem tag none outer path tt (size-IsSmallOption n outer (omega arith)))))))

    array_lem :
        (xs : JsonArray)
        → size_array xs + size_option outer ≤ n
        → Post path (Fits (suc n)) (parse_array_type H go xs outer path)
    unfolding parse_array_type size
    array_lem JsonArray.nil s = Post-invalid _
    array_lem (JsonArray.cons x rest) s =
        Post-bind {Q = Any} (Post-or_invalid _ (λ a e. tt))
          (λ tag u. tagged_lem tag rest (omega arith))

    value_lem :
        (v : JsonValue)
        → size v + size_option outer ≤ suc n
        → Post path (Fits (suc n)) (parse_value H go v outer path)
    unfolding parse_value size inline_map_without_type
    value_lem (JsonValue.string name) s =
        named_lem name none outer path tt (size-IsSmallOption n outer (omega arith))
    value_lem (JsonValue.object m) s =
        Post-bind {Q = Any} (Post-or_invalid _ (λ a e. tt)) (λ name u.
          named_lem name _ outer path
            (without_type-IsSmall n m _ (IsSmall-le m _ _ (omega arith) (IsSmall-size m)) tt)
            (size-IsSmallOption n outer (omega arith)))
    value_lem (JsonValue.array xs) s = array_lem xs (omega arith)
    value_lem JsonValue.null s = Post-invalid _
    value_lem (JsonValue.bool b) s = Post-invalid _
    value_lem (JsonValue.number k) s = Post-invalid _

GoesTo-le : (go : ParseType) (j k : ℕ) → j ≤ k → GoesTo k go → GoesTo j go
GoesTo-le go j k l h v outer path s = h v outer path (omega arith)

-- If the fuel is at least the size of the document and of the options around it, the parser does not
-- run out of it. It gives an error whose path begins with the given path, or a type expression that
-- has no more parts than that size and whose enums have variants and repeat none.
pub parse_type_expr_lem :
    (H : Host) (fuel : ℕ) (v : JsonValue) (outer : Option JsonMap) (path : String)
    → size v + size_option outer ≤ fuel
    → Post path (Fits (size v + size_option outer)) (parse_type_expr H fuel v outer path)
unfolding parse_type_expr
parse_type_expr_lem H zero v outer path s = omega (arith, size-pos v)
parse_type_expr_lem H (suc fuel) v outer path s =
    let n = size v + size_option outer - 1 in
    let go = parse_type_expr H fuel in
    let inside = GoesTo-le go n fuel (omega arith) (parse_type_expr_lem H fuel) in
    let r = value_lem H n go inside outer path v (omega arith) in
    Post-weaken _ r (λ t f. Fits-le _ _ t (omega (arith, size-pos v)) f)
