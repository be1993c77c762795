-- ===== src/Schema/Options/Merge.antt =====
-- Which options a type sees: those written inside it override those around it.
use mathlib.Core.Path.{subst}
use rustly_core.Base.{
  String, Bool-cases, ◌≡◌, refl, sym, ◌∙◌, ap, inl, inr, Option, none, some, str_eq, str_eq→≡,
  arith, if◌then◌else◌,
}
use rustly_core.Json.{JsonValue, JsonMap, get, insert}
use rustly_core.Json.Lookup.{IsMap, get-insert, get-insert_other}
use rustly_core.Schema.Options.{
  insert_all, insert_options, merge_options, without_type, inline_map_without_type,
}

abbrev pub or_else {ℓ} : {A : Type ℓ} → Option A → Option A → Option A
or_else none o = o
or_else (some a) o = some a

abbrev pub get_option : String → Option JsonMap → Option JsonValue
get_option k none = none
get_option k (some m) = get k m

abbrev pub AreMaps : Option JsonMap → Type 0
AreMaps none = Unit {0}
AreMaps (some m) = IsMap m

or_else_none : (o : Option JsonValue) → or_else o none ≡ o
or_else_none none = refl
or_else_none (some v) = refl

get-insert_all :
    (k : String) (m into : JsonMap)
    → IsMap m
    → get k (insert_all m into) ≡ or_else (get k m) (get k into)
unfolding insert_all get
get-insert_all k JsonMap.empty into h = refl
get-insert_all k (JsonMap.entry j v m) into (new, h) =
    let rest = get-insert_all k m (insert j v into) h in
    elim (Bool-cases (str_eq j k)) [
      | inl p ↦
          let missing = subst (λ x. get x m ≡ none) (str_eq→≡ j k p) new in
          let here =
            subst (λ x. get k (insert x v into) ≡ some v) (sym (str_eq→≡ j k p))
              (get-insert k v into) in
          ground (arith, p, missing, here, rest)
      | inr p ↦ ground (arith, p, get-insert_other j k v into p, rest)
    ]

get-insert_options :
    (k : String) (o : Option JsonMap) (into : JsonMap)
    → AreMaps o
    → get k (insert_options o into) ≡ or_else (get_option k o) (get k into)
unfolding insert_options
get-insert_options k none into h = refl
get-insert_options k (some m) into h = get-insert_all k m into h

-- If no key occurs twice in the options, then in the merged options a key has the value that it has
-- in the inline options, and if it has none there, the value that it has in the outer ones.
pub get-merge_options :
    (k : String) (inline outer : Option JsonMap)
    → AreMaps inline
    → AreMaps outer
    → get k (merge_options inline outer) ≡ or_else (get_option k inline) (get_option k outer)
unfolding merge_options get
get-merge_options k inline outer h j =
    let outside = get-insert_options k outer JsonMap.empty j in
    let both = get-insert_options k inline (insert_options outer JsonMap.empty) h in
    both ∙ ap (or_else (get_option k inline)) (outside ∙ or_else_none (get_option k outer))

get-without_type :
    (k : String) (m result : JsonMap)
    → IsMap m
    → get k (without_type m result)
      ≡ or_else (if str_eq k "type" then none else get k m) (get k result)
unfolding without_type get
get-without_type k JsonMap.empty result h = ground arith
get-without_type k (JsonMap.entry j v m) result (new, h) =
    let skipped = get-without_type k m result h in
    let kept = get-without_type k m (insert j v result) h in
    elim (Bool-cases (str_eq j k)) [
      | inl p ↦
          let same = str_eq→≡ j k p in
          let missing = subst (λ x. get x m ≡ none) same new in
          let here =
            subst (λ x. get k (insert x v result) ≡ some v) (sym same) (get-insert k v result) in
          let name = ap (λ x. str_eq x "type") same in
          ground (arith, p, missing, here, name, skipped, kept)
      | inr p ↦ ground (arith, p, get-insert_other j k v result p, skipped, kept)
    ]

-- If no key occurs twice in an inline type, then its options are its entries less `type`.
pub get-inline_map_without_type :
    (k : String) (m : JsonMap)
    → IsMap m
    → get k (inline_map_without_type m) ≡ (if str_eq k "type" then none else get k m)
unfolding inline_map_without_type get
get-inline_map_without_type k m h =
    get-without_type k m JsonMap.empty h ∙ or_else_none (if str_eq k "type" then none else get k m)
