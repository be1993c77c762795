-- ===== src/Json/Lookup.antt =====
-- What `get` finds in a map after `insert`.
use mathlib.Core.Path.{subst}
use rustly_core.Base.{
  String, Bool-cases, ◌≡◌, sym, inl, inr, none, some, str_eq, str_eq→≡, str_eq_refl, false, arith,
}
use rustly_core.Json.{JsonValue, JsonMap, get, insert}

-- No key occurs twice, as in every `Map`.
abbrev pub IsMap : JsonMap → Type 0
IsMap JsonMap.empty = Unit {0}
IsMap (JsonMap.entry k v m) = (get k m ≡ none) × IsMap m

pub get-insert : (k : String) (v : JsonValue) (m : JsonMap) → get k (insert k v m) ≡ some v
unfolding get insert
get-insert k v JsonMap.empty = ground (arith, str_eq_refl k)
get-insert k v (JsonMap.entry j w m) = ground (arith, str_eq_refl k, get-insert k v m)

pub get-insert_other :
    (j k : String) (v : JsonValue) (m : JsonMap)
    → str_eq j k ≡ false
    → get k (insert j v m) ≡ get k m
unfolding get insert
get-insert_other j k v JsonMap.empty e = ground (arith, e)
get-insert_other j k v (JsonMap.entry i w m) e =
    let more = get-insert_other j k v m e in
    elim (Bool-cases (str_eq i j)) [
      | inl p ↦
          let q = subst (λ x. str_eq x k ≡ false) (sym (str_eq→≡ i j p)) e in
          ground (arith, e, p, q)
      | inr p ↦ ground (arith, e, p, more)
    ]
