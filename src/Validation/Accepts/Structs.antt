-- ===== src/Validation/Accepts/Structs.antt =====
-- The checks of the fields and the extra keys of a struct.
use mathlib.Core.List.{append-eq-nil_iff}
use text.Mathlib.TextEquality.{eq_iff}
use rustly_core.Base.{
  ℕ, suc, ◌≡◌, refl, ◌≢◌, inl, inr, String, Bool-cases, Option, none, some, List, [], ◌∷◌, str_eq,
  arith,
}
use rustly_core.Schema.Ir.{ExtraBehavior, StructFieldPresence}
use rustly_core.Validation.Value.{OwnedValue, OwnedDict, OwnedFields, OwnedExtras}
use rustly_core.Validation.Path.{PathSegment}
use rustly_core.Validation.Engine.{find_field_index, field_value}
use rustly_core.Validation.Spec.{
  Segments, Issues, Check, Extras, check_field, check_extra, check_extras, check_unless_field,
  check_struct,
}
use rustly_core.Validation.Accepts.{
  AllEntries, AcceptsField, KeysAllowed, AcceptsStruct, OneOf, ConformsField, ConformsExtras,
  ConformsStruct,
}
use rustly_core.Validation.Accepts.Values.{Silent, Silent-append, Silent-nil, Gives}
use rustly_core.Validation.Accepts.Walk.{SilentBelow, GivesBelow}

-- A search finds a name exactly if it is one of the names.
data Search (names : List String) (k : String) : Type 0 where
  found : (i : ℕ) → find_field_index names k ≡ some i → OneOf k names → Search names k
  unknown : find_field_index names k ≡ none → ¬ (OneOf k names) → Search names k

Search-cons : (n : String) (ns : List String) (k : String) → Search ns k → Search (n ∷ ns) k
unfolding find_field_index
Search-cons n ns k s = elim (Bool-cases (str_eq n k)) [
  | inl same ↦ found 0 (rw same) (inl ((eq_iff n k).0 same))
  | inr other ↦ elim s [
    | found i e h ↦ found (suc i) (rw (other, e)) (inr h)
    | unknown e h ↦ unknown (rw (other, e)) (λ o. ground (arith, eq_iff n k, h))
  ]
]

Search-names : (names : List String) (k : String) → Search names k
unfolding find_field_index
Search-names [] k = unknown refl (λ h. h)
Search-names (n ∷ ns) k = Search-cons n ns k (Search-names ns k)

module _ (names : List String) (p : Segments) where
  -- What is kept of the extra keys conforms, whatever is reported.
  extra_conforms :
      (policy : ExtraBehavior) (k : String) (v : OwnedValue) (rest : Extras)
      → ¬ (OneOf k names)
      → ConformsExtras policy names rest.0
      → ConformsExtras policy names (check_extra policy p k v rest).0
  extra_conforms ExtraBehavior.forbid k v rest h c = c
  extra_conforms ExtraBehavior.ignore k v rest h c = c
  extra_conforms ExtraBehavior.allow k v (OwnedExtras.no_extras, is) h c = (refl, (h, tt))
  extra_conforms ExtraBehavior.allow k v (OwnedExtras.extras m, is) h c = (refl, (h, c.1))

  unless_conforms :
      (policy : ExtraBehavior) (k : String) (v : OwnedValue) (rest : Extras)
      → Search names k
      → ConformsExtras policy names rest.0
      → ConformsExtras policy names
          (check_unless_field (find_field_index names k) policy p k v rest).0
  unless_conforms policy k v rest (found i e o) c = rw e c
  unless_conforms policy k v rest (unknown e h) c = rw e (extra_conforms policy k v rest h c)

  pub extras_conform :
      (policy : ExtraBehavior) (m : OwnedDict)
      → ConformsExtras policy names (check_extras names policy p m).0
  unfolding check_extras
  extras_conform policy OwnedDict.empty = tt
  extras_conform policy (OwnedDict.entry k v m) =
      unless_conforms policy k v _ (Search-names names k) (extras_conform policy m)

  -- Extra keys are reported exactly if they are forbidden and there is one.
  forbid_one :
      (k : String) (v : OwnedValue) (rest : Extras) {P : Type 0}
      → Search names k
      → Silent rest.1 P
      → Silent
          (check_unless_field (find_field_index names k) ExtraBehavior.forbid p k v rest).1
          (OneOf k names × P)
  forbid_one k v rest (found i e o) s = rw e (λ h. (o, s.0 h), λ q. s.1 q.1)
  forbid_one k v rest (unknown e o) s = rw e (λ h. ground arith, λ q. absurd (o q.0))

  quiet :
      (policy : ExtraBehavior) (o : Option ℕ) (k : String) (v : OwnedValue) (rest : Extras)
      → policy ≢ ExtraBehavior.forbid
      → rest.1 ≡ []
      → (check_unless_field o policy p k v rest).1 ≡ []
  quiet policy (some i) k v rest h e = e
  quiet ExtraBehavior.forbid none k v rest h e = absurd (h refl)
  quiet ExtraBehavior.ignore none k v rest h e = e
  quiet ExtraBehavior.allow none k v rest h e = e

  all_quiet :
      (policy : ExtraBehavior) (m : OwnedDict)
      → policy ≢ ExtraBehavior.forbid
      → (check_extras names policy p m).1 ≡ []
  unfolding check_extras
  all_quiet policy OwnedDict.empty h = refl
  all_quiet policy (OwnedDict.entry k v m) h = quiet policy _ k v _ h (all_quiet policy m h)

  Silent-forbid :
      (m : OwnedDict)
      → Silent (check_extras names ExtraBehavior.forbid p m).1 (AllEntries (λ k v. OneOf k names) m)
  unfolding check_extras
  Silent-forbid OwnedDict.empty = Silent-nil
  Silent-forbid (OwnedDict.entry k v m) = forbid_one k v _ (Search-names names k) (Silent-forbid m)

  pub Silent-extras :
      (policy : ExtraBehavior) (m : OwnedDict)
      → Silent (check_extras names policy p m).1 (KeysAllowed policy names m)
  Silent-extras ExtraBehavior.forbid m = Silent-forbid m
  Silent-extras ExtraBehavior.ignore m = (λ e. tt, λ t. all_quiet ExtraBehavior.ignore m (λ e. cc))
  Silent-extras ExtraBehavior.allow m = (λ e. tt, λ t. all_quiet ExtraBehavior.allow m (λ e. cc))

pub Silent-field :
    (f : Check) (P : OwnedValue → Type 0)
    → SilentBelow f P
    → (name : String) (presence : StructFieldPresence) (p : Segments) (v : Option OwnedValue)
    → Silent (check_field f name presence p v).1 (AcceptsField P presence v)
Silent-field f P h name presence p (some v) = h p (PathSegment.key name) v
Silent-field f P h name StructFieldPresence.required p none = (λ e. ground arith, λ e. ground arith)
Silent-field f P h name StructFieldPresence.optional p none = (λ e. refl, λ e. refl)

pub field_gives :
    (f : Check) (C : OwnedValue → Type 0) (Q : OwnedFields → Type 0)
    → GivesBelow f C
    → (name : String) (presence : StructFieldPresence) (p : Segments) (v : Option OwnedValue)
      (rest : OwnedFields)
    → (check_field f name presence p v).1 ≡ []
    → Q rest
    → ConformsField C Q presence (field_value (check_field f name presence p v).0 rest)
field_gives f C Q h name presence p (some v) rest e q =
    let (w, g, c) = h p (PathSegment.key name) v e in rw g (c, q)
field_gives f C Q h name StructFieldPresence.required p none rest e q = ground arith
field_gives f C Q h name StructFieldPresence.optional p none rest e q = (refl, q)

module _ (f : Segments → OwnedDict → OwnedFields × Issues) (names : List String)
    (policy : ExtraBehavior) where
  pub Silent-struct :
      (P : OwnedDict → Type 0) (p : Segments) (v : OwnedValue)
      → ((m : OwnedDict) → Silent (f p m).1 (P m))
      → Silent (check_struct f names policy p v).1 (AcceptsStruct P names policy v)
  unfolding check_struct
  Silent-struct P p (OwnedValue.dict m) h = Silent-append _ _ (h m) (Silent-extras names p policy m)
  Silent-struct P p _ h = (λ e. ground arith, λ b. absurd b)

  pub Gives-struct :
      (C : OwnedFields → Type 0) (p : Segments) (v : OwnedValue)
      → ((m : OwnedDict) → (f p m).1 ≡ [] → C (f p m).0)
      → Gives p (check_struct f names policy p v) (ConformsStruct C names policy)
  unfolding check_struct
  Gives-struct C p (OwnedValue.dict m) h e = (
    OwnedValue.struct names (f p m).0 (check_extras names policy p m).0,
    refl,
    (refl, h m (append-eq-nil_iff.0 e).0, extras_conform names p policy m),
  )
  Gives-struct C p _ h e = ground arith
