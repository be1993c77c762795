-- ===== src/Validation/Accepts/Sound.antt =====
-- A validation that reports nothing delivers a value, and that conforms to the schema.
use mathlib.Core.Path.{subst}
use mathlib.Core.List.{append-eq-nil_iff}
use rustly_core.Base.{◌≡◌, refl, false, [], ◌∷◌, ◌++◌}
use rustly_core.Host.{Host}
use rustly_core.Schema.Expr.{TypeExpr, FieldExprs}
use rustly_core.Validation.Options.{ValidationOptions}
use rustly_core.Validation.Value.{OwnedValue, OwnedDict}
use rustly_core.Validation.Path.{PathSegment, is_empty, is_empty-push}
use rustly_core.Validation.Engine.{dict_find}
use rustly_core.Validation.Spec.{Segments, Check, check, check_fields, check_optional}
use rustly_core.Validation.Accepts.{Conforms, ConformsFields, AcceptsOptional}
use rustly_core.Validation.Accepts.Values.{Gives, Gives-primitive, Gives-enum}
use rustly_core.Validation.Accepts.Walk.{Gives-list, Gives-dict}
use rustly_core.Validation.Accepts.Structs.{field_gives, Gives-struct}

weaken : (C : OwnedValue → Type 0) (w : OwnedValue) → C w → AcceptsOptional C w
weaken C OwnedValue.null c = tt
weaken C _ c = c

Gives-optional :
    (f : Check) (C : OwnedValue → Type 0) (p : Segments) (v : OwnedValue)
    → Gives p (f p v) C
    → Gives p (check_optional f p v) (AcceptsOptional C)
unfolding check_optional
Gives-optional f C p OwnedValue.null h = λ e. (OwnedValue.null, refl, tt)
Gives-optional f C p _ h = λ e. let (w, g, c) = h e in (w, g, weaken C w c)

module _ (H : Host) (o : ValidationOptions) where
  abbrev sub : TypeExpr → Check
  sub t q w = check H o t q w

  abbrev pub Inner : TypeExpr → OwnedValue → Type 0
  Inner t w = Conforms o false t w

  pub below :
      (t : TypeExpr) (p : Segments) (g : PathSegment) (w : OwnedValue)
      → Gives p (check H o t (p ++ g ∷ []) w) (Conforms o (is_empty (p ++ g ∷ [])) t)
      → Gives p (check H o t (p ++ g ∷ []) w) (Inner t)
  below t p g w h e =
      let (r, d, c) = h e in (r, d, subst (λ b. Conforms o b t r) (is_empty-push p g) c)

  mutual
    unfolding check

    pub gives :
        (t : TypeExpr) (p : Segments) (v : OwnedValue)
        → Gives p (check H o t p v) (Conforms o (is_empty p) t)
    gives (TypeExpr.primitive t) p v = Gives-primitive p H o.strict t v
    gives (TypeExpr.enum vs) p v = Gives-enum p o.strict vs v
    gives (TypeExpr.optional t) p v =
        Gives-optional (sub t) (λ w. Conforms o (is_empty p) t w) p v (gives t p v)
    gives (TypeExpr.list t c) p v =
        Gives-list (sub t) (Inner t) (λ q g w. below t q g w (gives t (q ++ g ∷ []) w)) c p v
    gives (TypeExpr.dict t c) p v =
        Gives-dict (sub t) (Inner t) (λ q g w. below t q g w (gives t (q ++ g ∷ []) w)) c p v
    gives (TypeExpr.struct fields extra) p v =
        Gives-struct (λ q m. check_fields H o fields q m) _ _ (λ fs. ConformsFields o fields fs) p v
          (λ m e. gives_fields fields p m e)

    gives_fields :
        (fields : FieldExprs) (p : Segments) (m : OwnedDict)
        → (check_fields H o fields p m).1 ≡ []
        → ConformsFields o fields (check_fields H o fields p m).0
    gives_fields FieldExprs.nil p m e = tt
    gives_fields (FieldExprs.field name pr t rest) p m e =
        let (a, b) = append-eq-nil_iff.0 e in
        field_gives (sub t) (Inner t) (λ fs. ConformsFields o rest fs)
          (λ q g w. below t q g w (gives t (q ++ g ∷ []) w)) name pr p (dict_find m name) _ a
          (gives_fields rest p m b)
