-- ===== src/Validation/Accepts/Decides.antt =====
-- A validation reports nothing exactly if the type expression accepts the value.
use mathlib.Core.Path.{subst}
use rustly_core.Base.{false, [], ◌∷◌, ◌++◌}
use rustly_core.Host.{Host}
use rustly_core.Schema.Expr.{TypeExpr, FieldExprs}
use rustly_core.Validation.Options.{ValidationOptions}
use rustly_core.Validation.Value.{OwnedValue, OwnedDict}
use rustly_core.Validation.Path.{PathSegment, is_empty, is_empty-push}
use rustly_core.Validation.Engine.{dict_find}
use rustly_core.Validation.Spec.{Segments, Check, check, check_fields, check_optional}
use rustly_core.Validation.Accepts.{Accepts, AcceptsFields, AcceptsOptional, Conforms}
use rustly_core.Validation.Accepts.Values.{
  Silent, Silent-append, Silent-nil, Silent-primitive, Silent-enum, Gives,
}
use rustly_core.Validation.Accepts.Walk.{Silent-list, Silent-dict}
use rustly_core.Validation.Accepts.Structs.{Silent-field, Silent-struct}
use rustly_core.Validation.Accepts.Sound.{gives, below}

Silent-optional :
    (f : Check) (P : OwnedValue → Type 0) (p : Segments) (v : OwnedValue)
    → Silent (f p v).1 (P v)
    → Silent (check_optional f p v).1 (AcceptsOptional P v)
unfolding check_optional
Silent-optional f P p OwnedValue.null h = Silent-nil
Silent-optional f P p _ h = h

module _ (H : Host) (o : ValidationOptions) where
  abbrev sub : TypeExpr → Check
  sub t q w = check H o t q w

  abbrev Inner : TypeExpr → OwnedValue → Type 0
  Inner t w = Accepts H o false t w

  abbrev Conforming : TypeExpr → OwnedValue → Type 0
  Conforming t w = Conforms o false t w

  silent_below :
      (t : TypeExpr) (p : Segments) (g : PathSegment) (w : OwnedValue)
      → Silent (check H o t (p ++ g ∷ []) w).1 (Accepts H o (is_empty (p ++ g ∷ [])) t w)
      → Silent (check H o t (p ++ g ∷ []) w).1 (Inner t w)
  silent_below t p g w h =
      subst (λ b. Silent (check H o t (p ++ g ∷ []) w).1 (Accepts H o b t w)) (is_empty-push p g) h

  gives_below :
      (t : TypeExpr) (p : Segments) (g : PathSegment) (w : OwnedValue)
      → Gives p (check H o t (p ++ g ∷ []) w) (Conforming t)
  gives_below t p g w = below H o t p g w (gives H o t (p ++ g ∷ []) w)

  mutual
    unfolding check

    pub silent :
        (t : TypeExpr) (p : Segments) (v : OwnedValue)
        → Silent (check H o t p v).1 (Accepts H o (is_empty p) t v)
    silent (TypeExpr.primitive t) p v = Silent-primitive p H o.strict t v
    silent (TypeExpr.enum vs) p v = Silent-enum p o.strict vs v
    silent (TypeExpr.optional t) p v =
        Silent-optional (sub t) (λ w. Accepts H o (is_empty p) t w) p v (silent t p v)
    silent (TypeExpr.list t c) p v =
        Silent-list (sub t) (Conforming t) (gives_below t) (Inner t)
          (λ q g w. silent_below t q g w (silent t (q ++ g ∷ []) w)) c p v
    silent (TypeExpr.dict t c) p v =
        Silent-dict (sub t) (Conforming t) (gives_below t) (Inner t)
          (λ q g w. silent_below t q g w (silent t (q ++ g ∷ []) w)) c p v
    silent (TypeExpr.struct fields extra) p v =
        Silent-struct (λ q m. check_fields H o fields q m) _ _ (λ m. AcceptsFields H o fields m) p v
          (λ m. silent_fields fields p m)

    silent_fields :
        (fields : FieldExprs) (p : Segments) (m : OwnedDict)
        → Silent (check_fields H o fields p m).1 (AcceptsFields H o fields m)
    silent_fields FieldExprs.nil p m = Silent-nil
    silent_fields (FieldExprs.field name pr t rest) p m =
        Silent-append _ _
          (Silent-field (sub t) (Inner t) (λ q g w. silent_below t q g w (silent t (q ++ g ∷ []) w))
            name pr p (dict_find m name))
          (silent_fields rest p m)
