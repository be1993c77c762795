-- ===== src/Validation/Spec/Emits.antt =====
-- Actions that return a value, add issues at the end of the list, and leave the rest of the state.
use mathlib.Core.Path.{subst}
use mathlib.Core.List.{append-nil, append_assoc}
use rustly_core.Base.{String, ◌≡◌, refl, sym, ap, ◌∙◌, Bool, true, false, [], ◌∷◌, ◌++◌}
use rustly_core.Json.{JsonMap}
use rustly_core.Schema.Ir.{SchemaIr}
use rustly_core.Validation.Options.{ValidationOptions}
use rustly_core.Validation.Path.{PathSegment, pop-push}
use rustly_core.Validation.State.{
  Validator, M, pure, done, continue, ◌>>=◌, ◌>>◌, when, is_strict, push_issue, push_path, pop_path,
}
use rustly_core.Validation.Spec.{Segments, Issues, issue, raise}

abbrev pub at : SchemaIr → ValidationOptions → Segments → Issues → Validator
at s o p is = record { schema = s; options = o; path = p; issues = is }

-- Run at the path `p`, the action returns `a`, and `new` is put behind the issues.
pub record Emits {ℓ} {A : Type ℓ} (s : SchemaIr) (o : ValidationOptions) (p : Segments) (m : M A)
    (a : A) (new : Issues) : Type ℓ where
  pub run : (is : Issues) → m (at s o p is) ≡ done a (at s o p (is ++ new))

module _ (s : SchemaIr) (o : ValidationOptions) (p : Segments) where
  pub Emits-pure {ℓ} : {A : Type ℓ} (a : A) → Emits s o p (pure a) a []
  Emits-pure a = record { run = λ is. ap (λ q. done a (at s o p q)) (sym (append-nil is)) }

  pub Emits-bind {ℓ κ} :
      {A : Type ℓ} {B : Type κ} (m : M A) (f : A → M B) {a : A} {b : B} {x y : Issues}
      → Emits s o p m a x
      → Emits s o p (f a) b y
      → Emits s o p (m >>= f) b (x ++ y)
  unfolding ◌>>=◌
  Emits-bind m f {b = b} {x = x} {y = y} h k = record {
    run = λ is.
        ap (continue f) (h.run is)
        ∙ k.run (is ++ x)
        ∙ ap (λ q. done b (at s o p q)) (append_assoc is x y);
  }

  -- An action that adds no issue, and what follows.
  pub Emits-bind_quiet {ℓ κ} :
      {A : Type ℓ} {B : Type κ} (m : M A) (f : A → M B) {a : A} {b : B} {y : Issues}
      → Emits s o p m a []
      → Emits s o p (f a) b y
      → Emits s o p (m >>= f) b y
  Emits-bind_quiet m f h k = Emits-bind m f h k

  -- The last action of a block adds no issue.
  pub Emits-bind_last {ℓ κ} :
      {A : Type ℓ} {B : Type κ} (m : M A) (f : A → M B) {a : A} {b : B} {x : Issues}
      → Emits s o p m a x
      → Emits s o p (f a) b []
      → Emits s o p (m >>= f) b x
  Emits-bind_last m f {b = b} {x = x} h k =
      subst (λ q. Emits s o p (m >>= f) b q) (append-nil x) (Emits-bind m f h k)

  pub Emits-is_strict : Emits s o p is_strict o.strict []
  Emits-is_strict = record {
    run = λ is. ap (λ q. done o.strict (at s o p q)) (sym (append-nil is));
  }

  pub Emits-push_issue :
      (code : String) (meta : JsonMap)
      → Emits s o p (push_issue code meta) tt (issue p code meta ∷ [])
  unfolding push_issue
  Emits-push_issue code meta = record { run = λ is. refl }

  pub Emits-when :
      (b : Bool) (code : String) (meta : JsonMap)
      → Emits s o p (when b (push_issue code meta)) tt (raise b (issue p code meta))
  Emits-when true code meta = Emits-push_issue code meta
  Emits-when false code meta = Emits-pure tt

-- A push on the path, an action below it, the pop, and what follows.
pub Emits-within {ℓ κ} :
    (s : SchemaIr) (o : ValidationOptions) (p : Segments) {A : Type ℓ} {B : Type κ}
    (g : PathSegment) (m : M A) (k : A → M B) {a : A} {b : B} {x y : Issues}
    → Emits s o (p ++ g ∷ []) m a x
    → Emits s o p (k a) b y
    → Emits s o p (push_path g >> (m >>= λ r. pop_path >> k r)) b (x ++ y)
unfolding push_path pop_path ◌>>=◌
Emits-within s o p g m k {a = a} {b = b} {x = x} {y = y} h n = record {
  run = λ is.
      ap (continue (λ r. pop_path >> k r)) (h.run is)
      ∙ ap (λ q. k a (at s o q (is ++ x))) (pop-push p g)
      ∙ n.run (is ++ x)
      ∙ ap (λ q. done b (at s o p q)) (append_assoc is x y);
}

-- The same where nothing follows that adds an issue.
pub Emits-within_last {ℓ κ} :
    (s : SchemaIr) (o : ValidationOptions) (p : Segments) {A : Type ℓ} {B : Type κ}
    (g : PathSegment) (m : M A) (k : A → M B) {a : A} {b : B} {x : Issues}
    → Emits s o (p ++ g ∷ []) m a x
    → Emits s o p (k a) b []
    → Emits s o p (push_path g >> (m >>= λ r. pop_path >> k r)) b x
Emits-within_last s o p g m k {b = b} {x = x} h n =
    subst (λ q. Emits s o p (push_path g >> (m >>= λ r. pop_path >> k r)) b q) (append-nil x)
      (Emits-within s o p g m k h n)
