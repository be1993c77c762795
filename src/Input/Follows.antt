-- ===== src/Input/Follows.antt =====
-- Conversions that end as a reading says, and leave the path where they end well.
use rustly_core.Base.{◌≡◌, refl, [], ◌∷◌, ◌++◌}
use rustly_core.Validation.Path.{PathSegment, pop-push}
use rustly_core.Input.{
  Segments, Converted, value, failed, raised, exhausted, C, pure, continue, ◌>>=◌, ◌>>◌, push,
  pop_segment,
}
use rustly_core.Input.Spec
use rustly_core.Input.Spec.{Reading, got, wrong, raising, read, read_items, read_entries, read_key}

abbrev pub SameEnd : {A : Type 0} → Converted A → Reading A → Segments → Type 0
SameEnd (value a q) (got b) p = (a ≡ b) × (q ≡ p)
SameEnd (failed e q) (wrong d) p = e ≡ d
SameEnd raised raising p = Unit {0}
SameEnd _ _ p = ⊥

-- Run at the path `p`, the action ends as the reading says, and leaves the path where it ends well.
pub record Follows {A : Type 0} (m : C A) (p : Segments) (r : Reading A) : Type 0 where
  pub ends : SameEnd (m p) r p

pub Follows-pure : {A : Type 0} (a : A) (p : Segments) → Follows (pure a) p (got a)
Follows-pure a p = record { ends = (refl, refl) }

module _ {A B : Type 0} (p : Segments) where
  pub SameEnd-bind :
      (x : Converted A) (f : A → C B) (r : Reading A) (s : A → Reading B)
      → SameEnd x r p
      → ((a : A) → Follows (f a) p (s a))
      → SameEnd (continue f x) (Spec.◌>>=◌ r s) p
  SameEnd-bind (value a q) f (got b) s (e, g) k = rw (e, g) (k b).ends
  SameEnd-bind (failed e q) f (wrong d) s h k = h
  SameEnd-bind raised f raising s h k = tt
  SameEnd-bind (value a q) f (wrong d) s h k = absurd h
  SameEnd-bind (value a q) f raising s h k = absurd h
  SameEnd-bind (failed e q) f (got b) s h k = absurd h
  SameEnd-bind (failed e q) f raising s h k = absurd h
  SameEnd-bind raised f (got b) s h k = absurd h
  SameEnd-bind raised f (wrong d) s h k = absurd h
  SameEnd-bind exhausted f r s h k = absurd h

  pub Follows-bind :
      (m : C A) (f : A → C B) (r : Reading A) (s : A → Reading B)
      → Follows m p r
      → ((a : A) → Follows (f a) p (s a))
      → Follows (m >>= f) p (Spec.◌>>=◌ r s)
  unfolding ◌>>=◌
  Follows-bind m f r s h k = record { ends = SameEnd-bind (m p) f r s h.ends k }

  -- A push on the path, an action below it, the pop, and what follows.
  pub SameEnd-within :
      (g : PathSegment) (x : Converted A) (f : A → C B) (r : Reading A) (s : A → Reading B)
      → SameEnd x r (p ++ g ∷ [])
      → ((a : A) → Follows (f a) p (s a))
      → SameEnd (continue (λ a. pop_segment >> f a) x) (Spec.◌>>=◌ r s) p
  unfolding pop_segment ◌>>=◌
  SameEnd-within g (value a q) f (got b) s (e, h) k = rw (e, h, pop-push p g) (k b).ends
  SameEnd-within g (failed e q) f (wrong d) s h k = h
  SameEnd-within g raised f raising s h k = tt
  SameEnd-within g (value a q) f (wrong d) s h k = absurd h
  SameEnd-within g (value a q) f raising s h k = absurd h
  SameEnd-within g (failed e q) f (got b) s h k = absurd h
  SameEnd-within g (failed e q) f raising s h k = absurd h
  SameEnd-within g raised f (got b) s h k = absurd h
  SameEnd-within g raised f (wrong d) s h k = absurd h
  SameEnd-within g exhausted f r s h k = absurd h

  pub Follows-within :
      (g : PathSegment) (m : C A) (f : A → C B) (r : Reading A) (s : A → Reading B)
      → Follows m (p ++ g ∷ []) r
      → ((a : A) → Follows (f a) p (s a))
      → Follows (push g >> (m >>= λ a. pop_segment >> f a)) p (Spec.◌>>=◌ r s)
  unfolding push ◌>>=◌
  Follows-within g m f r s h k = record { ends = SameEnd-within g (m (p ++ g ∷ [])) f r s h.ends k }
