-- ===== src/Schema/Parse/Post.antt =====
-- What the results of the parser satisfy: a value has a property, an error lies under the path that
-- was given, and the fuel does not run out.
use text.Mathlib.TextLemmas.{append-nil, append_assoc}
use rustly_core.Base.{
  if◌then◌else◌, Bool, true, false, String, ◌<>◌, ◌≡◌, refl, sym, ◌∙◌, Option, none, some,
}
use rustly_core.Schema.Error.{
  CompileError, json_conversion, invalid_schema, json, Compiled, ok, err, exhausted, ◌>>=◌, invalid,
  or_invalid,
}

-- The error is an invalid schema, and its path begins with `path`.
abbrev pub Under : String → CompileError → Type 0
Under path (json_conversion m) = ⊥
Under path (invalid_schema q m) = (rest : String) × (q ≡ path <> rest)
Under path (json m) = ⊥

abbrev pub Holds {ℓ} : {A : Type ℓ} → String → (A → Type 0) → Compiled A → Type 0
Holds path Q (ok a) = Q a
Holds path Q (err e) = Under path e
Holds path Q exhausted = ⊥

pub record Post {ℓ} {A : Type ℓ} (path : String) (Q : A → Type 0) (m : Compiled A) : Type 0 where
  pub holds : Holds path Q m

module _ {ℓ κ} {A : Type ℓ} {B : Type κ} {path : String} {Q : A → Type 0} {R : B → Type 0} where
  pub Post-bind :
      {m : Compiled A} {f : A → Compiled B}
      → Post path Q m
      → ((a : A) → Q a → Post path R (f a))
      → Post path R (m >>= f)
  unfolding ◌>>=◌
  Post-bind {m = ok a} h k = k a h.holds
  Post-bind {m = err e} h k = record { holds = h.holds }
  Post-bind {m = exhausted} h k = absurd h.holds

module _ {ℓ} {A : Type ℓ} {Q : A → Type 0} where
  pub Post-ok : {path : String} {a : A} → Q a → Post path Q (ok a)
  Post-ok q = record { holds = q }

  pub Post-invalid : {path : String} (message : String) → Post path Q (invalid path message)
  unfolding invalid
  Post-invalid {path = path} message = record { holds = ("", sym (append-nil path)) }

  pub Post-or_invalid :
      {path : String} {o : Option A} (message : String)
      → ((a : A) → o ≡ some a → Q a)
      → Post path Q (or_invalid o path message)
  unfolding or_invalid invalid
  Post-or_invalid {o = none} message h = Post-invalid message
  Post-or_invalid {o = some a} message h = Post-ok (h a refl)

  pub Post-if :
      {path : String} (b : Bool) {x y : Compiled A}
      → Post path Q x
      → Post path Q y
      → Post path Q (if b then x else y)
  Post-if true h k = h
  Post-if false h k = k

  -- An error below a longer path lies below the path.
  pub Post-deeper : (path s : String) (m : Compiled A) → Post (path <> s) Q m → Post path Q m
  Post-deeper path s (ok a) h = Post-ok h.holds
  Post-deeper path s (err (json_conversion m)) h = absurd h.holds
  Post-deeper path s (err (invalid_schema q m)) h = record {
    holds = (s <> h.holds.0, h.holds.1 ∙ append_assoc path s h.holds.0);
  }
  Post-deeper path s (err (json m)) h = absurd h.holds
  Post-deeper path s exhausted h = absurd h.holds

pub Post-weaken {ℓ} :
    {A : Type ℓ} {path : String} {Q R : A → Type 0} (m : Compiled A)
    → Post path Q m
    → ((a : A) → Q a → R a)
    → Post path R m
Post-weaken (ok a) h k = Post-ok (k a h.holds)
Post-weaken (err e) h k = record { holds = h.holds }
Post-weaken exhausted h k = absurd h.holds
