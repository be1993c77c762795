-- ===== src/Materialize/Fails.antt =====
-- Where the conversion of a validated value to a Ruby object fails.
use rustly_core.Base.{Option}
use rustly_core.Validation.Value.{OwnedValue}
use rustly_core.Materialize.{MaterializeError, RubyHeap, Built, owned_value_to_ruby}
use rustly_core.Materialize.Bad.{bad}
use rustly_core.Materialize.Runs.{Keeps, Runs, owned_value_to_ruby-Runs}

abbrev Always : {S : Type 0} → S → S → Type 0
Always a b = Unit {0}

-- A value without an error, or the error.
abbrev pub Fails : {S A : Type 0} → Option MaterializeError → (S → Built S A) → Type 0
Fails = Runs Always

Always-kept : (Y : RubyHeap) → Keeps Y Always
Always-kept Y = record {
  preorder = record { same = λ st. tt; chain = λ a b c r s. tt };
  ll2inum = λ i st. tt;
  float_new = λ f st. tt;
  str_new = λ s st. tt;
  intern2 = λ s st. tt;
  id2sym = λ id st. tt;
  ary_new = λ st. tt;
  ary_push = λ array x st. tt;
  hash_new = λ st. tt;
  hash_aset = λ hash k x st. tt;
}

module _ (Y : RubyHeap) where
  -- Whatever the heap, a value becomes a Ruby object exactly if none of its symbols, of its keys and of
  -- the names of its fields has a NUL; else the first one that has a NUL makes the error.
  pub owned_value_to_ruby-Fails : (v : OwnedValue) → Fails (bad v) (owned_value_to_ruby Y v)
  owned_value_to_ruby-Fails v = owned_value_to_ruby-Runs Y Always (Always-kept Y) v
