-- ===== src/Materialize.antt =====
-- The Ruby object for a validated value (ext/rustly_core/src/materialize.rs). Ruby's heap is a
-- parameter, with the calls of the C API as its operations. The guards that register values with the
-- garbage collector, and the capacities of arrays and hashes, are memory alone.
pub mod Bad
pub mod Runs
pub mod Fails
pub mod Instance
use rustly_core.Base.{ℕ, String, true, false, Option, none, some, List, [], ◌∷◌, if◌then◌else◌}
use rustly_core.Base.Int.{ℤ}
use rustly_core.Base.Float.{F64}
use rustly_core.Ruby.{RubyValue, Reads}
use rustly_core.Schema.Plan.{has_nul}
use rustly_core.Validation.Value.{OwnedValue, OwnedList, OwnedDict, OwnedFields, OwnedExtras}

pub data MaterializeError : Type 0 where
  unsupported_root : String → MaterializeError
  invalid_symbol : String → MaterializeError
  invalid_key : String → MaterializeError

-- Ruby's heap: what the reads give in a state of it, and the calls that change it. `none`: the call
-- raises an exception.
pub record RubyHeap : Type 1 where
  pub Store : Type 0
  pub reads : Store → Reads
  pub rb_ll2inum : ℤ → Store → RubyValue × Store
  pub rb_ull2inum : ℕ → Store → RubyValue × Store
  pub rb_float_new : F64 → Store → RubyValue × Store
  pub rb_utf8_str_new : String → Store → RubyValue × Store
  pub rb_intern2 : String → Store → ℕ × Store
  pub rb_id2sym : ℕ → Store → RubyValue × Store
  pub rb_ary_new : Store → RubyValue × Store
  pub rb_ary_push : RubyValue → RubyValue → Store → Store
  pub rb_hash_new : Store → RubyValue × Store
  pub rb_hash_aset : RubyValue → RubyValue → RubyValue → Store → Store
  pub rb_obj_alloc : RubyValue → Store → Option (RubyValue × Store)
  pub rb_ivar_set : RubyValue → ℕ → RubyValue → Store → Option Store
  pub rb_obj_freeze : RubyValue → Store → Store

-- The end of a function on the heap; `exhausted`: the fuel of `deep_freeze_value` has run out;
-- `panicked`: the program ends.
pub data Built (S : Type 0) (A : Type 0) : Type 0 where
  built : A → S → Built S A
  failed : MaterializeError → S → Built S A
  raised : S → Built S A
  exhausted panicked : Built S A

module _ (Y : RubyHeap) where
  abbrev pub B : Type 0 → Type 0
  B A = Y.Store → Built Y.Store A

module _ {S : Type 0} where
  abbrev pub pure : {A : Type 0} → A → S → Built S A
  pure a st = built a st

  abbrev pub continue : {A C : Type 0} → (A → S → Built S C) → Built S A → Built S C
  continue f (built a st) = f a st
  continue f (failed e st) = failed e st
  continue f (raised st) = raised st
  continue f exhausted = exhausted
  continue f panicked = panicked

  infixl 5 ◌>>=◌ ◌>>◌
  unfoldable pub ◌>>=◌ : {A C : Type 0} → (S → Built S A) → (A → S → Built S C) → S → Built S C
  ◌>>=◌ m f st = continue f (m st)

  abbrev pub ◌>>◌ : {A C : Type 0} → (S → Built S A) → (S → Built S C) → S → Built S C
  m >> n = m >>= λ _. n

  abbrev pub call : {A : Type 0} → (S → A × S) → S → Built S A
  call f st = built (f st).0 (f st).1

  abbrev pub look : {A : Type 0} → (S → A) → S → Built S A
  look f st = built (f st) st

  abbrev pub change : (S → S) → S → Built S (Unit {0})
  change f st = built tt (f st)

  abbrev pub fail : {A : Type 0} → MaterializeError → S → Built S A
  fail e st = failed e st

  abbrev pub or_raised : {A : Type 0} → S → Option (A × S) → Built S A
  or_raised before none = raised before
  or_raised before (some (a, st)) = built a st

  abbrev pub changed_or_raised : S → Option S → Built S (Unit {0})
  changed_or_raised before none = raised before
  changed_or_raised before (some st) = built tt st

module _ (Y : RubyHeap) where
  unfoldable pub symbol_to_value : String → B Y RubyValue
  unfolding ◌>>=◌
  symbol_to_value name =
      if has_nul name
      then fail (invalid_symbol name)
      else (call (Y.rb_intern2 name) >>= λ id. call (Y.rb_id2sym id))

  -- `symbol_from_key`
  abbrev pub symbol_from_key : String → B Y RubyValue
  symbol_from_key key = symbol_to_value key

  unfoldable pub attribute_key_value : String → B Y RubyValue
  attribute_key_value name =
      if has_nul name then fail (invalid_key name) else call (Y.rb_utf8_str_new name)

  unfoldable mutual
    unfolding symbol_to_value attribute_key_value

    pub owned_value_to_ruby : OwnedValue → B Y RubyValue
    owned_value_to_ruby OwnedValue.null = look (λ st. (Y.reads st).qnil)
    owned_value_to_ruby (OwnedValue.bool true) = look (λ st. (Y.reads st).qtrue)
    owned_value_to_ruby (OwnedValue.bool false) = look (λ st. (Y.reads st).qfalse)
    owned_value_to_ruby (OwnedValue.int i) = call (Y.rb_ll2inum i)
    owned_value_to_ruby (OwnedValue.float f) = call (Y.rb_float_new f)
    owned_value_to_ruby (OwnedValue.string s) = call (Y.rb_utf8_str_new s)
    owned_value_to_ruby (OwnedValue.symbol s) = symbol_to_value s
    owned_value_to_ruby (OwnedValue.list items) = do
      array ← call Y.rb_ary_new
      push_items array items
      pure array
    owned_value_to_ruby (OwnedValue.dict map) = do
      hash ← call Y.rb_hash_new
      put_entries hash map
      pure hash
    owned_value_to_ruby (OwnedValue.struct names fields ex) = do
      hash ← call Y.rb_hash_new
      put_fields hash fields names
      put_extras hash ex
      pure hash

    -- The loop over the items of a list.
    pub push_items : RubyValue → OwnedList → B Y (Unit {0})
    push_items array OwnedList.nil = pure tt
    push_items array (OwnedList.cons v vs) = do
      x ← owned_value_to_ruby v
      change (Y.rb_ary_push array x)
      push_items array vs

    -- The loop of `build_hash`.
    pub put_entries : RubyValue → OwnedDict → B Y (Unit {0})
    put_entries hash OwnedDict.empty = pure tt
    put_entries hash (OwnedDict.entry key v m) = do
      symbol ← symbol_from_key key
      x ← owned_value_to_ruby v
      change (Y.rb_hash_aset hash symbol x)
      put_entries hash m

    -- The loop over the names and the fields of a struct, as far as there are both.
    pub put_fields : RubyValue → OwnedFields → List String → B Y (Unit {0})
    put_fields hash OwnedFields.end names = pure tt
    put_fields hash (OwnedFields.absent fs) [] = pure tt
    put_fields hash (OwnedFields.absent fs) (n ∷ ns) = put_fields hash fs ns
    put_fields hash (OwnedFields.present v fs) [] = pure tt
    put_fields hash (OwnedFields.present v fs) (n ∷ ns) = do
      x ← owned_value_to_ruby v
      key ← symbol_from_key n
      change (Y.rb_hash_aset hash key x)
      put_fields hash fs ns

    pub put_extras : RubyValue → OwnedExtras → B Y (Unit {0})
    put_extras hash OwnedExtras.no_extras = pure tt
    put_extras hash (OwnedExtras.extras m) = put_extra_entries hash m

    -- The loop over the extra keys of a struct.
    pub put_extra_entries : RubyValue → OwnedDict → B Y (Unit {0})
    put_extra_entries hash OwnedDict.empty = pure tt
    put_extra_entries hash (OwnedDict.entry key v m) = do
      x ← owned_value_to_ruby v
      k ← attribute_key_value key
      change (Y.rb_hash_aset hash k x)
      put_extra_entries hash m
