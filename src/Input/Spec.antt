-- ===== src/Input/Spec.antt =====
-- What the conversion gives, as a function on trees: no fuel, and no path to push and pop.
use rustly_core.Base.{ℕ, suc, String, [], ◌∷◌, ◌++◌}
use rustly_core.Validation.Path.{PathSegment, format_path}
use rustly_core.Validation.Value.{OwnedValue, OwnedList, OwnedDict}
use rustly_core.Input.{InputError, Segments}
use rustly_core.Input.Shape.{RubyData, RubyItems, RubyEntries, RubyKey}

pub data Reading {ℓ} (A : Type ℓ) : Type ℓ where
  got : A → Reading A
  wrong : InputError → Reading A
  raising : Reading A

infixl 5 ◌>>=◌
abbrev pub ◌>>=◌ {ℓ κ} : {A : Type ℓ} {B : Type κ} → Reading A → (A → Reading B) → Reading B
got a >>= f = f a
wrong e >>= f = wrong e
raising >>= f = raising

abbrev pub read_key : RubyKey → Segments → Reading String
read_key (RubyKey.named s) p = got s
read_key (RubyKey.other_key c) p = wrong (InputError.invalid_hash_key (format_path p) c)

-- The first part that has no conversion makes the error, with the path of that part; a key that is
-- neither a string nor a symbol makes an error with the path of its hash.
unfoldable mutual
  pub read : RubyData → Segments → Reading OwnedValue
  read RubyData.nil p = got OwnedValue.null
  read (RubyData.boolean b) p = got (OwnedValue.bool b)
  read (RubyData.integer i) p = got (OwnedValue.int i)
  read RubyData.huge p = raising
  read (RubyData.float f) p = got (OwnedValue.float f)
  read (RubyData.string s) p = got (OwnedValue.string s)
  read (RubyData.symbol s) p = got (OwnedValue.symbol s)
  read (RubyData.list ds) p = do vs ← read_items ds 0 p; got (OwnedValue.list vs)
  read (RubyData.hash es) p = do m ← read_entries es p; got (OwnedValue.dict m)
  read (RubyData.other c) p = wrong (InputError.unsupported_type (format_path p) c)

  pub read_items : RubyItems → ℕ → Segments → Reading OwnedList
  read_items RubyItems.no_items i p = got OwnedList.nil
  read_items (RubyItems.item d ds) i p = do
    v ← read d (p ++ PathSegment.index i ∷ [])
    vs ← read_items ds (suc i) p
    got (OwnedList.cons v vs)

  pub read_entries : RubyEntries → Segments → Reading OwnedDict
  read_entries RubyEntries.no_entries p = got OwnedDict.empty
  read_entries (RubyEntries.entry key d es) p = do
    k ← read_key key p
    v ← read d (p ++ PathSegment.key k ∷ [])
    m ← read_entries es p
    got (OwnedDict.entry k v m)
