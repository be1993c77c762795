-- ===== src/Native/Init/Distinct.antt =====
-- The symbols that the extension keeps are different objects.
use rustly_core.Base.{
  ℕ, String, str_eq, str_eq_refl, ◌≢◌, ◌≡◌, refl, sym, ap, ◌∙◌, true, false, Option, some, List, [],
  ◌∷◌, arith,
}
use rustly_core.Ruby.{RubyValue}
use rustly_core.Materialize.{RubyHeap}
use rustly_core.Heap.{Cell, Kept}
use rustly_core.Native.Options.{Symbols}
use rustly_core.Native.Init.{Function, ClassApi}

-- Defining modules, classes and methods changes no other object.
pub record ClassLaws (Y : RubyHeap) (D : ClassApi Y) (cells : Y.Store → RubyValue → Option Cell)
    : Type 0 where
  pub module_kept : (name : String) (st : Y.Store) → Kept cells st (D.rb_define_module name st).1
  pub module_under_kept :
      (m : RubyValue) (name : String) (st : Y.Store)
      → Kept cells st (D.rb_define_module_under m name st).1
  pub class_under_kept :
      (m : RubyValue) (name : String) (c : RubyValue) (st : Y.Store)
      → Kept cells st (D.rb_define_class_under m name c st).1
  pub alloc_func_kept :
      (c : RubyValue) (f : Function) (st : Y.Store) → Kept cells st (D.rb_define_alloc_func c f st)
  pub method_kept :
      (c : RubyValue) (name : String) (f : Function) (n : ℕ) (st : Y.Store)
      → Kept cells st (D.rb_define_method c name f n st)
  pub singleton_method_kept :
      (c : RubyValue) (name : String) (f : Function) (n : ℕ) (st : Y.Store)
      → Kept cells st (D.rb_define_singleton_method c name f n st)

-- The five objects are the symbols of their names.
pub record AreSymbols {S : Type 0} (cells : S → RubyValue → Option Cell) (st : S) (s : Symbols)
    : Type 0 where
  pub strict : cells st s.strict ≡ some (Cell.symbol "strict")
  pub extra : cells st s.extra ≡ some (Cell.symbol "extra")
  pub input_mode : cells st s.input_mode ≡ some (Cell.symbol "input_mode")
  pub freeze : cells st s.freeze ≡ some (Cell.symbol "freeze")
  pub store_attributes : cells st s.store_attributes ≡ some (Cell.symbol "store_attributes")

abbrev pub all_symbols : Symbols → List RubyValue
all_symbols s = s.strict ∷ s.extra ∷ s.input_mode ∷ s.freeze ∷ s.store_attributes ∷ []

abbrev pub IsNoneOf : RubyValue → List RubyValue → Type 0
IsNoneOf v [] = Unit {0}
IsNoneOf v (w ∷ ws) = (v ≢ w) × IsNoneOf v ws

abbrev pub AreDistinct : List RubyValue → Type 0
AreDistinct [] = Unit {0}
AreDistinct (v ∷ vs) = IsNoneOf v vs × AreDistinct vs

abbrev name_in : Option Cell → String
name_in (some (Cell.symbol s)) = s
name_in _ = ""

symbols_differ :
    {S : Type 0} (cells : S → RubyValue → Option Cell) (st : S) (v w : RubyValue) (s t : String)
    → cells st v ≡ some (Cell.symbol s)
    → cells st w ≡ some (Cell.symbol t)
    → str_eq s t ≡ false
    → v ≢ w
symbols_differ cells st v w s t e f h p =
    let q : s ≡ t = ap name_in (sym e ∙ ap (cells st) p ∙ f) in
    let r : str_eq s t ≡ true = rw q (str_eq_refl t) in ground (arith, sym r ∙ h)

pub distinct_lem :
    {S : Type 0} (cells : S → RubyValue → Option Cell) (st : S) (s : Symbols)
    → AreSymbols cells st s
    → AreDistinct (all_symbols s)
distinct_lem cells st s h = (
  (
    symbols_differ cells st _ _ _ _ h.strict h.extra refl,
    (
      symbols_differ cells st _ _ _ _ h.strict h.input_mode refl,
      (
        symbols_differ cells st _ _ _ _ h.strict h.freeze refl,
        (symbols_differ cells st _ _ _ _ h.strict h.store_attributes refl, tt),
      ),
    ),
  ),
  (
    (
      symbols_differ cells st _ _ _ _ h.extra h.input_mode refl,
      (
        symbols_differ cells st _ _ _ _ h.extra h.freeze refl,
        (symbols_differ cells st _ _ _ _ h.extra h.store_attributes refl, tt),
      ),
    ),
    (
      (
        symbols_differ cells st _ _ _ _ h.input_mode h.freeze refl,
        (symbols_differ cells st _ _ _ _ h.input_mode h.store_attributes refl, tt),
      ),
      ((symbols_differ cells st _ _ _ _ h.freeze h.store_attributes refl, tt), (tt, tt)),
    ),
  ),
)
