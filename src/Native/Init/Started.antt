-- ===== src/Native/Init/Started.antt =====
-- What the start of the extension leaves behind (`Init_rustly_core` of ext/rustly_core/src/lib.rs).
use rustly_core.Base.{ℕ, String, ◌≡◌, refl, ap, ◌∙◌, Option, none}
use rustly_core.Ruby.{RubyValue}
use rustly_core.Materialize.{RubyHeap, Built, built, B, pure, continue, call, change, ◌>>=◌}
use rustly_core.Materialize.Runs.{Runs, IsPreorder, Runs-bind, Runs-change, Runs-pure, Runs-call}
use rustly_core.Heap.{Cell, Kept, HeapLaws}
use rustly_core.Heap.Frame.{Kept-chain}
use rustly_core.Native.Options.{Symbols}
use rustly_core.Native.Messages.{ensure_symbol}
use rustly_core.Native.Init.{
  Function, ClassApi, Classes, Statics, define_compiled_schema, define_error_set,
  define_core_methods, define_bench, define_classes, ensure_symbols, init_rustly_core,
}
use rustly_core.Native.Init.Distinct.{ClassLaws, AreSymbols, all_symbols, AreDistinct, distinct_lem}

-- The extension has started: it keeps the five symbols, which are five objects, and has changed no object that there was.
pub record Started (Y : RubyHeap) (cells : Y.Store → RubyValue → Option Cell) (st : Y.Store)
    (run : Built Y.Store Statics) : Type 0 where
  pub statics : Statics
  pub after : Y.Store
  pub ends : run ≡ built statics after
  pub symbols : AreSymbols cells after statics.symbols
  pub distinct : AreDistinct (all_symbols statics.symbols)
  pub kept : Kept cells st after

module _ (Y : RubyHeap) (cells : Y.Store → RubyValue → Option Cell) (K : HeapLaws Y cells)
    (D : ClassApi Y) (L : ClassLaws Y D cells) where
  Kept-IsPreorder : IsPreorder (Kept cells)
  Kept-IsPreorder = record { same = λ st w c e. e; chain = Kept-chain cells }

  abbrev R : {A : Type 0} → B Y A → Type 0
  R m = Runs (Kept cells) none m

  abbrev then_ :
      {A C : Type 0} {m : B Y A} {f : A → B Y C} → R m → ((a : A) → R (f a)) → R (m >>= f)
  then_ = Runs-bind (Kept cells) Kept-IsPreorder

  singleton_lem :
      {C : Type 0} (c : RubyValue) (name : String) (f : Function) (n : ℕ) {m : B Y C}
      → R m
      → R (change (D.rb_define_singleton_method c name f n) >>= λ u. m)
  singleton_lem c name f n h =
      then_ (Runs-change (Kept cells) _ (L.singleton_method_kept c name f n)) (λ u. h)

  method_lem :
      {C : Type 0} (c : RubyValue) (name : String) (f : Function) (n : ℕ) {m : B Y C}
      → R m
      → R (change (D.rb_define_method c name f n) >>= λ u. m)
  method_lem c name f n h = then_ (Runs-change (Kept cells) _ (L.method_kept c name f n)) (λ u. h)

  class_lem :
      {C : Type 0} (c : RubyValue) (name : String) (d : RubyValue) {m : RubyValue → B Y C}
      → ((k : RubyValue) → R (m k))
      → R (call (D.rb_define_class_under c name d) >>= m)
  class_lem c name d h = then_ (Runs-call (Kept cells) _ (L.class_under_kept c name d)) h

  alloc_lem :
      {C : Type 0} (c : RubyValue) (f : Function) {m : B Y C}
      → R m
      → R (change (D.rb_define_alloc_func c f) >>= λ u. m)
  alloc_lem c f h = then_ (Runs-change (Kept cells) _ (L.alloc_func_kept c f)) (λ u. h)

  compiled_schema_lem : (core : RubyValue) → R (define_compiled_schema Y D core)
  unfolding define_compiled_schema
  compiled_schema_lem core = class_lem core "CompiledSchema" D.rb_cobject (λ k.
      alloc_lem k Function.compiled_schema_alloc (
        method_lem k "id" Function.compiled_schema_id 0 (
          method_lem k "summary" Function.compiled_schema_summary 0
            (Runs-pure (Kept cells) Kept-IsPreorder k))))

  error_set_lem : (core : RubyValue) → R (define_error_set Y D core)
  unfolding define_error_set
  error_set_lem core = class_lem core "ErrorSet" D.rb_cobject (λ k.
      alloc_lem k Function.error_set_alloc (
        method_lem k "messages" Function.error_set_messages 0 (
          method_lem k "to_a" Function.error_set_messages 0
            (Runs-pure (Kept cells) Kept-IsPreorder k))))

  core_methods_lem : (core : RubyValue) → R (define_core_methods Y D core)
  unfolding define_core_methods
  core_methods_lem core = singleton_lem core "version" Function.version 0 (
      singleton_lem core "compile" Function.compile 2 (
        singleton_lem core "validate" Function.validate 3 (
          singleton_lem core "build" Function.build 3 (
            Runs-change (Kept cells) _
              (L.singleton_method_kept core "build_synced" Function.build_synced 3)))))

  bench_lem : (core : RubyValue) → R (define_bench Y D core)
  unfolding define_bench
  bench_lem core = then_ (Runs-call (Kept cells) _ (L.module_under_kept core "Bench")) (λ bench.
      singleton_lem bench "prepare" Function.bench_prepare 2 (
        Runs-change (Kept cells) _
          (L.singleton_method_kept bench "validate" Function.bench_validate 3)))

  classes_lem : R (define_classes Y D)
  unfolding define_classes
  classes_lem =
      then_ (Runs-call (Kept cells) (D.rb_define_module "Rustly") (L.module_kept "Rustly"))
        (λ rustly.
          then_
            (Runs-call (Kept cells) (D.rb_define_module_under rustly "Core")
              (L.module_under_kept rustly "Core"))
            (λ core. then_ (compiled_schema_lem core) (λ schema_class.
              then_ (error_set_lem core) (λ set_class. then_ (core_methods_lem core) (λ u.
                class_lem core "ValidationError" D.rb_estandarderror (λ error_class.
                  then_ (bench_lem core) (λ w. Runs-pure (Kept cells) Kept-IsPreorder (record {
                    core_module = core;
                    compiled_schema_class = schema_class;
                    error_set_class = set_class;
                    validation_error_class = error_class;
                  }))))))))

  -- The call of `ensure_symbol` from a heap on.
  abbrev symbol_from : String → Y.Store → RubyValue × Y.Store
  symbol_from s st = Y.rb_id2sym (Y.rb_intern2 s st).0 (Y.rb_intern2 s st).1

  record Ensured (st : Y.Store) (run : Built Y.Store Symbols) : Type 0 where
    symbols : Symbols
    after : Y.Store
    ends : run ≡ built symbols after
    are_symbols : AreSymbols cells after symbols
    kept : Kept cells st after

  symbols_lem : (st : Y.Store) → Ensured st (ensure_symbols Y D st)
  unfolding ensure_symbols ensure_symbol ◌>>=◌
  symbols_lem st =
      let a = symbol_from "strict" st in
      let b = symbol_from "extra" a.1 in
      let c = symbol_from "input_mode" b.1 in
      let d = symbol_from "freeze" c.1 in
      let e = symbol_from "store_attributes" d.1 in
      let ma = K.symbol_made "strict" st refl in
      let mb = K.symbol_made "extra" a.1 refl in
      let mc = K.symbol_made "input_mode" b.1 refl in
      let md = K.symbol_made "freeze" c.1 refl in
      let me = K.symbol_made "store_attributes" d.1 refl in
      let from_d = me.kept in
      let from_c = Kept-chain cells c.1 d.1 e.1 md.kept from_d in
      let from_b = Kept-chain cells b.1 c.1 e.1 mc.kept from_c in
      let from_a = Kept-chain cells a.1 b.1 e.1 mb.kept from_b in
      record {
        symbols = record {
          strict = a.0;
          extra = b.0;
          input_mode = c.0;
          freeze = d.0;
          store_attributes = e.0;
        };
        after = e.1;
        ends = refl;
        are_symbols = record {
          strict = from_a a.0 _ ma.stands;
          extra = from_b b.0 _ mb.stands;
          input_mode = from_c c.0 _ mc.stands;
          freeze = from_d d.0 _ md.stands;
          store_attributes = me.stands;
        };
        kept = Kept-chain cells st a.1 e.1 ma.kept from_a;
      }

  abbrev statics_of : Classes → Symbols → Statics
  statics_of c y = record { classes = c; symbols = y; attr_ivar_name = "@attributes" }

  -- On a heap that has cells as the C API says, where defining classes and methods changes no other
  -- object, the start of the extension ends; the five objects that it keeps for the options are
  -- different, and the symbols of their names, and no object that there was has changed.
  pub init_rustly_core-Started : (st : Y.Store) → Started Y cells st (init_rustly_core Y D st)
  unfolding init_rustly_core ◌>>=◌
  init_rustly_core-Started st =
      let (classes, mid, e, kept) = classes_lem.ends st in
      let s = symbols_lem mid in
      record {
        statics = statics_of classes s.symbols;
        after = s.after;
        ends =
            ap (continue (λ c. ensure_symbols Y D >>= λ y. pure (statics_of c y))) e
            ∙ ap (continue (λ y. pure (statics_of classes y))) s.ends;
        symbols = s.are_symbols;
        distinct = distinct_lem cells s.after s.symbols s.are_symbols;
        kept = Kept-chain cells st mid s.after kept s.kept;
      }
