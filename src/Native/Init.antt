-- ===== src/Native/Init.antt =====
-- The start of the extension (`Init_rustly_core` of ext/rustly_core/src/lib.rs): the modules, classes
-- and methods that it defines, and the symbols that it keeps.
pub mod Distinct
pub mod Started
use rustly_core.Base.{ℕ, String}
use rustly_core.Ruby.{RubyValue}
use rustly_core.Materialize.{RubyHeap, B, pure, call, change, ◌>>=◌, ◌>>◌}
use rustly_core.Native.Options.{Symbols}
use rustly_core.Native.Messages.{ensure_symbol}

-- The functions that Ruby is given.
pub data Function : Type 0 where
  compiled_schema_alloc compiled_schema_id compiled_schema_summary : Function
  error_set_alloc error_set_messages : Function
  version compile validate build build_synced bench_prepare bench_validate : Function

-- The C API for modules, classes and methods; the last argument of a method is its arity.
pub record ClassApi (Y : RubyHeap) : Type 0 where
  pub rb_cobject : RubyValue
  pub rb_estandarderror : RubyValue
  pub rb_define_module : String → Y.Store → RubyValue × Y.Store
  pub rb_define_module_under : RubyValue → String → Y.Store → RubyValue × Y.Store
  pub rb_define_class_under : RubyValue → String → RubyValue → Y.Store → RubyValue × Y.Store
  pub rb_define_alloc_func : RubyValue → Function → Y.Store → Y.Store
  pub rb_define_method : RubyValue → String → Function → ℕ → Y.Store → Y.Store
  pub rb_define_singleton_method : RubyValue → String → Function → ℕ → Y.Store → Y.Store

-- The static variables `CORE_MODULE` and `…_CLASS`.
pub record Classes : Type 0 where
  pub core_module : RubyValue
  pub compiled_schema_class : RubyValue
  pub error_set_class : RubyValue
  pub validation_error_class : RubyValue

-- All static variables that are set.
pub record Statics : Type 0 where
  pub classes : Classes
  pub symbols : Symbols
  pub attr_ivar_name : String

module _ (Y : RubyHeap) (D : ClassApi Y) where
  -- The class `CompiledSchema`.
  unfoldable pub define_compiled_schema : RubyValue → B Y RubyValue
  unfolding ◌>>=◌
  define_compiled_schema core = do
    klass ← call (D.rb_define_class_under core "CompiledSchema" D.rb_cobject)
    change (D.rb_define_alloc_func klass Function.compiled_schema_alloc)
    change (D.rb_define_method klass "id" Function.compiled_schema_id 0)
    change (D.rb_define_method klass "summary" Function.compiled_schema_summary 0)
    pure klass

  -- The class `ErrorSet`.
  unfoldable pub define_error_set : RubyValue → B Y RubyValue
  unfolding ◌>>=◌
  define_error_set core = do
    klass ← call (D.rb_define_class_under core "ErrorSet" D.rb_cobject)
    change (D.rb_define_alloc_func klass Function.error_set_alloc)
    change (D.rb_define_method klass "messages" Function.error_set_messages 0)
    change (D.rb_define_method klass "to_a" Function.error_set_messages 0)
    pure klass

  -- The methods of the module itself.
  unfoldable pub define_core_methods : RubyValue → B Y (Unit {0})
  unfolding ◌>>=◌
  define_core_methods core = do
    change (D.rb_define_singleton_method core "version" Function.version 0)
    change (D.rb_define_singleton_method core "compile" Function.compile 2)
    change (D.rb_define_singleton_method core "validate" Function.validate 3)
    change (D.rb_define_singleton_method core "build" Function.build 3)
    change (D.rb_define_singleton_method core "build_synced" Function.build_synced 3)

  -- The module `Bench`.
  unfoldable pub define_bench : RubyValue → B Y (Unit {0})
  unfolding ◌>>=◌
  define_bench core = do
    bench ← call (D.rb_define_module_under core "Bench")
    change (D.rb_define_singleton_method bench "prepare" Function.bench_prepare 2)
    change (D.rb_define_singleton_method bench "validate" Function.bench_validate 3)

  unfoldable pub define_classes : B Y Classes
  unfolding define_compiled_schema define_error_set define_core_methods define_bench
  define_classes = do
    rustly ← call (D.rb_define_module "Rustly")
    core ← call (D.rb_define_module_under rustly "Core")
    schema_class ← define_compiled_schema core
    set_class ← define_error_set core
    define_core_methods core
    error_class ← call (D.rb_define_class_under core "ValidationError" D.rb_estandarderror)
    define_bench core
    pure (record {
      core_module = core;
      compiled_schema_class = schema_class;
      error_set_class = set_class;
      validation_error_class = error_class;
    })

  unfoldable pub ensure_symbols : B Y Symbols
  unfolding ensure_symbol
  ensure_symbols = do
    strict ← ensure_symbol Y "strict"
    extra ← ensure_symbol Y "extra"
    input_mode ← ensure_symbol Y "input_mode"
    freeze ← ensure_symbol Y "freeze"
    store_attributes ← ensure_symbol Y "store_attributes"
    pure (record {
      strict = strict;
      extra = extra;
      input_mode = input_mode;
      freeze = freeze;
      store_attributes = store_attributes;
    })

  unfoldable pub init_rustly_core : B Y Statics
  unfolding define_classes ensure_symbols
  init_rustly_core = do
    classes ← define_classes
    symbols ← ensure_symbols
    pure (record { classes = classes; symbols = symbols; attr_ivar_name = "@attributes" })
