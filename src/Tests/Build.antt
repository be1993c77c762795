-- ===== src/Tests/Build.antt =====
-- Runs of `build` on a heap that counts its objects and keeps nothing of them.
use rustly_core.Base.{ℕ, suc, ◌≡◌, ◌⊎◌, refl, true, false, some}
use rustly_core.Base.{List, [], ◌∷◌, Bool, false, ◌||◌, ◌==◌, arith}
use rustly_core.Ruby.{RubyValue, truthy}
use rustly_core.Materialize.Instance.{deep_freeze_value}
use rustly_core.Materialize.Instance.Frozen.{
  FreezeLaws, held, elements, Freezes, IsFrozen, IsTree, Throughout, deep_freeze_value-Freezes,
}
use rustly_core.Base.Int.{pos}
use rustly_core.Validation.Value.{OwnedValue, OwnedList, OwnedDict}
use rustly_core.Validation.Accepts.{Accepts}
use rustly_core.Materialize.{RubyHeap, owned_value_to_ruby}
use rustly_core.Materialize.Bad.{bad}
use rustly_core.Materialize.Fails.{Fails, owned_value_to_ruby-Fails}
use rustly_core.Native.Build.{build, build_synced}
use rustly_core.Native.Build.Conforms.{IsBuilt, IsRaised, build-build_synced, build-Conforms}
use rustly_core.Base.{◌≤◌, ◌^◌}
use rustly_core.Input.Spec.{got, read}
use rustly_core.Schema.Ir.{ExtraBehavior, StructFieldPresence}
use rustly_core.Schema.Expr.{TypeExpr, FieldExprs, count}
use rustly_core.Schema.Build.{build_ir}
use rustly_core.Schema.Plan.{new_plan}
use rustly_core.Schema.Compiled.{CompiledSchema}
use rustly_core.Validation.Options.{InputMode, FreezeMode}
use rustly_core.Tests.{test_host}
use rustly_core.Tests.Native.{test_reads, test_symbols, test_tree, test_tree-small, test_tree-shown}
use rustly_core.Tests.Flow.{int_root, int_schema}

abbrev counting : RubyHeap
counting = record {
  Store = ℕ;
  reads = λ n. test_reads;
  rb_ll2inum = λ i n. (n, suc n);
  rb_ull2inum = λ u n. (n, suc n);
  rb_float_new = λ f n. (n, suc n);
  rb_utf8_str_new = λ s n. (n, suc n);
  rb_intern2 = λ s n. (n, suc n);
  rb_id2sym = λ id n. (id, n);
  rb_ary_new = λ n. (n, suc n);
  rb_ary_push = λ array x n. n;
  rb_hash_new = λ n. (n, suc n);
  rb_hash_aset = λ hash key x n. n;
  rb_obj_alloc = λ klass n. some (n, suc n);
  rb_ivar_set = λ v id x n. some n;
  rb_obj_freeze = λ v n. n;
}

-- `[7, { "a\0" => :b }]`
abbrev with_nul : OwnedValue
with_nul = OwnedValue.list (
    OwnedList.cons (OwnedValue.int (pos 7)) (
      OwnedList.cons
        (OwnedValue.dict (OwnedDict.entry "a\0" (OwnedValue.symbol "b") OwnedDict.empty))
        OwnedList.nil))

owned_value_to_ruby-Fails_example : Fails (bad with_nul) (owned_value_to_ruby counting with_nul)
owned_value_to_ruby-Fails_example = owned_value_to_ruby-Fails counting with_nul

build-build_synced_example :
    build counting test_host test_symbols (some 2) 4 9 int_schema 40 91 (some 3) 100 true
    ≡ build_synced counting test_host test_symbols (some 2) 4 9 int_schema 40 91 (some 3) 100 true
build-build_synced_example =
    build-build_synced counting test_host test_symbols 1 4 9 int_schema 40 91 (some 3) 100 true

-- A struct with an optional field, and extra keys that are kept.
abbrev optional_field : TypeExpr
optional_field =
    TypeExpr.struct (FieldExprs.field "b" StructFieldPresence.optional int_root FieldExprs.nil)
      ExtraBehavior.allow

optional_field-small : count optional_field ≤ 2 ^ 32
unfolding count
optional_field-small = omega arith

abbrev struct_schema : CompiledSchema
struct_schema = record {
  id = 6;
  summary = "";
  ir = build_ir optional_field;
  plan = new_plan (record { name = "b"; ivar_id = 2; symbol_id = 1 } ∷ []);
  options = record {
    strict = false;
    input_mode = InputMode.ruby;
    extra_behavior = ExtraBehavior.allow;
    freeze = FreezeMode.none;
    store_attributes = true;
  };
}

-- `{ "a" => [7, "a"] }`
abbrev test_dict : OwnedValue
test_dict = OwnedValue.dict (
    OwnedDict.entry "a"
      (OwnedValue.list (
        OwnedList.cons (OwnedValue.int (pos 7))
          (OwnedList.cons (OwnedValue.string "a") OwnedList.nil)))
      OwnedDict.empty)

read-test_tree : read test_tree [] ≡ got test_dict
unfolding read
read-test_tree = refl

build-Conforms_example :
    (Accepts test_host struct_schema.options true optional_field test_dict
      × IsBuilt counting test_host test_symbols 0 4 9 struct_schema optional_field 40 91
          (some 3)
          100
          false)
    ⊎ ((Accepts test_host struct_schema.options true optional_field test_dict → ⊥)
        × IsRaised counting test_host test_symbols 0 4 9 struct_schema optional_field test_dict 40
            91
            (some 3)
            100
            false)
build-Conforms_example =
    build-Conforms counting test_host test_symbols 0 4 9 struct_schema optional_field refl
      optional_field-small refl test_tree 40 91 (some 3) 100 false test_tree-small test_tree-shown
      test_dict read-test_tree

-- A heap that keeps which objects are frozen.
abbrev freezing : RubyHeap
freezing = record {
  Store = List ℕ;
  reads = λ fs. test_reads;
  rb_ll2inum = λ i fs. (1, fs);
  rb_ull2inum = λ u fs. (1, fs);
  rb_float_new = λ f fs. (1, fs);
  rb_utf8_str_new = λ s fs. (1, fs);
  rb_intern2 = λ s fs. (1, fs);
  rb_id2sym = λ id fs. (id, fs);
  rb_ary_new = λ fs. (1, fs);
  rb_ary_push = λ array x fs. fs;
  rb_hash_new = λ fs. (1, fs);
  rb_hash_aset = λ hash key x fs. fs;
  rb_obj_alloc = λ klass fs. some (1, fs);
  rb_ivar_set = λ v id x fs. some fs;
  rb_obj_freeze = λ v fs. v ∷ fs;
}

abbrev is_frozen : List ℕ → RubyValue → Bool
is_frozen [] w = false
is_frozen (v ∷ fs) w = v == w || is_frozen fs w

freezing-FreezeLaws : FreezeLaws freezing is_frozen
freezing-FreezeLaws = record {
  reads_kept = λ v fs. refl;
  freezes = λ v fs. ground arith;
  stays = λ v w fs h. ground (arith, h);
}

array-IsTree : IsTree test_reads 2 32
unfolding IsTree held truthy elements
array-IsTree = (tt, (tt, tt))

deep_freeze_value-Freezes_example :
    Freezes freezing is_frozen test_reads []
      (deep_freeze_value freezing 2 32 [])
      (λ after. Throughout (IsFrozen freezing is_frozen after) test_reads 2 32)
deep_freeze_value-Freezes_example =
    deep_freeze_value-Freezes freezing is_frozen freezing-FreezeLaws 2 32 [] array-IsTree
