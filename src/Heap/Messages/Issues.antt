-- ===== src/Heap/Messages/Issues.antt =====
-- The messages of a validation that has failed (`error_set_from_issues` and `error_set_messages` of
-- ext/rustly_core/src/lib.rs, on the issues of ext/rustly_core/src/validation/engine.rs).
use mathlib.Core.List.{map}
use rustly_core.Base.{ℕ, suc, ◌^◌, ◌≤◌, ◌≡◌, refl, String, Option, none, some, List, [], ◌∷◌, ◌++◌}
use rustly_core.Host.{Host}
use rustly_core.Json.{JsonValue}
use rustly_core.Ruby.{RubyValue}
use rustly_core.Schema.Ir.{CollectionConstraints, ExtraBehavior, StructFieldPresence}
use rustly_core.Schema.Expr.{TypeExpr, FieldExprs, count}
use rustly_core.Schema.Build.{build_ir}
use rustly_core.Validation.Options.{ValidationOptions}
use rustly_core.Validation.Value.{OwnedValue, OwnedList, OwnedDict, OwnedFields}
use rustly_core.Validation.Path.{PathSegment}
use rustly_core.Validation.Engine.{dict_find, find_field_index}
use rustly_core.Validation.Spec.{
  Segments, Issues, Check, check_optional, check_items, check_entries, check_list, check_dict,
  check_unless_field, check_extras, Extras, check_field, check_struct, expr_names, effective, check,
  check_fields,
}
use rustly_core.Validation.Result.{
  PreparedInput, ValidationResult, finished, validate_prepared_input,
}
use rustly_core.Validation.Result.Correct.{expected, input_value, validate_prepared_input-expected}
use rustly_core.Materialize.{RubyHeap}
use rustly_core.Native.Errors.{entry_of_issue, error_set_from_issues}
use rustly_core.Native.Messages.{error_set_messages}
use rustly_core.Heap.{Cell, has_key, HeapLaws}
use rustly_core.Heap.Trees.{Tree}
use rustly_core.Heap.Shown.{shown}
use rustly_core.Heap.Messages.{message_trees}
use rustly_core.Heap.Messages.Shown.{EndsShowing, error_set_messages-EndsShowing}
use rustly_core.Heap.Messages.Sound.{
  Sound, Sound-append, entry_lem, size_lem, mismatch_lem, primitive_lem, enum_lem,
}

-- A check whose issues are sound.
abbrev SoundCheck : Check → Type 0
SoundCheck f = (p : Segments) (v : OwnedValue) → Sound (f p v).1

items_lem :
    (f : Check)
    → SoundCheck f
    → (p : Segments) (i : ℕ) (vs : OwnedList) → Sound (check_items f p i vs).1
unfolding check_items
items_lem f h p i OwnedList.nil = tt
items_lem f h p i (OwnedList.cons v vs) =
    Sound-append _ _ (h (p ++ PathSegment.index i ∷ []) v) (items_lem f h p (suc i) vs)

entries_lem :
    (f : Check) → SoundCheck f → (p : Segments) (m : OwnedDict) → Sound (check_entries f p m).1
unfolding check_entries
entries_lem f h p OwnedDict.empty = tt
entries_lem f h p (OwnedDict.entry k v m) =
    Sound-append _ _ (h (p ++ PathSegment.key k ∷ []) v) (entries_lem f h p m)

optional_lem : (f : Check) → SoundCheck f → SoundCheck (check_optional f)
unfolding check_optional
optional_lem f h p OwnedValue.null = tt
optional_lem f h p v = h p v

list_lem : (f : Check) (c : CollectionConstraints) → SoundCheck f → SoundCheck (check_list f c)
unfolding check_list
list_lem f c h p (OwnedValue.list vs) = Sound-append _ _ (items_lem f h p 0 vs) (size_lem p c _)
list_lem f c h p v = mismatch_lem p "list"

dict_lem : (f : Check) (c : CollectionConstraints) → SoundCheck f → SoundCheck (check_dict f c)
unfolding check_dict
dict_lem f c h p (OwnedValue.dict m) = Sound-append _ _ (entries_lem f h p m) (size_lem p c _)
dict_lem f c h p v = mismatch_lem p "dict"

extra_lem :
    (o : Option ℕ) (policy : ExtraBehavior) (p : Segments) (k : String) (v : OwnedValue)
    (rest : Extras)
    → Sound rest.1
    → Sound (check_unless_field o policy p k v rest).1
extra_lem (some i) policy p k v rest h = h
extra_lem none ExtraBehavior.forbid p k v rest h =
    (refl, entry_lem "name" (JsonValue.string k) tt, h)
extra_lem none ExtraBehavior.ignore p k v rest h = h
extra_lem none ExtraBehavior.allow p k v rest h = h

extras_lem :
    (names : List String) (policy : ExtraBehavior) (p : Segments) (m : OwnedDict)
    → Sound (check_extras names policy p m).1
unfolding check_extras
extras_lem names policy p OwnedDict.empty = tt
extras_lem names policy p (OwnedDict.entry k v m) =
    extra_lem (find_field_index names k) policy p k v _ (extras_lem names policy p m)

struct_lem :
    (f : Segments → OwnedDict → OwnedFields × Issues) (names : List String) (policy : ExtraBehavior)
    → ((p : Segments) (m : OwnedDict) → Sound (f p m).1)
    → SoundCheck (check_struct f names policy)
unfolding check_struct
struct_lem f names policy h p (OwnedValue.dict m) =
    Sound-append _ _ (h p m) (extras_lem names policy p m)
struct_lem f names policy h p v = mismatch_lem p "struct"

field_lem :
    (f : Check) (name : String) (presence : StructFieldPresence) (p : Segments)
    (v : Option OwnedValue)
    → SoundCheck f
    → Sound (check_field f name presence p v).1
field_lem f name presence p (some v) h = h _ v
field_lem f name StructFieldPresence.required p none h = (refl, tt, tt)
field_lem f name StructFieldPresence.optional p none h = tt

module _ (H : Host) (o : ValidationOptions) where
  mutual
    unfolding check

    check_lem : (t : TypeExpr) (p : Segments) (v : OwnedValue) → Sound (check H o t p v).1
    check_lem (TypeExpr.primitive t) p v = primitive_lem H o.strict t p v
    check_lem (TypeExpr.enum variants) p v = enum_lem o.strict variants p v
    check_lem (TypeExpr.optional t) p v =
        optional_lem (λ q w. check H o t q w) (λ q w. check_lem t q w) p v
    check_lem (TypeExpr.list t c) p v =
        list_lem (λ q w. check H o t q w) c (λ q w. check_lem t q w) p v
    check_lem (TypeExpr.dict t c) p v =
        dict_lem (λ q w. check H o t q w) c (λ q w. check_lem t q w) p v
    check_lem (TypeExpr.struct fields extra) p v =
        struct_lem (λ q m. check_fields H o fields q m) (expr_names fields) (effective o extra p)
          (λ q m. check_fields_lem fields q m) p v

    check_fields_lem :
        (fields : FieldExprs) (p : Segments) (m : OwnedDict) → Sound (check_fields H o fields p m).1
    check_fields_lem FieldExprs.nil p m = tt
    check_fields_lem (FieldExprs.field name presence t fs) p m =
        Sound-append _ _
          (field_lem (λ q w. check H o t q w) name presence p (dict_find m name)
            (λ q w. check_lem t q w))
          (check_fields_lem fs p m)

finished_lem : (v : Option OwnedValue) (is : Issues) → Sound is → Sound (finished v is).issues
finished_lem v [] h = tt
finished_lem v (i ∷ is) h = h

expected_lem :
    (H : Host) (o : ValidationOptions) (t : TypeExpr) (v : Option OwnedValue)
    → Sound (expected H o t v).issues
unfolding has_key
expected_lem H o t none = (refl, (refl, tt, tt), tt)
expected_lem H o t (some v) =
    finished_lem (check H o t [] v).0 (check H o t [] v).1 (check_lem H o t [] v)

-- A validation ends with a result, and the messages of its issues are shown.
pub record HasMessages (Y : RubyHeap) (H : Host) (cells : Y.Store → RubyValue → Option Cell)
    (st : Y.Store) (validation : Option ValidationResult) : Type 0 where
  pub result : ValidationResult
  pub ends : validation ≡ some result
  pub messages :
      EndsShowing Y cells st
        (error_set_messages Y H (error_set_from_issues result.issues) st)
        (shown (Tree.list (message_trees H (map entry_of_issue result.issues))))

-- On a heap that has cells as the C API says, a validation under a compiled schema of at most 2^32
-- parts ends with a result, and the messages of the error set of its issues are an array of one hash
-- for each issue, in their order, with its path, its code and its meta: making them never panics.
pub validate_prepared_input-HasMessages :
    (Y : RubyHeap) (H : Host) (cells : Y.Store → RubyValue → Option Cell)
    → HeapLaws Y cells
    → (o : ValidationOptions) (t : TypeExpr) → count t ≤ 2 ^ 32
    → (input : PreparedInput) (st : Y.Store)
    → HasMessages Y H cells st (validate_prepared_input H (build_ir t) input o)
unfolding error_set_from_issues
validate_prepared_input-HasMessages Y H cells K o t room input st =
    let r = expected H o t (input_value H input) in
    record {
      result = r;
      ends = validate_prepared_input-expected H o t room input;
      messages =
          error_set_messages-EndsShowing Y H cells K (error_set_from_issues r.issues) st
            (expected_lem H o t (input_value H input));
    }
