-- ===== src/Validation/Spec/Walk.antt =====
-- The loops over items, entries, fields and extra keys do what the specification says, if the
-- validation of the parts does.
use rustly_core.Base.{ℕ, suc, String, Option, none, some, List, [], ◌∷◌}
use rustly_core.Schema.Ir.{
  NodeId, SchemaIr, CollectionConstraints, ExtraBehavior, StructField, StructFieldPresence,
}
use rustly_core.Validation.Options.{ValidationOptions}
use rustly_core.Validation.Value.{OwnedValue, OwnedList, OwnedDict, OwnedFields, OwnedExtras}
use rustly_core.Validation.State.{M, pure, ◌>>◌}
use rustly_core.Validation.Leaf.{record_type_mismatch, record_required_missing, record_extra_key}
use rustly_core.Validation.Engine.{
  Validate, validate_optional, validate_items, validate_entries, validate_list, validate_dict,
  validate_field, missing_field, validate_extras, effective_extra, find_field_index, extra_key,
  unless_field, validate_fields, validate_struct, field_names,
}
use rustly_core.Validation.Spec.{
  Segments, Issues, Check, mismatch_issue, check_optional, check_items, check_entries, check_list,
  check_dict, check_field, check_extras, check_extra, check_unless_field, check_struct, effective,
  Extras,
}
use rustly_core.Validation.Spec.Emits.{
  Emits, Emits-pure, Emits-bind, Emits-bind_quiet, Emits-bind_last, Emits-push_issue, Emits-within,
  Emits-within_last,
}
use rustly_core.Validation.Spec.Constraints.{Emits-size}

module _ (s : SchemaIr) (o : ValidationOptions) where
  -- The action does what the specification says, at every path and value.
  abbrev pub Follows : (OwnedValue → M (Option OwnedValue)) → Check → Type 0
  Follows m f = (p : Segments) (v : OwnedValue) → Emits s o p (m v) (f p v).0 (f p v).1

  refused :
      {A : Type 0} (p : Segments) (expected : String)
      → Emits s o p
          (record_type_mismatch expected >> pure {A = Option A} none)
          none
          (mismatch_issue p expected ∷ [])
  unfolding record_type_mismatch
  refused p expected =
      Emits-bind_last s o p _ _ (Emits-push_issue s o p _ _) (Emits-pure s o p none)

  module _ (go : Validate) (of : NodeId) (f : Check) (h : Follows (go of) f) where
    pub Follows-optional : Follows (validate_optional go of) (check_optional f)
    unfolding validate_optional check_optional
    Follows-optional p OwnedValue.null = Emits-pure s o p _
    Follows-optional p v = h p v

    Emits-items :
        (p : Segments) (i : ℕ) (vs : OwnedList)
        → Emits s o p (validate_items go of i vs) (check_items f p i vs).0 (check_items f p i vs).1
    unfolding validate_items check_items
    Emits-items p i OwnedList.nil = Emits-pure s o p _
    Emits-items p i (OwnedList.cons v vs) =
        Emits-within s o p _ _ _ (h _ v)
          (Emits-bind_last s o p _ _ (Emits-items p (suc i) vs) (Emits-pure s o p _))

    Emits-entries :
        (p : Segments) (m : OwnedDict)
        → Emits s o p (validate_entries go of m) (check_entries f p m).0 (check_entries f p m).1
    unfolding validate_entries check_entries
    Emits-entries p OwnedDict.empty = Emits-pure s o p _
    Emits-entries p (OwnedDict.entry k v m) =
        Emits-within s o p _ _ _ (h _ v)
          (Emits-bind_last s o p _ _ (Emits-entries p m) (Emits-pure s o p _))

    pub Follows-list :
        (c : CollectionConstraints) → Follows (validate_list go of c) (check_list f c)
    unfolding validate_list check_list
    Follows-list c p (OwnedValue.list vs) =
        Emits-bind s o p _ _ (Emits-items p 0 vs)
          (Emits-bind_last s o p _ _ (Emits-size s o p _ c) (Emits-pure s o p _))
    Follows-list c p _ = refused p "list"

    pub Follows-dict :
        (c : CollectionConstraints) → Follows (validate_dict go of c) (check_dict f c)
    unfolding validate_dict check_dict
    Follows-dict c p (OwnedValue.dict m) =
        Emits-bind s o p _ _ (Emits-entries p m)
          (Emits-bind_last s o p _ _ (Emits-size s o p _ c) (Emits-pure s o p _))
    Follows-dict c p _ = refused p "dict"

  missing :
      (f : Check) (r : StructFieldPresence) (name : String) (p : Segments)
      → Emits s o p
          (missing_field r name)
          (check_field f name r p none).0
          (check_field f name r p none).1
  unfolding missing_field record_required_missing
  missing f StructFieldPresence.required name p =
      Emits-within_last s o p _ _ _ (Emits-push_issue s o _ _ _) (Emits-pure s o p _)
  missing f StructFieldPresence.optional name p = Emits-pure s o p _

  pub Emits-field :
      (go : Validate) (field : StructField) (f : Check)
      → Follows (go field.node) f
      → (p : Segments) (v : Option OwnedValue)
      → Emits s o p
          (validate_field go field v)
          (check_field f field.name field.presence p v).0
          (check_field f field.name field.presence p v).1
  unfolding validate_field
  Emits-field go field f h p (some v) = Emits-within_last s o p _ _ _ (h _ v) (Emits-pure s o p _)
  Emits-field go field f h p none = missing f field.presence field.name p

  extra_lem :
      (policy : ExtraBehavior) (k : String) (v : OwnedValue) (p : Segments) (m : M OwnedExtras)
      (rest : Extras)
      → Emits s o p m rest.0 rest.1
      → Emits s o p
          (extra_key policy k v m)
          (check_extra policy p k v rest).0
          (check_extra policy p k v rest).1
  unfolding extra_key record_extra_key
  extra_lem ExtraBehavior.forbid k v p m rest h =
      Emits-within s o p _ _ _ (Emits-push_issue s o _ _ _) h
  extra_lem ExtraBehavior.ignore k v p m rest h = h
  extra_lem ExtraBehavior.allow k v p m rest h = Emits-bind_last s o p _ _ h (Emits-pure s o p _)

  unless_field_lem :
      (found : Option ℕ) (policy : ExtraBehavior) (k : String) (v : OwnedValue) (p : Segments)
      (m : M OwnedExtras) (rest : Extras)
      → Emits s o p m rest.0 rest.1
      → Emits s o p
          (unless_field found policy k v m)
          (check_unless_field found policy p k v rest).0
          (check_unless_field found policy p k v rest).1
  unless_field_lem (some i) policy k v p m rest h = h
  unless_field_lem none policy k v p m rest h = extra_lem policy k v p m rest h

  pub Emits-extras :
      (names : List String) (policy : ExtraBehavior) (p : Segments) (m : OwnedDict)
      → Emits s o p
          (validate_extras names policy m)
          (check_extras names policy p m).0
          (check_extras names policy p m).1
  unfolding validate_extras check_extras
  Emits-extras names policy p OwnedDict.empty = Emits-pure s o p _
  Emits-extras names policy p (OwnedDict.entry k v m) =
      unless_field_lem (find_field_index names k) policy k v p _ _ (Emits-extras names policy p m)

  pub Emits-effective :
      (extra : ExtraBehavior) (p : Segments)
      → Emits s o p (effective_extra extra) (effective o extra p) []
  unfolding effective_extra
  Emits-effective extra p = record { run = λ is. (Emits-pure s o p (effective o extra p)).run is }

  -- The struct loop from that over its fields.
  pub Follows-struct :
      (go : Validate) (fields : List StructField) (extra : ExtraBehavior)
      (f : Segments → OwnedDict → OwnedFields × Issues)
      → ((p : Segments) (m : OwnedDict)
          → Emits s o p (validate_fields go fields m) (f p m).0 (f p m).1)
      → (p : Segments) (v : OwnedValue)
      → Emits s o p
          (validate_struct go fields extra v)
          (check_struct f (field_names fields) (effective o extra p) p v).0
          (check_struct f (field_names fields) (effective o extra p) p v).1
  unfolding validate_struct check_struct
  Follows-struct go fields extra f h p (OwnedValue.dict m) = Emits-bind s o p _ _ (h p m) (
      Emits-bind_quiet s o p _ _ (Emits-effective extra p)
        (Emits-bind_last s o p _ _ (Emits-extras (field_names fields) _ p m) (Emits-pure s o p _)))
  Follows-struct go fields extra f h p _ = refused p "struct"
