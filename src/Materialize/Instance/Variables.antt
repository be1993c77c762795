-- ===== src/Materialize/Instance/Variables.antt =====
-- The variables of the object that `materialize_instance` makes.
use mathlib.Core.Path.{subst}
use rustly_core.Base.{
  ℕ, String, ◌≡◌, refl, sym, ◌∙◌, Bool, false, Option, none, some, List, [], ◌∷◌, ◌⊎◌, inl, inr,
  arith,
}
use rustly_core.Ruby.{RubyValue}
use rustly_core.Schema.Plan.{MaterializeEntry, MaterializePlan}
use rustly_core.Validation.Options.{FreezeMode}
use rustly_core.Validation.Value.{OwnedValue, OwnedDict, OwnedFields, OwnedExtras}
use rustly_core.Materialize.{RubyHeap, built, ◌>>=◌}
use rustly_core.Materialize.Bad.{bad}
use rustly_core.Materialize.Runs.{EndsAs}
use rustly_core.Materialize.Instance.{
  is_deep, set_fields, set_extra_entries, set_extras, freeze_all, fill_instance,
  materialize_instance,
}
use rustly_core.Materialize.Instance.Fields.{field_named, lookup_from-field_named}
use rustly_core.Materialize.Instance.Laws.{
  Unchanged, VariableLaws, HoldsField, IsGood, Sets, good_runs, set_field_lem, field_kept,
  value_lem,
}

abbrev pub Among : ℕ → List MaterializeEntry → Type 0
Among id [] = ⊥
Among id (e ∷ es) = (id ≡ e.ivar_id) ⊎ Among id es

-- No two entries set the same variable.
abbrev pub AreDistinct : List MaterializeEntry → Type 0
AreDistinct [] = Unit {0}
AreDistinct (e ∷ es) = (Among e.ivar_id es → ⊥) × AreDistinct es

abbrev pub ExtrasGood : OwnedDict → Type 0
ExtrasGood OwnedDict.empty = Unit {0}
ExtrasGood (OwnedDict.entry k v m) = (bad v ≡ none) × ExtrasGood m

abbrev pub AllExtrasGood : OwnedExtras → Type 0
AllExtrasGood OwnedExtras.no_extras = Unit {0}
AllExtrasGood (OwnedExtras.extras m) = ExtrasGood m

module _ (Y : RubyHeap) (get : Y.Store → RubyValue → ℕ → RubyValue)
    (frozen : Y.Store → RubyValue → Bool) where
  module _ (names : List String) (fields : OwnedFields) where
    -- The field of an entry of the plan.
    abbrev pub entry_field : MaterializeEntry → Option OwnedValue
    entry_field e = field_named e.name names fields

    abbrev pub AreGood : List MaterializeEntry → Type 0
    AreGood [] = Unit {0}
    AreGood (e ∷ es) = IsGood Y get frozen (entry_field e) × AreGood es

    -- One entry after the other from the store `st` on: the variable of each whose field is there is set
    -- to what the field is converted to, and holds it in the end.
    abbrev pub HoldsAll : Y.Store → Y.Store → RubyValue → List MaterializeEntry → Type 0
    HoldsAll st end instance [] = Unit {0}
    HoldsAll st end instance (e ∷ es) =
        HoldsField Y get frozen st end instance e (entry_field e)
          (λ next. HoldsAll next end instance es)

    all_kept :
        (es : List MaterializeEntry) (instance : RubyValue) (st a b : Y.Store)
        → ((id : ℕ) → get b instance id ≡ get a instance id)
        → HoldsAll st a instance es
        → HoldsAll st b instance es
    all_kept [] instance st a b h t = tt
    all_kept (e ∷ es) instance st a b h t =
        field_kept Y get frozen (entry_field e) instance e st a b _ _ (h e.ivar_id)
          (λ next. all_kept es instance next a b h) t

    module _ (L : VariableLaws Y get frozen) (fuel : ℕ) (mode : FreezeMode)
        (shallow : is_deep mode ≡ false) where
      set_fields_lem :
          (instance : RubyValue) (es : List MaterializeEntry) (st : Y.Store)
          → frozen st instance ≡ false
          → AreDistinct es
          → AreGood es
          → Sets Y get frozen instance st
              (set_fields Y fuel mode none instance names fields es st)
              (λ j. Among j es)
              (λ after. HoldsAll st after instance es)
      unfolding set_fields ◌>>=◌
      set_fields_lem instance [] st t d g = record {
        after = st;
        ends = refl;
        thawed = t;
        holds = tt;
        others = λ j h. refl;
      }
      set_fields_lem instance (e ∷ es) st t (d, ds) (g, gs) =
          let one =
            set_field_lem Y get frozen L fuel mode shallow instance e (entry_field e) st t g in
          let rest = set_fields_lem instance es one.after one.thawed ds gs in
          record {
            after = rest.after;
            ends = rw (lookup_from-field_named e.name names fields, one.ends) rest.ends;
            thawed = rest.thawed;
            holds =
                field_kept Y get frozen (entry_field e) instance e st one.after rest.after _ _
                  (rest.others e.ivar_id d)
                  (λ next same.
                    subst (λ a. HoldsAll a rest.after instance es) (sym same) rest.holds)
                  one.holds;
            others = λ j h. rest.others j (λ a. h (inr a)) ∙ one.others j (λ a. h (inl a));
          }

  module _ (L : VariableLaws Y get frozen) (fuel : ℕ) (mode : FreezeMode)
      (shallow : is_deep mode ≡ false) where
    extras_lem :
        (m : OwnedDict) (st : Y.Store)
        → ExtrasGood m
        → EndsAs (Unchanged Y get frozen) st none (set_extra_entries Y fuel mode none m st)
    unfolding set_extra_entries ◌>>=◌
    extras_lem OwnedDict.empty st g = (tt, st, refl, L.keeps.preorder.same st)
    extras_lem (OwnedDict.entry k v m) st (g, gs) =
        let (x, next, e, r) = good_runs Y get frozen L v st g in
        let (u, last, f, s) = extras_lem m next gs in
        rw (value_lem Y get frozen L fuel mode shallow v st next x e)
          (u, last, f, L.keeps.preorder.chain st next last r s)

    all_extras_lem :
        (ex : OwnedExtras) (st : Y.Store)
        → AllExtrasGood ex
        → EndsAs (Unchanged Y get frozen) st none (set_extras Y fuel mode none ex st)
    all_extras_lem OwnedExtras.no_extras st g = (tt, st, refl, L.keeps.preorder.same st)
    all_extras_lem (OwnedExtras.extras m) st g = extras_lem m st g

    freeze_all_lem :
        (m : FreezeMode) (instance : RubyValue) (st : Y.Store)
        → is_deep m ≡ false
        → (after : Y.Store) × (freeze_all Y fuel mode none m none instance st ≡ built tt after)
          × ((id : ℕ) → get after instance id ≡ get st instance id)
    freeze_all_lem FreezeMode.none instance st s = (st, refl, λ id. refl)
    freeze_all_lem FreezeMode.shallow instance st s =
        (Y.rb_obj_freeze instance st, refl, λ id. L.freeze_keeps instance instance id st)
    freeze_all_lem FreezeMode.deep instance st s = ground arith

    -- If the calls of Ruby that make values change no variables and freeze nothing, a variable of an
    -- object that is not frozen can be set, and freezing changes no variables; and if an object of the
    -- class is allocated and not frozen, no two entries of the plan set the same variable, and no symbol,
    -- key or name in the fields and the extra keys has a NUL; then, without attributes and with a mode
    -- other than `deep`, `materialize_instance` ends with the object. From the heap after the allocation
    -- on, one entry of the plan after the other, the field beside the last name that is the entry's, if it
    -- is there, is converted, and the entry's variable is set to the object that this gives, and holds
    -- it in the end.
    pub materialize_instance-sets :
        (klass : RubyValue) (attr : Option ℕ) (names : List String) (fields : OwnedFields)
        (ex : OwnedExtras) (plan : MaterializePlan) (st allocated : Y.Store) (instance : RubyValue)
        → Y.rb_obj_alloc klass st ≡ some (instance, allocated)
        → frozen allocated instance ≡ false
        → AreDistinct plan.entries
        → AreGood names fields plan.entries
        → AllExtrasGood ex
        → (after : Y.Store) × (materialize_instance Y fuel klass attr
              (OwnedValue.struct names fields ex)
              plan
              mode
              false
              st
            ≡ built instance after)
          × HoldsAll names fields allocated after instance plan.entries
    unfolding materialize_instance fill_instance ◌>>=◌
    materialize_instance-sets klass attr names fields ex plan st allocated instance a t d g x =
        let s =
          set_fields_lem names fields L fuel mode shallow instance plan.entries allocated t d g in
        let (u, last, e, r) = all_extras_lem ex s.after x in
        let (after, f, k) = freeze_all_lem mode instance last shallow in
        (
          after,
          rw (a, s.ends, e, f) refl,
          all_kept names fields plan.entries instance allocated s.after after
              (λ id. k id ∙ r.0 instance id) s.holds,
        )
