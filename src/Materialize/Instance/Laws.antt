-- ===== src/Materialize/Instance/Laws.antt =====
-- The variables of objects: what the calls of Ruby do to them, and what a run sets
-- (`materialize_instance` of ext/rustly_core/src/materialize.rs).
use mathlib.Core.Path.{subst}
use rustly_core.Base.{ℕ, ◌≡◌, refl, ◌∙◌, Bool, false, Option, none, some}
use rustly_core.Ruby.{RubyValue}
use rustly_core.Schema.Plan.{MaterializeEntry}
use rustly_core.Validation.Options.{FreezeMode}
use rustly_core.Validation.Value.{OwnedValue}
use rustly_core.Materialize.{RubyHeap, Built, built, ◌>>=◌, owned_value_to_ruby}
use rustly_core.Materialize.Bad.{bad}
use rustly_core.Materialize.Runs.{EndsAs, Keeps, owned_value_to_ruby-Runs}
use rustly_core.Materialize.Instance.{is_deep, field_value, set_field}

-- `rb_ivar_get`, and whether an object is frozen.
module _ (Y : RubyHeap) (get : Y.Store → RubyValue → ℕ → RubyValue)
    (frozen : Y.Store → RubyValue → Bool) where
  -- All variables are as they were, and what is frozen.
  abbrev pub Unchanged : Y.Store → Y.Store → Type 0
  Unchanged a b =
      ((w : RubyValue) (id : ℕ) → get b w id ≡ get a w id)
      × ((w : RubyValue) → frozen b w ≡ frozen a w)

  -- A variable of an object is set, and its other variables are as they were.
  pub record SetTo (v : RubyValue) (id : ℕ) (x : RubyValue) (st : Y.Store) : Type 0 where
    pub after : Y.Store
    pub ends : Y.rb_ivar_set v id x st ≡ some after
    pub now : get after v id ≡ x
    pub others : (j : ℕ) → (j ≡ id → ⊥) → get after v j ≡ get st v j
    pub thawed : frozen after v ≡ false

  -- The calls that make values change no variables and freeze nothing; a variable of an object that is
  -- not frozen can be set; and freezing changes no variables.
  pub record VariableLaws : Type 0 where
    pub keeps : Keeps Y Unchanged
    pub sets :
        (v : RubyValue) (id : ℕ) (x : RubyValue) (st : Y.Store)
        → frozen st v ≡ false
        → SetTo v id x st
    pub freeze_keeps :
        (v w : RubyValue) (id : ℕ) (st : Y.Store) → get (Y.rb_obj_freeze v st) w id ≡ get st w id

  -- If the field is there, then it is converted from the store `st` on and the variable is set to what
  -- comes of it, which the variable holds in the end; the run goes on from the store after that, and
  -- from `st` if there is no field.
  abbrev pub HoldsField :
      Y.Store
      → Y.Store
      → RubyValue
      → MaterializeEntry
      → Option OwnedValue
      → (Y.Store → Type 0)
      → Type 0
  HoldsField st end instance e none Rest = Rest st
  HoldsField st end instance e (some v) Rest =
      (x : RubyValue) × (made : Y.Store) × (next : Y.Store) × (owned_value_to_ruby Y v st
        ≡ built x made)
      × (Y.rb_ivar_set instance e.ivar_id x (Y.rb_id2sym e.symbol_id made).1 ≡ some next)
      × (get end instance e.ivar_id ≡ x)
      × Rest next

  abbrev pub IsGood : Option OwnedValue → Type 0
  IsGood none = Unit {0}
  IsGood (some v) = bad v ≡ none

  -- A run ends, and the object is not frozen, holds what it should, and keeps its other variables.
  pub record Sets (instance : RubyValue) (st : Y.Store) (m : Built Y.Store (Unit {0}))
      (Mine : ℕ → Type 0) (Q : Y.Store → Type 0) : Type 0 where
    pub after : Y.Store
    pub ends : m ≡ built tt after
    pub thawed : frozen after instance ≡ false
    pub holds : Q after
    pub others : (j : ℕ) → (Mine j → ⊥) → get after instance j ≡ get st instance j

  pub good_runs :
      VariableLaws
      → (v : OwnedValue) (st : Y.Store) → bad v ≡ none
      → EndsAs Unchanged st none (owned_value_to_ruby Y v st)
  good_runs L v st g =
      subst (λ o. EndsAs Unchanged st o (owned_value_to_ruby Y v st)) g
        ((owned_value_to_ruby-Runs Y Unchanged L.keeps v).ends st)

  module _ (L : VariableLaws) (fuel : ℕ) (mode : FreezeMode) (shallow : is_deep mode ≡ false) where
    pub value_lem :
        (v : OwnedValue) (st next : Y.Store) (x : RubyValue)
        → owned_value_to_ruby Y v st ≡ built x next
        → field_value Y fuel mode none v st ≡ built x next
    unfolding field_value ◌>>=◌
    value_lem v st next x e = rw (e, shallow) refl

    pub set_field_lem :
        (instance : RubyValue) (entry : MaterializeEntry) (o : Option OwnedValue) (st : Y.Store)
        → frozen st instance ≡ false
        → IsGood o
        → Sets instance st
            (set_field Y fuel mode none instance entry o st)
            (λ j. j ≡ entry.ivar_id)
            (λ after. HoldsField st after instance entry o (λ next. next ≡ after))
    unfolding set_field ◌>>=◌
    set_field_lem instance entry none st t g = record {
      after = st;
      ends = refl;
      thawed = t;
      holds = refl;
      others = λ j h. refl;
    }
    set_field_lem instance entry (some v) st t g =
        let (x, next, e, r) = good_runs L v st g in
        let symbol = L.keeps.id2sym entry.symbol_id next in
        let set =
          L.sets instance entry.ivar_id x (Y.rb_id2sym entry.symbol_id next).1
            (symbol.1 instance ∙ r.1 instance ∙ t) in
        record {
          after = set.after;
          ends = rw (value_lem v st next x e, set.ends) refl;
          thawed = set.thawed;
          holds = (x, next, set.after, e, set.ends, set.now, refl);
          others = λ j h. set.others j h ∙ symbol.0 instance j ∙ r.0 instance j;
        }

  pub field_kept :
      (o : Option OwnedValue) (instance : RubyValue) (e : MaterializeEntry) (st a b : Y.Store)
      (P Q : Y.Store → Type 0)
      → get b instance e.ivar_id ≡ get a instance e.ivar_id
      → ((next : Y.Store) → P next → Q next)
      → HoldsField st a instance e o P
      → HoldsField st b instance e o Q
  field_kept none instance e st a b P Q same to h = to st h
  field_kept (some v) instance e st a b P Q same to (x, made, next, run, set, now, rest) =
      (x, made, next, run, set, same ∙ now, to next rest)
