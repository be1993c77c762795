-- ===== src/Tests/Variables.antt =====
-- A run of `materialize_instance` on a heap that keeps the variables of its objects.
use rustly_core.Base.{
  ℕ, String, inl, inr, ◌≡◌, ◌∙◌, refl, Bool, true, false, ◌&&◌, some, none, List, [], ◌∷◌, ◌==◌,
  if◌then◌else◌, arith,
}
use rustly_core.Base.Int.{pos}
use rustly_core.Ruby.{RubyValue}
use rustly_core.Schema.Plan.{MaterializePlan}
use rustly_core.Validation.Options.{FreezeMode}
use rustly_core.Validation.Value.{OwnedValue, OwnedFields, OwnedExtras}
use rustly_core.Materialize.{RubyHeap, built}
use rustly_core.Materialize.Bad.{bad}
use rustly_core.Materialize.Instance.{materialize_instance}
use rustly_core.Materialize.Instance.Laws.{VariableLaws}
use rustly_core.Materialize.Instance.Variables.{
  AreDistinct, AreGood, HoldsAll, materialize_instance-sets,
}
use rustly_core.Tests.Native.{test_reads}

-- Each variable that was set: the object, the id and the value.
abbrev Variables : Type 0
Variables = List (RubyValue × ℕ × RubyValue)

abbrev keeping : RubyHeap
keeping = record {
  Store = Variables;
  reads = λ st. test_reads;
  rb_ll2inum = λ i st. (15, st);
  rb_ull2inum = λ u st. (15, st);
  rb_float_new = λ f st. (1, st);
  rb_utf8_str_new = λ s st. (34, st);
  rb_intern2 = λ s st. (1, st);
  rb_id2sym = λ id st. (id, st);
  rb_ary_new = λ st. (32, st);
  rb_ary_push = λ array x st. st;
  rb_hash_new = λ st. (40, st);
  rb_hash_aset = λ hash key x st. st;
  rb_obj_alloc = λ klass st. some (91, st);
  rb_ivar_set = λ v id x st. some ((v, id, x) ∷ st);
  rb_obj_freeze = λ v st. st;
}

abbrev get : Variables → RubyValue → ℕ → RubyValue
get [] w id = 8
get ((v, j, x) ∷ st) w id = if v == w && j == id then x else get st w id

abbrev never_frozen : Variables → RubyValue → Bool
never_frozen st v = false

eq_refl : (a : ℕ) → (a == a) ≡ true
eq_refl a = ground arith

eq-false : (a b : ℕ) → (b ≡ a → ⊥) → (a == b) ≡ false
eq-false a b h = ground (arith, h)

keeping-VariableLaws : VariableLaws keeping get never_frozen
keeping-VariableLaws = record {
  keeps = record {
    preorder = record {
      same = λ st. (λ w id. refl, λ w. refl);
      chain = λ a b c r s. (λ w id. s.0 w id ∙ r.0 w id, λ w. refl);
    };
    ll2inum = λ i st. (λ w id. refl, λ w. refl);
    float_new = λ f st. (λ w id. refl, λ w. refl);
    str_new = λ s st. (λ w id. refl, λ w. refl);
    intern2 = λ s st. (λ w id. refl, λ w. refl);
    id2sym = λ id st. (λ w j. refl, λ w. refl);
    ary_new = λ st. (λ w id. refl, λ w. refl);
    ary_push = λ array x st. (λ w id. refl, λ w. refl);
    hash_new = λ st. (λ w id. refl, λ w. refl);
    hash_aset = λ hash k x st. (λ w id. refl, λ w. refl);
  };
  sets = λ v id x st t. record {
    after = (v, id, x) ∷ st;
    ends = refl;
    now = rw (eq_refl v, eq_refl id) refl;
    others = λ j h. rw (eq_refl v, eq-false id j h) refl;
    thawed = refl;
  };
  freeze_keeps = λ v w id st. refl;
}

-- Two entries, of which the second has no field.
abbrev plan : MaterializePlan
plan = record {
  entries =
      record { name = "id"; ivar_id = 2; symbol_id = 1 }
      ∷ record { name = "name"; ivar_id = 3; symbol_id = 4 }
      ∷ [];
  index = ("id", 0) ∷ ("name", 1) ∷ [];
}

-- The name `id` twice.
abbrev names : List String
names = "id" ∷ "name" ∷ "id" ∷ []

abbrev fields : OwnedFields
fields =
    OwnedFields.present (OwnedValue.bool true)
      (OwnedFields.absent (OwnedFields.present (OwnedValue.int (pos 7)) OwnedFields.end))

fields-AreGood : AreGood keeping get never_frozen names fields plan.entries
unfolding bad
fields-AreGood = (refl, (tt, tt))

plan-AreDistinct : AreDistinct plan.entries
plan-AreDistinct = (λ a. elim a [ inl e ↦ absurd (ground (arith, e)) | inr b ↦ b ], (λ b. b, tt))

materialize_instance-sets_example :
    (after : Variables) × (materialize_instance keeping 3 90 none
        (OwnedValue.struct names fields OwnedExtras.no_extras)
        plan
        FreezeMode.shallow
        false
        []
      ≡ built 91 after)
    × HoldsAll keeping get never_frozen names fields [] after 91 plan.entries
materialize_instance-sets_example =
    materialize_instance-sets keeping get never_frozen keeping-VariableLaws 3 FreezeMode.shallow
      refl 90 none names fields OwnedExtras.no_extras plan [] [] 91 refl refl plan-AreDistinct
      fields-AreGood tt
