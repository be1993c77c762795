-- ===== src/Materialize/Runs.antt =====
-- The conversion of a validated value to a Ruby object, run on a heap of which a relation is kept.
use rustly_core.Base.{
  ℕ, String, ◌≡◌, refl, ap, Bool, true, false, Option, none, some, List, [], ◌∷◌, if◌then◌else◌,
}
use rustly_core.Base.Int.{ℤ}
use rustly_core.Base.Float.{F64}
use rustly_core.Ruby.{RubyValue}
use rustly_core.Schema.Plan.{has_nul}
use rustly_core.Validation.Value.{OwnedValue, OwnedList, OwnedDict, OwnedFields, OwnedExtras}
use rustly_core.Materialize.{
  MaterializeError, invalid_symbol, invalid_key, RubyHeap, Built, built, failed, pure, continue,
  call, look, change, fail, ◌>>=◌, symbol_to_value, attribute_key_value, owned_value_to_ruby,
  push_items, put_entries, put_fields, put_extras, put_extra_entries,
}
use rustly_core.Materialize.Bad.{
  first, bad_symbol, bad_key, bad, bad_items, bad_entries, bad_fields, bad_extras,
  bad_extra_entries,
}

module _ {S : Type 0} (Rel : S → S → Type 0) where
  -- A value, at a heap that is related to the one before, or the error.
  abbrev pub EndsAs : {A : Type 0} → S → Option MaterializeError → Built S A → Type 0
  EndsAs {A} before none m = (a : A) × (st : S) × (m ≡ built a st) × Rel before st
  EndsAs {A} before (some e) m = (st : S) × (m ≡ failed e st)

  pub record Runs {A : Type 0} (o : Option MaterializeError) (m : S → Built S A) : Type 0 where
    pub ends : (st : S) → EndsAs st o (m st)

  pub record IsPreorder : Type 0 where
    pub same : (st : S) → Rel st st
    pub chain : (a b c : S) → Rel a b → Rel b c → Rel a c

  module _ (P : IsPreorder) where
    further :
        {C : Type 0} (o : Option MaterializeError) (a b : S) (m : Built S C)
        → Rel a b
        → EndsAs b o m
        → EndsAs a o m
    further none a b m r (x, st, e, t) = (x, st, e, P.chain a b st r t)
    further (some e) a b m r h = h

    pub Runs-bind :
        {A C : Type 0} {o p : Option MaterializeError} {m : S → Built S A} {f : A → S → Built S C}
        → Runs o m
        → ((a : A) → Runs p (f a))
        → Runs (first o p) (m >>= f)
    unfolding ◌>>=◌
    Runs-bind {o = none} {p} {f} h k = record {
      ends = λ st.
          let (a, next, e, r) = h.ends st in
          rw e (further p st next (f a next) r ((k a).ends next));
    }
    Runs-bind {o = some e} {f} h k = record {
      ends = λ st. let (next, e) = h.ends st in (next, ap (continue f) e);
    }

    -- What follows does not fail.
    pub Runs-last :
        {A C : Type 0} {o : Option MaterializeError} {m : S → Built S A} {f : A → S → Built S C}
        → Runs o m
        → ((a : A) → Runs none (f a))
        → Runs o (m >>= f)
    Runs-last {o = none} h k = Runs-bind h k
    Runs-last {o = some e} h k = Runs-bind h k

  pub Runs-change : (f : S → S) → ((st : S) → Rel st (f st)) → Runs none (change f)
  Runs-change f r = record { ends = λ st. (tt, f st, refl, r st) }

  module _ {A : Type 0} where
    pub Runs-pure : IsPreorder → (a : A) → Runs none (pure a)
    Runs-pure P a = record { ends = λ st. (a, st, refl, P.same st) }

    pub Runs-call : (f : S → A × S) → ((st : S) → Rel st (f st).1) → Runs none (call f)
    Runs-call f r = record { ends = λ st. ((f st).0, (f st).1, refl, r st) }

    pub Runs-look : IsPreorder → (f : S → A) → Runs none (look f)
    Runs-look P f = record { ends = λ st. (f st, st, refl, P.same st) }

    -- The failure of `CString::new`.
    nul_lem :
        (b : Bool) (e : MaterializeError) {m : S → Built S A}
        → Runs none m
        → Runs (if b then some e else none) (if b then fail e else m)
    nul_lem true e h = record { ends = λ st. (st, refl) }
    nul_lem false e h = h

-- The calls that the conversion makes keep the relation.
pub record Keeps (Y : RubyHeap) (Rel : Y.Store → Y.Store → Type 0) : Type 0 where
  pub preorder : IsPreorder Rel
  pub ll2inum : (i : ℤ) (st : Y.Store) → Rel st (Y.rb_ll2inum i st).1
  pub float_new : (f : F64) (st : Y.Store) → Rel st (Y.rb_float_new f st).1
  pub str_new : (s : String) (st : Y.Store) → Rel st (Y.rb_utf8_str_new s st).1
  pub intern2 : (s : String) (st : Y.Store) → Rel st (Y.rb_intern2 s st).1
  pub id2sym : (id : ℕ) (st : Y.Store) → Rel st (Y.rb_id2sym id st).1
  pub ary_new : (st : Y.Store) → Rel st (Y.rb_ary_new st).1
  pub ary_push : (array x : RubyValue) (st : Y.Store) → Rel st (Y.rb_ary_push array x st)
  pub hash_new : (st : Y.Store) → Rel st (Y.rb_hash_new st).1
  pub hash_aset : (hash k x : RubyValue) (st : Y.Store) → Rel st (Y.rb_hash_aset hash k x st)

module _ (Y : RubyHeap) (Rel : Y.Store → Y.Store → Type 0) (K : Keeps Y Rel) where
  symbol_lem : (s : String) → Runs Rel (bad_symbol s) (symbol_to_value Y s)
  unfolding symbol_to_value
  symbol_lem s = nul_lem Rel (has_nul s) (invalid_symbol s) (
      Runs-bind Rel K.preorder (Runs-call Rel (Y.rb_intern2 s) (K.intern2 s))
        (λ id. Runs-call Rel (Y.rb_id2sym id) (K.id2sym id)))

  key_lem : (s : String) → Runs Rel (bad_key s) (attribute_key_value Y s)
  unfolding attribute_key_value
  key_lem s =
      nul_lem Rel (has_nul s) (invalid_key s) (Runs-call Rel (Y.rb_utf8_str_new s) (K.str_new s))

  mutual
    unfolding bad owned_value_to_ruby

    pub value_lem : (v : OwnedValue) → Runs Rel (bad v) (owned_value_to_ruby Y v)
    value_lem OwnedValue.null = Runs-look Rel K.preorder _
    value_lem (OwnedValue.bool true) = Runs-look Rel K.preorder _
    value_lem (OwnedValue.bool false) = Runs-look Rel K.preorder _
    value_lem (OwnedValue.int i) = Runs-call Rel _ (K.ll2inum i)
    value_lem (OwnedValue.float f) = Runs-call Rel _ (K.float_new f)
    value_lem (OwnedValue.string s) = Runs-call Rel _ (K.str_new s)
    value_lem (OwnedValue.symbol s) = symbol_lem s
    value_lem (OwnedValue.list vs) =
        Runs-bind Rel K.preorder (Runs-call Rel _ K.ary_new)
          (λ x. Runs-last Rel K.preorder (push_items_lem x vs) (λ u. Runs-pure Rel K.preorder x))
    value_lem (OwnedValue.dict m) =
        Runs-bind Rel K.preorder (Runs-call Rel _ K.hash_new)
          (λ x. Runs-last Rel K.preorder (put_entries_lem x m) (λ u. Runs-pure Rel K.preorder x))
    value_lem (OwnedValue.struct names fs ex) =
        Runs-bind Rel K.preorder (Runs-call Rel _ K.hash_new) (λ x.
          Runs-bind Rel K.preorder (put_fields_lem x fs names)
            (λ u. Runs-last Rel K.preorder (put_extras_lem x ex) (λ w. Runs-pure Rel K.preorder x)))

    push_items_lem : (x : RubyValue) (vs : OwnedList) → Runs Rel (bad_items vs) (push_items Y x vs)
    push_items_lem x OwnedList.nil = Runs-pure Rel K.preorder tt
    push_items_lem x (OwnedList.cons v vs) = Runs-bind Rel K.preorder (value_lem v) (λ y.
        Runs-bind Rel K.preorder (Runs-change Rel _ (K.ary_push x y)) (λ u. push_items_lem x vs))

    put_entries_lem : (x : RubyValue) (m : OwnedDict) → Runs Rel (bad_entries m) (put_entries Y x m)
    put_entries_lem x OwnedDict.empty = Runs-pure Rel K.preorder tt
    put_entries_lem x (OwnedDict.entry k v m) = Runs-bind Rel K.preorder (symbol_lem k) (λ s.
        Runs-bind Rel K.preorder (value_lem v) (λ y.
          Runs-bind Rel K.preorder (Runs-change Rel _ (K.hash_aset x _ _))
            (λ u. put_entries_lem x m)))

    put_fields_lem :
        (x : RubyValue) (fs : OwnedFields) (names : List String)
        → Runs Rel (bad_fields fs names) (put_fields Y x fs names)
    put_fields_lem x OwnedFields.end names = Runs-pure Rel K.preorder tt
    put_fields_lem x (OwnedFields.absent fs) [] = Runs-pure Rel K.preorder tt
    put_fields_lem x (OwnedFields.absent fs) (n ∷ ns) = put_fields_lem x fs ns
    put_fields_lem x (OwnedFields.present v fs) [] = Runs-pure Rel K.preorder tt
    put_fields_lem x (OwnedFields.present v fs) (n ∷ ns) =
        Runs-bind Rel K.preorder (value_lem v) (λ y. Runs-bind Rel K.preorder (symbol_lem n) (λ k.
          Runs-bind Rel K.preorder (Runs-change Rel _ (K.hash_aset x _ _))
            (λ u. put_fields_lem x fs ns)))

    put_extras_lem :
        (x : RubyValue) (ex : OwnedExtras) → Runs Rel (bad_extras ex) (put_extras Y x ex)
    put_extras_lem x OwnedExtras.no_extras = Runs-pure Rel K.preorder tt
    put_extras_lem x (OwnedExtras.extras m) = put_extra_entries_lem x m

    put_extra_entries_lem :
        (x : RubyValue) (m : OwnedDict) → Runs Rel (bad_extra_entries m) (put_extra_entries Y x m)
    put_extra_entries_lem x OwnedDict.empty = Runs-pure Rel K.preorder tt
    put_extra_entries_lem x (OwnedDict.entry k v m) = Runs-bind Rel K.preorder (value_lem v) (λ y.
        Runs-bind Rel K.preorder (key_lem k) (λ s.
          Runs-bind Rel K.preorder (Runs-change Rel _ (K.hash_aset x _ _))
            (λ u. put_extra_entries_lem x m)))

  pub owned_value_to_ruby-Runs : (v : OwnedValue) → Runs Rel (bad v) (owned_value_to_ruby Y v)
  owned_value_to_ruby-Runs v = value_lem v
