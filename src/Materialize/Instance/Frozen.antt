-- ===== src/Materialize/Instance/Frozen.antt =====
-- What `deep_freeze_value` freezes.
use rustly_core.Base.{ℕ, zero, suc, ◌≡◌, refl, ◌∙◌, Bool, true, false, if◌then◌else◌, List, [], ◌∷◌}
use rustly_core.Ruby.{RubyValue, RubyClass, Reads, truthy}
use rustly_core.Materialize.{RubyHeap, Built, built, B, ◌>>=◌, ◌>>◌}
use rustly_core.Materialize.Instance.{
  freeze_elements, freeze_entries, freeze_held, deep_freeze_value,
}

unfoldable pub elements : Reads → RubyValue → ℕ → ℕ → List RubyValue
elements R v zero index = []
elements R v (suc left) index = R.rb_ary_entry v index ∷ elements R v left (suc index)

unfoldable pub keys_and_values : List (RubyValue × RubyValue) → List RubyValue
keys_and_values [] = []
keys_and_values ((k, v) ∷ rest) = k ∷ v ∷ keys_and_values rest

-- What an object holds: the elements of an array, the keys and values of a hash.
unfoldable pub held : Reads → RubyValue → List RubyValue
unfolding truthy elements keys_and_values
held R v =
    if truthy R (R.rb_obj_is_kind_of v RubyClass.c_array)
    then elements R v (R.rarray_len v) 0
    else if truthy R (R.rb_obj_is_kind_of v RubyClass.c_hash)
    then keys_and_values (R.rb_hash_entries v)
    else []

abbrev pub Each : (RubyValue → Type 0) → List RubyValue → Type 0
Each P [] = Unit {0}
Each P (v ∷ vs) = P v × Each P vs

-- An object holds others, and these hold others, at most so many levels deep.
unfoldable pub IsTree : Reads → ℕ → RubyValue → Type 0
IsTree R zero v = ⊥
IsTree R (suc n) v = Each (IsTree R n) (held R v)

-- An object and all that it holds, at every level, have a property.
unfoldable pub Throughout : (RubyValue → Type 0) → Reads → ℕ → RubyValue → Type 0
Throughout P R zero v = ⊥
Throughout P R (suc n) v = P v × Each (Throughout P R n) (held R v)

-- `rb_obj_freeze` freezes its argument and changes nothing else.
pub record FreezeLaws (Y : RubyHeap) (is_frozen : Y.Store → RubyValue → Bool) : Type 0 where
  pub reads_kept : (v : RubyValue) (st : Y.Store) → Y.reads (Y.rb_obj_freeze v st) ≡ Y.reads st
  pub freezes : (v : RubyValue) (st : Y.Store) → is_frozen (Y.rb_obj_freeze v st) v ≡ true
  pub stays :
      (v w : RubyValue) (st : Y.Store)
      → is_frozen st w ≡ true
      → is_frozen (Y.rb_obj_freeze v st) w ≡ true

module _ (Y : RubyHeap) (is_frozen : Y.Store → RubyValue → Bool) where
  abbrev pub IsFrozen : Y.Store → RubyValue → Type 0
  IsFrozen st v = is_frozen st v ≡ true

  -- A run ends, what is read stays, what was frozen stays frozen, and the end has a property.
  pub record Freezes (R : Reads) (st : Y.Store) (m : Built Y.Store (Unit {0}))
      (Q : Y.Store → Type 0) : Type 0 where
    pub after : Y.Store
    pub ends : m ≡ built tt after
    pub same : Y.reads after ≡ R
    pub kept : (w : RubyValue) → IsFrozen st w → IsFrozen after w
    pub holds : Q after

  Each-map :
      (P Q : RubyValue → Type 0)
      → ((w : RubyValue) → P w → Q w)
      → (vs : List RubyValue) → Each P vs
      → Each Q vs
  Each-map P Q h [] t = tt
  Each-map P Q h (v ∷ vs) (t, ts) = (h v t, Each-map P Q h vs ts)

  Throughout-map :
      (P Q : RubyValue → Type 0) (R : Reads)
      → ((w : RubyValue) → P w → Q w)
      → (n : ℕ) (v : RubyValue) → Throughout P R n v
      → Throughout Q R n v
  unfolding Throughout
  Throughout-map P Q R h zero v t = t
  Throughout-map P Q R h (suc n) v (p, t) = (
    h v p,
    Each-map (Throughout P R n) (Throughout Q R n) (Throughout-map P Q R h n) (held R v) t,
  )

  -- All of a list is frozen, at every level.
  abbrev pub AllFrozen : Reads → ℕ → List RubyValue → Y.Store → Type 0
  AllFrozen R n vs st = Each (Throughout (IsFrozen st) R n) vs

  nothing_lem :
      (R : Reads) (n : ℕ) (st : Y.Store)
      → Y.reads st ≡ R
      → Freezes R st (built tt st) (AllFrozen R n [])
  nothing_lem R n st e = record { after = st; ends = refl; same = e; kept = λ w f. f; holds = tt }

  -- One object is frozen, and then the rest.
  step_lem :
      (R : Reads) (n : ℕ) (v : RubyValue) (vs : List RubyValue) (st : Y.Store)
      (m whole next : Built Y.Store (Unit {0}))
      (one : Freezes R st m (λ st. Throughout (IsFrozen st) R n v))
      → Freezes R one.after next (AllFrozen R n vs)
      → whole ≡ next
      → Freezes R st whole (AllFrozen R n (v ∷ vs))
  step_lem R n v vs st m whole next one rest e = record {
    after = rest.after;
    ends = e ∙ rest.ends;
    same = rest.same;
    kept = λ w f. rest.kept w (one.kept w f);
    holds = (
      Throughout-map (IsFrozen one.after) (IsFrozen rest.after) R rest.kept n v one.holds,
      rest.holds,
    );
  }

  module _ (go : RubyValue → B Y (Unit {0})) (R : Reads) (n : ℕ)
      (h : (v : RubyValue) (st : Y.Store)
        → Y.reads st ≡ R
        → IsTree R n v
        → Freezes R st (go v st) (λ st. Throughout (IsFrozen st) R n v)) where
    freeze_elements_lem :
        (v : RubyValue) (left index : ℕ) (st : Y.Store)
        → Y.reads st ≡ R
        → Each (IsTree R n) (elements R v left index)
        → Freezes R st
            (freeze_elements Y go v left index st)
            (AllFrozen R n (elements R v left index))
    unfolding freeze_elements elements ◌>>=◌
    freeze_elements_lem v zero index st e t = nothing_lem R n st e
    freeze_elements_lem v (suc left) index st e (t, ts) =
        let one = h (R.rb_ary_entry v index) st e t in
        let rest = freeze_elements_lem v left (suc index) one.after one.same ts in
        step_lem R n (R.rb_ary_entry v index) (elements R v left (suc index)) st _ _ _ one rest
          (rw (e, one.ends) refl)

    freeze_entries_lem :
        (es : List (RubyValue × RubyValue)) (st : Y.Store)
        → Y.reads st ≡ R
        → Each (IsTree R n) (keys_and_values es)
        → Freezes R st (freeze_entries Y go es st) (AllFrozen R n (keys_and_values es))
    unfolding freeze_entries keys_and_values ◌>>=◌
    freeze_entries_lem [] st e t = nothing_lem R n st e
    freeze_entries_lem ((k, v) ∷ es) st e (t, (u, ts)) =
        let one = h k st e t in
        let two = h v one.after one.same u in
        let rest = freeze_entries_lem es two.after two.same ts in
        let inner : Freezes R one.after ((go v >> freeze_entries Y go es) one.after)
            (AllFrozen R n (v ∷ keys_and_values es)) =
          step_lem R n v (keys_and_values es) one.after _ _ _ two rest (rw two.ends refl) in
        step_lem R n k (v ∷ keys_and_values es) st _ _ _ one inner (rw one.ends refl)

    branch_lem :
        (a b : Bool) (v : RubyValue) (st : Y.Store)
        → Y.reads st ≡ R
        → Each (IsTree R n) (
            if a
            then elements R v (R.rarray_len v) 0
            else if b
            then keys_and_values (R.rb_hash_entries v)
            else [])
        → Freezes R st
            (if a
              then freeze_elements Y go v (R.rarray_len v) 0 st
              else if b
              then freeze_entries Y go (R.rb_hash_entries v) st
              else built tt st)
            (AllFrozen R n (
              if a
              then elements R v (R.rarray_len v) 0
              else if b
              then keys_and_values (R.rb_hash_entries v)
              else []))
    branch_lem true b v st e t = freeze_elements_lem v (R.rarray_len v) 0 st e t
    branch_lem false true v st e t = freeze_entries_lem (R.rb_hash_entries v) st e t
    branch_lem false false v st e t = nothing_lem R n st e

    freeze_held_lem :
        (v : RubyValue) (st : Y.Store)
        → Y.reads st ≡ R
        → Each (IsTree R n) (held R v)
        → Freezes R st (freeze_held Y go v st) (AllFrozen R n (held R v))
    unfolding freeze_held held
    freeze_held_lem v st e t = rw e (
        branch_lem (truthy R (R.rb_obj_is_kind_of v RubyClass.c_array))
          (truthy R (R.rb_obj_is_kind_of v RubyClass.c_hash)) v st e t)

  deep_freeze_value_lem :
      FreezeLaws Y is_frozen
      → (R : Reads) (n : ℕ) (v : RubyValue) (st : Y.Store) → Y.reads st ≡ R
      → IsTree R n v
      → Freezes R st (deep_freeze_value Y n v st) (λ st. Throughout (IsFrozen st) R n v)
  unfolding IsTree Throughout deep_freeze_value ◌>>=◌
  deep_freeze_value_lem L R zero v st e t = absurd t
  deep_freeze_value_lem L R (suc n) v st e t =
      let same = L.reads_kept v st ∙ e in
      let rest =
        freeze_held_lem (deep_freeze_value Y n) R n (deep_freeze_value_lem L R n) v
          (Y.rb_obj_freeze v st) same t in
      record {
        after = rest.after;
        ends = rest.ends;
        same = rest.same;
        kept = λ w f. rest.kept w (L.stays v w st f);
        holds = (rest.kept v (L.freezes v st), rest.holds);
      }

  -- If `rb_obj_freeze` freezes its argument and changes nothing else, and an object holds others at most
  -- as many levels deep as there is fuel, then `deep_freeze_value` ends, the object and all that it
  -- holds at every level are frozen, what is read of the heap is as it was, and nothing is thawed.
  pub deep_freeze_value-Freezes :
      FreezeLaws Y is_frozen
      → (n : ℕ) (v : RubyValue) (st : Y.Store) → IsTree (Y.reads st) n v
      → Freezes
          (Y.reads st)
          st
          (deep_freeze_value Y n v st)
          (λ after. Throughout (IsFrozen after) (Y.reads st) n v)
  deep_freeze_value-Freezes L n v st t = deep_freeze_value_lem L (Y.reads st) n v st refl t
