-- ===== src/Tests/Heap/Cells.antt =====
-- Where the objects of the heap stand.
use rustly_core.Base.{
  ℕ, ◌+◌, ◌*◌, ◌≤◌, ◌≡◌, refl, sym, ap, ◌∙◌, Bool, true, false, Option, none, some, [], ◌∷◌, ◌==◌,
  if◌then◌else◌, arith,
}
use rustly_core.Ruby.{RubyValue}
use rustly_core.Heap.{Cell, IsNew}
use rustly_core.Tests.Heap.{Objects, address, find, plain, special_or, cells, bound, add}

pub eq_refl : (a : ℕ) → (a == a) ≡ true
eq_refl a = ground arith

pub eq-false : (a b : ℕ) → (b ≡ a → ⊥) → (a == b) ≡ false
eq-false a b h = ground (arith, h)

find-free : (st : Objects) (w : RubyValue) → address (bound st) ≤ w → find st w ≡ none
find-free [] w h = refl
find-free ((i, c) ∷ os) w h = ground (arith, find-free os w (omega arith))

find-odd : (st : Objects) (j : ℕ) → find st (2 * j + 15) ≡ none
find-odd [] j = refl
find-odd ((i, c) ∷ os) j = ground (arith, find-odd os j)

-- Where an object stands.
pub find-address :
    (st : Objects) (w : RubyValue) (c : Cell) → find st w ≡ some c → (i : ℕ) × (w ≡ address i)
find-address [] w c e = ground (arith, e)
find-address ((i, d) ∷ os) w c e = found (address i == w) refl (find-address os w c) e
  where
    found :
        (b : Bool)
        → (address i == w) ≡ b
        → (find os w ≡ some c → (j : ℕ) × (w ≡ address j))
        → (if b then some d else find os w) ≡ some c
        → (j : ℕ) × (w ≡ address j)
    found true h k f = (i, ground (arith, h))
    found false h k f = k f

abbrev pub is_special : Cell → Bool
is_special Cell.nil = true
is_special (Cell.boolean b) = true
is_special _ = false

abbrev special_of : Option Cell → Bool
special_of none = false
special_of (some c) = is_special c

clash : {A : Type 0} (o p : Option Cell) → o ≡ p → special_of o ≡ true → special_of p ≡ false → A
clash o p e s h = ground (arith, sym s ∙ ap special_of e ∙ h)

plain-special : (o : Option Cell) → special_of (plain o) ≡ false
plain-special none = refl
plain-special (some Cell.nil) = refl
plain-special (some (Cell.boolean b)) = refl
plain-special (some (Cell.integer i)) = refl
plain-special (some (Cell.float f)) = refl
plain-special (some (Cell.string s)) = refl
plain-special (some (Cell.symbol s)) = refl
plain-special (some (Cell.array ws)) = refl
plain-special (some (Cell.hash kvs)) = refl

plain-find : (o : Option Cell) (c : Cell) → plain o ≡ some c → o ≡ some c
plain-find none c e = e
plain-find (some Cell.nil) c e = ground (arith, e)
plain-find (some (Cell.boolean b)) c e = ground (arith, e)
plain-find (some (Cell.integer i)) c e = e
plain-find (some (Cell.float f)) c e = e
plain-find (some (Cell.string s)) c e = e
plain-find (some (Cell.symbol s)) c e = e
plain-find (some (Cell.array ws)) c e = e
plain-find (some (Cell.hash kvs)) c e = e

-- What is no special constant stands among the objects.
pub special_lem :
    (a b d : Bool) (o : Option Cell) (c : Cell)
    → special_or a b d o ≡ some c
    → is_special c ≡ false
    → (a ≡ false) × (b ≡ false) × (d ≡ false) × (o ≡ some c)
special_lem true b d o c e h = clash _ (some c) e refl h
special_lem false true d o c e h = clash _ (some c) e refl h
special_lem false false true o c e h = clash _ (some c) e refl h
special_lem false false false o c e h = (refl, refl, refl, plain-find o c e)

pub nil_lem : (a b d : Bool) (o : Option Cell) → special_or a b d o ≡ some Cell.nil → a ≡ true
nil_lem true b d o e = refl
nil_lem false true d o e = ground (arith, e)
nil_lem false false true o e = ground (arith, e)
nil_lem false false false o e = clash (some Cell.nil) (plain o) (sym e) refl (plain-special o)

pub true_lem :
    (a b d : Bool) (o : Option Cell)
    → special_or a b d o ≡ some (Cell.boolean true)
    → (a ≡ false) × (b ≡ true)
true_lem true b d o e = ground (arith, e)
true_lem false true d o e = (refl, refl)
true_lem false false true o e = ground (arith, e)
true_lem false false false o e =
    clash (some (Cell.boolean true)) (plain o) (sym e) refl (plain-special o)

pub false_lem :
    (a b d : Bool) (o : Option Cell)
    → special_or a b d o ≡ some (Cell.boolean false)
    → (a ≡ false) × (b ≡ false) × (d ≡ true)
false_lem true b d o e = ground (arith, e)
false_lem false true d o e = ground (arith, e)
false_lem false false true o e = (refl, refl, refl)
false_lem false false false o e =
    clash (some (Cell.boolean false)) (plain o) (sym e) refl (plain-special o)

plain-none : (a b d : Bool) → a ≡ false → b ≡ false → d ≡ false → special_or a b d none ≡ none
plain-none a b d e f g = rw (e, f, g) refl

address-free : (st : Objects) → cells st (address (bound st)) ≡ none
address-free st =
    rw (find-free st (address (bound st)) (omega arith))
      (plain-none _ _ _ (ground arith) (ground arith) (ground arith))

-- A symbol's text stands nowhere else.
pub name-free :
    (st : Objects) (v : RubyValue) (c : Cell) → find st v ≡ some c → cells st (v + 7) ≡ none
name-free st v c e =
    let (i, p) = find-address st v c e in
    let q : v + 7 ≡ 2 * i + 15 = omega (arith, p) in
    rw (q, find-odd st i) (plain-none _ _ _ (ground arith) (ground arith) (ground arith))

-- An address, with one more entry in front.
pub cells-cons :
    (a b d : Bool) (same : Bool) (x : Cell) (o : Option Cell) (c : Cell)
    → same ≡ false
    → special_or a b d o ≡ some c
    → special_or a b d (if same then some x else o) ≡ some c
cells-cons a b d same x o c h e = rw h e

add-kept :
    (st : Objects) (x : Cell) (w : RubyValue) (c : Cell)
    → cells st w ≡ some c
    → cells ((bound st, x) ∷ st) w ≡ some c
add-kept st x w c e = same (address (bound st) == w) refl
  where
    same : (b : Bool) → (address (bound st) == w) ≡ b → cells ((bound st, x) ∷ st) w ≡ some c
    same true h =
        let p : address (bound st) ≡ w = ground (arith, h) in
        ground (arith, sym (address-free st) ∙ ap (cells st) p ∙ e)
    same false h = cells-cons _ _ _ _ x _ c h e

pub made_lem :
    (c : Cell) (st : Objects)
    → is_special c ≡ false
    → plain (some c) ≡ some c
    → IsNew cells c st (add c st)
made_lem c st h p = record {
  was_free = address-free st;
  is_made = record {
    stands =
        rw
          (
            eq_refl (address (bound st)),
            eq-false (address (bound st)) 1 (omega arith),
            eq-false (address (bound st)) 3 (omega arith),
            eq-false (address (bound st)) 5 (omega arith),
          )
          p;
    kept = add-kept st c;
  };
}
