-- ===== src/Tests/Heap/Laws.antt =====
-- The heap that keeps its objects has the cells that it says.
use rustly_core.Base.{
  suc, ◌+◌, ◌-◌, ◌/◌, ◌≡◌, refl, sym, ap, ◌∙◌, inl, Bool, true, false, some, List, [], ◌∷◌, ◌++◌,
  ◌==◌, arith,
}
use mathlib.Core.List.{append_assoc}
use mathlib.Core.Path.{subst, subst⁻¹}
use rustly_core.Base.Lists.{length}
use rustly_core.Base.Int.{ℤ, pos}
use rustly_core.Ruby.{RubyValue}
use rustly_core.Input.Shape.{Typed}
use rustly_core.Heap.{
  Cell, Key, key_cell, fits, Listed, ShowsInteger, ShowsCell, IsPushed, IsPut, HeapLaws,
}
use rustly_core.Heap.Frame.{leaf-apart, key-leaf}
use rustly_core.Tests.Heap.{
  Objects, address, find, plain, cells, seen, type_of, elements, nth, reads_of, change_to, push_to,
  put_to, storing,
}
use rustly_core.Tests.Heap.Cells.{
  eq_refl, eq-false, find-address, is_special, special_lem, nil_lem, true_lem, false_lem, name-free,
  cells-cons, made_lem,
}

-- The address of an object that is changed.
number_of :
    (st : Objects) (v : RubyValue) (c : Cell) → find st v ≡ some c → address ((v - 8) / 2) ≡ v
number_of st v c e = let (i, p) = find-address st v c e in omega (arith, p)

change-stands :
    (st : Objects) (v : RubyValue) (c d : Cell)
    → cells st v ≡ some c
    → is_special c ≡ false
    → plain (some d) ≡ some d
    → cells (change_to v d st) v ≡ some d
change-stands st v c d e h p =
    let (a, b, f, g) = special_lem (v == 1) (v == 3) (v == 5) (find st v) c e h in
    rw (a, b, f, number_of st v c g, eq_refl v) p

change-kept :
    (st : Objects) (v : RubyValue) (c d : Cell)
    → cells st v ≡ some c
    → is_special c ≡ false
    → (w : RubyValue) (x : Cell) → (w ≡ v → ⊥)
    → cells st w ≡ some x
    → cells (change_to v d st) w ≡ some x
change-kept st v c d e h w x differ f =
    let (a, b, l, g) = special_lem (v == 1) (v == 3) (v == 5) (find st v) c e h in
    cells-cons _ _ _ _ d _ x (rw (number_of st v c g) (eq-false v w differ)) f

typed_lem :
    (st : Objects) (v : RubyValue) (c : Cell)
    → cells st v ≡ some c
    → is_special c ≡ false
    → Typed (reads_of st) v (type_of (some c))
typed_lem st v c e h =
    let (a, b, d, f) = special_lem (v == 1) (v == 3) (v == 5) (find st v) c e h in
    record { not_nil = a; not_true = b; not_false = d; typed = λ t. rw e refl }

nth_lem : (front ws : List RubyValue) (w : RubyValue) → nth (front ++ w ∷ ws) (length front) ≡ w
nth_lem [] ws w = refl
nth_lem (v ∷ front) ws w = nth_lem front ws w

length-snoc :
    (front : List RubyValue) (w : RubyValue) → length (front ++ w ∷ []) ≡ suc (length front)
length-snoc [] w = refl
length-snoc (v ∷ front) w = ap suc (length-snoc front w)

listed_lem :
    (st : Objects) (v : RubyValue) (front ws : List RubyValue)
    → elements (seen st v) ≡ front ++ ws
    → Listed (reads_of st) v (length front) ws
listed_lem st v front [] e = tt
listed_lem st v front (w ∷ ws) e = (
  ap (λ l. nth l (length front)) e ∙ nth_lem front ws w,
  rw (← length-snoc front w)
      (listed_lem st v (front ++ w ∷ []) ws (e ∙ sym (append_assoc front (w ∷ []) ws))),
)

integer_lem :
    (st : Objects) (v : RubyValue) (i : ℤ) (b : Bool)
    → fits i ≡ b
    → cells st v ≡ some (Cell.integer i)
    → ShowsInteger (reads_of st) v i b
integer_lem st v i true h e = (
  inl (subst (λ ty. Typed (reads_of st) v ty) (rw h refl) (typed_lem st v (Cell.integer i) e refl)),
  rw (e, h) refl,
)
integer_lem st v i false h e = (
  subst (λ ty. Typed (reads_of st) v ty) (rw h refl) (typed_lem st v (Cell.integer i) e refl),
  rw (e, h) refl,
)

shows_lem :
    (st : Objects) (v : RubyValue) (c : Cell) → cells st v ≡ some c → ShowsCell (reads_of st) v c
shows_lem st v Cell.nil e = nil_lem _ _ _ _ e
shows_lem st v (Cell.boolean true) e = true_lem _ _ _ _ e
shows_lem st v (Cell.boolean false) e = false_lem _ _ _ _ e
shows_lem st v (Cell.integer i) e = integer_lem st v i (fits i) refl e
shows_lem st v (Cell.float f) e = (typed_lem st v (Cell.float f) e refl, rw e refl)
shows_lem st v (Cell.string s) e =
    (typed_lem st v (Cell.string s) e refl, (v ∷ [], refl, rw e refl))
shows_lem st v (Cell.symbol s) e =
    let (a, b, d, f) = special_lem (v == 1) (v == 3) (v == 5) (find st v) (Cell.symbol s) e refl in
    let q : v + 7 - 7 ≡ v = omega arith in
    let h : seen st (v + 7) ≡ some (Cell.string s) =
      rw (name-free st v (Cell.symbol s) f, q, e) refl in
    (typed_lem st v (Cell.symbol s) e refl, rw h refl, ((v + 7) ∷ [], refl, rw h refl))
shows_lem st v (Cell.array ws) e =
    (typed_lem st v (Cell.array ws) e refl, rw e refl, listed_lem st v [] ws (rw e refl))
shows_lem st v (Cell.hash kvs) e = (typed_lem st v (Cell.hash kvs) e refl, rw e refl)

pushed_lem :
    (a x : RubyValue) (ws : List RubyValue) (st : Objects)
    → cells st a ≡ some (Cell.array ws)
    → IsPushed cells a x ws st (push_to (cells st a) a x st)
pushed_lem a x ws st e =
    subst⁻¹ (λ o. IsPushed cells a x ws st (push_to o a x st)) e
      (record {
        stands = change-stands st a (Cell.array ws) (Cell.array (ws ++ x ∷ [])) e refl refl;
        kept = change-kept st a (Cell.array ws) (Cell.array (ws ++ x ∷ [])) e refl;
      })

put_lem :
    (h k x : RubyValue) (key : Key) (kvs : List (RubyValue × RubyValue)) (st : Objects)
    → cells st h ≡ some (Cell.hash kvs)
    → cells st k ≡ some (key_cell key)
    → IsPut cells h x key kvs st (put_to (cells st h) h k x st)
put_lem h k x key kvs st e f =
    subst⁻¹ (λ o. IsPut cells h x key kvs st (put_to o h k x st)) e
      (record {
        copied = k;
        key_stands =
            change-kept st h (Cell.hash kvs) (Cell.hash (kvs ++ (k, x) ∷ [])) e refl k
              (key_cell key) (leaf-apart cells st h k _ _ e refl f (key-leaf key)) f;
        stands = change-stands st h (Cell.hash kvs) (Cell.hash (kvs ++ (k, x) ∷ [])) e refl refl;
        kept = change-kept st h (Cell.hash kvs) (Cell.hash (kvs ++ (k, x) ∷ [])) e refl;
      })

pub storing-HeapLaws : HeapLaws storing cells
storing-HeapLaws = record {
  shows = shows_lem;
  nil_stands = λ st. refl;
  true_stands = λ st. refl;
  false_stands = λ st. refl;
  ll2inum = λ i st h. (made_lem (Cell.integer i) st refl refl).is_made;
  ull2inum = λ n st h. (made_lem (Cell.integer (pos n)) st refl refl).is_made;
  float_new = λ f st. (made_lem (Cell.float f) st refl refl).is_made;
  str_new = λ s st. (made_lem (Cell.string s) st refl refl).is_made;
  symbol_made = λ s st h. record {
    stands = (made_lem (Cell.symbol s) st refl refl).is_made.stands;
    kept = (made_lem (Cell.symbol s) st refl refl).is_made.kept;
  };
  ary_new = λ st. made_lem (Cell.array []) st refl refl;
  ary_push = λ a x ws st e. pushed_lem a x ws st e;
  hash_new = λ st. made_lem (Cell.hash []) st refl refl;
  hash_aset = λ h k x key keys kvs st e ks new f. put_lem h k x key kvs st e f;
}
