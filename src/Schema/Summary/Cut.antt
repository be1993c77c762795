-- ===== src/Schema/Summary/Cut.antt =====
-- Where a long summary is cut.
use Prim.Native.Char.{Char, code}
use mathlib.Core.Path.{subst}
use mathlib.Core.Option.{some-injective}
use text.Mathlib.TextLemmas.{
  nil-append, cons-append, nil≢cons, head-eq_of_cons-eq, tail-eq_of_cons-eq,
}
use rustly_core.Base.{
  ℕ, zero, suc, ◌+◌, ◌-◌, ◌≤◌, ◌<◌, String, ◌<>◌, ◌≡◌, ◌↔◌, refl, ap, sym, ◌∙◌, Bool, true, false,
  Option, none, some, List, ◌∷◌, arith, leb, ltb, if◌then◌else◌,
}
use rustly_core.Base.Lists.{length-append}
use rustly_core.Base.Text.{codes, encode_char, encode}
use rustly_core.Schema.Summary.{byte_len, char_len, push_front, truncate, with_ellipsis, shorten}

-- `p` is what stands before the cut of a text after so many bytes, which is not inside a character.
pub record CutAt (n : ℕ) (s p : String) : Type 0 where
  pub after : String
  pub joined : s ≡ p <> after
  pub bytes : byte_len (codes p) ≡ n

char_len-pos : (c : ℕ) → 0 < char_len c
unfolding encode_char
char_len-pos c = ground arith

leb→le : (a b : ℕ) → leb a b ≡ true → a ≤ b
leb→le a b h = ground arith

byte_len-cons : (c : ℕ) (cs : List ℕ) → byte_len (c ∷ cs) ≡ char_len c + byte_len cs
unfolding encode
byte_len-cons c cs = length-append (encode_char c) (encode cs)

truncate-cons :
    (n : ℕ) (c : Char) (s p : String)
    → char_len (code c) ≤ suc n
    → truncate (suc n - char_len (code c)) s ≡ some p
    → truncate (suc n) (String.◌∷◌ c s) ≡ some (String.◌∷◌ c p)
unfolding truncate
truncate-cons n c s p small e = rw (le→leb _ _ small, e)
  where
    le→leb : (a b : ℕ) → a ≤ b → leb a b ≡ true
    le→leb a b h = ground arith

truncate-cut :
    (n : ℕ) (s p q : String) → s ≡ p <> q → byte_len (codes p) ≡ n → truncate n s ≡ some p
unfolding truncate encode
truncate-cut zero s String.[] q e b = refl
truncate-cut zero s (String.◌∷◌ c p) q e b =
    let none_left : ⊥ = omega (arith, b, byte_len-cons (code c) (codes p), char_len-pos (code c)) in
    absurd none_left
truncate-cut (suc n) s String.[] q e b = let none_left : ⊥ = omega (arith, b) in absurd none_left
truncate-cut (suc n) String.[] (String.◌∷◌ c p) q e b = absurd (nil≢cons (e ∙ cons-append c p q))
truncate-cut (suc n) (String.◌∷◌ d s) (String.◌∷◌ c p) q e b =
    let same = e ∙ cons-append c p q in
    let width = byte_len-cons (code c) (codes p) in
    let head : code d ≡ code c = ap code (head-eq_of_cons-eq same) in
    let fits : char_len (code d) ≤ suc n = rw head (omega (arith, b, width)) in
    let rest : byte_len (codes p) ≡ suc n - char_len (code d) = rw head (omega (arith, b, width)) in
    truncate-cons n d s p fits
      (truncate-cut (suc n - char_len (code d)) s p q (tail-eq_of_cons-eq same) rest)
    ∙ ap (λ x. some (String.◌∷◌ x p)) (head-eq_of_cons-eq same)

cut_cons :
    (n : ℕ) (c : Char) (s p : String) (b : Bool)
    → leb (char_len (code c)) (suc n) ≡ b
    → (o : Option String) → (if b then push_front c o else none) ≡ some p
    → ((r : String) → o ≡ some r → CutAt (suc n - char_len (code c)) s r)
    → CutAt (suc n) (String.◌∷◌ c s) p
cut_cons n c s p true fits (some t) e cut =
    let inner = cut t refl in
    let width = byte_len-cons (code c) (codes t) in
    subst (CutAt (suc n) (String.◌∷◌ c s)) (some-injective _ _ e) (record {
      after = inner.after;
      joined = ap (String.◌∷◌ c) inner.joined ∙ sym (cons-append c t inner.after);
      bytes = omega (arith, width, inner.bytes, leb→le _ _ fits);
    })
cut_cons n c s p true fits none e cut = ground arith
cut_cons n c s p false fits o e cut = ground arith

cut-truncate : (n : ℕ) (s p : String) → n ≤ byte_len (codes s) → truncate n s ≡ some p → CutAt n s p
unfolding truncate encode
cut-truncate zero s p small e =
    subst (CutAt 0 s) (some-injective _ _ e)
      (record { after = s; joined = sym (nil-append s); bytes = refl })
cut-truncate (suc n) String.[] p small e =
    let none_left : ⊥ = omega (arith, small) in absurd none_left
cut-truncate (suc n) (String.◌∷◌ c s) p small e =
    cut_cons n c s p (leb (char_len (code c)) (suc n)) refl (truncate (suc n - char_len (code c)) s)
      e
      (λ r f.
        cut-truncate (suc n - char_len (code c)) s r
          (omega (arith, small, byte_len-cons (code c) (codes s))) f)

-- If the text of a schema has more than 200 bytes, then its summary is the part of the text before
-- byte 200 and an ellipsis if no character stands across byte 200, and otherwise there is none, since the
-- code panics.
pub shorten-CutAt :
    (s r : String)
    → 200 < byte_len (codes s)
    → (shorten s ≡ some r) ↔ ((p : String) × CutAt 200 s p × (r ≡ p <> "…"))
unfolding shorten
shorten-CutAt s r long = rw (lt→ltb _ _ long) (
  (λ e. ellipsis_lem (truncate 200 s) e (λ p f. cut-truncate 200 s p (omega (arith, long)) f)),
  (λ c. rw (truncate-cut 200 s c.0 c.1.after c.1.joined c.1.bytes) (ap some (sym c.2))),
)
  where
    lt→ltb : (a b : ℕ) → a < b → ltb a b ≡ true
    lt→ltb a b h = ground arith

    ellipsis_lem :
        (o : Option String)
        → with_ellipsis o ≡ some r
        → ((p : String) → o ≡ some p → CutAt 200 s p)
        → (p : String) × CutAt 200 s p × (r ≡ p <> "…")
    ellipsis_lem none e cut = ground arith
    ellipsis_lem (some p) e cut = (p, cut p refl, sym (some-injective _ _ e))
