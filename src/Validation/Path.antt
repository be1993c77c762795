-- ===== src/Validation/Path.antt =====
-- Paths into a value and how they are written (`PathSegment` and `format_path` of
-- ext/rustly_core/src/validation/engine.rs; validation/input.rs holds the same two once more).
use Prim.Native.Char.{Char}
use text.Mathlib.TextLemmas.{append-nil, append_assoc, nil-append, cons-append, cons≢nil}
use rustly_core.Base.{
  ℕ, String, ◌<>◌, ◌≡◌, refl, ap, Bool, true, false, Bool-cases, inl, inr, str_eq→≡, arith, sym,
  ◌∙◌, List, [], ◌∷◌, ◌++◌, str_eq, if◌then◌else◌,
}
use rustly_core.Base.Text.{to_string}

pub data PathSegment : Type 0 where
  key : String → PathSegment
  index : ℕ → PathSegment

-- One round of the loop over the segments.
unfoldable pub append_segment : String → PathSegment → String
append_segment out (key k) = (if str_eq out "" then out else out <> ".") <> k
append_segment out (index i) = ((out <> "[") <> to_string i) <> "]"

format_from : String → List PathSegment → String
format_from out [] = out
format_from out (s ∷ ss) = format_from (append_segment out s) ss

unfoldable pub format_path : List PathSegment → String
unfolding format_from append_segment
format_path = format_from ""

-- `path.pop()`, the popped segment dropped.
abbrev pub pop : List PathSegment → List PathSegment
pop [] = []
pop (s ∷ []) = []
pop (s ∷ t ∷ ss) = s ∷ pop (t ∷ ss)

-- `path.is_empty()`
abbrev pub is_empty : List PathSegment → Bool
is_empty [] = true
is_empty (s ∷ ss) = false

pub pop-push : (p : List PathSegment) (s : PathSegment) → pop (p ++ s ∷ []) ≡ p
pop-push [] s = refl
pop-push (t ∷ []) s = refl
pop-push (t ∷ u ∷ p) s = ap (λ q. t ∷ q) (pop-push (u ∷ p) s)

pub is_empty-push : (p : List PathSegment) (s : PathSegment) → is_empty (p ++ s ∷ []) ≡ false
is_empty-push [] s = refl
is_empty-push (t ∷ p) s = refl

-- The text after a segment: a dot before each key, brackets around each index.
abbrev pub dotted : List PathSegment → String
dotted [] = ""
dotted (key k ∷ ss) = "." <> (k <> dotted ss)
dotted (index i ∷ ss) = "[" <> (to_string i <> ("]" <> dotted ss))

-- The text of a path, read from its front: the first key has no dot, and empty keys in front give no
-- text.
abbrev pub path_text : List PathSegment → String
path_text [] = ""
path_text (key String.[] ∷ ss) = path_text ss
path_text (key (String.◌∷◌ c k) ∷ ss) = String.◌∷◌ c k <> dotted ss
path_text (index i ∷ ss) = dotted (index i ∷ ss)

abbrev IsText : String → Type 0
IsText out = str_eq out "" ≡ false

cons-IsText : (c : Char) (s : String) → IsText (String.◌∷◌ c s)
cons-IsText c s = elim (Bool-cases (str_eq (String.◌∷◌ c s) "")) [
  | inl same ↦ absurd (cons≢nil (str_eq→≡ (String.◌∷◌ c s) "" same))
  | inr other ↦ other
]

append-IsText : (out more : String) → IsText out → IsText (out <> more)
append-IsText String.[] more h = ground (arith, h)
append-IsText (String.◌∷◌ c s) more h = rw (cons-append c s more) (cons-IsText c (s <> more))

format_from-dotted :
    (out : String) (p : List PathSegment) → IsText out → format_from out p ≡ out <> dotted p
unfolding format_from append_segment
format_from-dotted out [] h = sym (append-nil out)
format_from-dotted out (key k ∷ p) h =
    let dot = append-IsText out "." h in
    rw h (
      format_from-dotted ((out <> ".") <> k) p (append-IsText (out <> ".") k dot)
      ∙ append_assoc (out <> ".") k (dotted p)
      ∙ append_assoc out "." (k <> dotted p))
format_from-dotted out (index i ∷ p) h =
    let bracket = append-IsText out "[" h in
    let number = append-IsText (out <> "[") (to_string i) bracket in
    format_from-dotted (((out <> "[") <> to_string i) <> "]") p
      (append-IsText ((out <> "[") <> to_string i) "]" number)
    ∙ append_assoc ((out <> "[") <> to_string i) "]" (dotted p)
    ∙ append_assoc (out <> "[") (to_string i) ("]" <> dotted p)
    ∙ append_assoc out "[" (to_string i <> ("]" <> dotted p))

-- The text of a path has a dot before each key but the first that stands in front, where empty keys in
-- front count for nothing, and each index in brackets.
pub format_path_lem : (p : List PathSegment) → format_path p ≡ path_text p
unfolding format_path format_from append_segment
format_path_lem [] = refl
format_path_lem (key String.[] ∷ p) = format_path_lem p
format_path_lem (key (String.◌∷◌ c k) ∷ p) =
    rw (nil-append (String.◌∷◌ c k)) (format_from-dotted (String.◌∷◌ c k) p (cons-IsText c k))
format_path_lem (index i ∷ p) =
    format_from-dotted (("[" <> to_string i) <> "]") p
      (append-IsText ("[" <> to_string i) "]" (append-IsText "[" (to_string i) refl))
    ∙ append_assoc ("[" <> to_string i) "]" (dotted p)
    ∙ append_assoc "[" (to_string i) ("]" <> dotted p)
