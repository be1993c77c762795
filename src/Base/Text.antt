-- ===== src/Base/Text.antt =====
-- The functions on texts that the code takes from the Rust standard library.
use Prim.Native.Nat.{ℕ, zero, suc, ◌+◌, ◌-◌, ◌*◌, ◌/◌, ◌%◌, ◌^◌}
use Prim.Native.Char.{code}
use Prim.Native.String.{String, ◌++◌}
use mathlib.Core.Bool.{Bool, true, false, ◌&&◌, ◌||◌}
use mathlib.Core.Option.{Option, none, some}
use mathlib.Core.List
use mathlib.Core.List.{List, [], ◌∷◌, reverse, map}
use rustly_core.Base.Tests.{ltb, leb, ◌==◌, if◌then◌else◌}
use rustly_core.Base.Int.{ℤ, pos, negsuc}

-- The characters of a text, by their code points.
abbrev pub codes : String → List ℕ
codes String.[] = []
codes (String.◌∷◌ c s) = code c ∷ codes s

-- The bytes of one character in UTF-8.
unfoldable pub encode_char : ℕ → List ℕ
encode_char c =
    if ltb c 0x80
    then c ∷ []
    else if ltb c 0x800
    then (0xc0 + c / 64) ∷ (0x80 + c % 64) ∷ []
    else if ltb c 0x1_0000
    then (0xe0 + c / 4096) ∷ (0x80 + c / 64 % 64) ∷ (0x80 + c % 64) ∷ []
    else (0xf0 + c / 0x4_0000)
      ∷ (0x80 + c / 4096 % 64)
      ∷ (0x80 + c / 64 % 64)
      ∷ (0x80 + c % 64)
      ∷ []

-- `str::as_bytes`
unfoldable pub encode : List ℕ → List ℕ
unfolding encode_char
encode [] = []
encode (c ∷ cs) = List.◌++◌ (encode_char c) (encode cs)

-- `char::is_whitespace`
unfoldable pub is_whitespace : ℕ → Bool
is_whitespace c =
    leb 9 c && leb c 13
    || c == 0x20
    || c == 0x85
    || c == 0xa0
    || c == 0x1680
    || leb 0x2000 c && leb c 0x200a
    || c == 0x2028
    || c == 0x2029
    || c == 0x202f
    || c == 0x205f
    || c == 0x3000

trim_start : List ℕ → List ℕ
trim_start [] = []
trim_start (c ∷ cs) = if is_whitespace c then trim_start cs else c ∷ cs

-- `str::trim`
unfoldable pub trim : List ℕ → List ℕ
unfolding trim_start is_whitespace
trim cs = reverse (trim_start (reverse (trim_start cs)))

-- The digits that are left, on top of the value of those that were read.
unfoldable pub parse_digits : ℕ → List ℕ → Option ℕ
parse_digits n [] = some n
parse_digits n (c ∷ cs) =
    if leb b'0' c && leb c b'9' then parse_digits (n * 10 + (c - b'0')) cs else none

unfoldable pub parse_magnitude : List ℕ → Option ℕ
unfolding parse_digits
parse_magnitude [] = none
parse_magnitude (c ∷ cs) = parse_digits 0 (c ∷ cs)

abbrev pub in_i64 : Bool → ℕ → Option ℤ
in_i64 false n = if ltb n (2 ^ 63) then some (pos n) else none
in_i64 true zero = some (pos 0)
in_i64 true (suc n) = if ltb n (2 ^ 63) then some (negsuc n) else none

-- `str::parse::<i64>`: an optional sign, one digit at least, and nothing else; in range.
unfoldable pub parse_i64 : List ℕ → Option ℤ
unfolding parse_magnitude
parse_i64 [] = none
parse_i64 (c ∷ cs) =
    if c == b'-'
    then elim (parse_magnitude cs) [ none ↦ none | some n ↦ in_i64 true n ]
    else if c == b'+'
    then elim (parse_magnitude cs) [ none ↦ none | some n ↦ in_i64 false n ]
    else elim (parse_magnitude (c ∷ cs)) [ none ↦ none | some n ↦ in_i64 false n ]

-- `char::to_ascii_lowercase`
unfoldable pub ascii_lower : ℕ → ℕ
ascii_lower c = if leb b'A' c && leb c b'Z' then c + 32 else c

abbrev pub codes_eq : List ℕ → List ℕ → Bool
codes_eq [] [] = true
codes_eq (a ∷ as') (b ∷ bs) = a == b && codes_eq as' bs
codes_eq _ _ = false

-- `str::eq_ignore_ascii_case`
unfoldable pub eq_ignore_ascii_case : String → String → Bool
unfolding ascii_lower
eq_ignore_ascii_case s t = codes_eq (map ascii_lower (codes s)) (map ascii_lower (codes t))

-- `str::contains` of one character.
abbrev pub contains_char : ℕ → List ℕ → Bool
contains_char c [] = false
contains_char c (d ∷ ds) = c == d || contains_char c ds

-- `str::starts_with`
abbrev pub codes_start_with : List ℕ → List ℕ → Bool
codes_start_with cs [] = true
codes_start_with [] (p ∷ ps) = false
codes_start_with (c ∷ cs) (p ∷ ps) = c == p && codes_start_with cs ps

abbrev digit_text : ℕ → String
digit_text zero = "0"
digit_text (suc zero) = "1"
digit_text (suc (suc zero)) = "2"
digit_text (suc (suc (suc zero))) = "3"
digit_text (suc (suc (suc (suc zero)))) = "4"
digit_text (suc (suc (suc (suc (suc zero))))) = "5"
digit_text (suc (suc (suc (suc (suc (suc zero)))))) = "6"
digit_text (suc (suc (suc (suc (suc (suc (suc zero))))))) = "7"
digit_text (suc (suc (suc (suc (suc (suc (suc (suc zero)))))))) = "8"
digit_text _ = "9"

-- A number has fewer digits than its successor counts, so this fuel does not run out.
decimal : ℕ → ℕ → String
decimal zero n = ""
decimal (suc fuel) n =
    let rest = decimal fuel (n / 10) in
    if ltb n 10 then digit_text n else rest ++ digit_text (n % 10)

-- `usize::to_string`
unfoldable pub to_string : ℕ → String
unfolding decimal
to_string n = decimal (suc n) n
