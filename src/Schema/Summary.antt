-- ===== src/Schema/Summary.antt =====
-- The summary of a schema (`summary_from_value` of ext/rustly_core/src/schema/compiler.rs).
pub mod Cut
use Prim.Native.Char.{Char, code}
use rustly_core.Base.{
  ℕ, zero, suc, ◌-◌, ◌<◌, String, ◌<>◌, Option, none, some, List, [], ◌∷◌, leb, ltb, if◌then◌else◌,
}
use rustly_core.Base.Lists.{length}
use rustly_core.Base.Text.{codes, encode_char, encode}
use rustly_core.Json.{JsonValue}
use rustly_core.Host.{Host}

-- The number of bytes of a text, `String::len`.
abbrev pub byte_len : List ℕ → ℕ
byte_len cs = length (encode cs)

abbrev pub char_len : ℕ → ℕ
char_len c = length (encode_char c)

abbrev pub push_front : Char → Option String → Option String
push_front c none = none
push_front c (some s) = some (String.◌∷◌ c s)

-- `String::truncate` on a text of at least so many bytes; `none` stands for its panic where the cut
-- is inside a character.
unfoldable pub truncate : ℕ → String → Option String
truncate zero s = some ""
truncate (suc n) String.[] = some ""
truncate (suc n) (String.◌∷◌ c s) =
    let rest = truncate (suc n - char_len (code c)) s in
    if leb (char_len (code c)) (suc n) then push_front c rest else none

abbrev pub with_ellipsis : Option String → Option String
with_ellipsis none = none
with_ellipsis (some s) = some (s <> "…")

unfoldable pub shorten : String → Option String
unfolding truncate encode
shorten text =
    if ltb 200 (byte_len (codes text)) then with_ellipsis (truncate 200 text) else some text

-- `none` stands for the panic.
unfoldable pub summary_from_value : Host → JsonValue → Option String
unfolding shorten
summary_from_value H (JsonValue.object m) = shorten (H.json_text (JsonValue.object m))
summary_from_value H (JsonValue.array xs) = shorten (H.json_text (JsonValue.array xs))
summary_from_value H JsonValue.null = some (H.json_text JsonValue.null)
summary_from_value H (JsonValue.bool b) = some (H.json_text (JsonValue.bool b))
summary_from_value H (JsonValue.number n) = some (H.json_text (JsonValue.number n))
summary_from_value H (JsonValue.string s) = some (H.json_text (JsonValue.string s))
