-- ===== src/Native/Errors.antt =====
-- The errors that Ruby is given (ext/rustly_core/src/errors.rs, the error sets of
-- ext/rustly_core/src/lib.rs, and `raise_argument_error` of ext/rustly_core/src/ruby_helpers.rs).
use rustly_core.Base.{
  ℕ, String, ◌≡◌, refl, ap, ◌∙◌, Bool, true, false, ◌||◌, List, [], ◌∷◌, ◌++◌, ◌==◌, arith,
  if◌then◌else◌,
}
use Prim.Native.Char.{Char, code}
use mathlib.Core.List.{map}
use rustly_core.Base.Lists.{length}
use rustly_core.Json.{JsonValue, JsonMap, insert}
use rustly_core.Schema.Plan.{has_nul}
use rustly_core.Validation.State.{ValidationIssue}
use rustly_core.Input.{InputError}
use rustly_core.Materialize.{MaterializeError}

pub record ErrorEntry : Type 0 where
  pub path : String
  pub code : String
  pub meta : JsonMap

pub record ErrorSet : Type 0 where
  pub entries : List ErrorEntry

-- `ErrorSet::from_entries`
abbrev pub from_entries : List ErrorEntry → ErrorSet
from_entries es = record { entries = es }

-- `ErrorSet::push`
abbrev pub push : ErrorSet → ErrorEntry → ErrorSet
push set e = record set { entries = set.entries ++ e ∷ [] }

-- `ErrorSet::is_empty`
abbrev pub is_empty : ErrorSet → Bool
is_empty set = length set.entries == 0

-- `ErrorSet::len`
abbrev pub len : ErrorSet → ℕ
len set = length set.entries

abbrev pub entry_of_issue : ValidationIssue → ErrorEntry
entry_of_issue i = record { path = i.path; code = i.code; meta = i.meta }

unfoldable pub error_set_from_issues : List ValidationIssue → ErrorSet
error_set_from_issues issues = from_entries (map entry_of_issue issues)

-- Two texts that are put into an empty map.
abbrev pub two_texts : String → String → String → String → JsonMap
two_texts k s j t = insert j (JsonValue.string t) (insert k (JsonValue.string s) JsonMap.empty)

abbrev pub one_entry : String → String → JsonMap → ErrorSet
one_entry path code meta = from_entries (record { path = path; code = code; meta = meta } ∷ [])

unfoldable pub error_set_from_input_error : InputError → ErrorSet
unfolding insert
error_set_from_input_error (InputError.expected_string actual) =
    one_entry "" "type_mismatch" (two_texts "expected" "string" "actual" actual)
error_set_from_input_error (InputError.unsupported_type path actual) =
    one_entry path "type_mismatch" (two_texts "expected" "json_value" "actual" actual)
error_set_from_input_error (InputError.invalid_hash_key path actual) =
    one_entry path "type_mismatch" (two_texts "expected" "string_or_symbol" "actual" actual)

unfoldable pub error_set_from_materialize_error : MaterializeError → ErrorSet
unfolding insert
error_set_from_materialize_error (MaterializeError.unsupported_root actual) =
    one_entry "" "type_mismatch" (two_texts "expected" "struct" "actual" actual)
error_set_from_materialize_error (MaterializeError.invalid_symbol name) =
    one_entry "" "coerce_failed" (two_texts "from" "sym" "value" name)
error_set_from_materialize_error (MaterializeError.invalid_key name) =
    one_entry "" "coerce_failed" (two_texts "from" "str" "value" name)

-- `message.replace('\0', "\\0")`
unfoldable pub replace_nul : String → String
replace_nul String.[] = ""
replace_nul (String.◌∷◌ c s) =
    let rest = replace_nul s in
    if 0 == code c then String.◌∷◌ "\\" (String.◌∷◌ "0" rest) else String.◌∷◌ c rest

-- The message that `raise_argument_error` gives to `rb_raise`; `CString::new` refuses a text with a NUL.
unfoldable pub argument_message : String → String
unfolding replace_nul
argument_message message =
    if has_nul (replace_nul message) then "invalid argument" else replace_nul message

replace_nul-free : (s : String) → has_nul (replace_nul s) ≡ false
unfolding replace_nul
replace_nul-free String.[] = refl
replace_nul-free (String.◌∷◌ c s) = nul_lem (0 == code c) refl (replace_nul-free s)
  where
    nul_lem :
        (b : Bool)
        → (0 == code c) ≡ b
        → has_nul (replace_nul s) ≡ false
        → has_nul (
            if b
            then String.◌∷◌ "\\" (String.◌∷◌ "0" (replace_nul s))
            else String.◌∷◌ c (replace_nul s))
          ≡ false
    nul_lem true e h = h
    nul_lem false e h = rw (e, h)

cons_kept :
    (b : Bool) (c : Char) (s : String)
    → (0 == code c) ≡ b
    → (0 == code c || has_nul s) ≡ false
    → replace_nul s ≡ s
    → (if b then String.◌∷◌ "\\" (String.◌∷◌ "0" (replace_nul s)) else String.◌∷◌ c (replace_nul s))
      ≡ String.◌∷◌ c s
cons_kept true c s e h same = ground (arith, e, h)
cons_kept false c s e h same = ap (String.◌∷◌ c) same

or-false : (a b : Bool) → (a || b) ≡ false → b ≡ false
or-false false b h = h
or-false true b h = ground (arith, h)

replace_nul-kept : (s : String) → has_nul s ≡ false → replace_nul s ≡ s
unfolding replace_nul
replace_nul-kept String.[] h = refl
replace_nul-kept (String.◌∷◌ c s) h =
    cons_kept (0 == code c) c s refl h (replace_nul-kept s (or-false (0 == code c) (has_nul s) h))

pub argument_message_lem :
    (s : String) → (argument_message s ≡ replace_nul s) × (has_nul (argument_message s) ≡ false)
unfolding argument_message
argument_message_lem s = rw (replace_nul-free s) (refl, replace_nul-free s)

-- A message without a NUL is raised as it is.
pub argument_message-kept : (s : String) → has_nul s ≡ false → argument_message s ≡ s
argument_message-kept s h = (argument_message_lem s).0 ∙ replace_nul-kept s h
