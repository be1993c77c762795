-- ===== src/Native/Flow/Answer.antt =====
-- What a validation that Ruby asks for should answer: the verdict on issues, the entry of an input that
-- cannot be converted, and the options that a call is made with.
use rustly_core.Base.{
  String, ◌≡◌, refl, Bool, true, false, List, [], ◌∷◌, ◌==◌, ◌⊎◌, not, ◌&&◌, arith, ap,
  if◌then◌else◌,
}
use mathlib.Core.List.{map}
use rustly_core.Json.{JsonValue, JsonMap, insert}
use rustly_core.Ruby.{RubyValue, RubyClass, Reads, truthy}
use rustly_core.Input.{InputError}
use rustly_core.Schema.Compiled.{CompiledSchema}
use rustly_core.Validation.Options.{ValidationOptions}
use rustly_core.Validation.State.{ValidationIssue}
use rustly_core.Validation.Result.{ValidationResult, no_issues}
use rustly_core.Native.Errors.{
  ErrorEntry, entry_of_issue, error_set_from_issues, error_set_from_input_error, argument_message,
  replace_nul,
}
use rustly_core.Native.Gvl.{T, pure, raise, argument_error}
use rustly_core.Native.Options.{Symbols, parse_options}
use rustly_core.Native.Options.Given.{GivenOptions, with_defaults, Gives, parse_options-given}
use rustly_core.Native.Flow.{
  Verdict, valid, invalid, verdict_of, or_argument_error, raise_argument_error,
}

-- One entry for each issue, in their order.
abbrev pub entries_of : List ValidationIssue → List ErrorEntry
entries_of [] = []
entries_of (i ∷ is) = record { path = i.path; code = i.code; meta = i.meta } ∷ entries_of is

-- An input is valid if there is no issue.
abbrev pub verdict : List ValidationIssue → Verdict
verdict [] = valid
verdict (i ∷ is) = invalid (record { entries = entries_of (i ∷ is) })

abbrev mismatch : String → String → String → ErrorEntry
mismatch path wanted actual = record {
  path = path;
  code = "type_mismatch";
  meta =
      JsonMap.entry "actual" (JsonValue.string actual)
        (JsonMap.entry "expected" (JsonValue.string wanted) JsonMap.empty);
}

-- The entry of an input that cannot be converted.
abbrev pub refusal : InputError → ErrorEntry
refusal (InputError.expected_string actual) = mismatch "" "string" actual
refusal (InputError.unsupported_type path actual) = mismatch path "json_value" actual
refusal (InputError.invalid_hash_key path actual) = mismatch path "string_or_symbol" actual

-- How a call passes options.
pub data CallOptions : Type 0 where
  no_options no_hash : CallOptions
  given : GivenOptions → CallOptions

abbrev pub Passes : Reads → Symbols → RubyValue → CallOptions → Type 0
Passes R S opts CallOptions.no_options = (opts == R.qnil) ≡ true
Passes R S opts CallOptions.no_hash =
    ((opts == R.qnil) ≡ false)
    × (((R.rb_obj_is_kind_of opts RubyClass.c_hash == R.qfalse) ≡ true)
        ⊎ ((R.rb_obj_is_kind_of opts RubyClass.c_hash == R.qnil) ≡ true))
Passes R S opts (CallOptions.given g) = Gives R S opts g

-- The options of the call: those of the schema, or those that are given and the defaults.
abbrev pub call_options : CompiledSchema → CallOptions → T ValidationOptions
call_options c CallOptions.no_options = pure c.options
call_options c CallOptions.no_hash = raise (argument_error "opts must be a Hash")
call_options c (CallOptions.given g) = pure (with_defaults g)

entries_of_lem : (is : List ValidationIssue) → map entry_of_issue is ≡ entries_of is
entries_of_lem [] = refl
entries_of_lem (i ∷ is) = ap (λ es. entry_of_issue i ∷ es) (entries_of_lem is)

pub error_set_from_issues-entries_of :
    (is : List ValidationIssue) → error_set_from_issues is ≡ record { entries = entries_of is }
unfolding error_set_from_issues
error_set_from_issues-entries_of is = ap (λ es. record { entries = es }) (entries_of_lem is)

verdict_lem :
    (is : List ValidationIssue)
    → (if no_issues is then valid else invalid (error_set_from_issues is)) ≡ verdict is
verdict_lem [] = refl
verdict_lem (i ∷ is) = ap invalid (error_set_from_issues-entries_of (i ∷ is))

pub verdict_of-verdict : (r : ValidationResult) → verdict_of r ≡ verdict r.issues
unfolding verdict_of
verdict_of-verdict r = verdict_lem r.issues

pub refusal_lem :
    (e : InputError) → error_set_from_input_error e ≡ record { entries = refusal e ∷ [] }
unfolding error_set_from_input_error insert
refusal_lem (InputError.expected_string actual) = refl
refusal_lem (InputError.unsupported_type path actual) = refl
refusal_lem (InputError.invalid_hash_key path actual) = refl

message_kept : argument_message "opts must be a Hash" ≡ "opts must be a Hash"
unfolding argument_message replace_nul
message_kept = refl

not_truthy : (a b : Bool) → (a ≡ true) ⊎ (b ≡ true) → (not a && not b) ≡ false
not_truthy a b h = ground (arith, h)

parse_options-Gives :
    (R : Reads) (S : Symbols) (c : CompiledSchema) (opts : RubyValue) (g : GivenOptions)
    → Gives R S opts g
    → (if opts == R.qnil then pure c.options else or_argument_error (parse_options R S opts))
      ≡ pure (with_defaults g)
unfolding or_argument_error
parse_options-Gives R S c opts g h = rw (h.not_nil, parse_options-given R S opts g h)

pub parse_options-Passes :
    (R : Reads) (S : Symbols) (c : CompiledSchema) (opts : RubyValue) (o : CallOptions)
    → Passes R S opts o
    → (if opts == R.qnil then pure c.options else or_argument_error (parse_options R S opts))
      ≡ call_options c o
unfolding parse_options or_argument_error raise_argument_error truthy
parse_options-Passes R S c opts CallOptions.no_options e = rw e
parse_options-Passes R S c opts CallOptions.no_hash (e, f) = rw (
  e,
  not_truthy (R.rb_obj_is_kind_of opts RubyClass.c_hash == R.qfalse)
      (R.rb_obj_is_kind_of opts RubyClass.c_hash == R.qnil) f,
  message_kept,
)
parse_options-Passes R S c opts (CallOptions.given g) h = parse_options-Gives R S c opts g h
