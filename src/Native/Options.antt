-- ===== src/Native/Options.antt =====
-- The options that a caller passes (`parse_options` and `map_input_mode`, `map_extra_behavior` and
-- `map_freeze_mode` of ext/rustly_core/src/lib.rs).
pub mod Given
use rustly_core.Base.{
  String, ◌<>◌, Bool, true, false, not, Option, none, some, str_eq, ◌==◌, if◌then◌else◌,
}
use rustly_core.Ruby.{
  RubyValue, RubyClass, Reads, Raising, gives, exception, truthy, hash_lookup, value_to_bool,
  symbol_to_owned,
}
use rustly_core.Schema.Ir.{ExtraBehavior}
use rustly_core.Validation.Options.{InputMode, FreezeMode, ValidationOptions, default_options}

-- A `Result<A, String>`, or an exception of Ruby on the way.
pub data Parsed {ℓ} (A : Type ℓ) : Type ℓ where
  parsed : A → Parsed A
  bad : String → Parsed A
  raised : Parsed A

infixl 5 ◌>>=◌
abbrev pub ◌>>=◌ {ℓ κ} : {A : Type ℓ} {B : Type κ} → Parsed A → (A → Parsed B) → Parsed B
parsed a >>= f = f a
bad message >>= f = bad message
raised >>= f = raised

unfoldable pub map_input_mode : String → Parsed InputMode
map_input_mode symbol =
    if str_eq symbol "auto"
    then parsed InputMode.auto
    else if str_eq symbol "json"
    then parsed InputMode.json
    else if str_eq symbol "ruby"
    then parsed InputMode.ruby
    else bad ("unknown input_mode :" <> symbol)

unfoldable pub map_extra_behavior : String → Parsed ExtraBehavior
map_extra_behavior symbol =
    if str_eq symbol "forbid"
    then parsed ExtraBehavior.forbid
    else if str_eq symbol "ignore"
    then parsed ExtraBehavior.ignore
    else if str_eq symbol "allow"
    then parsed ExtraBehavior.allow
    else bad ("unknown extra policy :" <> symbol)

unfoldable pub map_freeze_mode : String → Parsed FreezeMode
map_freeze_mode symbol =
    if str_eq symbol "deep"
    then parsed FreezeMode.deep
    else if str_eq symbol "shallow"
    then parsed FreezeMode.shallow
    else if str_eq symbol "none"
    then parsed FreezeMode.none
    else bad ("unknown freeze mode :" <> symbol)

-- The symbols that `Init_rustly_core` stores.
pub record Symbols : Type 0 where
  pub strict : RubyValue
  pub extra : RubyValue
  pub input_mode : RubyValue
  pub freeze : RubyValue
  pub store_attributes : RubyValue

-- `ok_or_else` on what `symbol_to_owned` gives.
abbrev pub symbol_or : String → Raising (Option String) → Parsed String
symbol_or message (gives (some s)) = parsed s
symbol_or message (gives none) = bad message
symbol_or message exception = raised

abbrev pub bool_or : String → Option Bool → Parsed Bool
bool_or message (some b) = parsed b
bool_or message none = bad message

abbrev pub freeze_flag : Bool → FreezeMode
freeze_flag true = FreezeMode.deep
freeze_flag false = FreezeMode.none

-- `if let Some(value) = lookup { if value == nil { ignore } else … }`; `none` leaves the option.
abbrev pub unless_nil {ℓ} :
    {A : Type ℓ} → RubyValue → (RubyValue → Parsed A) → Option RubyValue → Parsed (Option A)
unless_nil qnil f none = parsed none
unless_nil qnil f (some v) = if v == qnil then parsed none else (f v >>= λ a. parsed (some a))

abbrev pub or_default {ℓ} : {A : Type ℓ} → A → Option A → A
or_default a none = a
or_default a (some b) = b

module _ (R : Reads) where
  abbrev pub bool_option : String → RubyValue → Parsed Bool
  bool_option message v = bool_or message (value_to_bool R v)

  unfoldable pub mode_option : RubyValue → Parsed InputMode
  unfolding map_input_mode
  mode_option v = do
    symbol ← symbol_or "opts[:input_mode] must be a Symbol" (symbol_to_owned R v)
    map_input_mode symbol

  unfoldable pub extra_option : RubyValue → Parsed ExtraBehavior
  unfolding map_extra_behavior
  extra_option v = do
    symbol ← symbol_or "opts[:extra] must be a Symbol" (symbol_to_owned R v)
    map_extra_behavior symbol

  unfoldable pub freeze_symbol : RubyValue → Parsed FreezeMode
  unfolding map_freeze_mode
  freeze_symbol v = do
    symbol ← symbol_or "opts[:freeze] must be false or a Symbol" (symbol_to_owned R v)
    map_freeze_mode symbol

  abbrev pub freeze_by : Option Bool → RubyValue → Parsed FreezeMode
  freeze_by (some b) v = parsed (freeze_flag b)
  freeze_by none v = freeze_symbol v

  unfoldable pub freeze_option : RubyValue → Parsed FreezeMode
  unfolding freeze_symbol
  freeze_option v = freeze_by (value_to_bool R v) v

  -- The hash is read in this order; the first option that is wrong makes the error.
  unfoldable pub parse_hash : Symbols → RubyValue → Parsed ValidationOptions
  unfolding mode_option extra_option freeze_option
  parse_hash S opts = do
    strict ←
        unless_nil R.qnil (bool_option "opts[:strict] must be true or false")
          (hash_lookup R opts S.strict)
    mode ← unless_nil R.qnil mode_option (hash_lookup R opts S.input_mode)
    extra ← unless_nil R.qnil extra_option (hash_lookup R opts S.extra)
    freeze ← unless_nil R.qnil freeze_option (hash_lookup R opts S.freeze)
    store ←
        unless_nil R.qnil (bool_option "opts[:store_attributes] must be true or false")
          (hash_lookup R opts S.store_attributes)
    parsed (record {
      strict = or_default default_options.strict strict;
      input_mode = or_default default_options.input_mode mode;
      extra_behavior = or_default default_options.extra_behavior extra;
      freeze = or_default default_options.freeze freeze;
      store_attributes = or_default default_options.store_attributes store;
    })

  unfoldable pub parse_options : Symbols → RubyValue → Parsed ValidationOptions
  unfolding parse_hash truthy
  parse_options S opts =
      if opts == R.qnil
      then parsed default_options
      else if not (truthy R (R.rb_obj_is_kind_of opts RubyClass.c_hash))
      then bad "opts must be a Hash"
      else parse_hash S opts
