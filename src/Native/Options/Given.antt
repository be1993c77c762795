-- ===== src/Native/Options/Given.antt =====
-- Options that are given are taken, and the others have their defaults.
use rustly_core.Base.{
  String, ◌≡◌, refl, ap, ◌∙◌, Bool, true, false, Option, none, some, ◌==◌, ◌⊎◌, inl, inr,
}
use rustly_core.Ruby.{
  RubyValue, RubyClass, CText, Reads, gives, truthy, hash_lookup, string_to_owned, value_to_bool,
  symbol_to_owned,
}
use rustly_core.Schema.Ir.{ExtraBehavior}
use rustly_core.Validation.Options.{InputMode, FreezeMode, ValidationOptions, default_options}
use rustly_core.Native.Options.{
  Parsed, parsed, Symbols, unless_nil, or_default, bool_option, mode_option, extra_option,
  freeze_option, parse_hash, parse_options,
}

abbrev pub mode_name : InputMode → String
mode_name InputMode.auto = "auto"
mode_name InputMode.json = "json"
mode_name InputMode.ruby = "ruby"

abbrev pub extra_name : ExtraBehavior → String
extra_name ExtraBehavior.forbid = "forbid"
extra_name ExtraBehavior.ignore = "ignore"
extra_name ExtraBehavior.allow = "allow"

abbrev pub freeze_name : FreezeMode → String
freeze_name FreezeMode.deep = "deep"
freeze_name FreezeMode.shallow = "shallow"
freeze_name FreezeMode.none = "none"

-- `freeze:` takes a flag or the name of a mode.
pub data FreezeWord : Type 0 where
  flag : Bool → FreezeWord
  mode : FreezeMode → FreezeWord

-- `true` means `deep`, and `false` means `none`.
abbrev pub word_mode : FreezeWord → FreezeMode
word_mode (FreezeWord.flag true) = FreezeMode.deep
word_mode (FreezeWord.flag false) = FreezeMode.none
word_mode (FreezeWord.mode m) = m

-- The options that a hash gives; `none`: the key is missing, or its value is `nil`.
pub record GivenOptions : Type 0 where
  pub strict : Option Bool
  pub input_mode : Option InputMode
  pub extra : Option ExtraBehavior
  pub freeze : Option FreezeWord
  pub store_attributes : Option Bool

abbrev pub given_flag : Option Bool → Bool
given_flag (some b) = b
given_flag none = false

abbrev pub given_mode : Option InputMode → InputMode
given_mode (some m) = m
given_mode none = InputMode.auto

abbrev pub given_extra : Option ExtraBehavior → ExtraBehavior
given_extra (some x) = x
given_extra none = ExtraBehavior.forbid

abbrev pub given_freeze : Option FreezeWord → FreezeMode
given_freeze (some w) = word_mode w
given_freeze none = FreezeMode.none

-- What is given, and `false`, `auto`, `forbid` and `none` for the rest.
abbrev pub with_defaults : GivenOptions → ValidationOptions
with_defaults g = record {
  strict = given_flag g.strict;
  input_mode = given_mode g.input_mode;
  extra_behavior = given_extra g.extra;
  freeze = given_freeze g.freeze;
  store_attributes = given_flag g.store_attributes;
}

-- The record that the code makes of what it has parsed.
abbrev taken :
    Option Bool
    → Option InputMode
    → Option ExtraBehavior
    → Option FreezeMode
    → Option Bool
    → ValidationOptions
taken strict input_mode extra freeze store = record {
  strict = or_default default_options.strict strict;
  input_mode = or_default default_options.input_mode input_mode;
  extra_behavior = or_default default_options.extra_behavior extra;
  freeze = or_default default_options.freeze freeze;
  store_attributes = or_default default_options.store_attributes store;
}

abbrev option_map : {A B : Type 0} → (A → B) → Option A → Option B
option_map f none = none
option_map f (some a) = some (f a)

option_map_id : {A : Type 0} (o : Option A) → option_map (λ (a : A). a) o ≡ o
option_map_id none = refl
option_map_id (some a) = refl

or-given_flag : (o : Option Bool) → or_default false o ≡ given_flag o
or-given_flag none = refl
or-given_flag (some b) = refl

or-given_mode : (o : Option InputMode) → or_default InputMode.auto o ≡ given_mode o
or-given_mode none = refl
or-given_mode (some m) = refl

or-given_extra : (o : Option ExtraBehavior) → or_default ExtraBehavior.forbid o ≡ given_extra o
or-given_extra none = refl
or-given_extra (some x) = refl

or-given_freeze :
    (o : Option FreezeWord) → or_default FreezeMode.none (option_map word_mode o) ≡ given_freeze o
or-given_freeze none = refl
or-given_freeze (some w) = refl

taken-with_defaults :
    (g : GivenOptions)
    → taken g.strict g.input_mode g.extra (option_map word_mode g.freeze) g.store_attributes
      ≡ with_defaults g
taken-with_defaults g =
    rw
      (
        or-given_flag g.strict,
        or-given_mode g.input_mode,
        or-given_extra g.extra,
        or-given_freeze g.freeze,
        or-given_flag g.store_attributes,
      )
      refl

module _ (R : Reads) where
  -- An object counts as true.
  abbrev pub IsTrue : RubyValue → Type 0
  IsTrue v = ((v == R.qfalse) ≡ false) × ((v == R.qnil) ≡ false)

  abbrev pub IsFlag : RubyValue → Bool → Type 0
  IsFlag v true = (v == R.qtrue) ≡ true
  IsFlag v false = ((v == R.qtrue) ≡ false) × ((v == R.qfalse) ≡ true)

  -- A symbol: the string of its name has this text.
  abbrev pub IsNamed : RubyValue → String → Type 0
  IsNamed v s =
      IsTrue (R.rb_obj_is_kind_of v RubyClass.c_symbol)
      × IsTrue (R.rb_obj_is_kind_of (R.rb_sym2str v) RubyClass.c_string)
      × (R.rb_string_value_cstr (R.rb_sym2str v) ≡ CText.text s)

  abbrev pub IsSymbol : {A : Type 0} → (A → String) → RubyValue → A → Type 0
  IsSymbol name v a = IsNamed v (name a)

  abbrev pub IsFreeze : RubyValue → FreezeWord → Type 0
  IsFreeze v (FreezeWord.flag b) = IsFlag v b
  IsFreeze v (FreezeWord.mode m) =
      ((v == R.qtrue) ≡ false) × ((v == R.qfalse) ≡ false) × IsSymbol freeze_name v m

  -- A hash has no value under a key, or `nil`, or one that shows what is given.
  abbrev pub Entry :
      {A : Type 0} → (RubyValue → A → Type 0) → RubyValue → RubyValue → Option A → Type 0
  Entry P hash key none =
      ((R.rb_hash_lookup2 hash key R.qundef == R.qundef) ≡ true)
      ⊎ ((R.rb_hash_lookup2 hash key R.qundef == R.qundef) ≡ false)
        × ((R.rb_hash_lookup2 hash key R.qundef == R.qnil) ≡ true)
  Entry P hash key (some a) =
      ((R.rb_hash_lookup2 hash key R.qundef == R.qundef) ≡ false)
      × ((R.rb_hash_lookup2 hash key R.qundef == R.qnil) ≡ false)
      × P (R.rb_hash_lookup2 hash key R.qundef) a

  -- The object is a hash, and its entries show the options.
  pub record Gives (S : Symbols) (opts : RubyValue) (g : GivenOptions) : Type 0 where
    pub not_nil : (opts == R.qnil) ≡ false
    pub is_hash : IsTrue (R.rb_obj_is_kind_of opts RubyClass.c_hash)
    pub strict : Entry IsFlag opts S.strict g.strict
    pub input_mode : Entry (IsSymbol mode_name) opts S.input_mode g.input_mode
    pub extra : Entry (IsSymbol extra_name) opts S.extra g.extra
    pub freeze : Entry IsFreeze opts S.freeze g.freeze
    pub store_attributes : Entry IsFlag opts S.store_attributes g.store_attributes

  truthy_lem : (v : RubyValue) → IsTrue v → truthy R v ≡ true
  unfolding truthy
  truthy_lem v (e, f) = rw (e, f)

  value_to_bool_lem : (v : RubyValue) (b : Bool) → IsFlag v b → value_to_bool R v ≡ some b
  unfolding value_to_bool
  value_to_bool_lem v true e = rw e
  value_to_bool_lem v false (e, f) = rw (e, f)

  symbol_lem : (v : RubyValue) (s : String) → IsNamed v s → symbol_to_owned R v ≡ gives (some s)
  unfolding symbol_to_owned string_to_owned truthy
  symbol_lem v s ((a, b), (c, d), text) = rw (a, b, c, d, text)

  -- A value that was found shows what is given.
  abbrev Found : {A : Type 0} → (RubyValue → A → Type 0) → Option RubyValue → Option A → Type 0
  Found P none none = Unit {0}
  Found P none (some a) = ⊥
  Found P (some v) none = (v == R.qnil) ≡ true
  Found P (some v) (some a) = ((v == R.qnil) ≡ false) × P v a

  hash_lookup-Found :
      {A : Type 0} (P : RubyValue → A → Type 0) (hash key : RubyValue) (o : Option A)
      → IsTrue (R.rb_obj_is_kind_of hash RubyClass.c_hash)
      → Entry P hash key o
      → Found P (hash_lookup R hash key) o
  unfolding hash_lookup
  hash_lookup-Found P hash key none h (inl e) = rw (truthy_lem _ h, e) tt
  hash_lookup-Found P hash key none h (inr (e, f)) = rw (truthy_lem _ h, e) f
  hash_lookup-Found P hash key (some a) h (e, f, p) = rw (truthy_lem _ h, e) (f, p)

  unless_nil_lem :
      {A B : Type 0} (P : RubyValue → A → Type 0) (f : RubyValue → Parsed B) (to : A → B)
      → ((v : RubyValue) (a : A) → P v a → f v ≡ parsed (to a))
      → (o : Option RubyValue) (g : Option A) → Found P o g
      → unless_nil R.qnil f o ≡ parsed (option_map to g)
  unless_nil_lem P f to h none none p = refl
  unless_nil_lem P f to h none (some a) p = absurd p
  unless_nil_lem P f to h (some v) none p = rw p
  unless_nil_lem P f to h (some v) (some a) (e, p) = rw (e, h v a p)

  unless_nil_same :
      {A : Type 0} (P : RubyValue → A → Type 0) (f : RubyValue → Parsed A)
      → ((v : RubyValue) (a : A) → P v a → f v ≡ parsed a)
      → (o : Option RubyValue) (g : Option A) → Found P o g
      → unless_nil R.qnil f o ≡ parsed g
  unless_nil_same P f h o g p = unless_nil_lem P f (λ a. a) h o g p ∙ ap parsed (option_map_id g)

  flag_lem :
      (message : String) (v : RubyValue) (b : Bool)
      → IsFlag v b
      → bool_option R message v ≡ parsed b
  flag_lem message v b e = rw (value_to_bool_lem v b e)

  mode_lem : (v : RubyValue) (m : InputMode) → IsSymbol mode_name v m → mode_option R v ≡ parsed m
  unfolding mode_option
  mode_lem v InputMode.auto e = rw (symbol_lem v _ e)
  mode_lem v InputMode.json e = rw (symbol_lem v _ e)
  mode_lem v InputMode.ruby e = rw (symbol_lem v _ e)

  extra_lem :
      (v : RubyValue) (x : ExtraBehavior) → IsSymbol extra_name v x → extra_option R v ≡ parsed x
  unfolding extra_option
  extra_lem v ExtraBehavior.forbid e = rw (symbol_lem v _ e)
  extra_lem v ExtraBehavior.ignore e = rw (symbol_lem v _ e)
  extra_lem v ExtraBehavior.allow e = rw (symbol_lem v _ e)

  not_flag :
      (v : RubyValue) → (v == R.qtrue) ≡ false → (v == R.qfalse) ≡ false → value_to_bool R v ≡ none
  unfolding value_to_bool
  not_flag v e f = rw (e, f)

  freeze_lem :
      (v : RubyValue) (w : FreezeWord) → IsFreeze v w → freeze_option R v ≡ parsed (word_mode w)
  unfolding freeze_option
  freeze_lem v (FreezeWord.flag true) e = rw (value_to_bool_lem v true e)
  freeze_lem v (FreezeWord.flag false) e = rw (value_to_bool_lem v false e)
  freeze_lem v (FreezeWord.mode FreezeMode.deep) (e, f, n) = rw (not_flag v e f, symbol_lem v _ n)
  freeze_lem v (FreezeWord.mode FreezeMode.shallow) (e, f, n) =
      rw (not_flag v e f, symbol_lem v _ n)
  freeze_lem v (FreezeWord.mode FreezeMode.none) (e, f, n) = rw (not_flag v e f, symbol_lem v _ n)

  parse_hash-given :
      (S : Symbols) (opts : RubyValue) (g : GivenOptions)
      → Gives S opts g
      → parse_hash R S opts ≡ parsed (with_defaults g)
  unfolding parse_hash
  parse_hash-given S opts g h =
      let flag = hash_lookup-Found IsFlag opts in
      let by_mode =
        hash_lookup-Found (IsSymbol mode_name) opts S.input_mode g.input_mode h.is_hash in
      let extra = hash_lookup-Found (IsSymbol extra_name) opts S.extra g.extra h.is_hash in
      let freeze = hash_lookup-Found IsFreeze opts S.freeze g.freeze h.is_hash in
      rw
        (
          unless_nil_same IsFlag _ (flag_lem "opts[:strict] must be true or false") _ _
              (flag S.strict g.strict h.is_hash h.strict),
          unless_nil_same (IsSymbol mode_name) _ mode_lem _ _ (by_mode h.input_mode),
          unless_nil_same (IsSymbol extra_name) _ extra_lem _ _ (extra h.extra),
          unless_nil_lem IsFreeze _ word_mode freeze_lem _ _ (freeze h.freeze),
          unless_nil_same IsFlag _ (flag_lem "opts[:store_attributes] must be true or false") _ _
              (flag S.store_attributes g.store_attributes h.is_hash h.store_attributes),
        )
        (ap parsed (taken-with_defaults g))

  -- If the reads of a hash show that some of the options are given, each in a form that is allowed, and
  -- that there is nothing or `nil` under the keys of the others, then `parse_options` takes the options as
  -- they are given, where `true` for `freeze` is `deep` and `false` is `none`, and the others are `false`,
  -- `auto`, `forbid`, `none` and `false`.
  pub parse_options-given :
      (S : Symbols) (opts : RubyValue) (g : GivenOptions)
      → Gives S opts g
      → parse_options R S opts ≡ parsed (with_defaults g)
  unfolding parse_options
  parse_options-given S opts g h =
      rw (h.not_nil, truthy_lem _ h.is_hash) (parse_hash-given S opts g h)
