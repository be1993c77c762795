-- ===== src/Tests/Heap.antt =====
-- A heap that keeps its objects.
pub mod Cells
pub mod Laws
pub mod Runs
use rustly_core.Base.{
  ℕ, suc, ◌+◌, ◌-◌, ◌*◌, ◌/◌, String, Bool, true, false, Option, none, some, List, [], ◌∷◌, ◌++◌,
  ◌==◌, if◌then◌else◌,
}
use rustly_core.Base.Lists.{length}
use rustly_core.Base.Int.{ℤ, pos}
use rustly_core.Base.Float.{F64}
use rustly_core.Ruby.{RubyValue, RubyType, CText, Reads}
use rustly_core.Input.Shape.{has_type}
use rustly_core.Materialize.{RubyHeap}
use rustly_core.Heap.{Cell, fits}

-- The objects by their number; the later ones come first, and an object that changes is put again.
abbrev pub Objects : Type 0
Objects = List (ℕ × Cell)

-- The object of a number.
abbrev pub address : ℕ → RubyValue
address i = 2 * i + 8

abbrev pub find : Objects → RubyValue → Option Cell
find [] w = none
find ((i, c) ∷ os) w = if address i == w then some c else find os w

-- What no special constant is.
abbrev pub plain : Option Cell → Option Cell
plain (some Cell.nil) = none
plain (some (Cell.boolean b)) = none
plain o = o

abbrev pub special_or : Bool → Bool → Bool → Option Cell → Option Cell
special_or true b c o = some Cell.nil
special_or false true c o = some (Cell.boolean true)
special_or false false true o = some (Cell.boolean false)
special_or false false false o = plain o

abbrev pub cells : Objects → RubyValue → Option Cell
cells st w = special_or (w == 1) (w == 3) (w == 5) (find st w)

-- A number above all that are taken.
abbrev pub bound : Objects → ℕ
bound [] = 0
bound ((i, c) ∷ os) = suc i + bound os

-- The text of a symbol is a string of its own.
abbrev pub or_name : Option Cell → Option Cell → Option Cell
or_name (some c) o = some c
or_name none (some (Cell.symbol s)) = some (Cell.string s)
or_name none _ = none

abbrev pub seen : Objects → RubyValue → Option Cell
seen st w = or_name (cells st w) (cells st (w - 7))

abbrev pub type_of : Option Cell → Option RubyType
type_of (some (Cell.integer i)) = if fits i then some RubyType.t_fixnum else some RubyType.t_bignum
type_of (some (Cell.float f)) = some RubyType.t_float
type_of (some (Cell.string s)) = some RubyType.t_string
type_of (some (Cell.symbol s)) = some RubyType.t_symbol
type_of (some (Cell.array ws)) = some RubyType.t_array
type_of (some (Cell.hash kvs)) = some RubyType.t_hash
type_of _ = none

abbrev pub number : Option Cell → Option ℤ
number (some (Cell.integer i)) = if fits i then some i else none
number _ = none

abbrev pub double : Option Cell → F64
double (some (Cell.float f)) = f
double _ = record { bits = 0 }

abbrev pub text : Option Cell → String
text (some (Cell.string s)) = s
text _ = ""

abbrev pub elements : Option Cell → List RubyValue
elements (some (Cell.array ws)) = ws
elements _ = []

abbrev pub entries : Option Cell → List (RubyValue × RubyValue)
entries (some (Cell.hash kvs)) = kvs
entries _ = []

abbrev pub nth : List RubyValue → ℕ → RubyValue
nth [] i = 1
nth (w ∷ ws) ℕ.zero = w
nth (w ∷ ws) (suc i) = nth ws i

-- The one byte of a string stands for its text.
abbrev pub text_at : Objects → List ℕ → String
text_at st [] = ""
text_at st (w ∷ ws) = text (seen st w)

abbrev pub reads_of : Objects → Reads
reads_of st = record {
  qnil = 1;
  qtrue = 3;
  qfalse = 5;
  qundef = 7;
  rb_type_p = λ v t. has_type (type_of (seen st v)) t;
  rb_obj_is_kind_of = λ v c. 5;
  rb_num2ll = λ v. number (seen st v);
  rb_num2dbl = λ v. double (seen st v);
  rstring = λ v. some (v ∷ []);
  utf8_text = text_at st;
  rb_string_value_cstr = λ v. CText.text (text (seen st v));
  rb_sym2str = λ v. v + 7;
  rarray_len = λ v. length (elements (seen st v));
  rb_ary_entry = λ v i. nth (elements (seen st v)) i;
  rb_hash_entries = λ v. entries (seen st v);
  rb_hash_lookup2 = λ h k d. d;
  rb_obj_class = λ v. 1;
  rb_class2name = λ v. none;
}

abbrev pub add : Cell → Objects → RubyValue × Objects
add c st = (address (bound st), (bound st, c) ∷ st)

-- The object with this address, changed.
abbrev pub change_to : RubyValue → Cell → Objects → Objects
change_to v c st = ((v - 8) / 2, c) ∷ st

abbrev pub push_to : Option Cell → RubyValue → RubyValue → Objects → Objects
push_to (some (Cell.array ws)) a x st = change_to a (Cell.array (ws ++ x ∷ [])) st
push_to _ a x st = st

abbrev pub put_to : Option Cell → RubyValue → RubyValue → RubyValue → Objects → Objects
put_to (some (Cell.hash kvs)) h k x st = change_to h (Cell.hash (kvs ++ (k, x) ∷ [])) st
put_to _ h k x st = st

abbrev pub storing : RubyHeap
storing = record {
  Store = Objects;
  reads = reads_of;
  rb_ll2inum = λ i st. add (Cell.integer i) st;
  rb_ull2inum = λ n st. add (Cell.integer (pos n)) st;
  rb_float_new = λ f st. add (Cell.float f) st;
  rb_utf8_str_new = λ s st. add (Cell.string s) st;
  rb_intern2 = λ s st. (bound st, (bound st, Cell.symbol s) ∷ st);
  rb_id2sym = λ id st. (address id, st);
  rb_ary_new = λ st. add (Cell.array []) st;
  rb_ary_push = λ a x st. push_to (cells st a) a x st;
  rb_hash_new = λ st. add (Cell.hash []) st;
  rb_hash_aset = λ h k x st. put_to (cells st h) h k x st;
  rb_obj_alloc = λ klass st. none;
  rb_ivar_set = λ v id x st. none;
  rb_obj_freeze = λ v st. st;
}
