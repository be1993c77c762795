-- ===== src/Heap/Messages/Shown.antt =====
-- What Ruby sees of the messages of an error set (`error_set_messages` of
-- ext/rustly_core/src/lib.rs).
use rustly_core.Base.{◌≡◌, Option}
use rustly_core.Host.{Host}
use rustly_core.Ruby.{RubyValue}
use rustly_core.Input.Shape.{RubyData, Shows}
use rustly_core.Materialize.{RubyHeap, Built, built}
use rustly_core.Native.Errors.{ErrorSet}
use rustly_core.Native.Messages.{error_set_messages}
use rustly_core.Native.TypedData.{TypedData}
use rustly_core.Heap.{Cell, Kept, HeapLaws}
use rustly_core.Heap.Trees.{Tree, Holds}
use rustly_core.Heap.Frame.{Grows-same}
use rustly_core.Heap.Makes.{Made}
use rustly_core.Heap.Shown.{shown, Holds→Shows}
use rustly_core.Heap.Messages.{message_trees, AreSound}
use rustly_core.Heap.Messages.Objects.{error_set_messages-Makes}

-- A run ends with an object whose reads show some data, and leaves every object what it was.
pub record EndsShowing (Y : RubyHeap) (cells : Y.Store → RubyValue → Option Cell) (st : Y.Store)
    (run : Built Y.Store RubyValue) (d : RubyData) : Type 0 where
  pub object : RubyValue
  pub after : Y.Store
  pub ends : run ≡ built object after
  pub kept : Kept cells st after
  pub shows : Shows (Y.reads after) object d

made_lem :
    (Y : RubyHeap) (cells : Y.Store → RubyValue → Option Cell)
    → HeapLaws Y cells
    → (st : Y.Store) (run : Built Y.Store RubyValue) (t : Tree) → Made cells st t st run
    → EndsShowing Y cells st run (shown t)
made_lem Y cells K st run t m = record {
  object = m.object;
  after = m.after;
  ends = m.ends;
  kept = m.kept;
  shows = Holds→Shows Y cells K st m.after m.object t m.holds;
}

pub error_set_messages-EndsShowing :
    (Y : RubyHeap) (H : Host) (cells : Y.Store → RubyValue → Option Cell)
    → HeapLaws Y cells
    → (set : ErrorSet) (st : Y.Store) → AreSound set.entries
    → EndsShowing Y cells st
        (error_set_messages Y H set st)
        (shown (Tree.list (message_trees H set.entries)))
error_set_messages-EndsShowing Y H cells K set st p =
    made_lem Y cells K st (error_set_messages Y H set st) _
      (error_set_messages-Makes Y H cells K st set p st (Grows-same cells st))

-- A run ends with the root of a tree of new objects, whose reads show some data, and leaves every
-- object what it was.
pub record EndsHolding (Y : RubyHeap) (cells : Y.Store → RubyValue → Option Cell) (st : Y.Store)
    (run : Built Y.Store RubyValue) (t : Tree) : Type 0 where
  pub object : RubyValue
  pub after : Y.Store
  pub ends : run ≡ built object after
  pub kept : Kept cells st after
  pub holds : Holds cells st after object t
  pub shows : Shows (Y.reads after) object (shown t)
