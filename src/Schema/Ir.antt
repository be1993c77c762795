-- ===== src/Schema/Ir.antt =====
-- The intermediate representation of a schema (ext/rustly_core/src/schema/ir.rs).
use rustly_core.Base.{
  ℕ, ◌%◌, ◌^◌, String, string_discrete, Option, none, some, List, [], ◌∷◌, ◌++◌, ℕ_discrete,
}
use rustly_core.Base.Lists.{length, get_elem?}
use rustly_core.Base.Int.{ℤ}
use rustly_core.Base.Float.{F64}

-- A `u32`.
pub record NodeId : Type 0 where
  pub index : ℕ

-- `index as u32`; the assertion in it is for debug builds alone.
unfoldable pub node_id : ℕ → NodeId
node_id index = record { index = index % 2 ^ 32 }

pub record IntConstraints : Type 0 where
  pub min : Option ℤ
  pub max : Option ℤ

pub record FloatConstraints : Type 0 where
  pub min : Option F64
  pub max : Option F64

pub data StringFormat : Type 0 where
  email uuid url : StringFormat

pub record StringConstraints : Type 0 where
  pub min_size : Option ℕ
  pub max_size : Option ℕ
  pub format : Option StringFormat

pub record CollectionConstraints : Type 0 where
  pub min_size : Option ℕ
  pub max_size : Option ℕ

pub data PrimitiveType : Type 0 where
  any bool symbol : PrimitiveType
  int : IntConstraints → PrimitiveType
  float : FloatConstraints → PrimitiveType
  string : StringConstraints → PrimitiveType

pub data ExtraBehavior : Type 0 where
  forbid ignore allow : ExtraBehavior

pub data StructFieldPresence : Type 0 where
  required optional : StructFieldPresence

pub record StructField : Type 0 where
  pub name : String
  pub presence : StructFieldPresence
  pub node : NodeId

pub data Node : Type 0 where
  primitive : PrimitiveType → Node
  enum : List String → Node
  optional : NodeId → Node
  list : NodeId → CollectionConstraints → Node
  dict : NodeId → CollectionConstraints → Node
  struct : List StructField → ExtraBehavior → Node

-- The derived `Eq` of a node.
unfoldable pub Node-discrete : Discrete Node
Node-discrete = hlevel (ℕ_discrete, string_discrete)

pub record SchemaArena : Type 0 where
  pub nodes : List Node

abbrev pub empty_arena : SchemaArena
empty_arena = record { nodes = [] }

abbrev pub len : SchemaArena → ℕ
len a = length a.nodes

-- `alloc` pushes the node and returns its number, which is cut to 32 bits.
unfoldable pub alloc : SchemaArena → Node → NodeId × SchemaArena
alloc a n = (node_id (len a), record { nodes = a.nodes ++ n ∷ [] })

-- `none` stands for the panic of an index out of bounds.
abbrev pub get : SchemaArena → NodeId → Option Node
get a i = get_elem? a.nodes i.index

pub record SchemaIr : Type 0 where
  pub arena : SchemaArena
  pub root : NodeId

-- `SchemaIr::empty`
unfoldable pub empty_ir : SchemaIr
unfolding alloc
empty_ir =
    let (root, arena) = alloc empty_arena (Node.primitive PrimitiveType.any) in
    record { arena = arena; root = root }

-- `HashMap<Node, NodeId>`
pub record InternTable : Type 0 where
  pub entries : List (Node × NodeId)

abbrev pub empty_table : InternTable
empty_table = record { entries = [] }

-- `HashMap::get`
unfoldable pub find : Node → List (Node × NodeId) → Option NodeId
find n [] = none
find n ((m, i) ∷ es) = elim (Node-discrete m n) [ yes p ↦ some i | no p ↦ find n es ]

-- What the compiler threads through: the arena and the intern table.
pub record Store : Type 0 where
  pub arena : SchemaArena
  pub table : InternTable

abbrev pub empty_store : Store
empty_store = record { arena = empty_arena; table = empty_table }

abbrev pub fresh : Store → Node → NodeId × Store
fresh s n =
    let (i, a) = alloc s.arena n in
    (i, record { arena = a; table = record { entries = (n, i) ∷ s.table.entries } })

abbrev pub known : Option NodeId → Store → Node → NodeId × Store
known (some i) s n = (i, s)
known none s n = fresh s n

-- A node that was interned before is returned by its number; any other is allocated.
unfoldable pub intern : Store → Node → NodeId × Store
intern s n = known (find n s.table.entries) s n
