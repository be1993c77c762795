-- ===== src/Validation/Spec/Refines.antt =====
-- The validator does what the specification says: with the number of a node for fuel and one more,
-- it ends, returns and reports what `check` says of the type expression that the node stands for,
-- and leaves the path as it was.
use rustly_core.Base.{ℕ, zero, suc, ◌<◌, ◌≡◌, refl, Option, some, List, [], ◌∷◌, arith}
use rustly_core.Host.{Host}
use rustly_core.Schema.Ir.{NodeId, Node, StructField, SchemaIr, SchemaArena, get}
use rustly_core.Schema.Expr.{TypeExpr, FieldExprs}
use rustly_core.Schema.Build.Denotes.{Denotes, DenotesFields}
use rustly_core.Schema.Build.Invariant.{AllBelow, Ordered}
use rustly_core.Validation.Options.{ValidationOptions}
use rustly_core.Validation.Value.{OwnedValue, OwnedDict}
use rustly_core.Validation.State.{get_node}
use rustly_core.Validation.Engine.{dispatch, validate_node, validate_fields, field_names, dict_find}
use rustly_core.Validation.Spec.{Segments, Issues, check, check_fields, expr_names}
use rustly_core.Validation.Spec.Emits.{
  Emits, Emits-pure, Emits-bind, Emits-bind_quiet, Emits-bind_last,
}
use rustly_core.Validation.Spec.Leaf.{Emits-primitive, Emits-enum}
use rustly_core.Validation.Spec.Walk.{
  Follows, Follows-optional, Follows-list, Follows-dict, Emits-field, Follows-struct,
}

pub field_names-eq :
    (fields : FieldExprs) (a : SchemaArena) (fs : List StructField)
    → DenotesFields fields a fs
    → field_names fs ≡ expr_names fields
field_names-eq FieldExprs.nil a [] d = refl
field_names-eq FieldExprs.nil a (f ∷ fs) d = absurd d
field_names-eq (FieldExprs.field name pr t rest) a [] d = absurd d
field_names-eq (FieldExprs.field name pr t rest) a (f ∷ fs) (p, q, d, r) =
    cc (p, field_names-eq rest a fs r)

-- The fuel that is left below a node.
abbrev less : ℕ → ℕ
less zero = zero
less (suc n) = n

lt-less : (i j fuel : ℕ) → j < i → i < fuel → j < less fuel
lt-less i j zero h k = absurd (omega arith)
lt-less i j (suc fuel) h k = omega arith

AllBelow-less :
    (fs : List StructField) (i fuel : ℕ) → i < fuel → AllBelow fs i → AllBelow fs (less fuel)
AllBelow-less [] i fuel h b = tt
AllBelow-less (f ∷ fs) i fuel h (b, bs) = (lt-less i _ fuel b h, AllBelow-less fs i fuel h bs)

module _ (H : Host) (s : SchemaIr) (o : ValidationOptions) where
  Emits-get_node :
      (i : NodeId) (n : Node) (p : Segments)
      → get s.arena i ≡ some n
      → Emits s o p (get_node i) n []
  unfolding get_node
  Emits-get_node i n p h = record { run = λ is. rw h ((Emits-pure s o p n).run is) }

  step :
      (fuel : ℕ) (i : NodeId) (n : Node) (p : Segments) (v : OwnedValue) {r : Option OwnedValue}
      {new : Issues}
      → i.index < fuel
      → get s.arena i ≡ some n
      → Emits s o p (dispatch H (validate_node H (less fuel)) n v) r new
      → Emits s o p (validate_node H fuel i v) r new
  unfolding validate_node
  step zero i n p v lt g h = absurd (omega arith)
  step (suc fuel) i n p v lt g h = Emits-bind_quiet s o p _ _ (Emits-get_node i n p g) h

  module _ (ordered : Ordered s.arena) where
    mutual
      unfolding dispatch check

      pub refines :
          (t : TypeExpr) (fuel : ℕ) (i : NodeId)
          → Denotes t s.arena i
          → i.index < fuel
          → Follows s o (validate_node H fuel i) (λ p v. check H o t p v)
      refines (TypeExpr.primitive t) fuel i d lt p v =
          step fuel i _ p v lt d (Emits-primitive s o p H t v)
      refines (TypeExpr.enum vs) fuel i d lt p v = step fuel i _ p v lt d (Emits-enum s o p vs v)
      refines (TypeExpr.optional t) fuel i (j, g, d) lt p v =
          let h = refines t (less fuel) j d (lt-less _ _ fuel (ordered i _ g) lt) in
          step fuel i _ p v lt g (Follows-optional s o (validate_node H (less fuel)) j _ h p v)
      refines (TypeExpr.list t c) fuel i (j, g, d) lt p v =
          let h = refines t (less fuel) j d (lt-less _ _ fuel (ordered i _ g) lt) in
          step fuel i _ p v lt g (Follows-list s o (validate_node H (less fuel)) j _ h c p v)
      refines (TypeExpr.dict t c) fuel i (j, g, d) lt p v =
          let h = refines t (less fuel) j d (lt-less _ _ fuel (ordered i _ g) lt) in
          step fuel i _ p v lt g (Follows-dict s o (validate_node H (less fuel)) j _ h c p v)
      refines (TypeExpr.struct fields extra) fuel i (fs, g, d) lt p v =
          let h =
            refines_fields fields (less fuel) fs d (AllBelow-less fs _ fuel lt (ordered i _ g)) in
          step fuel i _ p v lt g
            (rw (← field_names-eq fields s.arena fs d) (Follows-struct s o _ fs extra _ h p v))

      refines_fields :
          (fields : FieldExprs) (fuel : ℕ) (fs : List StructField)
          → DenotesFields fields s.arena fs
          → AllBelow fs fuel
          → (p : Segments) (m : OwnedDict)
          → Emits s o p
              (validate_fields (validate_node H fuel) fs m)
              (check_fields H o fields p m).0
              (check_fields H o fields p m).1
      refines_fields FieldExprs.nil fuel [] d b p m = Emits-pure s o p _
      refines_fields FieldExprs.nil fuel (f ∷ fs) d b p m = absurd d
      refines_fields (FieldExprs.field name pr t rest) fuel [] d b p m = absurd d
      refines_fields (FieldExprs.field name pr t rest) fuel (f ∷ fs) (e, q, d, r) (lt, b) p m =
          rw (← e, ← q)
            (Emits-bind s o p _ _
              (Emits-field s o (validate_node H fuel) f _ (refines t fuel f.node d lt) p
                (dict_find m f.name))
              (Emits-bind_last s o p _ _ (refines_fields rest fuel fs r b p m)
                (Emits-pure s o p _)))
