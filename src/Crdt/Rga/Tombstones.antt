-- ===== src/Crdt/Rga/Tombstones.antt =====
-- The tombstones of a list of nodes, in packages/crdt/src/rga.ts.
use ysync.Common.{
  ◌≡◌, refl, ap, ap₂, inl, inr, Bool, true, false, ◌||◌, List, [], ◌∷◌, map, Option, none, some,
  cons_injective, if◌then◌else◌, Bool-cases, arith,
}
use ysync.Crdt.OpId.{OpId, same_op_id}
use ysync.Crdt.OpId.Order.{same_op_id_iff}
use ysync.Crdt.Node.{Node}
use ysync.Crdt.Rga.{skip_newer, link_after, link_node, update_node, bury}
use ysync.Crdt.Rga.Canonical.{has_id}
use ysync.Crdt.Rga.Shapes.{shape, core, Distinct, has_id_same}

-- The node with the id is a tombstone.
unfoldable pub is_buried : OpId → List Node → Bool
is_buried id [] = false
is_buried id (n ∷ l) = if same_op_id n.id id then n.tombstone else is_buried id l

pub is_buried_absent : (x : OpId) (l : List Node) → has_id x l ≡ false → is_buried x l ≡ false
unfolding has_id is_buried
is_buried_absent x [] h = refl
is_buried_absent x (n ∷ l) h = ground (arith, is_buried_absent x l)

is_buried-skip_newer :
    (x : OpId) (n : Node) (l : List Node)
    → has_id n.id l ≡ false
    → n.tombstone ≡ false
    → is_buried x (skip_newer n l) ≡ is_buried x l
unfolding skip_newer has_id is_buried
is_buried-skip_newer x n [] f t = ground arith
is_buried-skip_newer x n (r ∷ l) f t = ground (
  arith,
  is_buried-skip_newer x n l,
  same_op_id_iff n.id x,
  same_op_id_iff r.id n.id,
  same_op_id_iff r.id x,
  is_buried_absent n.id l,
)

is_buried-link_after :
    (x o : OpId) (n : Node) (l : List Node)
    → has_id n.id l ≡ false
    → n.tombstone ≡ false
    → is_buried x (link_after o n l) ≡ is_buried x l
unfolding link_after has_id is_buried
is_buried-link_after x o n [] f t = refl
is_buried-link_after x o n (r ∷ l) f t =
    ground (arith, is_buried-link_after x o n l, is_buried-skip_newer x n l)

-- A new node buries nothing and revives nothing.
pub is_buried-link_node :
    (x : OpId) (o : Option OpId) (n : Node) (l : List Node)
    → has_id n.id l ≡ false
    → n.tombstone ≡ false
    → is_buried x (link_node o n l) ≡ is_buried x l
unfolding link_node
is_buried-link_node x none n l f t = is_buried-skip_newer x n l f t
is_buried-link_node x (some o) n l f t = is_buried-link_after x o n l f t

pub is_buried-update_node_same :
    (x id : OpId) (f : Node → Node) (l : List Node)
    → ((n : Node) → (f n).id ≡ n.id)
    → ((n : Node) → (f n).tombstone ≡ n.tombstone)
    → is_buried x (update_node id f l) ≡ is_buried x l
unfolding update_node is_buried
is_buried-update_node_same x id f [] h k = refl
is_buried-update_node_same x id f (n ∷ l) h k =
    ground (arith, h n, k n, is_buried-update_node_same x id f l h k)

-- `bury` at an id that is there makes it a tombstone, and no other.
pub is_buried-bury :
    (x id : OpId) (l : List Node)
    → has_id id l ≡ true
    → is_buried x (update_node id bury l) ≡ (same_op_id id x || is_buried x l)
unfolding update_node is_buried has_id bury
is_buried-bury x id [] h = cc
is_buried-bury x id (n ∷ l) h = ground (
  arith,
  is_buried-bury x id l,
  same_op_id_iff n.id id,
  same_op_id_iff n.id x,
  same_op_id_iff id x,
)

is_buried_tail :
    (n k : Node) (l m : List Node)
    → n.id ≡ k.id
    → has_id n.id l ≡ false
    → has_id k.id m ≡ false
    → ((x : OpId) → is_buried x (n ∷ l) ≡ is_buried x (k ∷ m))
    → (x : OpId) → is_buried x l ≡ is_buried x m
unfolding is_buried
is_buried_tail n k l m e f g h x = elim (Bool-cases (same_op_id n.id x)) [
  | inl hit ↦
      let at = (same_op_id_iff n.id x).0 hit in
      cc (is_buried_absent x l (rw (← at) f), is_buried_absent x m (rw (← at, e) g))
  | inr miss ↦ ground (arith, h x)
]

-- Shapes and tombstones make the core.
pub core_of_shape :
    (l m : List Node)
    → map shape l ≡ map shape m
    → Distinct l
    → ((x : OpId) → is_buried x l ≡ is_buried x m)
    → map core l ≡ map core m
unfolding shape core is_buried
core_of_shape [] [] e d h = refl
core_of_shape [] (k ∷ m) e d h = cc
core_of_shape (n ∷ l) [] e d h = cc
core_of_shape (n ∷ l) (k ∷ m) e d h =
    let (first, rest) = cons_injective (shape n) (shape k) (map shape l) (map shape m) e in
    let ids : n.id ≡ k.id = ap (λ (x : Node). x.id) first in
    let absent : has_id k.id m ≡ false = rw (← ids, ← has_id_same n.id l m rest) d.0 in
    let heads : core n ≡ core k =
      ground (arith, h n.id, same_op_id_iff n.id n.id, same_op_id_iff k.id n.id, first) in
    ap₂ ◌∷◌ heads (core_of_shape l m rest d.1 (is_buried_tail n k l m ids d.0 absent h))

pub has_id_of_buried : (x : OpId) (l : List Node) → is_buried x l ≡ true → has_id x l ≡ true
unfolding has_id is_buried
has_id_of_buried x [] h = cc
has_id_of_buried x (n ∷ l) h = ground (arith, has_id_of_buried x l)
