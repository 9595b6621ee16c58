-- ===== src/Crdt/Rga.antt =====
-- packages/crdt/src/rga.ts: the replicated growable array. The nodes are one list in document
-- order; a reference to a node is its id, and `nodesById` is a search of the list by string key.
pub mod Canonical
pub mod Integrate
pub mod Pending
pub mod Delivery
pub mod Shapes
pub mod Tombstones
pub mod Arrival
pub mod Landing
pub mod Sequences
pub mod WellFormed
pub mod Marks
pub mod Replay
pub mod Fuel
pub mod Convergence
use ysync.Common.{
  ℕ, zero, suc, ◌+◌, max, Bool, true, false, List, [], ◌∷◌, ◌++◌, map, Option, none, some, length,
  if◌then◌else◌,
}
use ysync.Common.Texts.{Text, text_eq}
use ysync.Common.Maps
use ysync.Common.Maps.{Map}
use ysync.Crdt.OpId.{OpId, op_id_to_string, same_op_id, newer, at_least}
use ysync.Crdt.Node.{Node, FormatMark, or_empty, has_mark, unless_empty}
use ysync.Crdt.Op.{Op, InsertOp, DeleteOp, FormatOp, insert, delete, format}

pub record Rga : Type 0 where
  pub replica_id : Text
  pub nodes : List Node
  pub pending : Map (List Op)
  pub counter : ℕ

-- The constructor.
unfoldable pub new_rga : Text → Rga
new_rga replica_id = record { replica_id = replica_id; nodes = []; pending = []; counter = 0 }

-- `nodesById.get(key)`
unfoldable pub find_node : Text → List Node → Option Node
unfolding text_eq op_id_to_string
find_node key [] = none
find_node key (n ∷ rest) = if text_eq (op_id_to_string n.id) key then some n else find_node key rest

-- A write through a reference to the node with this id.
unfoldable pub update_node : OpId → (Node → Node) → List Node → List Node
unfolding same_op_id
update_node id f [] = []
update_node id f (n ∷ rest) = if same_op_id n.id id then f n ∷ rest else n ∷ update_node id f rest

-- The `while` of `integrate`, from `right` on, and the link before the node where it stops.
unfoldable pub skip_newer : Node → List Node → List Node
unfolding newer
skip_newer n [] = n ∷ []
skip_newer n (right ∷ rest) =
    if newer right.id n.id then right ∷ skip_newer n rest else n ∷ right ∷ rest

-- The scan starts behind the anchor.
unfoldable pub link_after : OpId → Node → List Node → List Node
unfolding same_op_id skip_newer
link_after anchor n [] = []
link_after anchor n (m ∷ rest) =
    if same_op_id m.id anchor then m ∷ skip_newer n rest else m ∷ link_after anchor n rest

unfoldable pub link_node : Option OpId → Node → List Node → List Node
unfolding link_after skip_newer
link_node none n nodes = skip_newer n nodes
link_node (some anchor) n nodes = link_after anchor n nodes

-- The node that an insert creates.
unfoldable pub node_of : InsertOp → Node
node_of op = record {
  id = op.id;
  origin_id = op.origin_id;
  value = some op.value;
  tombstone = false;
  attrs = op.attrs;
  format_clock = none;
}

unfoldable pub integrate : Option OpId → InsertOp → Rga → Rga
unfolding link_node node_of
integrate anchor op s = record s { nodes = link_node anchor (node_of op) s.nodes }

unfoldable pub buffer_on : Text → Op → Rga → Rga
unfolding Maps.get Maps.put
buffer_on key op s = elim (Maps.get key s.pending) [
  | some existing ↦ record s { pending = Maps.put key (existing ++ op ∷ []) s.pending }
  | none ↦ record s { pending = Maps.put key (op ∷ []) s.pending }
]

unfoldable pub take_buffered : Text → Rga → Rga × List Op
unfolding Maps.get Maps.remove
take_buffered key s = elim (Maps.get key s.pending) [
  | some ops ↦ (record s { pending = Maps.remove key s.pending }, ops)
  | none ↦ (s, [])
]

-- The last writer decides a mark: the format op with the greatest id.
unfoldable pub apply_format_op : FormatOp → Node → Node
unfolding at_least or_empty has_mark unless_empty Maps.get Maps.put Maps.remove
apply_format_op op target =
    let decided = record target {
      format_clock = some (Maps.put op.mark op.id (or_empty target.format_clock));
      attrs =
          if op.value
          then some (Maps.put op.mark tt (or_empty target.attrs))
          else if has_mark op.mark (or_empty target.attrs)
          then unless_empty (Maps.remove op.mark (or_empty target.attrs))
          else target.attrs;
    } in
    elim (Maps.get op.mark (or_empty target.format_clock)) [
      | some decided_by ↦ if at_least decided_by op.id then target else decided
      | none ↦ decided
    ]

unfoldable pub bury : Node → Node
bury n = record n { tombstone = true }

-- One round of the loop of `apply`: the new state, and for an insert that was integrated the ops
-- that it adds to the queue.
unfoldable pub land : InsertOp → Rga → Rga × Option (List Op)
unfolding integrate take_buffered op_id_to_string
land op s =
    let placed = integrate op.origin_id op s in
    let counted = record placed { counter = max placed.counter op.id.counter } in
    let (s', ops) = take_buffered (op_id_to_string op.id) counted in (s', some ops)

-- The insert is buffered while its origin is missing.
unfoldable pub place_insert : Option OpId → InsertOp → Rga → Rga × Option (List Op)
unfolding find_node land buffer_on
place_insert none op s = land op s
place_insert (some origin) op s = elim (find_node (op_id_to_string origin) s.nodes) [
  | none ↦ (buffer_on (op_id_to_string origin) (insert op) s, none)
  | some _ ↦ land op s
]

unfoldable pub deliver_insert : InsertOp → Rga → Rga × Option (List Op)
unfolding find_node place_insert
deliver_insert op s = elim (find_node (op_id_to_string op.id) s.nodes) [
  | some _ ↦ (s, none)
  | none ↦ place_insert op.origin_id op s
]

unfoldable pub deliver : Op → Rga → Rga × Option (List Op)
unfolding deliver_insert find_node update_node apply_format_op bury buffer_on
deliver (insert op) s = deliver_insert op s
deliver (delete op) s = elim (find_node (op_id_to_string op.target_id) s.nodes) [
  | none ↦ (buffer_on (op_id_to_string op.target_id) (delete op) s, none)
  | some target ↦ (record s { nodes = update_node target.id bury s.nodes }, none)
]
deliver (format op) s = elim (find_node (op_id_to_string op.target_id) s.nodes) [
  | none ↦ (buffer_on (op_id_to_string op.target_id) (format op) s, none)
  | some target ↦ (
    record s {
      nodes = update_node target.id (apply_format_op op) s.nodes;
      counter = max s.counter op.id.counter;
    },
    none,
  )
]

-- The loop of `apply`. Fuel counts the inserts that may still be integrated; the second result
-- is what is left in the queue.
unfoldable pub drain : ℕ → List Op → Rga → Rga × List Op
unfolding deliver
drain fuel [] s = (s, [])
drain zero (op ∷ queue) s =
    let (s', outcome) = deliver op s in
    elim outcome [ none ↦ drain zero queue s' | some released ↦ (s', queue ++ released) ]
drain (suc fuel) (op ∷ queue) s =
    let (s', outcome) = deliver op s in
    elim outcome [
      | none ↦ drain (suc fuel) queue s'
      | some released ↦ drain fuel (queue ++ released) s'
    ]

-- The number of buffered ops.
unfoldable pub pending_count : Map (List Op) → ℕ
pending_count [] = 0
pending_count ((_, ops) ∷ m) = length ops + pending_count m

-- `apply`: the op and all that waits bound the inserts that one call can integrate.
unfoldable pub apply : Op → Rga → Rga
unfolding drain pending_count
apply op s = (drain (suc (pending_count s.pending)) (op ∷ []) s).0

unfoldable pub apply_all : List Op → Rga → Rga
unfolding apply
apply_all [] s = s
apply_all (op ∷ ops) s = apply_all ops (apply op s)
