-- ===== src/Crdt/Editing.antt =====
-- The local user's edits in packages/crdt/src/rga.ts: `localInsert`, `localDelete`, `localFormat`.
pub mod Echo
pub mod Positions
pub mod Sending
use ysync.Common.{
  ℕ, zero, suc, ◌+◌, Bool, true, false, List, [], ◌∷◌, ◌++◌, Option, none, some, if◌then◌else◌,
}
use ysync.Common.Texts.{Text}
use ysync.Crdt.OpId.{OpId}
use ysync.Crdt.Node.{Node, FormatMark, FormatPatch}
use ysync.Crdt.Op.{InsertOp, DeleteOp, FormatOp}
use ysync.Crdt.Rga.{Rga, integrate, update_node, bury, apply_format_op}

-- `while (node !== null && node.tombstone) node = node.next`: a pointer into the list is the rest
-- of the list from there, `[]` for null.
unfoldable pub skip_tombstones : List Node → List Node
skip_tombstones [] = []
skip_tombstones (n ∷ rest) = if n.tombstone then skip_tombstones rest else n ∷ rest

-- The outer loop of `findNodeAtPosition`, for the rounds left.
unfoldable pub advance : ℕ → List Node → List Node
unfolding skip_tombstones
advance zero l = l
advance (suc i) [] = []
advance (suc i) (n ∷ rest) = advance i (skip_tombstones rest)

unfoldable pub head_node : List Node → Option Node
head_node [] = none
head_node (n ∷ rest) = some n

unfoldable pub find_node_at_position : ℕ → List Node → Option Node
unfolding skip_tombstones advance head_node
find_node_at_position position l = head_node (advance position (skip_tombstones l))

-- `findNodeAtPosition(index - 1)`, which is null at index 0.
unfoldable pub find_anchor : ℕ → List Node → Option Node
unfolding find_node_at_position
find_anchor zero l = none
find_anchor (suc position) l = find_node_at_position position l

unfoldable pub next_id : Rga → Rga × OpId
next_id s = (
  record s { counter = s.counter + 1 },
  record { counter = s.counter + 1; replica_id = s.replica_id },
)

-- `anchor ? anchor.id : null`
unfoldable pub id_of : Option Node → Option OpId
id_of none = none
id_of (some n) = some n.id

unfoldable pub local_insert : Rga → ℕ → Text → Option FormatMark → Rga × InsertOp
unfolding find_anchor next_id id_of integrate
local_insert s index value attrs =
    let anchor = id_of (find_anchor index s.nodes) in
    let (s', id) = next_id s in
    let op : InsertOp = record { id = id; origin_id = anchor; value = value; attrs = attrs } in
    (integrate anchor op s', op)

-- `none` where the source throws.
unfoldable pub local_delete : Rga → ℕ → Option (Rga × DeleteOp)
unfolding find_node_at_position update_node bury
local_delete s index = elim (find_node_at_position index s.nodes) [
  | none ↦ none
  | some n ↦ some (record s { nodes = update_node n.id bury s.nodes }, record { target_id = n.id })
]

-- The inner loop of `localFormat`, over the marks of the patch.
unfoldable pub format_marks : OpId → FormatPatch → Rga → Rga × List FormatOp
unfolding next_id update_node apply_format_op
format_marks target [] s = (s, [])
format_marks target ((mark, raw) ∷ patch) s =
    let (s', id) = next_id s in
    let op : FormatOp = record { id = id; target_id = target; mark = mark; value = raw } in
    let (t, ops) =
      format_marks target patch
        (record s' { nodes = update_node target (apply_format_op op) s'.nodes }) in
    (t, op ∷ ops)

-- The outer loop, for the characters left.
unfoldable pub local_format : ℕ → Rga → ℕ → FormatPatch → Rga × List FormatOp
unfolding find_node_at_position format_marks
local_format zero s index patch = (s, [])
local_format (suc length) s index patch = elim (find_node_at_position index s.nodes) [
  | none ↦ (s, [])
  | some target ↦
      let (s', ops) = format_marks target.id patch s in
      let (t, more) = local_format length s' (index + 1) patch in (t, ops ++ more)
]
