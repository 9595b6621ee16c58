-- ===== src/Crdt/Snapshot.antt =====
-- Snapshots and tombstone compaction in packages/crdt/src/rga.ts.
pub mod Roundtrip
pub mod Sharing
use ysync.Common.{ℕ, max, Bool, true, false, List, [], ◌∷◌, map, Option, none, some, if◌then◌else◌}
use ysync.Common.Texts.{Text}
use ysync.Crdt.OpId.{OpId}
use ysync.Crdt.Node.{Node, FormatMark, FormatClock, or_empty}
use ysync.Crdt.Rga.{Rga}

pub record RgaSnapshotNode : Type 0 where
  pub id : OpId
  pub origin_id : Option OpId
  pub value : Option Text
  pub tombstone : Bool
  pub attrs : Option FormatMark
  pub format_clock : Option FormatClock

unfoldable pub to_snapshot_node : Node → RgaSnapshotNode
to_snapshot_node n = record {
  id = n.id;
  origin_id = n.origin_id;
  value = n.value;
  tombstone = n.tombstone;
  attrs = n.attrs;
  format_clock = n.format_clock;
}

unfoldable pub to_snapshot : Rga → List RgaSnapshotNode
unfolding to_snapshot_node
to_snapshot s = map to_snapshot_node s.nodes

unfoldable pub from_snapshot_node : RgaSnapshotNode → Node
from_snapshot_node n = record {
  id = n.id;
  origin_id = n.origin_id;
  value = n.value;
  tombstone = n.tombstone;
  attrs = n.attrs;
  format_clock = n.format_clock;
}

-- The greatest counter of the ids that decided a mark.
unfoldable pub max_clock : ℕ → FormatClock → ℕ
max_clock m [] = m
max_clock m ((_, clock_id) ∷ clock) = max_clock (max m clock_id.counter) clock

-- `maxCounter` after the loop of `fromSnapshot` over the nodes left.
unfoldable pub max_counter : ℕ → List RgaSnapshotNode → ℕ
unfolding max_clock or_empty
max_counter m [] = m
max_counter m (n ∷ rest) =
    max_counter (max_clock (max m n.id.counter) (or_empty n.format_clock)) rest

unfoldable pub from_snapshot : List RgaSnapshotNode → Text → Rga
unfolding from_snapshot_node max_counter
from_snapshot snapshot replica_id = record {
  replica_id = replica_id;
  nodes = map from_snapshot_node snapshot;
  pending = [];
  counter = max_counter 0 snapshot;
}

unfoldable pub compact_node : Node → Node
compact_node n =
    if n.tombstone then record n { value = none; attrs = none; format_clock = none } else n

unfoldable pub compact_tombstones : Rga → Rga
unfolding compact_node
compact_tombstones s = record s { nodes = map compact_node s.nodes }
