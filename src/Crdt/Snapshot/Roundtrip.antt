-- ===== src/Crdt/Snapshot/Roundtrip.antt =====
-- Snapshots of packages/crdt/src/rga.ts, taken and read back, and compaction.
use ysync.Common.{
  ℕ, ◌≡◌, ◌≤◌, max, refl, ap, ◌∙◌, true, false, List, [], ◌∷◌, ◌++◌, map, Option, none, All,
  Bool-cases, Option-cases, sym, inl, inr, arith,
}
use ysync.Common.Texts.{Text}
use ysync.Crdt.Node.{Node, FormatMark, FormatClock, or_empty, attrs_equal}
use ysync.Crdt.Rga.{Rga}
use ysync.Crdt.View.{read, read_nodes, shown, get_contents_for_editor, collect_runs, flush, DeltaOp}
use ysync.Crdt.Snapshot.{
  RgaSnapshotNode, to_snapshot_node, to_snapshot, from_snapshot_node, max_clock, max_counter,
  from_snapshot, compact_node, compact_tombstones,
}

nodes_roundtrip : (l : List Node) → map from_snapshot_node (map to_snapshot_node l) ≡ l
unfolding from_snapshot_node to_snapshot_node
nodes_roundtrip [] = refl
nodes_roundtrip (n ∷ l) = ap (◌∷◌ n) (nodes_roundtrip l)

max_clock-le : (m : ℕ) (clock : FormatClock) → m ≤ max_clock m clock
unfolding max_clock
max_clock-le m [] = omega arith
max_clock-le m ((_, id) ∷ clock) = omega (arith, max_clock-le (max m id.counter) clock)

max_counter-le : (m : ℕ) (l : List RgaSnapshotNode) → m ≤ max_counter m l
unfolding max_counter
max_counter-le m [] = omega arith
max_counter-le m (n ∷ l) = omega (
  arith,
  max_clock-le (max m n.id.counter) (or_empty n.format_clock),
  max_counter-le (max_clock (max m n.id.counter) (or_empty n.format_clock)) l,
)

-- Each decision of a clock is at most the bound.
abbrev pub ClockBelow : ℕ → FormatClock → Type 0
ClockBelow c clock = All (λ e. e.1.counter ≤ c) clock

clock_below : (m c : ℕ) (clock : FormatClock) → max_clock m clock ≤ c → ClockBelow c clock
unfolding max_clock
clock_below m c [] h = tt
clock_below m c ((_, id) ∷ clock) h =
    (omega (arith, max_clock-le (max m id.counter) clock), clock_below (max m id.counter) c clock h)

counted_below :
    (m c : ℕ) (l : List Node)
    → max_counter m (map to_snapshot_node l) ≤ c
    → All (λ n. (n.id.counter ≤ c) × ClockBelow c (or_empty n.format_clock)) l
unfolding max_counter to_snapshot_node
counted_below m c [] h = tt
counted_below m c (n ∷ l) h =
    let start : ℕ = max m n.id.counter in
    let next = max_clock start (or_empty n.format_clock) in
    (
      (
        omega (
          arith,
          max_clock-le start (or_empty n.format_clock),
          max_counter-le next (map to_snapshot_node l),
        ),
        clock_below start c (or_empty n.format_clock)
            (omega (arith, max_counter-le next (map to_snapshot_node l))),
      ),
      counted_below next c l h,
    )

-- A replica that is rebuilt from a snapshot has the nodes of the replica that took it, and a counter
-- that neither an id nor a decision of theirs exceeds.
pub from_snapshot-to_snapshot :
    (s : Rga) (replica_id : Text)
    → ((from_snapshot (to_snapshot s) replica_id).nodes ≡ s.nodes)
      × All
          (λ n.
            (n.id.counter ≤ (from_snapshot (to_snapshot s) replica_id).counter)
            × ClockBelow
                (from_snapshot (to_snapshot s) replica_id).counter
                (or_empty n.format_clock))
          s.nodes
unfolding from_snapshot to_snapshot
from_snapshot-to_snapshot s replica_id =
    (nodes_roundtrip s.nodes, counted_below 0 _ s.nodes (omega arith))

compact_live : (n : Node) → n.tombstone ≡ false → compact_node n ≡ n
unfolding compact_node
compact_live n e = ground arith

shown_compacted : (n : Node) → shown (compact_node n) ≡ shown n
unfolding compact_node shown
shown_compacted n = ground arith

runs_skip :
    (n : Node) (l : List Node) (content : List DeltaOp) (text : Text) (attrs : Option FormatMark)
    → shown n ≡ none
    → collect_runs (n ∷ l) content text attrs ≡ collect_runs l content text attrs
unfolding collect_runs
runs_skip n l content text attrs e = rw (e, collect_runs) refl

runs_cons :
    (n : Node) (l k : List Node) (content : List DeltaOp) (text : Text) (attrs : Option FormatMark)
    → ((c : List DeltaOp) (t : Text) (a : Option FormatMark)
        → collect_runs l c t a ≡ collect_runs k c t a)
    → collect_runs (n ∷ l) content text attrs ≡ collect_runs (n ∷ k) content text attrs
unfolding collect_runs
runs_cons n l k content text attrs h = elim (Option-cases (shown n)) [
  | inl e ↦ rw (e, collect_runs) (h content text attrs)
  | inr (value, e) ↦ elim (Bool-cases (attrs_equal n.attrs attrs)) [
    | inl same ↦ rw (e, collect_runs, same) (h content (text ++ value) attrs)
    | inr other ↦ rw (e, collect_runs, other) (h (flush content text attrs) value n.attrs)
  ]
]

shown_buried : (n : Node) → n.tombstone ≡ true → shown n ≡ none
unfolding shown
shown_buried n e = rw e refl

runs_compacted :
    (l : List Node) (content : List DeltaOp) (text : Text) (attrs : Option FormatMark)
    → collect_runs (map compact_node l) content text attrs ≡ collect_runs l content text attrs
runs_compacted [] content text attrs = refl
runs_compacted (n ∷ l) content text attrs = elim (Bool-cases n.tombstone) [
  | inl buried ↦
      runs_skip (compact_node n) (map compact_node l) content text attrs
        (shown_compacted n ∙ shown_buried n buried)
      ∙ runs_compacted l content text attrs
      ∙ sym (runs_skip n l content text attrs (shown_buried n buried))
  | inr there ↦
      ap (λ m. collect_runs (m ∷ map compact_node l) content text attrs) (compact_live n there)
      ∙ runs_cons n (map compact_node l) l content text attrs (runs_compacted l)
]

read_compacted : (l : List Node) → read_nodes (map compact_node l) ≡ read_nodes l
unfolding read_nodes compact_node shown
read_compacted [] = refl
read_compacted (n ∷ l) = ground (arith, read_compacted l)

-- Compaction changes neither the text nor what the editor is given.
pub compact_tombstones_invisible :
    (s : Rga)
    → (read (compact_tombstones s) ≡ read s)
      × (get_contents_for_editor (compact_tombstones s) ≡ get_contents_for_editor s)
unfolding read get_contents_for_editor compact_tombstones
compact_tombstones_invisible s = (
  read_compacted s.nodes,
  ap (λ (l : List DeltaOp). l ++ record { insert = b'\n' ∷ []; attributes = none } ∷ [])
      (runs_compacted s.nodes [] [] none),
)
