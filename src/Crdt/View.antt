-- ===== src/Crdt/View.antt =====
-- What a replica shows: `read` and `getContentsForEditor` of packages/crdt/src/rga.ts.
use ysync.Common.{
  ◌≡◌, refl, true, false, List, [], ◌∷◌, ◌++◌, map, Option, none, some, if◌then◌else◌, arith,
}
use ysync.Common.Texts.{Text}
use ysync.Crdt.Node.{Node, FormatMark, attrs_equal}
use ysync.Crdt.Rga.{Rga}
use ysync.Crdt.Rga.Shapes.{core}

-- `!node.tombstone && node.value !== null`: the text that the node shows.
unfoldable pub shown : Node → Option Text
shown n = if n.tombstone then none else n.value

unfoldable pub read_nodes : List Node → Text
unfolding shown
read_nodes [] = []
read_nodes (n ∷ rest) = elim (shown n) [
  | some value ↦ value ++ read_nodes rest
  | none ↦ read_nodes rest
]

unfoldable pub read : Rga → Text
unfolding read_nodes
read s = read_nodes s.nodes

-- A run of text with one set of marks, as Quill's delta has it.
pub record DeltaOp : Type 0 where
  pub insert : Text
  pub attributes : Option FormatMark

-- `flush`, on the content written so far.
unfoldable pub flush : List DeltaOp → Text → Option FormatMark → List DeltaOp
flush content [] run_attrs = content
flush content (c ∷ run_text) run_attrs =
    content ++ record { insert = c ∷ run_text; attributes = run_attrs } ∷ []

-- The loop of `getContentsForEditor` over the nodes left, and its last flush.
unfoldable pub collect_runs : List Node → List DeltaOp → Text → Option FormatMark → List DeltaOp
unfolding shown flush attrs_equal
collect_runs [] content run_text run_attrs = flush content run_text run_attrs
collect_runs (n ∷ rest) content run_text run_attrs = elim (shown n) [
  | none ↦ collect_runs rest content run_text run_attrs
  | some value ↦ elim (attrs_equal n.attrs run_attrs) [
    | true ↦ collect_runs rest content (run_text ++ value) run_attrs
    | false ↦ collect_runs rest (flush content run_text run_attrs) value n.attrs
  ]
]

unfoldable pub get_contents_for_editor : Rga → List DeltaOp
unfolding collect_runs
get_contents_for_editor s =
    collect_runs s.nodes [] [] none ++ record { insert = b'\n' ∷ []; attributes = none } ∷ []

-- The text depends on the values and the tombstones alone.
pub read_nodes-core : (l : List Node) → read_nodes (map core l) ≡ read_nodes l
unfolding read_nodes core
read_nodes-core [] = refl
read_nodes-core (n ∷ l) = ground (arith, read_nodes-core l)
