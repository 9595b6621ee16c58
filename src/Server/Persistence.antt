-- ===== src/Server/Persistence.antt =====
-- apps/server/src/persistence/InMemoryPersistenceStore.ts. A snapshot stays as it was when it was
-- written; what the store sees of the clock that it shares with the room is in Crdt.Snapshot.Sharing.
pub mod Dedup
pub mod Grouping
pub mod Restart
pub mod Prisma
pub mod Rows
use ysync.Common.{
  ℕ, max, Bool, true, false, List, [], ◌∷◌, ◌++◌, map, Option, none, some, ◌||◌, ltb, ◌==◌,
  if◌then◌else◌,
}
use ysync.Common.Texts.{Text, text_eq}
use ysync.Common.Maps
use ysync.Common.Maps.{Map}
use ysync.Crdt.Op.{Op, op_id_key_of}
use ysync.Crdt.Snapshot.{RgaSnapshotNode}

pub record OpBatch : Type 0 where
  pub seq : ℕ
  pub ops : List Op

pub record LoadedDocument : Type 0 where
  pub snapshot : List RgaSnapshotNode
  pub snapshot_seq : ℕ
  pub ops : List OpBatch
  pub latest_seq : ℕ

pub record StoredOp : Type 0 where
  pub seq : ℕ
  pub op : Op

pub record StoredSnapshot : Type 0 where
  pub at_seq : ℕ
  pub state : List RgaSnapshotNode

pub record DocState : Type 0 where
  pub latest_seq : ℕ
  pub ops : List StoredOp
  pub seen_op_ids : List Text
  pub snapshot : Option StoredSnapshot

unfoldable pub empty_doc : DocState
empty_doc = record { latest_seq = 0; ops = []; seen_op_ids = []; snapshot = none }

-- One round of `groupBySeq`: the row joins the last batch, or opens one.
unfoldable pub push_row : List OpBatch → StoredOp → List OpBatch
push_row [] row = record { seq = row.seq; ops = row.op ∷ [] } ∷ []
push_row (last ∷ []) row =
    if last.seq == row.seq
    then record last { ops = last.ops ++ row.op ∷ [] } ∷ []
    else last ∷ record { seq = row.seq; ops = row.op ∷ [] } ∷ []
push_row (b ∷ c ∷ rest) row = b ∷ push_row (c ∷ rest) row

unfoldable pub group_rows : List OpBatch → List StoredOp → List OpBatch
unfolding push_row
group_rows batches [] = batches
group_rows batches (row ∷ rows) = group_rows (push_row batches row) rows

unfoldable pub group_by_seq : List StoredOp → List OpBatch
unfolding group_rows
group_by_seq = group_rows []

abbrev pub PersistenceStore : Type 0
PersistenceStore = Map DocState

unfoldable pub snapshot_state : Option StoredSnapshot → List RgaSnapshotNode
snapshot_state none = []
snapshot_state (some s) = s.state

unfoldable pub snapshot_seq : Option StoredSnapshot → ℕ
snapshot_seq none = 0
snapshot_seq (some s) = s.at_seq

-- What `load` returns for a document that is there.
unfoldable pub load_doc : DocState → LoadedDocument
unfolding group_by_seq snapshot_state snapshot_seq
load_doc doc = record {
  snapshot = snapshot_state doc.snapshot;
  snapshot_seq = snapshot_seq doc.snapshot;
  ops = group_by_seq doc.ops;
  latest_seq = doc.latest_seq;
}

unfoldable pub load : Text → PersistenceStore → LoadedDocument
unfolding load_doc
load doc_id docs = elim (Maps.get doc_id docs) [
  | none ↦ record { snapshot = []; snapshot_seq = 0; ops = []; latest_seq = 0 }
  | some doc ↦ load_doc doc
]

-- `docs.get(docId)`, or a document that is created
unfoldable pub get_or_create : Text → PersistenceStore → DocState
unfolding empty_doc
get_or_create doc_id docs = elim (Maps.get doc_id docs) [ some doc ↦ doc | none ↦ empty_doc ]

-- `seenOpIds.has(key)`
unfoldable pub has_key : Text → List Text → Bool
unfolding text_eq
has_key key [] = false
has_key key (k ∷ ks) = text_eq k key || has_key key ks

unfoldable pub store_op : ℕ → Op → DocState → DocState
unfolding has_key op_id_key_of
store_op seq op doc = if has_key (op_id_key_of op) doc.seen_op_ids then doc else record doc {
  ops = doc.ops ++ record { seq = seq; op = op } ∷ [];
  seen_op_ids = doc.seen_op_ids ++ op_id_key_of op ∷ [];
}

unfoldable pub store_ops : ℕ → List Op → DocState → DocState
unfolding store_op
store_ops seq [] doc = doc
store_ops seq (op ∷ ops) doc = store_ops seq ops (store_op seq op doc)

-- What `appendOps` does to the document.
unfoldable pub append_to_doc : ℕ → List Op → DocState → DocState
unfolding store_ops
append_to_doc seq ops doc = store_ops seq ops (record doc { latest_seq = max doc.latest_seq seq })

unfoldable pub append_ops : Text → ℕ → List Op → PersistenceStore → PersistenceStore
unfolding get_or_create append_to_doc
append_ops doc_id seq ops docs =
    Maps.put doc_id (append_to_doc seq ops (get_or_create doc_id docs)) docs

-- `ops.filter((row) => row.seq > atSeq)`
unfoldable pub rows_after : ℕ → List StoredOp → List StoredOp
rows_after at_seq [] = []
rows_after at_seq (row ∷ rows) =
    let rest = rows_after at_seq rows in if ltb at_seq row.seq then row ∷ rest else rest

-- What `writeSnapshot` does to the document.
unfoldable pub snapshot_doc : ℕ → List RgaSnapshotNode → DocState → DocState
unfolding rows_after
snapshot_doc at_seq state doc = record doc {
  snapshot = some (record { at_seq = at_seq; state = state });
  ops = rows_after at_seq doc.ops;
  latest_seq = max doc.latest_seq at_seq;
}

unfoldable pub write_snapshot :
    Text → ℕ → List RgaSnapshotNode → PersistenceStore → PersistenceStore
unfolding get_or_create snapshot_doc
write_snapshot doc_id at_seq state docs =
    Maps.put doc_id (snapshot_doc at_seq state (get_or_create doc_id docs)) docs

unfoldable close : PersistenceStore → PersistenceStore
close docs = []
