-- ===== src/Web/Db.antt =====
-- apps/web/src/lib/db.ts over an IndexedDB that is a parameter, which other tabs write to between two
-- calls that are awaited. A call that throws is `none`; what
-- `Math.random` and `crypto.randomUUID` give is an argument.
pub mod Names
pub mod Reloads
use ysync.Common.{
  ℕ, zero, suc, ◌+◌, ◌<◌, ◌≡◌, refl, List, [], ◌∷◌, ◌++◌, Option, none, some, In, Bool, true, false,
  ◌&&◌, if◌then◌else◌,
}
use ysync.Common.Texts.{Text, text_eq}
use ysync.Crdt.OpId.{to_decimal}
use ysync.Crdt.Op.{Op}
use ysync.Crdt.Snapshot.{RgaSnapshotNode}
use ysync.Web.Db.Names.{all_names, all_colors}

pub record DocumentRecord : Type 0 where
  pub doc_id : Text
  pub last_acked_seq : ℕ
  pub snapshot_state : List RgaSnapshotNode

pub record OutboxRecord : Type 0 where
  pub doc_id : Text
  pub op_id : Text
  pub op : Op
  pub created_at : ℕ

pub record ReplicaRecord : Type 0 where
  pub doc_id : Text
  pub replica_id : Text
  pub name : Text
  pub color : Text

-- The calls of idb that the code makes, on the object stores of `YSyncDB`.
pub record IndexedDb : Type 1 where
  pub State : Type 0
  pub get_document : State → Text → Option (Option DocumentRecord)
  pub put_document : State → DocumentRecord → Option State
  pub get_all_by_doc : State → Text → Option (List OutboxRecord)
  pub put_outbox : State → OutboxRecord → Option State
  pub delete_outbox : State → Text → Text → Option State
  pub get_replica : State → Text → Option (Option ReplicaRecord)
  pub put_replica : State → ReplicaRecord → Option State

-- `items[Math.floor(Math.random() * items.length)]` at the index that comes out, which is below
-- `items.length`.
unfoldable pub random_from : ℕ → List Text → Text
random_from n [] = []
random_from zero (item ∷ items) = item
random_from (suc n) (item ∷ items) = random_from n items

-- What a replica is made of by chance.
pub record Chance : Type 0 where
  pub uuid : Text
  pub name_index : ℕ
  pub number : ℕ
  pub color_index : ℕ

unfoldable pub new_replica : Text → Chance → ReplicaRecord
unfolding random_from to_decimal
new_replica doc_id chance = record {
  doc_id = doc_id;
  replica_id = chance.uuid;
  name = random_from chance.name_index all_names ++ b'-' ∷ to_decimal chance.number;
  color = random_from chance.color_index all_colors;
}

module _ (D : IndexedDb) where
  unfoldable pub load_document_record : D.State → Text → Option (Option DocumentRecord)
  load_document_record db doc_id = D.get_document db doc_id

  unfoldable pub save_document_record : D.State → DocumentRecord → Option D.State
  save_document_record db r = D.put_document db r

  unfoldable pub list_outbox : D.State → Text → Option (List OutboxRecord)
  list_outbox db doc_id = D.get_all_by_doc db doc_id

  unfoldable pub add_to_outbox : D.State → OutboxRecord → Option D.State
  add_to_outbox db r = D.put_outbox db r

  unfoldable pub remove_from_outbox : D.State → Text → Text → Option D.State
  remove_from_outbox db doc_id op_id = D.delete_outbox db doc_id op_id

  -- `getOrCreateReplica` where there is no record.
  unfoldable pub create_replica : Text → Chance → D.State → Option (D.State × ReplicaRecord)
  unfolding new_replica
  create_replica doc_id chance db = elim (D.put_replica db (new_replica doc_id chance)) [
    | none ↦ none
    | some after ↦ some (after, new_replica doc_id chance)
  ]

  -- The record is read in `db`; where there is none, it is created in what `later` is by then.
  unfoldable pub get_or_create_replica :
      Text → Chance → D.State → D.State → Option (D.State × ReplicaRecord)
  unfolding create_replica
  get_or_create_replica doc_id chance db later = elim (D.get_replica db doc_id) [
    | none ↦ none
    | some none ↦ create_replica doc_id chance later
    | some (some existing) ↦ some (db, existing)
  ]
