-- ===== src/Tests/Stores.antt =====
-- The stores of apps/server over a database and a Redis that are functions.
use ysync.Common.{
  ℕ, ◌≤◌, ◌≡◌, refl, sym, subst, some_injective, inl, inr, true, false, Bool-cases, List, [], ◌∷◌,
  map, Option, none, some, All, leb, if◌then◌else◌, arith,
}
use ysync.Common.Texts.{Text, text_eq, text_eq_iff}
use ysync.Common.Maps
use ysync.Crdt.OpId.Keys.{has_at}
use ysync.Crdt.Op.{Op, InsertOp, insert, delete, op_id_key_of}
use ysync.Server.Persistence.{
  StoredSnapshot, snapshot_seq, empty_doc, has_key, append_to_doc, snapshot_doc, store_ops,
  store_op, rows_after,
}
use ysync.Server.Persistence
use ysync.Server.Persistence.Rows.{to_row}
use ysync.Server.Persistence.Prisma.{
  Database, append_ops, write_snapshot, load, upsert_document, create_operations, create_snapshot,
  delete_operations,
}
use ysync.Server.Persistence.Prisma.Tables.{
  Table, IsLawful, IsLatest, empty_table, run_statements, order_by_seq, rows_above,
}
use ysync.Server.Persistence.Prisma.History.{Answers}
use ysync.Server.Persistence.Prisma.Agreement.{
  Call, append, compact, run_memory, IsOrderly, Runs, load-run_memory,
}
use ysync.Server.Persistence.Prisma.CommitOrder.{load-append_ops_comm}
use ysync.Server.Persistence.Prisma.Deletes.{deleted_still_found}

abbrev notes : Text
notes = b'n' ∷ []

abbrev alice : Text
alice = b'a' ∷ []

abbrev letter : ℕ → InsertOp
letter n = record {
  id = record { counter = n; replica_id = alice };
  origin_id = none;
  value = b'x' ∷ [];
  attrs = none;
}

abbrev later_of : StoredSnapshot → Option StoredSnapshot → Option StoredSnapshot
later_of s none = some s
later_of s (some t) = if leb s.at_seq t.at_seq then some t else some s

abbrev latest_of : List StoredSnapshot → Option StoredSnapshot
latest_of [] = none
latest_of (s ∷ snapshots) = later_of s (latest_of snapshots)

All-weaken :
    (n m : ℕ) (snapshots : List StoredSnapshot)
    → n ≤ m
    → All (λ (t : StoredSnapshot). t.at_seq ≤ n) snapshots
    → All (λ (t : StoredSnapshot). t.at_seq ≤ m) snapshots
All-weaken n m [] l a = tt
All-weaken n m (s ∷ snapshots) l a = (omega (arith, l, a.0), All-weaken n m snapshots l a.1)

IsLatest-later_of :
    (s : StoredSnapshot) (answer : Option StoredSnapshot) (snapshots : List StoredSnapshot)
    → IsLatest answer snapshots
    → IsLatest (later_of s answer) (s ∷ snapshots)
IsLatest-later_of s none snapshots l = (inl refl, (omega arith, rw l tt))
IsLatest-later_of s (some t) snapshots (i, a) = elim (Bool-cases (leb s.at_seq t.at_seq)) [
  | inl older ↦ rw (older, if◌then◌else◌) (inr i, (ground arith, a))
  | inr newer ↦
      rw (newer, if◌then◌else◌)
        (inl refl, (omega arith, All-weaken t.at_seq s.at_seq snapshots (ground arith) a))
]

IsLatest-latest_of : (snapshots : List StoredSnapshot) → IsLatest (latest_of snapshots) snapshots
IsLatest-latest_of [] = refl
IsLatest-latest_of (s ∷ snapshots) =
    IsLatest-later_of s (latest_of snapshots) snapshots (IsLatest-latest_of snapshots)

-- A database whose calls all succeed.
abbrev memory_database : Database
memory_database = record {
  State = Text → Table;
  find_document = λ db doc_id. some (db doc_id).document;
  find_latest_snapshot = λ db doc_id. some (latest_of (db doc_id).snapshots);
  find_operations_after =
      λ db doc_id at_seq. some (order_by_seq (rows_above at_seq (db doc_id).operations));
  transaction = λ db statements. some (λ doc_id. run_statements doc_id statements (db doc_id));
}

memory_database-IsLawful : IsLawful memory_database
memory_database-IsLawful = record {
  table = λ db doc_id. db doc_id;
  document_found = λ db doc_id answer e. sym (some_injective _ _ e);
  snapshot_found = λ db doc_id answer e.
      subst (λ a. IsLatest a (db doc_id).snapshots) (some_injective _ _ e)
        (IsLatest-latest_of (db doc_id).snapshots);
  operations_found = λ db doc_id at_seq answer e. sym (some_injective _ _ e);
  committed = λ db after statements e doc_id. sym (λ i. some_injective _ _ e i doc_id);
}

abbrev Db : Type 0
Db = Text → Table

abbrev fresh : Db
fresh doc_id = empty_table

abbrev answers : (db : Db) → Answers memory_database db notes
answers db = ((_, refl), (_, refl), λ at_seq. (_, refl))

-- A batch, a snapshot of it, and another batch.
abbrev calls : List Call
calls =
    append 1 (insert (letter 1) ∷ insert (letter 2) ∷ [])
    ∷ compact 1 []
    ∷ append 4 (insert (letter 3) ∷ [])
    ∷ []

-- The database after a call.
abbrev with_append : ℕ → List Op → Db → Db
with_append seq ops db doc_id =
    run_statements doc_id
      (upsert_document notes seq ∷ create_operations notes (map (to_row seq) ops) ∷ []) (db doc_id)

abbrev with_snapshot : ℕ → Db → Db
with_snapshot at_seq db doc_id =
    run_statements doc_id
      (create_snapshot notes (record { at_seq = at_seq; state = [] })
        ∷ delete_operations notes at_seq
        ∷ [])
      (db doc_id)

abbrev first_batch : Db
first_batch = with_append 1 (insert (letter 1) ∷ insert (letter 2) ∷ []) fresh

abbrev compacted : Db
compacted = with_snapshot 1 first_batch

abbrev after_calls : Db
after_calls = with_append 4 (insert (letter 3) ∷ []) compacted

calls-Runs : Runs memory_database notes calls fresh after_calls
unfolding append_ops write_snapshot
calls-Runs = (first_batch, refl, (compacted, refl, (after_calls, refl, refl)))

calls-IsOrderly : IsOrderly [] calls empty_doc
unfolding empty_doc has_key append_to_doc snapshot_doc store_ops store_op op_id_key_of rows_after
    has_at snapshot_seq
calls-IsOrderly = (
  (λ p. ground (arith, p), omega arith, ((refl, tt), ((refl, tt), tt)), (refl, (refl, tt))),
  (
    (omega arith, omega arith),
    ((λ p. ground (arith, p), omega arith, ((refl, tt), tt), (refl, tt)), tt),
  ),
)

load-run_memory_example :
    load memory_database notes after_calls
    ≡ some (Persistence.load notes (run_memory notes calls []))
unfolding Maps.get memory_database-IsLawful
load-run_memory_example =
    load-run_memory memory_database memory_database-IsLawful notes calls [] fresh after_calls refl
      refl calls-IsOrderly calls-Runs (answers after_calls)

abbrev one : List Op
one = insert (letter 1) ∷ []

abbrev two : List Op
two = insert (letter 2) ∷ []

apart :
    (a b : Text)
    → text_eq a b ≡ false
    → (k : Text) → has_key k (a ∷ []) ≡ true
    → has_key k (b ∷ []) ≡ false
unfolding has_key
apart a b e k h = ground (arith, text_eq_iff a b, text_eq_iff a k, text_eq_iff b k, e, h)

load-append_ops_comm_example :
    load memory_database notes (with_append 2 two (with_append 1 one fresh))
    ≡ load memory_database notes (with_append 1 one (with_append 2 two fresh))
unfolding append_ops memory_database-IsLawful text_eq
load-append_ops_comm_example =
    load-append_ops_comm memory_database memory_database-IsLawful notes 1 2 one two none fresh
      (with_append 1 one fresh) (with_append 2 two (with_append 1 one fresh))
      (with_append 2 two fresh) (with_append 1 one (with_append 2 two fresh)) (omega arith)
      (λ p. ground (arith, p)) (λ p. ground (arith, p))
      (apart (op_id_key_of (insert (letter 1))) (op_id_key_of (insert (letter 2))) refl)
      (apart (op_id_key_of (insert (letter 2))) (op_id_key_of (insert (letter 1))) refl) refl refl
      refl refl refl (answers (with_append 2 two (with_append 1 one fresh)))
      (answers (with_append 1 one (with_append 2 two fresh)))

deleted_still_found_example :
    order_by_seq (
      rows_above 0
        (with_append 2
          (delete (record { target_id = (letter 1).id }) ∷ [])
          (with_append 1 one fresh)
          notes).operations)
    ≡ order_by_seq (rows_above 0 (with_append 1 one fresh notes).operations)
unfolding append_ops
deleted_still_found_example =
    deleted_still_found memory_database memory_database-IsLawful notes 1 2 0 (letter 1) fresh
      (with_append 1 one fresh)
      (with_append 2 (delete (record { target_id = (letter 1).id }) ∷ []) (with_append 1 one fresh))
      _ _ refl refl refl refl
