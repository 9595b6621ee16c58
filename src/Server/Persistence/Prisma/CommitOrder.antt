-- ===== src/Server/Persistence/Prisma/CommitOrder.antt =====
-- Two calls of `appendOps` of apps/server/src/persistence/PrismaPersistenceStore.ts that commit in
-- either order, as when two processes took the numbers `n` and `m` and wrote at the same time.
use ysync.Common.{
  ℕ, ◌≡◌, ◌≢◌, refl, sym, ap, ◌∙◌, true, false, List, [], ◌∷◌, map, Option, none, some, arith,
}
use ysync.Common.Texts.{Text}
use ysync.Crdt.Op.{Op, op_id_key_of}
use ysync.Server.Persistence.{StoredSnapshot, has_key, snapshot_seq}
use ysync.Server.Persistence.Rows.{to_row}
use ysync.Server.Persistence.Prisma.{Database, append_ops, load, loaded}
use ysync.Server.Persistence.Prisma.Tables.{
  Table, IsLawful, op_ids, greatest, order_by_seq, rows_above,
}
use ysync.Server.Persistence.Prisma.Represents.{IsNewest, seq-to_row, op_id-to_row}
use ysync.Server.Persistence.Prisma.Refines.{appended, run_statements-append}
use ysync.Server.Persistence.Prisma.RowOrder.{Disjoint, OfSeq, order_by_seq-insert_rows}
use ysync.Server.Persistence.Prisma.History.{Answers, load_there}

-- No op of one batch has the key of an op of the other.
abbrev pub NoCommonKey : List Op → List Op → Type 0
NoCommonKey xs ys =
    (k : Text) → has_key k (map op_id_key_of xs) ≡ true → has_key k (map op_id_key_of ys) ≡ false

OfSeq-to_row : (n : ℕ) (ops : List Op) → OfSeq n (map (to_row n) ops)
OfSeq-to_row n [] = tt
OfSeq-to_row n (op ∷ ops) = (seq-to_row n op, OfSeq-to_row n ops)

op_ids-to_row : (n : ℕ) (ops : List Op) → op_ids (map (to_row n) ops) ≡ map op_id_key_of ops
op_ids-to_row n [] = refl
op_ids-to_row n (op ∷ ops) = rw (op_id-to_row n op, op_ids-to_row n ops)

Disjoint-to_row :
    (n m : ℕ) (xs ys : List Op)
    → NoCommonKey xs ys
    → Disjoint (map (to_row n) xs) (map (to_row m) ys)
Disjoint-to_row n m xs ys d = rw (op_ids-to_row n xs, op_ids-to_row m ys) d

greatest_comm :
    (document : Option ℕ) (n m : ℕ)
    → greatest (some (greatest document n)) m ≡ greatest (some (greatest document m)) n
unfolding greatest
greatest_comm none n m = omega arith
greatest_comm (some l) n m = omega arith

module _ (D : Database) (L : IsLawful D) (doc_id : Text) where
  pub table-append_ops :
      (n : ℕ) (ops : List Op) (db after : D.State)
      → ops ≢ []
      → append_ops D doc_id n ops db ≡ some after
      → L.table after doc_id ≡ appended n ops (L.table db doc_id)
  unfolding append_ops
  table-append_ops n [] db after ne e = absurd (ne refl)
  table-append_ops n (op ∷ ops) db after ne e =
      L.committed db after _ e doc_id
      ∙ run_statements-append doc_id n (op ∷ ops) (L.table db doc_id)

  -- `load` after two appends that committed.
  load_after :
      (n m : ℕ) (xs ys : List Op) (db mid after : D.State) (latest : Option StoredSnapshot)
      → xs ≢ []
      → ys ≢ []
      → append_ops D doc_id n xs db ≡ some mid
      → append_ops D doc_id m ys mid ≡ some after
      → IsNewest latest (L.table db doc_id).snapshots
      → Answers D after doc_id
      → let T = appended m ys (appended n xs (L.table db doc_id)) in
        load D doc_id after
        ≡ loaded
            (greatest (some (greatest (L.table db doc_id).document n)) m)
            latest
            (order_by_seq (rows_above (snapshot_seq latest) T.operations))
  load_after n m xs ys db mid after latest nx ny ex ey newest answers =
      let T = L.table db doc_id in
      let is : L.table after doc_id ≡ appended m ys (appended n xs T) =
        table-append_ops m ys mid after ny ey
        ∙ ap (appended m ys) (table-append_ops n xs db mid nx ex) in
      load_there D L after doc_id (greatest (some (greatest T.document n)) m) latest
        (ap (λ (t : Table). t.document) is) (rw is newest) answers
      ∙ ap
          (λ (t : Table).
            loaded (greatest (some (greatest T.document n)) m) latest
              (order_by_seq (rows_above (snapshot_seq latest) t.operations)))
          is

  -- Whichever of two batches with different numbers, that each hold an op and have no op key in
  -- common, is committed first, `load` returns the same, when the snapshots that the table holds
  -- have a newest one, the four transactions commit and no query fails.
  pub load-append_ops_comm :
      (n m : ℕ) (xs ys : List Op) (latest : Option StoredSnapshot)
      (db first both second both' : D.State)
      → n ≢ m
      → xs ≢ []
      → ys ≢ []
      → NoCommonKey xs ys
      → NoCommonKey ys xs
      → IsNewest latest (L.table db doc_id).snapshots
      → append_ops D doc_id n xs db ≡ some first
      → append_ops D doc_id m ys first ≡ some both
      → append_ops D doc_id m ys db ≡ some second
      → append_ops D doc_id n xs second ≡ some both'
      → Answers D both doc_id
      → Answers D both' doc_id
      → load D doc_id both ≡ load D doc_id both'
  load-append_ops_comm n m xs ys latest db first both second both' ne nx ny dxy dyx newest ex ey ey'
        ex' answers answers' =
      let T = L.table db doc_id in
      load_after n m xs ys db first both latest nx ny ex ey newest answers
      ∙ (λ i. loaded (greatest_comm T.document n m i) latest (
          order_by_seq-insert_rows n m (snapshot_seq latest) (map (to_row n) xs) (map (to_row m) ys)
            T.operations ne (OfSeq-to_row n xs) (OfSeq-to_row m ys) (Disjoint-to_row n m xs ys dxy)
            (Disjoint-to_row m n ys xs dyx) i))
      ∙ sym (load_after m n ys xs db second both' latest ny nx ey' ex' newest answers')
