-- ===== src/Server/Persistence/Prisma/Represents.antt =====
-- When the tables of apps/server/src/persistence/PrismaPersistenceStore.ts hold what a document of
-- apps/server/src/persistence/InMemoryPersistenceStore.ts holds.
use ysync.Common.{
  inl, inr, subst, Bool-cases, ℕ, suc, max, ◌≤◌, ◌<◌, ◌≡◌, refl, ◌⊎◌, List, [], ◌∷◌, ◌++◌, map,
  Option, none, some, ◌||◌, All, ltb, if◌then◌else◌, arith,
}
use ysync.Common.Texts.{Text}
use ysync.Crdt.Op.{Op, insert, delete, format, op_id_key_of}
use ysync.Server.Persistence.{
  DocState, StoredOp, StoredSnapshot, OpBatch, has_key, snapshot_seq, empty_doc, rows_after,
  push_row, group_rows,
}
use ysync.Server.Persistence.Rows.{OperationRow, IsReadable, to_row, from_row, from_row-to_row}
use ysync.Server.Persistence.Prisma.{group_operations}
use ysync.Server.Persistence.Prisma.Tables.{
  Table, empty_table, op_ids, rows_above, insert_sorted, order_by_seq,
}

abbrev pub stored_row : StoredOp → OperationRow
stored_row s = to_row s.seq s.op

abbrev pub keys_of : List StoredOp → List Text
keys_of = map (λ s. op_id_key_of s.op)

-- The numbers do not fall, from `low` to `high`.
abbrev pub Ascending : ℕ → ℕ → List StoredOp → Type 0
Ascending low high [] = Unit {0}
Ascending low high (s ∷ ss) = (low ≤ s.seq) × (s.seq ≤ high) × Ascending s.seq high ss

-- The one snapshot that the in-memory store keeps has the greatest number of those in the table.
abbrev pub IsNewest : Option StoredSnapshot → List StoredSnapshot → Type 0
IsNewest none snapshots = snapshots ≡ []
IsNewest (some s) snapshots =
    (older : List StoredSnapshot) × (snapshots ≡ older ++ s ∷ [])
    × All (λ (t : StoredSnapshot). t.at_seq < s.at_seq) older

-- `forgotten` are the keys whose rows a snapshot deleted: the in-memory store still knows them.
pub record Represents (T : Table) (doc : DocState) (forgotten : List Text) : Type 0 where
  pub document : (T.document ≡ some doc.latest_seq) ⊎ ((T ≡ empty_table) × (doc ≡ empty_doc))
  pub operations : T.operations ≡ map stored_row doc.ops
  pub snapshots : IsNewest doc.snapshot T.snapshots
  pub readable : All (λ (s : StoredOp). IsReadable s.op) doc.ops
  pub ascending : Ascending (suc (snapshot_seq doc.snapshot)) doc.latest_seq doc.ops
  pub bounded : snapshot_seq doc.snapshot ≤ doc.latest_seq
  pub seen :
      (k : Text) → has_key k doc.seen_op_ids ≡ (has_key k (keys_of doc.ops) || has_key k forgotten)

pub seq-to_row : (seq : ℕ) (op : Op) → (to_row seq op).seq ≡ seq
unfolding to_row
seq-to_row seq (insert op) = refl
seq-to_row seq (delete op) = refl
seq-to_row seq (format op) = refl

pub op_id-to_row : (seq : ℕ) (op : Op) → (to_row seq op).op_id ≡ op_id_key_of op
unfolding to_row
op_id-to_row seq (insert op) = refl
op_id-to_row seq (delete op) = refl
op_id-to_row seq (format op) = refl

pub op_ids-stored_row : (ss : List StoredOp) → op_ids (map stored_row ss) ≡ keys_of ss
op_ids-stored_row [] = refl
op_ids-stored_row (s ∷ ss) = rw (op_id-to_row s.seq s.op, op_ids-stored_row ss)

pub empty-Represents : Represents empty_table empty_doc []
unfolding empty_doc snapshot_seq has_key
empty-Represents = record {
  document = inr (refl, refl);
  operations = refl;
  snapshots = refl;
  readable = tt;
  ascending = tt;
  bounded = omega arith;
  seen = λ k. refl;
}

pub Ascending-lower :
    (low low' high : ℕ) (ss : List StoredOp)
    → low' ≤ low
    → Ascending low high ss
    → Ascending low' high ss
Ascending-lower low low' high [] l a = tt
Ascending-lower low low' high (s ∷ ss) l a = (omega (arith, a.0), a.1, a.2)

pub Ascending-append :
    (low high seq : ℕ) (ss more : List StoredOp)
    → high ≤ seq
    → Ascending low high ss
    → Ascending seq seq more
    → low ≤ seq
    → Ascending low seq (ss ++ more)
Ascending-append low high seq [] more h a b l = Ascending-lower seq low seq more l b
Ascending-append low high seq (s ∷ ss) more h a b l =
    (a.0, omega (arith, a.1), Ascending-append s.seq high seq ss more h a.2 b (omega (arith, a.1)))

pub Ascending-rows_after :
    (low high at_seq : ℕ) (ss : List StoredOp)
    → Ascending low high ss
    → Ascending (max low (suc at_seq)) high (rows_after at_seq ss)
unfolding rows_after
Ascending-rows_after low high at_seq [] a = tt
Ascending-rows_after low high at_seq (s ∷ ss) a =
    let rest = Ascending-rows_after s.seq high at_seq ss a.2 in
    elim (Bool-cases (ltb at_seq s.seq)) [
      | inl t ↦
          let top : max s.seq (suc at_seq) ≡ s.seq = ground arith in
          let low_ok : max low (suc at_seq) ≤ s.seq = ground (arith, a.0) in
          rw (t, if◌then◌else◌)
            (low_ok, a.1, subst (λ n. Ascending n high (rows_after at_seq ss)) top rest)
      | inr f ↦
          let low_ok : max low (suc at_seq) ≤ max s.seq (suc at_seq) = omega (arith, a.0) in
          rw f (
            Ascending-lower (max s.seq (suc at_seq)) (max low (suc at_seq)) high
              (rows_after at_seq ss) low_ok rest)
    ]

pub rows_above-stored_row :
    (at_seq : ℕ) (ss : List StoredOp)
    → rows_above at_seq (map stored_row ss) ≡ map stored_row (rows_after at_seq ss)
unfolding rows_above rows_after
rows_above-stored_row at_seq [] = refl
rows_above-stored_row at_seq (s ∷ ss) =
    ground (arith, seq-to_row s.seq s.op, rows_above-stored_row at_seq ss)

pub rows_after-Ascending :
    (at_seq low high : ℕ) (ss : List StoredOp)
    → at_seq < low
    → Ascending low high ss
    → rows_after at_seq ss ≡ ss
unfolding rows_after
rows_after-Ascending at_seq low high [] l a = refl
rows_after-Ascending at_seq low high (s ∷ ss) l a =
    ground (arith, rows_after-Ascending at_seq s.seq high ss (omega (arith, a.0)) a.2, a.0)

pub order_by_seq-Ascending :
    (low high : ℕ) (ss : List StoredOp)
    → Ascending low high ss
    → order_by_seq (map stored_row ss) ≡ map stored_row ss
unfolding order_by_seq insert_sorted
order_by_seq-Ascending low high [] a = refl
order_by_seq-Ascending low high (s ∷ []) a = refl
order_by_seq-Ascending low high (s ∷ t ∷ ss) a =
    rw (order_by_seq-Ascending s.seq high (t ∷ ss) a.2)
      (ground (arith, a.2.0, seq-to_row s.seq s.op, seq-to_row t.seq t.op))

pub group_operations-stored_row :
    (batches : List OpBatch) (ss : List StoredOp)
    → All (λ (s : StoredOp). IsReadable s.op) ss
    → group_operations batches (map stored_row ss) ≡ some (group_rows batches ss)
unfolding group_operations group_rows
group_operations-stored_row batches [] r = refl
group_operations-stored_row batches (s ∷ ss) r =
    let head : from_row (to_row s.seq s.op) ≡ some s.op = from_row-to_row s.seq s.op r.0 in
    rw (head, group_operations, seq-to_row s.seq s.op)
      (group_operations-stored_row (push_row batches s) ss r.1)

pub Ascending-raise :
    (low high high' : ℕ) (ss : List StoredOp)
    → high ≤ high'
    → Ascending low high ss
    → Ascending low high' ss
Ascending-raise low high high' [] h a = tt
Ascending-raise low high high' (s ∷ ss) h a =
    (a.0, omega (arith, a.1), Ascending-raise s.seq high high' ss h a.2)
