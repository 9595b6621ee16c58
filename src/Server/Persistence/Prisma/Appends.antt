-- ===== src/Server/Persistence/Prisma/Appends.antt =====
-- The rows that `createMany` of apps/server/src/persistence/PrismaPersistenceStore.ts adds, against
-- the ops that `appendOps` of apps/server/src/persistence/InMemoryPersistenceStore.ts adds.
use ysync.Common.{
  ℕ, ◌≤◌, ◌≡◌, refl, sym, ap, subst, ◌∙◌, inl, inr, true, false, Bool-cases, List, [], ◌∷◌, ◌++◌,
  map, ◌||◌, All, if◌then◌else◌, arith,
}
use ysync.Common.Texts.{Text}
use ysync.Crdt.Op.{Op, op_id_key_of}
use ysync.Server.Persistence.{DocState, StoredOp, has_key, store_op, store_ops}
use ysync.Server.Persistence.Dedup.{has_key-append}
use ysync.Server.Persistence.Grouping.{row}
use ysync.Server.Persistence.Rows.{OperationRow, IsReadable, to_row}
use ysync.Server.Persistence.Prisma.Tables.{op_ids, insert_rows}
use ysync.Server.Persistence.Prisma.Represents.{
  Ascending, stored_row, keys_of, op_id-to_row, op_ids-stored_row, Ascending-append,
}

abbrev pub Seen : DocState → List Text → Type 0
Seen doc forgotten =
    (k : Text) → has_key k doc.seen_op_ids ≡ (has_key k (keys_of doc.ops) || has_key k forgotten)

-- No op has a key whose row a snapshot deleted.
abbrev pub Remembered : List Text → List Op → Type 0
Remembered forgotten = All (λ op. has_key (op_id_key_of op) forgotten ≡ false)

pub keys_of-append : (xs ys : List StoredOp) → keys_of (xs ++ ys) ≡ keys_of xs ++ keys_of ys
keys_of-append [] ys = refl
keys_of-append (x ∷ xs) ys = ap (λ (l : List Text). op_id_key_of x.op ∷ l) (keys_of-append xs ys)

stored_row-append :
    (xs ys : List StoredOp) → map stored_row (xs ++ ys) ≡ map stored_row xs ++ map stored_row ys
stored_row-append [] ys = refl
stored_row-append (x ∷ xs) ys =
    ap (λ (l : List OperationRow). stored_row x ∷ l) (stored_row-append xs ys)

Seen-store_op :
    (seq : ℕ) (op : Op) (doc : DocState) (forgotten : List Text)
    → Seen doc forgotten
    → Seen (store_op seq op doc) forgotten
unfolding store_op
Seen-store_op seq op doc forgotten s k =
    elim (Bool-cases (has_key (op_id_key_of op) doc.seen_op_ids)) [
      | inl t ↦ rw (t, if◌then◌else◌) (s k)
      | inr f ↦
          rw (f, if◌then◌else◌, has_key-append, keys_of-append, has_key-append, s k) (ground arith)
    ]

pub insert_rows_known :
    (r : OperationRow) (rows table : List OperationRow)
    → has_key r.op_id (op_ids table) ≡ true
    → insert_rows (r ∷ rows) table ≡ insert_rows rows table
unfolding insert_rows
insert_rows_known r rows table h = rw (h, if◌then◌else◌)

pub insert_rows_new :
    (r : OperationRow) (rows table : List OperationRow)
    → has_key r.op_id (op_ids table) ≡ false
    → insert_rows (r ∷ rows) table ≡ insert_rows rows (table ++ r ∷ [])
unfolding insert_rows
insert_rows_new r rows table h = rw (h, if◌then◌else◌)

store_op_known :
    (seq : ℕ) (op : Op) (doc : DocState)
    → has_key (op_id_key_of op) doc.seen_op_ids ≡ true
    → store_op seq op doc ≡ doc
unfolding store_op
store_op_known seq op doc h = rw (h, if◌then◌else◌)

ops-store_op_new :
    (seq : ℕ) (op : Op) (doc : DocState)
    → has_key (op_id_key_of op) doc.seen_op_ids ≡ false
    → (store_op seq op doc).ops ≡ doc.ops ++ row seq op ∷ []
unfolding store_op row
ops-store_op_new seq op doc h = rw (h, if◌then◌else◌)

-- The table has a row with the key exactly when the in-memory store saw it.
has_key-op_ids :
    (seq : ℕ) (op : Op) (doc : DocState) (forgotten : List Text)
    → Seen doc forgotten
    → has_key (op_id_key_of op) forgotten ≡ false
    → has_key (to_row seq op).op_id (op_ids (map stored_row doc.ops))
      ≡ has_key (op_id_key_of op) doc.seen_op_ids
has_key-op_ids seq op doc forgotten s r =
    rw (op_id-to_row seq op, op_ids-stored_row doc.ops) (ground (arith, s (op_id_key_of op), r))

-- The rows that `createMany` adds are the ops that the in-memory store adds.
pub insert_rows-store_ops :
    (seq : ℕ) (ops : List Op) (doc : DocState) (forgotten : List Text)
    → Seen doc forgotten
    → Remembered forgotten ops
    → insert_rows (map (to_row seq) ops) (map stored_row doc.ops)
      ≡ map stored_row (store_ops seq ops doc).ops
unfolding insert_rows store_ops row
insert_rows-store_ops seq [] doc forgotten s r = refl
insert_rows-store_ops seq (op ∷ ops) doc forgotten s r =
    let rest =
      insert_rows-store_ops seq ops (store_op seq op doc) forgotten
        (Seen-store_op seq op doc forgotten s) r.1 in
    let rows = map (to_row seq) ops in
    let table = map stored_row doc.ops in
    let known = has_key-op_ids seq op doc forgotten s r.0 in
    elim (Bool-cases (has_key (op_id_key_of op) doc.seen_op_ids)) [
      | inl t ↦
          insert_rows_known (to_row seq op) rows table (known ∙ t)
          ∙ ap (λ (d : DocState). insert_rows rows (map stored_row d.ops))
              (sym (store_op_known seq op doc t))
          ∙ rest
      | inr f ↦
          insert_rows_new (to_row seq op) rows table (known ∙ f)
          ∙ ap (insert_rows rows) (
              sym (
                ap (map stored_row) (ops-store_op_new seq op doc f)
                ∙ stored_row-append doc.ops (row seq op ∷ [])))
          ∙ rest
    ]

-- What `store_ops` leaves alone, and what it adds.
pub latest_seq-store_ops :
    (seq : ℕ) (ops : List Op) (doc : DocState)
    → ((store_ops seq ops doc).latest_seq ≡ doc.latest_seq)
      × ((store_ops seq ops doc).snapshot ≡ doc.snapshot)
unfolding store_ops store_op
latest_seq-store_ops seq [] doc = (refl, refl)
latest_seq-store_ops seq (op ∷ ops) doc =
    ground (arith, latest_seq-store_ops seq ops (store_op seq op doc))

pub Seen-store_ops :
    (seq : ℕ) (ops : List Op) (doc : DocState) (forgotten : List Text)
    → Seen doc forgotten
    → Seen (store_ops seq ops doc) forgotten
unfolding store_ops
Seen-store_ops seq [] doc forgotten s = s
Seen-store_ops seq (op ∷ ops) doc forgotten s =
    Seen-store_ops seq ops (store_op seq op doc) forgotten (Seen-store_op seq op doc forgotten s)

abbrev Readable : List StoredOp → Type 0
Readable = All (λ s. IsReadable s.op)

Readable-append : (xs ys : List StoredOp) → Readable xs → Readable ys → Readable (xs ++ ys)
Readable-append [] ys a b = b
Readable-append (x ∷ xs) ys a b = (a.0, Readable-append xs ys a.1 b)

pub Readable-store_ops :
    (seq : ℕ) (ops : List Op) (doc : DocState)
    → All IsReadable ops
    → Readable doc.ops
    → Readable (store_ops seq ops doc).ops
unfolding store_ops row
Readable-store_ops seq [] doc a r = r
Readable-store_ops seq (op ∷ ops) doc a r =
    Readable-store_ops seq ops (store_op seq op doc) a.1
      (elim (Bool-cases (has_key (op_id_key_of op) doc.seen_op_ids)) [
        | inl t ↦ subst (λ (d : DocState). Readable d.ops) (sym (store_op_known seq op doc t)) r
        | inr f ↦
            subst Readable (sym (ops-store_op_new seq op doc f))
              (Readable-append doc.ops (row seq op ∷ []) r (a.0, tt))
      ])

pub Ascending-store_ops :
    (low seq : ℕ) (ops : List Op) (doc : DocState)
    → low ≤ seq
    → Ascending low seq doc.ops
    → Ascending low seq (store_ops seq ops doc).ops
unfolding store_ops row
Ascending-store_ops low seq [] doc l a = a
Ascending-store_ops low seq (op ∷ ops) doc l a =
    Ascending-store_ops low seq ops (store_op seq op doc) l
      (elim (Bool-cases (has_key (op_id_key_of op) doc.seen_op_ids)) [
        | inl t ↦
            subst (λ (d : DocState). Ascending low seq d.ops) (sym (store_op_known seq op doc t)) a
        | inr f ↦
            let least : seq ≤ seq = omega arith in
            subst (Ascending low seq) (sym (ops-store_op_new seq op doc f))
              (Ascending-append low seq seq doc.ops (row seq op ∷ []) least a (least, least, tt) l)
      ])
