-- ===== src/Server/Persistence/Prisma/Refines.antt =====
-- `appendOps`, `writeSnapshot` and `load` of
-- apps/server/src/persistence/PrismaPersistenceStore.ts against those of
-- apps/server/src/persistence/InMemoryPersistenceStore.ts.
use ysync.Common.{
  ℕ, suc, max, ◌≤◌, ◌<◌, ◌≡◌, refl, sym, ap, subst, ◌∙◌, inl, inr, Bool-cases, List, [], ◌∷◌, ◌++◌,
  map, Option, none, some, ◌||◌, All, ltb, if◌then◌else◌, arith,
}
use ysync.Common.Texts.{Text, text_eq_refl}
use ysync.Crdt.Op.{Op, op_id_key_of}
use ysync.Crdt.Snapshot.{RgaSnapshotNode}
use ysync.Server.Persistence.{
  DocState, StoredOp, StoredSnapshot, has_key, snapshot_seq, empty_doc, rows_after, store_ops,
  append_to_doc, snapshot_doc,
}
use ysync.Server.Persistence.Dedup.{has_key-append}
use ysync.Server.Persistence.Rows.{IsReadable, to_row}
use ysync.Server.Persistence.Prisma.{
  create_operations, upsert_document, create_snapshot, delete_operations,
}
use ysync.Server.Persistence.Prisma.Tables.{
  Table, insert_rows, rows_above, greatest, run_own, run_statement, run_statements,
}
use ysync.Server.Persistence.Prisma.Represents.{
  Represents, IsNewest, Ascending, keys_of, Ascending-rows_after, rows_above-stored_row,
  Ascending-raise,
}
use ysync.Server.Persistence.Prisma.Appends.{
  Remembered, insert_rows-store_ops, latest_seq-store_ops, Seen-store_ops, Readable-store_ops,
  Ascending-store_ops,
}

-- The two transactions, on the document that they are about.
abbrev pub appended : ℕ → List Op → Table → Table
appended seq ops T = record T {
  document = some (greatest T.document seq);
  operations = insert_rows (map (to_row seq) ops) T.operations;
}

abbrev pub snapshotted : ℕ → List RgaSnapshotNode → Table → Table
snapshotted at_seq state T = record T {
  snapshots = T.snapshots ++ record { at_seq = at_seq; state = state } ∷ [];
  operations = rows_above at_seq T.operations;
}

pub run_statements-append :
    (doc_id : Text) (seq : ℕ) (ops : List Op) (T : Table)
    → run_statements doc_id
        (upsert_document doc_id seq ∷ create_operations doc_id (map (to_row seq) ops) ∷ [])
        T
      ≡ appended seq ops T
unfolding run_statements run_statement run_own
run_statements-append doc_id seq ops T = rw (text_eq_refl doc_id, if◌then◌else◌)

pub run_statements-snapshot :
    (doc_id : Text) (at_seq : ℕ) (state : List RgaSnapshotNode) (T : Table)
    → run_statements doc_id
        (create_snapshot doc_id (record { at_seq = at_seq; state = state })
          ∷ delete_operations doc_id at_seq
          ∷ [])
        T
      ≡ snapshotted at_seq state T
unfolding run_statements run_statement run_own
run_statements-snapshot doc_id at_seq state T = rw (text_eq_refl doc_id, if◌then◌else◌)

greatest-Represents :
    (T : Table) (doc : DocState) (forgotten : List Text) (seq : ℕ)
    → Represents T doc forgotten
    → doc.latest_seq < seq
    → greatest T.document seq ≡ seq
unfolding greatest
greatest-Represents T doc forgotten seq r l = elim r.document [
  | inl e ↦ rw e (omega (arith, l))
  | inr (t, d) ↦ rw t refl
]

pub Represents-appended :
    (T : Table) (doc : DocState) (forgotten : List Text) (seq : ℕ) (ops : List Op)
    → Represents T doc forgotten
    → doc.latest_seq < seq
    → All IsReadable ops
    → Remembered forgotten ops
    → Represents (appended seq ops T) (append_to_doc seq ops doc) forgotten
unfolding append_to_doc
Represents-appended T doc forgotten seq ops r l a m =
    let raised : DocState = record doc { latest_seq = max doc.latest_seq seq } in
    let kept = latest_seq-store_ops seq ops raised in
    let top : max doc.latest_seq seq ≡ seq = omega (arith, l) in
    let low : suc (snapshot_seq doc.snapshot) ≤ seq = omega (arith, l, r.bounded) in
    let high : doc.latest_seq ≤ seq = omega (arith, l) in
    record {
      document = inl (ap some (greatest-Represents T doc forgotten seq r l ∙ sym (kept.0 ∙ top)));
      operations =
          ap (insert_rows (map (to_row seq) ops)) r.operations
          ∙ insert_rows-store_ops seq ops raised forgotten r.seen m;
      snapshots = rw kept.1 r.snapshots;
      readable = Readable-store_ops seq ops raised a r.readable;
      ascending = rw kept.1 (
          subst (λ n. Ascending (suc (snapshot_seq doc.snapshot)) n (store_ops seq ops raised).ops)
            (sym (kept.0 ∙ top))
            (Ascending-store_ops (suc (snapshot_seq doc.snapshot)) seq ops raised low (
              Ascending-raise (suc (snapshot_seq doc.snapshot)) doc.latest_seq seq doc.ops high
                r.ascending)));
      bounded = rw (kept.1, kept.0) (omega (arith, l, r.bounded));
      seen = Seen-store_ops seq ops raised forgotten r.seen;
    }

document_there :
    (T : Table) (doc : DocState) (forgotten : List Text)
    → Represents T doc forgotten
    → 0 < doc.latest_seq
    → T.document ≡ some doc.latest_seq
unfolding empty_doc
document_there T doc forgotten r l = elim r.document [
  | inl e ↦ e
  | inr (t, d) ↦
      let zero : doc.latest_seq ≡ 0 = ap (λ (x : DocState). x.latest_seq) d in
      absurd (omega (arith, l, zero))
]

-- The keys whose rows a snapshot deletes.
abbrev pub keys_upto : ℕ → List StoredOp → List Text
keys_upto at_seq [] = []
keys_upto at_seq (s ∷ ss) =
    let rest = keys_upto at_seq ss in if ltb at_seq s.seq then rest else op_id_key_of s.op ∷ rest

has_key-keys_upto :
    (k : Text) (at_seq : ℕ) (ss : List StoredOp)
    → has_key k (keys_of ss)
      ≡ (has_key k (keys_of (rows_after at_seq ss)) || has_key k (keys_upto at_seq ss))
unfolding has_key rows_after
has_key-keys_upto k at_seq [] = refl
has_key-keys_upto k at_seq (s ∷ ss) = ground (arith, has_key-keys_upto k at_seq ss)

IsNewest-snapshotted :
    (s : StoredSnapshot) (old : Option StoredSnapshot) (snapshots : List StoredSnapshot)
    → snapshot_seq old < s.at_seq
    → IsNewest old snapshots
    → All (λ (t : StoredSnapshot). t.at_seq < s.at_seq) snapshots
unfolding snapshot_seq
IsNewest-snapshotted s none snapshots l n = rw n tt
IsNewest-snapshotted s (some o) snapshots l (older, e, lower) = rw e (all_below older lower)
  where
    all_below :
        (ts : List StoredSnapshot)
        → All (λ (t : StoredSnapshot). t.at_seq < o.at_seq) ts
        → All (λ (t : StoredSnapshot). t.at_seq < s.at_seq) (ts ++ o ∷ [])
    all_below [] a = (l, tt)
    all_below (t ∷ ts) a = (omega (arith, a.0), all_below ts a.1)

Readable-rows_after :
    (at_seq : ℕ) (ss : List StoredOp)
    → All (λ (s : StoredOp). IsReadable s.op) ss
    → All (λ (s : StoredOp). IsReadable s.op) (rows_after at_seq ss)
unfolding rows_after
Readable-rows_after at_seq [] a = tt
Readable-rows_after at_seq (s ∷ ss) a = elim (Bool-cases (ltb at_seq s.seq)) [
  | inl t ↦ rw (t, if◌then◌else◌) (a.0, Readable-rows_after at_seq ss a.1)
  | inr f ↦ rw (f, if◌then◌else◌) (Readable-rows_after at_seq ss a.1)
]

pub Represents-snapshotted :
    (T : Table) (doc : DocState) (forgotten : List Text) (at_seq : ℕ) (state : List RgaSnapshotNode)
    → Represents T doc forgotten
    → snapshot_seq doc.snapshot < at_seq
    → at_seq ≤ doc.latest_seq
    → Represents
        (snapshotted at_seq state T)
        (snapshot_doc at_seq state doc)
        (keys_upto at_seq doc.ops ++ forgotten)
unfolding snapshot_doc snapshot_seq
Represents-snapshotted T doc forgotten at_seq state r l h =
    let top : max doc.latest_seq at_seq ≡ doc.latest_seq = omega (arith, h) in
    let low : max (suc (snapshot_seq doc.snapshot)) (suc at_seq) ≡ suc at_seq = omega (arith, l) in
    record {
      document = inl (document_there T doc forgotten r (omega (arith, l, h)) ∙ ap some (sym top));
      operations = ap (rows_above at_seq) r.operations ∙ rows_above-stored_row at_seq doc.ops;
      snapshots = (
        T.snapshots,
        refl,
        IsNewest-snapshotted (record { at_seq = at_seq; state = state }) doc.snapshot T.snapshots l
            r.snapshots,
      );
      readable = Readable-rows_after at_seq doc.ops r.readable;
      ascending = rw top (
          subst (λ n. Ascending n doc.latest_seq (rows_after at_seq doc.ops)) low
            (Ascending-rows_after (suc (snapshot_seq doc.snapshot)) doc.latest_seq at_seq doc.ops
              r.ascending));
      bounded = omega (arith, h);
      seen = λ k.
          r.seen k
          ∙ ground (
            arith,
            has_key-keys_upto k at_seq doc.ops,
            has_key-append k (keys_upto at_seq doc.ops) forgotten,
          );
    }
