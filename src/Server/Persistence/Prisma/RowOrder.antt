-- ===== src/Server/Persistence/Prisma/RowOrder.antt =====
-- What two inserts of rows of `Operation` leave in either order, under the queries of
-- apps/server/src/persistence/PrismaPersistenceStore.ts.
use mathlib.Core.List.{append-nil, append_assoc}
use ysync.Common.{
  ℕ, ◌≤◌, ◌<◌, ◌≡◌, ◌≢◌, refl, sym, ap, ◌∙◌, ◌⊎◌, inl, inr, true, false, Bool-cases, List, [], ◌∷◌,
  ◌++◌, All, ltb, if◌then◌else◌, arith,
}
use ysync.Common.Texts.{Text, text_eq_refl}
use ysync.Server.Persistence.{has_key}
use ysync.Server.Persistence.Dedup.{has_key-append}
use ysync.Server.Persistence.Rows.{OperationRow}
use ysync.Server.Persistence.Prisma.Tables.{
  op_ids, insert_rows, rows_above, insert_sorted, order_by_seq,
}

-- The rows of a batch that are new.
new_rows : List OperationRow → List Text → List OperationRow
new_rows [] seen = []
new_rows (r ∷ rows) seen =
    let rest = new_rows rows (seen ++ r.op_id ∷ []) in
    let others = new_rows rows seen in if has_key r.op_id seen then others else r ∷ rest

pub op_ids-append : (xs ys : List OperationRow) → op_ids (xs ++ ys) ≡ op_ids xs ++ op_ids ys
op_ids-append [] ys = refl
op_ids-append (x ∷ xs) ys = ap (λ (l : List Text). x.op_id ∷ l) (op_ids-append xs ys)

insert_rows_lem :
    (rows table : List OperationRow)
    → insert_rows rows table ≡ table ++ new_rows rows (op_ids table)
unfolding insert_rows new_rows
insert_rows_lem [] table = sym (append-nil table)
insert_rows_lem (r ∷ rows) table = elim (Bool-cases (has_key r.op_id (op_ids table))) [
  | inl t ↦ rw (t, if◌then◌else◌) (insert_rows_lem rows table)
  | inr f ↦
      rw (f, if◌then◌else◌)
        (insert_rows_lem rows (table ++ r ∷ [])
          ∙ append_assoc table (r ∷ []) (new_rows rows (op_ids (table ++ r ∷ [])))
          ∙ ap (λ (l : List Text). table ++ r ∷ new_rows rows l) (op_ids-append table (r ∷ [])))
]

-- Only the keys of the batch matter among those seen.
new_rows_same :
    (rows : List OperationRow) (seen seen' : List Text)
    → ((k : Text) → has_key k (op_ids rows) ≡ true → has_key k seen ≡ has_key k seen')
    → new_rows rows seen ≡ new_rows rows seen'
unfolding new_rows has_key
new_rows_same [] seen seen' h = refl
new_rows_same (r ∷ rows) seen seen' h =
    let here = h r.op_id (ground (arith, text_eq_refl r.op_id)) in
    let others = new_rows_same rows seen seen' (λ k e. h k (ground (arith, e))) in
    let rest =
      new_rows_same rows (seen ++ r.op_id ∷ []) (seen' ++ r.op_id ∷ [])
        (λ k e. rw (has_key-append, has_key-append, h k (ground (arith, e))) refl) in
    ground (arith, here, others, rest)

abbrev pub Disjoint : List OperationRow → List OperationRow → Type 0
Disjoint xs ys = (k : Text) → has_key k (op_ids xs) ≡ true → has_key k (op_ids ys) ≡ false

has_key-new_rows :
    (k : Text) (rows : List OperationRow) (seen : List Text)
    → has_key k (op_ids rows) ≡ false
    → has_key k (op_ids (new_rows rows seen)) ≡ false
unfolding new_rows has_key
has_key-new_rows k [] seen h = refl
has_key-new_rows k (r ∷ rows) seen h =
    ground (arith, h, has_key-new_rows k rows seen, has_key-new_rows k rows (seen ++ r.op_id ∷ []))

insert_rows_both :
    (xs ys table : List OperationRow)
    → Disjoint ys xs
    → insert_rows ys (insert_rows xs table)
      ≡ table ++ new_rows xs (op_ids table) ++ new_rows ys (op_ids table)
insert_rows_both xs ys table d =
    insert_rows_lem ys (insert_rows xs table)
    ∙ ap (λ (l : List OperationRow). l ++ new_rows ys (op_ids l)) (insert_rows_lem xs table)
    ∙ ap (λ (l : List OperationRow). table ++ new_rows xs (op_ids table) ++ l)
        (new_rows_same ys (op_ids (table ++ new_rows xs (op_ids table))) (op_ids table) (λ k e.
          let no_x = has_key-new_rows k xs (op_ids table) (d k e) in
          rw (op_ids-append, has_key-append) (ground (arith, no_x))))

rows_above-append :
    (at_seq : ℕ) (xs ys : List OperationRow)
    → rows_above at_seq (xs ++ ys) ≡ rows_above at_seq xs ++ rows_above at_seq ys
unfolding rows_above
rows_above-append at_seq [] ys = refl
rows_above-append at_seq (x ∷ xs) ys = ground (arith, rows_above-append at_seq xs ys)

-- All the rows of one batch.
abbrev pub OfSeq : ℕ → List OperationRow → Type 0
OfSeq n = All (λ r. r.seq ≡ n)

OfSeq-rows_above :
    (n at_seq : ℕ) (rows : List OperationRow) → OfSeq n rows → OfSeq n (rows_above at_seq rows)
unfolding rows_above
OfSeq-rows_above n at_seq [] h = tt
OfSeq-rows_above n at_seq (r ∷ rows) h = elim (Bool-cases (ltb at_seq r.seq)) [
  | inl t ↦ rw (t, if◌then◌else◌) (h.0, OfSeq-rows_above n at_seq rows h.1)
  | inr f ↦ rw (f, if◌then◌else◌) (OfSeq-rows_above n at_seq rows h.1)
]

OfSeq-new_rows :
    (n : ℕ) (rows : List OperationRow) (seen : List Text)
    → OfSeq n rows
    → OfSeq n (new_rows rows seen)
unfolding new_rows
OfSeq-new_rows n [] seen h = tt
OfSeq-new_rows n (r ∷ rows) seen h = elim (Bool-cases (has_key r.op_id seen)) [
  | inl t ↦ rw (t, if◌then◌else◌) (OfSeq-new_rows n rows seen h.1)
  | inr f ↦ rw (f, if◌then◌else◌) (h.0, OfSeq-new_rows n rows (seen ++ r.op_id ∷ []) h.1)
]

insert_sorted-OfSeq :
    (n : ℕ) (r : OperationRow) (rows : List OperationRow)
    → r.seq ≤ n
    → OfSeq n rows
    → insert_sorted r rows ≡ r ∷ rows
unfolding insert_sorted
insert_sorted-OfSeq n r [] l h = refl
insert_sorted-OfSeq n r (s ∷ rows) l h = ground (arith, l, h.0)

insert_sorted_past :
    (n : ℕ) (r : OperationRow) (xs ys : List OperationRow)
    → n < r.seq
    → OfSeq n xs
    → insert_sorted r (xs ++ ys) ≡ xs ++ insert_sorted r ys
unfolding insert_sorted
insert_sorted_past n r [] ys l h = refl
insert_sorted_past n r (x ∷ xs) ys l h = ground (arith, l, h.0, insert_sorted_past n r xs ys l h.1)

order_by_seq-OfSeq : (n : ℕ) (rows : List OperationRow) → OfSeq n rows → order_by_seq rows ≡ rows
unfolding order_by_seq
order_by_seq-OfSeq n [] h = refl
order_by_seq-OfSeq n (r ∷ rows) h =
    ap (insert_sorted r) (order_by_seq-OfSeq n rows h.1)
    ∙ insert_sorted-OfSeq n r rows (omega (arith, h.0)) h.1

order_by_seq_ordered :
    (n m : ℕ) (xs ys : List OperationRow)
    → n < m
    → OfSeq n xs
    → OfSeq m ys
    → order_by_seq (xs ++ ys) ≡ xs ++ ys
unfolding order_by_seq insert_sorted
order_by_seq_ordered n m [] ys l hx hy = order_by_seq-OfSeq m ys hy
order_by_seq_ordered n m (x ∷ []) ys l hx hy =
    ap (insert_sorted x) (order_by_seq-OfSeq m ys hy)
    ∙ insert_sorted-OfSeq m x ys (omega (arith, hx.0, l)) hy
order_by_seq_ordered n m (x ∷ z ∷ xs) ys l hx hy =
    ap (insert_sorted x) (order_by_seq_ordered n m (z ∷ xs) ys l hx.1 hy)
    ∙ ground (arith, hx.0, hx.1.0)

order_by_seq_swapped :
    (n m : ℕ) (xs ys : List OperationRow)
    → n < m
    → OfSeq n xs
    → OfSeq m ys
    → order_by_seq (ys ++ xs) ≡ xs ++ ys
unfolding order_by_seq
order_by_seq_swapped n m xs [] l hx hy = order_by_seq-OfSeq n xs hx ∙ sym (append-nil xs)
order_by_seq_swapped n m xs (y ∷ ys) l hx hy =
    ap (insert_sorted y) (order_by_seq_swapped n m xs ys l hx hy.1)
    ∙ insert_sorted_past n y xs ys (omega (arith, l, hy.0)) hx
    ∙ ap (xs ++◌) (insert_sorted-OfSeq m y ys (omega (arith, hy.0)) hy.1)

order_by_seq_same_tail :
    (xs ys zs : List OperationRow)
    → order_by_seq ys ≡ order_by_seq zs
    → order_by_seq (xs ++ ys) ≡ order_by_seq (xs ++ zs)
unfolding order_by_seq
order_by_seq_same_tail [] ys zs e = e
order_by_seq_same_tail (x ∷ xs) ys zs e = ap (insert_sorted x) (order_by_seq_same_tail xs ys zs e)

order_by_seq_comm :
    (n m : ℕ) (xs ys : List OperationRow)
    → n ≢ m
    → OfSeq n xs
    → OfSeq m ys
    → order_by_seq (xs ++ ys) ≡ order_by_seq (ys ++ xs)
order_by_seq_comm n m xs ys ne hx hy =
    let which : (n < m) ⊎ (m < n) = omega (arith, ne) in
    elim which [
      | inl l ↦
          order_by_seq_ordered n m xs ys l hx hy ∙ sym (order_by_seq_swapped n m xs ys l hx hy)
      | inr l ↦
          order_by_seq_swapped m n ys xs l hy hx ∙ sym (order_by_seq_ordered m n ys xs l hy hx)
    ]

-- What `findMany` selects does not depend on the order of two inserts.
pub order_by_seq-insert_rows :
    (n m at_seq : ℕ) (xs ys table : List OperationRow)
    → n ≢ m
    → OfSeq n xs
    → OfSeq m ys
    → Disjoint xs ys
    → Disjoint ys xs
    → order_by_seq (rows_above at_seq (insert_rows ys (insert_rows xs table)))
      ≡ order_by_seq (rows_above at_seq (insert_rows xs (insert_rows ys table)))
order_by_seq-insert_rows n m at_seq xs ys table ne hx hy dxy dyx =
    let new_xs = new_rows xs (op_ids table) in
    let new_ys = new_rows ys (op_ids table) in
    let above = rows_above at_seq in
    let split : (ps qs : List OperationRow)
        → above (table ++ ps ++ qs) ≡ above table ++ (above ps ++ above qs) =
      (λ ps qs.
        rows_above-append at_seq (table ++ ps) qs
        ∙ ap (◌++ above qs) (rows_above-append at_seq table ps)
        ∙ append_assoc (above table) (above ps) (above qs)) in
    ap order_by_seq (ap above (insert_rows_both xs ys table dyx) ∙ split new_xs new_ys)
    ∙ order_by_seq_same_tail (above table) (above new_xs ++ above new_ys)
        (above new_ys ++ above new_xs)
        (order_by_seq_comm n m (above new_xs) (above new_ys) ne
          (OfSeq-rows_above n at_seq new_xs (OfSeq-new_rows n xs (op_ids table) hx))
          (OfSeq-rows_above m at_seq new_ys (OfSeq-new_rows m ys (op_ids table) hy)))
    ∙ sym (ap order_by_seq (ap above (insert_rows_both ys xs table dxy) ∙ split new_ys new_xs))
