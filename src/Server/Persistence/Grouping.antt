-- ===== src/Server/Persistence/Grouping.antt =====
-- How `load` of apps/server/src/persistence/InMemoryPersistenceStore.ts groups the rows of batches.
use mathlib.Core.List.{append-nil, append_assoc}
use ysync.Common.{ℕ, ◌≤◌, ◌<◌, ◌≡◌, refl, sym, ap, ◌∙◌, ◌≢◌, List, [], ◌∷◌, ◌++◌, map, All, arith}
use ysync.Crdt.Op.{Op}
use ysync.Server.Persistence.{StoredOp, OpBatch, push_row, group_rows}
use ysync.Server.Room.CatchUp.{Increasing}

unfoldable pub row : ℕ → Op → StoredOp
row seq op = record { seq = seq; op = op }

unfoldable pub rows_of : List OpBatch → List StoredOp
rows_of [] = []
rows_of (b ∷ bs) = map (row b.seq) b.ops ++ rows_of bs

push_row_new :
    (n : ℕ) (op : Op) (acc : List OpBatch)
    → All (λ c. c.seq < n) acc
    → push_row acc (row n op) ≡ acc ++ record { seq = n; ops = op ∷ [] } ∷ []
unfolding push_row row
push_row_new n op [] h = refl
push_row_new n op (c ∷ []) h = ground arith
push_row_new n op (c ∷ d ∷ acc) h = ap (◌∷◌ c) (push_row_new n op (d ∷ acc) h.1)

push_row_same :
    (b : OpBatch) (op : Op) (acc : List OpBatch)
    → push_row (acc ++ b ∷ []) (row b.seq op)
      ≡ acc ++ record { seq = b.seq; ops = b.ops ++ op ∷ [] } ∷ []
unfolding push_row row
push_row_same b op [] = ground arith
push_row_same b op (c ∷ []) = ap (◌∷◌ c) (push_row_same b op [])
push_row_same b op (c ∷ d ∷ acc) = ap (◌∷◌ c) (push_row_same b op (d ∷ acc))

group_rows_same :
    (b : OpBatch) (ops : List Op) (rest : List StoredOp) (acc : List OpBatch)
    → group_rows (acc ++ b ∷ []) (map (row b.seq) ops ++ rest)
      ≡ group_rows (acc ++ record { seq = b.seq; ops = b.ops ++ ops } ∷ []) rest
unfolding group_rows
group_rows_same b [] rest acc = rw (append-nil b.ops)
group_rows_same b (op ∷ ops) rest acc =
    let more : OpBatch = record { seq = b.seq; ops = b.ops ++ op ∷ [] } in
    ap (λ (l : List OpBatch). group_rows l (map (row b.seq) ops ++ rest)) (push_row_same b op acc)
    ∙ group_rows_same more ops rest acc
    ∙ ap (λ (l : List Op). group_rows (acc ++ record { seq = b.seq; ops = l } ∷ []) rest)
        (append_assoc b.ops (op ∷ []) ops)

group_rows_batch :
    (b : OpBatch) (rest : List StoredOp) (acc : List OpBatch)
    → b.ops ≢ []
    → All (λ c. c.seq < b.seq) acc
    → group_rows acc (map (row b.seq) b.ops ++ rest) ≡ group_rows (acc ++ b ∷ []) rest
unfolding group_rows
group_rows_batch b rest acc ne a = go b.ops refl
  where
    go :
        (ops : List Op)
        → b.ops ≡ ops
        → group_rows acc (map (row b.seq) b.ops ++ rest) ≡ group_rows (acc ++ b ∷ []) rest
    go [] e = absurd (ne e)
    go (op ∷ ops) e =
        let one : OpBatch = record { seq = b.seq; ops = op ∷ [] } in
        ap (λ (l : List Op). group_rows acc (map (row b.seq) l ++ rest)) e
        ∙ ap (λ (l : List OpBatch). group_rows l (map (row b.seq) ops ++ rest))
            (push_row_new b.seq op acc a)
        ∙ group_rows_same one ops rest acc
        ∙ ap (λ (l : List Op). group_rows (acc ++ record { seq = b.seq; ops = l } ∷ []) rest)
            (sym e)

-- No batch is empty.
abbrev pub NonEmpty : List OpBatch → Type 0
NonEmpty [] = Unit {0}
NonEmpty (b ∷ bs) = (b.ops ≢ []) × NonEmpty bs

All-lt :
    (n m : ℕ) (acc : List OpBatch) → n < m → All (λ c. c.seq ≤ n) acc → All (λ c. c.seq < m) acc
All-lt n m [] h a = tt
All-lt n m (c ∷ acc) h a = (omega arith, All-lt n m acc h a.1)

All-snoc :
    (n m : ℕ) (b : OpBatch) (acc : List OpBatch)
    → n ≤ m
    → b.seq ≤ m
    → All (λ c. c.seq ≤ n) acc
    → All (λ c. c.seq ≤ m) (acc ++ b ∷ [])
All-snoc n m b [] h k a = (k, tt)
All-snoc n m b (c ∷ acc) h k a = (omega arith, All-snoc n m b acc h k a.1)

-- Grouping takes the rows of batches with growing numbers apart as they were stored.
pub group_rows-rows_of :
    (n : ℕ) (bs acc : List OpBatch)
    → All (λ c. c.seq ≤ n) acc
    → Increasing n bs
    → NonEmpty bs
    → group_rows acc (rows_of bs) ≡ acc ++ bs
unfolding rows_of group_rows
group_rows-rows_of n [] acc a i ne = sym (append-nil acc)
group_rows-rows_of n (b ∷ bs) acc a i ne =
    group_rows_batch b (rows_of bs) acc ne.0 (All-lt n b.seq acc i.0 a)
    ∙ group_rows-rows_of b.seq bs (acc ++ b ∷ [])
        (All-snoc n b.seq b acc (omega arith) (omega arith) a) i.1 ne.1
    ∙ append_assoc acc (b ∷ []) bs
