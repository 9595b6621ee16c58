-- ===== src/Crdt/OpId/Keys.antt =====
-- The string form of operation ids in packages/crdt/src/opId.ts, as a map key and as a text to read
-- back.
use mathlib.Core.List.{append-nil}
use ysync.Common.{
  ℕ, zero, suc, ◌+◌, ◌-◌, ◌*◌, ◌/◌, ◌%◌, ◌<◌, ◌≡◌, refl, sym, ◌∙◌, ap, ◌≢◌, ◌↔◌, inl, inr, Bool,
  true, false, ◌||◌, [], ◌∷◌, ◌++◌, Option, none, some, ◌==◌, ltb, if◌then◌else◌, Bool-cases,
  length, arith,
}
use ysync.Common.Texts.{Text}
use ysync.Crdt.OpId.{
  OpId, digits_below, to_decimal, read_decimal, op_id_to_string, split_last_at, with_counter,
  op_id_from_string,
}

read_decimal-snoc :
    (acc d v : ℕ) (s : Text)
    → d < 10
    → read_decimal acc s ≡ some v
    → read_decimal acc (s ++ (48 + d) ∷ []) ≡ some (v * 10 + d)
unfolding read_decimal
read_decimal-snoc acc d v [] h e = ground arith
read_decimal-snoc acc d v (c ∷ s) h e =
    ground (arith, read_decimal-snoc (acc * 10 + (c - 48)) d v s h)

read_decimal-digits_below : (f n : ℕ) → n < f → read_decimal 0 (digits_below f n) ≡ some n
unfolding digits_below read_decimal
read_decimal-digits_below zero n h = absurd (omega arith)
read_decimal-digits_below (suc f) n h = elim (Bool-cases (ltb n 10)) [
  | inl small ↦ rw small (ground arith)
  | inr big ↦ rw big (
      read_decimal-snoc 0 (n % 10) (n / 10) (digits_below f (n / 10)) (omega arith)
        (read_decimal-digits_below f (n / 10) (ground arith))
      ∙ ap some (omega arith))
]

pub read_decimal-to_decimal : (n : ℕ) → read_decimal 0 (to_decimal n) ≡ some n
unfolding to_decimal
read_decimal-to_decimal n = read_decimal-digits_below (suc n) n (omega arith)

-- A text without "@".
unfoldable pub has_at : Text → Bool
has_at [] = false
has_at (c ∷ s) = c == b'@' || has_at s

has_at-append : (s t : Text) → has_at s ≡ false → has_at t ≡ false → has_at (s ++ t) ≡ false
unfolding has_at
has_at-append [] t h k = k
has_at-append (c ∷ s) t h k = ground (arith, has_at-append s t)

has_at-digits_below : (f n : ℕ) → has_at (digits_below f n) ≡ false
unfolding digits_below has_at
has_at-digits_below zero n = refl
has_at-digits_below (suc f) n = ground (
  arith,
  has_at-append (digits_below f (n / 10)) ((48 + n % 10) ∷ []),
  has_at-digits_below f (n / 10),
)

has_at-to_decimal : (n : ℕ) → has_at (to_decimal n) ≡ false
unfolding to_decimal
has_at-to_decimal n = has_at-digits_below (suc n) n

-- The text before and after the first "@".
before_at : Text → Text
before_at [] = []
before_at (c ∷ s) = if c == b'@' then [] else c ∷ before_at s

after_at : Text → Text
after_at [] = []
after_at (c ∷ s) = if c == b'@' then s else after_at s

before_at-append : (s t : Text) → has_at s ≡ false → before_at (s ++ b'@' ∷ t) ≡ s
unfolding before_at has_at
before_at-append [] t h = refl
before_at-append (c ∷ s) t h = ground (arith, before_at-append s t)

after_at-append : (s t : Text) → has_at s ≡ false → after_at (s ++ b'@' ∷ t) ≡ t
unfolding after_at has_at
after_at-append [] t h = refl
after_at-append (c ∷ s) t h = ground (arith, after_at-append s t)

to_decimal_injective : (m n : ℕ) → to_decimal m ≡ to_decimal n → m ≡ n
to_decimal_injective m n e =
    ground (arith, ap (read_decimal 0) e, read_decimal-to_decimal m, read_decimal-to_decimal n)

-- Two ids with one key are one id, whatever the replica ids hold.
pub op_id_to_string_injective : (a b : OpId) → op_id_to_string a ≡ op_id_to_string b → a ≡ b
unfolding op_id_to_string
op_id_to_string_injective a b e =
    let counters = to_decimal_injective a.counter b.counter (
      sym (before_at-append (to_decimal a.counter) a.replica_id (has_at-to_decimal a.counter))
      ∙ ap before_at e
      ∙ before_at-append (to_decimal b.counter) b.replica_id (has_at-to_decimal b.counter)) in
    let replicas : a.replica_id ≡ b.replica_id =
      sym (after_at-append (to_decimal a.counter) a.replica_id (has_at-to_decimal a.counter))
      ∙ ap after_at e
      ∙ after_at-append (to_decimal b.counter) b.replica_id (has_at-to_decimal b.counter) in
    λ i. record { counter = counters i; replica_id = replicas i }

split_last_at-none : (s : Text) → has_at s ≡ false → split_last_at s ≡ none
unfolding split_last_at has_at
split_last_at-none [] h = refl
split_last_at-none (c ∷ s) h = ground (arith, split_last_at-none s)

split_last_at-some :
    (s : Text)
    → has_at s ≡ true
    → (b : Text) × (a : Text) × (split_last_at s ≡ some (b, a)) × (length a < length s)
unfolding split_last_at has_at
split_last_at-some [] h = cc
split_last_at-some (c ∷ s) h = elim (Bool-cases (has_at s)) [
  | inl more ↦ let (b, a, e, l) = split_last_at-some s more in (c ∷ b, a, rw e, omega arith)
  | inr last ↦ ([], s, rw (split_last_at-none s last) (ground arith), omega arith)
]

split_last_at-append :
    (s t b a : Text) → split_last_at t ≡ some (b, a) → split_last_at (s ++ t) ≡ some (s ++ b, a)
unfolding split_last_at
split_last_at-append [] t b a e = e
split_last_at-append (c ∷ s) t b a e = rw (split_last_at-append s t b a e)

reads_back :
    (id : OpId) → has_at id.replica_id ≡ false → op_id_from_string (op_id_to_string id) ≡ some id
unfolding op_id_from_string op_id_to_string split_last_at
reads_back id h =
    let front = to_decimal id.counter in
    let tail = b'@' ∷ id.replica_id in
    let split =
      split_last_at-append front tail [] id.replica_id (rw (split_last_at-none id.replica_id h)) in
    rw (split, op_id_from_string, append-nil front, read_decimal-to_decimal id.counter)

with_counter-replica_id :
    (n : Option ℕ) (r : Text) (id : OpId) → with_counter n r ≡ some id → r ≡ id.replica_id
unfolding with_counter
with_counter-replica_id none r id e = cc
with_counter-replica_id (some n) r id e = ground arith

loses_id :
    (id : OpId) → has_at id.replica_id ≡ true → op_id_from_string (op_id_to_string id) ≢ some id
unfolding op_id_from_string op_id_to_string split_last_at
loses_id id h e =
    let front = to_decimal id.counter in
    let tail = b'@' ∷ id.replica_id in
    let (b, a, last, short) = split_last_at-some id.replica_id h in
    let split = split_last_at-append front tail (b'@' ∷ b) a (rw last) in
    let found : with_counter (read_decimal 0 (front ++ b'@' ∷ b)) a ≡ some id =
      rw (split, op_id_from_string) at e in
    omega (arith, ap length (with_counter-replica_id _ a id found))

-- An id can be read back from its string exactly when its replica id holds no "@".
pub op_id_from_string-op_id_to_string :
    (id : OpId)
    → (op_id_from_string (op_id_to_string id) ≡ some id) ↔ (has_at id.replica_id ≡ false)
op_id_from_string-op_id_to_string id = (
  λ e. elim (Bool-cases (has_at id.replica_id)) [
    | inl at ↦ absurd (loses_id id at e)
    | inr clean ↦ clean
  ],
  reads_back id,
)
