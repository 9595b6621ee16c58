-- ===== src/Crdt/OpId.antt =====
-- packages/crdt/src/opId.ts: operation ids, their order and their string form.
pub mod Keys
pub mod Order
use ysync.Common.{
  ℕ, zero, suc, ◌+◌, ◌-◌, ◌*◌, ◌/◌, ◌%◌, Bool, true, false, ◌&&◌, List, [], ◌∷◌, ◌++◌, Option, none,
  some, ltb, leb, ◌==◌, if◌then◌else◌,
}
use ysync.Common.Texts.{Text, text_eq, text_lt}

pub record OpId : Type 0 where
  pub counter : ℕ
  pub replica_id : Text

-- A JavaScript number as `compareOpId` returns it: `negsuc n` is -(n + 1).
pub data ℤ : Type 0 where
  pos : ℕ → ℤ
  negsuc : ℕ → ℤ

-- `a - b`
unfoldable pub sub_ℕ : ℕ → ℕ → ℤ
sub_ℕ a b = if leb b a then pos (a - b) else negsuc (b - a - 1)

-- `n > 0`
unfoldable pub is_positive : ℤ → Bool
is_positive (pos n) = ltb 0 n
is_positive (negsuc n) = false

unfoldable pub compare_op_id : OpId → OpId → ℤ
unfolding sub_ℕ text_eq text_lt
compare_op_id a b =
    if a.counter == b.counter
    then (if text_eq a.replica_id b.replica_id
        then pos 0
        else if text_lt a.replica_id b.replica_id
        then negsuc 0
        else pos 1)
    else sub_ℕ a.counter b.counter

-- `n >= 0`
unfoldable pub is_nonneg : ℤ → Bool
is_nonneg (pos n) = true
is_nonneg (negsuc n) = false

-- `compareOpId(a, b) > 0`
unfoldable pub newer : OpId → OpId → Bool
unfolding compare_op_id is_positive
newer a b = is_positive (compare_op_id a b)

-- `compareOpId(a, b) >= 0`
unfoldable pub at_least : OpId → OpId → Bool
unfolding compare_op_id is_nonneg
at_least a b = is_nonneg (compare_op_id a b)

-- The comparison of two ids that are there.
unfoldable pub same_op_id : OpId → OpId → Bool
unfolding text_eq
same_op_id a b = a.counter == b.counter && text_eq a.replica_id b.replica_id

unfoldable pub op_id_equals : Option OpId → Option OpId → Bool
unfolding same_op_id
op_id_equals none none = true
op_id_equals none (some b) = false
op_id_equals (some a) none = false
op_id_equals (some a) (some b) = same_op_id a b

-- The decimal digits of a number, for fuel above it.
unfoldable pub digits_below : ℕ → ℕ → Text
digits_below zero n = []
digits_below (suc fuel) n =
    let front = digits_below fuel (n / 10) in
    if ltb n 10 then (b'0' + n) ∷ [] else front ++ (b'0' + n % 10) ∷ []

unfoldable pub to_decimal : ℕ → Text
unfolding digits_below
to_decimal n = digits_below (suc n) n

unfoldable pub op_id_to_string : OpId → Text
unfolding to_decimal
op_id_to_string id = to_decimal id.counter ++ b'@' ∷ id.replica_id

-- `Number(s)` on decimal digits; `none` stands for NaN. `Number("")` is 0.
unfoldable pub read_decimal : ℕ → Text → Option ℕ
read_decimal acc [] = some acc
read_decimal acc (c ∷ s) =
    let rest = read_decimal (acc * 10 + (c - b'0')) s in
    if leb b'0' c && leb c b'9' then rest else none

-- `slice(0, at)` and `slice(at + 1)` for the last index `at` of "@", if there is one.
unfoldable pub split_last_at : Text → Option (Text × Text)
split_last_at [] = none
split_last_at (c ∷ s) = elim (split_last_at s) [
  | some (before, after) ↦ some (c ∷ before, after)
  | none ↦ if c == b'@' then some ([], s) else none
]

-- `slice(0, -1)`
unfoldable pub drop_last : Text → Text
drop_last [] = []
drop_last (c ∷ []) = []
drop_last (c ∷ d ∷ s) = c ∷ drop_last (d ∷ s)

-- The id with a counter that was read.
unfoldable pub with_counter : Option ℕ → Text → Option OpId
with_counter none r = none
with_counter (some n) r = some (record { counter = n; replica_id = r })

-- Where "@" is missing, `lastIndexOf` is -1. `none` stands for an id whose counter is NaN.
unfoldable pub op_id_from_string : Text → Option OpId
unfolding read_decimal split_last_at drop_last with_counter
op_id_from_string s = elim (split_last_at s) [
  | some (before, after) ↦ with_counter (read_decimal 0 before) after
  | none ↦ with_counter (read_decimal 0 (drop_last s)) s
]
