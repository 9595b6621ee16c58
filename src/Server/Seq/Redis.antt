-- ===== src/Server/Seq/Redis.antt =====
-- apps/server/src/seq/RedisSeqAllocator.ts over a Redis client that is a parameter. A call that
-- throws leaves `none`.
use mathlib.Core.List.{append_cancel_left, append_cancel_right}
use ysync.Common.{
  ℕ, suc, ◌≤◌, ◌≡◌, refl, sym, ap, ◌∙◌, ◌⊎◌, inl, inr, List, [], ◌∷◌, ◌++◌, Option, none, some,
  some_injective, Option-cases, if◌then◌else◌, arith,
}
use ysync.Common.Texts.{Text, text_eq, text_eq-injective}
use ysync.Crdt.OpId.{to_decimal, read_decimal}
use ysync.Crdt.OpId.Keys.{read_decimal-to_decimal}
use ysync.Server.Seq.Contract.{
  SeqAllocator, IsLawful, Taken, Takes, IsIncreasing, taken_for, taken_for-IsIncreasing,
}

-- The calls of ioredis that the class makes.
pub record Redis : Type 1 where
  pub State : Type 0
  pub incr : State → Text → State × Option ℕ
  pub get : State → Text → Option (Option Text)

-- Their documented behaviour: INCR counts from 0 where there is no key, and stores a decimal. One
-- whose reply is lost throws, or is sent again, although Redis counted: it is a call that throws, and
-- is followed by another where ioredis sends it again.
pub record IsRedis (R : Redis) : Type 0 where
  pub value : R.State → Text → ℕ
  pub incremented :
      (s s' : R.State) (key : Text) (n : ℕ)
      → R.incr s key ≡ (s', some n)
      → (n ≡ suc (value s key))
        × ((k : Text) → value s' k ≡ (if text_eq key k then n else value s k))
  pub failed :
      (s s' : R.State) (key : Text)
      → R.incr s key ≡ (s', none)
      → (k : Text) → value s k ≤ value s' k
  pub got :
      (s : R.State) (key : Text) (answer : Option Text)
      → R.get s key ≡ some answer
      → ((answer ≡ none) × (value s key ≡ 0)) ⊎ (answer ≡ some (to_decimal (value s key)))

abbrev seq_suffix : Text
seq_suffix = b':' ∷ b's' ∷ b'e' ∷ b'q' ∷ []

unfoldable pub seq_key : Text → Text
seq_key doc_id = b'd' ∷ b'o' ∷ b'c' ∷ b':' ∷ doc_id ++ seq_suffix

-- `value ? Number(value) : 0`
unfoldable pub number_of : Option Text → Option ℕ
unfolding read_decimal
number_of none = some 0
number_of (some []) = some 0
number_of (some (c ∷ s)) = read_decimal 0 (c ∷ s)

module _ (R : Redis) where
  unfoldable pub next : R.State → Text → R.State × Option ℕ
  unfolding seq_key
  next redis doc_id = R.incr redis (seq_key doc_id)

  unfoldable pub current : R.State → Text → Option ℕ
  unfolding seq_key number_of
  current redis doc_id = elim (R.get redis (seq_key doc_id)) [
    | none ↦ none
    | some value ↦ number_of value
  ]

  abbrev pub redis_allocator : SeqAllocator
  redis_allocator = record { State = R.State; next = next; current = current }

text_eq-seq_key : (a b : Text) → text_eq (seq_key a) (seq_key b) ≡ text_eq a b
unfolding seq_key
text_eq-seq_key = text_eq-injective seq_key (λ a b e.
    append_cancel_right a b seq_suffix
      (append_cancel_left (b'd' ∷ b'o' ∷ b'c' ∷ b':' ∷ []) (a ++ seq_suffix) (b ++ seq_suffix) e))

number_of_lem : (t : Text) → number_of (some t) ≡ read_decimal 0 t
unfolding number_of read_decimal
number_of_lem [] = refl
number_of_lem (c ∷ s) = refl

current_value :
    (R : Redis) (I : IsRedis R) (s : R.State) (doc_id : Text) (n : ℕ)
    → current R s doc_id ≡ some n
    → n ≡ I.value s (seq_key doc_id)
unfolding current number_of
current_value R I s doc_id n e = elim (Option-cases (R.get s (seq_key doc_id))) [
  | inl failed ↦
      let none_left : none ≡ some n = rw (failed, current) at e in ground (arith, none_left)
  | inr (answer, found) ↦
      let read : number_of answer ≡ some n = rw (found, current) at e in
      elim (I.got s (seq_key doc_id) answer found) [
        | inl (absent, zero) ↦
            some_injective n (I.value s (seq_key doc_id))
              (sym read ∙ ap number_of absent ∙ ap some (sym zero))
        | inr decimal ↦ some_injective n (I.value s (seq_key doc_id)) (
            sym read
            ∙ ap number_of decimal
            ∙ number_of_lem (to_decimal (I.value s (seq_key doc_id)))
            ∙ read_decimal-to_decimal (I.value s (seq_key doc_id)))
      ]
]

-- The Redis allocator keeps the contract.
pub redis_allocator-IsLawful : (R : Redis) → IsRedis R → IsLawful (redis_allocator R)
unfolding next current
redis_allocator-IsLawful R I = record {
  number = λ s doc_id. I.value s (seq_key doc_id);
  next_number = λ s s' doc_id n e.
      let (is, others) = I.incremented s s' (seq_key doc_id) n e in
      (
        is,
        λ other.
            others (seq_key other)
            ∙ ap (λ b. if b then n else I.value s (seq_key other)) (text_eq-seq_key doc_id other),
      );
  next_failed = λ s s' doc_id e other. I.failed s s' (seq_key doc_id) e (seq_key other);
  current_number = λ s doc_id n e. current_value R I s doc_id n e;
}

-- However `next` is called by the processes that share a Redis, for whatever documents, the numbers
-- that a document's calls get increase from above the number that its key held, so that no two calls
-- get the same one. Calls that throw may come between, and may leave gaps.
pub redis_numbers :
    (R : Redis) (I : IsRedis R) (doc_id : Text) (s s' : R.State) (ts : List Taken)
    → Takes (redis_allocator R) s ts s'
    → IsIncreasing (I.value s (seq_key doc_id)) (taken_for doc_id ts)
unfolding redis_allocator-IsLawful
redis_numbers R I = taken_for-IsIncreasing (redis_allocator R) (redis_allocator-IsLawful R I)
