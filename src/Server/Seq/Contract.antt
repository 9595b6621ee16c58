-- ===== src/Server/Seq/Contract.antt =====
-- apps/server/src/seq/SeqAllocator.ts: the interface that both allocators implement, and what its
-- clients get from it.
use ysync.Common.{
  ℕ, suc, ◌≤◌, ◌<◌, ◌≡◌, refl, ap, ◌∙◌, inl, inr, Bool-cases, List, [], ◌∷◌, Option, none, some,
  if◌then◌else◌, arith,
}
use ysync.Common.Texts.{Text, text_eq, eq_of_text_eq}

-- A call that throws leaves `none`, and a state all the same.
pub record SeqAllocator : Type 1 where
  pub State : Type 0
  pub next : State → Text → State × Option ℕ
  pub current : State → Text → Option ℕ

-- A call of `next` that throws may have counted up, even more than once.
pub record IsLawful (S : SeqAllocator) : Type 0 where
  pub number : S.State → Text → ℕ
  pub next_number :
      (s s' : S.State) (doc_id : Text) (n : ℕ)
      → S.next s doc_id ≡ (s', some n)
      → (n ≡ suc (number s doc_id))
        × ((other : Text) → number s' other ≡ (if text_eq doc_id other then n else number s other))
  pub next_failed :
      (s s' : S.State) (doc_id : Text)
      → S.next s doc_id ≡ (s', none)
      → (other : Text) → number s other ≤ number s' other
  pub current_number :
      (s : S.State) (doc_id : Text) (n : ℕ) → S.current s doc_id ≡ some n → n ≡ number s doc_id

-- One call, of any process.
pub record Taken : Type 0 where
  pub doc_id : Text
  pub number : ℕ

-- The numbers that were taken for one document, in order.
abbrev pub taken_for : Text → List Taken → List ℕ
taken_for doc_id [] = []
taken_for doc_id (t ∷ ts) =
    let rest = taken_for doc_id ts in if text_eq t.doc_id doc_id then t.number ∷ rest else rest

-- Each number is above the one before, the first above `n`.
abbrev pub IsIncreasing : ℕ → List ℕ → Type 0
IsIncreasing n [] = Unit {0}
IsIncreasing n (m ∷ ms) = (n < m) × IsIncreasing m ms

IsIncreasing-below : (k n : ℕ) (ms : List ℕ) → k ≤ n → IsIncreasing n ms → IsIncreasing k ms
IsIncreasing-below k n [] l a = tt
IsIncreasing-below k n (m ∷ ms) l a = (omega (arith, l, a.0), a.1)

module _ (S : SeqAllocator) where
  -- Calls of `next` one after another, by any processes and for any documents, those that throw
  -- among them.
  pub data Takes : S.State → List Taken → S.State → Type 0 where
    done : {s : S.State} → Takes s [] s
    take :
        {s s' s'' : S.State} {doc_id : Text} {n : ℕ} {ts : List Taken}
        → S.next s doc_id ≡ (s', some n)
        → Takes s' ts s''
        → Takes s (record { doc_id = doc_id; number = n } ∷ ts) s''
    fail :
        {s s' s'' : S.State} {doc_id : Text} {ts : List Taken}
        → S.next s doc_id ≡ (s', none)
        → Takes s' ts s''
        → Takes s ts s''

  module _ (L : IsLawful S) where
    -- However the calls of the processes interleave and fail, the numbers that a document's calls
    -- get increase, from above the number it had.
    pub taken_for-IsIncreasing :
        (doc_id : Text) (s s' : S.State) (ts : List Taken)
        → Takes s ts s'
        → IsIncreasing (L.number s doc_id) (taken_for doc_id ts)
    taken_for-IsIncreasing doc_id s s' [] done = tt
    taken_for-IsIncreasing doc_id s s' ts (fail {s' = mid} {doc_id = d} e more) =
        IsIncreasing-below (L.number s doc_id) (L.number mid doc_id) (taken_for doc_id ts)
          (L.next_failed s mid d e doc_id) (taken_for-IsIncreasing doc_id mid s' ts more)
    taken_for-IsIncreasing doc_id s s' (t ∷ ts) (take {s' = mid} {doc_id = d} {n} e more) =
        let (is, others) = L.next_number s mid d n e in
        let rest = taken_for-IsIncreasing doc_id mid s' ts more in
        elim (Bool-cases (text_eq d doc_id)) [
          | inl same ↦
              let above : n ≡ suc (L.number s doc_id) =
                is ∙ ap (λ o. suc (L.number s o)) (eq_of_text_eq d doc_id same) in
              let now : L.number mid doc_id ≡ n = others doc_id ∙ rw (same, if◌then◌else◌) refl in
              rw (same, if◌then◌else◌)
                (
                  omega (arith, above),
                  IsIncreasing-below n (L.number mid doc_id) (taken_for doc_id ts)
                      (omega (arith, now)) rest,
                )
          | inr other ↦
              let kept : L.number mid doc_id ≡ L.number s doc_id =
                others doc_id ∙ rw (other, if◌then◌else◌) refl in
              rw (other, if◌then◌else◌)
                (IsIncreasing-below (L.number s doc_id) (L.number mid doc_id) (taken_for doc_id ts)
                  (omega (arith, kept)) rest)
        ]
