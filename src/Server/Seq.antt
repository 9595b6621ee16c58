-- ===== src/Server/Seq.antt =====
-- apps/server/src/seq/InMemorySeqAllocator.ts: one counter for each document.
pub mod Contract
pub mod Redis
use ysync.Server.Seq.Contract.{SeqAllocator, IsLawful}
use ysync.Common.{
  sym, subst, some_injective, ℕ, suc, ◌+◌, ◌≡◌, Option, none, some, if◌then◌else◌, arith,
}
use ysync.Common.Texts.{Text, text_eq}
use ysync.Common.Maps
use ysync.Common.Maps.{Map, get-put}

-- `counters.get(docId) ?? 0`
unfoldable pub current : Text → Map ℕ → ℕ
current doc_id counters = elim (Maps.get doc_id counters) [ some value ↦ value | none ↦ 0 ]

unfoldable pub next : Text → Map ℕ → Map ℕ × ℕ
unfolding current
next doc_id counters =
    let value = current doc_id counters + 1 in (Maps.put doc_id value counters, value)

abbrev pub memory_allocator : SeqAllocator
memory_allocator = record {
  State = Map ℕ;
  next = λ counters doc_id. let (after, n) = next doc_id counters in (after, some n);
  current = λ counters doc_id. some (current doc_id counters);
}

-- `next` counts its own document up by one, and touches no other.
next-current :
    (doc_id other : Text) (counters : Map ℕ)
    → current other (next doc_id counters).0
      ≡ (if text_eq doc_id other then (next doc_id counters).1 else current other counters)
unfolding next current
next-current doc_id other counters =
    ground (arith, get-put doc_id other (current doc_id counters + 1) counters)

counted :
    (doc_id : Text) (counters : Map ℕ) → (next doc_id counters).1 ≡ suc (current doc_id counters)
unfolding next
counted doc_id counters = omega arith

pub memory_allocator-IsLawful : IsLawful memory_allocator
memory_allocator-IsLawful = record {
  number = λ counters doc_id. current doc_id counters;
  next_number = λ counters after doc_id n e.
      subst
        (λ (p : Map ℕ × ℕ).
          (p.1 ≡ suc (current doc_id counters))
          × ((other : Text)
              → current other p.0 ≡ (if text_eq doc_id other then p.1 else current other counters)))
        (λ i. ((e i).0, some_injective _ _ (λ j. (e j).1) i))
        (counted doc_id counters, λ other. next-current doc_id other counters);
  next_failed = λ counters after doc_id e.
      let throws : ◌≡◌ {A = Option ℕ} (some (next doc_id counters).1) none = λ i. (e i).1 in
      absurd (ground (arith, throws));
  current_number = λ counters doc_id n e. sym (some_injective _ _ e);
}
