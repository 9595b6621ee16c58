-- ===== src/Server/Presence/Expiry.antt =====
-- Expiry in apps/server/src/presence/InMemoryPresenceStore.ts.
use ysync.Common.{
  ℕ, ◌≤◌, ◌≡◌, refl, ap, inl, inr, ◌↔◌, true, [], ◌∷◌, In, leb, if◌then◌else◌, Option-cases,
  Bool-cases, arith,
}
use ysync.Common.Texts.{Text, text_eq, text_eq_iff}
use ysync.Common.Maps
use ysync.Common.Maps.{Map, get-put}
use ysync.Server.Presence.{
  PresenceStore, StoredEntry, by_replica, live_entries, list, sweep_entries, sweep,
}

pub by_replica-sweep :
    (doc_id other : Text) (now : ℕ) (docs : PresenceStore)
    → by_replica other (sweep doc_id now docs).0 ≡ (
        if text_eq doc_id other
        then (sweep_entries now (by_replica doc_id docs)).0
        else by_replica other docs)
unfolding by_replica sweep
by_replica-sweep doc_id other now docs = elim (Option-cases (Maps.get doc_id docs)) [
  | inl e ↦ rw (e, sweep) (ground (arith, text_eq_iff doc_id other))
  | inr (m, e) ↦ rw (e, sweep) (ground (arith, get-put doc_id other (sweep_entries now m).0 docs))
]

live_entries-sweep_entries :
    (now later : ℕ) (m : Map StoredEntry)
    → now ≤ later
    → live_entries later (sweep_entries now m).0 ≡ live_entries later m
unfolding live_entries sweep_entries
live_entries-sweep_entries now later [] h = refl
live_entries-sweep_entries now later (e ∷ m) h =
    ground (arith, live_entries-sweep_entries now later m h)

-- A sweep is invisible: at any later time the list of present replicas is what it would have been
-- without it, for the document swept and for every other.
list-sweep :
    (doc_id other : Text) (now later : ℕ) (docs : PresenceStore)
    → now ≤ later
    → list other later (sweep doc_id now docs).0 ≡ list other later docs
unfolding list
list-sweep doc_id other now later docs h = rw (by_replica-sweep doc_id other now docs) (
    ground (
      arith,
      text_eq_iff doc_id other,
      live_entries-sweep_entries now later (by_replica doc_id docs),
    ))

-- The replicas that a sweep reports are those whose entry has expired.
abbrev pub Expired : ℕ → Text → Map StoredEntry → Type 0
Expired now r m = (e : StoredEntry) × In (r, e) m × (e.expires_at ≤ now)

expired_swept :
    (now : ℕ) (r : Text) (m : Map StoredEntry) → Expired now r m → In r (sweep_entries now m).1
unfolding sweep_entries
expired_swept now r [] (e, i, l) = absurd i
expired_swept now r ((k, s) ∷ m) (e, inl at, l) =
    let here : r ≡ k = ap (λ (p : Text × StoredEntry). p.0) at in
    let same : e ≡ s = ap (λ (p : Text × StoredEntry). p.1) at in
    let old : leb s.expires_at now ≡ true = ground arith in rw old (inl here)
expired_swept now r ((k, s) ∷ m) (e, inr i, l) = elim (Bool-cases (leb s.expires_at now)) [
  | inl old ↦ rw old (inr (expired_swept now r m (e, i, l)))
  | inr fresh ↦ rw fresh (expired_swept now r m (e, i, l))
]

swept-Expired :
    (now : ℕ) (r : Text) (m : Map StoredEntry) → In r (sweep_entries now m).1 → Expired now r m
unfolding sweep_entries
swept-Expired now r [] i = absurd i
swept-Expired now r ((k, s) ∷ m) i = elim (Bool-cases (leb s.expires_at now)) [
  | inl old ↦ elim (rw old at i) [
    | inl here ↦ (s, inl (λ j. (here j, s)), ground arith)
    | inr later ↦ let (e, at, l) = swept-Expired now r m later in (e, inr at, l)
  ]
  | inr fresh ↦ let (e, at, l) = swept-Expired now r m (rw fresh at i) in (e, inr at, l)
]

pub sweep-sweep_entries :
    (doc_id : Text) (now : ℕ) (docs : PresenceStore)
    → (sweep doc_id now docs).1 ≡ (sweep_entries now (by_replica doc_id docs)).1
unfolding sweep sweep_entries by_replica
sweep-sweep_entries doc_id now docs = elim (Option-cases (Maps.get doc_id docs)) [
  | inl e ↦ rw (e, sweep, by_replica)
  | inr (m, e) ↦ rw (e, sweep, by_replica)
]

-- `sweep` reports a replica exactly when an entry of the document under its id has expired.
pub sweep_reports :
    (doc_id r : Text) (now : ℕ) (docs : PresenceStore)
    → In r (sweep doc_id now docs).1 ↔ Expired now r (by_replica doc_id docs)
sweep_reports doc_id r now docs =
    rw (sweep-sweep_entries doc_id now docs)
      (swept-Expired now r (by_replica doc_id docs), expired_swept now r (by_replica doc_id docs))

sweep_entries_twice :
    (now : ℕ) (m : Map StoredEntry) → (sweep_entries now (sweep_entries now m).0).1 ≡ []
unfolding sweep_entries
sweep_entries_twice now [] = refl
sweep_entries_twice now (e ∷ m) = ground (arith, sweep_entries_twice now m)
