-- ===== src/Server/Presence/Memory.antt =====
-- apps/server/src/presence/InMemoryPresenceStore.ts keeps the contract of
-- apps/server/src/presence/PresenceStore.ts.
use ysync.Common.{
  ℕ, ◌+◌, ◌≤◌, ◌<◌, ◌≡◌, refl, sym, ap, subst, ◌∙◌, ◌↔◌, inl, inr, true, false, Bool-cases,
  Option-cases, ◌&&◌, List, [], ◌∷◌, Option, none, some, some_injective, In, ltb, leb,
  if◌then◌else◌, arith,
}
use ysync.Common.Texts.{Text, text_eq, text_eq_iff, text_eq_refl, eq_of_text_eq}
use ysync.Common.Maps
use ysync.Common.Maps.{Map, get-put, get-remove}
use ysync.Server.Presence.{
  PresenceEntry, StoredEntry, by_replica, set, remove, live_entries, list, sweep_entries, sweep,
}
use ysync.Server.Presence
use ysync.Server.Presence.Expiry.{by_replica-sweep, sweep-sweep_entries}
use ysync.Server.Presence.Contract.{PresenceStore, IsLawful, is_expired}

-- No key is there twice.
abbrev pub IsUnique : {V : Type 0} → Map V → Type 0
IsUnique [] = Unit {0}
IsUnique ((k, v) ∷ m) = (Maps.get k m ≡ none) × IsUnique m

IsUnique-put : {V : Type 0} (k : Text) (v : V) (m : Map V) → IsUnique m → IsUnique (Maps.put k v m)
unfolding Maps.get Maps.put
IsUnique-put k v [] u = (refl, tt)
IsUnique-put k v ((j, w) ∷ m) u = elim (Bool-cases (text_eq j k)) [
  | inl t ↦ rw (t, if◌then◌else◌) u
  | inr f ↦
      rw (f, if◌then◌else◌)
        (
          get-put k j v m ∙ ground (arith, text_eq_iff j k, text_eq_iff k j, f, u.0),
          IsUnique-put k v m u.1,
        )
]

IsUnique-remove : {V : Type 0} (k : Text) (m : Map V) → IsUnique m → IsUnique (Maps.remove k m)
unfolding Maps.remove
IsUnique-remove k [] u = tt
IsUnique-remove k ((j, w) ∷ m) u = elim (Bool-cases (text_eq j k)) [
  | inl t ↦ rw (t, if◌then◌else◌) (IsUnique-remove k m u.1)
  | inr f ↦ rw (f, if◌then◌else◌) (get-remove k j m ∙ ground (arith, u.0), IsUnique-remove k m u.1)
]

-- A key that is below the first entry is not the first entry's.
get-cons :
    (k : Text) (s : StoredEntry) (r : Text) (x : StoredEntry) (m : Map StoredEntry)
    → Maps.get k m ≡ none
    → Maps.get r m ≡ some x
    → Maps.get r ((k, s) ∷ m) ≡ some x
unfolding Maps.get
get-cons k s r x m absent g = ground (arith, text_eq_iff k r, absent, g)

get-sweep_entries :
    (now : ℕ) (r : Text) (m : Map StoredEntry)
    → IsUnique m
    → Maps.get r (sweep_entries now m).0
      ≡ (if is_expired now (Maps.get r m) then none else Maps.get r m)
unfolding sweep_entries Maps.get is_expired
get-sweep_entries now r [] u = refl
get-sweep_entries now r ((k, s) ∷ m) u =
    ground (arith, u.0, text_eq_iff k r, get-sweep_entries now r m u.1)

IsUnique-sweep_entries :
    (now : ℕ) (m : Map StoredEntry) → IsUnique m → IsUnique (sweep_entries now m).0
unfolding sweep_entries
IsUnique-sweep_entries now [] u = tt
IsUnique-sweep_entries now ((k, s) ∷ m) u = elim (Bool-cases (leb s.expires_at now)) [
  | inl t ↦ rw (t, if◌then◌else◌) (IsUnique-sweep_entries now m u.1)
  | inr f ↦
      rw (f, if◌then◌else◌)
        (get-sweep_entries now k m u.1 ∙ ground (arith, u.0), IsUnique-sweep_entries now m u.1)
]

swept_iff :
    (now : ℕ) (r : Text) (m : Map StoredEntry)
    → IsUnique m
    → In r (sweep_entries now m).1 ↔ (is_expired now (Maps.get r m) ≡ true)
unfolding sweep_entries Maps.get is_expired
swept_iff now r [] u = ((λ i. absurd i), λ e. ground (arith, e))
swept_iff now r ((k, s) ∷ m) u =
    let rest = swept_iff now r m u.1 in
    let gone : text_eq k r ≡ true → is_expired now (Maps.get r m) ≡ false = (λ here.
      ap (λ q. is_expired now (Maps.get q m)) (sym (eq_of_text_eq k r here))
      ∙ ap (is_expired now) u.0) in
    elim (Bool-cases (leb s.expires_at now)) [
      | inl old ↦ elim (Bool-cases (text_eq k r)) [
        | inl here ↦
            rw (old, here, if◌then◌else◌) ((λ i. old), (λ e. inl (sym (eq_of_text_eq k r here))))
        | inr other ↦
            rw (old, other, if◌then◌else◌)
              (
                (λ i. elim i [
                  | inl same ↦ absurd (ground (arith, same, other, text_eq_iff k r))
                  | inr later ↦ rest.0 later
                ]),
                (λ e. inr (rest.1 e)),
              )
      ]
      | inr young ↦ elim (Bool-cases (text_eq k r)) [
        | inl here ↦
            rw (young, here, if◌then◌else◌)
              ((λ i. absurd (ground (arith, rest.0 i, gone here))), (λ e. ground (arith, e)))
        | inr other ↦ rw (young, other, if◌then◌else◌) rest
      ]
    ]

live_listed :
    (now : ℕ) (r : Text) (x : StoredEntry) (m : Map StoredEntry)
    → Maps.get r m ≡ some x
    → now < x.expires_at
    → In x.entry (live_entries now m)
unfolding live_entries Maps.get
live_listed now r x [] e l = ground (arith, e)
live_listed now r x ((k, s) ∷ m) e l = elim (Bool-cases (text_eq k r)) [
  | inl here ↦
      let same : s ≡ x = some_injective s x (rw (here, if◌then◌else◌) at e) in
      let live : ltb now s.expires_at ≡ true =
        ground (arith, l, ap (λ (y : StoredEntry). y.expires_at) same) in
      rw (live, if◌then◌else◌) (inl (ap (λ (y : StoredEntry). y.entry) (sym same)))
  | inr other ↦
      let later = live_listed now r x m (rw (other, if◌then◌else◌) at e) l in
      elim (Bool-cases (ltb now s.expires_at)) [
        | inl t ↦ rw (t, if◌then◌else◌) (inr later)
        | inr f ↦ rw (f, if◌then◌else◌) later
      ]
]

listed :
    (now : ℕ) (e : PresenceEntry) (m : Map StoredEntry)
    → IsUnique m
    → In e (live_entries now m)
    → (r : Text) × (x : StoredEntry) × (Maps.get r m ≡ some x)
      × (x.entry ≡ e)
      × (now ≤ x.expires_at)
unfolding live_entries Maps.get
listed now e [] u i = absurd i
listed now e ((k, s) ∷ m) u i = elim (Bool-cases (ltb now s.expires_at)) [
  | inl live ↦ elim (rw (live, if◌then◌else◌) at i) [
    | inl here ↦ (k, s, rw (text_eq_refl k, if◌then◌else◌) refl, sym here, ground arith)
    | inr later ↦ below (listed now e m u.1 later)
  ]
  | inr old ↦ below (listed now e m u.1 (rw (old, if◌then◌else◌) at i))
]
  where
    below :
        ((r : Text) × (x : StoredEntry) × (Maps.get r m ≡ some x)
          × (x.entry ≡ e)
          × (now ≤ x.expires_at))
        → (r : Text) × (x : StoredEntry) × (Maps.get r ((k, s) ∷ m) ≡ some x)
          × (x.entry ≡ e)
          × (now ≤ x.expires_at)
    below (r, x, g, same, l) = (r, x, get-cons k s r x m u.0 g, same, l)

get-by_replica-put :
    (doc_id d : Text) (m : Map StoredEntry) (docs : Presence.PresenceStore)
    → by_replica d (Maps.put doc_id m docs) ≡ (if text_eq doc_id d then m else by_replica d docs)
unfolding by_replica
get-by_replica-put doc_id d m docs = ground (arith, get-put doc_id d m docs)

abbrev pub memory_presence : PresenceStore
memory_presence = record {
  State = Presence.PresenceStore;
  set = λ docs doc_id entry ttl_ms now. some (set doc_id entry ttl_ms now docs);
  remove = λ docs doc_id replica_id. some (remove doc_id replica_id docs);
  list = λ docs doc_id now. some (list doc_id now docs);
  sweep = λ docs doc_id now. some (sweep doc_id now docs);
}

abbrev Sound : Presence.PresenceStore → Type 0
Sound docs = (d : Text) → IsUnique (by_replica d docs)

abbrev stored_in : Presence.PresenceStore → Text → Text → Option StoredEntry
stored_in docs d r = Maps.get r (by_replica d docs)

Sound-put :
    (doc_id : Text) (m : Map StoredEntry) (docs : Presence.PresenceStore)
    → IsUnique m
    → Sound docs
    → Sound (Maps.put doc_id m docs)
Sound-put doc_id m docs u k d =
    rw (get-by_replica-put doc_id d m docs) (elim (Bool-cases (text_eq doc_id d)) [
      | inl t ↦ rw (t, if◌then◌else◌) u
      | inr f ↦ rw (f, if◌then◌else◌) (k d)
    ])

memory_set :
    (docs : Presence.PresenceStore) (doc_id : Text) (entry : PresenceEntry) (ttl_ms now : ℕ)
    → Sound docs
    → Sound (set doc_id entry ttl_ms now docs)
      × ((d r : Text)
          → stored_in (set doc_id entry ttl_ms now docs) d r ≡ (
              if text_eq doc_id d && text_eq entry.replica_id r
              then some (record { entry = entry; expires_at = now + ttl_ms })
              else stored_in docs d r))
unfolding set
memory_set docs doc_id entry ttl_ms now k = (
  Sound-put doc_id _ docs (IsUnique-put entry.replica_id _ (by_replica doc_id docs) (k doc_id)) k,
  λ d r. rw (get-by_replica-put doc_id d _ docs) (
      ground (
        arith,
        text_eq_iff doc_id d,
        get-put entry.replica_id r (record { entry = entry; expires_at = now + ttl_ms })
            (by_replica doc_id docs),
      )),
)

get-nil : (r : Text) → Maps.get {V = StoredEntry} r [] ≡ none
unfolding Maps.get
get-nil r = refl

by_replica-some :
    (doc_id : Text) (m : Map StoredEntry) (docs : Presence.PresenceStore)
    → Maps.get doc_id docs ≡ some m
    → by_replica doc_id docs ≡ m
unfolding by_replica
by_replica-some doc_id m docs e = rw (e, by_replica) refl

by_replica-none :
    (doc_id : Text) (docs : Presence.PresenceStore)
    → Maps.get doc_id docs ≡ none
    → by_replica doc_id docs ≡ []
unfolding by_replica
by_replica-none doc_id docs e = rw (e, by_replica) refl

memory_remove :
    (docs : Presence.PresenceStore) (doc_id replica_id : Text)
    → Sound docs
    → Sound (remove doc_id replica_id docs)
      × ((d r : Text)
          → stored_in (remove doc_id replica_id docs) d r
            ≡ (if text_eq doc_id d && text_eq replica_id r then none else stored_in docs d r))
unfolding remove
memory_remove docs doc_id replica_id k = elim (Option-cases (Maps.get doc_id docs)) [
  | inl e ↦ rw (e, remove) (k, λ d r. ground (arith, none_there e d r))
  | inr (m, e) ↦
      rw (e, remove)
        (
          Sound-put doc_id _ docs
              (IsUnique-remove replica_id m (subst IsUnique (there e) (k doc_id))) k,
          λ d r.
              rw (get-by_replica-put doc_id d _ docs)
                (ground (arith, there e, text_eq_iff doc_id d, get-remove replica_id r m)),
        )
]
  where
    there : {m : Map StoredEntry} → Maps.get doc_id docs ≡ some m → by_replica doc_id docs ≡ m
    there e = by_replica-some doc_id _ docs e

    none_there :
        Maps.get doc_id docs ≡ none
        → (d r : Text) → text_eq doc_id d ≡ true
        → stored_in docs d r ≡ none
    none_there e d r same =
        ap (λ q. Maps.get r (by_replica q docs)) (sym (eq_of_text_eq doc_id d same))
        ∙ ap (Maps.get r) (by_replica-none doc_id docs e)
        ∙ get-nil r

memory_sweep :
    (docs : Presence.PresenceStore) (doc_id : Text) (now : ℕ)
    → Sound docs
    → Sound (sweep doc_id now docs).0
      × ((d r : Text)
          → stored_in (sweep doc_id now docs).0 d r ≡ (
              if text_eq doc_id d && is_expired now (stored_in docs d r)
              then none
              else stored_in docs d r))
      × ((r : Text)
          → In r (sweep doc_id now docs).1 ↔ (is_expired now (stored_in docs doc_id r) ≡ true))
memory_sweep docs doc_id now k = (
  (λ d. rw (by_replica-sweep doc_id d now docs) (elim (Bool-cases (text_eq doc_id d)) [
    | inl t ↦ rw (t, if◌then◌else◌) (IsUnique-sweep_entries now (by_replica doc_id docs) (k doc_id))
    | inr f ↦ rw (f, if◌then◌else◌) (k d)
  ])),
  (λ d r. rw (by_replica-sweep doc_id d now docs) (
      ground (
        arith,
        text_eq_iff doc_id d,
        get-sweep_entries now r (by_replica doc_id docs) (k doc_id),
      ))),
  (λ r.
      rw (sweep-sweep_entries doc_id now docs)
        (swept_iff now r (by_replica doc_id docs) (k doc_id))),
)

-- The in-memory store keeps the contract.
pub memory_presence-IsLawful : IsLawful memory_presence
unfolding list
memory_presence-IsLawful = record {
  IsSound = Sound;
  stored = stored_in;
  after_set = λ s s' doc_id entry ttl_ms now k e.
      subst
        (λ t.
          Sound t
          × ((d r : Text)
              → stored_in t d r ≡ (
                  if text_eq doc_id d && text_eq entry.replica_id r
                  then some (record { entry = entry; expires_at = now + ttl_ms })
                  else stored_in s d r)))
        (some_injective _ _ e) (memory_set s doc_id entry ttl_ms now k);
  after_remove = λ s s' doc_id replica_id k e.
      subst
        (λ t.
          Sound t
          × ((d r : Text)
              → stored_in t d r
                ≡ (if text_eq doc_id d && text_eq replica_id r then none else stored_in s d r)))
        (some_injective _ _ e) (memory_remove s doc_id replica_id k);
  listed = λ s doc_id now entries x k e i.
      listed now x (by_replica doc_id s) (k doc_id) (subst (In x) (sym (some_injective _ _ e)) i);
  live_listed = λ s doc_id now entries r x k e g l.
      subst (In x.entry) (some_injective _ _ e) (live_listed now r x (by_replica doc_id s) g l);
  after_sweep = λ s s' doc_id now expired k e.
      subst
        (λ (t : Presence.PresenceStore × List Text).
          Sound t.0
          × ((d r : Text)
              → stored_in t.0 d r ≡ (
                  if text_eq doc_id d && is_expired now (stored_in s d r)
                  then none
                  else stored_in s d r))
          × ((r : Text) → In r t.1 ↔ (is_expired now (stored_in s doc_id r) ≡ true)))
        (some_injective _ _ e) (memory_sweep s doc_id now k);
}
