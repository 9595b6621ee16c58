-- ===== src/Web/Db/Reloads.antt =====
-- `getOrCreateReplica` of apps/web/src/lib/db.ts across reloads.
use ysync.Common.{
  ◌≡◌, refl, sym, ap, subst, ◌∙◌, inl, inr, Bool, true, false, ◌||◌, Bool-cases, List, [], ◌∷◌,
  Option, none, some, Option-cases, some_injective, if◌then◌else◌, arith,
}
use ysync.Common.Texts.{Text, text_eq, text_eq_refl, eq_of_text_eq}
use ysync.Web.Db.{
  IndexedDb, DocumentRecord, OutboxRecord, ReplicaRecord, Chance, new_replica, save_document_record,
  add_to_outbox, remove_from_outbox, create_replica, get_or_create_replica,
}

-- What the calls that succeed do to the `replica` store, whose key is the document's id.
pub record IsIndexedDb (D : IndexedDb) : Type 0 where
  pub replica : D.State → Text → Option ReplicaRecord
  pub replica_got :
      (s : D.State) (doc_id : Text) (answer : Option ReplicaRecord)
      → D.get_replica s doc_id ≡ some answer
      → answer ≡ replica s doc_id
  pub replica_put :
      (s s' : D.State) (r : ReplicaRecord)
      → D.put_replica s r ≡ some s'
      → (d : Text) → replica s' d ≡ (if text_eq r.doc_id d then some r else replica s d)
  pub document_put :
      (s s' : D.State) (r : DocumentRecord)
      → D.put_document s r ≡ some s'
      → (d : Text) → replica s' d ≡ replica s d
  pub outbox_put :
      (s s' : D.State) (r : OutboxRecord)
      → D.put_outbox s r ≡ some s'
      → (d : Text) → replica s' d ≡ replica s d
  pub outbox_deleted :
      (s s' : D.State) (doc_id op_id : Text)
      → D.delete_outbox s doc_id op_id ≡ some s'
      → (d : Text) → replica s' d ≡ replica s d

-- `getOrCreateReplica` of this document is between its read and its write.
abbrev pub is_creating : Text → List Text → Bool
is_creating doc_id [] = false
is_creating doc_id (d ∷ ds) = text_eq d doc_id || is_creating doc_id ds

not_creating :
    (d doc_id : Text) (ds : List Text)
    → is_creating d ds ≡ true
    → is_creating doc_id ds ≡ false
    → text_eq d doc_id ≡ false
not_creating d doc_id ds h q = elim (Bool-cases (text_eq d doc_id)) [
  | inl same ↦
      let alike = ap (λ x. is_creating x ds) (eq_of_text_eq d doc_id same) in
      absurd (ground (arith, alike, h, q))
  | inr other ↦ other
]

module _ (D : IndexedDb) where
  -- The steps of the clients of any documents, in any order; each tab is a client. The list has the
  -- documents for which a call of `getOrCreateReplica` has found no record, and may still write one.
  pub data Later : D.State → List Text → D.State → List Text → Type 0 where
    now : {s : D.State} {ds : List Text} → Later s ds s ds
    saved :
        {s t u : D.State} {ds es : List Text} (r : DocumentRecord)
        → save_document_record D s r ≡ some t
        → Later t ds u es
        → Later s ds u es
    added :
        {s t u : D.State} {ds es : List Text} (r : OutboxRecord)
        → add_to_outbox D s r ≡ some t
        → Later t ds u es
        → Later s ds u es
    removed :
        {s t u : D.State} {ds es : List Text} (doc_id op_id : Text)
        → remove_from_outbox D s doc_id op_id ≡ some t
        → Later t ds u es
        → Later s ds u es
    missed :
        {s u : D.State} {ds es : List Text} (doc_id : Text)
        → D.get_replica s doc_id ≡ some none
        → Later s (doc_id ∷ ds) u es
        → Later s ds u es
    created :
        {s t u : D.State} {ds es : List Text} (doc_id : Text) (chance : Chance) (r : ReplicaRecord)
        → is_creating doc_id ds ≡ true
        → create_replica D doc_id chance s ≡ some (t, r)
        → Later t ds u es
        → Later s ds u es

  module _ (L : IsIndexedDb D) where
    create_replica-replica :
        (doc_id : Text) (chance : Chance) (s t : D.State) (r : ReplicaRecord)
        → create_replica D doc_id chance s ≡ some (t, r)
        → (d : Text) → L.replica t d ≡ (if text_eq doc_id d then some r else L.replica s d)
    unfolding create_replica new_replica
    create_replica-replica doc_id chance s t r e =
        elim (Option-cases (D.put_replica s (new_replica doc_id chance))) [
          | inl failed ↦
              let none_left : none ≡ some (t, r) = rw (failed, create_replica) at e in
              absurd (ground (arith, none_left))
          | inr (after, put) ↦
              subst
                (λ (p : D.State × ReplicaRecord).
                  (d : Text)
                  → L.replica p.0 d ≡ (if text_eq doc_id d then some p.1 else L.replica s d))
                (some_injective (after, new_replica doc_id chance) (t, r)
                  (rw (put, create_replica) at e))
                (L.replica_put s after (new_replica doc_id chance) put)
        ]

    -- The call leaves the record that it returns.
    replica-get_or_create_replica :
        (doc_id : Text) (chance : Chance) (s later t : D.State) (r : ReplicaRecord)
        → get_or_create_replica D doc_id chance s later ≡ some (t, r)
        → L.replica t doc_id ≡ some r
    unfolding get_or_create_replica
    replica-get_or_create_replica doc_id chance s later t r e =
        elim (Option-cases (D.get_replica s doc_id)) [
          | inl failed ↦
              let none_left : none ≡ some (t, r) = rw (failed, get_or_create_replica) at e in
              absurd (ground (arith, none_left))
          | inr (none, absent) ↦
              create_replica-replica doc_id chance later t r
                (rw (absent, get_or_create_replica) at e) doc_id
              ∙ rw (text_eq_refl doc_id, if◌then◌else◌) refl
          | inr (some existing, found) ↦
              subst (λ (p : D.State × ReplicaRecord). L.replica p.0 doc_id ≡ some p.1)
                (some_injective (s, existing) (t, r) (rw (found, get_or_create_replica) at e))
                (sym (L.replica_got s doc_id (some existing) found))
        ]

    -- Where there is a record, the call returns it.
    get_or_create_replica_there :
        (doc_id : Text) (chance : Chance) (s later t : D.State) (x r : ReplicaRecord)
        → L.replica s doc_id ≡ some x
        → get_or_create_replica D doc_id chance s later ≡ some (t, r)
        → r ≡ x
    unfolding get_or_create_replica
    get_or_create_replica_there doc_id chance s later t x r there e =
        elim (Option-cases (D.get_replica s doc_id)) [
          | inl failed ↦
              let none_left : none ≡ some (t, r) = rw (failed, get_or_create_replica) at e in
              absurd (ground (arith, none_left))
          | inr (none, absent) ↦
              let gone = L.replica_got s doc_id none absent in absurd (ground (arith, gone, there))
          | inr (some existing, found) ↦
              let same : some existing ≡ some x =
                L.replica_got s doc_id (some existing) found ∙ there in
              ap (λ (p : D.State × ReplicaRecord). p.1)
                (sym (some_injective (s, existing) (t, r) (rw (found, get_or_create_replica) at e)))
              ∙ some_injective existing x same
        ]

    with_none :
        (d doc_id : Text) (r : ReplicaRecord) (s : D.State)
        → none ≡ L.replica s d
        → L.replica s doc_id ≡ some r
        → text_eq d doc_id ≡ false
    with_none d doc_id r s gone k = elim (Bool-cases (text_eq d doc_id)) [
      | inl same ↦
          let alike = ap (L.replica s) (eq_of_text_eq d doc_id same) in
          absurd (ground (arith, alike, gone, k))
      | inr other ↦ other
    ]

    kept-Later :
        (doc_id : Text) (r : ReplicaRecord) (t u : D.State) (ds es : List Text)
        → L.replica t doc_id ≡ some r
        → is_creating doc_id ds ≡ false
        → Later t ds u es
        → L.replica u doc_id ≡ some r
    unfolding save_document_record add_to_outbox remove_from_outbox
    kept-Later doc_id r t u ds es k q now = k
    kept-Later doc_id r t u ds es k q (saved {t = m} x e more) =
        kept-Later doc_id r m u ds es (L.document_put t m x e doc_id ∙ k) q more
    kept-Later doc_id r t u ds es k q (added {t = m} x e more) =
        kept-Later doc_id r m u ds es (L.outbox_put t m x e doc_id ∙ k) q more
    kept-Later doc_id r t u ds es k q (removed {t = m} d o e more) =
        kept-Later doc_id r m u ds es (L.outbox_deleted t m d o e doc_id ∙ k) q more
    kept-Later doc_id r t u ds es k q (missed d absent more) =
        let gone = L.replica_got t d none absent in
        let other : text_eq d doc_id ≡ false = with_none d doc_id r t gone k in
        kept-Later doc_id r t u (d ∷ ds) es k (ground (arith, other, q)) more
    kept-Later doc_id r t u ds es k q (created {t = m} d c x open_call e more) =
        let other : text_eq d doc_id ≡ false = not_creating d doc_id ds open_call q in
        kept-Later doc_id r m u ds es
          (create_replica-replica d c t m x e doc_id ∙ rw (other, if◌then◌else◌) k) q more

    -- Once a call has returned the replica of a document, every later call for the document returns
    -- the same, through any number of reloads: whatever the tabs write in between, whatever chance
    -- gives, and whatever is written between the two steps of either call, when at the time of the
    -- return no other call for the document has found no record and has still to write its own, and
    -- the calls of IndexedDB succeed.
    pub replica_kept :
        (doc_id : Text) (chance chance' : Chance) (s0 s t u w v : D.State) (ds es : List Text)
        (r r' : ReplicaRecord)
        → get_or_create_replica D doc_id chance s0 s ≡ some (t, r)
        → is_creating doc_id ds ≡ false
        → Later t ds u es
        → get_or_create_replica D doc_id chance' u w ≡ some (v, r')
        → r' ≡ r
    replica_kept doc_id chance chance' s0 s t u w v ds es r r' e q later e' =
        get_or_create_replica_there doc_id chance' u w v r r'
          (kept-Later doc_id r t u ds es (replica-get_or_create_replica doc_id chance s0 s t r e) q
            later)
          e'
