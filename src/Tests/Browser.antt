-- ===== src/Tests/Browser.antt =====
-- The theorems on the IndexedDB and the editor of apps/web at concrete records and cursors.
use ysync.Common.{
  ◌≡◌, refl, sym, some_injective, List, [], ◌∷◌, Option, none, some, All, if◌then◌else◌,
}
use ysync.Common.Texts.{Text, text_eq}
use ysync.Protocol.{Selection}
use ysync.Web.DocumentClient.{RemotePresence}
use ysync.Web.Db.{
  IndexedDb, ReplicaRecord, Chance, new_replica, save_document_record, create_replica,
  get_or_create_replica,
}
use ysync.Web.Db.Reloads.{IsIndexedDb, saved, missed, created, now, replica_kept}
use ysync.Web.Editor.{sync_cursors, has_id}
use ysync.Web.Editor.Cursors.{
  IsInside, AreDistinct, has_cursor, has_id-sync_cursors, sync_cursors-IsInside,
}

abbrev Replicas : Type 0
Replicas = Text → Option ReplicaRecord

unfoldable put_in : Replicas → ReplicaRecord → Replicas
unfolding text_eq
put_in s r d = if text_eq r.doc_id d then some r else s d

abbrev storage : IndexedDb
storage = record {
  State = Replicas;
  get_document = λ s d. some none;
  put_document = λ s r. some s;
  get_all_by_doc = λ s d. some [];
  put_outbox = λ s r. some s;
  delete_outbox = λ s d o. some s;
  get_replica = λ s d. some (s d);
  put_replica = λ s r. some (put_in s r);
}

storage-IsIndexedDb : IsIndexedDb storage
unfolding put_in
storage-IsIndexedDb = record {
  replica = λ s d. s d;
  replica_got = λ s d answer e. sym (some_injective (s d) answer e);
  replica_put = λ s s' r e d. sym (λ i. some_injective (put_in s r) s' e i d);
  document_put = λ s s' r e d. sym (λ i. some_injective s s' e i d);
  outbox_put = λ s s' r e d. sym (λ i. some_injective s s' e i d);
  outbox_deleted = λ s s' doc_id op_id e d. sym (λ i. some_injective s s' e i d);
}

abbrev notes : Text
notes = b'n' ∷ []

abbrev plans : Text
plans = b'p' ∷ []

abbrev first : Chance
first = record { uuid = b'u' ∷ []; name_index = 3; number = 42; color_index = 1 }

abbrev second : Chance
second = record { uuid = b'v' ∷ []; name_index = 54; number = 999; color_index = 7 }

abbrev blank : Replicas
blank = λ d. none

abbrev after_notes : Replicas
after_notes = put_in blank (new_replica notes first)

abbrev after_plans : Replicas
after_plans = put_in after_notes (new_replica plans second)

-- A call for the plans has found no record when the one for the notes returns.
replica_kept_example : new_replica notes first ≡ new_replica notes first
unfolding put_in get_or_create_replica create_replica save_document_record text_eq
replica_kept_example =
    replica_kept storage storage-IsIndexedDb notes first second blank blank after_notes after_plans
      after_plans after_plans (plans ∷ []) (plans ∷ plans ∷ []) (new_replica notes first)
      (new_replica notes first) refl refl
      (saved (record { doc_id = notes; last_acked_seq = 0; snapshot_state = [] }) refl
        (missed plans refl (created plans second (new_replica plans second) refl refl now)))
      refl

abbrev at_selection : Text → Option Selection → RemotePresence
at_selection id selection = record {
  replica_id = id;
  awareness = record { cursor = none; selection = selection; name = none; color = none };
}

abbrev others : List RemotePresence
others =
    at_selection (b'a' ∷ []) (some (record { anchor = 9; head = 2 }))
    ∷ at_selection (b'b' ∷ []) none
    ∷ at_selection (b'm' ∷ []) (some (record { anchor = 0; head = 1 }))
    ∷ []

abbrev shown : List Text
shown = (b'b' ∷ []) ∷ (b'c' ∷ []) ∷ []

others-AreDistinct : AreDistinct others
unfolding has_id text_eq
others-AreDistinct = (refl, (refl, (refl, tt)))

has_id-sync_cursors_example :
    has_id (b'a' ∷ []) (sync_cursors (b'm' ∷ []) 5 others shown).0
    ≡ has_cursor (b'm' ∷ []) (b'a' ∷ []) others
unfolding has_id text_eq
has_id-sync_cursors_example =
    has_id-sync_cursors (b'm' ∷ []) (b'a' ∷ []) 5 others shown others-AreDistinct refl

sync_cursors-IsInside_example : All (IsInside 5) (sync_cursors (b'm' ∷ []) 5 others shown).1
sync_cursors-IsInside_example = sync_cursors-IsInside (b'm' ∷ []) 5 others shown
