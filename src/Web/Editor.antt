-- ===== src/Web/Editor.antt =====
-- apps/web/src/components/Editor.tsx: the cursors of the other users, and the handlers of Quill's
-- events. What is called of quill-cursors is returned in order; the length of the document is what
-- `quill.getLength()` gives.
pub mod Cursors
use ysync.Common.{
  ℕ, ◌+◌, ◌-◌, max, min, Bool, true, false, not, ◌||◌, List, [], ◌∷◌, ◌++◌, map, Option, none, some,
  if◌then◌else◌,
}
use ysync.Common.Texts.{Text, text_eq}
use ysync.Protocol.{Selection}
use ysync.Web.DeltaToEdits.{DeltaOp, delta_to_edits}
use ysync.Web.DocumentClient.{DocumentClient, RemotePresence, update_presence}
use ysync.Web.DocumentClient.Edits.{apply_local_edits}

pub record Range : Type 0 where
  pub index : ℕ
  pub length : ℕ

-- `Math.abs(head - anchor)` is the greater less the smaller.
unfoldable pub to_quill_range : Option Selection → Option Range
to_quill_range none = none
to_quill_range (some s) =
    some
      (record { index = min s.anchor s.head; length = max s.anchor s.head - min s.anchor s.head })

-- The calls of quill-cursors.
pub data CursorCall : Type 0 where
  remove_cursor : Text → CursorCall
  create_cursor : Text → Text → Text → CursorCall
  move_cursor : Text → Range → CursorCall

-- `set.has(id)`
unfoldable pub has_id : Text → List Text → Bool
unfolding text_eq
has_id id [] = false
has_id id (k ∷ ks) = text_eq k id || has_id id ks

-- `set.add(id)`
unfoldable pub add_id : Text → List Text → List Text
unfolding has_id
add_id id ids = if has_id id ids then ids else ids ++ id ∷ []

-- `set.delete(id)`
unfoldable pub delete_id : Text → List Text → List Text
unfolding text_eq
delete_id id [] = []
delete_id id (k ∷ ks) = let rest = delete_id id ks in if text_eq k id then rest else k ∷ rest

-- The loop over the known cursors: those that stay, and the calls.
unfoldable pub drop_left : List Text → List Text → List Text × List CursorCall
unfolding has_id
drop_left active [] = ([], [])
drop_left active (id ∷ known) =
    let (kept, calls) = drop_left active known in
    if has_id id active then (id ∷ kept, calls) else (kept, remove_cursor id ∷ calls)

abbrev pub anonymous : Text
anonymous = b'A' ∷ b'n' ∷ b'o' ∷ b'n' ∷ b'y' ∷ b'm' ∷ b'o' ∷ b'u' ∷ b's' ∷ []

abbrev pub gray : Text
gray = b'#' ∷ b'9' ∷ b'9' ∷ b'9' ∷ b'9' ∷ b'9' ∷ b'9' ∷ []

-- `text ?? other`
unfoldable pub or_else : Text → Option Text → Text
or_else other none = other
or_else other (some text) = text

unfoldable pub clamped : ℕ → Range → Range
clamped doc_length range =
    let max_index = max 0 (doc_length - 1) in
    let index = min range.index max_index in
    record { index = index; length = min range.length (max_index - index) }

-- The body of the loop over the presence, behind the check of the own replica.
unfoldable pub show_range :
    ℕ → RemotePresence → Option Range → List Text → List Text × List CursorCall
unfolding has_id add_id delete_id or_else clamped
show_range doc_length entry none known =
    if has_id entry.replica_id known
    then (delete_id entry.replica_id known, remove_cursor entry.replica_id ∷ [])
    else (known, [])
show_range doc_length entry (some range) known =
    let move = move_cursor entry.replica_id (clamped doc_length range) in
    if has_id entry.replica_id known then (known, move ∷ []) else (
      add_id entry.replica_id known,
      create_cursor entry.replica_id (or_else anonymous entry.awareness.name)
            (or_else gray entry.awareness.color)
          ∷ move
          ∷ [],
    )

unfoldable pub show_entry : Text → ℕ → RemotePresence → List Text → List Text × List CursorCall
unfolding text_eq to_quill_range show_range
show_entry own doc_length entry known =
    if text_eq entry.replica_id own
    then (known, [])
    else show_range doc_length entry (to_quill_range entry.awareness.selection) known

unfoldable pub show_entries :
    Text → ℕ → List RemotePresence → List Text → List Text × List CursorCall
unfolding show_entry
show_entries own doc_length [] known = (known, [])
show_entries own doc_length (entry ∷ presence) known =
    let (known', calls) = show_entry own doc_length entry known in
    let (known'', more) = show_entries own doc_length presence known' in (known'', calls ++ more)

abbrev pub ids_of : List RemotePresence → List Text
ids_of = map (λ entry. entry.replica_id)

unfoldable pub sync_cursors :
    Text → ℕ → List RemotePresence → List Text → List Text × List CursorCall
unfolding drop_left show_entries
sync_cursors own doc_length presence known =
    let (kept, dropped) = drop_left (ids_of presence) known in
    let (shown, calls) = show_entries own doc_length presence kept in (shown, dropped ++ calls)

-- The sources of Quill's events.
pub data Source : Type 0 where
  from_user : Source
  from_api : Source
  silent : Source

unfoldable pub handle_text_change : Source → List DeltaOp → DocumentClient → DocumentClient × Bool
unfolding delta_to_edits apply_local_edits
handle_text_change from_user delta c = apply_local_edits (delta_to_edits delta) c
handle_text_change from_api delta c = (c, true)
handle_text_change silent delta c = (c, true)

unfoldable pub handle_selection_change : Source → Option Range → DocumentClient → DocumentClient
unfolding update_presence
handle_selection_change from_user none c = update_presence none none c
handle_selection_change from_user (some range) c =
    update_presence (some range.index)
      (some (record { anchor = range.index; head = range.index + range.length })) c
handle_selection_change from_api range c = c
handle_selection_change silent range c = c
