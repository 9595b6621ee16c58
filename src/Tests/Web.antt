-- ===== src/Tests/Web.antt =====
-- The theorems on apps/web at concrete deltas and documents.
use ysync.Common.{ℕ, length, ◌≡◌, refl, true, List, [], ◌∷◌, map, Option, none, some}
use ysync.Common.Texts.{Text}
use ysync.Common.Maps.{Map, values}
use ysync.Crdt.OpId.{op_id_to_string}
use ysync.Crdt.Op.{InsertOp, insert, delete}
use ysync.Crdt.Rga.{new_rga, apply_all, find_node}
use ysync.Web.DocumentClient.{DocumentClient, new_client, set_simulated_offline}
use ysync.Web.DocumentClient.Connection.{
  Event, edited, timer, ended, moved, heartbeat, run, IsSilent, set_simulated_offline-IsSilent,
}
use ysync.Web.DocumentClient.Messages.{handle_server_message}
use ysync.Web.DocumentClient.CatchUp.{handle_server_message-snapshot}
use ysync.Crdt.View.{read, get_contents_for_editor}
use ysync.Protocol.{snapshot}
use ysync.Server.Room
use ysync.Server.Room.{Room}
use ysync.Web.DocumentClient.Edits.{add_all}
use ysync.Web.DocumentClient.Edits.Outbox.{add_all-insert_delete}
use ysync.Crdt.Node.{FormatMark, FormatPatch}
use ysync.Web.DeltaToEdits.{Edit, AttributeValue, boolean, to_format_patch, delta_to_edits}
use ysync.Web.DeltaToEdits.Refines.{Change, keep, add, drop, encode, change, apply_edits}

-- A character, and the patches it took.
abbrev Character : Type 0
Character = Text × List FormatPatch

abbrev plain : Text → Option FormatMark → Character
plain value attrs = (value, [])

abbrev patched : FormatPatch → Character → Character
patched patch (value, patches) = (value, patch ∷ patches)

abbrev page : List Character
page = (b'a' ∷ [], []) ∷ (b'b' ∷ [], []) ∷ (b'c' ∷ [], []) ∷ []

abbrev changes : List Change
changes =
    keep 1 none
    ∷ add (0xD83D ∷ 0xDE00 ∷ b'x' ∷ []) none
    ∷ drop 1
    ∷ keep 1 (some ((b'b' ∷ [], boolean true) ∷ []))
    ∷ []

abbrev object : Option (Map AttributeValue) → Character
object attributes = ([], [])

abbrev width : Character → ℕ
width (value, patches) = length value

-- Behind a character with two code units Quill drops the `b`, and the edits the `c`.
abbrev wide_page : List Character
wide_page = (0xD83D ∷ 0xDE00 ∷ [], []) ∷ (b'b' ∷ [], []) ∷ (b'c' ∷ [], []) ∷ []

wide_change :
    change plain patched object width (keep 2 none ∷ drop 1 ∷ []) wide_page
    ≡ (0xD83D ∷ 0xDE00 ∷ [], []) ∷ (b'c' ∷ [], []) ∷ []
unfolding to_format_patch
wide_change = refl

wide_edits :
    apply_edits plain patched object width
      (delta_to_edits (map encode (keep 2 none ∷ drop 1 ∷ [])))
      wide_page
    ≡ (0xD83D ∷ 0xDE00 ∷ [], []) ∷ (b'b' ∷ [], []) ∷ []
unfolding delta_to_edits
wide_edits = refl

abbrev client : DocumentClient
client = new_client (b'n' ∷ [])

abbrev events : List Event
events =
    edited (Edit.insert 0 (b'x' ∷ []) none ∷ [])
    ∷ timer
    ∷ ended true
    ∷ moved (some 1) none
    ∷ heartbeat
    ∷ []

set_simulated_offline-IsSilent_example :
    IsSilent client (run events (set_simulated_offline true client))
unfolding new_client
set_simulated_offline-IsSilent_example = set_simulated_offline-IsSilent events client refl

abbrev letter : InsertOp
letter = record {
  id = record { counter = 1; replica_id = b'a' ∷ [] };
  origin_id = none;
  value = b'x' ∷ [];
  attrs = none;
}

abbrev key : Text
key = op_id_to_string letter.id

add_all-insert_delete_example :
    (values (add_all (insert letter ∷ delete (record { target_id = letter.id }) ∷ []) [])
      ≡ delete (record { target_id = letter.id }) ∷ [])
    × ((apply_all
          (values (add_all (insert letter ∷ delete (record { target_id = letter.id }) ∷ []) []))
          (new_rga (b's' ∷ []))).nodes
        ≡ (new_rga (b's' ∷ [])).nodes)
unfolding find_node new_rga
add_all-insert_delete_example = add_all-insert_delete letter (new_rga (b's' ∷ [])) refl

abbrev room : Room
room = Room.apply_ops (insert letter ∷ []) 1 (Room.new_room (b'n' ∷ []) (new_rga (b's' ∷ [])))

handle_server_message-snapshot_example :
    let c' = handle_server_message (snapshot room.doc_id room.seq (Room.snapshot room)) client in
    (read c'.rga ≡ read room.rga)
    × (get_contents_for_editor c'.rga ≡ get_contents_for_editor room.rga)
    × (c'.last_acked_seq ≡ room.seq)
    × (c'.sent ≡ client.sent)
unfolding new_client
handle_server_message-snapshot_example = handle_server_message-snapshot room client refl
