-- ===== src/Protocol/Json.antt =====
-- JSON values, and the objects that `JSON.stringify` makes of the messages of
-- packages/protocol/src/messages.ts and the ops of packages/protocol/src/op.ts.
use ysync.Common.{ℕ, Bool, true, false, List, [], ◌∷◌, Option, none, some}
use ysync.Common.Texts.{Text}
use ysync.Crdt.OpId.{OpId}
use ysync.Crdt.Node.{FormatMark}
use ysync.Crdt.Op.{Op, insert, delete, format}
use ysync.Protocol.{Selection, Awareness, ClientMessage, join, op, presence, leave}

-- A number that is no natural number is negative or has a fraction.
mutual
  pub data Json : Type 0 where
    null : Json
    boolean : Bool → Json
    natural : ℕ → Json
    other_number : Json
    string : Text → Json
    array : Items → Json
    object : Fields → Json

  pub data Items : Type 0 where
    empty_array : Items
    item : Json → Items → Items

  pub data Fields : Type 0 where
    empty_object : Fields
    field : Text → Json → Fields → Fields

abbrev pub type_key : Text
type_key = b't' ∷ b'y' ∷ b'p' ∷ b'e' ∷ []

abbrev pub doc_id_key : Text
doc_id_key = b'd' ∷ b'o' ∷ b'c' ∷ b'I' ∷ b'd' ∷ []

abbrev pub replica_id_key : Text
replica_id_key = b'r' ∷ b'e' ∷ b'p' ∷ b'l' ∷ b'i' ∷ b'c' ∷ b'a' ∷ b'I' ∷ b'd' ∷ []

abbrev pub since_seq_key : Text
since_seq_key = b's' ∷ b'i' ∷ b'n' ∷ b'c' ∷ b'e' ∷ b'S' ∷ b'e' ∷ b'q' ∷ []

abbrev pub ops_key : Text
ops_key = b'o' ∷ b'p' ∷ b's' ∷ []

abbrev pub cursor_key : Text
cursor_key = b'c' ∷ b'u' ∷ b'r' ∷ b's' ∷ b'o' ∷ b'r' ∷ []

abbrev pub selection_key : Text
selection_key = b's' ∷ b'e' ∷ b'l' ∷ b'e' ∷ b'c' ∷ b't' ∷ b'i' ∷ b'o' ∷ b'n' ∷ []

abbrev pub name_key : Text
name_key = b'n' ∷ b'a' ∷ b'm' ∷ b'e' ∷ []

abbrev pub color_key : Text
color_key = b'c' ∷ b'o' ∷ b'l' ∷ b'o' ∷ b'r' ∷ []

abbrev pub anchor_key : Text
anchor_key = b'a' ∷ b'n' ∷ b'c' ∷ b'h' ∷ b'o' ∷ b'r' ∷ []

abbrev pub head_key : Text
head_key = b'h' ∷ b'e' ∷ b'a' ∷ b'd' ∷ []

abbrev pub counter_key : Text
counter_key = b'c' ∷ b'o' ∷ b'u' ∷ b'n' ∷ b't' ∷ b'e' ∷ b'r' ∷ []

abbrev pub id_key : Text
id_key = b'i' ∷ b'd' ∷ []

abbrev pub origin_id_key : Text
origin_id_key = b'o' ∷ b'r' ∷ b'i' ∷ b'g' ∷ b'i' ∷ b'n' ∷ b'I' ∷ b'd' ∷ []

abbrev pub value_key : Text
value_key = b'v' ∷ b'a' ∷ b'l' ∷ b'u' ∷ b'e' ∷ []

abbrev pub attrs_key : Text
attrs_key = b'a' ∷ b't' ∷ b't' ∷ b'r' ∷ b's' ∷ []

abbrev pub target_id_key : Text
target_id_key = b't' ∷ b'a' ∷ b'r' ∷ b'g' ∷ b'e' ∷ b't' ∷ b'I' ∷ b'd' ∷ []

abbrev pub mark_key : Text
mark_key = b'm' ∷ b'a' ∷ b'r' ∷ b'k' ∷ []

abbrev pub seq_key : Text
seq_key = b's' ∷ b'e' ∷ b'q' ∷ []

abbrev pub state_key : Text
state_key = b's' ∷ b't' ∷ b'a' ∷ b't' ∷ b'e' ∷ []

abbrev pub op_ids_key : Text
op_ids_key = b'o' ∷ b'p' ∷ b'I' ∷ b'd' ∷ b's' ∷ []

abbrev pub code_key : Text
code_key = b'c' ∷ b'o' ∷ b'd' ∷ b'e' ∷ []

abbrev pub message_key : Text
message_key = b'm' ∷ b'e' ∷ b's' ∷ b's' ∷ b'a' ∷ b'g' ∷ b'e' ∷ []

abbrev pub tombstone_key : Text
tombstone_key = b't' ∷ b'o' ∷ b'm' ∷ b'b' ∷ b's' ∷ b't' ∷ b'o' ∷ b'n' ∷ b'e' ∷ []

abbrev pub format_clock_key : Text
format_clock_key = b'f' ∷ b'o' ∷ b'r' ∷ b'm' ∷ b'a' ∷ b't' ∷ b'C' ∷ b'l' ∷ b'o' ∷ b'c' ∷ b'k' ∷ []

abbrev pub insert_text : Text
insert_text = b'i' ∷ b'n' ∷ b's' ∷ b'e' ∷ b'r' ∷ b't' ∷ []

abbrev pub delete_text : Text
delete_text = b'd' ∷ b'e' ∷ b'l' ∷ b'e' ∷ b't' ∷ b'e' ∷ []

abbrev pub format_text : Text
format_text = b'f' ∷ b'o' ∷ b'r' ∷ b'm' ∷ b'a' ∷ b't' ∷ []

abbrev pub join_text : Text
join_text = b'j' ∷ b'o' ∷ b'i' ∷ b'n' ∷ []

abbrev pub op_text : Text
op_text = b'o' ∷ b'p' ∷ []

abbrev pub presence_text : Text
presence_text = b'p' ∷ b'r' ∷ b'e' ∷ b's' ∷ b'e' ∷ b'n' ∷ b'c' ∷ b'e' ∷ []

abbrev pub leave_text : Text
leave_text = b'l' ∷ b'e' ∷ b'a' ∷ b'v' ∷ b'e' ∷ []

abbrev pub snapshot_text : Text
snapshot_text = b's' ∷ b'n' ∷ b'a' ∷ b'p' ∷ b's' ∷ b'h' ∷ b'o' ∷ b't' ∷ []

abbrev pub sync_text : Text
sync_text = b's' ∷ b'y' ∷ b'n' ∷ b'c' ∷ []

abbrev pub ack_text : Text
ack_text = b'a' ∷ b'c' ∷ b'k' ∷ []

abbrev pub error_text : Text
error_text = b'e' ∷ b'r' ∷ b'r' ∷ b'o' ∷ b'r' ∷ []

abbrev pub broadcast_op_text : Text
broadcast_op_text =
    b'b' ∷ b'r' ∷ b'o' ∷ b'a' ∷ b'd' ∷ b'c' ∷ b'a' ∷ b's' ∷ b't' ∷ b'-' ∷ b'o' ∷ b'p' ∷ []

abbrev pub presence_update_text : Text
presence_update_text =
    b'p' ∷ b'r' ∷ b'e' ∷ b's' ∷ b'e' ∷ b'n' ∷ b'c' ∷ b'e' ∷ b'-' ∷ b'u' ∷ b'p' ∷ b'd' ∷ b'a' ∷ b't'
    ∷ b'e' ∷ []

abbrev pub presence_leave_text : Text
presence_leave_text =
    b'p' ∷ b'r' ∷ b'e' ∷ b's' ∷ b'e' ∷ b'n' ∷ b'c' ∷ b'e' ∷ b'-' ∷ b'l' ∷ b'e' ∷ b'a' ∷ b'v' ∷ b'e'
    ∷ []

unfoldable pub items_of : List Json → Items
items_of [] = empty_array
items_of (j ∷ js) = item j (items_of js)

unfoldable pub encode_id : OpId → Json
encode_id id = object (
    field counter_key (natural id.counter)
      (field replica_id_key (string id.replica_id) empty_object))

unfoldable pub encode_origin : Option OpId → Json
unfolding encode_id
encode_origin none = null
encode_origin (some id) = encode_id id

unfoldable pub encode_marks : FormatMark → Fields
encode_marks [] = empty_object
encode_marks ((k, _) ∷ marks) = field k (boolean true) (encode_marks marks)

unfoldable pub encode_attrs : Option FormatMark → Fields
unfolding encode_marks
encode_attrs none = empty_object
encode_attrs (some marks) = field attrs_key (object (encode_marks marks)) empty_object

unfoldable pub encode_set : Bool → Json
encode_set true = boolean true
encode_set false = null

unfoldable pub encode_op : Op → Json
unfolding encode_id encode_origin encode_attrs encode_set
encode_op (insert o) = object (
    field type_key (string insert_text) (
      field id_key (encode_id o.id) (
        field origin_id_key (encode_origin o.origin_id)
          (field value_key (string o.value) (encode_attrs o.attrs)))))
encode_op (delete o) =
    object (
      field type_key (string delete_text)
        (field target_id_key (encode_id o.target_id) empty_object))
encode_op (format o) = object (
    field type_key (string format_text) (
      field id_key (encode_id o.id) (
        field target_id_key (encode_id o.target_id)
          (field mark_key (string o.mark) (field value_key (encode_set o.value) empty_object)))))

unfoldable pub encode_ops : List Op → Items
unfolding encode_op
encode_ops [] = empty_array
encode_ops (o ∷ ops) = item (encode_op o) (encode_ops ops)

unfoldable pub encode_selection : Option Selection → Json
encode_selection none = null
encode_selection (some s) =
    object (field anchor_key (natural s.anchor) (field head_key (natural s.head) empty_object))

unfoldable pub encode_cursor : Option ℕ → Json
encode_cursor none = null
encode_cursor (some n) = natural n

-- A name or a color that is `undefined` is left out.
unfoldable pub encode_label : Text → Option Text → Fields → Fields
encode_label k none rest = rest
encode_label k (some t) rest = field k (string t) rest

unfoldable pub encode_awareness : Awareness → Fields
unfolding encode_cursor encode_selection encode_label
encode_awareness a = field cursor_key (encode_cursor a.cursor) (
    field selection_key (encode_selection a.selection)
      (encode_label name_key a.name (encode_label color_key a.color empty_object)))

unfoldable pub encode_client_message : ClientMessage → Json
unfolding encode_ops encode_awareness
encode_client_message (join doc_id replica_id since_seq) = object (
    field type_key (string join_text) (
      field doc_id_key (string doc_id) (
        field replica_id_key (string replica_id)
          (field since_seq_key (natural since_seq) empty_object))))
encode_client_message (op doc_id ops) = object (
    field type_key (string op_text)
      (field doc_id_key (string doc_id) (field ops_key (array (encode_ops ops)) empty_object)))
encode_client_message (presence doc_id awareness) = object (
    field type_key (string presence_text)
      (field doc_id_key (string doc_id) (encode_awareness awareness)))
encode_client_message (leave doc_id) =
    object (field type_key (string leave_text) (field doc_id_key (string doc_id) empty_object))
