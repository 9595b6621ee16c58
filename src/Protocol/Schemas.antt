-- ===== src/Protocol/Schemas.antt =====
-- The schemas of packages/protocol/src: messages.ts, op.ts, rgaSnapshot.ts and parse.ts.
use ysync.Common.{[], ◌∷◌, Option, none, some}
use ysync.Common.Texts.{Text}
use ysync.Common.Maps.{Map}
use ysync.Protocol.Json.{
  Json, type_key, doc_id_key, replica_id_key, since_seq_key, ops_key, cursor_key, selection_key,
  name_key, color_key, anchor_key, head_key, counter_key, id_key, origin_id_key, value_key,
  attrs_key, target_id_key, mark_key, seq_key, state_key, op_ids_key, code_key, message_key,
  tombstone_key, format_clock_key, insert_text, delete_text, format_text, join_text, op_text,
  presence_text, leave_text, snapshot_text, sync_text, ack_text, error_text, broadcast_op_text,
  presence_update_text, presence_leave_text,
}
use ysync.Protocol.Zod.{Zod}

-- `ParseResult<T>`
pub data ParseResult : Type 0 where
  success : Json → ParseResult
  failure : Text → ParseResult

module _ (Z : Zod) where
  abbrev pub op_id_schema : Z.Schema
  op_id_schema =
      Z.object_schema
        ((counter_key, Z.nonnegative_int) ∷ (replica_id_key, Z.string_between (some 1) none) ∷ [])

  abbrev pub format_mark_schema : Z.Schema
  format_mark_schema = Z.record_of Z.literal_true

  abbrev pub insert_op_schema : Z.Schema
  insert_op_schema = Z.object_schema (
      (type_key, Z.literal insert_text)
      ∷ (id_key, op_id_schema)
      ∷ (origin_id_key, Z.nullable op_id_schema)
      ∷ (value_key, Z.string_between none (some 4000))
      ∷ (attrs_key, Z.optional format_mark_schema)
      ∷ [])

  abbrev pub delete_op_schema : Z.Schema
  delete_op_schema =
      Z.object_schema ((type_key, Z.literal delete_text) ∷ (target_id_key, op_id_schema) ∷ [])

  abbrev pub format_op_schema : Z.Schema
  format_op_schema = Z.object_schema (
      (type_key, Z.literal format_text)
      ∷ (id_key, op_id_schema)
      ∷ (target_id_key, op_id_schema)
      ∷ (mark_key, Z.string_between (some 1) (some 100))
      ∷ (value_key, Z.union Z.literal_true Z.null_schema)
      ∷ [])

  abbrev pub op_schema : Z.Schema
  op_schema = Z.by_type (insert_op_schema ∷ delete_op_schema ∷ format_op_schema ∷ [])

  abbrev pub rga_snapshot_node_schema : Z.Schema
  rga_snapshot_node_schema = Z.object_schema (
      (id_key, op_id_schema)
      ∷ (origin_id_key, Z.nullable op_id_schema)
      ∷ (value_key, Z.nullable (Z.string_between none none))
      ∷ (tombstone_key, Z.boolean_schema)
      ∷ (attrs_key, Z.optional format_mark_schema)
      ∷ (format_clock_key, Z.optional (Z.record_of op_id_schema))
      ∷ [])

  abbrev pub doc_id_schema : Z.Schema
  doc_id_schema = Z.string_between (some 1) (some 200)

  abbrev pub replica_id_schema : Z.Schema
  replica_id_schema = Z.string_between (some 1) (some 200)

  abbrev pub seq_schema : Z.Schema
  seq_schema = Z.nonnegative_int

  abbrev pub selection_schema : Z.Schema
  selection_schema =
      Z.nullable
        (Z.object_schema ((anchor_key, Z.nonnegative_int) ∷ (head_key, Z.nonnegative_int) ∷ []))

  abbrev pub awareness_fields : Map Z.Schema
  awareness_fields =
      (cursor_key, Z.optional (Z.nullable Z.nonnegative_int))
      ∷ (selection_key, Z.optional selection_schema)
      ∷ (name_key, Z.optional (Z.string_between none (some 100)))
      ∷ (color_key, Z.optional (Z.string_between none (some 32)))
      ∷ []

  abbrev pub join_message_schema : Z.Schema
  join_message_schema = Z.object_schema (
      (type_key, Z.literal join_text)
      ∷ (doc_id_key, doc_id_schema)
      ∷ (replica_id_key, replica_id_schema)
      ∷ (since_seq_key, seq_schema)
      ∷ [])

  abbrev pub op_message_schema : Z.Schema
  op_message_schema = Z.object_schema (
      (type_key, Z.literal op_text)
      ∷ (doc_id_key, doc_id_schema)
      ∷ (ops_key, Z.array_between (some 1) (some 2000) op_schema)
      ∷ [])

  abbrev pub presence_message_schema : Z.Schema
  presence_message_schema =
      Z.object_schema
        ((type_key, Z.literal presence_text) ∷ (doc_id_key, doc_id_schema) ∷ awareness_fields)

  abbrev pub leave_message_schema : Z.Schema
  leave_message_schema =
      Z.object_schema ((type_key, Z.literal leave_text) ∷ (doc_id_key, doc_id_schema) ∷ [])

  abbrev pub client_message_schema : Z.Schema
  client_message_schema = Z.by_type (
      join_message_schema ∷ op_message_schema ∷ presence_message_schema ∷ leave_message_schema ∷ [])

  abbrev pub snapshot_message_schema : Z.Schema
  snapshot_message_schema = Z.object_schema (
      (type_key, Z.literal snapshot_text)
      ∷ (doc_id_key, doc_id_schema)
      ∷ (seq_key, seq_schema)
      ∷ (state_key, Z.array_between none none rga_snapshot_node_schema)
      ∷ [])

  abbrev pub sync_message_schema : Z.Schema
  sync_message_schema = Z.object_schema (
      (type_key, Z.literal sync_text)
      ∷ (doc_id_key, doc_id_schema)
      ∷ (seq_key, seq_schema)
      ∷ (ops_key, Z.array_between none none op_schema)
      ∷ [])

  abbrev pub ack_message_schema : Z.Schema
  ack_message_schema = Z.object_schema (
      (type_key, Z.literal ack_text)
      ∷ (doc_id_key, doc_id_schema)
      ∷ (seq_key, seq_schema)
      ∷ (op_ids_key, Z.array_between none none op_id_schema)
      ∷ [])

  abbrev pub broadcast_op_message_schema : Z.Schema
  broadcast_op_message_schema = Z.object_schema (
      (type_key, Z.literal broadcast_op_text)
      ∷ (doc_id_key, doc_id_schema)
      ∷ (seq_key, seq_schema)
      ∷ (ops_key, Z.array_between none none op_schema)
      ∷ [])

  abbrev pub presence_update_message_schema : Z.Schema
  presence_update_message_schema = Z.object_schema (
      (type_key, Z.literal presence_update_text)
      ∷ (doc_id_key, doc_id_schema)
      ∷ (replica_id_key, replica_id_schema)
      ∷ awareness_fields)

  abbrev pub presence_leave_message_schema : Z.Schema
  presence_leave_message_schema = Z.object_schema (
      (type_key, Z.literal presence_leave_text)
      ∷ (doc_id_key, doc_id_schema)
      ∷ (replica_id_key, replica_id_schema)
      ∷ [])

  abbrev pub error_message_schema : Z.Schema
  error_message_schema = Z.object_schema (
      (type_key, Z.literal error_text)
      ∷ (code_key, Z.string_between none none)
      ∷ (message_key, Z.string_between none none)
      ∷ [])

  abbrev pub server_message_schema : Z.Schema
  server_message_schema = Z.by_type (
      snapshot_message_schema ∷ sync_message_schema ∷ ack_message_schema
      ∷ broadcast_op_message_schema ∷ presence_update_message_schema ∷ presence_leave_message_schema
      ∷ error_message_schema ∷ [])

  unfoldable pub to_parse_result : Z.Schema → Json → Option Json → ParseResult
  to_parse_result s raw (some value) = success value
  to_parse_result s raw none = failure (Z.error_message s raw)

  unfoldable pub parse_client_message : Json → ParseResult
  unfolding to_parse_result
  parse_client_message raw =
      to_parse_result client_message_schema raw (Z.safe_parse client_message_schema raw)

  unfoldable pub parse_server_message : Json → ParseResult
  unfolding to_parse_result
  parse_server_message raw =
      to_parse_result server_message_schema raw (Z.safe_parse server_message_schema raw)
