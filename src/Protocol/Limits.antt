-- ===== src/Protocol/Limits.antt =====
-- Which messages pass the schemas of packages/protocol/src/messages.ts and
-- packages/protocol/src/op.ts.
use ysync.Common.{
  Bool-cases, inl, inr, ℕ, ◌≡◌, refl, ap₂, ◌∙◌, Bool, true, false, ◌&&◌, List, [], ◌∷◌, Option,
  none, some, leb, length, arith,
}
use ysync.Common.Texts.{Text, text_eq}
use ysync.Crdt.OpId.{OpId}
use ysync.Crdt.Node.{FormatMark}
use ysync.Crdt.Op.{Op, insert, delete, format}
use ysync.Protocol.{Selection, ClientMessage, join, op, presence, leave}
use ysync.Protocol.Json.{
  attrs_key, name_key, color_key, empty_object, encode_id, encode_origin, encode_marks,
  encode_attrs, encode_set, encode_op, encode_ops, encode_selection, encode_cursor, encode_label,
  encode_awareness, encode_client_message,
}
use ysync.Protocol.Zod.{Zod, IsZod, is_between, count_items, get_field, all_items, all_fields}
use ysync.Protocol.Schemas.{
  ParseResult, success, failure, parse_client_message, to_parse_result, op_id_schema,
  format_mark_schema, op_schema, selection_schema, client_message_schema,
}

unfoldable pub has_replica : OpId → Bool
has_replica id = leb 1 (length id.replica_id)

unfoldable pub has_origin_replica : Option OpId → Bool
unfolding has_replica
has_origin_replica none = true
has_origin_replica (some id) = has_replica id

-- Every id has a replica, a text has at most 4000 code units, and a mark's name 1 to 100.
unfoldable pub is_op_within : Op → Bool
unfolding has_replica has_origin_replica
is_op_within (insert o) =
    has_replica o.id && (has_origin_replica o.origin_id && leb (length o.value) 4000)
is_op_within (delete o) = has_replica o.target_id
is_op_within (format o) =
    has_replica o.id
    && (has_replica o.target_id && (leb 1 (length o.mark) && leb (length o.mark) 100))

unfoldable pub are_ops_within : List Op → Bool
unfolding is_op_within
are_ops_within [] = true
are_ops_within (o ∷ ops) = is_op_within o && are_ops_within ops

unfoldable pub is_name_within : Text → Bool
is_name_within t = leb 1 (length t) && leb (length t) 200

unfoldable pub is_label_within : ℕ → Option Text → Bool
is_label_within high none = true
is_label_within high (some t) = leb (length t) high

-- The names of documents and replicas have 1 to 200 code units, a batch has 1 to 2000 ops, a user's
-- name has at most 100 code units, and a color at most 32.
unfoldable pub is_within_limits : ClientMessage → Bool
unfolding are_ops_within is_name_within is_label_within
is_within_limits (join doc_id replica_id since_seq) =
    is_name_within doc_id && is_name_within replica_id
is_within_limits (op doc_id ops) =
    is_name_within doc_id && ((leb 1 (length ops) && leb (length ops) 2000) && are_ops_within ops)
is_within_limits (presence doc_id awareness) =
    is_name_within doc_id
    && (is_label_within 100 awareness.name && is_label_within 32 awareness.color)
is_within_limits (leave doc_id) = is_name_within doc_id

count_items-encode_ops : (ops : List Op) → count_items (encode_ops ops) ≡ length ops
unfolding count_items encode_ops
count_items-encode_ops [] = refl
count_items-encode_ops (o ∷ ops) = omega (arith, count_items-encode_ops ops)

unfoldable pub is_success : ParseResult → Bool
is_success (success _) = true
is_success (failure _) = false

module _ (Z : Zod) (I : IsZod Z) where
  accepts-id : (id : OpId) → I.accepts (op_id_schema Z) (some (encode_id id)) ≡ has_replica id
  unfolding encode_id has_replica get_field text_eq is_between
  accepts-id id = rw (I.accepts-object, I.accepts-natural, I.accepts-string) (ground arith)

  accepts-origin :
      (o : Option OpId)
      → I.accepts (Z.nullable (op_id_schema Z)) (some (encode_origin o)) ≡ has_origin_replica o
  unfolding encode_origin has_origin_replica encode_id
  accepts-origin none = I.accepts-nullable_null _
  accepts-origin (some id) = I.accepts-nullable_object _ _ ∙ accepts-id id

  all_fields-marks :
      (marks : FormatMark) → all_fields Z I.accepts Z.literal_true (encode_marks marks) ≡ true
  unfolding encode_marks
  all_fields-marks [] = refl
  all_fields-marks (m ∷ marks) = rw (I.accepts-literal_true_boolean, all_fields-marks marks) refl

  accepts-set :
      (b : Bool) → I.accepts (Z.union Z.literal_true Z.null_schema) (some (encode_set b)) ≡ true
  unfolding encode_set
  accepts-set true = I.accepts-union _ _ _ ∙ rw (I.accepts-literal_true_boolean) refl
  accepts-set false = I.accepts-union _ _ _ ∙ rw (I.accepts-literal_true_null, I.accepts-null) refl

  accepts-attrs :
      (attrs : Option FormatMark)
      → I.accepts (Z.optional (format_mark_schema Z)) (get_field attrs_key (encode_attrs attrs))
        ≡ true
  unfolding encode_attrs get_field text_eq
  accepts-attrs none = I.accepts-optional_none _
  accepts-attrs (some marks) =
      I.accepts-optional_some _ _ ∙ I.accepts-record _ _ ∙ all_fields-marks marks

  accepts-op : (o : Op) → I.accepts (op_schema Z) (some (encode_op o)) ≡ is_op_within o
  unfolding encode_op is_op_within get_field text_eq is_between
  accepts-op (insert o) =
      simp
        (
          I.accepts-by_type, I.accepts-object, I.accepts-literal_string, I.accepts-natural,
          I.accepts-string, accepts-origin, accepts-attrs,
        )
        (ground arith)
  accepts-op (delete o) =
      simp
        (
          I.accepts-by_type, I.accepts-object, I.accepts-literal_string, I.accepts-natural,
          I.accepts-string,
        )
        (ground arith)
  accepts-op (format o) =
      simp
        (
          I.accepts-by_type, I.accepts-object, I.accepts-literal_string, I.accepts-natural,
          I.accepts-string, accepts-set,
        )
        (ground arith)

  all_items-ops :
      (ops : List Op) → all_items Z I.accepts (op_schema Z) (encode_ops ops) ≡ are_ops_within ops
  unfolding encode_ops are_ops_within
  all_items-ops [] = refl
  all_items-ops (o ∷ ops) = ap₂ ◌&&◌ (accepts-op o) (all_items-ops ops)

  accepts-selection :
      (s : Option Selection) → I.accepts (selection_schema Z) (some (encode_selection s)) ≡ true
  unfolding encode_selection get_field text_eq
  accepts-selection none = I.accepts-nullable_null _
  accepts-selection (some s) =
      simp (I.accepts-nullable_object, I.accepts-object, I.accepts-natural) refl

  accepts-cursor :
      (c : Option ℕ) → I.accepts (Z.nullable Z.nonnegative_int) (some (encode_cursor c)) ≡ true
  unfolding encode_cursor
  accepts-cursor none = I.accepts-nullable_null _
  accepts-cursor (some n) = simp (I.accepts-nullable_natural, I.accepts-natural) refl

  accepts-name :
      (name color : Option Text)
      → I.accepts (Z.optional (Z.string_between none (some 100))) (
          get_field name_key
            (encode_label name_key name (encode_label color_key color empty_object)))
        ≡ is_label_within 100 name
  unfolding encode_label get_field text_eq is_label_within is_between
  accepts-name none none = I.accepts-optional_none _
  accepts-name none (some c) = I.accepts-optional_none _
  accepts-name (some n) color = simp (I.accepts-optional_some, I.accepts-string) refl

  accepts-color :
      (name color : Option Text)
      → I.accepts (Z.optional (Z.string_between none (some 32))) (
          get_field color_key
            (encode_label name_key name (encode_label color_key color empty_object)))
        ≡ is_label_within 32 color
  unfolding encode_label get_field text_eq is_label_within is_between
  accepts-color none none = I.accepts-optional_none _
  accepts-color (some n) none = I.accepts-optional_none _
  accepts-color none (some c) = simp (I.accepts-optional_some, I.accepts-string) refl
  accepts-color (some n) (some c) = simp (I.accepts-optional_some, I.accepts-string) refl

  accepts-client_message :
      (m : ClientMessage)
      → I.accepts (client_message_schema Z) (some (encode_client_message m)) ≡ is_within_limits m
  unfolding encode_client_message is_within_limits is_name_within encode_awareness get_field text_eq
      is_between
  accepts-client_message (join doc_id replica_id since_seq) =
      simp
        (
          I.accepts-by_type, I.accepts-object, I.accepts-literal_string, I.accepts-natural,
          I.accepts-string,
        )
        (ground arith)
  accepts-client_message (op doc_id ops) =
      simp
        (
          I.accepts-by_type, I.accepts-object, I.accepts-literal_string, I.accepts-string,
          I.accepts-array, all_items-ops, count_items-encode_ops,
        )
        (ground arith)
  accepts-client_message (presence doc_id a) =
      simp
        (
          I.accepts-by_type, I.accepts-object, I.accepts-literal_string, I.accepts-string,
          I.accepts-optional_some, accepts-cursor, accepts-selection, accepts-name, accepts-color,
        )
        (ground arith)
  accepts-client_message (leave doc_id) =
      simp (I.accepts-by_type, I.accepts-object, I.accepts-literal_string, I.accepts-string)
        (ground arith)

  -- A client's message passes exactly when it is within the limits, whatever else it holds.
  pub parse_client_message-within :
      (m : ClientMessage)
      → is_success (parse_client_message Z (encode_client_message m)) ≡ is_within_limits m
  unfolding parse_client_message to_parse_result is_success
  parse_client_message-within m =
      let (passes, fails) = I.parsed (client_message_schema Z) (encode_client_message m) in
      elim (Bool-cases (is_within_limits m)) [
        | inl within ↦
            let (value, found) = passes (accepts-client_message m ∙ within) in
            rw (found, to_parse_result, within) refl
        | inr beyond ↦ rw (fails (accepts-client_message m ∙ beyond), to_parse_result, beyond) refl
      ]
