-- ===== src/Tests/Protocol.antt =====
-- The limits of packages/protocol/src under a zod that is a function.
use ysync.Common.{
  ℕ, zero, suc, ◌≡◌, refl, ap, Bool, true, false, ◌&&◌, ◌||◌, List, [], ◌∷◌, ◌++◌, Option, none,
  some, length, if◌then◌else◌, arith,
}
use ysync.Common.Texts.{Text, text_eq}
use ysync.Common.Maps.{Map, values}
use ysync.Crdt.Op.{Op, InsertOp, insert}
use ysync.Protocol.{op}
use ysync.Protocol.Json.{
  Json, null, boolean, natural, other_number, string, array, object, Items, empty_array, item,
  Fields, empty_object, field, encode_client_message,
}
use ysync.Protocol.Zod.{
  Zod, IsZod, is_between, count_items, get_field, all_items, all_fields, all_keys, any_option,
}
use ysync.Protocol.Schemas.{parse_client_message}
use ysync.Protocol.Limits.{is_success, is_within_limits, parse_client_message-within}
use ysync.Web.DocumentClient.{DocumentClient, new_client}
use ysync.Web.DocumentClient.Messages.{flush_outbox}
use ysync.Web.DocumentClient.Batches.{flush_outbox-rejected}

-- A schema that says which values it accepts.
abbrev Check : Type 0
Check = Option Json → Bool

abbrev check_literal : Text → Check
check_literal t (some (string u)) = text_eq t u
check_literal t _ = false

abbrev check_true : Check
check_true (some (boolean b)) = b
check_true _ = false

abbrev check_null : Check
check_null (some null) = true
check_null _ = false

abbrev check_boolean : Check
check_boolean (some (boolean b)) = true
check_boolean _ = false

abbrev check_natural : Check
check_natural (some (natural n)) = true
check_natural _ = false

abbrev check_string : Option ℕ → Option ℕ → Check
check_string low high (some (string t)) = is_between low high (length t)
check_string low high _ = false

abbrev check_items : Check → Items → Bool
check_items s empty_array = true
check_items s (item j items) = s (some j) && check_items s items

abbrev check_array : Option ℕ → Option ℕ → Check → Check
check_array low high s (some (array items)) =
    is_between low high (count_items items) && check_items s items
check_array low high s _ = false

abbrev check_nullable : Check → Check
check_nullable s (some null) = true
check_nullable s (some (boolean b)) = s (some (boolean b))
check_nullable s (some (natural n)) = s (some (natural n))
check_nullable s (some other_number) = s (some other_number)
check_nullable s (some (string t)) = s (some (string t))
check_nullable s (some (array items)) = s (some (array items))
check_nullable s (some (object fields)) = s (some (object fields))
check_nullable s none = s none

abbrev check_optional : Check → Check
check_optional s none = true
check_optional s (some j) = s (some j)

abbrev check_fields : Check → Fields → Bool
check_fields s empty_object = true
check_fields s (field _ j fields) = s (some j) && check_fields s fields

abbrev check_record : Check → Check
check_record s (some (object fields)) = check_fields s fields
check_record s _ = false

abbrev check_union : Check → Check → Check
check_union s t o = s o || t o

abbrev check_keys : Map Check → Fields → Bool
check_keys [] fields = true
check_keys ((k, s) ∷ shape) fields = s (get_field k fields) && check_keys shape fields

abbrev check_object : Map Check → Check
check_object shape (some (object fields)) = check_keys shape fields
check_object shape _ = false

abbrev check_options : List Check → Check
check_options [] o = false
check_options (s ∷ options) o = s o || check_options options o

abbrev pub plain_zod : Zod
plain_zod = record {
  Schema = Check;
  literal = check_literal;
  literal_true = check_true;
  null_schema = check_null;
  boolean_schema = check_boolean;
  nonnegative_int = check_natural;
  string_between = check_string;
  array_between = check_array;
  nullable = check_nullable;
  optional = check_optional;
  record_of = check_record;
  union = check_union;
  object_schema = check_object;
  by_type = check_options;
  safe_parse = λ s j. if s (some j) then some j else none;
  error_message = λ s j. [];
}

apply_check : Check → Option Json → Bool
apply_check s o = s o

pub plain_zod-IsZod : IsZod plain_zod
unfolding apply_check
plain_zod-IsZod = record {
  accepts = apply_check;
  parsed = λ s j. ((λ t. (j, rw (t, if◌then◌else◌) refl)), (λ f. rw (f, if◌then◌else◌) refl));
  accepts-literal_string = λ t u. refl;
  accepts-literal_true_boolean = λ b. refl;
  accepts-literal_true_null = refl;
  accepts-null = refl;
  accepts-null_boolean = λ b. refl;
  accepts-natural = λ n. refl;
  accepts-string = λ low high t. refl;
  accepts-array =
      λ low high s items. ap (is_between low high (count_items items) &&◌) (same_items s items);
  accepts-nullable_null = λ s. refl;
  accepts-nullable_object = λ s fields. refl;
  accepts-nullable_natural = λ s n. refl;
  accepts-optional_none = λ s. refl;
  accepts-optional_some = λ s j. refl;
  accepts-record = λ s fields. same_fields s fields;
  accepts-union = λ s t j. refl;
  accepts-object = λ shape fields. same_keys shape fields;
  accepts-by_type = λ options fields. same_options options fields;
}
  where
    same_items :
        (s : Check) (items : Items) → check_items s items ≡ all_items plain_zod apply_check s items
    same_items s empty_array = refl
    same_items s (item j items) = ap (s (some j) &&◌) (same_items s items)

    same_fields :
        (s : Check) (fields : Fields)
        → check_fields s fields ≡ all_fields plain_zod apply_check s fields
    same_fields s empty_object = refl
    same_fields s (field k j fields) = ap (s (some j) &&◌) (same_fields s fields)

    same_keys :
        (shape : Map Check) (fields : Fields)
        → check_keys shape fields ≡ all_keys plain_zod apply_check shape fields
    same_keys [] fields = refl
    same_keys ((k, s) ∷ shape) fields = ap (s (get_field k fields) &&◌) (same_keys shape fields)

    same_options :
        (options : List Check) (fields : Fields)
        → check_options options (some (object fields))
          ≡ any_option plain_zod apply_check options (object fields)
    same_options [] fields = refl
    same_options (s ∷ options) fields =
        ap (s (some (object fields)) ||◌) (same_options options fields)

abbrev notes : Text
notes = b'n' ∷ []

abbrev letter : InsertOp
letter = record {
  id = record { counter = 1; replica_id = notes };
  origin_id = none;
  value = b'x' ∷ [];
  attrs = none;
}

parse_client_message-within_example :
    is_success
      (parse_client_message plain_zod (encode_client_message (op notes (insert letter ∷ []))))
    ≡ is_within_limits (op notes (insert letter ∷ []))
parse_client_message-within_example =
    parse_client_message-within plain_zod plain_zod-IsZod (op notes (insert letter ∷ []))

-- An outbox of `n` records.
abbrev filled : ℕ → Map Op
filled zero = []
filled (suc n) = (notes, insert letter) ∷ filled n

abbrev full_client : DocumentClient
full_client = record (new_client notes) { ws = some true; outbox = filled 2001 }

flush_outbox-rejected_example :
    ((flush_outbox full_client).sent
      ≡ full_client.sent ++ op full_client.doc_id (values full_client.outbox) ∷ [])
    × (is_success (
          parse_client_message plain_zod
            (encode_client_message (op full_client.doc_id (values full_client.outbox))))
        ≡ false)
unfolding new_client
flush_outbox-rejected_example =
    flush_outbox-rejected plain_zod plain_zod-IsZod full_client refl (omega arith)
