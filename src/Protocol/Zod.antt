-- ===== src/Protocol/Zod.antt =====
-- zod, which is a parameter: the methods that packages/protocol/src calls, and what they document.
use ysync.Common.{
  ℕ, ◌≡◌, Bool, true, false, ◌&&◌, ◌||◌, List, [], ◌∷◌, Option, none, some, leb, length, ◌+◌,
  if◌then◌else◌,
}
use ysync.Common.Texts.{Text, text_eq}
use ysync.Common.Maps.{Map}
use ysync.Protocol.Json.{
  Json, null, boolean, natural, string, array, object, Items, empty_array, item, Fields,
  empty_object, field,
}

-- Bounds of lengths are inclusive; `none` is no bound.
pub record Zod : Type 1 where
  pub Schema : Type 0
  pub literal : Text → Schema
  pub literal_true : Schema
  pub null_schema : Schema
  pub boolean_schema : Schema
  pub nonnegative_int : Schema
  pub string_between : Option ℕ → Option ℕ → Schema
  pub array_between : Option ℕ → Option ℕ → Schema → Schema
  pub nullable : Schema → Schema
  pub optional : Schema → Schema
  pub record_of : Schema → Schema
  pub union : Schema → Schema → Schema
  pub object_schema : Map Schema → Schema
  -- z.discriminatedUnion("type", ...)
  pub by_type : List Schema → Schema
  -- The data, or the message of the error.
  pub safe_parse : Schema → Json → Option Json
  pub error_message : Schema → Json → Text

unfoldable pub is_between : Option ℕ → Option ℕ → ℕ → Bool
is_between none none n = true
is_between none (some high) n = leb n high
is_between (some low) none n = leb low n
is_between (some low) (some high) n = leb low n && leb n high

unfoldable pub count_items : Items → ℕ
count_items empty_array = 0
count_items (item _ items) = 1 + count_items items

-- `object[key]`; `none` is undefined.
unfoldable pub get_field : Text → Fields → Option Json
get_field k empty_object = none
get_field k (field j v fields) =
    let rest = get_field k fields in if text_eq j k then some v else rest

module _ (Z : Zod) (accepts : Z.Schema → Option Json → Bool) where
  abbrev pub all_items : Z.Schema → Items → Bool
  all_items s empty_array = true
  all_items s (item j items) = accepts s (some j) && all_items s items

  abbrev pub all_fields : Z.Schema → Fields → Bool
  all_fields s empty_object = true
  all_fields s (field _ j fields) = accepts s (some j) && all_fields s fields

  abbrev pub all_keys : Map Z.Schema → Fields → Bool
  all_keys [] fields = true
  all_keys ((k, s) ∷ shape) fields = accepts s (get_field k fields) && all_keys shape fields

  abbrev pub any_option : List Z.Schema → Json → Bool
  any_option [] j = false
  any_option (s ∷ options) j = accepts s (some j) || any_option options j

-- `accepts s none` is that the schema accepts `undefined`, as an optional field's does. An object
-- drops the keys that its shape does not have.
pub record IsZod (Z : Zod) : Type 0 where
  pub accepts : Z.Schema → Option Json → Bool
  pub parsed :
      (s : Z.Schema) (j : Json)
      → (accepts s (some j) ≡ true → (value : Json) × (Z.safe_parse s j ≡ some value))
        × (accepts s (some j) ≡ false → Z.safe_parse s j ≡ none)
  pub accepts-literal_string : (t u : Text) → accepts (Z.literal t) (some (string u)) ≡ text_eq t u
  pub accepts-literal_true_boolean : (b : Bool) → accepts Z.literal_true (some (boolean b)) ≡ b
  pub accepts-literal_true_null : accepts Z.literal_true (some null) ≡ false
  pub accepts-null : accepts Z.null_schema (some null) ≡ true
  pub accepts-null_boolean : (b : Bool) → accepts Z.null_schema (some (boolean b)) ≡ false
  pub accepts-natural : (n : ℕ) → accepts Z.nonnegative_int (some (natural n)) ≡ true
  pub accepts-string :
      (low high : Option ℕ) (t : Text)
      → accepts (Z.string_between low high) (some (string t)) ≡ is_between low high (length t)
  pub accepts-array :
      (low high : Option ℕ) (s : Z.Schema) (items : Items)
      → accepts (Z.array_between low high s) (some (array items))
        ≡ (is_between low high (count_items items) && all_items Z accepts s items)
  pub accepts-nullable_null : (s : Z.Schema) → accepts (Z.nullable s) (some null) ≡ true
  pub accepts-nullable_object :
      (s : Z.Schema) (fields : Fields)
      → accepts (Z.nullable s) (some (object fields)) ≡ accepts s (some (object fields))
  pub accepts-nullable_natural :
      (s : Z.Schema) (n : ℕ)
      → accepts (Z.nullable s) (some (natural n)) ≡ accepts s (some (natural n))
  pub accepts-optional_none : (s : Z.Schema) → accepts (Z.optional s) none ≡ true
  pub accepts-optional_some :
      (s : Z.Schema) (j : Json) → accepts (Z.optional s) (some j) ≡ accepts s (some j)
  pub accepts-record :
      (s : Z.Schema) (fields : Fields)
      → accepts (Z.record_of s) (some (object fields)) ≡ all_fields Z accepts s fields
  pub accepts-union :
      (s t : Z.Schema) (j : Json)
      → accepts (Z.union s t) (some j) ≡ (accepts s (some j) || accepts t (some j))
  pub accepts-object :
      (shape : Map Z.Schema) (fields : Fields)
      → accepts (Z.object_schema shape) (some (object fields)) ≡ all_keys Z accepts shape fields
  pub accepts-by_type :
      (options : List Z.Schema) (fields : Fields)
      → accepts (Z.by_type options) (some (object fields))
        ≡ any_option Z accepts options (object fields)
