-- ===== src/Protocol/StreamMessage.antt =====
-- `StreamMessage` of packages/protocol/src/protocol/message_layer, its identifiers and references,
-- and its serializers of the versions 30, 31 and 32. `stringify` is `JSON.stringify`, and `parse` is
-- `JSON.parse`, `none` where it throws. `none` as a result is an error that the code throws.
pub mod Serializers
pub mod RoundTrip
mod Tests
use network_monorepo.Prelude.{
  ℕ, Bool, true, false, not, ◌&&◌, Option, none, some, List, [], ◌∷◌, ltb, if◌then◌else◌, ◌==◌,
  Ordering, Text, codes,
}
use network_monorepo.Protocol.Validations.{
  validate_is_string, validate_is_not_empty_string, validate_is_not_negative_integer,
}
use network_monorepo.Protocol.Json.{
  Json, undefined, null, text, natural, array, Items, nil, cons, shape, first, rest, items_of,
  is_truthy, is_object, or_default, is_enum_value,
}

-- `MessageID`, as its fields are at run time.
pub record MessageId : Type 0 where
  pub stream_id : Json
  pub stream_partition : Json
  pub timestamp : Json
  pub sequence_number : Json
  pub publisher_id : Json
  pub msg_chain_id : Json

pub record Reference : Type 0 where
  pub timestamp : Json
  pub sequence_number : Json

pub record EncryptedGroupKey : Type 0 where
  pub group_key_id : Json
  pub encrypted_group_key_hex : Json
  pub serialized : Json

pub record StreamMessage : Type 0 where
  pub message_id : MessageId
  pub prev_msg_ref : Option Reference
  pub message_type : Json
  pub content_type : Json
  pub encryption_type : Json
  pub group_key_id : Json
  pub new_group_key : Option EncryptedGroupKey
  pub signature_type : Json
  pub signature : Json
  pub serialized_content : Json

-- The argument of the constructor.
pub record Options : Type 0 where
  pub message_id : MessageId
  pub prev_msg_ref : Option Reference
  pub content : Json
  pub message_type : Json
  pub content_type : Json
  pub encryption_type : Json
  pub group_key_id : Json
  pub new_group_key : Option EncryptedGroupKey
  pub signature_type : Json
  pub signature : Json

-- What the constructor of `MessageID` checks, and what that of `MessageIDStrict` checks besides.
unfoldable pub is_valid_id : MessageId → Bool
is_valid_id i =
    validate_is_not_empty_string false (shape i.stream_id)
    && validate_is_not_negative_integer false (shape i.stream_partition)
    && validate_is_not_negative_integer false (shape i.timestamp)

unfoldable pub is_strict_id : MessageId → Bool
is_strict_id i =
    is_valid_id i
    && validate_is_not_negative_integer false (shape i.sequence_number)
    && validate_is_string false (shape i.publisher_id)
    && validate_is_string false (shape i.msg_chain_id)

unfoldable pub id_to_array : MessageId → Items
id_to_array i = cons i.stream_id (
    cons i.stream_partition
      (cons i.timestamp (cons i.sequence_number (cons i.publisher_id (cons i.msg_chain_id nil)))))

abbrev pub id_fields : Items → MessageId
id_fields xs = record {
  stream_id = first xs;
  stream_partition = first (rest xs);
  timestamp = first (rest (rest xs));
  sequence_number = first (rest (rest (rest xs)));
  publisher_id = first (rest (rest (rest (rest xs))));
  msg_chain_id = first (rest (rest (rest (rest (rest xs)))));
}

unfoldable pub id_from_array : Items → Option MessageId
id_from_array xs = if is_valid_id (id_fields xs) then some (id_fields xs) else none

unfoldable pub strict_id_from_array : Items → Option MessageId
strict_id_from_array xs = if is_strict_id (id_fields xs) then some (id_fields xs) else none

unfoldable pub is_valid_reference : Reference → Bool
is_valid_reference r =
    validate_is_not_negative_integer false (shape r.timestamp)
    && validate_is_not_negative_integer true (shape r.sequence_number)

unfoldable pub reference_to_array : Reference → Items
reference_to_array r = cons r.timestamp (cons r.sequence_number nil)

abbrev pub reference_fields : Items → Reference
reference_fields xs = record { timestamp = first xs; sequence_number = first (rest xs) }

unfoldable pub reference_from_array : Items → Option Reference
reference_from_array xs =
    if is_valid_reference (reference_fields xs) then some (reference_fields xs) else none

-- `x < y` of what a reference holds: a missing sequence number is below nothing, `null` counts as 0.
abbrev pub below : Json → Json → Bool
below (natural x) (natural y) = ltb x y
below (natural x) null = false
below null (natural y) = ltb 0 y
below x y = false

-- The results -1, 0 and 1 are `lt`, `eq` and `gt`.
unfoldable pub compare_references : Reference → Reference → Ordering
compare_references r other =
    if below r.timestamp other.timestamp
    then Ordering.lt
    else if below other.timestamp r.timestamp
    then Ordering.gt
    else if below r.sequence_number other.sequence_number
    then Ordering.lt
    else if below other.sequence_number r.sequence_number
    then Ordering.gt
    else Ordering.eq

abbrev pub to_message_ref : MessageId → Reference
to_message_ref i = record { timestamp = i.timestamp; sequence_number = i.sequence_number }

abbrev pub is_gt : Ordering → Bool
is_gt o = elim o [ Ordering.gt ↦ true | _ ↦ false ]

unfoldable pub validate_sequence : MessageId → Option Reference → Bool
validate_sequence i prev = elim prev [
  | none ↦ true
  | some r ↦
      is_valid_reference (to_message_ref i) && is_gt (compare_references (to_message_ref i) r)
]

unfoldable pub validate_message_type : Json → Bool
validate_message_type = is_enum_value (27 ∷ 28 ∷ 29 ∷ 30 ∷ 31 ∷ []) (
    codes "MESSAGE"
    ∷ codes "GROUP_KEY_REQUEST"
    ∷ codes "GROUP_KEY_RESPONSE"
    ∷ codes "GROUP_KEY_ANNOUNCE"
    ∷ codes "GROUP_KEY_ERROR_RESPONSE"
    ∷ [])

unfoldable pub validate_content_type : Json → Bool
validate_content_type = is_enum_value (0 ∷ []) (codes "JSON" ∷ [])

unfoldable pub validate_encryption_type : Json → Bool
validate_encryption_type =
    is_enum_value (0 ∷ 1 ∷ 2 ∷ []) (codes "NONE" ∷ codes "RSA" ∷ codes "AES" ∷ [])

unfoldable pub validate_signature_type : Json → Bool
validate_signature_type =
    is_enum_value (0 ∷ 1 ∷ 2 ∷ []) (codes "NONE" ∷ codes "ETH_LEGACY" ∷ codes "ETH" ∷ [])

abbrev pub is_json_type : Json → Bool
is_json_type (natural n) = n == 0
is_json_type x = false

abbrev pub serialized_of : (Json → Text) → Json → Json → Json
serialized_of stringify content content_type =
    if is_object content && is_json_type content_type then text (stringify content) else content

-- The fields that the constructor sets.
unfoldable pub fields_of : (Json → Text) → Options → StreamMessage
fields_of stringify o = record {
  message_id = o.message_id;
  prev_msg_ref = o.prev_msg_ref;
  message_type = or_default (natural 27) o.message_type;
  content_type = or_default (natural 0) o.content_type;
  encryption_type = or_default (natural 0) o.encryption_type;
  group_key_id = or_default null o.group_key_id;
  new_group_key = o.new_group_key;
  signature_type = or_default (natural 0) o.signature_type;
  signature = or_default null o.signature;
  serialized_content = serialized_of stringify o.content (or_default (natural 0) o.content_type);
}

-- What the constructor checks.
unfoldable pub is_valid : StreamMessage → Bool
is_valid m =
    validate_message_type m.message_type
    && validate_content_type m.content_type
    && validate_encryption_type m.encryption_type
    && validate_is_string true (shape m.group_key_id)
    && validate_signature_type m.signature_type
    && validate_is_string true (shape m.signature)
    && validate_is_not_empty_string false (shape m.serialized_content)
    && validate_sequence m.message_id m.prev_msg_ref

unfoldable pub new_stream_message : (Json → Text) → Options → Option StreamMessage
new_stream_message stringify o =
    if is_valid (fields_of stringify o) then some (fields_of stringify o) else none
