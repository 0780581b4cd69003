-- ===== src/Protocol/StreamMessage/Serializers.antt =====
-- The serializers of StreamMessage (StreamMessageSerializerV30.ts, V31 and V32), and
-- `EncryptedGroupKey`.
use network_monorepo.Prelude.{
  ℕ, Bool, true, false, ◌&&◌, Option, none, some, if◌then◌else◌, ◌==◌, Text, codes, same,
}
use network_monorepo.Protocol.Validations.{validate_is_string}
use network_monorepo.Protocol.Json.{
  Json, undefined, null, text, natural, array, Items, nil, cons, shape, first, rest, items_of,
  is_truthy,
}
use network_monorepo.Protocol.StreamMessage.{
  MessageId, Reference, EncryptedGroupKey, StreamMessage, Options, id_to_array, id_from_array,
  strict_id_from_array, reference_to_array, reference_from_array, new_stream_message,
}

-- The three versions that register a serializer.
pub data Version : Type 0 where
  v30 v31 v32 : Version

abbrev pub number_of : Version → ℕ
number_of v30 = 30
number_of v31 = 31
number_of v32 = 32

unfoldable pub is_valid_key : EncryptedGroupKey → Bool
is_valid_key k =
    validate_is_string false (shape k.group_key_id)
    && validate_is_string false (shape k.encrypted_group_key_hex)
    && validate_is_string true (shape k.serialized)

unfoldable pub key_to_array : EncryptedGroupKey → Items
key_to_array k = cons k.group_key_id (cons k.encrypted_group_key_hex nil)

unfoldable pub key_serialize : (Json → Text) → EncryptedGroupKey → Json
key_serialize stringify k =
    if is_truthy k.serialized then k.serialized else text (stringify (array (key_to_array k)))

abbrev pub key_fields : Json → Items → EncryptedGroupKey
key_fields json xs = record {
  group_key_id = first xs;
  encrypted_group_key_hex = first (rest xs);
  serialized = json;
}

abbrev pub checked_key : EncryptedGroupKey → Option EncryptedGroupKey
checked_key k = if is_valid_key k then some k else none

unfoldable pub key_deserialize : (Json → Option Json) → Json → Option EncryptedGroupKey
key_deserialize parse json = elim (parse json) [
  | none ↦ none
  | some x ↦ elim (items_of x) [ none ↦ none | some xs ↦ checked_key (key_fields json xs) ]
]

abbrev pub reference_or_null : Option Reference → Json
reference_or_null none = null
reference_or_null (some r) = array (reference_to_array r)

abbrev pub key_or_null : (Json → Text) → Option EncryptedGroupKey → Json
key_or_null stringify none = null
key_or_null stringify (some k) = key_serialize stringify k

module _ (stringify : Json → Text) where
  unfoldable pub to_array_v30 : StreamMessage → Items
  to_array_v30 m = cons (natural 30) (
      cons (array (id_to_array m.message_id)) (
        cons (reference_or_null m.prev_msg_ref) (
          cons m.message_type
            (cons m.serialized_content (cons m.signature_type (cons m.signature nil))))))

  unfoldable pub to_array_v31 : StreamMessage → Items
  to_array_v31 m = cons (natural 31) (
      cons (array (id_to_array m.message_id)) (
        cons (reference_or_null m.prev_msg_ref) (
          cons m.message_type (
            cons m.encryption_type
              (cons m.serialized_content (cons m.signature_type (cons m.signature nil)))))))

  unfoldable pub to_array_v32 : StreamMessage → Items
  to_array_v32 m = cons (natural 32) (
      cons (array (id_to_array m.message_id)) (
        cons (reference_or_null m.prev_msg_ref) (
          cons m.message_type (
            cons m.content_type (
              cons m.encryption_type (
                cons m.group_key_id (
                  cons m.serialized_content (
                    cons (key_or_null stringify m.new_group_key)
                      (cons m.signature_type (cons m.signature nil))))))))))

  -- By the serializer of the version.
  unfoldable pub to_array : Version → StreamMessage → Items
  to_array v30 m = to_array_v30 m
  to_array v31 m = to_array_v31 m
  to_array v32 m = to_array_v32 m

-- A value that `f` reads, if it is truthy; else null.
abbrev pub read_or_null : {A : Type 0} → (Json → Option A) → Json → Option (Option A)
read_or_null f x =
    if is_truthy x then (elim (f x) [ none ↦ none | some a ↦ some (some a) ]) else some none

abbrev pub read_array : {A : Type 0} → (Items → Option A) → Json → Option A
read_array f x = elim (items_of x) [ none ↦ none | some xs ↦ f xs ]

abbrev pub with_id : Version → Json → Option MessageId
with_id v30 x = read_array id_from_array x
with_id v31 x = read_array strict_id_from_array x
with_id v32 x = read_array strict_id_from_array x

-- The untyped fields of the options, in their places in the array.
abbrev pub options_v30 : Items → MessageId → Option Reference → Option EncryptedGroupKey → Options
options_v30 xs i prev key = record {
  message_id = i;
  prev_msg_ref = prev;
  content = first (rest xs);
  message_type = first xs;
  content_type = natural 0;
  encryption_type = natural 0;
  group_key_id = undefined;
  new_group_key = none;
  signature_type = first (rest (rest xs));
  signature = first (rest (rest (rest xs)));
}

abbrev pub options_v31 : Items → MessageId → Option Reference → Option EncryptedGroupKey → Options
options_v31 xs i prev key = record {
  message_id = i;
  prev_msg_ref = prev;
  content = first (rest (rest xs));
  message_type = first xs;
  content_type = natural 0;
  encryption_type = first (rest xs);
  group_key_id = undefined;
  new_group_key = none;
  signature_type = first (rest (rest (rest xs)));
  signature = first (rest (rest (rest (rest xs))));
}

abbrev pub options_v32 : Items → MessageId → Option Reference → Option EncryptedGroupKey → Options
options_v32 xs i prev key = record {
  message_id = i;
  prev_msg_ref = prev;
  content = first (rest (rest (rest (rest xs))));
  message_type = first xs;
  content_type = first (rest xs);
  encryption_type = first (rest (rest xs));
  group_key_id = first (rest (rest (rest xs)));
  new_group_key = key;
  signature_type = first (rest (rest (rest (rest (rest (rest xs))))));
  signature = first (rest (rest (rest (rest (rest (rest (rest xs)))))));
}

abbrev pub options_of :
    Version → Items → MessageId → Option Reference → Option EncryptedGroupKey → Options
options_of v30 xs i prev key = options_v30 xs i prev key
options_of v31 xs i prev key = options_v31 xs i prev key
options_of v32 xs i prev key = options_v32 xs i prev key

-- The element of the group key; the older versions have none.
abbrev pub key_element : Version → Items → Json
key_element v32 xs = first (rest (rest (rest (rest (rest xs)))))
key_element v xs = null

module _ (stringify : Json → Text) (parse : Json → Option Json) where
  unfoldable pub from_array : Version → Items → Option StreamMessage
  from_array v xs = elim (with_id v (first (rest xs))) [
    | none ↦ none
    | some i ↦ elim (read_or_null (read_array reference_from_array) (first (rest (rest xs)))) [
      | none ↦ none
      | some prev ↦
          elim (read_or_null (key_deserialize parse) (key_element v (rest (rest (rest xs))))) [
            | none ↦ none
            | some key ↦
                new_stream_message stringify (options_of v (rest (rest (rest xs))) i prev key)
          ]
    ]
  ]

  -- `getSerializer`: a version is a property name, given by the number or by its digits.
  unfoldable pub get_serializer : Json → Option Version
  get_serializer (natural n) =
      if n == 30 then some v30 else if n == 31 then some v31 else if n == 32 then some v32 else none
  get_serializer (text t) =
      if same t (codes "30")
      then some v30
      else if same t (codes "31")
      then some v31
      else if same t (codes "32")
      then some v32
      else none
  get_serializer x = none

  -- Of an array; a string is parsed before.
  unfoldable pub deserialize : Items → Option StreamMessage
  deserialize xs = elim (get_serializer (first xs)) [ none ↦ none | some v ↦ from_array v xs ]
