-- ===== src/Protocol/TrackerLayer.antt =====
-- The messages between nodes and trackers: packages/protocol/src/protocol/tracker_layer, their
-- constructors, and their serializers of version 2. `none` is an error that the code throws. The
-- fields are as they are at run time.
pub mod RoundTrip
mod Tests
use network_monorepo.Prelude.{
  ℕ, Bool, true, false, ◌&&◌, Option, none, some, List, [], ◌∷◌, any, if◌then◌else◌, ◌==◌, Text,
  codes, same,
}
use network_monorepo.Protocol.Validations.{
  Value, validate_is_not_null_or_undefined, validate_is_string, validate_is_not_empty_string,
  validate_is_integer, validate_is_not_negative_integer, validate_is_array,
}
use network_monorepo.Protocol.Json.{
  Json, text, natural, Items, nil, cons, shape, first, rest, or_default,
}

-- The version and the request identifier of every message.
pub record Head : Type 0 where
  pub version : Json
  pub request_id : Json

pub data TrackerMessage : Type 0 where
  status_message : Head → (status : Json) → TrackerMessage
  instruction_message : Head → (stream_id stream_partition node_ids counter : Json) → TrackerMessage
  relay_message : Head → (originator target_node sub_type content : Json) → TrackerMessage
  error_message : Head → (error_code target_node : Json) → TrackerMessage

-- `TrackerMessageType`
abbrev pub type_of : TrackerMessage → ℕ
type_of (status_message h status) = 1
type_of (instruction_message h stream_id stream_partition node_ids counter) = 2
type_of (relay_message h originator target_node sub_type content) = 5
type_of (error_message h error_code target_node) = 6

abbrev pub own_head : TrackerMessage → Head
own_head (status_message h status) = h
own_head (instruction_message h stream_id stream_partition node_ids counter) = h
own_head (relay_message h originator target_node sub_type content) = h
own_head (error_message h error_code target_node) = h

-- `Object.values(ErrorCode).includes(x)`
abbrev pub is_error_code : Json → Bool
is_error_code (text t) = same t (codes "RTC_UNKNOWN_PEER")
is_error_code x = false

-- What the constructor of `TrackerMessage` checks; the type is a constant of the subclass.
unfoldable pub is_valid_head : Head → Bool
is_valid_head h =
    validate_is_integer false (shape h.version) && validate_is_string false (shape h.request_id)

-- What the constructors of the four messages check.
unfoldable pub is_valid_status : Head → Json → Bool
is_valid_status h status = is_valid_head h && validate_is_not_null_or_undefined (shape status)

unfoldable pub is_valid_instruction :
    Head → (stream_id stream_partition node_ids counter : Json) → Bool
is_valid_instruction h stream_id stream_partition node_ids counter =
    is_valid_head h
    && validate_is_not_empty_string false (shape stream_id)
    && validate_is_not_negative_integer false (shape stream_partition)
    && validate_is_array false (shape node_ids)
    && validate_is_not_negative_integer false (shape counter)

unfoldable pub is_valid_relay : Head → (originator target_node sub_type content : Json) → Bool
is_valid_relay h originator target_node sub_type content =
    is_valid_head h
    && validate_is_not_null_or_undefined (shape originator)
    && validate_is_not_empty_string false (shape target_node)
    && validate_is_not_empty_string false (shape sub_type)
    && validate_is_not_null_or_undefined (shape content)

unfoldable pub is_valid_error : Head → (error_code target_node : Json) → Bool
is_valid_error h error_code target_node =
    is_valid_head h
    && is_error_code error_code
    && validate_is_not_empty_string false (shape target_node)

unfoldable pub is_valid : TrackerMessage → Bool
is_valid (status_message h status) = is_valid_status h status
is_valid (instruction_message h stream_id stream_partition node_ids counter) =
    is_valid_instruction h stream_id stream_partition node_ids counter
is_valid (relay_message h originator target_node sub_type content) =
    is_valid_relay h originator target_node sub_type content
is_valid (error_message h error_code target_node) = is_valid_error h error_code target_node

unfoldable pub checked : TrackerMessage → Option TrackerMessage
checked m = if is_valid m then some m else none

-- The serializers write their own version, whatever that of the message is.
unfoldable pub status_to_array : Head → Json → Items
status_to_array h status = cons (natural 2) (cons (natural 1) (cons h.request_id (cons status nil)))

unfoldable pub instruction_to_array :
    Head → (stream_id stream_partition node_ids counter : Json) → Items
instruction_to_array h stream_id stream_partition node_ids counter = cons (natural 2) (
    cons (natural 2) (
      cons h.request_id
        (cons stream_id (cons stream_partition (cons node_ids (cons counter nil))))))

unfoldable pub relay_to_array : Head → (originator target_node sub_type content : Json) → Items
relay_to_array h originator target_node sub_type content = cons (natural 2) (
    cons (natural 5)
      (cons h.request_id (cons originator (cons target_node (cons sub_type (cons content nil))))))

unfoldable pub error_to_array : Head → (error_code target_node : Json) → Items
error_to_array h error_code target_node =
    cons (natural 2) (cons (natural 6) (cons h.request_id (cons error_code (cons target_node nil))))

-- `toArray` of the serializer that the message comes to. The lookup is by the type of the message,
-- so it is the one of its class.
unfoldable pub to_array : TrackerMessage → Items
to_array (status_message h status) = status_to_array h status
to_array (instruction_message h stream_id stream_partition node_ids counter) =
    instruction_to_array h stream_id stream_partition node_ids counter
to_array (relay_message h originator target_node sub_type content) =
    relay_to_array h originator target_node sub_type content
to_array (error_message h error_code target_node) = error_to_array h error_code target_node

pub data Kind : Type 0 where
  status instruction relay error : Kind

-- The version and the request identifier; a missing version is the latest.
abbrev pub head_of : Items → Head
head_of xs = record {
  version = or_default (natural 2) (first xs);
  request_id = first (rest (rest xs));
}

-- `fromArray` of the four serializers.
unfoldable pub status_from_array : Items → Option TrackerMessage
status_from_array xs = checked (status_message (head_of xs) (first (rest (rest (rest xs)))))

unfoldable pub instruction_from_array : Items → Option TrackerMessage
instruction_from_array xs =
    let ys = rest (rest (rest xs)) in
    checked (
      instruction_message (head_of xs) (first ys) (first (rest ys)) (first (rest (rest ys)))
        (first (rest (rest (rest ys)))))

unfoldable pub relay_from_array : Items → Option TrackerMessage
relay_from_array xs =
    let ys = rest (rest (rest xs)) in
    checked (
      relay_message (head_of xs) (first ys) (first (rest ys)) (first (rest (rest ys)))
        (first (rest (rest (rest ys)))))

unfoldable pub error_from_array : Items → Option TrackerMessage
error_from_array xs =
    let ys = rest (rest (rest xs)) in
    checked (error_message (head_of xs) (first ys) (first (rest ys)))

unfoldable pub from_array : Kind → Items → Option TrackerMessage
from_array status xs = status_from_array xs
from_array instruction xs = instruction_from_array xs
from_array relay xs = relay_from_array xs
from_array error xs = error_from_array xs

-- The versions and types are property names, given by a number or its digits.
abbrev pub is_key : ℕ → Text → Json → Bool
is_key n digits (natural k) = k == n
is_key n digits (text t) = same t digits
is_key n digits x = false

unfoldable pub serializer_of_type : Json → Option Kind
serializer_of_type x =
    if is_key 1 (codes "1") x
    then some status
    else if is_key 2 (codes "2") x
    then some instruction
    else if is_key 5 (codes "5") x
    then some relay
    else if is_key 6 (codes "6") x
    then some error
    else none

unfoldable pub get_serializer : Json → Json → Option Kind
get_serializer version type = if is_key 2 (codes "2") version then serializer_of_type type else none

-- The array before it is printed; `none` is an unsupported version or type.
unfoldable pub serialize : TrackerMessage → Option Items
serialize m = elim (get_serializer (own_head m).version (natural (type_of m))) [
  | none ↦ none
  | some k ↦ some (to_array m)
]

-- Of an array; a string is parsed before.
unfoldable pub deserialize : Items → Option TrackerMessage
deserialize xs = elim (get_serializer (first xs) (first (rest xs))) [
  | none ↦ none
  | some k ↦ from_array k xs
]
