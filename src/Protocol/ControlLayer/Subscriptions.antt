-- ===== src/Protocol/ControlLayer/Subscriptions.antt =====
-- The requests and responses of subscribing, and `ErrorResponse`, of
-- packages/protocol/src/protocol/control_layer, with their serializers of the versions 1 and 2.
use network_monorepo.Prelude.{Bool, true, false, ◌&&◌, Option, none, some, if◌then◌else◌, codes}
use network_monorepo.Protocol.Validations.{
  validate_is_string, validate_is_not_empty_string, validate_is_not_negative_integer,
}
use network_monorepo.Protocol.Json.{
  Json, text, natural, Items, nil, cons, shape, first, rest, or_default,
}
use network_monorepo.Protocol.ControlLayer.Head.{
  is_old, is_valid_head, placeholder_request_id_protocol_v1,
}

pub record SubscribeRequest : Type 0 where
  pub version : Json
  pub request_id : Json
  pub stream_id : Json
  pub stream_partition : Json
  pub session_token : Json

unfoldable pub is_valid_subscribe_request : SubscribeRequest → Bool
is_valid_subscribe_request m =
    is_valid_head m.version m.request_id
    && validate_is_not_empty_string false (shape m.stream_id)
    && validate_is_not_negative_integer false (shape m.stream_partition)
    && validate_is_string true (shape m.session_token)

unfoldable pub subscribe_request_to_array_v1 : SubscribeRequest → Items
subscribe_request_to_array_v1 m =
    cons (natural 1)
      (cons (natural 9) (cons m.stream_id (cons m.stream_partition (cons m.session_token nil))))

abbrev pub subscribe_request_of_v1 : Items → SubscribeRequest
subscribe_request_of_v1 xs = record {
  version = or_default (natural 2) (first xs);
  request_id = text placeholder_request_id_protocol_v1;
  stream_id = first (rest (rest xs));
  stream_partition = first (rest (rest (rest xs)));
  session_token = first (rest (rest (rest (rest xs))));
}

unfoldable pub subscribe_request_from_array_v1 : Items → Option SubscribeRequest
subscribe_request_from_array_v1 xs =
    if is_valid_subscribe_request (subscribe_request_of_v1 xs)
    then some (subscribe_request_of_v1 xs)
    else none

unfoldable pub subscribe_request_to_array_v2 : SubscribeRequest → Items
subscribe_request_to_array_v2 m = cons (natural 2) (
    cons (natural 9)
      (cons m.request_id (cons m.stream_id (cons m.stream_partition (cons m.session_token nil)))))

abbrev pub subscribe_request_of_v2 : Items → SubscribeRequest
subscribe_request_of_v2 xs = record {
  version = or_default (natural 2) (first xs);
  request_id = first (rest (rest xs));
  stream_id = first (rest (rest (rest xs)));
  stream_partition = first (rest (rest (rest (rest xs))));
  session_token = first (rest (rest (rest (rest (rest xs)))));
}

unfoldable pub subscribe_request_from_array_v2 : Items → Option SubscribeRequest
subscribe_request_from_array_v2 xs =
    if is_valid_subscribe_request (subscribe_request_of_v2 xs)
    then some (subscribe_request_of_v2 xs)
    else none

pub record SubscribeResponse : Type 0 where
  pub version : Json
  pub request_id : Json
  pub stream_id : Json
  pub stream_partition : Json

unfoldable pub is_valid_subscribe_response : SubscribeResponse → Bool
is_valid_subscribe_response m =
    is_valid_head m.version m.request_id
    && validate_is_not_empty_string false (shape m.stream_id)
    && validate_is_not_negative_integer false (shape m.stream_partition)

unfoldable pub subscribe_response_to_array_v1 : SubscribeResponse → Items
subscribe_response_to_array_v1 m =
    cons (natural 1) (cons (natural 2) (cons m.stream_id (cons m.stream_partition nil)))

abbrev pub subscribe_response_of_v1 : Items → SubscribeResponse
subscribe_response_of_v1 xs = record {
  version = or_default (natural 2) (first xs);
  request_id = text placeholder_request_id_protocol_v1;
  stream_id = first (rest (rest xs));
  stream_partition = first (rest (rest (rest xs)));
}

unfoldable pub subscribe_response_from_array_v1 : Items → Option SubscribeResponse
subscribe_response_from_array_v1 xs =
    if is_valid_subscribe_response (subscribe_response_of_v1 xs)
    then some (subscribe_response_of_v1 xs)
    else none

unfoldable pub subscribe_response_to_array_v2 : SubscribeResponse → Items
subscribe_response_to_array_v2 m =
    cons (natural 2)
      (cons (natural 2) (cons m.request_id (cons m.stream_id (cons m.stream_partition nil))))

abbrev pub subscribe_response_of_v2 : Items → SubscribeResponse
subscribe_response_of_v2 xs = record {
  version = or_default (natural 2) (first xs);
  request_id = first (rest (rest xs));
  stream_id = first (rest (rest (rest xs)));
  stream_partition = first (rest (rest (rest (rest xs))));
}

unfoldable pub subscribe_response_from_array_v2 : Items → Option SubscribeResponse
subscribe_response_from_array_v2 xs =
    if is_valid_subscribe_response (subscribe_response_of_v2 xs)
    then some (subscribe_response_of_v2 xs)
    else none

pub record UnsubscribeRequest : Type 0 where
  pub version : Json
  pub request_id : Json
  pub stream_id : Json
  pub stream_partition : Json

unfoldable pub is_valid_unsubscribe_request : UnsubscribeRequest → Bool
is_valid_unsubscribe_request m =
    is_valid_head m.version m.request_id
    && validate_is_not_empty_string false (shape m.stream_id)
    && validate_is_not_negative_integer false (shape m.stream_partition)

unfoldable pub unsubscribe_request_to_array_v1 : UnsubscribeRequest → Items
unsubscribe_request_to_array_v1 m =
    cons (natural 1) (cons (natural 10) (cons m.stream_id (cons m.stream_partition nil)))

abbrev pub unsubscribe_request_of_v1 : Items → UnsubscribeRequest
unsubscribe_request_of_v1 xs = record {
  version = or_default (natural 2) (first xs);
  request_id = text placeholder_request_id_protocol_v1;
  stream_id = first (rest (rest xs));
  stream_partition = first (rest (rest (rest xs)));
}

unfoldable pub unsubscribe_request_from_array_v1 : Items → Option UnsubscribeRequest
unsubscribe_request_from_array_v1 xs =
    if is_valid_unsubscribe_request (unsubscribe_request_of_v1 xs)
    then some (unsubscribe_request_of_v1 xs)
    else none

unfoldable pub unsubscribe_request_to_array_v2 : UnsubscribeRequest → Items
unsubscribe_request_to_array_v2 m =
    cons (natural 2)
      (cons (natural 10) (cons m.request_id (cons m.stream_id (cons m.stream_partition nil))))

abbrev pub unsubscribe_request_of_v2 : Items → UnsubscribeRequest
unsubscribe_request_of_v2 xs = record {
  version = or_default (natural 2) (first xs);
  request_id = first (rest (rest xs));
  stream_id = first (rest (rest (rest xs)));
  stream_partition = first (rest (rest (rest (rest xs))));
}

unfoldable pub unsubscribe_request_from_array_v2 : Items → Option UnsubscribeRequest
unsubscribe_request_from_array_v2 xs =
    if is_valid_unsubscribe_request (unsubscribe_request_of_v2 xs)
    then some (unsubscribe_request_of_v2 xs)
    else none

pub record UnsubscribeResponse : Type 0 where
  pub version : Json
  pub request_id : Json
  pub stream_id : Json
  pub stream_partition : Json

unfoldable pub is_valid_unsubscribe_response : UnsubscribeResponse → Bool
is_valid_unsubscribe_response m =
    is_valid_head m.version m.request_id
    && validate_is_not_empty_string false (shape m.stream_id)
    && validate_is_not_negative_integer false (shape m.stream_partition)

unfoldable pub unsubscribe_response_to_array_v1 : UnsubscribeResponse → Items
unsubscribe_response_to_array_v1 m =
    cons (natural 1) (cons (natural 3) (cons m.stream_id (cons m.stream_partition nil)))

abbrev pub unsubscribe_response_of_v1 : Items → UnsubscribeResponse
unsubscribe_response_of_v1 xs = record {
  version = or_default (natural 2) (first xs);
  request_id = text placeholder_request_id_protocol_v1;
  stream_id = first (rest (rest xs));
  stream_partition = first (rest (rest (rest xs)));
}

unfoldable pub unsubscribe_response_from_array_v1 : Items → Option UnsubscribeResponse
unsubscribe_response_from_array_v1 xs =
    if is_valid_unsubscribe_response (unsubscribe_response_of_v1 xs)
    then some (unsubscribe_response_of_v1 xs)
    else none

unfoldable pub unsubscribe_response_to_array_v2 : UnsubscribeResponse → Items
unsubscribe_response_to_array_v2 m =
    cons (natural 2)
      (cons (natural 3) (cons m.request_id (cons m.stream_id (cons m.stream_partition nil))))

abbrev pub unsubscribe_response_of_v2 : Items → UnsubscribeResponse
unsubscribe_response_of_v2 xs = record {
  version = or_default (natural 2) (first xs);
  request_id = first (rest (rest xs));
  stream_id = first (rest (rest (rest xs)));
  stream_partition = first (rest (rest (rest (rest xs))));
}

unfoldable pub unsubscribe_response_from_array_v2 : Items → Option UnsubscribeResponse
unsubscribe_response_from_array_v2 xs =
    if is_valid_unsubscribe_response (unsubscribe_response_of_v2 xs)
    then some (unsubscribe_response_of_v2 xs)
    else none

pub record ErrorResponse : Type 0 where
  pub version : Json
  pub request_id : Json
  pub error_message : Json
  pub error_code : Json

unfoldable pub is_valid_error_response : ErrorResponse → Bool
is_valid_error_response m =
    is_valid_head m.version m.request_id
    && validate_is_string false (shape m.error_message)
    && (if is_old m.version then true else validate_is_string false (shape m.error_code))

unfoldable pub error_response_to_array_v1 : ErrorResponse → Items
error_response_to_array_v1 m = cons (natural 1) (cons (natural 7) (cons m.error_message nil))

abbrev pub error_response_of_v1 : Items → ErrorResponse
error_response_of_v1 xs = record {
  version = or_default (natural 2) (first xs);
  request_id = text placeholder_request_id_protocol_v1;
  error_message = first (rest (rest xs));
  error_code = text (codes "UNKNOWN");
}

unfoldable pub error_response_from_array_v1 : Items → Option ErrorResponse
error_response_from_array_v1 xs =
    if is_valid_error_response (error_response_of_v1 xs)
    then some (error_response_of_v1 xs)
    else none

unfoldable pub error_response_to_array_v2 : ErrorResponse → Items
error_response_to_array_v2 m =
    cons (natural 2)
      (cons (natural 7) (cons m.request_id (cons m.error_message (cons m.error_code nil))))

abbrev pub error_response_of_v2 : Items → ErrorResponse
error_response_of_v2 xs = record {
  version = or_default (natural 2) (first xs);
  request_id = first (rest (rest xs));
  error_message = first (rest (rest (rest xs)));
  error_code = first (rest (rest (rest (rest xs))));
}

unfoldable pub error_response_from_array_v2 : Items → Option ErrorResponse
error_response_from_array_v2 xs =
    if is_valid_error_response (error_response_of_v2 xs)
    then some (error_response_of_v2 xs)
    else none
