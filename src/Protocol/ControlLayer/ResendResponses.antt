-- ===== src/Protocol/ControlLayer/ResendResponses.antt =====
-- The three responses of resending of packages/protocol/src/protocol/control_layer/resend_response,
-- with their serializers of the versions 1 and 2.
use network_monorepo.Prelude.{Bool, false, ◌&&◌, Option, none, some, if◌then◌else◌}
use network_monorepo.Protocol.Validations.{
  validate_is_not_empty_string, validate_is_not_negative_integer,
}
use network_monorepo.Protocol.Json.{Json, natural, Items, nil, cons, shape, first, rest, or_default}
use network_monorepo.Protocol.ControlLayer.Head.{is_valid_head}

pub record ResendResponseResending : Type 0 where
  pub version : Json
  pub request_id : Json
  pub stream_id : Json
  pub stream_partition : Json

unfoldable pub is_valid_resend_response_resending : ResendResponseResending → Bool
is_valid_resend_response_resending m =
    is_valid_head m.version m.request_id
    && validate_is_not_empty_string false (shape m.stream_id)
    && validate_is_not_negative_integer false (shape m.stream_partition)
    && validate_is_not_empty_string false (shape m.request_id)

unfoldable pub resend_response_resending_to_array_v1 : ResendResponseResending → Items
resend_response_resending_to_array_v1 m =
    cons (natural 1)
      (cons (natural 4) (cons m.stream_id (cons m.stream_partition (cons m.request_id nil))))

abbrev pub resend_response_resending_of_v1 : Items → ResendResponseResending
resend_response_resending_of_v1 xs = record {
  version = or_default (natural 2) (first xs);
  request_id = first (rest (rest (rest (rest xs))));
  stream_id = first (rest (rest xs));
  stream_partition = first (rest (rest (rest xs)));
}

unfoldable pub resend_response_resending_from_array_v1 : Items → Option ResendResponseResending
resend_response_resending_from_array_v1 xs =
    if is_valid_resend_response_resending (resend_response_resending_of_v1 xs)
    then some (resend_response_resending_of_v1 xs)
    else none

unfoldable pub resend_response_resending_to_array_v2 : ResendResponseResending → Items
resend_response_resending_to_array_v2 m =
    cons (natural 2)
      (cons (natural 4) (cons m.request_id (cons m.stream_id (cons m.stream_partition nil))))

abbrev pub resend_response_resending_of_v2 : Items → ResendResponseResending
resend_response_resending_of_v2 xs = record {
  version = or_default (natural 2) (first xs);
  request_id = first (rest (rest xs));
  stream_id = first (rest (rest (rest xs)));
  stream_partition = first (rest (rest (rest (rest xs))));
}

unfoldable pub resend_response_resending_from_array_v2 : Items → Option ResendResponseResending
resend_response_resending_from_array_v2 xs =
    if is_valid_resend_response_resending (resend_response_resending_of_v2 xs)
    then some (resend_response_resending_of_v2 xs)
    else none

pub record ResendResponseResent : Type 0 where
  pub version : Json
  pub request_id : Json
  pub stream_id : Json
  pub stream_partition : Json

unfoldable pub is_valid_resend_response_resent : ResendResponseResent → Bool
is_valid_resend_response_resent m =
    is_valid_head m.version m.request_id
    && validate_is_not_empty_string false (shape m.stream_id)
    && validate_is_not_negative_integer false (shape m.stream_partition)
    && validate_is_not_empty_string false (shape m.request_id)

unfoldable pub resend_response_resent_to_array_v1 : ResendResponseResent → Items
resend_response_resent_to_array_v1 m =
    cons (natural 1)
      (cons (natural 5) (cons m.stream_id (cons m.stream_partition (cons m.request_id nil))))

abbrev pub resend_response_resent_of_v1 : Items → ResendResponseResent
resend_response_resent_of_v1 xs = record {
  version = or_default (natural 2) (first xs);
  request_id = first (rest (rest (rest (rest xs))));
  stream_id = first (rest (rest xs));
  stream_partition = first (rest (rest (rest xs)));
}

unfoldable pub resend_response_resent_from_array_v1 : Items → Option ResendResponseResent
resend_response_resent_from_array_v1 xs =
    if is_valid_resend_response_resent (resend_response_resent_of_v1 xs)
    then some (resend_response_resent_of_v1 xs)
    else none

unfoldable pub resend_response_resent_to_array_v2 : ResendResponseResent → Items
resend_response_resent_to_array_v2 m =
    cons (natural 2)
      (cons (natural 5) (cons m.request_id (cons m.stream_id (cons m.stream_partition nil))))

abbrev pub resend_response_resent_of_v2 : Items → ResendResponseResent
resend_response_resent_of_v2 xs = record {
  version = or_default (natural 2) (first xs);
  request_id = first (rest (rest xs));
  stream_id = first (rest (rest (rest xs)));
  stream_partition = first (rest (rest (rest (rest xs))));
}

unfoldable pub resend_response_resent_from_array_v2 : Items → Option ResendResponseResent
resend_response_resent_from_array_v2 xs =
    if is_valid_resend_response_resent (resend_response_resent_of_v2 xs)
    then some (resend_response_resent_of_v2 xs)
    else none

pub record ResendResponseNoResend : Type 0 where
  pub version : Json
  pub request_id : Json
  pub stream_id : Json
  pub stream_partition : Json

unfoldable pub is_valid_resend_response_no_resend : ResendResponseNoResend → Bool
is_valid_resend_response_no_resend m =
    is_valid_head m.version m.request_id
    && validate_is_not_empty_string false (shape m.stream_id)
    && validate_is_not_negative_integer false (shape m.stream_partition)
    && validate_is_not_empty_string false (shape m.request_id)

unfoldable pub resend_response_no_resend_to_array_v1 : ResendResponseNoResend → Items
resend_response_no_resend_to_array_v1 m =
    cons (natural 1)
      (cons (natural 6) (cons m.stream_id (cons m.stream_partition (cons m.request_id nil))))

abbrev pub resend_response_no_resend_of_v1 : Items → ResendResponseNoResend
resend_response_no_resend_of_v1 xs = record {
  version = or_default (natural 2) (first xs);
  request_id = first (rest (rest (rest (rest xs))));
  stream_id = first (rest (rest xs));
  stream_partition = first (rest (rest (rest xs)));
}

unfoldable pub resend_response_no_resend_from_array_v1 : Items → Option ResendResponseNoResend
resend_response_no_resend_from_array_v1 xs =
    if is_valid_resend_response_no_resend (resend_response_no_resend_of_v1 xs)
    then some (resend_response_no_resend_of_v1 xs)
    else none

unfoldable pub resend_response_no_resend_to_array_v2 : ResendResponseNoResend → Items
resend_response_no_resend_to_array_v2 m =
    cons (natural 2)
      (cons (natural 6) (cons m.request_id (cons m.stream_id (cons m.stream_partition nil))))

abbrev pub resend_response_no_resend_of_v2 : Items → ResendResponseNoResend
resend_response_no_resend_of_v2 xs = record {
  version = or_default (natural 2) (first xs);
  request_id = first (rest (rest xs));
  stream_id = first (rest (rest (rest xs)));
  stream_partition = first (rest (rest (rest (rest xs))));
}

unfoldable pub resend_response_no_resend_from_array_v2 : Items → Option ResendResponseNoResend
resend_response_no_resend_from_array_v2 xs =
    if is_valid_resend_response_no_resend (resend_response_no_resend_of_v2 xs)
    then some (resend_response_no_resend_of_v2 xs)
    else none
