-- ===== src/Protocol/ControlLayer/ResendRequests.antt =====
-- The requests of resending of packages/protocol/src/protocol/control_layer/resend_request, with
-- their serializers of the versions 1 and 2.
use network_monorepo.Prelude.{Bool, true, false, not, ◌&&◌, Option, none, some, if◌then◌else◌}
use network_monorepo.Protocol.Validations.{
  validate_is_string, validate_is_not_empty_string, validate_is_not_negative_integer,
}
use network_monorepo.Protocol.Json.{
  Json, null, natural, array, Items, nil, cons, shape, first, rest, or_default,
}
use network_monorepo.Protocol.StreamMessage.{
  Reference, is_valid_reference, reference_to_array, below,
}
use network_monorepo.Protocol.ControlLayer.Head.{is_valid_head, new_reference}

pub record ResendLastRequest : Type 0 where
  pub version : Json
  pub request_id : Json
  pub stream_id : Json
  pub stream_partition : Json
  pub number_last : Json
  pub session_token : Json

unfoldable pub is_valid_resend_last_request : ResendLastRequest → Bool
is_valid_resend_last_request m =
    is_valid_head m.version m.request_id
    && validate_is_not_empty_string false (shape m.stream_id)
    && validate_is_not_negative_integer false (shape m.stream_partition)
    && validate_is_not_negative_integer false (shape m.number_last)
    && validate_is_string true (shape m.session_token)
    && validate_is_not_empty_string false (shape m.request_id)

unfoldable pub resend_last_request_to_array_v1 : ResendLastRequest → Items
resend_last_request_to_array_v1 m = cons (natural 1) (
    cons (natural 11) (
      cons m.stream_id (
        cons m.stream_partition
          (cons m.request_id (cons m.number_last (cons m.session_token nil))))))

abbrev pub resend_last_request_of_v1 : Items → ResendLastRequest
resend_last_request_of_v1 xs = record {
  version = or_default (natural 2) (first xs);
  request_id = first (rest (rest (rest (rest xs))));
  stream_id = first (rest (rest xs));
  stream_partition = first (rest (rest (rest xs)));
  number_last = first (rest (rest (rest (rest (rest xs)))));
  session_token = first (rest (rest (rest (rest (rest (rest xs))))));
}

unfoldable pub resend_last_request_from_array_v1 : Items → Option ResendLastRequest
resend_last_request_from_array_v1 xs =
    if is_valid_resend_last_request (resend_last_request_of_v1 xs)
    then some (resend_last_request_of_v1 xs)
    else none

unfoldable pub resend_last_request_to_array_v2 : ResendLastRequest → Items
resend_last_request_to_array_v2 m = cons (natural 2) (
    cons (natural 11) (
      cons m.request_id (
        cons m.stream_id
          (cons m.stream_partition (cons m.number_last (cons m.session_token nil))))))

abbrev pub resend_last_request_of_v2 : Items → ResendLastRequest
resend_last_request_of_v2 xs = record {
  version = or_default (natural 2) (first xs);
  request_id = first (rest (rest xs));
  stream_id = first (rest (rest (rest xs)));
  stream_partition = first (rest (rest (rest (rest xs))));
  number_last = first (rest (rest (rest (rest (rest xs)))));
  session_token = first (rest (rest (rest (rest (rest (rest xs))))));
}

unfoldable pub resend_last_request_from_array_v2 : Items → Option ResendLastRequest
resend_last_request_from_array_v2 xs =
    if is_valid_resend_last_request (resend_last_request_of_v2 xs)
    then some (resend_last_request_of_v2 xs)
    else none

pub record ResendFromRequest : Type 0 where
  pub version : Json
  pub request_id : Json
  pub stream_id : Json
  pub stream_partition : Json
  pub from_msg_ref : Reference
  pub publisher_id : Json
  pub session_token : Json

unfoldable pub is_valid_resend_from_request : ResendFromRequest → Bool
is_valid_resend_from_request m =
    is_valid_head m.version m.request_id
    && validate_is_not_empty_string false (shape m.stream_id)
    && validate_is_not_negative_integer false (shape m.stream_partition)
    && validate_is_string true (shape m.publisher_id)
    && validate_is_string true (shape m.session_token)
    && is_valid_reference m.from_msg_ref
    && validate_is_not_empty_string false (shape m.request_id)

unfoldable pub resend_from_request_to_array_v1 : ResendFromRequest → Items
resend_from_request_to_array_v1 m = cons (natural 1) (
    cons (natural 12) (
      cons m.stream_id (
        cons m.stream_partition (
          cons m.request_id (
            cons (array (reference_to_array m.from_msg_ref))
              (cons m.publisher_id (cons null (cons m.session_token nil))))))))

abbrev pub resend_from_request_of_v1 : Items → Reference → ResendFromRequest
resend_from_request_of_v1 xs from_msg_ref = record {
  version = or_default (natural 2) (first xs);
  request_id = first (rest (rest (rest (rest xs))));
  stream_id = first (rest (rest xs));
  stream_partition = first (rest (rest (rest xs)));
  from_msg_ref = from_msg_ref;
  publisher_id = first (rest (rest (rest (rest (rest (rest xs))))));
  session_token = first (rest (rest (rest (rest (rest (rest (rest (rest xs))))))));
}

unfoldable pub resend_from_request_from_array_v1 : Items → Option ResendFromRequest
resend_from_request_from_array_v1 xs =
    elim (new_reference (first (rest (rest (rest (rest (rest xs))))))) [
      | none ↦ none
      | some from_msg_ref ↦
          if is_valid_resend_from_request (resend_from_request_of_v1 xs from_msg_ref)
          then some (resend_from_request_of_v1 xs from_msg_ref)
          else none
    ]

unfoldable pub resend_from_request_to_array_v2 : ResendFromRequest → Items
resend_from_request_to_array_v2 m = cons (natural 2) (
    cons (natural 12) (
      cons m.request_id (
        cons m.stream_id (
          cons m.stream_partition (
            cons (array (reference_to_array m.from_msg_ref))
              (cons m.publisher_id (cons m.session_token nil)))))))

abbrev pub resend_from_request_of_v2 : Items → Reference → ResendFromRequest
resend_from_request_of_v2 xs from_msg_ref = record {
  version = or_default (natural 2) (first xs);
  request_id = first (rest (rest xs));
  stream_id = first (rest (rest (rest xs)));
  stream_partition = first (rest (rest (rest (rest xs))));
  from_msg_ref = from_msg_ref;
  publisher_id = first (rest (rest (rest (rest (rest (rest xs))))));
  session_token = first (rest (rest (rest (rest (rest (rest (rest xs)))))));
}

unfoldable pub resend_from_request_from_array_v2 : Items → Option ResendFromRequest
resend_from_request_from_array_v2 xs =
    elim (new_reference (first (rest (rest (rest (rest (rest xs))))))) [
      | none ↦ none
      | some from_msg_ref ↦
          if is_valid_resend_from_request (resend_from_request_of_v2 xs from_msg_ref)
          then some (resend_from_request_of_v2 xs from_msg_ref)
          else none
    ]

pub record ResendRangeRequest : Type 0 where
  pub version : Json
  pub request_id : Json
  pub stream_id : Json
  pub stream_partition : Json
  pub from_msg_ref : Reference
  pub to_msg_ref : Reference
  pub publisher_id : Json
  pub msg_chain_id : Json
  pub session_token : Json

unfoldable pub is_valid_resend_range_request : ResendRangeRequest → Bool
is_valid_resend_range_request m =
    is_valid_head m.version m.request_id
    && validate_is_not_empty_string false (shape m.stream_id)
    && validate_is_not_negative_integer false (shape m.stream_partition)
    && is_valid_reference m.from_msg_ref
    && is_valid_reference m.to_msg_ref
    && validate_is_string true (shape m.publisher_id)
    && validate_is_string true (shape m.msg_chain_id)
    && validate_is_string true (shape m.session_token)
    && not (below m.to_msg_ref.timestamp m.from_msg_ref.timestamp)

unfoldable pub resend_range_request_to_array_v1 : ResendRangeRequest → Items
resend_range_request_to_array_v1 m = cons (natural 1) (
    cons (natural 13) (
      cons m.stream_id (
        cons m.stream_partition (
          cons m.request_id (
            cons (array (reference_to_array m.from_msg_ref)) (
              cons (array (reference_to_array m.to_msg_ref))
                (cons m.publisher_id (cons m.msg_chain_id (cons m.session_token nil)))))))))

abbrev pub resend_range_request_of_v1 : Items → Reference → Reference → ResendRangeRequest
resend_range_request_of_v1 xs from_msg_ref to_msg_ref = record {
  version = or_default (natural 2) (first xs);
  request_id = first (rest (rest (rest (rest xs))));
  stream_id = first (rest (rest xs));
  stream_partition = first (rest (rest (rest xs)));
  from_msg_ref = from_msg_ref;
  to_msg_ref = to_msg_ref;
  publisher_id = first (rest (rest (rest (rest (rest (rest (rest xs)))))));
  msg_chain_id = first (rest (rest (rest (rest (rest (rest (rest (rest xs))))))));
  session_token = first (rest (rest (rest (rest (rest (rest (rest (rest (rest xs)))))))));
}

unfoldable pub resend_range_request_from_array_v1 : Items → Option ResendRangeRequest
resend_range_request_from_array_v1 xs =
    elim (new_reference (first (rest (rest (rest (rest (rest xs))))))) [
      | none ↦ none
      | some from_msg_ref ↦
          elim (new_reference (first (rest (rest (rest (rest (rest (rest xs)))))))) [
            | none ↦ none
            | some to_msg_ref ↦
                if is_valid_resend_range_request
                  (resend_range_request_of_v1 xs from_msg_ref to_msg_ref)
                then some (resend_range_request_of_v1 xs from_msg_ref to_msg_ref)
                else none
          ]
    ]

unfoldable pub resend_range_request_to_array_v2 : ResendRangeRequest → Items
resend_range_request_to_array_v2 m = cons (natural 2) (
    cons (natural 13) (
      cons m.request_id (
        cons m.stream_id (
          cons m.stream_partition (
            cons (array (reference_to_array m.from_msg_ref)) (
              cons (array (reference_to_array m.to_msg_ref))
                (cons m.publisher_id (cons m.msg_chain_id (cons m.session_token nil)))))))))

abbrev pub resend_range_request_of_v2 : Items → Reference → Reference → ResendRangeRequest
resend_range_request_of_v2 xs from_msg_ref to_msg_ref = record {
  version = or_default (natural 2) (first xs);
  request_id = first (rest (rest xs));
  stream_id = first (rest (rest (rest xs)));
  stream_partition = first (rest (rest (rest (rest xs))));
  from_msg_ref = from_msg_ref;
  to_msg_ref = to_msg_ref;
  publisher_id = first (rest (rest (rest (rest (rest (rest (rest xs)))))));
  msg_chain_id = first (rest (rest (rest (rest (rest (rest (rest (rest xs))))))));
  session_token = first (rest (rest (rest (rest (rest (rest (rest (rest (rest xs)))))))));
}

unfoldable pub resend_range_request_from_array_v2 : Items → Option ResendRangeRequest
resend_range_request_from_array_v2 xs =
    elim (new_reference (first (rest (rest (rest (rest (rest xs))))))) [
      | none ↦ none
      | some from_msg_ref ↦
          elim (new_reference (first (rest (rest (rest (rest (rest (rest xs)))))))) [
            | none ↦ none
            | some to_msg_ref ↦
                if is_valid_resend_range_request
                  (resend_range_request_of_v2 xs from_msg_ref to_msg_ref)
                then some (resend_range_request_of_v2 xs from_msg_ref to_msg_ref)
                else none
          ]
    ]
