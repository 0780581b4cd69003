-- ===== src/Protocol/ControlLayer/RoundTrip.antt =====
-- Messages of the control layer written and read again.
use network_monorepo.Prelude.{ℕ, ◌≡◌, true, some, arith, codes}
use network_monorepo.Protocol.Validations.{
  validate_is_integer, validate_is_string, validate_is_not_null_or_undefined,
}
use network_monorepo.Protocol.Json.{text, natural, array}
use network_monorepo.Protocol.StreamMessage.{
  Reference, reference_to_array, reference_from_array, is_valid_reference,
}
use network_monorepo.Protocol.ControlLayer.Head.{
  is_valid_head, placeholder_request_id_protocol_v1, new_reference,
}
use network_monorepo.Protocol.ControlLayer.Subscriptions.{
  SubscribeRequest, is_valid_subscribe_request, subscribe_request_to_array_v1,
  subscribe_request_from_array_v1, subscribe_request_to_array_v2, subscribe_request_from_array_v2,
  SubscribeResponse, is_valid_subscribe_response, subscribe_response_to_array_v1,
  subscribe_response_from_array_v1, subscribe_response_to_array_v2,
  subscribe_response_from_array_v2, UnsubscribeRequest, is_valid_unsubscribe_request,
  unsubscribe_request_to_array_v1, unsubscribe_request_from_array_v1,
  unsubscribe_request_to_array_v2, unsubscribe_request_from_array_v2, UnsubscribeResponse,
  is_valid_unsubscribe_response, unsubscribe_response_to_array_v1,
  unsubscribe_response_from_array_v1, unsubscribe_response_to_array_v2,
  unsubscribe_response_from_array_v2, ErrorResponse, is_valid_error_response,
  error_response_to_array_v1, error_response_from_array_v1, error_response_to_array_v2,
  error_response_from_array_v2,
}
use network_monorepo.Protocol.ControlLayer.ResendResponses.{
  ResendResponseResending, is_valid_resend_response_resending,
  resend_response_resending_to_array_v1, resend_response_resending_from_array_v1,
  resend_response_resending_to_array_v2, resend_response_resending_from_array_v2,
  ResendResponseResent, is_valid_resend_response_resent, resend_response_resent_to_array_v1,
  resend_response_resent_from_array_v1, resend_response_resent_to_array_v2,
  resend_response_resent_from_array_v2, ResendResponseNoResend, is_valid_resend_response_no_resend,
  resend_response_no_resend_to_array_v1, resend_response_no_resend_from_array_v1,
  resend_response_no_resend_to_array_v2, resend_response_no_resend_from_array_v2,
}
use network_monorepo.Protocol.ControlLayer.ResendRequests.{
  ResendLastRequest, is_valid_resend_last_request, resend_last_request_to_array_v1,
  resend_last_request_from_array_v1, resend_last_request_to_array_v2,
  resend_last_request_from_array_v2, ResendFromRequest, is_valid_resend_from_request,
  resend_from_request_to_array_v1, resend_from_request_from_array_v1,
  resend_from_request_to_array_v2, resend_from_request_from_array_v2, ResendRangeRequest,
  is_valid_resend_range_request, resend_range_request_to_array_v1,
  resend_range_request_from_array_v1, resend_range_request_to_array_v2,
  resend_range_request_from_array_v2,
}
use network_monorepo.Protocol.ControlLayer.Messages.{
  ControlMessage, subscribe_request, subscribe_response, unsubscribe_request, unsubscribe_response,
  error_response, resend_response_resending, resend_response_resent, resend_response_no_resend,
  resend_last_request, resend_from_request, resend_range_request, Version, v1, v2, is_valid,
  version_of, to_array, from_array, deserialize,
}

abbrev pub number_of : Version → ℕ
number_of v1 = 1
number_of v2 = 2

-- What a version carries: the requests of five types go without an identifier in version 1, and an
-- error without its code.
abbrev pub carried : Version → ControlMessage → ControlMessage
carried v1 (subscribe_request m) =
    subscribe_request (record m { request_id = text placeholder_request_id_protocol_v1 })
carried v1 (subscribe_response m) =
    subscribe_response (record m { request_id = text placeholder_request_id_protocol_v1 })
carried v1 (unsubscribe_request m) =
    unsubscribe_request (record m { request_id = text placeholder_request_id_protocol_v1 })
carried v1 (unsubscribe_response m) =
    unsubscribe_response (record m { request_id = text placeholder_request_id_protocol_v1 })
carried v1 (error_response m) = error_response (record m {
  request_id = text placeholder_request_id_protocol_v1;
  error_code = text (codes "UNKNOWN");
})
carried v m = m

read_subscribe_request :
    (v : Version) (m : SubscribeRequest)
    → m.version ≡ natural (number_of v)
    → is_valid_subscribe_request m ≡ true
    → deserialize (to_array v (subscribe_request m)) ≡ some (carried v (subscribe_request m))
unfolding deserialize to_array from_array is_valid_subscribe_request is_valid_head
    subscribe_request_to_array_v1 subscribe_request_from_array_v1 subscribe_request_to_array_v2
    subscribe_request_from_array_v2 validate_is_integer validate_is_string
    validate_is_not_null_or_undefined
read_subscribe_request v1 m e h = ground arith
read_subscribe_request v2 m e h = ground arith

read_subscribe_response :
    (v : Version) (m : SubscribeResponse)
    → m.version ≡ natural (number_of v)
    → is_valid_subscribe_response m ≡ true
    → deserialize (to_array v (subscribe_response m)) ≡ some (carried v (subscribe_response m))
unfolding deserialize to_array from_array is_valid_subscribe_response is_valid_head
    subscribe_response_to_array_v1 subscribe_response_from_array_v1 subscribe_response_to_array_v2
    subscribe_response_from_array_v2 validate_is_integer validate_is_string
    validate_is_not_null_or_undefined
read_subscribe_response v1 m e h = ground arith
read_subscribe_response v2 m e h = ground arith

read_unsubscribe_request :
    (v : Version) (m : UnsubscribeRequest)
    → m.version ≡ natural (number_of v)
    → is_valid_unsubscribe_request m ≡ true
    → deserialize (to_array v (unsubscribe_request m)) ≡ some (carried v (unsubscribe_request m))
unfolding deserialize to_array from_array is_valid_unsubscribe_request is_valid_head
    unsubscribe_request_to_array_v1 unsubscribe_request_from_array_v1
    unsubscribe_request_to_array_v2 unsubscribe_request_from_array_v2 validate_is_integer
    validate_is_string validate_is_not_null_or_undefined
read_unsubscribe_request v1 m e h = ground arith
read_unsubscribe_request v2 m e h = ground arith

read_unsubscribe_response :
    (v : Version) (m : UnsubscribeResponse)
    → m.version ≡ natural (number_of v)
    → is_valid_unsubscribe_response m ≡ true
    → deserialize (to_array v (unsubscribe_response m)) ≡ some (carried v (unsubscribe_response m))
unfolding deserialize to_array from_array is_valid_unsubscribe_response is_valid_head
    unsubscribe_response_to_array_v1 unsubscribe_response_from_array_v1
    unsubscribe_response_to_array_v2 unsubscribe_response_from_array_v2 validate_is_integer
    validate_is_string validate_is_not_null_or_undefined
read_unsubscribe_response v1 m e h = ground arith
read_unsubscribe_response v2 m e h = ground arith

read_error_response :
    (v : Version) (m : ErrorResponse)
    → m.version ≡ natural (number_of v)
    → is_valid_error_response m ≡ true
    → deserialize (to_array v (error_response m)) ≡ some (carried v (error_response m))
unfolding deserialize to_array from_array is_valid_error_response is_valid_head
    error_response_to_array_v1 error_response_from_array_v1 error_response_to_array_v2
    error_response_from_array_v2 validate_is_integer validate_is_string
    validate_is_not_null_or_undefined
read_error_response v1 m e h = ground arith
read_error_response v2 m e h = ground arith

read_resend_response_resending :
    (v : Version) (m : ResendResponseResending)
    → m.version ≡ natural (number_of v)
    → is_valid_resend_response_resending m ≡ true
    → deserialize (to_array v (resend_response_resending m))
      ≡ some (carried v (resend_response_resending m))
unfolding deserialize to_array from_array is_valid_resend_response_resending is_valid_head
    resend_response_resending_to_array_v1 resend_response_resending_from_array_v1
    resend_response_resending_to_array_v2 resend_response_resending_from_array_v2
    validate_is_integer validate_is_string validate_is_not_null_or_undefined
read_resend_response_resending v1 m e h = ground arith
read_resend_response_resending v2 m e h = ground arith

read_resend_response_resent :
    (v : Version) (m : ResendResponseResent)
    → m.version ≡ natural (number_of v)
    → is_valid_resend_response_resent m ≡ true
    → deserialize (to_array v (resend_response_resent m))
      ≡ some (carried v (resend_response_resent m))
unfolding deserialize to_array from_array is_valid_resend_response_resent is_valid_head
    resend_response_resent_to_array_v1 resend_response_resent_from_array_v1
    resend_response_resent_to_array_v2 resend_response_resent_from_array_v2 validate_is_integer
    validate_is_string validate_is_not_null_or_undefined
read_resend_response_resent v1 m e h = ground arith
read_resend_response_resent v2 m e h = ground arith

read_resend_response_no_resend :
    (v : Version) (m : ResendResponseNoResend)
    → m.version ≡ natural (number_of v)
    → is_valid_resend_response_no_resend m ≡ true
    → deserialize (to_array v (resend_response_no_resend m))
      ≡ some (carried v (resend_response_no_resend m))
unfolding deserialize to_array from_array is_valid_resend_response_no_resend is_valid_head
    resend_response_no_resend_to_array_v1 resend_response_no_resend_from_array_v1
    resend_response_no_resend_to_array_v2 resend_response_no_resend_from_array_v2
    validate_is_integer validate_is_string validate_is_not_null_or_undefined
read_resend_response_no_resend v1 m e h = ground arith
read_resend_response_no_resend v2 m e h = ground arith

read_resend_last_request :
    (v : Version) (m : ResendLastRequest)
    → m.version ≡ natural (number_of v)
    → is_valid_resend_last_request m ≡ true
    → deserialize (to_array v (resend_last_request m)) ≡ some (carried v (resend_last_request m))
unfolding deserialize to_array from_array is_valid_resend_last_request is_valid_head
    resend_last_request_to_array_v1 resend_last_request_from_array_v1
    resend_last_request_to_array_v2 resend_last_request_from_array_v2 validate_is_integer
    validate_is_string validate_is_not_null_or_undefined
read_resend_last_request v1 m e h = ground arith
read_resend_last_request v2 m e h = ground arith

read_resend_from_request :
    (v : Version) (m : ResendFromRequest)
    → m.version ≡ natural (number_of v)
    → is_valid_resend_from_request m ≡ true
    → deserialize (to_array v (resend_from_request m)) ≡ some (carried v (resend_from_request m))
unfolding deserialize to_array from_array is_valid_resend_from_request is_valid_head
    resend_from_request_to_array_v1 resend_from_request_from_array_v1
    resend_from_request_to_array_v2 resend_from_request_from_array_v2 new_reference
    reference_to_array reference_from_array validate_is_integer validate_is_string
    validate_is_not_null_or_undefined
read_resend_from_request v1 m e h = ground arith
read_resend_from_request v2 m e h = ground arith

new_reference-read :
    (r : Reference)
    → is_valid_reference r ≡ true
    → new_reference (array (reference_to_array r)) ≡ some r
unfolding new_reference reference_to_array reference_from_array
new_reference-read r h = ground arith

range-references :
    (m : ResendRangeRequest)
    → is_valid_resend_range_request m ≡ true
    → (new_reference (array (reference_to_array m.from_msg_ref)) ≡ some m.from_msg_ref)
      × (new_reference (array (reference_to_array m.to_msg_ref)) ≡ some m.to_msg_ref)
unfolding is_valid_resend_range_request
range-references m h = (
  new_reference-read m.from_msg_ref (ground arith),
  new_reference-read m.to_msg_ref (ground arith),
)

read_resend_range_request :
    (v : Version) (m : ResendRangeRequest)
    → m.version ≡ natural (number_of v)
    → is_valid_resend_range_request m ≡ true
    → deserialize (to_array v (resend_range_request m)) ≡ some (carried v (resend_range_request m))
unfolding deserialize to_array from_array resend_range_request_to_array_v1
    resend_range_request_from_array_v1 resend_range_request_to_array_v2
    resend_range_request_from_array_v2
read_resend_range_request v1 m e h = let r = range-references m h in ground (arith, r.0, r.1)
read_resend_range_request v2 m e h = let r = range-references m h in ground (arith, r.0, r.1)

-- Every message of the eleven types that its constructor accepts comes back from the array of its own
-- version, 1 or 2, with all that the version carries.
pub deserialize-ControlLayer :
    (v : Version) (m : ControlMessage)
    → version_of m ≡ natural (number_of v)
    → is_valid m ≡ true
    → deserialize (to_array v m) ≡ some (carried v m)
unfolding is_valid
deserialize-ControlLayer v (subscribe_request m) e h = read_subscribe_request v m e h
deserialize-ControlLayer v (subscribe_response m) e h = read_subscribe_response v m e h
deserialize-ControlLayer v (unsubscribe_request m) e h = read_unsubscribe_request v m e h
deserialize-ControlLayer v (unsubscribe_response m) e h = read_unsubscribe_response v m e h
deserialize-ControlLayer v (error_response m) e h = read_error_response v m e h
deserialize-ControlLayer v (resend_response_resending m) e h =
    read_resend_response_resending v m e h
deserialize-ControlLayer v (resend_response_resent m) e h = read_resend_response_resent v m e h
deserialize-ControlLayer v (resend_response_no_resend m) e h =
    read_resend_response_no_resend v m e h
deserialize-ControlLayer v (resend_last_request m) e h = read_resend_last_request v m e h
deserialize-ControlLayer v (resend_from_request m) e h = read_resend_from_request v m e h
deserialize-ControlLayer v (resend_range_request m) e h = read_resend_range_request v m e h
