-- ===== src/Protocol/ControlLayer/Messages.antt =====
-- The message types of ControlMessage.ts, and the choice of a serializer.
use network_monorepo.Prelude.{
  ℕ, Bool, false, Option, none, some, ◌==◌, if◌then◌else◌, Text, codes, same,
}
use network_monorepo.Protocol.Json.{Json, text, natural, Items, first, rest}
use network_monorepo.Protocol.ControlLayer.Subscriptions.{
  SubscribeRequest, is_valid_subscribe_request, subscribe_request_to_array_v1,
  subscribe_request_from_array_v1, subscribe_request_to_array_v2, subscribe_request_from_array_v2,
  SubscribeResponse, is_valid_subscribe_response, subscribe_response_to_array_v1,
  subscribe_response_from_array_v1, subscribe_response_to_array_v2,
  subscribe_response_from_array_v2, UnsubscribeRequest, is_valid_unsubscribe_request,
  unsubscribe_request_to_array_v1, unsubscribe_request_from_array_v1,
  unsubscribe_request_to_array_v2, unsubscribe_request_from_array_v2, UnsubscribeResponse,
  is_valid_unsubscribe_response, unsubscribe_response_to_array_v1,
  unsubscribe_response_from_array_v1, unsubscribe_response_to_array_v2,
  unsubscribe_response_from_array_v2, ErrorResponse, is_valid_error_response,
  error_response_to_array_v1, error_response_from_array_v1, error_response_to_array_v2,
  error_response_from_array_v2,
}
use network_monorepo.Protocol.ControlLayer.ResendResponses.{
  ResendResponseResending, is_valid_resend_response_resending,
  resend_response_resending_to_array_v1, resend_response_resending_from_array_v1,
  resend_response_resending_to_array_v2, resend_response_resending_from_array_v2,
  ResendResponseResent, is_valid_resend_response_resent, resend_response_resent_to_array_v1,
  resend_response_resent_from_array_v1, resend_response_resent_to_array_v2,
  resend_response_resent_from_array_v2, ResendResponseNoResend, is_valid_resend_response_no_resend,
  resend_response_no_resend_to_array_v1, resend_response_no_resend_from_array_v1,
  resend_response_no_resend_to_array_v2, resend_response_no_resend_from_array_v2,
}
use network_monorepo.Protocol.ControlLayer.ResendRequests.{
  ResendLastRequest, is_valid_resend_last_request, resend_last_request_to_array_v1,
  resend_last_request_from_array_v1, resend_last_request_to_array_v2,
  resend_last_request_from_array_v2, ResendFromRequest, is_valid_resend_from_request,
  resend_from_request_to_array_v1, resend_from_request_from_array_v1,
  resend_from_request_to_array_v2, resend_from_request_from_array_v2, ResendRangeRequest,
  is_valid_resend_range_request, resend_range_request_to_array_v1,
  resend_range_request_from_array_v1, resend_range_request_to_array_v2,
  resend_range_request_from_array_v2,
}

pub data ControlMessage : Type 0 where
  subscribe_request : SubscribeRequest → ControlMessage
  subscribe_response : SubscribeResponse → ControlMessage
  unsubscribe_request : UnsubscribeRequest → ControlMessage
  unsubscribe_response : UnsubscribeResponse → ControlMessage
  error_response : ErrorResponse → ControlMessage
  resend_response_resending : ResendResponseResending → ControlMessage
  resend_response_resent : ResendResponseResent → ControlMessage
  resend_response_no_resend : ResendResponseNoResend → ControlMessage
  resend_last_request : ResendLastRequest → ControlMessage
  resend_from_request : ResendFromRequest → ControlMessage
  resend_range_request : ResendRangeRequest → ControlMessage

pub data Version : Type 0 where
  v1 v2 : Version

pub data Kind : Type 0 where
  subscribe_request_kind : Kind
  subscribe_response_kind : Kind
  unsubscribe_request_kind : Kind
  unsubscribe_response_kind : Kind
  error_response_kind : Kind
  resend_response_resending_kind : Kind
  resend_response_resent_kind : Kind
  resend_response_no_resend_kind : Kind
  resend_last_request_kind : Kind
  resend_from_request_kind : Kind
  resend_range_request_kind : Kind

unfoldable pub is_valid : ControlMessage → Bool
is_valid (subscribe_request m) = is_valid_subscribe_request m
is_valid (subscribe_response m) = is_valid_subscribe_response m
is_valid (unsubscribe_request m) = is_valid_unsubscribe_request m
is_valid (unsubscribe_response m) = is_valid_unsubscribe_response m
is_valid (error_response m) = is_valid_error_response m
is_valid (resend_response_resending m) = is_valid_resend_response_resending m
is_valid (resend_response_resent m) = is_valid_resend_response_resent m
is_valid (resend_response_no_resend m) = is_valid_resend_response_no_resend m
is_valid (resend_last_request m) = is_valid_resend_last_request m
is_valid (resend_from_request m) = is_valid_resend_from_request m
is_valid (resend_range_request m) = is_valid_resend_range_request m

abbrev pub version_of : ControlMessage → Json
version_of (subscribe_request m) = m.version
version_of (subscribe_response m) = m.version
version_of (unsubscribe_request m) = m.version
version_of (unsubscribe_response m) = m.version
version_of (error_response m) = m.version
version_of (resend_response_resending m) = m.version
version_of (resend_response_resent m) = m.version
version_of (resend_response_no_resend m) = m.version
version_of (resend_last_request m) = m.version
version_of (resend_from_request m) = m.version
version_of (resend_range_request m) = m.version

-- The serializer of the version and the type of the message.
unfoldable pub to_array : Version → ControlMessage → Items
to_array v1 (subscribe_request m) = subscribe_request_to_array_v1 m
to_array v1 (subscribe_response m) = subscribe_response_to_array_v1 m
to_array v1 (unsubscribe_request m) = unsubscribe_request_to_array_v1 m
to_array v1 (unsubscribe_response m) = unsubscribe_response_to_array_v1 m
to_array v1 (error_response m) = error_response_to_array_v1 m
to_array v1 (resend_response_resending m) = resend_response_resending_to_array_v1 m
to_array v1 (resend_response_resent m) = resend_response_resent_to_array_v1 m
to_array v1 (resend_response_no_resend m) = resend_response_no_resend_to_array_v1 m
to_array v1 (resend_last_request m) = resend_last_request_to_array_v1 m
to_array v1 (resend_from_request m) = resend_from_request_to_array_v1 m
to_array v1 (resend_range_request m) = resend_range_request_to_array_v1 m
to_array v2 (subscribe_request m) = subscribe_request_to_array_v2 m
to_array v2 (subscribe_response m) = subscribe_response_to_array_v2 m
to_array v2 (unsubscribe_request m) = unsubscribe_request_to_array_v2 m
to_array v2 (unsubscribe_response m) = unsubscribe_response_to_array_v2 m
to_array v2 (error_response m) = error_response_to_array_v2 m
to_array v2 (resend_response_resending m) = resend_response_resending_to_array_v2 m
to_array v2 (resend_response_resent m) = resend_response_resent_to_array_v2 m
to_array v2 (resend_response_no_resend m) = resend_response_no_resend_to_array_v2 m
to_array v2 (resend_last_request m) = resend_last_request_to_array_v2 m
to_array v2 (resend_from_request m) = resend_from_request_to_array_v2 m
to_array v2 (resend_range_request m) = resend_range_request_to_array_v2 m

abbrev pub wrapped : {A : Type 0} → (A → ControlMessage) → Option A → Option ControlMessage
wrapped f none = none
wrapped f (some a) = some (f a)

unfoldable pub from_array : Version → Kind → Items → Option ControlMessage
from_array v1 subscribe_request_kind xs =
    wrapped subscribe_request (subscribe_request_from_array_v1 xs)
from_array v1 subscribe_response_kind xs =
    wrapped subscribe_response (subscribe_response_from_array_v1 xs)
from_array v1 unsubscribe_request_kind xs =
    wrapped unsubscribe_request (unsubscribe_request_from_array_v1 xs)
from_array v1 unsubscribe_response_kind xs =
    wrapped unsubscribe_response (unsubscribe_response_from_array_v1 xs)
from_array v1 error_response_kind xs = wrapped error_response (error_response_from_array_v1 xs)
from_array v1 resend_response_resending_kind xs =
    wrapped resend_response_resending (resend_response_resending_from_array_v1 xs)
from_array v1 resend_response_resent_kind xs =
    wrapped resend_response_resent (resend_response_resent_from_array_v1 xs)
from_array v1 resend_response_no_resend_kind xs =
    wrapped resend_response_no_resend (resend_response_no_resend_from_array_v1 xs)
from_array v1 resend_last_request_kind xs =
    wrapped resend_last_request (resend_last_request_from_array_v1 xs)
from_array v1 resend_from_request_kind xs =
    wrapped resend_from_request (resend_from_request_from_array_v1 xs)
from_array v1 resend_range_request_kind xs =
    wrapped resend_range_request (resend_range_request_from_array_v1 xs)
from_array v2 subscribe_request_kind xs =
    wrapped subscribe_request (subscribe_request_from_array_v2 xs)
from_array v2 subscribe_response_kind xs =
    wrapped subscribe_response (subscribe_response_from_array_v2 xs)
from_array v2 unsubscribe_request_kind xs =
    wrapped unsubscribe_request (unsubscribe_request_from_array_v2 xs)
from_array v2 unsubscribe_response_kind xs =
    wrapped unsubscribe_response (unsubscribe_response_from_array_v2 xs)
from_array v2 error_response_kind xs = wrapped error_response (error_response_from_array_v2 xs)
from_array v2 resend_response_resending_kind xs =
    wrapped resend_response_resending (resend_response_resending_from_array_v2 xs)
from_array v2 resend_response_resent_kind xs =
    wrapped resend_response_resent (resend_response_resent_from_array_v2 xs)
from_array v2 resend_response_no_resend_kind xs =
    wrapped resend_response_no_resend (resend_response_no_resend_from_array_v2 xs)
from_array v2 resend_last_request_kind xs =
    wrapped resend_last_request (resend_last_request_from_array_v2 xs)
from_array v2 resend_from_request_kind xs =
    wrapped resend_from_request (resend_from_request_from_array_v2 xs)
from_array v2 resend_range_request_kind xs =
    wrapped resend_range_request (resend_range_request_from_array_v2 xs)

-- A key of the table of serializers, given by a number or its digits.
abbrev pub is_key : ℕ → Text → Json → Bool
is_key n digits (natural k) = k == n
is_key n digits (text t) = same t digits
is_key n digits x = false

abbrev pub version_key : Json → Option Version
version_key x =
    if is_key 1 (codes "1") x then some v1 else if is_key 2 (codes "2") x then some v2 else none

abbrev pub kind_key : Json → Option Kind
kind_key x =
    if is_key 9 (codes "9") x
    then some subscribe_request_kind
    else if is_key 2 (codes "2") x
    then some subscribe_response_kind
    else if is_key 10 (codes "10") x
    then some unsubscribe_request_kind
    else if is_key 3 (codes "3") x
    then some unsubscribe_response_kind
    else if is_key 7 (codes "7") x
    then some error_response_kind
    else if is_key 4 (codes "4") x
    then some resend_response_resending_kind
    else if is_key 5 (codes "5") x
    then some resend_response_resent_kind
    else if is_key 6 (codes "6") x
    then some resend_response_no_resend_kind
    else if is_key 11 (codes "11") x
    then some resend_last_request_kind
    else if is_key 12 (codes "12") x
    then some resend_from_request_kind
    else if is_key 13 (codes "13") x
    then some resend_range_request_kind
    else none

-- Of an array; a string is parsed before.
unfoldable pub deserialize : Items → Option ControlMessage
deserialize xs = elim (version_key (first xs)) [
  | none ↦ none
  | some v ↦ elim (kind_key (first (rest xs))) [ none ↦ none | some k ↦ from_array v k xs ]
]
