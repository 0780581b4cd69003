-- ===== src/Protocol/ControlLayer/Tests.antt =====
-- A request of the control layer.
use network_monorepo.Prelude.{◌≡◌, refl, true, some, codes}
use network_monorepo.Protocol.Validations.{
  validate_is_not_null_or_undefined, validate_is_string, validate_is_not_empty_string,
  validate_is_integer, validate_is_not_negative_integer,
}
use network_monorepo.Protocol.Json.{null, text, natural}
use network_monorepo.Protocol.StreamMessage.{is_valid_reference}
use network_monorepo.Protocol.ControlLayer.Head.{is_valid_head}
use network_monorepo.Protocol.ControlLayer.ResendRequests.{is_valid_resend_range_request}
use network_monorepo.Protocol.ControlLayer.Messages.{
  ControlMessage, resend_range_request, v1, is_valid, to_array, deserialize,
}
use network_monorepo.Protocol.ControlLayer.RoundTrip.{carried, deserialize-ControlLayer}

abbrev range : ControlMessage
range = resend_range_request (record {
  version = natural 1;
  request_id = text (codes "r");
  stream_id = text (codes "s");
  stream_partition = natural 0;
  from_msg_ref = record { timestamp = natural 5; sequence_number = natural 0 };
  to_msg_ref = record { timestamp = natural 9; sequence_number = natural 0 };
  publisher_id = text (codes "p");
  msg_chain_id = null;
  session_token = null;
})

range-valid : is_valid range ≡ true
unfolding is_valid is_valid_resend_range_request is_valid_head is_valid_reference
    validate_is_not_null_or_undefined validate_is_string validate_is_not_empty_string
    validate_is_integer validate_is_not_negative_integer
range-valid = refl

deserialize-ControlLayer_example : deserialize (to_array v1 range) ≡ some (carried v1 range)
deserialize-ControlLayer_example = deserialize-ControlLayer v1 range refl range-valid
