-- ===== src/Protocol/ControlLayer/Head.antt =====
-- What the messages of packages/protocol/src/protocol/control_layer/ControlMessage.ts share.
use network_monorepo.Prelude.{Bool, true, false, ◌&&◌, Option, none, some, ltb, Text, codes}
use network_monorepo.Protocol.Validations.{validate_is_integer, validate_is_string}
use network_monorepo.Protocol.Json.{Json, natural, negative, shape, items_of}
use network_monorepo.Protocol.StreamMessage.{Reference, reference_from_array}

abbrev pub placeholder_request_id_protocol_v1 : Text
placeholder_request_id_protocol_v1 = codes "PLACEHOLDER_REQUEST_ID_PROTOCOL_V1"

-- `version < 2`
abbrev pub is_old : Json → Bool
is_old (natural n) = ltb n 2
is_old (negative n) = true
is_old x = false

-- What the constructor of `ControlMessage` checks; null is allowed as the request of an old version.
unfoldable pub is_valid_head : Json → Json → Bool
is_valid_head version request_id =
    validate_is_integer false (shape version)
    && validate_is_string (is_old version) (shape request_id)

-- A destructured reference and the constructor of `MessageRef`.
unfoldable pub new_reference : Json → Option Reference
new_reference x = elim (items_of x) [ none ↦ none | some xs ↦ reference_from_array xs ]
