-- ===== src/Protocol/TrackerLayer/Tests.antt =====
-- A message of the tracker layer on small inputs.
use network_monorepo.Prelude.{◌≡◌, refl, none, codes}
use mathlib.Core.Option
use network_monorepo.Protocol.Json.{text, natural, array, nil, cons}
use network_monorepo.Protocol.TrackerLayer.{
  TrackerMessage, instruction_message, get_serializer, serialize,
}

abbrev connect : TrackerMessage
connect =
    instruction_message (record { version = natural 2; request_id = text (codes "r") })
      (text (codes "s")) (natural 0) (array (cons (text (codes "n1")) nil)) (natural 3)

old_connect : TrackerMessage
old_connect =
    instruction_message (record { version = natural 1; request_id = text (codes "r") })
      (text (codes "s")) (natural 0) (array (cons (text (codes "n1")) nil)) (natural 3)

-- A message of version 1 is not written.
not_written : serialize old_connect ≡ none
unfolding serialize get_serializer old_connect
not_written = refl
