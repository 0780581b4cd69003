-- ===== src/Protocol/TrackerLayer/RoundTrip.antt =====
-- Messages of the tracker layer written and read again.
use network_monorepo.Prelude.{Bool, false, ◌==◌}
use mathlib.Core.Option
use network_monorepo.Protocol.Json.{Json, natural}

abbrev pub is_version_two : Json → Bool
is_version_two (natural n) = n == 2
is_version_two x = false
