-- ===== src/Network/Throttler/Tests.antt =====
-- Requests for one stream.
use network_monorepo.Prelude.{
  ℕ, ◌≡◌, refl, List, [], ◌∷◌, Text, codes, text_dec, lookup, insert, erase, modify, defines,
}
use network_monorepo.Network.Throttler.{
  Request, new_throttler, invoke, is_accepted, is_handling, enqueued, add_request, settled,
  remove_stream_id,
}
use network_monorepo.Network.Throttler.Latest.{
  Event, adds, settles, removes, step, run, Climbs, calls-Climbs,
}

abbrev s1 : Text
s1 = codes "s1"

abbrev request : ℕ → Request
request n = record {
  instruction = record { stream = s1; counter = n; content = [] };
  tracker_id = codes "t";
}

-- The request 3 is replaced by 4 while 1 is handled, and 2 comes too late.
abbrev busy : List Event
busy =
    adds (request 1)
    ∷ adds (request 3)
    ∷ adds (request 4)
    ∷ adds (request 2)
    ∷ settles s1
    ∷ removes (codes "s2")
    ∷ []

program : Unit {0}
unfolding text_dec lookup insert erase modify defines invoke is_accepted is_handling enqueued
    add_request settled remove_stream_id step run
program = tt

busy-calls : (run busy new_throttler).0 ≡ request 1 ∷ request 4 ∷ []
unfolding program
busy-calls = refl

calls-Climbs_example : Climbs s1 0 (run busy new_throttler).0
unfolding program
calls-Climbs_example = calls-Climbs s1 busy (refl, tt)
