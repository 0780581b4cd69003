-- ===== src/Network/Counter/Tests.antt =====
-- Counters on small inputs.
use network_monorepo.Prelude.{
  suc, ◌≡◌, refl, none, [], ◌∷◌, arith, Text, codes, text_dec, has, lookup, insert, erase,
}
use network_monorepo.Network.Counter.{
  Counters, StatusStreams, StreamStatus, count, unsubscribed, current, get_and_set_if_necessary,
  set_or_increment, is_fresh, filter_status, remove_node, remove_stream,
}
use network_monorepo.Network.Counter.Laws

program : Unit {0}
unfolding text_dec has lookup insert erase current get_and_set_if_necessary set_or_increment
    is_fresh filter_status remove_node remove_stream
program = tt

abbrev n1 : Text
n1 = codes "n1"

abbrev s1 : Text
s1 = codes "s1"

abbrev sent : Counters
sent = (n1, (s1, 4) ∷ []) ∷ []

abbrev entry : StreamStatus
entry = record { inbound_nodes = []; outbound_nodes = []; counter = count 4 }

abbrev status : StatusStreams
status = (s1, entry) ∷ (codes "s2", record entry { counter = unsubscribed }) ∷ []

increments : (set_or_increment n1 s1 sent).0 ≡ 5
unfolding program
increments = refl

keeps_fresh : (filter_status status n1 sent).0 ≡ status
unfolding program
keeps_fresh = refl

set_or_increment_lem_example : (set_or_increment n1 s1 sent).0 ≡ suc (current n1 s1 sent)
set_or_increment_lem_example = (Laws.set_or_increment_lem n1 s1 n1 s1 sent).0

filter_status_lem_example :
    Laws.IsCut n1 sent status (filter_status status n1 sent).0
    × (current n1 s1 (filter_status status n1 sent).1 ≡ current n1 s1 sent)
filter_status_lem_example = Laws.filter_status_lem n1 s1 n1 status sent

-- Of a status of two streams the stale entry goes, and the other stays.
drops_stale :
    (filter_status status n1 (set_or_increment n1 s1 sent).1).0
    ≡ (codes "s2", record entry { counter = unsubscribed }) ∷ []
unfolding program
drops_stale = refl

stale_status_example : lookup s1 (filter_status status n1 (set_or_increment n1 s1 sent).1).0 ≡ none
unfolding program
stale_status_example =
    Laws.stale_status n1 s1 entry 4 status sent (refl, (refl, tt)) refl refl (omega arith) s1
