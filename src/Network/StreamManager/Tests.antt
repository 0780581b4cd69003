-- ===== src/Network/StreamManager/Tests.antt =====
-- A manager with two streams.
use network_monorepo.Prelude.{
  ℕ, ◌≡◌, refl, true, false, ◌&&◌, none, some, List, [], ◌∷◌, if◌then◌else◌, Text, codes, same,
  text_dec, has, IsDistinct, lookup,
}
use network_monorepo.Network.NumberPair.{NumberPair, number}
use network_monorepo.Network.Detector.{mark_and_check}
use network_monorepo.Network.Detector.Once.{after}
use network_monorepo.Network.StreamManager.{
  StreamState, Streams, fresh_state, remove_node_from_all_streams, is_node_present, is_connected,
  remove_stream, get_all_nodes, mark_numbers_and_check_that_is_not_duplicate, key_for_detector,
}
use network_monorepo.Network.StreamManager.Nodes
use network_monorepo.Network.StreamManager.Marks
use network_monorepo.Network.StreamManager.Marks.{answer_of, detector_at}

abbrev s1 : Text
s1 = codes "s1"

abbrev s2 : Text
s2 = codes "s2"

abbrev n1 : Text
n1 = codes "n1"

abbrev n2 : Text
n2 = codes "n2"

abbrev state1 : StreamState
state1 = record fresh_state { inbound_nodes = n1 ∷ []; outbound_nodes = n1 ∷ n2 ∷ [] }

abbrev two_streams : Streams
two_streams = (s1, state1) ∷ (s2, record fresh_state { inbound_nodes = n2 ∷ [] }) ∷ []

program : Unit {0}
unfolding text_dec lookup has remove_node_from_all_streams is_node_present is_connected
program = tt

remove_node_from_all_streams_lem_example :
    ((remove_node_from_all_streams n1 two_streams).0 ≡ s1 ∷ [])
    × (is_node_present n1 (remove_node_from_all_streams n1 two_streams).1 ≡ false)
unfolding program
remove_node_from_all_streams_lem_example = Nodes.remove_node_from_all_streams_lem n1 n1 two_streams

get_all_nodes_lem_example :
    (has n1 (get_all_nodes two_streams) ≡ is_node_present n1 two_streams)
    × IsDistinct (get_all_nodes two_streams)
get_all_nodes_lem_example = Nodes.get_all_nodes_lem n1 two_streams

remove_stream_lem_example :
    (nodes : List Text) × (left : Streams) × (remove_stream s1 two_streams ≡ some (nodes, left))
    × IsDistinct nodes
    × (has n2 nodes ≡ true)
    × (lookup s1 left ≡ none)
unfolding program
remove_stream_lem_example = Nodes.remove_stream_lem s1 s1 n2 state1 two_streams refl

abbrev at : ℕ → NumberPair
at n = record { a = number n; b = number 0 }

mark_numbers_lem_example :
    let key = key_for_detector n1 n2 in
    let d = detector_at s1 key two_streams in
    let result = mark_numbers_and_check_that_is_not_duplicate s1 n1 n2 none (at 5) two_streams in
    (result.0 ≡ answer_of (mark_and_check d none (at 5)))
    × (detector_at s2 key result.1 ≡ (
        if same s1 s2 && same key key
        then after d (mark_and_check d none (at 5))
        else detector_at s2 key two_streams))
unfolding text_dec lookup
mark_numbers_lem_example =
    Marks.mark_numbers_lem s2 (key_for_detector n1 n2) s1 n1 n2 none (at 5) state1 two_streams refl
