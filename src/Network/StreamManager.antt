-- ===== src/Network/StreamManager.antt =====
-- `StreamManager` of packages/network/src/logic/StreamManager.ts: the neighbours of a node and the
-- duplicate detectors, for each stream. A stream is given by its key, and where the code returns
-- streams these are keys too. Sorting for display is left out.
pub mod Nodes
pub mod Marks
pub mod Kept
mod Tests
use network_monorepo.Prelude.{
  ℕ, Bool, true, false, not, ◌||◌, Option, none, some, List, [], ◌∷◌, ◌++◌, map, any, filter,
  if◌then◌else◌, Text, has, add, remove, to_set, Dict, lookup, insert, erase, defines, keys,
}
use network_monorepo.Network.NumberPair.{NumberPair}
use network_monorepo.Network.Detector.{Detector, Error, Verdict, ok, throw, mark_and_check}
use network_monorepo.Network.Detector
use network_monorepo.Network.Counter.{Stamp, unsubscribed, count, StreamStatus, StatusStreams}

pub record StreamState : Type 0 where
  pub detectors : Dict Detector
  pub inbound_nodes : List Text
  pub outbound_nodes : List Text
  pub counter : ℕ

abbrev pub Streams : Type 0
Streams = Dict StreamState

-- What `markNumbersAndCheckThatIsNotDuplicate` returns or throws.
pub data Answer : Type 0 where
  answered : Bool → Answer
  not_set_up : Answer
  failed : Error → Answer

-- `${publisherId}-${msgChainId}`; 45 is the code of the dash.
abbrev pub key_for_detector : Text → Text → Text
key_for_detector publisher_id msg_chain_id = publisher_id ++ 45 ∷ msg_chain_id

unfoldable pub is_set_up : Text → Streams → Bool
is_set_up = defines

abbrev pub fresh_state : StreamState
fresh_state = record { detectors = []; inbound_nodes = []; outbound_nodes = []; counter = 0 }

-- `none` is the error of a stream that is set up already.
unfoldable pub set_up_stream : Text → Streams → Option Streams
set_up_stream stream streams =
    if is_set_up stream streams then none else some (insert stream fresh_state streams)

-- A detector is made when it is first needed, with the bound of its constructor.
unfoldable pub detector_of : Text → StreamState → Detector
detector_of key s = elim (lookup key s.detectors) [ none ↦ Detector.init 10000 | some d ↦ d ]

-- The detector is kept in the map even if the call throws.
abbrev pub keep_detector :
    Text → StreamState → Detector → Verdict (Bool × Detector) → Answer × StreamState
keep_detector key s d (ok (b, d')) =
    (answered b, record s { detectors = insert key d' s.detectors })
keep_detector key s d (throw e) = (failed e, record s { detectors = insert key d s.detectors })

unfoldable pub mark_in_state :
    Text → Option NumberPair → NumberPair → StreamState → Answer × StreamState
mark_in_state key previous number s =
    keep_detector key s (detector_of key s) (mark_and_check (detector_of key s) previous number)

abbrev pub put_state : Text → Streams → Answer × StreamState → Answer × Streams
put_state stream streams (a, s) = (a, insert stream s streams)

unfoldable pub mark_numbers_and_check_that_is_not_duplicate :
    Text → Text → Text → Option NumberPair → NumberPair → Streams → Answer × Streams
mark_numbers_and_check_that_is_not_duplicate stream publisher_id msg_chain_id previous number
      streams =
    elim (lookup stream streams) [
      | none ↦ (not_set_up, streams)
      | some s ↦
          put_state stream streams
            (mark_in_state (key_for_detector publisher_id msg_chain_id) previous number s)
    ]

-- An operation on the state of a stream; `none` is the error of a stream that is not set up, or the
-- TypeError of `updateCounter`.
unfoldable pub change : Text → (StreamState → StreamState) → Streams → Option Streams
change stream f streams = elim (lookup stream streams) [
  | none ↦ none
  | some s ↦ some (insert stream (f s) streams)
]

unfoldable pub update_counter : Text → ℕ → Streams → Option Streams
update_counter stream counter = change stream (λ s. record s { counter = counter })

unfoldable pub add_inbound_node : Text → Text → Streams → Option Streams
add_inbound_node stream node =
    change stream (λ s. record s { inbound_nodes = add node s.inbound_nodes })

unfoldable pub add_outbound_node : Text → Text → Streams → Option Streams
add_outbound_node stream node =
    change stream (λ s. record s { outbound_nodes = add node s.outbound_nodes })

abbrev pub without_node : Text → StreamState → StreamState
without_node node s = record s {
  inbound_nodes = remove node s.inbound_nodes;
  outbound_nodes = remove node s.outbound_nodes;
}

unfoldable pub remove_node_from_stream : Text → Text → Streams → Option Streams
remove_node_from_stream stream node = change stream (without_node node)

unfoldable pub is_connected : Text → StreamState → Bool
is_connected node s = has node s.inbound_nodes || has node s.outbound_nodes

-- The streams that had the node, and the streams after it.
unfoldable pub remove_node_from_all_streams : Text → Streams → List Text × Streams
remove_node_from_all_streams node [] = ([], [])
remove_node_from_all_streams node ((stream, s) ∷ streams) =
    let (removed, after) = remove_node_from_all_streams node streams in
    (
      if is_connected node s then stream ∷ removed else removed,
      (stream, without_node node s) ∷ after,
    )

-- The nodes of the stream, without repetition, and the streams without it.
unfoldable pub remove_stream : Text → Streams → Option (List Text × Streams)
remove_stream stream streams = elim (lookup stream streams) [
  | none ↦ none
  | some s ↦ some (to_set (s.inbound_nodes ++ s.outbound_nodes), erase stream streams)
]

unfoldable pub is_node_present : Text → Streams → Bool
is_node_present node [] = false
is_node_present node ((stream, s) ∷ streams) = is_connected node s || is_node_present node streams

unfoldable pub status_of : StreamState → StreamStatus
status_of s = record {
  inbound_nodes = s.inbound_nodes;
  outbound_nodes = s.outbound_nodes;
  counter = count s.counter;
}

unfoldable pub get_stream_state : Text → Streams → StatusStreams
get_stream_state stream streams = elim (lookup stream streams) [
  | none ↦ (stream, record { inbound_nodes = []; outbound_nodes = []; counter = unsubscribed }) ∷ []
  | some s ↦ (stream, status_of s) ∷ []
]

unfoldable pub get_streams_with_connections : (Text → Bool) → Streams → StatusStreams
get_streams_with_connections test streams =
    map (λ e. (e.0, status_of e.1)) (filter (λ e. test e.0) streams)

-- `getInboundNodesForStream`, `getOutboundNodesForStream` and `getAllNodesForStream`, unsorted.
unfoldable pub get_inbound_nodes_for_stream : Text → Streams → Option (List Text)
get_inbound_nodes_for_stream stream streams = elim (lookup stream streams) [
  | none ↦ none
  | some s ↦ some s.inbound_nodes
]

unfoldable pub get_outbound_nodes_for_stream : Text → Streams → Option (List Text)
get_outbound_nodes_for_stream stream streams = elim (lookup stream streams) [
  | none ↦ none
  | some s ↦ some s.outbound_nodes
]

unfoldable pub get_all_nodes_for_stream : Text → Streams → Option (List Text)
get_all_nodes_for_stream stream streams = elim (lookup stream streams) [
  | none ↦ none
  | some s ↦ some (to_set (s.inbound_nodes ++ s.outbound_nodes))
]

unfoldable pub list_nodes : Streams → List Text
list_nodes [] = []
list_nodes ((stream, s) ∷ streams) = s.inbound_nodes ++ s.outbound_nodes ++ list_nodes streams

unfoldable pub get_all_nodes : Streams → List Text
get_all_nodes streams = to_set (list_nodes streams)

unfoldable pub has_inbound_node : Text → Text → Streams → Option Bool
has_inbound_node stream node streams = elim (lookup stream streams) [
  | none ↦ none
  | some s ↦ some (has node s.inbound_nodes)
]

unfoldable pub has_outbound_node : Text → Text → Streams → Option Bool
has_outbound_node stream node streams = elim (lookup stream streams) [
  | none ↦ none
  | some s ↦ some (has node s.outbound_nodes)
]
