-- ===== src/Network/Node.antt =====
-- `Node` of packages/network/src/logic/Node.ts: its state, and what it does with messages. A step
-- gives its outputs in order: the events it emits and the calls of the layers below, of the
-- throttler and of the retry manager. `none` is an error that the code throws. A stream is given by
-- its key; `ws_of` is `getTracker(...).ws` of the tracker registry. Metrics and logging are left out.
pub mod Handlers
pub mod Progress
pub mod Marked
pub mod Receive
pub mod Subscribe
pub mod Steps
pub mod Events
pub mod Runs
pub mod Delivery
pub mod Flush
mod Tests
use network_monorepo.Prelude.{
  ℕ, Bool, true, false, not, ◌||◌, Option, none, some, List, [], ◌∷◌, ◌++◌, map, filter,
  if◌then◌else◌, Text, same, to_set, add, remove, Dict, lookup, insert, Outcome, after_outputs,
  and_then,
}
use network_monorepo.Network.Counter.{StatusStreams}
use network_monorepo.Network.MessageBuffer.{MessageBuffer, put, pop_all}
use network_monorepo.Network.StreamManager.{
  Streams, Answer, answered, not_set_up, failed, is_set_up, set_up_stream,
  mark_numbers_and_check_that_is_not_duplicate, add_inbound_node, add_outbound_node,
  remove_node_from_all_streams, remove_stream, get_stream_state, get_streams_with_connections,
  get_outbound_nodes_for_stream,
}
use network_monorepo.Network.SeenSet.{
  Message, Cache, stream_of, number_of, previous_of, add_seen, delete_seen, has_seen,
}

abbrev pub Buffered : Type 0
Buffered = Message × Option Text

pub record Node (S : Type 0) : Type 0 where
  pub streams : Streams
  pub message_buffer : MessageBuffer Buffered
  pub seen_but_not_propagated : S
  pub tracker_book : Dict Text
  pub consecutive_delivery_failures : Dict ℕ
  -- the nodes with an armed timer in `disconnectionTimers`
  pub disconnection_timers : List Text

pub data Output : Type 0 where
  message_received unseen_message_received : Message → Option Text → Output
  message_propagated : Message → Output
  message_propagation_failed : Message → Text → Output
  node_subscribed node_unsubscribed : Text → Text → Output
  node_disconnected : Text → Output
  send_data : Text → Message → Output
  -- tracker, streams and `singleStream`
  send_status : Text → StatusStreams → Bool → Output
  connect_to_node : Text → Text → Bool → Output
  disconnect_from_node : Text → Output
  connect_to_tracker : Text → Output
  throttler_remove retry_remove : Text → Output
  -- the retry manager's `add` of the instruction of a stream from a tracker
  retry_add : Text → Text → Output
  stop_all : Output

abbrev pub Handled : Type 0 → Type 0
Handled S = Outcome Output (Node S)

abbrev pub is_source : Option Text → Text → Bool
is_source none node = false
is_source (some source) node = same source node

-- `x || null`: an empty string counts as none.
abbrev pub or_null : Option Text → Option Text
or_null none = none
or_null (some []) = none
or_null (some (c ∷ cs)) = some (c ∷ cs)

abbrev pub somes : List (Option Text) → List Text
somes [] = []
somes (none ∷ xs) = somes xs
somes (some x ∷ xs) = x ∷ somes xs

abbrev pub same_tracker : Text → Option Text → Bool
same_tracker tracker none = false
same_tracker tracker (some t) = same t tracker

abbrev pub subscribed_both : Text → Text → Streams → Option Streams
subscribed_both stream node streams = elim (add_inbound_node stream node streams) [
  | none ↦ none
  | some streams' ↦ add_outbound_node stream node streams'
]

module _ {S : Type 0} (cache : Cache S) (print : ℕ → Text) (ws_of : Text → Text) where
  unfoldable pub get_tracker_id : Text → Node S → Option Text
  get_tracker_id stream st = or_null (lookup (ws_of stream) st.tracker_book)

  unfoldable pub prepare_and_send_stream_status : Text → Node S → List Output
  prepare_and_send_stream_status stream st = elim (get_tracker_id stream st) [
    | none ↦ []
    | some tracker ↦ send_status tracker (get_stream_state stream st.streams) true ∷ []
  ]

  unfoldable pub prepare_and_send_full_status : Text → Node S → Output
  prepare_and_send_full_status tracker st =
      send_status tracker
        (get_streams_with_connections (λ k. same_tracker tracker (get_tracker_id k st)) st.streams)
        false

  abbrev pub with_status : Bool → Text → Node S → List Output × Node S
  with_status send stream st = (if send then prepare_and_send_stream_status stream st else [], st)

  unfoldable pub subscribe_to_stream_if_have_not_yet : Text → Bool → Node S → Handled S
  subscribe_to_stream_if_have_not_yet stream send st =
      if is_set_up stream st.streams
      then some ([], st)
      else elim (set_up_stream stream st.streams) [
        | none ↦ none
        | some streams ↦ some (with_status send stream (record st { streams = streams }))
      ]

  unfoldable pub unsubscribe_from_stream : Text → Bool → Node S → Handled S
  unsubscribe_from_stream stream send st = elim (remove_stream stream st.streams) [
    | none ↦ none
    | some r ↦
        after_outputs (throttler_remove stream ∷ retry_remove stream ∷ [])
          (some (with_status send stream (record st { streams = r.1 })))
  ]

  -- The full statuses go to the distinct trackers of the streams that had the node.
  unfoldable pub on_node_disconnected : Text → Node S → List Output × Node S
  on_node_disconnected node st =
      let (streams, rest) = remove_node_from_all_streams node st.streams in
      let st' = record st { streams = rest } in
      let trackers = to_set (somes (map (λ k. get_tracker_id k st') streams)) in
      (map (λ t. prepare_and_send_full_status t st') trackers ++ node_disconnected node ∷ [], st')

  -- The message goes back to the buffer.
  unfoldable pub put_back : Message → Option Text → Node S → Handled S
  put_back m source st = elim (put (stream_of print m) (m, source) st.message_buffer) [
    | none ↦ none
    | some b ↦ some (
      [],
      record st {
        seen_but_not_propagated = add_seen cache print m st.seen_but_not_propagated;
        message_buffer = b;
      },
    )
  ]

  -- The message goes to the subscribers; that a sending ends is a step of its own.
  unfoldable pub send_to : List Text → Message → Node S → List Output × Node S
  send_to subscribers m st = (
    map (λ n. send_data n m) subscribers ++ message_propagated m ∷ [],
    record st { seen_but_not_propagated = delete_seen cache print m st.seen_but_not_propagated },
  )

  unfoldable pub propagate_to : List Text → Message → Option Text → Node S → Handled S
  propagate_to [] m source st = put_back m source st
  propagate_to (n ∷ ns) m source st = some (send_to (n ∷ ns) m st)

  unfoldable pub propagate_message : Message → Option Text → Node S → Handled S
  propagate_message m source st =
      elim (get_outbound_nodes_for_stream (stream_of print m) st.streams) [
        | none ↦ none
        | some nodes ↦ propagate_to (filter (λ n. not (is_source source n)) nodes) m source st
      ]

  -- The message is marked; the two errors of the detector drop it.
  unfoldable pub after_marking : Message → Option Text → Answer → Node S → Handled S
  after_marking m source not_set_up st = none
  after_marking m source (failed e) st = some ([], st)
  after_marking m source (answered is_unseen) st =
      after_outputs (if is_unseen then unseen_message_received m source ∷ [] else []) (
        if is_unseen || has_seen cache print m st.seen_but_not_propagated
        then propagate_message m source st
        else some ([], st))

  unfoldable pub mark_message : Message → Option Text → Node S → Handled S
  mark_message m source st =
      let (answer, streams) =
        mark_numbers_and_check_that_is_not_duplicate (stream_of print m) m.publisher_id
          m.msg_chain_id (previous_of m) (number_of m) st.streams in
      after_marking m source answer (record st { streams = streams })

  unfoldable pub on_data_received : Message → Option Text → Node S → Handled S
  on_data_received m source st = after_outputs (message_received m source ∷ []) (
      and_then (subscribe_to_stream_if_have_not_yet (stream_of print m) true st)
        (mark_message m source))

  unfoldable pub receive_each : List Buffered → Node S → Handled S
  receive_each [] st = some ([], st)
  receive_each ((m, source) ∷ ms) st = and_then (on_data_received m source st) (receive_each ms)

  unfoldable pub handle_buffered_messages : Text → Node S → Handled S
  handle_buffered_messages stream st =
      let (ms, b) = pop_all stream st.message_buffer in
      receive_each ms (record st { message_buffer = b })

  unfoldable pub subscribe_to_stream_on_node : Text → Text → Bool → Node S → Handled S
  subscribe_to_stream_on_node node stream send st = elim (subscribed_both stream node st.streams) [
    | none ↦ none
    | some streams ↦
        and_then (handle_buffered_messages stream (record st { streams = streams })) (λ st'.
          after_outputs (if send then prepare_and_send_stream_status stream st' else [])
            (some (node_subscribed node stream ∷ [], st')))
  ]
