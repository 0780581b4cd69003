-- ===== src/Network/Node/Handlers.antt =====
-- `Node.ts`: the instructions of trackers, the results of sendings, the timers, and `stop`.
-- `handleTrackerInstruction` is cut at its `await`s: `instruction_begun` is its part before them,
-- `node_connected` what follows the connection to one node, and `instruction_settled` what follows
-- the settling of all of them.
use network_monorepo.Prelude.{
  ℕ, ◌+◌, Bool, false, not, ◌||◌, Option, none, some, List, [], ◌∷◌, map, filter, leb,
  if◌then◌else◌, Text, same, has, add, remove, lookup, insert, after_outputs, and_then,
}
use network_monorepo.Network.MessageBuffer.{fire, clear}
use network_monorepo.Network.StreamManager.{
  Streams, is_set_up, update_counter, remove_node_from_stream, is_node_present,
  get_all_nodes_for_stream,
}
use network_monorepo.Network.SeenSet.{Message, Cache}
use network_monorepo.Network.Node.{
  Node, Output, message_propagation_failed, node_unsubscribed, connect_to_node,
  disconnect_from_node, connect_to_tracker, retry_add, stop_all, Handled, get_tracker_id,
  prepare_and_send_full_status, with_status, subscribe_to_stream_if_have_not_yet,
  unsubscribe_from_stream, on_node_disconnected, on_data_received, subscribe_to_stream_on_node,
}

pub record Instruction : Type 0 where
  pub stream : Text
  pub node_ids : List Text
  pub counter : ℕ

-- What can happen to a node.
pub data Event (S : Type 0) : Type 0 where
  data_received : Message → Option Text → Event S
  tracker_connected : Text → Option Text → Event S
  stream_subscribed stream_unsubscribed : Text → Bool → Event S
  instruction : Instruction → Text → Bool → Event S
  connected : Text → Text → Event S
  settled : Instruction → Bool → Bool → Event S
  sent : Text → Event S
  send_failed : Message → Text → Event S
  disconnected timer_fired : Text → Event S
  buffer_timed_out stopped : Event S
  -- entries of the cache grow old
  cache_changed : S → Event S

-- The caller gets the error, which was thrown before the node changed.
abbrev pub caught : {S : Type 0} → Node S → Handled S → Handled S
caught st none = some ([], st)
caught st (some r) = some r

abbrev pub or_zero : Option ℕ → ℕ
or_zero none = 0
or_zero (some n) = n

module _ {S : Type 0} (cache : Cache S) (print : ℕ → Text) (ws_of : Text → Text) where
  -- `none` as the server's address is a tracker that `TrackerNode` does not know.
  unfoldable pub on_connected_to_tracker : Text → Option Text → Node S → List Output × Node S
  on_connected_to_tracker tracker none st = ([], st)
  on_connected_to_tracker tracker (some url) st =
      let st' = record st { tracker_book = insert url tracker st.tracker_book } in
      (prepare_and_send_full_status cache print ws_of tracker st' ∷ [], st')

  unfoldable pub clear_disconnection_timer : Text → Node S → Node S
  clear_disconnection_timer node st = record st {
    disconnection_timers = remove node st.disconnection_timers;
  }

  abbrev pub arm_timer_if : Bool → Text → Node S → Node S
  arm_timer_if absent node st =
      if absent
      then record (clear_disconnection_timer node st) {
        disconnection_timers = add node (clear_disconnection_timer node st).disconnection_timers;
      }
      else st

  unfoldable pub unsubscribe_from_stream_on_node : Text → Text → Bool → Node S → Handled S
  unsubscribe_from_stream_on_node node stream send st =
      elim (remove_node_from_stream stream node st.streams) [
        | none ↦ none
        | some streams ↦ after_outputs (node_unsubscribed node stream ∷ []) (
            some (
              with_status cache print ws_of send stream (
                arm_timer_if (not (is_node_present node streams)) node
                  (record st { streams = streams }))))
      ]

  unfoldable pub unsubscribe_each : List Text → Text → Node S → Handled S
  unsubscribe_each [] stream st = some ([], st)
  unsubscribe_each (node ∷ nodes) stream st =
      and_then (unsubscribe_from_stream_on_node node stream false st)
        (unsubscribe_each nodes stream)

  -- The connections to all nodes of the instruction are begun, then the other nodes are dropped.
  unfoldable pub follow_instruction : Instruction → Text → Bool → Node S → Handled S
  follow_instruction i tracker reattempt st = elim (get_all_nodes_for_stream i.stream st.streams) [
    | none ↦ none
    | some current ↦
        after_outputs (map (λ n. connect_to_node n tracker (not reattempt)) i.node_ids)
          (unsubscribe_each (filter (λ n. not (has n i.node_ids)) current) i.stream st)
  ]

  abbrev pub is_expected : Text → Option Text → Bool
  is_expected tracker none = false
  is_expected tracker (some expected) = same tracker expected

  unfoldable pub instruction_begun : Instruction → Text → Bool → Node S → Handled S
  instruction_begun i tracker reattempt st = after_outputs (retry_add i.stream tracker ∷ []) (
      if is_expected tracker (get_tracker_id cache print ws_of i.stream st)
      then and_then (subscribe_to_stream_if_have_not_yet cache print ws_of i.stream false st)
          (follow_instruction i tracker reattempt)
      else some ([], st))

  -- In a stream that is gone by now `addInboundNode` throws, and the promise is rejected.
  unfoldable pub node_connected : Text → Text → Node S → Handled S
  node_connected node stream st =
      let st' = clear_disconnection_timer node st in
      if is_set_up stream st.streams
      then subscribe_to_stream_on_node cache print ws_of node stream false st'
      else some ([], st')

  abbrev pub counter_updated : Text → ℕ → Node S → Option Streams
  counter_updated stream counter st =
      if is_set_up stream st.streams
      then update_counter stream counter st.streams
      else some st.streams

  unfoldable pub instruction_settled : Instruction → Bool → Bool → Node S → Handled S
  instruction_settled i reattempt failed_instructions st =
      elim (counter_updated i.stream i.counter st) [
        | none ↦ none
        | some streams ↦ some (
            with_status cache print ws_of (not reattempt || failed_instructions) i.stream
              (record st { streams = streams }))
      ]

  abbrev pub failures : Text → Node S → ℕ
  failures node st = or_zero (lookup node st.consecutive_delivery_failures)

  abbrev pub set_failures : Text → ℕ → Node S → Node S
  set_failures node n st = record st {
    consecutive_delivery_failures = insert node n st.consecutive_delivery_failures;
  }

  -- `sendData` was fulfilled.
  unfoldable pub delivered : Text → Node S → Node S
  delivered subscriber st = set_failures subscriber 0 st

  abbrev pub forced_disconnect : Text → List Output × Node S → List Output × Node S
  forced_disconnect subscriber (outs, st) = (outs, set_failures subscriber 0 st)

  -- `sendData` was rejected; the hundredth failure in a row disconnects.
  unfoldable pub delivery_failed : Message → Text → Node S → Handled S
  delivery_failed m subscriber st =
      let counted = set_failures subscriber (failures subscriber st + 1) st in
      after_outputs (message_propagation_failed m subscriber ∷ []) (
        some (
          if leb 100 (failures subscriber counted)
          then forced_disconnect subscriber
              (on_node_disconnected cache print ws_of subscriber counted)
          else ([], counted)))

  -- The disconnection timer of a node fires, if it is armed.
  unfoldable pub disconnection_timer_fired : Text → Node S → List Output × Node S
  disconnection_timer_fired node st =
      if has node st.disconnection_timers
      then (
        if is_node_present node st.streams then [] else disconnect_from_node node ∷ [],
        clear_disconnection_timer node st,
      )
      else ([], st)

  -- The oldest timer of the message buffer fires.
  unfoldable pub buffer_timer_fired : Node S → Node S
  buffer_timer_fired st = record st { message_buffer = (fire st.message_buffer).1 }

  unfoldable pub connect_to_bootstrap_trackers : List Text → List Output
  connect_to_bootstrap_trackers addresses = map connect_to_tracker addresses

  unfoldable pub stop : Node S → List Output × Node S
  stop st = (
    stop_all ∷ [],
    record st { disconnection_timers = []; message_buffer = clear st.message_buffer },
  )

  unfoldable pub handle : Event S → Node S → Handled S
  handle (data_received m source) st = on_data_received cache print ws_of m source st
  handle (tracker_connected tracker url) st = some (on_connected_to_tracker tracker url st)
  handle (stream_subscribed stream send) st =
      subscribe_to_stream_if_have_not_yet cache print ws_of stream send st
  handle (stream_unsubscribed stream send) st =
      caught st (unsubscribe_from_stream cache print ws_of stream send st)
  handle (instruction i tracker reattempt) st = instruction_begun i tracker reattempt st
  handle (connected node stream) st = node_connected node stream st
  handle (settled i reattempt failed) st = instruction_settled i reattempt failed st
  handle (sent node) st = some ([], delivered node st)
  handle (send_failed m node) st = delivery_failed m node st
  handle (disconnected node) st = some (on_node_disconnected cache print ws_of node st)
  handle (timer_fired node) st = some (disconnection_timer_fired node st)
  handle buffer_timed_out st = some ([], buffer_timer_fired st)
  handle stopped st = some (stop st)
  handle (cache_changed s) st = some ([], record st { seen_but_not_propagated = s })

  unfoldable pub run : List (Event S) → Node S → Handled S
  run [] st = some ([], st)
  run (e ∷ es) st = and_then (handle e st) (run es)
