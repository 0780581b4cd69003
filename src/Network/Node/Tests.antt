-- ===== src/Network/Node/Tests.antt =====
-- A node with one message of one stream.
use network_monorepo.Prelude.{
  ℕ, ◌≤◌, arith, ◌≡◌, refl, true, false, Option, none, some, List, [], ◌∷◌, ◌++◌, Text, codes,
  text_dec, has, add, remove, lookup, insert, erase, defines, All,
}
use mathlib.Core.List.{Memᴰ}
use network_monorepo.Network.NumberPair.{number, equal_to, greater_than}
use network_monorepo.Network.Detector.{
  Detector, Verdict, ok, top, is_invalid_numbering, mark_gaps, mark_latest, mark_and_check,
}
use network_monorepo.Network.Detector
use network_monorepo.Network.Detector.Mark.{IsSound as IsSoundDetector}
use network_monorepo.Network.MessageBuffer.{
  messages, put, append, evict, open_queue, appended, timers, pop_all, clear_all,
}
use network_monorepo.Network.StreamManager.{
  fresh_state, detector_of, is_set_up, set_up_stream, mark_numbers_and_check_that_is_not_duplicate,
  mark_in_state, get_outbound_nodes_for_stream, add_inbound_node, add_outbound_node, change,
}
use network_monorepo.Network.StreamManager.Marks.{detector_at}
use network_monorepo.Network.SeenSet.{
  Message, Cache, key_of, stream_of, number_of, previous_of, message_id_to_str, add_seen,
  delete_seen, has_seen,
}
use network_monorepo.Network.Node.{
  Node, Output, send_data, on_data_received, subscribe_to_stream_on_node,
  subscribe_to_stream_if_have_not_yet, mark_message, after_marking, propagate_message, propagate_to,
  put_back, send_to, prepare_and_send_stream_status, get_tracker_id, handle_buffered_messages,
  receive_each,
}
use network_monorepo.Network.Node.Handlers.{
  Event, data_received, stream_subscribed, connected, node_connected, clear_disconnection_timer,
  handle, run,
}
use network_monorepo.Network.Node.Progress.{IsSound, Number, is_of, times_unseen}
use network_monorepo.Network.Node.Marked.{result_of}
use network_monorepo.Network.Node.Runs.{run_lem}
use network_monorepo.Network.Node.Delivery.{IsAddressed, IsReceiver, on_data_received-IsAddressed}
use network_monorepo.Network.Node.Flush.{subscribe_to_stream_on_node-sends}

abbrev cache : Cache (List Text)
cache = record { set = add; del = remove; holds = has }

abbrev print : ℕ → Text
print n = n ∷ []

abbrev ws_of : Text → Text
ws_of stream = stream

abbrev n1 : Text
n1 = codes "n1"

abbrev m1 : Message
m1 = record {
  stream_id = codes "s";
  stream_partition = 0;
  timestamp = 5;
  sequence_number = 0;
  publisher_id = codes "p";
  msg_chain_id = codes "c";
  prev_msg_ref = none;
  content = codes "{}";
}

abbrev s1 : Text
s1 = codes "s" ++ 58 ∷ 58 ∷ 0 ∷ []

abbrev new_node : Node (List Text)
new_node = record {
  streams = [];
  message_buffer = record {
    buffer = [];
    timeout_refs = [];
    max_size = 10;
    pending = [];
    next_timer = 0;
  };
  seen_but_not_propagated = [];
  tracker_book = [];
  consecutive_delivery_failures = [];
  disconnection_timers = [];
}

-- `m1` waits for a node.
abbrev waiting : Node (List Text)
waiting = record new_node {
  streams = (s1, fresh_state) ∷ [];
  message_buffer = record {
    buffer = (s1, (m1, none) ∷ []) ∷ [];
    timeout_refs = (s1, 0 ∷ []) ∷ [];
    max_size = 10;
    pending = (0, s1) ∷ [];
    next_timer = 1;
  };
}

abbrev m1_number : Number
m1_number = record { stream = s1; key = codes "p-c"; n = record { a = number 5; b = number 0 } }

init-IsSound : IsSoundDetector (Detector.init 10000)
unfolding Detector.init
init-IsSound = record { positive = omega arith; valid = tt; bounded = omega arith }

new_node-IsSound : IsSound new_node
unfolding detector_at lookup
new_node-IsSound = record { detectors = λ j k. init-IsSound; room = omega arith }

waiting-IsSound : IsSound waiting
unfolding detector_at lookup detector_of
waiting-IsSound = record { detectors = λ j k. ground (arith, init-IsSound); room = omega arith }

abbrev events : List (Event (List Text))
events =
    stream_subscribed s1 false
    ∷ data_received m1 none
    ∷ data_received m1 (some n1)
    ∷ connected n1 s1
    ∷ []

-- The message arrives twice, and then a neighbour connects.
run_lem_example :
    (outs : List Output) × (st' : Node (List Text)) × (run cache print ws_of events new_node
      ≡ some (outs, st'))
    × IsSound st'
    × (times_unseen print m1_number outs ≤ 1)
run_lem_example =
    run_lem cache print ws_of m1_number events new_node new_node-IsSound
      (refl, (refl, (refl, (refl, tt))))

on_data_received-IsAddressed_example :
    (outs : List Output) × (st' : Node (List Text)) × (on_data_received cache print ws_of m1
        (some n1)
        waiting
      ≡ some (outs, st'))
    × All (IsAddressed (IsReceiver (stream_of print m1) (some n1) waiting) m1) outs
on_data_received-IsAddressed_example =
    on_data_received-IsAddressed cache print ws_of m1 (some n1) waiting waiting-IsSound

m1_verdict :
    result_of print m1 waiting
    ≡ ok (
      true,
      record {
        max_number_of_gaps = 10000;
        gaps = record { lower = number_of m1; upper = top } ∷ [];
      },
    )
unfolding detector_at lookup text_dec detector_of Detector.init mark_and_check is_invalid_numbering
    mark_gaps previous_of stream_of key_of
m1_verdict = refl

m1_set_up : defines (stream_of print m1) waiting.streams ≡ true
unfolding defines lookup text_dec stream_of key_of
m1_set_up = refl

m1_waits : messages (stream_of print m1) waiting.message_buffer ≡ (m1, none) ∷ []
unfolding messages lookup text_dec stream_of key_of
m1_waits = refl

subscribe_to_stream_on_node-sends_example :
    (outs : List Output) × (st' : Node (List Text)) × (subscribe_to_stream_on_node cache print ws_of
        n1
        (stream_of print m1)
        false
        waiting
      ≡ some (outs, st'))
    × Memᴰ (send_data n1 m1) outs
subscribe_to_stream_on_node-sends_example =
    subscribe_to_stream_on_node-sends cache print ws_of n1 m1 none [] false waiting true
      (record {
        max_number_of_gaps = 10000;
        gaps = record { lower = number_of m1; upper = top } ∷ [];
      })
      waiting-IsSound m1_set_up m1_waits refl m1_verdict refl

abbrev outputs_of : Option (List Output × Node (List Text)) → List Output
outputs_of none = []
outputs_of (some r) = r.0

-- The repeated message is announced once.
unseen_once : times_unseen print m1_number (outputs_of (run cache print ws_of events new_node)) ≡ 1
unfolding times_unseen is_of run handle on_data_received subscribe_to_stream_if_have_not_yet
    is_set_up set_up_stream defines lookup insert erase text_dec stream_of key_of mark_message
    mark_numbers_and_check_that_is_not_duplicate mark_in_state detector_of Detector.init
    mark_and_check is_invalid_numbering mark_gaps previous_of number_of after_marking has_seen
    add_seen delete_seen message_id_to_str propagate_message get_outbound_nodes_for_stream
    propagate_to put_back send_to put append evict open_queue messages appended timers
    prepare_and_send_stream_status get_tracker_id node_connected clear_disconnection_timer
    subscribe_to_stream_on_node add_inbound_node add_outbound_node change handle_buffered_messages
    pop_all clear_all receive_each has add remove equal_to greater_than mark_latest
unseen_once = refl
