-- ===== src/Network/Tracker.antt =====
-- `Tracker` of packages/network/src/logic/Tracker.ts: one overlay topology for each stream, with the
-- instruction counters and the locations of the nodes. The server is outside: the instructions that a
-- step sends are its outputs, in order, and `none` is an exception that leaves the step (the violated
-- invariant of `formInstructions`, or a TypeError). What `sendInstruction` answers only goes to the
-- log, and the address of a node is an argument. Metrics and the signalling of WebRTC are left out.
pub mod Sent
pub mod Total
pub mod Steps
pub mod Runs
mod Tests
use network_monorepo.Prelude.{
  Outcome, after_outputs, and_then, ℕ, Bool, true, false, not, Option, none, some, List, [], ◌∷◌,
  ◌++◌, filter, if◌then◌else◌, Text, has, to_set, Dict, lookup, insert, erase, keys, defines,
}
use network_monorepo.Network.Topology.{Nodes, update, leave, is_empty, form_instructions}
use network_monorepo.Network.Counter.{
  Counters, StatusStreams, StreamStatus, Stamp, unsubscribed, count, set_or_increment,
  filter_status, remove_node, remove_stream,
}
use network_monorepo.Network.LocationManager.{Location, update_location, remove_location}

pub record Instruction : Type 0 where
  pub node : Text
  pub stream : Text
  pub neighbors : List Text
  pub counter : ℕ

pub record Tracker (C : Type 0) : Type 0 where
  pub max_neighbors_per_node : ℕ
  pub overlay_per_stream : Dict Nodes
  -- node id => connected node id => rtt
  pub overlay_connection_rtts : Dict (Dict ℕ)
  pub node_locations : Dict (Location C)
  pub counters : Counters

-- The part of a node's status that the tracker reads.
pub record Status (C : Type 0) : Type 0 where
  pub streams : StatusStreams
  pub rtts : Dict ℕ
  pub location : Option (Location C)
  pub single_stream : Bool

-- What a step sends, and the tracker after it.
abbrev pub Sending : Type 0 → Type 0
Sending C = Outcome Instruction (Tracker C)

module _ {C : Type 0} (is_zero : C → Bool) (find_address : Text → Option (Location C))
    (shuffle : List Text → List Text) (pick : List Text → Text) where
  unfoldable pub new_tracker : ℕ → Tracker C
  new_tracker max_neighbors_per_node = record {
    max_neighbors_per_node = max_neighbors_per_node;
    overlay_per_stream = [];
    overlay_connection_rtts = [];
    node_locations = [];
    counters = [];
  }

  -- `Object.entries(instructions).forEach`
  unfoldable pub send_each : Text → Dict (List Text) → Tracker C → List Instruction × Tracker C
  send_each stream [] t = ([], t)
  send_each stream ((node, neighbors) ∷ instructions) t =
      let (counter, counters) = set_or_increment node stream t.counters in
      let (later, after) = send_each stream instructions (record t { counters = counters }) in
      (
        record { node = node; stream = stream; neighbors = neighbors; counter = counter } ∷ later,
        after,
      )

  abbrev pub send_formed : Text → Tracker C → Nodes × Option (Dict (List Text)) → Sending C
  send_formed stream t (nodes, none) = none
  send_formed stream t (nodes, some instructions) = some (
      send_each stream instructions
        (record t { overlay_per_stream = insert stream nodes t.overlay_per_stream }))

  -- The body of the loop of `formAndSendInstructions`.
  unfoldable pub form_on_stream : Text → Text → Bool → Tracker C → Sending C
  form_on_stream node stream force_generate t = elim (lookup stream t.overlay_per_stream) [
    | none ↦ some ([], t)
    | some nodes ↦
        send_formed stream t
          (form_instructions shuffle pick t.max_neighbors_per_node node force_generate nodes)
  ]

  unfoldable pub form_and_send_instructions : Text → List Text → Bool → Tracker C → Sending C
  form_and_send_instructions node [] force_generate t = some ([], t)
  form_and_send_instructions node (stream ∷ streams) force_generate t =
      and_then (form_on_stream node stream force_generate t)
        (form_and_send_instructions node streams force_generate)

  -- `neighbors.forEach` in `leaveAndCheckEmptyOverlay`
  unfoldable pub form_for_each : List Text → Text → Tracker C → Sending C
  form_for_each [] stream t = some ([], t)
  form_for_each (neighbor ∷ neighbors) stream t =
      and_then (form_and_send_instructions neighbor (stream ∷ []) true t)
        (form_for_each neighbors stream)

  abbrev pub drop_or_form : Text → Text → Tracker C → List Text × Nodes → Sending C
  drop_or_form stream node t (neighbors, nodes) =
      if is_empty nodes
      then some (
        [],
        record t {
          overlay_per_stream = erase stream t.overlay_per_stream;
          counters = remove_stream stream (remove_node node t.counters);
        },
      )
      else form_for_each neighbors stream (record t {
        overlay_per_stream = insert stream nodes t.overlay_per_stream;
        counters = remove_node node t.counters;
      })

  -- The overlay is given by its key. `none` is the TypeError of an overlay that is not there.
  unfoldable pub leave_and_check_empty_overlay : Text → Text → Tracker C → Sending C
  leave_and_check_empty_overlay stream node t = elim (lookup stream t.overlay_per_stream) [
    | none ↦ none
    | some nodes ↦ drop_or_form stream node t (leave node nodes)
  ]

  unfoldable pub leave_each : List Text → Text → Tracker C → Sending C
  leave_each [] node t = some ([], t)
  leave_each (stream ∷ streams) node t =
      and_then (leave_and_check_empty_overlay stream node t) (leave_each streams node)

  unfoldable pub create_overlay : Text → Tracker C → Tracker C
  create_overlay stream t =
      if defines stream t.overlay_per_stream
      then t
      else record t { overlay_per_stream = insert stream [] t.overlay_per_stream }

  unfoldable pub create_new_overlay_topologies : List Text → Tracker C → Tracker C
  create_new_overlay_topologies [] t = t
  create_new_overlay_topologies (stream ∷ streams) t =
      create_new_overlay_topologies streams (create_overlay stream t)

  -- `this.overlayPerStream[streamKey].update(node, [...neighbors])`; `none` is the TypeError.
  unfoldable pub update_overlay : Text → Text → StreamStatus → Tracker C → Option (Tracker C)
  update_overlay node stream status t = elim (lookup stream t.overlay_per_stream) [
    | none ↦ none
    | some nodes ↦ some (record t {
      overlay_per_stream =
          insert stream (update node (to_set (status.inbound_nodes ++ status.outbound_nodes)) nodes)
            t.overlay_per_stream;
    })
  ]

  abbrev pub quietly : Option (Tracker C) → Sending C
  quietly none = none
  quietly (some t) = some ([], t)

  unfoldable pub update_each : Text → StatusStreams → Tracker C → Sending C
  update_each node [] t = some ([], t)
  update_each node ((stream, status) ∷ streams) t =
      and_then (quietly (update_overlay node stream status t)) (update_each node streams)

  -- The streams of the tracker that a full status does not mention.
  unfoldable pub unmentioned : StatusStreams → Tracker C → List Text
  unmentioned all_streams t =
      filter (λ k. not (has k (keys all_streams))) (keys t.overlay_per_stream)

  unfoldable pub update_node : Text → StatusStreams → StatusStreams → Tracker C → Sending C
  update_node node filtered_streams all_streams t =
      and_then (update_each node filtered_streams t)
        (λ t'. leave_each (unmentioned all_streams t') node t')

  -- The status has exactly one stream.
  unfoldable pub update_single : Text → Text → StreamStatus → Tracker C → Sending C
  update_single node stream status t = elim status.counter [
    | unsubscribed ↦ leave_and_check_empty_overlay stream node t
    | count n ↦ quietly (update_overlay node stream status t)
  ]

  unfoldable pub update_node_on_stream : Text → StatusStreams → Tracker C → Sending C
  update_node_on_stream node [] t = some ([], t)
  update_node_on_stream node ((stream, status) ∷ []) t = update_single node stream status t
  update_node_on_stream node (e ∷ e' ∷ streams) t = some ([], t)

  -- The tracker once the counters, the RTTs, the location and the new overlays are stored.
  unfoldable pub noted : Text → Option Text → Status C → Tracker C → Tracker C
  noted source address status t = create_new_overlay_topologies (keys status.streams) (record t {
    counters = (filter_status status.streams source t.counters).1;
    overlay_connection_rtts = insert source status.rtts t.overlay_connection_rtts;
    node_locations =
        update_location is_zero find_address source status.location address t.node_locations;
  })

  unfoldable pub process_node_status : Text → Option Text → Status C → Tracker C → Sending C
  process_node_status source address status t =
      let filtered = (filter_status status.streams source t.counters).0 in
      let ready = noted source address status t in
      and_then
        (if status.single_stream
          then update_node_on_stream source filtered ready
          else update_node source filtered status.streams ready)
        (form_and_send_instructions source (keys status.streams) false)

  -- `removeNode`, which `onNodeDisconnected` calls
  unfoldable pub on_node_disconnected : Text → Tracker C → Sending C
  on_node_disconnected node t = leave_each (keys t.overlay_per_stream) node (record t {
    overlay_connection_rtts = erase node t.overlay_connection_rtts;
    node_locations = remove_location is_zero find_address node t.node_locations;
  })
