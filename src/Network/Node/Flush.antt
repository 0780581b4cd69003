-- ===== src/Network/Node/Flush.antt =====
-- The buffered messages of a stream, when a node subscribes to it (Node.ts).
use network_monorepo.Prelude.{
  ℕ, ◌≡◌, refl, subst, ap, ◌||◌, not, Bool, true, false, Option, some, List, [], ◌∷◌, ◌++◌, map,
  filter, arith, Bool-cases, Option-cases, inl, inr, if◌then◌else◌, Text, same, same_refl,
  eq-of-same, has, has-add, add, defines, lookup, lookup-insert, insert, Yields,
}
use mathlib.Core.List.{Memᴰ}
use mathlib.Core.List.Memᴰ
use network_monorepo.Network.NumberPair.{infinity}
use network_monorepo.Network.Detector.{Detector, ok}
use network_monorepo.Network.MessageBuffer.{messages, pop_all}
use network_monorepo.Network.MessageBuffer.Queues.{pop_all_lem, max-pop_all}
use network_monorepo.Network.StreamManager.{
  StreamState, Streams, change, add_inbound_node, add_outbound_node, key_for_detector,
}
use network_monorepo.Network.SeenSet.{Message, Cache, stream_of, has_seen}
use network_monorepo.Network.Node.{
  Buffered, Node, Output, send_data, node_subscribed, prepare_and_send_stream_status, send_to,
  propagate_to, after_marking, on_data_received, receive_each, handle_buffered_messages,
  subscribed_both, subscribe_to_stream_on_node, is_source,
}
use network_monorepo.Network.Node.Progress.{IsSound, Number}
use network_monorepo.Network.Node.Marked.{result_of}
use network_monorepo.Network.Node.Receive.{on_data_received-Progress}
use network_monorepo.Network.Node.Subscribe.{receive_each-Progress, subscribed_both-Kept}
use network_monorepo.Network.Node.Delivery.{targets, marked_state, received-as, propagated-as}

Sent-all :
    (node : Text) (m : Message) (ns : List Text) (os : List Output)
    → has node ns ≡ true
    → Memᴰ (send_data node m) (map (λ n. send_data n m) ns ++ os)
unfolding has
Sent-all node m [] os h = absurd (ground arith)
Sent-all node m (n ∷ ns) os h = elim (Bool-cases (same node n)) [
  | inl e ↦ Memᴰ.head (ap (λ k. send_data k m) (eq-of-same node n e))
  | inr e ↦ Memᴰ.tail (Sent-all node m ns os (ground arith))
]

has-filter :
    (n : Text) (f : Text → Bool) (ns : List Text)
    → has n ns ≡ true
    → f n ≡ true
    → has n (filter f ns) ≡ true
unfolding has
has-filter n f [] h k = h
has-filter n f (x ∷ ns) h k = elim (Bool-cases (same n x)) [
  | inl e ↦ ground (arith, same_refl n, eq-of-same n x e, has-filter n f ns)
  | inr e ↦ ground (arith, has-filter n f ns)
]

-- After both lists have the node, it is an outbound node of the stream.
subscribed-outbound :
    (stream node : Text) (streams streams' : Streams)
    → subscribed_both stream node streams ≡ some streams'
    → (s : StreamState) × (lookup stream streams' ≡ some s) × (has node s.outbound_nodes ≡ true)
unfolding add_inbound_node add_outbound_node change
subscribed-outbound stream node streams streams' e = elim (Option-cases (lookup stream streams)) [
  | inl f ↦ absurd (ground arith)
  | inr (s, f) ↦
      let one = record s { inbound_nodes = add node s.inbound_nodes } in
      let two = record one { outbound_nodes = add node one.outbound_nodes } in
      (
        two,
        ground (
          arith,
          lookup-insert stream stream one streams,
          lookup-insert stream stream two (insert stream one streams),
        ),
        ground (arith, has-add node node s.outbound_nodes, same_refl node),
      )
]

abbrev any_number : Number
any_number = record { stream = []; key = []; n = record { a = infinity; b = infinity } }

module _ {S : Type 0} (cache : Cache S) (print : ℕ → Text) (ws_of : Text → Text) where
  -- Going to propagate the message, because it was unseen or because it waits.
  abbrev IsWanted : Message → Node S → Type 0
  IsWanted m st =
      (b : Bool) × (d : Detector) × (result_of print m st ≡ ok (b, d))
      × ((b || has_seen cache print m st.seen_but_not_propagated) ≡ true)

  propagate_to-Sent :
      (node : Text) (ns : List Text) (m : Message) (source : Option Text) (st : Node S)
      → has node ns ≡ true
      → Yields
          (λ outs st'. Memᴰ (send_data node m) outs)
          (propagate_to cache print ws_of ns m source st)
  unfolding propagate_to send_to has
  propagate_to-Sent node [] m source st h = absurd (ground arith)
  propagate_to-Sent node (n ∷ ns) m source st h = (_, _, refl, Sent-all node m (n ∷ ns) _ h)

  received-Sent :
      (node : Text) (m : Message) (source : Option Text) (st : Node S) (s : StreamState)
      → lookup (stream_of print m) st.streams ≡ some s
      → has node s.outbound_nodes ≡ true
      → is_source source node ≡ false
      → IsWanted m st
      → Yields
          (λ outs st'. Memᴰ (send_data node m) outs)
          (on_data_received cache print ws_of m source st)
  unfolding after_marking
  received-Sent node m source st s e h other (b, d, r, w) =
      let (outs, st', sent, mem) =
        propagate_to-Sent node (targets source s) m source (marked_state cache print ws_of m st)
          (has-filter node (λ n. not (is_source source n)) s.outbound_nodes h (ground arith)) in
      rw
        (
          received-as cache print ws_of m source st s e,
          r,
          w,
          propagated-as cache print ws_of m source st s e,
          sent,
        )
        (_, _, refl, Memᴰ.tail (Memᴰ.append_right _ mem))

  received-IsSound :
      (m : Message) (source : Option Text) (st st' : Node S) (outs : List Output)
      → IsSound st
      → on_data_received cache print ws_of m source st ≡ some (outs, st')
      → IsSound st'
  received-IsSound m source st st' outs v e =
      let (outs', other, f, p) =
        on_data_received-Progress cache print ws_of any_number m source st v in
      let same_state : other ≡ st' = cc (e, f) in subst IsSound same_state p.sound

  rest-Sent :
      (node : Text) (m : Message) (source : Option Text) (ms : List Buffered) (st : Node S)
      → IsSound st
      → Yields
          (λ outs st'. Memᴰ (send_data node m) outs)
          (on_data_received cache print ws_of m source st)
      → Yields
          (λ outs st'. Memᴰ (send_data node m) outs)
          (receive_each cache print ws_of ((m, source) ∷ ms) st)
  unfolding receive_each
  rest-Sent node m source ms st v (outs, st', e, mem) =
      let (later, st'', e', p) =
        receive_each-Progress cache print ws_of any_number ms st'
          (received-IsSound m source st st' outs v e) in
      (outs ++ later, st'', rw (e, e') refl, Memᴰ.append_left later mem)

  handled-Sent :
      (node : Text) (m : Message) (source : Option Text) (ms : List Buffered) (st : Node S)
      (s : StreamState)
      → IsSound st
      → messages (stream_of print m) st.message_buffer ≡ (m, source) ∷ ms
      → lookup (stream_of print m) st.streams ≡ some s
      → has node s.outbound_nodes ≡ true
      → is_source source node ≡ false
      → IsWanted m st
      → Yields
          (λ outs st'. Memᴰ (send_data node m) outs)
          (handle_buffered_messages cache print ws_of (stream_of print m) st)
  unfolding handle_buffered_messages
  handled-Sent node m source ms st s v waiting found out other w =
      let popped = pop_all (stream_of print m) st.message_buffer in
      let st' = record st { message_buffer = popped.1 } in
      let v' : IsSound st' = record {
        detectors = v.detectors;
        room = rw (max-pop_all (stream_of print m) st.message_buffer) v.room;
      } in
      rw ((pop_all_lem [] (stream_of print m) st.message_buffer).0, waiting)
        (rest-Sent node m source ms st' v' (received-Sent node m source st' s found out other w))

  -- When a node subscribes to a stream that is set up, in a sound state, the oldest message that waits
  -- for the stream is sent to it, unless it is the node that the message came from; the detector
  -- must not reject the message, and it must be unseen or still in the set of messages not propagated.
  pub subscribe_to_stream_on_node-sends :
      (node : Text) (m : Message) (source : Option Text) (ms : List Buffered) (send : Bool)
      (st : Node S) (b : Bool) (d : Detector)
      → IsSound st
      → defines (stream_of print m) st.streams ≡ true
      → messages (stream_of print m) st.message_buffer ≡ (m, source) ∷ ms
      → is_source source node ≡ false
      → result_of print m st ≡ ok (b, d)
      → (b || has_seen cache print m st.seen_but_not_propagated) ≡ true
      → (outs : List Output) × (st' : Node S) × (subscribe_to_stream_on_node cache print ws_of node
            (stream_of print m)
            send
            st
          ≡ some (outs, st'))
        × Memᴰ (send_data node m) outs
  unfolding subscribe_to_stream_on_node handle_buffered_messages
  subscribe_to_stream_on_node-sends node m source ms send st b d v set waiting other r w =
      let (streams, e, k) =
        subscribed_both-Kept cache print ws_of any_number (stream_of print m) node st.streams set in
      let (s, found, out) = subscribed-outbound (stream_of print m) node st.streams streams e in
      let st' = record st { streams = streams } in
      let sound : IsSound st' = record {
        detectors = λ i j. rw (k.detectors i j) (v.detectors i j);
        room = v.room;
      } in
      let wanted : IsWanted m st' = (
        b,
        d,
        rw (k.detectors (stream_of print m) (key_for_detector m.publisher_id m.msg_chain_id)) r,
        w,
      ) in
      let (outs, st'', e', mem) =
        handled-Sent node m source ms st' s sound waiting found out other wanted in
      let status =
        if send
        then prepare_and_send_stream_status cache print ws_of (stream_of print m) st''
        else [] in
      let said = status ++ node_subscribed node (stream_of print m) ∷ [] in
      (outs ++ said, st'', rw (e, e', subscribe_to_stream_on_node) refl, Memᴰ.append_left said mem)
