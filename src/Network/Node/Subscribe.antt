-- ===== src/Network/Node/Subscribe.antt =====
-- The messages of the buffer, and the subscription of a node to a stream, in Node.ts.
use network_monorepo.Prelude.{
  ℕ, ◌<◌, ◌≡◌, refl, Bool, true, some, List, [], ◌∷◌, ◌++◌, arith, if◌then◌else◌, Text, defines,
  Yields,
}
use network_monorepo.Network.MessageBuffer.{pop_all}
use network_monorepo.Network.MessageBuffer.Queues.{max-pop_all}
use network_monorepo.Network.StreamManager.{Streams}
use network_monorepo.Network.StreamManager.Kept.{
  Kept, Kept-refl, Kept-trans, add_inbound_node-Kept, add_outbound_node-Kept,
}
use network_monorepo.Network.SeenSet.{Cache}
use network_monorepo.Network.Node.{
  Buffered, Node, prepare_and_send_stream_status, receive_each, handle_buffered_messages,
  subscribed_both, subscribe_to_stream_on_node, node_subscribed,
}
use network_monorepo.Network.Node.Progress.{
  IsSound, Number, times_unseen, times_unseen-append, Progress, Progress-trans, Kept-Progress,
  Progress-and_then,
}
use network_monorepo.Network.Node.Receive.{silent, still, quiet_if, on_data_received-Progress}

module _ {S : Type 0} (cache : Cache S) (print : ℕ → Text) (ws_of : Text → Text) (x : Number) where
  pub receive_each-Progress :
      (ms : List Buffered) (st : Node S)
      → IsSound st
      → Yields (Progress print x st) (receive_each cache print ws_of ms st)
  unfolding receive_each
  receive_each-Progress [] st v = still cache print ws_of x st v
  receive_each-Progress ((m, source) ∷ ms) st v =
      Progress-and_then print x st _ _ (on_data_received-Progress cache print ws_of x m source st v)
        (λ outs st' p. receive_each-Progress ms st' p.sound)

  pub handle_buffered-Progress :
      (stream : Text) (st : Node S)
      → IsSound st
      → Yields (Progress print x st) (handle_buffered_messages cache print ws_of stream st)
  unfolding handle_buffered_messages
  handle_buffered-Progress stream st v =
      let ms = pop_all stream st.message_buffer in
      let st' = record st { message_buffer = ms.1 } in
      let room : 1 < st'.message_buffer.max_size =
        rw (max-pop_all stream st.message_buffer) v.room in
      let popped =
        Kept-Progress print x st st' [] v (Kept-refl st.streams) room
          (silent cache print ws_of x) in
      let (outs, st'', e, p) = receive_each-Progress ms.0 st' popped.sound in
      (outs, st'', e, Progress-trans print x st st' st'' [] outs popped p)

  pub subscribed_both-Kept :
      (stream node : Text) (streams : Streams)
      → defines stream streams ≡ true
      → (streams' : Streams) × (subscribed_both stream node streams ≡ some streams')
        × Kept streams streams'
  subscribed_both-Kept stream node streams d =
      let (one, e, k) = add_inbound_node-Kept stream node streams d in
      let (two, e', k') = add_outbound_node-Kept stream node one (k.set_up stream d) in
      (two, rw (e, e', subscribed_both) refl, Kept-trans streams one two k k')

  quiet_subscribed :
      (send : Bool) (node stream : Text) (st : Node S)
      → times_unseen print x (
          (if send then prepare_and_send_stream_status cache print ws_of stream st else [])
          ++ node_subscribed node stream ∷ [])
        ≡ 0
  unfolding times_unseen
  quiet_subscribed send node stream st = omega (
    arith,
    quiet_if cache print ws_of x send stream st,
    times_unseen-append print x
        (if send then prepare_and_send_stream_status cache print ws_of stream st else [])
        (node_subscribed node stream ∷ []),
  )

  pub subscribe_on_node-Progress :
      (node stream : Text) (send : Bool) (st : Node S)
      → IsSound st
      → defines stream st.streams ≡ true
      → Yields
          (Progress print x st)
          (subscribe_to_stream_on_node cache print ws_of node stream send st)
  unfolding subscribe_to_stream_on_node
  subscribe_on_node-Progress node stream send st v d =
      let (streams, e, k) = subscribed_both-Kept stream node st.streams d in
      let st' = record st { streams = streams } in
      let p = Kept-Progress print x st st' [] v k v.room (silent cache print ws_of x) in
      let (outs, st'', e', q) = handle_buffered-Progress stream st' p.sound in
      let said =
        Kept-Progress print x st'' st'' _ q.sound (Kept-refl st''.streams) q.sound.room
          (quiet_subscribed send node stream st'') in
      (
        _,
        st'',
        rw (e, e', subscribe_to_stream_on_node) refl,
        Progress-trans print x st st' st'' [] _ p
            (Progress-trans print x st' st'' st'' outs _ q said),
      )
