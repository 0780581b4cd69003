-- ===== src/Network/Node/Steps.antt =====
-- The other handlers of Node.ts, and what they announce.
use network_monorepo.Prelude.{
  ℕ, ◌<◌, ◌≡◌, refl, not, Bool, true, false, some, List, [], ◌∷◌, ◌++◌, map, arith, Bool-cases, inl,
  inr, if◌then◌else◌, Text, defines, and_then, Yields,
}
use network_monorepo.Network.StreamManager.{is_set_up, get_all_nodes_for_stream, is_node_present}
use network_monorepo.Network.StreamManager.Kept.{
  Kept, Kept-refl, found-defined, remove_node_from_all_streams-Kept, remove_node_from_stream-Kept,
  update_counter-Kept,
}
use network_monorepo.Network.SeenSet.{Cache}
use network_monorepo.Network.Node.{
  Node, Output, node_unsubscribed, node_disconnected, connect_to_node, retry_add, get_tracker_id,
  prepare_and_send_full_status, with_status, subscribe_to_stream_if_have_not_yet,
  on_node_disconnected,
}
use network_monorepo.Network.Node.Handlers.{
  Instruction, clear_disconnection_timer, arm_timer_if, unsubscribe_from_stream_on_node,
  unsubscribe_each, follow_instruction, is_expected, instruction_begun, node_connected,
  instruction_settled,
}
use network_monorepo.Network.Node.Progress.{
  IsSound, Number, times_unseen, Progress, Progress-trans, Kept-Progress, after_quiet,
  Progress-and_then,
}
use network_monorepo.Network.Node.Receive.{silent, quiet_if, subscribe-Subscribed}
use network_monorepo.Network.Node.Subscribe.{subscribe_on_node-Progress}

module _ {S : Type 0} (cache : Cache S) (print : ℕ → Text) (ws_of : Text → Text) (x : Number) where
  -- A step that leaves the streams and the buffer alone.
  pub aside :
      (st st' : Node S) (outs : List Output)
      → IsSound st
      → st'.streams ≡ st.streams
      → st'.message_buffer.max_size ≡ st.message_buffer.max_size
      → times_unseen print x outs ≡ 0
      → Progress print x st outs st'
  aside st st' outs v same_streams same_size quiet =
      Kept-Progress print x st st' outs v (rw same_streams (Kept-refl st.streams))
        (rw same_size v.room) quiet

  quiet_full_statuses :
      (trackers : List Text) (node : Text) (st : Node S)
      → times_unseen print x (
          map (λ t. prepare_and_send_full_status cache print ws_of t st) trackers
          ++ node_disconnected node ∷ [])
        ≡ 0
  unfolding times_unseen prepare_and_send_full_status
  quiet_full_statuses [] node st = refl
  quiet_full_statuses (t ∷ trackers) node st = omega (arith, quiet_full_statuses trackers node st)

  pub disconnected-Progress :
      (node : Text) (st : Node S)
      → IsSound st
      → Progress print x st
          (on_node_disconnected cache print ws_of node st).0
          (on_node_disconnected cache print ws_of node st).1
  unfolding on_node_disconnected
  disconnected-Progress node st v =
      Kept-Progress print x st _ _ v (remove_node_from_all_streams-Kept node st.streams) v.room
        (quiet_full_statuses _ node _)

  quiet_connects :
      (tracker : Text) (b : Bool) (ns : List Text)
      → times_unseen print x (map (λ n. connect_to_node n tracker b) ns) ≡ 0
  unfolding times_unseen
  quiet_connects tracker b [] = refl
  quiet_connects tracker b (n ∷ ns) = omega (arith, quiet_connects tracker b ns)

  quiet_unsubscribed :
      (node stream : Text) → times_unseen print x (node_unsubscribed node stream ∷ []) ≡ 0
  unfolding times_unseen
  quiet_unsubscribed node stream = refl

  -- A step to another state, with the status of a stream after it.
  status_step :
      (send : Bool) (stream : Text) (st st' : Node S)
      → IsSound st
      → Kept st.streams st'.streams
      → 1 < st'.message_buffer.max_size
      → Yields (Progress print x st) (some (with_status cache print ws_of send stream st'))
  status_step send stream st st' v k room = (
    _,
    st',
    refl,
    Kept-Progress print x st st' _ v k room (quiet_if cache print ws_of x send stream st'),
  )

  armed_lem :
      (b : Bool) (node : Text) (st : Node S)
      → ((arm_timer_if cache print ws_of b node st).streams ≡ st.streams)
        × ((arm_timer_if cache print ws_of b node st).message_buffer ≡ st.message_buffer)
  unfolding clear_disconnection_timer
  armed_lem true node st = (refl, refl)
  armed_lem false node st = (refl, refl)

  unsubscribe_on_node-Progress :
      (node stream : Text) (send : Bool) (st : Node S)
      → IsSound st
      → defines stream st.streams ≡ true
      → Yields
          (Progress print x st)
          (unsubscribe_from_stream_on_node cache print ws_of node stream send st)
  unfolding unsubscribe_from_stream_on_node
  unsubscribe_on_node-Progress node stream send st v d =
      let (streams, e, k) = remove_node_from_stream-Kept stream node st.streams d in
      let present = not (is_node_present node streams) in
      let st' = record st { streams = streams } in
      let armed = armed_lem present node st' in
      rw (e, unsubscribe_from_stream_on_node)
        (after_quiet print x st (node_unsubscribed node stream ∷ []) _
          (quiet_unsubscribed node stream)
          (status_step send stream st (arm_timer_if cache print ws_of present node st') v
            (rw armed.0 k) (rw armed.1 v.room)))

  unsubscribe_each-Progress :
      (nodes : List Text) (stream : Text) (st : Node S)
      → IsSound st
      → defines stream st.streams ≡ true
      → Yields (Progress print x st) (unsubscribe_each cache print ws_of nodes stream st)
  unfolding unsubscribe_each
  unsubscribe_each-Progress [] stream st v d =
      ([], st, refl, aside st st [] v refl refl (silent cache print ws_of x))
  unsubscribe_each-Progress (n ∷ ns) stream st v d =
      Progress-and_then print x st _ _ (unsubscribe_on_node-Progress n stream false st v d)
        (λ outs st' p. unsubscribe_each-Progress ns stream st' p.sound (p.set_up stream d))

  pub still : (st : Node S) → IsSound st → Yields (Progress print x st) (some ([], st))
  still st v = ([], st, refl, aside st st [] v refl refl (silent cache print ws_of x))

  follow-Progress :
      (i : Instruction) (tracker : Text) (reattempt : Bool) (st : Node S)
      → IsSound st
      → defines i.stream st.streams ≡ true
      → Yields (Progress print x st) (follow_instruction cache print ws_of i tracker reattempt st)
  unfolding follow_instruction get_all_nodes_for_stream
  follow-Progress i tracker reattempt st v d =
      let (s, e) = found-defined i.stream st.streams d in
      rw (e, follow_instruction)
        (after_quiet print x st _ _ (quiet_connects tracker (not reattempt) i.node_ids)
          (unsubscribe_each-Progress _ i.stream st v d))

  followed_if :
      (b : Bool) (i : Instruction) (tracker : Text) (reattempt : Bool) (st : Node S)
      → IsSound st
      → Yields (Progress print x st) (
          if b
          then and_then
              (subscribe_to_stream_if_have_not_yet cache print ws_of i.stream false st)
              (follow_instruction cache print ws_of i tracker reattempt)
          else some ([], st))
  followed_if true i tracker reattempt st v =
      let (outs, st', e, pd) = subscribe-Subscribed cache print ws_of x i.stream false st v in
      let (later, st'', e', q) = follow-Progress i tracker reattempt st' pd.0.sound pd.1 in
      (outs ++ later, st'', rw (e, e') refl, Progress-trans print x st st' st'' outs later pd.0 q)
  followed_if false i tracker reattempt st v = still st v

  quiet_retry : (stream tracker : Text) → times_unseen print x (retry_add stream tracker ∷ []) ≡ 0
  unfolding times_unseen
  quiet_retry stream tracker = refl

  pub instruction_begun-Progress :
      (i : Instruction) (tracker : Text) (reattempt : Bool) (st : Node S)
      → IsSound st
      → Yields (Progress print x st) (instruction_begun cache print ws_of i tracker reattempt st)
  unfolding instruction_begun
  instruction_begun-Progress i tracker reattempt st v =
      after_quiet print x st _ _ (quiet_retry i.stream tracker) (
        followed_if
          (is_expected cache print ws_of tracker (get_tracker_id cache print ws_of i.stream st)) i
          tracker reattempt st v)

  cleared :
      (node : Text) (st : Node S)
      → IsSound st
      → Progress print x st [] (clear_disconnection_timer cache print ws_of node st)
  unfolding clear_disconnection_timer
  cleared node st v = aside st _ [] v refl refl (silent cache print ws_of x)

  pub node_connected-Progress :
      (node stream : Text) (st : Node S)
      → IsSound st
      → Yields (Progress print x st) (node_connected cache print ws_of node stream st)
  unfolding node_connected is_set_up
  node_connected-Progress node stream st v = elim (Bool-cases (is_set_up stream st.streams)) [
    | inl e ↦
        let p = cleared node st v in
        let st' = clear_disconnection_timer cache print ws_of node st in
        let (outs, st'', e', q) =
          subscribe_on_node-Progress cache print ws_of x node stream false st' p.sound
            (p.set_up stream e) in
        (
          outs,
          st'',
          rw (e, e', node_connected) refl,
          Progress-trans print x st st' st'' [] outs p q,
        )
    | inr e ↦ ([], _, rw (e, node_connected) refl, cleared node st v)
  ]

  pub instruction_settled-Progress :
      (i : Instruction) (reattempt failed : Bool) (st : Node S)
      → IsSound st
      → Yields (Progress print x st) (instruction_settled cache print ws_of i reattempt failed st)
  unfolding instruction_settled is_set_up
  instruction_settled-Progress i reattempt failed st v =
      elim (Bool-cases (is_set_up i.stream st.streams)) [
        | inl e ↦
            let (streams, e', k) = update_counter-Kept i.stream i.counter st.streams e in
            rw (e, e', instruction_settled)
              (status_step _ i.stream st (record st { streams = streams }) v k v.room)
        | inr e ↦
            rw (e, instruction_settled)
              (status_step _ i.stream st st v (Kept-refl st.streams) v.room)
      ]
