-- ===== src/Network/Node/Events.antt =====
-- Connected trackers, rejected sendings, timers and `stop` of Node.ts, and what they announce.
use network_monorepo.Prelude.{
  ℕ, ◌≡◌, refl, Bool, true, false, Option, none, some, [], ◌∷◌, arith, Bool-cases, inl, inr,
  if◌then◌else◌, Text, has, Yields,
}
use network_monorepo.Network.MessageBuffer.Queues.{max-fire, max-clear}
use network_monorepo.Network.StreamManager.{is_node_present}
use network_monorepo.Network.SeenSet.{Message, Cache}
use network_monorepo.Network.Node.{
  Node, message_propagation_failed, disconnect_from_node, stop_all, prepare_and_send_full_status,
  on_node_disconnected,
}
use network_monorepo.Network.Node.Handlers.{
  set_failures, on_connected_to_tracker, forced_disconnect, delivery_failed,
  disconnection_timer_fired, buffer_timer_fired, clear_disconnection_timer, stop,
}
use network_monorepo.Network.Node.Progress.{IsSound, Number, times_unseen, Progress, after_quiet}
use network_monorepo.Network.Node.Receive.{silent}
use network_monorepo.Network.Node.Steps.{aside, still, disconnected-Progress}

module _ {S : Type 0} (cache : Cache S) (print : ℕ → Text) (ws_of : Text → Text) (x : Number) where
  quiet_tracker :
      (tracker : Text) (st : Node S)
      → times_unseen print x (prepare_and_send_full_status cache print ws_of tracker st ∷ []) ≡ 0
  unfolding times_unseen prepare_and_send_full_status
  quiet_tracker tracker st = refl

  pub tracker_connected-Progress :
      (tracker : Text) (url : Option Text) (st : Node S)
      → IsSound st
      → Yields
          (Progress print x st)
          (some (on_connected_to_tracker cache print ws_of tracker url st))
  unfolding on_connected_to_tracker
  tracker_connected-Progress tracker none st v = still cache print ws_of x st v
  tracker_connected-Progress tracker (some url) st v =
      (_, _, refl, aside cache print ws_of x st _ _ v refl refl (quiet_tracker tracker _))

  quiet_failed :
      (m : Message) (node : Text)
      → times_unseen print x (message_propagation_failed m node ∷ []) ≡ 0
  unfolding times_unseen
  quiet_failed m node = refl

  pub forced-Progress :
      (b : Bool) (node : Text) (st counted : Node S)
      → Progress print x st [] counted
      → Yields (Progress print x st) (
          some (
            if b
            then forced_disconnect cache print ws_of node
                (on_node_disconnected cache print ws_of node counted)
            else ([], counted)))
  forced-Progress true node st counted p =
      let gone = (on_node_disconnected cache print ws_of node counted).1 in
      let q = disconnected-Progress cache print ws_of x node counted p.sound in
      let back =
        aside cache print ws_of x gone (set_failures cache print ws_of node 0 gone) [] q.sound refl
          refl (silent cache print ws_of x) in
      let (said, final) =
        forced_disconnect cache print ws_of node
          (on_node_disconnected cache print ws_of node counted) in
      (
        said,
        final,
        refl,
        record {
          sound = back.sound;
          set_up = λ j h. back.set_up j (q.set_up j (p.set_up j h));
          spent = omega (arith, p.spent, q.spent, back.spent, silent cache print ws_of x);
        },
      )
  forced-Progress false node st counted p = ([], counted, refl, p)

  pub delivery_failed-Progress :
      (m : Message) (node : Text) (st : Node S)
      → IsSound st
      → Yields (Progress print x st) (delivery_failed cache print ws_of m node st)
  unfolding delivery_failed
  delivery_failed-Progress m node st v = after_quiet print x st _ _ (quiet_failed m node) (
      forced-Progress _ node st _
        (aside cache print ws_of x st _ [] v refl refl (silent cache print ws_of x)))

  quiet_disconnect :
      (b : Bool) (node : Text)
      → times_unseen print x (if b then [] else disconnect_from_node node ∷ []) ≡ 0
  unfolding times_unseen
  quiet_disconnect b node = ground arith

  pub timer_fired-Progress :
      (node : Text) (st : Node S)
      → IsSound st
      → Yields (Progress print x st) (some (disconnection_timer_fired cache print ws_of node st))
  unfolding disconnection_timer_fired clear_disconnection_timer
  timer_fired-Progress node st v = elim (Bool-cases (has node st.disconnection_timers)) [
    | inl e ↦
        rw (e, disconnection_timer_fired)
          (
            _,
            _,
            refl,
            aside cache print ws_of x st (clear_disconnection_timer cache print ws_of node st) _ v
                refl refl (quiet_disconnect (is_node_present node st.streams) node),
          )
    | inr e ↦ rw (e, disconnection_timer_fired) (still cache print ws_of x st v)
  ]

  quiet_stop : times_unseen print x (stop_all ∷ []) ≡ 0
  unfolding times_unseen
  quiet_stop = refl

  pub stopped-Progress :
      (st : Node S) → IsSound st → Yields (Progress print x st) (some (stop cache print ws_of st))
  unfolding stop
  stopped-Progress st v =
      (_, _, refl, aside cache print ws_of x st _ _ v refl (max-clear st.message_buffer) quiet_stop)

  pub buffer-Progress :
      (st : Node S) → IsSound st → Progress print x st [] (buffer_timer_fired cache print ws_of st)
  unfolding buffer_timer_fired
  buffer-Progress st v =
      aside cache print ws_of x st _ [] v refl (max-fire st.message_buffer)
        (silent cache print ws_of x)
