-- ===== src/Network/Node/Runs.antt =====
-- A run of a node (Node.ts) over any events.
use network_monorepo.Prelude.{
  ℕ, ◌+◌, ◌≤◌, ◌≡◌, refl, Bool, true, false, some, List, [], ◌∷◌, ◌++◌, arith, Option-cases, inl,
  inr, if◌then◌else◌, Text, same, All, Outcome, Yields,
}
use network_monorepo.Network.Detector.{Detector}
use network_monorepo.Network.Detector
use network_monorepo.Network.StreamManager.Marks.{detector_at}
use network_monorepo.Network.Detector.Mark.{IsSound as IsSoundDetector}
use network_monorepo.Network.Detector.Budget.{remaining-le-one}
use network_monorepo.Network.StreamManager.{remove_stream}
use network_monorepo.Network.StreamManager.Kept.{detector_at-remove_stream}
use network_monorepo.Network.SeenSet.{Cache}
use network_monorepo.Network.Node.{
  Node, Output, throttler_remove, retry_remove, unsubscribe_from_stream,
  prepare_and_send_stream_status,
}
use network_monorepo.Network.Node.Handlers.{
  Event, data_received, tracker_connected, stream_subscribed, stream_unsubscribed, instruction,
  connected, settled, sent, send_failed, disconnected, timer_fired, buffer_timed_out, stopped,
  cache_changed, caught, set_failures, delivered, handle, run,
}
use network_monorepo.Network.Node.Progress.{
  IsSound, Number, times_unseen, times_unseen-append, left, Progress,
}
use network_monorepo.Network.Node.Receive.{
  silent, quiet_if, on_data_received-Progress, subscribe-Subscribed,
}
use network_monorepo.Network.Node.Events.{
  tracker_connected-Progress, delivery_failed-Progress, timer_fired-Progress, stopped-Progress,
  buffer-Progress,
}
use network_monorepo.Network.Node.Steps.{
  aside, still, disconnected-Progress, instruction_begun-Progress, node_connected-Progress,
  instruction_settled-Progress,
}

-- The event unsubscribes a stream.
abbrev pub unsubscribes : {S : Type 0} → Text → Event S → Bool
unsubscribes stream (stream_unsubscribed other send) = same other stream
unsubscribes stream e = false

module _ {S : Type 0} (cache : Cache S) (print : ℕ → Text) (ws_of : Text → Text) (x : Number) where
  -- A step that keeps the invariant and announces no more than what is left.
  abbrev Spends : Node S → List Output → Node S → Type 0
  Spends st outs st' = IsSound st' × (times_unseen print x outs + left x st' ≤ left x st)

  spends :
      (st : Node S) (r : Outcome Output (Node S))
      → Yields (Progress print x st) r
      → Yields (Spends st) r
  spends st r (outs, st', e, p) = (outs, st', e, (p.sound, p.spent))

  quiet_removed :
      (send : Bool) (stream : Text) (st : Node S)
      → times_unseen print x (
          throttler_remove stream
          ∷ retry_remove stream
          ∷ (if send then prepare_and_send_stream_status cache print ws_of stream st else []))
        ≡ 0
  unfolding times_unseen
  quiet_removed send stream st = omega (arith, quiet_if cache print ws_of x send stream st)

  IsSound-if :
      (b : Bool) (d : Detector)
      → IsSoundDetector d
      → IsSoundDetector (if b then Detector.init 10000 else d)
  unfolding Detector.init
  IsSound-if true d v = record { positive = omega arith; valid = tt; bounded = omega arith }
  IsSound-if false d v = v

  left_over :
      (stream : Text) (send : Bool) (st' st : Node S)
      → times_unseen print x (
          throttler_remove stream
          ∷ retry_remove stream
          ∷ (if send then prepare_and_send_stream_status cache print ws_of stream st' else []))
        ≡ 0
      → detector_at x.stream x.key st'.streams ≡ (
          if same stream x.stream
          then Detector.init 10000
          else detector_at x.stream x.key st.streams)
      → same stream x.stream ≡ false
      → times_unseen print x (
            throttler_remove stream
            ∷ retry_remove stream
            ∷ (if send then prepare_and_send_stream_status cache print ws_of stream st' else []))
          + left x st'
        ≤ left x st
  unfolding left
  left_over stream send st' st quiet e other = rw (quiet, e, other) (omega arith)

  unsubscribed-Spends :
      (stream : Text) (send : Bool) (st : Node S)
      → IsSound st
      → same stream x.stream ≡ false
      → Yields (Spends st) (caught st (unsubscribe_from_stream cache print ws_of stream send st))
  unfolding unsubscribe_from_stream
  unsubscribed-Spends stream send st v other =
      elim (Option-cases (remove_stream stream st.streams)) [
        | inl e ↦ rw (e, unsubscribe_from_stream) (spends st _ (still cache print ws_of x st v))
        | inr (r, e) ↦
            let st' = record st { streams = r.1 } in
            let at = λ (j : Text) (k : Text). detector_at-remove_stream j k stream st.streams r e in
            rw (e, unsubscribe_from_stream)
              (
                _,
                st',
                refl,
                (
                  record {
                    detectors = λ j k.
                        rw (at j k) (
                          IsSound-if (same stream j) (detector_at j k st.streams)
                            (v.detectors j k));
                    room = v.room;
                  },
                  left_over stream send st' st (quiet_removed send stream st') (at x.stream x.key)
                      other,
                ),
              )
      ]

  -- What can happen to a node, other than that the stream of the number is unsubscribed.
  handle-Spends :
      (e : Event S) (st : Node S)
      → IsSound st
      → unsubscribes x.stream e ≡ false
      → Yields (Spends st) (handle cache print ws_of e st)
  unfolding handle delivered
  handle-Spends (data_received m source) st v h =
      spends st _ (on_data_received-Progress cache print ws_of x m source st v)
  handle-Spends (tracker_connected tracker url) st v h =
      spends st _ (tracker_connected-Progress cache print ws_of x tracker url st v)
  handle-Spends (stream_subscribed stream send) st v h =
      let (outs, st', e, pd) = subscribe-Subscribed cache print ws_of x stream send st v in
      (outs, st', e, (pd.0.sound, pd.0.spent))
  handle-Spends (stream_unsubscribed stream send) st v h = unsubscribed-Spends stream send st v h
  handle-Spends (instruction i tracker reattempt) st v h =
      spends st _ (instruction_begun-Progress cache print ws_of x i tracker reattempt st v)
  handle-Spends (connected node stream) st v h =
      spends st _ (node_connected-Progress cache print ws_of x node stream st v)
  handle-Spends (settled i reattempt failed) st v h =
      spends st _ (instruction_settled-Progress cache print ws_of x i reattempt failed st v)
  handle-Spends (sent node) st v h = spends st _ (
    [],
    _,
    refl,
    aside cache print ws_of x st (set_failures cache print ws_of node 0 st) [] v refl refl
        (silent cache print ws_of x),
  )
  handle-Spends (send_failed m node) st v h =
      spends st _ (delivery_failed-Progress cache print ws_of x m node st v)
  handle-Spends (disconnected node) st v h =
      spends st _ (_, _, refl, disconnected-Progress cache print ws_of x node st v)
  handle-Spends (timer_fired node) st v h =
      spends st _ (timer_fired-Progress cache print ws_of x node st v)
  handle-Spends buffer_timed_out st v h =
      spends st _ ([], _, refl, buffer-Progress cache print ws_of x st v)
  handle-Spends stopped st v h = spends st _ (stopped-Progress cache print ws_of x st v)
  handle-Spends (cache_changed s) st v h =
      let st' = record st { seen_but_not_propagated = s } in
      spends st _ (
        [],
        st',
        refl,
        aside cache print ws_of x st st' [] v refl refl (silent cache print ws_of x),
      )

  run-Spends :
      (es : List (Event S)) (st : Node S)
      → IsSound st
      → All (λ e. unsubscribes x.stream e ≡ false) es
      → Yields (Spends st) (run cache print ws_of es st)
  unfolding run
  run-Spends [] st v hs = spends st _ (still cache print ws_of x st v)
  run-Spends (e ∷ es) st v hs =
      let (outs, st', f, s) = handle-Spends e st v hs.0 in
      let (later, st'', f', s') = run-Spends es st' s.0 hs.1 in
      (
        outs ++ later,
        st'',
        rw (f, f') refl,
        (s'.0, omega (arith, s.1, s'.1, times_unseen-append print x outs later)),
      )

  -- From a sound state a node handles any events, messages repeated and out of order among them,
  -- without an error but the one that its caller gets for unsubscribing a stream that is not set up,
  -- and while the stream is not unsubscribed, each number of a publisher and chain in it is announced
  -- as unseen at most once; the state stays sound.
  pub run_lem :
      (es : List (Event S)) (st : Node S)
      → IsSound st
      → All (λ e. unsubscribes x.stream e ≡ false) es
      → (outs : List Output) × (st' : Node S) × (run cache print ws_of es st ≡ some (outs, st'))
        × IsSound st'
        × (times_unseen print x outs ≤ 1)
  unfolding left
  run_lem es st v hs =
      let (outs, st', e, s) = run-Spends es st v hs in
      (
        outs,
        st',
        e,
        s.0,
        omega (arith, s.1, remaining-le-one x.n (detector_at x.stream x.key st.streams)),
      )
