-- ===== src/Network/Node/Receive.antt =====
-- Receiving a message in Node.ts.
use network_monorepo.Prelude.{
  ℕ, ◌+◌, ◌≤◌, ◌≡◌, refl, ap, ◌∙◌, ◌&&◌, ◌||◌, Bool, true, false, Option, some, List, [], ◌∷◌, ◌++◌,
  map, arith, Bool-cases, inl, inr, if◌then◌else◌, Text, defines, Outcome, after_outputs, Yields,
}
use network_monorepo.Network.Detector.{Detector, Verdict, ok, throw}
use network_monorepo.Network.Detector.Once.{answer}
use network_monorepo.Network.MessageBuffer.Queues.{put-some}
use network_monorepo.Network.StreamManager.{is_set_up, get_outbound_nodes_for_stream}
use network_monorepo.Network.StreamManager.Marks.{answer_of}
use network_monorepo.Network.StreamManager.Kept.{Kept-refl, found-defined, set_up_stream-Kept}
use network_monorepo.Network.Node.Marked.{
  marked, result_of, marked-answer, marked-IsSound, marked-set_up, marked-left,
}
use network_monorepo.Network.SeenSet.{Message, Cache, stream_of, add_seen, has_seen}
use network_monorepo.Network.Node.{
  Node, Output, message_received, unseen_message_received, send_data, message_propagated,
  prepare_and_send_stream_status, with_status, subscribe_to_stream_if_have_not_yet, put_back,
  send_to, propagate_to, propagate_message, after_marking, mark_message, on_data_received,
}
use network_monorepo.Network.Node.Progress.{
  IsSound, Number, is_of, times_unseen, times_unseen-append, left, Progress, Progress-trans,
  Kept-Progress, after_quiet,
}

module _ {S : Type 0} (cache : Cache S) (print : ℕ → Text) (ws_of : Text → Text) (x : Number) where
  pub quiet_stream_status :
      (stream : Text) (st : Node S)
      → times_unseen print x (prepare_and_send_stream_status cache print ws_of stream st) ≡ 0
  unfolding prepare_and_send_stream_status times_unseen
  quiet_stream_status stream st = ground arith

  pub quiet_if :
      (send : Bool) (stream : Text) (st : Node S)
      → times_unseen print x
          (if send then prepare_and_send_stream_status cache print ws_of stream st else [])
        ≡ 0
  unfolding times_unseen
  quiet_if send stream st = ground (arith, quiet_stream_status stream st)

  -- A step to a state in which the stream is set up.
  abbrev pub Subscribed : Text → Node S → List Output → Node S → Type 0
  Subscribed stream st outs st' = Progress print x st outs st' × (defines stream st'.streams ≡ true)

  pub subscribe-Subscribed :
      (stream : Text) (send : Bool) (st : Node S)
      → IsSound st
      → Yields
          (Subscribed stream st)
          (subscribe_to_stream_if_have_not_yet cache print ws_of stream send st)
  unfolding subscribe_to_stream_if_have_not_yet is_set_up times_unseen
  subscribe-Subscribed stream send st v = elim (Bool-cases (is_set_up stream st.streams)) [
    | inl e ↦ (
      [],
      st,
      rw (e, subscribe_to_stream_if_have_not_yet) refl,
      (Kept-Progress print x st st [] v (Kept-refl st.streams) v.room refl, e),
    )
    | inr e ↦
        let (streams, made, d, k) = set_up_stream-Kept stream st.streams e in
        let st' = record st { streams = streams } in
        (
          (with_status cache print ws_of send stream st').0,
          st',
          rw (e, made, subscribe_to_stream_if_have_not_yet) refl,
          (Kept-Progress print x st st' _ v k v.room (quiet_if send stream st'), d),
        )
  ]

  quiet_sends :
      (ns : List Text) (m : Message)
      → times_unseen print x (map (λ n. send_data n m) ns ++ message_propagated m ∷ []) ≡ 0
  unfolding times_unseen
  quiet_sends [] m = refl
  quiet_sends (n ∷ ns) m = omega (arith, quiet_sends ns m)

  pub silent : times_unseen print x [] ≡ 0
  unfolding times_unseen
  silent = refl

  put_back-Progress :
      (m : Message) (source : Option Text) (st : Node S)
      → IsSound st
      → Yields (Progress print x st) (put_back cache print ws_of m source st)
  unfolding put_back times_unseen
  put_back-Progress m source st v =
      let (b, e, room) = put-some (stream_of print m) (m, source) st.message_buffer v.room in
      let st' = record st {
        seen_but_not_propagated = add_seen cache print m st.seen_but_not_propagated;
        message_buffer = b;
      } in
      (
        [],
        st',
        rw (e, put_back) refl,
        Kept-Progress print x st st' [] v (Kept-refl st.streams) (rw room v.room) refl,
      )

  propagate_to-Progress :
      (ns : List Text) (m : Message) (source : Option Text) (st : Node S)
      → IsSound st
      → Yields (Progress print x st) (propagate_to cache print ws_of ns m source st)
  unfolding propagate_to send_to
  propagate_to-Progress [] m source st v = put_back-Progress m source st v
  propagate_to-Progress (n ∷ ns) m source st v = (
    _,
    _,
    refl,
    Kept-Progress print x st _ _ v (Kept-refl st.streams) v.room (quiet_sends (n ∷ ns) m),
  )

  propagate-Progress :
      (m : Message) (source : Option Text) (st : Node S)
      → IsSound st
      → defines (stream_of print m) st.streams ≡ true
      → Yields (Progress print x st) (propagate_message cache print ws_of m source st)
  unfolding propagate_message get_outbound_nodes_for_stream
  propagate-Progress m source st v d =
      let (s, e) = found-defined (stream_of print m) st.streams d in
      rw (e, propagate_message) (propagate_to-Progress _ m source st v)

  -- What a detector's answer to a message allows to announce.
  abbrev credit : Message → Verdict (Bool × Detector) → ℕ
  credit m r = if is_of print x m && answer r then 1 else 0

  -- A step that may announce as much as `c` beside what is left.
  abbrev Within : ℕ → Node S → List Output → Node S → Type 0
  Within c st outs st' =
      IsSound st'
      × ((j : Text) → defines j st.streams ≡ true → defines j st'.streams ≡ true)
      × (times_unseen print x outs + left x st' ≤ c + left x st)

  Progress-Within :
      (c : ℕ) (st st' : Node S) (outs later : List Output)
      → times_unseen print x outs ≤ c
      → Progress print x st later st'
      → Within c st (outs ++ later) st'
  Progress-Within c st st' outs later h p =
      (p.sound, p.set_up, omega (arith, h, p.spent, times_unseen-append print x outs later))

  after_outputs-Within :
      (c : ℕ) (st : Node S) (outs : List Output) (r : Outcome Output (Node S))
      → times_unseen print x outs ≤ c
      → Yields (Progress print x st) r
      → Yields (Within c st) (after_outputs outs r)
  after_outputs-Within c st outs r h (later, st', e, p) =
      (outs ++ later, st', rw e refl, Progress-Within c st st' outs later h p)

  pub still : (st : Node S) → IsSound st → Yields (Progress print x st) (some ([], st))
  unfolding times_unseen
  still st v = ([], st, refl, Kept-Progress print x st st [] v (Kept-refl st.streams) v.room refl)

  nothing_announced : (c : ℕ) → times_unseen print x [] ≤ c
  unfolding times_unseen
  nothing_announced c = omega arith

  quiet_received :
      (m : Message) (source : Option Text)
      → times_unseen print x (message_received m source ∷ []) ≡ 0
  unfolding times_unseen
  quiet_received m source = refl

  announced-le :
      (b : Bool) (m : Message) (source : Option Text)
      → times_unseen print x (if b then unseen_message_received m source ∷ [] else [])
        ≤ (if is_of print x m && b then 1 else 0)
  unfolding times_unseen
  announced-le b m source = ground arith

  propagated_if :
      (b : Bool) (m : Message) (source : Option Text) (st : Node S)
      → IsSound st
      → defines (stream_of print m) st.streams ≡ true
      → Yields
          (Progress print x st)
          (if b then propagate_message cache print ws_of m source st else some ([], st))
  propagated_if true m source st v d = propagate-Progress m source st v d
  propagated_if false m source st v d = still st v

  after_marking-Within :
      (m : Message) (source : Option Text) (r : Verdict (Bool × Detector)) (st : Node S)
      → IsSound st
      → defines (stream_of print m) st.streams ≡ true
      → Yields (Within (credit m r) st) (after_marking cache print ws_of m source (answer_of r) st)
  unfolding after_marking
  after_marking-Within m source (throw e) st v d =
      after_outputs-Within (credit m (throw e)) st [] (some ([], st))
        (nothing_announced (credit m (throw e))) (still st v)
  after_marking-Within m source (ok (b, k)) st v d =
      after_outputs-Within (credit m (ok (b, k))) st _ _ (announced-le b m source)
        (propagated_if (b || has_seen cache print m st.seen_but_not_propagated) m source st v d)

  pub mark_message-Progress :
      (m : Message) (source : Option Text) (st : Node S)
      → IsSound st
      → defines (stream_of print m) st.streams ≡ true
      → Yields (Progress print x st) (mark_message cache print ws_of m source st)
  unfolding mark_message
  mark_message-Progress m source st v d =
      let st' = record st { streams = (marked print m st).1 } in
      let sound = marked-IsSound print m st v d in
      let (outs, st'', e, w) =
        after_marking-Within m source (result_of print m st) st' sound
          (marked-set_up print m st d (stream_of print m) d) in
      (
        outs,
        st'',
        ap (λ a. after_marking cache print ws_of m source a st') (marked-answer print m st d) ∙ e,
        record {
          sound = w.0;
          set_up = λ j h. w.1 j (marked-set_up print m st d j h);
          spent = omega (arith, w.2, marked-left print m st v d x);
        },
      )

  -- A message is taken in without an error, whatever the detector answers.
  pub on_data_received-Progress :
      (m : Message) (source : Option Text) (st : Node S)
      → IsSound st
      → Yields (Progress print x st) (on_data_received cache print ws_of m source st)
  unfolding on_data_received
  on_data_received-Progress m source st v =
      after_quiet print x st (message_received m source ∷ []) _ (quiet_received m source) (
        let (outs, st', e, pd) = subscribe-Subscribed (stream_of print m) true st v in
        let (later, st'', e', q) = mark_message-Progress m source st' pd.0.sound pd.1 in
        (
          outs ++ later,
          st'',
          rw (e, e') refl,
          Progress-trans print x st st' st'' outs later pd.0 q,
        ))
