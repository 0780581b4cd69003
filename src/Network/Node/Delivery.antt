-- ===== src/Network/Node/Delivery.antt =====
-- Where a message that a node receives goes (Node.ts).
use network_monorepo.Prelude.{
  ℕ, ◌<◌, ◌≡◌, refl, sym, ◌||◌, not, Bool, true, false, Option, none, some, List, [], ◌∷◌, ◌++◌,
  map, filter, arith, Bool-cases, Option-cases, inl, inr, if◌then◌else◌, Text, same_refl, has, All,
  defines, lookup, lookup-insert, insert, Outcome, after_outputs, Yields,
}
use network_monorepo.Network.Detector.{Detector, Verdict, ok, throw}
use network_monorepo.Network.MessageBuffer.Queues.{put-some}
use network_monorepo.Network.StreamManager.{StreamState, fresh_state, set_up_stream, is_set_up}
use network_monorepo.Network.StreamManager.Marks.{answer_of, outbound-mark_numbers}
use network_monorepo.Network.SeenSet.{Message, Cache, stream_of, number_of, previous_of, has_seen}
use network_monorepo.Network.Node.{
  Node, Output, message_received, unseen_message_received, send_data, message_propagated,
  prepare_and_send_stream_status, subscribe_to_stream_if_have_not_yet, put_back, send_to,
  propagate_to, propagate_message, after_marking, mark_message, on_data_received, is_source,
}
use network_monorepo.Network.Node.Progress.{IsSound}
use network_monorepo.Network.Node.Marked.{marked, result_of, marked-answer}

-- What is sent is the message, to one of the nodes.
abbrev pub IsAddressed : (Text → Type 0) → Message → Output → Type 0
IsAddressed P m (send_data node m') = (m' ≡ m) × P node
IsAddressed P m o = Unit {0}

-- The nodes that a message goes to.
abbrev pub targets : Option Text → StreamState → List Text
targets source s = filter (λ n. not (is_source source n)) s.outbound_nodes

All-filter :
    (P : Text → Type 0) (f : Text → Bool) (ns : List Text)
    → ((n : Text) → has n ns ≡ true → f n ≡ true → P n)
    → All P (filter f ns)
unfolding has
All-filter P f [] h = tt
All-filter P f (n ∷ ns) h =
    let rest = All-filter P f ns (λ k e. h k (ground arith)) in
    elim (Bool-cases (f n)) [
      | inl e ↦ rw e (h n (ground (arith, same_refl n)) e, rest)
      | inr e ↦ rw e rest
    ]

All-append : (P : Output → Type 0) (os os' : List Output) → All P os → All P os' → All P (os ++ os')
All-append P [] os' h h' = h'
All-append P (o ∷ os) os' h h' = (h.0, All-append P os os' h.1 h')

All-sends :
    (P : Text → Type 0) (m : Message) (ns : List Text)
    → All P ns
    → All (IsAddressed P m) (map (λ n. send_data n m) ns ++ message_propagated m ∷ [])
All-sends P m [] h = (tt, tt)
All-sends P m (n ∷ ns) h = ((refl, h.0), All-sends P m ns h.1)

-- The outbound nodes of a stream, none where it is not set up.
abbrev pub outbound_of : {S : Type 0} → Text → Node S → List Text
outbound_of stream st = elim (lookup stream st.streams) [ none ↦ [] | some s ↦ s.outbound_nodes ]

-- An outbound node of the stream other than the source.
abbrev pub IsReceiver : {S : Type 0} → Text → Option Text → Node S → Text → Type 0
IsReceiver stream source st node =
    (has node (outbound_of stream st) ≡ true) × (is_source source node ≡ false)

module _ {S : Type 0} (cache : Cache S) (print : ℕ → Text) (ws_of : Text → Text) where
  -- The state of the node once the message is marked.
  abbrev pub marked_state : Message → Node S → Node S
  marked_state m st = record st { streams = (marked print m st).1 }

  pub received-as :
      (m : Message) (source : Option Text) (st : Node S) (s : StreamState)
      → lookup (stream_of print m) st.streams ≡ some s
      → on_data_received cache print ws_of m source st
        ≡ after_outputs (message_received m source ∷ []) (
            after_outputs [] (
              after_marking cache print ws_of m source
                (answer_of (result_of print m st))
                (marked_state m st)))
  unfolding on_data_received mark_message subscribe_to_stream_if_have_not_yet is_set_up defines
  received-as m source st s h =
      let d : defines (stream_of print m) st.streams ≡ true = ground arith in
      rw (d, subscribe_to_stream_if_have_not_yet, sym (marked-answer print m st d)) refl

  pub propagated-as :
      (m : Message) (source : Option Text) (st : Node S) (s : StreamState)
      → lookup (stream_of print m) st.streams ≡ some s
      → propagate_message cache print ws_of m source (marked_state m st)
        ≡ propagate_to cache print ws_of (targets source s) m source (marked_state m st)
  unfolding propagate_message
  propagated-as m source st s h =
      rw
        (
          outbound-mark_numbers (stream_of print m) m.publisher_id m.msg_chain_id (previous_of m)
              (number_of m) s st.streams h,
          propagate_message,
        )
        refl

  module _ (P : Text → Type 0) (m : Message) (source : Option Text) where
    abbrev Addressed : List Output → Node S → Type 0
    Addressed outs st' = All (IsAddressed P m) outs

    after_outputs-Addressed :
        (outs : List Output) (r : Outcome Output (Node S))
        → All (IsAddressed P m) outs
        → Yields Addressed r
        → Yields Addressed (after_outputs outs r)
    after_outputs-Addressed outs r h (later, st', e, h') =
        (outs ++ later, st', rw e refl, All-append (IsAddressed P m) outs later h h')

    propagate_to-Addressed :
        (ns : List Text) (st : Node S)
        → 1 < st.message_buffer.max_size
        → All P ns
        → Yields Addressed (propagate_to cache print ws_of ns m source st)
    unfolding propagate_to put_back send_to
    propagate_to-Addressed [] st room h =
        let (b, e, k) = put-some (stream_of print m) (m, source) st.message_buffer room in
        rw (e, put_back) ([], _, refl, tt)
    propagate_to-Addressed (n ∷ ns) st room h = (_, _, refl, All-sends P m (n ∷ ns) h)

    propagated_if :
        (b : Bool) (st : Node S)
        → Yields Addressed (propagate_message cache print ws_of m source st)
        → Yields Addressed
            (if b then propagate_message cache print ws_of m source st else some ([], st))
    propagated_if true st y = y
    propagated_if false st y = ([], st, refl, tt)

    quiet_unseen :
        (b : Bool) → All (IsAddressed P m) (if b then unseen_message_received m source ∷ [] else [])
    quiet_unseen true = (tt, tt)
    quiet_unseen false = tt

    after_marking-Addressed :
        (r : Verdict (Bool × Detector)) (st : Node S)
        → Yields Addressed (propagate_message cache print ws_of m source st)
        → Yields Addressed (after_marking cache print ws_of m source (answer_of r) st)
    unfolding after_marking
    after_marking-Addressed (throw e) st y = ([], st, refl, tt)
    after_marking-Addressed (ok (b, k)) st y =
        after_outputs-Addressed _ _ (quiet_unseen b)
          (propagated_if (b || has_seen cache print m st.seen_but_not_propagated) st y)

    quiet_status :
        (stream : Text) (st : Node S)
        → All (IsAddressed P m) (prepare_and_send_stream_status cache print ws_of stream st)
    unfolding prepare_and_send_stream_status
    quiet_status stream st = ground arith

    -- A stream that is set up has the outbound nodes that it had, or none.
    abbrev Ready : Text → Node S → List Output → Node S → Type 0
    Ready stream st outs st' =
        All (IsAddressed P m) outs
        × (st'.message_buffer ≡ st.message_buffer)
        × (s : StreamState) × (lookup stream st'.streams ≡ some s)
        × (s.outbound_nodes ≡ outbound_of stream st)

    subscribe-Ready :
        (stream : Text) (st : Node S)
        → Yields
            (Ready stream st)
            (subscribe_to_stream_if_have_not_yet cache print ws_of stream true st)
    unfolding subscribe_to_stream_if_have_not_yet is_set_up defines set_up_stream
    subscribe-Ready stream st = elim (Option-cases (lookup stream st.streams)) [
      | inl e ↦
          let st' = record st { streams = insert stream fresh_state st.streams } in
          rw (e, subscribe_to_stream_if_have_not_yet, set_up_stream, is_set_up, defines)
            (
              _,
              st',
              refl,
              (
                quiet_status stream st',
                refl,
                fresh_state,
                ground (arith, lookup-insert stream stream fresh_state st.streams),
                rw (e, outbound_of) refl,
              ),
            )
      | inr (s, e) ↦
          rw (e, subscribe_to_stream_if_have_not_yet, is_set_up, defines)
            ([], st, refl, (tt, refl, s, e, rw (e, outbound_of) refl))
    ]

    mark_message-Addressed :
        (st : Node S) (s : StreamState)
        → 1 < st.message_buffer.max_size
        → lookup (stream_of print m) st.streams ≡ some s
        → All P (targets source s)
        → Yields Addressed (mark_message cache print ws_of m source st)
    unfolding mark_message defines
    mark_message-Addressed st s room e h =
        let d : defines (stream_of print m) st.streams ≡ true = ground arith in
        rw (marked-answer print m st d) (
          after_marking-Addressed (result_of print m st) (marked_state m st) (
            rw (propagated-as m source st s e)
              (propagate_to-Addressed (targets source s) (marked_state m st) room h)))

  receivers :
      (stream : Text) (source : Option Text) (st : Node S) (s : StreamState)
      → s.outbound_nodes ≡ outbound_of stream st
      → All (IsReceiver stream source st) (targets source s)
  receivers stream source st s e =
      All-filter (IsReceiver stream source st) (λ n. not (is_source source n)) s.outbound_nodes
        (λ n h f. (rw (sym e) h, ground arith))

  -- In a sound state a message is taken in without an error, and all that is sent is that message, to
  -- outbound nodes of its stream other than the node that it came from.
  pub on_data_received-IsAddressed :
      (m : Message) (source : Option Text) (st : Node S)
      → IsSound st
      → (outs : List Output) × (st' : Node S) × (on_data_received cache print ws_of m source st
          ≡ some (outs, st'))
        × All (IsAddressed (IsReceiver (stream_of print m) source st) m) outs
  unfolding on_data_received
  on_data_received-IsAddressed m source st v =
      let P = IsReceiver (stream_of print m) source st in
      let (outs, st', e, r) = subscribe-Ready P m source (stream_of print m) st in
      let (later, st'', e', h) =
        mark_message-Addressed P m source st' r.2 (rw r.1 v.room) r.3
          (receivers (stream_of print m) source st r.2 r.4) in
      (
        message_received m source ∷ outs ++ later,
        st'',
        rw (e, e') refl,
        (tt, All-append (IsAddressed P m) outs later r.0 h),
      )
