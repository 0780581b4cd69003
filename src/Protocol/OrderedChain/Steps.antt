-- ===== src/Protocol/OrderedChain/Steps.antt =====
-- The order in which a chain (OrderedMsgChain.ts) hands its messages over: steps, and runs.
use network_monorepo.Prelude.{
  ℕ, ◌<◌, ◌≡◌, refl, sym, subst, Bool, true, false, not, ◌⊎◌, inl, inr, Bool-cases, Option-cases,
  Option, none, some, List, [], ◌∷◌, ◌++◌, arith, if◌then◌else◌, ltb,
}
use network_monorepo.Protocol.MessageRef.{MessageRef, is_at_refl, is_before-not}
use network_monorepo.Protocol.OrderedChain.MessageSet.{Message}
use network_monorepo.Protocol.OrderedChain.Heap.{HeapOps, IsHeap}
use network_monorepo.Protocol.OrderedChain.Queue
use network_monorepo.Protocol.OrderedChain.Queue.{MsgChainQueue}
use network_monorepo.Protocol.OrderedChain.Sorted.{
  Over, IsSorted, nothing, next, Next-of_queue, push-IsSorted,
}
use network_monorepo.Protocol.OrderedChain.Order.{
  processed, processed-append, Ascends, Ascends-append, IsOrdered, Goes, process-Goes,
}
use network_monorepo.Protocol.OrderedChain.{
  Output, Chain, Handlers, init, is_past, is_stale_message, clear_gap, is_next,
  has_next_message_in_chain, schedule_gap, process, settle, check_queue, mark_message, add,
  mark_message_explicitly, disable, request_gap, request_gap_fill, first_gap_fired, next_gap_fired,
  is_gap_handling_enabled, emit,
}

module _ {H : Type 0} (ops : HeapOps H) (heap : IsHeap ops) (handlers : Handlers) where
  -- What handing nothing over asks for.
  Stays : (outs : List Output) (c c' : Chain H) → Type 0
  Stays outs c c' =
      (processed outs ≡ [])
      × (c'.last_ordered_msg_ref ≡ c.last_ordered_msg_ref)
      × (c'.queue ≡ c.queue)

  settle-Stays :
      (n : ℕ) (c : Chain H) → Stays (settle ops handlers n c).0 c (settle ops handlers n c).1
  unfolding Stays settle processed schedule_gap clear_gap
  settle-Stays n c = (ground arith, ground arith, ground arith)

  then-Stays :
      (b : Option MessageRef) (outs later : List Output) (c c' : Chain H)
      → Goes ops heap handlers b (outs, c)
      → Stays later c c'
      → Goes ops heap handlers b (outs ++ later, c')
  unfolding Stays
  then-Stays b outs later c c' g s = record {
    ascending =
        rw (processed-append outs later, s.0, s.1)
          (Ascends-append b c.last_ordered_msg_ref c.last_ordered_msg_ref (processed outs) []
            g.ascending refl);
    ordered = rw (s.1, s.2) g.ordered;
  }

  -- `checkQueue`, from a bound that is the last reference, or with a next message at hand.
  check_queue-Goes :
      (b : Option MessageRef) (c : Chain H)
      → IsSorted ops heap b c.queue
      → (b ≡ c.last_ordered_msg_ref)
        ⊎ ((has_next_message_in_chain ops handlers c ≡ true) × (0 < Queue.size ops c.queue))
      → Goes ops heap handlers b (check_queue ops handlers c)
  unfolding check_queue
  check_queue-Goes b c s start =
      let r = process ops handlers (Queue.size ops c.queue) 0 c in
      then-Stays b r.0 (settle ops handlers r.2 r.1).0 r.1 (settle ops handlers r.2 r.1).1
        (process-Goes ops heap handlers (Queue.size ops c.queue) 0 b c s start)
        (settle-Stays r.2 r.1)

  idle-Goes :
      (c : Chain H)
      → IsOrdered ops heap handlers c
      → Goes ops heap handlers c.last_ordered_msg_ref ([], c)
  unfolding processed
  idle-Goes c o = record { ascending = refl; ordered = o }

  Over-of_fresh :
      (m : Message) (c : Chain H)
      → is_stale_message ops handlers c m ≡ false
      → Over c.last_ordered_msg_ref m.ref
  unfolding is_stale_message is_past
  Over-of_fresh m c h = by_last c.last_ordered_msg_ref (ground arith)
    where
      by_last :
          (last : Option MessageRef) → is_past ops handlers m.ref last ≡ false → Over last m.ref
      by_last none k = tt
      by_last (some last) k = is_before-not m.ref last k

  mark_message-Stays : (m : Message) (c : Chain H) → Stays [] c (mark_message ops handlers m c).1
  unfolding Stays mark_message processed
  mark_message-Stays m c = (refl, ground arith, ground arith)

  enqueue-Goes :
      (m : Message) (c ready : Chain H)
      → IsOrdered ops heap handlers c
      → is_stale_message ops handlers c m ≡ false
      → Stays [] c ready
      → Goes ops heap handlers c.last_ordered_msg_ref
          (check_queue ops handlers (record ready { queue = Queue.push ops m ready.queue }))
  unfolding Stays
  enqueue-Goes m c ready o fresh s =
      check_queue-Goes c.last_ordered_msg_ref
        (record ready { queue = Queue.push ops m ready.queue })
        (rw s.2
          (push-IsSorted ops heap c.last_ordered_msg_ref m c.queue (Over-of_fresh m c fresh) o))
        (inl (sym s.1))

  pub add-Goes :
      (m : Message) (c : Chain H)
      → IsOrdered ops heap handlers c
      → Goes ops heap handlers c.last_ordered_msg_ref (add ops handlers m c)
  unfolding add Stays processed
  add-Goes m c o = elim (Bool-cases (is_stale_message ops handlers c m)) [
    | inl stale ↦ rw stale (idle-Goes c o)
    | inr fresh ↦ rw fresh (elim (Bool-cases (is_gap_handling_enabled ops handlers c)) [
      | inl enabled ↦ rw enabled (enqueue-Goes m c c o fresh (refl, refl, refl))
      | inr disabled ↦
          rw disabled
            (enqueue-Goes m c (mark_message ops handlers m c).1 o fresh (mark_message-Stays m c))
    ])
  ]

  pub mark_message_explicitly-Goes :
      (m : Message) (c : Chain H)
      → IsOrdered ops heap handlers c
      → Goes ops heap handlers c.last_ordered_msg_ref (mark_message_explicitly ops handlers m c)
  unfolding mark_message_explicitly Stays
  mark_message_explicitly-Goes m c o =
      let after = (mark_message ops handlers m c).1 in
      let s = mark_message-Stays m c in
      let o' : IsOrdered ops heap handlers after = rw (s.1, s.2) o in
      elim (Bool-cases (mark_message ops handlers m c).0) [
        | inl marked ↦ rw marked (
            subst (λ b. Goes ops heap handlers b (add ops handlers m after)) s.1
              (add-Goes m after o'))
        | inr stale ↦
            rw stale (subst (λ b. Goes ops heap handlers b ([], after)) s.1 (idle-Goes after o'))
      ]

  pub disable-Goes :
      (c : Chain H)
      → IsOrdered ops heap handlers c
      → Goes ops heap handlers c.last_ordered_msg_ref (disable ops handlers c)
  unfolding disable clear_gap
  disable-Goes c o = check_queue-Goes c.last_ordered_msg_ref _ o (inl refl)

  peeked-size :
      (m : Message) (b : Option MessageRef) (c : Chain H)
      → IsSorted ops heap b c.queue
      → Queue.peek ops c.queue ≡ some m
      → 0 < Queue.size ops c.queue
  peeked-size m b c s peeked = elim (Next-of_queue ops heap b c.queue s) [
    | nothing p q z ↦ absurd (ground arith)
    | next m' q' n p q o s' z k ↦ ground arith
  ]

  is_next-prev : (m : Message) → is_next ops handlers m m.prev_msg_ref ≡ true
  unfolding is_next
  is_next-prev m = elim (Option-cases m.prev_msg_ref) [
    | inl e ↦ rw e refl
    | inr (p, e) ↦ rw (e, is_at_refl p) refl
  ]

  -- A gap that is given up: the next message is at hand, whatever its previous reference says.
  skip_gap-Goes :
      (m : Message) (b : Option MessageRef) (c : Chain H)
      → IsSorted ops heap b c.queue
      → Queue.peek ops c.queue ≡ some m
      → Goes ops heap handlers b (
          check_queue ops handlers
            (clear_gap ops handlers (record c { last_ordered_msg_ref = m.prev_msg_ref })))
  unfolding clear_gap has_next_message_in_chain
  skip_gap-Goes m b c s peeked =
      check_queue-Goes b _ s (inr (ground (arith, is_next-prev m), peeked-size m b c s peeked))

  emit-Goes :
      (outs : List Output) (b : Option MessageRef) (r : List Output × Chain H)
      → processed outs ≡ []
      → Goes ops heap handlers b r
      → Goes ops heap handlers b (emit ops handlers outs r)
  emit-Goes outs b r e g = record {
    ascending = rw (processed-append outs r.0, e) (g.ascending);
    ordered = g.ordered;
  }

  if-Goes :
      (b : Option MessageRef) (test : Bool) (r r' : List Output × Chain H)
      → Goes ops heap handlers b r
      → Goes ops heap handlers b r'
      → Goes ops heap handlers b (if test then r else r')
  if-Goes b true r r' g g' = g
  if-Goes b false r r' g g' = g'

  request_gap-Goes :
      (m : Message) (last : MessageRef) (c : Chain H)
      → IsOrdered ops heap handlers c
      → Queue.peek ops c.queue ≡ some m
      → Goes ops heap handlers c.last_ordered_msg_ref (request_gap ops handlers m last c)
  unfolding request_gap processed
  request_gap-Goes m last c o peeked =
      elim (Bool-cases (ltb c.gap_request_count c.max_gap_requests)) [
        | inl more ↦ rw more (record { ascending = ground arith; ordered = o })
        | inr spent ↦ rw spent (
            emit-Goes _ c.last_ordered_msg_ref _ (ground arith)
              (skip_gap-Goes m c.last_ordered_msg_ref c o peeked))
      ]

  request_gap_fill-Goes :
      (c : Chain H)
      → IsOrdered ops heap handlers c
      → Goes ops heap handlers c.last_ordered_msg_ref (request_gap_fill ops handlers c)
  unfolding request_gap_fill
  request_gap_fill-Goes c o =
      if-Goes c.last_ordered_msg_ref (not c.has_pending_gap) _ _ (idle-Goes c o)
        (elim (Option-cases (Queue.peek ops c.queue)) [
          | inl e ↦ rw e (idle-Goes c o)
          | inr (m, e) ↦ rw e (by_last m e (Option-cases c.last_ordered_msg_ref))
        ])
    where
      by_last :
          (m : Message)
          → Queue.peek ops c.queue ≡ some m
          → (c.last_ordered_msg_ref ≡ none)
            ⊎ ((last : MessageRef) × (c.last_ordered_msg_ref ≡ some last))
          → Goes ops heap handlers c.last_ordered_msg_ref (elim c.last_ordered_msg_ref [
            | none ↦ ([], c)
            | some last ↦ request_gap ops handlers m last c
          ])
      by_last m e (inl n) =
          subst
            (λ b.
              Goes ops heap handlers c.last_ordered_msg_ref
                (elim b [ none ↦ ([], c) | some last ↦ request_gap ops handlers m last c ]))
            (sym n) (idle-Goes c o)
      by_last m e (inr (last, n)) =
          subst
            (λ b.
              Goes ops heap handlers c.last_ordered_msg_ref
                (elim b [ none ↦ ([], c) | some last ↦ request_gap ops handlers m last c ]))
            (sym n) (request_gap-Goes m last c o e)

  first_gap_fired-Goes :
      (c : Chain H)
      → IsOrdered ops heap handlers c
      → Goes ops heap handlers c.last_ordered_msg_ref (first_gap_fired ops handlers c)
  unfolding first_gap_fired
  first_gap_fired-Goes c o =
      let g = request_gap_fill-Goes (record c { first_gap = false }) o in
      let after = (request_gap_fill ops handlers (record c { first_gap = false })).1 in
      elim (Bool-cases after.has_pending_gap) [
        | inl e ↦ rw e (record { ascending = g.ascending; ordered = g.ordered })
        | inr e ↦ rw e g
      ]

  next_gap_fired-Goes :
      (c : Chain H)
      → IsOrdered ops heap handlers c
      → Goes ops heap handlers c.last_ordered_msg_ref (next_gap_fired ops handlers c)
  unfolding next_gap_fired processed
  next_gap_fired-Goes c o =
      if-Goes c.last_ordered_msg_ref c.has_pending_gap _ _ (request_gap_fill-Goes c o)
        (record { ascending = refl; ordered = o })

-- What happens to a chain.
pub data Event : Type 0 where
  adds : Message → Event
  marks : Message → Event
  disables : Event
  clears : Event
  first_gap_fires : Event
  next_gap_fires : Event

module _ {H : Type 0} (ops : HeapOps H) (handlers : Handlers) where
  unfoldable pub step : Event → Chain H → List Output × Chain H
  step (adds m) c = add ops handlers m c
  step (marks m) c = mark_message_explicitly ops handlers m c
  step disables c = disable ops handlers c
  step clears c = ([], clear_gap ops handlers c)
  step first_gap_fires c = first_gap_fired ops handlers c
  step next_gap_fires c = next_gap_fired ops handlers c

  -- All outputs, in order, and the chain after the events.
  unfoldable pub run : List Event → Chain H → List Output × Chain H
  run [] c = ([], c)
  run (e ∷ es) c =
      let (outs, after) = step e c in let (later, final) = run es after in (outs ++ later, final)

module _ {H : Type 0} (ops : HeapOps H) (heap : IsHeap ops) (handlers : Handlers) where
  pub step-Goes :
      (e : Event) (c : Chain H)
      → IsOrdered ops heap handlers c
      → Goes ops heap handlers c.last_ordered_msg_ref (step ops handlers e c)
  unfolding step clear_gap processed
  step-Goes (adds m) c o = add-Goes ops heap handlers m c o
  step-Goes (marks m) c o = mark_message_explicitly-Goes ops heap handlers m c o
  step-Goes disables c o = disable-Goes ops heap handlers c o
  step-Goes clears c o = record { ascending = refl; ordered = o }
  step-Goes first_gap_fires c o = first_gap_fired-Goes ops heap handlers c o
  step-Goes next_gap_fires c o = next_gap_fired-Goes ops heap handlers c o

  pub run-Goes :
      (es : List Event) (c : Chain H)
      → IsOrdered ops heap handlers c
      → Goes ops heap handlers c.last_ordered_msg_ref (run ops handlers es c)
  unfolding run
  run-Goes [] c o = idle-Goes ops heap handlers c o
  run-Goes (e ∷ es) c o =
      let g = step-Goes e c o in
      let outs = (step ops handlers e c).0 in
      let after = (step ops handlers e c).1 in
      let g' = run-Goes es after g.ordered in
      record {
        ascending = rw (processed-append outs (run ops handlers es after).0) (
            Ascends-append c.last_ordered_msg_ref after.last_ordered_msg_ref
              (run ops handlers es after).1.last_ordered_msg_ref (processed outs)
              (processed (run ops handlers es after).0) g.ascending g'.ascending);
        ordered = g'.ordered;
      }

  pub init-IsOrdered : (n : ℕ) → IsOrdered ops heap handlers (init ops handlers n)
  unfolding init Queue.empty
  init-IsOrdered n = record { above = rw heap.items-empty tt; held = rw heap.items-empty tt }

  -- Whatever is added, marked or disabled, and whenever the timers fire: over the whole life of a
  -- chain that starts empty, the references of the messages it hands over (delivered or skipped)
  -- ascend strictly, and end with the last ordered reference, unless none is handed over.
  pub run-Ascends :
      (n : ℕ) (es : List Event)
      → let r = run ops handlers es (init ops handlers n) in
        Ascends none (processed r.0) r.1.last_ordered_msg_ref
  unfolding init
  run-Ascends n es = (run-Goes es (init ops handlers n) (init-IsOrdered n)).ascending
