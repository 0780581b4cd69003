-- ===== src/Protocol/OrderedChain/Order.antt =====
-- The order in which a chain (OrderedMsgChain.ts) hands its messages over: outputs and the loop.
use network_monorepo.Prelude.{
  ℕ, zero, suc, ◌<◌, ◌≡◌, refl, sym, ap, true, false, ◌⊎◌, inl, inr, Bool-cases, Option, some, List,
  [], ◌∷◌, ◌++◌, arith,
}
use network_monorepo.Protocol.MessageRef.{MessageRef}
use network_monorepo.Protocol.OrderedChain.MessageSet.{Message}
use network_monorepo.Protocol.OrderedChain.Heap.{HeapOps, IsHeap}
use network_monorepo.Protocol.OrderedChain.Queue
use network_monorepo.Protocol.OrderedChain.Queue.{MsgChainQueue}
use network_monorepo.Protocol.OrderedChain.Sorted.{Over, IsSorted, nothing, next, Next-of_queue}
use network_monorepo.Protocol.OrderedChain.{
  Output, delivered, skipped, drained, gap_requested, handler_failed, gap_fill_failed, Chain,
  Handlers, has_next_message_in_chain, hand_over, pop, process,
}

-- The references of the messages that are handed over, in order: delivered or skipped.
unfoldable pub processed : List Output → List MessageRef
processed [] = []
processed (delivered m ∷ outs) = m.ref ∷ processed outs
processed (skipped m ∷ outs) = m.ref ∷ processed outs
processed (drained n ∷ outs) = processed outs
processed (gap_requested from to ∷ outs) = processed outs
processed (handler_failed ∷ outs) = processed outs
processed (gap_fill_failed from to ∷ outs) = processed outs

pub processed-append : (xs ys : List Output) → processed (xs ++ ys) ≡ processed xs ++ processed ys
unfolding processed
processed-append [] ys = refl
processed-append (delivered m ∷ xs) ys = ap (◌∷◌ m.ref) (processed-append xs ys)
processed-append (skipped m ∷ xs) ys = ap (◌∷◌ m.ref) (processed-append xs ys)
processed-append (drained n ∷ xs) ys = processed-append xs ys
processed-append (gap_requested from to ∷ xs) ys = processed-append xs ys
processed-append (handler_failed ∷ xs) ys = processed-append xs ys
processed-append (gap_fill_failed from to ∷ xs) ys = processed-append xs ys

-- Strictly ascending from above `b`, with `e` the last, or `b` if there is none.
abbrev pub Ascends : Option MessageRef → List MessageRef → Option MessageRef → Type 0
Ascends b [] e = b ≡ e
Ascends b (r ∷ rs) e = Over b r × Ascends (some r) rs e

pub Ascends-append :
    (b c e : Option MessageRef) (xs ys : List MessageRef)
    → Ascends b xs c
    → Ascends c ys e
    → Ascends b (xs ++ ys) e
Ascends-append b c e [] ys h k = rw h k
Ascends-append b c e (x ∷ xs) ys h k = (h.0, Ascends-append (some x) c e xs ys h.1 k)

module _ {H : Type 0} (ops : HeapOps H) (heap : IsHeap ops) (handlers : Handlers) where
  -- Between two steps the queue is above the last reference.
  abbrev pub IsOrdered : Chain H → Type 0
  IsOrdered c = IsSorted ops heap c.last_ordered_msg_ref c.queue

  -- A step from the bound `b` hands over ascending messages, and the chain is ordered after it.
  pub record Goes (b : Option MessageRef) (r : List Output × Chain H) : Type 0 where
    pub ascending : Ascends b (processed r.0) r.1.last_ordered_msg_ref
    pub ordered : IsOrdered r.1

  hand_over-processed :
      (m : Message) (c : Chain H) → processed (hand_over ops handlers m c).0 ≡ m.ref ∷ []
  unfolding hand_over processed
  hand_over-processed m c = ground arith

  pub hand_over-queue :
      (m : Message) (c : Chain H)
      → ((hand_over ops handlers m c).1.queue ≡ c.queue)
        × ((hand_over ops handlers m c).1.last_ordered_msg_ref ≡ c.last_ordered_msg_ref)
  unfolding hand_over
  hand_over-queue m c = (ground arith, ground arith)

  -- What `pop` does when there is a next message.
  record Takes (m : Message) (r : List Output × Chain H) : Type 0 where
    one : processed r.0 ≡ m.ref ∷ []
    last : r.1.last_ordered_msg_ref ≡ some m.ref
    ordered : IsOrdered r.1

  pop-Takes :
      (m : Message) (q : MsgChainQueue H) (c : Chain H)
      → Queue.pop ops c.queue ≡ (some m, q)
      → IsSorted ops heap (some m.ref) q
      → Takes m (pop ops handlers c)
  unfolding pop
  pop-Takes m q c e s =
      let c' : Chain H = record c { queue = q; last_ordered_msg_ref = some m.ref } in
      let kept = hand_over-queue m c' in
      rw e
        (record { one = hand_over-processed m c'; last = kept.1; ordered = rw (kept.0, kept.1) s })

  -- The loop, from a bound that is the last reference, or with a next message at hand.
  pub process-Goes :
      (fuel count : ℕ) (b : Option MessageRef) (c : Chain H)
      → IsSorted ops heap b c.queue
      → (b ≡ c.last_ordered_msg_ref)
        ⊎ ((has_next_message_in_chain ops handlers c ≡ true) × (0 < fuel))
      → let r = process ops handlers fuel count c in Goes b (r.0, r.1)
  unfolding process processed has_next_message_in_chain
  process-Goes zero count b c s (inl e) = record { ascending = e; ordered = rw e at s }
  process-Goes zero count b c s (inr (h, k)) = absurd (omega arith)
  process-Goes (suc fuel) count b c s start =
      elim (Bool-cases (has_next_message_in_chain ops handlers c)) [
        | inr stop ↦ rw stop (record {
          ascending = from_start start stop;
          ordered = rw (from_start start stop) at s;
        })
        | inl go ↦ rw go (elim (Next-of_queue ops heap b c.queue s) [
          | nothing none_left p z ↦ absurd (ground arith)
          | next m q n peeked popped o s' z k ↦
              let t = pop-Takes m q c popped s' in
              let after = (pop ops handlers c).1 in
              let g =
                process-Goes fuel (suc count) (some m.ref) after (rw (sym t.last) (t.ordered))
                  (inl (sym t.last)) in
              record {
                ascending =
                    rw
                      (
                        processed-append (pop ops handlers c).0
                            (process ops handlers fuel (suc count) after).0,
                        t.one,
                      )
                      (o, g.ascending);
                ordered = g.ordered;
              }
        ])
      ]
    where
      from_start :
          (b ≡ c.last_ordered_msg_ref)
            ⊎ ((has_next_message_in_chain ops handlers c ≡ true) × (0 < suc fuel))
          → has_next_message_in_chain ops handlers c ≡ false
          → b ≡ c.last_ordered_msg_ref
      from_start (inl e) stop = e
      from_start (inr (h, k)) stop = absurd (ground arith)
