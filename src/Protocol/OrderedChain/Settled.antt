-- ===== src/Protocol/OrderedChain/Settled.antt =====
-- Where the loop of `checkQueue` (OrderedMsgChain.ts) stops.
use network_monorepo.Prelude.{
  ℕ, zero, suc, ◌≤◌, ◌≡◌, true, false, ◌⊎◌, inl, inr, Bool-cases, Option, some, arith,
}
use network_monorepo.Protocol.MessageRef.{MessageRef}
use network_monorepo.Protocol.OrderedChain.MessageSet.{Message}
use network_monorepo.Protocol.OrderedChain.Heap.{HeapOps, IsHeap}
use network_monorepo.Protocol.OrderedChain.Queue
use network_monorepo.Protocol.OrderedChain.Queue.{MsgChainQueue}
use network_monorepo.Protocol.OrderedChain.Sorted.{IsSorted, nothing, next, Next-of_queue}
use network_monorepo.Protocol.OrderedChain.{
  Chain, Handlers, clear_gap, has_next_message_in_chain, pop, schedule_gap, process, settle,
  check_queue,
}
use network_monorepo.Protocol.OrderedChain.Order.{hand_over-queue}

module _ {H : Type 0} (ops : HeapOps H) (heap : IsHeap ops) (handlers : Handlers) where
  pop-queue :
      (m : Message) (q : MsgChainQueue H) (c : Chain H)
      → Queue.pop ops c.queue ≡ (some m, q)
      → (pop ops handlers c).1.queue ≡ q
  unfolding pop
  pop-queue m q c e =
      rw e
        (hand_over-queue ops heap handlers m
          (record c { queue = q; last_ordered_msg_ref = some m.ref })).0

  -- With at least as much fuel as the queue has messages the loop ends at its own condition.
  pub process-stops :
      (fuel count : ℕ) (b : Option MessageRef) (c : Chain H)
      → IsSorted ops heap b c.queue
      → Queue.size ops c.queue ≤ fuel
      → has_next_message_in_chain ops handlers (process ops handlers fuel count c).1 ≡ false
  unfolding process has_next_message_in_chain
  process-stops zero count b c s k = elim (Next-of_queue ops heap b c.queue s) [
    | nothing p q z ↦ ground arith
    | next m q n p popped o s' z k' ↦ absurd (ground arith)
  ]
  process-stops (suc fuel) count b c s k =
      elim (Bool-cases (has_next_message_in_chain ops handlers c)) [
        | inr stop ↦ rw stop (ground arith)
        | inl go ↦ rw go (elim (Next-of_queue ops heap b c.queue s) [
          | nothing p q z ↦ absurd (ground arith)
          | next m q n p popped o s' z k' ↦
              let e = pop-queue m q c popped in
              process-stops fuel (suc count) (some m.ref) (pop ops handlers c).1 (rw e s')
                (rw e (ground arith))
        ])
      ]

  -- What is left after `checkQueue`.
  pub record IsSettled (c : Chain H) : Type 0 where
    pub stopped : has_next_message_in_chain ops handlers c ≡ false
    pub scheduled : (Queue.is_empty ops c.queue ≡ true) ⊎ (c.has_pending_gap ≡ true)

  settle-IsSettled :
      (n : ℕ) (c : Chain H)
      → has_next_message_in_chain ops handlers c ≡ false
      → IsSettled (settle ops handlers n c).1
  unfolding settle has_next_message_in_chain schedule_gap clear_gap
  settle-IsSettled n c stop = elim (Bool-cases (Queue.is_empty ops c.queue)) [
    | inl e ↦ record { stopped = ground arith; scheduled = inl (ground arith) }
    | inr e ↦ record { stopped = ground arith; scheduled = inr (ground arith) }
  ]

  -- A chain whose queue is in order, above any bound, is settled after `checkQueue`: the message at
  -- the head of the queue, if any, does not follow the last one, so no further message could be
  -- handed over, and if the queue is not empty then a gap is pending.
  pub check_queue-IsSettled :
      (b : Option MessageRef) (c : Chain H)
      → IsSorted ops heap b c.queue
      → IsSettled (check_queue ops handlers c).1
  unfolding check_queue
  check_queue-IsSettled b c s =
      let r = process ops handlers (Queue.size ops c.queue) 0 c in
      settle-IsSettled r.2 r.1 (process-stops (Queue.size ops c.queue) 0 b c s (omega arith))
