-- ===== src/Protocol/OrderedChain.antt =====
-- packages/protocol/src/utils/OrderedMsgChain.ts: the messages of one publisher's chain, put in
-- order. The heap is that of the package `heap`, a parameter. The calls of `inOrderHandler` and
-- `gapHandler` and the emitted events are the outputs of a step, in order; whether a handler throws
-- is a parameter, and handlers do not call the chain back. `setTimeout` and `setInterval` are two
-- flags, and what they run are steps of their own. Debug output is left out.
pub mod MessageSet
pub mod Heap
pub mod Queue
pub mod Sorted
pub mod Order
pub mod Steps
pub mod Settled
pub mod Tests
use network_monorepo.Prelude.{
  ℕ, zero, suc, ◌+◌, Bool, true, false, not, ◌||◌, ◌&&◌, Option, none, some, List, [], ◌∷◌, ◌++◌,
  ltb, if◌then◌else◌,
}
use network_monorepo.Protocol.MessageRef.{MessageRef, is_before, is_at_most, is_at}
use MessageSet.{Message}
use Heap.{HeapOps}
use Queue.{MsgChainQueue}

pub data Output : Type 0 where
  -- a call of `inOrderHandler`
  delivered : Message → Output
  -- the event `skip`
  skipped : Message → Output
  -- the event `drain`
  drained : ℕ → Output
  -- a call of `gapHandler`
  gap_requested : MessageRef → Option MessageRef → Output
  -- the event `error`: what a handler threw, or a GapFillFailedError
  handler_failed : Output
  gap_fill_failed : MessageRef → Option MessageRef → Output

pub record Chain (H : Type 0) : Type 0 where
  pub queue : MsgChainQueue H
  pub last_ordered_msg_ref : Option MessageRef
  pub has_pending_gap : Bool
  pub gap_request_count : ℕ
  pub max_gap_requests : ℕ
  pub marked_explicitly : List Message
  -- the timers `firstGap` and `nextGaps`
  pub first_gap : Bool
  pub next_gaps : Bool

-- Whether the handlers throw.
pub record Handlers : Type 0 where
  pub in_order_throws : Message → Bool
  pub gap_throws : MessageRef → Option MessageRef → Bool

module _ {H : Type 0} (ops : HeapOps H) (handlers : Handlers) where
  unfoldable pub init : ℕ → Chain H
  init max_gap_requests = record {
    queue = Queue.empty ops;
    last_ordered_msg_ref = none;
    has_pending_gap = false;
    gap_request_count = 0;
    max_gap_requests = max_gap_requests;
    marked_explicitly = [];
    first_gap = false;
    next_gaps = false;
  }

  unfoldable pub is_gap_handling_enabled : Chain H → Bool
  is_gap_handling_enabled c = ltb 0 c.max_gap_requests

  -- `msgRef.compareTo(this.lastOrderedMsgRef) <= 0`, where there is a last reference
  unfoldable pub is_past : MessageRef → Option MessageRef → Bool
  is_past r none = false
  is_past r (some last) = is_at_most r last

  unfoldable pub is_stale_message : Chain H → Message → Bool
  is_stale_message c m = Queue.has ops c.queue m || is_past m.ref c.last_ordered_msg_ref

  unfoldable pub clear_gap : Chain H → Chain H
  clear_gap c = record c { has_pending_gap = false; first_gap = false; next_gaps = false }

  -- `hasNextMessageInChain`, for the next message of the queue.
  unfoldable pub is_next : Message → Option MessageRef → Bool
  is_next m none = true
  is_next m (some last) = elim m.prev_msg_ref [
    | some prev ↦ is_at prev last
    | none ↦ is_before last m.ref
  ]

  unfoldable pub has_next_message_in_chain : Chain H → Bool
  has_next_message_in_chain c = elim (Queue.peek ops c.queue) [
    | none ↦ false
    | some m ↦ is_next m c.last_ordered_msg_ref
  ]

  -- A message that comes out of the queue is skipped, if it is marked and gaps are handled, and
  -- goes to the handler otherwise.
  unfoldable pub hand_over : Message → Chain H → List Output × Chain H
  hand_over m c =
      let handled =
        delivered m ∷ (if handlers.in_order_throws m then handler_failed ∷ [] else []) in
      if MessageSet.has m c.marked_explicitly
      then (
        if is_gap_handling_enabled c then skipped m ∷ [] else handled,
        record c { marked_explicitly = MessageSet.delete m c.marked_explicitly },
      )
      else (handled, c)

  -- `pop`, by what the queue gives.
  abbrev take_popped : Chain H → Option Message × MsgChainQueue H → List Output × Chain H
  take_popped c (none, q) = ([], record c { queue = q })
  take_popped c (some m, q) =
      hand_over m (record c { queue = q; last_ordered_msg_ref = some m.ref })

  unfoldable pub pop : Chain H → List Output × Chain H
  pop c = take_popped c (Queue.pop ops c.queue)

  unfoldable pub schedule_gap : Chain H → Chain H
  schedule_gap c =
      if c.has_pending_gap
      then c
      else record c { gap_request_count = 0; has_pending_gap = true; first_gap = true }

  abbrev pub emit : List Output → List Output × Chain H → List Output × Chain H
  emit outs (later, c) = (outs ++ later, c)

  -- The `while` of `checkQueue`, with the number of messages it processed. Each round takes one
  -- message from the queue, so the fuel is the size of the queue.
  unfoldable pub process : ℕ → ℕ → Chain H → List Output × Chain H × ℕ
  process zero count c = ([], c, count)
  process (suc fuel) count c =
      let (outs, after) = pop c in
      let (later, final, total) = process fuel (suc count) after in
      if has_next_message_in_chain c then (outs ++ later, final, total) else ([], c, count)

  -- `checkQueue` after its loop.
  unfoldable pub settle : ℕ → Chain H → List Output × Chain H
  settle processed c =
      if not (Queue.is_empty ops c.queue)
      then ([], schedule_gap c)
      else if ltb 1 processed
      then (drained processed ∷ [], clear_gap c)
      else ([], c)

  unfoldable pub check_queue : Chain H → List Output × Chain H
  check_queue c =
      let (outs, after, processed) = process (Queue.size ops c.queue) 0 c in
      emit outs (settle processed after)

  -- The result and the chain after `markMessage`.
  unfoldable pub mark_message : Message → Chain H → Bool × Chain H
  mark_message m c =
      if is_stale_message c m
      then (false, c)
      else (true, record c { marked_explicitly = MessageSet.add m c.marked_explicitly })

  unfoldable pub add : Message → Chain H → List Output × Chain H
  add m c =
      let ready = if is_gap_handling_enabled c then c else (mark_message m c).1 in
      if is_stale_message c m
      then ([], c)
      else check_queue (record ready { queue = Queue.push ops m ready.queue })

  unfoldable pub mark_message_explicitly : Message → Chain H → List Output × Chain H
  mark_message_explicitly m c =
      let (marked, after) = mark_message m c in if marked then add m after else ([], after)

  unfoldable pub disable : Chain H → List Output × Chain H
  disable c = check_queue (clear_gap (record c { max_gap_requests = 0 }))

  -- `new MessageRef(last.timestamp, last.sequenceNumber + 1)`
  abbrev pub next_ref : MessageRef → MessageRef
  next_ref last = record last { sequence_number = last.sequence_number + 1 }

  -- `requestGapFill` with the next message and the last reference.
  unfoldable pub request_gap : Message → MessageRef → Chain H → List Output × Chain H
  request_gap m last c =
      let from = next_ref last in
      if ltb c.gap_request_count c.max_gap_requests
      then (
        gap_requested from m.prev_msg_ref
            ∷ (if handlers.gap_throws from m.prev_msg_ref then handler_failed ∷ [] else []),
        record c { gap_request_count = c.gap_request_count + 1 },
      )
      else emit (if is_gap_handling_enabled c then gap_fill_failed from m.prev_msg_ref ∷ [] else [])
          (check_queue (clear_gap (record c { last_ordered_msg_ref = m.prev_msg_ref })))

  unfoldable pub request_gap_fill : Chain H → List Output × Chain H
  request_gap_fill c = if not c.has_pending_gap then ([], c) else elim (Queue.peek ops c.queue) [
    | none ↦ ([], c)
    | some m ↦ elim c.last_ordered_msg_ref [ none ↦ ([], c) | some last ↦ request_gap m last c ]
  ]

  -- What the timeout `firstGap` runs.
  unfoldable pub first_gap_fired : Chain H → List Output × Chain H
  first_gap_fired c =
      let (outs, after) = request_gap_fill (record c { first_gap = false }) in
      (outs, if after.has_pending_gap then record after { next_gaps = true } else after)

  -- What the interval `nextGaps` runs.
  unfoldable pub next_gap_fired : Chain H → List Output × Chain H
  next_gap_fired c =
      if c.has_pending_gap then request_gap_fill c else ([], record c { next_gaps = false })
