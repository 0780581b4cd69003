-- ===== src/Protocol/OrderedChain/Tests.antt =====
-- Runs of a chain over a heap that is a sorted list.
use network_monorepo.Prelude.{ℕ, ◌≡◌, refl, false, none, some, List, [], ◌∷◌, length}
use network_monorepo.Protocol.MessageRef.{MessageRef, compare_to}
use network_monorepo.Protocol.OrderedChain.MessageSet
use network_monorepo.Protocol.OrderedChain.MessageSet.{Message}
use network_monorepo.Protocol.OrderedChain.Heap.{HeapOps, IsHeap, insert_sorted, first, rest}
use network_monorepo.Protocol.OrderedChain.Queue
use network_monorepo.Protocol.OrderedChain.Queue.{MsgChainQueue}
use network_monorepo.Protocol.OrderedChain.{
  delivered, gap_requested, gap_fill_failed, Chain, Handlers, init, check_queue, clear_gap, add,
  disable, process, settle, schedule_gap, pop, hand_over, has_next_message_in_chain, is_next,
  is_stale_message, is_past, is_gap_handling_enabled, mark_message, mark_message_explicitly,
  request_gap, request_gap_fill, first_gap_fired, next_gap_fired,
}
use network_monorepo.Protocol.OrderedChain.Order.{processed, Ascends}
use network_monorepo.Protocol.OrderedChain.Sorted.{IsSorted}
use network_monorepo.Protocol.OrderedChain.Steps.{
  Event, adds, first_gap_fires, next_gap_fires, step, run, run-Ascends,
}
use network_monorepo.Protocol.OrderedChain.Settled.{IsSettled, check_queue-IsSettled}

abbrev pub list_heap : HeapOps (List MessageRef)
list_heap = record { empty = []; push = insert_sorted; peek = first; pop = rest; size = length }

pub list_heap-IsHeap : IsHeap list_heap
list_heap-IsHeap = record {
  items = λ h. h;
  items-empty = refl;
  items-push = λ r h. refl;
  peek-first = λ h. refl;
  items-pop = λ h. refl;
  size-length = λ h. refl;
}

abbrev pub handlers : Handlers
handlers = record { in_order_throws = λ m. false; gap_throws = λ from to. false }

abbrev pub ref : ℕ → MessageRef
ref t = record { timestamp = t; sequence_number = 0 }

abbrev pub message : ℕ → ℕ → Message
message t p = record { ref = ref t; prev_msg_ref = some (ref p); content = [] }

-- The message at 3 never comes: after one request the chain goes on with 4.
abbrev with_gap : List Event
with_gap =
    adds (message 1 0)
    ∷ adds (message 4 3)
    ∷ adds (message 2 1)
    ∷ adds (message 1 0)
    ∷ first_gap_fires
    ∷ next_gap_fires
    ∷ []

program : Unit {0}
unfolding init check_queue clear_gap add disable process settle schedule_gap pop hand_over
    has_next_message_in_chain is_next is_stale_message is_past is_gap_handling_enabled mark_message
    mark_message_explicitly request_gap request_gap_fill first_gap_fired next_gap_fired processed
    step run compare_to insert_sorted MessageSet.get MessageSet.has MessageSet.add MessageSet.delete
    Queue.empty Queue.is_empty Queue.size Queue.peek Queue.has Queue.push Queue.pop
program = tt

with_gap-outputs :
    (run list_heap handlers with_gap (init list_heap handlers 1)).0
    ≡ delivered (message 1 0)
      ∷ delivered (message 2 1)
      ∷ gap_requested (record { timestamp = 2; sequence_number = 1 }) (some (ref 3))
      ∷ gap_fill_failed (record { timestamp = 2; sequence_number = 1 }) (some (ref 3))
      ∷ delivered (message 4 3)
      ∷ []
unfolding program
with_gap-outputs = refl

run-Ascends_example : Ascends none (ref 1 ∷ ref 2 ∷ ref 4 ∷ []) (some (ref 4))
unfolding program
run-Ascends_example = run-Ascends list_heap list_heap-IsHeap handlers 1 with_gap

abbrev waiting : Chain (List MessageRef)
waiting = record {
  queue = record { refs = ref 4 ∷ []; pending_msgs = message 4 3 ∷ [] };
  last_ordered_msg_ref = some (ref 2);
  has_pending_gap = false;
  gap_request_count = 0;
  max_gap_requests = 1;
  marked_explicitly = [];
  first_gap = false;
  next_gaps = false;
}

waiting-IsSorted : IsSorted list_heap list_heap-IsHeap (some (ref 2)) waiting.queue
unfolding program list_heap-IsHeap
waiting-IsSorted = record { above = (refl, tt); held = ((message 4 3, refl), tt) }

check_queue-IsSettled_example :
    IsSettled list_heap list_heap-IsHeap handlers (check_queue list_heap handlers waiting).1
check_queue-IsSettled_example =
    check_queue-IsSettled list_heap list_heap-IsHeap handlers (some (ref 2)) waiting
      waiting-IsSorted
