-- ===== src/Protocol/Ordering/Tests.antt =====
-- Chains over the heap of the tests of one chain.
use network_monorepo.Prelude.{List, codes}
use network_monorepo.Protocol.MessageRef.{MessageRef}
use network_monorepo.Protocol.OrderedChain.Tests.{list_heap, list_heap-IsHeap, handlers, message}
use network_monorepo.Protocol.Ordering.{OrderingUtil, chain_key, new_util, add_message}
use network_monorepo.Protocol.Ordering.Chains.{StepsAt, add_message-StepsAt, new_util-AllOrdered}

abbrev fresh_util : OrderingUtil (List MessageRef)
fresh_util = new_util list_heap handlers 1

add_message-StepsAt_example :
    StepsAt list_heap list_heap-IsHeap handlers
      (codes "pc")
      (chain_key (codes "p") (codes "d"))
      fresh_util
      (add_message list_heap handlers (codes "p") (codes "d") (message 1 0) fresh_util)
add_message-StepsAt_example =
    add_message-StepsAt list_heap list_heap-IsHeap handlers (codes "pc") (codes "p") (codes "d")
      (message 1 0) fresh_util (new_util-AllOrdered list_heap list_heap-IsHeap handlers 1)
