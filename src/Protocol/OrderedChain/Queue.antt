-- ===== src/Protocol/OrderedChain/Queue.antt =====
-- `MsgChainQueue` of packages/protocol/src/utils/OrderedMsgChain.ts.
use network_monorepo.Prelude.{ℕ, Bool, Option, none, some, List, [], if◌then◌else◌, ◌==◌}
use network_monorepo.Protocol.OrderedChain.MessageSet
use network_monorepo.Protocol.OrderedChain.MessageSet.{Message}
use network_monorepo.Protocol.OrderedChain.Heap.{HeapOps}

pub record MsgChainQueue (H : Type 0) : Type 0 where
  pub refs : H
  pub pending_msgs : List Message

module _ {H : Type 0} (ops : HeapOps H) where
  unfoldable pub empty : MsgChainQueue H
  empty = record { refs = ops.empty; pending_msgs = [] }

  unfoldable pub is_empty : MsgChainQueue H → Bool
  is_empty q = ops.size q.refs == 0

  unfoldable pub size : MsgChainQueue H → ℕ
  size q = ops.size q.refs

  unfoldable pub peek : MsgChainQueue H → Option Message
  peek q =
      if is_empty q
      then none
      else elim (ops.peek q.refs) [ none ↦ none | some r ↦ MessageSet.get r q.pending_msgs ]

  unfoldable pub has : MsgChainQueue H → Message → Bool
  has q m = MessageSet.has m q.pending_msgs

  unfoldable pub push : Message → MsgChainQueue H → MsgChainQueue H
  push m q =
      if has q m
      then q
      else record { refs = ops.push m.ref q.refs; pending_msgs = MessageSet.add m q.pending_msgs }

  unfoldable pub pop : MsgChainQueue H → Option Message × MsgChainQueue H
  pop q = elim (peek q) [
    | none ↦ (none, q)
    | some m ↦ (
      some m,
      record { refs = ops.pop q.refs; pending_msgs = MessageSet.delete m q.pending_msgs },
    )
  ]
