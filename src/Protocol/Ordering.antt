-- ===== src/Protocol/Ordering.antt =====
-- `OrderingUtil` of packages/protocol/src/utils/OrderingUtil.ts: one chain for each publisher and
-- message chain of a stream. The events of the chains are passed on, so the outputs of a step are
-- those of the chains it calls, in order.
pub mod Chains
mod Tests
use network_monorepo.Prelude.{
  ℕ, Bool, true, false, ◌&&◌, Option, none, some, List, [], ◌∷◌, ◌++◌, Text, Dict, lookup, insert,
}
use network_monorepo.Protocol.OrderedChain.MessageSet.{Message}
use network_monorepo.Protocol.OrderedChain.Heap.{HeapOps}
use network_monorepo.Protocol.OrderedChain.{Chain, Handlers, Output}
use network_monorepo.Protocol.OrderedChain
use network_monorepo.Protocol.OrderedChain.Queue

pub record OrderingUtil (H : Type 0) : Type 0 where
  pub max_gap_requests : ℕ
  pub ordered_chains : Dict (Chain H)

-- `publisherId + msgChainId`
abbrev pub chain_key : Text → Text → Text
chain_key publisher_id msg_chain_id = publisher_id ++ msg_chain_id

module _ {H : Type 0} (ops : HeapOps H) (handlers : Handlers) where
  unfoldable pub new_util : ℕ → OrderingUtil H
  new_util max_gap_requests = record { max_gap_requests = max_gap_requests; ordered_chains = [] }

  unfoldable pub get_chain : Text → OrderingUtil H → Chain H
  get_chain key u = elim (lookup key u.ordered_chains) [
    | none ↦ OrderedChain.init ops handlers u.max_gap_requests
    | some c ↦ c
  ]

  abbrev pub put_chain :
      Text → OrderingUtil H → List Output × Chain H → List Output × OrderingUtil H
  put_chain key u (outs, c) = (outs, record u { ordered_chains = insert key c u.ordered_chains })

  unfoldable pub add_message : Text → Text → Message → OrderingUtil H → List Output × OrderingUtil H
  add_message publisher_id msg_chain_id m u =
      let key = chain_key publisher_id msg_chain_id in
      put_chain key u (OrderedChain.add ops handlers m (get_chain key u))

  unfoldable pub mark_in_chain :
      Text → Text → Message → OrderingUtil H → List Output × OrderingUtil H
  mark_in_chain publisher_id msg_chain_id m u =
      let key = chain_key publisher_id msg_chain_id in
      put_chain key u (OrderedChain.mark_message_explicitly ops handlers m (get_chain key u))

  unfoldable pub are_empty : Dict (Chain H) → Bool
  are_empty [] = true
  are_empty ((key, c) ∷ chains) = Queue.is_empty ops c.queue && are_empty chains

  unfoldable pub clear_each : Dict (Chain H) → Dict (Chain H)
  clear_each [] = []
  clear_each ((key, c) ∷ chains) = (key, OrderedChain.clear_gap ops handlers c) ∷ clear_each chains

  unfoldable pub clear_gaps : OrderingUtil H → OrderingUtil H
  clear_gaps u = record u { ordered_chains = clear_each u.ordered_chains }

  unfoldable pub disable_each : Dict (Chain H) → List Output × Dict (Chain H)
  disable_each [] = ([], [])
  disable_each ((key, c) ∷ chains) =
      let (outs, after) = OrderedChain.disable ops handlers c in
      let (later, others) = disable_each chains in (outs ++ later, (key, after) ∷ others)

  unfoldable pub disable_all : OrderingUtil H → List Output × OrderingUtil H
  disable_all u =
      let (outs, chains) = disable_each u.ordered_chains in
      (outs, record { max_gap_requests = 0; ordered_chains = chains })
