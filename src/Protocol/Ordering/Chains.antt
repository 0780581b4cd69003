-- ===== src/Protocol/Ordering/Chains.antt =====
-- What the operations of `OrderingUtil` (OrderingUtil.ts) do to each chain.
use network_monorepo.Prelude.{
  ℕ, ◌≡◌, refl, subst, Bool, true, false, none, some, List, [], ◌∷◌, arith, if◌then◌else◌, Text,
  same, Dict, lookup, insert, lookup-insert, Option-cases, Bool-cases, ◌⊎◌, inl, inr,
}
use mathlib.Core.Option
use network_monorepo.Protocol.OrderedChain.MessageSet.{Message}
use network_monorepo.Protocol.OrderedChain.Heap.{HeapOps, IsHeap}
use network_monorepo.Protocol.OrderedChain.{
  Chain, Handlers, Output, init, disable, add, mark_message_explicitly,
}
use network_monorepo.Protocol.OrderedChain.Order.{processed, Ascends, IsOrdered, Goes}
use network_monorepo.Protocol.OrderedChain.Steps.{
  add-Goes, mark_message_explicitly-Goes, disable-Goes, init-IsOrdered,
}
use network_monorepo.Protocol.Ordering.{
  OrderingUtil, chain_key, new_util, get_chain, put_chain, add_message, mark_in_chain, disable_each,
  disable_all,
}

module _ {H : Type 0} (ops : HeapOps H) (heap : IsHeap ops) (handlers : Handlers) where
  -- The chain of every key is ordered, one that is still to be made included.
  abbrev pub AllOrdered : OrderingUtil H → Type 0
  AllOrdered u = (key : Text) → IsOrdered ops heap handlers (get_chain ops handlers key u)

  get_chain-put :
      (j key : Text) (c : Chain H) (u : OrderingUtil H)
      → get_chain ops handlers j (record u { ordered_chains = insert key c u.ordered_chains })
        ≡ (if same key j then c else get_chain ops handlers j u)
  unfolding get_chain
  get_chain-put j key c u = ground (arith, lookup-insert j key c u.ordered_chains)

  IsOrdered-if :
      (b : Bool) (c c' : Chain H)
      → IsOrdered ops heap handlers c
      → IsOrdered ops heap handlers c'
      → IsOrdered ops heap handlers (if b then c else c')
  IsOrdered-if true c c' o o' = o
  IsOrdered-if false c c' o o' = o'

  put_chain-AllOrdered :
      (key : Text) (u : OrderingUtil H) (r : List Output × Chain H)
      → AllOrdered u
      → IsOrdered ops heap handlers r.1
      → AllOrdered (put_chain ops handlers key u r).1
  put_chain-AllOrdered key u r o o' j =
      rw (get_chain-put j key r.1 u)
        (IsOrdered-if (same key j) r.1 (get_chain ops handlers j u) o' (o j))

  -- What a step of the chain of one key does to all chains.
  pub record StepsAt (j key : Text) (u : OrderingUtil H) (r : List Output × OrderingUtil H)
      : Type 0 where
    pub ascending :
        Ascends
          (get_chain ops handlers key u).last_ordered_msg_ref
          (processed r.0)
          (get_chain ops handlers key r.1).last_ordered_msg_ref
    pub others : same key j ≡ true ⊎ (get_chain ops handlers j r.1 ≡ get_chain ops handlers j u)
    pub ordered : AllOrdered r.1

  others-put :
      (j key : Text) (c : Chain H) (u : OrderingUtil H)
      → (same key j ≡ true)
        ⊎ (get_chain ops handlers j (record u { ordered_chains = insert key c u.ordered_chains })
            ≡ get_chain ops handlers j u)
  others-put j key c u = elim (Bool-cases (same key j)) [
    | inl e ↦ inl e
    | inr e ↦ inr (ground (arith, get_chain-put j key c u))
  ]

  get_chain-put_same :
      (key : Text) (c : Chain H) (u : OrderingUtil H)
      → get_chain ops handlers key (record u { ordered_chains = insert key c u.ordered_chains }) ≡ c
  get_chain-put_same key c u = ground (arith, get_chain-put key key c u)

  put_chain-StepsAt :
      (j key : Text) (u : OrderingUtil H) (r : List Output × Chain H)
      → AllOrdered u
      → Goes ops heap handlers (get_chain ops handlers key u).last_ordered_msg_ref r
      → StepsAt j key u (put_chain ops handlers key u r)
  put_chain-StepsAt j key u r o g = record {
    ascending = rw (get_chain-put_same key r.1 u) (g.ascending);
    others = others-put j key r.1 u;
    ordered = put_chain-AllOrdered key u r o g.ordered;
  }

  -- If all chains are ordered, then adding a message hands over ascending messages from above the
  -- last reference of the chain of its publisher and message chain up to its new last reference, no
  -- other chain changes, and all chains are ordered afterwards.
  pub add_message-StepsAt :
      (j publisher_id msg_chain_id : Text) (m : Message) (u : OrderingUtil H)
      → AllOrdered u
      → StepsAt j
          (chain_key publisher_id msg_chain_id)
          u
          (add_message ops handlers publisher_id msg_chain_id m u)
  unfolding add_message
  add_message-StepsAt j publisher_id msg_chain_id m u o =
      let key = chain_key publisher_id msg_chain_id in
      put_chain-StepsAt j key u (add ops handlers m (get_chain ops handlers key u)) o
        (add-Goes ops heap handlers m (get_chain ops handlers key u) (o key))

  pub mark_in_chain-StepsAt :
      (j publisher_id msg_chain_id : Text) (m : Message) (u : OrderingUtil H)
      → AllOrdered u
      → StepsAt j
          (chain_key publisher_id msg_chain_id)
          u
          (mark_in_chain ops handlers publisher_id msg_chain_id m u)
  unfolding mark_in_chain
  mark_in_chain-StepsAt j publisher_id msg_chain_id m u o =
      let key = chain_key publisher_id msg_chain_id in
      put_chain-StepsAt j key u
        (mark_message_explicitly ops handlers m (get_chain ops handlers key u)) o
        (mark_message_explicitly-Goes ops heap handlers m (get_chain ops handlers key u) (o key))

  lookup-disable_each :
      (key : Text) (chains : Dict (Chain H))
      → lookup key (disable_each ops handlers chains).1
        ≡ Option.map (λ c. (disable ops handlers c).1) (lookup key chains)
  unfolding lookup disable_each
  lookup-disable_each key [] = refl
  lookup-disable_each key ((k, c) ∷ chains) = ground (arith, lookup-disable_each key chains)

  get_chain-disable_all :
      (key : Text) (u : OrderingUtil H)
      → get_chain ops handlers key (disable_all ops handlers u).1
        ≡ (elim (lookup key u.ordered_chains) [
          | none ↦ init ops handlers 0
          | some c ↦ (disable ops handlers c).1
        ])
  unfolding disable_all get_chain
  get_chain-disable_all key u = ground (arith, lookup-disable_each key u.ordered_chains)

  get_chain-some :
      (key : Text) (c : Chain H) (u : OrderingUtil H)
      → lookup key u.ordered_chains ≡ some c
      → get_chain ops handlers key u ≡ c
  unfolding get_chain
  get_chain-some key c u e = ground arith

  -- Disabling keeps all chains ordered.
  pub disable_all-AllOrdered :
      (u : OrderingUtil H) → AllOrdered u → AllOrdered (disable_all ops handlers u).1
  disable_all-AllOrdered u o key = elim (Option-cases (lookup key u.ordered_chains)) [
    | inl e ↦ rw (get_chain-disable_all key u, e) (init-IsOrdered ops heap handlers 0)
    | inr (c, e) ↦
        let o' : IsOrdered ops heap handlers c =
          subst (IsOrdered ops heap handlers) (get_chain-some key c u e) (o key) in
        rw (get_chain-disable_all key u, e) (disable-Goes ops heap handlers c o').ordered
  ]

  pub new_util-AllOrdered : (n : ℕ) → AllOrdered (new_util ops handlers n)
  unfolding new_util get_chain lookup
  new_util-AllOrdered n key = init-IsOrdered ops heap handlers n
