-- ===== src/Protocol/OrderedChain/Sorted.antt =====
-- The order of the queue of a chain (`MsgChainQueue` of OrderedMsgChain.ts), above a bound.
use network_monorepo.Prelude.{
  ℕ, suc, ◌≡◌, refl, ◌∙◌, ap, true, false, inl, inr, Bool-cases, Option, none, some, List, [], ◌∷◌,
  arith, length, All,
}
use network_monorepo.Protocol.MessageRef.{
  MessageRef, is_before, is_at, is_before_trans, eq-of-is_at, is_before-of_ne, not-is_at,
  is_at_symm,
}
use network_monorepo.Protocol.OrderedChain.MessageSet
use network_monorepo.Protocol.OrderedChain.MessageSet.{
  Message, get-ref, get-add_old, get-add_new, get-delete_other,
}
use network_monorepo.Protocol.OrderedChain.Heap.{HeapOps, IsHeap, insert_sorted, rest}
use network_monorepo.Protocol.OrderedChain.Queue
use network_monorepo.Protocol.OrderedChain.Queue.{MsgChainQueue}

abbrev pub Over : Option MessageRef → MessageRef → Type 0
Over none r = Unit {0}
Over (some b) r = is_before b r ≡ true

-- Strictly ascending, from above the bound.
abbrev pub Above : Option MessageRef → List MessageRef → Type 0
Above b [] = Unit {0}
Above b (r ∷ rs) = Over b r × Above (some r) rs

-- Each reference has its message.
abbrev pub Held : List Message → List MessageRef → Type 0
Held ms [] = Unit {0}
Held ms (r ∷ rs) = ((m : Message) × (MessageSet.get r ms ≡ some m)) × Held ms rs

Over-insert :
    (b : Option MessageRef) (r : MessageRef) (rs : List MessageRef)
    → Over b r
    → All (λ q. is_at q r ≡ false) rs
    → Above b rs
    → Above b (insert_sorted r rs)
unfolding insert_sorted
Over-insert b r [] o d a = (o, tt)
Over-insert b r (q ∷ rs) o d a = elim (Bool-cases (is_before r q)) [
  | inl first_one ↦ rw first_one (o, (first_one, a.1))
  | inr later ↦
      rw later
        (a.0, Over-insert (some q) r rs (is_before-of_ne r q later (is_at_symm q r d.0)) d.1 a.1)
]

Held-insert :
    (ms : List Message) (r : MessageRef) (m : Message) (rs : List MessageRef)
    → MessageSet.get r ms ≡ some m
    → Held ms rs
    → Held ms (insert_sorted r rs)
unfolding insert_sorted
Held-insert ms r m [] e h = ((m, e), tt)
Held-insert ms r m (q ∷ rs) e h = elim (Bool-cases (is_before r q)) [
  | inl first_one ↦ rw first_one ((m, e), h)
  | inr later ↦ rw later (h.0, Held-insert ms r m rs e h.1)
]

Held-add :
    (m : Message) (ms : List Message) (rs : List MessageRef)
    → Held ms rs
    → Held (MessageSet.add m ms) rs
Held-add m ms [] h = tt
Held-add m ms (r ∷ rs) h = ((h.0.0, get-add_old r m h.0.0 ms h.0.1), Held-add m ms rs h.1)

-- A message that the set lacks has a reference of its own.
apart_of_new :
    (m : Message) (ms : List Message) (rs : List MessageRef)
    → MessageSet.has m ms ≡ false
    → Held ms rs
    → All (λ q. is_at q m.ref ≡ false) rs
unfolding MessageSet.has
apart_of_new m ms [] n h = tt
apart_of_new m ms (q ∷ rs) n h =
    (ground (arith, eq-of-is_at q m.ref, h.0.1), apart_of_new m ms rs n h.1)

Above-weaken :
    (b r : MessageRef) (rs : List MessageRef) → Above (some b) (r ∷ rs) → Above (some b) rs
Above-weaken b r [] a = tt
Above-weaken b r (q ∷ rs) a = (is_before_trans b r q a.0 a.1.0, a.1.1)

Held-delete :
    (m : Message) (ms : List Message) (rs : List MessageRef)
    → Above (some m.ref) rs
    → Held ms rs
    → Held (MessageSet.delete m ms) rs
Held-delete m ms [] a h = tt
Held-delete m ms (r ∷ rs) a h = (
  (h.0.0, get-delete_other r m ms (not-is_at m.ref r a.0) ∙ h.0.1),
  Held-delete m ms rs (Above-weaken m.ref r rs a) h.1,
)

module _ {H : Type 0} (ops : HeapOps H) (heap : IsHeap ops) where
  pub record IsSorted (b : Option MessageRef) (q : MsgChainQueue H) : Type 0 where
    pub above : Above b (heap.items q.refs)
    pub held : Held q.pending_msgs (heap.items q.refs)

  pub push-IsSorted :
      (b : Option MessageRef) (m : Message) (q : MsgChainQueue H)
      → Over b m.ref
      → IsSorted b q
      → IsSorted b (Queue.push ops m q)
  unfolding Queue.push Queue.has
  push-IsSorted b m q o s = elim (Bool-cases (MessageSet.has m q.pending_msgs)) [
    | inl old ↦ rw old s
    | inr new ↦ rw new (record {
      above = rw (heap.items-push m.ref q.refs) (
          Over-insert b m.ref (heap.items q.refs) o
            (apart_of_new m q.pending_msgs (heap.items q.refs) new s.held) s.above);
      held = rw (heap.items-push m.ref q.refs) (
          Held-insert (MessageSet.add m q.pending_msgs) m.ref m (heap.items q.refs)
            (get-add_new m q.pending_msgs new)
            (Held-add m q.pending_msgs (heap.items q.refs) s.held));
    })
  ]

  -- The next message is the least of the queue, and taking it leaves the others.
  pub data Next (b : Option MessageRef) (q : MsgChainQueue H) : Type 0 where
    nothing :
        Queue.peek ops q ≡ none → Queue.pop ops q ≡ (none, q) → Queue.size ops q ≡ 0 → Next b q
    next :
        (m : Message) (q' : MsgChainQueue H) (n : ℕ)
        → Queue.peek ops q ≡ some m
        → Queue.pop ops q ≡ (some m, q')
        → Over b m.ref
        → IsSorted (some m.ref) q'
        → Queue.size ops q ≡ suc n
        → Queue.size ops q' ≡ n
        → Next b q

  by_items :
      (b : Option MessageRef) (q : MsgChainQueue H) (rs : List MessageRef)
      → heap.items q.refs ≡ rs
      → Above b rs
      → Held q.pending_msgs rs
      → Next b q
  unfolding Queue.pop Queue.peek Queue.size Queue.is_empty
  by_items b q [] e a h =
      nothing (ground (arith, heap.size-length q.refs)) (ground (arith, heap.size-length q.refs))
        (ground (arith, heap.size-length q.refs))
  by_items b q (r ∷ rs) e a ((m, found), h) =
      let ref_is : m.ref ≡ r = get-ref r m q.pending_msgs found in
      let popped : MsgChainQueue H = record {
        refs = ops.pop q.refs;
        pending_msgs = MessageSet.delete m q.pending_msgs;
      } in
      let left : heap.items (ops.pop q.refs) ≡ rs = heap.items-pop q.refs ∙ ap rest e in
      let a' : Above (some m.ref) rs = rw ref_is a.1 in
      next m popped (length rs) (ground (arith, heap.size-length q.refs, heap.peek-first q.refs))
        (ground (arith, heap.size-length q.refs, heap.peek-first q.refs)) (rw ref_is a.0)
        (record { above = rw left a'; held = rw left (Held-delete m q.pending_msgs rs a' h) })
        (ground (arith, heap.size-length q.refs))
        (ground (arith, heap.size-length (ops.pop q.refs)))

  pub Next-of_queue : (b : Option MessageRef) (q : MsgChainQueue H) → IsSorted b q → Next b q
  Next-of_queue b q s = by_items b q (heap.items q.refs) refl s.above s.held
