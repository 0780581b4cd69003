-- ===== src/Protocol/OrderedChain/Heap.antt =====
-- The package `heap`, of which `MsgChainQueue` is a client: a heap over `MessageRef.compareTo`.
use network_monorepo.Prelude.{ℕ, ◌≡◌, Option, none, some, List, [], ◌∷◌, if◌then◌else◌, length}
use network_monorepo.Protocol.MessageRef.{MessageRef, is_before}

pub record HeapOps (H : Type 0) : Type 0 where
  pub empty : H
  pub push : MessageRef → H → H
  pub peek : H → Option MessageRef
  pub pop : H → H
  pub size : H → ℕ

-- The least element first, as `peek` and `pop` find it.
unfoldable pub insert_sorted : MessageRef → List MessageRef → List MessageRef
insert_sorted r [] = r ∷ []
insert_sorted r (q ∷ qs) = if is_before r q then r ∷ q ∷ qs else q ∷ insert_sorted r qs

abbrev pub first : List MessageRef → Option MessageRef
first [] = none
first (r ∷ rs) = some r

abbrev pub rest : List MessageRef → List MessageRef
rest [] = []
rest (r ∷ rs) = rs

-- A heap behaves as its elements in order, where no element is pushed twice.
pub record IsHeap {H : Type 0} (ops : HeapOps H) : Type 0 where
  pub items : H → List MessageRef
  pub items-empty : items ops.empty ≡ []
  pub items-push : (r : MessageRef) (h : H) → items (ops.push r h) ≡ insert_sorted r (items h)
  pub peek-first : (h : H) → ops.peek h ≡ first (items h)
  pub items-pop : (h : H) → items (ops.pop h) ≡ rest (items h)
  pub size-length : (h : H) → ops.size h ≡ length (items h)
