-- ===== src/Network/MessageBuffer.antt =====
-- `MessageBuffer` of packages/network/src/helpers/MessageBuffer.ts. A timer is a number; `pending`
-- lists those that `setTimeout` has armed and that have neither fired nor been cleared, oldest
-- first, each with the id that its callback closes over. All have the same delay, so the oldest
-- fires first. `none` as the result of `put` is the TypeError of a `push` on `undefined`.
pub mod Queues
pub mod Timers
mod Tests
use network_monorepo.Prelude.{
  ℕ, suc, ◌+◌, Bool, true, false, not, Option, none, some, List, [], ◌∷◌, ◌++◌, leb, length, filter,
  if◌then◌else◌, ◌==◌, Text, same, Dict, lookup, insert, erase, values, keys,
}

pub record MessageBuffer (M : Type 0) : Type 0 where
  pub buffer : Dict (List M)
  pub timeout_refs : Dict (List ℕ)
  pub max_size : ℕ
  pub pending : List (ℕ × Text)
  pub next_timer : ℕ

abbrev pub tail {ℓ} : {A : Type ℓ} → List A → List A
tail [] = []
tail (x ∷ xs) = xs

abbrev pub or_empty {ℓ} : {A : Type ℓ} → Option (List A) → List A
or_empty none = []
or_empty (some xs) = xs

-- `clearTimeout` of the first of the timers, if there is one.
unfoldable pub clear_first : List ℕ → List (ℕ × Text) → List (ℕ × Text)
clear_first [] pending = pending
clear_first (t ∷ ts) pending = filter (λ p. not (p.0 == t)) pending

unfoldable pub clear_all : List ℕ → List (ℕ × Text) → List (ℕ × Text)
clear_all [] pending = pending
clear_all (t ∷ ts) pending = clear_all ts (filter (λ p. not (p.0 == t)) pending)

module _ {M : Type 0} where
  unfoldable pub init : ℕ → MessageBuffer M
  init max_size = record {
    buffer = [];
    timeout_refs = [];
    max_size = max_size;
    pending = [];
    next_timer = 0;
  }

  -- The messages of an id, oldest first, and their timers.
  unfoldable pub messages : Text → MessageBuffer M → List M
  messages id b = or_empty (lookup id b.buffer)

  unfoldable pub timers : Text → MessageBuffer M → List ℕ
  timers id b = or_empty (lookup id b.timeout_refs)

  -- What is left of the buffer once the first message of `id` is taken; an empty queue goes.
  unfoldable pub store_rest : Text → List M → Dict (List M) → Dict (List M)
  store_rest id [] buffer = erase id buffer
  store_rest id (m ∷ ms) buffer = insert id (m ∷ ms) buffer

  unfoldable pub head : List M → Option M
  head [] = none
  head (m ∷ ms) = some m

  unfoldable pub pop : Text → MessageBuffer M → Option M × MessageBuffer M
  pop id b = elim (lookup id b.buffer) [
    | none ↦ (none, b)
    | some ms ↦ (
      head ms,
      record b {
        buffer = store_rest id (tail ms) b.buffer;
        timeout_refs = insert id (tail (timers id b)) b.timeout_refs;
        pending = clear_first (timers id b) b.pending;
      },
    )
  ]

  unfoldable pub pop_all : Text → MessageBuffer M → List M × MessageBuffer M
  pop_all id b = elim (lookup id b.buffer) [
    | none ↦ ([], b)
    | some ms ↦ (
      ms,
      record b {
        buffer = erase id b.buffer;
        timeout_refs = erase id b.timeout_refs;
        pending = clear_all (timers id b) b.pending;
      },
    )
  ]

  -- `if (!this.buffer[id])`: a queue for a new id.
  unfoldable pub open_queue : Text → MessageBuffer M → MessageBuffer M
  open_queue id b = elim (lookup id b.buffer) [
    | none ↦ record b { buffer = insert id [] b.buffer; timeout_refs = insert id [] b.timeout_refs }
    | some ms ↦ b
  ]

  -- `if (this.buffer[id].length >= this.maxSize)`: the oldest message goes.
  unfoldable pub evict : Text → MessageBuffer M → MessageBuffer M
  evict id b = if leb b.max_size (length (messages id b)) then (pop id b).1 else b

  -- The message at the end of its queue, with a new timer.
  unfoldable pub appended : Text → M → List M → MessageBuffer M → MessageBuffer M
  appended id m ms b = record b {
    buffer = insert id (ms ++ m ∷ []) b.buffer;
    timeout_refs = insert id (timers id b ++ b.next_timer ∷ []) b.timeout_refs;
    pending = b.pending ++ (b.next_timer, id) ∷ [];
    next_timer = suc b.next_timer;
  }

  unfoldable pub append : Text → M → MessageBuffer M → Option (MessageBuffer M)
  append id m b = elim (lookup id b.buffer) [ none ↦ none | some ms ↦ some (appended id m ms b) ]

  unfoldable pub put : Text → M → MessageBuffer M → Option (MessageBuffer M)
  put id m b = append id m (evict id (open_queue id b))

  -- The callback of the oldest timer, with the id that `onTimeout` is told.
  unfoldable pub fire : MessageBuffer M → Option Text × MessageBuffer M
  fire b = elim b.pending [
    | [] ↦ (none, b)
    | p ∷ pending ↦ (some p.1, (pop p.1 (record b { pending = pending })).1)
  ]

  unfoldable pub clear_ids : List Text → MessageBuffer M → MessageBuffer M
  clear_ids [] b = b
  clear_ids (id ∷ ids) b = clear_ids ids (pop_all id b).1

  unfoldable pub clear : MessageBuffer M → MessageBuffer M
  clear b = clear_ids (keys b.buffer) b

  unfoldable pub total : List (List M) → ℕ
  total [] = 0
  total (ms ∷ mss) = length ms + total mss

  unfoldable pub size : MessageBuffer M → ℕ
  size b = total (values b.buffer)
