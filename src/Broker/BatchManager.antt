-- ===== src/Broker/BatchManager.antt =====
-- `BatchManager` of packages/broker/src/plugins/storage/BatchManager.ts. The handlers of the events
-- `locked` and `pending` run within the step that emits them. An insertion is two steps, what is
-- sent to Cassandra and what its answer does; no other step of the manager clears a batch in
-- between but `stop`. Metrics and logging are left out.
pub mod Apart
pub mod Held
pub mod Bounded
mod Tests
use network_monorepo.Prelude.{
  ℕ, ◌+◌, Bool, true, false, ◌||◌, Option, none, some, List, [], ◌∷◌, ◌++◌, ltb, leb, length,
  if◌then◌else◌, Text, Dict, lookup, insert, erase, modify,
}
use network_monorepo.Broker.Batch.{
  Batch, Limits, new_batch, reached_max_retries, lock, schedule_insert, insert_timer_fired, done,
  clear, push, is_full,
}

pub record BatchManager (M : Type 0) : Type 0 where
  pub limits : Limits
  -- by the id of the bucket
  pub batches : Dict (Batch M)
  -- by the id of the batch
  pub pending_batches : Dict (Batch M)

module _ {M : Type 0} where
  unfoldable pub new_manager : Limits → BatchManager M
  new_manager limits = record { limits = limits; batches = []; pending_batches = [] }

  unfoldable pub move_full_batch : Text → Batch M → BatchManager M → BatchManager M
  move_full_batch bucket_id b mgr = record mgr {
    batches = erase bucket_id mgr.batches;
    pending_batches = insert b.id (schedule_insert b) mgr.pending_batches;
  }

  -- `batch.lock()`, with the handler of its event.
  unfoldable pub lock_batch : Text → Batch M → BatchManager M → BatchManager M
  lock_batch bucket_id b = move_full_batch bucket_id (lock b)

  -- `if (batch && batch.isFull()) batch.lock()`
  unfoldable pub lock_if_full : Text → BatchManager M → BatchManager M
  lock_if_full bucket_id mgr = elim (lookup bucket_id mgr.batches) [
    | none ↦ mgr
    | some b ↦ if is_full b then lock_batch bucket_id b mgr else mgr
  ]

  abbrev pub push_to : (M → ℕ) → M → Option ℕ → Text → BatchManager M → Batch M → BatchManager M
  push_to byte_length m done_cb bucket_id mgr b = record mgr {
    batches = insert bucket_id (push byte_length m done_cb b) mgr.batches;
  }

  -- The batch of the bucket, or a new one with the id `fresh`; `none` is its TypeError.
  unfoldable pub open_batch : Text → Text → BatchManager M → Option (Batch M)
  open_batch fresh bucket_id mgr = elim (lookup bucket_id mgr.batches) [
    | none ↦ new_batch fresh bucket_id mgr.limits
    | some b ↦ some b
  ]

  abbrev pub push_opened :
      (M → ℕ) → M → Option ℕ → Text → BatchManager M → Option (Batch M) → Option (BatchManager M)
  push_opened byte_length m done_cb bucket_id mgr none = none
  push_opened byte_length m done_cb bucket_id mgr (some b) =
      some (push_to byte_length m done_cb bucket_id mgr b)

  unfoldable pub store :
      (M → ℕ) → Text → Text → M → Option ℕ → BatchManager M → Option (BatchManager M)
  store byte_length fresh bucket_id m done_cb mgr =
      let ready = lock_if_full bucket_id mgr in
      push_opened byte_length m done_cb bucket_id ready (open_batch fresh bucket_id ready)

  -- The timer of an open batch fires.
  unfoldable pub close_timer_fired : Text → BatchManager M → BatchManager M
  close_timer_fired bucket_id mgr = elim (lookup bucket_id mgr.batches) [
    | none ↦ mgr
    | some b ↦ lock_batch bucket_id b mgr
  ]

  -- The timer of a pending batch fires: the messages that `_insert` sends. For a batch that is gone
  -- nothing happens here, where the code throws a TypeError.
  unfoldable pub insert_begins : Text → BatchManager M → List M × BatchManager M
  insert_begins batch_id mgr = elim (lookup batch_id mgr.pending_batches) [
    | none ↦ ([], mgr)
    | some b ↦ (
      b.stream_messages,
      record mgr { pending_batches = insert batch_id (insert_timer_fired b) mgr.pending_batches },
    )
  ]

  -- The insertion succeeds: the callbacks that are called.
  unfoldable pub insert_succeeds : Text → BatchManager M → List ℕ × BatchManager M
  insert_succeeds batch_id mgr = elim (lookup batch_id mgr.pending_batches) [
    | none ↦ ([], mgr)
    | some b ↦ ((done b).0, record mgr { pending_batches = erase batch_id mgr.pending_batches })
  ]

  -- The insertion fails: the batch is dropped or tried again.
  unfoldable pub insert_fails : Text → BatchManager M → BatchManager M
  insert_fails batch_id mgr = elim (lookup batch_id mgr.pending_batches) [
    | none ↦ mgr
    | some b ↦
        if reached_max_retries b
        then record mgr { pending_batches = erase batch_id mgr.pending_batches }
        else record mgr {
          pending_batches = insert batch_id (schedule_insert b) mgr.pending_batches;
        }
  ]

  unfoldable pub stop : BatchManager M → BatchManager M
  stop mgr = record mgr { batches = []; pending_batches = [] }
