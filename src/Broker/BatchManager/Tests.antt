-- ===== src/Broker/BatchManager/Tests.antt =====
-- A manager with a full batch.
use network_monorepo.Prelude.{
  ℕ, ◌≡◌, refl, true, some, [], ◌∷◌, arith, Text, codes, text_dec, lookup, insert, erase, has,
}
use network_monorepo.Broker.Batch.{
  Batch, Limits, opened_batch, push, is_full, new_batch, is_valid, lock, schedule_insert,
}
use network_monorepo.Broker.BatchManager.{
  BatchManager, store, lock_if_full, lock_batch, move_full_batch, open_batch,
}
use network_monorepo.Broker.BatchManager.Apart.{HasOwnIds, store-HasOwnIds}
use network_monorepo.Broker.BatchManager.Held.{held, held-store, tally, tally_all}
use network_monorepo.Broker.BatchManager.Bounded.{IsBounded, store-IsBounded}

abbrev limits : Limits
limits = record { max_size = 100; max_records = 1; max_retries = 2; close_timeout = 10 }

abbrev bucket : Text
bucket = codes "b"

abbrev full : Batch ℕ
full = record (opened_batch (codes "1") bucket limits) { stream_messages = 7 ∷ []; size = 1 }

abbrev waiting : Batch ℕ
waiting = record (opened_batch (codes "0") bucket limits) { stream_messages = 6 ∷ []; size = 1 }

abbrev manager : BatchManager ℕ
manager = record {
  limits = limits;
  batches = (bucket, full) ∷ [];
  pending_batches = (codes "0", waiting) ∷ [];
}

program : Unit {0}
unfolding text_dec lookup insert erase push is_full new_batch is_valid lock schedule_insert store
    lock_if_full lock_batch move_full_batch open_batch held tally tally_all has
program = tt

abbrev stored : BatchManager ℕ
stored = record {
  limits = limits;
  batches =
      (bucket, record full { id = codes "2"; stream_messages = 8 ∷ []; done_cbs = 3 ∷ [] }) ∷ [];
  pending_batches = (codes "0", waiting) ∷ (codes "1", schedule_insert (lock full)) ∷ [];
}

manager-HasOwnIds : HasOwnIds manager
unfolding program
manager-HasOwnIds = record { one_each = (refl, tt); own_ids = (refl, tt); not_pending = (refl, tt) }

store-HasOwnIds_example : HasOwnIds stored
unfolding program
store-HasOwnIds_example =
    store-HasOwnIds (λ m. 1) (codes "2") bucket 8 (some 3) manager stored manager-HasOwnIds
      (refl, refl) refl

held-store_example : held (λ m. true) stored ≡ 3
unfolding program
held-store_example =
    held-store (λ m. true) (λ m. 1) (codes "2") bucket 8 (some 3) manager stored manager-HasOwnIds
      refl

manager-IsBounded : IsBounded manager
manager-IsBounded = record {
  open_fit = ((refl, omega arith, omega arith), tt);
  pending_fit = ((refl, omega arith, omega arith), tt);
}

store-IsBounded_example : IsBounded stored
unfolding program
store-IsBounded_example =
    store-IsBounded (λ m. 1) (codes "2") bucket 8 (some 3) manager stored manager-IsBounded refl
