-- ===== src/Broker/Batch.antt =====
-- `Batch` of packages/broker/src/plugins/storage/Batch.ts: messages of a bucket that wait to be
-- inserted together. The timer is the one that is armed, if any; what it runs is a function of its
-- own. The emitted events are the calls that BatchManager makes. A callback is a number; the time of
-- creation is left out, and the id that `uuidv4` makes is an argument.
use network_monorepo.Prelude.{
  ℕ, ◌+◌, Bool, false, ◌||◌, Option, none, some, List, [], ◌∷◌, ◌++◌, ltb, leb, length,
  if◌then◌else◌, ◌==◌, Text,
}

pub data State : Type 0 where
  opened locked pending inserted : State

pub data Timer : Type 0 where
  -- runs `lock`
  closing : Timer
  -- runs the rest of `scheduleInsert`
  inserting : Timer

pub record Limits : Type 0 where
  pub max_size : ℕ
  pub max_records : ℕ
  pub max_retries : ℕ
  pub close_timeout : ℕ

pub record Batch (M : Type 0) : Type 0 where
  pub id : Text
  pub bucket_id : Text
  pub limits : Limits
  pub stream_messages : List M
  pub size : ℕ
  pub retries : ℕ
  pub state : State
  pub done_cbs : List ℕ
  pub timeout : Option Timer

unfoldable pub is_valid : Text → Limits → Bool
is_valid [] limits = false
is_valid (x ∷ bucket_id) limits =
    if leb limits.max_size 0
    then false
    else if leb limits.max_records 0
    then false
    else if leb limits.close_timeout 0
    then false
    else ltb 0 limits.max_retries

abbrev pub cons_option {ℓ} : {A : Type ℓ} → Option A → List A
cons_option none = []
cons_option (some a) = a ∷ []

module _ {M : Type 0} where
  abbrev pub opened_batch : Text → Text → Limits → Batch M
  opened_batch id bucket_id limits = record {
    id = id;
    bucket_id = bucket_id;
    limits = limits;
    stream_messages = [];
    size = 0;
    retries = 0;
    state = opened;
    done_cbs = [];
    timeout = some closing;
  }

  -- `none` is a TypeError.
  unfoldable pub new_batch : Text → Text → Limits → Option (Batch M)
  new_batch id bucket_id limits =
      if is_valid bucket_id limits then some (opened_batch id bucket_id limits) else none

  unfoldable pub reached_max_retries : Batch M → Bool
  reached_max_retries b = b.retries == b.limits.max_retries

  unfoldable pub lock : Batch M → Batch M
  lock b = record b { timeout = none; state = locked }

  unfoldable pub schedule_insert : Batch M → Batch M
  schedule_insert b = record b { timeout = some inserting }

  -- What the timer of `scheduleInsert` runs.
  unfoldable pub insert_timer_fired : Batch M → Batch M
  insert_timer_fired b = record b {
    timeout = none;
    retries = if ltb b.retries b.limits.max_retries then b.retries + 1 else b.retries;
    state = pending;
  }

  -- The callbacks that are called, and the batch after it.
  unfoldable pub done : Batch M → List ℕ × Batch M
  done b = (b.done_cbs, record b { done_cbs = [] })

  unfoldable pub clear : Batch M → Batch M
  clear b = record b { timeout = none; stream_messages = []; state = inserted }

  -- `byte_length` is `Buffer.byteLength(streamMessage.serialize())`.
  unfoldable pub push : (M → ℕ) → M → Option ℕ → Batch M → Batch M
  push byte_length m done_cb b = record b {
    stream_messages = b.stream_messages ++ m ∷ [];
    size = b.size + byte_length m;
    done_cbs = b.done_cbs ++ cons_option done_cb;
  }

  unfoldable pub is_full : Batch M → Bool
  is_full b = leb b.limits.max_size b.size || leb b.limits.max_records (length b.stream_messages)
