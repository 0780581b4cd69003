-- ===== src/Network/RetryManager.antt =====
-- `InstructionRetryManager` of packages/network/src/logic/InstructionRetryManager.ts. An entry holds
-- the instruction that its armed timer closes over, if one is armed. A retry is two steps: the timer
-- fires and `handleFn` is called, and the promise of `handleFn` settles; in between the code runs
-- other calls of the manager.
pub mod Retries
mod Tests
use network_monorepo.Prelude.{
  ℕ, suc, ◌+◌, Bool, true, false, not, Option, none, some, List, [], ◌∷◌, leb, if◌then◌else◌, ◌==◌,
  Text, Dict, lookup, insert, erase,
}
use network_monorepo.Network.Throttler.{Instruction, Request}

pub record Entry : Type 0 where
  pub armed : Option Request
  pub counter : ℕ

pub record RetryManager : Type 0 where
  pub status_send_counter_limit : ℕ
  pub instruction_retry_intervals : Dict Entry
  pub stopped : Bool

-- A call of `handleFn`, with its argument `reattempt`.
pub record Call : Type 0 where
  pub request : Request
  pub reattempt : Bool

abbrev pub new_retry_manager : RetryManager
new_retry_manager = record {
  status_send_counter_limit = 9;
  instruction_retry_intervals = [];
  stopped = false;
}

unfoldable pub add_retry : Request → RetryManager → RetryManager
add_retry r m = if m.stopped then m else record m {
  instruction_retry_intervals =
      insert r.instruction.stream (record { armed = some r; counter = 0 })
        m.instruction_retry_intervals;
}

-- The armed timer of a stream fires: `retryFunction` up to its `await`.
unfoldable pub timer_fired : Text → RetryManager → Option Call × RetryManager
timer_fired stream m =
    if m.stopped then (none, m) else elim (lookup stream m.instruction_retry_intervals) [
      | none ↦ (none, m)
      | some e ↦ elim e.armed [
        | none ↦ (none, m)
        | some r ↦ (
          some (record { request = r; reattempt = not (e.counter == 0) }),
          record m {
            instruction_retry_intervals =
                insert stream (record e { armed = none }) m.instruction_retry_intervals;
          },
        )
      ]
    ]

unfoldable pub next_counter : ℕ → ℕ → ℕ
next_counter limit counter = if leb limit counter then 0 else counter + 1

-- The rest of `retryFunction`, for the instruction that it was called with.
unfoldable pub handled : Request → RetryManager → RetryManager
handled r m = elim (lookup r.instruction.stream m.instruction_retry_intervals) [
  | none ↦ m
  | some e ↦ record m {
    instruction_retry_intervals =
        insert r.instruction.stream
          (record { armed = some r; counter = next_counter m.status_send_counter_limit e.counter })
          m.instruction_retry_intervals;
  }
]

unfoldable pub remove_retry : Text → RetryManager → RetryManager
remove_retry stream m =
    if m.stopped
    then m
    else record m { instruction_retry_intervals = erase stream m.instruction_retry_intervals }

unfoldable pub stop_retries : RetryManager → RetryManager
stop_retries m = record m { instruction_retry_intervals = []; stopped = true }
