-- ===== src/Network/Throttler.antt =====
-- `InstructionThrottler` of packages/network/src/logic/InstructionThrottler.ts. `handleFn` and the
-- package `cancelable-promise` are outside: the outputs of a step are the calls of `handleFn`, and
-- that the promise of a stream settles, fulfilled or rejected, is a step of its own. A cancelled
-- promise never settles.
pub mod Latest
mod Tests
use network_monorepo.Prelude.{
  ℕ, Bool, true, false, not, ◌||◌, Option, none, some, List, [], ◌∷◌, any, values, leb,
  if◌then◌else◌, ◌==◌, Text, Dict, lookup, insert, erase, modify, defines,
}

-- The part of an InstructionMessage that the throttler reads, and the rest.
pub record Instruction : Type 0 where
  pub stream : Text
  pub counter : ℕ
  pub content : Text

pub record Request : Type 0 where
  pub instruction : Instruction
  pub tracker_id : Text

pub record Throttler : Type 0 where
  pub queue : Dict Request
  pub instruction_counter : Dict ℕ
  -- `ongoingPromises`, with the flag `handling`
  pub ongoing : Dict Bool
  pub stopped : Bool

abbrev pub new_throttler : Throttler
new_throttler = record { queue = []; instruction_counter = []; ongoing = []; stopped = false }

-- `invokeHandleFnWithLock` up to its `await`.
unfoldable pub invoke : Text → Throttler → List Request × Throttler
invoke stream t = if t.stopped then ([], t) else elim (lookup stream t.queue) [
  | none ↦ ([], record t { ongoing = modify stream (λ _. false) t.ongoing })
  | some r ↦ (
    r ∷ [],
    record t { queue = erase stream t.queue; ongoing = modify stream (λ _. true) t.ongoing },
  )
]

unfoldable pub is_accepted : Text → ℕ → Throttler → Bool
is_accepted stream counter t = elim (lookup stream t.instruction_counter) [
  | none ↦ true
  | some n ↦ n == 0 || leb n counter
]

unfoldable pub is_handling : Text → Throttler → Bool
is_handling stream t = elim (lookup stream t.ongoing) [ none ↦ false | some h ↦ h ]

-- The throttler with the request as the only one in the queue for its stream.
unfoldable pub enqueued : Request → Throttler → Throttler
enqueued r t =
    let stream = r.instruction.stream in
    record t {
      instruction_counter = insert stream r.instruction.counter t.instruction_counter;
      queue = insert stream r t.queue;
      ongoing = if defines stream t.ongoing then t.ongoing else insert stream false t.ongoing;
    }

unfoldable pub add_request : Request → Throttler → List Request × Throttler
add_request r t =
    let stream = r.instruction.stream in
    let ready = enqueued r t in
    if t.stopped
    then ([], t)
    else if is_accepted stream r.instruction.counter t
    then if is_handling stream ready then ([], ready) else invoke stream ready
    else ([], t)

-- The promise of the stream settles: the `finally` of `invokeHandleFnWithLock`.
unfoldable pub settled : Text → Throttler → List Request × Throttler
settled stream t = if is_handling stream t then invoke stream t else ([], t)

unfoldable pub remove_stream_id : Text → Throttler → Throttler
remove_stream_id stream t = if t.stopped then t else record t {
  queue = erase stream t.queue;
  instruction_counter = erase stream t.instruction_counter;
  ongoing = erase stream t.ongoing;
}

unfoldable pub is_idle : Throttler → Bool
is_idle t = not (any (λ h. h) (values t.ongoing))

unfoldable pub stop : Throttler → Throttler
stop t = record { queue = []; instruction_counter = []; ongoing = []; stopped = true }
