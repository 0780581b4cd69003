-- ===== src/Network/RetryManager/Retries.antt =====
-- The counters of retries, and what a retry arms.
use network_monorepo.Prelude.{
  ℕ, suc, ◌≡◌, zero, inl, inr, Option-cases, false, Option, none, some, arith, Text, lookup,
  lookup-insert,
}
use network_monorepo.Network.Throttler.{Request}
use network_monorepo.Network.RetryManager.{
  RetryManager, add_retry, timer_fired, next_counter, handled,
}

unfoldable pub counter_at : Text → RetryManager → Option ℕ
counter_at stream m = elim (lookup stream m.instruction_retry_intervals) [
  | none ↦ none
  | some e ↦ some e.counter
]

unfoldable pub armed_at : Text → RetryManager → Option Request
armed_at stream m = elim (lookup stream m.instruction_retry_intervals) [
  | none ↦ none
  | some e ↦ e.armed
]

-- A number of whole retries: the timer of the stream fires and the handler finishes.
unfoldable pub retries : ℕ → Request → RetryManager → RetryManager
retries zero r m = m
retries (suc n) r m = handled r (timer_fired r.instruction.stream (retries n r m)).1

armed_at-handled :
    (r : Request) (m : RetryManager) (x : Request)
    → armed_at r.instruction.stream m ≡ some x
    → armed_at r.instruction.stream (handled r m) ≡ some r
unfolding armed_at handled
armed_at-handled r m x h =
    elim (Option-cases (lookup r.instruction.stream m.instruction_retry_intervals)) [
      | inl e ↦ absurd (ground arith)
      | inr (y, e) ↦
          rw (e, handled)
            (ground (
              arith,
              lookup-insert r.instruction.stream r.instruction.stream
                  (record {
                    armed = some r;
                    counter = next_counter m.status_send_counter_limit y.counter;
                  })
                  m.instruction_retry_intervals,
            ))
    ]

-- While an instruction is being retried a newer one is added for the stream: when the retry ends,
-- the timer of the newer instruction is replaced by one of the older.
pub handled-replaces :
    (older newer : Request) (m : RetryManager)
    → m.stopped ≡ false
    → newer.instruction.stream ≡ older.instruction.stream
    → armed_at older.instruction.stream (handled older (add_retry newer m)) ≡ some older
unfolding armed_at add_retry
handled-replaces older newer m h e = armed_at-handled older (add_retry newer m) newer (
    ground (
      arith,
      lookup-insert older.instruction.stream newer.instruction.stream
          (record { armed = some newer; counter = 0 }) m.instruction_retry_intervals,
    ))
