-- ===== src/Network/RetryManager/Tests.antt =====
-- Retries of one stream.
use network_monorepo.Prelude.{
  ℕ, ◌≡◌, refl, some, [], ◌∷◌, Text, codes, text_dec, lookup, insert, erase,
}
use network_monorepo.Network.Throttler.{Request}
use network_monorepo.Network.RetryManager.{
  RetryManager, new_retry_manager, add_retry, timer_fired, next_counter, handled,
}
use network_monorepo.Network.RetryManager.Retries.{counter_at, armed_at, retries, handled-replaces}

abbrev s1 : Text
s1 = codes "s1"

abbrev request : ℕ → Request
request n = record {
  instruction = record { stream = s1; counter = n; content = [] };
  tracker_id = codes "t";
}

abbrev added : RetryManager
added = record new_retry_manager {
  instruction_retry_intervals = (s1, record { armed = some (request 1); counter = 0 }) ∷ [];
}

program : Unit {0}
unfolding text_dec lookup insert erase add_retry timer_fired next_counter handled counter_at
    armed_at retries
program = tt

handled-replaces_example :
    armed_at s1 (handled (request 1) (add_retry (request 2) added)) ≡ some (request 1)
handled-replaces_example = handled-replaces (request 1) (request 2) added refl refl
