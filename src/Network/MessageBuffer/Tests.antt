-- ===== src/Network/MessageBuffer/Tests.antt =====
-- Runs of the buffer on small inputs.
use network_monorepo.Prelude.{
  ℕ, ◌≡◌, ◌≤◌, refl, none, some, [], ◌∷◌, arith, Text, codes, text_dec, lookup, insert, erase,
}
use network_monorepo.Network.MessageBuffer.{
  MessageBuffer, init, messages, timers, store_rest, head, pop, pop_all, open_queue, evict, append,
  appended, put, fire, clear, clear_ids, size, total, clear_first, clear_all,
}
use network_monorepo.Network.MessageBuffer.Queues
use network_monorepo.Network.MessageBuffer.Queues.{trimmed}

program : Unit {0}
unfolding text_dec lookup insert erase init messages timers store_rest head pop pop_all open_queue
    evict append appended put fire clear clear_ids size total clear_first clear_all
program = tt

abbrev s1 : Text
s1 = codes "s1"

abbrev s2 : Text
s2 = codes "s2"

-- Two messages of one stream and one of another, with room for two of each.
abbrev full : MessageBuffer ℕ
full = record {
  buffer = (s1, 10 ∷ 11 ∷ []) ∷ (s2, 20 ∷ []) ∷ [];
  timeout_refs = (s1, 0 ∷ 1 ∷ []) ∷ (s2, 2 ∷ []) ∷ [];
  max_size = 2;
  pending = (0, s1) ∷ (1, s1) ∷ (2, s2) ∷ [];
  next_timer = 3;
}

abbrev narrow : MessageBuffer ℕ
narrow = record full { buffer = (s1, 10 ∷ []) ∷ []; timeout_refs = (s1, 0 ∷ []) ∷ []; max_size = 1 }

put-full :
    put s1 12 full
    ≡ some (record full {
      buffer = (s1, 11 ∷ 12 ∷ []) ∷ (s2, 20 ∷ []) ∷ [];
      timeout_refs = (s1, 1 ∷ 3 ∷ []) ∷ (s2, 2 ∷ []) ∷ [];
      pending = (1, s1) ∷ (2, s2) ∷ (3, s1) ∷ [];
      next_timer = 4;
    })
unfolding program
put-full = refl

clear_size : size (clear full) ≡ 0
unfolding program
clear_size = refl

messages-put_example :
    (b : MessageBuffer ℕ) × (put s1 12 full ≡ some b) × (messages s1 b ≡ 11 ∷ 12 ∷ [])
unfolding program
messages-put_example = Queues.messages-put s1 s1 12 full (omega arith)

length-put_example : 2 ≤ 2
unfolding program
length-put_example =
    Queues.length-put s1 12 full
      (record full {
        buffer = (s1, 11 ∷ 12 ∷ []) ∷ (s2, 20 ∷ []) ∷ [];
        timeout_refs = (s1, 1 ∷ 3 ∷ []) ∷ (s2, 2 ∷ []) ∷ [];
        pending = (1, s1) ∷ (2, s2) ∷ (3, s1) ∷ [];
        next_timer = 4;
      })
      (omega arith) (omega arith) refl

put-throws_example : put s1 11 narrow ≡ none
unfolding lookup text_dec
put-throws_example = Queues.put-throws s1 11 10 narrow refl refl
