-- ===== src/Network/MessageBuffer/Timers.antt =====
-- What a timer does to the buffer when it fires.
use network_monorepo.Prelude.{ℕ, ◌≡◌, refl, List, ◌∷◌, some, if◌then◌else◌, Text, same}
use network_monorepo.Network.MessageBuffer.{MessageBuffer, tail, messages, fire}
use network_monorepo.Network.MessageBuffer.Queues.{pop_lem}

-- The oldest timer, of the id `id`, takes the oldest message of that id, tells the id to the
-- callback, and leaves all other queues alone.
pub messages-fire :
    {M : Type 0} (b : MessageBuffer M) (t : ℕ) (id j : Text) (pending : List (ℕ × Text))
    → b.pending ≡ (t, id) ∷ pending
    → ((fire b).0 ≡ some id)
      × (messages j (fire b).1 ≡ (if same id j then tail (messages j b) else messages j b))
unfolding fire messages
messages-fire b t id j pending e =
    rw (e, fire) (refl, (pop_lem j id (record b { pending = pending })).1)
