-- ===== src/Network/Counter.antt =====
-- `InstructionCounter` of packages/network/src/logic/InstructionCounter.ts, with the part of a
-- node's status that it reads (`StatusStreams` of packages/network/src/identifiers.ts).
pub mod Laws
mod Tests
use network_monorepo.Prelude.{
  ℕ, suc, ◌+◌, Bool, true, false, Option, none, some, List, [], ◌∷◌, leb, if◌then◌else◌, Text, Dict,
  lookup, insert, erase, map,
}

-- The counter of a status: a natural number, or -1, which signals unsubscribe. These are the
-- values that a node sends; other numbers are left out.
pub data Stamp : Type 0 where
  unsubscribed : Stamp
  count : ℕ → Stamp

pub record StreamStatus : Type 0 where
  pub inbound_nodes : List Text
  pub outbound_nodes : List Text
  pub counter : Stamp

abbrev pub StatusStreams : Type 0
StatusStreams = Dict StreamStatus

-- node id => stream key => counter
abbrev pub Counters : Type 0
Counters = Dict (Dict ℕ)

abbrev pub or_zero : Option ℕ → ℕ
or_zero none = 0
or_zero (some n) = n

abbrev pub or_new {ℓ} : {V : Type ℓ} → Option (Dict V) → Dict V
or_new none = []
or_new (some m) = m

-- The value that `getAndSetIfNecessary` returns.
unfoldable pub current : Text → Text → Counters → ℕ
current node stream counters = or_zero (lookup stream (or_new (lookup node counters)))

-- The counters after it.
unfoldable pub get_and_set_if_necessary : Text → Text → Counters → Counters
get_and_set_if_necessary node stream counters =
    insert node (insert stream (current node stream counters) (or_new (lookup node counters)))
      counters

unfoldable pub set_or_increment : Text → Text → Counters → ℕ × Counters
set_or_increment node stream counters =
    let ready = get_and_set_if_necessary node stream counters in
    let next = suc (current node stream ready) in
    (next, insert node (insert stream next (or_new (lookup node ready))) ready)

-- `entry.counter >= currentCounter || entry.counter === -1`
unfoldable pub is_fresh : Stamp → ℕ → Bool
is_fresh unsubscribed n = true
is_fresh (count c) n = leb n c

unfoldable pub filter_status : StatusStreams → Text → Counters → StatusStreams × Counters
filter_status [] source counters = ([], counters)
filter_status ((stream, entry) ∷ streams) source counters =
    let (kept, after) =
      filter_status streams source (get_and_set_if_necessary source stream counters) in
    (
      if is_fresh entry.counter (current source stream counters)
          then (stream, entry) ∷ kept
          else kept,
      after,
    )

unfoldable pub remove_node : Text → Counters → Counters
remove_node node counters = erase node counters

unfoldable pub remove_stream : Text → Counters → Counters
remove_stream stream counters = map (λ e. (e.0, erase stream e.1)) counters
