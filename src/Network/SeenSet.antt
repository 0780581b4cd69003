-- ===== src/Network/SeenSet.antt =====
-- `SeenButNotPropagatedSet` of packages/network/src/helpers/SeenButNotPropagatedSet.ts, the messages
-- it holds, and the identifiers of streams of packages/network/src/identifiers.ts. The package
-- `lru-cache` is outside: an argument `cache` has its operations on strings. JavaScript's printing of
-- a number is an argument too.
use network_monorepo.Prelude.{ℕ, Bool, Option, none, some, ◌∷◌, ◌++◌, Text}
use network_monorepo.Network.NumberPair.{NumberPair, number}

-- The message reference of the previous message: its timestamp and sequence number.
pub record Previous : Type 0 where
  pub timestamp : ℕ
  pub sequence_number : ℕ

pub record Message : Type 0 where
  pub stream_id : Text
  pub stream_partition : ℕ
  pub timestamp : ℕ
  pub sequence_number : ℕ
  pub publisher_id : Text
  pub msg_chain_id : Text
  pub prev_msg_ref : Option Previous
  pub content : Text

-- The operations of an `LRUCache` that the set calls.
pub record Cache (S : Type 0) : Type 0 where
  pub set : Text → S → S
  pub del : Text → S → S
  pub holds : Text → S → Bool

-- `${id}::${partition}`; 58 is the code of the colon.
unfoldable pub key_of : (ℕ → Text) → Text → ℕ → Text
key_of print id partition = id ++ 58 ∷ 58 ∷ print partition

-- The key of the stream of a message.
unfoldable pub stream_of : (ℕ → Text) → Message → Text
stream_of print m = key_of print m.stream_id m.stream_partition

unfoldable pub number_of : Message → NumberPair
number_of m = record { a = number m.timestamp; b = number m.sequence_number }

unfoldable pub previous_of : Message → Option NumberPair
previous_of m = elim m.prev_msg_ref [
  | none ↦ none
  | some r ↦ some (record { a = number r.timestamp; b = number r.sequence_number })
]

-- The fields with dashes between them; 45 is the code of the dash.
unfoldable pub message_id_to_str : (ℕ → Text) → Message → Text
message_id_to_str print m =
    m.stream_id
    ++ 45 ∷ print m.stream_partition
    ++ 45 ∷ print m.timestamp
    ++ 45 ∷ print m.sequence_number
    ++ 45 ∷ m.publisher_id
    ++ 45 ∷ m.msg_chain_id

module _ {S : Type 0} (cache : Cache S) (print : ℕ → Text) where
  unfoldable pub add_seen : Message → S → S
  add_seen m s = cache.set (message_id_to_str print m) s

  unfoldable pub delete_seen : Message → S → S
  delete_seen m s = cache.del (message_id_to_str print m) s

  unfoldable pub has_seen : Message → S → Bool
  has_seen m s = cache.holds (message_id_to_str print m) s
