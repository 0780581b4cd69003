-- ===== src/Network/MessageBuffer/Queues.antt =====
-- The queues of a message buffer (MessageBuffer.ts), one for each id.
use network_monorepo.Prelude.{
  ℕ, ◌≤◌, ◌<◌, ◌≡◌, ◌∙◌, refl, keys, none, some, List, [], ◌∷◌, ◌++◌, arith, leb, length,
  length-append, if◌then◌else◌, Text, same, Dict, lookup, lookup-insert, lookup-erase, inl, inr,
  Option-cases,
}
use network_monorepo.Network.MessageBuffer.{
  MessageBuffer, tail, or_empty, messages, store_rest, pop, pop_all, open_queue, evict, append,
  appended, put, head, clear, clear_ids, fire,
}

-- What `put` leaves of a queue that is full: all but the oldest message.
abbrev pub trimmed : {M : Type 0} → ℕ → List M → List M
trimmed max ms = if leb max (length ms) then tail ms else ms

module _ {M : Type 0} where
  lookup-store_rest :
      (j id : Text) (ms : List M) (buffer : Dict (List M))
      → or_empty (lookup j (store_rest id ms buffer))
        ≡ (if same id j then ms else or_empty (lookup j buffer))
  unfolding store_rest
  lookup-store_rest j id [] buffer = ground (arith, lookup-erase j id buffer)
  lookup-store_rest j id (m ∷ ms) buffer = ground (arith, lookup-insert j id (m ∷ ms) buffer)

  messages-pop :
      (j id : Text) (b : MessageBuffer M)
      → messages j (pop id b).1 ≡ (if same id j then tail (messages j b) else messages j b)
  unfolding messages pop
  messages-pop j id b = elim (Option-cases (lookup id b.buffer)) [
    | inl e ↦ rw (e, pop) (ground arith)
    | inr (ms, e) ↦ rw (e, pop) (ground (arith, lookup-store_rest j id (tail ms) b.buffer))
  ]

  -- `pop` takes the oldest message of the id, and leaves all other queues alone.
  pub pop_lem :
      (j id : Text) (b : MessageBuffer M)
      → ((pop id b).0 ≡ head (messages id b))
        × (messages j (pop id b).1 ≡ (if same id j then tail (messages j b) else messages j b))
  unfolding messages pop head
  pop_lem j id b = (ground arith, messages-pop j id b)

  -- `pop_all` takes all messages of the id, and leaves all other queues alone.
  pub pop_all_lem :
      (j id : Text) (b : MessageBuffer M)
      → ((pop_all id b).0 ≡ messages id b)
        × (messages j (pop_all id b).1 ≡ (if same id j then [] else messages j b))
  unfolding messages pop_all
  pop_all_lem j id b = (ground arith, ground (arith, lookup-erase j id b.buffer))

  messages-open_queue :
      (j id : Text) (b : MessageBuffer M) → messages j (open_queue id b) ≡ messages j b
  unfolding messages open_queue
  messages-open_queue j id b = ground (arith, lookup-insert j id [] b.buffer)

  -- The buffer holds a queue for the id.
  abbrev IsOpen : Text → MessageBuffer M → Type 0
  IsOpen id b = lookup id b.buffer ≡ some (messages id b)

  open_queue-IsOpen : (id : Text) (b : MessageBuffer M) → IsOpen id (open_queue id b)
  unfolding messages open_queue
  open_queue-IsOpen id b = ground (arith, lookup-insert id id [] b.buffer)

  max-open_queue : (id : Text) (b : MessageBuffer M) → (open_queue id b).max_size ≡ b.max_size
  unfolding open_queue
  max-open_queue id b = ground arith

  pop-IsOpen :
      (id : Text) (b : MessageBuffer M)
      → IsOpen id b
      → 1 < length (messages id b)
      → IsOpen id (pop id b).1
  unfolding messages pop store_rest
  pop-IsOpen id b o h = rw (o, pop) (by_queue (messages id b) h)
    where
      by_queue :
          (ms : List M)
          → 1 < length ms
          → lookup id (store_rest id (tail ms) b.buffer)
            ≡ some (or_empty (lookup id (store_rest id (tail ms) b.buffer)))
      by_queue [] k = absurd (omega arith)
      by_queue (m ∷ []) k = absurd (omega arith)
      by_queue (m ∷ n ∷ ms) k = ground (arith, lookup-insert id id (n ∷ ms) b.buffer)

  messages-evict :
      (j id : Text) (b : MessageBuffer M)
      → messages j (evict id b)
        ≡ (if same id j then trimmed b.max_size (messages j b) else messages j b)
  unfolding evict
  messages-evict j id b = ground (arith, messages-pop j id b)

  evict-IsOpen :
      (id : Text) (b : MessageBuffer M) → 1 < b.max_size → IsOpen id b → IsOpen id (evict id b)
  unfolding evict
  evict-IsOpen id b h o = ground (arith, pop-IsOpen id b o)

  messages-appended :
      (j id : Text) (m : M) (b : MessageBuffer M)
      → messages j (appended id m (messages id b) b)
        ≡ (if same id j then messages j b ++ m ∷ [] else messages j b)
  unfolding appended messages
  messages-appended j id m b =
      ground (arith, lookup-insert j id (or_empty (lookup id b.buffer) ++ m ∷ []) b.buffer)

  append-IsOpen :
      (id : Text) (m : M) (b : MessageBuffer M)
      → IsOpen id b
      → append id m b ≡ some (appended id m (messages id b) b)
  unfolding append
  append-IsOpen id m b o = rw (o, append)

  max-evict : (id : Text) (b : MessageBuffer M) → (evict id b).max_size ≡ b.max_size
  unfolding evict pop
  max-evict id b = ground arith

  pub put-some :
      (id : Text) (m : M) (b : MessageBuffer M)
      → 1 < b.max_size
      → (b' : MessageBuffer M) × (put id m b ≡ some b') × (b'.max_size ≡ b.max_size)
  unfolding put appended
  put-some id m b h =
      let o = open_queue id b in
      let e = evict id o in
      let room : 1 < o.max_size = rw (max-open_queue id b) h in
      (
        appended id m (messages id e) e,
        append-IsOpen id m e (evict-IsOpen id o room (open_queue-IsOpen id b)),
        max-evict id o ∙ max-open_queue id b,
      )

  pub max-pop_all : (id : Text) (b : MessageBuffer M) → (pop_all id b).1.max_size ≡ b.max_size
  unfolding pop_all
  max-pop_all id b = ground arith

  max-clear_ids : (ids : List Text) (b : MessageBuffer M) → (clear_ids ids b).max_size ≡ b.max_size
  unfolding clear_ids
  max-clear_ids [] b = refl
  max-clear_ids (id ∷ ids) b = max-clear_ids ids (pop_all id b).1 ∙ max-pop_all id b

  pub max-clear : (b : MessageBuffer M) → (clear b).max_size ≡ b.max_size
  unfolding clear
  max-clear b = max-clear_ids (keys b.buffer) b

  pub max-fire : (b : MessageBuffer M) → (fire b).1.max_size ≡ b.max_size
  unfolding fire pop
  max-fire b = ground arith

  -- With room for two messages `put` never throws: it appends to the queue of the id, after
  -- dropping the oldest message if the queue is full, and leaves all other queues alone.
  pub messages-put :
      (j id : Text) (m : M) (b : MessageBuffer M)
      → 1 < b.max_size
      → (b' : MessageBuffer M) × (put id m b ≡ some b')
        × (messages j b'
            ≡ (if same id j then trimmed b.max_size (messages j b) ++ m ∷ [] else messages j b))
  unfolding put
  messages-put j id m b h =
      let o = open_queue id b in
      let e = evict id o in
      let room : 1 < o.max_size = rw (max-open_queue id b) h in
      (
        appended id m (messages id e) e,
        append-IsOpen id m e (evict-IsOpen id o room (open_queue-IsOpen id b)),
        ground (
          arith,
          messages-appended j id m e,
          messages-evict j id o,
          messages-open_queue j id b,
          max-open_queue id b,
        ),
      )

  -- The queue of an id never holds more than `max_size` messages after a `put`.
  pub length-put :
      (id : Text) (m : M) (b b' : MessageBuffer M)
      → 1 < b.max_size
      → length (messages id b) ≤ b.max_size
      → put id m b ≡ some b'
      → length (messages id b') ≤ b.max_size
  length-put id m b b' h k e =
      let (c, found, queues) = messages-put id id m b h in
      let same_buffer : b' ≡ c = cc (found) in
      rw same_buffer (
        rw queues (ground (arith, length-append {0} (trimmed b.max_size (messages id b)) (m ∷ []))))

  -- With a limit of one message, `put` throws for an id that has a message waiting: dropping the
  -- oldest deletes the queue that the message is then pushed to.
  pub put-throws :
      (id : Text) (m n : M) (b : MessageBuffer M)
      → b.max_size ≡ 1
      → lookup id b.buffer ≡ some (n ∷ [])
      → put id m b ≡ none
  unfolding put append evict open_queue pop store_rest messages
  put-throws id m n b h e = ground (arith, lookup-erase id id b.buffer)
