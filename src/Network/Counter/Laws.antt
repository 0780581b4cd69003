-- ===== src/Network/Counter/Laws.antt =====
-- How the operations move the counter of a node and a stream, and what a status is filtered by.
use network_monorepo.Prelude.{
  ℕ, suc, ◌<◌, ◌≤◌, ◌⊎◌, inl, inr, none, some, leb, Bool-cases, IsDistinct, keys, has, has-keys,
  defines, ◌≡◌, refl, ap, ◌∙◌, ◌&&◌, Bool, true, false, List, [], ◌∷◌, arith, filter, if◌then◌else◌,
  Text, same, Dict, lookup, insert, lookup-insert, lookup-erase,
}
use network_monorepo.Network.Counter.{
  StatusStreams, StreamStatus, Counters, Stamp, unsubscribed, count, current,
  get_and_set_if_necessary, set_or_increment, is_fresh, filter_status, remove_node, remove_stream,
  or_new, or_zero,
}

module _ (n s : Text) (counters : Counters) where
  current-insert :
      (node : Text) (m : Dict ℕ)
      → current n s (insert node m counters)
        ≡ (if same node n then or_zero (lookup s m) else current n s counters)
  unfolding current
  current-insert node m = ground (arith, lookup-insert n node m counters)

  pub current-get_and_set :
      (node stream : Text)
      → current n s (get_and_set_if_necessary node stream counters) ≡ current n s counters
  unfolding get_and_set_if_necessary current
  current-get_and_set node stream = ground (
    arith,
    current-insert node
        (insert stream (current node stream counters) (or_new (lookup node counters))),
    lookup-insert s stream (current node stream counters) (or_new (lookup node counters)),
  )

  -- `remove_node` resets the counters of the node and no others.
  pub current-remove_node :
      (node : Text)
      → current n s (remove_node node counters) ≡ (if same node n then 0 else current n s counters)
  unfolding current remove_node lookup
  current-remove_node node = ground (arith, lookup-erase n node counters)

-- `remove_stream` resets the counters of the stream and no others.
pub current-remove_stream :
    (n s stream : Text) (counters : Counters)
    → current n s (remove_stream stream counters)
      ≡ (if same stream s then 0 else current n s counters)
unfolding current remove_stream lookup
current-remove_stream n s stream [] = ground arith
current-remove_stream n s stream ((k, m) ∷ counters) =
    ground (arith, lookup-erase s stream m, current-remove_stream n s stream counters)

-- Each instruction gets the next number of its node and stream, and no other counter moves.
pub set_or_increment_lem :
    (n s node stream : Text) (counters : Counters)
    → ((set_or_increment node stream counters).0 ≡ suc (current node stream counters))
      × (current n s (set_or_increment node stream counters).1 ≡ (
          if same node n && same stream s
          then suc (current n s counters)
          else current n s counters))
unfolding set_or_increment current
set_or_increment_lem n s node stream counters =
    let ready = get_and_set_if_necessary node stream counters in
    let next = suc (current node stream ready) in
    (
      ground (arith, current-get_and_set node stream counters node stream),
      ground (
        arith,
        current-insert n s ready node (insert stream next (or_new (lookup node ready))),
        lookup-insert s stream next (or_new (lookup node ready)),
        current-get_and_set n s counters node stream,
        current-get_and_set node stream counters node stream,
      ),
    )

filter-ext :
    {A : Type 0} (p q : A → Bool) (xs : List A) → ((x : A) → p x ≡ q x) → filter p xs ≡ filter q xs
filter-ext p q [] h = refl
filter-ext p q (x ∷ xs) h = ground (arith, h x, filter-ext p q xs h)

lookup-filter :
    {V : Type 0} (t : Text) (p : Text → V → Bool) (m : Dict V)
    → IsDistinct (keys m)
    → lookup t (filter (λ e. p e.0 e.1) m)
      ≡ elim (lookup t m) [ none ↦ none | some v ↦ if p t v then some v else none ]
unfolding lookup has defines
lookup-filter {V = V} t p [] d = refl
lookup-filter {V = V} t p ((k, v) ∷ m) d =
    ground (arith, lookup-filter t p m d.1, has-keys t m, has-keys k m)

pub filter_status-filter :
    (n s source : Text) (streams : StatusStreams) (counters : Counters)
    → ((filter_status streams source counters).0
        ≡ filter (λ e. is_fresh e.1.counter (current source e.0 counters)) streams)
      × (current n s (filter_status streams source counters).1 ≡ current n s counters)
unfolding filter_status
filter_status-filter n s source [] counters = (refl, refl)
filter_status-filter n s source ((stream, entry) ∷ streams) counters =
    let next = get_and_set_if_necessary source stream counters in
    let ih = filter_status-filter n s source streams next in
    let same_tests =
      filter-ext (λ e. is_fresh e.1.counter (current source e.0 next))
        (λ e. is_fresh e.1.counter (current source e.0 counters)) streams
        (λ e. ap (is_fresh e.1.counter) (current-get_and_set source e.0 counters source stream)) in
    (rw (ih.0 ∙ same_tests) refl, ih.1 ∙ current-get_and_set n s counters source stream)

-- What a status of the source is to be cut down to: an entry stays if it signals unsubscribe or
-- if its counter has reached the last instruction, goes if it is behind, and the order is kept.
pub data IsCut (source : Text) (counters : Counters) : StatusStreams → StatusStreams → Type 0 where
  nothing : IsCut source counters [] []
  unsubscribes :
      {stream : Text} {entry : StreamStatus} {streams kept : StatusStreams}
      → entry.counter ≡ unsubscribed
      → IsCut source counters streams kept
      → IsCut source counters ((stream, entry) ∷ streams) ((stream, entry) ∷ kept)
  reached :
      {stream : Text} {entry : StreamStatus} {streams kept : StatusStreams} (c : ℕ)
      → entry.counter ≡ count c
      → current source stream counters ≤ c
      → IsCut source counters streams kept
      → IsCut source counters ((stream, entry) ∷ streams) ((stream, entry) ∷ kept)
  behind :
      {stream : Text} {entry : StreamStatus} {streams kept : StatusStreams} (c : ℕ)
      → entry.counter ≡ count c
      → c < current source stream counters
      → IsCut source counters streams kept
      → IsCut source counters ((stream, entry) ∷ streams) kept

is_fresh-cases :
    (x : Stamp) (n : ℕ)
    → ((x ≡ unsubscribed) × (is_fresh x n ≡ true))
      ⊎ ((c : ℕ) × (x ≡ count c) × (n ≤ c) × (is_fresh x n ≡ true))
      ⊎ ((c : ℕ) × (x ≡ count c) × (c < n) × (is_fresh x n ≡ false))
unfolding is_fresh
is_fresh-cases unsubscribed n = inl (refl, refl)
is_fresh-cases (count c) n = elim (Bool-cases (leb n c)) [
  | inl up ↦ inr (inl (c, refl, ground arith, up))
  | inr late ↦ inr (inr (c, refl, ground arith, late))
]

filter-IsCut :
    (source : Text) (streams : StatusStreams) (counters : Counters)
    → IsCut source counters streams
        (filter (λ e. is_fresh e.1.counter (current source e.0 counters)) streams)
filter-IsCut source [] counters = nothing
filter-IsCut source ((stream, entry) ∷ streams) counters =
    let ih = filter-IsCut source streams counters in
    elim (is_fresh-cases entry.counter (current source stream counters)) [
      | inl (e, kept) ↦ rw kept (unsubscribes e ih)
      | inr (inl (c, e, up, kept)) ↦ rw kept (reached c e up ih)
      | inr (inr (c, e, late, dropped)) ↦ rw dropped (behind c e late ih)
    ]

-- A filtered status is the status without the entries whose counter is behind the last
-- instruction of the source and the stream, an entry that signals unsubscribe always being kept;
-- and no counter moves.
pub filter_status_lem :
    (n s source : Text) (streams : StatusStreams) (counters : Counters)
    → IsCut source counters streams (filter_status streams source counters).0
      × (current n s (filter_status streams source counters).1 ≡ current n s counters)
filter_status_lem n s source streams counters =
    let (cut, unmoved) = filter_status-filter n s source streams counters in
    (rw cut (filter-IsCut source streams counters), unmoved)

-- The entry of a stream in a filtered status, where each stream has one.
lookup-filter_status :
    (t source : Text) (streams : StatusStreams) (counters : Counters)
    → IsDistinct (keys streams)
    → lookup t (filter_status streams source counters).0 ≡ elim (lookup t streams) [
      | none ↦ none
      | some e ↦ if is_fresh e.counter (current source t counters) then some e else none
    ]
lookup-filter_status t source streams counters d =
    rw (filter_status-filter t t source streams counters).0
      (lookup-filter t (λ k v. is_fresh v.counter (current source k counters)) streams d)

-- In a status of any number of streams, each of which has one entry, the entry of a stream whose
-- counter is at most that of the stream before an instruction is filtered out once the
-- instruction has been counted; the entries of the other streams are kept as they were before.
pub stale_status :
    (node stream : Text) (entry : StreamStatus) (c : ℕ) (streams : StatusStreams)
    (counters : Counters)
    → IsDistinct (keys streams)
    → lookup stream streams ≡ some entry
    → entry.counter ≡ count c
    → c ≤ current node stream counters
    → (t : Text)
    → lookup t (filter_status streams node (set_or_increment node stream counters).1).0
      ≡ (if same stream t then none else lookup t (filter_status streams node counters).0)
unfolding is_fresh
stale_status node stream entry c streams counters d l e h t =
    let after = (set_or_increment node stream counters).1 in
    ground (
      arith,
      lookup-filter_status t node streams after d,
      lookup-filter_status t node streams counters d,
      set_or_increment_lem node t node stream counters,
    )
