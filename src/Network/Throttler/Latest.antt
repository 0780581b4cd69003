-- ===== src/Network/Throttler/Latest.antt =====
-- What reaches the handler of a throttler (InstructionThrottler.ts), over a sequence of steps.
use network_monorepo.Prelude.{
  ℕ, ◌≤◌, ◌≡◌, refl, sym, subst, Bool, true, false, inl, inr, none, some, List, [], ◌∷◌, ◌++◌,
  arith, if◌then◌else◌, Text, same, lookup, lookup-insert, lookup-erase, Bool-cases, Option-cases,
}
use network_monorepo.Network.Throttler.{
  Request, Throttler, new_throttler, invoke, is_accepted, is_handling, enqueued, add_request,
  settled, remove_stream_id,
}

pub data Event : Type 0 where
  adds : Request → Event
  settles : Text → Event
  removes : Text → Event

unfoldable pub step : Event → Throttler → List Request × Throttler
step (adds r) t = add_request r t
step (settles stream) t = settled stream t
step (removes stream) t = ([], remove_stream_id stream t)

-- All calls of the handler, in order, and the throttler after the events.
unfoldable pub run : List Event → Throttler → List Request × Throttler
run [] t = ([], t)
run (e ∷ es) t =
    let (calls, after) = step e t in let (later, final) = run es after in (calls ++ later, final)

-- No event of the list removes the stream.
abbrev pub Keeps : Text → List Event → Type 0
Keeps s [] = Unit {0}
Keeps s (adds r ∷ es) = Keeps s es
Keeps s (settles stream ∷ es) = Keeps s es
Keeps s (removes stream ∷ es) = (same stream s ≡ false) × Keeps s es

-- The counters of the calls for the stream do not descend, from at least `b`.
abbrev pub Climbs : Text → ℕ → List Request → Type 0
Climbs s b [] = Unit {0}
Climbs s b (r ∷ rs) =
    if same r.instruction.stream s
    then (b ≤ r.instruction.counter) × Climbs s r.instruction.counter rs
    else Climbs s b rs

Climbs-weaken : (s : Text) (b c : ℕ) (rs : List Request) → b ≤ c → Climbs s c rs → Climbs s b rs
Climbs-weaken s b c [] h k = tt
Climbs-weaken s b c (r ∷ rs) h k = elim (Bool-cases (same r.instruction.stream s)) [
  | inl e ↦
      let k' : (c ≤ r.instruction.counter) × Climbs s r.instruction.counter rs = rw e at k in
      rw e (omega (arith, k'.0), k'.1)
  | inr e ↦ let k' : Climbs s c rs = rw e at k in rw e (Climbs-weaken s b c rs h k')
]

module _ (s : Text) where
  -- The latest counter of the stream, 0 if there is none.
  unfoldable pub latest : Throttler → ℕ
  latest t = elim (lookup s t.instruction_counter) [ none ↦ 0 | some n ↦ n ]

  -- The request in the queue of the stream is of that stream, with the latest counter.
  pub record IsLatest (t : Throttler) : Type 0 where
    pub of_stream :
        (k : Text) (r : Request) → lookup k t.queue ≡ some r → same r.instruction.stream k ≡ true
    pub with_latest : (r : Request) → lookup s t.queue ≡ some r → r.instruction.counter ≡ latest t

  -- What a step does.
  pub record Advances (t : Throttler) (r : List Request × Throttler) : Type 0 where
    pub not_less : latest t ≤ latest r.1
    pub kept : IsLatest r.1
    pub calls :
        (b : ℕ) (rs : List Request)
        → b ≤ latest t
        → Climbs s (latest r.1) rs
        → Climbs s b (r.0 ++ rs)

  idle-Advances : (t : Throttler) → IsLatest t → Advances t ([], t)
  idle-Advances t v = record {
    not_less = omega arith;
    kept = v;
    calls = λ b rs h c. Climbs-weaken s b (latest t) rs h c;
  }

  if-Advances :
      (t : Throttler) (test : Bool) (r r' : List Request × Throttler)
      → (test ≡ true → Advances t r)
      → (test ≡ false → Advances t r')
      → Advances t (if test then r else r')
  if-Advances t true r r' a a' = a refl
  if-Advances t false r r' a a' = a' refl

  one_call :
      (b n : ℕ) (k : Text) (r : Request) (rs : List Request)
      → same r.instruction.stream k ≡ true
      → (same k s ≡ true → r.instruction.counter ≡ n)
      → b ≤ n
      → Climbs s n rs
      → Climbs s b (r ∷ rs)
  one_call b n k r rs of_k is_latest h c = elim (Bool-cases (same r.instruction.stream s)) [
    | inl e ↦
        let eq : r.instruction.counter ≡ n = is_latest (ground arith) in
        rw e (omega (arith, eq), subst (λ x. Climbs s x rs) (sym eq) c)
    | inr e ↦ rw e (Climbs-weaken s b n rs h c)
  ]

  found_latest :
      (k : Text) (r : Request) (t : Throttler)
      → IsLatest t
      → lookup k t.queue ≡ some r
      → same k s ≡ true
      → r.instruction.counter ≡ latest t
  found_latest k r t v e k_is_s = v.with_latest r (ground arith)

  invoke-Advances : (k : Text) (t : Throttler) → IsLatest t → Advances t (invoke k t)
  unfolding invoke latest
  invoke-Advances k t v =
      if-Advances t t.stopped _ _ (λ e. idle-Advances t v)
        (λ e. elim (Option-cases (lookup k t.queue)) [
          | inl none_left ↦ rw none_left (record {
            not_less = omega arith;
            kept = record { of_stream = v.of_stream; with_latest = v.with_latest };
            calls = λ b rs h c. Climbs-weaken s b (latest t) rs h c;
          })
          | inr (r, found) ↦ rw found (record {
            not_less = omega arith;
            kept = record {
              of_stream = λ j q h. v.of_stream j q (ground (arith, lookup-erase j k t.queue));
              with_latest = λ q h. v.with_latest q (ground (arith, lookup-erase s k t.queue));
            };
            calls = λ b rs h c.
                one_call b (latest t) k r rs (v.of_stream k r found) (found_latest k r t v found) h
                  c;
          })
        ])

  enqueued-IsLatest : (r : Request) (t : Throttler) → IsLatest t → IsLatest (enqueued r t)
  unfolding enqueued latest
  enqueued-IsLatest r t v = record {
    of_stream =
        λ j q h. ground (arith, lookup-insert j r.instruction.stream r t.queue, v.of_stream j q);
    with_latest = λ q h. ground (
      arith,
      lookup-insert s r.instruction.stream r t.queue,
      lookup-insert s r.instruction.stream r.instruction.counter t.instruction_counter,
      v.with_latest q,
    );
  }

  latest-enqueued :
      (r : Request) (t : Throttler)
      → is_accepted r.instruction.stream r.instruction.counter t ≡ true
      → latest t ≤ latest (enqueued r t)
  unfolding enqueued latest is_accepted
  latest-enqueued r t a =
      ground
        (arith, lookup-insert s r.instruction.stream r.instruction.counter t.instruction_counter)

  -- A step from a throttler whose latest counter is at least as great is a step from this one.
  from_later :
      (t t' : Throttler) (r : List Request × Throttler)
      → latest t ≤ latest t'
      → Advances t' r
      → Advances t r
  from_later t t' r h a = record {
    not_less = omega (arith, a.not_less);
    kept = a.kept;
    calls = λ b rs k c. a.calls b rs (omega arith) c;
  }

  add_request-Advances : (r : Request) (t : Throttler) → IsLatest t → Advances t (add_request r t)
  unfolding add_request
  add_request-Advances r t v =
      let stream = r.instruction.stream in
      let ready = enqueued r t in
      let v' = enqueued-IsLatest r t v in
      if-Advances t t.stopped _ _ (λ e. idle-Advances t v)
        (λ e.
          if-Advances t (is_accepted stream r.instruction.counter t) _ _
            (λ a. from_later t ready _ (latest-enqueued r t a) (
              if-Advances ready (is_handling stream ready) _ _ (λ h. idle-Advances ready v')
                (λ h. invoke-Advances stream ready v')))
            (λ a. idle-Advances t v))

  settled-Advances : (k : Text) (t : Throttler) → IsLatest t → Advances t (settled k t)
  unfolding settled
  settled-Advances k t v =
      if-Advances t (is_handling k t) _ _ (λ h. invoke-Advances k t v) (λ h. idle-Advances t v)

  remove_stream_id-Advances :
      (k : Text) (t : Throttler)
      → same k s ≡ false
      → IsLatest t
      → Advances t ([], remove_stream_id k t)
  unfolding remove_stream_id latest
  remove_stream_id-Advances k t other v = record {
    not_less = ground (arith, lookup-erase s k t.instruction_counter);
    kept = record {
      of_stream = λ j q h. v.of_stream j q (ground (arith, lookup-erase j k t.queue));
      with_latest = λ q h. ground (
        arith,
        lookup-erase s k t.queue,
        lookup-erase s k t.instruction_counter,
        v.with_latest q,
      );
    };
    calls = λ b rs h c.
        Climbs-weaken s b (latest t) rs h (ground (arith, lookup-erase s k t.instruction_counter));
  }

  run-Climbs :
      (es : List Event) (t : Throttler) (b : ℕ)
      → IsLatest t
      → Keeps s es
      → b ≤ latest t
      → Climbs s b (run es t).0
  unfolding run step
  run-Climbs [] t b v k h = tt
  run-Climbs (adds r ∷ es) t b v k h =
      let a = add_request-Advances r t v in
      a.calls b _ h
        (run-Climbs es (add_request r t).1 (latest (add_request r t).1) a.kept k (omega arith))
  run-Climbs (settles j ∷ es) t b v k h =
      let a = settled-Advances j t v in
      a.calls b _ h (run-Climbs es (settled j t).1 (latest (settled j t).1) a.kept k (omega arith))
  run-Climbs (removes j ∷ es) t b v k h =
      let a = remove_stream_id-Advances j t k.0 v in
      a.calls b _ h (
        run-Climbs es (remove_stream_id j t) (latest (remove_stream_id j t)) a.kept k.1
          (omega arith))

  new_throttler-IsLatest : IsLatest new_throttler
  unfolding lookup
  new_throttler-IsLatest = record {
    of_stream = λ k r h. absurd (ground arith);
    with_latest = λ r h. absurd (ground arith);
  }

  -- However requests arrive and handlers finish, and whichever other streams are removed: the
  -- instructions of a stream that a new throttler hands to its handler have counters that never
  -- descend.
  pub calls-Climbs : (es : List Event) → Keeps s es → Climbs s 0 (run es new_throttler).0
  calls-Climbs es k = run-Climbs es new_throttler 0 new_throttler-IsLatest k (omega arith)
