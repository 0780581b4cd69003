-- ===== src/Network/Node/Progress.antt =====
-- What the operations of Node.ts keep of the state, and the unseen messages that they announce.
use network_monorepo.Prelude.{
  ℕ, ◌+◌, ◌≤◌, ◌<◌, ◌≡◌, refl, ◌&&◌, Bool, true, false, List, [], ◌∷◌, ◌++◌, arith, if◌then◌else◌,
  Text, same, defines, Outcome, after_outputs, and_then, Yields,
}
use network_monorepo.Network.NumberPair.{NumberPair, ◌≺◌, equal_to}
use network_monorepo.Network.Detector.{top}
use network_monorepo.Network.Detector.Mark.{IsSound as IsSoundDetector}
use network_monorepo.Network.Detector.Budget.{remaining}
use network_monorepo.Network.StreamManager.{key_for_detector}
use network_monorepo.Network.StreamManager.Marks.{detector_at}
use network_monorepo.Network.StreamManager.Kept.{Kept}
use network_monorepo.Network.SeenSet.{Message, stream_of, number_of}
use network_monorepo.Network.Node.{Node, Output, unseen_message_received}

-- The detectors are sound, and the message buffer has room for two messages of a stream.
pub record IsSound {S : Type 0} (st : Node S) : Type 0 where
  pub detectors : (j k : Text) → IsSoundDetector (detector_at j k st.streams)
  pub room : 1 < st.message_buffer.max_size

pub number_of-finite : (m : Message) → number_of m ≺ top
unfolding number_of network_monorepo.Network.NumberPair.greater_than
number_of-finite m = refl

-- The number `n` of a stream, publisher and chain.
pub record Number : Type 0 where
  pub stream : Text
  pub key : Text
  pub n : NumberPair

unfoldable pub is_of : (ℕ → Text) → Number → Message → Bool
is_of print x m =
    same (stream_of print m) x.stream
    && same (key_for_detector m.publisher_id m.msg_chain_id) x.key
    && equal_to x.n (number_of m)

abbrev announces : (ℕ → Text) → Number → Output → Bool
announces print x (unseen_message_received m source) = is_of print x m
announces print x o = false

-- How often the outputs announce the number as unseen.
unfoldable pub times_unseen : (ℕ → Text) → Number → List Output → ℕ
times_unseen print x [] = 0
times_unseen print x (o ∷ os) = (if announces print x o then 1 else 0) + times_unseen print x os

pub times_unseen-append :
    (print : ℕ → Text) (x : Number) (os os' : List Output)
    → times_unseen print x (os ++ os') ≡ times_unseen print x os + times_unseen print x os'
unfolding times_unseen
times_unseen-append print x [] os' = omega arith
times_unseen-append print x (o ∷ os) os' = omega (arith, times_unseen-append print x os os')

-- What is left of the announcements of a number.
unfoldable pub left : {S : Type 0} → Number → Node S → ℕ
left x st = remaining x.n (detector_at x.stream x.key st.streams)

-- A step to another state: it keeps the invariant and the streams, and what it announces is taken
-- from what is left.
pub record Progress {S : Type 0} (print : ℕ → Text) (x : Number) (st : Node S) (outs : List Output)
    (st' : Node S) : Type 0 where
  pub sound : IsSound st'
  pub set_up : (j : Text) → defines j st.streams ≡ true → defines j st'.streams ≡ true
  pub spent : times_unseen print x outs + left x st' ≤ left x st

pub Progress-trans :
    {S : Type 0} (print : ℕ → Text) (x : Number) (st st' st'' : Node S) (outs later : List Output)
    → Progress print x st outs st'
    → Progress print x st' later st''
    → Progress print x st (outs ++ later) st''
Progress-trans print x st st' st'' outs later p q = record {
  sound = q.sound;
  set_up = λ j h. q.set_up j (p.set_up j h);
  spent = omega (arith, p.spent, q.spent, times_unseen-append print x outs later);
}

-- The same step with outputs before it that announce nothing.
pub Progress-quiet :
    {S : Type 0} (print : ℕ → Text) (x : Number) (st st' : Node S) (outs later : List Output)
    → times_unseen print x outs ≡ 0
    → Progress print x st later st'
    → Progress print x st (outs ++ later) st'
Progress-quiet print x st st' outs later h p = record {
  sound = p.sound;
  set_up = p.set_up;
  spent = omega (arith, p.spent, h, times_unseen-append print x outs later);
}

-- A step that keeps the detectors and announces nothing.
pub Kept-Progress :
    {S : Type 0} (print : ℕ → Text) (x : Number) (st st' : Node S) (outs : List Output)
    → IsSound st
    → Kept st.streams st'.streams
    → 1 < st'.message_buffer.max_size
    → times_unseen print x outs ≡ 0
    → Progress print x st outs st'
unfolding left
Kept-Progress print x st st' outs v k room h = record {
  sound = record { detectors = λ i j. rw (k.detectors i j) (v.detectors i j); room = room };
  set_up = k.set_up;
  spent = rw (k.detectors x.stream x.key, h) (omega arith);
}

-- A step as Progress describes it, after outputs that announce nothing.
pub after_quiet :
    {S : Type 0} (print : ℕ → Text) (x : Number) (st : Node S) (outs : List Output)
    (r : Outcome Output (Node S))
    → times_unseen print x outs ≡ 0
    → Yields (Progress print x st) r
    → Yields (Progress print x st) (after_outputs outs r)
after_quiet print x st outs r h (later, st', e, p) =
    (outs ++ later, st', rw e refl, Progress-quiet print x st st' outs later h p)

pub Progress-and_then :
    {S : Type 0} (print : ℕ → Text) (x : Number) (st : Node S) (r : Outcome Output (Node S))
    (f : Node S → Outcome Output (Node S))
    → Yields (Progress print x st) r
    → ((outs : List Output) (st' : Node S)
        → Progress print x st outs st'
        → Yields (Progress print x st') (f st'))
    → Yields (Progress print x st) (and_then r f)
Progress-and_then print x st r f (outs, st', e, p) k =
    let (later, st'', e', q) = k outs st' p in
    (outs ++ later, st'', rw (e, e') refl, Progress-trans print x st st' st'' outs later p q)
