-- ===== src/Network/StreamManager/Marks.antt =====
-- `markNumbersAndCheckThatIsNotDuplicate` of StreamManager.ts and the detector of each key.
use network_monorepo.Prelude.{
  ◌≡◌, refl, ◌∙◌, ap, ◌&&◌, Bool, Option, none, some, arith, if◌then◌else◌, Text, same, lookup,
  lookup-insert, insert,
}
use network_monorepo.Network.NumberPair.{NumberPair}
use network_monorepo.Network.Detector.{Detector, Error, Verdict, ok, throw, mark_and_check}
use network_monorepo.Network.Detector
use network_monorepo.Network.Detector.Once.{after}
use network_monorepo.Network.StreamManager.{
  StreamState, Streams, Answer, answered, failed, key_for_detector, detector_of, keep_detector,
  mark_in_state, get_outbound_nodes_for_stream, put_state,
  mark_numbers_and_check_that_is_not_duplicate,
}

-- What the detector answers.
abbrev pub answer_of : Verdict (Bool × Detector) → Answer
answer_of (ok (b, d)) = answered b
answer_of (throw e) = failed e

-- The detector of a key in a stream; a new one where there is none.
unfoldable pub detector_at : Text → Text → Streams → Detector
detector_at stream key streams = elim (lookup stream streams) [
  | none ↦ Detector.init 10000
  | some s ↦ detector_of key s
]

keep_detector_lem :
    (k key : Text) (s : StreamState) (d : Detector) (v : Verdict (Bool × Detector))
    → ((keep_detector key s d v).0 ≡ answer_of v)
      × (detector_of k (keep_detector key s d v).1
          ≡ (if same key k then after d v else detector_of k s))
unfolding detector_of
keep_detector_lem k key s d (ok (b, d')) =
    (refl, ground (arith, lookup-insert k key d' s.detectors))
keep_detector_lem k key s d (throw e) = (refl, ground (arith, lookup-insert k key d s.detectors))

pub detector_at-insert :
    (other k stream : Text) (s : StreamState) (streams : Streams)
    → detector_at other k (insert stream s streams)
      ≡ (if same stream other then detector_of k s else detector_at other k streams)
unfolding detector_at
detector_at-insert other k stream s streams = ground (arith, lookup-insert other stream s streams)

pub detector_at-here :
    (k stream : Text) (s : StreamState) (streams : Streams)
    → lookup stream streams ≡ some s
    → detector_at stream k streams ≡ detector_of k s
unfolding detector_at
detector_at-here k stream s streams h = rw (h, detector_at) refl

pub marked :
    (stream publisher_id msg_chain_id : Text) (previous : Option NumberPair) (number : NumberPair)
    (s : StreamState) (streams : Streams)
    → lookup stream streams ≡ some s
    → mark_numbers_and_check_that_is_not_duplicate stream publisher_id msg_chain_id previous number
        streams
      ≡ put_state stream streams
          (mark_in_state (key_for_detector publisher_id msg_chain_id) previous number s)
unfolding mark_numbers_and_check_that_is_not_duplicate
marked stream publisher_id msg_chain_id previous number s streams h =
    rw (h, mark_numbers_and_check_that_is_not_duplicate) refl

same_stream :
    (other stream k key : Text) (s : StreamState) (streams : Streams) (d : Detector)
    → detector_at stream k streams ≡ detector_of k s
    → (if same stream other
        then if same key k then d else detector_of k s
        else detector_at other k streams)
      ≡ (if same stream other && same key k then d else detector_at other k streams)
same_stream other stream k key s streams d h = ground arith

-- In a stream that is set up, marking a message gives the answer of the detector of the stream,
-- publisher and chain, which moves on as it does by itself, and no other detector changes.
pub mark_numbers_lem :
    (other k stream publisher_id msg_chain_id : Text) (previous : Option NumberPair)
    (number : NumberPair) (s : StreamState) (streams : Streams)
    → lookup stream streams ≡ some s
    → let key = key_for_detector publisher_id msg_chain_id in
      let d = detector_at stream key streams in
      let result =
        mark_numbers_and_check_that_is_not_duplicate stream publisher_id msg_chain_id previous
          number streams in
      (result.0 ≡ answer_of (mark_and_check d previous number))
      × (detector_at other k result.1 ≡ (
          if same stream other && same key k
          then after d (mark_and_check d previous number)
          else detector_at other k streams))
unfolding mark_in_state
mark_numbers_lem other k stream publisher_id msg_chain_id previous number s streams h =
    let key = key_for_detector publisher_id msg_chain_id in
    let d = detector_of key s in
    let kept = keep_detector_lem k key s d (mark_and_check d previous number) in
    let s' = (keep_detector key s d (mark_and_check d previous number)).1 in
    rw
      (
        marked stream publisher_id msg_chain_id previous number s streams h,
        detector_at-here key stream s streams h,
      )
      (
        kept.0,
        detector_at-insert other k stream s' streams
            ∙ ap (λ x. if same stream other then x else detector_at other k streams) kept.1
            ∙ same_stream other stream k key s streams (after d (mark_and_check d previous number))
                (detector_at-here k stream s streams h),
      )

keep_detector-outbound :
    (key : Text) (s : StreamState) (d : Detector) (v : Verdict (Bool × Detector))
    → (keep_detector key s d v).1.outbound_nodes ≡ s.outbound_nodes
keep_detector-outbound key s d (ok (b, d')) = refl
keep_detector-outbound key s d (throw e) = refl

outbound-insert :
    (stream : Text) (s : StreamState) (streams : Streams)
    → get_outbound_nodes_for_stream stream (insert stream s streams) ≡ some s.outbound_nodes
unfolding get_outbound_nodes_for_stream
outbound-insert stream s streams = ground (arith, lookup-insert stream stream s streams)

-- Marking leaves the stream's outbound nodes as they are.
pub outbound-mark_numbers :
    (stream publisher_id msg_chain_id : Text) (previous : Option NumberPair) (number : NumberPair)
    (s : StreamState) (streams : Streams)
    → lookup stream streams ≡ some s
    → get_outbound_nodes_for_stream stream
        (mark_numbers_and_check_that_is_not_duplicate stream publisher_id msg_chain_id previous
          number streams).1
      ≡ some s.outbound_nodes
unfolding get_outbound_nodes_for_stream mark_in_state
outbound-mark_numbers stream publisher_id msg_chain_id previous number s streams h =
    let key = key_for_detector publisher_id msg_chain_id in
    let d = detector_of key s in
    rw (marked stream publisher_id msg_chain_id previous number s streams h) (
      outbound-insert stream (mark_in_state key previous number s).1 streams
      ∙ ap some (keep_detector-outbound key s d (mark_and_check d previous number)))
