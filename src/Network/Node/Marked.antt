-- ===== src/Network/Node/Marked.antt =====
-- The marking of a message in the state of a node (Node.ts).
use network_monorepo.Prelude.{
  ℕ, ◌+◌, ◌≤◌, ◌≡◌, refl, sym, subst, ◌&&◌, Bool, true, false, [], arith, if◌then◌else◌, Text, same,
  eq-of-same, defines,
}
use network_monorepo.Network.NumberPair.{equal_to}
use network_monorepo.Network.Detector.{Detector, Verdict, mark_and_check}
use network_monorepo.Network.Detector.Mark.{IsSound as IsSoundDetector}
use network_monorepo.Network.Detector.Once.{after, answer, mark_and_check-IsSound}
use network_monorepo.Network.Detector.Budget.{remaining, remaining-mark}
use network_monorepo.Network.StreamManager.{
  Streams, Answer, key_for_detector, mark_numbers_and_check_that_is_not_duplicate,
}
use network_monorepo.Network.StreamManager.Marks.{answer_of, detector_at, mark_numbers_lem}
use network_monorepo.Network.StreamManager.Kept.{found-defined, marking-set_up}
use network_monorepo.Network.SeenSet.{Message, stream_of, number_of, previous_of}
use network_monorepo.Network.Node.{Node}
use network_monorepo.Network.Node.Progress.{IsSound, Number, is_of, left, number_of-finite}

module _ {S : Type 0} (print : ℕ → Text) (m : Message) (st : Node S) where
  abbrev pub key : Text
  key = key_for_detector m.publisher_id m.msg_chain_id

  -- What marking answers, and the streams after it.
  abbrev pub marked : Answer × Streams
  marked =
      mark_numbers_and_check_that_is_not_duplicate (stream_of print m) m.publisher_id m.msg_chain_id
        (previous_of m) (number_of m) st.streams

  abbrev pub own_detector : Detector
  own_detector = detector_at (stream_of print m) key st.streams

  abbrev pub result_of : Verdict (Bool × Detector)
  result_of = mark_and_check own_detector (previous_of m) (number_of m)

  module _ (d : defines (stream_of print m) st.streams ≡ true) where
    marked_lem :
        (j k : Text)
        → (marked.0 ≡ answer_of result_of)
          × (detector_at j k marked.1 ≡ (
              if same (stream_of print m) j && same key k
              then after own_detector result_of
              else detector_at j k st.streams))
    marked_lem j k =
        let (s, e) = found-defined (stream_of print m) st.streams d in
        mark_numbers_lem j k (stream_of print m) m.publisher_id m.msg_chain_id (previous_of m)
          (number_of m) s st.streams e

    pub marked-answer : marked.0 ≡ answer_of result_of
    marked-answer = (marked_lem [] []).0

    pub marked-set_up : (j : Text) → defines j st.streams ≡ true → defines j marked.1 ≡ true
    marked-set_up j h =
        marking-set_up j (stream_of print m) m.publisher_id m.msg_chain_id (previous_of m)
          (number_of m) st.streams d h

  module _ (v : IsSound st) (d : defines (stream_of print m) st.streams ≡ true) where
    IsSound-if :
        (b : Bool) (j k : Text)
        → IsSoundDetector (if b then after own_detector result_of else detector_at j k st.streams)
    IsSound-if true j k =
        mark_and_check-IsSound own_detector (previous_of m) (number_of m) (number_of-finite m)
          (v.detectors (stream_of print m) key)
    IsSound-if false j k = v.detectors j k

    pub marked-IsSound : IsSound (record st { streams = marked.1 })
    marked-IsSound = record {
      detectors = λ j k.
          subst IsSoundDetector (sym (marked_lem d j k).1)
            (IsSound-if (same (stream_of print m) j && same key k) j k);
      room = v.room;
    }

    module _ (x : Number) where
      spent_if :
          (b : Bool)
          → (b ≡ true → detector_at x.stream x.key st.streams ≡ own_detector)
          → (if (b && equal_to x.n (number_of m)) && answer result_of then 1 else 0)
              + remaining x.n (
                  if b then after own_detector result_of else detector_at x.stream x.key st.streams)
            ≤ remaining x.n (detector_at x.stream x.key st.streams)
      spent_if true h = rw (h refl) (
          remaining-mark x.n (number_of m) own_detector (previous_of m) (number_of-finite m)
            (v.detectors (stream_of print m) key))
      spent_if false h = omega arith

      own :
          (same (stream_of print m) x.stream && same key x.key) ≡ true
          → detector_at x.stream x.key st.streams ≡ own_detector
      own h =
          rw
            (
              sym (eq-of-same (stream_of print m) x.stream (ground arith)),
              sym (eq-of-same key x.key (ground arith)),
            )
            refl

      pub marked-left :
          (if is_of print x m && answer result_of then 1 else 0)
            + left x (record st { streams = marked.1 })
          ≤ left x st
      unfolding left is_of
      marked-left =
          rw (marked_lem d x.stream x.key).1
            (ground (arith, spent_if (same (stream_of print m) x.stream && same key x.key) own))
