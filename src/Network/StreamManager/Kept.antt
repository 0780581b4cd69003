-- ===== src/Network/StreamManager/Kept.antt =====
-- The operations of a stream manager beside its detectors: those that leave all detectors alone.
use network_monorepo.Prelude.{
  ℕ, ◌≡◌, refl, sym, ◌∙◌, true, false, Option, some, List, [], ◌∷◌, arith, Option-cases, inl, inr,
  if◌then◌else◌, Text, same, lookup, lookup-erase, insert, erase, defines, defines-insert,
}
use network_monorepo.Network.NumberPair.{NumberPair}
use network_monorepo.Network.Detector.{Detector, Verdict, ok, throw, mark_and_check}
use network_monorepo.Network.Detector
use network_monorepo.Network.StreamManager.{
  StreamState, Streams, is_set_up, fresh_state, set_up_stream, detector_of, key_for_detector,
  mark_in_state, mark_numbers_and_check_that_is_not_duplicate, change, update_counter,
  add_inbound_node, add_outbound_node, remove_node_from_stream, remove_node_from_all_streams,
  remove_stream,
}
use network_monorepo.Network.StreamManager.Marks.{
  detector_at, detector_at-insert, detector_at-here, marked,
}

-- Every detector is as it was, and no stream is gone.
pub record Kept (streams streams' : Streams) : Type 0 where
  pub detectors : (j k : Text) → detector_at j k streams' ≡ detector_at j k streams
  pub set_up : (j : Text) → defines j streams ≡ true → defines j streams' ≡ true

pub Kept-refl : (streams : Streams) → Kept streams streams
Kept-refl streams = record { detectors = λ j k. refl; set_up = λ j h. h }

pub Kept-trans : (a b c : Streams) → Kept a b → Kept b c → Kept a c
Kept-trans a b c f g = record {
  detectors = λ j k. g.detectors j k ∙ f.detectors j k;
  set_up = λ j h. g.set_up j (f.set_up j h);
}

pub found-defined :
    (stream : Text) (streams : Streams)
    → defines stream streams ≡ true
    → (s : StreamState) × (lookup stream streams ≡ some s)
unfolding defines
found-defined stream streams h = elim (Option-cases (lookup stream streams)) [
  | inl e ↦ absurd (ground arith)
  | inr r ↦ r
]

-- A state put in place of one with the same detectors.
insert-Kept :
    (stream : Text) (s' : StreamState) (streams : Streams)
    → ((k : Text) → detector_at stream k streams ≡ detector_of k s')
    → Kept streams (insert stream s' streams)
insert-Kept stream s' streams h = record {
  detectors = λ j k. ground (arith, detector_at-insert j k stream s' streams, h k);
  set_up = λ j d. ground (arith, defines-insert j stream s' streams);
}

detector_of-fresh : (k : Text) → detector_of k fresh_state ≡ Detector.init 10000
unfolding detector_of lookup
detector_of-fresh k = refl

detector_at-absent :
    (j k : Text) (streams : Streams)
    → defines j streams ≡ false
    → detector_at j k streams ≡ Detector.init 10000
unfolding detector_at defines
detector_at-absent j k streams h = elim (Option-cases (lookup j streams)) [
  | inl e ↦ rw (e, detector_at) refl
  | inr (s, e) ↦ absurd (ground arith)
]

pub set_up_stream-Kept :
    (stream : Text) (streams : Streams)
    → is_set_up stream streams ≡ false
    → (streams' : Streams) × (set_up_stream stream streams ≡ some streams')
      × (defines stream streams' ≡ true)
      × Kept streams streams'
unfolding set_up_stream is_set_up
set_up_stream-Kept stream streams h = (
  insert stream fresh_state streams,
  rw h refl,
  ground (arith, defines-insert stream stream fresh_state streams),
  insert-Kept stream fresh_state streams
      (λ k. detector_at-absent stream k streams h ∙ sym (detector_of-fresh k)),
)

pub change-Kept :
    (stream : Text) (f : StreamState → StreamState) (streams : Streams)
    → ((k : Text) (s : StreamState) → detector_of k (f s) ≡ detector_of k s)
    → defines stream streams ≡ true
    → (streams' : Streams) × (change stream f streams ≡ some streams') × Kept streams streams'
unfolding change
change-Kept stream f streams h d =
    let (s, e) = found-defined stream streams d in
    (
      insert stream (f s) streams,
      rw (e, change) refl,
      insert-Kept stream (f s) streams (λ k. detector_at-here k stream s streams e ∙ sym (h k s)),
    )

defines-remove_node :
    (j node : Text) (streams : Streams)
    → defines j (remove_node_from_all_streams node streams).1 ≡ defines j streams
unfolding remove_node_from_all_streams defines lookup
defines-remove_node j node [] = refl
defines-remove_node j node ((stream, s) ∷ streams) =
    ground (arith, defines-remove_node j node streams)

detector_at-remove_node :
    (j k node : Text) (streams : Streams)
    → detector_at j k (remove_node_from_all_streams node streams).1 ≡ detector_at j k streams
unfolding remove_node_from_all_streams detector_at lookup detector_of
detector_at-remove_node j k node [] = refl
detector_at-remove_node j k node ((stream, s) ∷ streams) =
    ground (arith, detector_at-remove_node j k node streams)

pub remove_node_from_all_streams-Kept :
    (node : Text) (streams : Streams) → Kept streams (remove_node_from_all_streams node streams).1
remove_node_from_all_streams-Kept node streams = record {
  detectors = λ j k. detector_at-remove_node j k node streams;
  set_up = λ j h. defines-remove_node j node streams ∙ h;
}

-- Marking in a stream that is set up keeps it and all others set up.
pub marking-set_up :
    (j stream publisher_id msg_chain_id : Text) (previous : Option NumberPair) (number : NumberPair)
    (streams : Streams)
    → defines stream streams ≡ true
    → defines j streams ≡ true
    → defines j
        (mark_numbers_and_check_that_is_not_duplicate stream publisher_id msg_chain_id previous
          number streams).1
      ≡ true
marking-set_up j stream publisher_id msg_chain_id previous number streams d h =
    let (s, e) = found-defined stream streams d in
    rw (marked stream publisher_id msg_chain_id previous number s streams e) (
      ground (
        arith,
        defines-insert j stream
            (mark_in_state (key_for_detector publisher_id msg_chain_id) previous number s).1
            streams,
      ))

pub add_inbound_node-Kept :
    (stream node : Text) (streams : Streams)
    → defines stream streams ≡ true
    → (streams' : Streams) × (add_inbound_node stream node streams ≡ some streams')
      × Kept streams streams'
unfolding add_inbound_node detector_of
add_inbound_node-Kept stream node streams d = change-Kept stream _ streams (λ k s. refl) d

pub add_outbound_node-Kept :
    (stream node : Text) (streams : Streams)
    → defines stream streams ≡ true
    → (streams' : Streams) × (add_outbound_node stream node streams ≡ some streams')
      × Kept streams streams'
unfolding add_outbound_node detector_of
add_outbound_node-Kept stream node streams d = change-Kept stream _ streams (λ k s. refl) d

pub remove_node_from_stream-Kept :
    (stream node : Text) (streams : Streams)
    → defines stream streams ≡ true
    → (streams' : Streams) × (remove_node_from_stream stream node streams ≡ some streams')
      × Kept streams streams'
unfolding remove_node_from_stream detector_of
remove_node_from_stream-Kept stream node streams d = change-Kept stream _ streams (λ k s. refl) d

pub update_counter-Kept :
    (stream : Text) (counter : ℕ) (streams : Streams)
    → defines stream streams ≡ true
    → (streams' : Streams) × (update_counter stream counter streams ≡ some streams')
      × Kept streams streams'
unfolding update_counter detector_of
update_counter-Kept stream counter streams d = change-Kept stream _ streams (λ k s. refl) d

detector_at-erase :
    (other k stream : Text) (streams : Streams)
    → detector_at other k (erase stream streams)
      ≡ (if same stream other then Detector.init 10000 else detector_at other k streams)
unfolding detector_at
detector_at-erase other k stream streams = ground (arith, lookup-erase other stream streams)

-- A stream that is removed takes its detectors with it.
pub detector_at-remove_stream :
    (other k stream : Text) (streams : Streams) (r : List Text × Streams)
    → remove_stream stream streams ≡ some r
    → detector_at other k r.1
      ≡ (if same stream other then Detector.init 10000 else detector_at other k streams)
unfolding remove_stream
detector_at-remove_stream other k stream streams r e = elim (Option-cases (lookup stream streams)) [
  | inl f ↦ absurd (ground arith)
  | inr (s, f) ↦ ground (arith, detector_at-erase other k stream streams)
]
