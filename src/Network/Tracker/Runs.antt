-- ===== src/Network/Tracker/Runs.antt =====
-- Statuses and disconnections that a tracker (Tracker.ts) handles, and runs of these.
use network_monorepo.Prelude.{
  and_then, Ensures, Ensures-and_then, ℕ, ◌≡◌, refl, subst, Bool, true, false, ◌||◌, Option, some,
  List, [], ◌∷◌, arith, if◌then◌else◌, Text, same, has, filter, lookup, insert, keys, defines,
  defines-insert,
}
use network_monorepo.Network.Topology.Links.{nil-WellFormed}
use network_monorepo.Network.Topology.Choice.{Shuffles, Picks}
use network_monorepo.Network.Counter.{
  Counters, StatusStreams, StreamStatus, filter_status, is_fresh, current,
}
use network_monorepo.Network.Counter.Laws.{filter_status-filter}
use network_monorepo.Network.LocationManager.{Location, update_location}
use network_monorepo.Network.Tracker.{
  Tracker, Instruction, Status, new_tracker, create_overlay, create_new_overlay_topologies,
  update_node, update_node_on_stream, noted, process_node_status, on_node_disconnected,
}
use network_monorepo.Network.Tracker.Sent.{IsSound, insert-IsSound}
use network_monorepo.Network.Tracker.Total.{form_and_send-Left}
use network_monorepo.Network.Tracker.Steps.{
  update_node-Sound, update_node_on_stream-Sound, on_node_disconnected_lem, Sound,
}

-- A filter of a status names no other streams.
has-keys-of_filter :
    (k : Text) (p : Text × StreamStatus → Bool) (streams : StatusStreams)
    → has k (keys (filter p streams)) ≡ true
    → has k (keys streams) ≡ true
unfolding has
has-keys-of_filter k p [] h = h
has-keys-of_filter k p (e ∷ streams) h = ground (arith, has-keys-of_filter k p streams)

filtered-keys :
    (k source : Text) (streams : StatusStreams) (counters : Counters)
    → has k (keys (filter_status streams source counters).0) ≡ true
    → has k (keys streams) ≡ true
filtered-keys k source streams counters h =
    let kept = (filter_status-filter k k source streams counters).0 in
    has-keys-of_filter k (λ e. is_fresh e.1.counter (current source e.0 counters)) streams
      (subst (λ x. has k (keys x) ≡ true) kept h)

-- What can happen to a tracker. The address is that of the source.
pub data Event (C : Type 0) : Type 0 where
  reports : Text → Option Text → Status C → Event C
  disconnects : Text → Event C

module _ {C : Type 0} (is_zero : C → Bool) (find_address : Text → Option (Location C))
    (shuffle : List Text → List Text) (pick : List Text → Text) where
  unfoldable pub handle : Event C → Tracker C → Option (List Instruction × Tracker C)
  handle (reports source address status) t =
      process_node_status is_zero find_address shuffle pick source address status t
  handle (disconnects node) t = on_node_disconnected is_zero find_address shuffle pick node t

  unfoldable pub run : List (Event C) → Tracker C → Option (List Instruction × Tracker C)
  run [] t = some ([], t)
  run (e ∷ es) t = and_then (handle e t) (run es)

  IsSound-if :
      (b : Bool) (t t' : Tracker C)
      → IsSound t.overlay_per_stream
      → IsSound t'.overlay_per_stream
      → IsSound (if b then t else t').overlay_per_stream
  IsSound-if true t t' v v' = v
  IsSound-if false t t' v v' = v'

  create_overlay-IsSound :
      (stream : Text) (t : Tracker C)
      → IsSound t.overlay_per_stream
      → IsSound (create_overlay is_zero find_address shuffle pick stream t).overlay_per_stream
  unfolding create_overlay
  create_overlay-IsSound stream t v =
      IsSound-if (defines stream t.overlay_per_stream) t _ v
        (insert-IsSound stream [] t.overlay_per_stream nil-WellFormed v)

  defines-create_overlay :
      (k stream : Text) (t : Tracker C)
      → defines k (create_overlay is_zero find_address shuffle pick stream t).overlay_per_stream
        ≡ (same k stream || defines k t.overlay_per_stream)
  unfolding create_overlay
  defines-create_overlay k stream t =
      ground (arith, defines-insert k stream [] t.overlay_per_stream)

  create-IsSound :
      (streams : List Text) (t : Tracker C)
      → IsSound t.overlay_per_stream
      → IsSound
          (create_new_overlay_topologies is_zero find_address shuffle pick streams
            t).overlay_per_stream
  unfolding create_new_overlay_topologies
  create-IsSound [] t v = v
  create-IsSound (stream ∷ streams) t v =
      create-IsSound streams (create_overlay is_zero find_address shuffle pick stream t)
        (create_overlay-IsSound stream t v)

  defines-create :
      (k : Text) (streams : List Text) (t : Tracker C)
      → defines k
          (create_new_overlay_topologies is_zero find_address shuffle pick streams
            t).overlay_per_stream
        ≡ (has k streams || defines k t.overlay_per_stream)
  unfolding create_new_overlay_topologies has
  defines-create k [] t = refl
  defines-create k (stream ∷ streams) t = ground (
    arith,
    defines-create k streams (create_overlay is_zero find_address shuffle pick stream t),
    defines-create_overlay k stream t,
  )

  module _ (s : Shuffles shuffle) (picks : Picks pick) where
    by_kind :
        (single : Bool) (source : Text) (filtered all_streams : StatusStreams) (t : Tracker C)
        → IsSound t.overlay_per_stream
        → ((k : Text) → has k (keys filtered) ≡ true → defines k t.overlay_per_stream ≡ true)
        → Ensures (Sound is_zero find_address shuffle pick s picks) (
            if single
            then update_node_on_stream is_zero find_address shuffle pick source filtered t
            else update_node is_zero find_address shuffle pick source filtered all_streams t)
    by_kind true source filtered all_streams t v h =
        update_node_on_stream-Sound is_zero find_address shuffle pick s picks source filtered t v h
    by_kind false source filtered all_streams t v h =
        update_node-Sound is_zero find_address shuffle pick s picks source filtered all_streams t v
          h

    -- If all overlays are well formed, then a status, of one stream or of all, does not throw and
    -- leaves all overlays well formed.
    process_node_status-Sound :
        (source : Text) (address : Option Text) (status : Status C) (t : Tracker C)
        → IsSound t.overlay_per_stream
        → Ensures
            (Sound is_zero find_address shuffle pick s picks)
            (process_node_status is_zero find_address shuffle pick source address status t)
    unfolding process_node_status noted
    process_node_status-Sound source address status t v =
        let S = Sound is_zero find_address shuffle pick s picks in
        let filtered = (filter_status status.streams source t.counters).0 in
        let before : Tracker C = record t {
          counters = (filter_status status.streams source t.counters).1;
          overlay_connection_rtts = insert source status.rtts t.overlay_connection_rtts;
          node_locations =
              update_location is_zero find_address source status.location address t.node_locations;
        } in
        let ready =
          create_new_overlay_topologies is_zero find_address shuffle pick (keys status.streams)
            before in
        Ensures-and_then S S _ _
          (by_kind status.single_stream source filtered status.streams ready
            (create-IsSound (keys status.streams) before v)
            (λ k h. ground (
              arith,
              defines-create k (keys status.streams) before,
              filtered-keys k source status.streams t.counters,
            )))
          λ t' v'.
            let (sent, t'', e, l) =
              form_and_send-Left is_zero find_address shuffle pick s picks source source
                (keys status.streams) false t' v' in
            (sent, t'', e, l.sound)

    handle-Sound :
        (e : Event C) (t : Tracker C)
        → IsSound t.overlay_per_stream
        → Ensures (Sound is_zero find_address shuffle pick s picks) (handle e t)
    unfolding handle
    handle-Sound (reports source address status) t v =
        process_node_status-Sound source address status t v
    handle-Sound (disconnects node) t v =
        let (sent, t', e, v', _) =
          on_node_disconnected_lem is_zero find_address shuffle pick s picks node node node t v in
        (sent, t', e, v')

    run-Sound :
        (es : List (Event C)) (t : Tracker C)
        → IsSound t.overlay_per_stream
        → Ensures (Sound is_zero find_address shuffle pick s picks) (run es t)
    unfolding run
    run-Sound [] t v = ([], t, refl, v)
    run-Sound (e ∷ es) t v =
        let S = Sound is_zero find_address shuffle pick s picks in
        Ensures-and_then S S _ _ (handle-Sound e t v) (run-Sound es)

    nil-IsSound : IsSound []
    unfolding lookup
    nil-IsSound = record { well_formed = λ k nodes h. absurd (ground arith); distinct = tt }

    -- For a shuffle that only reorders and a choice of an element: whatever statuses and
    -- disconnections a new tracker handles, it never throws, and its overlays are all well formed.
    pub run-IsSound :
        (max : ℕ) (es : List (Event C))
        → (sent : List Instruction) × (t : Tracker C) × (run es
              (new_tracker is_zero find_address shuffle pick max)
            ≡ some (sent, t))
          × IsSound t.overlay_per_stream
    unfolding new_tracker
    run-IsSound max es =
        run-Sound es (new_tracker is_zero find_address shuffle pick max) nil-IsSound
