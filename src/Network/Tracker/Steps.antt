-- ===== src/Network/Tracker/Steps.antt =====
-- What a tracker (Tracker.ts) does to its overlays when a node leaves or reports.
use network_monorepo.Prelude.{
  Ensures, Ensures-and_then, ◌≡◌, refl, ◌∙◌, Bool, true, not, ◌&&◌, Option, some, List, [], ◌∷◌,
  ◌++◌, arith, Text, same, has, filter, Dict, insert, erase, keys, defines, IsDistinct, to_set,
  has-keys, has-filter, defines-insert, filter-IsDistinct,
}
use network_monorepo.Network.Topology.{Nodes, update}
use network_monorepo.Network.Topology.Choice.{Shuffles, Picks}
use network_monorepo.Network.Topology.Update.{update-WellFormed}
use network_monorepo.Network.Counter.{StatusStreams, StreamStatus, unsubscribed, count}
use network_monorepo.Network.LocationManager.{Location, remove_location}
use network_monorepo.Network.Tracker.{
  Tracker, Instruction, leave_and_check_empty_overlay, leave_each, update_overlay, quietly,
  update_each, unmentioned, update_node, update_single, update_node_on_stream, on_node_disconnected,
}
use network_monorepo.Network.Tracker.Sent.{
  IsSound, Leaves, Leaves-refl, Leaves-trans, is_member, member-defined, found-defines,
  insert-IsSound,
}
use network_monorepo.Network.Tracker.Total.{Left, leave_and_check-Left}

member-of_all :
    (k m node : Text) (o o' : Dict Nodes)
    → Leaves node (keys o) o o'
    → is_member o' k m ≡ (is_member o k m && not (same node m))
member-of_all k m node o o' l = ground (arith, l.members k m, has-keys k o, member-defined o k m)

module _ {C : Type 0} (is_zero : C → Bool) (find_address : Text → Option (Location C))
    (shuffle : List Text → List Text) (pick : List Text → Text) (s : Shuffles shuffle)
    (picks : Picks pick) where
  pub leave_each-Left :
      (node : Text) (streams : List Text) (t : Tracker C)
      → IsSound t.overlay_per_stream
      → IsDistinct streams
      → ((k : Text) → has k streams ≡ true → defines k t.overlay_per_stream ≡ true)
      → Ensures
          (Left is_zero find_address shuffle pick s picks node streams t)
          (leave_each is_zero find_address shuffle pick streams node t)
  unfolding leave_each has
  leave_each-Left node [] t v d h = ([], t, refl, Leaves-refl node t.overlay_per_stream v)
  leave_each-Left node (stream ∷ streams) t v d h =
      Ensures-and_then (Left is_zero find_address shuffle pick s picks node (stream ∷ []) t)
        (Left is_zero find_address shuffle pick s picks node (stream ∷ streams) t) _ _
        (leave_and_check-Left is_zero find_address shuffle pick s picks node stream t v
          (h stream (ground arith)))
        λ t' l.
          let there : (k : Text) → has k streams ≡ true → defines k t'.overlay_per_stream ≡ true =
            λ k e. ground (arith, h k, l.kept k) in
          let (sent, t'', e, l') = leave_each-Left node streams t' l.sound d.1 there in
          (
            sent,
            t'',
            e,
            Leaves-trans node (stream ∷ []) streams t.overlay_per_stream t'.overlay_per_stream
                t''.overlay_per_stream l l',
          )

  -- If all overlays are well formed, then a disconnection does not throw, removes the node from all
  -- overlays and no other node from any, and leaves all overlays well formed.
  pub on_node_disconnected_lem :
      (k m node : Text) (t : Tracker C)
      → IsSound t.overlay_per_stream
      → (sent : List Instruction) × (t' : Tracker C) × (on_node_disconnected is_zero find_address
            shuffle pick node t
          ≡ some (sent, t'))
        × IsSound t'.overlay_per_stream
        × (is_member t'.overlay_per_stream k m
            ≡ (is_member t.overlay_per_stream k m && not (same node m)))
  unfolding on_node_disconnected
  on_node_disconnected_lem k m node t v =
      let next : Tracker C = record t {
        overlay_connection_rtts = erase node t.overlay_connection_rtts;
        node_locations = remove_location is_zero find_address node t.node_locations;
      } in
      let streams = keys t.overlay_per_stream in
      let (sent, t', e, l) =
        leave_each-Left node streams next v v.distinct
          (λ j h. ground (arith, has-keys j t.overlay_per_stream)) in
      (sent, t', e, l.sound, member-of_all k m node t.overlay_per_stream t'.overlay_per_stream l)

  -- `P` for an optional tracker that is there.
  abbrev Some : (Tracker C → Type 0) → Option (Tracker C) → Type 0
  Some P r = (t : Tracker C) × (r ≡ some t) × P t

  -- The overlays are well formed, and the same streams have one.
  pub record Updated (t t' : Tracker C) : Type 0 where
    pub sound : IsSound t'.overlay_per_stream
    pub streams : (k : Text) → defines k t'.overlay_per_stream ≡ defines k t.overlay_per_stream

  update_overlay-Updated :
      (node stream : Text) (status : StreamStatus) (t : Tracker C)
      → IsSound t.overlay_per_stream
      → defines stream t.overlay_per_stream ≡ true
      → Ensures (Updated t) (
          quietly is_zero find_address shuffle pick
            (update_overlay is_zero find_address shuffle pick node stream status t))
  unfolding update_overlay
  update_overlay-Updated node stream status t v d =
      let (nodes, e) = found-defines stream t.overlay_per_stream d in
      let reported = to_set (status.inbound_nodes ++ status.outbound_nodes) in
      let nodes' = update node reported nodes in
      (
        [],
        record t { overlay_per_stream = insert stream nodes' t.overlay_per_stream },
        rw (e, update_overlay) refl,
        record {
          sound =
              insert-IsSound stream nodes' t.overlay_per_stream
                (update-WellFormed node reported nodes (v.well_formed stream nodes e)) v;
          streams = λ k. ground (arith, defines-insert k stream nodes' t.overlay_per_stream);
        },
      )

  update_each-Updated :
      (node : Text) (streams : StatusStreams) (t : Tracker C)
      → IsSound t.overlay_per_stream
      → ((k : Text) → has k (keys streams) ≡ true → defines k t.overlay_per_stream ≡ true)
      → Ensures (Updated t) (update_each is_zero find_address shuffle pick node streams t)
  unfolding update_each has
  update_each-Updated node [] t v h = ([], t, refl, record { sound = v; streams = λ k. refl })
  update_each-Updated node ((stream, status) ∷ streams) t v h =
      Ensures-and_then (Updated t) (Updated t) _ _
        (update_overlay-Updated node stream status t v (h stream (ground arith)))
        λ t' u.
          let (sent, t'', e, u') =
            update_each-Updated node streams t' u.sound (λ k e. u.streams k ∙ h k (ground arith)) in
          (sent, t'', e, record { sound = u'.sound; streams = λ k. u'.streams k ∙ u.streams k })

  -- All that the later steps of a status need.
  abbrev pub Sound : Tracker C → Type 0
  Sound t = IsSound t.overlay_per_stream

  pub update_node-Sound :
      (node : Text) (filtered all_streams : StatusStreams) (t : Tracker C)
      → IsSound t.overlay_per_stream
      → ((k : Text) → has k (keys filtered) ≡ true → defines k t.overlay_per_stream ≡ true)
      → Ensures Sound (update_node is_zero find_address shuffle pick node filtered all_streams t)
  unfolding update_node unmentioned
  update_node-Sound node filtered all_streams t v h =
      Ensures-and_then (Updated t) Sound _ _ (update_each-Updated node filtered t v h) λ t' u.
        let gone = filter (λ k. not (has k (keys all_streams))) (keys t'.overlay_per_stream) in
        let (sent, t'', e, l) =
          leave_each-Left node gone t' u.sound
            (filter-IsDistinct (λ k. not (has k (keys all_streams))) (keys t'.overlay_per_stream)
              u.sound.distinct)
            (λ k e. ground (
              arith,
              has-filter k (λ j. not (has j (keys all_streams))) (keys t'.overlay_per_stream),
              has-keys k t'.overlay_per_stream,
            )) in
        (sent, t'', e, l.sound)

  update_single-Sound :
      (node stream : Text) (status : StreamStatus) (t : Tracker C)
      → IsSound t.overlay_per_stream
      → defines stream t.overlay_per_stream ≡ true
      → Ensures Sound (update_single is_zero find_address shuffle pick node stream status t)
  unfolding update_single
  update_single-Sound node stream status t v d =
      elim status.counter
        as (λ c. Ensures Sound (elim c [
          | unsubscribed ↦
              leave_and_check_empty_overlay is_zero find_address shuffle pick stream node t
          | count n ↦
              quietly is_zero find_address shuffle pick
                (update_overlay is_zero find_address shuffle pick node stream status t)
        ])) [
          | unsubscribed ↦
              let (sent, t', e, l) =
                leave_and_check-Left is_zero find_address shuffle pick s picks node stream t v d in
              (sent, t', e, l.sound)
          | count n ↦
              let (sent, t', e, u) = update_overlay-Updated node stream status t v d in
              (sent, t', e, u.sound)
        ]

  pub update_node_on_stream-Sound :
      (node : Text) (filtered : StatusStreams) (t : Tracker C)
      → IsSound t.overlay_per_stream
      → ((k : Text) → has k (keys filtered) ≡ true → defines k t.overlay_per_stream ≡ true)
      → Ensures Sound (update_node_on_stream is_zero find_address shuffle pick node filtered t)
  unfolding update_node_on_stream has
  update_node_on_stream-Sound node [] t v h = ([], t, refl, v)
  update_node_on_stream-Sound node ((stream, status) ∷ []) t v h =
      update_single-Sound node stream status t v (h stream (ground arith))
  update_node_on_stream-Sound node (x ∷ y ∷ streams) t v h = ([], t, refl, v)
