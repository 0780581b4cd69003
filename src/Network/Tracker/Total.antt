-- ===== src/Network/Tracker/Total.antt =====
-- The steps of a tracker (Tracker.ts) and their exceptions.
use network_monorepo.Prelude.{
  Ensures, Ensures-and_then, ℕ, ◌≡◌, refl, sym, ◌∙◌, Bool, true, false, not, ◌&&◌, Option, List, [],
  ◌∷◌, map, arith, Text, same, Dict, lookup, insert, erase, defines, Bool-cases, Option-cases, inl,
  inr,
}
use network_monorepo.Network.Topology.{Nodes, leave, is_empty, form_instructions, neighbors}
use network_monorepo.Network.Topology.Links.{WellFormed}
use network_monorepo.Network.Topology.Choice.{Shuffles, Picks}
use network_monorepo.Network.Topology.Update.{leave-WellFormed, defines-leave}
use network_monorepo.Network.Topology.Instructions.{
  form_instructions-Formed, form_instructions-some,
}
use network_monorepo.Network.Topology.Known.{defines-form_instructions}
use network_monorepo.Network.Counter.{set_or_increment, remove_node, remove_stream}
use network_monorepo.Network.LocationManager.{Location}
use network_monorepo.Network.Tracker.{
  Tracker, send_each, form_on_stream, form_and_send_instructions, form_for_each,
  leave_and_check_empty_overlay,
}
use network_monorepo.Network.Tracker.Sent.{
  IsSound, Leaves, Leaves-refl, Leaves-trans, replace-Leaves, left-Leaves, dropped-Leaves,
  found-defines,
}

module _ {C : Type 0} (is_zero : C → Bool) (find_address : Text → Option (Location C))
    (shuffle : List Text → List Text) (pick : List Text → Text) (s : Shuffles shuffle)
    (picks : Picks pick) where
  overlays-send_each :
      (stream : Text) (is : Dict (List Text)) (t : Tracker C)
      → (send_each is_zero find_address shuffle pick stream is t).1.overlay_per_stream
        ≡ t.overlay_per_stream
  unfolding send_each
  overlays-send_each stream [] t = refl
  overlays-send_each stream ((node, neighbors) ∷ is) t =
      overlays-send_each stream is
        (record t { counters = (set_or_increment node stream t.counters).1 })

  -- The step of one tracker to another that leaves `node` out of the streams.
  abbrev pub Left : Text → List Text → Tracker C → Tracker C → Type 0
  Left node streams t t' = Leaves node streams t.overlay_per_stream t'.overlay_per_stream

  form_instructions-WellFormed :
      (max : ℕ) (n : Text) (force : Bool) (nodes : Nodes)
      → WellFormed nodes
      → WellFormed (form_instructions shuffle pick max n force nodes).0
  unfolding form_instructions
  form_instructions-WellFormed max n force nodes w = elim (Bool-cases (defines n nodes)) [
    | inl d ↦ (form_instructions-Formed shuffle pick max s picks n force nodes w d).well_formed
    | inr d ↦ rw (d, form_instructions) w
  ]

  form_on_stream-Left :
      (node n stream : Text) (force : Bool) (t : Tracker C)
      → IsSound t.overlay_per_stream
      → Ensures (Left node [] t) (form_on_stream is_zero find_address shuffle pick n stream force t)
  unfolding form_on_stream
  form_on_stream-Left node n stream force t v =
      elim (Option-cases (lookup stream t.overlay_per_stream)) [
        | inl e ↦ ([], t, rw (e, form_on_stream) refl, Leaves-refl node t.overlay_per_stream v)
        | inr (nodes, e) ↦
            let w = v.well_formed stream nodes e in
            let formed = form_instructions shuffle pick t.max_neighbors_per_node n force nodes in
            let (told, told_is) =
              form_instructions-some shuffle pick t.max_neighbors_per_node s picks n force nodes
                w in
            let next : Tracker C = record t {
              overlay_per_stream = insert stream formed.0 t.overlay_per_stream;
            } in
            let is = map (λ m. (m, neighbors m formed.0)) told in
            (
              (send_each is_zero find_address shuffle pick stream is next).0,
              (send_each is_zero find_address shuffle pick stream is next).1,
              rw (e, form_on_stream, told_is) refl,
              rw (overlays-send_each stream is next) (
                  replace-Leaves node stream nodes formed.0 t.overlay_per_stream e
                    (form_instructions-WellFormed t.max_neighbors_per_node n force nodes w)
                    (λ m.
                      defines-form_instructions shuffle pick t.max_neighbors_per_node n m force
                        nodes)
                    v),
            )
      ]

  pub form_and_send-Left :
      (node n : Text) (streams : List Text) (force : Bool) (t : Tracker C)
      → IsSound t.overlay_per_stream
      → Ensures
          (Left node [] t)
          (form_and_send_instructions is_zero find_address shuffle pick n streams force t)
  unfolding form_and_send_instructions
  form_and_send-Left node n [] force t v = ([], t, refl, Leaves-refl node t.overlay_per_stream v)
  form_and_send-Left node n (stream ∷ streams) force t v =
      Ensures-and_then (Left node [] t) (Left node [] t) _ _
        (form_on_stream-Left node n stream force t v)
        λ t' l.
          let (sent, t'', e, l') = form_and_send-Left node n streams force t' l.sound in
          (
            sent,
            t'',
            e,
            Leaves-trans node [] [] t.overlay_per_stream t'.overlay_per_stream
                t''.overlay_per_stream l l',
          )

  form_for_each-Left :
      (node : Text) (ns : List Text) (stream : Text) (t : Tracker C)
      → IsSound t.overlay_per_stream
      → Ensures (Left node [] t) (form_for_each is_zero find_address shuffle pick ns stream t)
  unfolding form_for_each
  form_for_each-Left node [] stream t v = ([], t, refl, Leaves-refl node t.overlay_per_stream v)
  form_for_each-Left node (n ∷ ns) stream t v =
      Ensures-and_then (Left node [] t) (Left node [] t) _ _
        (form_and_send-Left node n (stream ∷ []) true t v)
        λ t' l.
          let (sent, t'', e, l') = form_for_each-Left node ns stream t' l.sound in
          (
            sent,
            t'',
            e,
            Leaves-trans node [] [] t.overlay_per_stream t'.overlay_per_stream
                t''.overlay_per_stream l l',
          )

  defines-empty : (nodes : Nodes) (m : Text) → is_empty nodes ≡ true → defines m nodes ≡ false
  unfolding is_empty defines lookup
  defines-empty [] m h = refl
  defines-empty (e ∷ nodes) m h = absurd (ground arith)

  pub leave_and_check-Left :
      (node stream : Text) (t : Tracker C)
      → IsSound t.overlay_per_stream
      → defines stream t.overlay_per_stream ≡ true
      → Ensures
          (Left node (stream ∷ []) t)
          (leave_and_check_empty_overlay is_zero find_address shuffle pick stream node t)
  unfolding leave_and_check_empty_overlay
  leave_and_check-Left node stream t v d =
      let (nodes, e) = found-defines stream t.overlay_per_stream d in
      let w = v.well_formed stream nodes e in
      let ns = (leave node nodes).0 in
      let left = (leave node nodes).1 in
      let gone : (m : Text) → defines m left ≡ (not (same node m) && defines m nodes) =
        λ m. defines-leave m node nodes in
      elim (Bool-cases (is_empty left)) [
        | inl empty ↦ (
          [],
          record t {
            overlay_per_stream = erase stream t.overlay_per_stream;
            counters = remove_stream stream (remove_node node t.counters);
          },
          rw (e, leave_and_check_empty_overlay, empty) refl,
          dropped-Leaves node stream nodes left t.overlay_per_stream e
              (λ m. sym (gone m) ∙ defines-empty left m empty) v,
        )
        | inr filled ↦
            let next : Tracker C = record t {
              overlay_per_stream = insert stream left t.overlay_per_stream;
              counters = remove_node node t.counters;
            } in
            let l =
              left-Leaves node stream nodes left t.overlay_per_stream e
                (leave-WellFormed node nodes w) gone v in
            let (sent, t', e', l') = form_for_each-Left node ns stream next l.sound in
            (
              sent,
              t',
              rw (e, leave_and_check_empty_overlay, filled) e',
              Leaves-trans node (stream ∷ []) [] t.overlay_per_stream next.overlay_per_stream
                  t'.overlay_per_stream l l',
            )
      ]
