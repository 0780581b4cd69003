-- ===== src/Network/Topology/Exhausted.antt =====
-- Where a node still lacks neighbours after `formInstructions` (OverlayTopology.ts).
mod Loop
use network_monorepo.Prelude.{
  ℕ, ◌≤◌, ◌≡◌, ◌∙◌, ◌⊎◌, inl, inr, Bool, true, false, List, [], arith, Bool-cases, ltb, leb, length,
  Text, same, has, defines,
}
use network_monorepo.Network.Topology.{
  Nodes, missing, candidates, reduce, fill, make_room, form_instructions,
}
use network_monorepo.Network.Topology.Links.{WellFormed, linked}
use network_monorepo.Network.Topology.Degree.{degree}
use network_monorepo.Network.Topology.Choice.{Shuffles, Picks, has-candidates}
use network_monorepo.Network.Topology.Instructions.{
  reduce-Formed, fill-Formed, all_steps-Formed, targets-Ready,
}
use Loop.{Kept, IsExhausted, disconnect-Kept, disconnect-exhausts}

module _ (shuffle : List Text → List Text) (pick : List Text → Text) (max : ℕ)
    (s : Shuffles shuffle) (picks : Picks pick) (node : Text) where
  -- A full node after the loop was a target of it, or was a neighbour already.
  make_room-exhausts :
      (nodes : Nodes) (updated : List Text)
      → WellFormed nodes
      → defines node nodes ≡ true
      → let after = (make_room shuffle pick max node (nodes, updated)).0 in
        (t : Text)
        → same t node ≡ false
        → defines t after ≡ true
        → max ≤ degree after t
        → (missing max node after ≤ 1) ⊎ IsExhausted node t after
  unfolding make_room
  make_room-exhausts nodes updated w d =
      let targets = shuffle (candidates (λ n. leb max n) node nodes) in
      let r = targets-Ready shuffle pick max s picks node nodes w d in
      let fuel = length targets in
      elim (Bool-cases (ltb 1 (missing max node nodes))) [
        | inr enough ↦ rw enough (λ t e known full. inl (ground arith))
        | inl few ↦ rw few (λ t e known full.
            let kept =
              disconnect-Kept shuffle pick max picks node t fuel targets nodes updated w r e in
            elim (disconnect-exhausts shuffle pick max picks node fuel targets nodes updated
              (omega arith) w r) [
                | inl done ↦ inl done
                | inr all ↦ inr (elim (Bool-cases (linked nodes t node)) [
                  | inl near ↦ record { covers = λ m l. inl (kept.stays near) }
                  | inr far ↦ all t (
                      ground (
                        arith,
                        kept.known,
                        kept.fewer,
                        s.has_shuffle t (candidates (λ n. leb max n) node nodes),
                        has-candidates (λ n. leb max n) t node nodes w.distinct_keys,
                      ))
                ])
              ])
      ]

  -- For a node of a well-formed topology, a shuffle that keeps the elements and a pick that takes
  -- one of them: after the call the node lacks at most one neighbour, or no link of a full node is
  -- left to put the node into, since each link of another node with at least `max` neighbours has
  -- an end that is a neighbour of the node.
  pub form_instructions-exhausts :
      (force_generate : Bool) (nodes : Nodes)
      → WellFormed nodes
      → defines node nodes ≡ true
      → (t m : Text) → same t node ≡ false
      → max ≤ degree (form_instructions shuffle pick max node force_generate nodes).0 t
      → linked (form_instructions shuffle pick max node force_generate nodes).0 t m ≡ true
      → let after = (form_instructions shuffle pick max node force_generate nodes).0 in
        (missing max node after ≤ 1) ⊎ (linked after t node ≡ true) ⊎ (linked after m node ≡ true)
  unfolding form_instructions
  form_instructions-exhausts force_generate nodes w d t m e = rw d (λ full l.
      let r = reduce shuffle pick max node (nodes, []) in
      let f = fill shuffle pick max node r in
      let reduced = reduce-Formed shuffle pick max s picks node nodes [] w d in
      let filled = fill-Formed shuffle pick max s picks node nodes r.0 r.1 reduced in
      let formed = all_steps-Formed shuffle pick max s picks node nodes w d in
      let known = formed.well_formed.closed m t (formed.well_formed.symmetric m t ∙ l) in
      elim (make_room-exhausts f.0 f.1 filled.well_formed filled.known t e known full) [
        | inl done ↦ inl done
        | inr x ↦ inr (x.covers m l)
      ])
