-- ===== src/Network/Topology/Told.antt =====
-- Which nodes `formInstructions` (OverlayTopology.ts) sends instructions to.
use network_monorepo.Prelude.{
  ℕ, ◌≡◌, refl, ◌∙◌, ◌⊎◌, inl, inr, Bool, true, false, not, ◌&&◌, some, List, [], ◌++◌, map, arith,
  if◌then◌else◌, Bool-cases, ltb, leb, length, take, Text, same, has, has-append, has-add,
  has-add_all, add, add_all, defines,
}
use network_monorepo.Network.Topology.{
  Nodes, neighbors, missing, excess, candidates, update, splice, reduce, fill, make_room,
  form_instructions,
}
use network_monorepo.Network.Topology.Links.{WellFormed, linked}
use network_monorepo.Network.Topology.Update.{linked-update}
use network_monorepo.Network.Topology.Splice.{linked-splice}
use network_monorepo.Network.Topology.Choice.{Shuffles, Picks, has-take}
use network_monorepo.Network.Topology.Instructions.{
  instructions-some, reduce-Formed, fill-Formed, all_steps-Formed, targets-Ready,
}
use network_monorepo.Network.Topology.Instructions.Loop.{MaySplice, disconnect_inv}

-- Nobody gains a neighbour untold, and nobody loses one untold, but for the node itself, which may
-- drop out of the neighbours of others.
pub record Tells (node : Text) (before after : Nodes) (told : List Text) : Type 0 where
  pub gained :
      (k m : Text) → linked after k m ≡ true → (linked before k m ≡ true) ⊎ (has k told ≡ true)
  pub lost :
      (k m : Text)
      → same m node ≡ false
      → linked before k m ≡ true
      → (linked after k m ≡ true) ⊎ (has k told ≡ true)

linked-neighbors :
    (node m : Text) (nodes : Nodes) → has m (neighbors node nodes) ≡ linked nodes node m
unfolding linked
linked-neighbors node m nodes = refl

-- `update` with nodes to tell, of which all new neighbours are some.
update-Tells :
    (node : Text) (reported : List Text) (before nodes : Nodes) (old told : List Text)
    → WellFormed nodes
    → has node told ≡ true
    → ((k : Text) → has k old ≡ true → has k told ≡ true)
    → ((k : Text) → has k reported ≡ true → (linked nodes node k ≡ true) ⊎ (has k told ≡ true))
    → Tells node before nodes old
    → Tells node before (update node reported nodes) told
update-Tells node reported before nodes old told w own more new t = record {
  gained = λ k m h. ground (
    arith,
    linked-update node reported nodes k m w,
    new k,
    more k,
    w.symmetric k node,
    t.gained k m,
  );
  lost = λ k m e h. ground (arith, linked-update node reported nodes k m w, more k, t.lost k m);
}

splice-Tells :
    (max : ℕ) (node n1 n2 : Text) (before nodes : Nodes) (updated : List Text)
    → MaySplice max node n1 n2 nodes
    → Tells node before nodes updated
    → Tells node before (splice node n1 n2 nodes) (add n2 (add n1 (add node updated)))
splice-Tells max node n1 n2 before nodes updated c t =
    let w = c.well_formed in
    let d1 = w.closed n2 n1 (w.symmetric n2 n1 ∙ c.joined) in
    let d2 = w.closed n1 n2 c.joined in
    let told = λ (k : Text). has-add k n2 (add n1 (add node updated)) in
    record {
      gained = λ k m h. ground (
        arith,
        linked-splice node n1 n2 nodes k m c.known d1 d2,
        told k,
        has-add k n1 (add node updated),
        has-add k node updated,
        t.gained k m,
      );
      lost = λ k m e h. ground (
        arith,
        linked-splice node n1 n2 nodes k m c.known d1 d2,
        told k,
        has-add k n1 (add node updated),
        has-add k node updated,
        t.lost k m,
      );
    }

module _ (shuffle : List Text → List Text) (pick : List Text → Text) (max : ℕ)
    (s : Shuffles shuffle) (picks : Picks pick) (node : Text) where
  reduce-Tells :
      (nodes : Nodes)
      → WellFormed nodes
      → let w = reduce shuffle pick max node (nodes, []) in Tells node nodes w.0 w.1
  unfolding reduce
  reduce-Tells nodes w =
      let near = neighbors node nodes in
      let kept = take max (shuffle near) in
      let still : Tells node nodes nodes [] = record {
        gained = λ k m h. inl h;
        lost = λ k m e h. inl h;
      } in
      elim (Bool-cases (ltb 0 (excess max node nodes))) [
        | inr fits ↦ rw fits still
        | inl over ↦ rw over (
            update-Tells node kept nodes nodes [] (add node []) w
              (ground (arith, has-add node node [])) (λ k h. ground (arith, has-add k node []))
              (λ k h. ground (
                arith,
                has-take k max (shuffle near),
                s.has_shuffle k near,
                linked-neighbors node k nodes,
              ))
              still)
      ]

  fill-Tells :
      (before nodes : Nodes) (updated : List Text)
      → WellFormed nodes
      → Tells node before nodes updated
      → let w = fill shuffle pick max node (nodes, updated) in Tells node before w.0 w.1
  unfolding fill
  fill-Tells before nodes updated w t =
      let near = neighbors node nodes in
      let chosen =
        take (missing max node nodes) (shuffle (candidates (λ n. ltb n max) node nodes)) in
      elim (Bool-cases (ltb 0 (missing max node nodes))) [
        | inr full ↦ rw full t
        | inl open_slots ↦ rw open_slots (elim (Bool-cases (ltb 0 (length chosen))) [
          | inr nobody ↦ rw nobody t
          | inl somebody ↦ rw somebody (
              update-Tells node (near ++ chosen) before nodes updated
                (add_all chosen (add node updated)) w
                (ground
                  (arith, has-add_all node chosen (add node updated), has-add node node updated))
                (λ k h.
                  ground (arith, has-add_all k chosen (add node updated), has-add k node updated))
                (λ k h. ground (
                  arith,
                  has-add_all k chosen (add node updated),
                  has-append k near chosen,
                  linked-neighbors node k nodes,
                ))
                t)
        ])
      ]

  make_room-Tells :
      (before nodes : Nodes) (updated : List Text)
      → WellFormed nodes
      → defines node nodes ≡ true
      → Tells node before nodes updated
      → let w = make_room shuffle pick max node (nodes, updated) in Tells node before w.0 w.1
  unfolding make_room
  make_room-Tells before nodes updated w d t =
      let targets = shuffle (candidates (λ n. leb max n) node nodes) in
      elim (Bool-cases (ltb 1 (missing max node nodes))) [
        | inr enough ↦ rw enough t
        | inl few ↦
            rw few
              (disconnect_inv (λ w. Tells node before w.0 w.1) pick max node picks
                (λ n1 n2 nodes updated. splice-Tells max node n1 n2 before nodes updated) shuffle
                (length targets) targets nodes updated w
                (targets-Ready shuffle pick max s picks node nodes w d) t).2
      ]

  all_steps-Tells :
      (nodes : Nodes)
      → WellFormed nodes
      → defines node nodes ≡ true
      → let w =
          make_room shuffle pick max node
            (fill shuffle pick max node (reduce shuffle pick max node (nodes, []))) in
        Tells node nodes w.0 w.1
  all_steps-Tells nodes w d =
      let r = reduce shuffle pick max node (nodes, []) in
      let f = fill shuffle pick max node r in
      let reduced = reduce-Formed shuffle pick max s picks node nodes [] w d in
      let filled = fill-Formed shuffle pick max s picks node nodes r.0 r.1 reduced in
      make_room-Tells nodes f.0 f.1 filled.well_formed filled.known
        (fill-Tells nodes r.0 r.1 reduced.well_formed (reduce-Tells nodes w))

  -- For a node of a well-formed topology, a shuffle that keeps the elements and a pick that takes
  -- one of them, the check for a node that is its own neighbour does not throw. The instructions
  -- give each node that is told its neighbours after the call. Told are all nodes that have gained
  -- a neighbour, all that have lost one other than the node itself, and the node itself where
  -- instructions are forced.
  pub form_instructions-Tells :
      (force_generate : Bool) (nodes : Nodes)
      → WellFormed nodes
      → defines node nodes ≡ true
      → let result = form_instructions shuffle pick max node force_generate nodes in
        (told : List Text) × (result.1 ≡ some (map (λ n. (n, neighbors n result.0)) told))
        × Tells node nodes result.0 told
        × ((force_generate && not (has node told)) ≡ false)
  unfolding form_instructions
  form_instructions-Tells force_generate nodes w d =
      let (after, updated) =
        make_room shuffle pick max node
          (fill shuffle pick max node (reduce shuffle pick max node (nodes, []))) in
      let told = if force_generate then add node updated else updated in
      let formed = all_steps-Formed shuffle pick max s picks node nodes w d in
      let t = all_steps-Tells nodes w d in
      rw d (
        told,
        instructions-some after told formed.well_formed,
        record {
          gained = λ k m h. ground (arith, t.gained k m, has-add k node updated);
          lost = λ k m e h. ground (arith, t.lost k m, has-add k node updated);
        },
        ground (arith, has-add node node updated),
      )
