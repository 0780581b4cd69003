-- ===== src/Network/Topology/Known.antt =====
-- The nodes of a topology under `formInstructions` (OverlayTopology.ts).
use network_monorepo.Prelude.{
  ℕ, zero, suc, ◌≡◌, refl, ◌∙◌, Bool, true, false, not, List, [], ◌∷◌, ◌++◌, arith, if◌then◌else◌,
  Text, same, filter, ltb, leb, length, take, defines, Bool-cases, inl, inr, has, add,
}
use network_monorepo.Network.Topology.{
  Nodes, Work, neighbors, missing, candidates, update, splice, reduce, fill, disconnect, make_room,
  form_instructions,
}
use network_monorepo.Network.Topology.Update.{defines-update}
use network_monorepo.Network.Topology.Splice.{defines-splice}

module _ (shuffle : List Text → List Text) (pick : List Text → Text) (max : ℕ) (node j : Text) where
  defines-update_known :
      (reported : List Text) (nodes : Nodes)
      → defines node nodes ≡ true
      → defines j (update node reported nodes) ≡ defines j nodes
  defines-update_known reported nodes h = ground (arith, defines-update node reported nodes j)

  defines-reduce :
      (w : Work)
      → defines node w.0 ≡ true
      → defines j (reduce shuffle pick max node w).0 ≡ defines j w.0
  unfolding reduce
  defines-reduce (nodes, updated) h =
      ground (arith, defines-update_known (take max (shuffle (neighbors node nodes))) nodes)

  -- The node itself stays.
  defines-reduce_self :
      (w : Work) → defines node w.0 ≡ true → defines node (reduce shuffle pick max node w).0 ≡ true
  unfolding reduce
  defines-reduce_self (nodes, updated) h =
      ground (arith, defines-update node (take max (shuffle (neighbors node nodes))) nodes node)

  defines-fill :
      (w : Work)
      → defines node w.0 ≡ true
      → defines j (fill shuffle pick max node w).0 ≡ defines j w.0
  unfolding fill
  defines-fill (nodes, updated) h = ground (
    arith,
    defines-update_known
        (neighbors node nodes
          ++ take (missing max node nodes) (shuffle (candidates (λ n. ltb n max) node nodes)))
        nodes,
  )

  defines_if :
      (b : Bool) (w w' : Work) (nodes : Nodes)
      → defines j w.0 ≡ defines j nodes
      → defines j w'.0 ≡ defines j nodes
      → defines j (if b then w else w').0 ≡ defines j nodes
  defines_if true w w' nodes h h' = h
  defines_if false w w' nodes h h' = h'

  defines-disconnect :
      (fuel : ℕ) (targets : List Text) (nodes : Nodes) (updated : List Text)
      → defines j (disconnect shuffle pick max fuel node targets (nodes, updated)).0
        ≡ defines j nodes
  unfolding disconnect
  defines-disconnect zero targets nodes updated = refl
  defines-disconnect (suc fuel) [] nodes updated = refl
  defines-disconnect (suc fuel) (n1 ∷ targets) nodes updated =
      let n2 = pick (filter (λ n. not (has node (neighbors n nodes))) (neighbors n1 nodes)) in
      defines_if (ltb 1 (missing max node nodes)) _ _ nodes
        (defines_if
          (ltb 0 (length (filter (λ n. not (has node (neighbors n nodes))) (neighbors n1 nodes)))) _
          _ nodes
          (defines-disconnect fuel (filter (λ t. not (same t n2)) targets) (splice node n1 n2 nodes)
              (add n2 (add n1 (add node updated)))
            ∙ defines-splice node n1 n2 nodes j)
          (defines-disconnect fuel targets nodes updated))
        refl

  defines-make_room : (w : Work) → defines j (make_room shuffle pick max node w).0 ≡ defines j w.0
  unfolding make_room
  defines-make_room (nodes, updated) =
      let targets = shuffle (candidates (λ n. leb max n) node nodes) in
      defines_if (ltb 1 (missing max node nodes)) _ _ nodes
        (defines-disconnect (length targets) targets nodes updated) refl

  -- `form_instructions` neither adds nor removes a node.
  pub defines-form_instructions :
      (force_generate : Bool) (nodes : Nodes)
      → defines j (form_instructions shuffle pick max node force_generate nodes).0 ≡ defines j nodes
  unfolding form_instructions
  defines-form_instructions force_generate nodes = elim (Bool-cases (defines node nodes)) [
    | inr unknown ↦ rw unknown refl
    | inl d ↦
        let r = reduce shuffle pick max node (nodes, []) in
        let f = fill shuffle pick max node r in
        rw d (
          defines-make_room f
          ∙ defines-fill r (defines-reduce_self (nodes, []) d)
          ∙ defines-reduce (nodes, []) d)
  ]
