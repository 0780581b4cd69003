-- ===== src/Network/Topology/Exhausted/Loop.antt =====
-- What the loop that disconnects full nodes has tried when it ends (`formInstructions` of
-- OverlayTopology.ts). Its fuel, the number of targets, is enough for it to end by its own test.
use network_monorepo.Prelude.{
  ℕ, zero, suc, ◌≤◌, ◌≡◌, refl, ◌∙◌, ◌⊎◌, inl, inr, true, false, not, ◌&&◌, ◌||◌, List, [], ◌∷◌,
  arith, Bool-cases, ltb, length, length-filter-le, filter, Text, same, has, has-filter, add,
  defines,
}
use network_monorepo.Network.Topology.{Nodes, neighbors, missing, splice, disconnect}
use network_monorepo.Network.Topology.Links.{WellFormed, linked}
use network_monorepo.Network.Topology.Degree.{degree, degree-splice}
use network_monorepo.Network.Topology.Splice.{same_pair, linked-splice, defines-splice}
use network_monorepo.Network.Topology.Choice.{Picks}
use network_monorepo.Network.Topology.Instructions.Loop.{
  Ready, Ready-tail, MaySplice, open_ends, pick-IsOpen, step-WellFormed, step-Ready, step-MaySplice,
  disconnect_inv,
}

-- `t` has no link that the node could be put into: it is a neighbour, or all its neighbours are.
pub record IsExhausted (node t : Text) (nodes : Nodes) : Type 0 where
  pub covers :
      (m : Text)
      → linked nodes t m ≡ true
      → (linked nodes t node ≡ true) ⊎ (linked nodes m node ≡ true)

-- What a splice leaves of another node.
pub record Kept (node t : Text) (before after : Nodes) : Type 0 where
  pub fewer : degree after t ≤ degree before t
  pub known : defines t after ≡ defines t before
  pub stays : linked before t node ≡ true → linked after t node ≡ true

module _ (max : ℕ) (node n1 n2 : Text) (nodes : Nodes) (c : MaySplice max node n1 n2 nodes) where
  linked-spliced :
      (a b : Text)
      → linked (splice node n1 n2 nodes) a b ≡ (
          (linked nodes a b && not (same_pair a b n1 n2))
          || same_pair a b node n1
          || same_pair a b node n2)
  linked-spliced a b =
      let w = c.well_formed in
      linked-splice node n1 n2 nodes a b c.known (w.closed n2 n1 (w.symmetric n2 n1 ∙ c.joined))
        (w.closed n1 n2 c.joined)

  splice-IsExhausted :
      (t : Text) → IsExhausted node t nodes → IsExhausted node t (splice node n1 n2 nodes)
  splice-IsExhausted t x = record {
    covers = λ m h. ground (
      arith,
      linked-spliced t m,
      linked-spliced t node,
      linked-spliced m node,
      x.covers m,
      c.other1,
      c.other2,
    );
  }

  ends-IsExhausted : (t : Text) → (t ≡ n1) ⊎ (t ≡ n2) → IsExhausted node t (splice node n1 n2 nodes)
  ends-IsExhausted t e = record { covers = λ m h. inl (ground (arith, linked-spliced t node)) }

  splice-Kept :
      (t : Text) (before : Nodes)
      → same t node ≡ false
      → Kept node t before nodes
      → Kept node t before (splice node n1 n2 nodes)
  splice-Kept t before e k =
      let w = c.well_formed in
      let back : linked nodes n2 n1 ≡ true = w.symmetric n2 n1 ∙ c.joined in
      let apart : same n1 n2 ≡ false = ground (arith, w.irreflexive n1, c.joined) in
      record {
        fewer = ground (
          arith,
          degree-splice node n1 n2 t nodes c.joined back c.other1 c.other2 apart,
          k.fewer,
        );
        known = defines-splice node n1 n2 nodes t ∙ k.known;
        stays = λ h. ground (arith, linked-spliced t node, k.stays, c.other1, c.other2);
      }

length-has : (x : Text) (xs : List Text) → has x xs ≡ true → ltb 0 (length xs) ≡ true
unfolding has
length-has x [] h = ground arith
length-has x (y ∷ ys) h = ground arith

split_targets :
    (t n1 : Text) (targets : List Text)
    → has t (n1 ∷ targets) ≡ true
    → (t ≡ n1) ⊎ (has t targets ≡ true)
unfolding has
split_targets t n1 targets h = ground arith

split_spliced :
    (t n1 n2 : Text) (targets : List Text)
    → has t (n1 ∷ targets) ≡ true
    → ((t ≡ n1) ⊎ (t ≡ n2)) ⊎ (has t (filter (λ t. not (same t n2)) targets) ≡ true)
unfolding has
split_spliced t n1 n2 targets h = ground (arith, has-filter t (λ t. not (same t n2)) targets)

module _ (shuffle : List Text → List Text) (pick : List Text → Text) (max : ℕ) (picks : Picks pick)
    (node : Text) where
  -- What is exhausted stays so in the rest of the loop.
  disconnect-IsExhausted :
      (t : Text) (fuel : ℕ) (targets : List Text) (nodes : Nodes) (updated : List Text)
      → WellFormed nodes
      → Ready node targets nodes
      → IsExhausted node t nodes
      → IsExhausted node t (disconnect shuffle pick max fuel node targets (nodes, updated)).0
  disconnect-IsExhausted t fuel targets nodes updated w r x =
      (disconnect_inv (λ w. IsExhausted node t w.0) pick max node picks
        (λ n1 n2 nodes updated c. splice-IsExhausted max node n1 n2 nodes c t) shuffle fuel targets
        nodes updated w r x).2

  pub disconnect-Kept :
      (t : Text) (fuel : ℕ) (targets : List Text) (nodes : Nodes) (updated : List Text)
      → WellFormed nodes
      → Ready node targets nodes
      → same t node ≡ false
      → Kept node t nodes (disconnect shuffle pick max fuel node targets (nodes, updated)).0
  disconnect-Kept t fuel targets nodes updated w r e =
      (disconnect_inv (λ w. Kept node t nodes w.0) pick max node picks
        (λ n1 n2 after updated c. splice-Kept max node n1 n2 after c t nodes e) shuffle fuel targets
        nodes updated w r (record { fewer = omega arith; known = refl; stays = λ h. h })).2

  nothing_open :
      (t n1 : Text) (nodes : Nodes)
      → t ≡ n1
      → ltb 0 (length (open_ends node n1 nodes)) ≡ false
      → IsExhausted node t nodes
  unfolding open_ends linked
  nothing_open t n1 nodes e h = record {
    covers = λ m l. inr (
        ground (
          arith,
          has-filter m (λ n. not (has node (neighbors n nodes))) (neighbors n1 nodes),
          length-has m (open_ends node n1 nodes),
        ));
  }

  -- The loop ends with all its targets exhausted, or with at most one neighbour missing.
  pub disconnect-exhausts :
      (fuel : ℕ) (targets : List Text) (nodes : Nodes) (updated : List Text)
      → length targets ≤ fuel
      → WellFormed nodes
      → Ready node targets nodes
      → let after = (disconnect shuffle pick max fuel node targets (nodes, updated)).0 in
        (missing max node after ≤ 1)
        ⊎ ((t : Text) → has t targets ≡ true → IsExhausted node t after)
  unfolding disconnect open_ends has
  disconnect-exhausts zero [] nodes updated h w r = inr (λ t i. absurd (ground arith))
  disconnect-exhausts (suc fuel) [] nodes updated h w r = inr (λ t i. absurd (ground arith))
  disconnect-exhausts zero (n1 ∷ targets) nodes updated h w r = absurd (omega arith)
  disconnect-exhausts (suc fuel) (n1 ∷ targets) nodes updated h w r =
      let n2 = pick (open_ends node n1 nodes) in
      elim (Bool-cases (ltb 1 (missing max node nodes))) [
        | inr enough ↦ rw enough (inl (ground arith))
        | inl few ↦ rw few (elim (Bool-cases (ltb 0 (length (open_ends node n1 nodes)))) [
          | inr none_left ↦
              let rest = Ready-tail node n1 targets nodes r in
              rw none_left
                (elim (disconnect-exhausts fuel targets nodes updated (omega arith) w rest) [
                  | inl done ↦ inl done
                  | inr all ↦ inr (λ t i. elim (split_targets t n1 targets i) [
                    | inl e ↦
                        disconnect-IsExhausted t fuel targets nodes updated w rest
                          (nothing_open t n1 nodes e none_left)
                    | inr later ↦ all t later
                  ])
                ])
          | inl some_left ↦
              let o = pick-IsOpen pick node n1 nodes picks some_left in
              let w2 = step-WellFormed node n1 n2 targets nodes w r o in
              let r2 = step-Ready node n1 n2 targets nodes w r o in
              let c = step-MaySplice max node n1 n2 targets nodes w r o few in
              let rest = filter (λ t. not (same t n2)) targets in
              let after = splice node n1 n2 nodes in
              let shorter = length-filter-le {0} (λ t. not (same t n2)) targets in
              let told = add n2 (add n1 (add node updated)) in
              rw some_left
                (elim (disconnect-exhausts fuel rest after told (omega (arith, shorter)) w2 r2) [
                  | inl done ↦ inl done
                  | inr all ↦ inr (λ t i. elim (split_spliced t n1 n2 targets i) [
                    | inl e ↦
                        disconnect-IsExhausted t fuel rest after told w2 r2
                          (ends-IsExhausted max node n1 n2 nodes c t e)
                    | inr later ↦ all t later
                  ])
                ])
        ])
      ]
