-- ===== src/Network/Topology/Instructions/Loop.antt =====
-- Well-formedness under the loop that disconnects full nodes (OverlayTopology.ts).
use network_monorepo.Prelude.{
  ℕ, zero, suc, ◌≡◌, ◌∙◌, true, false, not, List, [], ◌∷◌, arith, inl, inr, Bool-cases, filter, ltb,
  length, Text, same, has, has-filter, IsDistinct, filter-IsDistinct, defines, add,
}
use network_monorepo.Network.Topology.{Nodes, Work, neighbors, missing, splice, disconnect}
use network_monorepo.Network.Topology.Links.{WellFormed, linked}
use network_monorepo.Network.Topology.Splice.{splice-WellFormed, linked-splice, defines-splice}
use network_monorepo.Network.Topology.Choice.{Picks}

-- What the targets of the loop are: other nodes that are not yet neighbours, each once.
pub record Ready (node : Text) (targets : List Text) (nodes : Nodes) : Type 0 where
  pub known : defines node nodes ≡ true
  pub others : (t : Text) → has t targets ≡ true → same t node ≡ false
  pub apart : (t : Text) → has t targets ≡ true → linked nodes t node ≡ false
  pub distinct : IsDistinct targets

pub Ready-tail :
    (node n1 : Text) (targets : List Text) (nodes : Nodes)
    → Ready node (n1 ∷ targets) nodes
    → Ready node targets nodes
unfolding has
Ready-tail node n1 targets nodes r = record {
  known = r.known;
  others = λ t h. r.others t (ground arith);
  apart = λ t h. r.apart t (ground arith);
  distinct = r.distinct.1;
}

unfoldable pub open_ends : Text → Text → Nodes → List Text
open_ends node n1 nodes = filter (λ n. not (has node (neighbors n nodes))) (neighbors n1 nodes)

-- A pick among the open ends is linked to the target, and not to the node.
pub record IsOpen (node n1 n2 : Text) (nodes : Nodes) : Type 0 where
  pub joined : linked nodes n1 n2 ≡ true
  pub free : linked nodes n2 node ≡ false

pub pick-IsOpen :
    (pick : List Text → Text) (node n1 : Text) (nodes : Nodes)
    → Picks pick
    → ltb 0 (length (open_ends node n1 nodes)) ≡ true
    → IsOpen node n1 (pick (open_ends node n1 nodes)) nodes
unfolding linked open_ends
pick-IsOpen pick node n1 nodes picks h =
    let n2 = pick (open_ends node n1 nodes) in
    let chosen = picks (open_ends node n1 nodes) h in
    let parts = has-filter n2 (λ n. not (has node (neighbors n nodes))) (neighbors n1 nodes) in
    record { joined = ground arith; free = ground arith }

module _ (node n1 n2 : Text) (targets : List Text) (nodes : Nodes) (w : WellFormed nodes)
    (r : Ready node (n1 ∷ targets) nodes) (o : IsOpen node n1 n2 nodes) where
  n1_other : same n1 node ≡ false
  unfolding has
  n1_other = r.others n1 (ground arith)

  n2_other : same n2 node ≡ false
  unfolding has
  n2_other = ground (arith, r.apart n1 (ground arith), o.joined)

  pub step-WellFormed : WellFormed (splice node n1 n2 nodes)
  step-WellFormed = splice-WellFormed node n1 n2 nodes w r.known n1_other n2_other o.joined

  pub step-Ready : Ready node (filter (λ t. not (same t n2)) targets) (splice node n1 n2 nodes)
  unfolding has
  step-Ready = record {
    known = defines-splice node n1 n2 nodes node ∙ r.known;
    others = λ t h. r.others t (ground (arith, has-filter t (λ t. not (same t n2)) targets));
    apart = λ t h. ground (
      arith,
      linked-splice node n1 n2 nodes t node r.known (w.closed n2 n1 (w.symmetric n2 n1 ∙ o.joined))
          (w.closed n1 n2 o.joined),
      has-filter t (λ t. not (same t n2)) targets,
      r.apart t,
      r.others t,
      r.distinct.0,
      n1_other,
      n2_other,
    );
    distinct = filter-IsDistinct (λ t. not (same t n2)) targets r.distinct.1;
  }

-- The conditions under which the loop splices.
pub record MaySplice (max : ℕ) (node n1 n2 : Text) (nodes : Nodes) : Type 0 where
  pub well_formed : WellFormed nodes
  pub known : defines node nodes ≡ true
  pub room : ltb 1 (missing max node nodes) ≡ true
  pub other1 : same n1 node ≡ false
  pub other2 : same n2 node ≡ false
  pub joined : linked nodes n1 n2 ≡ true

pub step-MaySplice :
    (max : ℕ) (node n1 n2 : Text) (targets : List Text) (nodes : Nodes)
    → WellFormed nodes
    → Ready node (n1 ∷ targets) nodes
    → IsOpen node n1 n2 nodes
    → ltb 1 (missing max node nodes) ≡ true
    → MaySplice max node n1 n2 nodes
step-MaySplice max node n1 n2 targets nodes w r o few = record {
  well_formed = w;
  known = r.known;
  room = few;
  other1 = n1_other node n1 n2 targets nodes w r o;
  other2 = n2_other node n1 n2 targets nodes w r o;
  joined = o.joined;
}

-- The loop is a sequence of splices and of nodes to tell: what each step keeps, the loop keeps, and it stays well formed.
pub disconnect_inv {ℓ} :
    (P : Work → Type ℓ) (pick : List Text → Text) (max : ℕ) (node : Text)
    → Picks pick
    → ((n1 n2 : Text) (nodes : Nodes) (updated : List Text)
        → MaySplice max node n1 n2 nodes
        → P (nodes, updated)
        → P (splice node n1 n2 nodes, add n2 (add n1 (add node updated))))
    → (shuffle : List Text → List Text) (fuel : ℕ) (targets : List Text) (nodes : Nodes)
      (updated : List Text)
    → WellFormed nodes
    → Ready node targets nodes
    → P (nodes, updated)
    → let after = disconnect shuffle pick max fuel node targets (nodes, updated) in
      WellFormed after.0 × (defines node after.0 ≡ true) × P after
unfolding disconnect open_ends
disconnect_inv P pick max node picks keep shuffle zero targets nodes updated w r p = (w, r.known, p)
disconnect_inv P pick max node picks keep shuffle (suc fuel) [] nodes updated w r p =
    (w, r.known, p)
disconnect_inv P pick max node picks keep shuffle (suc fuel) (n1 ∷ targets) nodes updated w r p =
    let n2 = pick (open_ends node n1 nodes) in
    elim (Bool-cases (ltb 1 (missing max node nodes))) [
      | inr enough ↦ rw enough (w, r.known, p)
      | inl few ↦ rw few (elim (Bool-cases (ltb 0 (length (open_ends node n1 nodes)))) [
        | inr none_left ↦ rw none_left (
            disconnect_inv P pick max node picks keep shuffle fuel targets nodes updated w
              (Ready-tail node n1 targets nodes r) p)
        | inl some_left ↦
            let o = pick-IsOpen pick node n1 nodes picks some_left in
            rw some_left (
              disconnect_inv P pick max node picks keep shuffle fuel
                (filter (λ t. not (same t n2)) targets) (splice node n1 n2 nodes)
                (add n2 (add n1 (add node updated)))
                (step-WellFormed node n1 n2 targets nodes w r o)
                (step-Ready node n1 n2 targets nodes w r o)
                (keep n1 n2 nodes updated (step-MaySplice max node n1 n2 targets nodes w r o few)
                  p))
      ])
    ]
