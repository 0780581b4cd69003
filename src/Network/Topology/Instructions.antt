-- ===== src/Network/Topology/Instructions.antt =====
-- Well-formedness and the number of neighbours under `formInstructions` (OverlayTopology.ts).
pub mod Loop
use network_monorepo.Prelude.{
  ℕ, zero, suc, ◌+◌, ◌-◌, ◌≤◌, ◌≡◌, ◌≢◌, refl, sym, ◌∙◌, ◌⊎◌, inl, inr, Bool, true, false, not,
  ◌&&◌, ◌||◌, Option, none, some, List, [], ◌∷◌, ◌++◌, map, arith, if◌then◌else◌, Bool-cases, ltb,
  leb, length, length-append, length-take-le, take, any, filter, Text, same, text_dec, has,
  has-append, add, add_all, defines,
}
use network_monorepo.Network.Topology.{
  Nodes, Work, neighbors, missing, excess, candidates, update, splice, reduce, fill, disconnect,
  make_room, instructions, form_instructions,
}
use network_monorepo.Network.Topology.Links.{WellFormed, linked}
use network_monorepo.Network.Topology.Update.{update-WellFormed, defines-update}
use network_monorepo.Network.Topology.Degree.{
  degree, degree-update_self, degree-update_other, degree-splice,
}
use network_monorepo.Network.Topology.Splice.{splice-WellFormed, defines-splice}
use network_monorepo.Network.Topology.Choice.{
  Shuffles, Picks, has-take, has-candidates, candidates-IsDistinct,
}
use Loop.{Ready, MaySplice, disconnect_inv}

-- The topology `after` some of the steps for the node, against the one before.
pub record Formed (max : ℕ) (node : Text) (before after : Nodes) : Type 0 where
  pub well_formed : WellFormed after
  pub known : defines node after ≡ true
  pub own : degree after node ≤ max
  pub others :
      (m : Text) → same m node ≡ false → (degree after m ≤ degree before m) ⊎ (degree after m ≤ max)

any-false : (p : Text → Bool) (xs : List Text) → ((x : Text) → p x ≡ false) → any p xs ≡ false
any-false p [] h = refl
any-false p (x ∷ xs) h = ground (arith, h x, any-false p xs h)

pub instructions-some :
    (nodes : Nodes) (updated : List Text)
    → WellFormed nodes
    → instructions (nodes, updated) ≡ some (map (λ n. (n, neighbors n nodes)) updated)
unfolding instructions linked
instructions-some nodes updated w =
    rw (any-false (λ n. has n (neighbors n nodes)) updated w.irreflexive)

module _ (shuffle : List Text → List Text) (pick : List Text → Text) (max : ℕ)
    (s : Shuffles shuffle) (picks : Picks pick) (node : Text) where
  linked-neighbors : (m : Text) (nodes : Nodes) → has m (neighbors node nodes) ≡ linked nodes node m
  unfolding linked
  linked-neighbors m nodes = refl

  reduced_others :
      (nodes : Nodes) (m : Text)
      → WellFormed nodes
      → same m node ≡ false
      → degree (update node (take max (shuffle (neighbors node nodes))) nodes) m ≤ degree nodes m
  reduced_others nodes m w e =
      let kept = take max (shuffle (neighbors node nodes)) in
      ground (
        arith,
        degree-update_other node kept nodes m e,
        has-take m max (shuffle (neighbors node nodes)),
        s.has_shuffle m (neighbors node nodes),
        linked-neighbors m nodes,
        w.symmetric m node,
      )

  pub reduce-Formed :
      (nodes : Nodes) (updated : List Text)
      → WellFormed nodes
      → defines node nodes ≡ true
      → Formed max node nodes (reduce shuffle pick max node (nodes, updated)).0
  unfolding reduce excess
  reduce-Formed nodes updated w d =
      let kept = take max (shuffle (neighbors node nodes)) in
      elim (Bool-cases (ltb 0 (excess max node nodes))) [
        | inr fits ↦ rw fits (record {
          well_formed = w;
          known = d;
          own = ground arith;
          others = λ m e. inl (omega arith);
        })
        | inl over ↦ rw over (record {
          well_formed = update-WellFormed node kept nodes w;
          known = ground (arith, defines-update node kept nodes node);
          own = omega (
            arith,
            degree-update_self node kept nodes,
            length-take-le {0} max (shuffle (neighbors node nodes)),
          );
          others = λ m e. inl (reduced_others nodes m w e);
        })
      ]

  filled_others :
      (nodes : Nodes) (m : Text)
      → WellFormed nodes
      → same m node ≡ false
      → let chosen =
          take (missing max node nodes) (shuffle (candidates (λ n. ltb n max) node nodes)) in
        let after = update node (neighbors node nodes ++ chosen) nodes in
        (degree after m ≤ degree nodes m) ⊎ (degree after m ≤ max)
  filled_others nodes m w e =
      let cands = candidates (λ n. ltb n max) node nodes in
      let chosen = take (missing max node nodes) (shuffle cands) in
      ground (
        arith,
        degree-update_other node (neighbors node nodes ++ chosen) nodes m e,
        has-append m (neighbors node nodes) chosen,
        has-take m (missing max node nodes) (shuffle cands),
        s.has_shuffle m cands,
        has-candidates (λ n. ltb n max) m node nodes w.distinct_keys,
        linked-neighbors m nodes,
        w.symmetric m node,
      )

  pub fill-Formed :
      (before nodes : Nodes) (updated : List Text)
      → Formed max node before nodes
      → Formed max node before (fill shuffle pick max node (nodes, updated)).0
  unfolding fill missing
  fill-Formed before nodes updated f =
      let chosen =
        take (missing max node nodes) (shuffle (candidates (λ n. ltb n max) node nodes)) in
      let reported = neighbors node nodes ++ chosen in
      elim (Bool-cases (ltb 0 (missing max node nodes))) [
        | inr full ↦ rw full f
        | inl open_slots ↦ rw open_slots (elim (Bool-cases (ltb 0 (length chosen))) [
          | inr nobody ↦ rw nobody f
          | inl somebody ↦ rw somebody (record {
            well_formed = update-WellFormed node reported nodes f.well_formed;
            known = ground (arith, defines-update node reported nodes node);
            own = ground (
              arith,
              degree-update_self node reported nodes,
              length-append {0} (neighbors node nodes) chosen,
              length-take-le {0} (missing max node nodes)
                  (shuffle (candidates (λ n. ltb n max) node nodes)),
            );
            others = λ m e. ground (arith, filled_others nodes m f.well_formed e, f.others m e);
          })
        ])
      ]

  splice-Formed :
      (before : Nodes) (n1 n2 : Text) (nodes : Nodes)
      → MaySplice max node n1 n2 nodes
      → Formed max node before nodes
      → Formed max node before (splice node n1 n2 nodes)
  unfolding missing
  splice-Formed before n1 n2 nodes c f =
      let w = c.well_formed in
      let back : linked nodes n2 n1 ≡ true = w.symmetric n2 n1 ∙ c.joined in
      let apart : same n1 n2 ≡ false = ground (arith, w.irreflexive n1, c.joined) in
      let gain =
        λ (m : Text). degree-splice node n1 n2 m nodes c.joined back c.other1 c.other2 apart in
      record {
        well_formed = splice-WellFormed node n1 n2 nodes w c.known c.other1 c.other2 c.joined;
        known = defines-splice node n1 n2 nodes node ∙ c.known;
        own = ground (arith, gain node, c.room);
        others = λ m e. ground (arith, gain m, f.others m e);
      }

  pub targets-Ready :
      (nodes : Nodes)
      → WellFormed nodes
      → defines node nodes ≡ true
      → Ready node (shuffle (candidates (λ n. leb max n) node nodes)) nodes
  targets-Ready nodes w d =
      let cands = candidates (λ n. leb max n) node nodes in
      let found = λ (t : Text). has-candidates (λ n. leb max n) t node nodes w.distinct_keys in
      record {
        known = d;
        others = λ t h. ground (arith, s.has_shuffle t cands, found t);
        apart = λ t h. ground (arith, s.has_shuffle t cands, found t);
        distinct =
            s.distinct cands (candidates-IsDistinct (λ n. leb max n) node nodes w.distinct_keys);
      }

  make_room-Formed :
      (before nodes : Nodes) (updated : List Text)
      → Formed max node before nodes
      → Formed max node before (make_room shuffle pick max node (nodes, updated)).0
  unfolding make_room
  make_room-Formed before nodes updated f =
      let targets = shuffle (candidates (λ n. leb max n) node nodes) in
      elim (Bool-cases (ltb 1 (missing max node nodes))) [
        | inr enough ↦ rw enough f
        | inl few ↦
            rw few
              (disconnect_inv (λ w. Formed max node before w.0) pick max node picks
                (λ n1 n2 nodes updated. splice-Formed before n1 n2 nodes) shuffle (length targets)
                targets nodes updated f.well_formed (targets-Ready nodes f.well_formed f.known) f).2
      ]

  pub all_steps-Formed :
      (nodes : Nodes)
      → WellFormed nodes
      → defines node nodes ≡ true
      → Formed max node nodes
          (make_room shuffle pick max node
            (fill shuffle pick max node (reduce shuffle pick max node (nodes, [])))).0
  all_steps-Formed nodes w d =
      let r = reduce shuffle pick max node (nodes, []) in
      let f = fill shuffle pick max node r in
      make_room-Formed nodes f.0 f.1 (fill-Formed nodes r.0 r.1 (reduce-Formed nodes [] w d))

  -- For a node of the topology the result is well formed, the node has at most `max` neighbours,
  -- and no other node ends with more than `max` unless it had as many before.
  pub form_instructions-Formed :
      (force_generate : Bool) (nodes : Nodes)
      → WellFormed nodes
      → defines node nodes ≡ true
      → Formed max node nodes (form_instructions shuffle pick max node force_generate nodes).0
  unfolding form_instructions
  form_instructions-Formed force_generate nodes w d = rw d (all_steps-Formed nodes w d)

  -- There are instructions, of the nodes told with their neighbours, since no node has become its
  -- own neighbour.
  pub form_instructions-some :
      (force_generate : Bool) (nodes : Nodes)
      → WellFormed nodes
      → let result = form_instructions shuffle pick max node force_generate nodes in
        (told : List Text) × (result.1 ≡ some (map (λ n. (n, neighbors n result.0)) told))
  unfolding form_instructions
  form_instructions-some force_generate nodes w =
      let (after, updated) =
        make_room shuffle pick max node
          (fill shuffle pick max node (reduce shuffle pick max node (nodes, []))) in
      let told = if force_generate then add node updated else updated in
      elim (Bool-cases (defines node nodes)) [
        | inr unknown ↦ rw unknown ([], refl)
        | inl d ↦ rw d (told, instructions-some after told (all_steps-Formed nodes w d).well_formed)
      ]
