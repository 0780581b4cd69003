-- ===== src/Network/Topology/Splice.antt =====
-- Putting a node between two linked nodes (the body of the last loop of `formInstructions`).
use network_monorepo.Prelude.{
  ◌≡◌, ◌∙◌, Bool, true, false, not, ◌&&◌, ◌||◌, arith, Text, same, add, remove, defines, modify,
  defines-modify, keys, keys-modify,
}
use network_monorepo.Network.Topology.{Nodes, splice}
use network_monorepo.Network.Topology.Links.{
  WellFormed, linked, linked-modify-add, linked-modify-remove,
}

-- The unordered pairs {a, b} and {u, v} are the same.
abbrev pub same_pair : Text → Text → Text → Text → Bool
same_pair a b u v = (same a u && same b v) || (same a v && same b u)

module _ (node n1 n2 : Text) (nodes : Nodes) where
  cut : Nodes
  cut = modify n2 (remove n1) (modify n1 (remove n2) nodes)

  linked-cut : (a b : Text) → linked cut a b ≡ (linked nodes a b && not (same_pair a b n1 n2))
  unfolding cut
  linked-cut a b = ground (
    arith,
    linked-modify-remove a n2 b (modify n1 (remove n2) nodes) n1,
    linked-modify-remove a n1 b nodes n2,
  )

  defines-cut : (j : Text) → defines j cut ≡ defines j nodes
  unfolding cut
  defines-cut j = ground (
    arith,
    defines-modify j n2 (remove n1) (modify n1 (remove n2) nodes),
    defines-modify j n1 (remove n2) nodes,
  )

  joined : Nodes
  joined = modify n2 (add node) (modify n1 (add node) cut)

  linked-joined :
      (a b : Text)
      → linked joined a b ≡ (
          linked cut a b
          || (same b node && ((same a n1 && defines n1 nodes) || (same a n2 && defines n2 nodes))))
  unfolding joined
  linked-joined a b = ground (
    arith,
    linked-modify-add a n2 b (modify n1 (add node) cut) node,
    linked-modify-add a n1 b cut node,
    defines-modify n2 n1 (add node) cut,
    defines-cut n1,
    defines-cut n2,
  )

  pub defines-splice : (j : Text) → defines j (splice node n1 n2 nodes) ≡ defines j nodes
  unfolding splice cut joined
  defines-splice j = ground (
    arith,
    defines-modify j node (add n2) (modify node (add n1) joined),
    defines-modify j node (add n1) joined,
    defines-modify j n2 (add node) (modify n1 (add node) cut),
    defines-modify j n1 (add node) cut,
    defines-cut j,
  )

  defines-joined : (j : Text) → defines j joined ≡ defines j nodes
  unfolding joined
  defines-joined j = ground (
    arith,
    defines-modify j n2 (add node) (modify n1 (add node) cut),
    defines-modify j n1 (add node) cut,
    defines-cut j,
  )

  pub keys-splice : keys (splice node n1 n2 nodes) ≡ keys nodes
  unfolding splice
  keys-splice = simp keys-modify

  -- The link between the two is gone, and both are linked to the node.
  pub linked-splice :
      (a b : Text)
      → defines node nodes ≡ true
      → defines n1 nodes ≡ true
      → defines n2 nodes ≡ true
      → linked (splice node n1 n2 nodes) a b ≡ (
          (linked nodes a b && not (same_pair a b n1 n2))
          || same_pair a b node n1
          || same_pair a b node n2)
  unfolding splice cut joined
  linked-splice a b d d1 d2 = ground (
    arith,
    linked-modify-add a node b (modify node (add n1) joined) n2,
    linked-modify-add a node b joined n1,
    defines-modify node node (add n1) joined,
    defines-joined node,
    linked-joined a b,
    linked-cut a b,
  )

-- The node is put between two linked nodes that are not yet its neighbours.
pub splice-WellFormed :
    (node n1 n2 : Text) (nodes : Nodes)
    → WellFormed nodes
    → defines node nodes ≡ true
    → same n1 node ≡ false
    → same n2 node ≡ false
    → linked nodes n1 n2 ≡ true
    → WellFormed (splice node n1 n2 nodes)
splice-WellFormed node n1 n2 nodes w d e1 e2 l =
    let d2 = w.closed n1 n2 l in
    let d1 : defines n1 nodes ≡ true = w.closed n2 n1 (w.symmetric n2 n1 ∙ l) in
    record {
      symmetric = λ a b. ground (
        arith,
        linked-splice node n1 n2 nodes a b d d1 d2,
        linked-splice node n1 n2 nodes b a d d1 d2,
        w.symmetric a b,
      );
      irreflexive =
          λ a. ground (arith, linked-splice node n1 n2 nodes a a d d1 d2, w.irreflexive a);
      closed = λ a b h. ground (
        arith,
        linked-splice node n1 n2 nodes a b d d1 d2,
        defines-splice node n1 n2 nodes b,
        w.closed a b,
      );
      distinct_keys = rw keys-splice w.distinct_keys;
    }
