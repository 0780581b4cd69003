-- ===== src/Network/Topology/Degree.antt =====
-- The number of neighbours of a node, and how the elementary changes move it.
use network_monorepo.Prelude.{
  ℕ, ◌+◌, ◌≤◌, ◌≡◌, true, false, not, ◌&&◌, List, [], ◌∷◌, arith, if◌then◌else◌, filter, length,
  length-filter-le, Text, same, has, add, remove, to_set, modify, insert, keys, defines,
  lookup-modify, lookup-insert, length-add-le, length-add_of_has, length-remove-le,
  length-remove_of_has, length-to_set-le,
}
use network_monorepo.Network.Topology.{
  Nodes, neighbors, add_to_each, remove_from_each, update, splice,
}
use network_monorepo.Network.Topology.Links.{
  linked, linked-modify-add, linked-modify-remove, linked-insert,
}
use network_monorepo.Network.Topology.Update.{known, introduced, update-introduced, has-known}

abbrev pub degree : Nodes → Text → ℕ
degree nodes m = length (neighbors m nodes)

module _ (m k y : Text) (nodes : Nodes) where
  pub degree-modify-add :
      degree (modify k (add y) nodes) m
      ≤ degree nodes m + (if same k m && defines k nodes && not (linked nodes m y) then 1 else 0)
  unfolding neighbors linked defines
  degree-modify-add = ground (
    arith,
    lookup-modify m k (add y) nodes,
    length-add-le y (neighbors m nodes),
    length-add_of_has y (neighbors m nodes),
  )

  pub degree-modify-remove :
      degree (modify k (remove y) nodes) m + (if same k m && linked nodes m y then 1 else 0)
      ≤ degree nodes m
  unfolding neighbors linked has
  degree-modify-remove = ground (
    arith,
    lookup-modify m k (remove y) nodes,
    length-remove-le y (neighbors m nodes),
    length-remove_of_has y (neighbors m nodes),
  )

pub degree-insert :
    (m k : Text) (s : List Text) (nodes : Nodes)
    → degree (insert k s nodes) m ≡ (if same k m then length s else degree nodes m)
unfolding neighbors
degree-insert m k s nodes = ground (arith, lookup-insert m k s nodes)

pub degree-remove_from_each :
    (node m : Text) (ms : List Text) (nodes : Nodes)
    → degree (remove_from_each node ms nodes) m ≤ degree nodes m
unfolding remove_from_each
degree-remove_from_each node m [] nodes = omega arith
degree-remove_from_each node m (k ∷ ms) nodes = ground (
  arith,
  degree-remove_from_each node m ms (modify k (remove node) nodes),
  degree-modify-remove m k node nodes,
)

pub degree-add_to_each :
    (node m : Text) (ms : List Text) (nodes : Nodes)
    → degree (add_to_each node ms nodes) m
      ≤ degree nodes m + (if has m ms && not (linked nodes m node) then 1 else 0)
unfolding add_to_each has
degree-add_to_each node m [] nodes = omega arith
degree-add_to_each node m (k ∷ ms) nodes = ground (
  arith,
  degree-add_to_each node m ms (modify k (add node) nodes),
  degree-modify-add m k node nodes,
  linked-modify-add m k node nodes node,
)

module _ (node : Text) (reported : List Text) (nodes : Nodes) where
  length-known-le : length (known node reported nodes) ≤ length reported
  unfolding known
  length-known-le = omega (
    arith,
    length-filter-le {0} (λ n. not (same n node)) (filter (λ n. defines n nodes) reported),
    length-filter-le {0} (λ n. defines n nodes) reported,
  )

  degree-introduced :
      (m : Text)
      → let k = known node reported nodes in
        let base = insert node (to_set k) nodes in
        degree (introduced node reported nodes) m
        ≤ degree base m + (if has m k && not (linked base m node) then 1 else 0)
  unfolding introduced
  degree-introduced m =
      let k = known node reported nodes in
      degree-add_to_each node m k (insert node (to_set k) nodes)

  degree-update-introduced :
      (m : Text) → degree (update node reported nodes) m ≤ degree (introduced node reported nodes) m
  degree-update-introduced m =
      let mid = introduced node reported nodes in
      rw update-introduced
        (degree-remove_from_each node m (filter (λ n. not (linked mid node n)) (keys mid)) mid)

  -- A node that reports has at most the neighbours that it reported.
  pub degree-update_self : degree (update node reported nodes) node ≤ length reported
  degree-update_self =
      let k = known node reported nodes in
      ground (
        arith,
        degree-update-introduced node,
        degree-introduced node,
        has-known node node reported nodes,
        degree-insert node node (to_set k) nodes,
        length-to_set-le k,
        length-known-le,
      )

  -- Any other node gains at most the reporting node, and only if it was reported.
  pub degree-update_other :
      (m : Text)
      → same m node ≡ false
      → degree (update node reported nodes) m
        ≤ degree nodes m + (if has m reported && not (linked nodes m node) then 1 else 0)
  degree-update_other m e =
      let k = known node reported nodes in
      ground (
        arith,
        degree-update-introduced m,
        degree-introduced m,
        has-known m node reported nodes,
        degree-insert m node (to_set k) nodes,
        linked-insert m node node nodes (to_set k),
      )

-- Splicing costs the two nodes nothing: each loses one neighbour and gains one.
pub degree-splice :
    (node n1 n2 m : Text) (nodes : Nodes)
    → linked nodes n1 n2 ≡ true
    → linked nodes n2 n1 ≡ true
    → same n1 node ≡ false
    → same n2 node ≡ false
    → same n1 n2 ≡ false
    → degree (splice node n1 n2 nodes) m ≤ degree nodes m + (if same m node then 2 else 0)
unfolding splice
degree-splice node n1 n2 m nodes l1 l2 e1 e2 e =
    let s1 = modify n1 (remove n2) nodes in
    let s2 = modify n2 (remove n1) s1 in
    let s3 = modify n1 (add node) s2 in
    let s4 = modify n2 (add node) s3 in
    let s5 = modify node (add n1) s4 in
    ground (
      arith,
      degree-modify-remove m n1 n2 nodes,
      degree-modify-remove m n2 n1 s1,
      linked-modify-remove m n1 n1 nodes n2,
      degree-modify-add m n1 node s2,
      degree-modify-add m n2 node s3,
      degree-modify-add m node n1 s4,
      degree-modify-add m node n2 s5,
    )
