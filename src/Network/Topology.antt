-- ===== src/Network/Topology.antt =====
-- `OverlayTopology` of packages/network/src/logic/OverlayTopology.ts: the neighbours that a tracker
-- gives the nodes of one stream. The object `nodes` is a dictionary of sets; node ids do not
-- clash with names of Object.prototype. `shuffleArray` and `pickRandomElement` are parameters, as
-- they are of the constructor. A node that the topology lacks has no neighbours to read, and adding
-- to them or deleting from them does nothing, where `this.nodes[x]` makes the code throw a TypeError.
pub mod Links
pub mod Update
pub mod Splice
pub mod Degree
pub mod Choice
pub mod Instructions
pub mod Told
pub mod Exhausted
pub mod Known
pub mod Tests
use network_monorepo.Prelude.{
  ℕ, zero, suc, ◌+◌, ◌-◌, Bool, true, false, not, Option, none, some, List, [], ◌∷◌, ◌++◌, map, ltb,
  leb, length, take, filter, any, if◌then◌else◌, Text, same, text_dec, has, add, remove, to_set,
  add_all, Dict, lookup, insert, erase, modify, keys, defines,
}
use mathlib.Core.List.{reverse}

abbrev pub Nodes : Type 0
Nodes = Dict (List Text)

-- `getNeighbors`
unfoldable pub neighbors : Text → Nodes → List Text
neighbors m nodes = elim (lookup m nodes) [ none ↦ [] | some s ↦ s ]

abbrev pub get_number_of_nodes : Nodes → ℕ
get_number_of_nodes nodes = length (keys nodes)

abbrev pub has_node : Text → Nodes → Bool
has_node = defines

-- `isEmpty`
unfoldable pub is_empty : Nodes → Bool
is_empty [] = true
is_empty (e ∷ nodes) = false

-- `forEach((neighbor) => this.nodes[neighbor].add(node))`
unfoldable pub add_to_each : Text → List Text → Nodes → Nodes
add_to_each node [] nodes = nodes
add_to_each node (m ∷ ms) nodes = add_to_each node ms (modify m (add node) nodes)

-- `forEach((n) => this.nodes[n].delete(node))`
unfoldable pub remove_from_each : Text → List Text → Nodes → Nodes
remove_from_each node [] nodes = nodes
remove_from_each node (m ∷ ms) nodes = remove_from_each node ms (modify m (remove node) nodes)

unfoldable pub update : Text → List Text → Nodes → Nodes
update node reported nodes =
    let known = filter (λ n. not (same n node)) (filter (λ n. has_node n nodes) reported) in
    let linked = add_to_each node known (insert node (to_set known) nodes) in
    remove_from_each node (filter (λ n. not (has n (neighbors node linked))) (keys linked)) linked

-- The former neighbours, and the nodes without the node.
unfoldable pub leave : Text → Nodes → List Text × Nodes
leave node nodes = elim (lookup node nodes) [
  | none ↦ ([], nodes)
  | some s ↦ (s, erase node (remove_from_each node s nodes))
]

-- `numOfMissingNeighbors`, where it is positive, and its negation, where that is.
unfoldable pub missing : ℕ → Text → Nodes → ℕ
missing max node nodes = max - length (neighbors node nodes)

unfoldable pub excess : ℕ → Text → Nodes → ℕ
excess max node nodes = length (neighbors node nodes) - max

-- Nodes, not yet neighbours and not the node itself, whose number of neighbours passes the test.
unfoldable pub candidates : (ℕ → Bool) → Text → Nodes → List Text
candidates test node nodes = keys (
    filter (λ e. not (same e.0 node))
      (filter (λ e. not (has node e.1)) (filter (λ e. test (length e.1)) nodes)))

-- The links n1 - n2 becomes n1 - node - n2.
unfoldable pub splice : Text → Text → Text → Nodes → Nodes
splice node n1 n2 nodes = modify node (add n2) (
    modify node (add n1) (
      modify n2 (add node)
        (modify n1 (add node) (modify n2 (remove n1) (modify n1 (remove n2) nodes)))))

-- The nodes and `updatedNodes`.
abbrev pub Work : Type 0
Work = Nodes × List Text

-- The instructions of the nodes to tell; `none` is the violated invariant.
unfoldable pub instructions : Work → Option (Dict (List Text))
instructions (nodes, updated) =
    if any (λ n. has n (neighbors n nodes)) updated
    then none
    else some (map (λ n. (n, neighbors n nodes)) updated)

module _ (shuffle : List Text → List Text) (pick : List Text → Text) (max : ℕ) where
  -- The node has too many neighbours.
  unfoldable pub reduce : Text → Work → Work
  reduce node (nodes, updated) =
      if ltb 0 (excess max node nodes)
      then (update node (take max (shuffle (neighbors node nodes))) nodes, add node updated)
      else (nodes, updated)

  -- The node has too few, and there are nodes with open slots.
  unfoldable pub fill : Text → Work → Work
  fill node (nodes, updated) =
      let to_add =
        take (missing max node nodes) (shuffle (candidates (λ n. ltb n max) node nodes)) in
      if ltb 0 (missing max node nodes)
      then if ltb 0 (length to_add)
        then (update node (neighbors node nodes ++ to_add) nodes, add_all to_add (add node updated))
        else (nodes, updated)
      else (nodes, updated)

  -- The loop over the full nodes. Each round takes one target, so the fuel is their number.
  unfoldable pub disconnect : ℕ → Text → List Text → Work → Work
  disconnect zero node targets w = w
  disconnect (suc fuel) node [] w = w
  disconnect (suc fuel) node (n1 ∷ targets) (nodes, updated) =
      let open_ends = filter (λ n. not (has node (neighbors n nodes))) (neighbors n1 nodes) in
      let n2 = pick open_ends in
      let next =
        disconnect fuel node (filter (λ t. not (same t n2)) targets)
          (splice node n1 n2 nodes, add n2 (add n1 (add node updated))) in
      let skip = disconnect fuel node targets (nodes, updated) in
      if ltb 1 (missing max node nodes)
      then if ltb 0 (length open_ends) then next else skip
      else (nodes, updated)

  -- `disconnectionTargets.pop()` takes from the end of the reversed list: from the front of `targets`.
  unfoldable pub make_room : Text → Work → Work
  make_room node (nodes, updated) =
      let targets = shuffle (candidates (λ n. leb max n) node nodes) in
      if ltb 1 (missing max node nodes)
      then disconnect (length targets) node targets (nodes, updated)
      else (nodes, updated)

  unfoldable pub form_instructions : Text → Bool → Nodes → Nodes × Option (Dict (List Text))
  form_instructions node force_generate nodes =
      let (after, updated) = make_room node (fill node (reduce node (nodes, []))) in
      let told = if force_generate then add node updated else updated in
      if has_node node nodes then (after, instructions (after, told)) else (nodes, some [])
