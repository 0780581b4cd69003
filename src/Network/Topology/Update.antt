-- ===== src/Network/Topology/Update.antt =====
-- The links and the well-formedness of a topology under `update` and `leave` (OverlayTopology.ts).
use network_monorepo.Prelude.{
  ◌≡◌, refl, ◌∙◌, false, not, ◌&&◌, ◌||◌, none, some, List, arith, if◌then◌else◌, inl, inr,
  Option-cases, filter, Text, same, has, has-filter, has-to_set, to_set, lookup, insert, keys,
  defines, has-keys, IsDistinct, insert-IsDistinct, erase-IsDistinct, defines-insert, defines-erase,
}
use network_monorepo.Network.Topology.{
  Nodes, neighbors, has_node, add_to_each, remove_from_each, update, leave,
}
use network_monorepo.Network.Topology.Links.{
  WellFormed, linked, linked-insert, linked-erase, linked-add_to_each, linked-remove_from_each,
  defines-add_to_each, keys-add_to_each, keys-remove_from_each, defines-remove_from_each,
}

-- The reported neighbours that `update` keeps.
unfoldable pub known : Text → List Text → Nodes → List Text
known node reported nodes =
    filter (λ n. not (same n node)) (filter (λ n. has_node n nodes) reported)

pub has-known :
    (x node : Text) (reported : List Text) (nodes : Nodes)
    → has x (known node reported nodes) ≡ (has x reported && defines x nodes && not (same x node))
unfolding known
has-known x node reported nodes = ground (
  arith,
  has-filter x (λ n. not (same n node)) (filter (λ n. has_node n nodes) reported),
  has-filter x (λ n. has_node n nodes) reported,
)

-- The nodes after the first two steps of `update`.
unfoldable pub introduced : Text → List Text → Nodes → Nodes
introduced node reported nodes =
    let k = known node reported nodes in add_to_each node k (insert node (to_set k) nodes)

pub update-introduced :
    (node : Text) (reported : List Text) (nodes : Nodes)
    → update node reported nodes ≡ (
        let mid = introduced node reported nodes in
        remove_from_each node (filter (λ n. not (linked mid node n)) (keys mid)) mid)
unfolding update introduced known linked
update-introduced node reported nodes = refl

module _ (node : Text) (reported : List Text) (nodes : Nodes) where
  defines-introduced :
      (j : Text) → defines j (introduced node reported nodes) ≡ (same node j || defines j nodes)
  unfolding introduced
  defines-introduced j =
      let k = known node reported nodes in
      ground (
        arith,
        defines-add_to_each j node k (insert node (to_set k) nodes),
        defines-insert j node (to_set k) nodes,
      )

  linked-introduced :
      (a b : Text)
      → linked (introduced node reported nodes) a b ≡ (
          if same node a
          then has b (known node reported nodes)
          else linked nodes a b || (has a (known node reported nodes) && same b node))
  unfolding introduced
  linked-introduced a b =
      let k = known node reported nodes in
      ground (
        arith,
        linked-add_to_each node a b k (insert node (to_set k) nodes),
        linked-insert a node b nodes (to_set k),
        has-to_set b k,
        has-known a node reported nodes,
        defines-insert a node (to_set k) nodes,
      )

  introduced-IsDistinct :
      IsDistinct (keys nodes) → IsDistinct (keys (introduced node reported nodes))
  unfolding introduced
  introduced-IsDistinct d =
      rw keys-add_to_each (insert-IsDistinct node (to_set (known node reported nodes)) nodes d)

  pub defines-update :
      (j : Text) → defines j (update node reported nodes) ≡ (same node j || defines j nodes)
  defines-update j =
      let mid = introduced node reported nodes in
      rw update-introduced (defines-remove_from_each j node _ mid ∙ defines-introduced j)

  -- After `update` the node is linked to the reported nodes that are known and not itself, in both
  -- directions, and no other link has changed.
  pub linked-update :
      (a b : Text)
      → WellFormed nodes
      → linked (update node reported nodes) a b ≡ (
          if same a node
          then has b reported && defines b nodes && not (same b node)
          else if same b node
          then has a reported && defines a nodes
          else linked nodes a b)
  linked-update a b w =
      let mid = introduced node reported nodes in
      let far = filter (λ n. not (linked mid node n)) (keys mid) in
      rw update-introduced (
        ground (
          arith,
          linked-remove_from_each node a b far mid,
          has-filter a (λ n. not (linked mid node n)) (keys mid),
          has-keys a mid,
          defines-introduced a,
          linked-introduced a b,
          linked-introduced node a,
          linked-introduced node b,
          has-known a node reported nodes,
          has-known b node reported nodes,
          w.symmetric a b,
          w.closed b a,
        ))

  -- `update` keeps a topology well formed.
  pub update-WellFormed : WellFormed nodes → WellFormed (update node reported nodes)
  update-WellFormed w = record {
    symmetric = λ a b. ground (arith, linked-update a b w, linked-update b a w, w.symmetric a b);
    irreflexive = λ a. ground (arith, linked-update a a w, w.irreflexive a);
    closed = λ a b h. ground (arith, linked-update a b w, defines-update b, w.closed a b);
    distinct_keys =
        rw (update-introduced, keys-remove_from_each) (introduced-IsDistinct w.distinct_keys);
  }

linked-missing :
    (node a : Text) (nodes : Nodes) → lookup node nodes ≡ none → linked nodes node a ≡ false
unfolding linked neighbors has
linked-missing node a nodes h = ground arith

linked-present :
    (node a : Text) (nodes : Nodes) (s : List Text)
    → lookup node nodes ≡ some s
    → linked nodes node a ≡ has a s
unfolding linked neighbors
linked-present node a nodes s h = ground arith

pub defines-leave :
    (j node : Text) (nodes : Nodes)
    → defines j (leave node nodes).1 ≡ (not (same node j) && defines j nodes)
unfolding leave defines
defines-leave j node nodes = elim (Option-cases (lookup node nodes)) [
  | inl e ↦ rw (e, leave) (ground arith)
  | inr (s, e) ↦
      rw (e, leave)
        (ground (
          arith,
          defines-erase j node (remove_from_each node s nodes),
          defines-remove_from_each j node s nodes,
        ))
]

-- After `leave` the node has no links, and no other link has changed.
pub linked-leave :
    (a b node : Text) (nodes : Nodes)
    → WellFormed nodes
    → linked (leave node nodes).1 a b ≡ (not (same a node) && not (same b node) && linked nodes a b)
unfolding leave
linked-leave a b node nodes w = elim (Option-cases (lookup node nodes)) [
  | inl e ↦
      rw (e, leave)
        (ground
          (arith, linked-missing node b nodes e, linked-missing node a nodes e, w.symmetric a b))
  | inr (s, e) ↦
      rw (e, leave)
        (ground (
          arith,
          linked-erase a node b (remove_from_each node s nodes),
          linked-remove_from_each node a b s nodes,
          linked-present node a nodes s e,
          w.symmetric a b,
        ))
]

leave-IsDistinct :
    (node : Text) (nodes : Nodes) → IsDistinct (keys nodes) → IsDistinct (keys (leave node nodes).1)
unfolding leave
leave-IsDistinct node nodes d = elim (Option-cases (lookup node nodes)) [
  | inl e ↦ rw (e, leave) d
  | inr (s, e) ↦
      rw (e, leave)
        (erase-IsDistinct node (remove_from_each node s nodes)
          (rw (keys-remove_from_each node s nodes) d))
]

-- `leave` keeps a topology well formed.
pub leave-WellFormed :
    (node : Text) (nodes : Nodes) → WellFormed nodes → WellFormed (leave node nodes).1
leave-WellFormed node nodes w = record {
  symmetric = λ a b.
      ground (arith, linked-leave a b node nodes w, linked-leave b a node nodes w, w.symmetric a b);
  irreflexive = λ a. ground (arith, linked-leave a a node nodes w, w.irreflexive a);
  closed = λ a b h.
      ground (arith, linked-leave a b node nodes w, defines-leave b node nodes, w.closed a b);
  distinct_keys = leave-IsDistinct node nodes w.distinct_keys;
}
