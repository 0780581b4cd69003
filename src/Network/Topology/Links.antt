-- ===== src/Network/Topology/Links.antt =====
-- The links of a topology, and how each elementary change of the sets moves them.
use network_monorepo.Prelude.{
  ◌≡◌, refl, ◌∙◌, Bool, true, false, not, ◌&&◌, ◌||◌, List, [], ◌∷◌, arith, if◌then◌else◌, Text,
  same, has, add, remove, has-add, has-remove, insert, erase, modify, keys, defines, lookup,
  lookup-insert, lookup-erase, lookup-modify, defines-modify, IsDistinct, keys-modify,
}
use network_monorepo.Network.Topology.{Nodes, neighbors, add_to_each, remove_from_each}

-- `x` is among the neighbours of `m`.
unfoldable pub linked : Nodes → Text → Text → Bool
linked nodes m x = has x (neighbors m nodes)

pub record WellFormed (nodes : Nodes) : Type 0 where
  pub symmetric : (a b : Text) → linked nodes a b ≡ linked nodes b a
  pub irreflexive : (a : Text) → linked nodes a a ≡ false
  pub closed : (a b : Text) → linked nodes a b ≡ true → defines b nodes ≡ true
  pub distinct_keys : IsDistinct (keys nodes)

linked-nil : (a b : Text) → linked [] a b ≡ false
unfolding linked neighbors lookup has
linked-nil a b = refl

pub nil-WellFormed : WellFormed []
nil-WellFormed = record {
  symmetric = λ a b. ground (arith, linked-nil a b, linked-nil b a);
  irreflexive = λ a. linked-nil a a;
  closed = λ a b h. ground (arith, linked-nil a b);
  distinct_keys = tt;
}

module _ (m k x : Text) (nodes : Nodes) where
  pub linked-insert :
      (s : List Text)
      → linked (insert k s nodes) m x ≡ (if same k m then has x s else linked nodes m x)
  unfolding linked neighbors
  linked-insert s = ground (arith, lookup-insert m k s nodes)

  pub linked-erase : linked (erase k nodes) m x ≡ (not (same k m) && linked nodes m x)
  unfolding linked neighbors has
  linked-erase = ground (arith, lookup-erase m k nodes)

  pub linked-modify-add :
      (y : Text)
      → linked (modify k (add y) nodes) m x
        ≡ (linked nodes m x || (same k m && same x y && defines k nodes))
  unfolding linked neighbors has defines
  linked-modify-add y =
      ground (arith, lookup-modify m k (add y) nodes, has-add x y (neighbors m nodes))

  pub linked-modify-remove :
      (y : Text)
      → linked (modify k (remove y) nodes) m x ≡ (linked nodes m x && not (same k m && same x y))
  unfolding linked neighbors has
  linked-modify-remove y =
      ground (arith, lookup-modify m k (remove y) nodes, has-remove x y (neighbors m nodes))

pub defines-add_to_each :
    (j node : Text) (ms : List Text) (nodes : Nodes)
    → defines j (add_to_each node ms nodes) ≡ defines j nodes
unfolding add_to_each
defines-add_to_each j node [] nodes = refl
defines-add_to_each j node (m ∷ ms) nodes = ground (
  arith,
  defines-add_to_each j node ms (modify m (add node) nodes),
  defines-modify j m (add node) nodes,
)

pub defines-remove_from_each :
    (j node : Text) (ms : List Text) (nodes : Nodes)
    → defines j (remove_from_each node ms nodes) ≡ defines j nodes
unfolding remove_from_each
defines-remove_from_each j node [] nodes = refl
defines-remove_from_each j node (m ∷ ms) nodes = ground (
  arith,
  defines-remove_from_each j node ms (modify m (remove node) nodes),
  defines-modify j m (remove node) nodes,
)

pub keys-add_to_each :
    (node : Text) (ms : List Text) (nodes : Nodes) → keys (add_to_each node ms nodes) ≡ keys nodes
unfolding add_to_each
keys-add_to_each node [] nodes = refl
keys-add_to_each node (m ∷ ms) nodes =
    keys-add_to_each node ms (modify m (add node) nodes) ∙ keys-modify m (add node) nodes

pub keys-remove_from_each :
    (node : Text) (ms : List Text) (nodes : Nodes)
    → keys (remove_from_each node ms nodes) ≡ keys nodes
unfolding remove_from_each
keys-remove_from_each node [] nodes = refl
keys-remove_from_each node (m ∷ ms) nodes =
    keys-remove_from_each node ms (modify m (remove node) nodes) ∙ keys-modify m (remove node) nodes

pub linked-add_to_each :
    (node a b : Text) (ms : List Text) (nodes : Nodes)
    → linked (add_to_each node ms nodes) a b
      ≡ (linked nodes a b || (has a ms && same b node && defines a nodes))
unfolding add_to_each has
linked-add_to_each node a b [] nodes = ground arith
linked-add_to_each node a b (m ∷ ms) nodes = ground (
  arith,
  linked-add_to_each node a b ms (modify m (add node) nodes),
  linked-modify-add a m b nodes node,
  defines-modify a m (add node) nodes,
)

pub linked-remove_from_each :
    (node a b : Text) (ms : List Text) (nodes : Nodes)
    → linked (remove_from_each node ms nodes) a b
      ≡ (linked nodes a b && not (has a ms && same b node))
unfolding remove_from_each has
linked-remove_from_each node a b [] nodes = ground arith
linked-remove_from_each node a b (m ∷ ms) nodes = ground (
  arith,
  linked-remove_from_each node a b ms (modify m (remove node) nodes),
  linked-modify-remove a m b nodes node,
)
