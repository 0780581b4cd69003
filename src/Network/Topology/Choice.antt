-- ===== src/Network/Topology/Choice.antt =====
-- What `formInstructions` needs of the two functions that the constructor takes, and the candidates.
use network_monorepo.Prelude.{
  ℕ, zero, suc, ◌≡◌, refl, Bool, true, not, ◌&&◌, List, [], ◌∷◌, arith, ltb, length, take, filter,
  Text, same, has, IsDistinct, keys, lookup, defines, has-keys, keys-filter-IsDistinct,
}
use network_monorepo.Network.Topology.{Nodes, neighbors, candidates}
use network_monorepo.Network.Topology.Links.{linked}

-- A shuffle keeps the elements, each as often as before.
pub record Shuffles (shuffle : List Text → List Text) : Type 0 where
  pub has_shuffle : (x : Text) (xs : List Text) → has x (shuffle xs) ≡ has x xs
  pub distinct : (xs : List Text) → IsDistinct xs → IsDistinct (shuffle xs)

-- A pick from a list that is not empty is one of its elements.
abbrev pub Picks : (List Text → Text) → Type 0
Picks pick = (xs : List Text) → ltb 0 (length xs) ≡ true → has (pick xs) xs ≡ true

pub has-take : (x : Text) (n : ℕ) (xs : List Text) → has x (take n xs) ≡ true → has x xs ≡ true
unfolding has
has-take x zero xs h = ground arith
has-take x (suc n) [] h = ground arith
has-take x (suc n) (y ∷ xs) h = ground (arith, has-take x n xs)

abbrev sieve : (ℕ → Bool) → Text → Nodes → Nodes
sieve test node nodes =
    filter (λ e. not (same e.0 node))
      (filter (λ e. not (has node e.1)) (filter (λ e. test (length e.1)) nodes))

has-sieve :
    (test : ℕ → Bool) (x node : Text) (nodes : Nodes)
    → IsDistinct (keys nodes)
    → has x (keys (sieve test node nodes)) ≡ (
        defines x nodes
        && not (same x node)
        && not (linked nodes x node)
        && test (length (neighbors x nodes)))
unfolding has defines lookup linked neighbors
has-sieve test x node [] d = refl
has-sieve test x node ((y, s) ∷ nodes) d =
    ground (arith, has-sieve test x node nodes d.1, has-keys y nodes)

-- The candidates are the nodes that pass the test, other than the node and its neighbours.
pub has-candidates :
    (test : ℕ → Bool) (x node : Text) (nodes : Nodes)
    → IsDistinct (keys nodes)
    → has x (candidates test node nodes) ≡ (
        defines x nodes
        && not (same x node)
        && not (linked nodes x node)
        && test (length (neighbors x nodes)))
unfolding candidates
has-candidates test x node nodes d = has-sieve test x node nodes d

pub candidates-IsDistinct :
    (test : ℕ → Bool) (node : Text) (nodes : Nodes)
    → IsDistinct (keys nodes)
    → IsDistinct (candidates test node nodes)
unfolding candidates
candidates-IsDistinct test node nodes d =
    keys-filter-IsDistinct _ _ (keys-filter-IsDistinct _ _ (keys-filter-IsDistinct _ nodes d))
