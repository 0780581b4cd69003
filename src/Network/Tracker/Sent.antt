-- ===== src/Network/Tracker/Sent.antt =====
-- The overlays of a tracker (Tracker.ts) and the relation that its steps keep on them.
use network_monorepo.Prelude.{
  ◌≡◌, refl, subst, Bool, true, false, not, ◌&&◌, none, some, List, [], ◌∷◌, ◌++◌, arith, Text,
  same, has, has-append, Dict, lookup, insert, erase, keys, defines, IsDistinct, lookup-insert,
  lookup-erase, defines-insert, defines-erase, insert-IsDistinct, erase-IsDistinct, Bool-cases,
  Option-cases, inl, inr,
}
use network_monorepo.Network.Topology.{Nodes}
use network_monorepo.Network.Topology.Links.{WellFormed}

-- The node is in the overlay of the stream.
unfoldable pub is_member : Dict Nodes → Text → Text → Bool
is_member overlays stream node = elim (lookup stream overlays) [
  | none ↦ false
  | some nodes ↦ defines node nodes
]

pub record IsSound (overlays : Dict Nodes) : Type 0 where
  pub well_formed :
      (stream : Text) (nodes : Nodes) → lookup stream overlays ≡ some nodes → WellFormed nodes
  pub distinct : IsDistinct (keys overlays)

-- `node` has left the overlays of some streams, and may have taken these with it; no node is in
-- another overlay than before.
pub record Leaves (node : Text) (streams : List Text) (before after : Dict Nodes) : Type 0 where
  pub sound : IsSound after
  pub kept : (k : Text) → has k streams ≡ false → defines k after ≡ defines k before
  pub members :
      (k m : Text)
      → is_member after k m ≡ (is_member before k m && not (has k streams && same node m))

pub Leaves-refl : (node : Text) (o : Dict Nodes) → IsSound o → Leaves node [] o o
unfolding has
Leaves-refl node o s = record { sound = s; kept = λ k h. refl; members = λ k m. ground arith }

pub Leaves-trans :
    (node : Text) (xs ys : List Text) (o o' o'' : Dict Nodes)
    → Leaves node xs o o'
    → Leaves node ys o' o''
    → Leaves node (xs ++ ys) o o''
Leaves-trans node xs ys o o' o'' l l' = record {
  sound = l'.sound;
  kept = λ k h. ground (arith, has-append k xs ys, l.kept k, l'.kept k);
  members = λ k m. ground (arith, has-append k xs ys, l.members k m, l'.members k m);
}

pub insert-IsSound :
    (stream : Text) (nodes : Nodes) (o : Dict Nodes)
    → WellFormed nodes
    → IsSound o
    → IsSound (insert stream nodes o)
insert-IsSound stream nodes o w s = record {
  well_formed = λ k found h. elim (Bool-cases (same stream k)) [
    | inl e ↦
        let here : nodes ≡ found = ground (arith, lookup-insert k stream nodes o) in
        subst WellFormed here w
    | inr e ↦ s.well_formed k found (ground (arith, lookup-insert k stream nodes o))
  ];
  distinct = insert-IsDistinct stream nodes o s.distinct;
}

pub erase-IsSound : (stream : Text) (o : Dict Nodes) → IsSound o → IsSound (erase stream o)
erase-IsSound stream o s = record {
  well_formed = λ k found h. s.well_formed k found (ground (arith, lookup-erase k stream o));
  distinct = erase-IsDistinct stream o s.distinct;
}

pub defines-found :
    (k : Text) (x : Nodes) (d : Dict Nodes) → lookup k d ≡ some x → defines k d ≡ true
unfolding defines
defines-found k x d e = ground arith

pub found-defines :
    (k : Text) (d : Dict Nodes) → defines k d ≡ true → (x : Nodes) × (lookup k d ≡ some x)
unfolding defines
found-defines k d e = elim (Option-cases (lookup k d)) [
  | inl n ↦ absurd (ground arith)
  | inr found ↦ found
]

-- An overlay of the same nodes in the place of another.
pub replace-Leaves :
    (node stream : Text) (nodes nodes' : Nodes) (o : Dict Nodes)
    → lookup stream o ≡ some nodes
    → WellFormed nodes'
    → ((m : Text) → defines m nodes' ≡ defines m nodes)
    → IsSound o
    → Leaves node [] o (insert stream nodes' o)
unfolding has is_member
replace-Leaves node stream nodes nodes' o h w same_nodes s = record {
  sound = insert-IsSound stream nodes' o w s;
  kept = λ k n. ground (arith, defines-insert k stream nodes' o, defines-found stream nodes o h);
  members = λ k m. ground (arith, lookup-insert k stream nodes' o, same_nodes m);
}

-- An overlay without the node in the place of the one that it has left.
pub left-Leaves :
    (node stream : Text) (nodes nodes' : Nodes) (o : Dict Nodes)
    → lookup stream o ≡ some nodes
    → WellFormed nodes'
    → ((m : Text) → defines m nodes' ≡ (not (same node m) && defines m nodes))
    → IsSound o
    → Leaves node (stream ∷ []) o (insert stream nodes' o)
unfolding has is_member
left-Leaves node stream nodes nodes' o h w left s = record {
  sound = insert-IsSound stream nodes' o w s;
  kept = λ k n. ground (arith, defines-insert k stream nodes' o);
  members = λ k m. ground (arith, lookup-insert k stream nodes' o, left m);
}

pub dropped-Leaves :
    (node stream : Text) (nodes nodes' : Nodes) (o : Dict Nodes)
    → lookup stream o ≡ some nodes
    → ((m : Text) → (not (same node m) && defines m nodes) ≡ false)
    → IsSound o
    → Leaves node (stream ∷ []) o (erase stream o)
unfolding has is_member
dropped-Leaves node stream nodes nodes' o h empty s = record {
  sound = erase-IsSound stream o s;
  kept = λ k n. ground (arith, defines-erase k stream o);
  members = λ k m. ground (arith, lookup-erase k stream o, empty m);
}

pub member-defined : (o : Dict Nodes) (k m : Text) → is_member o k m ≡ true → defines k o ≡ true
unfolding is_member defines
member-defined o k m h = ground arith
