-- ===== src/Network/Topology/Tests.antt =====
-- A topology of three nodes and a fourth that joins.
use network_monorepo.Prelude.{
  ◌≤◌, ◌⊎◌, ◌≡◌, refl, true, false, some, List, [], ◌∷◌, map, arith, Text, codes, text_dec, has,
  add, remove, add_all, to_set, lookup, insert, erase, modify, defines,
}
use network_monorepo.Network.Topology.{
  Nodes, neighbors, add_to_each, remove_from_each, update, leave, missing, excess, candidates,
  splice, reduce, fill, disconnect, make_room, instructions, form_instructions,
}
use network_monorepo.Network.Topology.Links.{WellFormed, linked}
use network_monorepo.Network.Topology.Update
use network_monorepo.Network.Topology.Choice.{Shuffles, Picks}
use network_monorepo.Network.Topology.Instructions
use network_monorepo.Network.Topology.Instructions.{Formed}
use network_monorepo.Network.Topology.Told
use network_monorepo.Network.Topology.Told.{Tells}
use network_monorepo.Network.Topology.Exhausted

program : Unit {0}
unfolding text_dec has add remove add_all to_set lookup insert erase modify defines neighbors
    add_to_each remove_from_each update leave missing excess candidates splice reduce fill
    disconnect make_room instructions form_instructions
program = tt

abbrev n1 : Text
n1 = codes "n1"

abbrev n2 : Text
n2 = codes "n2"

abbrev n3 : Text
n3 = codes "n3"

abbrev pub identity : List Text → List Text
identity xs = xs

abbrev pub first : List Text → Text
first [] = []
first (x ∷ xs) = x

abbrev ring : Nodes
ring = update n3 (n1 ∷ n2 ∷ []) (update n2 (n1 ∷ []) (update n1 [] []))

-- With two neighbours each, the three are full; a fourth node is put between two of them.
joins :
    (form_instructions identity first 2 (codes "n4") false (update (codes "n4") [] ring)).1
    ≡ some
        ((codes "n4", n1 ∷ n2 ∷ []) ∷ (n1, n3 ∷ codes "n4" ∷ []) ∷ (n2, n3 ∷ codes "n4" ∷ []) ∷ [])
unfolding program
joins = refl

pub identity-Shuffles : Shuffles identity
identity-Shuffles = record { has_shuffle = λ x xs. refl; distinct = λ xs d. d }

pub first-Picks : Picks first
unfolding has
first-Picks [] h = ground arith
first-Picks (x ∷ xs) h = ground arith

empty-WellFormed : WellFormed []
unfolding linked neighbors lookup has
empty-WellFormed = record {
  symmetric = λ a b. refl;
  irreflexive = λ a. refl;
  closed = λ a b h. ground arith;
  distinct_keys = tt;
}

ring-WellFormed : WellFormed ring
ring-WellFormed =
    Update.update-WellFormed n3 (n1 ∷ n2 ∷ []) _
      (Update.update-WellFormed n2 (n1 ∷ []) _ (Update.update-WellFormed n1 [] [] empty-WellFormed))

update-WellFormed_example : WellFormed (update n1 (n2 ∷ []) ring)
update-WellFormed_example = Update.update-WellFormed n1 (n2 ∷ []) ring ring-WellFormed

linked-update_example : linked (update n1 (n2 ∷ []) ring) n3 n1 ≡ false
unfolding program
linked-update_example = Update.linked-update n1 (n2 ∷ []) ring n3 n1 ring-WellFormed

linked-leave_example : linked (leave n1 ring).1 n3 n1 ≡ false
unfolding program
linked-leave_example = Update.linked-leave n3 n1 n1 ring ring-WellFormed

leave-WellFormed_example : WellFormed (leave n1 ring).1
leave-WellFormed_example = Update.leave-WellFormed n1 ring ring-WellFormed

form_instructions-Formed_example :
    Formed 1 n1 ring (form_instructions identity first 1 n1 false ring).0
unfolding program
form_instructions-Formed_example =
    Instructions.form_instructions-Formed identity first 1 identity-Shuffles first-Picks n1 false
      ring ring-WellFormed refl

-- A fourth node, not linked yet.
abbrev n4 : Text
n4 = codes "n4"

abbrev joining : Nodes
joining = update n4 [] ring

joining-WellFormed : WellFormed joining
joining-WellFormed = Update.update-WellFormed n4 [] ring ring-WellFormed

form_instructions-Tells_example :
    let result = form_instructions identity first 2 n4 false joining in
    (told : List Text) × (result.1 ≡ some (map (λ n. (n, neighbors n result.0)) told))
    × Tells n4 joining result.0 told
    × (false ≡ false)
unfolding program
form_instructions-Tells_example =
    Told.form_instructions-Tells identity first 2 identity-Shuffles first-Picks n4 false joining
      joining-WellFormed refl

form_instructions-exhausts_example :
    let after = (form_instructions identity first 2 n4 false joining).0 in
    (missing 2 n4 after ≤ 1) ⊎ (linked after n3 n4 ≡ true) ⊎ (linked after n1 n4 ≡ true)
unfolding program linked
form_instructions-exhausts_example =
    Exhausted.form_instructions-exhausts identity first 2 identity-Shuffles first-Picks n4 false
      joining joining-WellFormed refl n3 n1 refl (omega arith) refl
