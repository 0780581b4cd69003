-- ===== src/Network/Tracker/Tests.antt =====
-- A tracker with two nodes of one stream.
use network_monorepo.Prelude.{
  ℕ, zero, suc, arith, ◌≡◌, refl, Bool, true, false, Option, none, some, List, [], ◌∷◌, Text, codes,
  text_dec, has, add, remove, add_all, to_set, lookup, insert, erase, modify, defines,
}
use network_monorepo.Network.Topology.{
  Nodes, neighbors, add_to_each, remove_from_each, update, leave, missing, excess, candidates,
  is_empty, splice, reduce, fill, disconnect, make_room, instructions, form_instructions,
}
use network_monorepo.Network.Topology.Links.{nil-WellFormed}
use network_monorepo.Network.Topology.Update.{update-WellFormed}
use network_monorepo.Network.Topology.Tests.{identity, first, identity-Shuffles, first-Picks}
use network_monorepo.Network.Counter.{
  count, current, get_and_set_if_necessary, set_or_increment, is_fresh, filter_status, remove_node,
  remove_stream,
}
use network_monorepo.Network.LocationManager.{
  Location, is_valid_node_location, update_location, remove_location,
}
use network_monorepo.Network.Tracker.{
  Tracker, Instruction, new_tracker, send_each, form_on_stream, form_and_send_instructions,
  form_for_each, leave_and_check_empty_overlay, leave_each, create_overlay,
  create_new_overlay_topologies, update_overlay, update_each, unmentioned, update_node,
  update_single, update_node_on_stream, noted, process_node_status, on_node_disconnected,
}
use network_monorepo.Network.Tracker.Sent.{IsSound, is_member, insert-IsSound}
use network_monorepo.Network.Tracker.Steps.{on_node_disconnected_lem}
use network_monorepo.Network.Tracker.Runs.{Event, reports, disconnects, handle, run, run-IsSound}

abbrev is_zero : ℕ → Bool
is_zero zero = true
is_zero (suc n) = false

abbrev nowhere : Text → Option (Location ℕ)
nowhere address = none

abbrev s1 : Text
s1 = codes "s1"

abbrev n1 : Text
n1 = codes "n1"

abbrev n2 : Text
n2 = codes "n2"

abbrev joins : Text → Event ℕ
joins node = reports node none (record {
  streams = (s1, record { inbound_nodes = []; outbound_nodes = []; counter = count 0 }) ∷ [];
  rtts = [];
  location = none;
  single_stream = true;
})

program : Unit {0}
unfolding text_dec has add remove add_all to_set lookup insert erase modify defines neighbors
    add_to_each remove_from_each update leave missing excess candidates splice reduce fill
    disconnect make_room instructions form_instructions is_empty current get_and_set_if_necessary
    set_or_increment is_fresh filter_status remove_node remove_stream is_valid_node_location
    update_location remove_location new_tracker send_each form_on_stream form_and_send_instructions
    form_for_each leave_and_check_empty_overlay leave_each create_overlay
    create_new_overlay_topologies update_overlay update_each unmentioned update_node update_single
    update_node_on_stream noted process_node_status on_node_disconnected handle run
program = tt

abbrev sent_by : Option (List Instruction × Tracker ℕ) → List Instruction
sent_by none = []
sent_by (some (sent, t)) = sent

-- The second node is linked to the first, and once it has gone the first is told so.
joins-leaves :
    sent_by (
      run is_zero nowhere identity first
        (joins n1 ∷ joins n2 ∷ disconnects n2 ∷ [])
        (new_tracker is_zero nowhere identity first 2))
    ≡ record { node = n2; stream = s1; neighbors = n1 ∷ []; counter = 1 }
      ∷ record { node = n1; stream = s1; neighbors = n2 ∷ []; counter = 1 }
      ∷ record { node = n1; stream = s1; neighbors = []; counter = 2 }
      ∷ []
unfolding program
joins-leaves = refl

run-IsSound_example :
    (sent : List Instruction) × (t : Tracker ℕ) × (run is_zero nowhere identity first
        (joins n1 ∷ joins n2 ∷ disconnects n2 ∷ [])
        (new_tracker is_zero nowhere identity first 2)
      ≡ some (sent, t))
    × IsSound t.overlay_per_stream
run-IsSound_example =
    run-IsSound is_zero nowhere identity first identity-Shuffles first-Picks 2
      (joins n1 ∷ joins n2 ∷ disconnects n2 ∷ [])

abbrev overlay : Nodes
overlay = update n2 (n1 ∷ []) (update n1 [] [])

abbrev linked_pair : Tracker ℕ
linked_pair = record (new_tracker is_zero nowhere identity first 2) {
  overlay_per_stream = (s1, overlay) ∷ [];
}

nil-IsSound : IsSound []
unfolding lookup
nil-IsSound = record { well_formed = λ k nodes h. absurd (ground arith); distinct = tt }

linked_pair-IsSound : IsSound ((s1, overlay) ∷ [])
unfolding insert
linked_pair-IsSound =
    insert-IsSound s1 overlay []
      (update-WellFormed n2 (n1 ∷ []) _ (update-WellFormed n1 [] [] nil-WellFormed)) nil-IsSound

on_node_disconnected_lem_example :
    (sent : List Instruction) × (t : Tracker ℕ) × (on_node_disconnected is_zero nowhere identity
        first n2 linked_pair
      ≡ some (sent, t))
    × IsSound t.overlay_per_stream
    × (is_member t.overlay_per_stream s1 n2 ≡ false)
unfolding program is_member
on_node_disconnected_lem_example =
    on_node_disconnected_lem is_zero nowhere identity first identity-Shuffles first-Picks s1 n2 n2
      linked_pair linked_pair-IsSound
