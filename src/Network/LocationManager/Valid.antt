-- ===== src/Network/LocationManager/Valid.antt =====
-- Valid locations (LocationManager.ts).
use network_monorepo.Prelude.{
  ◌≡◌, refl, Bool, true, Option, none, some, arith, if◌then◌else◌, Text, same, Dict, lookup,
  lookup-insert,
}
use network_monorepo.Network.LocationManager.{
  Location, is_valid_node_location, get_node_location, store_location, find_if_any, update_location,
}

module _ {C : Type 0} (is_zero : C → Bool) (find_address : Text → Option (Location C)) where
  lookup-store_location :
      (n node : Text) (l : Option (Location C)) (locations : Dict (Location C))
      → lookup n (store_location is_zero find_address node l locations) ≡ (elim l [
        | none ↦ lookup n locations
        | some x ↦ if same node n then some x else lookup n locations
      ])
  lookup-store_location n node none locations = refl
  lookup-store_location n node (some x) locations = lookup-insert n node x locations

  -- A node whose location is valid has a valid one after any report of any node, with or without a
  -- location or an address.
  pub valid-update_location :
      (n node : Text) (l : Option (Location C)) (address : Option Text)
      (locations : Dict (Location C))
      → is_valid_node_location is_zero find_address
          (get_node_location is_zero find_address n locations)
        ≡ true
      → is_valid_node_location is_zero find_address (
          get_node_location is_zero find_address n
            (update_location is_zero find_address node l address locations))
        ≡ true
  unfolding update_location get_node_location
  valid-update_location n node none address locations h =
      ground
        (arith, lookup-store_location n node (find_if_any is_zero find_address address) locations)
  valid-update_location n node (some x) address locations h = ground (
    arith,
    lookup-store_location n node (some x) locations,
    lookup-store_location n node (find_if_any is_zero find_address address) locations,
  )
