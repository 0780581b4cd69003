-- ===== src/Network/LocationManager.antt =====
-- `LocationManager` of packages/network/src/logic/LocationManager.ts. Coordinates are of any type
-- with a test for zero, and the `lookup` of the package `geoip-lite` is a parameter.
pub mod Valid
mod Tests
use network_monorepo.Prelude.{
  ℕ, Bool, true, false, ◌||◌, Option, none, some, List, [], ◌∷◌, not, if◌then◌else◌, Text, Dict,
  lookup, insert, erase,
}

pub record Location (C : Type 0) : Type 0 where
  pub latitude : Option C
  pub longitude : Option C
  pub country : Option Text
  pub city : Option Text

-- A string is true in a condition if it has a character.
abbrev pub is_truthy_text : Option Text → Bool
is_truthy_text none = false
is_truthy_text (some []) = false
is_truthy_text (some (x ∷ t)) = true

module _ {C : Type 0} (is_zero : C → Bool) (find_address : Text → Option (Location C)) where
  -- A number is true in a condition if it is not zero.
  abbrev is_truthy : Option C → Bool
  is_truthy none = false
  is_truthy (some c) = not (is_zero c)

  unfoldable pub is_valid_node_location : Option (Location C) → Bool
  is_valid_node_location none = false
  is_valid_node_location (some l) =
      is_truthy_text l.country
      || is_truthy_text l.city
      || is_truthy l.latitude
      || is_truthy l.longitude

  unfoldable pub get_node_location : Text → Dict (Location C) → Option (Location C)
  get_node_location node locations = lookup node locations

  abbrev pub store_location : Text → Option (Location C) → Dict (Location C) → Dict (Location C)
  store_location node none locations = locations
  store_location node (some l) locations = insert node l locations

  abbrev pub find_if_any : Option Text → Option (Location C)
  find_if_any none = none
  find_if_any (some []) = none
  find_if_any (some (x ∷ address)) = find_address (x ∷ address)

  unfoldable pub update_location :
      Text → Option (Location C) → Option Text → Dict (Location C) → Dict (Location C)
  update_location node location address locations =
      if is_valid_node_location location
      then store_location node location locations
      else if not (is_valid_node_location (lookup node locations))
      then store_location node (find_if_any address) locations
      else locations

  unfoldable pub remove_location : Text → Dict (Location C) → Dict (Location C)
  remove_location node locations = erase node locations
