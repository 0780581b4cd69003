-- ===== src/Network/LocationManager/Tests.antt =====
-- The location of one node.
use network_monorepo.Prelude.{
  ℕ, ◌≡◌, refl, true, none, some, [], ◌∷◌, ◌==◌, Text, codes, text_dec, Dict, lookup,
}
use network_monorepo.Network.LocationManager.{
  Location, is_valid_node_location, get_node_location, update_location,
}
use network_monorepo.Network.LocationManager.Valid.{valid-update_location}

abbrev n1 : Text
n1 = codes "n1"

abbrev here : Location ℕ
here = record { latitude = some 60; longitude = none; country = none; city = none }

abbrev nowhere : Location ℕ
nowhere = record { latitude = none; longitude = none; country = some []; city = none }

abbrev locations : Dict (Location ℕ)
locations = (n1, here) ∷ []

valid-update_location_example :
    is_valid_node_location
      (λ c. c == 0)
      (λ a. none)
      (get_node_location
        (λ c. c == 0)
        (λ a. none)
        n1
        (update_location (λ c. c == 0) (λ a. none) n1 (some nowhere) (some (codes "a")) locations))
    ≡ true
unfolding text_dec lookup is_valid_node_location get_node_location
valid-update_location_example =
    valid-update_location (λ c. c == 0) (λ a. none) n1 n1 (some nowhere) (some (codes "a"))
      locations refl
