-- ===== src/Examples/Addresses.antt =====
-- MAC addresses, a network's addresses and a configuration, at concrete values.
use pulsitor_lan_agent.Base.{
  ◌≡◌, ◌↔◌, refl, true, false, none, some, List, [], ◌∷◌, codes, In, arith, list_beq, int_beq,
  text_eq,
}
use pulsitor_lan_agent.Discover.Mac.{normalise_mac}
use pulsitor_lan_agent.Discover.Net.{
  Ip, v4, is_v4, is_private, hosts, hosts_ok, contains, is_edge_address,
}
use pulsitor_lan_agent.Discover.Net.Laws.{net4, hosts_exact}
use pulsitor_lan_agent.Config.{validate, equal}
use pulsitor_lan_agent.Config.Equal.{equal_iff}
use pulsitor_lan_agent.Config.Valid.{IsUsable, validate_iff}
use pulsitor_lan_agent.Examples.{net, household, grown, old_address}

padded : normalise_mac (codes "3C:22:FB:0:1:2") ≡ codes "3c:22:fb:00:01:02"
unfolding normalise_mac list_beq
padded = refl

group_address : normalise_mac (codes "01:00:5e:00:00:fb") ≡ []
unfolding normalise_mac list_beq
group_address = refl

abbrev six_hosts : List Ip
six_hosts =
    v4 167772161 ∷ v4 167772162 ∷ v4 167772163 ∷ v4 167772164 ∷ v4 167772165 ∷ v4 167772166 ∷ []

home_hosts : hosts (net4 167772163 29) ≡ hosts_ok six_hosts
unfolding hosts
home_hosts = refl

hosts_exact_example : In old_address six_hosts ↔ (
    (contains (net4 167772163 29) old_address ≡ true)
    × (is_edge_address old_address (net4 167772163 29) ≡ false))
hosts_exact_example = hosts_exact 167772163 29 (omega arith) (omega arith) old_address home_hosts

household_accepted : validate net household ≡ none
unfolding validate hosts is_v4 is_private normalise_mac list_beq int_beq
household_accepted = refl

validate_iff_example : (validate net household ≡ none) ↔ IsUsable net household
validate_iff_example = validate_iff net household

equal_iff_example : (equal (some household) (some grown) ≡ true) ↔ (some household ≡ some grown)
equal_iff_example = equal_iff (some household) (some grown)
