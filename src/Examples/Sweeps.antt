-- ===== src/Examples/Sweeps.antt =====
-- A sweep of the home network, and of one that the server has not enabled.
use pulsitor_lan_agent.Base.{
  ◌≡◌, ◌↔◌, inl, inr, refl, none, some, List, [], ◌∷◌, Text, codes, keep, In, Map, empty,
  if◌then◌else◌, text_eq, list_beq, for_each, ◌==◌, nat_eq,
}
use pulsitor_lan_agent.Discover.Net.{v4, contains, is_private, is_edge_address}
use pulsitor_lan_agent.Discover.Sweep.{
  Device, Attached, SweepReply, allowed_loop, visit, visit_all, record_address, record_answers,
  neighbours_in, run_context,
}
use pulsitor_lan_agent.Discover.Sweep.Laws.{scanned_iff}
use pulsitor_lan_agent.Discover.Sweep.Untouched.{is_host, entries_of, run_context-untouched}
use pulsitor_lan_agent.Discover.Sweep.Presence.{IsPresent, device-IsPresent}
use pulsitor_lan_agent.Agent.Neighbours.{Neighbor}
use pulsitor_lan_agent.Examples.{net, home, new_address}

abbrev wired : Attached
wired = record { name = codes "eth0"; cidr = codes "10.0.0.0/29"; net = home }

abbrev guests : Attached
guests = record { name = codes "wlan1"; cidr = codes "10.9.0.0/29"; net = home }

abbrev both : List Attached
both = wired ∷ guests ∷ []

abbrev enabled : List Text
enabled = codes "10.0.0.0/29" ∷ []

abbrev one_answer : Attached → SweepReply
one_answer a = record { answered = new_address ∷ []; undelivered = 0; error = none }

abbrev no_table : Attached → List Neighbor
no_table a = []

abbrev no_names : List Text → Map Text Text
no_names addresses = empty

abbrev seen_laptop : Device
seen_laptop = record { mac = []; ip = codes "10.0.0.6"; hostname = [] }

scanned_iff_example :
    In (codes "10.0.0.0/29") (run_context net enabled one_answer no_table no_names both).scanned ↔ (
      (a : Attached) × In a both
      × (codes "10.0.0.0/29" ≡ a.cidr)
      × In a.cidr enabled
      × ((one_answer a).error ≡ none)
      × ((one_answer a).undelivered ≡ 0))
scanned_iff_example =
    scanned_iff net enabled one_answer no_table no_names both (codes "10.0.0.0/29")

one_device : (run_context net enabled one_answer no_table no_names both).devices ≡ seen_laptop ∷ []
unfolding run_context visit_all visit allowed_loop for_each list_beq record_answers record_address
    neighbours_in is_private is_edge_address
one_device = refl

device-IsPresent_example : IsPresent net enabled one_answer no_table both (codes "10.0.0.6")
device-IsPresent_example =
    device-IsPresent net enabled one_answer no_table both no_names seen_laptop
      (rw one_device (inl refl))

-- The guests' network looks different, and is not enabled.
abbrev other_answers : Attached → SweepReply
other_answers a =
    if a.cidr == codes "10.0.0.0/29"
    then one_answer a
    else record { answered = []; undelivered = 3; error = none }

-- Another machine's table has one more entry, for an address outside the enabled network.
abbrev outside_table : Attached → List Neighbor
outside_table a = record { ip = some (v4 3232235777); mac = codes "3c:22:fb:00:01:02" } ∷ []

same_where_enabled :
    (a : Attached)
    → In a both
    → In a.cidr enabled
    → (one_answer a ≡ other_answers a)
      × (entries_of a.net (no_table a) ≡ entries_of a.net (outside_table a))
unfolding list_beq is_host keep is_edge_address contains
same_where_enabled a (inl same) (inl e) = (rw e refl, rw same refl)
same_where_enabled a (inr (inl same)) (inl e) = (rw e refl, rw same refl)
same_where_enabled a (inr (inr never)) (inl e) = absurd never
same_where_enabled a i (inr never) = absurd never

run_context-untouched_example :
    run_context net enabled one_answer no_table no_names both
    ≡ run_context net enabled other_answers outside_table no_names both
run_context-untouched_example =
    run_context-untouched net enabled one_answer other_answers no_table outside_table no_names both
      same_where_enabled
