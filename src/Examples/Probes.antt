-- ===== src/Examples/Probes.antt =====
-- A probe of the laptop, which has moved to another address, and one that could not be sent.
use pulsitor_lan_agent.Base.{
  ◌≡◌, ◌⊎◌, inl, refl, true, false, none, some, List, [], ◌∷◌, codes, pos, Distinct, list_beq,
  int_beq, list_beq, for_each, keep, int_eq, text_eq, nat_eq,
}
use pulsitor_lan_agent.Discover.Mac.{normalise_mac}
use pulsitor_lan_agent.Config.{Target}
use pulsitor_lan_agent.Report.{Observation}
use pulsitor_lan_agent.Schedule.Applying.{target_ids}
use pulsitor_lan_agent.Agent.Neighbours.{Neighbor, index, holder, where_is}
use pulsitor_lan_agent.Agent.Probing.{
  World, Reply, send_failure, is_off_lan, offline, is_the_same_device, probe_targets,
}
use pulsitor_lan_agent.Agent.Probing.Evidence.{
  first_failed, reply_again, FirstEvidence, SecondEvidence, probe_targets_sound,
}
use pulsitor_lan_agent.Examples.{net, laptop, old_address, new_address}

abbrev silence : Reply
silence = record { replied = []; error = none }

-- The kernel's table after the laptop's lease has changed.
abbrev table : List Neighbor
table = record { ip = some new_address; mac = codes "3c:22:fb:00:01:02" } ∷ []

abbrev moved : World
moved = record {
  first_probe = λ hosts. silence;
  first_table = table;
  second_probe = λ hosts. record { replied = new_address ∷ []; error = none };
  second_table = table;
}

-- Nothing could be sent, and the laptop had answered on an earlier socket.
abbrev broken : World
broken = record moved {
  first_probe = λ hosts. record { replied = old_address ∷ []; error = some send_failure };
}

abbrev due : List Target
due = laptop ∷ []

abbrev found : Observation
found = record { id = pos 7; online = true; ip = codes "10.0.0.6"; hostname = [] }

alone : Distinct (target_ids due)
alone = ((λ i. i), tt)

followed : (probe_targets net moved false due).observations (pos 7) ≡ some found
unfolding probe_targets offline index holder where_is is_the_same_device normalise_mac list_beq
    int_beq for_each keep
followed = refl

probe_targets_sound_example :
    FirstEvidence net moved due false laptop found ⊎ SecondEvidence net moved due false laptop found
probe_targets_sound_example =
    probe_targets_sound net moved due false laptop found alone (inl refl) followed refl

moved_sent : first_failed net moved due ≡ false
unfolding first_failed is_off_lan
moved_sent = refl

-- Another device has the new address, and the second probe could not be sent to all.
abbrev taken : World
taken = record moved {
  second_probe = λ hosts. record { replied = new_address ∷ []; error = some send_failure };
  second_table = record { ip = some new_address; mac = codes "3c:22:fb:00:00:09" } ∷ [];
}

second_sent : (reply_again net moved due).error ≡ none
unfolding reply_again
second_sent = refl
