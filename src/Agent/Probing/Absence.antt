-- ===== src/Agent/Probing/Absence.antt =====
-- What `probeTargetsContext` in internal/agent/agent.go takes for absence.
use pulsitor_lan_agent.Base.{
  ◌≡◌, ◌≢◌, ◌⊎◌, none, some, List, [], nat_eq, text_eq, texts_eq, int_eq, In,
}
use pulsitor_lan_agent.Discover.Net.{Ip}
use pulsitor_lan_agent.Discover.Mac.{normalise_mac}
use pulsitor_lan_agent.Config.{NetText, Target}
use pulsitor_lan_agent.Agent.Neighbours.{Neighbours, index, holder, where_is}
use pulsitor_lan_agent.Agent.Probing.{off_lan, World}
use pulsitor_lan_agent.Agent.Probing.Evidence.{first_reply, first_neighbours, reply_again}

module _ (net : NetText) (world : World) (ts : List Target) where
  -- The grounds for saying that a target is not there: the first probe met no error but addresses
  -- outside the attached networks; and where the kernel's table had the target's MAC at another
  -- address, that address was asked too: the second probe had no error, or it brought an answer from
  -- this address, which the table read afterwards does not give to the target.
  pub record IsSilent (t : Target) : Type 0 where
    pub sent :
        ((first_reply net world ts).error ≡ none)
        ⊎ ((first_reply net world ts).error ≡ some off_lan)
    pub followed :
        (ip : Ip)
        → t.mac ≢ []
        → where_is (first_neighbours net world ts) t.mac ≡ some ip
        → net.ip_text ip ≢ t.ip
        → ((reply_again net world ts).error ≡ none)
          ⊎ (((ip' : Ip) × In ip' (reply_again net world ts).replied
                × (net.ip_text ip' ≡ net.ip_text ip))
              × (holder (index net world.second_table) (net.ip_text ip)
                  ≢ some (normalise_mac t.mac)))
