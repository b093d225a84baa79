-- ===== src/Examples.antt =====
-- One small household for the examples: a laptop and a printer on a network of eight addresses, and
-- a table for what the package `net` says of the few texts in it.
pub mod Addresses
pub mod Planning
pub mod Probes
pub mod Sweeps
pub mod Rounds
pub mod Reports
pub mod Files
pub mod Commands
pub mod Services
pub mod Packets
pub mod Tables
pub mod Units
pub mod Processes
pub mod Binaries
use pulsitor_lan_agent.Base.{
  ℕ, ◌*◌, Bool, true, false, Option, none, some, List, [], ◌∷◌, Eq, ◌==◌, nat_eq, text_eq, Text,
  codes, pos, if◌then◌else◌, Map, empty,
}
use pulsitor_lan_agent.Discover.Net.{Ip, v4, v6, IpNet}
use pulsitor_lan_agent.Config.{Target, Runtime, NetText}
use pulsitor_lan_agent.Schedule.{second}

abbrev pub old_address : Ip
old_address = v4 167772165

abbrev pub new_address : Ip
new_address = v4 167772166

abbrev pub home : IpNet
home = record { ip = v4 167772160; ones = 29; bits = 32 }

abbrev text_of : Ip → Text
text_of (v4 a) = if a == 167772165 then codes "10.0.0.5" else codes "10.0.0.6"
text_of (v6 a) = codes "::"

abbrev pub net : NetText
net = record {
  parse_ip = λ text.
      if text == codes "10.0.0.5"
      then some old_address
      else if text == codes "10.0.0.6"
      then some new_address
      else none;
  ip_text = text_of;
  parse_cidr = λ text. if text == codes "10.0.0.0/29" then some (v4 167772160, home) else none;
  net_text = λ network. codes "10.0.0.0/29";
}

abbrev pub laptop : Target
laptop = record {
  id = pos 7;
  ip = codes "10.0.0.5";
  mac = codes "3C:22:FB:0:1:2";
  interval_seconds = pos 60;
}

abbrev pub printer : Target
printer = record { id = pos 8; ip = codes "10.0.0.6"; mac = []; interval_seconds = pos 15 }

abbrev pub household : Runtime
household = record {
  discovery_interval_seconds = pos 300;
  discovery_min_interval_seconds = pos 60;
  check_in_interval_seconds = pos 60;
  subnets = codes "10.0.0.0/29" ∷ [];
  targets = laptop ∷ [];
}

-- The printer is new, and the laptop is as it was.
abbrev pub grown : Runtime
grown = record household { targets = laptop ∷ printer ∷ [] }

abbrev pub noon : ℕ
noon = 1000 * second
