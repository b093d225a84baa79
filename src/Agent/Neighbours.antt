-- ===== src/Agent/Neighbours.antt =====
-- internal/agent/agent.go: one reading of the kernel's neighbour table, indexed both ways.
use pulsitor_lan_agent.Base.{
  Option, none, some, List, [], ◌∷◌, if◌then◌else◌, is_some, ◌==◌, nat_eq, Text, text_eq, texts_eq,
  int_eq, Map, empty, put,
}
use pulsitor_lan_agent.Discover.Net.{Ip}
use pulsitor_lan_agent.Discover.Mac.{normalise_mac}
use pulsitor_lan_agent.Config.{NetText}

-- `discover.Neighbor`; a nil address is `none`.
pub record Neighbor : Type 0 where
  pub ip : Option Ip
  pub mac : Text

pub record Neighbours : Type 0 where
  pub by_mac : Map Text Ip
  pub by_ip : Map Text Text

module _ (net : NetText) where
  -- One entry of a reading: the address keeps its last owner, the owner its first address.
  pub add_entry : Neighbours → Text → Option Ip → Neighbours
  add_entry table mac none = table
  add_entry table mac (some ip) = if mac == [] then table else record {
    by_mac = if is_some (table.by_mac mac) then table.by_mac else put table.by_mac mac ip;
    by_ip = put table.by_ip (net.ip_text ip) mac;
  }

  pub index_loop : List Neighbor → Neighbours → Neighbours
  unfolding add_entry
  index_loop [] table = table
  index_loop (entry ∷ rest) table =
      index_loop rest (add_entry table (normalise_mac entry.mac) entry.ip)

  unfoldable pub index : List Neighbor → Neighbours
  unfolding index_loop
  index entries = index_loop entries (record { by_mac = empty; by_ip = empty })

unfoldable pub holder : Neighbours → Text → Option Text
holder table ip = table.by_ip ip

unfoldable pub where_is : Neighbours → Text → Option Ip
where_is table mac = table.by_mac (normalise_mac mac)
