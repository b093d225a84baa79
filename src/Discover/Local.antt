-- ===== src/Discover/Local.antt =====
-- internal/discover/interfaces.go: the networks that the host is attached to, and the guard that
-- keeps every probe inside them. What the operating system says of its interfaces is an argument.
pub mod Guard
use pulsitor_lan_agent.Base.{
  ℕ, zero, suc, ◌+◌, ◌-◌, ◌*◌, ◌/◌, ◌%◌, ◌^◌, ◌≤◌, ◌<◌, min, max, ◌≡◌, ◌≢◌, ◌↔◌, ◌⊎◌, inl, inr,
  refl, sym, ap, ap₂, subst, ◌∙◌, fun_ext, Bool, true, false, not, ◌&&◌, ◌||◌, Option, none, some,
  List, [], ◌∷◌, ◌++◌, map, arith, nat_beq, ltb, leb, if◌then◌else◌, ltb→lt, lt→ltb, leb→le, le→leb,
  leb_false→lt, ltb_false→le, nat_beq_iff, Bool-cases, if_both, Option-cases, is_some, &&-true,
  &&-intro, Eq, ◌==◌, nat_eq, list_beq, list_beq_iff, Text, text_eq, texts_eq, codes, beq_refl,
  beq→eq, beq_false→ne, ℤ, pos, negsuc, int_beq, int_beq_iff, int_eq, bits64, signed64, scale, Map,
  empty, flag, put, remove, put_self, put_ne, put_same, remove_ne, length, length-append, All, In,
  Distinct, keep, All_of_In, All-map, for_each, for_each-keeps, for_each-at, for_each-other, In-map,
  In-keep, keep-In, keep-true, keep-false, Distinct-keep, keep-absent, tests,
}
use pulsitor_lan_agent.Discover.Net.{
  Ip, IpNet, is_v4, mask_ip, contains, is_private, max_hosts, is_edge_address,
}
use pulsitor_lan_agent.Discover.Sweep.{Attached}
use pulsitor_lan_agent.Config.{NetText}
use pulsitor_lan_agent.Agent.Probing.{Reply, ProbeError, off_lan, send_failure}

-- An interface, with `none` where its addresses cannot be read, and for an address of it that is no
-- `*net.IPNet`.
pub record OsInterface : Type 0 where
  pub name : Text
  pub is_up : Bool
  pub is_loopback : Bool
  pub addresses : Option (List (Option IpNet))

module _ (net : NetText) where
  -- A mask that does not fit leaves a nil address.
  network_text : IpNet → Option Ip → Text
  network_text network none = codes "<nil>"
  network_text network (some ip) = net.net_text (record network { ip = ip })

  attached : Text → IpNet → Attached
  unfolding network_text
  attached name network = record {
    name = name;
    cidr = network_text network (mask_ip network.ip network.ones network.bits);
    net = network;
  }

  -- The networks that the loop over the addresses appends.
  pub is_sweepable : IpNet → Bool
  is_sweepable network =
      is_v4 network.ip
      && (is_private network.ip
          && not (
              ltb 10 (network.bits - network.ones)
              || ltb max_hosts (2 ^ (network.bits - network.ones))))

  cons_attached : Text → Option IpNet → List Attached → List Attached
  unfolding is_sweepable attached
  cons_attached name none rest = rest
  cons_attached name (some network) rest =
      if is_sweepable network then attached name network ∷ rest else rest

  address_loop : Text → List (Option IpNet) → List Attached
  unfolding cons_attached
  address_loop name [] = []
  address_loop name (address ∷ rest) = cons_attached name address (address_loop name rest)

  interface_addresses : Text → Option (List (Option IpNet)) → List Attached
  unfolding address_loop
  interface_addresses name none = []
  interface_addresses name (some addresses) = address_loop name addresses

  interface_loop : List OsInterface → List Attached
  unfolding interface_addresses
  interface_loop [] = []
  interface_loop (i ∷ rest) =
      let more = interface_loop rest in
      if not i.is_up || i.is_loopback then more else interface_addresses i.name i.addresses ++ more

  -- `Attachments`: `none` is the error of `net.Interfaces`.
  unfoldable pub attachments : Option (List OsInterface) → Option (List Attached)
  unfolding interface_loop
  attachments none = none
  attachments (some interfaces) = some (interface_loop interfaces)

-- The inner loop of `ProbeLocalContext`.
unfoldable pub is_local : List Attached → Ip → Bool
is_local [] ip = false
is_local (a ∷ rest) ip =
    let later = is_local rest ip in
    if contains a.net ip && not (is_edge_address ip a.net) then true else later

-- The error of a probe, with that of a host outside the networks behind it.
pub or_off_lan : Option ProbeError → Bool → Option ProbeError
or_off_lan none rejected = if rejected then some off_lan else none
or_off_lan (some e) rejected = some e

-- `ProbeLocalContext`, where `probe` is `ProbeContext`.
unfoldable pub probe_local : Option (List Attached) → (List Ip → Reply) → List Ip → Reply
unfolding is_local or_off_lan
probe_local none probe hosts = record { replied = []; error = some send_failure }
probe_local (some found) probe hosts =
    let reply = probe (keep (is_local found) hosts) in
    let rejected = ltb 0 (length (keep (λ ip. not (is_local found ip)) hosts)) in
    record { replied = reply.replied; error = or_off_lan reply.error rejected }
