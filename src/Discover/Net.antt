-- ===== src/Discover/Net.antt =====
-- internal/discover/interfaces.go and discover.go: addresses, networks, and which of them may be
-- swept. An address is its 32-bit or 128-bit value (what `To4` tells apart); a network is an
-- address with a mask of `ones` leading bits out of `bits`, as `net.ParseCIDR` and
-- `net.Interfaces` give them.
pub mod Laws
use pulsitor_lan_agent.Base.{
  ℕ, zero, suc, ◌+◌, ◌-◌, ◌*◌, ◌/◌, ◌%◌, ◌^◌, ◌≤◌, ◌<◌, min, max, ◌≡◌, ◌≢◌, ◌↔◌, ◌⊎◌, inl, inr,
  refl, sym, ap, ap₂, subst, ◌∙◌, fun_ext, Bool, true, false, not, ◌&&◌, ◌||◌, Option, none, some,
  List, [], ◌∷◌, ◌++◌, map, arith, ltb, leb, if◌then◌else◌, ltb→lt, lt→ltb, leb→le, le→leb,
  leb_false→lt, ltb_false→le, nat_beq_iff, Bool-cases, Option-cases, is_some, &&-true, &&-intro, Eq,
  ◌==◌, nat_eq, list_beq, list_beq_iff, Text, text_eq, codes, beq_refl, beq→eq, beq_false→ne, ℤ,
  pos, negsuc, int_beq, int_beq_iff, int_eq, bits64, signed64, scale, Map, empty, flag, put, remove,
  put_self, put_ne, remove_ne, length, length-append, All, In, Distinct, keep, All_of_In, tests,
}

pub data Ip : Type 0 where
  v4 : ℕ → Ip
  v6 : ℕ → Ip

pub record IpNet : Type 0 where
  pub ip : Ip
  pub ones : ℕ
  pub bits : ℕ

pub data NetError : Type 0 where
  not_ipv4 : NetError
  too_wide : NetError
  not_network : NetError

unfoldable pub is_v4 : Ip → Bool
is_v4 (v4 a) = true
is_v4 (v6 a) = false

-- `net.IP.Mask`: the address with its host bits cleared, where the mask is of its length.
pub mask_ip : Ip → ℕ → ℕ → Option Ip
mask_ip (v4 a) ones bits = if bits == 32 then some (v4 (a - a % 2 ^ (32 - ones))) else none
mask_ip (v6 a) ones bits = if bits == 128 then some (v6 (a - a % 2 ^ (128 - ones))) else none

contains_value : ℕ → ℕ → ℕ → ℕ → Bool
contains_value size ones a b = a / 2 ^ (size - ones) == b / 2 ^ (size - ones)

-- `net.IPNet.Contains`: the masked values agree, and never across the two families.
contains_from : Ip → ℕ → Ip → Bool
unfolding contains_value
contains_from (v4 a) ones (v4 b) = contains_value 32 ones a b
contains_from (v6 a) ones (v6 b) = contains_value 128 ones a b
contains_from (v4 a) ones (v6 b) = false
contains_from (v6 a) ones (v4 b) = false

unfoldable pub contains : IpNet → Ip → Bool
unfolding contains_from
contains network ip = contains_from network.ip network.ones ip

abbrev octets : ℕ → ℕ → ℕ → ℕ → ℕ
octets a b c d = ((a * 256 + b) * 256 + c) * 256 + d

abbrev range4 : ℕ → ℕ → IpNet
range4 base ones = record { ip = v4 base; ones = ones; bits = 32 }

abbrev range6 : ℕ → ℕ → IpNet
range6 base ones = record { ip = v6 base; ones = ones; bits = 128 }

abbrev pub private_ranges : List IpNet
private_ranges =
    range4 (octets 10 0 0 0) 8
    ∷ range4 (octets 172 16 0 0) 12
    ∷ range4 (octets 192 168 0 0) 16
    ∷ range4 (octets 100 64 0 0) 10
    ∷ range4 (octets 169 254 0 0) 16
    ∷ range6 (0xfc00 * 2 ^ 112) 7
    ∷ range6 (0xfe80 * 2 ^ 112) 10
    ∷ []

pub any_contains : List IpNet → Ip → Bool
unfolding contains
any_contains [] ip = false
any_contains (network ∷ networks) ip = contains network ip || any_contains networks ip

unfoldable pub is_private : Ip → Bool
unfolding any_contains
is_private ip = any_contains private_ranges ip

abbrev pub max_hosts : ℕ
max_hosts = 1024

-- The loop of `Hosts` from `offset` on, with `left` rounds to go.
pub host_loop : ℕ → ℕ → ℕ → ℕ → List Ip
host_loop zero offset total start = []
host_loop (suc left) offset total start =
    let rest = host_loop left (offset + 1) total start in
    if ltb 2 total && (offset == 0 || offset == total - 1)
    then rest
    else v4 ((start + offset) % 2 ^ 32) ∷ rest

pub data HostsResult : Type 0 where
  hosts_ok : List Ip → HostsResult
  hosts_error : NetError → HostsResult

hosts_from : Option Ip → ℕ → HostsResult
unfolding host_loop
hosts_from none total = hosts_error not_network
hosts_from (some (v6 a)) total = hosts_error not_network
hosts_from (some (v4 start)) total = hosts_ok (host_loop total 0 total start)

unfoldable pub hosts : IpNet → HostsResult
unfolding mask_ip hosts_from
hosts network =
    if not (network.bits == 32)
    then hosts_error not_ipv4
    else if ltb max_hosts (2 ^ (network.bits - network.ones))
    then hosts_error too_wide
    else hosts_from (mask_ip network.ip network.ones network.bits)
        (2 ^ (network.bits - network.ones))

edge_of : Option Ip → ℕ → ℕ → Bool
edge_of none total value = false
edge_of (some (v6 a)) total value = false
edge_of (some (v4 start)) total value =
    value == start || value == (start + total + 2 ^ 32 - 1) % 2 ^ 32

-- `isEdgeAddress`: the network or the broadcast address; `last` wraps like a `uint32`.
unfoldable pub is_edge_address : Ip → IpNet → Bool
unfolding mask_ip edge_of
is_edge_address (v6 a) network = false
is_edge_address (v4 value) network =
    if not (network.bits == 32) || ltb (network.bits - network.ones) 2
    then false
    else edge_of (mask_ip network.ip network.ones network.bits)
        (2 ^ (network.bits - network.ones) % 2 ^ 32) value
