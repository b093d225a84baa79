-- ===== src/Discover/Icmp/Connection.antt =====
-- internal/discover/icmp.go: `probeWithConnection`, over what the clock and the connection return.
-- The reader sees the datagrams in their order of arrival; the addresses that answered are listed in
-- that order, where the code has that of a map.
use pulsitor_lan_agent.Base.{
  ℕ, suc, ◌+◌, ◌*◌, ◌%◌, Bool, true, false, not, ◌&&◌, ◌||◌, Option, none, some, List, [], ◌∷◌,
  ◌++◌, ltb, if◌then◌else◌, ◌==◌, nat_eq, Text, text_eq, texts_eq, int_eq, length,
}
use pulsitor_lan_agent.Discover.Net.{Ip, IpNet, HostsResult, hosts, hosts_ok, hosts_error, NetError}
use pulsitor_lan_agent.Discover.Icmp.{drop, byte_at, echo_payload, is_echo_reply}
use pulsitor_lan_agent.Discover.Icmp.Packet.{probe_packet}

-- What `WriteTo` returns: no error, one of the four errors of `isAbsence`, or another.
pub data Written : Type 0 where
  sent : Written
  host_unreachable : Written
  host_down : Written
  net_unreachable : Written
  net_down : Written
  other_error : Written

unfoldable pub is_absence : Written → Bool
is_absence sent = false
is_absence host_unreachable = true
is_absence host_down = true
is_absence net_unreachable = true
is_absence net_down = true
is_absence other_error = false

unfoldable pub is_failure : Written → Bool
is_failure sent = false
is_failure _ = true

pub data ProbeError : Type 0 where
  no_hosts : NetError → ProbeError
  deadline_exceeded : ProbeError
  no_deadline : ProbeError
  no_nonce : ProbeError
  read_error : ProbeError
  unsent : ℕ → ProbeError
  no_socket : ProbeError

-- A datagram with the text of the address that it came from, the port stripped.
pub record Datagram : Type 0 where
  pub from : Text
  pub bytes : Text

-- What a connection meets: whether the timeout is positive and the deadline accepted, the random
-- bytes, whether the deadline is past before each host, what each `WriteTo` returns, the datagrams in
-- order, and whether the reading ends with an error that is no timeout.
pub record Connection : Type 0 where
  pub in_time : Bool
  pub sets_deadline : Bool
  pub nonce : Option Text
  pub late : ℕ → Bool
  pub write : ℕ → Text → Written
  pub datagrams : List Datagram
  pub breaks : Bool

module _ (parse_ip : Text → Option Ip) (ip_text : Ip → Text) where
  -- `expected[address][sequence]`, from the host at `index` on.
  unfoldable pub expects : ℕ → List Ip → Text → ℕ → Bool
  expects index [] address sequence = false
  expects index (host ∷ rest) address sequence =
      (ip_text host == address && index % 65536 == sequence)
      || expects (suc index) rest address sequence

  -- What the reader lets through.
  unfoldable pub counts : List Ip → Text → Datagram → Bool
  unfolding expects echo_payload is_echo_reply drop byte_at
  counts hosts nonce d =
      let packet = echo_payload d.bytes in
      is_echo_reply packet
      && (length packet == 24
          && (drop 8 packet == nonce
              && expects 0 hosts d.from (byte_at packet 6 * 256 + byte_at packet 7)))

  unfoldable pub has_text : Text → List Text → Bool
  has_text text [] = false
  has_text text (first ∷ rest) = first == text || has_text text rest

  -- The keys of `answered`, after the datagrams.
  unfoldable pub answered : List Ip → Text → List Datagram → List Text → List Text
  unfolding counts has_text
  answered hosts nonce [] known = known
  answered hosts nonce (d ∷ rest) known = answered hosts nonce rest (
      if counts hosts nonce d && not (has_text d.from known) then known ++ (d.from ∷ []) else known)

  unfoldable pub parsed : Option Ip → List Ip → List Ip
  parsed none rest = rest
  parsed (some ip) rest = ip ∷ rest

  unfoldable pub parse_all : List Text → List Ip
  unfolding parsed
  parse_all [] = []
  parse_all (address ∷ rest) = parsed (parse_ip address) (parse_all rest)

  -- The loop over the hosts: how many were not asked.
  unfoldable pub undelivered : Connection → Text → ℕ → List Ip → ℕ
  unfolding is_absence is_failure probe_packet
  undelivered c nonce index [] = 0
  undelivered c nonce index (host ∷ rest) =
      let written = c.write index (probe_packet index nonce) in
      let later = undelivered c nonce (suc index) rest in
      if c.late index
      then suc (length rest)
      else if is_failure written && not (is_absence written)
      then suc later
      else later

  unfoldable pub probe_nonce : Connection → List Ip → Option Text → List Ip × ℕ × Option ProbeError
  unfolding answered parse_all undelivered
  probe_nonce c hosts none = ([], length hosts, some no_nonce)
  probe_nonce c hosts (some nonce) = (
    parse_all (answered hosts nonce c.datagrams []),
    undelivered c nonce 0 hosts,
    if c.breaks then some read_error else none,
  )

  -- `probeWithConnection`.
  unfoldable pub probe_with_connection : Connection → List Ip → List Ip × ℕ × Option ProbeError
  unfolding probe_nonce
  probe_with_connection c hosts =
      if not c.in_time
      then ([], length hosts, some deadline_exceeded)
      else if not c.sets_deadline
      then ([], length hosts, some no_deadline)
      else probe_nonce c hosts c.nonce

  unfoldable pub probe_error : ℕ → Option ProbeError → Option ProbeError
  probe_error unsent_probes (some e) = some e
  probe_error unsent_probes none = if ltb 0 unsent_probes then some (unsent unsent_probes) else none

  -- `probe` of icmp_unix.go: `socket` is what `openICMP` returns.
  unfoldable pub probe : Bool → Option Connection → List Ip → List Ip × ℕ × Option ProbeError
  unfolding probe_with_connection
  probe in_time socket [] = ([], 0, if in_time then none else some deadline_exceeded)
  probe in_time none (host ∷ rest) =
      if not in_time
      then ([], length (host ∷ rest), some deadline_exceeded)
      else ([], 0, some no_socket)
  probe in_time (some c) (host ∷ rest) =
      if not in_time
      then ([], length (host ∷ rest), some deadline_exceeded)
      else probe_with_connection c (host ∷ rest)

  -- `ProbeContext`.
  unfoldable pub probe_context : Bool → Option Connection → List Ip → List Ip × Option ProbeError
  unfolding probe probe_error
  probe_context in_time socket hosts =
      let (found, unsent_probes, error) = probe in_time socket hosts in
      (found, probe_error unsent_probes error)

  unfoldable pub sweep_hosts :
      Bool → Option Connection → HostsResult → List Ip × ℕ × Option ProbeError
  unfolding probe
  sweep_hosts in_time socket (hosts_error e) = ([], 0, some (no_hosts e))
  sweep_hosts in_time socket (hosts_ok found) = probe in_time socket found

  -- `SweepContext`, and `Sweep`.
  unfoldable pub sweep_context : Bool → Option Connection → IpNet → List Ip × ℕ × Option ProbeError
  unfolding sweep_hosts hosts
  sweep_context in_time socket network = sweep_hosts in_time socket (hosts network)
