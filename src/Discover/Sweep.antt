-- ===== src/Discover/Sweep.antt =====
-- internal/discover/discover.go: one sweep of the attached networks that the server has enabled.
-- What each network's sweep and reading of the neighbour table return, and the names that the
-- resolver gives, are arguments.
pub mod Laws
pub mod Presence
pub mod Untouched
use pulsitor_lan_agent.Base.{
  ℕ, zero, suc, ◌+◌, ◌-◌, ◌*◌, ◌/◌, ◌%◌, ◌^◌, ◌≤◌, ◌<◌, min, max, ◌≡◌, ◌≢◌, ◌↔◌, ◌⊎◌, inl, inr,
  refl, sym, ap, ap₂, subst, ◌∙◌, fun_ext, Bool, true, false, not, ◌&&◌, ◌||◌, Option, none, some,
  List, [], ◌∷◌, ◌++◌, map, arith, nat_beq, ltb, leb, if◌then◌else◌, ltb→lt, lt→ltb, leb→le, le→leb,
  leb_false→lt, ltb_false→le, nat_beq_iff, Bool-cases, Option-cases, is_some, &&-true, &&-intro, Eq,
  ◌==◌, nat_eq, list_beq, list_beq_iff, Text, text_eq, texts_eq, codes, beq_refl, beq→eq,
  beq_false→ne, ℤ, pos, negsuc, int_beq, int_beq_iff, int_eq, bits64, signed64, scale, Map, empty,
  flag, put, remove, put_self, put_ne, put_same, remove_ne, length, length-append, All, In,
  Distinct, keep, All_of_In, All-map, for_each, for_each-at, for_each-other, In-map, In-keep,
  keep-In, keep-true, keep-false, Distinct-keep, keep-absent, tests,
}
use pulsitor_lan_agent.Discover.Net.{Ip, v4, v6, IpNet, contains, is_private, is_edge_address}
use pulsitor_lan_agent.Config.{NetText}
use pulsitor_lan_agent.Agent.Neighbours.{Neighbor}

pub record Device : Type 0 where
  pub mac : Text
  pub ip : Text
  pub hostname : Text

pub record Interface : Type 0 where
  pub name : Text
  pub cidr : Text

pub data SweepError : Type 0 where
  no_probe : SweepError
  sweep_failed : SweepError

pub data Failure : Type 0 where
  sweeping : Text → SweepError → Failure
  undelivered_probes : Text → ℕ → Failure

pub record Result : Type 0 where
  pub interfaces : List Interface
  pub devices : List Device
  pub scanned : List Text
  pub degraded : Bool
  pub failures : List Failure

pub record Attached : Type 0 where
  pub name : Text
  pub cidr : Text
  pub net : IpNet

-- What `SweepContext` returns for a network.
pub record SweepReply : Type 0 where
  pub answered : List Ip
  pub undelivered : ℕ
  pub error : Option SweepError

-- The map `seen`, with its keys in the order in which they were first stored.
pub record Seen : Type 0 where
  pub found : Map Text Device
  pub addresses : List Text

-- `net.IP.IsMulticast`: 224.0.0.0/4 and ff00::/8.
pub is_multicast : Ip → Bool
is_multicast (v4 a) = a / 2 ^ 28 == 14
is_multicast (v6 a) = a / 2 ^ 120 == 255

pub store : Seen → Text → Text → Option Device → Seen
store seen address mac none = record {
  found = put seen.found address (record { mac = mac; ip = address; hostname = [] });
  addresses = seen.addresses ++ (address ∷ []);
}
store seen address mac (some existing) =
    if existing.mac == []
    then record seen { found = put seen.found address (record existing { mac = mac }) }
    else seen

pub mac_or_empty : Option Text → Text
mac_or_empty none = []
mac_or_empty (some mac) = mac

-- The loop that fills `allowed`.
unfoldable pub allowed_loop : List Text → Map Text Bool → Map Text Bool
allowed_loop = for_each (λ cidr allowed. put allowed cidr true)

-- `a < b` for two strings, byte by byte.
pub text_less : Text → Text → Bool
text_less a [] = false
text_less [] (y ∷ ys) = true
text_less (x ∷ xs) (y ∷ ys) = if x == y then text_less xs ys else ltb x y

pub insert : Text → List Text → List Text
unfolding text_less
insert address [] = address ∷ []
insert address (other ∷ rest) =
    let inserted = insert address rest in
    if text_less other address then other ∷ inserted else address ∷ other ∷ rest

-- `sort.Strings`.
pub sort_addresses : List Text → List Text
unfolding insert
sort_addresses [] = []
sort_addresses (address ∷ rest) = insert address (sort_addresses rest)

pub named : Device → Option Text → Device
named device none = device
named device (some name) = record device { hostname = name }

pub device_for : Option Device → Option Text → List Device → List Device
unfolding named
device_for none name rest = rest
device_for (some device) name rest = named device name ∷ rest

-- The last two loops: a name for each address that has one, and the devices in order. Every address
-- is a key of `seen`.
pub devices_loop : Map Text Device → Map Text Text → List Text → List Device
unfolding device_for
devices_loop found names [] = []
devices_loop found names (address ∷ rest) =
    device_for (found address) (names address) (devices_loop found names rest)

-- Where the loop over the attachments has got to.
pub record Progress : Type 0 where
  pub result : Result
  pub seen : Seen

pub nothing_yet : Progress
nothing_yet = record {
  result = record { interfaces = []; devices = []; scanned = []; degraded = false; failures = [] };
  seen = record { found = empty; addresses = [] };
}

module _ (net : NetText) where
  -- The function `record`.
  unfoldable pub record_address : Seen → Ip → Text → Seen
  unfolding is_multicast store
  record_address seen ip mac =
      if not (is_private ip) || is_multicast ip
      then seen
      else store seen (net.ip_text ip) mac (seen.found (net.ip_text ip))

  pub neighbour_entry : IpNet → Text → Option Ip → Map Text Text → Map Text Text
  neighbour_entry network mac none m = m
  neighbour_entry network mac (some ip) m =
      if contains network ip && not (is_edge_address ip network)
      then put m (net.ip_text ip) mac
      else m

  unfoldable pub neighbours_in : List Neighbor → IpNet → Map Text Text
  unfolding neighbour_entry
  neighbours_in entries network =
      for_each (λ entry m. neighbour_entry network entry.mac entry.ip m) entries empty

  -- The loop over the answers, which two branches of the `switch` make.
  unfoldable pub record_answers : IpNet → Map Text Text → List Ip → Seen → Seen
  unfolding record_address mac_or_empty
  record_answers network neighbours = for_each (λ ip seen.
      if is_edge_address ip network
      then seen
      else record_address seen ip (mac_or_empty (neighbours (net.ip_text ip))))

  -- The `switch` over what one sweep returned.
  pub swept : Attached → SweepReply → Map Text Text → Option SweepError → Progress → Progress
  unfolding record_answers
  swept a reply neighbours (some no_probe) p = record p {
    result = record (p.result) {
      degraded = true;
      failures = p.result.failures ++ (sweeping a.cidr no_probe ∷ []);
    };
  }
  swept a reply neighbours (some sweep_failed) p = record p {
    result = record (p.result) {
      failures = p.result.failures ++ (sweeping a.cidr sweep_failed ∷ []);
    };
    seen = record_answers a.net neighbours reply.answered p.seen;
  }
  swept a reply neighbours none p =
      let seen = record_answers a.net neighbours reply.answered p.seen in
      if ltb 0 reply.undelivered
      then record {
        result = record (p.result) {
          failures = p.result.failures ++ (undelivered_probes a.cidr reply.undelivered ∷ []);
        };
        seen = seen;
      }
      else record {
        result = record (p.result) { scanned = p.result.scanned ++ (a.cidr ∷ []) };
        seen = seen;
      }

  module _ (enabled : List Text) (sweep : Attached → SweepReply)
      (table : Attached → List Neighbor) where
    unfoldable pub visit : Attached → Progress → Progress
    unfolding swept allowed_loop
    visit a p =
        let q = record p {
          result = record (p.result) {
            interfaces = p.result.interfaces ++ (record { name = a.name; cidr = a.cidr } ∷ []);
          };
        } in
        if not (flag (allowed_loop enabled empty a.cidr))
        then q
        else swept a (sweep a) (neighbours_in (table a) a.net) (sweep a).error q

    unfoldable pub visit_all : List Attached → Progress
    unfolding visit nothing_yet
    visit_all attachments = for_each visit attachments nothing_yet

    -- `RunContext` with a list of attachments. The resolver is given the sorted addresses.
    unfoldable pub run_context : (List Text → Map Text Text) → List Attached → Result
    unfolding visit_all devices_loop sort_addresses
    run_context resolve attachments =
        let p = visit_all attachments in
        let addresses = sort_addresses p.seen.addresses in
        record (p.result) { devices = devices_loop p.seen.found (resolve addresses) addresses }
