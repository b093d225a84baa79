-- ===== src/Agent/Probing.antt =====
-- internal/agent/agent.go: probing the targets that are due, and following those that moved.
-- The network is the argument `world`: what each probe returns for the hosts that it is given, and
-- what the kernel's table reads each time. Log lines are left out.
pub mod Absence
pub mod Laws
pub mod Outcome
pub mod Evidence
pub mod Complete
pub mod Ids
use pulsitor_lan_agent.Base.{
  ℕ, zero, suc, ◌+◌, ◌-◌, ◌*◌, ◌/◌, ◌%◌, ◌^◌, ◌≤◌, ◌<◌, min, max, ◌≡◌, ◌≢◌, ◌↔◌, ◌⊎◌, inl, inr,
  refl, sym, ap, ap₂, subst, ◌∙◌, fun_ext, Bool, true, false, not, ◌&&◌, ◌||◌, Option, none, some,
  List, [], ◌∷◌, ◌++◌, map, arith, nat_beq, ltb, leb, if◌then◌else◌, ltb→lt, lt→ltb, leb→le, le→leb,
  leb_false→lt, ltb_false→le, nat_beq_iff, Bool-cases, Option-cases, is_some, &&-true, &&-intro, Eq,
  ◌==◌, nat_eq, list_beq, list_beq_iff, Text, text_eq, texts_eq, codes, beq_refl, beq→eq,
  beq_false→ne, ℤ, pos, negsuc, int_beq, int_beq_iff, int_eq, bits64, signed64, scale, Map, empty,
  flag, put, remove, put_self, put_ne, put_same, remove_ne, length, length-append, All, In,
  Distinct, keep, All_of_In, All-map, for_each, tests,
}
use pulsitor_lan_agent.Discover.Net.{Ip}
use pulsitor_lan_agent.Discover.Mac.{normalise_mac}
use pulsitor_lan_agent.Config.{NetText, Target}
use pulsitor_lan_agent.Report.{Observation}
use pulsitor_lan_agent.Agent.Neighbours.{Neighbor, Neighbours, index, holder, where_is}

-- The errors of a probe, as `errors.Is(err, discover.ErrOffLAN)` tells them apart.
pub data ProbeError : Type 0 where
  off_lan : ProbeError
  send_failure : ProbeError

pub record Reply : Type 0 where
  pub replied : List Ip
  pub error : Option ProbeError

pub record World : Type 0 where
  pub first_probe : List Ip → Reply
  pub first_table : List Neighbor
  pub second_probe : List Ip → Reply
  pub second_table : List Neighbor

-- `observations`, the targets that answered nowhere, and the runner's `offLAN`.
pub record Probed : Type 0 where
  pub observations : Map ℤ Observation
  pub unresolved : List Target
  pub off_lan_now : Bool

pub online_at : Target → Text → Observation
online_at t ip = record { id = t.id; online = true; ip = ip; hostname = [] }

unfoldable pub offline : Target → Observation
offline t = record { id = t.id; online = false; ip = []; hostname = [] }

unfoldable pub is_off_lan : Option ProbeError → Bool
is_off_lan none = false
is_off_lan (some off_lan) = true
is_off_lan (some send_failure) = false

-- An observation is there, and it is not online.
unfoldable pub is_offline : Option Observation → Bool
is_offline none = false
is_offline (some o) = not o.online

-- The kernel knows who holds an address, and it is this target.
pub held_by : Option Text → Target → Bool
held_by none t = false
held_by (some mac) t = mac == normalise_mac t.mac

-- `observations[id].Online = true; observations[id].IP = …` through the stored pointer. With
-- distinct ids the pointer is never nil.
pub set_online : Map ℤ Observation → ℤ → Text → Map ℤ Observation
set_online obs id ip = elim (obs id) [
  | none ↦ obs
  | some o ↦ put obs id (record o { online = true; ip = ip })
]

-- `elsewhere[target.ID] = ip` where there is a candidate.
pub put_candidate : Map ℤ Ip → ℤ → Option Ip → Map ℤ Ip
put_candidate m id none = m
put_candidate m id (some ip) = put m id ip

-- Appends an address to a list of hosts, if there is one.
pub cons_host : Option Ip → List Ip → List Ip
cons_host none more = more
cons_host (some ip) more = ip ∷ more

module _ (net : NetText) where
  pub parse_targets : List Target → List Ip
  unfolding cons_host
  parse_targets [] = []
  parse_targets (t ∷ rest) = cons_host (net.parse_ip t.ip) (parse_targets rest)

  -- The set of the addresses of a list, as texts.
  pub address_set : List Ip → Map Text Bool → Map Text Bool
  address_set = for_each (λ ip set. put set (net.ip_text ip) true)

  unfoldable pub is_the_same_device : Target → Neighbours → Bool
  is_the_same_device t table =
      if t.mac == []
      then true
      else elim (holder table t.ip) [ none ↦ true | some mac ↦ mac == normalise_mac t.mac ]

  -- The test that both loops over the targets make.
  pub answers : Map Text Bool → Neighbours → Target → Bool
  unfolding is_the_same_device
  answers answered table t = flag (answered t.ip) && is_the_same_device t table

  -- After a failed send only positive evidence is kept.
  pub positive_loop :
      Map Text Bool → Neighbours → List Target → Map ℤ Observation → Map ℤ Observation
  unfolding answers
  positive_loop answered table =
      for_each (λ t obs. if answers answered table t then put obs t.id (online_at t t.ip) else obs)

  pub observe_loop :
      Map Text Bool → Neighbours → List Target → Map ℤ Observation → Map ℤ Observation
  unfolding answers
  observe_loop answered table =
      for_each
        (λ t obs. put obs t.id (if answers answered table t then online_at t t.ip else offline t))

  -- The targets that the same loop appends to `moved`.
  pub moved_targets : Map Text Bool → Neighbours → List Target → List Target
  unfolding answers
  moved_targets answered table = keep (λ t. not (answers answered table t))

  -- Where the kernel's table has a moved target, if that is another address than its own.
  pub candidate : Neighbours → Target → Option Ip
  candidate table t = if t.mac == [] then none else elim (where_is table t.mac) [
    | none ↦ none
    | some ip ↦ if net.ip_text ip == t.ip then none else some ip
  ]

  pub elsewhere_loop : Neighbours → List Target → Map ℤ Ip → Map ℤ Ip
  unfolding put_candidate
  elsewhere_loop table = for_each (λ t m. put_candidate m t.id (candidate table t))

  pub candidates : Neighbours → List Target → List Ip
  unfolding cons_host
  candidates table [] = []
  candidates table (t ∷ rest) = cons_host (candidate table t) (candidates table rest)

  -- One moved target after the second probe.
  pub settle :
      Bool → Map Text Bool → Neighbours → Target → Option Ip → Map ℤ Observation → Map ℤ Observation
  unfolding set_online held_by
  settle failed reachable fresh t none obs = obs
  settle failed reachable fresh t (some ip) obs =
      let reached = flag (reachable (net.ip_text ip)) in
      if failed && not reached
      then remove obs t.id
      else if reached && held_by (holder fresh (net.ip_text ip)) t
      then set_online obs t.id (net.ip_text ip)
      else obs

  pub settle_loop :
      Bool
      → Map Text Bool
      → Neighbours
      → Map ℤ Ip
      → List Target
      → Map ℤ Observation
      → Map ℤ Observation
  unfolding settle
  settle_loop failed reachable fresh elsewhere =
      for_each (λ t. settle failed reachable fresh t (elsewhere t.id))

  -- The second probe, if there is any candidate to ask.
  pub follow : World → Neighbours → List Target → Map ℤ Observation → Map ℤ Observation
  unfolding candidate elsewhere_loop candidates settle_loop address_set
  follow world table moved obs =
      let asked = candidates table moved in
      let reply = world.second_probe asked in
      if nat_beq (length asked) 0
      then obs
      else settle_loop (is_some reply.error) (address_set reply.replied empty)
          (index net world.second_table) (elsewhere_loop table moved empty) moved obs

  pub after_first : World → List Target → Bool → Neighbours → Map Text Bool → Bool → Probed
  unfolding positive_loop observe_loop moved_targets follow is_offline
  after_first world targets failed table answered off =
      if failed
      then record {
        observations = positive_loop answered table targets empty;
        unresolved = [];
        off_lan_now = off;
      }
      else let moved = moved_targets answered table targets in
        let observations = follow world table moved (observe_loop answered table targets empty) in
        record {
          observations = observations;
          unresolved = keep (λ t. is_offline (observations t.id)) moved;
          off_lan_now = off;
        }

  unfoldable pub probe_targets : World → Bool → List Target → Probed
  unfolding parse_targets address_set is_off_lan after_first
  probe_targets world off_lan_before [] = record {
    observations = empty;
    unresolved = [];
    off_lan_now = off_lan_before;
  }
  probe_targets world off_lan_before (t ∷ rest) =
      let targets = t ∷ rest in
      let reply = world.first_probe (parse_targets targets) in
      let off = is_off_lan reply.error in
      after_first world targets (is_some reply.error && not off) (index net world.first_table)
        (address_set reply.replied empty) off
