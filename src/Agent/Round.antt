-- ===== src/Agent/Round.antt =====
-- internal/agent/agent.go: one round of work, and the report that comes of it.
-- What `DiscoverContext` returns for the configured subnets is the argument `discover`, with `none`
-- for an error; a round is timed by its first instant. Log lines are left out, and so is the report's
-- time, a text that the client sends on as it is.
pub mod Laws
pub mod Evidence
pub mod Sweeping
pub mod Standing
use pulsitor_lan_agent.Base.{
  ℕ, zero, suc, ◌+◌, ◌-◌, ◌*◌, ◌/◌, ◌%◌, ◌^◌, ◌≤◌, ◌<◌, min, max, ◌≡◌, ◌≢◌, ◌↔◌, ◌⊎◌, inl, inr,
  refl, sym, ap, ap₂, subst, ◌∙◌, fun_ext, Bool, true, false, not, ◌&&◌, ◌||◌, Option, none, some,
  List, [], ◌∷◌, ◌++◌, map, arith, nat_beq, ltb, leb, if◌then◌else◌, ltb→lt, lt→ltb, leb→le, le→leb,
  leb_false→lt, ltb_false→le, nat_beq_iff, Bool-cases, Option-cases, is_some, &&-true, &&-intro, Eq,
  ◌==◌, nat_eq, list_beq, list_beq_iff, Text, text_eq, texts_eq, codes, beq_refl, beq→eq,
  beq_false→ne, ℤ, pos, negsuc, int_beq, int_beq_iff, int_eq, bits64, signed64, scale, Map, empty,
  flag, put, remove, put_self, put_ne, put_same, remove_ne, length, length-append, All, In,
  Distinct, keep, All_of_In, All-map, for_each, for_each-keeps, for_each-at, for_each-other, In-map,
  In-keep, keep-In, keep-true, keep-false, Distinct-keep, keep-absent, tests,
}
use pulsitor_lan_agent.Discover.Mac.{normalise_mac}
use pulsitor_lan_agent.Discover.Sweep
use pulsitor_lan_agent.Config.{NetText, Target, Runtime, target_eq}
use pulsitor_lan_agent.Report.{Device, Interface, Observation, Report}
use pulsitor_lan_agent.Schedule.{
  Schedule, was_answering, record_answer, may_discover, completed_discovery, completed_target,
}
use pulsitor_lan_agent.Agent.Probing.{World, Probed, probe_targets}

-- `byMAC`: the devices of a sweep by their MAC; a later one replaces an earlier one.
pub devices_by_mac : List Sweep.Device → Map Text Sweep.Device
devices_by_mac devices =
    for_each (λ device m. if device.mac == [] then m else put m (normalise_mac device.mac) device)
      devices empty

-- The stores through the pointer `observations[target.ID]`, which every unresolved target has.
pub upgrade : Option Observation → Sweep.Device → Map ℤ Observation → ℤ → Map ℤ Observation
upgrade none device obs id = obs
upgrade (some o) device obs id =
    put obs id (record o { online = true; ip = device.ip; hostname = device.hostname })

pub rescue_with : Option Sweep.Device → Target → Map ℤ Observation → Map ℤ Observation
unfolding upgrade
rescue_with none t obs = obs
rescue_with (some device) t obs = upgrade (obs t.id) device obs t.id

-- One round of the loop over the unresolved targets.
pub rescue_target : Map Text Sweep.Device → Target → Map ℤ Observation → Map ℤ Observation
unfolding rescue_with
rescue_target by_mac t obs =
    if t.mac == [] then obs else rescue_with (by_mac (normalise_mac t.mac)) t obs

unfoldable pub rescue : Map ℤ Observation → List Target → Sweep.Result → Map ℤ Observation
unfolding devices_by_mac rescue_target
rescue obs [] result = obs
rescue obs (t ∷ rest) result =
    for_each (rescue_target (devices_by_mac result.devices)) (t ∷ rest) obs

unfoldable pub report_discovery : Report → Sweep.Result → Report
report_discovery out result = record out {
  interfaces = some (map (λ i. record { name = i.name; cidr = i.cidr }) result.interfaces);
  devices = some (
      map (λ d. record { mac = d.mac; ip = d.ip; hostname = d.hostname; vendor = [] })
        result.devices);
  scanned = some result.scanned;
}

cons_observation : Option Observation → List Observation → List Observation
cons_observation none rest = rest
cons_observation (some o) rest = o ∷ rest

-- `ordered`; the early return on an empty map gives the same list.
unfoldable pub ordered : Map ℤ Observation → List Target → List Observation
unfolding cons_observation
ordered obs [] = []
ordered obs (t ∷ rest) = cons_observation (obs t.id) (ordered obs rest)

-- `report.Report{ObservedAt: …}`.
pub blank : Report
blank = record {
  contract = pos 0;
  version = [];
  observed_at = [];
  interfaces = none;
  devices = none;
  scanned = none;
  observations = [];
}

-- The report without its observations, those observations, and the schedule.
pub record Progress : Type 0 where
  pub out : Report
  pub observations : Map ℤ Observation
  pub schedule : Schedule

pub discovered : Option Sweep.Result → List Target → Progress → Progress
unfolding rescue report_discovery
discovered none unresolved p = p
discovered (some result) unresolved p = record p {
  out = report_discovery p.out result;
  observations = rescue p.observations unresolved result;
}

pub complete_targets : ℕ → List Target → Schedule → Schedule
complete_targets now = for_each (λ t s. (completed_target s t now).0)

pub record_observation : Option Observation → Target → Schedule → Schedule
record_observation none t s = s
record_observation (some o) t s = record_answer s t.id o.online

pub record_answers : Map ℤ Observation → List Target → Schedule → Schedule
unfolding record_observation
record_answers obs = for_each (λ t s. record_observation (obs t.id) t s)

-- Whether a round sweeps: because it is time, or to look for a target that has just gone quiet.
unfoldable pub sweeps : Schedule → Bool → List Target → ℕ → Bool
sweeps s discovery_due unresolved now =
    let just_missing = keep (λ t. was_answering s t.id) unresolved in
    if ltb 0 (length just_missing) && (not discovery_due && may_discover s now)
    then true
    else discovery_due

pub record Round : Type 0 where
  pub report : Report
  pub schedule : Schedule
  pub off_lan : Bool

module _ (net : NetText) (world : World) (discover : List Text → Option Sweep.Result) where
  -- From the probe on: the sweep, the schedule, and the report.
  pub finish_round : Schedule → Bool → List Target → ℕ → Probed → Round
  unfolding sweeps discovered complete_targets record_answers ordered blank
  finish_round s discovery_due targets now probed =
      let p : Progress = record { out = blank; observations = probed.observations; schedule = s } in
      let r = discovered (discover s.runtime.subnets) probed.unresolved p in
      let q =
        if sweeps s discovery_due probed.unresolved now
        then record r { schedule = (completed_discovery r.schedule now).0 }
        else p in
      record {
        report = record (q.out) { observations = ordered q.observations targets };
        schedule = record_answers q.observations targets (complete_targets now targets q.schedule);
        off_lan = probed.off_lan_now;
      }

  -- `Runner.round`.
  unfoldable pub round : Schedule → Bool → List Target → ℕ → Bool → Round
  unfolding finish_round
  round s discovery_due targets now off_lan_before =
      finish_round s discovery_due targets now (probe_targets net world off_lan_before targets)
