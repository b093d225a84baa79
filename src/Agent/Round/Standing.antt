-- ===== src/Agent/Round/Standing.antt =====
-- A round leaves the schedule tracked, and on the same configuration.
use pulsitor_lan_agent.Base.{
  ℕ, ◌≡◌, inl, inr, refl, sym, subst, Bool, Option, none, some, List, Bool-cases, Option-cases,
  nat_eq, Text, text_eq, texts_eq, ℤ, int_eq, Map, In, for_each-keeps,
}
use pulsitor_lan_agent.Discover.Sweep
use pulsitor_lan_agent.Config.{NetText, Target, Runtime, target_eq}
use pulsitor_lan_agent.Report.{Observation}
use pulsitor_lan_agent.Schedule.{Schedule, completed_target, completed_discovery, record_answer}
use pulsitor_lan_agent.Schedule.Tracking.{
  discovered, probed, answered as answer_recorded, IsTracked, Step-IsTracked,
}
use pulsitor_lan_agent.Agent.Probing.{World, Probed, probe_targets}
use pulsitor_lan_agent.Agent.Round.{
  discovered as discovered_from, blank, Progress, round, finish_round, complete_targets,
  record_answers, record_observation, sweeps,
}

-- A schedule that is tracked and stands on a given configuration.
abbrev pub Stands : Runtime → Schedule → Type 0
Stands runtime s = IsTracked s × (s.runtime ≡ runtime)

module _ (runtime : Runtime) where
  complete_targets-Stands :
      (now : ℕ) (ts : List Target) (s : Schedule)
      → ((t : Target) → In t ts → In t runtime.targets)
      → Stands runtime s
      → Stands runtime (complete_targets now ts s)
  unfolding complete_targets completed_target
  complete_targets-Stands now ts s known h =
      for_each-keeps (Stands runtime) _ ts s
        (λ t i s' (k, same). (
          Step-IsTracked (probed s' t now (subst (λ r. In t r.targets) (sym same) (known t i))) k,
          same,
        ))
        h

  record_answers-Stands :
      (obs : Map ℤ Observation) (ts : List Target) (s : Schedule)
      → ((t : Target) → In t ts → In t runtime.targets)
      → Stands runtime s
      → Stands runtime (record_answers obs ts s)
  unfolding record_answers record_answer
  record_answers-Stands obs ts s known h =
      for_each-keeps (Stands runtime) _ ts s
        (λ t i s' (k, same). elim (Option-cases (obs t.id)) [
          | inl missing ↦ rw (missing, record_observation) (k, same)
          | inr (o, there) ↦
              rw (there, record_observation)
                (
                  Step-IsTracked
                      (answer_recorded s' t o.online
                        (subst (λ r. In t r.targets) (sym same) (known t i)))
                      k,
                  same,
                )
        ])
        h

  discovered-schedule :
      (found : Option Sweep.Result) (unresolved : List Target) (p : Progress)
      → (discovered_from found unresolved p).schedule ≡ p.schedule
  unfolding discovered_from
  discovered-schedule none unresolved p = refl
  discovered-schedule (some result) unresolved p = refl

  finish_round-Stands :
      (net : NetText) (world : World) (discover : List Text → Option Sweep.Result) (s : Schedule)
      (discovery_due : Bool) (ts : List Target) (now : ℕ) (seen : Probed)
      → ((t : Target) → In t ts → In t runtime.targets)
      → Stands runtime s
      → Stands runtime (finish_round net world discover s discovery_due ts now seen).schedule
  unfolding finish_round completed_discovery
  finish_round-Stands net world discover s discovery_due ts now seen known h =
      elim (Bool-cases (sweeps s discovery_due seen.unresolved now)) [
        | inl swept ↦ rw swept (
            record_answers-Stands _ ts _ known (
              complete_targets-Stands now ts _ known (
                rw
                  (discovered-schedule (discover s.runtime.subnets) seen.unresolved
                    (record { out = blank; observations = seen.observations; schedule = s }))
                  (Step-IsTracked (discovered s now) h.0, h.1))))
        | inr skipped ↦
            rw skipped
              (record_answers-Stands _ ts _ known (complete_targets-Stands now ts s known h))
      ]

  pub round-Stands :
      (net : NetText) (world : World) (discover : List Text → Option Sweep.Result) (s : Schedule)
      (discovery_due before : Bool) (ts : List Target) (now : ℕ)
      → ((t : Target) → In t ts → In t runtime.targets)
      → Stands runtime s
      → Stands runtime (round net world discover s discovery_due ts now before).schedule
  unfolding round
  round-Stands net world discover s discovery_due before ts now known h =
      finish_round-Stands net world discover s discovery_due ts now
        (probe_targets net world before ts) known h
