-- ===== src/Examples/Rounds.antt =====
-- Rounds and passes of an agent that watches the laptop, which a sweep has found again.
use pulsitor_lan_agent.Base.{
  ◌+◌, ◌≡◌, inl, refl, true, false, Option, none, some, List, [], ◌∷◌, map, Text, codes, pos, In,
  Distinct, list_beq, int_beq, for_each, keep, int_eq, text_eq, nat_eq,
}
use pulsitor_lan_agent.Discover.Mac.{normalise_mac}
use pulsitor_lan_agent.Discover.Sweep
use pulsitor_lan_agent.Config.{Target}
use pulsitor_lan_agent.Report.{Observation}
use pulsitor_lan_agent.Schedule.{second, Schedule, new, was_answering, may_discover, apply}
use pulsitor_lan_agent.Schedule.Applying.{target_ids}
use pulsitor_lan_agent.Agent.Neighbours.{index, holder, where_is}
use pulsitor_lan_agent.Agent.Probing.{
  World, Reply, is_the_same_device, is_offline, is_off_lan, offline, probe_targets,
}
use pulsitor_lan_agent.Agent.Probing.Evidence.{first_failed, reply_again}
use pulsitor_lan_agent.Agent.Round.{round, sweeps, rescue, report_discovery, ordered}
use pulsitor_lan_agent.Agent.Round.Evidence.{HasEvidence, round_ids, round_online}
use pulsitor_lan_agent.Agent.Running.{
  runtime_or_default, Answer, accepted, failed, unreachable, Loop, start, Pass, run_passes,
}
use pulsitor_lan_agent.Agent.Running.Origin.{HasOrigin, run_passes-HasOrigin}
use pulsitor_lan_agent.Agent.Running.Laws.{IsConsistent, run_passes-IsConsistent}
use pulsitor_lan_agent.Examples.{net, laptop, household, grown, noon}

abbrev silence : Reply
silence = record { replied = []; error = none }

abbrev quiet : World
quiet = record {
  first_probe = λ hosts. silence;
  first_table = [];
  second_probe = λ hosts. silence;
  second_table = [];
}

abbrev swept_laptop : Sweep.Device
swept_laptop = record {
  mac = codes "3c:22:fb:00:01:02";
  ip = codes "10.0.0.6";
  hostname = codes "laptop";
}

abbrev finds : List Text → Option Sweep.Result
finds subnets = some (record {
  interfaces = [];
  devices = swept_laptop ∷ [];
  scanned = subnets;
  degraded = false;
  failures = [];
})

abbrev fresh : Schedule
fresh = new household noon 0

abbrev due_now : List Target
due_now = laptop ∷ []

alone : Distinct (target_ids due_now)
alone = ((λ i. i), tt)

abbrev rescued : Observation
rescued = record { id = pos 7; online = true; ip = codes "10.0.0.6"; hostname = codes "laptop" }

reported_rescued :
    (round net quiet finds fresh false due_now noon false).report.observations ≡ rescued ∷ []
unfolding round sweeps rescue ordered report_discovery new apply was_answering may_discover
    probe_targets offline index holder where_is is_the_same_device is_offline is_off_lan
    normalise_mac list_beq int_beq for_each keep
reported_rescued = refl

round_online_example :
    (t : Target) × In t due_now
    × (pos 7 ≡ t.id)
    × HasEvidence net quiet finds fresh false false due_now noon t rescued
round_online_example =
    round_online net quiet finds fresh false false due_now noon rescued alone
      (rw reported_rescued (inl refl)) refl

quiet_sent : first_failed net quiet due_now ≡ false
unfolding first_failed is_off_lan
quiet_sent = refl

quiet_again : (reply_again net quiet due_now).error ≡ none
unfolding reply_again
quiet_again = refl

round_ids_example :
    map (λ o. o.id) (round net quiet finds fresh false due_now noon false).report.observations
    ≡ pos 7 ∷ []
round_ids_example =
    round_ids net quiet finds fresh false false due_now noon alone quiet_sent quiet_again

abbrev beginning : Loop
beginning = start (some household) noon 0

abbrev pass_with : Answer → Pass
pass_with answer = record {
  cancelled_before = false;
  now = noon;
  world = quiet;
  discover = finds;
  cancelled_during = false;
  answer = λ report. answer;
  checked_in_at = noon + second;
  applied_at = noon + second;
  saved = true;
}

run_passes-IsConsistent_example : IsConsistent (
    run_passes net
      (λ n. second)
      false
      (pass_with (accepted grown) ∷ pass_with (failed unreachable) ∷ [])
      beginning)
run_passes-IsConsistent_example =
    run_passes-IsConsistent net (λ n. second) false (some household) noon 0
      (pass_with (accepted grown) ∷ pass_with (failed unreachable) ∷ [])

abbrev two_passes : List Pass
two_passes = pass_with (accepted grown) ∷ pass_with (failed unreachable) ∷ []

run_passes-HasOrigin_example :
    HasOrigin
      (runtime_or_default (some household))
      two_passes
      (run_passes net (λ n. second) false two_passes beginning)
run_passes-HasOrigin_example =
    run_passes-HasOrigin net (λ n. second) false (some household) noon 0 two_passes
