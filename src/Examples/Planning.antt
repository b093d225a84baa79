-- ===== src/Examples/Planning.antt =====
-- The schedule, at concrete instants.
use pulsitor_lan_agent.Base.{
  ℕ, ◌+◌, ◌-◌, ◌*◌, ◌%◌, ◌≤◌, ◌<◌, ◌≡◌, ◌≢◌, refl, true, false, none, some, inl, inr, pos, ℤ, In,
  Distinct, arith, if◌then◌else◌, ◌==◌, int_eq, int_beq,
}
use pulsitor_lan_agent.Config.{Target}
use pulsitor_lan_agent.Schedule.{
  second, min_discovery_interval, min_check_in_interval, Schedule, discovery_interval, slot, new,
  apply, reconcile, wait,
}
use pulsitor_lan_agent.Schedule.Grid.{slot_first}
use pulsitor_lan_agent.Schedule.Reconcile.{TargetsNear, reconcile_near}
use pulsitor_lan_agent.Schedule.Waiting.{has_work, wait_quiet, wait_wakes}
use pulsitor_lan_agent.Schedule.Applying.{target_ids}
use pulsitor_lan_agent.Schedule.Keys.{apply_deadlines}
use pulsitor_lan_agent.Examples.{household, grown, noon}

abbrev start : Schedule
start = new household noon (7 * second)

slot_first_example :
    (noon < slot start (60 * second) noon)
    × (slot start (60 * second) noon ≤ noon + 60 * second)
    × ((k : ℕ) × (slot start (60 * second) noon ≡ k * (60 * second) + start.phase % (60 * second)))
    × ((k : ℕ)
        → noon < k * (60 * second) + start.phase % (60 * second)
        → slot start (60 * second) noon ≤ k * (60 * second) + start.phase % (60 * second))
slot_first_example = slot_first start (60 * second) noon (omega arith)

reconcile_near_example :
    let s' = (reconcile start (noon - 60 * second)).0 in
    (s'.discovery_due_at
      ≤ noon
        - 60 * second
        + discovery_interval start.runtime.discovery_interval_seconds min_discovery_interval)
    × (s'.check_in_due_at
        ≤ noon
          - 60 * second
          + discovery_interval start.runtime.check_in_interval_seconds min_check_in_interval)
    × TargetsNear (noon - 60 * second) start.runtime.targets s'.target_due_at
    × (s'.last_discovery_at ≤ noon - 60 * second)
reconcile_near_example = reconcile_near start (noon - 60 * second)

-- A schedule whose work is an hour ahead.
abbrev rested : Schedule
rested = record {
  runtime = household;
  phase = 0;
  discovery_due_at = noon + 3600 * second;
  last_discovery_at = noon;
  check_in_due_at = noon + 60 * second;
  target_due_at = λ id. if id == pos 7 then some (noon + 45 * second) else none;
  answering = λ id. none;
}

rested-wait : wait rested noon ≡ 45 * second
unfolding wait int_beq
rested-wait = refl

wait_quiet_example : has_work rested (noon + 44 * second) ≡ false
wait_quiet_example =
    wait_quiet rested noon (noon + 44 * second) (omega arith) (rw rested-wait (omega arith))

wait_wakes_example : has_work rested (noon + wait rested noon) ≡ true
wait_wakes_example = wait_wakes rested noon (rw rested-wait (omega arith))

alone : Distinct (target_ids household.targets)
alone = ((λ i. i), tt)

apart : Distinct (target_ids grown.targets)
apart = ((λ i. elim i [ inl e ↦ absurd (cc e) | inr none_left ↦ none_left ]), ((λ i. i), tt))

apply_deadlines_example :
    ((t : Target) (at : ℕ)
      → In t grown.targets
      → In t household.targets
      → rested.target_due_at t.id ≡ some at
      → (apply rested grown noon).target_due_at t.id ≡ some at)
    × ((t : Target)
        → In t grown.targets
        → ¬ In t household.targets
        → t.id ≢ pos 0
        → (apply rested grown noon).target_due_at t.id ≡ some noon)
    × ((id : ℤ)
        → ¬ In id (target_ids grown.targets)
        → (apply rested grown noon).target_due_at id ≡ none)
apply_deadlines_example = apply_deadlines rested grown noon alone apart
