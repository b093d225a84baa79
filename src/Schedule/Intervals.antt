-- ===== src/Schedule/Intervals.antt =====
-- The interval floors of internal/agent/schedule.go, and the spacing of its extra sweeps.
use pulsitor_lan_agent.Base.{
  ℕ, ◌+◌, ◌*◌, ◌≤◌, ◌<◌, max, ◌≡◌, true, arith, nat_eq, text_eq, ℤ, pos, int_eq,
}
use pulsitor_lan_agent.Schedule.{
  second, min_target_interval, min_discovery_interval, seconds_duration, target_interval,
  discovery_interval, Schedule, may_discover, completed_discovery,
}
use pulsitor_lan_agent.Config.{Target, target_eq}

-- Whatever a configuration says, wrapped or negative, an interval is at least its floor.
pub target_interval-floor : (t : Target) → min_target_interval ≤ target_interval t
unfolding target_interval
target_interval-floor t = ground arith

pub discovery_interval-floor : (z : ℤ) (floor : ℕ) → floor ≤ discovery_interval z floor
unfolding discovery_interval
discovery_interval-floor z floor = ground arith

-- An interval of at most a day does not wrap: it is its seconds, or the floor.
pub discovery_interval_exact :
    (n floor : ℕ) → n ≤ 86400 → discovery_interval (pos n) floor ≡ max (n * second) floor
unfolding discovery_interval
discovery_interval_exact n floor h = ground arith

-- The same for a target: any interval that a valid configuration names is kept, down to the floor.
pub target_interval_exact :
    (t : Target) (n : ℕ)
    → t.interval_seconds ≡ pos n
    → n ≤ 86400
    → target_interval t ≡ max (n * second) min_target_interval
unfolding target_interval
target_interval_exact t n e h = rw (e, seconds_duration) (ground arith)

-- After a sweep no extra one is allowed for at least half a minute, whatever the configuration says;
-- from the configured distance on it is allowed.
pub sweep_spacing :
    (s : Schedule) (now at : ℕ)
    → 0 < now
    → let s' = (completed_discovery s now).0 in
      (may_discover s' at ≡ true → now + min_discovery_interval ≤ at)
      × (now + discovery_interval s.runtime.discovery_min_interval_seconds min_discovery_interval
            ≤ at
          → may_discover s' at ≡ true)
unfolding may_discover completed_discovery
sweep_spacing s now at h =
    let floor =
      discovery_interval-floor s.runtime.discovery_min_interval_seconds min_discovery_interval in
    (λ allowed. ground arith, λ late. ground arith)
