-- ===== src/Agent/Round/Sweeping.antt =====
-- `Runner.round` of internal/agent/agent.go: when a round sweeps.
use pulsitor_lan_agent.Base.{ℕ, ◌+◌, ◌≤◌, ◌≡◌, ◌⊎◌, nat_eq, text_eq, texts_eq, int_eq}
use pulsitor_lan_agent.Discover.Sweep
use pulsitor_lan_agent.Config.{target_eq}
use pulsitor_lan_agent.Schedule.{Schedule, discovery_interval, min_discovery_interval}

-- The distance to the last sweep allows another, or there was none.
abbrev pub IsSpaced : Schedule → ℕ → Type 0
IsSpaced s now =
    (s.last_discovery_at ≡ 0)
    ⊎ (s.last_discovery_at
          + discovery_interval s.runtime.discovery_min_interval_seconds min_discovery_interval
        ≤ now)
