-- ===== src/Agent/Backoff/Bounds.antt =====
-- The waits of the backoff: between half a delay and a whole one.
use pulsitor_lan_agent.Base.{
  ℕ, zero, suc, ◌+◌, ◌-◌, ◌*◌, ◌/◌, ◌^◌, ◌≤◌, ◌<◌, min, ◌≡◌, arith, nat_eq, text_eq, texts_eq,
  int_eq,
}
use pulsitor_lan_agent.Agent.Backoff.{backoff_base, backoff_max, backoff_delay, default_backoff}

power_positive : (k : ℕ) → 1 ≤ 2 ^ k
power_positive zero = omega arith
power_positive (suc k) = grind (arith, power_positive k)

-- Counting down from the highest shift.
power_bounded : (d k : ℕ) → k + d ≡ 16 → 2 ^ k ≤ 65536
power_bounded zero k e = let same : k ≡ 16 = omega arith in rw same (omega arith)
power_bounded (suc d) k e =
    let next : 2 ^ suc k ≤ 65536 = power_bounded d (suc k) (omega arith) in grind arith

delay_exact :
    (attempt : ℕ)
    → 0 < attempt
    → backoff_delay attempt ≡ min (backoff_base * 2 ^ min (attempt - 1) 16) backoff_max
unfolding backoff_delay
delay_exact attempt h =
    let k = min (attempt - 1) 16 in
    let low = power_positive k in let high = power_bounded (16 - k) k (omega arith) in ground arith

module _ (rand : ℕ → ℕ) (bounded : (n : ℕ) → 0 < n → rand n < n) where
  -- With a random number below its bound, the wait after the n-th failure in a row lies between half
  -- of the delay, rounded down, and the delay: that starts at five seconds, doubles with each
  -- failure, and stops at five minutes.
  pub default_backoff_bounds :
      (attempt : ℕ)
      → 0 < attempt
      → let delay = min (backoff_base * 2 ^ min (attempt - 1) 16) backoff_max in
        (delay / 2 ≤ default_backoff rand attempt) × (default_backoff rand attempt ≤ delay)
  unfolding default_backoff
  default_backoff_bounds attempt h =
      let delay = min (backoff_base * 2 ^ min (attempt - 1) 16) backoff_max in
      let small = bounded (delay / 2 + 1) (omega arith) in
      rw (delay_exact attempt h) (omega arith, omega arith)
