-- ===== src/Agent/Backoff.antt =====
-- internal/agent/agent.go: how long the agent waits after a report that failed. The jitter of
-- `math/rand` is the argument `rand`.
pub mod Bounds
use pulsitor_lan_agent.Base.{
  ℕ, zero, suc, ◌+◌, ◌-◌, ◌*◌, ◌/◌, ◌%◌, ◌^◌, ◌≤◌, ◌<◌, min, max, ◌≡◌, ◌≢◌, ◌↔◌, ◌⊎◌, inl, inr,
  refl, sym, ap, ap₂, subst, ◌∙◌, fun_ext, Bool, true, false, not, ◌&&◌, ◌||◌, Option, none, some,
  List, [], ◌∷◌, ◌++◌, map, arith, nat_beq, ltb, leb, if◌then◌else◌, ltb→lt, lt→ltb, leb→le, le→leb,
  leb_false→lt, ltb_false→le, nat_beq_iff, Bool-cases, Option-cases, is_some, &&-true, &&-intro, Eq,
  ◌==◌, nat_eq, list_beq, list_beq_iff, Text, text_eq, texts_eq, codes, beq_refl, beq→eq,
  beq_false→ne, ℤ, pos, negsuc, int_beq, int_beq_iff, int_eq, bits64, signed64, scale, Map, empty,
  flag, put, remove, put_self, put_ne, put_same, remove_ne, length, length-append, All, In,
  Distinct, keep, All_of_In, All-map, for_each, for_each-keeps, for_each-at, for_each-other, In-map,
  In-keep, keep-In, keep-true, keep-false, Distinct-keep, keep-absent, tests,
}
use pulsitor_lan_agent.Schedule.{second}

abbrev pub backoff_base : ℕ
backoff_base = 5 * second

abbrev pub backoff_max : ℕ
backoff_max = 300 * second

abbrev pub terminal_failure : ℕ
terminal_failure = 32

-- The shifted base, with the wrap of 64 bits. A negative duration reads as more than the maximum.
backoff_delay : ℕ → ℕ
backoff_delay attempt =
    let first = if ltb attempt 1 then 1 else attempt in
    let delay = backoff_base * 2 ^ min (first - 1) 16 % 2 ^ 64 in
    if ltb backoff_max delay || leb delay 0 then backoff_max else delay

-- `rand n` is `rand.Int63n(n)`.
unfoldable pub default_backoff : (ℕ → ℕ) → ℕ → ℕ
unfolding backoff_delay
default_backoff rand attempt = let half = backoff_delay attempt / 2 in half + rand (half + 1)
