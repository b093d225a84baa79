-- ===== src/Schedule/Grid.antt =====
-- The deadlines of internal/agent/schedule.go: `advance` keeps the phase of a deadline, `slot` the
-- phase of the agent.
use pulsitor_lan_agent.Base.{
  ℕ, ◌+◌, ◌-◌, ◌*◌, ◌/◌, ◌%◌, ◌^◌, ◌≤◌, ◌<◌, ◌≡◌, inl, inr, refl, arith, ltb, if◌then◌else◌,
  ltb_false→le, Bool-cases, nat_eq, text_eq, texts_eq, int_eq,
}
use pulsitor_lan_agent.Schedule.{advance, slot_from, Schedule, slot}
use pulsitor_lan_agent.Config.{target_eq}
use native.Mathlib.Nat.{mod-lt, div-lt_iff_lt-mul}

product_window :
    (d interval : ℕ)
    → 0 < interval
    → (d < (d / interval + 1) * interval) × (d / interval * interval ≤ d)
product_window d interval h = grind arith

-- After a served slot the next deadline is later than now and at most one interval away. A deadline
-- that was due stays on its grid: it moves by one interval for itself and one for each slot skipped.
pub advance_next :
    (planned interval now : ℕ)
    → 0 < interval
    → now + interval < planned + 2 ^ 63
    → (now < (advance planned interval now).0)
      × ((advance planned interval now).0 ≤ now + interval)
      × (planned ≤ now
          → (advance planned interval now).0
            ≡ planned + ((advance planned interval now).1 + 1) * interval)
unfolding advance
advance_next planned interval now h near = grind (arith, product_window (now - planned) interval h)

-- The number of the next slot.
slot_number : ℕ → ℕ → ℕ → ℕ
slot_number interval offset now = if ltb now offset then 0 else (now - offset) / interval + 1

slot_from-number :
    (interval offset now : ℕ)
    → offset < interval
    → slot_from interval offset now ≡ slot_number interval offset now * interval + offset
unfolding slot_from slot_number
slot_from-number interval offset now h = grind (arith, product_window (now - offset) interval)

slot_number_next :
    (interval offset now : ℕ)
    → offset < interval
    → now < slot_number interval offset now * interval + offset
unfolding slot_number
slot_number_next interval offset now h = grind (arith, product_window (now - offset) interval)

slot_number_near :
    (interval offset now : ℕ)
    → offset < interval
    → slot_number interval offset now * interval + offset ≤ now + interval
unfolding slot_number
slot_number_near interval offset now h = grind (arith, product_window (now - offset) interval)

slot_number_least :
    (interval offset now k : ℕ)
    → offset < interval
    → now < k * interval + offset
    → slot_number interval offset now ≤ k
unfolding slot_number
slot_number_least interval offset now k h lt = elim (Bool-cases (ltb now offset)) [
  | inl early ↦ rw early (omega arith)
  | inr late ↦
      let past = ltb_false→le now offset late in
      let below = (div-lt_iff_lt-mul {k = interval} {x = now - offset} {y = k} (omega arith)).1 in
      let room : (now - offset) / interval < k = below (omega arith) in rw late (omega arith)
]

module _ (s : Schedule) (interval now : ℕ) (h : 0 < interval) where
  slot-slot_from : slot s interval now ≡ slot_from interval (s.phase % interval) now
  unfolding slot
  slot-slot_from = ground arith

  -- The next slot lies ahead, at most one interval away, and it is the first instant of the agent's
  -- grid that does: the grid is the phase, modulo the interval, plus whole intervals.
  pub slot_first :
      (now < slot s interval now)
      × (slot s interval now ≤ now + interval)
      × ((k : ℕ) × (slot s interval now ≡ k * interval + s.phase % interval))
      × ((k : ℕ)
          → now < k * interval + s.phase % interval
          → slot s interval now ≤ k * interval + s.phase % interval)
  slot_first =
      let offset = s.phase % interval in
      let below = mod-lt s.phase h in
      rw (slot-slot_from, slot_from-number interval offset now below)
        (
          slot_number_next interval offset now below,
          slot_number_near interval offset now below,
          (slot_number interval offset now, refl),
          λ k ahead. grind (arith, slot_number_least interval offset now k below ahead),
        )
