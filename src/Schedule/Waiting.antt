-- ===== src/Schedule/Waiting.antt =====
-- `Wait` of internal/agent/schedule.go sleeps exactly until the next piece of work.
use pulsitor_lan_agent.Base.{
  ℕ, ◌+◌, ◌≤◌, ◌<◌, ◌≡◌, ◌⊎◌, inl, inr, refl, sym, ap, ◌∙◌, Bool, true, false, not, ◌||◌, Option,
  none, some, List, [], ◌∷◌, arith, nat_beq, ltb, if◌then◌else◌, Option-cases, nat_eq, text_eq,
  texts_eq, ℤ, int_eq, Map, length, In, keep,
}
use pulsitor_lan_agent.Schedule.{
  max_duration, elapsed, Schedule, due_at, due, check_in_due, earlier, earliest_loop, wait,
}
use pulsitor_lan_agent.Config.{Target, target_eq}

-- Something has to happen at an instant: a sweep, a word to the server or a probe.
abbrev pub has_work : Schedule → ℕ → Bool
has_work s now = (due s now).0 || check_in_due s now || not (nat_beq (length (due s now).1) 0)

earlier-le : (e : ℕ) (o : Option ℕ) → earlier e o ≤ e
unfolding earlier
earlier-le e none = omega arith
earlier-le e (some at) = ground arith

earlier-le_some : (e at : ℕ) → earlier e (some at) ≤ at
unfolding earlier
earlier-le_some e at = ground arith

earlier-cases : (e : ℕ) (o : Option ℕ) → (earlier e o ≡ e) ⊎ (o ≡ some (earlier e o))
unfolding earlier
earlier-cases e none = inl refl
earlier-cases e (some at) = ground arith

earliest_loop-le : (due : Map ℤ ℕ) (ts : List Target) (e : ℕ) → earliest_loop due ts e ≤ e
unfolding earliest_loop
earliest_loop-le due [] e = omega arith
earliest_loop-le due (t ∷ rest) e =
    omega (arith, earlier-le e (due t.id), earliest_loop-le due rest (earlier e (due t.id)))

earliest_loop-le_due :
    (due : Map ℤ ℕ) (ts : List Target) (e at : ℕ) (t : Target)
    → In t ts
    → due t.id ≡ some at
    → earliest_loop due ts e ≤ at
unfolding earliest_loop
earliest_loop-le_due due [] e at t i h = absurd i
earliest_loop-le_due due (u ∷ rest) e at t (inl p) h =
    let found : due u.id ≡ some at = ap (λ (v : Target). due v.id) (sym p) ∙ h in
    let first : earlier e (due u.id) ≤ at = rw found (earlier-le_some e at) in
    omega (arith, earliest_loop-le due rest (earlier e (due u.id)))
earliest_loop-le_due due (u ∷ rest) e at t (inr i) h =
    earliest_loop-le_due due rest (earlier e (due u.id)) at t i h

-- The earliest deadline is the one that the loop began with, or that of a target.
earliest_loop-cases :
    (due : Map ℤ ℕ) (ts : List Target) (e : ℕ)
    → (earliest_loop due ts e ≡ e)
      ⊎ ((t : Target) × In t ts × (due t.id ≡ some (earliest_loop due ts e)))
unfolding earliest_loop
earliest_loop-cases due [] e = inl refl
earliest_loop-cases due (t ∷ rest) e = elim (earliest_loop-cases due rest (earlier e (due t.id))) [
  | inl here ↦ elim (earlier-cases e (due t.id)) [
    | inl same ↦ inl (here ∙ same)
    | inr own ↦ inr (t, inl refl, own ∙ ap some (sym here))
  ]
  | inr (u, i, found) ↦ inr (u, inr i, found)
]

keep-none :
    {A : Type 0} (p : A → Bool) (xs : List A)
    → ((x : A) → In x xs → p x ≡ false)
    → length (keep p xs) ≡ 0
unfolding keep
keep-none p [] h = refl
keep-none p (x ∷ xs) h = rw (h x (inl refl)) (keep-none p xs (λ y i. h y (inr i)))

keep-some :
    {A : Type 0} (p : A → Bool) (xs : List A) (x : A)
    → In x xs
    → p x ≡ true
    → 0 < length (keep p xs)
unfolding keep
keep-some p [] x i h = absurd i
keep-some p (y ∷ ys) x (inl e) h =
    let found : p y ≡ true = ap p (sym e) ∙ h in rw found (omega arith)
keep-some p (y ∷ ys) x (inr i) h = ground (arith, keep-some p ys x i h)

module _ (s : Schedule) where
  -- The first of the two deadlines that are no target's.
  first_due : ℕ
  first_due =
      if ltb s.check_in_due_at s.discovery_due_at then s.check_in_due_at else s.discovery_due_at

  next_due : ℕ
  unfolding first_due
  next_due = earliest_loop s.target_due_at s.runtime.targets first_due

  next_due-le : (next_due ≤ s.check_in_due_at) × (next_due ≤ s.discovery_due_at)
  unfolding next_due
  next_due-le =
      let le = earliest_loop-le s.target_due_at s.runtime.targets first_due in ground arith

  first_due-cases : (first_due ≡ s.check_in_due_at) ⊎ (first_due ≡ s.discovery_due_at)
  unfolding first_due
  first_due-cases = ground arith

  wait-elapsed : (now : ℕ) → wait s now ≡ elapsed next_due now
  unfolding wait next_due
  wait-elapsed now = refl

  target_quiet :
      (at : ℕ)
      → at < next_due
      → (t : Target) → In t s.runtime.targets
      → due_at at (s.target_due_at t.id) ≡ false
  unfolding next_due due_at
  target_quiet at h t i = elim (Option-cases (s.target_due_at t.id)) [
    | inl missing ↦ rw missing
    | inr (planned, found) ↦
        let le =
          earliest_loop-le_due s.target_due_at s.runtime.targets first_due planned t i found in
        rw found (ground arith)
  ]

  quiet_before : (at : ℕ) → at < next_due → has_work s at ≡ false
  unfolding due check_in_due
  quiet_before at h =
      let none_due =
        keep-none (λ t. due_at at (s.target_due_at t.id)) s.runtime.targets (target_quiet at h) in
      let (check, sweep) = next_due-le in rw none_due (ground arith)

  target_work :
      (at : ℕ) (t : Target)
      → next_due ≤ at
      → In t s.runtime.targets
      → s.target_due_at t.id ≡ some next_due
      → has_work s at ≡ true
  unfolding due check_in_due due_at
  target_work at t late i found =
      let now_due : due_at at (s.target_due_at t.id) ≡ true = rw found (ground arith) in
      let some_due =
        keep-some (λ t. due_at at (s.target_due_at t.id)) s.runtime.targets t i now_due in
      ground arith

  work_from_next : (at : ℕ) → next_due ≤ at → has_work s at ≡ true
  unfolding next_due due check_in_due
  work_from_next at late = elim (earliest_loop-cases s.target_due_at s.runtime.targets first_due) [
    | inl first ↦ elim first_due-cases [ inl check ↦ ground arith | inr sweep ↦ ground arith ]
    | inr (t, i, found) ↦ target_work at t late i found
  ]

  -- Nothing falls due while the agent sleeps.
  pub wait_quiet : (now at : ℕ) → now ≤ at → at < now + wait s now → has_work s at ≡ false
  wait_quiet now at h lt = let e = wait-elapsed now in quiet_before at (omega arith)

  -- When it has slept, or at once where it need not sleep, something is due: unless the next
  -- deadline is more than 292 years off, which is where a duration saturates.
  pub wait_wakes : (now : ℕ) → wait s now < max_duration → has_work s (now + wait s now) ≡ true
  wait_wakes now fits = let e = wait-elapsed now in work_from_next (now + wait s now) (omega arith)
