-- ===== src/Schedule/Reconcile.antt =====
-- `Reconcile` of internal/agent/schedule.go.
use pulsitor_lan_agent.Base.{
  ℕ, ◌+◌, ◌≤◌, ◌<◌, ◌≡◌, inl, inr, refl, sym, ap, ◌∙◌, false, Option, none, some, List, [], ◌∷◌,
  arith, if◌then◌else◌, Bool-cases, ◌==◌, nat_eq, text_eq, texts_eq, beq→eq, ℤ, pos, negsuc, int_eq,
  Map, put, put_self, put_same, In,
}
use pulsitor_lan_agent.Schedule.{
  min_discovery_interval, min_check_in_interval, max_duration, after, seconds_duration, at_least,
  target_interval, discovery_interval, Schedule, clamp, clamp_target, clamp_loop, reconcile, due,
  earlier,
}
use pulsitor_lan_agent.Config.{Target, target_eq}

-- A deadline no more than one interval ahead.
abbrev Near : ℕ → ℕ → ℕ → Type 0
Near now interval at = at ≤ now + interval

clamp_lem :
    (now due interval : ℕ)
    → interval < max_duration
    → Near now interval (clamp now due interval).0
      × ((clamp now due interval).0 ≤ due)
      × ((clamp now due interval).1 ≡ false → (clamp now due interval).0 ≡ due)
clamp_lem now due interval h = ground arith

-- Every target of a list that has a deadline has it at most one interval of its own ahead.
abbrev pub TargetsNear : ℕ → List Target → Map ℤ ℕ → Type 0
TargetsNear now ts due =
    (t : Target) → In t ts → (at : ℕ) → due t.id ≡ some at → at ≤ now + target_interval t

-- A deadline that is kept or pulled back, or is missing on both sides.
abbrev pub Earlier : Option ℕ → Option ℕ → Type 0
Earlier none none = Unit
Earlier none (some b) = ⊥
Earlier (some a) none = ⊥
Earlier (some a) (some b) = b ≤ a

-- No deadline moves to a later time, none appears and none goes.
abbrev pub OnlyEarlier : Map ℤ ℕ → Map ℤ ℕ → Type 0
OnlyEarlier due due' = (id : ℤ) → Earlier (due id) (due' id)

Earlier-refl : (o : Option ℕ) → Earlier o o
Earlier-refl none = tt
Earlier-refl (some a) = omega arith

Earlier-trans : (a b c : Option ℕ) → Earlier a b → Earlier b c → Earlier a c
Earlier-trans none none none p q = tt
Earlier-trans none none (some c) p q = q
Earlier-trans none (some b) c p q = absurd p
Earlier-trans (some a) none c p q = absurd p
Earlier-trans (some a) (some b) none p q = q
Earlier-trans (some a) (some b) (some c) p q = omega arith

pub Earlier-some :
    (o p : Option ℕ) (b : ℕ) → Earlier o p → p ≡ some b → (a : ℕ) × (o ≡ some a) × (b ≤ a)
Earlier-some none none b h e = cc
Earlier-some none (some c) b h e = absurd h
Earlier-some (some a) none b h e = absurd h
Earlier-some (some a) (some c) b h e = let same : c ≡ b = cc in (a, refl, omega arith)

seconds_duration-lt : (z : ℤ) (n : ℕ) → seconds_duration z ≡ pos n → n < max_duration
unfolding seconds_duration
seconds_duration-lt (pos k) n h = ground arith
seconds_duration-lt (negsuc k) n h = ground arith

at_least-lt :
    (floor : ℕ) (z : ℤ)
    → floor < max_duration
    → ((n : ℕ) → z ≡ pos n → n < max_duration)
    → at_least floor z < max_duration
unfolding at_least
at_least-lt floor (pos n) h k = ground (arith, k n refl)
at_least-lt floor (negsuc n) h k = h

target_interval-lt : (t : Target) → target_interval t < max_duration
unfolding target_interval
target_interval-lt t =
    at_least-lt _ (seconds_duration t.interval_seconds) (omega arith)
      (seconds_duration-lt t.interval_seconds)

discovery_interval-lt :
    (z : ℤ) (floor : ℕ) → floor < max_duration → discovery_interval z floor < max_duration
unfolding discovery_interval
discovery_interval-lt z floor h = at_least-lt floor (seconds_duration z) h (seconds_duration-lt z)

some_eq : (a b : ℕ) → some a ≡ some b → a ≡ b
some_eq a b h = cc

put_earlier :
    (due : Map ℤ ℕ) (id : ℤ) (a b : ℕ) → due id ≡ some a → b ≤ a → OnlyEarlier due (put due id b)
put_earlier due id a b h le j = elim (Bool-cases (id == j)) [
  | inl same ↦
      let found : due j ≡ some a = ap due (sym (beq→eq id j same)) ∙ h in rw (same, found) le
  | inr other ↦ rw other (Earlier-refl (due j))
]

-- What one pass of the loop of `Reconcile` does to the deadlines.
clamp_target_lem :
    (now : ℕ) (t : Target) (o : Option ℕ) (due : Map ℤ ℕ)
    → due t.id ≡ o
    → let (due', moved) = clamp_target now t o due in
      OnlyEarlier due due'
      × ((at : ℕ) → due' t.id ≡ some at → at ≤ now + target_interval t)
      × (moved ≡ false → due' ≡ due)
unfolding clamp_target
clamp_target_lem now t none due h = (λ id. Earlier-refl (due id), λ at e. cc, λ q. refl)
clamp_target_lem now t (some planned) due h =
    let (near, le, same) = clamp_lem now planned (target_interval t) (target_interval-lt t) in
    (
      put_earlier due t.id planned _ h le,
      λ at e.
          let value = sym (put_self due t.id (clamp now planned (target_interval t)).0) ∙ e in
          omega (arith, some_eq _ _ value),
      λ q. put_same due t.id _ (h ∙ ap some (sym (same q))),
    )

clamp_loop_lem :
    (now : ℕ) (ts : List Target) (due : Map ℤ ℕ)
    → let (due', moved) = clamp_loop now ts due in
      OnlyEarlier due due' × TargetsNear now ts due' × (moved ≡ false → due' ≡ due)
unfolding clamp_loop
clamp_loop_lem now [] due = (λ id. Earlier-refl (due id), λ t i at e. absurd i, λ q. refl)
clamp_loop_lem now (t ∷ rest) due =
    let one = clamp_target now t (due t.id) due in
    let more = clamp_loop now rest one.0 in
    let (earlier₁, near, same₁) = clamp_target_lem now t (due t.id) due refl in
    let (earlier₂, nears, same₂) = clamp_loop_lem now rest one.0 in
    (
      λ id. Earlier-trans (due id) (one.0 id) (more.0 id) (earlier₁ id) (earlier₂ id),
      λ u i at e. elim i [
        | inl here ↦
            let (a, found, le) =
              Earlier-some (one.0 t.id) (more.0 t.id) at (earlier₂ t.id)
                (ap (λ (v : Target). more.0 v.id) (sym here) ∙ e) in
            rw here (omega (arith, near a found))
        | inr there ↦ nears u there at e
      ],
      λ q. same₂ (ground arith) ∙ same₁ (ground arith),
    )

schedule_eq :
    (s : Schedule) {discovery last check_in : ℕ} {targets : Map ℤ ℕ}
    → discovery ≡ s.discovery_due_at
    → last ≡ s.last_discovery_at
    → check_in ≡ s.check_in_due_at
    → targets ≡ s.target_due_at
    → record s {
      discovery_due_at = discovery;
      last_discovery_at = last;
      check_in_due_at = check_in;
      target_due_at = targets;
    }
      ≡ s
schedule_eq s p q r t = λ i. record s {
  discovery_due_at = p i;
  last_discovery_at = q i;
  check_in_due_at = r i;
  target_due_at = t i;
}

same_last : (last now : ℕ) → after last now ≡ false → (if after last now then now else last) ≡ last
same_last last now h = rw h

module _ (s : Schedule) (now : ℕ) where
  -- After `Reconcile` no deadline is further away than its own interval, and the last sweep is past.
  pub reconcile_near :
      let s' = (reconcile s now).0 in
      (s'.discovery_due_at
        ≤ now + discovery_interval s.runtime.discovery_interval_seconds min_discovery_interval)
      × (s'.check_in_due_at
          ≤ now + discovery_interval s.runtime.check_in_interval_seconds min_check_in_interval)
      × TargetsNear now s.runtime.targets s'.target_due_at
      × (s'.last_discovery_at ≤ now)
  unfolding reconcile
  reconcile_near = (
    (clamp_lem now s.discovery_due_at _ (
        discovery_interval-lt s.runtime.discovery_interval_seconds min_discovery_interval
          (omega arith))).0,
    (clamp_lem now s.check_in_due_at _ (
        discovery_interval-lt s.runtime.check_in_interval_seconds min_check_in_interval
          (omega arith))).0,
    (clamp_loop_lem now s.runtime.targets s.target_due_at).1,
    ground arith,
  )

  -- `Reconcile` only ever brings a deadline forward, and when it reports that it did nothing it has
  -- left the whole schedule as it was.
  pub reconcile_earlier :
      let (s', moved) = reconcile s now in
      (s'.discovery_due_at ≤ s.discovery_due_at)
      × (s'.check_in_due_at ≤ s.check_in_due_at)
      × OnlyEarlier s.target_due_at s'.target_due_at
      × (moved ≡ false → s' ≡ s)
  unfolding reconcile
  reconcile_earlier =
      let (near₁, le₁, same₁) = clamp_lem now s.discovery_due_at _ (
        discovery_interval-lt s.runtime.discovery_interval_seconds min_discovery_interval
          (omega arith)) in
      let (near₂, le₂, same₂) = clamp_lem now s.check_in_due_at _ (
        discovery_interval-lt s.runtime.check_in_interval_seconds min_check_in_interval
          (omega arith)) in
      let (earlier, nears, same₃) = clamp_loop_lem now s.runtime.targets s.target_due_at in
      (
        le₁,
        le₂,
        earlier,
        λ q.
            schedule_eq s (same₁ (ground arith)) (same_last s.last_discovery_at now (ground arith))
              (same₂ (ground arith)) (same₃ (ground arith)),
      )
