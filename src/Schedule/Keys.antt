-- ===== src/Schedule/Keys.antt =====
-- The deadlines that `Apply` and the other operations of internal/agent/schedule.go keep.
use pulsitor_lan_agent.Base.{
  ℕ, ◌≡◌, ◌≢◌, inl, inr, sym, ap, subst, ◌∙◌, none, some, arith, Bool-cases, Option-cases, is_some,
  ◌==◌, nat_eq, text_eq, texts_eq, beq_refl, beq→eq, ℤ, pos, int_eq, Map, empty, In, Distinct,
}
use pulsitor_lan_agent.Schedule.{
  Schedule, targets_by_id, zero_target, target_or_zero, live_ids, due_loop, apply, new,
}
use pulsitor_lan_agent.Config.{Target, Runtime, target_eq}
use pulsitor_lan_agent.Schedule.Applying.{
  target_ids, In-target_ids, served, due_loop-at, live_iff, targets_by_id-at, targets_by_id-found,
}

module _ (s : Schedule) (runtime : Runtime) (now : ℕ) where
  -- The deadlines before those of absent targets are dropped.
  unfoldable pub looped : Map ℤ ℕ
  looped = due_loop (targets_by_id s.runtime.targets empty) now runtime.targets s.target_due_at

  pub apply-live :
      (id : ℤ)
      → In id (target_ids runtime.targets)
      → (apply s runtime now).target_due_at id ≡ looped id
  unfolding apply looped
  apply-live id i = rw ((live_iff runtime.targets id).1 i)

  pub apply-gone :
      (id : ℤ)
      → ¬ In id (target_ids runtime.targets)
      → (apply s runtime now).target_due_at id ≡ none
  unfolding apply
  apply-gone id h = elim (Bool-cases (is_some (live_ids runtime.targets empty id))) [
    | inl live ↦ absurd (h ((live_iff runtime.targets id).0 live))
    | inr gone ↦ rw gone
  ]

  old_ne :
      (t : Target)
      → t.id ≢ pos 0
      → ¬ In t s.runtime.targets
      → target_or_zero (targets_by_id s.runtime.targets empty t.id) ≢ t
  unfolding target_or_zero zero_target
  old_ne t h new e = elim (Option-cases (targets_by_id s.runtime.targets empty t.id)) [
    | inl missing ↦ h (ap (λ (v : Target). v.id) (sym (rw (missing, target_or_zero) at e)))
    | inr (u, found) ↦ elim (targets_by_id-found s.runtime.targets empty t.id u found) [
      | inl i ↦ new (subst (λ v. In v s.runtime.targets) (rw (found, target_or_zero) at e) i)
      | inr q ↦ cc q
    ]
  ]

  served_changed :
      (t : Target)
      → t.id ≢ pos 0
      → ¬ In t s.runtime.targets
      → served (targets_by_id s.runtime.targets empty) now t s.target_due_at ≡ some now
  unfolding served
  served_changed t h new =
      elim (Bool-cases (target_or_zero (targets_by_id s.runtime.targets empty t.id) == t)) [
        | inl same ↦ absurd (
            old_ne t h new
              (beq→eq (target_or_zero (targets_by_id s.runtime.targets empty t.id)) t same))
        | inr changed ↦ rw changed (ground arith)
      ]

  served_same :
      (t : Target) (at : ℕ)
      → Distinct (target_ids s.runtime.targets)
      → In t s.runtime.targets
      → s.target_due_at t.id ≡ some at
      → served (targets_by_id s.runtime.targets empty) now t s.target_due_at ≡ some at
  unfolding served target_or_zero
  served_same t at d i h = rw (h, targets_by_id-at s.runtime.targets empty t d i) (rw (beq_refl t))

  -- `Apply` on lists without repeated ids: a target that is as it was keeps its deadline, one that
  -- is new or has changed, and whose id is not 0, is due now, and an id that has gone has no deadline
  -- left.
  pub apply_deadlines :
      Distinct (target_ids s.runtime.targets)
      → Distinct (target_ids runtime.targets)
      → ((t : Target) (at : ℕ)
          → In t runtime.targets
          → In t s.runtime.targets
          → s.target_due_at t.id ≡ some at
          → (apply s runtime now).target_due_at t.id ≡ some at)
        × ((t : Target)
            → In t runtime.targets
            → ¬ In t s.runtime.targets
            → t.id ≢ pos 0
            → (apply s runtime now).target_due_at t.id ≡ some now)
        × ((id : ℤ)
            → ¬ In id (target_ids runtime.targets)
            → (apply s runtime now).target_due_at id ≡ none)
  unfolding looped
  apply_deadlines d e = (
    λ t at i j h.
        apply-live t.id (In-target_ids runtime.targets t i)
        ∙ due_loop-at (targets_by_id s.runtime.targets empty) now runtime.targets s.target_due_at t
            e i
        ∙ served_same t at d j h,
    λ t i new h.
        apply-live t.id (In-target_ids runtime.targets t i)
        ∙ due_loop-at (targets_by_id s.runtime.targets empty) now runtime.targets s.target_due_at t
            e i
        ∙ served_changed t h new,
    apply-gone,
  )
