-- ===== src/Agent/Running/Laws.antt =====
-- What stays true from pass to pass.
use pulsitor_lan_agent.Base.{
  ℕ, ◌≡◌, inl, inr, refl, subst, Bool, Option, none, List, [], ◌∷◌, if◌then◌else◌, Bool-cases,
  if_both, is_some, nat_eq, text_eq, texts_eq, ℤ, int_eq, Map, empty, In, keep-In,
}
use pulsitor_lan_agent.Config.{NetText, Target, Runtime, target_eq}
use pulsitor_lan_agent.Schedule.{Schedule, new, apply, reconcile, due, wait, live_ids}
use pulsitor_lan_agent.Schedule.Applying.{target_ids, live_iff}
use pulsitor_lan_agent.Schedule.Tracking.{
  applied, reconciled, checked_in, IsTracked, Step-IsTracked, new-IsTracked,
}
use pulsitor_lan_agent.Agent.Round.{Round, round}
use pulsitor_lan_agent.Agent.Round.Standing.{Stands, round-Stands}
use pulsitor_lan_agent.Agent.Running.{
  Answer, accepted, failed, forget, Loop, start, runtime_or_default, Pass, Next, sleeping, returned,
  loop_of, settle, answered, is_idle, work, run_pass, run_passes, after_pass,
}

forget_absent :
    (reported : Map ℤ Bool) (ts : List Target) (id : ℤ)
    → ¬ In id (target_ids ts)
    → forget reported ts id ≡ none
unfolding forget
forget_absent reported ts id h = elim (Bool-cases (is_some (live_ids ts empty id))) [
  | inl live ↦ absurd (h ((live_iff ts id).0 live))
  | inr gone ↦ rw gone refl
]

-- The schedule is tracked and follows the configuration that the agent works on, and of no target
-- outside it is an answer remembered.
pub record IsConsistent (loop : Loop) : Type 0 where
  pub tracked : IsTracked loop.schedule
  pub same : loop.schedule.runtime ≡ loop.runtime
  pub answers : (id : ℤ) → ¬ In id (target_ids loop.runtime.targets) → loop.reported id ≡ none

start-IsConsistent :
    (stored : Option Runtime) (now phase : ℕ) → IsConsistent (start stored now phase)
unfolding start
start-IsConsistent stored now phase = record {
  tracked = new-IsTracked (runtime_or_default stored) now phase;
  same = unfold new apply in refl;
  answers = λ id h. refl;
}

due-In : (s : Schedule) (now : ℕ) (t : Target) → In t (due s now).1 → In t s.runtime.targets
unfolding due
due-In s now t i = (keep-In _ s.runtime.targets t i).0

module _ (net : NetText) (backoff : ℕ → ℕ) (once : Bool) where
  settle-IsConsistent :
      (pass : Pass) (loop : Loop) (r : Round) (updated : Runtime)
      → IsTracked r.schedule
      → IsConsistent (settle pass loop r updated)
  unfolding settle
  settle-IsConsistent pass loop r updated k = record {
    tracked =
        Step-IsTracked (applied _ updated pass.applied_at)
          (Step-IsTracked (checked_in r.schedule pass.checked_in_at) k);
    same = unfold apply in refl;
    answers = forget_absent _ updated.targets;
  }

  answered-IsConsistent :
      (pass : Pass) (loop : Loop) (r : Round) (answer : Answer)
      → IsConsistent loop
      → Stands loop.runtime r.schedule
      → IsConsistent (loop_of (answered net backoff once pass loop r answer))
  unfolding answered loop_of
  answered-IsConsistent pass loop r (failed error) c (k, same) = elim (Bool-cases once) [
    | inl single ↦ rw single (record { tracked = k; same = same; answers = c.answers })
    | inr many ↦ rw many (record { tracked = k; same = same; answers = c.answers })
  ]
  answered-IsConsistent pass loop r (accepted updated) c (k, same) = elim (Bool-cases once) [
    | inl single ↦ rw single (settle-IsConsistent pass loop r updated k)
    | inr many ↦ rw many (settle-IsConsistent pass loop r updated k)
  ]

  rested-IsConsistent :
      (loop : Loop) (now : ℕ)
      → IsConsistent loop
      → IsConsistent (record loop { schedule = (reconcile loop.schedule now).0 })
  unfolding reconcile
  rested-IsConsistent loop now c = record {
    tracked = Step-IsTracked (reconciled loop.schedule now) c.tracked;
    same = c.same;
    answers = c.answers;
  }

  work-IsConsistent :
      (pass : Pass) (loop : Loop)
      → IsConsistent loop
      → IsConsistent (loop_of (work net backoff once pass loop loop.schedule))
  unfolding work loop_of
  work-IsConsistent pass loop c =
      let s = loop.schedule in
      let stands =
        round-Stands loop.runtime net pass.world pass.discover s (due s pass.now).0 loop.off_lan
          (due s pass.now).1 pass.now
          (λ t i. subst (λ r. In t r.targets) c.same (due-In s pass.now t i)) (c.tracked, c.same) in
      let r =
        round net pass.world pass.discover s (due s pass.now).0 (due s pass.now).1 pass.now
          loop.off_lan in
      if_both (λ n. IsConsistent (loop_of n)) pass.cancelled_during
        (returned none (record loop { schedule = r.schedule; off_lan = r.off_lan }))
        (answered net backoff once pass loop r (pass.answer r.report))
        (record { tracked = stands.0; same = stands.1; answers = c.answers })
        (answered-IsConsistent pass loop r (pass.answer r.report) c stands)

  run_pass-IsConsistent :
      (pass : Pass) (loop : Loop)
      → IsConsistent loop
      → IsConsistent (loop_of (run_pass net backoff once pass loop))
  unfolding run_pass loop_of
  run_pass-IsConsistent pass loop c =
      let rested = rested-IsConsistent loop pass.now c in
      let s = (reconcile loop.schedule pass.now).0 in
      let resting = record loop { schedule = s } in
      let idle = if once then returned none resting else sleeping (wait s pass.now) resting in
      let working = work net backoff once pass resting s in
      if_both (λ n. IsConsistent (loop_of n)) pass.cancelled_before (returned none loop)
        (if is_idle s pass.now then idle else working) c
        (if_both (λ n. IsConsistent (loop_of n)) (is_idle s pass.now) idle working
          (if_both (λ n. IsConsistent (loop_of n)) once (returned none resting)
            (sleeping (wait s pass.now) resting) rested rested)
          (work-IsConsistent pass resting rested))

  after_pass-IsConsistent :
      (go_on : Loop → Loop) (next : Next)
      → ((loop : Loop) → IsConsistent loop → IsConsistent (go_on loop))
      → IsConsistent (loop_of next)
      → IsConsistent (after_pass net backoff once go_on next)
  unfolding after_pass loop_of
  after_pass-IsConsistent go_on (sleeping duration loop) keeps c = keeps loop c
  after_pass-IsConsistent go_on (returned error loop) keeps c = c

  run_passes-keeps :
      (passes : List Pass) (loop : Loop)
      → IsConsistent loop
      → IsConsistent (run_passes net backoff once passes loop)
  unfolding run_passes
  run_passes-keeps [] loop c = c
  run_passes-keeps (pass ∷ rest) loop c =
      after_pass-IsConsistent (run_passes net backoff once rest)
        (run_pass net backoff once pass loop) (run_passes-keeps rest)
        (run_pass-IsConsistent pass loop c)

  -- However many passes the agent makes, and whatever it meets in them, its schedule is that of the
  -- configuration it works on: one deadline for each configured target and none for another, and no
  -- remembered answer, in the schedule or the runner, of a target that the server no longer sends.
  pub run_passes-IsConsistent :
      (stored : Option Runtime) (now phase : ℕ) (passes : List Pass)
      → IsConsistent (run_passes net backoff once passes (start stored now phase))
  run_passes-IsConsistent stored now phase passes =
      run_passes-keeps passes (start stored now phase) (start-IsConsistent stored now phase)
