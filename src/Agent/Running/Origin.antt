-- ===== src/Agent/Running/Origin.antt =====
-- `Run` of internal/agent/agent.go: where its configuration, its stored one and its failures come
-- from.
use pulsitor_lan_agent.Base.{
  ℕ, ◌≡◌, ◌⊎◌, inl, inr, refl, Bool, true, not, ◌&&◌, Option, some, List, [], ◌∷◌, if_both,
  if_split, &&-true, nat_eq, text_eq, texts_eq, int_eq, In,
}
use pulsitor_lan_agent.Config.{NetText, Runtime, equal}
use pulsitor_lan_agent.Report.{Report}
use pulsitor_lan_agent.Schedule.{reconcile, due}
use pulsitor_lan_agent.Agent.Round.{Round, round}
use pulsitor_lan_agent.Agent.Running.{
  ReportError, Answer, accepted, failed, Loop, start, runtime_or_default, Pass, Next, sleeping,
  returned, loop_of, settle, answered, is_idle, work, run_pass, run_passes, after_pass,
}

-- The server accepted a report of this pass with this configuration.
abbrev pub IsAnswer : Pass → Runtime → Type 0
IsAnswer pass runtime = (report : Report) × (pass.answer report ≡ accepted runtime)

-- A report of this pass failed.
abbrev pub IsRefusal : Pass → Type 0
IsRefusal pass = (report : Report) × (error : ReportError) × (pass.answer report ≡ failed error)

-- What the agent works with stems from what it started with or from one of the passes.
pub record HasOrigin (first : Runtime) (passes : List Pass) (loop : Loop) : Type 0 where
  pub given : (loop.runtime ≡ first) ⊎ ((pass : Pass) × In pass passes × IsAnswer pass loop.runtime)
  pub stored :
      (loop.persisted ≡ first)
      ⊎ ((pass : Pass) × In pass passes × (pass.saved ≡ true) × IsAnswer pass loop.persisted)
  pub blamed : (loop.failures ≡ 0) ⊎ ((pass : Pass) × In pass passes × IsRefusal pass)

module _ (net : NetText) (backoff : ℕ → ℕ) (once : Bool) (first : Runtime)
    (passes : List Pass) where
  abbrev Origin : Loop → Type 0
  Origin = HasOrigin first passes

  settle-HasOrigin :
      (pass : Pass) (loop : Loop) (r : Round) (updated : Runtime)
      → In pass passes
      → IsAnswer pass updated
      → Origin loop
      → Origin (settle pass loop r updated)
  unfolding settle
  settle-HasOrigin pass loop r updated i answer h = record {
    given = inr (pass, i, answer);
    stored =
        let Stored = λ (kept : Runtime).
          (kept ≡ first)
          ⊎ ((pass : Pass) × In pass passes × (pass.saved ≡ true) × IsAnswer pass kept) in
        if_split Stored (not (equal (some updated) (some loop.persisted)) && pass.saved) _ _
          (λ e. inr (pass, i, (&&-true _ pass.saved e).1, answer)) (λ e. h.stored);
    blamed = inl refl;
  }

  answered-HasOrigin :
      (pass : Pass) (loop : Loop) (r : Round) (report : Report) (answer : Answer)
      → In pass passes
      → pass.answer report ≡ answer
      → Origin loop
      → Origin (loop_of (answered net backoff once pass loop r answer))
  unfolding answered loop_of
  answered-HasOrigin pass loop r report (failed error) i e h =
      let blame = inr (pass, i, (report, error, e)) in
      if_both (λ n. Origin (loop_of n)) once _ _
        (record { given = h.given; stored = h.stored; blamed = h.blamed })
        (record { given = h.given; stored = h.stored; blamed = blame })
  answered-HasOrigin pass loop r report (accepted updated) i e h =
      let settled = settle-HasOrigin pass loop r updated i (report, e) h in
      if_both (λ n. Origin (loop_of n)) once _ _ settled settled

  work-HasOrigin :
      (pass : Pass) (loop : Loop)
      → In pass passes
      → Origin loop
      → Origin (loop_of (work net backoff once pass loop loop.schedule))
  unfolding work loop_of
  work-HasOrigin pass loop i h =
      let s = loop.schedule in
      let r =
        round net pass.world pass.discover s (due s pass.now).0 (due s pass.now).1 pass.now
          loop.off_lan in
      if_both (λ n. Origin (loop_of n)) pass.cancelled_during _ _
        (record { given = h.given; stored = h.stored; blamed = h.blamed })
        (answered-HasOrigin pass loop r r.report (pass.answer r.report) i refl h)

  run_pass-HasOrigin :
      (pass : Pass) (loop : Loop)
      → In pass passes
      → Origin loop
      → Origin (loop_of (run_pass net backoff once pass loop))
  unfolding run_pass loop_of
  run_pass-HasOrigin pass loop i h =
      let s = (reconcile loop.schedule pass.now).0 in
      let rested : Origin (record loop { schedule = s }) = record {
        given = h.given;
        stored = h.stored;
        blamed = h.blamed;
      } in
      if_both (λ n. Origin (loop_of n)) pass.cancelled_before _ _ h
        (if_both (λ n. Origin (loop_of n)) (is_idle s pass.now) _ _
          (if_both (λ n. Origin (loop_of n)) once _ _ rested rested)
          (work-HasOrigin pass (record loop { schedule = s }) i rested))

  after_pass-HasOrigin :
      (go_on : Loop → Loop) (next : Next)
      → ((loop : Loop) → Origin loop → Origin (go_on loop))
      → Origin (loop_of next)
      → Origin (after_pass net backoff once go_on next)
  unfolding after_pass loop_of
  after_pass-HasOrigin go_on (sleeping duration loop) keeps h = keeps loop h
  after_pass-HasOrigin go_on (returned error loop) keeps h = h

  run_passes-keeps :
      (some_passes : List Pass) (loop : Loop)
      → ((pass : Pass) → In pass some_passes → In pass passes)
      → Origin loop
      → Origin (run_passes net backoff once some_passes loop)
  unfolding run_passes
  run_passes-keeps [] loop all h = h
  run_passes-keeps (pass ∷ rest) loop all h =
      after_pass-HasOrigin (run_passes net backoff once rest) (run_pass net backoff once pass loop)
        (λ l. run_passes-keeps rest l (λ p i. all p (inr i)))
        (run_pass-HasOrigin pass loop (all pass (inl refl)) h)

start-HasOrigin :
    (stored : Option Runtime) (now phase : ℕ) (passes : List Pass)
    → HasOrigin (runtime_or_default stored) passes (start stored now phase)
unfolding start
start-HasOrigin stored now phase passes = record {
  given = inl refl;
  stored = inl refl;
  blamed = inl refl;
}

-- Whatever the passes meet, the agent works on the configuration it started with or on one that the
-- server accepted a report of a pass with; what it takes for stored is the first one or one that
-- came back in a pass which could save it; and it counts failures only after a report of a pass
-- failed.
pub run_passes-HasOrigin :
    (net : NetText) (backoff : ℕ → ℕ) (once : Bool) (stored : Option Runtime) (now phase : ℕ)
    (passes : List Pass)
    → HasOrigin
        (runtime_or_default stored)
        passes
        (run_passes net backoff once passes (start stored now phase))
run_passes-HasOrigin net backoff once stored now phase passes =
    run_passes-keeps net backoff once (runtime_or_default stored) passes passes
      (start stored now phase) (λ pass i. i) (start-HasOrigin stored now phase passes)
