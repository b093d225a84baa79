-- ===== src/Agent/Running.antt =====
-- internal/agent/agent.go: `Runner.Run`, pass by pass, and what a runner remembers between rounds.
-- A pass is a function of what it meets: the clock's readings, the network, the server's answer, the
-- cancellation of its context, and whether the state file could be written. The server's answer is
-- what `ReportContext` returns for a report. Log lines are left out.
pub mod Laws
pub mod Origin
use pulsitor_lan_agent.Base.{
  ℕ, zero, suc, ◌+◌, ◌-◌, ◌*◌, ◌/◌, ◌%◌, ◌^◌, ◌≤◌, ◌<◌, min, max, ◌≡◌, ◌≢◌, ◌↔◌, ◌⊎◌, inl, inr,
  refl, sym, ap, ap₂, subst, ◌∙◌, fun_ext, Bool, true, false, not, ◌&&◌, ◌||◌, Option, none, some,
  List, [], ◌∷◌, ◌++◌, map, arith, nat_beq, ltb, leb, if◌then◌else◌, ltb→lt, lt→ltb, leb→le, le→leb,
  leb_false→lt, ltb_false→le, nat_beq_iff, Bool-cases, Option-cases, is_some, &&-true, &&-intro, Eq,
  ◌==◌, nat_eq, list_beq, list_beq_iff, Text, text_eq, texts_eq, codes, beq_refl, beq→eq,
  beq_false→ne, ℤ, pos, negsuc, int_beq, int_beq_iff, int_eq, bits64, signed64, scale, Map, empty,
  flag, put, remove, put_self, put_ne, put_same, remove_ne, length, length-append, All, In,
  Distinct, keep, All_of_In, All-map, for_each, for_each-keeps, for_each-at, for_each-other, In-map,
  In-keep, keep-In, keep-true, keep-false, Distinct-keep, keep-absent, tests,
}
use pulsitor_lan_agent.Discover.Sweep
use pulsitor_lan_agent.Config.{NetText, Target, Runtime, target_eq, equal}
use pulsitor_lan_agent.Report.{Observation, Report}
use pulsitor_lan_agent.Schedule.{
  Schedule, new, apply, reconcile, due, check_in_due, completed_check_in, wait, live_ids,
}
use pulsitor_lan_agent.Agent.Probing.{World}
use pulsitor_lan_agent.Agent.Round.{Round, round}
use pulsitor_lan_agent.Agent.Backoff.{terminal_failure}

-- An error of `ReportContext`: a `report.ServerError`, or any other.
pub data ReportError : Type 0 where
  refusal : ℕ → Text → Text → ReportError
  unreachable : ReportError

pub data Answer : Type 0 where
  accepted : Runtime → Answer
  failed : ReportError → Answer

-- `ServerError.Terminal`, by the error's code.
unfoldable pub terminal : Text → Bool
terminal code = code == codes "agent_mismatch" || code == codes "signature_invalid"

-- `ServerError.Advice`, by the error's code.
unfoldable pub advice : Text → Text
advice code =
    if terminal code
    then codes
        "this agent's identity is no longer accepted; delete the state file and enrol again from Pulsitor"
    else if code == codes "timestamp_out_of_window"
    then codes "this machine's clock is too far from the server's; enable NTP time synchronisation"
    else if code == codes "token_invalid" || code == codes "token_missing"
    then codes
        "the enrollment token is unknown, expired or already used; issue a new one in Pulsitor"
    else []

pub is_terminal : ReportError → Bool
unfolding terminal
is_terminal (refusal status code message) = terminal code
is_terminal unreachable = false

-- The loop of `noteAnswers`, with whether anything in it was news.
unfoldable pub note_answers : List Observation → Map ℤ Bool → Map ℤ Bool × Bool
note_answers [] reported = (reported, false)
note_answers (o ∷ rest) reported =
    let (after_all, news) = note_answers rest (put reported o.id o.online) in
    (
      after_all,
      not (is_some (reported o.id))
          || (if flag (reported o.id) then not o.online else o.online)
          || news,
    )

unfoldable pub forget : Map ℤ Bool → List Target → Map ℤ Bool
forget reported targets = λ id. if is_some (live_ids targets empty id) then reported id else none

-- `state.Runtime`, the local variables of `Run`, and the runner's own two fields.
pub record Loop : Type 0 where
  pub runtime : Runtime
  pub schedule : Schedule
  pub failures : ℕ
  pub persisted : Runtime
  pub reported : Map ℤ Bool
  pub off_lan : Bool

pub default_runtime : Runtime
default_runtime = record {
  discovery_interval_seconds = pos 300;
  discovery_min_interval_seconds = pos 0;
  check_in_interval_seconds = pos 0;
  subnets = [];
  targets = [];
}

pub runtime_or_default : Option Runtime → Runtime
runtime_or_default none = default_runtime
runtime_or_default (some runtime) = runtime

-- The beginning of `Run`, with the stored configuration, the time and the agent's phase.
unfoldable pub start : Option Runtime → ℕ → ℕ → Loop
unfolding runtime_or_default
start stored now phase =
    let runtime = runtime_or_default stored in
    record {
      runtime = runtime;
      schedule = new runtime now phase;
      failures = 0;
      persisted = runtime;
      reported = empty;
      off_lan = false;
    }

-- What one pass meets.
pub record Pass : Type 0 where
  pub cancelled_before : Bool
  pub now : ℕ
  pub world : World
  pub discover : List Text → Option Sweep.Result
  pub cancelled_during : Bool
  pub answer : Report → Answer
  pub checked_in_at : ℕ
  pub applied_at : ℕ
  pub saved : Bool

-- The next pass begins after a wait, or `Run` returns.
pub data Next : Type 0 where
  sleeping : ℕ → Loop → Next
  returned : Option ReportError → Loop → Next

pub loop_of : Next → Loop
loop_of (sleeping duration loop) = loop
loop_of (returned error loop) = loop

-- A round that the server accepted.
pub settle : Pass → Loop → Round → Runtime → Loop
unfolding note_answers forget
settle pass loop r updated = record {
  runtime = updated;
  schedule = apply (completed_check_in r.schedule pass.checked_in_at) updated pass.applied_at;
  failures = 0;
  persisted =
      if not (equal (some updated) (some loop.persisted)) && pass.saved
      then updated
      else loop.persisted;
  reported = forget (note_answers r.report.observations loop.reported).0 updated.targets;
  off_lan = r.off_lan;
}

-- Whether a pass at this time has anything to send.
unfoldable pub is_idle : Schedule → ℕ → Bool
is_idle s now =
    let (discovery_due, targets) = due s now in
    not discovery_due && (nat_beq (length targets) 0 && not (check_in_due s now))

module _ (net : NetText) (backoff : ℕ → ℕ) (once : Bool) where
  -- What follows the call of `ReportContext`.
  answered : Pass → Loop → Round → Answer → Next
  unfolding is_terminal settle
  answered pass loop r (failed error) =
      let failures = if is_terminal error then terminal_failure else loop.failures + 1 in
      let next = record loop { schedule = r.schedule; failures = failures; off_lan = r.off_lan } in
      if once
      then returned (some error) (record next { failures = loop.failures })
      else sleeping (backoff failures) next
  answered pass loop r (accepted updated) =
      let next = settle pass loop r updated in if once then returned none next else sleeping 0 next

  -- A round, once there is something to do in it.
  work : Pass → Loop → Schedule → Next
  unfolding answered
  work pass loop s =
      let (discovery_due, targets) = due s pass.now in
      let r = round net pass.world pass.discover s discovery_due targets pass.now loop.off_lan in
      if pass.cancelled_during
      then returned none (record loop { schedule = r.schedule; off_lan = r.off_lan })
      else answered pass loop r (pass.answer r.report)

  -- One pass of the loop of `Run`.
  unfoldable pub run_pass : Pass → Loop → Next
  unfolding work is_idle
  run_pass pass loop =
      let s = (reconcile loop.schedule pass.now).0 in
      let rested = record loop { schedule = s } in
      if pass.cancelled_before
      then returned none loop
      else if is_idle s pass.now
      then (if once then returned none rested else sleeping (wait s pass.now) rested)
      else work pass rested s

  -- The loop of `Run` for as long as passes are given, or until it returns.
  after_pass : (Loop → Loop) → Next → Loop
  after_pass go_on (sleeping duration loop) = go_on loop
  after_pass go_on (returned error loop) = loop

  unfoldable pub run_passes : List Pass → Loop → Loop
  unfolding run_pass after_pass
  run_passes [] loop = loop
  run_passes (pass ∷ rest) loop = after_pass (run_passes rest) (run_pass pass loop)
