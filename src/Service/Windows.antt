-- ===== src/Service/Windows.antt =====
-- internal/service/service_windows.go: a process that runs as a service of Windows, and a stop that
-- waits. The main thread and the handler of the service manager take turns, one report at a time,
-- as the lock lets them; the handler is called for one request after the other.
pub mod Reports
use pulsitor_lan_agent.Base.{
  ℕ, zero, suc, ◌+◌, ◌-◌, ◌*◌, ◌/◌, ◌%◌, ◌^◌, ◌≤◌, ◌<◌, min, max, ◌≡◌, ◌≢◌, ◌↔◌, ◌⊎◌, inl, inr,
  refl, sym, ap, ap₂, subst, ◌∙◌, fun_ext, Bool, true, false, not, ◌&&◌, ◌||◌, Option, none, some,
  List, [], ◌∷◌, ◌++◌, map, arith, nat_beq, ltb, leb, if◌then◌else◌, ltb→lt, lt→ltb, leb→le, le→leb,
  leb_false→lt, ltb_false→le, nat_beq_iff, Bool-cases, if_both, if_split, Option-cases, is_some,
  &&-true, &&-intro, Eq, ◌==◌, nat_eq, list_beq, list_beq_iff, Text, text_eq, texts_eq, codes,
  beq_refl, beq→eq, beq_false→ne, ℤ, pos, negsuc, int_beq, int_beq_iff, int_eq, bits64, signed64,
  scale, Map, Disk, content, take, empty, flag, put, remove, put_self, put_ne, put_same, remove_ne,
  remove_self, length, length-append, All, In, Distinct, keep, All_of_In, All-map, for_each,
  for_each-keeps, for_each-at, for_each-other, In-map, In-keep, keep-In, keep-true, keep-false,
  Distinct-keep, keep-absent, tests, is_space, trim_left, trim_onto, trim_right, trim_right_stable,
  trim_space, cut_prefix, starts_with, contains_text, put_first, split_at,
}
use pulsitor_lan_agent.Service.{Status}

abbrev pub stopped : ℕ
stopped = 1

abbrev pub start_pending : ℕ
start_pending = 2

abbrev pub stop_pending : ℕ
stop_pending = 3

abbrev pub running : ℕ
running = 4

-- Stop, shutdown and pre-shutdown are accepted.
abbrev pub accepts_all : ℕ
accepts_all = 1 + 4 + 256

-- `serviceStatus`, without the fields that never change.
pub record ServiceStatus : Type 0 where
  pub state : ℕ
  pub accepted : ℕ
  pub exit_code : ℕ
  pub wait_hint : ℕ

-- Where `serviceMain` stands; `ended` and `over` say whether the work ended with an error.
pub data Main : Type 0 where
  registered : Main
  starting : Main
  working : Main
  ended : Bool → Main
  over : Bool → Main

-- Where `serviceControl` stands; `saw` has what it read of the last report.
pub data Handler : Type 0 where
  idle : Handler
  cancelling : Handler
  saw : ℕ → ℕ → Handler

-- The variables of the package, whether the context of `Run` and the one made from it are done, and
-- what was sent to the service manager, the latest first.
pub record Windows : Type 0 where
  pub main : Main
  pub handler : Handler
  pub last_state : ℕ
  pub last_accepted : ℕ
  pub cancelled : Bool
  pub parent_done : Bool
  pub sent : List ServiceStatus

-- `report` and `reportStopped`.
unfoldable pub send : Windows → ℕ → ℕ → ℕ → ℕ → Windows
send w state accepted exit_code wait_hint = record w {
  last_state = state;
  last_accepted = accepted;
  sent =
      record { state = state; accepted = accepted; exit_code = exit_code; wait_hint = wait_hint }
      ∷ w.sent;
}

unfoldable pub code_of : Bool → ℕ
code_of fails = if fails then 1 else 0

-- The process when the handler has been registered.
abbrev pub begun : Windows
begun = record {
  main = registered;
  handler = idle;
  last_state = 0;
  last_accepted = 0;
  cancelled = false;
  parent_done = false;
  sent = [];
}

-- What the end of the context of `Run` does: the one that the work is given is made from it.
pub interrupted : Windows → Windows
interrupted w = record w { parent_done = true; cancelled = true }

-- One step of a thread, or the end of the context of `Run` (a signal, in main.go), which ends the
-- context of the work with it.
pub data Step : Windows → Windows → Type 0 where
  start :
      (w : Windows)
      → w.main ≡ registered
      → Step w (send (record w { main = starting }) start_pending 0 0 15000)
  run :
      (w : Windows)
      → w.main ≡ starting
      → Step w (send (record w { main = working }) running accepts_all 0 0)
  finish :
      (w : Windows) (fails : Bool) → w.main ≡ working → Step w (record w { main = ended fails })
  leave :
      (w : Windows) (fails : Bool)
      → w.main ≡ ended fails
      → Step w (send (record w { main = over fails }) stopped 0 (code_of fails) 0)
  ask_stop :
      (w : Windows)
      → w.handler ≡ idle
      → Step w (send (record w { handler = cancelling }) stop_pending 0 0 45000)
  cancel :
      (w : Windows)
      → w.handler ≡ cancelling
      → Step w (record w { handler = idle; cancelled = true })
  interrogate :
      (w : Windows)
      → w.handler ≡ idle
      → Step w (record w { handler = saw w.last_state w.last_accepted })
  answer :
      (w : Windows) (state accepted : ℕ)
      → w.handler ≡ saw state accepted
      → Step w (send (record w { handler = idle }) state accepted 0 0)
  interrupt : (w : Windows) → Step w (interrupted w)

pub data Reach (s : Windows) : Windows → Type 0 where
  here : Reach s s
  next : {t u : Windows} → Reach s t → Step t u → Reach s u

pub data StopError : Type 0 where
  not_sent : StopError
  too_long : StopError

-- The loop of `stop`: what each query finds until the minute is over.
unfoldable pub wait_stopped : List (Option ℕ) → Option StopError
wait_stopped [] = some too_long
wait_stopped (none ∷ rest) = none
wait_stopped (some state ∷ rest) =
    let later = wait_stopped rest in if state == stopped then none else later

-- `stop`: whether the control was sent, or else the service was not active.
unfoldable pub stop : Bool → Bool → List (Option ℕ) → Option StopError
unfolding wait_stopped
stop is_sent not_active polls =
    let waited = wait_stopped polls in
    if is_sent then waited else if not_active then none else some not_sent

-- `stateName`, where the text of a number is the argument `decimal`.
unfoldable pub state_name : (ℕ → Text) → ℕ → Text
state_name decimal state =
    if state == stopped
    then codes "STOPPED"
    else if state == start_pending
    then codes "START_PENDING"
    else if state == stop_pending
    then codes "STOP_PENDING"
    else if state == running
    then codes "RUNNING"
    else codes "state " ++ decimal state

-- `Query` of a service that is installed and answers.
unfoldable pub query_state : (ℕ → Text) → ℕ → Status
unfolding state_name
query_state decimal state = record {
  installed = true;
  running = state == running;
  detail = state_name decimal state;
}
