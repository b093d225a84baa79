-- ===== src/Examples/Processes.antt =====
-- A service of Windows that is asked to stop, and one whose last report is overtaken.
use pulsitor_lan_agent.Base.{◌≡◌, refl, true, false, nat_eq, text_eq, texts_eq, int_eq}
use pulsitor_lan_agent.Service.Windows.{
  stopped, start_pending, stop_pending, running, accepts_all, starting, working, over, idle,
  cancelling, Windows, send, code_of, begun, start, run, finish, leave, ask_stop, cancel,
  interrogate, answer, Reach, here, next,
}
use pulsitor_lan_agent.Service.Windows.Reports.{IsHonest, Reach-IsHonest}

abbrev up : Windows
up =
    let starts = send (record begun { main = starting }) start_pending 0 0 15000 in
    send (record starts { main = working }) running accepts_all 0 0

up_reached : Reach begun up
unfolding send
up_reached = next (next here (start begun refl)) (run _ refl)

abbrev stopping : Windows
stopping = send (record up { handler = cancelling }) stop_pending 0 0 45000

abbrev told : Windows
told = record stopping { handler = idle; cancelled = true }

-- It stops with an error.
abbrev down : Windows
down = send (record told { main = over true }) stopped 0 (code_of true) 0

down_reached : Reach begun down
unfolding send
down_reached =
    next
      (next (next (next up_reached (ask_stop up refl)) (cancel stopping refl))
        (finish told true refl))
      (leave _ true refl)

Reach-IsHonest_example : IsHonest down
Reach-IsHonest_example = Reach-IsHonest down_reached

-- The handler read the state before the last report and answers after it: the service manager hears
-- that a service is running which has stopped.
overtaken : (w : Windows) × (Reach begun w × ((w.main ≡ over false) × (w.last_state ≡ running)))
unfolding send
overtaken =
    let asked = next up_reached (interrogate up refl) in
    let ends = next (next asked (finish _ false refl)) (leave _ false refl) in
    (_, (next ends (answer _ running accepts_all refl), (refl, refl)))
