-- ===== src/Examples/Services.antt =====
-- The command line of a service, and a job on a machine with launchd.
use pulsitor_lan_agent.Base.{
  ◌++◌, ◌≡◌, ◌≢◌, refl, Bool, true, false, not, ◌&&◌, ◌||◌, none, List, [], ◌∷◌, arith,
  if◌then◌else◌, &&-true, ◌==◌, nat_eq, list_beq, Text, text_eq, texts_eq, codes, int_eq, All,
}
use pulsitor_lan_agent.Service.{command_line}
use pulsitor_lan_agent.Service.Words.{Readable, command_line_injective}
use pulsitor_lan_agent.Service.Launchd.{
  there, Mac, target, launch_domain, start, start_installed, start_enabled, bootstrap, kickstart,
  failure, installed, stop, stop_installed,
}

is_plain : (text : Text) → Bool
is_plain [] = true
is_plain (c ∷ rest) = not (c == 92 || (c == 10 || c == 13)) && is_plain rest

are_plain : List Text → Bool
are_plain [] = true
are_plain (text ∷ rest) = is_plain text && are_plain rest

plain_text : (text : Text) → is_plain text ≡ true → All (λ c. (c ≢ 92) × ((c ≢ 10) × (c ≢ 13))) text
unfolding is_plain
plain_text [] h = tt
plain_text (c ∷ rest) h =
    let (one, others) = &&-true (not (c == 92 || (c == 10 || c == 13))) (is_plain rest) h in
    ((λ e. ground arith, (λ e. ground arith, λ e. ground arith)), plain_text rest others)

plain_texts : (texts : List Text) → are_plain texts ≡ true → Readable texts
unfolding are_plain
plain_texts [] h = tt
plain_texts (text ∷ rest) h =
    let (one, others) = &&-true (is_plain text) (are_plain rest) h in
    (plain_text text one, plain_texts rest others)

abbrev arguments : List Text
arguments = codes "--state" ∷ codes "/a \"b\"/s" ∷ [] ∷ []

-- The same words, one of them joined from two parts.
abbrev again : List Text
again = (codes "--sta" ++ codes "te") ∷ codes "/a \"b\"/s" ∷ [] ∷ []

same_line : command_line (codes "/bin/x y") arguments ≡ command_line (codes "/bin/x y") again
same_line = refl

command_line_injective_example : (codes "/bin/x y" ≡ codes "/bin/x y") × (arguments ≡ again)
unfolding are_plain is_plain
command_line_injective_example =
    command_line_injective (codes "/bin/x y") (codes "/bin/x y") arguments again
      (plain_texts (codes "/bin/x y" ∷ arguments) refl)
      (plain_texts (codes "/bin/x y" ∷ again) refl) same_line

-- A job is loaded or not, and runs only while it is loaded.
data Job : Type 0 where
  unloaded : Job
  idle : Job
  busy : Job

is_loaded : Job → Bool
is_loaded unloaded = false
is_loaded idle = true
is_loaded busy = true

is_busy : Job → Bool
is_busy unloaded = false
is_busy idle = false
is_busy busy = true

described : Job → Text
described unloaded = codes "Could not find service"
described idle = codes "state = waiting"
described busy = codes "a\n\tstate = running\n"

awake : Job → Job
awake unloaded = unloaded
awake idle = busy
awake busy = busy

loaded_job : Job → Job
loaded_job unloaded = idle
loaded_job idle = idle
loaded_job busy = busy

run_launchctl : Text → Job → (Text × Bool) × Job
unfolding is_loaded described awake loaded_job
run_launchctl verb job =
    if verb == codes "print"
    then ((described job, is_loaded job), job)
    else if verb == codes "kickstart"
    then (([], is_loaded job), awake job)
    else if verb == codes "bootout"
    then (([], is_loaded job), unloaded)
    else if verb == codes "bootstrap"
    then (([], true), loaded_job job)
    else (([], true), job)

launchctl : List Text → Job → (Text × Bool) × Job
unfolding run_launchctl
launchctl [] job = (([], false), job)
launchctl (verb ∷ rest) job = run_launchctl verb job

abbrev mac : Mac Job
mac = record {
  domain = [];
  path = codes "/p";
  label = codes "l";
  presence = λ job. there;
  command = launchctl;
}

started : (start mac unloaded).0 ≡ none
unfolding start start_installed start_enabled bootstrap kickstart failure installed target
    launch_domain launchctl run_launchctl is_loaded described awake loaded_job list_beq
started = refl

stopped : (stop mac busy).0 ≡ none
unfolding stop stop_installed installed target launch_domain launchctl run_launchctl is_loaded
    list_beq
stopped = refl
