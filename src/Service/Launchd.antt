-- ===== src/Service/Launchd.antt =====
-- internal/service/launchd.go: the job that launchd is given, and its start, stop and query.
-- The machine is the argument `mac`: whether the file of the job is there, and what the command
-- `launchctl` answers.
use pulsitor_lan_agent.Base.{
  ℕ, ◌⊎◌, inl, inr, Bool, true, false, not, ◌&&◌, ◌||◌, Option, none, some, List, [], ◌∷◌, ◌++◌,
  if◌then◌else◌, ◌==◌, nat_eq, Text, text_eq, texts_eq, codes, int_eq, trim_space, contains_text,
  split_at,
}
use pulsitor_lan_agent.Service.{Definition, Status}

abbrev pub label : Text
label = codes "com.pulsitor.lan-agent"

-- The values of the property list; its keys are strings.
pub data Value : Type 0 where
  key : Text → Value
  string : Text → Value
  integer : ℕ → Value
  yes : Value
  array : List Text → Value

-- `plistDict.add`.
unfoldable pub add : Text → Value → List Value → List Value
add name value entries = entries ++ (key name ∷ value ∷ [])

unfoldable pub add_logs : Text → List Value → List Value
unfolding add
add_logs log_path entries =
    if log_path == []
    then entries
    else add (codes "StandardErrorPath") (string log_path)
        (add (codes "StandardOutPath") (string log_path) entries)

-- The dictionary that `plist` hands to the encoder.
unfoldable pub plist : Definition → List Value
unfolding add_logs add
plist config =
    let job = add (codes "Label") (string label) [] in
    let run = add (codes "ProgramArguments") (array (config.executable ∷ config.arguments)) job in
    let load = add (codes "RunAtLoad") yes run in
    let alive = add (codes "KeepAlive") yes load in
    let throttle = add (codes "ThrottleInterval") (integer 10) alive in
    let process = add (codes "ProcessType") (string (codes "Background")) throttle in
    add_logs config.log_path process

-- What `os.Stat` says of the file of the job.
pub data Presence : Type 0 where
  there : Presence
  missing : Presence
  unknown : Presence

pub data ServiceError : Type 0 where
  not_installed : ServiceError
  stat_failed : ServiceError
  command_failed : List Text → ServiceError

-- A machine: the file of the job, and `launchctl`, with its output and whether it succeeds.
pub record Mac (W : Type 0) : Type 0 where
  pub domain : Text
  pub path : Text
  pub label : Text
  pub presence : W → Presence
  pub command : List Text → W → (Text × Bool) × W

module _ {W : Type 0} (mac : Mac W) where
  unfoldable pub launch_domain : Text
  launch_domain = if not (mac.domain == []) then mac.domain else codes "system"

  unfoldable pub target : Text
  unfolding launch_domain
  target = launch_domain ++ (codes "/" ++ mac.label)

  unfoldable pub installed : Presence → Option ServiceError
  installed there = none
  installed missing = some not_installed
  installed unknown = some stat_failed

  unfoldable pub failure : List Text → Bool → Option ServiceError
  failure arguments true = none
  failure arguments false = some (command_failed arguments)

  -- The last command of `start`.
  unfoldable pub kickstart : W → Option ServiceError × W
  unfolding failure target
  kickstart w =
      let ((output, ok), after) = mac.command (codes "kickstart" ∷ target ∷ []) w in
      (failure (codes "kickstart" ∷ target ∷ []) ok, after)

  unfoldable pub bootstrap : W → Option ServiceError × W
  unfolding kickstart launch_domain
  bootstrap w =
      let arguments = codes "bootstrap" ∷ launch_domain ∷ mac.path ∷ [] in
      let ((output, ok), after) = mac.command arguments w in
      if ok then kickstart after else (some (command_failed arguments), after)

  unfoldable pub start_enabled : W → Option ServiceError × W
  unfolding kickstart bootstrap target
  start_enabled w =
      let ((output, ok), after) = mac.command (codes "print" ∷ target ∷ []) w in
      if ok then kickstart after else bootstrap after

  unfoldable pub start_installed : Option ServiceError → W → Option ServiceError × W
  unfolding start_enabled target
  start_installed (some e) w = (some e, w)
  start_installed none w =
      let ((output, ok), after) = mac.command (codes "enable" ∷ target ∷ []) w in
      if ok
      then start_enabled after
      else (some (command_failed (codes "enable" ∷ target ∷ [])), after)

  -- `launchdService.start`: `none` is the nil error.
  unfoldable pub start : W → Option ServiceError × W
  unfolding start_installed installed
  start w = start_installed (installed (mac.presence w)) w

  -- `launchctl` could not unload the job.
  unfoldable pub stop_refused : W → Option ServiceError × W
  unfolding target contains_text
  stop_refused w =
      let ((output, ok), after) = mac.command (codes "print" ∷ target ∷ []) w in
      if not ok && contains_text output (codes "Could not find service")
      then (none, after)
      else (some (command_failed (codes "bootout" ∷ target ∷ [])), after)

  unfoldable pub stop_installed : Option ServiceError → W → Option ServiceError × W
  unfolding stop_refused target
  stop_installed (some e) w = (some e, w)
  stop_installed none w =
      let ((output, ok), after) = mac.command (codes "bootout" ∷ target ∷ []) w in
      if ok then (none, after) else stop_refused after

  -- `launchdService.stop`.
  unfoldable pub stop : W → Option ServiceError × W
  unfolding stop_installed installed
  stop w = stop_installed (installed (mac.presence w)) w

  unfoldable pub says_running : List Text → Bool
  unfolding trim_space
  says_running [] = false
  says_running (line ∷ rest) = trim_space line == codes "state = running" || says_running rest

  unfoldable pub query_printed : Text → Bool → Status ⊎ ServiceError
  unfolding says_running split_at contains_text target
  query_printed output ok =
      let running = says_running (split_at 10 output) in
      if not ok
      then (if contains_text output (codes "Could not find service")
          then inl (record { installed = true; running = false; detail = codes "not loaded" })
          else inr (command_failed (codes "print" ∷ target ∷ [])))
      else inl (record {
        installed = true;
        running = running;
        detail = if running then codes "loaded, running" else codes "loaded";
      })

  -- `launchdService.query`, when the file of the job is there or not.
  unfoldable pub query_installed : Presence → W → (Status ⊎ ServiceError) × W
  unfolding query_printed target
  query_installed missing w = (inl (record { installed = false; running = false; detail = [] }), w)
  query_installed unknown w = (inr stat_failed, w)
  query_installed there w =
      let ((output, ok), after) = mac.command (codes "print" ∷ target ∷ []) w in
      (query_printed output ok, after)

  unfoldable pub query : W → (Status ⊎ ServiceError) × W
  unfolding query_installed
  query w = query_installed (mac.presence w) w
