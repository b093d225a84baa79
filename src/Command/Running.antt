-- ===== src/Command/Running.antt =====
-- The commands of cmd/pulsitor-lan-agent/main.go: a run in the foreground, and the `service` actions.
-- The parsing of flags, the signals and the printing of the log are left out.
pub mod Installing
pub mod Uninstalling
use pulsitor_lan_agent.Base.{
  ℕ, zero, suc, ◌+◌, ◌-◌, ◌*◌, ◌/◌, ◌%◌, ◌^◌, ◌≤◌, ◌<◌, min, max, ◌≡◌, ◌≢◌, ◌↔◌, ◌⊎◌, inl, inr,
  refl, sym, ap, ap₂, subst, ◌∙◌, fun_ext, Bool, true, false, not, ◌&&◌, ◌||◌, Option, none, some,
  List, [], ◌∷◌, ◌++◌, map, arith, nat_beq, ltb, leb, if◌then◌else◌, ltb→lt, lt→ltb, leb→le, le→leb,
  leb_false→lt, ltb_false→le, nat_beq_iff, Bool-cases, if_both, if_split, Option-cases, is_some,
  &&-true, &&-intro, Eq, ◌==◌, nat_eq, list_beq, list_beq_iff, Text, text_eq, texts_eq, codes,
  beq_refl, beq→eq, beq_false→ne, ℤ, pos, negsuc, int_beq, int_beq_iff, int_eq, bits64, signed64,
  scale, Map, Disk, content, take, empty, flag, put, remove, put_self, put_ne, put_same, remove_ne,
  remove_self, length, length-append, All, In, Distinct, keep, All_of_In, All-map, for_each,
  for_each-keeps, for_each-at, for_each-other, In-map, In-keep, keep-In, keep-true, keep-false,
  Distinct-keep, keep-absent, tests, is_space, trim_left, trim_onto, trim_right, trim_space,
  cut_prefix, starts_with, contains_text, put_first, split_at,
}
use pulsitor_lan_agent.Config.{Identity, State}
use pulsitor_lan_agent.Logging.{LogError, Opening, Sink, new_sink, default_max_bytes}
use pulsitor_lan_agent.Report.Client.{Request}
use pulsitor_lan_agent.Service.{Definition, Status, show_status, name}
use pulsitor_lan_agent.Command.{
  Options, Machine, Refused, Settled, settled, refused, resolve_token, client, Enrolment,
  enrolled_state,
}

-- What the service manager of the platform answers.
pub data Managed : Type 0 where
  done : Managed
  absent : Managed
  broken : Managed

-- What a command meets besides the state file: its flags as parsed, the files it opens or copies, and
-- the service manager.
pub record Surroundings : Type 0 where
  pub machine : Machine
  pub parse_run : List Text → Option Options
  pub parse_install : List Text → Option Options
  pub parse_uninstall : List Text → Option Options
  pub makes_log_directory : Bool
  pub opening : Opening
  pub executable : Option Text
  pub install_binary : Text → Text → Option Text
  pub install : Definition → Managed
  pub uninstall : Managed
  pub start : Managed
  pub stop : Managed
  pub query : Option Status
  pub removes_state : Bool

pub data Failure : Type 0 where
  bad_flags : Failure
  stopped_by : Refused → Failure
  no_log : LogError → Failure
  no_executable : Failure
  not_copied : Failure
  not_managed : Failure
  not_installed : Failure
  not_removed : Failure
  no_action : Failure
  unknown_action : Text → Failure

-- How a command ends: with lines on standard output, or by handing over to the runner or to the
-- service manager.
pub data Ending : Type 0 where
  failed : Failure → Ending
  printed : List Text → Ending
  works_as : State → Bool → Ending
  installed : Definition → Ending

pub record Ran : Type 0 where
  pub ending : Ending
  pub sent : List Request
  pub disk : Disk

abbrev pub default_server : Text
default_server = codes "https://external-services.pulsitor.com"

unfoldable pub quiet : Ending → Disk → Ran
quiet ending disk = record { ending = ending; sent = []; disk = disk }

-- `report.New`.
unfoldable pub base_url : Options → Text
unfolding trim_right
base_url o = trim_right (λ c. c == 47) o.server

unfoldable pub code_of : State → Text
code_of s = elim s.identity [ none ↦ [] | some identity ↦ identity.code ]

-- The arguments that an installed service is started with.
unfoldable pub service_arguments : Options → List Text
unfolding base_url
service_arguments o =
    (if not (base_url o == default_server) then codes "--server" ∷ base_url o ∷ [] else [])
    ++ ((codes "--state" ∷ o.state_path ∷ [])
        ++ ((if not (o.log_path == []) then codes "--log-file" ∷ o.log_path ∷ [] else [])
            ++ (if o.verbose then codes "--verbose" ∷ [] else [])))

module _ (s : Surroundings) where
  -- `resolveToken`, then `client`.
  unfoldable pub prepared : Disk → Settled Options → Settled Options
  unfolding client
  prepared disk (refused r) = refused r
  prepared disk (settled o) = client s.machine o

  unfoldable pub enrolled : Options → Disk → Enrolment
  unfolding enrolled_state base_url
  enrolled o disk = enrolled_state s.machine (base_url o) o.state_path o.token disk

  unfoldable pub identity_ready : Options → Enrolment → Settled State → Ran
  unfolding code_of
  identity_ready o e (refused r) = record {
    ending = failed (stopped_by r);
    sent = e.sent;
    disk = e.disk;
  }
  identity_ready o e (settled state) = record {
    ending =
        if o.enroll_only
        then printed ((codes "enrolled as " ++ code_of state) ∷ [])
        else works_as state o.once;
    sent = e.sent;
    disk = e.disk;
  }

  unfoldable pub logging_to : Options → (Option LogError × Sink) × Disk → Ran
  unfolding enrolled identity_ready quiet
  logging_to o ((some e, sink), disk) = quiet (failed (no_log e)) disk
  logging_to o ((none, sink), disk) = let e = enrolled o disk in identity_ready o e e.result

  unfoldable pub run_prepared : Disk → Settled Options → Ran
  unfolding logging_to new_sink quiet
  run_prepared disk (refused r) = quiet (failed (stopped_by r)) disk
  run_prepared disk (settled o) =
      logging_to o
        (new_sink s.makes_log_directory s.opening o.log_path (pos default_max_bytes) disk)

  unfoldable pub run_parsed : Disk → Option Options → Ran
  unfolding run_prepared prepared resolve_token quiet
  run_parsed disk none = quiet (failed bad_flags) disk
  run_parsed disk (some o) =
      if o.show_version
      then quiet (printed (s.machine.version ∷ [])) disk
      else run_prepared disk (prepared disk (resolve_token s.machine disk o))

  -- `runCommand`, up to the call of `Runner.Run`.
  unfoldable pub run_command : List Text → Disk → Ran
  unfolding run_parsed
  run_command arguments disk = run_parsed disk (s.parse_run arguments)

  unfoldable pub hand_over : Definition → Managed → Ending
  hand_over definition done = installed definition
  hand_over definition absent = failed not_managed
  hand_over definition broken = failed not_managed

  unfoldable pub copied : Options → Option Text → Ending
  unfolding hand_over service_arguments
  copied o none = failed not_copied
  copied o (some binary) =
      let definition : Definition = record {
        executable = binary;
        arguments = service_arguments o;
        log_path = o.log_path;
      } in
      hand_over definition (s.install definition)

  unfoldable pub located : Options → Option Text → Ending
  unfolding copied
  located o none = failed no_executable
  located o (some running) = copied o (s.install_binary running o.exec_path)

  unfoldable pub install_enrolled : Options → Enrolment → Settled State → Ran
  unfolding located
  install_enrolled o e (refused r) = record {
    ending = failed (stopped_by r);
    sent = e.sent;
    disk = e.disk;
  }
  install_enrolled o e (settled state) = record {
    ending = located o s.executable;
    sent = e.sent;
    disk = e.disk;
  }

  unfoldable pub install_prepared : Disk → Settled Options → Ran
  unfolding install_enrolled enrolled quiet
  install_prepared disk (refused r) = quiet (failed (stopped_by r)) disk
  install_prepared disk (settled o) = let e = enrolled o disk in install_enrolled o e e.result

  unfoldable pub install_parsed : Disk → Option Options → Ran
  unfolding install_prepared prepared resolve_token quiet
  install_parsed disk none = quiet (failed bad_flags) disk
  install_parsed disk (some o) =
      install_prepared disk (prepared disk (resolve_token s.machine disk o))

  -- `installService`.
  unfoldable pub install_service : List Text → Disk → Ran
  unfolding install_parsed
  install_service arguments disk = install_parsed disk (s.parse_install arguments)

  -- The deletion of the stored identity; a missing file is no error.
  unfoldable pub purged : Text → Disk → Option Text → Ran
  unfolding quiet
  purged path disk none = quiet (printed []) disk
  purged path disk (some raw) =
      if s.removes_state
      then quiet (printed []) (remove disk path)
      else quiet (failed not_removed) disk

  unfoldable pub uninstalled : Options → Disk → Managed → Ran
  unfolding purged quiet
  uninstalled o disk broken = quiet (failed not_managed) disk
  uninstalled o disk done =
      if not o.purge then quiet (printed []) disk else purged o.state_path disk (disk o.state_path)
  uninstalled o disk absent =
      if not o.purge then quiet (printed []) disk else purged o.state_path disk (disk o.state_path)

  unfoldable pub uninstall_parsed : Disk → Option Options → Ran
  unfolding uninstalled quiet
  uninstall_parsed disk none = quiet (failed bad_flags) disk
  uninstall_parsed disk (some o) = uninstalled o disk s.uninstall

  -- `uninstallService`; the lines it prints are left out.
  unfoldable pub uninstall_service : List Text → Disk → Ran
  unfolding uninstall_parsed
  uninstall_service arguments disk = uninstall_parsed disk (s.parse_uninstall arguments)

  unfoldable pub announce : Managed → Text → Ending
  announce absent said = failed not_installed
  announce broken said = failed not_managed
  announce done said = printed ((name ++ (codes " " ++ said)) ∷ [])

  unfoldable pub status_line : Option Status → Ending
  unfolding show_status
  status_line none = failed not_managed
  status_line (some status) = printed (show_status status ∷ [])

  -- `serviceCommand`.
  unfoldable pub service_command : List Text → Disk → Ran
  unfolding install_service uninstall_service announce status_line quiet
  service_command [] disk = quiet (failed no_action) disk
  service_command (action ∷ rest) disk =
      if action == codes "install"
      then install_service rest disk
      else if action == codes "uninstall"
      then uninstall_service rest disk
      else if action == codes "start"
      then quiet (announce s.start (codes "started")) disk
      else if action == codes "stop"
      then quiet (announce s.stop (codes "stopped")) disk
      else if action == codes "status"
      then quiet (status_line s.query) disk
      else quiet (failed (unknown_action action)) disk

  -- `main1`.
  unfoldable pub main1 : List Text → Disk → Ran
  unfolding service_command run_command quiet
  main1 [] disk = run_command [] disk
  main1 (first ∷ rest) disk =
      if first == codes "service"
      then service_command rest disk
      else if first == codes "version"
      then quiet (printed (s.machine.version ∷ [])) disk
      else run_command (first ∷ rest) disk
