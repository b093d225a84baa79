-- ===== src/Command/Running/Installing.antt =====
-- `installService` of cmd/pulsitor-lan-agent/main.go: what the installed service finds when it
-- starts.
use pulsitor_lan_agent.Base.{
  ◌≡◌, ◌≢◌, refl, sym, ap, subst, false, not, Option, none, some, List, [], ◌∷◌, ◌++◌, arith,
  if◌then◌else◌, if_both, if_split, ◌==◌, nat_eq, list_beq, Text, text_eq, texts_eq, codes,
  beq_false→ne, int_eq, Disk, trim_right, trim_right_stable, cut_prefix, starts_with,
}
use pulsitor_lan_agent.Config.{State}
use pulsitor_lan_agent.Report.Client.{Url, Lib, ClientError, validate_url}
use pulsitor_lan_agent.Report.Client.Enrolled.{validate_url_hosted}
use pulsitor_lan_agent.Service.{Definition}
use pulsitor_lan_agent.Service.Systemd.{
  Paths, state_argument, state_path_from, or_identity, cut_or, unit_lines,
}
use pulsitor_lan_agent.Service.Systemd.Words.{Grants, unit_lines-Grants}
use pulsitor_lan_agent.Discover.Table.Rows.{IsWord}
use pulsitor_lan_agent.Command.{
  Options, Machine, Settled, settled, refused, absolute_path, with_server, resolve_token, client,
  Enrolment,
}
use pulsitor_lan_agent.Command.Restarting.{Works, IsKept, enrolled_state-Keeps}
use pulsitor_lan_agent.Command.Running.{
  Surroundings, Managed, done, absent, broken, installed, default_server, base_url,
  service_arguments, prepared, enrolled, hand_over, copied, located, install_enrolled,
  install_prepared, install_parsed, install_service,
}

-- The definition of a service with the arguments that `installService` gives it.
abbrev definition_of : Options → Text → Definition
definition_of o binary = record {
  executable = binary;
  arguments = service_arguments o;
  log_path = o.log_path;
}

-- A text that does not begin like a flag is not taken for `--state`.
skips :
    (server : Text) (rest : List Text) (path : Text)
    → starts_with (codes "-") server ≡ false
    → state_argument (server ∷ codes "--state" ∷ path ∷ rest) ≡ some path
unfolding state_argument starts_with cut_prefix cut_or list_beq
skips [] rest path h = refl
skips (c ∷ server) rest path h =
    let other : (c == 45) ≡ false = ground arith in
    let turned : (45 == c) ≡ false = ground arith in simp (other, turned)

named_server :
    (server path : Text) (rest : List Text)
    → starts_with (codes "-") server ≡ false
    → state_argument (codes "--server" ∷ server ∷ codes "--state" ∷ path ∷ rest) ≡ some path
unfolding state_argument cut_prefix cut_or list_beq
named_server server path rest h = skips server rest path h

default_named :
    (path : Text) (rest : List Text) → state_argument (codes "--state" ∷ path ∷ rest) ≡ some path
unfolding state_argument list_beq
default_named path rest = refl

state_path_from-service :
    (paths : Paths) (o : Options) (binary state_dir : Text)
    → starts_with (codes "-") (base_url o) ≡ false
    → state_path_from paths (definition_of o binary) state_dir ≡ o.state_path
unfolding state_path_from or_identity service_arguments
state_path_from-service paths o binary state_dir h =
    let log = if not (o.log_path == []) then codes "--log-file" ∷ o.log_path ∷ [] else [] in
    let rest = log ++ (if o.verbose then codes "--verbose" ∷ [] else []) in
    ap (or_identity paths state_dir) (
      if_both
        (λ (l : List Text).
          state_argument (l ++ (codes "--state" ∷ o.state_path ∷ rest)) ≡ some o.state_path)
        (not (base_url o == default_server)) _ _ (named_server (base_url o) o.state_path rest h)
        (default_named o.state_path rest))

-- The server of the options that `client` settles on.
abbrev HasServer : Machine → Options → Type 0
HasServer m o =
    (trim_right (λ c. c == 47) o.server ≡ o.server)
    × ((o.server ≢ []) × (validate_url m.lib o.server ≡ none))

with_server_sound :
    (m : Machine) (o o' : Options) (e : Option ClientError)
    → trim_right (λ c. c == 47) o.server ≡ o.server
    → o.server ≢ []
    → validate_url m.lib o.server ≡ e
    → with_server m o e ≡ settled o'
    → HasServer m o'
unfolding with_server
with_server_sound m o o' (some e) trimmed named valid h = absurd (cc h)
with_server_sound m o o' none trimmed named valid h =
    if_both (λ (r : Settled Options). r ≡ settled o' → HasServer m o') (o.state_path == []) _ _
      (λ h. absurd (cc h))
      (λ h.
        let path = absolute_path m o.state_path (m.absolute o.state_path) in
        let same : record o { state_path = path } ≡ o' = cc h in
        subst (HasServer m) same (trimmed, (named, valid)))
      h

client_sound : (m : Machine) (o o' : Options) → client m o ≡ settled o' → HasServer m o'
unfolding client
client_sound m o o' =
    let server = trim_right (λ c. c == 47) o.server in
    if_split (λ (r : Settled Options). r ≡ settled o' → HasServer m o') (server == []) _ _
      (λ e h. absurd (cc h))
      (λ e h.
        with_server_sound m (record o { server = server }) o' (validate_url m.lib server)
          (trim_right_stable (λ c. c == 47) o.server) (beq_false→ne server [] e) refl h)

prepared_sound :
    (s : Surroundings) (disk : Disk) (r : Settled Options) (o : Options)
    → prepared s disk r ≡ settled o
    → HasServer s.machine o
unfolding prepared
prepared_sound s disk (refused e) o h = absurd (cc h)
prepared_sound s disk (settled a) o h = client_sound s.machine a o h

hand_over-installed :
    (s : Surroundings) (a d : Definition) (r : Managed) → hand_over s a r ≡ installed d → d ≡ a
unfolding hand_over
hand_over-installed s a d done h = cc h
hand_over-installed s a d absent h = absurd (cc h)
hand_over-installed s a d broken h = absurd (cc h)

copied-installed :
    (s : Surroundings) (o : Options) (d : Definition) (b : Option Text)
    → copied s o b ≡ installed d
    → (binary : Text) × (d ≡ definition_of o binary)
unfolding copied
copied-installed s o d none h = absurd (cc h)
copied-installed s o d (some binary) h = (binary, hand_over-installed s _ d _ h)

located-installed :
    (s : Surroundings) (o : Options) (d : Definition) (r : Option Text)
    → located s o r ≡ installed d
    → (binary : Text) × (d ≡ definition_of o binary)
unfolding located
located-installed s o d none h = absurd (cc h)
located-installed s o d (some running) h = copied-installed s o d _ h

install_enrolled-installed :
    (s : Surroundings) (o : Options) (e : Enrolment) (r : Settled State) (d : Definition)
    → (install_enrolled s o e r).ending ≡ installed d
    → ((state : State) × (r ≡ settled state))
      × (((binary : Text) × (d ≡ definition_of o binary))
          × ((install_enrolled s o e r).disk ≡ e.disk))
unfolding install_enrolled
install_enrolled-installed s o e (refused r) d h = absurd (cc h)
install_enrolled-installed s o e (settled state) d h =
    ((state, refl), (located-installed s o d s.executable h, refl))

-- `url.Parse`: what begins like a flag has no host.
abbrev pub HostedFlagless : Lib → Type 0
HostedFlagless lib =
    (value : Text) (u : Url)
    → lib.parse_url value ≡ some u
    → u.host ≢ []
    → starts_with (codes "-") value ≡ false

prepared-flagless :
    (s : Surroundings) (disk : Disk) (r : Settled Options) (o : Options)
    → HostedFlagless s.machine.lib
    → prepared s disk r ≡ settled o
    → (starts_with (codes "-") (base_url o) ≡ false) × (base_url o ≢ [])
unfolding base_url
prepared-flagless s disk r o flagless h =
    let (trimmed, (named, valid)) = prepared_sound s disk r o h in
    let (u, (parsed, hosted)) = validate_url_hosted s.machine.lib o.server valid in
    (rw trimmed (flagless o.server u parsed hosted), rw trimmed named)

installed-Grants :
    (paths : Paths) (o : Options) (d : Definition) (binary owner state_dir : Text)
    → d ≡ definition_of o binary
    → starts_with (codes "-") (base_url o) ≡ false
    → IsWord (paths.dir o.state_path)
    → (o.log_path ≢ [] → IsWord (paths.dir o.log_path))
    → (state_path_from paths d state_dir ≡ o.state_path)
      × Grants (paths.dir o.state_path) (unit_lines paths d owner state_dir)
installed-Grants paths o d binary owner state_dir same dashless state log =
    let path = state_path_from-service paths o binary state_dir dashless in
    let c = definition_of o binary in
    let Granted = λ (p : Text). Grants (paths.dir p) (unit_lines paths c owner state_dir) in
    let granted =
      unit_lines-Grants paths c owner state_dir (subst (λ p. IsWord (paths.dir p)) (sym path) state)
        log in
    rw same (path, subst Granted path granted)

-- When `service install` ends with a service: the service starts with the path of the state file
-- that the installation used; its unit has a line `ReadWritePaths=` that, split at its blanks,
-- names the directory of that file; and the next `Load` from there gives a state of this server
-- with a usable identity. This holds where the directories of the state file and of the log file,
-- if there is one, are not empty and have no blank, the state file can be read, the codec decodes
-- what it encodes, and no text that begins like a flag parses as a URL with a host.
pub install_service_finds :
    (s : Surroundings) (paths : Paths) (owner state_dir : Text) (arguments : List Text)
    (disk : Disk) (asked o : Options) (d : Definition)
    → HostedFlagless s.machine.lib
    → Works s.machine o.state_path
    → IsWord (paths.dir o.state_path)
    → (o.log_path ≢ [] → IsWord (paths.dir o.log_path))
    → s.parse_install arguments ≡ some asked
    → prepared s disk (resolve_token s.machine disk asked) ≡ settled o
    → (install_service s arguments disk).ending ≡ installed d
    → ((state_path_from paths d state_dir ≡ o.state_path)
        × Grants (paths.dir o.state_path) (unit_lines paths d owner state_dir))
      × ((state : State) × IsKept s.machine
            (base_url o)
            o.state_path
            state
            (install_service s arguments disk).disk)
unfolding install_service install_parsed install_prepared enrolled
install_service_finds s paths owner state_dir arguments disk asked o d flagless works state_word
      log_word parsed ready h =
    let (dashless, named) = prepared-flagless s disk _ o flagless ready in
    let e = enrolled s o disk in
    let ran : install_service s arguments disk ≡ install_enrolled s o e e.result =
      rw (parsed, ready) in
    let ((state, kept), ((binary, same), stays)) =
      install_enrolled-installed s o e e.result d (rw ran at h) in
    let found =
      enrolled_state-Keeps s.machine (base_url o) o.state_path works o.token disk state kept in
    (
      installed-Grants paths o d binary owner state_dir same dashless state_word log_word,
      (state, rw (ran, stays) found),
    )
