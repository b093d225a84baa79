-- ===== src/Examples/Commands.antt =====
-- An agent that enrolls as it is installed, on a disk that starts out empty.
use pulsitor_lan_agent.Base.{
  ◌≤◌, ◌≡◌, ◌≢◌, refl, true, false, Option, none, some, [], ◌∷◌, ◌++◌, if◌then◌else◌, if_split,
  nat_eq, list_beq, Text, text_eq, texts_eq, codes, beq_false→ne, int_eq, Disk, empty, length, In,
  trim_right, starts_with, is_space,
}
use pulsitor_lan_agent.Config.{State}
use pulsitor_lan_agent.Config.StateFile.{
  load, run_calls, save_calls, save_created, save_encoded, save, ensure_writable,
}
use pulsitor_lan_agent.Report.Client.{Url, Lib, Request, validate_url, enroll}
use pulsitor_lan_agent.Service.{Definition}
use pulsitor_lan_agent.Service.Systemd.{Paths, state_path_from, unit_lines}
use pulsitor_lan_agent.Service.Systemd.Words.{Grants}
use pulsitor_lan_agent.Discover.Table.Rows.{IsWord}
use pulsitor_lan_agent.Command.{
  Options, Machine, settled, with_server, resolve_token, client, stored, redeemed, unenrolled,
  by_identity, after_load, enrolled_state,
}
use pulsitor_lan_agent.Command.Enrolling.{enrolled_state_spends}
use pulsitor_lan_agent.Command.Restarting.{Works, IsKept, enrolled_state_again}
use pulsitor_lan_agent.Command.Running.{
  Surroundings, done, installed, base_url, service_arguments, prepared, enrolled, hand_over, copied,
  located, install_enrolled, install_prepared, install_parsed, install_service,
}
use pulsitor_lan_agent.Command.Running.Installing.{HostedFlagless, install_service_finds}
use pulsitor_lan_agent.Examples.Files.{
  codec, codec_decodes, encode_fields, saving, path, apart, enrolled_agent,
}
use pulsitor_lan_agent.Examples.Reports.{lib, server, agent}

abbrev parse_flagless : Text → Option Url
parse_flagless text = if starts_with (codes "-") text then none else lib.parse_url text

abbrev enrolling : Lib
enrolling = record lib { parse_url = parse_flagless; decode_identity = λ raw. some agent }

abbrev machine : Machine
machine = record {
  codec = codec;
  lib = enrolling;
  version = codes "1";
  user_agent = codes "x";
  absolute = λ p. none;
  reads_token = true;
  protects = true;
  reads = true;
  probe = codes "/w";
  prepares = true;
  creates = true;
  removes = true;
  saving = saving;
}

machine-Works : Works machine path
machine-Works = record { protects = refl; reads = refl; apart = apart; decodes = codec_decodes }

flagless : HostedFlagless enrolling
unfolding starts_with
flagless value u h hosted =
    if_split (λ (o : Option Url). o ≡ some u → starts_with (codes "-") value ≡ false)
      (starts_with (codes "-") value) _ _ (λ e h. absurd (cc h)) (λ e h. e) h

abbrev token : Text
token = codes "t"

abbrev nothing : Disk
nothing = empty

enrolled_state_spends_example :
    (length (enrolled_state machine server path token empty).sent ≤ 1)
    × ((request : Request)
        → In request (enrolled_state machine server path token empty).sent
        → (nothing path ≡ none)
          × ((token ≢ []) × ((ensure_writable true true true (codes "/w") empty).0 ≡ true)))
enrolled_state_spends_example = enrolled_state_spends machine server path token empty

was_enrolled : (enrolled_state machine server path token empty).result ≡ settled enrolled_agent
unfolding enrolled_state after_load by_identity unenrolled redeemed stored enroll validate_url load
    ensure_writable save save_encoded save_created run_calls save_calls encode_fields list_beq
    starts_with
was_enrolled = refl

named : server ≢ []
unfolding list_beq
named = beq_false→ne server [] refl

enrolled_state_again_example :
    let after = (enrolled_state machine server path token empty).disk in
    enrolled_state machine server path [] after
    ≡ record { result = settled enrolled_agent; sent = []; disk = after }
enrolled_state_again_example =
    enrolled_state_again machine server path machine-Works token empty enrolled_agent named
      was_enrolled

abbrev options : Options
options = record {
  server = codes "https://p/";
  state_path = path;
  token = token;
  token_file = [];
  log_path = [];
  exec_path = codes "/b";
  enroll_only = false;
  once = false;
  verbose = true;
  show_version = false;
  purge = true;
}

abbrev surroundings : Surroundings
surroundings = record {
  machine = machine;
  parse_run = λ arguments. none;
  parse_install = λ arguments. some options;
  parse_uninstall = λ arguments. some options;
  makes_log_directory = true;
  opening = record { opens = true; stats = true };
  executable = some (codes "/d");
  install_binary = λ source destination. some destination;
  install = λ definition. done;
  uninstall = done;
  start = done;
  stop = done;
  query = none;
  removes_state = true;
}

abbrev ready_options : Options
ready_options = record options { server = server }

ready : prepared surroundings empty (resolve_token machine empty options) ≡ settled ready_options
unfolding prepared resolve_token client with_server trim_right validate_url list_beq starts_with
ready = refl

abbrev definition : Definition
definition = record {
  executable = codes "/b";
  arguments = codes "--server" ∷ server ∷ codes "--state" ∷ path ∷ codes "--verbose" ∷ [];
  log_path = [];
}

was_installed : (install_service surroundings [] empty).ending ≡ installed definition
unfolding install_service install_parsed install_prepared install_enrolled enrolled located copied
    hand_over service_arguments base_url trim_right prepared resolve_token client with_server
    enrolled_state after_load by_identity unenrolled redeemed stored enroll validate_url load
    ensure_writable save save_encoded save_created run_calls save_calls encode_fields list_beq
    starts_with
was_installed = refl

abbrev paths : Paths
paths = record { dir = λ p. codes "/"; join = λ a b. a ++ b }

root_word : IsWord (codes "/")
unfolding is_space
root_word = (λ e. absurd (cc e), (refl, tt))

install_service_finds_example :
    ((state_path_from paths definition (codes "/v") ≡ path)
      × Grants (codes "/") (unit_lines paths definition [] (codes "/v")))
    × ((state : State) × IsKept machine
          (base_url ready_options)
          path
          state
          (install_service surroundings [] empty).disk)
install_service_finds_example =
    install_service_finds surroundings paths [] (codes "/v") [] empty options ready_options
      definition flagless machine-Works root_word (λ named. root_word) refl ready was_installed
