-- ===== src/Command.antt =====
-- cmd/pulsitor-lan-agent/main.go: what a command line asks for, and the enrollment of the agent.
-- The operating system, the server and the packages of Go that are called are the argument `m`.
pub mod Running
pub mod Enrolling
pub mod Restarting
use pulsitor_lan_agent.Base.{
  ℕ, zero, suc, ◌+◌, ◌-◌, ◌*◌, ◌/◌, ◌%◌, ◌^◌, ◌≤◌, ◌<◌, min, max, ◌≡◌, ◌≢◌, ◌↔◌, ◌⊎◌, inl, inr,
  refl, sym, ap, ap₂, subst, ◌∙◌, fun_ext, Bool, true, false, not, ◌&&◌, ◌||◌, Option, none, some,
  List, [], ◌∷◌, ◌++◌, map, arith, nat_beq, ltb, leb, if◌then◌else◌, ltb→lt, lt→ltb, leb→le, le→leb,
  leb_false→lt, ltb_false→le, nat_beq_iff, Bool-cases, if_both, if_split, Option-cases, is_some,
  &&-true, &&-intro, Eq, ◌==◌, nat_eq, list_beq, list_beq_iff, Text, text_eq, texts_eq, codes,
  beq_refl, beq→eq, beq_false→ne, ℤ, pos, negsuc, int_beq, int_beq_iff, int_eq, bits64, signed64,
  scale, Map, Disk, content, take, empty, flag, put, remove, put_self, put_ne, put_same, remove_ne,
  remove_self, length, length-append, All, In, Distinct, keep, All_of_In, All-map, for_each,
  for_each-keeps, for_each-at, for_each-other, In-map, In-keep, keep-In, keep-true, keep-false,
  Distinct-keep, keep-absent, tests, is_space, trim_left, trim_onto, trim_right, trim_space,
  cut_prefix, starts_with, contains_text, put_first, split_at,
}
use pulsitor_lan_agent.Config.{Identity, Runtime, State}
use pulsitor_lan_agent.Config.StateFile.{
  Codec, LoadError, Loaded, loaded, load_error, load, Saving, Saved, save, ensure_writable,
}
use pulsitor_lan_agent.Report.Client.{
  Lib, Request, ClientError, Outcome, ok, error, enroll, validate_url,
}

-- `options`, as the flags and their defaults set them.
pub record Options : Type 0 where
  pub server : Text
  pub state_path : Text
  pub token : Text
  pub token_file : Text
  pub log_path : Text
  pub exec_path : Text
  pub enroll_only : Bool
  pub once : Bool
  pub verbose : Bool
  pub show_version : Bool
  pub purge : Bool

-- What a command meets: the packages it calls, and what each call on the state file returns.
pub record Machine : Type 0 where
  pub codec : Codec
  pub lib : Lib
  pub version : Text
  pub user_agent : Text
  pub absolute : Text → Option Text
  pub reads_token : Bool
  pub protects : Bool
  pub reads : Bool
  pub probe : Text
  pub prepares : Bool
  pub creates : Bool
  pub removes : Bool
  pub saving : Saving

pub data Refused : Type 0 where
  token_twice : Refused
  token_unreadable : Refused
  no_server : Refused
  bad_server : ClientError → Refused
  no_state_path : Refused
  not_loaded : LoadError → Refused
  other_server : Refused
  identity_exists : Refused
  no_token : Refused
  not_writable : Refused
  not_enrolled : ClientError → Refused
  not_stored : Refused

pub data Settled (A : Type 0) : Type 0 where
  settled : A → Settled A
  refused : Refused → Settled A

unfoldable pub token_read : Options → Option Text → Settled Options
unfolding trim_space
token_read o none = refused token_unreadable
token_read o (some raw) = settled (record o { token = trim_space raw })

-- What an enrollment ends with: its result, the requests it sent and the disk.
pub record Enrolment : Type 0 where
  pub result : Settled State
  pub sent : List Request
  pub disk : Disk

unfoldable pub stored : State → List Request → Saved → Enrolment
stored state sent saved = record {
  result = if saved.is_saved then settled state else refused not_stored;
  sent = sent;
  disk = saved.disk;
}

module _ (m : Machine) where
  unfoldable pub read_token : Disk → Text → Option Text
  read_token disk path = if m.reads_token then disk path else none

  -- `resolveToken`.
  unfoldable pub resolve_token : Disk → Options → Settled Options
  unfolding token_read read_token
  resolve_token disk o =
      if o.token_file == []
      then settled o
      else if not (o.token == [])
      then refused token_twice
      else token_read o (read_token disk o.token_file)

  unfoldable pub absolute_path : Text → Option Text → Text
  absolute_path path none = path
  absolute_path path (some absolute) = absolute

  unfoldable pub with_server : Options → Option ClientError → Settled Options
  unfolding absolute_path
  with_server o (some e) = refused (bad_server e)
  with_server o none =
      if o.state_path == []
      then refused no_state_path
      else settled (record o { state_path = absolute_path o.state_path (m.absolute o.state_path) })

  -- `client`: the options with the server and the path that the rest of a command uses.
  unfoldable pub client : Options → Settled Options
  unfolding with_server trim_right
  client o =
      let server = trim_right (λ c. c == 47) o.server in
      if server == []
      then refused no_server
      else with_server (record o { server = server }) (validate_url m.lib server)

  unfoldable pub identified : Text → Text → Text → Disk → State → Enrolment
  unfolding stored save
  identified base_url path token disk state =
      let adopted = record state { server = base_url } in
      if not (state.server == []) && not (state.server == base_url)
      then record { result = refused other_server; sent = []; disk = disk }
      else if not (token == [])
      then record { result = refused identity_exists; sent = []; disk = disk }
      else if state.server == []
      then stored adopted [] (save m.codec m.saving path adopted disk)
      else record { result = settled state; sent = []; disk = disk }

  unfoldable pub redeemed : Text → Text → Disk → List Request × Outcome Identity → Enrolment
  unfolding stored save
  redeemed base_url path disk (sent, error e) = record {
    result = refused (not_enrolled e);
    sent = sent;
    disk = disk;
  }
  redeemed base_url path disk (sent, ok identity) =
      let state : State = record { server = base_url; identity = some identity; runtime = none } in
      stored state sent (save m.codec m.saving path state disk)

  unfoldable pub unenrolled : Text → Text → Text → Disk → Enrolment
  unfolding redeemed ensure_writable enroll
  unenrolled base_url path token disk =
      let (writable, checked) = ensure_writable m.prepares m.creates m.removes m.probe disk in
      if token == []
      then record { result = refused no_token; sent = []; disk = disk }
      else if not writable
      then record { result = refused not_writable; sent = []; disk = checked }
      else redeemed base_url path checked (enroll m.lib base_url m.version m.user_agent token)

  unfoldable pub by_identity : Text → Text → Text → Disk → State → Option Identity → Enrolment
  unfolding identified unenrolled
  by_identity base_url path token disk state (some identity) =
      identified base_url path token disk state
  by_identity base_url path token disk state none = unenrolled base_url path token disk

  unfoldable pub after_load : Text → Text → Text → Disk → Loaded → Enrolment
  unfolding by_identity
  after_load base_url path token disk (load_error e) = record {
    result = refused (not_loaded e);
    sent = [];
    disk = disk;
  }
  after_load base_url path token disk (loaded state) =
      by_identity base_url path token disk state state.identity

  -- `enrolledState`.
  unfoldable pub enrolled_state : Text → Text → Text → Disk → Enrolment
  unfolding after_load load
  enrolled_state base_url path token disk =
      after_load base_url path token disk (load m.lib.net m.codec m.protects m.reads path disk)
