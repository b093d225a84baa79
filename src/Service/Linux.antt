-- ===== src/Service/Linux.antt =====
-- internal/service/service_linux.go: what an installation does to the machine, in order. What each
-- step returns is the argument `l`; the errors of `prepareState` that are passed over have no
-- effect here.
pub mod Accounts
pub mod Installing
pub mod Quiet
use pulsitor_lan_agent.Base.{
  ℕ, zero, suc, ◌+◌, ◌-◌, ◌*◌, ◌/◌, ◌%◌, ◌^◌, ◌≤◌, ◌<◌, min, max, ◌≡◌, ◌≢◌, ◌↔◌, ◌⊎◌, inl, inr,
  refl, sym, ap, ap₂, subst, ◌∙◌, fun_ext, Bool, true, false, not, ◌&&◌, ◌||◌, Option, none, some,
  List, [], ◌∷◌, ◌++◌, map, arith, nat_beq, ltb, leb, if◌then◌else◌, ltb→lt, lt→ltb, leb→le, le→leb,
  leb_false→lt, ltb_false→le, nat_beq_iff, Bool-cases, if_both, if_split, Option-cases, is_some,
  &&-true, &&-intro, Eq, ◌==◌, nat_eq, list_beq, list_beq_iff, Text, text_eq, texts_eq, codes,
  beq_refl, beq→eq, beq_false→ne, ℤ, pos, negsuc, int_beq, int_beq_iff, int_eq, bits64, signed64,
  scale, Map, Disk, content, take, empty, flag, put, remove, put_self, put_ne, put_same, remove_ne,
  remove_self, length, length-append, All, In, Distinct, keep, All_of_In, All-map, for_each,
  for_each-keeps, for_each-at, for_each-other, In-map, In-keep, keep-In, keep-true, keep-false,
  Distinct-keep, keep-absent, tests, is_space, trim_left, trim_onto, trim_right, trim_right_stable,
  trim_space, cut_prefix, starts_with, contains_text, put_first, split_at,
}
use pulsitor_lan_agent.Service.{Definition, Status, name}
use pulsitor_lan_agent.Service.Systemd.{Paths, state_path_from, systemd_unit}

abbrev pub account : Text
account = codes "pulsitor-agent"

-- `DefaultStateDir`.
abbrev pub default_state_dir : Text
default_state_dir = codes "/var/lib/pulsitor-lan-agent"

pub data Effect : Type 0 where
  make_directory : Text → Effect
  change_owner : Text → Effect
  write_unit : Text → Effect
  remove_unit : Effect
  command : List Text → Effect

-- What the steps meet: `knows` says whether `user.Lookup` finds the account before any attempt, and
-- `knows_after` after one; `has_ids` whether its numbers can be read.
pub record Linux : Type 0 where
  pub paths : Paths
  pub is_root : Bool
  pub has_systemctl : Bool
  pub knows : Bool
  pub has_tool : Text → Bool
  pub succeeds : List Text → Bool
  pub knows_after : List Text → Bool
  pub has_ids : Bool
  pub makes : Text → Bool
  pub entries : Text → Option (List Text)
  pub writes_unit : Bool
  pub unit_there : Bool
  pub removes_unit : Bool
  pub active : Text

pub data LinuxError : Type 0 where
  needs_root : LinuxError
  unsupported : LinuxError
  not_installed : LinuxError
  no_directory : Text → LinuxError
  not_written : LinuxError
  not_removed : LinuxError
  failed : List Text → LinuxError

abbrev pub attempts : List (Text × List Text)
attempts =
    (
      codes "useradd",
      codes "--system"
          ∷ codes "--no-create-home"
          ∷ codes "--home-dir"
          ∷ default_state_dir
          ∷ codes "--shell"
          ∷ codes "/usr/sbin/nologin"
          ∷ account
          ∷ [],
    )
    ∷ (
      codes "useradd",
      codes "-r"
          ∷ codes "-M"
          ∷ codes "-d"
          ∷ default_state_dir
          ∷ codes "-s"
          ∷ codes "/bin/false"
          ∷ account
          ∷ [],
    )
    ∷ (
      codes "adduser",
      codes "--system"
          ∷ codes "--no-create-home"
          ∷ codes "--group"
          ∷ codes "--home"
          ∷ default_state_dir
          ∷ account
          ∷ [],
    )
    ∷ []

abbrev pub reload : List Text
reload = codes "systemctl" ∷ codes "daemon-reload" ∷ []

abbrev pub enable : List Text
enable = codes "systemctl" ∷ codes "enable" ∷ codes "--now" ∷ name ∷ []

module _ (l : Linux) where
  -- The loop of `ensureAccount`: the account, or the empty text, and the commands that were run.
  unfoldable pub attempt : List (Text × List Text) → Text × List Effect
  attempt [] = ([], [])
  attempt ((tool, arguments) ∷ rest) =
      let (owner, effects) = attempt rest in
      let line = tool ∷ arguments in
      if not (l.has_tool tool)
      then (owner, effects)
      else if l.succeeds line && l.knows_after line
      then (account, command line ∷ [])
      else (owner, command line ∷ effects)

  unfoldable pub ensure_account : Text × List Effect
  unfolding attempt
  ensure_account = if l.knows then (account, []) else attempt attempts

  unfoldable pub change_owners : Text → List Text → List Effect
  change_owners directory [] = []
  change_owners directory (entry ∷ rest) =
      change_owner (l.paths.join directory entry) ∷ change_owners directory rest

  unfoldable pub owned_entries : Text → Option (List Text) → List Effect
  unfolding change_owners
  owned_entries directory none = []
  owned_entries directory (some names) = change_owners directory names

  -- The changes of owner at the end of `prepareState`.
  unfoldable pub own : Definition → Text → List Effect
  unfolding owned_entries
  own config directory =
      change_owner directory
      ∷ ((if config.log_path == []
            then []
            else change_owner (l.paths.dir config.log_path) ∷ change_owner config.log_path ∷ [])
          ++ owned_entries directory (l.entries directory))

  unfoldable pub prepare_owned : Definition → Text → Text → List Effect
  unfolding own
  prepare_owned config owner directory =
      if owner == [] || not l.has_ids then [] else own config directory

  -- `prepareState`.
  unfoldable pub prepare_state : Definition → Text → Option LinuxError × List Effect
  unfolding prepare_owned state_path_from
  prepare_state config owner =
      let directory = l.paths.dir (state_path_from l.paths config default_state_dir) in
      let log = l.paths.dir config.log_path in
      let owned = prepare_owned config owner directory in
      if not (l.makes directory)
      then (some (no_directory directory), make_directory directory ∷ [])
      else if config.log_path == []
      then (none, make_directory directory ∷ owned)
      else if not (l.makes log)
      then (some (no_directory log), make_directory directory ∷ make_directory log ∷ [])
      else (none, make_directory directory ∷ make_directory log ∷ owned)

  unfoldable pub run : List Text → Option LinuxError
  run line = if l.succeeds line then none else some (failed line)

  -- The last two steps of `Install`.
  unfoldable pub activate : Option LinuxError × List Effect
  unfolding run
  activate =
      if l.succeeds reload
      then (run enable, command reload ∷ command enable ∷ [])
      else (some (failed reload), command reload ∷ [])

  unfoldable pub install_prepared :
      Definition → Text → Option LinuxError × List Effect → Option LinuxError × List Effect
  unfolding activate systemd_unit
  install_prepared config owner (some e, effects) = (some e, effects)
  install_prepared config owner (none, effects) =
      let unit = systemd_unit l.paths config owner default_state_dir in
      let (error, more) = activate in
      if l.writes_unit
      then (error, effects ++ (write_unit unit ∷ more))
      else (some not_written, effects ++ (write_unit unit ∷ []))

  -- `Install`.
  unfoldable pub install : Definition → Option LinuxError × List Effect
  unfolding ensure_account prepare_state install_prepared
  install config =
      let (owner, commands) = ensure_account in
      let (error, effects) = install_prepared config owner (prepare_state config owner) in
      if not l.is_root
      then (some needs_root, [])
      else if not l.has_systemctl
      then (some unsupported, [])
      else (error, commands ++ effects)

  unfoldable pub removed : Option LinuxError × List Effect
  unfolding run
  removed =
      if l.removes_unit
      then (run reload, remove_unit ∷ command reload ∷ [])
      else (some not_removed, remove_unit ∷ [])

  -- `Uninstall`; the command that disables the unit may fail.
  unfoldable pub uninstall : Option LinuxError × List Effect
  unfolding removed
  uninstall =
      let disable = codes "systemctl" ∷ codes "disable" ∷ codes "--now" ∷ name ∷ [] in
      let (error, effects) = removed in
      if not l.is_root
      then (some needs_root, [])
      else if not l.unit_there
      then (some not_installed, [])
      else (error, command disable ∷ effects)

  unfoldable pub manage : Text → Option LinuxError × List Effect
  unfolding run
  manage verb =
      let line = codes "systemctl" ∷ verb ∷ name ∷ [] in
      if not l.unit_there then (some not_installed, []) else (run line, command line ∷ [])

  -- `Query`.
  unfoldable pub query : Status
  unfolding trim_space
  query =
      let state = trim_space l.active in
      if not l.unit_there
      then record { installed = false; running = false; detail = [] }
      else record { installed = true; running = state == codes "active"; detail = state }
