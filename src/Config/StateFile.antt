-- ===== src/Config/StateFile.antt =====
-- internal/config/config.go: the state file, read with `Load` and written with `Save`.
-- What each call of the operating system returns is an argument, the JSON codec too. A text written
-- to a file is there as soon as the call returns; permissions are left out.
pub mod Atomic
pub mod Reading
use pulsitor_lan_agent.Base.{
  ℕ, zero, suc, ◌+◌, ◌-◌, ◌*◌, ◌/◌, ◌%◌, ◌^◌, ◌≤◌, ◌<◌, min, max, ◌≡◌, ◌≢◌, ◌↔◌, ◌⊎◌, inl, inr,
  refl, sym, ap, ap₂, subst, ◌∙◌, fun_ext, Bool, true, false, not, ◌&&◌, ◌||◌, Option, none, some,
  List, [], ◌∷◌, ◌++◌, map, arith, nat_beq, ltb, leb, if◌then◌else◌, ltb→lt, lt→ltb, leb→le, le→leb,
  leb_false→lt, ltb_false→le, nat_beq_iff, Bool-cases, if_both, if_split, Option-cases, is_some,
  &&-true, &&-intro, Eq, ◌==◌, nat_eq, list_beq, list_beq_iff, Text, text_eq, texts_eq, codes,
  beq_refl, beq→eq, beq_false→ne, ℤ, pos, negsuc, int_beq, int_beq_iff, int_eq, bits64, signed64,
  scale, Map, Disk, content, take, empty, flag, put, remove, put_self, put_ne, put_same, remove_ne,
  remove_self, length, length-append, All, In, Distinct, keep, All_of_In, All-map, for_each,
  for_each-keeps, for_each-at, for_each-other, In-map, In-keep, keep-In, keep-true, keep-false,
  Distinct-keep, keep-absent, tests,
}
use pulsitor_lan_agent.Config.{Identity, Target, Runtime, State, NetText, ValidateError, validate}

pub record Codec : Type 0 where
  pub encode : State → Option Text
  pub decode : Text → Option State

pub data LoadError : Type 0 where
  unprotected : LoadError
  unreadable : LoadError
  undecodable : LoadError
  no_usable_identity : LoadError
  invalid_runtime : ValidateError → LoadError

pub data Loaded : Type 0 where
  loaded : State → Loaded
  load_error : LoadError → Loaded

abbrev pub no_state : State
no_state = record { server = []; identity = none; runtime = none }

unfoldable pub is_usable_identity : Option Identity → Bool
is_usable_identity none = false
is_usable_identity (some identity) = not (identity.code == [] || identity.secret == [])

module _ (net : NetText) where
  unfoldable pub validate_stored : Option Runtime → Option ValidateError
  validate_stored none = none
  validate_stored (some runtime) = validate net runtime

  pub checked : State → Option ValidateError → Loaded
  checked s none = loaded s
  checked s (some e) = load_error (invalid_runtime e)

  pub check_state : Option State → Loaded
  unfolding checked validate_stored
  check_state none = load_error undecodable
  check_state (some s) =
      if not (is_usable_identity s.identity)
      then load_error no_usable_identity
      else checked s (validate_stored s.runtime)

  pub read_state : Codec → Bool → Option Text → Loaded
  unfolding check_state
  read_state codec reads none = loaded no_state
  read_state codec reads (some raw) =
      if not reads then load_error unreadable else check_state (codec.decode raw)

  -- `Load`: `protects` and `reads` say whether `protectExistingState` and the reading succeed.
  unfoldable pub load : Codec → Bool → Bool → Text → Disk → Loaded
  unfolding read_state
  load codec protects reads path disk =
      if not protects then load_error unprotected else read_state codec reads (disk path)

-- A call of the operating system: whether it returns without an error, and what it leaves on disk.
pub record Call : Type 0 where
  pub returns : Bool
  pub leaves : Disk → Disk

-- Calls in turn up to the first that fails: the disks in between, whether all returned, the last
-- disk.
unfoldable pub run_calls : List Call → Disk → List Disk × Bool × Disk
run_calls [] disk = ([], true, disk)
run_calls (c ∷ rest) disk =
    let after = c.leaves disk in
    let (seen, done, last) = run_calls rest after in
    if c.returns then (after ∷ seen, done, last) else (after ∷ [], false, after)

-- What the calls of one `Save` return, where they are made, and the name of its temporary file.
pub record Saving : Type 0 where
  pub temp : Text
  pub prepares : Bool
  pub creates : Bool
  pub protects : Bool
  pub accepted : ℕ
  pub writes : Bool
  pub syncs : Bool
  pub closes : Bool
  pub renames : Bool
  pub on_windows : Bool
  pub opens_directory : Bool
  pub syncs_directory : Bool

abbrev pub untouched : Bool → Call
untouched returns = record { returns = returns; leaves = λ disk. disk }

-- `os.Rename` of a file that is there.
unfoldable pub move : Text → Text → Option Text → Disk → Disk
move temp path none disk = disk
move temp path (some bytes) disk = put (remove disk temp) path bytes

unfoldable pub save_calls : Saving → Text → Text → List Call
unfolding move
save_calls s path raw =
    untouched s.protects
    ∷ record {
      returns = s.writes;
      leaves = λ disk. put disk s.temp (if s.writes then raw else take s.accepted raw);
    }
    ∷ untouched s.syncs
    ∷ untouched s.closes
    ∷ record {
      returns = s.renames;
      leaves = λ disk. if s.renames then move s.temp path (disk s.temp) disk else disk;
    }
    ∷ untouched (s.on_windows || s.opens_directory)
    ∷ untouched (s.on_windows || s.syncs_directory)
    ∷ []

pub record Saved : Type 0 where
  pub seen : List Disk
  pub is_saved : Bool
  pub disk : Disk

-- The calls after `os.CreateTemp`, and the deferred removal of the temporary file.
unfoldable pub save_created : Saving → Text → Text → Disk → Saved
unfolding run_calls save_calls
save_created s path raw disk =
    let created = put disk s.temp [] in
    let (seen, done, last) = run_calls (save_calls s path raw) created in
    record {
      seen = created ∷ (seen ++ (remove last s.temp ∷ []));
      is_saved = done;
      disk = remove last s.temp;
    }

unfoldable pub save_encoded : Saving → Text → Option Text → Disk → Saved
unfolding save_created
save_encoded s path none disk = record { seen = []; is_saved = false; disk = disk }
save_encoded s path (some raw) disk =
    if s.creates
    then save_created s path raw disk
    else record { seen = []; is_saved = false; disk = disk }

-- `Save`: every disk that a reader, or a crash, can find on the way.
unfoldable pub save : Codec → Saving → Text → State → Disk → Saved
unfolding save_encoded
save codec s path state disk =
    if s.prepares
    then save_encoded s path (codec.encode state) disk
    else record { seen = []; is_saved = false; disk = disk }

-- `EnsureWritable`, with the name of the probe and what its three calls return.
unfoldable pub ensure_writable : Bool → Bool → Bool → Text → Disk → Bool × Disk
ensure_writable prepares creates removes probe disk =
    if not (prepares && creates)
    then (false, disk)
    else if removes
    then (true, remove (put disk probe []) probe)
    else (false, put disk probe [])
