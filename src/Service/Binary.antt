-- ===== src/Service/Binary.antt =====
-- `InstallBinary` of internal/service/service.go, on a disk. What each call of the operating system
-- returns is an argument.
pub mod Atomic
use pulsitor_lan_agent.Base.{
  ℕ, zero, suc, ◌+◌, ◌-◌, ◌*◌, ◌/◌, ◌%◌, ◌^◌, ◌≤◌, ◌<◌, min, max, ◌≡◌, ◌≢◌, ◌↔◌, ◌⊎◌, inl, inr,
  refl, sym, ap, ap₂, subst, ◌∙◌, fun_ext, Bool, true, false, not, ◌&&◌, ◌||◌, Option, none, some,
  List, [], ◌∷◌, ◌++◌, map, arith, nat_beq, ltb, leb, if◌then◌else◌, ltb→lt, lt→ltb, leb→le, le→leb,
  leb_false→lt, ltb_false→le, nat_beq_iff, Bool-cases, if_both, if_split, Option-cases, is_some,
  &&-true, &&-intro, Eq, ◌==◌, nat_eq, list_beq, list_beq_iff, Text, text_eq, texts_eq, codes,
  beq_refl, beq→eq, beq_false→ne, ℤ, pos, negsuc, int_beq, int_beq_iff, int_eq, bits64, signed64,
  scale, Map, Disk, content, take, empty, flag, put, remove, put_self, put_ne, put_same, remove_ne,
  remove_self, length, length-append, All, In, Distinct, keep, All_of_In, All-map, for_each,
  for_each-keeps, for_each-at, for_each-other, In-map, In-keep, keep-In, keep-true, keep-false,
  Distinct-keep, keep-absent, tests, is_space, trim_left, trim_onto, trim_right, trim_right_stable,
  trim_space, cut_prefix, starts_with, contains_text, put_first, split_at,
}
use pulsitor_lan_agent.Config.StateFile.{Call, run_calls, move, untouched, Saved}

-- What the calls return, where they are made, and the name of the temporary file; `same_file` is
-- `none` where one of the two files cannot be found.
pub record Copying : Type 0 where
  pub temp : Text
  pub same_file : Option Bool
  pub makes : Bool
  pub reads : Bool
  pub creates : Bool
  pub accepted : ℕ
  pub writes : Bool
  pub closes : Bool
  pub modes : Bool
  pub renames : Bool

unfoldable pub filling : Copying → Text → Disk → Disk
filling c bytes disk = put disk c.temp (if c.writes then bytes else take c.accepted bytes)

unfoldable pub replacing : Copying → Text → Disk → Disk
unfolding move
replacing c destination disk =
    if c.renames then move c.temp destination (disk c.temp) disk else disk

unfoldable pub copy_calls : Copying → Text → Text → List Call
unfolding filling replacing
copy_calls c destination bytes =
    record { returns = c.writes; leaves = filling c bytes }
    ∷ untouched c.closes
    ∷ untouched c.modes
    ∷ record { returns = c.renames; leaves = replacing c destination }
    ∷ []

unfoldable pub unchanged : Bool → Disk → Saved
unchanged done disk = record { seen = []; is_saved = done; disk = disk }

-- The calls after `os.CreateTemp`, and the deferred removal of the temporary file.
unfoldable pub copy_created : Copying → Text → Text → Disk → Saved
unfolding run_calls copy_calls
copy_created c destination bytes disk =
    let created = put disk c.temp [] in
    let (seen, done, last) = run_calls (copy_calls c destination bytes) created in
    record {
      seen = created ∷ (seen ++ (remove last c.temp ∷ []));
      is_saved = done;
      disk = remove last c.temp;
    }

unfoldable pub copy_read : Copying → Text → Option Text → Disk → Saved
unfolding copy_created unchanged
copy_read c destination none disk = unchanged false disk
copy_read c destination (some bytes) disk =
    if c.reads && c.creates then copy_created c destination bytes disk else unchanged false disk

unfoldable pub is_same : Option Bool → Bool
is_same none = false
is_same (some same) = same

-- `InstallBinary`: every disk that shows on the way, whether it succeeds, and the last disk.
unfoldable pub install_binary : Copying → Text → Text → Disk → Saved
unfolding copy_read unchanged is_same
install_binary c source destination disk =
    let copied = copy_read c destination (disk source) disk in
    if source == destination
    then unchanged true disk
    else if is_same c.same_file
    then unchanged true disk
    else if not c.makes
    then unchanged false disk
    else copied
