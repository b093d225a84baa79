-- ===== src/Logging.antt =====
-- internal/logging/logging.go: the log file of a service, which rolls over at a limit.
-- A disk is a map from paths to bytes. What each call of the operating system returns is an argument;
-- the lengths of files stay below 2^63.
pub mod Writes
pub mod Bounds
use pulsitor_lan_agent.Base.{
  ℕ, zero, suc, ◌+◌, ◌-◌, ◌*◌, ◌/◌, ◌%◌, ◌^◌, ◌≤◌, ◌<◌, min, max, ◌≡◌, ◌≢◌, ◌↔◌, ◌⊎◌, inl, inr,
  refl, sym, ap, ap₂, subst, ◌∙◌, fun_ext, Bool, true, false, not, ◌&&◌, ◌||◌, Option, none, some,
  List, [], ◌∷◌, ◌++◌, map, arith, nat_beq, ltb, leb, if◌then◌else◌, ltb→lt, lt→ltb, leb→le, le→leb,
  leb_false→lt, ltb_false→le, nat_beq_iff, Bool-cases, if_both, Option-cases, is_some, &&-true,
  &&-intro, Eq, ◌==◌, nat_eq, list_beq, list_beq_iff, Text, text_eq, texts_eq, codes, beq_refl,
  beq→eq, beq_false→ne, ℤ, pos, negsuc, int_beq, int_beq_iff, int_eq, bits64, signed64, scale, Map,
  Disk, content, take, empty, flag, put, remove, put_self, put_ne, put_same, remove_ne, length,
  length-append, All, In, Distinct, keep, All_of_In, All-map, for_each, for_each-keeps, for_each-at,
  for_each-other, In-map, In-keep, keep-In, keep-true, keep-false, Distinct-keep, keep-absent,
  tests,
}

abbrev pub default_max_bytes : ℕ
default_max_bytes = 10 * 2 ^ 20

pub record Rotating : Type 0 where
  pub path : Text
  pub max_bytes : ℕ
  pub size : ℕ
  pub is_open : Bool

pub data LogError : Type 0 where
  no_directory : LogError
  not_opened : LogError
  closed : LogError
  not_closed : LogError
  not_renamed : LogError
  not_written : LogError

-- What the calls of `open` return.
pub record Opening : Type 0 where
  pub opens : Bool
  pub stats : Bool

-- What the calls of one `Write` return, where they are made: `accepted` is the number of bytes that
-- `file.Write` takes, and `fails` says that it returns an error.
pub record Calls : Type 0 where
  pub closes : Bool
  pub renames : Bool
  pub reopening : Opening
  pub opening : Opening
  pub accepted : ℕ
  pub fails : Bool

-- The generation that is kept.
unfoldable pub aside : Text → Text
aside path = path ++ codes ".1"

-- `open`, on the record and the disk.
pub open_file : Opening → Rotating → Disk → Option LogError × Rotating × Disk
unfolding content
open_file o r disk = if not o.opens then (some not_opened, r, disk) else (
  none,
  record r { is_open = true; size = if o.stats then length (content (disk r.path)) else 0 },
  put disk r.path (content (disk r.path)),
)

-- `newRotating`, with the limit as it is given.
pub limit : ℤ → ℕ
limit (pos n) = if leb n 0 then default_max_bytes else n
limit (negsuc n) = default_max_bytes

unfoldable pub new_rotating : Bool → Opening → Text → ℤ → Disk → Option LogError × Rotating × Disk
unfolding limit open_file
new_rotating makes_directory o path max_bytes disk =
    let r : Rotating = record {
      path = path;
      max_bytes = limit max_bytes;
      size = 0;
      is_open = false;
    } in
    if not makes_directory then (some no_directory, r, disk) else open_file o r disk

-- The error of a rename that failed, unless the file could not even be opened again.
pub reopened : Option LogError × Rotating × Disk → Option LogError × Rotating × Disk
reopened (none, r, disk) = (some not_renamed, r, disk)
reopened (some e, r, disk) = (some e, r, disk)

-- `os.Rename`, which fails on a missing file.
pub rename : Text → Text → Option Text → Disk → Disk
rename path target none disk = disk
rename path target (some bytes) disk = remove (put disk target bytes) path

pub roll_over : Calls → Rotating → Disk → Option LogError × Rotating × Disk
unfolding aside open_file reopened rename
roll_over calls r disk =
    let shut = record r { is_open = false } in
    if not calls.closes
    then (some not_closed, r, disk)
    else if not calls.renames && is_some (disk r.path)
    then reopened (open_file calls.reopening shut disk)
    else open_file calls.opening shut (rename r.path (aside r.path) (disk r.path) disk)

pub append_record :
    Calls → Text → Option LogError × Rotating × Disk → ℕ × Option LogError × Rotating × Disk
unfolding content take
append_record calls bytes (some e, r, disk) = (0, some e, r, disk)
append_record calls bytes (none, r, disk) = (
  length (take calls.accepted bytes),
  if calls.fails then some not_written else none,
  record r { size = r.size + length (take calls.accepted bytes) },
  put disk r.path (content (disk r.path) ++ take calls.accepted bytes),
)

-- `Write`: the number of bytes written, the error, and what is left.
unfoldable pub write : Calls → Text → Rotating → Disk → ℕ × Option LogError × Rotating × Disk
unfolding roll_over append_record
write calls bytes r disk =
    let rolled = roll_over calls r disk in
    if not r.is_open
    then (0, some closed, r, disk)
    else append_record calls bytes
        (if ltb r.max_bytes (r.size + length bytes) then rolled else (none, r, disk))

-- `Close`, where closing the file succeeds or not.
unfoldable pub close : Bool → Rotating → Option LogError × Rotating
close closes r =
    if not r.is_open
    then (none, r)
    else (if closes then none else some not_closed, record r { is_open = false })

-- Records written one after the other.
unfoldable pub write_all : List (Calls × Text) → Rotating → Disk → Rotating × Disk
unfolding write
write_all [] r disk = (r, disk)
write_all ((calls, bytes) ∷ rest) r disk =
    let (n, e, r', disk') = write calls bytes r disk in write_all rest r' disk'

-- The bytes that those writes report as written, in order.
unfoldable pub written_all : List (Calls × Text) → Rotating → Disk → Text
unfolding write
written_all [] r disk = []
written_all ((calls, bytes) ∷ rest) r disk =
    let (n, e, r', disk') = write calls bytes r disk in take n bytes ++ written_all rest r' disk'

-- `Sink`: standard error, or a file that it owns.
pub data Sink : Type 0 where
  standard_error : Sink
  owned : Rotating → Sink

pub opened : Option LogError × Rotating × Disk → (Option LogError × Sink) × Disk
opened (none, r, disk) = ((none, owned r), disk)
opened (some e, r, disk) = ((some e, standard_error), disk)

-- `New`: with an error there is no sink, and the one given here is not used.
unfoldable pub new_sink : Bool → Opening → Text → ℤ → Disk → (Option LogError × Sink) × Disk
unfolding opened new_rotating
new_sink makes_directory o path max_bytes disk =
    if path == []
    then ((none, standard_error), disk)
    else opened (new_rotating makes_directory o path max_bytes disk)

-- `Sink.Close`.
unfoldable pub close_sink : Bool → Sink → Option LogError × Sink
unfolding close
close_sink closes standard_error = (none, standard_error)
close_sink closes (owned r) = let (error, shut) = close closes r in (error, owned shut)
