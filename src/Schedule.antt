-- ===== src/Schedule.antt =====
-- internal/agent/schedule.go: when each piece of work is next due.
-- An instant is a number of nanoseconds since Go's zero time, so `IsZero` tests for 0 and
-- `Truncate` rounds down to a multiple; a duration is a number of nanoseconds. Instants are wall
-- clock readings.
pub mod Intervals
pub mod Grid
pub mod Reconcile
pub mod Applying
pub mod Waiting
pub mod Keys
pub mod Tracking
use pulsitor_lan_agent.Base.{
  ℕ, zero, suc, ◌+◌, ◌-◌, ◌*◌, ◌/◌, ◌%◌, ◌^◌, ◌≤◌, ◌<◌, min, max, ◌≡◌, ◌≢◌, ◌↔◌, ◌⊎◌, inl, inr,
  refl, sym, ap, ap₂, subst, ◌∙◌, fun_ext, Bool, true, false, not, ◌&&◌, ◌||◌, Option, none, some,
  List, [], ◌∷◌, ◌++◌, map, arith, ltb, leb, if◌then◌else◌, ltb→lt, lt→ltb, leb→le, le→leb,
  leb_false→lt, ltb_false→le, nat_beq_iff, Bool-cases, Option-cases, is_some, &&-true, &&-intro, Eq,
  ◌==◌, nat_eq, list_beq, list_beq_iff, Text, text_eq, texts_eq, codes, beq_refl, beq→eq,
  beq_false→ne, ℤ, pos, negsuc, int_beq, int_beq_iff, int_eq, bits64, signed64, scale, Map, empty,
  flag, put, remove, put_self, put_ne, remove_ne, length, length-append, All, In, Distinct, keep,
  All_of_In, All-map, tests,
}
use Prim.Native.Nat.{bit_xor}
use pulsitor_lan_agent.Config.{Target, Runtime, target_eq}

abbrev pub second : ℕ
second = 1_000_000_000

abbrev pub min_target_interval : ℕ
min_target_interval = 5 * second

abbrev pub min_discovery_interval : ℕ
min_discovery_interval = 30 * second

abbrev pub min_check_in_interval : ℕ
min_check_in_interval = 15 * second

abbrev pub max_duration : ℕ
max_duration = 2 ^ 63 - 1

-- `a.Sub(b)` where `a` is the later one, and 0 where it is not. `Sub` saturates.
abbrev pub elapsed : ℕ → ℕ → ℕ
elapsed a b = min (a - b) max_duration

-- `a.After(b)`.
abbrev pub after : ℕ → ℕ → Bool
after a b = ltb b a

-- `time.Duration(seconds) * time.Second`, with the wrap of an `int64`.
unfoldable pub seconds_duration : ℤ → ℤ
seconds_duration seconds = signed64 (bits64 (scale seconds second))

at_least : ℕ → ℤ → ℕ
at_least floor (pos interval) = if ltb interval floor then floor else interval
at_least floor (negsuc n) = floor

unfoldable pub target_interval : Target → ℕ
unfolding seconds_duration at_least
target_interval t = at_least min_target_interval (seconds_duration t.interval_seconds)

unfoldable pub discovery_interval : ℤ → ℕ → ℕ
unfolding seconds_duration at_least
discovery_interval seconds floor = at_least floor (seconds_duration seconds)

-- The 32-bit FNV-1a hash of the package `hash/fnv`.
fnv_loop : ℕ → Text → ℕ
fnv_loop hash [] = hash
fnv_loop hash (byte ∷ rest) = fnv_loop (bit_xor hash byte * 16777619 % 2 ^ 32) rest

unfoldable pub phase_for : Text → ℕ
unfolding fnv_loop
phase_for code = fnv_loop 2166136261 code % 3600 * second

-- `planned.Add(time.Duration(n))`, where the duration wraps like an `int64`.
abbrev pub add_wrapped : ℕ → ℕ → ℕ
add_wrapped planned n =
    if ltb (n % 2 ^ 64) (2 ^ 63) then planned + n % 2 ^ 64 else planned - (2 ^ 64 - n % 2 ^ 64)

unfoldable pub advance : ℕ → ℕ → ℕ → ℕ × ℕ
advance planned interval now =
    if after planned now
    then (now + interval, 0)
    else if after (planned + interval) now
    then (planned + interval, 0)
    else let missed = elapsed now planned / interval in
      (add_wrapped planned ((missed + 1) * interval), missed)

-- `now.Add(-offset).Truncate(interval).Add(interval + offset)`: an instant before the zero time
-- is rounded down to `-interval`.
abbrev grid_after : ℕ → ℕ → ℕ → ℕ
grid_after interval offset now =
    if ltb now offset
    then offset
    else now - offset - (now - offset) % interval + (interval + offset)

slot_from : ℕ → ℕ → ℕ → ℕ
slot_from interval offset now =
    let next = grid_after interval offset now in
    if not (after next now) then next + interval else next

pub record Schedule : Type 0 where
  pub runtime : Runtime
  pub phase : ℕ
  pub discovery_due_at : ℕ
  pub last_discovery_at : ℕ
  pub check_in_due_at : ℕ
  pub target_due_at : Map ℤ ℕ
  pub answering : Map ℤ Bool

unfoldable pub slot : Schedule → ℕ → ℕ → ℕ
unfolding slot_from
slot s interval now =
    let held = if interval == 0 then min_target_interval else interval in
    slot_from held (s.phase % held) now

-- The targets of a list by their ids; a later one replaces an earlier one.
pub targets_by_id : List Target → Map ℤ Target → Map ℤ Target
targets_by_id [] m = m
targets_by_id (t ∷ rest) m = targets_by_id rest (put m t.id t)

pub zero_target : Target
zero_target = record { id = pos 0; ip = []; mac = []; interval_seconds = pos 0 }

pub target_or_zero : Option Target → Target
target_or_zero none = zero_target
target_or_zero (some t) = t

pub live_ids : List Target → Map ℤ Bool → Map ℤ Bool
live_ids [] live = live
live_ids (t ∷ rest) live = live_ids rest (put live t.id true)

-- The loop over the new targets: one that is new or has changed is due at once.
pub due_loop : Map ℤ Target → ℕ → List Target → Map ℤ ℕ → Map ℤ ℕ
unfolding target_or_zero zero_target
due_loop old now [] due = due
due_loop old now (t ∷ rest) due = due_loop old now rest (
    if not (is_some (due t.id)) || not (target_or_zero (old t.id) == t)
    then put due t.id now
    else due)

unfoldable pub apply : Schedule → Runtime → ℕ → Schedule
unfolding targets_by_id live_ids due_loop
apply s runtime now =
    let live = live_ids runtime.targets empty in
    let due =
      due_loop (targets_by_id s.runtime.targets empty) now runtime.targets s.target_due_at in
    record s {
      runtime = runtime;
      discovery_due_at = if s.runtime.subnets == runtime.subnets then s.discovery_due_at else now;
      target_due_at = λ id. if is_some (live id) then due id else none;
      answering =
          λ id. if is_some (due id) && not (is_some (live id)) then none else s.answering id;
    }

-- The literal that `New` begins with.
pub unplanned : Runtime → ℕ → ℕ → Schedule
unplanned runtime now phase = record {
  runtime = runtime;
  phase = phase;
  discovery_due_at = now;
  last_discovery_at = 0;
  check_in_due_at = now;
  target_due_at = empty;
  answering = empty;
}

unfoldable pub new : Runtime → ℕ → ℕ → Schedule
unfolding unplanned apply
new runtime now phase = apply (unplanned runtime now phase) runtime now

unfoldable pub was_answering : Schedule → ℤ → Bool
was_answering s id = elim (s.answering id) [ none ↦ true | some answering ↦ answering ]

unfoldable pub record_answer : Schedule → ℤ → Bool → Schedule
record_answer s id answered = record s { answering = put s.answering id answered }

-- The closure `clamp` of `Reconcile`: the deadline, and whether it was pulled back.
abbrev pub clamp : ℕ → ℕ → ℕ → ℕ × Bool
clamp now due interval =
    if leb (elapsed due now) interval then (due, false) else (now + interval, true)

clamp_target : ℕ → Target → Option ℕ → Map ℤ ℕ → Map ℤ ℕ × Bool
clamp_target now t none due = (due, false)
clamp_target now t (some at) due =
    let (next, moved) = clamp now at (target_interval t) in (put due t.id next, moved)

pub clamp_loop : ℕ → List Target → Map ℤ ℕ → Map ℤ ℕ × Bool
unfolding clamp_target
clamp_loop now [] due = (due, false)
clamp_loop now (t ∷ rest) due =
    let (due', moved) = clamp_target now t (due t.id) due in
    let (due'', others) = clamp_loop now rest due' in (due'', moved || others)

unfoldable pub reconcile : Schedule → ℕ → Schedule × Bool
unfolding clamp_loop
reconcile s now =
    let r = s.runtime in
    let (discovery, a) =
      clamp now s.discovery_due_at
        (discovery_interval r.discovery_interval_seconds min_discovery_interval) in
    let (check_in, b) =
      clamp now s.check_in_due_at
        (discovery_interval r.check_in_interval_seconds min_check_in_interval) in
    let (targets, c) = clamp_loop now r.targets s.target_due_at in
    let future = after s.last_discovery_at now in
    (
      record s {
        discovery_due_at = discovery;
        last_discovery_at = if future then now else s.last_discovery_at;
        check_in_due_at = check_in;
        target_due_at = targets;
      },
      a || b || c || future,
    )

due_at : ℕ → Option ℕ → Bool
due_at now none = false
due_at now (some at) = not (after at now)

unfoldable pub due : Schedule → ℕ → Bool × List Target
unfolding due_at
due s now = (
  not (after s.discovery_due_at now),
  keep (λ t. due_at now (s.target_due_at t.id)) s.runtime.targets,
)

unfoldable pub check_in_due : Schedule → ℕ → Bool
check_in_due s now = not (after s.check_in_due_at now)

unfoldable pub completed_check_in : Schedule → ℕ → Schedule
completed_check_in s now = record s {
  check_in_due_at =
      now + discovery_interval s.runtime.check_in_interval_seconds min_check_in_interval;
}

earlier : ℕ → Option ℕ → ℕ
earlier earliest none = earliest
earlier earliest (some at) = if ltb at earliest then at else earliest

earliest_loop : Map ℤ ℕ → List Target → ℕ → ℕ
unfolding earlier
earliest_loop due [] earliest = earliest
earliest_loop due (t ∷ rest) earliest = earliest_loop due rest (earlier earliest (due t.id))

unfoldable pub wait : Schedule → ℕ → ℕ
unfolding earliest_loop
wait s now =
    let first =
      if ltb s.check_in_due_at s.discovery_due_at then s.check_in_due_at else s.discovery_due_at in
    elapsed (earliest_loop s.target_due_at s.runtime.targets first) now

unfoldable pub may_discover : Schedule → ℕ → Bool
may_discover s now =
    if s.last_discovery_at == 0
    then true
    else not (
        ltb now (
          s.last_discovery_at
          + discovery_interval s.runtime.discovery_min_interval_seconds min_discovery_interval))

unfoldable pub completed_discovery : Schedule → ℕ → Schedule × ℕ
completed_discovery s now =
    let (next, skipped) =
      advance s.discovery_due_at
        (discovery_interval s.runtime.discovery_interval_seconds min_discovery_interval) now in
    (record s { last_discovery_at = now; discovery_due_at = next }, skipped)

skipped_slots : ℕ → ℕ → Option ℕ → ℕ
skipped_slots interval next none = 0
skipped_slots interval next (some planned) =
    let gap = elapsed next planned in if ltb interval gap then gap / interval - 1 else 0

unfoldable pub completed_target : Schedule → Target → ℕ → Schedule × ℕ
unfolding skipped_slots
completed_target s t now =
    let interval = target_interval t in
    let next = slot s interval now in
    (
      record s { target_due_at = put s.target_due_at t.id next },
      skipped_slots interval next (s.target_due_at t.id),
    )
