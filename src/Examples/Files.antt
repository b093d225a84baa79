-- ===== src/Examples/Files.antt =====
-- A state file with a codec of its own, and a log, on a disk that starts out empty.
use pulsitor_lan_agent.Base.{
  ℕ, zero, suc, ◌≡◌, ◌≢◌, refl, ap, true, false, Option, none, some, List, [], ◌∷◌, ◌++◌, arith,
  nat_eq, list_beq, Text, text_eq, texts_eq, codes, beq_false→ne, int_eq, content, empty, length,
  All,
}
use pulsitor_lan_agent.Config.{Identity, Runtime, State}
use pulsitor_lan_agent.Config.StateFile.{
  Codec, loaded, is_usable_identity, validate_stored, load, run_calls, Saving, save_calls,
  save_created, save_encoded, save,
}
use pulsitor_lan_agent.Config.StateFile.Atomic.{IsOldOrNew, save_atomic}
use pulsitor_lan_agent.Config.StateFile.Reading.{load-save}
use pulsitor_lan_agent.Logging.{Rotating, Calls, write_all, written_all}
use pulsitor_lan_agent.Logging.Writes.{Ends, write_all_refines}
use pulsitor_lan_agent.Logging.Bounds.{IsBounded, write_all-IsBounded}
use pulsitor_lan_agent.Examples.{net}
use pulsitor_lan_agent.Examples.Reports.{agent, server}

split_off : ℕ → Text → Text × Text
split_off zero text = ([], text)
split_off (suc n) [] = ([], [])
split_off (suc n) (c ∷ text) = let (first, rest) = split_off n text in (c ∷ first, rest)

split_off-append : (a b : Text) → split_off (length a) (a ++ b) ≡ (a, b)
unfolding split_off
split_off-append [] b = refl
split_off-append (c ∷ a) b = ap (λ (p : Text × Text). (c ∷ p.0, p.1)) (split_off-append a b)

unfoldable pub encode_fields : Text → Option Identity → Option Runtime → Option Text
encode_fields host none runtime = none
encode_fields host (some identity) (some runtime) = none
encode_fields host (some identity) none =
    some (length host ∷ (host ++ (length identity.code ∷ (identity.code ++ identity.secret))))

decode_identity : Text → Text → Option State
unfolding split_off
decode_identity host [] = none
decode_identity host (n ∷ rest) =
    let (code, secret) = split_off n rest in
    some (record {
      server = host;
      identity = some (record { code = code; secret = secret });
      runtime = none;
    })

pub decode_state : Text → Option State
unfolding split_off decode_identity
decode_state [] = none
decode_state (n ∷ rest) = let (host, tail) = split_off n rest in decode_identity host tail

-- Lengths before the texts; states with a configuration are not encoded.
abbrev pub codec : Codec
codec = record { encode = λ s. encode_fields s.server s.identity s.runtime; decode = decode_state }

decode-encode :
    (host raw : Text) (identity : Option Identity) (runtime : Option Runtime)
    → encode_fields host identity runtime ≡ some raw
    → decode_state raw ≡ some (record { server = host; identity = identity; runtime = runtime })
unfolding encode_fields decode_state decode_identity
decode-encode host raw none runtime e = absurd (cc e)
decode-encode host raw (some identity) (some runtime) e = absurd (cc e)
decode-encode host raw (some identity) none e =
    let tail = length identity.code ∷ (identity.code ++ identity.secret) in
    let same : raw ≡ length host ∷ (host ++ tail) = cc e in
    rw (same, split_off-append host tail, split_off-append identity.code identity.secret)

pub codec_decodes : (s : State) (raw : Text) → codec.encode s ≡ some raw → codec.decode raw ≡ some s
codec_decodes s raw e = decode-encode s.server raw s.identity s.runtime e

abbrev pub path : Text
path = codes "/p"

abbrev pub saving : Saving
saving = record {
  temp = codes "/t";
  prepares = true;
  creates = true;
  protects = true;
  accepted = 0;
  writes = true;
  syncs = true;
  closes = true;
  renames = true;
  on_windows = false;
  opens_directory = true;
  syncs_directory = true;
}

abbrev pub enrolled_agent : State
enrolled_agent = record { server = server; identity = some agent; runtime = none }

pub apart : saving.temp ≢ path
unfolding list_beq
apart = beq_false→ne saving.temp path refl

save_atomic_example :
    All
      (IsOldOrNew codec enrolled_agent path empty)
      (save codec saving path enrolled_agent empty).seen
    × IsOldOrNew codec enrolled_agent path empty (save codec saving path enrolled_agent empty).disk
save_atomic_example = save_atomic codec saving path enrolled_agent empty apart

abbrev raw_agent : Text
raw_agent = length server ∷ (server ++ (length agent.code ∷ (agent.code ++ agent.secret)))

encoded : codec.encode enrolled_agent ≡ some raw_agent
unfolding encode_fields
encoded = refl

was_saved : (save codec saving path enrolled_agent empty).is_saved ≡ true
unfolding save save_encoded save_created run_calls save_calls encode_fields
was_saved = refl

load-save_example :
    load net codec true true path (save codec saving path enrolled_agent empty).disk
    ≡ loaded enrolled_agent
unfolding is_usable_identity validate_stored list_beq
load-save_example =
    load-save net codec saving path raw_agent enrolled_agent empty encoded
      (codec_decodes enrolled_agent raw_agent encoded) refl refl apart was_saved

-- A log of at most five bytes, and two records that do not fit together.
abbrev log : Rotating
log = record { path = codes "l"; max_bytes = 5; size = 0; is_open = true }

abbrev fine : Calls
fine = record {
  closes = true;
  renames = true;
  reopening = record { opens = true; stats = true };
  opening = record { opens = true; stats = true };
  accepted = 4;
  fails = false;
}

abbrev records : List (Calls × Text)
records = (fine, codes "abc\n") ∷ (fine, codes "def\n") ∷ []

write_all_refines_example :
    Ends (codes "l") (write_all records log empty).1 ([] ++ written_all records log empty)
unfolding Ends content
write_all_refines_example = write_all_refines records log empty [] ([], refl)

write_all-IsBounded_example : let (r, disk) = write_all records log empty in IsBounded 5 r disk
unfolding content
write_all-IsBounded_example =
    write_all-IsBounded 5 records log empty
      ((omega arith, refl, refl), ((omega arith, refl, refl), tt))
      (record {
        current = omega arith;
        kept = omega arith;
        known = λ h. refl;
        max_below = omega arith;
      })
