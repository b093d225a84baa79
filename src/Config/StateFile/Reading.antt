-- ===== src/Config/StateFile/Reading.antt =====
-- A `Save` of internal/config/config.go that succeeds is read back by the next `Load`.
use pulsitor_lan_agent.Base.{
  ◌≡◌, ◌≢◌, ◌⊎◌, inl, inr, refl, ◌∙◌, Bool, true, not, Option, none, some, List, [], ◌∷◌, arith,
  Bool-cases, if_both, if_split, nat_eq, list_beq, Text, text_eq, texts_eq, int_eq, Disk, put,
  remove, put_self, remove_ne, remove_self, All,
}
use pulsitor_lan_agent.Config.{State, NetText, ValidateError}
use pulsitor_lan_agent.Config.StateFile.{
  Codec, loaded, Loaded, no_state, is_usable_identity, validate_stored, checked, check_state,
  read_state, load, Call, run_calls, Saving, move, save_calls, Saved, save_created, save_encoded,
  save,
}

-- What calls in turn leave when none of them fails.
after_all : List Call → Disk → Disk
after_all [] disk = disk
after_all (c ∷ rest) disk = after_all rest (c.leaves disk)

-- Calls that all succeeded: each returned without an error, and the last disk is that of all.
done-All :
    (calls : List Call) (disk : Disk)
    → (run_calls calls disk).1 ≡ true
    → All (λ c. c.returns ≡ true) calls × ((run_calls calls disk).2 ≡ after_all calls disk)
unfolding run_calls after_all
done-All [] disk h = (tt, refl)
done-All (c ∷ rest) disk h = elim (Bool-cases c.returns) [
  | inl e ↦ let (each, last) = done-All rest (c.leaves disk) (rw e at h) in ((e, each), rw e last)
  | inr e ↦ cc (rw e at h)
]

save_created_done :
    (s : Saving) (path raw : Text) (disk : Disk)
    → s.temp ≢ path
    → (save_created s path raw disk).is_saved ≡ true
    → ((save_created s path raw disk).disk path ≡ some raw)
      × ((save_created s path raw disk).disk s.temp ≡ none)
unfolding save_created save_calls after_all move list_beq
save_created_done s path raw disk fresh h =
    let created = put disk s.temp [] in
    let (each, last) = done-All (save_calls s path raw) created h in
    let written = each.1.0 in
    let renamed = each.1.1.1.1.0 in
    let filled = put created s.temp raw in
    let moved : after_all (save_calls s path raw) created ≡ put (remove filled s.temp) path raw =
      rw (written, renamed, put_self created s.temp raw) in
    let there : (run_calls (save_calls s path raw) created).2 path ≡ some raw =
      rw (last, moved) (put_self (remove filled s.temp) path raw) in
    let last_disk = (run_calls (save_calls s path raw) created).2 in
    (remove_ne last_disk s.temp path fresh ∙ there, remove_self last_disk s.temp)

save_encoded_done :
    (s : Saving) (path raw : Text) (disk : Disk)
    → s.temp ≢ path
    → (save_encoded s path (some raw) disk).is_saved ≡ true
    → (save_encoded s path (some raw) disk).disk path ≡ some raw
unfolding save_encoded
save_encoded_done s path raw disk fresh =
    if_both (λ (out : Saved). out.is_saved ≡ true → out.disk path ≡ some raw) s.creates _ _
      (λ h. (save_created_done s path raw disk fresh h).0) (λ h. cc h)

pub save_done :
    (codec : Codec) (s : Saving) (path raw : Text) (state : State) (disk : Disk)
    → codec.encode state ≡ some raw
    → s.temp ≢ path
    → (save codec s path state disk).is_saved ≡ true
    → (save codec s path state disk).disk path ≡ some raw
unfolding save
save_done codec s path raw state disk e fresh = rw e (
    if_both (λ (out : Saved). out.is_saved ≡ true → out.disk path ≡ some raw) s.prepares _ _
      (save_encoded_done s path raw disk fresh) (λ h. cc h))

-- A file that the codec decodes to a state with a usable identity and a valid runtime loads.
pub load_of_file :
    (net : NetText) (codec : Codec) (path raw : Text) (state : State) (disk : Disk)
    → disk path ≡ some raw
    → codec.decode raw ≡ some state
    → is_usable_identity state.identity ≡ true
    → validate_stored net state.runtime ≡ none
    → load net codec true true path disk ≡ loaded state
unfolding load read_state check_state checked
load_of_file net codec path raw state disk there decoded usable valid =
    rw (there, decoded, usable, valid)

save_encoded_encodes :
    (codec : Codec) (s : Saving) (path : Text) (state : State) (disk : Disk) (o : Option Text)
    → codec.encode state ≡ o
    → (save_encoded s path o disk).is_saved ≡ true
    → (raw : Text) × (codec.encode state ≡ some raw)
unfolding save_encoded
save_encoded_encodes codec s path state disk none e h = absurd (cc h)
save_encoded_encodes codec s path state disk (some raw) e h = (raw, e)

-- Nothing is saved that the codec does not encode.
pub save_encodes :
    (codec : Codec) (s : Saving) (path : Text) (state : State) (disk : Disk)
    → (save codec s path state disk).is_saved ≡ true
    → (raw : Text) × (codec.encode state ≡ some raw)
unfolding save
save_encodes codec s path state disk =
    if_both (λ (out : Saved). out.is_saved ≡ true → (raw : Text) × (codec.encode state ≡ some raw))
      s.prepares _ _ (save_encoded_encodes codec s path state disk (codec.encode state) refl)
      (λ h. absurd (cc h))

-- When `Save` succeeds, `Load` gives back the state that was saved, if it has a usable identity and a
-- valid runtime, and the codec decodes what it encodes that state to.
pub load-save :
    (net : NetText) (codec : Codec) (s : Saving) (path raw : Text) (state : State) (disk : Disk)
    → codec.encode state ≡ some raw
    → codec.decode raw ≡ some state
    → is_usable_identity state.identity ≡ true
    → validate_stored net state.runtime ≡ none
    → s.temp ≢ path
    → (save codec s path state disk).is_saved ≡ true
    → load net codec true true path (save codec s path state disk).disk ≡ loaded state
load-save net codec s path raw state disk encoded decoded usable valid fresh done =
    load_of_file net codec path raw state _
      (save_done codec s path raw state disk encoded fresh done) decoded usable valid

-- What is known of a state that was loaded: nothing was stored yet, or it passed every check.
unfoldable pub IsSound : NetText → Text → Disk → State → Type 0
IsSound net path disk s =
    ((disk path ≡ none) × (s ≡ no_state))
    ⊎ ((is_usable_identity s.identity ≡ true) × (validate_stored net s.runtime ≡ none))

checked_sound :
    (net : NetText) (s t : State) (e : Option ValidateError)
    → checked net s e ≡ loaded t
    → (e ≡ none) × (t ≡ s)
unfolding checked
checked_sound net s t none h = (refl, cc h)
checked_sound net s t (some e) h = absurd (cc h)

check_state-IsSound :
    (net : NetText) (path : Text) (disk : Disk) (o : Option State) (s : State)
    → check_state net o ≡ loaded s
    → IsSound net path disk s
unfolding check_state IsSound
check_state-IsSound net path disk none s h = absurd (cc h)
check_state-IsSound net path disk (some t) s h =
    if_split (λ (l : Loaded). l ≡ loaded s → IsSound net path disk s)
      (not (is_usable_identity t.identity)) _ _ (λ e h. absurd (cc h))
      (λ e h.
        let (valid, same) = checked_sound net t s (validate_stored net t.runtime) h in
        let usable : is_usable_identity t.identity ≡ true = ground arith in
        rw same (inr (usable, valid)))
      h

read_state-IsSound :
    (net : NetText) (codec : Codec) (reads : Bool) (path : Text) (disk : Disk) (o : Option Text)
    (s : State)
    → disk path ≡ o
    → read_state net codec reads o ≡ loaded s
    → IsSound net path disk s
unfolding read_state IsSound
read_state-IsSound net codec reads path disk none s e h = inl (e, cc h)
read_state-IsSound net codec reads path disk (some raw) s e h =
    if_both (λ (l : Loaded). l ≡ loaded s → IsSound net path disk s) (not reads) _ _
      (λ h. absurd (cc h)) (check_state-IsSound net path disk (codec.decode raw) s) h

-- A state that `Load` gives is the empty one, when no file is there, or it has an identity with a
-- code and a secret, and a configuration that passes `Validate` or none.
pub load-IsSound :
    (net : NetText) (codec : Codec) (protects reads : Bool) (path : Text) (disk : Disk) (s : State)
    → load net codec protects reads path disk ≡ loaded s
    → IsSound net path disk s
unfolding load
load-IsSound net codec protects reads path disk s =
    if_both (λ (l : Loaded). l ≡ loaded s → IsSound net path disk s) (not protects) _ _
      (λ h. absurd (cc h)) (read_state-IsSound net codec reads path disk (disk path) s refl)
