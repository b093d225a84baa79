-- ===== src/Config/StateFile/Atomic.antt =====
-- `Save` of internal/config/config.go replaces the state file at once or not at all.
use pulsitor_lan_agent.Base.{
  ◌≡◌, ◌≢◌, ◌⊎◌, inl, inr, refl, ap, ◌∙◌, Bool, true, ◌||◌, Option, none, some, List, [], ◌∷◌, ◌++◌,
  if◌then◌else◌, if_both, if_split, nat_eq, list_beq, Text, text_eq, texts_eq, int_eq, Disk, take,
  put, remove, put_self, put_ne, remove_ne, All, All-map,
}
use pulsitor_lan_agent.Config.{State}
use pulsitor_lan_agent.Config.StateFile.{
  Codec, Call, run_calls, Saving, untouched, move, save_calls, Saved, save_created, save_encoded,
  save,
}

-- A predicate holds of the disks on the way, and of the last one.
abbrev pub Throughout : (Disk → Type 0) → List Disk × Bool × Disk → Type 0
Throughout P x = All P x.0 × P x.2

pub run_calls-Throughout :
    (P : Disk → Type 0) (c : Call) (rest : List Call) (disk : Disk)
    → P (c.leaves disk)
    → (c.returns ≡ true → Throughout P (run_calls rest (c.leaves disk)))
    → Throughout P (run_calls (c ∷ rest) disk)
unfolding run_calls
run_calls-Throughout P c rest disk h next =
    if_split (Throughout P) c.returns _ _ (λ e. let (seen, last) = next e in ((h, seen), last))
      (λ e. ((h, tt), h))

pub none_left : (P : Disk → Type 0) (disk : Disk) → P disk → Throughout P (run_calls [] disk)
unfolding run_calls
none_left P disk h = (tt, h)

module _ (s : Saving) (path raw : Text) (old : Option Text) (fresh : s.temp ≢ path) where
  -- A reader finds the old file, or the whole new one.
  unfoldable pub Whole : Disk → Type 0
  Whole disk = (disk path ≡ old) ⊎ (disk path ≡ some raw)

  unchanged-Whole : (disk : Disk) → disk path ≡ old → Whole disk
  unfolding Whole
  unchanged-Whole disk h = inl h

  temp-Whole : (disk : Disk) (bytes : Text) → Whole disk → Whole (put disk s.temp bytes)
  unfolding Whole
  temp-Whole disk bytes h = rw (put_ne disk s.temp path bytes fresh) h

  remove-Whole : (disk : Disk) → Whole disk → Whole (remove disk s.temp)
  unfolding Whole
  remove-Whole disk h = rw (remove_ne disk s.temp path fresh) h

  move-Whole : (disk : Disk) → disk s.temp ≡ some raw → Whole (move s.temp path (disk s.temp) disk)
  unfolding Whole move list_beq
  move-Whole disk e = rw (e, move) (inr (put_self (remove disk s.temp) path raw))

  save_calls-Throughout :
      (disk : Disk) → Whole disk → Throughout Whole (run_calls (save_calls s path raw) disk)
  unfolding save_calls
  save_calls-Throughout disk h = run_calls-Throughout Whole _ _ disk h (λ protected.
      let bytes = if s.writes then raw else take s.accepted raw in
      let filled = put disk s.temp bytes in
      let whole = temp-Whole disk bytes h in
      run_calls-Throughout Whole _ _ disk whole (λ written.
        run_calls-Throughout Whole _ _ filled whole (λ synced.
          run_calls-Throughout Whole _ _ filled whole (λ closed.
            let there : filled s.temp ≡ some raw =
              put_self disk s.temp bytes
              ∙ ap (λ w. some (if w then raw else take s.accepted raw)) written in
            let moved = move-Whole filled there in
            let end = if_split Whole s.renames _ filled (λ e. moved) (λ e. whole) in
            run_calls-Throughout Whole _ _ filled end (λ renamed.
              let last = if s.renames then move s.temp path (filled s.temp) filled else filled in
              run_calls-Throughout Whole (untouched (s.on_windows || s.opens_directory)) _ last end
                (λ opened.
                  run_calls-Throughout Whole (untouched (s.on_windows || s.syncs_directory)) [] last
                    end (λ done. none_left Whole last end)))))))

-- The file as it was, or the whole encoding of the new state.
unfoldable pub IsOldOrNew : Codec → State → Text → Disk → Disk → Type 0
IsOldOrNew codec state path before disk =
    (disk path ≡ before path)
    ⊎ ((raw : Text) × ((codec.encode state ≡ some raw) × (disk path ≡ some raw)))

Whole-IsOldOrNew :
    (codec : Codec) (s : Saving) (state : State) (path raw : Text) (before disk : Disk)
    (fresh : s.temp ≢ path)
    → codec.encode state ≡ some raw
    → Whole s path raw (before path) fresh disk
    → IsOldOrNew codec state path before disk
unfolding IsOldOrNew Whole
Whole-IsOldOrNew codec s state path raw before disk fresh e (inl h) = inl h
Whole-IsOldOrNew codec s state path raw before disk fresh e (inr h) = inr (raw, (e, h))

pub All-append {ℓ} :
    {A : Type ℓ} (P : A → Type 0) (xs : List A) (x : A) → All P xs → P x → All P (xs ++ (x ∷ []))
All-append P [] x h k = (k, tt)
All-append P (y ∷ xs) x h k = (h.0, All-append P xs x h.1 k)

save_created-Whole :
    (s : Saving) (path raw : Text) (before : Disk) (fresh : s.temp ≢ path)
    → All (Whole s path raw (before path) fresh) (save_created s path raw before).seen
      × Whole s path raw (before path) fresh (save_created s path raw before).disk
unfolding save_created
save_created-Whole s path raw before fresh =
    let P = Whole s path raw (before path) fresh in
    let created = put before s.temp [] in
    let start =
      temp-Whole s path raw (before path) fresh before []
        (unchanged-Whole s path raw (before path) fresh before refl) in
    let (seen, last) = save_calls-Throughout s path raw (before path) fresh created start in
    let swept = remove-Whole s path raw (before path) fresh _ last in
    ((start, All-append P _ _ seen swept), swept)

-- The same predicate of every disk that a `Save` shows.
abbrev Shows : (Disk → Type 0) → Saved → Type 0
Shows P out = All P out.seen × P out.disk

save_encoded-Shows :
    (codec : Codec) (s : Saving) (path : Text) (state : State) (disk : Disk) (o : Option Text)
    → s.temp ≢ path
    → codec.encode state ≡ o
    → Shows (IsOldOrNew codec state path disk) (save_encoded s path o disk)
unfolding save_encoded IsOldOrNew
save_encoded-Shows codec s path state disk none fresh e = (tt, inl refl)
save_encoded-Shows codec s path state disk (some raw) fresh e =
    let (seen, last) = save_created-Whole s path raw disk fresh in
    let P = IsOldOrNew codec state path disk in
    let whole = Whole-IsOldOrNew codec s state path raw disk in
    if_both (Shows P) s.creates _ _
      (
        All-map _ P (save_created s path raw disk).seen (λ d i. whole d fresh e) seen,
        whole _ fresh e last,
      )
      (tt, inl refl)

-- Whatever the calls of a `Save` return and wherever the program stops, a reader of the state file
-- finds it as it was before, or finds the whole encoding of the new state, when the temporary file
-- stands under another name.
pub save_atomic :
    (codec : Codec) (s : Saving) (path : Text) (state : State) (disk : Disk)
    → s.temp ≢ path
    → All (IsOldOrNew codec state path disk) (save codec s path state disk).seen
      × IsOldOrNew codec state path disk (save codec s path state disk).disk
unfolding save IsOldOrNew
save_atomic codec s path state disk fresh =
    if_both (Shows (IsOldOrNew codec state path disk)) s.prepares _ _
      (save_encoded-Shows codec s path state disk (codec.encode state) fresh refl) (tt, inl refl)
