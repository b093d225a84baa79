-- ===== src/Logging/Bounds.antt =====
-- How large the two files can become.
use pulsitor_lan_agent.Base.{
  ℕ, zero, suc, ◌+◌, ◌≤◌, ◌≡◌, refl, sym, ap, true, false, not, ◌&&◌, Option, none, some, List, [],
  ◌∷◌, ◌++◌, arith, ltb, if_both, if_split, is_some, nat_eq, Text, text_eq, texts_eq, int_eq, Disk,
  content, take, put, put_self, put_ne, remove_self, length, length-append, All,
}
use pulsitor_lan_agent.Logging.{
  Rotating, LogError, not_opened, Opening, Calls, aside, open_file, reopened, rename, roll_over,
  append_record, write, write_all,
}
use pulsitor_lan_agent.Logging.Writes.{aside_other, content-touched, moved-aside}

-- `m` bounds both files, and an open writer knows the length of its file.
module _ (m : ℕ) where
  pub record IsBounded (r : Rotating) (disk : Disk) : Type 0 where
    pub current : length (content (disk r.path)) ≤ m
    pub kept : length (content (disk (aside r.path))) ≤ m
    pub known : r.is_open ≡ true → r.size ≡ length (content (disk r.path))
    pub max_below : r.max_bytes ≤ m

  length-take : (k : ℕ) (bytes : Text) → length (take k bytes) ≤ length bytes
  unfolding take
  length-take zero bytes = omega arith
  length-take (suc k) [] = omega arith
  length-take (suc k) (b ∷ bytes) = let rest = length-take k bytes in omega arith

  abbrev Two : Text → Disk → Type 0
  Two path disk = (length (content (disk path)) ≤ m) × (length (content (disk (aside path))) ≤ m)

  open_file-IsBounded :
      (o : Opening) (r : Rotating) (disk : Disk)
      → o.stats ≡ true
      → r.is_open ≡ false
      → r.max_bytes ≤ m
      → Two r.path disk
      → let x = open_file o r disk in IsBounded x.1 x.2
  unfolding open_file
  open_file-IsBounded o r disk stat shut low (a, b) =
      if_both {A = Option LogError × Rotating × Disk} (λ x. IsBounded x.1 x.2) (not o.opens) _ _
        (record { current = a; kept = b; known = λ h. absurd (cc (shut, h)); max_below = low })
        (record {
          current = rw (content-touched disk r.path r.path) a;
          kept = rw (content-touched disk r.path (aside r.path)) b;
          known = λ h. rw (stat, content-touched disk r.path r.path) refl;
          max_below = low;
        })

  -- There is room for the record once the writer is ready for it.
  abbrev Ready : Text → Option LogError × Rotating × Disk → Type 0
  Ready bytes x =
      IsBounded x.1 x.2
      × (x.0 ≡ none → (x.1.is_open ≡ true) × (length (content (x.2 x.1.path)) + length bytes ≤ m))

  open_file-Ready :
      (o : Opening) (r : Rotating) (disk : Disk) (bytes : Text)
      → o.stats ≡ true
      → r.is_open ≡ false
      → r.max_bytes ≤ m
      → Two r.path disk
      → length (content (disk r.path)) + length bytes ≤ m
      → Ready bytes (open_file o r disk)
  unfolding open_file
  open_file-Ready o r disk bytes stat shut low two room = (
    open_file-IsBounded o r disk stat shut low two,
    if_both {A = Option LogError × Rotating × Disk}
        (λ x.
          x.0 ≡ none → (x.1.is_open ≡ true) × (length (content (x.2 x.1.path)) + length bytes ≤ m))
        (not o.opens) (some not_opened, r, disk) _ (λ h. absurd (cc h))
        (λ h. (refl, rw (content-touched disk r.path r.path) room)),
  )

  reopened-Ready :
      (bytes : Text) (x : Option LogError × Rotating × Disk)
      → IsBounded x.1 x.2
      → Ready bytes (reopened x)
  unfolding reopened
  reopened-Ready bytes (none, r, disk) h = (h, λ e. absurd (cc e))
  reopened-Ready bytes (some error, r, disk) h = (h, λ e. absurd (cc e))

  -- The rename empties the path and puts aside what stood there.
  rename-Two :
      (path : Text) (disk : Disk) (found : Option Text)
      → disk path ≡ found
      → Two path disk
      → Two path (rename path (aside path) found disk)
        × (length (content (rename path (aside path) found disk path)) ≡ 0)
  unfolding rename content
  rename-Two path disk none e two = (two, rw e refl)
  rename-Two path disk (some bytes) e (a, b) =
      rw (moved-aside path disk bytes, remove_self (put disk (aside path) bytes) path)
        ((omega arith, rw e at a), refl)

  roll_over-Ready :
      (calls : Calls) (r : Rotating) (disk : Disk) (bytes : Text)
      → calls.opening.stats ≡ true
      → calls.reopening.stats ≡ true
      → length bytes ≤ m
      → IsBounded r disk
      → Ready bytes (roll_over calls r disk)
  unfolding roll_over
  roll_over-Ready calls r disk bytes stat stat_again small h =
      let shut = record r { is_open = false } in
      let (two, gone) = rename-Two r.path disk (disk r.path) refl (h.current, h.kept) in
      if_both (Ready bytes) (not calls.closes) _ _ (h, λ e. absurd (cc e))
        (if_both (Ready bytes) (not calls.renames && is_some (disk r.path))
          (reopened (open_file calls.reopening shut disk))
          (open_file calls.opening shut (rename r.path (aside r.path) (disk r.path) disk))
          (reopened-Ready bytes (open_file calls.reopening shut disk) (
            open_file-IsBounded calls.reopening shut disk stat_again refl h.max_below
              (h.current, h.kept)))
          (open_file-Ready calls.opening shut (rename r.path (aside r.path) (disk r.path) disk)
            bytes stat refl h.max_below two (rw gone (omega arith))))

  append_record-IsBounded :
      (calls : Calls) (bytes : Text) (x : Option LogError × Rotating × Disk)
      → Ready bytes x
      → let y = append_record calls bytes x in IsBounded y.2 y.3
  unfolding append_record content
  append_record-IsBounded calls bytes (some e, r, disk) (h, room) = h
  append_record-IsBounded calls bytes (none, r, disk) (h, room) =
      let n = take calls.accepted bytes in
      let (opened, fits) = room refl in
      let short = length-take calls.accepted bytes in
      let sum = length-append (content (disk r.path)) n in
      let here = put_self disk r.path (content (disk r.path) ++ n) in
      let there =
        put_ne disk r.path (aside r.path) (content (disk r.path) ++ n)
          (λ e. aside_other r.path (sym e)) in
      record {
        current = rw (ap content here) (omega arith);
        kept = rw there h.kept;
        known = λ e. let size = h.known opened in rw (ap content here) (omega arith);
        max_below = h.max_below;
      }

  write-IsBounded :
      (calls : Calls) (bytes : Text) (r : Rotating) (disk : Disk)
      → calls.opening.stats ≡ true
      → calls.reopening.stats ≡ true
      → length bytes ≤ m
      → IsBounded r disk
      → let y = write calls bytes r disk in IsBounded y.2 y.3
  unfolding write
  write-IsBounded calls bytes r disk stat stat_again small h =
      if_split {A = ℕ × Option LogError × Rotating × Disk} (λ y. IsBounded y.2 y.3) (not r.is_open)
        _ _ (λ shut. h)
        (λ opened. append_record-IsBounded calls bytes _ (
          if_split (Ready bytes) (ltb r.max_bytes (r.size + length bytes)) (roll_over calls r disk)
            (none, r, disk) (λ full. roll_over-Ready calls r disk bytes stat stat_again small h)
            (λ room.
              let on : r.is_open ≡ true = ground arith in
              let size = h.known on in let low = h.max_below in (h, λ e. (on, ground arith)))))

  -- Writes whose records are no longer than `m`, and in which the file that is opened can be
  -- measured.
  abbrev pub Fits : List (Calls × Text) → Type 0
  Fits = All (λ w. (length w.1 ≤ m) × (w.0.opening.stats ≡ true) × (w.0.reopening.stats ≡ true))

  -- Neither file ever grows past the limit, or past the longest record where that is longer than
  -- the limit: so the two take at most twice as much, whatever calls fail, as long as files can be
  -- measured when they are opened.
  pub write_all-IsBounded :
      (writes : List (Calls × Text)) (r : Rotating) (disk : Disk)
      → Fits writes
      → IsBounded r disk
      → let (r', disk') = write_all writes r disk in IsBounded r' disk'
  unfolding write_all
  write_all-IsBounded [] r disk fits h = h
  write_all-IsBounded ((calls, bytes) ∷ rest) r disk ((small, stat, stat_again), fits) h =
      write_all-IsBounded rest _ _ fits (write-IsBounded calls bytes r disk stat stat_again small h)
