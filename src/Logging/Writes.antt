-- ===== src/Logging/Writes.antt =====
-- The files on disk are the end of the log: what is written is appended, and only the oldest bytes
-- go.
use pulsitor_lan_agent.Base.{
  ℕ, zero, suc, ◌+◌, ◌≡◌, ◌≢◌, inl, inr, refl, sym, ap, ap₂, subst, ◌∙◌, false, not, ◌&&◌, Option,
  none, some, List, [], ◌∷◌, ◌++◌, arith, ltb, Bool-cases, if_both, Option-cases, is_some, ◌==◌,
  nat_eq, Text, text_eq, texts_eq, codes, beq→eq, int_eq, Disk, content, take, put, remove,
  put_self, put_ne, remove_ne, remove_self, length, length-append,
}
use mathlib.Core.List.{append-nil, append_assoc}
use pulsitor_lan_agent.Logging.{
  Rotating, LogError, closed, Opening, Calls, aside, open_file, reopened, rename, roll_over,
  append_record, write, write_all, written_all,
}

-- The bytes of the two files are the end of a history.
unfoldable pub Ends : Text → Disk → Text → Type 0
Ends path disk history =
    (lost : Text) × (lost ++ (content (disk (aside path)) ++ content (disk path)) ≡ history)

pub aside_other : (path : Text) → aside path ≢ path
unfolding aside
aside_other path e = absurd (omega (arith, length-append path (codes ".1"), ap length e))

pub moved-aside :
    (path : Text) (disk : Disk) (bytes : Text)
    → remove (put disk (aside path) bytes) path (aside path) ≡ some bytes
moved-aside path disk bytes =
    remove_ne (put disk (aside path) bytes) path (aside path) (λ e. aside_other path (sym e))
    ∙ put_self disk (aside path) bytes

pub content-touched :
    (disk : Disk) (path other : Text)
    → content (put disk path (content (disk path)) other) ≡ content (disk other)
unfolding content
content-touched disk path other = elim (Bool-cases (path == other)) [
  | inl same ↦ rw (same, beq→eq path other same) refl
  | inr ne ↦ rw ne refl
]

module _ (path history : Text) where
  abbrev State : Type 0
  State = Option LogError × Rotating × Disk

  -- The writer still writes to its path, and the disk holds the end of the history.
  abbrev Keeps : State → Type 0
  Keeps x = (x.1.path ≡ path) × Ends path x.2 history

  touched-Ends :
      (disk : Disk)
      → Ends path disk history
      → Ends path (put disk path (content (disk path))) history
  unfolding Ends
  touched-Ends disk (lost, e) =
      (lost, rw (content-touched disk path (aside path), content-touched disk path path) e)

  open_file-Keeps :
      (o : Opening) (r : Rotating) (disk : Disk)
      → r.path ≡ path
      → Ends path disk history
      → Keeps (open_file o r disk)
  unfolding open_file
  open_file-Keeps o r disk same h =
      if_both Keeps (not o.opens) _ _ (same, h)
        (
          same,
          subst (λ p. Ends path (put disk p (content (disk p))) history) (sym same)
              (touched-Ends disk h),
        )

  reopened-Keeps : (x : State) → Keeps x → Keeps (reopened x)
  unfolding reopened
  reopened-Keeps (none, r, disk) h = h
  reopened-Keeps (some e, r, disk) h = h

  rename-Ends :
      (disk : Disk)
      → Ends path disk history
      → Ends path (rename path (aside path) (disk path) disk) history
  unfolding Ends rename content
  rename-Ends disk (lost, e) = elim (Option-cases (disk path)) [
    | inl missing ↦ rw (missing, rename) (lost, e)
    | inr (bytes, there) ↦
        rw (there, rename)
          (
            lost ++ content (disk (aside path)),
            ap₂ (λ a c. (lost ++ content (disk (aside path))) ++ (content a ++ content c))
                  (moved-aside path disk bytes) (remove_self (put disk (aside path) bytes) path)
                ∙ ap (λ t. (lost ++ content (disk (aside path))) ++ t) (append-nil bytes)
                ∙ append_assoc lost (content (disk (aside path))) bytes
                ∙ ap (λ o. lost ++ (content (disk (aside path)) ++ content o)) (sym there)
                ∙ e,
          )
  ]

  roll_over-Keeps :
      (calls : Calls) (r : Rotating) (disk : Disk)
      → r.path ≡ path
      → Ends path disk history
      → Keeps (roll_over calls r disk)
  unfolding roll_over
  roll_over-Keeps calls r disk same h =
      let shut = record r { is_open = false } in
      if_both Keeps (not calls.closes) _ _ (same, h)
        (if_both Keeps (not calls.renames && is_some (disk r.path))
          (reopened (open_file calls.reopening shut disk))
          (open_file calls.opening shut (rename r.path (aside r.path) (disk r.path) disk))
          (reopened-Keeps (open_file calls.reopening shut disk)
            (open_file-Keeps calls.reopening shut disk same h))
          (open_file-Keeps calls.opening shut _ same (
            subst (λ p. Ends path (rename p (aside p) (disk p) disk) history) (sym same)
              (rename-Ends disk h))))

-- What one write leaves of the history, given what it began with.
module _ (path : Text) where
  Ends-append :
      (disk : Disk) (history bytes : Text)
      → Ends path disk history
      → Ends path (put disk path (content (disk path) ++ bytes)) (history ++ bytes)
  unfolding Ends content
  Ends-append disk history bytes (lost, e) = (
    lost,
    ap₂ (λ a c. lost ++ (content a ++ content c))
          (put_ne disk path (aside path) (content (disk path) ++ bytes)
            (λ e. aside_other path (sym e)))
          (put_self disk path (content (disk path) ++ bytes))
        ∙ ap (λ t. lost ++ t)
            (sym (append_assoc (content (disk (aside path))) (content (disk path)) bytes))
        ∙ sym (append_assoc lost (content (disk (aside path)) ++ content (disk path)) bytes)
        ∙ ap (λ t. t ++ bytes) e,
  )

  -- A write adds to the history what it says that it has written.
  abbrev Adds : Text → Text → ℕ × Option LogError × Rotating × Disk → Type 0
  Adds history bytes x = (x.2.path ≡ path) × Ends path x.3 (history ++ take x.0 bytes)

  nothing-Adds :
      (history bytes : Text) (e : Option LogError) (r : Rotating) (disk : Disk)
      → r.path ≡ path
      → Ends path disk history
      → Adds history bytes (0, e, r, disk)
  unfolding take
  nothing-Adds history bytes e r disk same h =
      (same, subst (Ends path disk) (sym (append-nil history)) h)

  take-length : (k : ℕ) (bytes : Text) → take (length (take k bytes)) bytes ≡ take k bytes
  unfolding take
  take-length zero bytes = refl
  take-length (suc k) [] = refl
  take-length (suc k) (b ∷ bytes) = ap (λ t. b ∷ t) (take-length k bytes)

  append_record-Adds :
      (calls : Calls) (history bytes : Text) (x : Option LogError × Rotating × Disk)
      → Keeps path history x
      → Adds history bytes (append_record calls bytes x)
  unfolding append_record
  append_record-Adds calls history bytes (some e, r, disk) (same, h) =
      nothing-Adds history bytes (some e) r disk same h
  append_record-Adds calls history bytes (none, r, disk) (same, h) =
      let n = take calls.accepted bytes in
      (
        same,
        subst (λ t. Ends path (put disk r.path (content (disk r.path) ++ n)) (history ++ t))
            (sym (take-length calls.accepted bytes))
            (subst (λ p. Ends path (put disk p (content (disk p) ++ n)) (history ++ n)) (sym same)
              (Ends-append disk history n h)),
      )

  write-Adds :
      (calls : Calls) (bytes : Text) (r : Rotating) (disk : Disk) (history : Text)
      → r.path ≡ path
      → Ends path disk history
      → Adds history bytes (write calls bytes r disk)
  unfolding write
  write-Adds calls bytes r disk history same h =
      if_both (Adds history bytes) (not r.is_open) _ _
        (nothing-Adds history bytes (some closed) r disk same h)
        (append_record-Adds calls history bytes _ (
          if_both (Keeps path history) (ltb r.max_bytes (r.size + length bytes))
            (roll_over calls r disk) (none, r, disk)
            (roll_over-Keeps path history calls r disk same h) (same, h)))

-- The two files on disk implement a log that only grows: after any writes, whatever fails in them,
-- they hold the end of what was logged before and then reported as written, in order and with nothing
-- missing in between.
pub write_all_refines :
    (writes : List (Calls × Text)) (r : Rotating) (disk : Disk) (history : Text)
    → Ends r.path disk history
    → Ends r.path (write_all writes r disk).1 (history ++ written_all writes r disk)
unfolding write_all written_all
write_all_refines [] r disk history h = subst (Ends r.path disk) (sym (append-nil history)) h
write_all_refines ((calls, bytes) ∷ rest) r disk history h =
    let (n, e, r', disk') = write calls bytes r disk in
    let (same, next) = write-Adds r.path calls bytes r disk history refl h in
    let later =
      write_all_refines rest r' disk' (history ++ take n bytes)
        (subst (λ p. Ends p disk' (history ++ take n bytes)) (sym same) next) in
    subst (Ends r.path (write_all rest r' disk').1)
      (append_assoc history (take n bytes) (written_all rest r' disk'))
      (subst
        (λ p.
          Ends p (write_all rest r' disk').1
            ((history ++ take n bytes) ++ written_all rest r' disk'))
        same later)
