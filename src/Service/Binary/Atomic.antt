-- ===== src/Service/Binary/Atomic.antt =====
-- `InstallBinary` of internal/service/service.go never leaves a part of the binary at its
-- destination.
use pulsitor_lan_agent.Base.{
  ◌≡◌, ◌≢◌, ◌⊎◌, inl, inr, refl, sym, ap, subst, ◌∙◌, true, not, ◌&&◌, Option, none, some, [],
  if◌then◌else◌, if_both, ◌==◌, nat_eq, Text, text_eq, texts_eq, int_eq, Disk, take, put, remove,
  put_self, put_ne, remove_ne, All,
}
use pulsitor_lan_agent.Config.StateFile.{run_calls, move, Saved}
use pulsitor_lan_agent.Config.StateFile.Atomic.{
  Throughout, run_calls-Throughout, none_left, All-append,
}
use pulsitor_lan_agent.Service.Binary.{
  Copying, filling, replacing, copy_calls, unchanged, copy_created, copy_read, is_same,
  install_binary,
}

-- The destination is as it was, or a whole copy of the source.
abbrev pub IsWhole : Text → Text → Disk → Disk → Type 0
IsWhole source destination before disk =
    (disk destination ≡ before destination)
    ⊎ ((bytes : Text) × ((before source ≡ some bytes) × (disk destination ≡ some bytes)))

abbrev Shows : (Disk → Type 0) → Saved → Type 0
Shows P out = All P out.seen × P out.disk

module _ (c : Copying) (source destination : Text) (before : Disk)
    (fresh : c.temp ≢ destination) where
  abbrev Whole : Disk → Type 0
  Whole = IsWhole source destination before

  apart-Whole :
      (disk other : Disk) → other destination ≡ disk destination → Whole disk → Whole other
  apart-Whole disk other e (inl h) = inl (e ∙ h)
  apart-Whole disk other e (inr (bytes, (read, h))) = inr (bytes, (read, e ∙ h))

  filling-Whole : (bytes : Text) (disk : Disk) → Whole disk → Whole (filling c bytes disk)
  unfolding filling
  filling-Whole bytes disk h =
      apart-Whole disk (filling c bytes disk) (put_ne disk c.temp destination _ fresh) h

  replacing-Whole :
      (bytes : Text) (disk : Disk)
      → before source ≡ some bytes
      → disk c.temp ≡ some bytes
      → Whole disk
      → Whole (replacing c destination disk)
  unfolding replacing move
  replacing-Whole bytes disk read filled h =
      if_both Whole c.renames _ disk
        (subst (λ o. Whole (move c.temp destination o disk)) (sym filled)
          (inr (bytes, (read, put_self (remove disk c.temp) destination bytes))))
        h

  filled : (bytes : Text) (disk : Disk) → c.writes ≡ true → filling c bytes disk c.temp ≡ some bytes
  unfolding filling
  filled bytes disk written =
      put_self disk c.temp _ ∙ ap (λ w. some (if w then bytes else take c.accepted bytes)) written

  copy_calls-Throughout :
      (bytes : Text) (disk : Disk)
      → before source ≡ some bytes
      → Whole disk
      → Throughout Whole (run_calls (copy_calls c destination bytes) disk)
  unfolding copy_calls
  copy_calls-Throughout bytes disk read h =
      let full = filling c bytes disk in
      let whole = filling-Whole bytes disk h in
      run_calls-Throughout Whole _ _ disk whole (λ written.
        run_calls-Throughout Whole _ _ full whole (λ closed.
          run_calls-Throughout Whole _ _ full whole (λ changed.
            let there : full c.temp ≡ some bytes = filled bytes disk written in
            let moved = replacing-Whole bytes full read there whole in
            run_calls-Throughout Whole _ _ full moved
              (λ renamed. none_left Whole (replacing c destination full) moved))))

  copy_created-Shows :
      (bytes : Text)
      → before source ≡ some bytes
      → Shows Whole (copy_created c destination bytes before)
  unfolding copy_created
  copy_created-Shows bytes read =
      let created = put before c.temp [] in
      let start =
        apart-Whole before created (put_ne before c.temp destination [] fresh) (inl refl) in
      let (seen, last) = copy_calls-Throughout bytes created read start in
      let end = (run_calls (copy_calls c destination bytes) created).2 in
      let swept =
        apart-Whole end (remove end c.temp) (remove_ne end c.temp destination fresh) last in
      ((start, All-append Whole _ _ seen swept), swept)

  copy_read-Shows :
      (o : Option Text) → before source ≡ o → Shows Whole (copy_read c destination o before)
  unfolding copy_read unchanged
  copy_read-Shows none read = (tt, inl refl)
  copy_read-Shows (some bytes) read =
      if_both (Shows Whole) (c.reads && c.creates) _ _ (copy_created-Shows bytes read)
        (tt, inl refl)

  -- Whatever the calls of `InstallBinary` return and wherever the program stops, its destination is
  -- as it was before or a whole copy of the source, when the temporary file stands under another
  -- name.
  pub install_binary_atomic :
      All (IsWhole source destination before) (install_binary c source destination before).seen
      × IsWhole source destination before (install_binary c source destination before).disk
  unfolding install_binary unchanged
  install_binary_atomic =
      let P = Shows Whole in
      let still : All Whole [] × Whole before = (tt, inl refl) in
      if_both P (source == destination) _ _ still (
        if_both P (is_same c.same_file) _ _ still
          (if_both P (not c.makes) _ _ still (copy_read-Shows (before source) refl)))
