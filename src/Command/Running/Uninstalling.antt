-- ===== src/Command/Running/Uninstalling.antt =====
-- `uninstallService` of cmd/pulsitor-lan-agent/main.go: what it does to the disk.
use pulsitor_lan_agent.Base.{
  ◌≡◌, ◌≢◌, refl, sym, subst, true, false, not, Option, none, some, List, [], arith, if◌then◌else◌,
  if_both, if_split, nat_eq, Text, text_eq, texts_eq, int_eq, Disk, remove_ne, remove_self,
}
use pulsitor_lan_agent.Command.{Options}
use pulsitor_lan_agent.Command.Running.{
  Surroundings, Managed, done, absent, broken, Failure, failed, printed, Ran, quiet, purged,
  uninstalled, uninstall_parsed, uninstall_service,
}

-- What an uninstallation does to the disk.
abbrev pub Removes : Options → Disk → Ran → Type 0
Removes o disk r =
    ((path : Text) → path ≢ o.state_path → r.disk path ≡ disk path)
    × ((r.ending ≡ printed [])
        → (o.purge ≡ true → r.disk o.state_path ≡ none) × (o.purge ≡ false → r.disk ≡ disk))
    × ((failure : Failure) → r.ending ≡ failed failure → r.disk ≡ disk)

purged-Removes :
    (s : Surroundings) (o : Options) (disk : Disk) (file : Option Text)
    → disk o.state_path ≡ file
    → o.purge ≡ true
    → Removes o disk (purged s o.state_path disk file)
unfolding purged quiet
purged-Removes s o disk none e purge =
    (λ p other. refl, λ h. (λ asked. e, λ kept. refl), λ f h. refl)
purged-Removes s o disk (some raw) e purge =
    if_both (Removes o disk) s.removes_state _ _
      (
        λ p other. remove_ne disk o.state_path p (λ same. other (sym same)),
        λ h. (λ asked. remove_self disk o.state_path, λ kept. absurd (cc (purge, kept))),
        λ f h. absurd (cc h),
      )
      (λ p other. refl, λ h. absurd (cc h), λ f h. refl)

purge-Removes :
    (s : Surroundings) (o : Options) (disk : Disk)
    → Removes o disk (
        if not o.purge
        then quiet (printed []) disk
        else purged s o.state_path disk (disk o.state_path))
unfolding quiet
purge-Removes s o disk =
    if_split (Removes o disk) (not o.purge) _ _
      (λ kept.
        let no_purge : o.purge ≡ false = ground arith in
        (λ p other. refl, λ h. (λ asked. absurd (cc (no_purge, asked)), λ k. refl), λ f h. refl))
      (λ asked.
        let purge : o.purge ≡ true = ground arith in
        purged-Removes s o disk (disk o.state_path) refl purge)

uninstalled-Removes :
    (s : Surroundings) (o : Options) (disk : Disk) (r : Managed)
    → Removes o disk (uninstalled s o disk r)
unfolding uninstalled quiet
uninstalled-Removes s o disk done = purge-Removes s o disk
uninstalled-Removes s o disk absent = purge-Removes s o disk
uninstalled-Removes s o disk broken = (λ p other. refl, λ h. absurd (cc h), λ f h. refl)

-- An uninstallation changes no file but the stored identity. When it succeeds that file is gone if
-- `--purge` was given, and else the disk is as it was; when it fails the disk is as it was.
pub uninstall_service-Removes :
    (s : Surroundings) (arguments : List Text) (disk : Disk) (o : Options)
    → s.parse_uninstall arguments ≡ some o
    → Removes o disk (uninstall_service s arguments disk)
unfolding uninstall_service uninstall_parsed
uninstall_service-Removes s arguments disk o parsed =
    subst (λ a. Removes o disk (uninstall_parsed s disk a)) (sym parsed)
      (uninstalled-Removes s o disk s.uninstall)
