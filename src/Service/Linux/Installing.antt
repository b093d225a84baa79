-- ===== src/Service/Linux/Installing.antt =====
-- `Install` of internal/service/service_linux.go: when the service is enabled.
use pulsitor_lan_agent.Base.{
  ◌≡◌, ◌≢◌, inl, inr, refl, sym, ap, ◌∙◌, true, not, Option, none, some, List, [], ◌∷◌, ◌++◌, arith,
  if_both, if_split, nat_eq, list_beq, Text, text_eq, texts_eq, beq_false→ne, int_eq, In,
}
use mathlib.Core.List.{append_assoc}
use pulsitor_lan_agent.Service.{Definition}
use pulsitor_lan_agent.Service.Systemd.{systemd_unit}
use pulsitor_lan_agent.Service.Linux.{
  default_state_dir, Effect, write_unit, command, Linux, LinuxError, attempts, reload, enable,
  ensure_account, prepare_state, activate, install_prepared, install,
}
use pulsitor_lan_agent.Service.Linux.Quiet.{In-append, Quiet, append-Quiet, prepare_state-Quiet}
use pulsitor_lan_agent.Service.Linux.Accounts.{
  IsUsableOwner, wider-IsUsableOwner, ensure_account-Settles,
}

module _ (l : Linux) where
  other_command : command enable ≢ command reload
  unfolding list_beq
  other_command e = beq_false→ne enable reload refl (cc e)

  -- What an activation that enables the service does.
  activate_order :
      In (command enable) (activate l).1
      → (l.succeeds reload ≡ true) × ((activate l).1 ≡ command reload ∷ command enable ∷ [])
  unfolding activate
  activate_order =
      if_split {A = Option LinuxError × List Effect}
        (λ r.
          In (command enable) r.1
          → (l.succeeds reload ≡ true) × (r.1 ≡ command reload ∷ command enable ∷ []))
        (l.succeeds reload) _ _ (λ fine i. (fine, refl))
        (λ bad i. elim i [ inl e ↦ absurd (other_command e) | inr j ↦ absurd j ])

  -- The unit that runs the service as `owner`.
  abbrev pub unit_of : Definition → Text → Effect
  unit_of config owner = write_unit (systemd_unit l.paths config owner default_state_dir)

  -- The effects end with the unit, its reading by systemd and the one command that enables it.
  abbrev pub EndsEnabled : Definition → Text → List Effect → List Effect → Type 0
  EndsEnabled config owner before effects =
      (effects ≡ before ++ (unit_of config owner ∷ command reload ∷ command enable ∷ []))
      × (Quiet before × ((l.writes_unit ≡ true) × (l.succeeds reload ≡ true)))

  install_prepared-EndsEnabled :
      (config : Definition) (owner : Text) (r : Option LinuxError × List Effect)
      → Quiet r.1
      → In (command enable) (install_prepared l config owner r).1
      → EndsEnabled config owner r.1 (install_prepared l config owner r).1
  unfolding install_prepared
  install_prepared-EndsEnabled config owner (some e, effects) quiet i = absurd (quiet i)
  install_prepared-EndsEnabled config owner (none, effects) quiet i =
      let unit = unit_of config owner in
      let more = (activate l).1 in
      if_split {A = Option LinuxError × List Effect}
        (λ r. In (command enable) r.1 → EndsEnabled config owner effects r.1) l.writes_unit _ _
        (λ written i. elim (In-append (command enable) effects (unit ∷ more) i) [
          | inl early ↦ absurd (quiet early)
          | inr (inl e) ↦ absurd (cc e)
          | inr (inr late) ↦
              let (fine, order) = activate_order late in
              (ap (λ end. effects ++ (unit ∷ end)) order, (quiet, (written, fine)))
        ])
        (λ unwritten i. elim (In-append (command enable) effects (unit ∷ []) i) [
          | inl early ↦ absurd (quiet early)
          | inr (inl e) ↦ absurd (cc e)
          | inr (inr never) ↦ absurd never
        ])
        i

  -- What an installation that enables the service has done.
  abbrev pub IsInstalled : Definition → List Effect → Type 0
  IsInstalled config effects =
      (owner : Text) × (before : List Effect) × (IsUsableOwner l attempts owner before
        × ((l.is_root ≡ true) × EndsEnabled config owner before effects))

  -- An installation that enables the service runs as root, and its last three effects are, in this
  -- order, the unit, which was written, the reload of systemd, which succeeded, and the command that
  -- enables the service, which no earlier effect is. The unit names no account, or the agent's, which
  -- the system knew before or found after an earlier effect, one of the attempts with a tool that is
  -- there, had succeeded in making it.
  pub install_enables :
      (config : Definition)
      → In (command enable) (install l config).1
      → IsInstalled config (install l config).1
  unfolding install
  install_enables config =
      let (owner, commands) = ensure_account l in
      let (usable, quiet) = ensure_account-Settles l in
      let ready = prepare_state l config owner in
      let prepared = install_prepared l config owner ready in
      let still = prepare_state-Quiet l config owner in
      let P : Option LinuxError × List Effect → Type 0 =
        λ r. In (command enable) r.1 → IsInstalled config r.1 in
      if_split P (not l.is_root) _ _ (λ e i. absurd i)
        (λ root.
          if_both P (not l.has_systemctl) _ _ (λ i. absurd i)
            (λ i. elim (In-append (command enable) commands prepared.1 i) [
              | inl early ↦ absurd (quiet early)
              | inr late ↦
                  let (order, others) =
                    install_prepared-EndsEnabled config owner ready still late in
                  let is_root : l.is_root ≡ true = ground arith in
                  let whole =
                    ap (λ end. commands ++ end) order ∙ sym (append_assoc commands ready.1 _) in
                  let before = commands ++ ready.1 in
                  let named = wider-IsUsableOwner l attempts owner commands ready.1 usable in
                  let none_before = append-Quiet commands ready.1 quiet still in
                  (owner, before, (named, (is_root, (whole, (none_before, others.1)))))
            ]))
