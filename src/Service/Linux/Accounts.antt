-- ===== src/Service/Linux/Accounts.antt =====
-- `ensureAccount` of internal/service/service_linux.go: the account that the unit may name.
use pulsitor_lan_agent.Base.{
  ◌≡◌, ◌≢◌, ◌⊎◌, inl, inr, refl, true, not, ◌&&◌, List, [], ◌∷◌, ◌++◌, arith, if_split, &&-true,
  nat_eq, list_beq, Text, text_eq, texts_eq, codes, beq_false→ne, int_eq, All, In,
}
use pulsitor_lan_agent.Service.Linux.{
  account, Effect, command, Linux, attempts, enable, attempt, ensure_account,
}
use pulsitor_lan_agent.Service.Linux.Quiet.{In-left, Quiet, add-Quiet, nothing-Quiet}

module _ (l : Linux) where
  -- One of the attempts was made, by a tool that is there; it succeeded, and the account was found
  -- then.
  abbrev pub IsCreated : List (Text × List Text) → List Effect → Type 0
  IsCreated tries effects =
      (tool : Text) × (arguments : List Text) × (In (tool, arguments) tries
        × (In (command (tool ∷ arguments)) effects
            × ((l.has_tool tool ≡ true)
                × ((l.succeeds (tool ∷ arguments) ≡ true)
                    × (l.knows_after (tool ∷ arguments) ≡ true)))))

  -- An account that the unit may name: none, or the agent's, known before or created by these
  -- effects.
  abbrev pub IsUsableOwner : List (Text × List Text) → Text → List Effect → Type 0
  IsUsableOwner tries owner effects =
      (owner ≡ []) ⊎ ((owner ≡ account) × ((l.knows ≡ true) ⊎ IsCreated tries effects))

  abbrev pub Settles : List (Text × List Text) → Text × List Effect → Type 0
  Settles tries r = IsUsableOwner tries r.0 r.1 × Quiet r.1

  -- A further attempt that was left out or that failed.
  later-IsUsableOwner :
      (t : Text × List Text) (tries : List (Text × List Text)) (owner : Text)
      (effects more : List Effect)
      → ((e : Effect) → In e effects → In e more)
      → IsUsableOwner tries owner effects
      → IsUsableOwner (t ∷ tries) owner more
  later-IsUsableOwner t tries owner effects more wider (inl e) = inl e
  later-IsUsableOwner t tries owner effects more wider (inr (e, inl known)) = inr (e, inl known)
  later-IsUsableOwner t tries owner effects more wider (inr (e, inr made)) =
      let (tool, arguments, (tried, (ran, rest))) = made in
      inr (e, inr (tool, arguments, (inr tried, (wider (command (tool ∷ arguments)) ran, rest))))

  pub wider-IsUsableOwner :
      (tries : List (Text × List Text)) (owner : Text) (effects more : List Effect)
      → IsUsableOwner tries owner effects
      → IsUsableOwner tries owner (effects ++ more)
  wider-IsUsableOwner tries owner effects more (inl e) = inl e
  wider-IsUsableOwner tries owner effects more (inr (e, inl known)) = inr (e, inl known)
  wider-IsUsableOwner tries owner effects more (inr (e, inr made)) =
      let (tool, arguments, (tried, (ran, rest))) = made in
      inr (e, inr (tool, arguments, (tried, (In-left _ effects more ran, rest))))

  -- No tool that is tried is `systemctl`.
  abbrev Tools : List (Text × List Text) → Type 0
  Tools = All (λ t. codes "systemctl" ≢ t.0)

  other_tool :
      (tool : Text) (arguments : List Text)
      → codes "systemctl" ≢ tool
      → command enable ≢ command (tool ∷ arguments)
  other_tool tool arguments h e = h (cc e)

  attempt-Settles :
      (tries : List (Text × List Text)) → Tools tries → Settles tries (attempt l tries)
  unfolding attempt
  attempt-Settles [] h = (inl refl, nothing-Quiet)
  attempt-Settles ((tool, arguments) ∷ rest) h =
      let (usable, quiet) = attempt-Settles rest h.1 in
      let line = tool ∷ arguments in
      let tries = (tool, arguments) ∷ rest in
      let P = Settles tries in
      let later =
        later-IsUsableOwner (tool, arguments) rest (attempt l rest).0 (attempt l rest).1 in
      let other = other_tool tool arguments h.0 in
      if_split {A = Text × List Effect} P (not (l.has_tool tool)) _ _
        (λ missing. (later (attempt l rest).1 (λ e i. i) usable, quiet))
        (λ found.
          if_split {A = Text × List Effect} P (l.succeeds line && l.knows_after line) _ _
            (λ made.
              let (works, known) = &&-true (l.succeeds line) (l.knows_after line) made in
              let has : l.has_tool tool ≡ true = ground arith in
              let created : IsCreated tries (command line ∷ []) =
                (tool, arguments, (inl refl, (inl refl, (has, (works, known))))) in
              (inr (refl, inr created), add-Quiet (command line) [] other nothing-Quiet))
            (λ refused. (
              later (command line ∷ (attempt l rest).1) (λ e i. inr i) usable,
              add-Quiet (command line) _ other quiet,
            )))

  pub ensure_account-Settles : Settles attempts (ensure_account l)
  unfolding ensure_account list_beq
  ensure_account-Settles =
      if_split {A = Text × List Effect} (Settles attempts) l.knows _ _
        (λ known. (inr (refl, inl known), nothing-Quiet))
        (λ unknown. attempt-Settles attempts (
          beq_false→ne (codes "systemctl") (codes "useradd") refl,
          (
            beq_false→ne (codes "systemctl") (codes "useradd") refl,
            (beq_false→ne (codes "systemctl") (codes "adduser") refl, tt),
          ),
        ))
