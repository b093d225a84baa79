-- ===== src/Service/Linux/Quiet.antt =====
-- internal/service/service_linux.go: the steps of an installation that do not enable the service.
use pulsitor_lan_agent.Base.{
  ◌≢◌, ◌⊎◌, inl, inr, not, ◌||◌, Option, none, some, List, [], ◌∷◌, ◌++◌, if_both, ◌==◌, nat_eq,
  Text, text_eq, texts_eq, int_eq, In,
}
use pulsitor_lan_agent.Service.{Definition}
use pulsitor_lan_agent.Service.Systemd.{state_path_from}
use pulsitor_lan_agent.Service.Linux.{
  default_state_dir, Effect, make_directory, change_owner, command, Linux, LinuxError, enable,
  change_owners, owned_entries, own, prepare_owned, prepare_state,
}

pub In-append : (e : Effect) (xs ys : List Effect) → In e (xs ++ ys) → In e xs ⊎ In e ys
In-append e [] ys i = inr i
In-append e (x ∷ xs) ys (inl p) = inl (inl p)
In-append e (x ∷ xs) ys (inr i) = elim (In-append e xs ys i) [ inl j ↦ inl (inr j) | inr j ↦ inr j ]

pub In-left : (e : Effect) (xs ys : List Effect) → In e xs → In e (xs ++ ys)
In-left e [] ys i = absurd i
In-left e (x ∷ xs) ys (inl p) = inl p
In-left e (x ∷ xs) ys (inr i) = inr (In-left e xs ys i)

-- The service is not enabled by these effects.
abbrev pub Quiet : List Effect → Type 0
Quiet effects = ¬ In (command enable) effects

pub append-Quiet : (xs ys : List Effect) → Quiet xs → Quiet ys → Quiet (xs ++ ys)
append-Quiet xs ys h k i = elim (In-append (command enable) xs ys i) [ inl j ↦ h j | inr j ↦ k j ]

pub add-Quiet : (e : Effect) (xs : List Effect) → command enable ≢ e → Quiet xs → Quiet (e ∷ xs)
add-Quiet e xs h k (inl p) = h p
add-Quiet e xs h k (inr i) = k i

pub nothing-Quiet : Quiet []
nothing-Quiet i = i

module _ (l : Linux) where
  change_owners-Quiet :
      (directory : Text) (names : List Text) → Quiet (change_owners l directory names)
  unfolding change_owners
  change_owners-Quiet directory [] = nothing-Quiet
  change_owners-Quiet directory (entry ∷ rest) =
      add-Quiet _ _ (λ e. absurd (cc e)) (change_owners-Quiet directory rest)

  owned_entries-Quiet :
      (directory : Text) (o : Option (List Text)) → Quiet (owned_entries l directory o)
  unfolding owned_entries
  owned_entries-Quiet directory none = nothing-Quiet
  owned_entries-Quiet directory (some names) = change_owners-Quiet directory names

  own-Quiet : (config : Definition) (directory : Text) → Quiet (own l config directory)
  unfolding own
  own-Quiet config directory =
      let owner = change_owner (l.paths.dir config.log_path) in
      add-Quiet (change_owner directory) _ (λ e. absurd (cc e))
        (append-Quiet _ (owned_entries l directory (l.entries directory))
          (if_both Quiet (config.log_path == []) _ _ nothing-Quiet (
            add-Quiet owner (change_owner config.log_path ∷ []) (λ e. absurd (cc e))
              (add-Quiet (change_owner config.log_path) [] (λ e. absurd (cc e)) nothing-Quiet)))
          (owned_entries-Quiet directory (l.entries directory)))

  prepare_owned-Quiet :
      (config : Definition) (owner directory : Text)
      → Quiet (prepare_owned l config owner directory)
  unfolding prepare_owned
  prepare_owned-Quiet config owner directory =
      if_both Quiet (owner == [] || not l.has_ids) _ _ nothing-Quiet (own-Quiet config directory)

  directory-Quiet :
      (directory : Text) (effects : List Effect)
      → Quiet effects
      → Quiet (make_directory directory ∷ effects)
  directory-Quiet directory effects h =
      add-Quiet (make_directory directory) effects (λ e. absurd (cc e)) h

  pub prepare_state-Quiet :
      (config : Definition) (owner : Text) → Quiet (prepare_state l config owner).1
  unfolding prepare_state
  prepare_state-Quiet config owner =
      let P : Option LinuxError × List Effect → Type 0 = λ r. Quiet r.1 in
      let log = l.paths.dir config.log_path in
      let directory = l.paths.dir (state_path_from l.paths config default_state_dir) in
      let changes = prepare_owned l config owner directory in
      let owned = prepare_owned-Quiet config owner directory in
      if_both P (not (l.makes _)) _ _ (directory-Quiet _ [] nothing-Quiet) (
        if_both P (config.log_path == []) _ _ (directory-Quiet _ _ owned) (
          if_both P (not (l.makes log)) _ _
            (directory-Quiet directory (make_directory log ∷ [])
              (directory-Quiet log [] nothing-Quiet))
            (directory-Quiet directory (make_directory log ∷ changes)
              (directory-Quiet log changes owned))))
