-- ===== src/Service/Systemd.antt =====
-- internal/service/systemd.go: the unit that systemd is given.
-- `filepath.Dir` and `filepath.Join` are the argument `paths`.
pub mod Words
use pulsitor_lan_agent.Base.{
  ◌≡◌, ◌≢◌, ◌↔◌, ◌⊎◌, inl, inr, sym, ◌∙◌, Option, none, some, List, [], ◌∷◌, ◌++◌, if◌then◌else◌,
  if_split, ◌==◌, nat_eq, Text, text_eq, texts_eq, codes, beq→eq, beq_false→ne, int_eq, In,
  Distinct, cut_prefix,
}
use pulsitor_lan_agent.Service.{Definition, display_name, join, command_line}

pub record Paths : Type 0 where
  pub dir : Text → Text
  pub join : Text → Text → Text

unfoldable pub cut_or : Option Text → Option Text → Option Text
cut_or later none = later
cut_or later (some value) = some value

-- The loop of `statePathFrom`: the value of the first `--state` flag, in either of its forms.
unfoldable pub state_argument : List Text → Option Text
unfolding cut_or cut_prefix
state_argument [] = none
state_argument (argument ∷ []) = cut_prefix (codes "--state=") argument
state_argument (argument ∷ value ∷ rest) =
    let later = state_argument (value ∷ rest) in
    if argument == codes "--state"
    then some value
    else cut_or later (cut_prefix (codes "--state=") argument)

unfoldable pub or_identity : Paths → Text → Option Text → Text
or_identity paths state_dir none = paths.join state_dir (codes "identity.json")
or_identity paths state_dir (some path) = path

unfoldable pub state_path_from : Paths → Definition → Text → Text
unfolding state_argument or_identity
state_path_from paths config state_dir =
    or_identity paths state_dir (state_argument config.arguments)

unfoldable pub writable : Paths → Definition → Text → List Text
unfolding state_path_from
writable paths config state_dir =
    let state = paths.dir (state_path_from paths config state_dir) in
    let log = paths.dir config.log_path in
    if config.log_path == []
    then state ∷ []
    else if log == state
    then state ∷ []
    else state ∷ log ∷ []

unfoldable pub owner_lines : Text → List Text
owner_lines owner =
    if owner == []
    then []
    else codes "# CAP_NET_RAW is what lets the agent open an ICMP socket without being root."
      ∷ (codes "User=" ++ owner)
      ∷ (codes "Group=" ++ owner)
      ∷ codes "AmbientCapabilities=CAP_NET_RAW"
      ∷ codes "CapabilityBoundingSet=CAP_NET_RAW"
      ∷ []
      ∷ []

unfoldable pub unit_lines : Paths → Definition → Text → Text → List Text
unfolding owner_lines writable command_line join
unit_lines paths config owner state_dir =
    (codes "[Unit]"
      ∷ (codes "Description=" ++ display_name)
      ∷ codes "After=network-online.target"
      ∷ codes "Wants=network-online.target"
      ∷ codes "StartLimitIntervalSec=0"
      ∷ []
      ∷ codes "[Service]"
      ∷ codes "Type=simple"
      ∷ (codes "ExecStart=" ++ command_line config.executable config.arguments)
      ∷ codes "Restart=always"
      ∷ codes "RestartSec=10"
      ∷ []
      ∷ [])
    ++ (owner_lines owner
        ++ (codes "NoNewPrivileges=true"
            ∷ codes "PrivateTmp=true"
            ∷ codes "PrivateDevices=true"
            ∷ codes "ProtectSystem=strict"
            ∷ codes "ProtectHome=true"
            ∷ codes "ProtectKernelTunables=true"
            ∷ codes "ProtectKernelModules=true"
            ∷ codes "ProtectControlGroups=true"
            ∷ codes "RestrictSUIDSGID=true"
            ∷ codes "RestrictNamespaces=true"
            ∷ codes "LockPersonality=true"
            ∷ codes "MemoryDenyWriteExecute=true"
            ∷ codes "RestrictAddressFamilies=AF_INET AF_INET6 AF_UNIX AF_NETLINK"
            ∷ (codes "ReadWritePaths=" ++ join (codes " ") (writable paths config state_dir))
            ∷ []
            ∷ codes "[Install]"
            ∷ codes "WantedBy=multi-user.target"
            ∷ []
            ∷ []))

-- `systemdUnit`.
unfoldable pub systemd_unit : Paths → Definition → Text → Text → Text
unfolding unit_lines join
systemd_unit paths config owner state_dir = join (10 ∷ []) (unit_lines paths config owner state_dir)

-- The directories that a service may write to are exactly that of its state file and that of its log
-- file, when it has one, and none stands twice.
pub writable_iff :
    (paths : Paths) (config : Definition) (state_dir directory : Text)
    → (In directory (writable paths config state_dir) ↔ (
        (directory ≡ paths.dir (state_path_from paths config state_dir))
        ⊎ ((config.log_path ≢ []) × (directory ≡ paths.dir config.log_path))))
      × Distinct (writable paths config state_dir)
unfolding writable
writable_iff paths config state_dir directory =
    let state = paths.dir (state_path_from paths config state_dir) in
    let log = paths.dir config.log_path in
    let Asked = (directory ≡ state) ⊎ ((config.log_path ≢ []) × (directory ≡ log)) in
    let Listed : List Text → Type 0 = λ l. (In directory l ↔ Asked) × Distinct l in
    if_split Listed (config.log_path == []) _ _
      (λ none_named. (
        (
          λ i. elim i [ inl e ↦ inl e | inr i ↦ absurd i ],
          λ a. elim a [
            | inl e ↦ inl e
            | inr b ↦ absurd (b.0 (beq→eq config.log_path [] none_named))
          ],
        ),
        (λ i. i, tt),
      ))
      (λ named.
        let given = beq_false→ne config.log_path [] named in
        if_split Listed (log == state) _ _
          (λ same. (
            (
              λ i. elim i [ inl e ↦ inl e | inr i ↦ absurd i ],
              λ a. elim a [ inl e ↦ inl e | inr b ↦ inl (b.1 ∙ beq→eq log state same) ],
            ),
            (λ i. i, tt),
          ))
          (λ other. (
            (
              λ i. elim i [
                | inl e ↦ inl e
                | inr i ↦ elim i [ inl e ↦ inr (given, e) | inr i ↦ absurd i ]
              ],
              λ a. elim a [ inl e ↦ inl e | inr b ↦ inr (inl b.1) ],
            ),
            (
              λ i. elim i [ inl e ↦ beq_false→ne log state other (sym e) | inr i ↦ absurd i ],
              (λ i. i, tt),
            ),
          )))
