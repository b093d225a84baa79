-- ===== src/Config/Checks.antt =====
-- What `Runtime.Validate` of internal/config/config.go checks of one subnet and of one target.
use pulsitor_lan_agent.Base.{
  ℕ, ◌≤◌, ◌<◌, ◌≡◌, ◌≢◌, ◌↔◌, inl, inr, refl, Bool, true, false, not, ◌&&◌, ◌||◌, Option, none,
  some, List, [], arith, if◌then◌else◌, Bool-cases, Option-cases, &&-true, ◌==◌, nat_eq,
  list_beq_iff, Text, text_eq, beq→eq, ℤ, pos, negsuc, int_eq, Map, flag,
}
use pulsitor_lan_agent.Discover.Net.{
  Ip, IpNet, is_private, hosts, hosts_ok, hosts_error, HostsResult, is_v4,
}
use pulsitor_lan_agent.Config.{
  Target, target_eq, NetText, ValidateError, within, positive, check_swept, or_else, usable_address,
  check_subnet, check_target,
}
use pulsitor_lan_agent.Discover.Mac.{normalise_mac}

-- An integer between two numbers.
abbrev pub Between : ℕ → ℕ → ℤ → Type 0
Between low high (pos n) = (low ≤ n) × (n ≤ high)
Between low high (negsuc n) = ⊥

pub within_iff : (low high : ℕ) (z : ℤ) → (within low high z ≡ true) ↔ Between low high z
unfolding within
within_iff low high (pos n) = (λ h. ground arith, λ h. ground arith)
within_iff low high (negsuc n) = (λ h. cc, λ h. absurd h)

abbrev pub Positive : ℤ → Type 0
Positive (pos n) = 0 < n
Positive (negsuc n) = ⊥

positive_iff : (z : ℤ) → (positive z ≡ true) ↔ Positive z
unfolding positive
positive_iff (pos n) = (λ h. ground arith, λ h. ground arith)
positive_iff (negsuc n) = (λ h. cc, λ h. absurd h)

pub or_else-none : (a b : Option ValidateError) → (or_else a b ≡ none) ↔ ((a ≡ none) × (b ≡ none))
unfolding or_else
or_else-none none b = (λ h. (refl, h), λ p. p.1)
or_else-none (some e) b = (λ h. cc, λ p. absurd (cc p.0))

pub guard-none :
    (b : Bool) (e : ValidateError) (next : Option ValidateError)
    → ((if b then some e else next) ≡ none) ↔ ((b ≡ false) × (next ≡ none))
guard-none true e next = (λ h. cc, λ p. cc p.0)
guard-none false e next = (λ h. (refl, h), λ p. p.1)

module _ (net : NetText) where
  -- The network that a subnet's text stands for is written in canonical form, private, IPv4 and
  -- small enough to sweep.
  pub record IsSubnet (cidr : Text) : Type 0 where
    pub address : Ip
    pub network : IpNet
    pub parsed : net.parse_cidr cidr ≡ some (address, network)
    pub ipv4 : is_v4 address ≡ true
    pub private : is_private address ≡ true
    pub canonical : net.net_text network ≡ cidr
    pub listed : List Ip
    pub swept : hosts network ≡ hosts_ok listed

  pub record IsTarget (t : Target) : Type 0 where
    pub id_positive : Positive t.id
    pub address : Ip
    pub parsed : net.parse_ip t.ip ≡ some address
    pub ipv4 : is_v4 address ≡ true
    pub private : is_private address ≡ true
    pub interval : Between 1 86400 t.interval_seconds
    pub mac_known : t.mac ≢ [] → normalise_mac t.mac ≢ []

  check_swept-none :
      (r : HostsResult) → check_swept r ≡ none → (listed : List Ip) × (r ≡ hosts_ok listed)
  unfolding check_swept
  check_swept-none (hosts_ok listed) h = (listed, refl)
  check_swept-none (hosts_error e) h = cc

  pub check_subnet_sound :
      (cidr : Text) → check_subnet net cidr (net.parse_cidr cidr) ≡ none → IsSubnet cidr
  unfolding check_subnet
  check_subnet_sound cidr h = elim (Option-cases (net.parse_cidr cidr)) [
    | inl unparsed ↦ absurd (cc (rw (unparsed, check_subnet) at h))
    | inr ((ip, network), parsed) ↦ go ip network parsed (rw (parsed, check_subnet) at h)
  ]
    where
      go :
          (ip : Ip) (network : IpNet)
          → net.parse_cidr cidr ≡ some (ip, network)
          → check_subnet net cidr (some (ip, network)) ≡ none
          → IsSubnet cidr
      go ip network parsed h =
          elim (Bool-cases (is_v4 ip && (is_private ip && net.net_text network == cidr))) [
            | inl good ↦
                let (four, more) =
                  &&-true (is_v4 ip) (is_private ip && net.net_text network == cidr) good in
                let (local, same) = &&-true (is_private ip) (net.net_text network == cidr) more in
                let (listed, swept) = check_swept-none (hosts network) (rw good at h) in
                record {
                  address = ip;
                  network = network;
                  parsed = parsed;
                  ipv4 = four;
                  private = local;
                  canonical = beq→eq (net.net_text network) cidr same;
                  listed = listed;
                  swept = swept;
                }
            | inr bad ↦ absurd (cc (rw bad at h))
          ]

  pub check_subnet_complete :
      (cidr : Text) → IsSubnet cidr → check_subnet net cidr (net.parse_cidr cidr) ≡ none
  unfolding check_subnet check_swept
  check_subnet_complete cidr s =
      rw (s.parsed, check_subnet)
        (rw
          (s.ipv4, s.private, (list_beq_iff (net.net_text s.network) cidr).1 s.canonical, s.swept))

  usable_address_sound :
      (o : Option Ip)
      → usable_address o ≡ true
      → (ip : Ip) × (o ≡ some ip) × (is_v4 ip ≡ true) × (is_private ip ≡ true)
  unfolding usable_address
  usable_address_sound none h = cc
  usable_address_sound (some ip) h =
      let (four, local) = &&-true (is_v4 ip) (is_private ip) h in (ip, refl, four, local)

  bad_target : Target → Map ℤ Bool → Bool
  bad_target t ids =
      not (positive t.id)
      || flag (ids t.id)
      || not (usable_address (net.parse_ip t.ip))
      || not (within 1 86400 t.interval_seconds)

  bad_target-false :
      (t : Target) (ids : Map ℤ Bool)
      → (bad_target t ids ≡ false) ↔ (
          (positive t.id ≡ true)
          × (flag (ids t.id) ≡ false)
          × (usable_address (net.parse_ip t.ip) ≡ true)
          × (within 1 86400 t.interval_seconds ≡ true))
  unfolding bad_target
  bad_target-false t ids = (λ h. ground arith, λ h. ground arith)

  check_target-none :
      (t : Target) (ids : Map ℤ Bool)
      → (check_target net t ids ≡ none)
        ↔ ((bad_target t ids ≡ false) × (t.mac ≢ [] → normalise_mac t.mac ≢ []))
  unfolding check_target bad_target
  check_target-none t ids = (
    λ h.
        let (good, next) = (guard-none (bad_target t ids) _ _).0 h in
        let (known, done) =
          (guard-none (not (t.mac == []) && normalise_mac t.mac == []) _ _).0 next in
        (
          good,
          λ some_mac no_mac.
              ground (arith, list_beq_iff t.mac [], list_beq_iff (normalise_mac t.mac) []),
        ),
    λ (good, known). (guard-none (bad_target t ids) _ _).1 (
      good,
      (guard-none (not (t.mac == []) && normalise_mac t.mac == []) _ _).1
          (ground (arith, list_beq_iff t.mac [], list_beq_iff (normalise_mac t.mac) []), refl),
    ),
  )

  pub check_target_iff :
      (t : Target) (ids : Map ℤ Bool)
      → (check_target net t ids ≡ none) ↔ (IsTarget t × (flag (ids t.id) ≡ false))
  unfolding usable_address
  check_target_iff t ids = (
    λ h.
        let (good, known) = (check_target-none t ids).0 h in
        let (pos_id, new, address, interval) = (bad_target-false t ids).0 good in
        let (ip, parsed, four, local) = usable_address_sound (net.parse_ip t.ip) address in
        (
          record {
            id_positive = (positive_iff t.id).0 pos_id;
            address = ip;
            parsed = parsed;
            ipv4 = four;
            private = local;
            interval = (within_iff 1 86400 t.interval_seconds).0 interval;
            mac_known = known;
          },
          new,
        ),
    λ (s, new). (check_target-none t ids).1 (
      (bad_target-false t ids).1 (
        (positive_iff t.id).1 s.id_positive,
        new,
        rw (s.parsed, usable_address) (rw (s.ipv4, s.private)),
        (within_iff 1 86400 t.interval_seconds).1 s.interval,
      ),
      s.mac_known,
    ),
  )
