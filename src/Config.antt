-- ===== src/Config.antt =====
-- internal/config/config.go: the agent's identity, the configuration the server hands back, and
-- the checks it must pass before it is stored or applied.
pub mod Equal
pub mod Checks
pub mod Valid
pub mod StateFile
use pulsitor_lan_agent.Base.{
  ℕ, zero, suc, ◌+◌, ◌-◌, ◌*◌, ◌/◌, ◌%◌, ◌^◌, ◌≤◌, ◌<◌, min, max, ◌≡◌, ◌≢◌, ◌↔◌, ◌⊎◌, inl, inr,
  refl, sym, ap, ap₂, subst, ◌∙◌, fun_ext, Bool, true, false, not, ◌&&◌, ◌||◌, Option, none, some,
  List, [], ◌∷◌, ◌++◌, map, arith, ltb, leb, if◌then◌else◌, ltb→lt, lt→ltb, leb→le, le→leb,
  leb_false→lt, ltb_false→le, nat_beq_iff, Bool-cases, Option-cases, is_some, &&-true, &&-intro, Eq,
  ◌==◌, nat_eq, list_beq, list_beq_iff, Text, text_eq, codes, beq_refl, beq→eq, beq_false→ne, ℤ,
  pos, negsuc, int_beq, int_beq_iff, int_eq, bits64, signed64, scale, Map, empty, flag, put, remove,
  put_self, put_ne, remove_ne, length, length-append, All, In, Distinct, keep, All_of_In, tests,
}
use pulsitor_lan_agent.Discover.Net.{
  Ip, v4, v6, IpNet, is_private, hosts, hosts_ok, hosts_error, HostsResult, too_wide,
  is_edge_address, contains, host_loop, mask_ip, max_hosts, NetError, any_contains, private_ranges,
  is_v4,
}
use pulsitor_lan_agent.Discover.Mac.{normalise_mac}

pub record Identity : Type 0 where
  pub code : Text
  pub secret : Text

pub record Target : Type 0 where
  pub id : ℤ
  pub ip : Text
  pub mac : Text
  pub interval_seconds : ℤ

pub record Runtime : Type 0 where
  pub discovery_interval_seconds : ℤ
  pub discovery_min_interval_seconds : ℤ
  pub check_in_interval_seconds : ℤ
  pub subnets : List Text
  pub targets : List Target

pub record State : Type 0 where
  pub server : Text
  pub identity : Option Identity
  pub runtime : Option Runtime

-- Go's `==` on two targets: field by field.
unfoldable pub target_beq : Target → Target → Bool
target_beq a b =
    a.id == b.id && (a.ip == b.ip && (a.mac == b.mac && a.interval_seconds == b.interval_seconds))

pub target_beq_iff : (a b : Target) → (target_beq a b ≡ true) ↔ (a ≡ b)
unfolding target_beq
target_beq_iff a b = ground (
  arith,
  int_beq_iff a.id b.id,
  list_beq_iff a.ip b.ip,
  list_beq_iff a.mac b.mac,
  int_beq_iff a.interval_seconds b.interval_seconds,
)

instance abbrev pub target_eq : Eq Target
target_eq = record { beq = target_beq; beq_iff = target_beq_iff }

-- The two index loops of `Equal`. The second list is as long as the first where it is called.
pub same_items {ℓ} : {A : Type ℓ} ⦃e : Eq A⦄ → List A → List A → Bool
same_items [] ys = true
same_items (x ∷ xs) [] = false
same_items (x ∷ xs) (y ∷ ys) = if x == y then same_items xs ys else false

equal_values : Runtime → Runtime → Bool
unfolding same_items
equal_values r other =
    if not (r.discovery_interval_seconds == other.discovery_interval_seconds)
      || not (r.discovery_min_interval_seconds == other.discovery_min_interval_seconds)
      || not (r.check_in_interval_seconds == other.check_in_interval_seconds)
      || not (length r.subnets == length other.subnets)
      || not (length r.targets == length other.targets)
    then false
    else if same_items r.subnets other.subnets
    then same_items r.targets other.targets
    else false

-- `Runtime.Equal`; a nil pointer is `none`.
unfoldable pub equal : Option Runtime → Option Runtime → Bool
unfolding equal_values
equal none none = true
equal none (some other) = false
equal (some r) none = false
equal (some r) (some other) = equal_values r other

-- What the package `net` says of texts: the code calls it, and its documentation gives the laws
-- that a theorem names.
pub record NetText : Type 0 where
  pub parse_ip : Text → Option Ip
  pub ip_text : Ip → Text
  pub parse_cidr : Text → Option (Ip × IpNet)
  pub net_text : IpNet → Text

pub data ValidateError : Type 0 where
  interval_range : ValidateError
  protocol_limits : ValidateError
  invalid_subnet : Text → ValidateError
  unswept_subnet : NetError → ValidateError
  duplicate_subnet : Text → ValidateError
  invalid_target : ℤ → ValidateError
  invalid_mac : ℤ → ValidateError

-- A test of the form `low <= value && value <= high`.
pub within : ℕ → ℕ → ℤ → Bool
within low high (pos n) = leb low n && leb n high
within low high (negsuc n) = false

pub interval_loop : List ℤ → Option ValidateError
unfolding within
interval_loop [] = none
interval_loop (seconds ∷ rest) =
    if within 0 86400 seconds then interval_loop rest else some interval_range

pub positive : ℤ → Bool
positive (pos n) = ltb 0 n
positive (negsuc n) = false

pub check_swept : HostsResult → Option ValidateError
check_swept (hosts_ok listed) = none
check_swept (hosts_error e) = some (unswept_subnet e)

-- The first error: what an early return leaves.
pub or_else : Option ValidateError → Option ValidateError → Option ValidateError
or_else none next = next
or_else (some e) next = some e

pub usable_address : Option Ip → Bool
usable_address none = false
usable_address (some ip) = is_v4 ip && is_private ip

module _ (net : NetText) where
  -- What one pass of the subnet loop checks before it looks for a duplicate.
  pub check_subnet : Text → Option (Ip × IpNet) → Option ValidateError
  unfolding check_swept
  check_subnet cidr none = some (invalid_subnet cidr)
  check_subnet cidr (some (ip, network)) =
      if is_v4 ip && (is_private ip && net.net_text network == cidr)
      then check_swept (hosts network)
      else some (invalid_subnet cidr)

  pub subnet_loop : List Text → Map Text Bool → Option ValidateError
  unfolding check_subnet or_else
  subnet_loop [] seen = none
  subnet_loop (cidr ∷ rest) seen =
      let next = subnet_loop rest (put seen cidr true) in
      or_else (check_subnet cidr (net.parse_cidr cidr))
        (if flag (seen cidr) then some (duplicate_subnet cidr) else next)

  pub check_target : Target → Map ℤ Bool → Option ValidateError
  unfolding usable_address within positive
  check_target t ids =
      if not (positive t.id)
        || flag (ids t.id)
        || not (usable_address (net.parse_ip t.ip))
        || not (within 1 86400 t.interval_seconds)
      then some (invalid_target t.id)
      else if not (t.mac == []) && normalise_mac t.mac == []
      then some (invalid_mac t.id)
      else none

  pub target_loop : List Target → Map ℤ Bool → Option ValidateError
  unfolding check_target or_else
  target_loop [] ids = none
  target_loop (t ∷ rest) ids =
      let next = target_loop rest (put ids t.id true) in or_else (check_target t ids) next

  -- `Runtime.Validate`: `none` is the nil error.
  unfoldable pub validate : Runtime → Option ValidateError
  unfolding interval_loop subnet_loop target_loop or_else
  validate r =
      or_else
        (interval_loop (
          r.discovery_interval_seconds ∷ r.discovery_min_interval_seconds
          ∷ r.check_in_interval_seconds ∷ []))
        (if ltb 32 (length r.subnets) || ltb 512 (length r.targets)
          then some protocol_limits
          else or_else (subnet_loop r.subnets empty) (target_loop r.targets empty))
