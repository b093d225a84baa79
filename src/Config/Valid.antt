-- ===== src/Config/Valid.antt =====
-- `Runtime.Validate` of internal/config/config.go accepts exactly the usable configurations.
use pulsitor_lan_agent.Base.{
  ◌≤◌, ◌≡◌, ◌↔◌, refl, sym, subst, Bool, true, false, ◌||◌, none, List, [], ◌∷◌, map, arith, ltb,
  Eq, nat_eq, Text, text_eq, ℤ, int_eq, Map, empty, flag, put, put_self, put_ne, length, All, In,
  Distinct, All_of_In, All-map,
}
use pulsitor_lan_agent.Config.{
  Target, Runtime, target_eq, NetText, protocol_limits, within, interval_loop, subnet_loop,
  target_loop, validate,
}
use pulsitor_lan_agent.Config.Checks.{
  Between, IsSubnet, IsTarget, or_else-none, guard-none, within_iff, check_subnet_sound,
  check_subnet_complete, check_target_iff,
}

-- The keys of a list are new to a set, and to one with another key, exactly if that key is not
-- among them.
module _ {K : Type 0} ⦃e : Eq K⦄ where
  abbrev Fresh : Map K Bool → List K → Type 0
  Fresh seen ks = All (λ d. flag (seen d) ≡ false) ks

  Fresh-put_iff :
      (seen : Map K Bool) (k : K) (ks : List K)
      → Fresh (put seen k true) ks ↔ ((¬ In k ks) × Fresh seen ks)
  Fresh-put_iff seen k ks = (
    λ h. (
      λ i. absurd (ground (arith, All_of_In _ ks k h i, put_self seen k true)),
      All-map _ _ ks (λ d i f. ground (arith, e.beq_iff k d)) h,
    ),
    λ h.
        All-map _ _ ks
          (λ d i f.
            ground (arith, put_ne seen k d true (λ p. h.0 (subst (λ x. In x ks) (sym p) i))))
          h.1,
  )

module _ (net : NetText) where
  subnet_loop_iff :
      (cidrs : List Text) (seen : Map Text Bool)
      → (subnet_loop net cidrs seen ≡ none)
        ↔ (All (IsSubnet net) cidrs × Fresh seen cidrs × Distinct cidrs)
  unfolding subnet_loop
  subnet_loop_iff [] seen = (λ h. (tt, tt, tt), λ h. refl)
  subnet_loop_iff (cidr ∷ rest) seen = (
    λ h.
        let (good, later) = (or_else-none _ _).0 h in
        let (new, ok) = (guard-none (flag (seen cidr)) _ _).0 later in
        let (all, fresh, distinct) = (subnet_loop_iff rest (put seen cidr true)).0 ok in
        let (absent, unseen) = (Fresh-put_iff seen cidr rest).0 fresh in
        ((check_subnet_sound net cidr good, all), (new, unseen), (absent, distinct)),
    λ ((good, all), (new, unseen), (absent, distinct)). (or_else-none _ _).1 (
      check_subnet_complete net cidr good,
      (guard-none (flag (seen cidr)) _ _).1 (
        new,
        (subnet_loop_iff rest (put seen cidr true)).1
            (all, (Fresh-put_iff seen cidr rest).1 (absent, unseen), distinct),
      ),
    ),
  )

  target_loop_iff :
      (ts : List Target) (ids : Map ℤ Bool)
      → (target_loop net ts ids ≡ none)
        ↔ (All (IsTarget net) ts × Fresh ids (map (λ t. t.id) ts) × Distinct (map (λ t. t.id) ts))
  unfolding target_loop
  target_loop_iff [] ids = (λ h. (tt, tt, tt), λ h. refl)
  target_loop_iff (t ∷ rest) ids = (
    λ h.
        let (good, ok) = (or_else-none _ _).0 h in
        let (fits, new) = (check_target_iff net t ids).0 good in
        let (all, fresh, distinct) = (target_loop_iff rest (put ids t.id true)).0 ok in
        let (absent, unseen) = (Fresh-put_iff ids t.id (map (λ t. t.id) rest)).0 fresh in
        ((fits, all), (new, unseen), (absent, distinct)),
    λ ((fits, all), (new, unseen), (absent, distinct)). (or_else-none _ _).1 (
      (check_target_iff net t ids).1 (fits, new),
      (target_loop_iff rest (put ids t.id true)).1
          (all, (Fresh-put_iff ids t.id (map (λ t. t.id) rest)).1 (absent, unseen), distinct),
    ),
  )

  -- A configuration within the protocol's limits.
  pub record IsUsable (r : Runtime) : Type 0 where
    pub discovery : Between 0 86400 r.discovery_interval_seconds
    pub discovery_min : Between 0 86400 r.discovery_min_interval_seconds
    pub check_in : Between 0 86400 r.check_in_interval_seconds
    pub few_subnets : length r.subnets ≤ 32
    pub few_targets : length r.targets ≤ 512
    pub subnets_good : All (IsSubnet net) r.subnets
    pub subnets_distinct : Distinct r.subnets
    pub targets_good : All (IsTarget net) r.targets
    pub ids_distinct : Distinct (map (λ t. t.id) r.targets)

  All-Fresh : {K : Type 0} (ks : List K) → All (λ d. flag (empty {V = Bool} d) ≡ false) ks
  All-Fresh [] = tt
  All-Fresh (k ∷ ks) = (refl, All-Fresh ks)

  interval_loop-none :
      (a b c : ℤ)
      → (interval_loop (a ∷ b ∷ c ∷ []) ≡ none)
        ↔ ((within 0 86400 a ≡ true) × (within 0 86400 b ≡ true) × (within 0 86400 c ≡ true))
  unfolding interval_loop
  interval_loop-none a b c = (λ h. ground arith, λ h. ground arith)

  abbrev too_many : Runtime → Bool
  too_many r = ltb 32 (length r.subnets) || ltb 512 (length r.targets)

  few_enough :
      (r : Runtime) → (too_many r ≡ false) ↔ ((length r.subnets ≤ 32) × (length r.targets ≤ 512))
  few_enough r = (λ h. ground arith, λ h. ground arith)

  -- The checks pass exactly on the usable configurations.
  pub validate_iff : (r : Runtime) → (validate net r ≡ none) ↔ IsUsable r
  unfolding validate
  validate_iff r = (
    λ h.
        let (intervals, next) = (or_else-none _ _).0 h in
        let (a, b, c) =
          (interval_loop-none r.discovery_interval_seconds r.discovery_min_interval_seconds
              r.check_in_interval_seconds).0
            intervals in
        let (few, loops) = (guard-none (too_many r) protocol_limits _).0 next in
        let (subnets, targets) = (or_else-none _ _).0 loops in
        let (all, fresh, distinct) = (subnet_loop_iff r.subnets empty).0 subnets in
        let (every, new, ids) = (target_loop_iff r.targets empty).0 targets in
        record {
          discovery = (within_iff 0 86400 r.discovery_interval_seconds).0 a;
          discovery_min = (within_iff 0 86400 r.discovery_min_interval_seconds).0 b;
          check_in = (within_iff 0 86400 r.check_in_interval_seconds).0 c;
          few_subnets = ((few_enough r).0 few).0;
          few_targets = ((few_enough r).0 few).1;
          subnets_good = all;
          subnets_distinct = distinct;
          targets_good = every;
          ids_distinct = ids;
        },
    λ u. (or_else-none _ _).1 (
      (interval_loop-none r.discovery_interval_seconds r.discovery_min_interval_seconds
            r.check_in_interval_seconds).1
          (
            (within_iff 0 86400 r.discovery_interval_seconds).1 u.discovery,
            (within_iff 0 86400 r.discovery_min_interval_seconds).1 u.discovery_min,
            (within_iff 0 86400 r.check_in_interval_seconds).1 u.check_in,
          ),
      (guard-none (too_many r) protocol_limits _).1 (
        (few_enough r).1 (u.few_subnets, u.few_targets),
        (or_else-none _ _).1 (
          (subnet_loop_iff r.subnets empty).1
              (u.subnets_good, All-Fresh r.subnets, u.subnets_distinct),
          (target_loop_iff r.targets empty).1
              (u.targets_good, All-Fresh (map (λ t. t.id) r.targets), u.ids_distinct),
        ),
      ),
    ),
  )
