-- ===== src/Discover/Net/Laws.antt =====
-- `Hosts` of internal/discover/interfaces.go lists exactly the hosts of its network.
use native.Mathlib.Nat.{pow-zero, pow-suc, one-mul, zero-add, suc-add}
use pulsitor_lan_agent.Base.{
  ℕ, zero, suc, ◌+◌, ◌-◌, ◌*◌, ◌/◌, ◌%◌, ◌^◌, ◌≤◌, ◌<◌, ◌≡◌, ◌≢◌, ◌↔◌, inl, inr, refl, sym, ap, ◌∙◌,
  Bool, true, false, ◌&&◌, ◌||◌, List, ◌∷◌, arith, ltb, if◌then◌else◌, ltb_false→le, nat_beq_iff,
  Bool-cases, ◌==◌, nat_eq, text_eq, int_eq, In, ℕ_discrete,
}
use pulsitor_lan_agent.Discover.Net.{
  Ip, v4, v6, IpNet, hosts, hosts_ok, hosts_error, too_wide, is_edge_address, contains, host_loop,
  contains_value, max_hosts,
}

div_window : (a b p : ℕ) → 0 < p → a - a % p ≤ b → b < a - a % p + p → a / p ≡ b / p
div_window a b p h lo hi = grind arith

window_div : (a b p : ℕ) → 0 < p → a / p ≡ b / p → (a - a % p ≤ b) × (b < a - a % p + p)
window_div a b p h e = grind arith

window_top : (a p q : ℕ) → 0 < p → a < p * q → a - a % p + p ≤ p * q
window_top a p q h lt = grind arith

-- A value in the window of `total` addresses from `start`, neither the first nor the last of them
-- where there are more than two.
abbrev IsHost : ℕ → ℕ → ℕ → Type 0
IsHost start total value =
    (start ≤ value)
    × (value < start + total)
    × (2 < total → (value ≢ start) × (value + 1 ≢ start + total))

abbrev skipped : ℕ → ℕ → Bool
skipped offset total = ltb 2 total && (offset == 0 || offset == total - 1)

skipped-IsHost :
    (start total offset : ℕ)
    → offset < total
    → (skipped offset total ≡ false) ↔ IsHost start total (start + offset)
skipped-IsHost start total offset h = (
  λ s. (
    omega arith,
    omega arith,
    λ big. ((λ first. absurd (ground arith)), (λ last. absurd (ground arith))),
  ),
  λ host. ground arith,
)

host_loop_sound :
    (left offset total start : ℕ) (ip : Ip)
    → offset + left ≡ total
    → start + total ≤ 2 ^ 32
    → In ip (host_loop left offset total start)
    → (value : ℕ) × (ip ≡ v4 value) × IsHost start total value
unfolding host_loop
host_loop_sound zero offset total start ip e fits i = absurd i
host_loop_sound (suc left) offset total start ip e fits i =
    elim (Bool-cases (skipped offset total)) [
      | inl skip ↦
          host_loop_sound left (offset + 1) total start ip (omega arith) fits (rw skip at i)
      | inr host ↦
          go host (rw host at i)
            (host_loop_sound left (offset + 1) total start ip (omega arith) fits)
    ]
  where
    go :
        skipped offset total ≡ false
        → In ip (v4 ((start + offset) % 2 ^ 32) ∷ host_loop left (offset + 1) total start)
        → (In ip (host_loop left (offset + 1) total start)
            → (value : ℕ) × (ip ≡ v4 value) × IsHost start total value)
        → (value : ℕ) × (ip ≡ v4 value) × IsHost start total value
    go host (inl p) ih = (
      start + offset,
      p ∙ ap v4 (omega arith),
      (skipped-IsHost start total offset (omega arith)).0 host,
    )
    go host (inr j) ih = ih j

host_loop_complete :
    (left offset total start value : ℕ)
    → offset + left ≡ total
    → start + total ≤ 2 ^ 32
    → start + offset ≤ value
    → IsHost start total value
    → In (v4 value) (host_loop left offset total start)
unfolding host_loop
host_loop_complete zero offset total start value e fits from host = absurd (omega arith)
host_loop_complete (suc left) offset total start value e fits from host =
    elim (Bool-cases (skipped offset total)) [
      | inl skip ↦ rw skip (elim (ℕ_discrete value (start + offset)) [
        | yes here ↦ absurd (ground (arith, skipped-IsHost start total offset (omega arith)))
        | no later ↦
            host_loop_complete left (offset + 1) total start value (omega arith) fits (omega arith)
              host
      ])
      | inr listed ↦ rw listed (elim (ℕ_discrete value (start + offset)) [
        | yes here ↦ inl (ap v4 (omega arith))
        | no later ↦ inr (
            host_loop_complete left (offset + 1) total start value (omega arith) fits (omega arith)
              host)
      ])
    ]

pow_split : (a b : ℕ) → 2 ^ a * 2 ^ b ≡ 2 ^ (a + b)
pow_split zero b = simp (pow-zero, one-mul, zero-add)
pow_split (suc a) b = rw (pow-suc 2 a, suc-add, pow-suc 2 (a + b)) (grind (arith, pow_split a b))

-- The masks of 32 bits split 2 ^ 32 into windows.
mask_window : (ones : ℕ) → ones ≤ 32 → 2 ^ (32 - ones) * 2 ^ ones ≡ 2 ^ 32
mask_window ones h =
    let e : 32 - ones + ones ≡ 32 = omega arith in pow_split (32 - ones) ones ∙ ap (λ n. 2 ^ n) e

pow_small : (k : ℕ) → (k < 2 → 2 ^ k ≤ 2) × (2 ≤ k → 4 ≤ 2 ^ k) × (0 < 2 ^ k)
pow_small zero = (λ h. omega arith, λ h. absurd (omega arith), omega arith)
pow_small (suc zero) = (λ h. omega arith, λ h. absurd (omega arith), omega arith)
pow_small (suc (suc k)) =
    let (small, large, positive) = pow_small k in
    (
      λ h. absurd (omega arith),
      λ h. rw (pow-suc 2 (suc k), pow-suc 2 k) (omega arith),
      rw (pow-suc 2 (suc k), pow-suc 2 k) (omega arith),
    )

-- The IPv4 network of an address and a mask of `ones` bits.
abbrev pub net4 : ℕ → ℕ → IpNet
net4 a ones = record { ip = v4 a; ones = ones; bits = 32 }

-- The test of `isEdgeAddress` on numbers: `k` host bits, a window of `p` addresses.
abbrev edge_test : ℕ → ℕ → ℕ → ℕ → Bool
edge_test k p start value =
    if ltb k 2 then false else value == start || value == (start + p % 2 ^ 32 + 2 ^ 32 - 1) % 2 ^ 32

edge_test_sound :
    (k p start value : ℕ)
    → (k < 2 → p ≤ 2) × (2 ≤ k → 4 ≤ p)
    → p ≤ 1024
    → edge_test k p start value ≡ false
    → start + p ≤ 2 ^ 32
    → 2 < p
    → (value ≢ start) × (value + 1 ≢ start + p)
edge_test_sound k p start value bits narrow h fits big =
    ((λ first. absurd (ground arith)), (λ last. absurd (ground arith)))

edge_test_complete :
    (k p start value : ℕ)
    → (k < 2 → p ≤ 2) × (2 ≤ k → 4 ≤ p)
    → p ≤ 1024
    → start + p ≤ 2 ^ 32
    → IsHost start p value
    → edge_test k p start value ≡ false
edge_test_complete k p start value bits narrow fits host = ground arith

module _ (a ones : ℕ) (h : ones ≤ 32) (fits : a < 2 ^ 32) where
  window_fits : a - a % 2 ^ (32 - ones) + 2 ^ (32 - ones) ≤ 2 ^ 32
  window_fits =
      let top = window_top a (2 ^ (32 - ones)) (2 ^ ones) (pow_small (32 - ones)).2 in
      rw (mask_window ones h) at (top (rw (mask_window ones h) fits))

  edge-IsHost :
      (value : ℕ)
      → 2 ^ (32 - ones) ≤ max_hosts
      → IsHost (a - a % 2 ^ (32 - ones)) (2 ^ (32 - ones)) value ↔ (
          (contains (net4 a ones) (v4 value) ≡ true)
          × (is_edge_address (v4 value) (net4 a ones) ≡ false))
  unfolding contains is_edge_address contains_value
  edge-IsHost value narrow =
      let (small, large, positive) = pow_small (32 - ones) in
      (
        λ host. (
          (nat_beq_iff (a / 2 ^ (32 - ones)) (value / 2 ^ (32 - ones))).1
              (div_window a value (2 ^ (32 - ones)) positive host.0 host.1),
          edge_test_complete (32 - ones) (2 ^ (32 - ones)) (a - a % 2 ^ (32 - ones)) value
              (small, large) narrow window_fits host,
        ),
        λ (p : (contains (net4 a ones) (v4 value) ≡ true)
              × (is_edge_address (v4 value) (net4 a ones) ≡ false)).
            let e = (nat_beq_iff (a / 2 ^ (32 - ones)) (value / 2 ^ (32 - ones))).0 p.0 in
            let (lo, hi) = window_div a value (2 ^ (32 - ones)) positive e in
            (
              lo,
              hi,
              edge_test_sound (32 - ones) (2 ^ (32 - ones)) (a - a % 2 ^ (32 - ones)) value
                  (small, large) narrow p.1 window_fits,
            ),
      )

  -- `hosts` on such a network, with its guard and its loop.
  hosts-net4 : hosts (net4 a ones) ≡ (
      if ltb max_hosts (2 ^ (32 - ones))
      then hosts_error too_wide
      else hosts_ok (host_loop (2 ^ (32 - ones)) 0 (2 ^ (32 - ones)) (a - a % 2 ^ (32 - ones))))
  unfolding hosts
  hosts-net4 = refl

  hosts-listed :
      {listed : List Ip}
      → hosts (net4 a ones) ≡ hosts_ok listed
      → (2 ^ (32 - ones) ≤ max_hosts)
        × (listed ≡ host_loop (2 ^ (32 - ones)) 0 (2 ^ (32 - ones)) (a - a % 2 ^ (32 - ones)))
  hosts-listed e =
      let found = sym hosts-net4 ∙ e in
      elim (Bool-cases (ltb max_hosts (2 ^ (32 - ones)))) [
        | inl wide ↦ absurd (cc (rw wide at found))
        | inr narrow ↦ (ltb_false→le _ _ narrow, sym (cc (rw narrow at found)))
      ]

  hosts_sound :
      (ip : Ip)
      → 2 ^ (32 - ones) ≤ max_hosts
      → In ip (host_loop (2 ^ (32 - ones)) 0 (2 ^ (32 - ones)) (a - a % 2 ^ (32 - ones)))
      → (contains (net4 a ones) ip ≡ true) × (is_edge_address ip (net4 a ones) ≡ false)
  hosts_sound ip narrow i =
      let (value, e, host) =
        host_loop_sound (2 ^ (32 - ones)) 0 (2 ^ (32 - ones)) (a - a % 2 ^ (32 - ones)) ip
          (omega arith) window_fits i in
      rw e ((edge-IsHost value narrow).0 host)

  hosts_complete :
      (ip : Ip)
      → 2 ^ (32 - ones) ≤ max_hosts
      → (contains (net4 a ones) ip ≡ true) × (is_edge_address ip (net4 a ones) ≡ false)
      → In ip (host_loop (2 ^ (32 - ones)) 0 (2 ^ (32 - ones)) (a - a % 2 ^ (32 - ones)))
  unfolding contains
  hosts_complete (v6 b) narrow p = cc p.0
  hosts_complete (v4 value) narrow p =
      let host = (edge-IsHost value narrow).1 p in
      host_loop_complete (2 ^ (32 - ones)) 0 (2 ^ (32 - ones)) (a - a % 2 ^ (32 - ones)) value
        (omega arith) window_fits (omega arith) host

  -- Of an IPv4 network that is not refused as too wide, exactly the addresses are listed that it
  -- contains and that are no edge of it.
  pub hosts_exact :
      {listed : List Ip} (ip : Ip)
      → hosts (net4 a ones) ≡ hosts_ok listed
      → In ip listed
        ↔ ((contains (net4 a ones) ip ≡ true) × (is_edge_address ip (net4 a ones) ≡ false))
  hosts_exact ip e =
      let (narrow, same) = hosts-listed e in
      rw same (hosts_sound ip narrow, hosts_complete ip narrow)
