-- ===== src/Discover/Icmp/Asked.antt =====
-- internal/discover/icmp.go: what a probe without an error has asked.
use pulsitor_lan_agent.Base.{
  ℕ, zero, suc, ◌+◌, ◌<◌, ◌≡◌, ◌⊎◌, inl, inr, refl, subst, Bool, true, false, not, ◌&&◌, Option,
  none, some, List, [], ◌∷◌, arith, ltb, if◌then◌else◌, if_both, if_split, nat_eq, Text, text_eq,
  texts_eq, int_eq, length,
}
use pulsitor_lan_agent.Discover.Net.{Ip}
use pulsitor_lan_agent.Discover.Icmp.Packet.{probe_packet}
use pulsitor_lan_agent.Discover.Icmp.Connection.{
  Written, sent, host_unreachable, host_down, net_unreachable, net_down, other_error, is_absence,
  is_failure, ProbeError, read_error, Connection, undelivered, probe_nonce, probe_with_connection,
  probe_error, probe, probe_context,
}

-- The four errors of a write with which the kernel says that nobody can be at the address.
pub data SaysAbsent : Written → Type 0 where
  no_host : SaysAbsent host_unreachable
  down_host : SaysAbsent host_down
  no_net : SaysAbsent net_unreachable
  down_net : SaysAbsent net_down

module _ (parse_ip : Text → Option Ip) (ip_text : Ip → Text) where
  -- The probe for the host at `index` was due in time, and it was sent, or the kernel answered that
  -- the host or its network is down or cannot be reached.
  abbrev pub IsAsked : Connection → Text → ℕ → Type 0
  IsAsked c nonce index =
      (c.late index ≡ false)
      × ((c.write index (probe_packet index nonce) ≡ sent)
          ⊎ SaysAbsent (c.write index (probe_packet index nonce)))

  asked_here :
      (w : Written) → (is_failure w && not (is_absence w)) ≡ false → (w ≡ sent) ⊎ SaysAbsent w
  unfolding is_failure is_absence
  asked_here sent h = inl refl
  asked_here host_unreachable h = inr no_host
  asked_here host_down h = inr down_host
  asked_here net_unreachable h = inr no_net
  asked_here net_down h = inr down_net
  asked_here other_error h = absurd (cc h)

  later-IsAsked :
      (c : Connection) (nonce : Text) (index n : ℕ)
      → IsAsked c nonce index
      → ((j : ℕ) → j < n → IsAsked c nonce (suc index + j))
      → (j : ℕ) → j < suc n
      → IsAsked c nonce (index + j)
  later-IsAsked c nonce index n here later zero low = subst (IsAsked c nonce) (omega arith) here
  later-IsAsked c nonce index n here later (suc j) low =
      subst (IsAsked c nonce) (omega arith) (later j (omega arith))

  no_error :
      (breaks : Bool) (n : ℕ)
      → probe_error parse_ip ip_text n (if breaks then some read_error else none) ≡ none
      → n ≡ 0
  unfolding probe_error
  no_error true n h = absurd (cc h)
  no_error false n h =
      if_split (λ (e : Option ProbeError). e ≡ none → n ≡ 0) (ltb 0 n) _ _ (λ e h. absurd (cc h))
        (λ e h. ground arith) h

  undelivered_none :
      (c : Connection) (nonce : Text) (index : ℕ) (hosts : List Ip)
      → undelivered parse_ip ip_text c nonce index hosts ≡ 0
      → (j : ℕ) → j < length hosts
      → IsAsked c nonce (index + j)
  unfolding undelivered
  undelivered_none c nonce index [] h = λ j low. absurd (omega arith)
  undelivered_none c nonce index (host ∷ rest) h =
      let written = c.write index (probe_packet index nonce) in
      let later = undelivered parse_ip ip_text c nonce (suc index) rest in
      let Asked = (j : ℕ) → j < suc (length rest) → IsAsked c nonce (index + j) in
      if_split (λ (n : ℕ). n ≡ 0 → Asked) (c.late index) _ _ (λ late h. absurd (omega arith))
        (λ early.
          if_split (λ (n : ℕ). n ≡ 0 → Asked) (is_failure written && not (is_absence written)) _ _
            (λ bad h. absurd (omega arith))
            (λ fine h.
              later-IsAsked c nonce index (length rest) (early, asked_here written fine)
                (undelivered_none c nonce (suc index) rest h)))
        h

  probe_nonce-IsAsked :
      (c : Connection) (hosts : List Ip) (o : Option Text)
      → c.nonce ≡ o
      → let (found, unsent_probes, error) = probe_nonce parse_ip ip_text c hosts o in
        probe_error parse_ip ip_text unsent_probes error ≡ none
        → (nonce : Text) × ((c.nonce ≡ some nonce)
            × ((j : ℕ) → j < length hosts → IsAsked c nonce j))
  unfolding probe_nonce probe_error
  probe_nonce-IsAsked c hosts none e h = absurd (cc h)
  probe_nonce-IsAsked c hosts (some nonce) e h =
      let n = undelivered parse_ip ip_text c nonce 0 hosts in
      (
        nonce,
        (
          e,
          λ j low.
              subst (IsAsked c nonce) (omega arith)
                (undelivered_none c nonce 0 hosts (no_error c.breaks n h) j low),
        ),
      )

  -- A probe that gives no error has asked every host before the time was over: each packet was
  -- sent, or its write failed with one of the four errors that say the host or its network is down
  -- or out of reach.
  pub probe_context-IsAsked :
      (in_time : Bool) (c : Connection) (host : Ip) (rest : List Ip)
      → (probe_context parse_ip ip_text in_time (some c) (host ∷ rest)).1 ≡ none
      → (nonce : Text) × ((c.nonce ≡ some nonce)
          × ((j : ℕ) → j < length (host ∷ rest) → IsAsked c nonce j))
  unfolding probe_context probe probe_with_connection probe_error
  probe_context-IsAsked in_time c host rest h =
      let Asked =
        (nonce : Text) × ((c.nonce ≡ some nonce)
          × ((j : ℕ) → j < length (host ∷ rest) → IsAsked c nonce j)) in
      let P : List Ip × ℕ × Option ProbeError → Type 0 =
        λ r. probe_error parse_ip ip_text r.1 r.2 ≡ none → Asked in
      if_both P (not in_time) _ _ (λ h. absurd (cc h))
        (if_both P (not c.in_time) _ _ (λ h. absurd (cc h))
          (if_both P (not c.sets_deadline) _ _ (λ h. absurd (cc h))
            (probe_nonce-IsAsked c (host ∷ rest) c.nonce refl)))
        h
