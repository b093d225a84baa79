-- ===== src/Discover/Local/Guard.antt =====
-- Probes stay inside the networks that the host is attached to.
use pulsitor_lan_agent.Base.{
  ◌≡◌, inl, inr, refl, true, false, not, ◌&&◌, some, List, [], ◌∷◌, arith, Bool-cases, &&-true,
  nat_eq, text_eq, texts_eq, int_eq, In, keep, keep-In,
}
use pulsitor_lan_agent.Discover.Net.{Ip, contains, is_edge_address}
use pulsitor_lan_agent.Discover.Sweep.{Attached}
use pulsitor_lan_agent.Discover.Local.{is_local, probe_local}
use pulsitor_lan_agent.Agent.Probing.{Reply}

-- A host that one of the networks contains, and that is no edge of it.
abbrev pub Inside : List Attached → Ip → Type 0
Inside found ip =
    (a : Attached) × In a found × (contains a.net ip ≡ true) × (is_edge_address ip a.net ≡ false)

is_local-Inside : (found : List Attached) (ip : Ip) → is_local found ip ≡ true → Inside found ip
unfolding is_local
is_local-Inside [] ip h = absurd (cc h)
is_local-Inside (a ∷ rest) ip h =
    elim (Bool-cases (contains a.net ip && not (is_edge_address ip a.net))) [
      | inl here ↦
          let (inside, host) = &&-true (contains a.net ip) (not (is_edge_address ip a.net)) here in
          (a, inl refl, inside, ground arith)
      | inr elsewhere ↦
          let (b, i, p, q) = is_local-Inside rest ip (rw elsewhere at h) in (b, inr i, p, q)
    ]

-- Probing depends on nothing outside the attached networks: two ways of answering that agree on
-- every list of hosts inside them give the same outcome, whatever hosts are asked for.
pub probe_local-Inside :
    (found : List Attached) (probe probe' : List Ip → Reply) (hosts : List Ip)
    → ((asked : List Ip) → ((ip : Ip) → In ip asked → Inside found ip) → probe asked ≡ probe' asked)
    → probe_local (some found) probe hosts ≡ probe_local (some found) probe' hosts
unfolding probe_local
probe_local-Inside found probe probe' hosts same =
    rw
      (same (keep (is_local found) hosts)
        (λ ip i. is_local-Inside found ip (keep-In (is_local found) hosts ip i).1))
      refl
