-- ===== src/Agent/Probing/Laws.antt =====
-- What each loop of `probeTargetsContext` in internal/agent/agent.go does to one target.
use pulsitor_lan_agent.Base.{
  ◌≡◌, ◌≢◌, ◌⊎◌, inl, inr, refl, Bool, true, false, not, ◌&&◌, Option, none, some, List, [], ◌∷◌,
  arith, if◌then◌else◌, Bool-cases, Option-cases, ◌==◌, nat_eq, Text, text_eq, texts_eq, beq→eq, ℤ,
  int_beq_iff, int_eq, Map, empty, flag, put, put_self, put_ne, remove_ne, In, Distinct, for_each,
  for_each-at,
}
use pulsitor_lan_agent.Discover.Net.{Ip}
use pulsitor_lan_agent.Config.{NetText, Target}
use pulsitor_lan_agent.Report.{Observation}
use pulsitor_lan_agent.Schedule.Applying.{target_ids}
use pulsitor_lan_agent.Agent.Neighbours.{Neighbours, holder}
use pulsitor_lan_agent.Agent.Probing.{
  online_at, offline, address_set, answers, positive_loop, observe_loop, set_online, held_by,
  settle,
}

module _ (net : NetText) where
  address_set-at :
      (ips : List Ip) (set : Map Text Bool) (a : Text)
      → flag (address_set net ips set a) ≡ true
      → ((ip : Ip) × In ip ips × (net.ip_text ip ≡ a)) ⊎ (flag (set a) ≡ true)
  unfolding address_set for_each
  address_set-at [] set a h = inr h
  address_set-at (ip ∷ rest) set a h =
      elim (address_set-at rest (put set (net.ip_text ip) true) a h) [
        | inl (found, i, e) ↦ inl (found, inr i, e)
        | inr q ↦ elim (Bool-cases (net.ip_text ip == a)) [
          | inl own ↦ inl (ip, inl refl, beq→eq (net.ip_text ip) a own)
          | inr other ↦ inr (rw other at q)
        ]
      ]

  -- An address that is in the set of a probe's answers is one of them.
  pub address_set-answered :
      (ips : List Ip) (a : Text)
      → flag (address_set net ips empty a) ≡ true
      → (ip : Ip) × In ip ips × (net.ip_text ip ≡ a)
  address_set-answered ips a h = elim (address_set-at ips empty a h) [ inl x ↦ x | inr q ↦ cc q ]

  module _ (answered : Map Text Bool) (table : Neighbours) where
    unfoldable pub observed : Target → Observation
    observed t = if answers net answered table t then online_at t t.ip else offline t

    pub observe_loop-at :
        (ts : List Target) (t : Target)
        → Distinct (target_ids ts)
        → In t ts
        → observe_loop net answered table ts empty t.id ≡ some (observed t)
    unfolding observe_loop observed
    observe_loop-at ts t d i =
        for_each-at (λ (t : Target). t.id)
          (λ t obs.
            put obs t.id (if answers net answered table t then online_at t t.ip else offline t))
          (λ t o. some (if answers net answered table t then online_at t t.ip else offline t))
          (λ t m. put_self m t.id _) (λ t m k h. put_ne m t.id k _ h) ts empty t d i

    pub positive_loop-online :
        (ts : List Target) (obs : Map ℤ Observation)
        → ((id : ℤ) (o : Observation) → obs id ≡ some o → o.online ≡ true)
        → (id : ℤ) (o : Observation) → positive_loop net answered table ts obs id ≡ some o
        → o.online ≡ true
    unfolding positive_loop for_each online_at
    positive_loop-online [] obs h id o e = h id o e
    positive_loop-online (t ∷ rest) obs h id o e =
        positive_loop-online rest _
          (λ k v q. elim (Bool-cases (answers net answered table t)) [
            | inl found ↦ elim (Bool-cases (t.id == k)) [
              | inl own ↦ let same : v ≡ online_at t t.ip = cc (rw (found, own) at q) in rw same
              | inr other ↦ h k v (rw (found, other) at q)
            ]
            | inr silent ↦ h k v (rw silent at q)
          ])
          id o e

-- An observation made online at another address.
unfoldable pub upgraded : Text → Option Observation → Option Observation
upgraded ip none = none
upgraded ip (some v) = some (record v { online = true; ip = ip })

pub set_online-own :
    (obs : Map ℤ Observation) (id : ℤ) (ip : Text) → set_online obs id ip id ≡ upgraded ip (obs id)
unfolding set_online upgraded
set_online-own obs id ip = elim (Option-cases (obs id)) [
  | inl missing ↦ rw (missing, upgraded) (rw (missing, set_online) missing)
  | inr (o, found) ↦ rw (found, upgraded) (rw (found, set_online) (put_self obs id _))
]

set_online-other :
    (obs : Map ℤ Observation) (id k : ℤ) (ip : Text) → id ≢ k → set_online obs id ip k ≡ obs k
unfolding set_online
set_online-other obs id k ip h = elim (Option-cases (obs id)) [
  | inl missing ↦ rw (missing, set_online)
  | inr (o, found) ↦ rw (found, set_online) (put_ne obs id k _ h)
]

module _ (net : NetText) where
  unfoldable pub reached : Map Text Bool → Ip → Bool
  reached reachable ip = flag (reachable (net.ip_text ip))

  module _ (failed : Bool) (reachable : Map Text Bool) (fresh : Neighbours) where
    -- What the second probe makes of the observation of one target.
    unfoldable pub settled : Target → Option Ip → Option Observation → Option Observation
    settled t none o = o
    settled t (some ip) o =
        if failed && not (reached reachable ip)
        then none
        else if reached reachable ip && held_by (holder fresh (net.ip_text ip)) t
        then upgraded (net.ip_text ip) o
        else o

    pub settle-own :
        (t : Target) (c : Option Ip) (obs : Map ℤ Observation)
        → settle net failed reachable fresh t c obs t.id ≡ settled t c (obs t.id)
    unfolding settle settled reached
    settle-own t none obs = refl
    settle-own t (some ip) obs = elim (Bool-cases (failed && not (reached reachable ip))) [
      | inl lost ↦ rw lost (ground (arith, int_beq_iff t.id t.id))
      | inr asked ↦
          elim (Bool-cases (reached reachable ip && held_by (holder fresh (net.ip_text ip)) t)) [
            | inl there ↦ rw (asked, there) (set_online-own obs t.id (net.ip_text ip))
            | inr not_there ↦ rw (asked, not_there)
          ]
    ]

    pub settle-other :
        (t : Target) (c : Option Ip) (obs : Map ℤ Observation) (k : ℤ)
        → t.id ≢ k
        → settle net failed reachable fresh t c obs k ≡ obs k
    unfolding settle reached
    settle-other t none obs k h = refl
    settle-other t (some ip) obs k h = elim (Bool-cases (failed && not (reached reachable ip))) [
      | inl lost ↦ rw lost (remove_ne obs t.id k h)
      | inr asked ↦
          elim (Bool-cases (reached reachable ip && held_by (holder fresh (net.ip_text ip)) t)) [
            | inl there ↦ rw (asked, there) (set_online-other obs t.id k (net.ip_text ip) h)
            | inr not_there ↦ rw (asked, not_there)
          ]
    ]

-- A loop body that writes its own key only if a test holds.
put_if_self :
    (b : Bool) (m : Map ℤ Observation) (id : ℤ) (o : Observation)
    → (if b then put m id o else m) id ≡ (if b then some o else m id)
put_if_self true m id o = put_self m id o
put_if_self false m id o = refl

put_if_ne :
    (b : Bool) (m : Map ℤ Observation) (id k : ℤ) (o : Observation)
    → id ≢ k
    → (if b then put m id o else m) k ≡ m k
put_if_ne true m id k o h = put_ne m id k o h
put_if_ne false m id k o h = refl

-- After a failed send a target has an observation exactly if it answered.
pub positive_loop-at :
    (net : NetText) (answered : Map Text Bool) (table : Neighbours) (ts : List Target) (t : Target)
    → Distinct (target_ids ts)
    → In t ts
    → positive_loop net answered table ts empty t.id
      ≡ (if answers net answered table t then some (online_at t t.ip) else none)
unfolding positive_loop
positive_loop-at net answered table ts t d i =
    for_each-at (λ (t : Target). t.id)
      (λ t obs. if answers net answered table t then put obs t.id (online_at t t.ip) else obs)
      (λ t o. if answers net answered table t then some (online_at t t.ip) else o)
      (λ t m. put_if_self (answers net answered table t) m t.id (online_at t t.ip))
      (λ t m k h. put_if_ne (answers net answered table t) m t.id k (online_at t t.ip) h) ts empty t
      d i
