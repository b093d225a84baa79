-- ===== src/Agent/Round/Laws.antt =====
-- What the rescue of a round changes: a target is found only by its MAC.
use pulsitor_lan_agent.Base.{
  ◌≡◌, ◌≢◌, ◌⊎◌, inl, inr, refl, sym, ap, subst, ◌∙◌, true, Option, none, some, List, [], ◌∷◌,
  Bool-cases, Option-cases, is_some, ◌==◌, nat_eq, Text, text_eq, texts_eq, beq→eq, beq_false→ne, ℤ,
  int_eq, Map, empty, In, for_each, for_each-keeps,
}
use pulsitor_lan_agent.Discover.Mac.{normalise_mac}
use pulsitor_lan_agent.Discover.Sweep
use pulsitor_lan_agent.Config.{Target, target_eq}
use pulsitor_lan_agent.Report.{Observation}
use pulsitor_lan_agent.Agent.Probing.Ids.{OwnIds, put-OwnIds}
use pulsitor_lan_agent.Agent.Round.{devices_by_mac, upgrade, rescue_with, rescue_target, rescue}

-- A device stands under the normalised form of its own MAC, which it has.
abbrev Listed : List Sweep.Device → Map Text Sweep.Device → Type 0
Listed devices m =
    (k : Text) (d : Sweep.Device)
    → m k ≡ some d
    → In d devices × (d.mac ≢ []) × (normalise_mac d.mac ≡ k)

devices_by_mac-Listed : (devices : List Sweep.Device) → Listed devices (devices_by_mac devices)
unfolding devices_by_mac
devices_by_mac-Listed devices =
    for_each-keeps (Listed devices) _ devices empty
      (λ device i m h. elim (Bool-cases (device.mac == [])) [
        | inl bare ↦ rw bare h
        | inr has_mac ↦ rw has_mac (λ k d e. elim (Bool-cases (normalise_mac device.mac == k)) [
          | inl own ↦
              let taken : device ≡ d = cc (rw own at e) in
              subst (λ x. In x devices × (x.mac ≢ []) × (normalise_mac x.mac ≡ k)) taken
                (i, beq_false→ne device.mac [] has_mac, beq→eq (normalise_mac device.mac) k own)
          | inr other ↦ h k d (rw other at e)
        ])
      ])
      (λ k d e. absurd (cc e))

-- A sweep found a device with the target's MAC, at the address that is reported.
pub record SweepEvidence (result : Sweep.Result) (t : Target) (o : Observation) : Type 0 where
  pub device : Sweep.Device
  pub was_found : In device result.devices
  pub has_mac : t.mac ≢ []
  pub same_mac : normalise_mac device.mac ≡ normalise_mac t.mac
  pub there : o.ip ≡ device.ip
  pub hostname : o.hostname ≡ device.hostname

module _ (obs : Map ℤ Observation) (unresolved : List Target) (result : Sweep.Result) where
  -- What stands under an id is what stood there, or was found by the sweep.
  unfoldable pub Rescued : Map ℤ Observation → Type 0
  Rescued m =
      (id : ℤ) (o : Observation)
      → m id ≡ some o
      → (obs id ≡ some o)
        ⊎ ((t : Target) × In t unresolved × (t.id ≡ id) × SweepEvidence result t o)

  -- No observation appears or disappears.
  unfoldable pub SameKeys : Map ℤ Observation → Type 0
  SameKeys m = (id : ℤ) → is_some (m id) ≡ is_some (obs id)

  upgrade-Rescued :
      (t : Target) (d : Sweep.Device) (m : Map ℤ Observation) (old : Option Observation)
      → In t unresolved
      → t.mac ≢ []
      → devices_by_mac result.devices (normalise_mac t.mac) ≡ some d
      → Rescued m
      → Rescued (upgrade old d m t.id)
  unfolding Rescued upgrade
  upgrade-Rescued t d m none i has_mac e h = h
  upgrade-Rescued t d m (some o) i has_mac e h = λ id o' f. elim (Bool-cases (t.id == id)) [
    | inl own ↦
        let (j, some_mac, same) = devices_by_mac-Listed result.devices (normalise_mac t.mac) d e in
        let taken : record o { online = true; ip = d.ip; hostname = d.hostname } ≡ o' =
          cc (rw own at f) in
        inr (
          t,
          i,
          beq→eq t.id id own,
          subst (SweepEvidence result t) taken (record {
            device = d;
            was_found = j;
            has_mac = has_mac;
            same_mac = same;
            there = refl;
            hostname = refl;
          }),
        )
    | inr other ↦ h id o' (rw other at f)
  ]

  rescue_with-Rescued :
      (t : Target) (found : Option Sweep.Device) (m : Map ℤ Observation)
      → In t unresolved
      → t.mac ≢ []
      → devices_by_mac result.devices (normalise_mac t.mac) ≡ found
      → Rescued m
      → Rescued (rescue_with found t m)
  unfolding rescue_with
  rescue_with-Rescued t none m i has_mac e h = h
  rescue_with-Rescued t (some d) m i has_mac e h = upgrade-Rescued t d m (m t.id) i has_mac e h

  rescue_target-Rescued :
      (t : Target) (m : Map ℤ Observation)
      → In t unresolved
      → Rescued m
      → Rescued (rescue_target (devices_by_mac result.devices) t m)
  unfolding rescue_target
  rescue_target-Rescued t m i h = elim (Bool-cases (t.mac == [])) [
    | inl bare ↦ rw bare h
    | inr has_mac ↦ rw has_mac (
        rescue_with-Rescued t (devices_by_mac result.devices (normalise_mac t.mac)) m i
          (beq_false→ne t.mac [] has_mac) refl h)
  ]

  rescue-each :
      rescue obs unresolved result
      ≡ for_each (rescue_target (devices_by_mac result.devices)) unresolved obs
  unfolding rescue for_each
  rescue-each = go unresolved
    where
      go :
          (ts : List Target)
          → rescue obs ts result ≡ for_each (rescue_target (devices_by_mac result.devices)) ts obs
      go [] = refl
      go (t ∷ ts) = refl

  pub rescue-Rescued : Rescued (rescue obs unresolved result)
  unfolding Rescued
  rescue-Rescued = rw rescue-each (
      for_each-keeps Rescued (rescue_target (devices_by_mac result.devices)) unresolved obs
        (λ t i m h. rescue_target-Rescued t m i h) (λ id o e. inl e))

  upgrade-SameKeys :
      (old : Option Observation) (d : Sweep.Device) (m : Map ℤ Observation) (id : ℤ)
      → m id ≡ old
      → SameKeys m
      → SameKeys (upgrade old d m id)
  unfolding upgrade SameKeys
  upgrade-SameKeys none d m id e h k = h k
  upgrade-SameKeys (some o) d m id e h k = elim (Bool-cases (id == k)) [
    | inl own ↦ rw own (sym (ap is_some e) ∙ ap (λ j. is_some (m j)) (beq→eq id k own) ∙ h k)
    | inr other ↦ rw other (h k)
  ]

  rescue_target-SameKeys :
      (t : Target) (m : Map ℤ Observation)
      → SameKeys m
      → SameKeys (rescue_target (devices_by_mac result.devices) t m)
  unfolding rescue_target
  rescue_target-SameKeys t m h = elim (Bool-cases (t.mac == [])) [
    | inl bare ↦ rw bare h
    | inr has_mac ↦
        rw has_mac (elim (Option-cases (devices_by_mac result.devices (normalise_mac t.mac))) [
          | inl unknown ↦ rw (unknown, rescue_with) h
          | inr (d, known) ↦ rw (known, rescue_with) (upgrade-SameKeys (m t.id) d m t.id refl h)
        ])
  ]

  pub rescue-SameKeys : SameKeys (rescue obs unresolved result)
  unfolding SameKeys
  rescue-SameKeys = rw rescue-each (
      for_each-keeps SameKeys (rescue_target (devices_by_mac result.devices)) unresolved obs
        (λ t i m h. rescue_target-SameKeys t m h) (λ id. refl))

  upgrade-OwnIds :
      (old : Option Observation) (d : Sweep.Device) (m : Map ℤ Observation) (id : ℤ)
      → m id ≡ old
      → OwnIds m
      → OwnIds (upgrade old d m id)
  unfolding upgrade
  upgrade-OwnIds none d m id e h = h
  upgrade-OwnIds (some o) d m id e h = put-OwnIds m id _ (h id o e) h

  rescue_target-OwnIds :
      (t : Target) (m : Map ℤ Observation)
      → OwnIds m
      → OwnIds (rescue_target (devices_by_mac result.devices) t m)
  unfolding rescue_target
  rescue_target-OwnIds t m h = elim (Bool-cases (t.mac == [])) [
    | inl bare ↦ rw bare h
    | inr has_mac ↦
        rw has_mac (elim (Option-cases (devices_by_mac result.devices (normalise_mac t.mac))) [
          | inl unknown ↦ rw (unknown, rescue_with) h
          | inr (d, known) ↦ rw (known, rescue_with) (upgrade-OwnIds (m t.id) d m t.id refl h)
        ])
  ]

  pub rescue-OwnIds : OwnIds obs → OwnIds (rescue obs unresolved result)
  rescue-OwnIds h = rw rescue-each (
      for_each-keeps OwnIds (rescue_target (devices_by_mac result.devices)) unresolved obs
        (λ t i m h. rescue_target-OwnIds t m h) h)
