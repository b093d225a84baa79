-- ===== src/Discover/Sweep/Presence.antt =====
-- Presence is what answered a probe of an enabled network; the kernel's table adds no device.
use pulsitor_lan_agent.Base.{
  ◌≡◌, inl, inr, refl, sym, ap, subst, ◌∙◌, true, false, not, ◌||◌, Option, none, some, List, [],
  ◌∷◌, arith, ltb, Bool-cases, Option-cases, ◌==◌, nat_eq, Text, text_eq, texts_eq, beq→eq, int_eq,
  Map, empty, flag, put, In, for_each-keeps,
}
use pulsitor_lan_agent.Discover.Net.{Ip, is_private, is_edge_address}
use pulsitor_lan_agent.Discover.Sweep.{
  Device, SweepError, no_probe, sweep_failed, Attached, SweepReply, Seen, is_multicast, store,
  record_address, neighbours_in, record_answers, Progress, swept, allowed_loop, sort_addresses,
  devices_loop, device_for, named, nothing_yet, visit, visit_all, run_context,
}
use pulsitor_lan_agent.Discover.Sweep.Laws.{allowed_loop_iff}
use pulsitor_lan_agent.Config.{NetText}
use pulsitor_lan_agent.Agent.Neighbours.{Neighbor}

module _ (net : NetText) (Q : Text → Type 0) where
  -- Every device stands under its own address, and the address has the property.
  abbrev Kept : Seen → Type 0
  Kept seen = (k : Text) (d : Device) → seen.found k ≡ some d → (d.ip ≡ k) × Q k

  put-Kept :
      (found : Map Text Device) (address : Text) (v : Device)
      → (v.ip ≡ address)
      → Q address
      → ((k : Text) (d : Device) → found k ≡ some d → (d.ip ≡ k) × Q k)
      → (k : Text) (d : Device) → put found address v k ≡ some d
      → (d.ip ≡ k) × Q k
  put-Kept found address v e q h k d f = elim (Bool-cases (address == k)) [
    | inl own ↦
        let same : address ≡ k = beq→eq address k own in
        let taken : v ≡ d = cc (rw own at f) in
        (sym (ap (λ x. x.ip) taken) ∙ e ∙ same, subst Q same q)
    | inr other ↦ h k d (rw other at f)
  ]

  store-Kept :
      (seen : Seen) (address mac : Text)
      → Q address
      → Kept seen
      → Kept (store seen address mac (seen.found address))
  unfolding store
  store-Kept seen address mac q h = elim (Option-cases (seen.found address)) [
    | inl new ↦
        rw (new, store)
          (put-Kept seen.found address (record { mac = mac; ip = address; hostname = [] }) refl q h)
    | inr (old, known) ↦
        rw (known, store)
          (elim (Bool-cases (old.mac == [])) [
            | inl bare ↦
                rw bare (
                  put-Kept seen.found address (record old { mac = mac }) (h address old known).0 q
                    h)
            | inr has_mac ↦ rw has_mac h
          ])
  ]

  record_address-Kept :
      (seen : Seen) (ip : Ip) (mac : Text)
      → (is_private ip ≡ true → is_multicast ip ≡ false → Q (net.ip_text ip))
      → Kept seen
      → Kept (record_address net seen ip mac)
  unfolding record_address
  record_address-Kept seen ip mac q h = elim (Bool-cases (not (is_private ip) || is_multicast ip)) [
    | inl skipped ↦ rw skipped h
    | inr taken ↦
        rw taken (store-Kept seen (net.ip_text ip) mac (q (ground arith) (ground arith)) h)
  ]

named-ip : (d : Device) (name : Option Text) → (named d name).ip ≡ d.ip
unfolding named
named-ip d none = refl
named-ip d (some name) = refl

-- What makes an address a device: an answer from an enabled network that is attached.
module _ (net : NetText) (enabled : List Text) (sweep : Attached → SweepReply)
    (table : Attached → List Neighbor) (attachments : List Attached) where
  pub record IsPresent (address : Text) : Type 0 where
    pub attached : Attached
    pub is_attached : In attached attachments
    pub is_enabled : In attached.cidr enabled
    pub ip : Ip
    pub did_answer : In ip (sweep attached).answered
    pub is_local : is_private ip ≡ true
    pub is_host : is_edge_address ip attached.net ≡ false
    pub same : net.ip_text ip ≡ address

  answers-Kept :
      (a : Attached) (neighbours : Map Text Text) (seen : Seen)
      → In a attachments
      → In a.cidr enabled
      → Kept net IsPresent seen
      → Kept net IsPresent (record_answers net a.net neighbours (sweep a).answered seen)
  unfolding record_answers
  answers-Kept a neighbours seen i allowed h =
      for_each-keeps (Kept net IsPresent) _ (sweep a).answered seen
        (λ ip j seen' k. elim (Bool-cases (is_edge_address ip a.net)) [
          | inl edge ↦ rw edge k
          | inr host ↦ rw host (
              record_address-Kept net IsPresent seen' ip _
                (λ local single. record {
                  attached = a;
                  is_attached = i;
                  is_enabled = allowed;
                  ip = ip;
                  did_answer = j;
                  is_local = local;
                  is_host = host;
                  same = refl;
                })
                k)
        ])
        h

  swept-Kept :
      (a : Attached) (neighbours : Map Text Text) (error : Option SweepError) (p : Progress)
      → In a attachments
      → In a.cidr enabled
      → Kept net IsPresent p.seen
      → Kept net IsPresent (swept net a (sweep a) neighbours error p).seen
  unfolding swept
  swept-Kept a neighbours none p i allowed h = elim (Bool-cases (ltb 0 (sweep a).undelivered)) [
    | inl partly ↦ rw partly (answers-Kept a neighbours p.seen i allowed h)
    | inr fully ↦ rw fully (answers-Kept a neighbours p.seen i allowed h)
  ]
  swept-Kept a neighbours (some no_probe) p i allowed h = h
  swept-Kept a neighbours (some sweep_failed) p i allowed h =
      answers-Kept a neighbours p.seen i allowed h

  visit-Kept :
      (a : Attached) (p : Progress)
      → In a attachments
      → Kept net IsPresent p.seen
      → Kept net IsPresent (visit net enabled sweep table a p).seen
  unfolding visit
  visit-Kept a p i h = elim (Bool-cases (flag (allowed_loop enabled empty a.cidr))) [
    | inl allowed ↦ elim ((allowed_loop_iff enabled empty a.cidr).0 allowed) [
      | inl listed ↦
          rw allowed (swept-Kept a (neighbours_in net (table a) a.net) (sweep a).error _ i listed h)
      | inr never ↦ absurd (cc never)
    ]
    | inr skipped ↦ rw skipped h
  ]

  visit_all-Kept : Kept net IsPresent (visit_all net enabled sweep table attachments).seen
  unfolding visit_all nothing_yet
  visit_all-Kept =
      for_each-keeps (λ p. Kept net IsPresent p.seen) (visit net enabled sweep table) attachments _
        (λ a i p h. visit-Kept a p i h) (λ k d e. absurd (cc e))

  devices_loop-source :
      (found : Map Text Device) (names : Map Text Text) (addresses : List Text) (d : Device)
      → In d (devices_loop found names addresses)
      → (k : Text) × (old : Device) × (found k ≡ some old) × (d.ip ≡ old.ip)
  unfolding devices_loop
  devices_loop-source found names [] d i = absurd i
  devices_loop-source found names (k ∷ rest) d i = elim (Option-cases (found k)) [
    | inl gone ↦ devices_loop-source found names rest d (rw (gone, device_for) at i)
    | inr (old, known) ↦ elim (rw (known, device_for) at i) [
      | inl e ↦ (k, old, known, ap (λ x. x.ip) e ∙ named-ip old (names k))
      | inr later ↦ devices_loop-source found names rest d later
    ]
  ]

  -- No device of a result stems from the kernel's table alone: for each one an attached network that
  -- the server has enabled was swept, and an address of it that is private and no edge of the
  -- network answered.
  pub device-IsPresent :
      (resolve : List Text → Map Text Text) (d : Device)
      → In d (run_context net enabled sweep table resolve attachments).devices
      → IsPresent d.ip
  unfolding run_context
  device-IsPresent resolve d i =
      let seen = (visit_all net enabled sweep table attachments).seen in
      let addresses = sort_addresses seen.addresses in
      let (k, old, known, e) = devices_loop-source seen.found (resolve addresses) addresses d i in
      let (same, present) = visit_all-Kept k old known in subst IsPresent (sym (e ∙ same)) present
