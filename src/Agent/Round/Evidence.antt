-- ===== src/Agent/Round/Evidence.antt =====
-- What a round reports: one observation for each target that was due, in the order of the targets,
-- and nothing online without evidence.
use pulsitor_lan_agent.Base.{
  ℕ, ◌≡◌, ◌⊎◌, inl, inr, refl, sym, ap, ap₂, subst, ◌∙◌, Bool, true, false, Option, none, some,
  List, [], ◌∷◌, map, if◌then◌else◌, Bool-cases, Option-cases, is_some, nat_eq, Text, text_eq,
  texts_eq, ℤ, int_eq, Map, In, Distinct, keep-In,
}
use pulsitor_lan_agent.Discover.Sweep
use pulsitor_lan_agent.Config.{NetText, Target, target_eq}
use pulsitor_lan_agent.Report.{Observation}
use pulsitor_lan_agent.Schedule.{Schedule}
use pulsitor_lan_agent.Schedule.Applying.{target_ids}
use pulsitor_lan_agent.Agent.Probing.{World, Probed, probe_targets}
use pulsitor_lan_agent.Agent.Probing.Ids.{OwnIds, probe_targets-OwnIds}
use pulsitor_lan_agent.Agent.Probing.Evidence.{
  first_failed, reply_again, FirstEvidence, SecondEvidence, probe_targets_sound,
  probe_targets_failed,
}
use pulsitor_lan_agent.Agent.Probing.Complete.{probe_targets_total, unresolved-keep}
use pulsitor_lan_agent.Agent.Round.{
  rescue, ordered, cons_observation, blank, discovered, sweeps, round,
}
use pulsitor_lan_agent.Agent.Round.Laws.{
  SweepEvidence, Rescued, SameKeys, rescue-Rescued, rescue-SameKeys, rescue-OwnIds,
}

ordered-source :
    (obs : Map ℤ Observation) (ts : List Target) (o : Observation)
    → In o (ordered obs ts)
    → (t : Target) × In t ts × (obs t.id ≡ some o)
unfolding ordered
ordered-source obs [] o i = absurd i
ordered-source obs (t ∷ ts) o i = elim (Option-cases (obs t.id)) [
  | inl missing ↦
      let (u, j, e) = ordered-source obs ts o (rw (missing, cons_observation) at i) in (u, inr j, e)
  | inr (own, found) ↦ elim (rw (found, cons_observation) at i) [
    | inl e ↦ (t, inl refl, found ∙ ap some (sym e))
    | inr later ↦ let (u, j, e) = ordered-source obs ts o later in (u, inr j, e)
  ]
]

-- With an observation for every target, the ids of the report are those of the targets.
ordered-ids :
    (obs : Map ℤ Observation) (ts : List Target)
    → OwnIds obs
    → ((t : Target) → In t ts → is_some (obs t.id) ≡ true)
    → map (λ o. o.id) (ordered obs ts) ≡ map (λ t. t.id) ts
unfolding ordered
ordered-ids obs [] own all = refl
ordered-ids obs (t ∷ ts) own all = elim (Option-cases (obs t.id)) [
  | inl missing ↦ absurd (cc (missing, all t (inl refl)))
  | inr (o, found) ↦
      rw (found, cons_observation)
        (ap₂ ◌∷◌ (own t.id o found) (ordered-ids obs ts own (λ u i. all u (inr i))))
]

module _ (net : NetText) (world : World) (discover : List Text → Option Sweep.Result) (s : Schedule)
    (discovery_due before : Bool) (ts : List Target) (now : ℕ) where
  abbrev probed : Probed
  probed = probe_targets net world before ts

  -- The observations that the round ends with.
  observed : Map ℤ Observation
  unfolding discovered
  observed =
      if sweeps s discovery_due probed.unresolved now
      then (discovered (discover s.runtime.subnets) probed.unresolved
          (record { out = blank; observations = probed.observations; schedule = s })).observations
      else probed.observations

  round-observed :
      (round net world discover s discovery_due ts now before).report.observations
      ≡ ordered observed ts
  unfolding round observed
  round-observed = elim (Bool-cases (sweeps s discovery_due probed.unresolved now)) [
    | inl swept ↦ rw swept refl
    | inr skipped ↦ rw skipped refl
  ]

  -- They are those of the probe, or those that the rescue makes of them.
  observed-cases :
      (observed ≡ probed.observations)
      ⊎ ((found : Sweep.Result) × (discover s.runtime.subnets ≡ some found)
          × (observed ≡ rescue probed.observations probed.unresolved found))
  unfolding observed
  observed-cases = elim (Bool-cases (sweeps s discovery_due probed.unresolved now)) [
    | inl swept ↦ elim (Option-cases (discover s.runtime.subnets)) [
      | inl failed ↦ inl (rw (swept, failed, discovered) refl)
      | inr (found, e) ↦ inr (found, e, rw (swept, e, discovered) refl)
    ]
    | inr skipped ↦ inl (rw skipped refl)
  ]

  observed-OwnIds : OwnIds observed
  observed-OwnIds = elim observed-cases [
    | inl e ↦ rw e (probe_targets-OwnIds net world before ts)
    | inr (found, e, same) ↦ rw same (
        rescue-OwnIds probed.observations probed.unresolved found
          (probe_targets-OwnIds net world before ts))
  ]

  observed-keys : (id : ℤ) → is_some (observed id) ≡ is_some (probed.observations id)
  unfolding SameKeys
  observed-keys id = elim observed-cases [
    | inl e ↦ rw e refl
    | inr (found, e, same) ↦
        rw same (rescue-SameKeys probed.observations probed.unresolved found id)
  ]

  -- With distinct ids, and where both probes could be sent, the report has exactly one observation
  -- for each target that was due, in the order of the targets.
  pub round_ids :
      Distinct (target_ids ts)
      → first_failed net world ts ≡ false
      → (reply_again net world ts).error ≡ none
      → map (λ o. o.id) (round net world discover s discovery_due ts now before).report.observations
        ≡ map (λ t. t.id) ts
  round_ids d sent again = rw round-observed (
      ordered-ids observed ts observed-OwnIds (λ t i.
        let (o, found, e) = probe_targets_total net world ts before t d i sent again in
        observed-keys t.id ∙ ap is_some found))

  -- What a target needs in order to be reported online at an address.
  unfoldable pub HasEvidence : Target → Observation → Type 0
  HasEvidence t o =
      FirstEvidence net world ts before t o
      ⊎ (SecondEvidence net world ts before t o
          ⊎ ((found : Sweep.Result) × (discover s.runtime.subnets ≡ some found)
              × SweepEvidence found t o))

  pub unresolved-In : (t : Target) → In t probed.unresolved → In t ts
  unfolding probe_targets
  unresolved-In t i = elim (go ts refl) [
    | inl none_due ↦
        absurd (subst (In t) (ap (λ l. (probe_targets net world before l).unresolved) none_due) i)
    | inr (u, j) ↦ elim (Bool-cases (first_failed net world ts)) [
      | inl failed ↦ absurd (subst (In t) (probe_targets_failed net world ts before u j failed).1 i)
      | inr sent ↦
          (keep-In _ ts t
            (keep-In _ _ t (subst (In t) (unresolved-keep net world ts before u j sent) i)).0).0
    ]
  ]
    where
      go : (l : List Target) → ts ≡ l → (ts ≡ []) ⊎ ((u : Target) × In u ts)
      go [] e = inl e
      go (u ∷ l) e = inr (u, rw e (inl refl))

  -- With distinct ids, nothing is reported online without evidence: an observation in a report that
  -- says online is that of a target that was due, whose own address answered without the kernel
  -- naming another holder, or whose MAC the kernel gives to the reported address, which answered,
  -- or whose MAC the sweep found there.
  pub round_online :
      (o : Observation)
      → Distinct (target_ids ts)
      → In o (round net world discover s discovery_due ts now before).report.observations
      → o.online ≡ true
      → (t : Target) × In t ts × (o.id ≡ t.id) × HasEvidence t o
  unfolding HasEvidence Rescued
  round_online o d i on =
      let (t, j, e) = ordered-source observed ts o (subst (In o) round-observed i) in
      let own = observed-OwnIds t.id o e in
      elim observed-cases [
        | inl same ↦ (t, j, own, probed_evidence t j (rw same at e))
        | inr (found, swept, same) ↦
            elim (rescue-Rescued probed.observations probed.unresolved found t.id o
              (rw same at e)) [
                | inl before_it ↦ (t, j, own, probed_evidence t j before_it)
                | inr (u, k, e', ev) ↦
                    (u, unresolved-In u k, own ∙ sym e', inr (inr (found, swept, ev)))
              ]
      ]
    where
      probed_evidence : (t : Target) → In t ts → probed.observations t.id ≡ some o → HasEvidence t o
      probed_evidence t j e = elim (probe_targets_sound net world ts before t o d j e on) [
        | inl first ↦ inl first
        | inr second ↦ inr (inl second)
      ]
