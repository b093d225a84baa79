-- ===== src/Agent/Probing/Complete.antt =====
-- Every target is accounted for by `probeTargetsContext` in internal/agent/agent.go.
use pulsitor_lan_agent.Base.{
  ◌≡◌, ◌↔◌, inl, inr, refl, ap, Bool, true, false, not, ◌&&◌, Option, none, some, List, Bool-cases,
  nat_eq, Text, text_eq, texts_eq, int_eq, Map, In, Distinct, keep, In-keep, keep-In,
}
use pulsitor_lan_agent.Discover.Net.{Ip}
use pulsitor_lan_agent.Config.{NetText, Target}
use pulsitor_lan_agent.Report.{Observation}
use pulsitor_lan_agent.Schedule.Applying.{target_ids}
use pulsitor_lan_agent.Agent.Neighbours.{Neighbours, holder}
use pulsitor_lan_agent.Agent.Probing.{
  World, online_at, offline, answers, moved_targets, candidate, held_by, is_offline, after_first,
  probe_targets,
}
use pulsitor_lan_agent.Agent.Probing.Laws.{reached, settled, upgraded}
use pulsitor_lan_agent.Agent.Probing.Evidence.{
  first_set, first_neighbours, first_failed, reply_again, moved_outcome, outcome,
  observations-outcome, probe_targets-after_first,
}

module _ (net : NetText) (world : World) (ts : List Target) (before : Bool) where
  settled-some :
      (reachable : Map Text Bool) (fresh : Neighbours) (t : Target) (c : Option Ip)
      → (o : Observation) × (settled net false reachable fresh t c (some (offline t)) ≡ some o)
        × (o.id ≡ t.id)
  unfolding settled upgraded offline
  settled-some reachable fresh t none = (offline t, refl, refl)
  settled-some reachable fresh t (some ip) =
      elim (Bool-cases (reached net reachable ip && held_by (holder fresh (net.ip_text ip)) t)) [
        | inl there ↦ (record (offline t) { online = true; ip = net.ip_text ip }, rw there, refl)
        | inr not_there ↦ (offline t, rw not_there, refl)
      ]

  -- With distinct ids, and where both probes could be sent, every target that was due has an
  -- observation under its id.
  pub probe_targets_total :
      (t : Target)
      → Distinct (target_ids ts)
      → In t ts
      → first_failed net world ts ≡ false
      → (reply_again net world ts).error ≡ none
      → (o : Observation) × ((probe_targets net world before ts).observations t.id ≡ some o)
        × (o.id ≡ t.id)
  unfolding outcome moved_outcome online_at
  probe_targets_total t d i sent again =
      rw (observations-outcome net world ts before t d i)
        (elim (Bool-cases
          (answers net (first_set net world ts) (first_neighbours net world ts) t)) [
            | inl here ↦ rw here (online_at t t.ip, refl, refl)
            | inr gone ↦
                rw (gone, sent, again)
                  (settled-some _ _ t (candidate net (first_neighbours net world ts) t))
          ])

  answered-online :
      (t : Target)
      → Distinct (target_ids ts)
      → In t ts
      → answers net (first_set net world ts) (first_neighbours net world ts) t ≡ true
      → is_offline ((probe_targets net world before ts).observations t.id) ≡ false
  unfolding outcome is_offline online_at
  answered-online t d i here = rw (observations-outcome net world ts before t d i, here)

  pub unresolved-keep :
      (t : Target)
      → In t ts
      → first_failed net world ts ≡ false
      → (probe_targets net world before ts).unresolved
        ≡ keep
            (λ u. is_offline ((probe_targets net world before ts).observations u.id))
            (moved_targets net (first_set net world ts) (first_neighbours net world ts) ts)
  unfolding after_first
  unresolved-keep t i sent = rw (probe_targets-after_first net world before ts t i, sent)

  -- With distinct ids, and where the first probe could be sent, the targets that a sweep should look
  -- for are exactly those that are reported offline.
  pub unresolved_iff :
      (t : Target)
      → Distinct (target_ids ts)
      → In t ts
      → first_failed net world ts ≡ false
      → In t (probe_targets net world before ts).unresolved
        ↔ (is_offline ((probe_targets net world before ts).observations t.id) ≡ true)
  unfolding moved_targets
  unresolved_iff t d i sent =
      let silent =
        λ (u : Target). is_offline ((probe_targets net world before ts).observations u.id) in
      let stays = λ (u : Target).
        not (answers net (first_set net world ts) (first_neighbours net world ts) u) in
      rw (unresolved-keep t i sent) (
        λ j.
            (keep-In silent
              (moved_targets net (first_set net world ts) (first_neighbours net world ts) ts) t
              j).1,
        λ off.
            elim (Bool-cases
              (answers net (first_set net world ts) (first_neighbours net world ts) t)) [
                | inl here ↦ absurd (cc (answered-online t d i here, off))
                | inr gone ↦
                    In-keep silent (keep stays ts) t (In-keep stays ts t i (ap not gone)) off
              ],
      )
