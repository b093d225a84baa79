-- ===== src/Agent/Probing/Ids.antt =====
-- Every observation of a probe stands under its own id.
use pulsitor_lan_agent.Base.{
  ◌≡◌, inl, inr, refl, sym, ap, ◌∙◌, Bool, true, false, not, ◌&&◌, Option, none, some, List, [],
  ◌∷◌, nat_beq, Bool-cases, Option-cases, is_some, ◌==◌, nat_eq, Text, text_eq, texts_eq, beq→eq, ℤ,
  int_eq, Map, empty, flag, put, remove, length, for_each-keeps,
}
use pulsitor_lan_agent.Discover.Net.{Ip}
use pulsitor_lan_agent.Config.{NetText, Target}
use pulsitor_lan_agent.Report.{Observation}
use pulsitor_lan_agent.Agent.Neighbours.{Neighbours, index, holder}
use pulsitor_lan_agent.Agent.Probing.{
  World, parse_targets, is_off_lan, online_at, offline, set_online, held_by, answers, positive_loop,
  observe_loop, settle, settle_loop, candidates, address_set, elsewhere_loop, follow, after_first,
  probe_targets,
}

abbrev pub OwnIds : Map ℤ Observation → Type 0
OwnIds obs = (id : ℤ) (o : Observation) → obs id ≡ some o → o.id ≡ id

pub put-OwnIds :
    (obs : Map ℤ Observation) (k : ℤ) (v : Observation)
    → v.id ≡ k
    → OwnIds obs
    → OwnIds (put obs k v)
put-OwnIds obs k v e h id o f = elim (Bool-cases (k == id)) [
  | inl own ↦
      let taken : v ≡ o = cc (rw own at f) in sym (ap (λ x. x.id) taken) ∙ e ∙ beq→eq k id own
  | inr other ↦ h id o (rw other at f)
]

remove-OwnIds : (obs : Map ℤ Observation) (k : ℤ) → OwnIds obs → OwnIds (remove obs k)
remove-OwnIds obs k h id o f = elim (Bool-cases (k == id)) [
  | inl own ↦ absurd (cc (rw own at f))
  | inr other ↦ h id o (rw other at f)
]

set_online-OwnIds :
    (obs : Map ℤ Observation) (id : ℤ) (ip : Text) → OwnIds obs → OwnIds (set_online obs id ip)
unfolding set_online
set_online-OwnIds obs id ip h = elim (Option-cases (obs id)) [
  | inl none_there ↦ rw (set_online, none_there) h
  | inr (o, known) ↦
      rw (set_online, known)
        (put-OwnIds obs id (record o { online = true; ip = ip }) (h id o known) h)
]

module _ (net : NetText) where
  settle-OwnIds :
      (failed : Bool) (reachable : Map Text Bool) (fresh : Neighbours) (t : Target)
      (candidate : Option Ip) (obs : Map ℤ Observation)
      → OwnIds obs
      → OwnIds (settle net failed reachable fresh t candidate obs)
  unfolding settle
  settle-OwnIds failed reachable fresh t none obs h = h
  settle-OwnIds failed reachable fresh t (some ip) obs h =
      let reached = flag (reachable (net.ip_text ip)) in
      elim (Bool-cases (failed && not reached)) [
        | inl unknown ↦ rw unknown (remove-OwnIds obs t.id h)
        | inr known ↦
            rw known (elim (Bool-cases (reached && held_by (holder fresh (net.ip_text ip)) t)) [
              | inl there ↦ rw there (set_online-OwnIds obs t.id (net.ip_text ip) h)
              | inr not_there ↦ rw not_there h
            ])
      ]

  observe_loop-OwnIds :
      (answered : Map Text Bool) (table : Neighbours) (ts : List Target)
      → OwnIds (observe_loop net answered table ts empty)
  unfolding observe_loop online_at offline
  observe_loop-OwnIds answered table ts =
      for_each-keeps OwnIds _ ts empty
        (λ t i obs h.
          put-OwnIds obs t.id _
            (elim (Bool-cases (answers net answered table t)) [
              | inl here ↦ rw here refl
              | inr gone ↦ rw gone refl
            ])
            h)
        (λ id o e. absurd (cc e))

  positive_loop-OwnIds :
      (answered : Map Text Bool) (table : Neighbours) (ts : List Target)
      → OwnIds (positive_loop net answered table ts empty)
  unfolding positive_loop online_at
  positive_loop-OwnIds answered table ts =
      for_each-keeps OwnIds _ ts empty
        (λ t i obs h. elim (Bool-cases (answers net answered table t)) [
          | inl here ↦ rw here (put-OwnIds obs t.id (online_at t t.ip) refl h)
          | inr gone ↦ rw gone h
        ])
        (λ id o e. absurd (cc e))

  follow-OwnIds :
      (world : World) (table : Neighbours) (moved : List Target) (obs : Map ℤ Observation)
      → OwnIds obs
      → OwnIds (follow net world table moved obs)
  unfolding follow settle_loop
  follow-OwnIds world table moved obs h =
      let reply = world.second_probe (candidates net table moved) in
      let failed = is_some reply.error in
      let reachable = address_set net reply.replied empty in
      let fresh = index net world.second_table in
      elim (Bool-cases (nat_beq (length (candidates net table moved)) 0)) [
        | inl none_asked ↦ rw none_asked h
        | inr asked ↦ rw asked (
            for_each-keeps OwnIds _ moved obs
              (λ t i obs' k.
                settle-OwnIds failed reachable fresh t (elsewhere_loop net table moved empty t.id)
                  obs' k)
              h)
      ]

  after_first-OwnIds :
      (world : World) (ts : List Target) (failed : Bool) (table : Neighbours)
      (answered : Map Text Bool) (off : Bool)
      → OwnIds (after_first net world ts failed table answered off).observations
  unfolding after_first
  after_first-OwnIds world ts true table answered off = positive_loop-OwnIds answered table ts
  after_first-OwnIds world ts false table answered off =
      follow-OwnIds world table _ _ (observe_loop-OwnIds answered table ts)

  pub probe_targets-OwnIds :
      (world : World) (before : Bool) (ts : List Target)
      → OwnIds (probe_targets net world before ts).observations
  unfolding probe_targets
  probe_targets-OwnIds world before [] = λ id o e. absurd (cc e)
  probe_targets-OwnIds world before (t ∷ rest) =
      let reply = world.first_probe (parse_targets net (t ∷ rest)) in
      after_first-OwnIds world (t ∷ rest) (is_some reply.error && not (is_off_lan reply.error))
        (index net world.first_table) (address_set net reply.replied empty) (is_off_lan reply.error)
