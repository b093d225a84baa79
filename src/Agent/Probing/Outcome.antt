-- ===== src/Agent/Probing/Outcome.antt =====
-- What `probeTargetsContext` in internal/agent/agent.go leaves of one target, all loops together.
use pulsitor_lan_agent.Base.{
  ◌≡◌, ◌≢◌, inl, inr, refl, ap, ◌∙◌, Bool, Option, none, some, List, [], ◌∷◌, arith, nat_beq,
  nat_beq_iff, Bool-cases, is_some, nat_eq, Text, text_eq, texts_eq, ℤ, int_eq, Map, empty,
  put_self, put_ne, length, In, Distinct, for_each-at, for_each-other,
}
use pulsitor_lan_agent.Discover.Net.{Ip}
use pulsitor_lan_agent.Config.{NetText, Target}
use pulsitor_lan_agent.Report.{Observation}
use pulsitor_lan_agent.Schedule.Applying.{target_ids}
use pulsitor_lan_agent.Agent.Neighbours.{Neighbours, index}
use pulsitor_lan_agent.Agent.Probing.{
  Reply, World, address_set, candidate, elsewhere_loop, candidates, put_candidate, cons_host,
  settle, settle_loop, follow,
}
use pulsitor_lan_agent.Agent.Probing.Laws.{settled, settle-own, settle-other}

candidate_or : Option Ip → Option Ip → Option Ip
candidate_or o none = o
candidate_or o (some ip) = some ip

candidate_or-none : (c : Option Ip) → candidate_or none c ≡ c
unfolding candidate_or
candidate_or-none none = refl
candidate_or-none (some ip) = refl

put_candidate_self :
    (m : Map ℤ Ip) (id : ℤ) (c : Option Ip) → put_candidate m id c id ≡ candidate_or (m id) c
unfolding put_candidate candidate_or
put_candidate_self m id none = refl
put_candidate_self m id (some ip) = put_self m id ip

put_candidate_ne : (m : Map ℤ Ip) (id k : ℤ) (c : Option Ip) → id ≢ k → put_candidate m id c k ≡ m k
unfolding put_candidate
put_candidate_ne m id k none h = refl
put_candidate_ne m id k (some ip) h = put_ne m id k ip h

cons_host-empty : (c : Option Ip) (more : List Ip) → length (cons_host c more) ≡ 0 → c ≡ none
unfolding cons_host
cons_host-empty none more h = refl
cons_host-empty (some ip) more h = absurd (omega arith)

cons_host-rest : (c : Option Ip) (more : List Ip) → length (cons_host c more) ≡ 0 → length more ≡ 0
unfolding cons_host
cons_host-rest none more h = h
cons_host-rest (some ip) more h = absurd (omega arith)

module _ (net : NetText) where
  elsewhere_loop-at :
      (table : Neighbours) (ts : List Target) (t : Target)
      → Distinct (target_ids ts)
      → In t ts
      → elsewhere_loop net table ts empty t.id ≡ candidate net table t
  unfolding elsewhere_loop
  elsewhere_loop-at table ts t d i =
      for_each-at (λ (t : Target). t.id) (λ t m. put_candidate m t.id (candidate net table t))
        (λ t o. candidate_or o (candidate net table t))
        (λ t m. put_candidate_self m t.id (candidate net table t))
        (λ t m k h. put_candidate_ne m t.id k (candidate net table t) h) ts empty t d i
      ∙ candidate_or-none (candidate net table t)

  -- Where no address is worth asking, no target has a candidate.
  candidates-empty :
      (table : Neighbours) (ts : List Target) (t : Target)
      → length (candidates net table ts) ≡ 0
      → In t ts
      → candidate net table t ≡ none
  unfolding candidates
  candidates-empty table [] t h i = absurd i
  candidates-empty table (u ∷ rest) t h (inl e) =
      rw e (cons_host-empty (candidate net table u) (candidates net table rest) h)
  candidates-empty table (u ∷ rest) t h (inr i) =
      candidates-empty table rest t
        (cons_host-rest (candidate net table u) (candidates net table rest) h) i

  module _ (world : World) (table : Neighbours) (moved : List Target) where
    unfoldable pub second_reply : Reply
    second_reply = world.second_probe (candidates net table moved)

    -- The addresses that answered the second probe, and the table read after it.
    unfoldable pub second_set : Map Text Bool
    unfolding second_reply
    second_set = address_set net second_reply.replied empty

    pub follow-at :
        (obs : Map ℤ Observation) (t : Target)
        → Distinct (target_ids moved)
        → In t moved
        → follow net world table moved obs t.id
          ≡ settled net
              (is_some second_reply.error)
              second_set
              (index net world.second_table)
              t
              (candidate net table t)
              (obs t.id)
    unfolding follow settle_loop second_set
    follow-at obs t d i = elim (Bool-cases (nat_beq (length (candidates net table moved)) 0)) [
      | inl nobody ↦
          let empty_list = (nat_beq_iff (length (candidates net table moved)) 0).0 nobody in
          rw (nobody, candidates-empty table moved t empty_list i) (unfold settled in refl)
      | inr asked ↦ rw asked (
          for_each-at (λ (t : Target). t.id)
            (λ t.
              settle net (is_some second_reply.error) second_set (index net world.second_table) t
                (elsewhere_loop net table moved empty t.id))
            (λ t.
              settled net (is_some second_reply.error) second_set (index net world.second_table) t
                (elsewhere_loop net table moved empty t.id))
            (λ t m.
              settle-own net (is_some second_reply.error) second_set (index net world.second_table)
                t (elsewhere_loop net table moved empty t.id) m)
            (λ t m k h.
              settle-other net (is_some second_reply.error) second_set
                (index net world.second_table) t (elsewhere_loop net table moved empty t.id) m k h)
            moved obs t d i
          ∙ ap
              (λ c.
                settled net (is_some second_reply.error) second_set (index net world.second_table) t
                  c (obs t.id))
              (elsewhere_loop-at table moved t d i))
    ]

    pub follow-other :
        (obs : Map ℤ Observation) (k : ℤ)
        → ¬ In k (target_ids moved)
        → follow net world table moved obs k ≡ obs k
    unfolding follow settle_loop second_set
    follow-other obs k h = elim (Bool-cases (nat_beq (length (candidates net table moved)) 0)) [
      | inl nobody ↦ rw nobody
      | inr asked ↦ rw asked (
          for_each-other (λ (t : Target). t.id)
            (λ t.
              settle net (is_some second_reply.error) second_set (index net world.second_table) t
                (elsewhere_loop net table moved empty t.id))
            (λ t.
              settled net (is_some second_reply.error) second_set (index net world.second_table) t
                (elsewhere_loop net table moved empty t.id))
            (λ t m.
              settle-own net (is_some second_reply.error) second_set (index net world.second_table)
                t (elsewhere_loop net table moved empty t.id) m)
            (λ t m k h.
              settle-other net (is_some second_reply.error) second_set
                (index net world.second_table) t (elsewhere_loop net table moved empty t.id) m k h)
            moved obs k h)
    ]
