-- ===== src/Agent/Probing/Evidence.antt =====
-- What `probeTargetsContext` in internal/agent/agent.go reports rests on an answer.
use pulsitor_lan_agent.Base.{
  ◌≡◌, ◌≢◌, ◌⊎◌, inl, inr, refl, sym, ap, subst, ◌∙◌, Bool, true, not, ◌&&◌, Option, none, some,
  List, [], ◌∷◌, arith, if◌then◌else◌, Bool-cases, is_some, &&-true, nat_eq, list_beq_iff, Text,
  text_eq, texts_eq, beq→eq, ℤ, int_eq, Map, empty, flag, In, Distinct, In-keep, Distinct-keep,
  keep-absent,
}
use pulsitor_lan_agent.Discover.Net.{Ip}
use pulsitor_lan_agent.Discover.Mac.{normalise_mac}
use pulsitor_lan_agent.Config.{NetText, Target}
use pulsitor_lan_agent.Report.{Observation}
use pulsitor_lan_agent.Schedule.Applying.{target_ids}
use pulsitor_lan_agent.Agent.Neighbours.{Neighbours, index, holder}
use pulsitor_lan_agent.Agent.Probing.{
  Reply, World, online_at, offline, is_off_lan, parse_targets, address_set, is_the_same_device,
  answers, observe_loop, moved_targets, candidate, held_by, follow, after_first, probe_targets,
}
use pulsitor_lan_agent.Agent.Probing.Laws.{
  observed, observe_loop-at, positive_loop-at, positive_loop-online, reached, settled, upgraded,
  address_set-answered,
}
use pulsitor_lan_agent.Agent.Probing.Outcome.{second_reply, second_set, follow-at, follow-other}

module _ (net : NetText) (world : World) (targets : List Target) where
  unfoldable pub first_reply : Reply
  first_reply = world.first_probe (parse_targets net targets)

  unfoldable pub first_set : Map Text Bool
  unfolding first_reply
  first_set = address_set net first_reply.replied empty

  unfoldable pub first_neighbours : Neighbours
  first_neighbours = index net world.first_table

  -- The first probe met an error other than a target outside the attached networks.
  unfoldable pub first_failed : Bool
  unfolding first_reply
  first_failed = is_some first_reply.error && not (is_off_lan first_reply.error)

  unfoldable pub moved : List Target
  unfolding first_set first_neighbours
  moved = moved_targets net first_set first_neighbours targets

  unfoldable pub reply_again : Reply
  unfolding moved second_reply first_neighbours
  reply_again = second_reply net world first_neighbours moved

  -- The observations of a target that did not answer where it used to be.
  unfoldable pub moved_outcome : Target → Option Observation
  unfolding moved reply_again first_neighbours second_set
  moved_outcome t =
      settled net (is_some reply_again.error) (second_set net world first_neighbours moved)
        (index net world.second_table) t (candidate net first_neighbours t) (some (offline t))

pub probe_targets-after_first :
    (net : NetText) (world : World) (before : Bool) (ts : List Target) (t : Target)
    → In t ts
    → probe_targets net world before ts
      ≡ after_first net world ts
          (first_failed net world ts)
          (first_neighbours net world ts)
          (first_set net world ts)
          (is_off_lan (first_reply net world ts).error)
unfolding probe_targets first_failed first_neighbours first_set
probe_targets-after_first net world before [] t i = absurd i
probe_targets-after_first net world before (u ∷ rest) t i = refl

is_the_same_device_sound :
    (t : Target) (table : Neighbours) (net : NetText) (mac : Text)
    → is_the_same_device net t table ≡ true
    → t.mac ≢ []
    → holder table t.ip ≡ some mac
    → mac ≡ normalise_mac t.mac
unfolding is_the_same_device
is_the_same_device_sound t table net mac h some_mac found =
    ground (arith, list_beq_iff t.mac [], list_beq_iff mac (normalise_mac t.mac))

held_by_sound : (o : Option Text) (t : Target) → held_by o t ≡ true → o ≡ some (normalise_mac t.mac)
unfolding held_by
held_by_sound none t h = cc
held_by_sound (some mac) t h = ap some (beq→eq mac (normalise_mac t.mac) h)

-- A moved target is online only by an answer from the address that it is reported at.
settled-online :
    (net : NetText) (failed : Bool) (reachable : Map Text Bool) (fresh : Neighbours) (t : Target)
    (c : Option Ip) (o : Observation)
    → settled net failed reachable fresh t c (some (offline t)) ≡ some o
    → o.online ≡ true
    → (flag (reachable o.ip) ≡ true) × (held_by (holder fresh o.ip) t ≡ true)
unfolding settled reached upgraded offline
settled-online net failed reachable fresh t none o h on = absurd (ground arith)
settled-online net failed reachable fresh t (some ip) o h on = ground arith

module _ (net : NetText) (world : World) (ts : List Target) (before : Bool) where
  -- The target's own address answered, and the kernel knew of no other owner of it.
  unfoldable pub FirstEvidence : Target → Observation → Type 0
  FirstEvidence t o =
      (o.ip ≡ t.ip)
      × ((ip : Ip) × In ip (first_reply net world ts).replied × (net.ip_text ip ≡ t.ip))
      × ((mac : Text)
          → t.mac ≢ []
          → holder (first_neighbours net world ts) t.ip ≡ some mac
          → mac ≡ normalise_mac t.mac)

  -- The address answered the second probe, and the table read after it gives it to the target.
  unfoldable pub SecondEvidence : Target → Observation → Type 0
  SecondEvidence t o =
      ((ip : Ip) × In ip (reply_again net world ts).replied × (net.ip_text ip ≡ o.ip))
      × (holder (index net world.second_table) o.ip ≡ some (normalise_mac t.mac))

  answers-FirstEvidence :
      (t : Target)
      → answers net (first_set net world ts) (first_neighbours net world ts) t ≡ true
      → FirstEvidence t (online_at t t.ip)
  unfolding FirstEvidence answers first_set online_at
  answers-FirstEvidence t h =
      let (answered, same) =
        &&-true (flag (first_set net world ts t.ip))
          (is_the_same_device net t (first_neighbours net world ts)) h in
      (
        refl,
        address_set-answered net (first_reply net world ts).replied t.ip answered,
        λ mac some_mac found.
            is_the_same_device_sound t (first_neighbours net world ts) net mac same some_mac found,
      )

  moved_outcome-SecondEvidence :
      (t : Target) (o : Observation)
      → moved_outcome net world ts t ≡ some o
      → o.online ≡ true
      → SecondEvidence t o
  unfolding SecondEvidence moved_outcome second_set reply_again
  moved_outcome-SecondEvidence t o h on =
      let (answered, held) = settled-online net _ _ _ t _ o h on in
      (
        address_set-answered net (reply_again net world ts).replied o.ip answered,
        held_by_sound (holder (index net world.second_table) o.ip) t held,
      )

  unfoldable pub outcome : Target → Option Observation
  unfolding moved_outcome
  outcome t =
      if answers net (first_set net world ts) (first_neighbours net world ts) t
      then some (online_at t t.ip)
      else if first_failed net world ts
      then none
      else moved_outcome net world ts t

  sent_outcome :
      (t : Target)
      → Distinct (target_ids ts)
      → In t ts
      → follow net world
          (first_neighbours net world ts)
          (moved_targets net (first_set net world ts) (first_neighbours net world ts) ts)
          (observe_loop net (first_set net world ts) (first_neighbours net world ts) ts empty)
          t.id
        ≡ (if answers net (first_set net world ts) (first_neighbours net world ts) t
            then some (online_at t t.ip)
            else moved_outcome net world ts t)
  unfolding moved_outcome moved_targets reply_again second_reply observed
  sent_outcome t d i =
      let seen =
        observe_loop-at net (first_set net world ts) (first_neighbours net world ts) ts t d i in
      let stays = λ (u : Target).
        not (answers net (first_set net world ts) (first_neighbours net world ts) u) in
      let obs =
        observe_loop net (first_set net world ts) (first_neighbours net world ts) ts empty in
      let left = moved_targets net (first_set net world ts) (first_neighbours net world ts) ts in
      elim (Bool-cases (answers net (first_set net world ts) (first_neighbours net world ts) t)) [
        | inl here ↦ rw here (
            follow-other net world (first_neighbours net world ts) left obs t.id
              (keep-absent stays (λ u. u.id) ts t d i (ap not here))
            ∙ seen
            ∙ rw here)
        | inr gone ↦ rw gone (
            follow-at net world (first_neighbours net world ts) left obs t
              (Distinct-keep stays (λ u. u.id) ts d) (In-keep stays ts t i (ap not gone))
            ∙ ap
                (settled net (is_some (reply_again net world ts).error)
                  (second_set net world (first_neighbours net world ts) left)
                  (index net world.second_table) t
                  (candidate net (first_neighbours net world ts) t))
                (seen ∙ rw gone))
      ]

  -- What is stored for a target, on every path through the function.
  pub observations-outcome :
      (t : Target)
      → Distinct (target_ids ts)
      → In t ts
      → (probe_targets net world before ts).observations t.id ≡ outcome t
  unfolding after_first outcome
  observations-outcome t d i =
      rw (probe_targets-after_first net world before ts t i)
        (elim (Bool-cases (first_failed net world ts)) [
          | inl failed ↦ rw failed (
              positive_loop-at net (first_set net world ts) (first_neighbours net world ts) ts t d
                i)
          | inr sent ↦ rw sent (sent_outcome t d i)
        ])

  -- With distinct ids, a target is never reported online without an answer: either its own address
  -- replied to the first probe, and the kernel's table did not name another device there; or the
  -- reported address did reply to the second one, and the table read afterwards gives that address
  -- to the target's MAC.
  pub probe_targets_sound :
      (t : Target) (o : Observation)
      → Distinct (target_ids ts)
      → In t ts
      → (probe_targets net world before ts).observations t.id ≡ some o
      → o.online ≡ true
      → FirstEvidence t o ⊎ SecondEvidence t o
  unfolding outcome
  probe_targets_sound t o d i h on =
      let found = sym (observations-outcome t d i) ∙ h in
      elim (Bool-cases (answers net (first_set net world ts) (first_neighbours net world ts) t)) [
        | inl here ↦
            let same : online_at t t.ip ≡ o = cc (rw here at found) in
            inl (subst (FirstEvidence t) same (answers-FirstEvidence t here))
        | inr gone ↦ elim (Bool-cases (first_failed net world ts)) [
          | inl failed ↦ absurd (cc (rw (gone, failed) at found))
          | inr sent ↦ inr (moved_outcome-SecondEvidence t o (rw (gone, sent) at found) on)
        ]
      ]

  -- When the first probe fails, only what answered is reported, and no target counts as gone quiet.
  pub probe_targets_failed :
      (t : Target)
      → In t ts
      → first_failed net world ts ≡ true
      → ((id : ℤ) (o : Observation)
          → (probe_targets net world before ts).observations id ≡ some o
          → o.online ≡ true)
        × ((probe_targets net world before ts).unresolved ≡ [])
  unfolding after_first
  probe_targets_failed t i failed =
      rw (probe_targets-after_first net world before ts t i, failed)
        (
          positive_loop-online net (first_set net world ts) (first_neighbours net world ts) ts empty
              (λ id o e. cc e),
          refl,
        )
