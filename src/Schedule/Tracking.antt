-- ===== src/Schedule/Tracking.antt =====
-- The operations of internal/agent/schedule.go as steps, and what each of them keeps.
use pulsitor_lan_agent.Base.{
  ℕ, ◌≡◌, ◌⊎◌, inl, inr, refl, sym, ap, subst, ◌∙◌, Bool, Option, none, some, List, arith,
  Bool-cases, is_some, ◌==◌, nat_eq, text_eq, texts_eq, ℤ, int_eq, Map, empty, put, put_ne, In,
}
use pulsitor_lan_agent.Schedule.{
  Schedule, targets_by_id, live_ids, apply, unplanned, new, record_answer, reconcile,
  completed_check_in, completed_discovery, completed_target,
}
use pulsitor_lan_agent.Config.{Target, Runtime, target_eq}
use pulsitor_lan_agent.Schedule.Applying.{
  target_ids, In-target_ids, target_of_id, due_loop-known, due_loop-some, live_iff,
}
use pulsitor_lan_agent.Schedule.Keys.{looped, apply-live, apply-gone}
use pulsitor_lan_agent.Schedule.Reconcile.{reconcile_earlier, Earlier}

-- What the runner does to its schedule: each operation at any instant, the last two for targets of
-- the configuration in force.
pub data Step : Schedule → Schedule → Type 0 where
  applied : (s : Schedule) (r : Runtime) (now : ℕ) → Step s (apply s r now)
  reconciled : (s : Schedule) (now : ℕ) → Step s (reconcile s now).0
  checked_in : (s : Schedule) (now : ℕ) → Step s (completed_check_in s now)
  discovered : (s : Schedule) (now : ℕ) → Step s (completed_discovery s now).0
  probed :
      (s : Schedule) (t : Target) (now : ℕ)
      → In t s.runtime.targets
      → Step s (completed_target s t now).0
  answered :
      (s : Schedule) (t : Target) (online : Bool)
      → In t s.runtime.targets
      → Step s (record_answer s t.id online)

-- The deadlines are those of the configured targets, one for each, and answers are remembered of
-- no others.
pub record IsTracked (s : Schedule) : Type 0 where
  pub planned : (t : Target) → In t s.runtime.targets → (at : ℕ) × (s.target_due_at t.id ≡ some at)
  pub no_more : (id : ℤ) → ¬ In id (target_ids s.runtime.targets) → s.target_due_at id ≡ none
  pub no_answers : (id : ℤ) → ¬ In id (target_ids s.runtime.targets) → s.answering id ≡ none

has_id : (ts : List Target) (id : ℤ) → In id (target_ids ts) ⊎ (¬ In id (target_ids ts))
has_id ts id = elim (Bool-cases (is_some (live_ids ts empty id))) [
  | inl live ↦ inl ((live_iff ts id).0 live)
  | inr gone ↦ inr (λ i. cc (gone, (live_iff ts id).1 i))
]

put_absent :
    {V : Type 0} (m : Map ℤ V) (ts : List Target) (t : Target) (v : V) (id : ℤ)
    → In t ts
    → ¬ In id (target_ids ts)
    → put m t.id v id ≡ m id
put_absent m ts t v id i h =
    put_ne m t.id id v (λ e. h (subst (λ k. In k (target_ids ts)) e (In-target_ids ts t i)))

Earlier-forward : (o p : Option ℕ) (a : ℕ) → Earlier o p → o ≡ some a → (b : ℕ) × (p ≡ some b)
Earlier-forward none p a h e = cc
Earlier-forward (some c) none a h e = absurd h
Earlier-forward (some c) (some b) a h e = (b, refl)

Earlier-none : (o p : Option ℕ) → Earlier o p → o ≡ none → p ≡ none
Earlier-none none none h e = refl
Earlier-none none (some b) h e = absurd h
Earlier-none (some a) p h e = cc

put_planned :
    (m : Map ℤ ℕ) (k id : ℤ) (v at : ℕ) → m id ≡ some at → (b : ℕ) × (put m k v id ≡ some b)
put_planned m k id v at h = elim (Bool-cases (k == id)) [
  | inl own ↦ (v, rw own)
  | inr other ↦ (at, rw other h)
]

applied-IsTracked :
    (s : Schedule) (r : Runtime) (now : ℕ)
    → ((id : ℤ) → ¬ In id (target_ids r.targets) → (apply s r now).answering id ≡ none)
    → IsTracked (apply s r now)
unfolding apply looped
applied-IsTracked s r now h = record {
  planned = λ t i.
      let (at, found) =
        due_loop-known (targets_by_id s.runtime.targets empty) now r.targets s.target_due_at t i in
      (at, apply-live s r now t.id (In-target_ids r.targets t i) ∙ found);
  no_more = apply-gone s r now;
  no_answers = h;
}

module _ {s : Schedule} (k : IsTracked s) where
  -- An answer about a target that has gone is dropped with its deadline.
  apply-no_answers :
      (r : Runtime) (now : ℕ) (id : ℤ)
      → ¬ In id (target_ids r.targets)
      → (apply s r now).answering id ≡ none
  unfolding apply looped
  apply-no_answers r now id h = elim (has_id s.runtime.targets id) [
    | inl old ↦
        let (t, i, e) = target_of_id s.runtime.targets id old in
        let (at, found) = k.planned t i in
        let (b, known) =
          due_loop-some (targets_by_id s.runtime.targets empty) now r.targets s.target_due_at id at
            (ap s.target_due_at (sym e) ∙ found) in
        elim (Bool-cases (is_some (live_ids r.targets empty id))) [
          | inl live ↦ absurd (h ((live_iff r.targets id).0 live))
          | inr gone ↦ rw (known, gone)
        ]
    | inr other ↦ ground (arith, k.no_answers id other)
  ]

  apply-IsTracked : (r : Runtime) (now : ℕ) → IsTracked (apply s r now)
  apply-IsTracked r now = applied-IsTracked s r now (apply-no_answers r now)

  reconcile-IsTracked : (now : ℕ) → IsTracked (reconcile s now).0
  unfolding reconcile
  reconcile-IsTracked now =
      let earlier = (reconcile_earlier s now).2 in
      record {
        planned = λ t i.
            let (at, found) = k.planned t i in
            Earlier-forward (s.target_due_at t.id) _ at (earlier t.id) found;
        no_more = λ id h. Earlier-none (s.target_due_at id) _ (earlier id) (k.no_more id h);
        no_answers = k.no_answers;
      }

  completed_target-IsTracked :
      (t : Target) (now : ℕ) → In t s.runtime.targets → IsTracked (completed_target s t now).0
  unfolding completed_target
  completed_target-IsTracked t now i = record {
    planned =
        λ u j. let (at, found) = k.planned u j in put_planned s.target_due_at t.id u.id _ at found;
    no_more = λ id h. put_absent s.target_due_at s.runtime.targets t _ id i h ∙ k.no_more id h;
    no_answers = k.no_answers;
  }

  record_answer-IsTracked :
      (t : Target) (online : Bool)
      → In t s.runtime.targets
      → IsTracked (record_answer s t.id online)
  unfolding record_answer
  record_answer-IsTracked t online i = record {
    planned = k.planned;
    no_more = k.no_more;
    no_answers =
        λ id h. put_absent s.answering s.runtime.targets t online id i h ∙ k.no_answers id h;
  }

  completed_check_in-IsTracked : (now : ℕ) → IsTracked (completed_check_in s now)
  unfolding completed_check_in
  completed_check_in-IsTracked now = record {
    planned = k.planned;
    no_more = k.no_more;
    no_answers = k.no_answers;
  }

  completed_discovery-IsTracked : (now : ℕ) → IsTracked (completed_discovery s now).0
  unfolding completed_discovery
  completed_discovery-IsTracked now = record {
    planned = k.planned;
    no_more = k.no_more;
    no_answers = k.no_answers;
  }

-- A schedule is tracked from the start.
pub new-IsTracked : (r : Runtime) (now phase : ℕ) → IsTracked (new r now phase)
unfolding new
new-IsTracked r now phase =
    applied-IsTracked (unplanned r now phase) r now (λ id h. unfold apply in ground arith)

pub Step-IsTracked : {s t : Schedule} → Step s t → IsTracked s → IsTracked t
Step-IsTracked (applied s r now) k = apply-IsTracked k r now
Step-IsTracked (reconciled s now) k = reconcile-IsTracked k now
Step-IsTracked (checked_in s now) k = completed_check_in-IsTracked k now
Step-IsTracked (discovered s now) k = completed_discovery-IsTracked k now
Step-IsTracked (probed s t now i) k = completed_target-IsTracked k t now i
Step-IsTracked (answered s t online i) k = record_answer-IsTracked k t online i
