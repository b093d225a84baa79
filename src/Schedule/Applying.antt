-- ===== src/Schedule/Applying.antt =====
-- `Apply` of internal/agent/schedule.go: what becomes of each target's deadline.
use pulsitor_lan_agent.Base.{
  ℕ, ◌≡◌, ◌≢◌, ◌↔◌, ◌⊎◌, inl, inr, refl, sym, ap, subst, ◌∙◌, Bool, true, not, ◌||◌, Option, some,
  List, [], ◌∷◌, map, arith, if◌then◌else◌, Bool-cases, Option-cases, is_some, ◌==◌, nat_eq,
  text_eq, texts_eq, beq→eq, beq_false→ne, ℤ, int_eq, Map, empty, put, put_self, put_ne, In,
  Distinct,
}
use pulsitor_lan_agent.Schedule.{targets_by_id, target_or_zero, live_ids, due_loop, due}
use pulsitor_lan_agent.Config.{Target, target_eq}

abbrev pub target_ids : List Target → List ℤ
target_ids = map (λ t. t.id)

pub In-target_ids : (ts : List Target) (t : Target) → In t ts → In t.id (target_ids ts)
In-target_ids [] t i = absurd i
In-target_ids (u ∷ rest) t (inl e) = inl (ap (λ (v : Target). v.id) e)
In-target_ids (u ∷ rest) t (inr i) = inr (In-target_ids rest t i)

pub target_of_id :
    (ts : List Target) (id : ℤ) → In id (target_ids ts) → (t : Target) × In t ts × (t.id ≡ id)
target_of_id [] id i = absurd i
target_of_id (u ∷ rest) id (inl e) = (u, inl refl, sym e)
target_of_id (u ∷ rest) id (inr i) = let (t, j, e) = target_of_id rest id i in (t, inr j, e)

module _ (old : Map ℤ Target) (now : ℕ) where
  -- The deadline of a target after the loop has passed it.
  unfoldable pub served : Target → Map ℤ ℕ → Option ℕ
  served t due =
      if not (is_some (due t.id)) || not (target_or_zero (old t.id) == t)
      then some now
      else due t.id

  -- The map after one pass of the loop.
  pass : Target → Map ℤ ℕ → Map ℤ ℕ
  pass t due =
      if not (is_some (due t.id)) || not (target_or_zero (old t.id) == t)
      then put due t.id now
      else due

  pass_self : (t : Target) (due : Map ℤ ℕ) → pass t due t.id ≡ served t due
  unfolding pass served
  pass_self t due =
      elim (Bool-cases (not (is_some (due t.id)) || not (target_or_zero (old t.id) == t))) [
        | inl changed ↦ rw changed (put_self due t.id now)
        | inr same ↦ rw same
      ]

  pass_ne : (t : Target) (due : Map ℤ ℕ) (id : ℤ) → t.id ≢ id → pass t due id ≡ due id
  unfolding pass
  pass_ne t due id h =
      elim (Bool-cases (not (is_some (due t.id)) || not (target_or_zero (old t.id) == t))) [
        | inl changed ↦ rw changed (put_ne due t.id id now h)
        | inr same ↦ rw same
      ]

  due_loop-pass :
      (t : Target) (rest : List Target) (due : Map ℤ ℕ)
      → due_loop old now (t ∷ rest) due ≡ due_loop old now rest (pass t due)
  unfolding due_loop pass
  due_loop-pass t rest due = refl

  pub due_loop-other :
      (ts : List Target) (due : Map ℤ ℕ) (id : ℤ)
      → ¬ In id (target_ids ts)
      → due_loop old now ts due id ≡ due id
  due_loop-other [] due id h = unfold due_loop in refl
  due_loop-other (t ∷ rest) due id h = rw (due_loop-pass t rest due) (
      due_loop-other rest (pass t due) id (λ i. h (inr i))
      ∙ pass_ne t due id (λ e. h (inl (sym e))))

  served-pass : (t u : Target) (due : Map ℤ ℕ) → u.id ≢ t.id → served t (pass u due) ≡ served t due
  unfolding served
  served-pass t u due h = rw (pass_ne u due t.id h)

  pub due_loop-at :
      (ts : List Target) (due : Map ℤ ℕ) (t : Target)
      → Distinct (target_ids ts)
      → In t ts
      → due_loop old now ts due t.id ≡ served t due
  due_loop-at [] due t d i = absurd i
  due_loop-at (u ∷ rest) due t (absent, d) (inl e) =
      rw (e, due_loop-pass u rest due)
        (due_loop-other rest (pass u due) u.id absent ∙ pass_self u due)
  due_loop-at (u ∷ rest) due t (absent, d) (inr i) = rw (due_loop-pass u rest due) (
      due_loop-at rest (pass u due) t d i
      ∙ served-pass t u due
          (λ e. absent (subst (λ k. In k (target_ids rest)) (sym e) (In-target_ids rest t i))))

  served-some : (t : Target) (due : Map ℤ ℕ) → (at : ℕ) × (served t due ≡ some at)
  unfolding served
  served-some t due = elim (Option-cases (due t.id)) [
    | inl missing ↦ (now, rw missing)
    | inr (a, found) ↦ elim (Bool-cases (target_or_zero (old t.id) == t)) [
      | inl same ↦ (a, rw (found, same))
      | inr changed ↦ (now, rw (found, changed))
    ]
  ]

  -- A deadline that is there stays, at whatever time.
  pass-some :
      (t : Target) (due : Map ℤ ℕ) (id : ℤ) (a : ℕ)
      → due id ≡ some a
      → (at : ℕ) × (pass t due id ≡ some at)
  pass-some t due id a h = elim (Bool-cases (t.id == id)) [
    | inl own ↦
        let (at, found) = served-some t due in
        (at, ap (pass t due) (sym (beq→eq t.id id own)) ∙ pass_self t due ∙ found)
    | inr other ↦ (a, pass_ne t due id (beq_false→ne t.id id other) ∙ h)
  ]

  pub due_loop-some :
      (ts : List Target) (due : Map ℤ ℕ) (id : ℤ) (a : ℕ)
      → due id ≡ some a
      → (at : ℕ) × (due_loop old now ts due id ≡ some at)
  due_loop-some [] due id a h = unfold due_loop in (a, h)
  due_loop-some (t ∷ rest) due id a h =
      let (at, found) = pass-some t due id a h in
      rw (due_loop-pass t rest due) (due_loop-some rest (pass t due) id at found)

  pub due_loop-known :
      (ts : List Target) (due : Map ℤ ℕ) (t : Target)
      → In t ts
      → (at : ℕ) × (due_loop old now ts due t.id ≡ some at)
  due_loop-known [] due t i = absurd i
  due_loop-known (u ∷ rest) due t (inl e) =
      let (at, found) = served-some u due in
      rw (e, due_loop-pass u rest due)
        (due_loop-some rest (pass u due) u.id at (pass_self u due ∙ found))
  due_loop-known (u ∷ rest) due t (inr i) =
      rw (due_loop-pass u rest due) (due_loop-known rest (pass u due) t i)

live_ids_some :
    (ts : List Target) (live : Map ℤ Bool) (id : ℤ)
    → (is_some (live_ids ts live id) ≡ true) ↔ (In id (target_ids ts) ⊎ (is_some (live id) ≡ true))
unfolding live_ids
live_ids_some [] live id = (λ h. inr h, λ p. elim p [ inl i ↦ absurd i | inr h ↦ h ])
live_ids_some (t ∷ rest) live id =
    let (to, from) = live_ids_some rest (put live t.id true) id in
    (
      λ h. elim (to h) [
        | inl i ↦ inl (inr i)
        | inr q ↦ elim (Bool-cases (t.id == id)) [
          | inl own ↦ inl (inl (sym (beq→eq t.id id own)))
          | inr other ↦ inr (rw other at q)
        ]
      ],
      λ p. elim p [
        | inl i ↦ elim i [
          | inl e ↦ from (inr (rw e (ap is_some (put_self live t.id true))))
          | inr j ↦ from (inl j)
        ]
        | inr h ↦ from (inr (ground arith))
      ],
    )

-- The ids in force after `Apply` are those of the new targets.
pub live_iff :
    (ts : List Target) (id : ℤ) → (is_some (live_ids ts empty id) ≡ true) ↔ In id (target_ids ts)
live_iff ts id =
    let (to, from) = live_ids_some ts empty id in
    (λ h. elim (to h) [ inl i ↦ i | inr q ↦ absurd (cc q) ], λ i. from (inl i))

targets_by_id-other :
    (ts : List Target) (m : Map ℤ Target) (id : ℤ)
    → ¬ In id (target_ids ts)
    → targets_by_id ts m id ≡ m id
unfolding targets_by_id
targets_by_id-other [] m id h = refl
targets_by_id-other (t ∷ rest) m id h =
    targets_by_id-other rest (put m t.id t) id (λ i. h (inr i))
    ∙ put_ne m t.id id t (λ e. h (inl (sym e)))

pub targets_by_id-at :
    (ts : List Target) (m : Map ℤ Target) (t : Target)
    → Distinct (target_ids ts)
    → In t ts
    → targets_by_id ts m t.id ≡ some t
unfolding targets_by_id
targets_by_id-at [] m t d i = absurd i
targets_by_id-at (u ∷ rest) m t (absent, d) (inl e) =
    rw e (targets_by_id-other rest (put m u.id u) u.id absent ∙ put_self m u.id u)
targets_by_id-at (u ∷ rest) m t (absent, d) (inr i) = targets_by_id-at rest (put m u.id u) t d i

some_target : (t u : Target) → some t ≡ some u → t ≡ u
some_target t u h = cc

-- What is found under an id in the old list is a target of that list.
pub targets_by_id-found :
    (ts : List Target) (m : Map ℤ Target) (id : ℤ) (u : Target)
    → targets_by_id ts m id ≡ some u
    → In u ts ⊎ (m id ≡ some u)
unfolding targets_by_id
targets_by_id-found [] m id u h = inr h
targets_by_id-found (t ∷ rest) m id u h = elim (targets_by_id-found rest (put m t.id t) id u h) [
  | inl i ↦ inl (inr i)
  | inr found ↦ elim (Bool-cases (t.id == id)) [
    | inl own ↦ inl (inl (sym (some_target t u (rw own at found))))
    | inr other ↦ inr (rw other at found)
  ]
]
