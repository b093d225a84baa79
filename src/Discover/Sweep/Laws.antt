-- ===== src/Discover/Sweep/Laws.antt =====
-- Which networks one pass over the attachments claims to have covered, and which it touches.
use pulsitor_lan_agent.Base.{
  ◌≡◌, ◌↔◌, ◌⊎◌, inl, inr, refl, sym, ap, ◌∙◌, Bool, true, not, ◌&&◌, none, List, [], ◌∷◌, ◌++◌,
  map, arith, if◌then◌else◌, Bool-cases, Option-cases, is_some, &&-true, ◌==◌, nat_eq, Text,
  text_eq, texts_eq, beq→eq, beq_false→ne, int_eq, Map, empty, flag, put, In, keep, for_each,
  In-map, In-keep, keep-In, keep-true, keep-false,
}
use mathlib.Core.List.{append-nil, append_assoc}
use pulsitor_lan_agent.Discover.Sweep.{
  no_probe, sweep_failed, Attached, SweepReply, neighbours_in, Progress, swept, allowed_loop,
  nothing_yet, visit, visit_all, run_context,
}
use pulsitor_lan_agent.Config.{NetText}
use pulsitor_lan_agent.Agent.Neighbours.{Neighbor}

-- The sweep ended without an error, and every probe of it was sent.
unfoldable pub is_complete : SweepReply → Bool
is_complete reply = not (is_some reply.error) && reply.undelivered == 0

-- After `put m c true` the flags are those of before, and that of `c`.
put-flag_iff :
    (c cidr : Text) (m : Map Text Bool)
    → (flag (put m c true cidr) ≡ true) ↔ ((cidr ≡ c) ⊎ (flag (m cidr) ≡ true))
put-flag_iff c cidr m = elim (Bool-cases (c == cidr)) [
  | inl same ↦ rw same (λ h. inl (sym (beq→eq c cidr same)), λ h. refl)
  | inr other ↦ rw other (
    λ h. inr h,
    λ h. elim h [ inl e ↦ absurd (beq_false→ne c cidr other (sym e)) | inr old ↦ old ],
  )
]

pub allowed_loop_iff :
    (cidrs : List Text) (m : Map Text Bool) (cidr : Text)
    → (flag (allowed_loop cidrs m cidr) ≡ true) ↔ (In cidr cidrs ⊎ (flag (m cidr) ≡ true))
unfolding allowed_loop for_each
allowed_loop_iff [] m cidr = (λ h. inr h, λ h. elim h [ inl i ↦ absurd i | inr old ↦ old ])
allowed_loop_iff (c ∷ cs) m cidr =
    let later = allowed_loop_iff cs (put m c true) cidr in
    let first = put-flag_iff c cidr m in
    (
      λ h. elim (later.0 h) [
        | inl i ↦ inl (inr i)
        | inr now ↦ elim (first.0 now) [ inl e ↦ inl (inl e) | inr old ↦ inr old ]
      ],
      λ h. later.1 (elim h [
        | inl (inl e) ↦ inr (first.1 (inl e))
        | inl (inr i) ↦ inl i
        | inr old ↦ inr (first.1 (inr old))
      ]),
    )

map-In :
    {A B : Type 0} (f : A → B) (xs : List A) (b : B)
    → In b (map f xs)
    → (a : A) × In a xs × (b ≡ f a)
map-In f [] b i = absurd i
map-In f (x ∷ xs) b (inl e) = (x, inl refl, e)
map-In f (x ∷ xs) b (inr i) = let (a, j, e) = map-In f xs b i in (a, inr j, e)

module _ (net : NetText) (enabled : List Text) (sweep : Attached → SweepReply)
    (table : Attached → List Neighbor) where
  -- The networks that may be swept and whose sweep was complete.
  unfoldable pub covered : Attached → Bool
  unfolding allowed_loop is_complete
  covered a = flag (allowed_loop enabled empty a.cidr) && is_complete (sweep a)

  swept-scanned :
      (a : Attached) (reply : SweepReply) (neighbours : Map Text Text) (p : Progress)
      → (swept net a reply neighbours reply.error p).result.scanned
        ≡ p.result.scanned ++ (if is_complete reply then a.cidr ∷ [] else [])
  unfolding is_complete swept
  swept-scanned a reply neighbours p = elim (Option-cases reply.error) [
    | inl fine ↦ rw (fine, swept) (ground (arith, append-nil p.result.scanned))
    | inr (no_probe, bad) ↦ rw (bad, swept) (sym (append-nil p.result.scanned))
    | inr (sweep_failed, bad) ↦ rw (bad, swept) (sym (append-nil p.result.scanned))
  ]

  visit-scanned :
      (a : Attached) (p : Progress)
      → (visit net enabled sweep table a p).result.scanned
        ≡ p.result.scanned ++ (if covered a then a.cidr ∷ [] else [])
  unfolding visit covered
  visit-scanned a p = elim (Bool-cases (flag (allowed_loop enabled empty a.cidr))) [
    | inl allowed ↦ rw allowed (swept-scanned a (sweep a) (neighbours_in net (table a) a.net) _)
    | inr skipped ↦ rw skipped (sym (append-nil p.result.scanned))
  ]

  visits-scanned :
      (rest : List Attached) (p : Progress)
      → (for_each (visit net enabled sweep table) rest p).result.scanned
        ≡ p.result.scanned ++ map (λ a. a.cidr) (keep covered rest)
  unfolding for_each
  visits-scanned [] p = unfold keep in sym (append-nil p.result.scanned)
  visits-scanned (a ∷ rest) p =
      visits-scanned rest (visit net enabled sweep table a p)
      ∙ ap (λ l. l ++ map (λ b. b.cidr) (keep covered rest)) (visit-scanned a p)
      ∙ elim (Bool-cases (covered a)) [
        | inl yes_a ↦
            rw (yes_a, keep-true covered a rest yes_a)
              (append_assoc p.result.scanned (a.cidr ∷ []) _)
        | inr no_a ↦
            rw (no_a, keep-false covered a rest no_a)
              (ap (λ l. l ++ map (λ b. b.cidr) (keep covered rest)) (append-nil p.result.scanned))
      ]

  -- `covered` in terms of the list that the server sent.
  covered_iff :
      (a : Attached)
      → (covered a ≡ true)
        ↔ (In a.cidr enabled × ((sweep a).error ≡ none) × ((sweep a).undelivered ≡ 0))
  unfolding covered is_complete
  covered_iff a = (
    λ h.
        let (allowed, done) =
          &&-true (flag (allowed_loop enabled empty a.cidr)) (is_complete (sweep a)) h in
        (
          elim ((allowed_loop_iff enabled empty a.cidr).0 allowed) [
            | inl i ↦ i
            | inr never ↦ absurd (cc never)
          ],
          ground arith,
          ground arith,
        ),
    λ (i, fine, sent). rw ((allowed_loop_iff enabled empty a.cidr).1 (inl i), fine, sent) refl,
  )

  run_context-scanned :
      (resolve : List Text → Map Text Text) (attachments : List Attached)
      → (run_context net enabled sweep table resolve attachments).scanned
        ≡ map (λ a. a.cidr) (keep covered attachments)
  unfolding run_context visit_all
  run_context-scanned resolve attachments = visits-scanned attachments nothing_yet

  -- A sweep claims to have covered a network exactly if the network is attached, the server has
  -- enabled it, its own sweep ended without an error, and no probe of it stayed unsent.
  pub scanned_iff :
      (resolve : List Text → Map Text Text) (attachments : List Attached) (cidr : Text)
      → In cidr (run_context net enabled sweep table resolve attachments).scanned ↔ (
          (a : Attached) × In a attachments
          × (cidr ≡ a.cidr)
          × In a.cidr enabled
          × ((sweep a).error ≡ none)
          × ((sweep a).undelivered ≡ 0))
  scanned_iff resolve attachments cidr = rw (run_context-scanned resolve attachments) (
    λ i.
        let (a, kept, e) = map-In (λ a. a.cidr) (keep covered attachments) cidr i in
        let (j, good) = keep-In covered attachments a kept in
        let (i', fine, sent) = (covered_iff a).0 good in (a, j, e, i', fine, sent),
    λ (a, j, e, i', fine, sent). rw e (
        In-map (λ a. a.cidr) (keep covered attachments) a
          (In-keep covered attachments a j ((covered_iff a).1 (i', fine, sent)))),
  )
