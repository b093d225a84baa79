-- ===== src/Base/Keeping.antt =====
-- What `keep` keeps, and what it leaves of the keys of a list.
use mathlib.Core.Path.{◌≡◌, subst}
use mathlib.Core.Logic.{inl, inr}
use mathlib.Core.Bool.{Bool, true, false}
use mathlib.Core.List.{List, [], ◌∷◌, map}
use pulsitor_lan_agent.Base.Tests.{Bool-cases}
use pulsitor_lan_agent.Base.Lists.{In, Distinct, keep}
use pulsitor_lan_agent.Base.Loops.{In-map}

module _ {A : Type 0} (p : A → Bool) where
  -- The list is that of `keep`'s clause, for a test that is known.
  pub keep-true : (x : A) (xs : List A) → p x ≡ true → keep p (x ∷ xs) ≡ x ∷ keep p xs
  unfolding keep
  keep-true x xs h = rw h

  pub keep-false : (x : A) (xs : List A) → p x ≡ false → keep p (x ∷ xs) ≡ keep p xs
  unfolding keep
  keep-false x xs h = rw h

  pub In-keep : (xs : List A) (a : A) → In a xs → p a ≡ true → In a (keep p xs)
  In-keep [] a i h = absurd i
  In-keep (x ∷ xs) a (inl e) h =
      let own : p x ≡ true = rw (← e) h in rw (keep-true x xs own) (inl e)
  In-keep (x ∷ xs) a (inr i) h = elim (Bool-cases (p x)) [
    | inl yes_x ↦ rw (keep-true x xs yes_x) (inr (In-keep xs a i h))
    | inr no_x ↦ rw (keep-false x xs no_x) (In-keep xs a i h)
  ]

  pub keep-In : (xs : List A) (a : A) → In a (keep p xs) → In a xs × (p a ≡ true)
  unfolding keep
  keep-In [] a i = absurd i
  keep-In (x ∷ xs) a i = elim (Bool-cases (p x)) [
    | inl yes_x ↦ elim (rw (keep-true x xs yes_x) at i) [
      | inl e ↦ (inl e, rw e yes_x)
      | inr j ↦ let (k, h) = keep-In xs a j in (inr k, h)
    ]
    | inr no_x ↦ let (k, h) = keep-In xs a (rw (keep-false x xs no_x) at i) in (inr k, h)
  ]

  module _ {K : Type 0} (key : A → K) where
    keep-key : (xs : List A) (k : K) → In k (map key (keep p xs)) → In k (map key xs)
    keep-key [] k i = unfold keep in i
    keep-key (x ∷ xs) k i = elim (Bool-cases (p x)) [
      | inl yes_x ↦ elim (rw (keep-true x xs yes_x) at i) [
        | inl e ↦ inl e
        | inr j ↦ inr (keep-key xs k j)
      ]
      | inr no_x ↦ inr (keep-key xs k (rw (keep-false x xs no_x) at i))
    ]

    pub Distinct-keep : (xs : List A) → Distinct (map key xs) → Distinct (map key (keep p xs))
    Distinct-keep [] d = unfold keep in tt
    Distinct-keep (x ∷ xs) (absent, d) = elim (Bool-cases (p x)) [
      | inl yes_x ↦
          rw (keep-true x xs yes_x) ((λ i. absent (keep-key xs (key x) i)), Distinct-keep xs d)
      | inr no_x ↦ rw (keep-false x xs no_x) (Distinct-keep xs d)
    ]

    -- An element that is dropped leaves no element with its key.
    pub keep-absent :
        (xs : List A) (a : A)
        → Distinct (map key xs)
        → In a xs
        → p a ≡ false
        → ¬ In (key a) (map key (keep p xs))
    keep-absent [] a d i h = absurd i
    keep-absent (x ∷ xs) a (absent, d) (inl e) h =
        let own : p x ≡ false = rw (← e) h in
        rw (keep-false x xs own, e) (λ j. absent (keep-key xs (key x) j))
    keep-absent (x ∷ xs) a (absent, d) (inr i) h = elim (Bool-cases (p x)) [
      | inl yes_x ↦ rw (keep-true x xs yes_x) (λ j. elim j [
        | inl e ↦ absent (subst (λ k. In k (map key xs)) e (In-map key xs a i))
        | inr j' ↦ keep-absent xs a d i h j'
      ])
      | inr no_x ↦ rw (keep-false x xs no_x) (keep-absent xs a d i h)
    ]
