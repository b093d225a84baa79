-- ===== src/Base/Loops.antt =====
-- A `for range` loop that updates a state, and loops over a map that touch one key a round.
use mathlib.Core.Path.{◌≡◌, refl, sym, ap, subst, ◌∙◌}
use mathlib.Core.Logic.{◌≢◌, inl, inr}
use mathlib.Core.Option.{Option}
use mathlib.Core.List.{List, [], ◌∷◌, map}
use pulsitor_lan_agent.Base.Lists.{In, Distinct}
use pulsitor_lan_agent.Base.Maps.{Map}

unfoldable pub for_each {ℓ κ} : {A : Type ℓ} {S : Type κ} → (A → S → S) → List A → S → S
for_each f [] s = s
for_each f (x ∷ xs) s = for_each f xs (f x s)

-- What every round keeps, the whole loop keeps.
pub for_each-keeps {ℓ} :
    {A : Type 0} {S : Type ℓ} (P : S → Type 0) (f : A → S → S) (xs : List A) (s : S)
    → ((x : A) → In x xs → (s : S) → P s → P (f x s))
    → P s
    → P (for_each f xs s)
unfolding for_each
for_each-keeps P f [] s round h = h
for_each-keeps P f (x ∷ xs) s round h =
    for_each-keeps P f xs (f x s) (λ y i. round y (inr i)) (round x (inl refl) s h)

pub In-map : {A B : Type 0} (f : A → B) (xs : List A) (a : A) → In a xs → In (f a) (map f xs)
In-map f [] a i = absurd i
In-map f (x ∷ xs) a (inl e) = inl (ap f e)
In-map f (x ∷ xs) a (inr i) = inr (In-map f xs a i)

-- A body that leaves every key but its own alone, and sets its own from what stands there.
module _ {A K V : Type 0} (key : A → K) (body : A → Map K V → Map K V)
    (set : A → Option V → Option V)
    (own : (a : A) (m : Map K V) → body a m (key a) ≡ set a (m (key a)))
    (others : (a : A) (m : Map K V) (k : K) → key a ≢ k → body a m k ≡ m k) where
  pub for_each-other :
      (xs : List A) (m : Map K V) (k : K) → ¬ In k (map key xs) → for_each body xs m k ≡ m k
  unfolding for_each
  for_each-other [] m k h = refl
  for_each-other (x ∷ xs) m k h =
      for_each-other xs (body x m) k (λ i. h (inr i)) ∙ others x m k (λ e. h (inl (sym e)))

  pub for_each-at :
      (xs : List A) (m : Map K V) (a : A)
      → Distinct (map key xs)
      → In a xs
      → for_each body xs m (key a) ≡ set a (m (key a))
  unfolding for_each
  for_each-at [] m a d i = absurd i
  for_each-at (x ∷ xs) m a (absent, d) (inl e) =
      rw e (for_each-other xs (body x m) (key x) absent ∙ own x m)
  for_each-at (x ∷ xs) m a (absent, d) (inr i) =
      for_each-at xs (body x m) a d i
      ∙ ap (set a) (
          others x m (key a)
            (λ e. absent (subst (λ k. In k (map key xs)) (sym e) (In-map key xs a i))))
