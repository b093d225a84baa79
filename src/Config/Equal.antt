-- ===== src/Config/Equal.antt =====
-- `Runtime.Equal` of internal/config/config.go decides equality.
use pulsitor_lan_agent.Base.{
  ◌≡◌, ◌↔◌, inl, inr, refl, ap, ap₂, true, Option, none, some, List, [], ◌∷◌, arith, Bool-cases, Eq,
  ◌==◌, nat_eq, text_eq, int_beq_iff, int_eq, length,
}
use pulsitor_lan_agent.Config.{Runtime, target_eq, same_items, equal_values, equal}

same_items_sound {ℓ} :
    {A : Type ℓ} ⦃e : Eq A⦄ (xs ys : List A)
    → length xs ≡ length ys
    → same_items xs ys ≡ true
    → xs ≡ ys
unfolding same_items
same_items_sound [] [] len h = refl
same_items_sound [] (y ∷ ys) len h = absurd (omega arith)
same_items_sound (x ∷ xs) [] len h = cc
same_items_sound ⦃e⦄ (x ∷ xs) (y ∷ ys) len h = elim (Bool-cases (x == y)) [
  | inl same ↦
      ap₂ ◌∷◌ ((e.beq_iff x y).0 same) (same_items_sound xs ys (omega arith) (rw same at h))
  | inr other ↦ absurd (ground arith)
]

same_items_refl {ℓ} : {A : Type ℓ} ⦃e : Eq A⦄ (xs : List A) → same_items xs xs ≡ true
unfolding same_items
same_items_refl [] = refl
same_items_refl ⦃e⦄ (x ∷ xs) = rw ((e.beq_iff x x).1 refl, same_items_refl xs)

equal_values_sound : (a b : Runtime) → equal_values a b ≡ true → a ≡ b
unfolding equal_values
equal_values_sound a b h = ground (
  arith,
  int_beq_iff a.discovery_interval_seconds b.discovery_interval_seconds,
  int_beq_iff a.discovery_min_interval_seconds b.discovery_min_interval_seconds,
  int_beq_iff a.check_in_interval_seconds b.check_in_interval_seconds,
  same_items_sound a.subnets b.subnets,
  same_items_sound a.targets b.targets,
)

equal_values_refl : (a : Runtime) → equal_values a a ≡ true
unfolding equal_values
equal_values_refl a = ground (
  arith,
  int_beq_iff a.discovery_interval_seconds a.discovery_interval_seconds,
  int_beq_iff a.discovery_min_interval_seconds a.discovery_min_interval_seconds,
  int_beq_iff a.check_in_interval_seconds a.check_in_interval_seconds,
  same_items_refl a.subnets,
  same_items_refl a.targets,
)

-- `Equal` holds exactly of two configurations with the same values, or of two nil pointers.
pub equal_iff : (a b : Option Runtime) → (equal a b ≡ true) ↔ (a ≡ b)
unfolding equal
equal_iff none none = (λ h. refl, λ h. refl)
equal_iff none (some b) = (λ h. cc, λ h. cc)
equal_iff (some a) none = (λ h. cc, λ h. cc)
equal_iff (some a) (some b) =
    (λ h. ap some (equal_values_sound a b h), λ h. let e : a ≡ b = cc in rw e (equal_values_refl b))
