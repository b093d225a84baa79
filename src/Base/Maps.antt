-- ===== src/Base/Maps.antt =====
-- Go maps as functions from a key to the value stored there.
use Prim.Native.Nat.{ℕ, zero, suc}
use mathlib.Core.List.{[], ◌∷◌}
use mathlib.Core.Path.{◌≡◌, refl, fun_ext}
use mathlib.Core.Logic.{◌≢◌}
use mathlib.Core.Bool.{Bool, false}
use mathlib.Core.Option.{Option, none, some}
use native.Mathlib.Omega.{arith}
use pulsitor_lan_agent.Base.Tests.{if◌then◌else◌}
use pulsitor_lan_agent.Base.Equality.{Eq, ◌==◌, Text}

abbrev pub Map {ℓ κ} : Type ℓ → Type κ → Type (ℓ ⊔ κ)
Map K V = K → Option V

-- A disk: the bytes that stand under a path.
abbrev pub Disk : Type 0
Disk = Map Text Text

abbrev pub empty {ℓ κ} : {K : Type ℓ} {V : Type κ} → Map K V
empty k = none

-- A missing key reads as `false` from a map of Booleans.
abbrev pub flag : Option Bool → Bool
flag none = false
flag (some b) = b

module _ {ℓ κ} {K : Type ℓ} {V : Type κ} ⦃e : Eq K⦄ where
  abbrev pub put : Map K V → K → V → Map K V
  put m k v j = if k == j then some v else m j

  abbrev pub remove : Map K V → K → Map K V
  remove m k j = if k == j then none else m j

  pub put_self : (m : Map K V) (k : K) (v : V) → put m k v k ≡ some v
  put_self m k v = rw ((e.beq_iff k k).1 refl)

  pub put_ne : (m : Map K V) (k j : K) (v : V) → k ≢ j → put m k v j ≡ m j
  put_ne m k j v h = ground (arith, e.beq_iff k j)

  pub put_same : (m : Map K V) (k : K) (v : V) → m k ≡ some v → put m k v ≡ m
  put_same m k v h = fun_ext (λ j. ground (arith, e.beq_iff k j))

  pub remove_self : (m : Map K V) (k : K) → remove m k k ≡ none
  remove_self m k = rw ((e.beq_iff k k).1 refl)

  pub remove_ne : (m : Map K V) (k j : K) → k ≢ j → remove m k j ≡ m j
  remove_ne m k j h = ground (arith, e.beq_iff k j)

-- A missing file reads as an empty one.
unfoldable pub content : Option Text → Text
content none = []
content (some text) = text

-- The first bytes of a text.
unfoldable pub take : ℕ → Text → Text
take zero bytes = []
take (suc n) [] = []
take (suc n) (b ∷ bytes) = b ∷ take n bytes
